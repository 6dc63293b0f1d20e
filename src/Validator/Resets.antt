-- ===== src/Validator/Resets.antt =====
-- The packets that end a bad connection.
use pvn_project.Base.{
  ℕ, zero, suc, ◌<◌, ◌/◌, ◌≡◌, refl, ◌∙◌, Bool, true, ◌&&◌, ◌==◌, ==_iff, bit_and, bit_or, arith,
}
use pvn_project.Pnet.{Pnet, PnetLaws, Header}
use pvn_project.Flow.{TcpFlow}
use pvn_project.Protocol.{rst}
use pvn_project.Protocol.Reset.{
  Answers, header-set_tcp_checksum, payload-set_tcp_checksum, generate_return_rst-Answers,
}
use pvn_project.Validator.{invalid, reset}

-- Setting the RST bit in any flags below `limit` sets it.
sets_rst : ℕ → Bool
sets_rst zero = true
sets_rst (suc limit) = bit_and rst (bit_or limit rst) == rst && sets_rst limit

rst_is_set :
    (limit flags : ℕ) → flags < limit → sets_rst limit ≡ true → bit_and rst (bit_or flags rst) ≡ rst
unfolding sets_rst
rst_is_set zero flags below table = absurd (omega arith)
rst_is_set (suc limit) flags below table =
    let smaller = rst_is_set limit flags in grind (arith, smaller, ==_iff)

bytes_set_rst : sets_rst 256 ≡ true
unfolding sets_rst
bytes_set_rst = refl

-- What the receiver of the forwarded packet sees: the original header with the RST bit set beside
-- the bits it had, and another checksum.
pub record Resets (original forwarded : Header) : Type 0 where
  pub source : forwarded.source ≡ original.source
  pub destination : forwarded.destination ≡ original.destination
  pub sequence : forwarded.sequence ≡ original.sequence
  pub data_offset : forwarded.data_offset ≡ original.data_offset
  pub flags : forwarded.flags ≡ bit_or original.flags rst
  pub has_rst : bit_and rst forwarded.flags ≡ rst

-- Both packets of `reset` have the RST bit set. The one that goes on is the original packet, its
-- header but for the checksum and its payload, with this bit set beside the flags it had. The one
-- that goes back answers it: from its destination to its source, with the given sequence number, a
-- header of the least size, and no flag but RST. The original flags are a byte.
pub reset-Resets :
    {P : Type 0} (net : Pnet P) (laws : PnetLaws net) (p : P) (flow : TcpFlow) (seqno : ℕ)
    → (net.header p).flags < 256
    → (forward : P) × (back : P) × (reset net p flow seqno ≡ invalid forward back)
      × Resets (net.header p) (net.header forward)
      × (net.payload forward ≡ net.payload p)
      × Answers (net.header p) (net.header back) seqno (net.minimum_packet_size / 4)
unfolding reset
reset-Resets net laws p flow seqno byte = (
  _,
  _,
  refl,
  rw
      (
        header-set_tcp_checksum net laws (net.set_flags (bit_or (net.header p).flags rst) p)
            flow.source_ip flow.dest_ip,
        laws.header-set_flags,
      )
      (record {
        source = refl;
        destination = refl;
        sequence = refl;
        data_offset = refl;
        flags = refl;
        has_rst = rst_is_set 256 (net.header p).flags byte bytes_set_rst;
      }),
  payload-set_tcp_checksum net laws (net.set_flags (bit_or (net.header p).flags rst) p)
        flow.source_ip flow.dest_ip
      ∙ laws.payload-set_flags (bit_or (net.header p).flags rst) p,
  generate_return_rst-Answers net laws p seqno flow.source_ip flow.dest_ip,
)
