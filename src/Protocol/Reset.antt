-- ===== src/Protocol/Reset.antt =====
-- The packets that reset a connection.
use pvn_project.Base.{ℕ, ◌/◌, ◌≡◌, refl}
use pvn_project.Pnet.{Pnet, PnetLaws, Header, IpAddr, v4, v6}
use pvn_project.Protocol.{rst, generate_return_rst, set_tcp_checksum}

-- What a reset in answer to `original` says: it swaps the ends of the connection, asks for a reset
-- and nothing else, and has a header of the least size.
pub record Answers (original answer : Header) (seqno words : ℕ) : Type 0 where
  pub source : answer.source ≡ original.destination
  pub destination : answer.destination ≡ original.source
  pub sequence : answer.sequence ≡ seqno
  pub flags : answer.flags ≡ rst
  pub data_offset : answer.data_offset ≡ words

module _ {P : Type 0} (net : Pnet P) (laws : PnetLaws net) where
  -- The checksum changes nothing else of the header, for whatever pair of addresses.
  pub header-set_tcp_checksum :
      (p : P) (a b : IpAddr)
      → net.header (set_tcp_checksum net p a b)
        ≡ record (net.header p) { checksum = (net.header (set_tcp_checksum net p a b)).checksum }
  unfolding set_tcp_checksum
  header-set_tcp_checksum p (v4 a) (v4 b) = rw laws.header-set_checksum
  header-set_tcp_checksum p (v6 a) (v6 b) = rw laws.header-set_checksum
  header-set_tcp_checksum p (v4 a) (v6 b) = refl
  header-set_tcp_checksum p (v6 a) (v4 b) = refl

  -- Nor does it change the payload.
  pub payload-set_tcp_checksum :
      (p : P) (a b : IpAddr) → net.payload (set_tcp_checksum net p a b) ≡ net.payload p
  unfolding set_tcp_checksum
  payload-set_tcp_checksum p (v4 a) (v4 b) = laws.payload-set_checksum _ p
  payload-set_tcp_checksum p (v6 a) (v6 b) = laws.payload-set_checksum _ p
  payload-set_tcp_checksum p (v4 a) (v6 b) = refl
  payload-set_tcp_checksum p (v6 a) (v4 b) = refl

  -- `generate_return_rst` and the checksum behind it answer the original packet, with the given
  -- sequence number, whatever the addresses are.
  pub generate_return_rst-Answers :
      (original : P) (seqno : ℕ) (a b : IpAddr)
      → Answers
          (net.header original)
          (net.header (set_tcp_checksum net (generate_return_rst net original seqno) a b))
          seqno
          (net.minimum_packet_size / 4)
  unfolding generate_return_rst
  generate_return_rst-Answers original seqno a b =
      rw
        (
          header-set_tcp_checksum (generate_return_rst net original seqno) a b,
          laws.header-set_data_offset,
          laws.header-set_flags,
          laws.header-set_sequence,
          laws.header-set_source,
          laws.header-set_destination,
        )
        (record {
          source = refl;
          destination = refl;
          sequence = refl;
          flags = refl;
          data_offset = refl;
        })
