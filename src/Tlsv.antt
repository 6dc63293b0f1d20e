-- ===== src/Tlsv.antt =====
-- apps/tls_validator/src/bin/tlsv.rs: the loop between the network interface and the middlebox.
-- The interface's library is a parameter; a received packet gives the list of packets that are
-- sent, and `none` is a panic: a malformed packet, or a packet of the loop's own that the interface
-- does not send. The opening of the interface is left out.
pub mod Resets
pub mod Loop
mod Tests
use pvn_project.Base.{
  ℕ, ◌+◌, ◌/◌, ◌%◌, Bool, true, false, List, [], ◌∷◌, Option, none, some, ◌==◌, if◌then◌else◌,
  ◌>>=◌, length, ◌++◌, ◌≡◌,
}
use pvn_project.Pnet.{Pnet, IpAddr, v4, v6}
use pvn_project.Flow.{TcpFlow, reverse}
use pvn_project.Validator.{
  Tls, TlsvMiddlebox, TlsvResult, cleared, invalid, process_outgoing, process_incoming,
}

abbrev pub new_packet_ttl : ℕ
new_packet_ttl = 64

-- The number of the TCP protocol.
abbrev pub tcp_protocol : ℕ
tcp_protocol = 6

-- The header fields of an IP packet, as the library's getters read them; `ttl` is the hop limit
-- and `total_length` the payload length of version 6.
pub record IpHeader : Type 0 where
  pub version : ℕ
  pub source : ℕ
  pub destination : ℕ
  pub next_protocol : ℕ
  pub ttl : ℕ
  pub header_length : ℕ
  pub total_length : ℕ
  pub checksum : ℕ

-- IP packets of one version. `blank n` is a packet over `n` zero bytes.
pub record IpNet (Q : Type 0) : Type 0 where
  pub header : Q → IpHeader
  pub payload : Q → List ℕ
  pub minimum_packet_size : ℕ
  pub blank : ℕ → Q
  pub set_header : IpHeader → Q → Q
  pub set_payload : List ℕ → Q → Q
  pub checksum_of : Q → ℕ

module _ {P Q : Type 0} (net : Pnet P) (ip : IpNet Q) where
  -- The setters in the code's order, those of the fixed fields in one `set_header`; the packet is
  -- over `n` bytes, and a `u16` field takes the size modulo 2^16.
  unfoldable pub prepare_ipv4_packet : ℕ → ℕ → ℕ → P → Q
  prepare_ipv4_packet n src dest tcp =
      let q = ip.blank n in
      let filled = ip.set_payload (net.packet tcp) (
        ip.set_header
          (record (ip.header q) {
            version = 4;
            source = src;
            destination = dest;
            next_protocol = tcp_protocol;
            ttl = new_packet_ttl;
            header_length = ip.minimum_packet_size / 4 % 256;
            total_length = n % 65536;
          })
          q) in
      ip.set_header (record (ip.header filled) { checksum = ip.checksum_of filled }) filled

  unfoldable pub prepare_ipv6_packet : ℕ → ℕ → ℕ → P → Q
  prepare_ipv6_packet n src dest tcp =
      let q = ip.blank n in
      ip.set_payload (net.packet tcp) (
        ip.set_header
          (record (ip.header q) {
            version = 6;
            source = src;
            destination = dest;
            next_protocol = tcp_protocol;
            ttl = new_packet_ttl;
            total_length = length (net.packet tcp) % 65536;
          })
          q)

-- A setter writes its own part of the packet, and a reader of that part finds it there.
pub record IpLaws {Q : Type 0} (ip : IpNet Q) : Type 0 where
  pub header-set_header : (h : IpHeader) (q : Q) → ip.header (ip.set_header h q) ≡ h
  pub payload-set_header : (h : IpHeader) (q : Q) → ip.payload (ip.set_header h q) ≡ ip.payload q
  pub header-set_payload : (b : List ℕ) (q : Q) → ip.header (ip.set_payload b q) ≡ ip.header q
  pub payload-set_payload : (b : List ℕ) (q : Q) → ip.payload (ip.set_payload b q) ≡ b

-- What the loops for the two versions differ in.
pub record Version (P Q : Type 0) : Type 0 where
  pub address : ℕ → IpAddr
  pub prepare : ℕ → ℕ → ℕ → P → Q

-- `tcp_new` stands for `TcpPacket::new`.
module _ {P Q : Type 0} (net : Pnet P) (ip : IpNet Q) (tcp_new : List ℕ → Option P)
    (tls : Tls) where
  unfoldable pub flow_of : Version P Q → Q → P → TcpFlow
  flow_of version packet tcp = record {
    source_ip = version.address (ip.header packet).source;
    dest_ip = version.address (ip.header packet).destination;
    source_port = (net.header tcp).source;
    dest_port = (net.header tcp).destination;
  }

  -- The middlebox sees the packets that the client sends or receives, and no others.
  unfoldable pub consult :
      Version P Q → ℕ → TlsvMiddlebox → ℕ → Q → P → Option (TlsvMiddlebox × TlsvResult P)
  unfolding flow_of
  consult version client_ip m now packet tcp =
      if client_ip == (ip.header packet).source
      then process_outgoing net tls m now tcp (flow_of version packet tcp)
      else if client_ip == (ip.header packet).destination
      then process_incoming net tls m now tcp (reverse (flow_of version packet tcp))
      else some (m, TlsvResult.cleared)

  -- A packet that is built in the interface's buffer; the loop expects that it is sent.
  unfoldable pub build_and_send : (Q → Bool) → Q → Option Q
  build_and_send sends q = if sends q then some q else none

  -- What is sent in place of, or as, the packet. Whether the packet itself is sent is not looked at.
  unfoldable pub sent : (Q → Bool) → Version P Q → Q → TlsvResult P → Option (List Q)
  unfolding build_and_send
  sent sends version packet TlsvResult.cleared = some (packet ∷ [])
  sent sends version packet (invalid forward_packet return_packet) =
      build_and_send sends (
        version.prepare (ip.minimum_packet_size + length (net.packet forward_packet))
          (ip.header packet).source (ip.header packet).destination forward_packet)
      >>= λ forward.
          build_and_send sends (
            version.prepare (ip.minimum_packet_size + length (net.packet return_packet))
              (ip.header packet).destination (ip.header packet).source return_packet)
          >>= λ back. some (forward ∷ back ∷ [])

  -- The body of the loop for a packet that was received. `sends` says which packets the interface
  -- sends at which time.
  unfoldable pub process_packet :
      (ℕ → Q → Bool) → Version P Q → ℕ → TlsvMiddlebox → ℕ → Q → Option (TlsvMiddlebox × List Q)
  unfolding consult sent
  process_packet sends version client_ip m now packet =
      if (ip.header packet).next_protocol == tcp_protocol
      then (tcp_new (ip.payload packet) >>= λ tcp.
          consult version client_ip m now packet tcp >>= λ r.
          sent (sends now) version packet r.1 >>= λ out. some (r.0, out))
      else some (m, packet ∷ [])

  unfoldable pub process_ipv4_packet :
      (ℕ → Q → Bool) → ℕ → TlsvMiddlebox → ℕ → Q → Option (TlsvMiddlebox × List Q)
  process_ipv4_packet sends =
      process_packet sends (record { address = v4; prepare = prepare_ipv4_packet net ip })

  unfoldable pub process_ipv6_packet :
      (ℕ → Q → Bool) → ℕ → TlsvMiddlebox → ℕ → Q → Option (TlsvMiddlebox × List Q)
  process_ipv6_packet sends =
      process_packet sends (record { address = v6; prepare = prepare_ipv6_packet net ip })

  -- The loop over what `rx.next()` gives, each with its time; `none` is a failed read.
  unfoldable pub process_all :
      (ℕ → Q → Bool)
      → Version P Q
      → ℕ
      → TlsvMiddlebox
      → List (Option Q × ℕ)
      → Option (TlsvMiddlebox × List Q)
  process_all sends version client_ip m [] = some (m, [])
  process_all sends version client_ip m ((none, now) ∷ events) =
      process_all sends version client_ip m events
  process_all sends version client_ip m ((some packet, now) ∷ events) =
      process_packet sends version client_ip m now packet >>= λ r.
      process_all sends version client_ip r.0 events >>= λ s. some (s.0, r.1 ++ s.1)
