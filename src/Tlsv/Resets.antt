-- ===== src/Tlsv/Resets.antt =====
-- The IP packets that the loop builds around the middlebox's resets.
use pvn_project.Base.{ℕ, ◌%◌, ◌≡◌, refl, List, length}
use pvn_project.Pnet.{Pnet}
use pvn_project.Tlsv.{
  IpNet, IpHeader, IpLaws, prepare_ipv4_packet, prepare_ipv6_packet, tcp_protocol, new_packet_ttl,
}

-- A packet of the version, between the two addresses, that carries the bytes of a TCP packet.
pub record IsCarrier (version src dest : ℕ) (bytes : List ℕ) (h : IpHeader) (payload : List ℕ)
    : Type 0 where
  pub is_version : h.version ≡ version
  pub from : h.source ≡ src
  pub to : h.destination ≡ dest
  pub is_tcp : h.next_protocol ≡ tcp_protocol
  pub lives : h.ttl ≡ new_packet_ttl
  pub carries : payload ≡ bytes

module _ {P Q : Type 0} (net : Pnet P) (ip : IpNet Q) (laws : IpLaws ip) where
  -- From a TCP packet and two addresses, `prepare_ipv4_packet` builds a packet of version 4 and
  -- `prepare_ipv6_packet` one of version 6: from the one address, to the other, with the TCP
  -- protocol number, the fixed time to live, and the TCP packet's bytes as its payload. The length
  -- field of version 4 is the given size and that of version 6 the size of the TCP packet, both
  -- cut to 16 bits.
  prepare-IsCarrier :
      (n src dest : ℕ) (tcp : P)
      → IsCarrier 4 src dest
          (net.packet tcp)
          (ip.header (prepare_ipv4_packet net ip n src dest tcp))
          (ip.payload (prepare_ipv4_packet net ip n src dest tcp))
        × IsCarrier 6 src dest
            (net.packet tcp)
            (ip.header (prepare_ipv6_packet net ip n src dest tcp))
            (ip.payload (prepare_ipv6_packet net ip n src dest tcp))
        × ((ip.header (prepare_ipv4_packet net ip n src dest tcp)).total_length ≡ n % 65536)
        × ((ip.header (prepare_ipv6_packet net ip n src dest tcp)).total_length
            ≡ length (net.packet tcp) % 65536)
  unfolding prepare_ipv4_packet prepare_ipv6_packet
  prepare-IsCarrier n src dest tcp =
      simp
        (
          laws.header-set_header, laws.payload-set_header, laws.header-set_payload,
          laws.payload-set_payload,
        )
        (
          record {
            is_version = refl;
            from = refl;
            to = refl;
            is_tcp = refl;
            lives = refl;
            carries = refl;
          },
          record {
            is_version = refl;
            from = refl;
            to = refl;
            is_tcp = refl;
            lives = refl;
            carries = refl;
          },
          refl,
          refl,
        )
