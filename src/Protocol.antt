-- ===== src/Protocol.antt =====
-- apps/tls_validator/src/protocol.rs: TLS handshake frames at the start of a TCP buffer, and the
-- TCP packets that reset a connection. The decoder of a frame's body is a parameter; a message is
-- told apart as far as apps/tls_validator/src/lib.rs does.
pub mod Frame
pub mod Reset
mod Tests
use pvn_project.Base.{
  ℕ, ◌+◌, ◌*◌, ◌/◌, ◌-◌, Bool, true, false, not, ◌||◌, List, [], ◌∷◌, Option, none, some, Result,
  ok, err, ltb, ◌==◌, if◌then◌else◌, length, get_or, take, drop,
}
use pvn_project.Pnet.{Pnet, Header, IpAddr, v4, v6}
use pvn_project.TcpBuffer.{TcpBuffer, len, get_data}

abbrev pub tls_header_length : ℕ
tls_header_length = 5

abbrev pub tls_max_record_length : ℕ
tls_max_record_length = 16384

abbrev pub tls_handshake_record : ℕ
tls_handshake_record = 0x16

-- `TcpFlags::RST` and `TcpFlags::SYN`
abbrev pub rst : ℕ
rst = 4

abbrev pub syn : ℕ
syn = 2

-- Names, certificates and extensions of the TLS library. A certificate and a DNS name are bytes.
pub data ServerName : Type 0 where
  dns_name : List ℕ → ServerName
  ip_address : IpAddr → ServerName

pub data ServerNamePayload : Type 0 where
  single_dns_name : List ℕ → ServerNamePayload
  ip_address : ServerNamePayload
  invalid : ServerNamePayload

pub data ClientExtension : Type 0 where
  server_name : ServerNamePayload → ClientExtension
  other : ClientExtension

pub data ProtocolVersion : Type 0 where
  tlsv1_2 : ProtocolVersion
  other : ProtocolVersion

pub data ServerExtension : Type 0 where
  supported_versions : ProtocolVersion → ServerExtension
  other : ServerExtension

pub data HandshakePayload : Type 0 where
  client_hello : List ClientExtension → HandshakePayload
  server_hello : List ServerExtension → HandshakePayload
  certificate : List (List ℕ) → HandshakePayload
  other : HandshakePayload

pub record HandshakeMessage : Type 0 where
  pub is_tls12 : Bool
  pub total_len : ℕ
  pub payload : HandshakePayload

-- The minor version and the length of the record. The caller has five bytes: a read beyond them,
-- a panic in the source, is 0 here. `x << 8 | y` of two bytes is written as a sum.
unfoldable pub read_handshake_frame : List ℕ → Result (ℕ × ℕ)
read_handshake_frame bytes =
    let record_type = get_or bytes 0 0 in
    let tls_major_version = get_or bytes 1 0 in
    let tls_minor_version = get_or bytes 2 0 in
    let n = get_or bytes 3 0 * 256 + get_or bytes 4 0 in
    if not (record_type == tls_handshake_record)
      || (not (tls_major_version == 0x03) || ltb tls_max_record_length n)
    then err
    else ok (tls_minor_version, n)

-- The part of `read_handshake_msg` behind a good frame header.
unfoldable pub read_body :
    (List ℕ → Option HandshakePayload) → TcpBuffer → ℕ → ℕ → Result (Option HandshakeMessage)
read_body read_bytes buffer minor_version record_length =
    if ltb (length (get_data buffer) - tls_header_length) record_length
    then ok none
    else elim (read_bytes (take record_length (drop tls_header_length (get_data buffer)))) [
      | none ↦ err
      | some payload ↦ ok (
          some (record {
            is_tls12 = minor_version == 3;
            total_len = tls_header_length + record_length;
            payload = payload;
          }))
    ]

-- `read_bytes` stands for the TLS library's decoder of handshake messages.
unfoldable pub read_handshake_msg :
    (List ℕ → Option HandshakePayload) → TcpBuffer → Result (Option HandshakeMessage)
read_handshake_msg read_bytes buffer =
    if ltb (len buffer) tls_header_length
    then ok none
    else elim (read_handshake_frame (get_data buffer)) [
      | err ↦ err
      | ok (minor_version, record_length) ↦ read_body read_bytes buffer minor_version record_length
    ]

module _ {P : Type 0} (net : Pnet P) where
  unfoldable pub generate_return_rst : P → ℕ → P
  generate_return_rst original seqno = net.set_data_offset (net.minimum_packet_size / 4) (
      net.set_flags rst (
        net.set_sequence seqno (
          net.set_source (net.header original).destination (
            net.set_destination (net.header original).source (net.owned net.minimum_packet_size)))))

  unfoldable pub set_tcp_checksum : P → IpAddr → IpAddr → P
  set_tcp_checksum packet (v4 a) (v4 b) =
      net.set_checksum (net.ipv4_checksum (net.packet packet) 8 a b) packet
  set_tcp_checksum packet (v6 a) (v6 b) =
      net.set_checksum (net.ipv6_checksum (net.packet packet) 8 a b) packet
  set_tcp_checksum packet _ _ = packet
