-- ===== src/Validator.antt =====
-- apps/tls_validator/src/lib.rs: the state machine of a flow, and the middlebox over all flows.
-- A function that may panic returns an option. Time is an argument, and logging is left out.
pub mod Stage
pub mod Sound
pub mod Safety
pub mod Verdict
pub mod Isolation
pub mod Final
pub mod Window
pub mod Resets
mod Tests
use pvn_project.Base.{
  ℕ, ◌+◌, ◌-◌, ◌*◌, ◌%◌, bit_and, bit_or, bit_xor, Bool, true, false, not, ◌||◌, List, [], ◌∷◌,
  Option, none, some, Result, ok, err, ltb, ◌==◌, if◌then◌else◌, length, u32_mod, u32_max,
  wrapping_add, ◌>>=◌, lookup, insert,
}
use pvn_project.Pnet.{Pnet, IpAddr}
use pvn_project.Flow.{TcpFlow, tcp_flow_eq}
use pvn_project.TcpBuffer.{TcpBuffer, new, add_packet_data, drain}
use pvn_project.Protocol.{
  ServerName, dns_name, ServerNamePayload, single_dns_name, ClientExtension, server_name,
  ProtocolVersion, tlsv1_2, ServerExtension, supported_versions, HandshakePayload, client_hello,
  server_hello, certificate, HandshakeMessage, tls_header_length, tls_max_record_length, rst, syn,
  read_handshake_msg, generate_return_rst, set_tcp_checksum,
}

-- The TLS library: its decoder of handshake messages, and its check of a certificate, of the
-- intermediates behind it, for a name and at a time.
pub record Tls : Type 0 where
  pub read_bytes : List ℕ → Option HandshakePayload
  pub verify_server_cert : List ℕ → List (List ℕ) → ServerName → ℕ → Bool

-- `(2 ^ 16 - 1) * 2 ^ 14` as Rust reads it: `^` is exclusive or, and binds looser than `*` and `-`.
abbrev pub tcp_max_window : ℕ
tcp_max_window = bit_xor (bit_xor 2 (16 - 1) * 2) 14

abbrev pub buffer_capacity : ℕ
buffer_capacity = 2 * (tls_header_length + tls_max_record_length)

pub data TlsvResult (P : Type 0) : Type 0 where
  cleared : TlsvResult P
  invalid : P → P → TlsvResult P

pub record ServerBuffer : Type 0 where
  pub buffer : TcpBuffer
  pub name : ServerName

pub data Status : Type 0 where
  peer_initiated cleared bad : Status
  wait_for_client_hello : TcpBuffer → Status
  wait_for_server_hello wait_for_certs : ServerBuffer → Status

pub record FlowState : Type 0 where
  pub last_seen : ℕ
  pub client_expected_seqno : Option ℕ
  pub server_expected_seqno : Option ℕ
  pub status : Status

-- The assignments to `state.status`.
abbrev pub with_status : FlowState → Status × Bool → FlowState × Bool
with_status state (status, valid) = (record state { status = status }, valid)

-- `!matches!(status, Status::Bad)`
unfoldable pub is_not_bad : Status → Bool
is_not_bad bad = false
is_not_bad _ = true

-- The loop over the extensions of a ClientHello: the last usable name counts.
unfoldable pub find_server_name :
    IpAddr → List ClientExtension → Option ServerName → Option ServerName
find_server_name dest_ip [] name = name
find_server_name dest_ip (server_name (single_dns_name n) ∷ es) name =
    find_server_name dest_ip es (some (dns_name n))
find_server_name dest_ip (server_name ServerNamePayload.ip_address ∷ es) name =
    find_server_name dest_ip es (some (ServerName.ip_address dest_ip))
find_server_name dest_ip (server_name ServerNamePayload.invalid ∷ es) name =
    find_server_name dest_ip es name
find_server_name dest_ip (ClientExtension.other ∷ es) name = find_server_name dest_ip es name

-- The loop over the extensions of a ServerHello: the first version extension decides.
unfoldable pub selects_other_version : List ServerExtension → Bool
selects_other_version [] = false
selects_other_version (supported_versions tlsv1_2 ∷ es) = false
selects_other_version (supported_versions ProtocolVersion.other ∷ es) = true
selects_other_version (ServerExtension.other ∷ es) = selects_other_version es

-- The status after the name of a ClientHello is known, or known to be missing.
unfoldable pub await_server : ℕ → Option ServerName → Status × Bool
await_server seqno none = (bad, false)
await_server seqno (some name) =
    (wait_for_server_hello (record { buffer = new seqno buffer_capacity; name = name }), true)

-- A ClientHello counts only when the server has been heard.
unfoldable pub client_hello_seen : Option ℕ → IpAddr → HandshakePayload → Status × Bool
unfolding await_server
client_hello_seen none dest_ip (client_hello es) = (cleared, true)
client_hello_seen (some seqno) dest_ip (client_hello es) =
    await_server seqno (find_server_name dest_ip es none)
client_hello_seen expected dest_ip _ = (cleared, true)

unfoldable pub certificates_valid : Tls → ℕ → ServerName → List (List ℕ) → Bool
certificates_valid tls now name [] = false
certificates_valid tls now name (c ∷ cs) = tls.verify_server_cert c cs name now

unfoldable pub server_hello_seen :
    ServerBuffer → HandshakeMessage → HandshakePayload → Option (Status × Bool)
server_hello_seen sb m (server_hello es) =
    if not m.is_tls12
    then some (cleared, true)
    else if selects_other_version es
    then some (cleared, true)
    else drain sb.buffer m.total_len >>= λ b. some (wait_for_certs (record sb { buffer = b }), true)
server_hello_seen sb m _ = some (cleared, true)

unfoldable pub certificates_seen : Tls → ℕ → ServerName → HandshakePayload → Status × Bool
certificates_seen tls now name (certificate cs) =
    if certificates_valid tls now name cs then (cleared, true) else (bad, false)
certificates_seen tls now name _ = (cleared, true)

unfoldable pub sniff_client_hello : Tls → Option ℕ → IpAddr → TcpBuffer → Status × Bool
sniff_client_hello tls expected dest_ip b = elim (read_handshake_msg tls.read_bytes b) [
  | err ↦ (cleared, true)
  | ok none ↦ (wait_for_client_hello b, true)
  | ok (some m) ↦ client_hello_seen expected dest_ip m.payload
]

unfoldable pub sniff_server_hello : Tls → ServerBuffer → Option (Status × Bool)
sniff_server_hello tls sb = elim (read_handshake_msg tls.read_bytes sb.buffer) [
  | err ↦ some (cleared, true)
  | ok none ↦ some (wait_for_server_hello sb, true)
  | ok (some m) ↦ server_hello_seen sb m m.payload
]

unfoldable pub sniff_certificates : Tls → ℕ → ServerBuffer → Status × Bool
sniff_certificates tls now sb = elim (read_handshake_msg tls.read_bytes sb.buffer) [
  | err ↦ (cleared, true)
  | ok none ↦ (wait_for_certs sb, true)
  | ok (some m) ↦ certificates_seen tls now sb.name m.payload
]

pub record TlsvMiddlebox : Type 0 where
  pub flows : List (TcpFlow × FlowState)

module _ {P : Type 0} (net : Pnet P) where
  unfoldable pub has_syn : P → Bool
  has_syn packet = not (bit_and (net.header packet).flags syn == 0)

  unfoldable pub outgoing_status : Tls → P → Option ℕ → IpAddr → Status → Status × Bool
  outgoing_status tls packet expected dest_ip (wait_for_client_hello b) =
      sniff_client_hello tls expected dest_ip (add_packet_data net b packet)
  outgoing_status tls packet expected dest_ip status = (status, is_not_bad status)

  unfoldable pub incoming_status : Tls → ℕ → P → Status → Option (Status × Bool)
  incoming_status tls now packet (wait_for_server_hello sb) =
      sniff_server_hello tls (record sb { buffer = add_packet_data net sb.buffer packet })
  incoming_status tls now packet (wait_for_certs sb) =
      some
        (sniff_certificates tls now (record sb { buffer = add_packet_data net sb.buffer packet }))
  incoming_status tls now packet status = some (status, is_not_bad status)

  unfoldable pub process_outgoing_tcp : Tls → P → FlowState → IpAddr → FlowState × Bool
  process_outgoing_tcp tls packet state dest_ip =
      with_status state
        (outgoing_status tls packet state.client_expected_seqno dest_ip state.status)

  unfoldable pub process_incoming_tcp : Tls → ℕ → P → FlowState → Option (FlowState × Bool)
  process_incoming_tcp tls now packet state =
      incoming_status tls now packet state.status >>= λ r. some (with_status state r)

  unfoldable pub next_seqno : P → ℕ
  unfolding has_syn
  next_seqno packet =
      let n = wrapping_add (net.header packet).sequence (length (net.payload packet) % u32_mod) in
      if has_syn packet then wrapping_add n 1 else n

  unfoldable pub initial_status : P → Bool → Status
  initial_status packet true =
      wait_for_client_hello (new (wrapping_add (net.header packet).sequence 1) buffer_capacity)
  initial_status packet false = peer_initiated

  -- The entry of the flow, made on a SYN where there is none.
  unfoldable pub find_flow : List (TcpFlow × FlowState) → ℕ → P → TcpFlow → Bool → Result FlowState
  unfolding initial_status has_syn
  find_flow flows now packet flow is_outgoing = elim (lookup flow flows) [
    | some state ↦ ok state
    | none ↦
        if has_syn packet
        then ok (record {
          last_seen = now;
          client_expected_seqno = none;
          server_expected_seqno = none;
          status = initial_status packet is_outgoing;
        })
        else err
  ]

-- Whether the next expected sequence number moves on to `next`.
unfoldable pub moves_on : Option ℕ → ℕ → Bool
moves_on none next = true
moves_on (some target) next =
    ltb target next || ltb (wrapping_add next (u32_max - target)) tcp_max_window

unfoldable pub expect : Option ℕ → ℕ → Option ℕ
unfolding moves_on
expect target next = if moves_on target next then some next else target

unfoldable pub seqno_or_zero : Option ℕ → ℕ
seqno_or_zero none = 0
seqno_or_zero (some seqno) = seqno

module _ {P : Type 0} (net : Pnet P) where
  -- The map's entry, refreshed; the map itself is written back by `validate_flow`.
  unfoldable pub update_flow_state :
      List (TcpFlow × FlowState) → ℕ → P → TcpFlow → Bool → Result FlowState
  unfolding expect
  update_flow_state flows now packet flow is_outgoing =
      elim (find_flow net flows now packet flow is_outgoing) [
        | err ↦ err
        | ok state ↦ ok (
            if is_outgoing
            then record state {
              last_seen = now;
              server_expected_seqno = expect state.server_expected_seqno (next_seqno net packet);
            }
            else record state {
              last_seen = now;
              client_expected_seqno = expect state.client_expected_seqno (next_seqno net packet);
            })
      ]

  -- The two packets that reset the connection.
  unfoldable pub reset : P → TcpFlow → ℕ → TlsvResult P
  reset packet flow rst_seqno =
      TlsvResult.invalid
        (set_tcp_checksum net (net.set_flags (bit_or (net.header packet).flags rst) packet)
          flow.source_ip flow.dest_ip)
        (set_tcp_checksum net (generate_return_rst net packet rst_seqno) flow.source_ip
          flow.dest_ip)

  unfoldable pub run_flow : Tls → ℕ → P → TcpFlow → Bool → FlowState → Option (FlowState × Bool)
  run_flow tls now packet flow true state =
      some (process_outgoing_tcp net tls packet state flow.dest_ip)
  run_flow tls now packet flow false state = process_incoming_tcp net tls now packet state

  unfoldable pub rst_seqno : Bool → FlowState → ℕ
  unfolding seqno_or_zero
  rst_seqno true state = seqno_or_zero state.client_expected_seqno
  rst_seqno false state = seqno_or_zero state.server_expected_seqno

  unfoldable pub conclude :
      TlsvMiddlebox → P → TcpFlow → Bool → FlowState × Bool → TlsvMiddlebox × TlsvResult P
  unfolding rst_seqno reset
  conclude m packet flow is_outgoing (state, valid) = (
    record m { flows = insert flow state m.flows },
    if valid then TlsvResult.cleared else reset packet flow (rst_seqno is_outgoing state),
  )

  unfoldable pub validate_flow :
      Tls → TlsvMiddlebox → ℕ → P → TcpFlow → Bool → Option (TlsvMiddlebox × TlsvResult P)
  unfolding conclude
  validate_flow tls m now packet flow is_outgoing =
      elim (update_flow_state m.flows now packet flow is_outgoing) [
        | err ↦ some (m, TlsvResult.cleared)
        | ok state ↦ run_flow tls now packet flow is_outgoing state >>= λ r.
            some (conclude m packet flow is_outgoing r)
      ]

  unfoldable pub process_outgoing :
      Tls → TlsvMiddlebox → ℕ → P → TcpFlow → Option (TlsvMiddlebox × TlsvResult P)
  process_outgoing tls m now packet flow = validate_flow tls m now packet flow true

  unfoldable pub process_incoming :
      Tls → TlsvMiddlebox → ℕ → P → TcpFlow → Option (TlsvMiddlebox × TlsvResult P)
  process_incoming tls m now packet flow = validate_flow tls m now packet flow false
