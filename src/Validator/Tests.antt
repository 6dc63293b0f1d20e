-- ===== src/Validator/Tests.antt =====
-- A flow at work, and the theorems at concrete inputs.
use pvn_project.Base.{
  length, ℕ, ◌≤◌, ◌<◌, ◌/◌, ◌≡◌, ◌↔◌, ◌⊎◌, refl, ap, Bool, true, false, ◌==◌, List, [], ◌∷◌, ◌++◌,
  Option, none, some, arith, if◌then◌else◌, lookup, insert,
}
use pvn_project.Pnet.{v4}
use pvn_project.Pnet.Sample.{Datagram, sample, sample_laws, datagram}
use pvn_project.Flow.{TcpFlow, tcp_flow_eq}
use pvn_project.TcpBuffer.{
  drain, TcpBuffer, new, add_packet_data, len, get_data, add_segment, store, process_valid_data,
  offset_of, grow, overwrite, advance, find_contiguous,
}
use pvn_project.TcpBuffer.Shape.{IsValid}
use pvn_project.TcpBuffer.Offset.{distance}
use pvn_project.Protocol.{
  ServerName, dns_name, single_dns_name, ClientExtension, server_name, HandshakePayload,
  client_hello, server_hello, certificate, read_handshake_msg, read_handshake_frame, read_body,
}
use pvn_project.Protocol.Frame.{frame}
use pvn_project.Protocol.Reset.{Answers}
use pvn_project.Validator.{
  Tls, TlsvMiddlebox, TlsvResult, invalid, ServerBuffer, cleared, bad, wait_for_client_hello,
  wait_for_server_hello, wait_for_certs, FlowState, is_not_bad, buffer_capacity, outgoing_status,
  incoming_status, process_incoming_tcp, validate_flow, moves_on, has_syn, reset, rst_seqno,
  update_flow_state, find_flow, run_flow, sniff_certificates, certificates_seen, certificates_valid,
  conclude, expect, next_seqno,
}
use pvn_project.Validator.Sound.{AllSound}
use pvn_project.Validator.Safety.{validate_flow-AllSound}
use pvn_project.Validator.Isolation.{validate_flow_isolated, Moved, validate_flow-Moved}
use pvn_project.Validator.Final.{validate_flow_final}
use pvn_project.Validator.Verdict.{
  SelectsTls12, SelectsOther, selected, offered, last_or, outgoing_client_hello,
  incoming_certificate, incoming_server_hello,
}
use pvn_project.Validator.Window.{moves_on_iff}
use pvn_project.Validator.Resets.{Resets, reset-Resets}

abbrev site : List ℕ
site = 97 ∷ 98 ∷ []

-- The first byte of a body tells its kind; certificate 5 alone is good.
abbrev decode : List ℕ → Option HandshakePayload
decode [] = none
decode (k ∷ r) =
    if k == 1
    then some (client_hello (server_name (single_dns_name r) ∷ []))
    else if k == 2
    then some (server_hello [])
    else some (certificate (r ∷ []))

abbrev verify : List ℕ → List (List ℕ) → ServerName → ℕ → Bool
verify [] others name now = false
verify (c ∷ r) others name now = c == 5

abbrev tls : Tls
tls = record { read_bytes = decode; verify_server_cert = verify }

abbrev empty_buffer : ℕ → TcpBuffer
empty_buffer seqno = record {
  buf = [];
  max_capacity = buffer_capacity;
  initial_seqno = seqno;
  valid_data = 0;
  received_segments = [];
}

empty_buffer-IsValid : (seqno : ℕ) → IsValid (empty_buffer seqno)
empty_buffer-IsValid seqno = record { bounded = omega arith; capped = omega arith; waiting = tt }

abbrev awaiting : ServerBuffer
awaiting = record { buffer = empty_buffer 500; name = dns_name site }

-- A record of two bytes: a kind and one byte more.
abbrev message : ℕ → ℕ → ℕ → Datagram
message seqno kind byte = datagram seqno 0 (0x16 ∷ 3 ∷ 3 ∷ 0 ∷ 2 ∷ kind ∷ byte ∷ [])

certificate_arrived :
    get_data (add_packet_data sample (empty_buffer 500) (message 500 3 4))
    ≡ frame 3 (3 ∷ 4 ∷ []) ++ []
unfolding frame get_data add_packet_data add_segment store process_valid_data offset_of grow
    overwrite advance find_contiguous
certificate_arrived = refl

hello_arrived :
    get_data (add_packet_data sample (empty_buffer 500) (message 500 1 97))
    ≡ frame 3 (1 ∷ 97 ∷ []) ++ []
unfolding frame get_data add_packet_data add_segment store process_valid_data offset_of grow
    overwrite advance find_contiguous
hello_arrived = refl

answer_arrived :
    get_data (add_packet_data sample (empty_buffer 500) (message 500 2 0))
    ≡ frame 3 (2 ∷ 0 ∷ []) ++ []
unfolding frame get_data add_packet_data add_segment store process_valid_data offset_of grow
    overwrite advance find_contiguous
answer_arrived = refl

incoming_certificate_example :
    ((leaf : List ℕ) × (others : List (List ℕ)) × (((4 ∷ []) ∷ []) ≡ leaf ∷ others)
      × (verify leaf others (dns_name site) 9 ≡ true)
      × (incoming_status sample tls 9 (message 500 3 4) (wait_for_certs awaiting)
          ≡ some (cleared, true)))
    ⊎ ((leaf : List ℕ) × (others : List (List ℕ)) × (((4 ∷ []) ∷ []) ≡ leaf ∷ others)
        × (verify leaf others (dns_name site) 9 ≡ false)
        × (incoming_status sample tls 9 (message 500 3 4) (wait_for_certs awaiting)
            ≡ some (bad, false)))
    ⊎ ((◌≡◌ {A = List (List ℕ)} ((4 ∷ []) ∷ []) [])
        × (incoming_status sample tls 9 (message 500 3 4) (wait_for_certs awaiting)
            ≡ some (bad, false)))
incoming_certificate_example =
    incoming_certificate sample tls (message 500 3 4) 3 (3 ∷ 4 ∷ []) [] (omega arith) awaiting
      ((4 ∷ []) ∷ []) 9 (empty_buffer-IsValid 500) certificate_arrived refl

incoming_server_hello_example :
    ((◌≡◌ {A = ℕ} 3 3)
      × SelectsTls12 (selected [])
      × (buffer : TcpBuffer) × (more : List ℕ) × (drain
            (add_packet_data sample (empty_buffer 500) (message 500 2 0))
            (length (frame 3 (2 ∷ 0 ∷ [])))
          ≡ some buffer)
      × (get_data buffer ≡ [] ++ more)
      × (incoming_status sample tls 9 (message 500 2 0) (wait_for_server_hello awaiting)
          ≡ some (wait_for_certs (record { buffer = buffer; name = awaiting.name }), true)))
    ⊎ (((¬ (◌≡◌ {A = ℕ} 3 3)) ⊎ SelectsOther (selected []))
        × (incoming_status sample tls 9 (message 500 2 0) (wait_for_server_hello awaiting)
            ≡ some (cleared, true)))
incoming_server_hello_example =
    incoming_server_hello sample tls (message 500 2 0) 3 (2 ∷ 0 ∷ []) [] (omega arith) awaiting [] 9
      (empty_buffer-IsValid 500) answer_arrived refl

abbrev named : List ClientExtension
named = server_name (single_dns_name (97 ∷ [])) ∷ []

outgoing_client_hello_example :
    let decided =
      outgoing_status sample tls
        (message 500 1 97)
        (some 900)
        (v4 7)
        (wait_for_client_hello (empty_buffer 500)) in
    ((◌≡◌ {A = Option ℕ} (some 900) none) × (decided ≡ (cleared, true)))
    ⊎ ((seqno : ℕ) × (◌≡◌ {A = Option ℕ} (some 900) (some seqno))
        × (offered (v4 7) named ≡ [])
        × (decided ≡ (bad, false)))
    ⊎ ((seqno : ℕ) × (◌≡◌ {A = Option ℕ} (some 900) (some seqno))
        × (name : ServerName) × (last_or none (offered (v4 7) named) ≡ some name)
        × (decided ≡ (
          wait_for_server_hello (record { buffer = new seqno buffer_capacity; name = name }),
          true,
        )))
outgoing_client_hello_example =
    outgoing_client_hello sample tls (message 500 1 97) 3 (1 ∷ 97 ∷ []) [] (omega arith)
      (empty_buffer 500) named (some 900) (v4 7) (empty_buffer-IsValid 500) hello_arrived refl

moves_on_iff_example :
    (moves_on (some 4294967290) 30 ≡ true)
    ↔ ((4294967290 < 30) ⊎ ((30 < 4294967290) × (distance 4294967290 30 ≤ 20)))
moves_on_iff_example = moves_on_iff 4294967290 30 (omega arith) (omega arith)

abbrev flow : TcpFlow
flow = record { source_ip = v4 1; dest_ip = v4 2; source_port = 443; dest_port = 50000 }

abbrev other_flow : TcpFlow
other_flow = record flow { source_port = 80 }

reset-Resets_example :
    (forward : Datagram) × (back : Datagram) × (reset sample (message 500 3 4) flow 77
      ≡ invalid forward back)
    × Resets (sample.header (message 500 3 4)) (sample.header forward)
    × (sample.payload forward ≡ sample.payload (message 500 3 4))
    × Answers (sample.header (message 500 3 4)) (sample.header back) 77 (20 / 4)
reset-Resets_example = reset-Resets sample sample_laws (message 500 3 4) flow 77 (omega arith)

abbrev known : FlowState
known = record {
  last_seen = 1;
  client_expected_seqno = some 500;
  server_expected_seqno = some 900;
  status = wait_for_certs awaiting;
}

abbrev condemned : FlowState
condemned = record known { status = bad }

abbrev box : TlsvMiddlebox
box = record { flows = (flow, known) ∷ (other_flow, condemned) ∷ [] }

box-AllSound : AllSound box.flows
box-AllSound = (empty_buffer-IsValid 500, (tt, tt))

validate_flow-AllSound_example :
    (r : TlsvMiddlebox × TlsvResult Datagram) × (validate_flow sample tls box 9
        (message 500 3 4)
        flow
        false
      ≡ some r)
    × AllSound r.0.flows
validate_flow-AllSound_example =
    validate_flow-AllSound sample tls box 9 (message 500 3 4) flow false box-AllSound

-- The certificate is not the good one: the flow is condemned.
box_runs :
    validate_flow sample tls box 9 (message 500 3 4) flow false
    ≡ some (
      record {
        flows =
            (flow, record known { last_seen = 9; client_expected_seqno = some 507; status = bad })
            ∷ (other_flow, condemned)
            ∷ [];
      },
      reset sample (message 500 3 4) flow 900,
    )
unfolding validate_flow update_flow_state find_flow lookup insert run_flow process_incoming_tcp
    incoming_status sniff_certificates certificates_seen certificates_valid conclude expect
    next_seqno has_syn read_handshake_msg read_handshake_frame read_body len get_data
    add_packet_data add_segment store process_valid_data offset_of grow overwrite advance
    find_contiguous
box_runs = refl

abbrev after_box : TlsvMiddlebox
after_box = record {
  flows =
      (flow, record known { last_seen = 9; client_expected_seqno = some 507; status = bad })
      ∷ (other_flow, condemned)
      ∷ [];
}

validate_flow_isolated_example : lookup other_flow after_box.flows ≡ lookup other_flow box.flows
validate_flow_isolated_example =
    validate_flow_isolated sample tls box after_box 9 (message 500 3 4) flow other_flow false
      (reset sample (message 500 3 4) flow 900) box_runs
      (λ e. omega (arith, ap (λ (f : TcpFlow). f.source_port) e))

validate_flow-Moved_example :
    Moved sample tls after_box
      (message 500 3 4)
      flow
      false
      known
      (reset sample (message 500 3 4) flow 900)
unfolding lookup
validate_flow-Moved_example =
    validate_flow-Moved sample tls box after_box 9 (message 500 3 4) flow false known
      (reset sample (message 500 3 4) flow 900) refl box_runs

abbrev stranger : TcpFlow
stranger = record flow { dest_port = 1 }

validate_flow_final_example :
    (m' : TlsvMiddlebox) × (t : FlowState) × (r : TlsvResult Datagram) × (validate_flow sample tls
        box 9
        (message 1 3 5)
        other_flow
        true
      ≡ some (m', r))
    × (lookup other_flow m'.flows ≡ some t)
    × (t.status ≡ bad)
    × (r ≡ (
        if is_not_bad bad
        then TlsvResult.cleared
        else reset sample (message 1 3 5) other_flow (rst_seqno sample true t)))
unfolding lookup
validate_flow_final_example =
    validate_flow_final sample tls box 9 (message 1 3 5) other_flow true condemned box-AllSound refl
      refl
