-- ===== src/Validator/Sound.antt =====
-- Statuses with well-formed buffers, and the records that are read out of such buffers.
use pvn_project.Base.{
  ℕ, ◌≤◌, ◌≡◌, refl, subst, inl, inr, Bool, true, Bool-cases, List, [], ◌∷◌, Option, none, some,
  Result, ok, err, arith, All, lookup, insert,
}
use pvn_project.Pnet.{IpAddr}
use pvn_project.Flow.{TcpFlow, tcp_flow_eq, flow_eq}
use pvn_project.TcpBuffer.{TcpBuffer, len}
use pvn_project.TcpBuffer.Shape.{IsValid, new-IsValid, drain-IsValid}
use pvn_project.Protocol.{
  ServerName, HandshakePayload, client_hello, server_hello, certificate, HandshakeMessage,
  read_handshake_msg,
}
use pvn_project.Protocol.Frame.{read_handshake_msg_bounds}
use pvn_project.Validator.{
  Tls, ServerBuffer, Status, cleared, wait_for_client_hello, wait_for_server_hello, wait_for_certs,
  FlowState, find_server_name, selects_other_version, await_server, client_hello_seen,
  certificates_valid, server_hello_seen, certificates_seen, sniff_client_hello, sniff_server_hello,
  sniff_certificates, buffer_capacity,
}

-- The buffer in a status, if there is one, is well-formed.
abbrev pub IsSound : Status → Type 0
IsSound (wait_for_client_hello b) = IsValid b
IsSound (wait_for_server_hello sb) = IsValid sb.buffer
IsSound (wait_for_certs sb) = IsValid sb.buffer
IsSound _ = Unit

-- A result is there, and its status is sound.
abbrev pub Returns : Option (Status × Bool) → Type 0
Returns none = ⊥
Returns (some r) = IsSound r.0

pub await_server-IsSound : (seqno : ℕ) (n : Option ServerName) → IsSound (await_server seqno n).0
unfolding await_server
await_server-IsSound seqno none = tt
await_server-IsSound seqno (some n) = new-IsValid seqno buffer_capacity

pub client_hello_seen-IsSound :
    (expected : Option ℕ) (dest : IpAddr) (payload : HandshakePayload)
    → IsSound (client_hello_seen expected dest payload).0
unfolding client_hello_seen
client_hello_seen-IsSound none dest (client_hello es) = tt
client_hello_seen-IsSound (some s) dest (client_hello es) =
    await_server-IsSound s (find_server_name dest es none)
client_hello_seen-IsSound none dest _ = tt
client_hello_seen-IsSound (some s) dest _ = tt

pub sniff_client_hello-IsSound :
    (tls : Tls) (expected : Option ℕ) (dest : IpAddr) (b : TcpBuffer)
    → IsValid b
    → IsSound (sniff_client_hello tls expected dest b).0
unfolding sniff_client_hello
sniff_client_hello-IsSound tls expected dest b v =
    elim (read_handshake_msg tls.read_bytes b)
      as (λ (r : Result (Option HandshakeMessage)).
        IsSound
          (elim r as (λ _. Status × Bool) [
            | err ↦ (cleared, true)
            | ok none ↦ (wait_for_client_hello b, true)
            | ok (some m) ↦ client_hello_seen expected dest m.payload
          ]).0) [
            | err ↦ tt
            | ok none ↦ v
            | ok (some m) ↦ client_hello_seen-IsSound expected dest m.payload
          ]

pub certificates_seen-IsSound :
    (tls : Tls) (now : ℕ) (name : ServerName) (payload : HandshakePayload)
    → IsSound (certificates_seen tls now name payload).0
unfolding certificates_seen
certificates_seen-IsSound tls now name (certificate cs) =
    elim (Bool-cases (certificates_valid tls now name cs)) [ inl e ↦ rw e tt | inr e ↦ rw e tt ]
certificates_seen-IsSound tls now name _ = tt

pub sniff_certificates-IsSound :
    (tls : Tls) (now : ℕ) (sb : ServerBuffer)
    → IsValid sb.buffer
    → IsSound (sniff_certificates tls now sb).0
unfolding sniff_certificates
sniff_certificates-IsSound tls now sb v =
    elim (read_handshake_msg tls.read_bytes sb.buffer)
      as (λ (r : Result (Option HandshakeMessage)).
        IsSound
          (elim r as (λ _. Status × Bool) [
            | err ↦ (cleared, true)
            | ok none ↦ (wait_for_certs sb, true)
            | ok (some m) ↦ certificates_seen tls now sb.name m.payload
          ]).0) [
            | err ↦ tt
            | ok none ↦ v
            | ok (some m) ↦ certificates_seen-IsSound tls now sb.name m.payload
          ]

-- A message that was read from the buffer can be drained from it.
pub server_hello_seen-Returns :
    (sb : ServerBuffer) (m : HandshakeMessage) (payload : HandshakePayload)
    → IsValid sb.buffer
    → m.total_len ≤ len sb.buffer
    → Returns (server_hello_seen sb m payload)
unfolding server_hello_seen len
server_hello_seen-Returns sb m (server_hello es) v h = elim (Bool-cases m.is_tls12) [
  | inr e ↦ rw e tt
  | inl e ↦ rw e (elim (Bool-cases (selects_other_version es)) [
    | inl o ↦ rw o tt
    | inr o ↦ rw o (elim (drain-IsValid sb.buffer m.total_len v) [
      | inl (far, d) ↦ absurd (omega (arith, v.bounded))
      | inr (near, d, w) ↦ rw d w
    ])
  ])
]
server_hello_seen-Returns sb m _ v h = tt

pub sniff_server_hello-Returns :
    (tls : Tls) (sb : ServerBuffer) → IsValid sb.buffer → Returns (sniff_server_hello tls sb)
unfolding sniff_server_hello
sniff_server_hello-Returns tls sb v = go (read_handshake_msg tls.read_bytes sb.buffer) refl
  where
    go :
        (r : Result (Option HandshakeMessage))
        → read_handshake_msg tls.read_bytes sb.buffer ≡ r
        → Returns (elim r [
          | err ↦ some (cleared, true)
          | ok none ↦ some (wait_for_server_hello sb, true)
          | ok (some m) ↦ server_hello_seen sb m m.payload
        ])
    go err e = tt
    go (ok none) e = v
    go (ok (some m)) e =
        server_hello_seen-Returns sb m m.payload v
          (read_handshake_msg_bounds tls.read_bytes sb.buffer v e).2

abbrev pub AllSound : List (TcpFlow × FlowState) → Type 0
AllSound flows = All (λ e. IsSound e.1.status) flows

pub lookup-IsSound :
    (flow : TcpFlow) (flows : List (TcpFlow × FlowState)) {s : FlowState}
    → AllSound flows
    → lookup flow flows ≡ some s
    → IsSound s.status
unfolding lookup
lookup-IsSound flow [] h e = cc
lookup-IsSound flow ((g, t) ∷ flows) {s} h e = elim (Bool-cases (flow_eq g flow)) [
  | inl hit ↦ subst (λ (u : FlowState). IsSound u.status) (same (rw hit at e)) h.0
  | inr miss ↦ lookup-IsSound flow flows h.1 (rw miss at e)
]
  where
    same : some t ≡ some s → t ≡ s
    same p = cc

pub insert-AllSound :
    (flow : TcpFlow) (s : FlowState) (flows : List (TcpFlow × FlowState))
    → IsSound s.status
    → AllSound flows
    → AllSound (insert flow s flows)
unfolding insert
insert-AllSound flow s [] h k = (h, tt)
insert-AllSound flow s ((g, t) ∷ flows) h k = elim (Bool-cases (flow_eq g flow)) [
  | inl hit ↦ rw hit (h, k.1)
  | inr miss ↦ rw miss (k.0, insert-AllSound flow s flows h k.1)
]
