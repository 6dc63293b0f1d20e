-- ===== src/Validator/Stage.antt =====
-- The stages of a flow, and the moves between them that a packet can cause.
use pvn_project.Base.{
  ℕ, ◌≤◌, ◌<◌, ◌≡◌, refl, sym, subst, ◌⊎◌, inl, inr, Bool, true, Bool-cases, Option, none, some,
  Option-cases, ok, err, arith, ◌>>=◌,
}
use pvn_project.Pnet.{Pnet, IpAddr}
use pvn_project.TcpBuffer.{TcpBuffer, add_packet_data, drain}
use pvn_project.Protocol.{
  ServerName, HandshakePayload, client_hello, server_hello, certificate, HandshakeMessage,
  read_handshake_msg,
}
use pvn_project.Validator.{
  Tls, ServerBuffer, Status, peer_initiated, cleared, bad, wait_for_client_hello,
  wait_for_server_hello, wait_for_certs, FlowState, is_not_bad, with_status, find_server_name,
  selects_other_version, await_server, client_hello_seen, certificates_valid, server_hello_seen,
  certificates_seen, sniff_client_hello, sniff_server_hello, sniff_certificates, outgoing_status,
  incoming_status, process_outgoing_tcp, process_incoming_tcp,
}

-- A status without its data.
pub data Stage : Type 0 where
  initiated passed blocked awaiting_client awaiting_server awaiting_certs : Stage

abbrev pub stage : Status → Stage
stage peer_initiated = initiated
stage cleared = passed
stage bad = blocked
stage (wait_for_client_hello b) = awaiting_client
stage (wait_for_server_hello sb) = awaiting_server
stage (wait_for_certs sb) = awaiting_certs

-- What a packet from the user can do to a flow.
pub data OutMove (s : Stage) : Stage → Type 0 where
  still : OutMove s s
  names_server : s ≡ awaiting_client → OutMove s awaiting_server
  lets_pass : s ≡ awaiting_client → OutMove s passed
  blocks : s ≡ awaiting_client → OutMove s blocked

-- What a packet to the user can do to a flow.
pub data InMove (s : Stage) : Stage → Type 0 where
  still : InMove s s
  answers : s ≡ awaiting_server → InMove s awaiting_certs
  lets_server_pass : s ≡ awaiting_server → InMove s passed
  lets_certs_pass : s ≡ awaiting_certs → InMove s passed
  blocks : s ≡ awaiting_certs → InMove s blocked

-- The second part of a result says whether the flow may go on.
abbrev Judged : (Stage → Type 0) → Status × Bool → Type 0
Judged M r = M (stage r.0) × (r.1 ≡ is_not_bad r.0)

await_server-Judged :
    (seqno : ℕ) (n : Option ServerName) → Judged (OutMove awaiting_client) (await_server seqno n)
unfolding await_server is_not_bad
await_server-Judged seqno none = (OutMove.blocks refl, refl)
await_server-Judged seqno (some n) = (names_server refl, refl)

client_hello_seen-Judged :
    (expected : Option ℕ) (dest : IpAddr) (payload : HandshakePayload)
    → Judged (OutMove awaiting_client) (client_hello_seen expected dest payload)
unfolding client_hello_seen is_not_bad
client_hello_seen-Judged none dest (client_hello es) = (lets_pass refl, refl)
client_hello_seen-Judged (some s) dest (client_hello es) =
    await_server-Judged s (find_server_name dest es none)
client_hello_seen-Judged none dest _ = (lets_pass refl, refl)
client_hello_seen-Judged (some s) dest _ = (lets_pass refl, refl)

sniff_client_hello-Judged :
    (tls : Tls) (expected : Option ℕ) (dest : IpAddr) (b : TcpBuffer)
    → Judged (OutMove awaiting_client) (sniff_client_hello tls expected dest b)
unfolding sniff_client_hello is_not_bad
sniff_client_hello-Judged tls expected dest b =
    elim (read_handshake_msg tls.read_bytes b)
      as (λ r. Judged (OutMove awaiting_client) (elim r [
        | err ↦ (cleared, true)
        | ok none ↦ (wait_for_client_hello b, true)
        | ok (some m) ↦ client_hello_seen expected dest m.payload
      ])) [
        | err ↦ (lets_pass refl, refl)
        | ok none ↦ (OutMove.still, refl)
        | ok (some m) ↦ client_hello_seen-Judged expected dest m.payload
      ]

certificates_seen-Judged :
    (tls : Tls) (now : ℕ) (name : ServerName) (payload : HandshakePayload)
    → Judged (InMove awaiting_certs) (certificates_seen tls now name payload)
unfolding certificates_seen is_not_bad
certificates_seen-Judged tls now name (certificate cs) =
    elim (Bool-cases (certificates_valid tls now name cs)) [
      | inl e ↦ rw e (lets_certs_pass refl, refl)
      | inr e ↦ rw e (InMove.blocks refl, refl)
    ]
certificates_seen-Judged tls now name _ = (lets_certs_pass refl, refl)

sniff_certificates-Judged :
    (tls : Tls) (now : ℕ) (sb : ServerBuffer)
    → Judged (InMove awaiting_certs) (sniff_certificates tls now sb)
unfolding sniff_certificates is_not_bad
sniff_certificates-Judged tls now sb =
    elim (read_handshake_msg tls.read_bytes sb.buffer)
      as (λ r. Judged (InMove awaiting_certs) (elim r [
        | err ↦ (cleared, true)
        | ok none ↦ (wait_for_certs sb, true)
        | ok (some m) ↦ certificates_seen tls now sb.name m.payload
      ])) [
        | err ↦ (lets_certs_pass refl, refl)
        | ok none ↦ (InMove.still, refl)
        | ok (some m) ↦ certificates_seen-Judged tls now sb.name m.payload
      ]

module _ {P : Type 0} (net : Pnet P) (tls : Tls) where
  outgoing_status-Judged :
      (p : P) (expected : Option ℕ) (dest : IpAddr) (s : Status)
      → Judged (OutMove (stage s)) (outgoing_status net tls p expected dest s)
  unfolding outgoing_status
  outgoing_status-Judged p expected dest (wait_for_client_hello b) =
      sniff_client_hello-Judged tls expected dest (add_packet_data net b p)
  outgoing_status-Judged p expected dest _ = (OutMove.still, refl)

  -- A packet from the user moves a flow only as `OutMove` lists; the flow may go on exactly where
  -- its new status is not bad; and nothing but the status changes.
  pub process_outgoing_tcp-OutMove :
      (p : P) (state : FlowState) (dest : IpAddr)
      → let (state', valid) = process_outgoing_tcp net tls p state dest in
        OutMove (stage state.status) (stage state'.status)
        × (valid ≡ is_not_bad state'.status)
        × (state' ≡ record state { status = state'.status })
  unfolding process_outgoing_tcp
  process_outgoing_tcp-OutMove p state dest =
      let j = outgoing_status-Judged p state.client_expected_seqno dest state.status in
      (j.0, j.1, refl)

-- A panic has no result to judge.
abbrev MaybeJudged : (Stage → Type 0) → Option (Status × Bool) → Type 0
MaybeJudged M none = Unit
MaybeJudged M (some r) = Judged M r

server_hello_seen-Judged :
    (sb : ServerBuffer) (m : HandshakeMessage) (payload : HandshakePayload)
    → MaybeJudged (InMove awaiting_server) (server_hello_seen sb m payload)
unfolding server_hello_seen is_not_bad
server_hello_seen-Judged sb m (server_hello es) = elim (Bool-cases m.is_tls12) [
  | inr e ↦ rw e (lets_server_pass refl, refl)
  | inl e ↦ rw e (elim (Bool-cases (selects_other_version es)) [
    | inl o ↦ rw o (lets_server_pass refl, refl)
    | inr o ↦ rw o (elim (Option-cases (drain sb.buffer m.total_len)) [
      | inl d ↦ rw d tt
      | inr (b, d) ↦ rw d (answers refl, refl)
    ])
  ])
]
server_hello_seen-Judged sb m _ = (lets_server_pass refl, refl)

sniff_server_hello-Judged :
    (tls : Tls) (sb : ServerBuffer)
    → MaybeJudged (InMove awaiting_server) (sniff_server_hello tls sb)
unfolding sniff_server_hello is_not_bad
sniff_server_hello-Judged tls sb =
    elim (read_handshake_msg tls.read_bytes sb.buffer)
      as (λ r. MaybeJudged (InMove awaiting_server) (elim r [
        | err ↦ some (cleared, true)
        | ok none ↦ some (wait_for_server_hello sb, true)
        | ok (some m) ↦ server_hello_seen sb m m.payload
      ])) [
        | err ↦ (lets_server_pass refl, refl)
        | ok none ↦ (InMove.still, refl)
        | ok (some m) ↦ server_hello_seen-Judged sb m m.payload
      ]

module _ {P : Type 0} (net : Pnet P) (tls : Tls) where
  incoming_status-Judged :
      (now : ℕ) (p : P) (s : Status)
      → MaybeJudged (InMove (stage s)) (incoming_status net tls now p s)
  unfolding incoming_status
  incoming_status-Judged now p (wait_for_server_hello sb) =
      sniff_server_hello-Judged tls (record sb { buffer = add_packet_data net sb.buffer p })
  incoming_status-Judged now p (wait_for_certs sb) =
      sniff_certificates-Judged tls now (record sb { buffer = add_packet_data net sb.buffer p })
  incoming_status-Judged now p _ = (InMove.still, refl)

  -- A packet to the user that causes no panic moves a flow only as `InMove` lists; the flow may go
  -- on exactly where its new status is not bad; and nothing but the status changes.
  pub process_incoming_tcp-InMove :
      (now : ℕ) (p : P) (state state' : FlowState) (valid : Bool)
      → process_incoming_tcp net tls now p state ≡ some (state', valid)
      → InMove (stage state.status) (stage state'.status)
        × (valid ≡ is_not_bad state'.status)
        × (state' ≡ record state { status = state'.status })
  unfolding process_incoming_tcp
  process_incoming_tcp-InMove now p state state' valid e =
      go (incoming_status net tls now p state.status) (incoming_status-Judged now p state.status) e
    where
      go :
          (r : Option (Status × Bool))
          → MaybeJudged (InMove (stage state.status)) r
          → (r >>= λ r. some (with_status state r)) ≡ some (state', valid)
          → InMove (stage state.status) (stage state'.status)
            × (valid ≡ is_not_bad state'.status)
            × (state' ≡ record state { status = state'.status })
      go none j p = cc
      go (some r) j p =
          let s : r.0 ≡ state'.status = ground arith in
          (subst (λ t. InMove (stage state.status) (stage t)) s j.0, ground arith, ground arith)

-- How far a flow has come. The verdicts stand last.
abbrev pub rank : Stage → ℕ
rank awaiting_client = 0
rank awaiting_server = 1
rank awaiting_certs = 2
rank _ = 3

-- A move of either direction.
abbrev pub Move : Stage → Stage → Type 0
Move s t = OutMove s t ⊎ InMove s t

-- Each move stays or gains rank, so a flow's stage changes three times at most and a verdict is
-- final.
pub Move-rank : {s t : Stage} → Move s t → (s ≡ t) ⊎ (rank s < rank t)
Move-rank (inl OutMove.still) = inl refl
Move-rank (inl (names_server e)) = inr (rw e (omega arith))
Move-rank (inl (lets_pass e)) = inr (rw e (omega arith))
Move-rank (inl (OutMove.blocks e)) = inr (rw e (omega arith))
Move-rank (inr InMove.still) = inl refl
Move-rank (inr (answers e)) = inr (rw e (omega arith))
Move-rank (inr (lets_server_pass e)) = inr (rw e (omega arith))
Move-rank (inr (lets_certs_pass e)) = inr (rw e (omega arith))
Move-rank (inr (InMove.blocks e)) = inr (rw e (omega arith))

-- A flow that the peer initiated, that is cleared or that is bad stays so.
pub Move-final : {s t : Stage} → rank s ≡ 3 → Move s t → t ≡ s
Move-final {s} {t} h m = elim (Move-rank m) [
  | inl e ↦ sym e
  | inr lt ↦ absurd (omega (arith, rank-le t))
]
  where
    rank-le : (s : Stage) → rank s ≤ 3
    rank-le awaiting_client = omega arith
    rank-le _ = omega arith
