-- ===== src/Validator/Final.antt =====
-- A verdict on a flow is final.
use pvn_project.Base.{ℕ, ◌≡◌, refl, subst, some, arith, if◌then◌else◌, lookup}
use pvn_project.Pnet.{Pnet}
use pvn_project.Flow.{TcpFlow, tcp_flow_eq}
use pvn_project.Base.{Bool}
use pvn_project.Validator.{
  Tls, Status, peer_initiated, cleared, bad, wait_for_client_hello, wait_for_server_hello,
  wait_for_certs, FlowState, is_not_bad, TlsvMiddlebox, TlsvResult, validate_flow, reset, rst_seqno,
}
use pvn_project.Validator.Stage.{stage, rank, Move-final}
use pvn_project.Validator.Sound.{AllSound}
use pvn_project.Validator.Safety.{validate_flow-AllSound}
use pvn_project.Validator.Isolation.{validate_flow-Moved}

-- A verdict's stage has no data left out.
status_of_final : (a b : Status) → rank (stage a) ≡ 3 → stage b ≡ stage a → b ≡ a
status_of_final (wait_for_client_hello x) b h e = absurd (omega arith)
status_of_final (wait_for_server_hello x) b h e = absurd (omega arith)
status_of_final (wait_for_certs x) b h e = absurd (omega arith)
status_of_final peer_initiated peer_initiated h e = refl
status_of_final cleared cleared h e = refl
status_of_final bad bad h e = refl
status_of_final _ _ h e = cc

-- Once a flow is bad, is cleared, or was opened by the peer, every further packet of it, of any
-- content, in either direction and with or without SYN, is handled without a panic and leaves the
-- flow's status as it is: the packets of a bad flow are all answered by resets, and those of the
-- other flows all go on. The middlebox may be in any state with well-formed buffers.
pub validate_flow_final :
    {P : Type 0} (net : Pnet P) (tls : Tls) (m : TlsvMiddlebox) (now : ℕ) (p : P) (flow : TcpFlow)
    (out : Bool) (s : FlowState)
    → AllSound m.flows
    → lookup flow m.flows ≡ some s
    → rank (stage s.status) ≡ 3
    → (m' : TlsvMiddlebox) × (t : FlowState) × (r : TlsvResult P) × (validate_flow net tls m now p
          flow out
        ≡ some (m', r))
      × (lookup flow m'.flows ≡ some t)
      × (t.status ≡ s.status)
      × (r ≡ (
          if is_not_bad s.status
          then TlsvResult.cleared
          else reset net p flow (rst_seqno net out t)))
validate_flow_final {P} net tls m now p flow out s sound hit verdict =
    let ran = validate_flow-AllSound net tls m now p flow out sound in
    let (t, look, move, answer) =
      validate_flow-Moved net tls m ran.0.0 now p flow out s ran.0.1 hit ran.1 in
    let same : t.status ≡ s.status =
      status_of_final s.status t.status verdict (Move-final verdict move) in
    (
      ran.0.0,
      t,
      ran.0.1,
      ran.1,
      look,
      same,
      subst
          (λ x.
            ran.0.1
            ≡ (if is_not_bad x then TlsvResult.cleared else reset net p flow (rst_seqno net out t)))
          same answer,
    )
