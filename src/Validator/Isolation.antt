-- ===== src/Validator/Isolation.antt =====
-- One packet through the middlebox: which flow it touches, and how.
use pvn_project.Base.{
  ℕ, ◌≡◌, refl, sym, subst, ap, ◌∙◌, ◌⊎◌, inl, inr, ◌≢◌, Bool, true, false, Bool-cases, List,
  Option, none, some, Option-cases, Result, ok, err, arith, if◌then◌else◌, ◌>>=◌, lookup,
  lookup-insert, lookup-insert_self,
}
use pvn_project.Pnet.{Pnet}
use pvn_project.Flow.{TcpFlow, tcp_flow_eq, flow_eq, flow_eq_iff}
use pvn_project.Validator.{
  Tls, FlowState, is_not_bad, TlsvMiddlebox, TlsvResult, find_flow, has_syn, update_flow_state,
  run_flow, conclude, validate_flow, reset, rst_seqno, process_outgoing_tcp, expect, next_seqno,
}
use pvn_project.Validator.Stage.{
  stage, Move, process_outgoing_tcp-OutMove, process_incoming_tcp-InMove,
}

module _ {P : Type 0} (net : Pnet P) (tls : Tls) where
  -- The two ways through `validate_flow`.
  validate_flow_cases :
      (m m' : TlsvMiddlebox) (now : ℕ) (p : P) (flow : TcpFlow) (out : Bool) (r : TlsvResult P)
      → validate_flow net tls m now p flow out ≡ some (m', r)
      → ((update_flow_state net m.flows now p flow out ≡ err) × (m' ≡ m))
        ⊎ ((s : FlowState) × (q : FlowState × Bool) × (update_flow_state net m.flows now p flow out
              ≡ ok s)
            × (run_flow net tls now p flow out s ≡ some q)
            × (conclude net m p flow out q ≡ (m', r)))
  unfolding validate_flow
  validate_flow_cases m m' now p flow out r e =
      found (update_flow_state net m.flows now p flow out) refl e
    where
      found :
          (u : Result FlowState)
          → update_flow_state net m.flows now p flow out ≡ u
          → elim u as (λ _. Option (TlsvMiddlebox × TlsvResult P)) [
            | err ↦ some (m, TlsvResult.cleared)
            | ok state ↦
                run_flow net tls now p flow out state >>= λ r. some (conclude net m p flow out r)
          ]
            ≡ some (m', r)
          → ((update_flow_state net m.flows now p flow out ≡ err) × (m' ≡ m))
            ⊎ ((s : FlowState) × (q : FlowState × Bool) × (update_flow_state net m.flows now p flow
                    out
                  ≡ ok s)
                × (run_flow net tls now p flow out s ≡ some q)
                × (conclude net m p flow out q ≡ (m', r)))
      found err u p = inl (u, cc)
      found (ok s) u k = elim (Option-cases (run_flow net tls now p flow out s)) [
        | inl e ↦ absurd (none_ran (rw e at k))
        | inr (q, e) ↦ inr (s, q, u, e, concluded q (rw e at k))
      ]
        where
          none_ran : ◌≡◌ {A = Option (TlsvMiddlebox × TlsvResult P)} none (some (m', r)) → ⊥
          none_ran x = cc

          concluded :
              (q : FlowState × Bool)
              → some (conclude net m p flow out q) ≡ some (m', r)
              → conclude net m p flow out q ≡ (m', r)
          concluded q x = cc

  -- A packet leaves the entry of every other flow as it is.
  pub validate_flow_isolated :
      (m m' : TlsvMiddlebox) (now : ℕ) (p : P) (flow g : TcpFlow) (out : Bool) (r : TlsvResult P)
      → validate_flow net tls m now p flow out ≡ some (m', r)
      → flow ≢ g
      → lookup g m'.flows ≡ lookup g m.flows
  validate_flow_isolated m m' now p flow g out r e ne =
      elim (validate_flow_cases m m' now p flow out r e) [
        | inl (_, same) ↦ rw same
        | inr (s, q, u, run, c) ↦
            ap (λ (x : TlsvMiddlebox × TlsvResult P). lookup g x.0.flows) (sym c) ∙ written q.0 q.1
      ]
    where
      written :
          (t : FlowState) (valid : Bool)
          → lookup g (conclude net m p flow out (t, valid)).0.flows ≡ lookup g m.flows
      written t valid = unfold conclude in lookup-insert flow g t m.flows ∙ other
        where
          other : (if flow_eq flow g then some t else lookup g m.flows) ≡ lookup g m.flows
          other = elim (Bool-cases (flow_eq flow g)) [
            | inl hit ↦ absurd (ne ((flow_eq_iff flow g).0 hit))
            | inr miss ↦ rw miss
          ]

  -- A flow that has no entry gets none from a packet without SYN, and the packet goes on.
  validate_flow_unknown :
      (m : TlsvMiddlebox) (now : ℕ) (p : P) (flow : TcpFlow) (out : Bool)
      → lookup flow m.flows ≡ none
      → has_syn net p ≡ false
      → validate_flow net tls m now p flow out ≡ some (m, TlsvResult.cleared)
  unfolding validate_flow update_flow_state find_flow
  validate_flow_unknown m now p flow out miss plain =
      rw (miss, find_flow, update_flow_state, validate_flow, plain)

  -- A packet with SYN, too, finds the status that the flow's entry has.
  update_flow_state_known :
      (flows : List (TcpFlow × FlowState)) (now : ℕ) (p : P) (flow : TcpFlow) (out : Bool)
      (s : FlowState)
      → lookup flow flows ≡ some s
      → (t : FlowState) × (update_flow_state net flows now p flow out ≡ ok t)
        × (t.status ≡ s.status)
  unfolding update_flow_state find_flow
  update_flow_state_known flows now p flow true s hit = (
    record s {
      last_seen = now;
      server_expected_seqno = expect s.server_expected_seqno (next_seqno net p);
    },
    rw (hit, find_flow, update_flow_state),
    refl,
  )
  update_flow_state_known flows now p flow false s hit = (
    record s {
      last_seen = now;
      client_expected_seqno = expect s.client_expected_seqno (next_seqno net p);
    },
    rw (hit, find_flow, update_flow_state),
    refl,
  )

  run_flow-Move :
      (now : ℕ) (p : P) (flow : TcpFlow) (out : Bool) (s t : FlowState) (valid : Bool)
      → run_flow net tls now p flow out s ≡ some (t, valid)
      → Move (stage s.status) (stage t.status) × (valid ≡ is_not_bad t.status)
  unfolding run_flow
  run_flow-Move now p flow true s t valid e =
      let j = process_outgoing_tcp-OutMove net tls p s flow.dest_ip in
      let h : process_outgoing_tcp net tls p s flow.dest_ip ≡ (t, valid) = cc in
      subst
        (λ (r : FlowState × Bool).
          Move (stage s.status) (stage r.0.status) × (r.1 ≡ is_not_bad r.0.status))
        h (inl j.0, j.1)
  run_flow-Move now p flow false s t valid e =
      let j = process_incoming_tcp-InMove net tls now p s t valid e in (inr j.0, j.1)

  -- What becomes of the flow: its new entry is a move away from the old one, and the packet goes
  -- on exactly where the new status is not bad; else both ends are sent a reset.
  abbrev pub Moved : TlsvMiddlebox → P → TcpFlow → Bool → FlowState → TlsvResult P → Type 0
  Moved m' p flow out s r =
      (t : FlowState) × (lookup flow m'.flows ≡ some t)
      × Move (stage s.status) (stage t.status)
      × (r ≡ (
          if is_not_bad t.status
          then TlsvResult.cleared
          else reset net p flow (rst_seqno net out t)))

  -- Every packet of a known flow that causes no panic, in either direction, with or without SYN,
  -- moves the flow's stage along the stages' order, by a move that a packet of one of the two
  -- directions may make; the packet goes on exactly where the new status is not bad, and else both
  -- ends are sent a reset.
  pub validate_flow-Moved :
      (m m' : TlsvMiddlebox) (now : ℕ) (p : P) (flow : TcpFlow) (out : Bool) (s : FlowState)
      (r : TlsvResult P)
      → lookup flow m.flows ≡ some s
      → validate_flow net tls m now p flow out ≡ some (m', r)
      → Moved m' p flow out s r
  validate_flow-Moved m m' now p flow out s r hit e =
      elim (validate_flow_cases m m' now p flow out r e) [
        | inl (gone, _) ↦ absurd (both (sym gone ∙ known.1))
        | inr (s1, q, u, run, c) ↦ ended s1 q.0 q.1 u run c
      ]
    where
      known :
          (t : FlowState) × (update_flow_state net m.flows now p flow out ≡ ok t)
          × (t.status ≡ s.status)
      known = update_flow_state_known m.flows now p flow out s hit

      both : ◌≡◌ {A = Result FlowState} err (ok known.0) → ⊥
      both x = cc

      entry :
          (t : FlowState) (valid : Bool)
          → lookup flow (conclude net m p flow out (t, valid)).0.flows ≡ some t
      entry t valid = unfold conclude in lookup-insert_self flow t m.flows

      result :
          (t : FlowState) (valid : Bool)
          → valid ≡ is_not_bad t.status
          → (conclude net m p flow out (t, valid)).1 ≡ (
              if is_not_bad t.status
              then TlsvResult.cleared
              else reset net p flow (rst_seqno net out t))
      result t valid v = unfold conclude in rw v

      ended :
          (s1 t : FlowState) (valid : Bool)
          → update_flow_state net m.flows now p flow out ≡ ok s1
          → run_flow net tls now p flow out s1 ≡ some (t, valid)
          → conclude net m p flow out (t, valid) ≡ (m', r)
          → (t : FlowState) × (lookup flow m'.flows ≡ some t)
            × Move (stage s.status) (stage t.status)
            × (r ≡ (
                if is_not_bad t.status
                then TlsvResult.cleared
                else reset net p flow (rst_seqno net out t)))
      ended s1 t valid u run c =
          let j = run_flow-Move now p flow out s1 t valid run in
          let same : s1.status ≡ s.status = status_eq s1 (sym u ∙ known.1) ∙ known.2 in
          (
            t,
            ap (λ (x : TlsvMiddlebox × TlsvResult P). lookup flow x.0.flows) (sym c)
                ∙ entry t valid,
            subst (λ x. Move (stage x) (stage t.status)) same j.0,
            ap (λ (x : TlsvMiddlebox × TlsvResult P). x.1) (sym c) ∙ result t valid j.1,
          )
        where
          status_eq : (a : FlowState) → ok a ≡ ok known.0 → a.status ≡ known.0.status
          status_eq a x = ground arith
