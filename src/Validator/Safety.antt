-- ===== src/Validator/Safety.antt =====
-- No packet makes the middlebox panic.
use pvn_project.Base.{
  ℕ, ◌≡◌, refl, subst, inl, inr, Bool, true, false, Bool-cases, List, Option, none, some,
  Option-cases, Result, ok, err, arith, if◌then◌else◌, ◌>>=◌, lookup, wrapping_add,
}
use pvn_project.Pnet.{Pnet, IpAddr}
use pvn_project.Flow.{TcpFlow, tcp_flow_eq}
use pvn_project.TcpBuffer.Shape.{new-IsValid, add_packet_data-IsValid}
use pvn_project.Validator.{
  Tls, Status, wait_for_client_hello, wait_for_server_hello, wait_for_certs, FlowState, with_status,
  outgoing_status, incoming_status, process_outgoing_tcp, process_incoming_tcp, TlsvMiddlebox,
  TlsvResult, buffer_capacity, find_flow, has_syn, initial_status, update_flow_state, run_flow,
  conclude, validate_flow, expect, next_seqno,
}
use pvn_project.Validator.Sound.{
  IsSound, Returns, sniff_client_hello-IsSound, sniff_certificates-IsSound,
  sniff_server_hello-Returns, AllSound, lookup-IsSound, insert-AllSound,
}

module _ {P : Type 0} (net : Pnet P) (tls : Tls) where
  outgoing_status-IsSound :
      (p : P) (expected : Option ℕ) (dest : IpAddr) (s : Status)
      → IsSound s
      → IsSound (outgoing_status net tls p expected dest s).0
  unfolding outgoing_status
  outgoing_status-IsSound p expected dest (wait_for_client_hello b) v =
      sniff_client_hello-IsSound tls expected dest _ (add_packet_data-IsValid net b p v)
  outgoing_status-IsSound p expected dest (wait_for_server_hello sb) v = v
  outgoing_status-IsSound p expected dest (wait_for_certs sb) v = v
  outgoing_status-IsSound p expected dest _ v = tt

  incoming_status-Returns :
      (now : ℕ) (p : P) (s : Status) → IsSound s → Returns (incoming_status net tls now p s)
  unfolding incoming_status
  incoming_status-Returns now p (wait_for_server_hello sb) v =
      sniff_server_hello-Returns tls _ (add_packet_data-IsValid net sb.buffer p v)
  incoming_status-Returns now p (wait_for_certs sb) v =
      sniff_certificates-IsSound tls now _ (add_packet_data-IsValid net sb.buffer p v)
  incoming_status-Returns now p (wait_for_client_hello b) v = v
  incoming_status-Returns now p _ v = tt

  abbrev RunsSound : Option (FlowState × Bool) → Type 0
  RunsSound none = ⊥
  RunsSound (some r) = IsSound r.0.status

  process_incoming_tcp-RunsSound :
      (now : ℕ) (p : P) (s : FlowState)
      → IsSound s.status
      → RunsSound (process_incoming_tcp net tls now p s)
  unfolding process_incoming_tcp
  process_incoming_tcp-RunsSound now p s v =
      go (incoming_status net tls now p s.status) (incoming_status-Returns now p s.status v)
    where
      go : (r : Option (Status × Bool)) → Returns r → RunsSound (r >>= λ r. some (with_status s r))
      go none h = h
      go (some r) h = h

  run_flow-RunsSound :
      (now : ℕ) (p : P) (flow : TcpFlow) (out : Bool) (s : FlowState)
      → IsSound s.status
      → RunsSound (run_flow net tls now p flow out s)
  unfolding run_flow process_outgoing_tcp
  run_flow-RunsSound now p flow true s v =
      outgoing_status-IsSound p s.client_expected_seqno flow.dest_ip s.status v
  run_flow-RunsSound now p flow false s v = process_incoming_tcp-RunsSound now p s v

  initial_status-IsSound : (p : P) (out : Bool) → IsSound (initial_status net p out)
  unfolding initial_status
  initial_status-IsSound p true =
      new-IsValid (wrapping_add (net.header p).sequence 1) buffer_capacity
  initial_status-IsSound p false = tt

  find_flow-IsSound :
      (flows : List (TcpFlow × FlowState)) (now : ℕ) (p : P) (flow : TcpFlow) (out : Bool)
      {s : FlowState}
      → AllSound flows
      → find_flow net flows now p flow out ≡ ok s
      → IsSound s.status
  unfolding find_flow
  find_flow-IsSound flows now p flow out {s} h e = elim (Option-cases (lookup flow flows)) [
    | inr (t, hit) ↦
        subst (λ (u : FlowState). IsSound u.status) (same t (rw (hit, find_flow) at e))
          (lookup-IsSound flow flows h hit)
    | inl miss ↦ elim (Bool-cases (has_syn net p)) [
      | inl syn ↦ fresh out (rw (miss, find_flow, syn) at e)
      | inr other ↦ absurd (none_made (rw (miss, find_flow, other) at e))
    ]
  ]
    where
      same : (t : FlowState) → ok t ≡ ok s → t ≡ s
      same t p = cc

      none_made : ◌≡◌ {A = Result FlowState} err (ok s) → ⊥
      none_made p = cc

      fresh :
          (o : Bool)
          → ok (record {
            last_seen = now;
            client_expected_seqno = none;
            server_expected_seqno = none;
            status = initial_status net p o;
          })
            ≡ ok s
          → IsSound s.status
      fresh o q =
          let r : initial_status net p o ≡ s.status = ground arith in
          subst IsSound r (initial_status-IsSound p o)

  update_flow_state-IsSound :
      (flows : List (TcpFlow × FlowState)) (now : ℕ) (p : P) (flow : TcpFlow) (out : Bool)
      {s : FlowState}
      → AllSound flows
      → update_flow_state net flows now p flow out ≡ ok s
      → IsSound s.status
  unfolding update_flow_state
  update_flow_state-IsSound flows now p flow out {s} h e =
      go (find_flow net flows now p flow out) refl out e
    where
      go :
          (r : Result FlowState)
          → find_flow net flows now p flow out ≡ r
          → (o : Bool)
          → elim r as (λ _. Result FlowState) [
            | err ↦ err
            | ok state ↦ ok (
                if o
                then record state {
                  last_seen = now;
                  server_expected_seqno = expect state.server_expected_seqno (next_seqno net p);
                }
                else record state {
                  last_seen = now;
                  client_expected_seqno = expect state.client_expected_seqno (next_seqno net p);
                })
          ]
            ≡ ok s
          → IsSound s.status
      go err f o q = cc
      go (ok t) f true q =
          let r : t.status ≡ s.status = ground arith in
          subst IsSound r (find_flow-IsSound flows now p flow out h f)
      go (ok t) f false q =
          let r : t.status ≡ s.status = ground arith in
          subst IsSound r (find_flow-IsSound flows now p flow out h f)

  -- A middlebox all of whose buffers are well-formed takes any packet, in either direction, at any
  -- time and for any flow, without a panic, and its buffers are well-formed again.
  pub validate_flow-AllSound :
      (m : TlsvMiddlebox) (now : ℕ) (p : P) (flow : TcpFlow) (out : Bool)
      → AllSound m.flows
      → (r : TlsvMiddlebox × TlsvResult P) × (validate_flow net tls m now p flow out ≡ some r)
        × AllSound r.0.flows
  unfolding validate_flow conclude
  validate_flow-AllSound m now p flow out h =
      found (update_flow_state net m.flows now p flow out) refl
    where
      ran :
          (r : Option (FlowState × Bool))
          → RunsSound r
          → (q : TlsvMiddlebox × TlsvResult P) × ((r >>= λ r. some (conclude net m p flow out r))
              ≡ some q)
            × AllSound q.0.flows
      ran none k = absurd k
      ran (some (s, valid)) k =
          (conclude net m p flow out (s, valid), refl, insert-AllSound flow s m.flows k h)

      found :
          (u : Result FlowState)
          → update_flow_state net m.flows now p flow out ≡ u
          → (q : TlsvMiddlebox × TlsvResult P) × (elim u
                as (λ _. Option (TlsvMiddlebox × TlsvResult P)) [
                  | err ↦ some (m, TlsvResult.cleared)
                  | ok state ↦ run_flow net tls now p flow out state >>= λ r.
                      some (conclude net m p flow out r)
                ]
              ≡ some q)
            × AllSound q.0.flows
      found err e = ((m, TlsvResult.cleared), refl, h)
      found (ok s) e = ran (run_flow net tls now p flow out s) (
          run_flow-RunsSound now p flow out s
            (update_flow_state-IsSound m.flows now p flow out h e))
