-- ===== src/EventHub/Listen.antt =====
-- What becomes of one who listens to an event.
use pvn_project.Base.{
  ℕ, zero, suc, ◌≡◌, ◌⊎◌, refl, ap, ◌∙◌, inl, inr, Bool, true, false, Bool-cases, List, [], ◌∷◌,
  ◌++◌, Option, none, some, if◌then◌else◌, map, length, get_elem?, All, append-All,
}
use pvn_project.EventHub.Event.{
  Listener, waiting, answered, Event, Received, pending, value, failed, Step, sends, listens, polls,
  new_event, send, listen, answer, finish, after_poll, poll, step, run,
}

module _ {A : Type 0} where
  get_elem?-append :
      (xs ys : List A) (i : ℕ) {a : A} → get_elem? xs i ≡ some a → get_elem? (xs ++ ys) i ≡ some a
  get_elem?-append [] ys i h = cc
  get_elem?-append (x ∷ xs) ys zero h = h
  get_elem?-append (x ∷ xs) ys (suc i) h = get_elem?-append xs ys i h

  pub get_elem?-append_length :
      (xs : List A) (a : A) → get_elem? (xs ++ (a ∷ [])) (length xs) ≡ some a
  get_elem?-append_length [] a = refl
  get_elem?-append_length (x ∷ xs) a = get_elem?-append_length xs a

  get_elem?-map :
      (f : A → A) (xs : List A) (i : ℕ) {a : A}
      → get_elem? xs i ≡ some a
      → get_elem? (map f xs) i ≡ some (f a)
  get_elem?-map f [] i h = cc
  get_elem?-map f (x ∷ xs) zero h = inner h
    where
      inner : {b c : A} → some b ≡ some c → some (f b) ≡ some (f c)
      inner e = cc
  get_elem?-map f (x ∷ xs) (suc i) h = get_elem?-map f xs i h

module _ {D : Type 0} (recv : List (Option D) → Received D) where
  Received-cases :
      (r : Received D) → (r ≡ pending) ⊎ ((v : Option D) × (r ≡ value v)) ⊎ (r ≡ failed)
  Received-cases pending = inl refl
  Received-cases (value v) = inr (inl (v, refl))
  Received-cases failed = inr (inr refl)

  send_ended : (v : Option D) (e : Event D) → e.ended ≡ true → send v e ≡ e
  unfolding send
  send_ended v e h = ap (λ b. if b then e else record e { sent = e.sent ++ (v ∷ []) }) h

  poll_ended : (expired : Bool) (e : Event D) → e.ended ≡ true → poll recv expired e ≡ e
  unfolding poll
  poll_ended expired e h = ap (λ b. if b then e else after_poll (recv e.sent) expired e) h

  send_live :
      (v : Option D) (e : Event D)
      → e.ended ≡ false
      → send v e ≡ record e { sent = e.sent ++ (v ∷ []) }
  unfolding send
  send_live v e h = ap (λ b. if b then e else record e { sent = e.sent ++ (v ∷ []) }) h

  poll_live :
      (expired : Bool) (e : Event D)
      → e.ended ≡ false
      → poll recv expired e ≡ after_poll (recv e.sent) expired e
  unfolding poll
  poll_live expired e h = ap (λ b. if b then e else after_poll (recv e.sent) expired e) h

  poll-sent : (expired : Bool) (e : Event D) → (poll recv expired e).sent ≡ e.sent
  unfolding poll after_poll finish
  poll-sent expired e = elim (Bool-cases e.ended) [
    | inl over ↦ ap (λ x. x.sent) (poll_ended expired e over)
    | inr live ↦ ap (λ x. x.sent) (poll_live expired e live) ∙ elim (Received-cases (recv e.sent)) [
      | inl nothing ↦ elim (Bool-cases expired) [
        | inl late ↦ rw (nothing, late) refl
        | inr early ↦ rw (nothing, early) refl
      ]
      | inr (inl (v, got)) ↦ rw got refl
      | inr (inr bad) ↦ rw bad refl
    ]
  ]

  -- Behind its end, an event takes no step but to listen.
  run_ended :
      (steps : List (Step D)) (e : Event D) (i : ℕ) (l : Listener D)
      → e.ended ≡ true
      → get_elem? e.listeners i ≡ some l
      → ((run recv steps e).ended ≡ true) × (get_elem? (run recv steps e).listeners i ≡ some l)
  unfolding run step listen
  run_ended [] e i l h k = (h, k)
  run_ended (sends v ∷ steps) e i l h k = rw (send_ended v e h, run) (run_ended steps e i l h k)
  run_ended (listens ∷ steps) e i l h k =
      run_ended steps (listen e) i l h (get_elem?-append e.listeners _ i k)
  run_ended (polls expired ∷ steps) e i l h k =
      rw (poll_ended expired e h, run) (run_ended steps e i l h k)

  module _ (P : Option D → Type 0) where
    -- What is sent in the steps.
    abbrev pub AllSent : List (Step D) → Type 0
    AllSent [] = Unit
    AllSent (sends v ∷ steps) = P v × AllSent steps
    AllSent (listens ∷ steps) = AllSent steps
    AllSent (polls expired ∷ steps) = AllSent steps

    -- The listener waits for an event that goes on, or has been answered.
    abbrev pub IsServed : Event D → ℕ → Type 0
    IsServed e i =
        ((e.ended ≡ false) × (get_elem? e.listeners i ≡ some waiting))
        ⊎ ((r : Option D) × (e.ended ≡ true) × (get_elem? e.listeners i ≡ some (answered r)) × P r)

    -- The receiver hands out only what it was sent.
    abbrev pub Delivers : Type 0
    Delivers = (q : List (Option D)) (v : Option D) → All P q → recv q ≡ value v → P v

    IsServed-finish :
        (steps : List (Step D)) (r : Option D) (e : Event D) (i : ℕ)
        → P r
        → get_elem? e.listeners i ≡ some waiting
        → IsServed (run recv steps (finish r e)) i
    unfolding finish answer
    IsServed-finish steps r e i p k =
        let (ended, same) =
          run_ended steps (finish r e) i (answered r) refl
            (get_elem?-map (answer r) e.listeners i k) in
        inr (r, ended, same, p)

    run_waiting :
        (steps : List (Step D)) (e : Event D) (i : ℕ)
        → Delivers
        → P none
        → AllSent steps
        → All P e.sent
        → e.ended ≡ false
        → get_elem? e.listeners i ≡ some waiting
        → IsServed (run recv steps e) i
    unfolding run step listen after_poll
    run_waiting [] e i delivers p all queue live k = inl (live, k)
    run_waiting (sends v ∷ steps) e i delivers p all queue live k =
        rw (send_live v e live, run)
          (run_waiting steps (record e { sent = e.sent ++ (v ∷ []) }) i delivers p all.1
            (append-All P e.sent (v ∷ []) queue (all.0, tt)) live k)
    run_waiting (listens ∷ steps) e i delivers p all queue live k =
        run_waiting steps (listen e) i delivers p all queue live
          (get_elem?-append e.listeners _ i k)
    run_waiting (polls expired ∷ steps) e i delivers p all queue live k =
        rw (poll_live expired e live, run)
          (elim (Received-cases (recv e.sent)) [
            | inr (inl (v, got)) ↦
                rw (got, run) (IsServed-finish steps v e i (delivers e.sent v queue got) k)
            | inr (inr bad) ↦ rw (bad, run) (IsServed-finish steps none e i p k)
            | inl nothing ↦ elim (Bool-cases expired) [
              | inl late ↦ rw (nothing, late, run) (IsServed-finish steps none e i p k)
              | inr early ↦
                  rw (nothing, early, run) (run_waiting steps e i delivers p all queue live k)
            ]
          ])

    -- What waits in the first channel has been sent.
    run-sent :
        (steps : List (Step D)) (e : Event D)
        → AllSent steps
        → All P e.sent
        → All P (run recv steps e).sent
    unfolding run step listen
    run-sent [] e all queue = queue
    run-sent (listens ∷ steps) e all queue = run-sent steps (listen e) all queue
    run-sent (sends v ∷ steps) e all queue = elim (Bool-cases e.ended) [
      | inl over ↦ rw (send_ended v e over, run) (run-sent steps e all.1 queue)
      | inr live ↦
          rw (send_live v e live, run)
            (run-sent steps (record e { sent = e.sent ++ (v ∷ []) }) all.1
              (append-All P e.sent (v ∷ []) queue (all.0, tt)))
    ]
    run-sent (polls expired ∷ steps) e all queue =
        run-sent steps (poll recv expired e) all (rw (poll-sent expired e) queue)

  -- Any steps happen to a new event, then someone listens, then any more steps. If the event had
  -- not ended, then the listener waits while it goes on, and has been answered once it has ended:
  -- by none, or by a value that was sent, as the property `P` is any that holds of none and of all
  -- values that are sent. But a listener who comes after the end is never answered. The receiver
  -- of the first channel is assumed to hand out only what it was sent.
  pub listen_lem :
      (P : Option D → Type 0) (before after : List (Step D))
      → Delivers P
      → P none
      → AllSent P before
      → AllSent P after
      → let e = run recv before new_event in
        let i = length e.listeners in
        let e' = run recv after (listen e) in
        ((e.ended ≡ false) × IsServed P e' i)
        ⊎ ((e.ended ≡ true) × (e'.ended ≡ true) × (get_elem? e'.listeners i ≡ some waiting))
  unfolding listen
  listen_lem P before after delivers p sent sent' =
      let e = run recv before new_event in
      let last = get_elem?-append_length e.listeners waiting in
      elim (Bool-cases e.ended) [
        | inr live ↦ inl (
          live,
          run_waiting P after (listen e) (length e.listeners) delivers p sent'
              (run-sent P before new_event sent tt) live last,
        )
        | inl over ↦
            let (ended, still) =
              run_ended after (listen e) (length e.listeners) waiting over last in
            inr (over, ended, still)
      ]
