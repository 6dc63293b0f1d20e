-- ===== src/EventHub/Tests.antt =====
-- The hub's theorems in a world of numbered events.
use pvn_project.Base.{
  length, get_elem?, subst, refl, inl, inr, if◌then◌else◌, ℕ, ◌+◌, ◌≡◌, ◌⊎◌, true, false, List, [],
  ◌∷◌, Option, none, some, arith, Eq, ◌==◌, ==_iff, ltb, lookup,
}
use pvn_project.EventHub.{Events, EventsLaws, EventHub, delivered, returned, has_event, notify}
use pvn_project.EventHub.Event.{
  Received, pending, value, failed, sends, listens, polls, waiting, answered, new_event, listen,
  run, step, poll, after_poll, finish, answer, send,
}
use pvn_project.EventHub.Listen.{IsServed, Delivers, listen_lem}
use pvn_project.EventHub.Laws.{notify_lem}

instance abbrev nat_eq : Eq ℕ
nat_eq = record { beq = λ a b. a == b; beq_iff = ==_iff }

-- The next number, and the numbers that have been sent something, with what.
abbrev World : Type 0
World = ℕ × List (ℕ × Option ℕ)

abbrev counted : Events World ℕ ℕ
counted = record {
  new = λ w. (w.0, (w.0 + 1, w.1));
  alive = λ n w. ltb n w.0;
  send = λ n v w. (w.0, (n, v) ∷ w.1);
}

counted_laws : EventsLaws counted
counted_laws = record { new-alive = λ w. ground arith }

abbrev hub : EventHub ℕ ℕ
hub = record { listeners = (70, 0) ∷ (80, 5) ∷ [] }

abbrev world : World
world = (1, [])

notify_lem_example :
    let (result, hub', w') = notify counted hub 70 33 world in
    (((has_event counted hub 70 world ≡ true)
        × (waitable : ℕ) × (lookup 70 hub.listeners ≡ some waitable)
        × (result ≡ delivered)
        × (w' ≡ counted.send waitable (some 33) world))
      ⊎ ((has_event counted hub 70 world ≡ false) × (result ≡ returned 33) × (w' ≡ world)))
    × (lookup 70 hub'.listeners ≡ none)
    × ((other : ℕ)
        → lookup other hub'.listeners ≡ (if 70 == other then none else lookup other hub.listeners))
notify_lem_example = notify_lem counted hub 70 33 world

-- One value is handed out, and more are too many.
abbrev recv : List (Option ℕ) → Received ℕ
recv [] = pending
recv (v ∷ []) = value v
recv _ = failed

-- Only 5 is sent.
abbrev Expected : Option ℕ → Type 0
Expected v = (v ≡ none) ⊎ (v ≡ some 5)

delivers : Delivers recv Expected
delivers [] v all got = cc
delivers (x ∷ []) v all got = subst Expected (only got) all.0
  where
    only : {a b : Option ℕ} → value a ≡ value b → a ≡ b
    only e = cc
delivers (x ∷ y ∷ q) v all got = cc

heard :
    (run recv (listens ∷ sends (some 5) ∷ listens ∷ polls false ∷ listens ∷ []) new_event).listeners
    ≡ answered (some 5) ∷ answered (some 5) ∷ waiting ∷ []
unfolding run step poll after_poll finish answer send listen
heard = refl

listen_lem_example :
    let e = run recv (listens ∷ []) new_event in
    let e' = run recv (sends (some 5) ∷ polls false ∷ []) (listen e) in
    ((e.ended ≡ false) × IsServed recv Expected e' (length e.listeners))
    ⊎ ((e.ended ≡ true)
        × (e'.ended ≡ true)
        × (get_elem? e'.listeners (length e.listeners) ≡ some waiting))
listen_lem_example =
    listen_lem recv Expected (listens ∷ []) (sends (some 5) ∷ polls false ∷ []) delivers (inl refl)
      tt (inr refl, tt)
