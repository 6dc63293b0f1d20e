-- ===== src/EventHub/Laws.antt =====
-- The hub as a set of open events.
use pvn_project.Base.{
  subst, if◌then◌else◌, ◌≡◌, refl, sym, ◌∙◌, ◌⊎◌, inl, inr, true, false, Bool-cases, List, none,
  some, Option-cases, arith, Eq, lookup, remove, lookup-remove, lookup-insert_self,
}
use pvn_project.EventHub.{
  Events, EventsLaws, EventHub, delivered, returned, create_event, get_or_create_event, has_event,
  notify, clear,
}

module _ {E W H D : Type 0} ⦃e : Eq E⦄ (events : Events W H D) where
  lookup-remove_self : (k : E) (m : List (E × H)) → lookup k (remove k m) ≡ none
  lookup-remove_self k m = ground (arith, lookup-remove k k m, e.beq_iff k k)

  module _ (hub : EventHub E H) (event : E) (w : W) where
    has_event_hit :
        (x : H)
        → lookup event hub.listeners ≡ some x
        → has_event events hub event w ≡ events.alive x w
    unfolding has_event
    has_event_hit x hit = rw (hit, has_event)

    has_event_miss : lookup event hub.listeners ≡ none → has_event events hub event w ≡ false
    unfolding has_event
    has_event_miss miss = rw (miss, has_event)

    get_hit_alive :
        (x : H)
        → lookup event hub.listeners ≡ some x
        → events.alive x w ≡ true
        → get_or_create_event events hub event w ≡ (x, hub, w)
    unfolding get_or_create_event
    get_hit_alive x hit up = rw (hit, get_or_create_event, up)

    get_hit_dead :
        (x : H)
        → lookup event hub.listeners ≡ some x
        → events.alive x w ≡ false
        → get_or_create_event events hub event w ≡ create_event events hub event w
    unfolding get_or_create_event
    get_hit_dead x hit down = rw (hit, get_or_create_event, down)

    get_miss :
        lookup event hub.listeners ≡ none
        → get_or_create_event events hub event w ≡ create_event events hub event w
    unfolding get_or_create_event
    get_miss miss = rw (miss, get_or_create_event)

    notify_hit_alive :
        (x : H) (value : D)
        → lookup event hub.listeners ≡ some x
        → events.alive x w ≡ true
        → notify events hub event value w ≡ (
          delivered,
          record { listeners = remove event hub.listeners },
          events.send x (some value) w,
        )
    unfolding notify
    notify_hit_alive x value hit up = rw (hit, notify, up)

    notify_hit_dead :
        (x : H) (value : D)
        → lookup event hub.listeners ≡ some x
        → events.alive x w ≡ false
        → notify events hub event value w
          ≡ (returned value, record { listeners = remove event hub.listeners }, w)
    unfolding notify
    notify_hit_dead x value hit down = rw (hit, notify, down)

    notify_miss :
        (value : D)
        → lookup event hub.listeners ≡ none
        → notify events hub event value w ≡ (returned value, hub, w)
    unfolding notify
    notify_miss value miss = rw (miss, notify)

  -- An event that is there and alive is found again, and nothing else happens.
  pub get_or_create_event_again :
      (hub : EventHub E H) (event : E) (w : W)
      → has_event events hub event w ≡ true
      → (waitable : H) × (lookup event hub.listeners ≡ some waitable)
        × (get_or_create_event events hub event w ≡ (waitable, hub, w))
  get_or_create_event_again hub event w h = elim (Option-cases (lookup event hub.listeners)) [
    | inl miss ↦ absurd (differ (sym h ∙ has_event_miss hub event w miss))
    | inr (x, hit) ↦
        (x, hit, get_hit_alive hub event w x hit (sym (has_event_hit hub event w x hit) ∙ h))
  ]
    where
      differ : true ≡ false → ⊥
      differ x = cc

  module _ (laws : EventsLaws events) where
    -- What holds of an answer of `get_or_create_event`.
    abbrev Open : E → H × EventHub E H × W → Type 0
    Open event r = (lookup event r.1.listeners ≡ some r.0) × (has_event events r.1 event r.2 ≡ true)

    create_event-Open :
        (hub : EventHub E H) (event : E) (w : W) → Open event (create_event events hub event w)
    unfolding create_event has_event
    create_event-Open hub event w =
        let there = lookup-insert_self event (events.new w).0 hub.listeners in
        (there, rw (there, has_event) (laws.new-alive w))

    -- Whatever was there before, the event that is handed out is the hub's event for this key, and
    -- it is alive.
    pub get_or_create_event-has_event :
        (hub : EventHub E H) (event : E) (w : W)
        → let (waitable, hub', w') = get_or_create_event events hub event w in
          (lookup event hub'.listeners ≡ some waitable) × (has_event events hub' event w' ≡ true)
    get_or_create_event-has_event hub event w = elim (Option-cases (lookup event hub.listeners)) [
      | inl miss ↦ rw (get_miss hub event w miss) (create_event-Open hub event w)
      | inr (x, hit) ↦ elim (Bool-cases (events.alive x w)) [
        | inl up ↦
            rw (get_hit_alive hub event w x hit up) (hit, has_event_hit hub event w x hit ∙ up)
        | inr down ↦ rw (get_hit_dead hub event w x hit down) (create_event-Open hub event w)
      ]
    ]

  -- `notify` delivers exactly where there is an event that is alive: then its value goes to that
  -- event alone; else it is handed back and nothing is sent. In both cases the hub has no such
  -- event any more, and the entries of the other keys stay.
  pub notify_lem :
      (hub : EventHub E H) (event : E) (value : D) (w : W)
      → let (result, hub', w') = notify events hub event value w in
        (((has_event events hub event w ≡ true)
            × (waitable : H) × (lookup event hub.listeners ≡ some waitable)
            × (result ≡ delivered)
            × (w' ≡ events.send waitable (some value) w))
          ⊎ ((has_event events hub event w ≡ false) × (result ≡ returned value) × (w' ≡ w)))
        × (lookup event hub'.listeners ≡ none)
        × ((other : E)
            → lookup other hub'.listeners
              ≡ (if e.beq event other then none else lookup other hub.listeners))
  notify_lem hub event value w = elim (Option-cases (lookup event hub.listeners)) [
    | inl miss ↦
        rw (notify_miss hub event w value miss)
          (inr (has_event_miss hub event w miss, refl, refl), miss, λ other. untouched other miss)
    | inr (x, hit) ↦ elim (Bool-cases (events.alive x w)) [
      | inl up ↦ rw (notify_hit_alive hub event w x value hit up) (
        inl (has_event_hit hub event w x hit ∙ up, x, hit, refl, refl),
        lookup-remove_self event hub.listeners,
        λ other. lookup-remove event other hub.listeners,
      )
      | inr down ↦ rw (notify_hit_dead hub event w x value hit down) (
        inr (has_event_hit hub event w x hit ∙ down, refl, refl),
        lookup-remove_self event hub.listeners,
        λ other. lookup-remove event other hub.listeners,
      )
    ]
  ]
    where
      untouched :
          (other : E)
          → lookup event hub.listeners ≡ none
          → lookup other hub.listeners
            ≡ (if e.beq event other then none else lookup other hub.listeners)
      untouched other miss = elim (Bool-cases (e.beq event other)) [
        | inl same ↦
            rw same
              (subst (λ k. lookup k hub.listeners ≡ none) ((e.beq_iff event other).0 same) miss)
        | inr differs ↦ rw differs refl
      ]

  -- After `clear` no key has an event.
  pub clear-has_event :
      (hub : EventHub E H) (w v : W) (event : E)
      → has_event events (clear events hub w).0 event v ≡ false
  unfolding has_event clear lookup
  clear-has_event hub w v event = refl
