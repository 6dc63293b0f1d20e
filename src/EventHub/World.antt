-- ===== src/EventHub/World.antt =====
-- The hub's events as a list of events, with a position for each.
use pvn_project.Base.{
  ℕ, ◌≡◌, refl, ap, Bool, false, List, [], ◌∷◌, ◌++◌, Option, none, some, length, get_elem?, set,
}
use pvn_project.EventHub.{Events, EventsLaws}
use pvn_project.EventHub.Event.{Event, Listener, Received, new_event, alive, send, listen, poll}
use pvn_project.EventHub.Listen.{get_elem?-append_length}

module _ {D : Type 0} where
  unfoldable pub alive_at : ℕ → List (Event D) → Bool
  unfolding alive
  alive_at h w = elim (get_elem? w h) [ none ↦ false | some e ↦ alive e ]

  unfoldable pub update_at : ℕ → (Event D → Event D) → List (Event D) → List (Event D)
  update_at h f w = elim (get_elem? w h) [ none ↦ w | some e ↦ set w h (f e) ]

  unfoldable pub send_at : ℕ → Option D → List (Event D) → List (Event D)
  unfolding update_at
  send_at h v w = update_at h (send v) w

  unfoldable pub listen_at : ℕ → List (Event D) → List (Event D)
  unfolding update_at
  listen_at h w = update_at h listen w

  unfoldable pub poll_at :
      (List (Option D) → Received D) → Bool → ℕ → List (Event D) → List (Event D)
  unfolding update_at
  poll_at recv expired h w = update_at h (poll recv expired) w

  abbrev pub listeners_at : ℕ → List (Event D) → List (Listener D)
  listeners_at h w = elim (get_elem? w h) [ none ↦ [] | some e ↦ e.listeners ]

  pub update_at-append :
      (f : Event D → Event D) (w : List (Event D)) (e : Event D)
      → update_at (length w) f (w ++ (e ∷ [])) ≡ w ++ (f e ∷ [])
  unfolding update_at
  update_at-append f w e = rw (get_elem?-append_length w e, update_at) (set-append f w)
    where
      set-append :
          (f : Event D → Event D) (w : List (Event D))
          → set (w ++ (e ∷ [])) (length w) (f e) ≡ w ++ (f e ∷ [])
      set-append f [] = refl
      set-append f (x ∷ w) = ap (λ xs. x ∷ xs) (set-append f w)

  abbrev pub events : Events (List (Event D)) ℕ D
  events = record { new = λ w. (length w, w ++ (new_event ∷ [])); alive = alive_at; send = send_at }

  pub events_laws : EventsLaws events
  unfolding alive_at alive
  events_laws = record { new-alive = λ w. rw (get_elem?-append_length w new_event, alive_at) refl }
