-- ===== src/ClientCache/Pull.antt =====
-- A request of the client from its start to its answer, with the hub's events as they are.
use pvn_project.Base.{
  ℕ, ◌≡◌, refl, ap, ◌∙◌, Bool, true, false, List, [], ◌∷◌, ◌++◌, Option, none, some, length, Eq,
  lookup, insert, lookup-insert, if◌then◌else◌,
}
use pvn_project.Wire.{Response, serialize_to}
use pvn_project.EventHub.{get_or_create_event, create_event, has_event, notify}
use pvn_project.EventHub.Event.{
  Event, answered, Received, value, new_event, alive, send, listen, poll, after_poll, finish,
  answer,
}
use pvn_project.EventHub.Listen.{get_elem?-append_length}
use pvn_project.EventHub.World.{
  alive_at, send_at, listen_at, poll_at, listeners_at, events, update_at-append,
}
use pvn_project.ClientCache.{
  Outside, PullThroughClient, goes_on, waits_for, start_get, await_event, take_response, settle,
}

module _ {U H F R C : Type 0} ⦃e : Eq U⦄ (outside : Outside U H F R C)
    (recv : List (Option (Response U H)) → Received (Response U H)) where
  awaited :
      (client : PullThroughClient U ℕ C) (w : List (Event (Response U H))) (url : U)
      → lookup url client.pending_requests.listeners ≡ none
      → await_event outside events client w url ≡ (
        waits_for (length w),
        record client {
          pending_requests = record {
            listeners = insert url (length w) client.pending_requests.listeners;
          };
        },
        w ++ (new_event ∷ []),
      )
  unfolding await_event get_or_create_event create_event
  awaited client w url missing = rw (missing, get_or_create_event) refl

  alive_last :
      (w : List (Event (Response U H))) (x : Event (Response U H))
      → x.ended ≡ false
      → alive_at (length w) (w ++ (x ∷ [])) ≡ true
  unfolding alive_at alive
  alive_last w x live =
      rw (get_elem?-append_length w x, alive_at) (ap (λ b. if b then false else true) live)

  -- The client and the world behind the start of a request.
  started :
      (client : PullThroughClient U ℕ C) (w : List (Event (Response U H))) (url : U) (headers : H)
      (writable written : List ℕ)
      → lookup url client.pending_requests.listeners ≡ none
      → client.conn ≡ some writable
      → serialize_to outside.encode_request (record { url = url; headers = headers }) writable
        ≡ some written
      → start_get outside events client w url headers ≡ (
        waits_for (length w),
        record client {
          conn = some written;
          pending_requests = record {
            listeners = insert url (length w) client.pending_requests.listeners;
          };
        },
        w ++ (new_event ∷ []),
      )
  unfolding start_get has_event
  started client w url headers writable written missing up writes =
      rw (missing, up, writes, start_get, has_event)
        (awaited (record client { conn = some written }) w url missing)

  told :
      (client : PullThroughClient U ℕ C) (w : List (Event (Response U H))) (r : Response U H)
      (x : Event (Response U H))
      → lookup r.original_request.url client.pending_requests.listeners ≡ some (length w)
      → x.ended ≡ false
      → ((take_response outside events client (w ++ (x ∷ [])) r).0.cache ≡ client.cache)
        × ((take_response outside events client (w ++ (x ∷ [])) r).1 ≡ w ++ (send (some r) x ∷ []))
        × ((take_response outside events client (w ++ (x ∷ [])) r).2 ≡ goes_on)
  unfolding take_response notify settle send_at
  told client w r x hit live =
      rw (hit, alive_last w x live, take_response, notify)
        (refl, update_at-append (send (some r)) w x, refl)

  -- A first request for a URL that can be written waits for an event. When a response to it comes,
  -- and the event's task is then polled, in time or late, the one who waits has that response,
  -- the cache is as it was, and the loop goes on. The receiver of the event's first channel is assumed to hand out a
  -- value that is the only one.
  pub take_response-start_get :
      (client : PullThroughClient U ℕ C) (w : List (Event (Response U H))) (url : U) (headers : H)
      (writable written : List ℕ) (r : Response U H) (expired : Bool)
      → lookup url client.pending_requests.listeners ≡ none
      → client.conn ≡ some writable
      → serialize_to outside.encode_request (record { url = url; headers = headers }) writable
        ≡ some written
      → r.original_request.url ≡ url
      → recv (some r ∷ []) ≡ value (some r)
      → let (first, client1, w1) = start_get outside events client w url headers in
        let (client2, w2, fate) =
          take_response outside events client1 (listen_at (length w) w1) r in
        (first ≡ waits_for (length w))
        × (client1.conn ≡ some written)
        × (listeners_at (length w) (poll_at recv expired (length w) w2) ≡ answered (some r) ∷ [])
        × (client2.cache ≡ client.cache)
        × (fate ≡ goes_on)
  unfolding listen_at poll_at listen send poll after_poll finish answer
  take_response-start_get client w url headers writable written r expired missing up writes own
        hands =
      rw (started client w url headers writable written missing up writes) (
        let client1 = record client {
          conn = some written;
          pending_requests = record {
            listeners = insert url (length w) client.pending_requests.listeners;
          };
        } in
        let heard : listen_at (length w) (w ++ (new_event ∷ [])) ≡ w ++ (listen new_event ∷ []) =
          update_at-append listen w new_event in
        let (kept, sends_it, fine) = told client1 w r (listen new_event) found refl in
        rw heard (
          refl,
          refl,
          rw sends_it (
              ap (listeners_at (length w))
                (update_at-append (poll recv expired) w (send (some r) (listen new_event)))
              ∙ last (poll recv expired (send (some r) (listen new_event)))
              ∙ polled),
          kept,
          fine,
        ))
    where
      found :
          lookup r.original_request.url (insert url (length w) client.pending_requests.listeners)
          ≡ some (length w)
      found = rw own (
          lookup-insert url url (length w) client.pending_requests.listeners
          ∙ rw ((e.beq_iff url url).1 refl) refl)

      last : (x : Event (Response U H)) → listeners_at (length w) (w ++ (x ∷ [])) ≡ x.listeners
      last x = rw (get_elem?-append_length w x, listeners_at) refl

      polled :
          (poll recv expired (send (some r) (listen new_event))).listeners ≡ answered (some r) ∷ []
      polled = rw (hands, poll) refl
