-- ===== src/ClientCache/Delivery.antt =====
-- Where responses go, and when requests are sent.
use pvn_project.Base.{
  ℕ, ◌<◌, ◌≡◌, refl, ◌⊎◌, inl, inr, true, false, List, [], ◌++◌, Option, none, some, Option-cases,
  Eq, lookup, length, u32_mod, Result, ok, err, Bool-cases, ◌∷◌, ap, ◌∙◌,
}
use pvn_project.Wire.{Response, DownstreamMessage, response, page_loaded, extract_from}
use pvn_project.Wire.RoundTrip.{frame, serialize_to-frame}
use pvn_project.EventHub.{Events, EventsLaws, has_event}
use pvn_project.EventHub.Laws.{
  get_or_create_event_again, get_or_create_event-has_event, notify_lem, clear-has_event,
}
use pvn_project.ClientCache.{
  Outside, Fate, goes_on, died, PullThroughClient, no_upstream_connection, Started, waits_for, Loop,
  start_get, create_cache_key, get_method, inject_to_cache, take_response, take_message,
  read_message, reconnect, loop_step,
}

module _ {U H F R C W Ev : Type 0} ⦃e : Eq U⦄ (outside : Outside U H F R C)
    (events : Events W Ev (Response U H)) where
  -- A second request for a URL that is under way sends nothing, waits for the same event, and
  -- changes nothing.
  start_get_again :
      (client : PullThroughClient U Ev C) (w : W) (url : U) (headers : H)
      → has_event events client.pending_requests url w ≡ true
      → (waitable : Ev) × (lookup url client.pending_requests.listeners ≡ some waitable)
        × (start_get outside events client w url headers ≡ (waits_for waitable, client, w))
  unfolding start_get
  start_get_again client w url headers under_way =
      let (x, hit, same) =
        get_or_create_event_again events client.pending_requests url w under_way in
      (x, hit, rw (under_way, same))

  -- What the cache is with a response that has been converted: one that has parts and is storable by
  -- the policy is put under `GET:` and the URI of its own request; where it is not, or the cache
  -- fails, the cache stays; and the loop goes on.
  abbrev Judged : Response U H → R → C → C → Fate → Type 0
  Judged r r' cache cache' fate =
      (fate ≡ goes_on)
      × (((outside.has_parts r' ≡ true)
            × (outside.is_storable r.original_request r' ≡ true)
            × (outside.put (b'G' ∷ b'E' ∷ b'T' ∷ b':' ∷ outside.uri_of r.original_request) r' cache
                ≡ ok cache'))
          ⊎ ((cache' ≡ cache)
              × ((outside.has_parts r' ≡ false)
                  ⊎ (outside.is_storable r.original_request r' ≡ false)
                  ⊎ (outside.put (b'G' ∷ b'E' ∷ b'T' ∷ b':' ∷ outside.uri_of r.original_request) r'
                        cache
                      ≡ err))))

  -- What it is to offer a response to the cache: one that cannot be converted ends the loop in a
  -- panic, with the cache as it was.
  abbrev pub Offered : Response U H → C → C → Fate → Type 0
  Offered r cache cache' fate =
      ((outside.convert r ≡ none) × (fate ≡ died) × (cache' ≡ cache))
      ⊎ ((r' : R) × (outside.convert r ≡ some r') × Judged r r' cache cache' fate)

  put_cases : (result : Result C) → ((c : C) × (result ≡ ok c)) ⊎ (result ≡ err)
  put_cases (ok c) = inl (c, refl)
  put_cases err = inr refl

  inject_to_cache-Offered :
      (r : Response U H) (cache : C)
      → let (cache', fate) = inject_to_cache outside events r cache in Offered r cache cache' fate
  unfolding inject_to_cache create_cache_key
  inject_to_cache-Offered r cache = elim (Option-cases (outside.convert r)) [
    | inl bad ↦ rw (bad, inject_to_cache) (inl (refl, refl, refl))
    | inr (r', good) ↦
        rw (good, inject_to_cache)
          (inr (
            r',
            refl,
            elim (Bool-cases (outside.has_parts r')) [
              | inr bare ↦ rw bare (refl, inr (refl, inl refl))
              | inl parts ↦
                  rw parts (elim (Bool-cases (outside.is_storable r.original_request r')) [
                    | inr private ↦ rw private (refl, inr (refl, inr (inl refl)))
                    | inl storable ↦
                        rw storable
                          (elim (put_cases (
                            outside.put
                              (create_cache_key get_method (outside.uri_of r.original_request)) r'
                              cache)) [
                                | inl (c, stored) ↦ rw stored (refl, inl (refl, refl, refl))
                                | inr fails ↦ rw fails (refl, inr (refl, inr (inr refl)))
                              ])
                  ])
            ],
          ))
  ]

  -- What becomes of a response. Where someone waits for its request, it is sent to that event, the
  -- cache stays and the loop goes on; else no event hears of it and it is offered to the cache,
  -- which ends the loop where it cannot be converted. In both cases nobody waits for this request
  -- afterwards, and the connection stays.
  pub take_response_lem :
      (client : PullThroughClient U Ev C) (w : W) (r : Response U H)
      → let (client', w', fate) = take_response outside events client w r in
        (((has_event events client.pending_requests r.original_request.url w ≡ true)
            × (waitable : Ev) × (lookup r.original_request.url client.pending_requests.listeners
                ≡ some waitable)
            × (w' ≡ events.send waitable (some r) w)
            × (client'.cache ≡ client.cache)
            × (fate ≡ goes_on))
          ⊎ ((has_event events client.pending_requests r.original_request.url w ≡ false)
              × (w' ≡ w)
              × Offered r client.cache client'.cache fate))
        × (lookup r.original_request.url client'.pending_requests.listeners ≡ none)
        × (client'.conn ≡ client.conn)
  unfolding take_response
  take_response_lem client w r =
      let told = notify_lem events client.pending_requests r.original_request.url r w in
      elim told.0 [
        | inl (waits, x, hit, d, sent) ↦ rw d (inl (waits, x, hit, sent, refl, refl), told.1, refl)
        | inr (nobody, d, quiet) ↦
            rw d (inr (nobody, quiet, inject_to_cache-Offered r client.cache), told.1, refl)
      ]

  -- `read_loop`'s own invariant: there is a reader, or else no writer.
  abbrev pub Paired : Loop U Ev C W → Type 0
  Paired l = ((reader : List ℕ) × (l.read_half ≡ some reader)) ⊎ (l.client.conn ≡ none)

  -- The next message is a response for which nobody waits and which cannot be converted.
  abbrev pub Panics : Loop U Ev C W → Type 0
  Panics l =
      (reader : List ℕ) × (rest : List ℕ) × (r : Response U H) × (l.read_half ≡ some reader)
      × (extract_from outside.decode_message reader ≡ some (response r, rest))
      × (has_event events l.client.pending_requests r.original_request.url l.world ≡ false)
      × (outside.convert r ≡ none)

  pub take_message-fate :
      (client : PullThroughClient U Ev C) (w : W) (m : DownstreamMessage U H F)
      → ((take_message outside events client w m).2 ≡ goes_on)
        ⊎ (((take_message outside events client w m).2 ≡ died)
            × (r : Response U H) × (m ≡ response r)
            × (has_event events client.pending_requests r.original_request.url w ≡ false)
            × (outside.convert r ≡ none))
  unfolding take_message
  take_message-fate client w (page_loaded n) = inl refl
  take_message-fate client w (response r) = elim ((take_response_lem client w r).0) [
    | inl (waits, x, hit, sent, kept, fine) ↦ inl fine
    | inr (nobody, quiet, offered) ↦ elim offered [
      | inl (bad, dead, kept) ↦ inr (dead, r, refl, nobody, bad)
      | inr (r', good, (fine, stored)) ↦ inl fine
    ]
  ]

  read_message-Paired :
      (l : Loop U Ev C W) (reader : List ℕ)
      → l.read_half ≡ some reader
      → l.fate ≡ goes_on
      → let next = read_message outside events l reader in
        ((next.fate ≡ goes_on) × Paired next) ⊎ ((next.fate ≡ died) × Panics l)
  unfolding read_message
  read_message-Paired l reader open_ running =
      elim (Option-cases (extract_from outside.decode_message reader)) [
        | inl broken ↦ rw (broken, read_message) (inl (running, inr refl))
        | inr ((m, rest), whole) ↦
            rw (whole, read_message)
              (elim (take_message-fate l.client l.world m) [
                | inl fine ↦ rw fine (inl (refl, inl (rest, refl)))
                | inr (dead, r, is, nobody, bad) ↦ rw dead (
                    inr (
                      refl,
                      (reader, rest, r, open_, whole ∙ ap (λ m. some (m, rest)) is, nobody, bad),
                    ))
              ])
      ]

  reconnect-Paired :
      (l : Loop U Ev C W) (reconnected : Option (List ℕ))
      → l.fate ≡ goes_on
      → Paired l
      → let next = reconnect outside events l reconnected in (next.fate ≡ goes_on) × Paired next
  unfolding reconnect
  reconnect-Paired l none running h = (running, h)
  reconnect-Paired l (some reader) running h = (running, inl (reader, refl))

  -- Every round of the loop keeps its invariant, that there is a reader or else no writer, whatever
  -- comes from the connection and however a reconnection ends; unless a response comes for which
  -- nobody waits and which cannot be converted: then the loop dies.
  pub loop_step-Paired :
      (l : Loop U Ev C W) (reconnected : Option (List ℕ))
      → l.fate ≡ goes_on
      → Paired l
      → let next = loop_step outside events l reconnected in
        ((next.fate ≡ goes_on) × Paired next) ⊎ ((next.fate ≡ died) × Panics l)
  unfolding loop_step
  loop_step-Paired l reconnected running h = elim (Option-cases l.read_half) [
    | inl closed ↦ rw (waits closed) (inl (reconnect-Paired l reconnected running h))
    | inr (reader, open_) ↦ rw (reads reader open_) (read_message-Paired l reader open_ running)
  ]
    where
      step :
          (half : Option (List ℕ))
          → l.read_half ≡ half
          → loop_step outside events l reconnected ≡ elim half [
            | some reader ↦ read_message outside events l reader
            | none ↦ reconnect outside events l reconnected
          ]
      step half e =
          ap
            (λ fate. elim fate [
              | died ↦ l
              | goes_on ↦ elim l.read_half [
                | some reader ↦ read_message outside events l reader
                | none ↦ reconnect outside events l reconnected
              ]
            ])
            running
          ∙ ap
              (λ half. elim half [
                | some reader ↦ read_message outside events l reader
                | none ↦ reconnect outside events l reconnected
              ])
              e

      waits :
          l.read_half ≡ none
          → loop_step outside events l reconnected ≡ reconnect outside events l reconnected
      waits closed = step none closed

      reads :
          (reader : List ℕ)
          → l.read_half ≡ some reader
          → loop_step outside events l reconnected ≡ read_message outside events l reader
      reads reader open_ = step (some reader) open_

  -- A connection is made only without one; after it nobody waits for any request, and the new
  -- connection has been written nothing.
  loop_step_reconnects :
      (l : Loop U Ev C W) (reader : List ℕ) (url : U)
      → l.fate ≡ goes_on
      → l.read_half ≡ none
      → let l' = loop_step outside events l (some reader) in
        (l'.read_half ≡ some reader)
        × (l'.client.conn ≡ some [])
        × (has_event events l'.client.pending_requests url l'.world ≡ false)
        × (l'.client.cache ≡ l.client.cache)
  unfolding loop_step
  loop_step_reconnects l reader url running closed =
      rw (running, closed, loop_step) (after l reader url)
    where
      after :
          (l : Loop U Ev C W) (reader : List ℕ) (url : U)
          → let l' = reconnect outside events l (some reader) in
            (l'.read_half ≡ some reader)
            × (l'.client.conn ≡ some [])
            × (has_event events l'.client.pending_requests url l'.world ≡ false)
            × (l'.client.cache ≡ l.client.cache)
      after l reader url =
          unfold reconnect in
          (refl, refl, clear-has_event events l.client.pending_requests l.world _ url, refl)

  start_get_closed :
      (client : PullThroughClient U Ev C) (w : W) (url : U) (headers : H)
      → has_event events client.pending_requests url w ≡ false
      → client.conn ≡ none
      → start_get outside events client w url headers
        ≡ (Started.fails no_upstream_connection, client, w)
  unfolding start_get
  start_get_closed client w url headers idle closed = simp (idle, closed)

  module _ (laws : EventsLaws events) where
    start_get_open :
        (client : PullThroughClient U Ev C) (w : W) (url : U) (headers : H)
        (writable bytes : List ℕ)
        → has_event events client.pending_requests url w ≡ false
        → client.conn ≡ some writable
        → outside.encode_request (record { url = url; headers = headers }) ≡ some bytes
        → length bytes < u32_mod
        → let (started, client', w') = start_get outside events client w url headers in
          (waitable : Ev) × (started ≡ waits_for waitable)
          × (lookup url client'.pending_requests.listeners ≡ some waitable)
          × (has_event events client'.pending_requests url w' ≡ true)
          × (client'.conn ≡ some (writable ++ frame bytes))
          × (client'.cache ≡ client.cache)
    unfolding start_get
    start_get_open client w url headers writable bytes idle conn enc small =
        let opened = get_or_create_event-has_event events laws client.pending_requests url w in
        rw
          (
            idle,
            conn,
            serialize_to-frame outside.encode_request (record { url = url; headers = headers })
                bytes writable enc small,
          )
          (_, refl, opened.0, opened.1, refl, refl)

    -- A first request for a URL, with headers whose encoding is shorter than 2^32 bytes: on an open
    -- connection exactly its frame is added to the connection, an alive event of the hub for the
    -- URL is waited for, and the cache stays; without a connection it fails at once, and nothing
    -- changes.
    pub start_get_first :
        (client : PullThroughClient U Ev C) (w : W) (url : U) (headers : H) (bytes : List ℕ)
        → has_event events client.pending_requests url w ≡ false
        → outside.encode_request (record { url = url; headers = headers }) ≡ some bytes
        → length bytes < u32_mod
        → let (started, client', w') = start_get outside events client w url headers in
          ((client.conn ≡ none)
            × (started ≡ Started.fails no_upstream_connection)
            × (client' ≡ client)
            × (w' ≡ w))
          ⊎ ((writable : List ℕ) × (client.conn ≡ some writable)
              × (waitable : Ev) × (started ≡ waits_for waitable)
              × (lookup url client'.pending_requests.listeners ≡ some waitable)
              × (has_event events client'.pending_requests url w' ≡ true)
              × (client'.conn ≡ some (writable ++ frame bytes))
              × (client'.cache ≡ client.cache))
    unfolding start_get
    start_get_first client w url headers bytes idle enc small = elim (Option-cases client.conn) [
      | inl closed ↦
          rw (start_get_closed client w url headers idle closed) (inl (closed, refl, refl, refl))
      | inr (writable, conn) ↦
          let (waitable, waits, hit, alive, sent, kept) =
            start_get_open client w url headers writable bytes idle conn enc small in
          inr (writable, conn, waitable, waits, hit, alive, sent, kept)
    ]
