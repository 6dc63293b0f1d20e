-- ===== src/ClientCache.antt =====
-- apps/rdr_client_cache/src/client.rs: the client that forwards requests to the parent cache and
-- reads what the parent sends. Each function is what runs under the locks that it takes; the
-- connection's writer is the bytes written, its reader the bytes still to come. A panic ends
-- `read_loop`: its reader is dropped, and the client stays as it is then. The HTTP cache, the
-- encodings and the network are parameters, and the clock is taken not to go back.
pub mod Delivery
pub mod Caching
pub mod Fallback
pub mod Pull
mod Tests
use pvn_project.Base.{
  ℕ, Bool, true, false, not, List, [], ◌∷◌, ◌++◌, Option, none, some, if◌then◌else◌, Eq, Result, ok,
  err,
}
use pvn_project.Wire.{
  Request, Response, DownstreamMessage, response, page_loaded, serialize_to, extract_from,
}
use pvn_project.EventHub.{
  Events, EventHub, Notified, delivered, returned, get_or_create_event, has_event, notify, clear,
}

-- The parts of the program that are not its own: the codecs of the wire, the split of a response
-- (`none` is a panic), the parts of an HTTP response, the caching policy and the cache's `put`.
pub record Outside (U H F R C : Type 0) : Type 0 where
  pub encode_request : Request U H → Option (List ℕ)
  pub decode_message : List ℕ → Option (DownstreamMessage U H F × ℕ)
  pub convert : Response U H → Option R
  pub has_parts : R → Bool
  pub is_storable : Request U H → R → Bool
  pub uri_of : Request U H → List ℕ
  pub put : List ℕ → R → C → Result C

-- apps/rdr_client_cache/src/utils.rs, over the bytes of both.
unfoldable pub create_cache_key : List ℕ → List ℕ → List ℕ
create_cache_key method uri = method ++ b':' ∷ uri

-- `GET`, the method that every request of the wire gets.
abbrev pub get_method : List ℕ
get_method = b'G' ∷ b'E' ∷ b'T' ∷ []

pub record PullThroughClient (U Ev C : Type 0) : Type 0 where
  pub conn : Option (List ℕ)
  pub pending_requests : EventHub U Ev
  pub cache : C

pub data PullThroughError : Type 0 where
  upstream_timed_out no_upstream_connection : PullThroughError

-- How the first part of `get` ends: with an event to wait for, or with an error.
pub data Started (Ev : Type 0) : Type 0 where
  waits_for : Ev → Started Ev
  fails : PullThroughError → Started Ev
  unsent : Started Ev

-- How `get` ends; `panics` is that of `convert`.
pub data Answer (R : Type 0) : Type 0 where
  answer : R → Answer R
  fails : PullThroughError → Answer R
  panics : Answer R

-- Whether `read_loop` goes on, or has ended in the panic of `convert`.
pub data Fate : Type 0 where
  goes_on died : Fate

-- The state of `read_loop`: its reader, the shared client, and the world of the events.
pub record Loop (U Ev C W : Type 0) : Type 0 where
  pub read_half : Option (List ℕ)
  pub client : PullThroughClient U Ev C
  pub world : W
  pub fate : Fate

module _ {U H F R C W Ev : Type 0} ⦃e : Eq U⦄ (outside : Outside U H F R C)
    (events : Events W Ev (Response U H)) where
  unfoldable pub await_event :
      PullThroughClient U Ev C → W → U → Started Ev × PullThroughClient U Ev C × W
  await_event client w url =
      let (event, hub, w') = get_or_create_event events client.pending_requests url w in
      (waits_for event, record client { pending_requests = hub }, w')

  -- `get` up to its wait. A request goes out only where none for the URL is under way.
  unfoldable pub start_get :
      PullThroughClient U Ev C → W → U → H → Started Ev × PullThroughClient U Ev C × W
  unfolding await_event
  start_get client w url headers =
      if has_event events client.pending_requests url w
      then await_event client w url
      else elim client.conn [
        | none ↦ (Started.fails no_upstream_connection, client, w)
        | some writable ↦
            elim (serialize_to outside.encode_request (record { url = url; headers = headers })
              writable) [
                | none ↦ (unsent, client, w)
                | some written ↦ await_event (record client { conn = some written }) w url
              ]
      ]

  -- `get` after its wait.
  unfoldable pub finish_get : Option (Response U H) → Answer R
  finish_get none = Answer.fails upstream_timed_out
  finish_get (some r) = elim (outside.convert r) [ none ↦ panics | some r' ↦ answer r' ]

  -- An error leaves the cache as it was.
  unfoldable pub inject_to_cache : Response U H → C → C × Fate
  inject_to_cache resource cache = elim (outside.convert resource) [
    | none ↦ (cache, died)
    | some r ↦
        if not (outside.has_parts r)
        then (cache, goes_on)
        else if outside.is_storable resource.original_request r
        then elim (outside.put
            (create_cache_key get_method (outside.uri_of resource.original_request)) r cache) [
              | ok cache' ↦ (cache', goes_on)
              | err ↦ (cache, goes_on)
            ]
        else (cache, goes_on)
  ]

  -- What is left to do after `notify`: data that are handed back go into the cache.
  unfoldable pub settle :
      PullThroughClient U Ev C
      → Notified (Response U H)
      → EventHub U Ev
      → PullThroughClient U Ev C × Fate
  settle client delivered hub = (record client { pending_requests = hub }, goes_on)
  settle client (returned r) hub =
      let (cache, fate) = inject_to_cache r client.cache in
      (record client { pending_requests = hub; cache = cache }, fate)

  -- A response goes to those who wait for its request, else into the cache.
  unfoldable pub take_response :
      PullThroughClient U Ev C → W → Response U H → PullThroughClient U Ev C × W × Fate
  unfolding settle
  take_response client w r =
      let (result, hub, w') = notify events client.pending_requests r.original_request.url r w in
      let (client', fate) = settle client result hub in (client', w', fate)

  unfoldable pub take_message :
      PullThroughClient U Ev C → W → DownstreamMessage U H F → PullThroughClient U Ev C × W × Fate
  unfolding take_response
  take_message client w (response r) = take_response client w r
  take_message client w (page_loaded n) = (client, w, goes_on)

  -- The body of the loop with a reader.
  unfoldable pub read_message : Loop U Ev C W → List ℕ → Loop U Ev C W
  read_message l reader = elim (extract_from outside.decode_message reader) [
    | none ↦ record l { read_half = none; client = record (l.client) { conn = none } }
    | some (message, reader') ↦
        let (client, w, fate) = take_message l.client l.world message in
        record {
          read_half = elim fate [ goes_on ↦ some reader' | died ↦ none ];
          client = client;
          world = w;
          fate = fate;
        }
  ]

  -- The body of the loop without a reader: `reconnected` is the new connection, if there is one,
  -- by the bytes that will come from it.
  unfoldable pub reconnect : Loop U Ev C W → Option (List ℕ) → Loop U Ev C W
  reconnect l none = l
  reconnect l (some reader) =
      let (hub, w) = clear events l.client.pending_requests l.world in
      record {
        read_half = some reader;
        client = record (l.client) { pending_requests = hub; conn = some [] };
        world = w;
        fate = l.fate;
      }

  unfoldable pub loop_step : Loop U Ev C W → Option (List ℕ) → Loop U Ev C W
  unfolding read_message reconnect
  loop_step l reconnected = elim l.fate [
    | died ↦ l
    | goes_on ↦ elim l.read_half [
      | some reader ↦ read_message l reader
      | none ↦ reconnect l reconnected
    ]
  ]
