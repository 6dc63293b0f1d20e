-- ===== src/ClientCache/Tests.antt =====
-- The client's theorems at concrete inputs.
use pvn_project.Base.{
  insert, string_eq, All, string_eq_instance, ℕ, ◌+◌, ◌≡◌, refl, ◌⊎◌, inr, true, false, List, [],
  ◌∷◌, ◌++◌, Option, none, some, arith, Eq, ◌==◌, ==_iff, ltb, lookup, ok,
}
use pvn_project.Wire.{Response, serialize_to, to_le_bytes}
use pvn_project.Wire.RoundTrip.{frame}
use pvn_project.EventHub.{Events, EventsLaws, has_event}
use pvn_project.Http.Sample.{Fields, sample, sample_laws}
use pvn_project.ClientCache.Caching.{
  Request, Run, returns, updates, forces, fetches, Sources, handle_request, request, run_cache,
  execute, new_upstream, update_headers, force_no_cache, with_headers, insert_all, remote_fetch,
  conclude, recover_request,
}
use pvn_project.ClientCache.Fallback.{IsFallback, handle_request-IsFallback}
use pvn_project.ClientCache.{
  Outside, PullThroughClient, Started, waits_for, no_upstream_connection, Loop, goes_on, died,
  start_get, take_response, loop_step,
}
use pvn_project.EventHub.Event.{Event, Received, pending, value, failed, new_event, answered}
use pvn_project.EventHub.World.{listen_at, poll_at, listeners_at, events}
use pvn_project.ClientCache.Pull.{take_response-start_get}
use pvn_project.ClientCache.Delivery.{
  start_get_first, take_response_lem, Offered, Paired, Panics, loop_step-Paired,
}

instance abbrev nat_eq : Eq ℕ
nat_eq = record { beq = λ a b. a == b; beq_iff = ==_iff }

abbrev Page : Type 0
Page = Response ℕ ℕ

-- A cache is the list of what was put; URLs, headers and HTTP responses are numbers.
abbrev outside : Outside ℕ ℕ ℕ ℕ (List ℕ)
outside = record {
  encode_request = λ r. some (r.url ∷ r.headers ∷ []);
  decode_message = λ bytes. none;
  convert = λ r. some (r.status);
  has_parts = λ r. true;
  is_storable = λ q r. r == 200;
  uri_of = λ q. q.url ∷ [];
  put = λ k r c. ok (r ∷ c);
}

abbrev World : Type 0
World = ℕ × List (ℕ × Option Page)

abbrev counted : Events World ℕ Page
counted = record {
  new = λ w. (w.0, (w.0 + 1, w.1));
  alive = λ n w. ltb n w.0;
  send = λ n v w. (w.0, (n, v) ∷ w.1);
}

counted_laws : EventsLaws counted
counted_laws = record { new-alive = λ w. ground arith }

abbrev client : PullThroughClient ℕ ℕ (List ℕ)
client = record {
  conn = some (9 ∷ []);
  pending_requests = record { listeners = (70, 0) ∷ [] };
  cache = [];
}

abbrev world : World
world = (1, [])

abbrev page : Page
page = record {
  original_request = record { url = 70; headers = 0 };
  url = 70;
  status = 200;
  headers = 0;
  body = [];
}

start_get_first_example :
    let (started, client', w') = start_get outside counted client world 71 4 in
    ((client.conn ≡ none)
      × (started ≡ Started.fails no_upstream_connection)
      × (client' ≡ client)
      × (w' ≡ world))
    ⊎ ((writable : List ℕ) × (client.conn ≡ some writable)
        × (waitable : ℕ) × (started ≡ waits_for waitable)
        × (lookup 71 client'.pending_requests.listeners ≡ some waitable)
        × (has_event counted client'.pending_requests 71 w' ≡ true)
        × (client'.conn ≡ some (writable ++ frame (71 ∷ 4 ∷ [])))
        × (client'.cache ≡ []))
start_get_first_example =
    start_get_first outside counted counted_laws client world 71 4 (71 ∷ 4 ∷ [])
      (unfold has_event lookup in refl) refl (omega arith)

take_response_lem_example :
    let (client', w', fate) = take_response outside counted client world page in
    (((has_event counted client.pending_requests 70 world ≡ true)
        × (waitable : ℕ) × (lookup 70 client.pending_requests.listeners ≡ some waitable)
        × (w' ≡ counted.send waitable (some page) world)
        × (client'.cache ≡ [])
        × (fate ≡ goes_on))
      ⊎ ((has_event counted client.pending_requests 70 world ≡ false)
          × (w' ≡ world)
          × Offered outside counted page [] client'.cache fate))
    × (lookup 70 client'.pending_requests.listeners ≡ none)
    × (client'.conn ≡ client.conn)
take_response_lem_example = take_response_lem outside counted client world page

abbrev closed : Loop ℕ ℕ (List ℕ) World
closed = record {
  read_half = none;
  client = record client { conn = none };
  world = world;
  fate = goes_on;
}

loop_step-Paired_example :
    let next = loop_step outside counted closed (some (1 ∷ [])) in
    ((next.fate ≡ goes_on) × Paired outside counted next)
    ⊎ ((next.fate ≡ died) × Panics outside counted closed)
loop_step-Paired_example = loop_step-Paired outside counted closed (some (1 ∷ [])) refl (inr refl)

-- Every method is GET, and the client keeps the URLs that it is asked for.
abbrev sources : Sources ℕ ℕ ℕ Fields (List ℕ) (List ℕ) (List ℕ) ℕ ℕ
sources = record {
  entries = λ headers. headers;
  parse_url = λ uri. some uri;
  cache_control = b'c' ∷ [];
  no_cache = b'n' ∷ [];
  is_get = λ method. true;
  is_head = λ method. false;
  client_get = λ url headers c. (url ∷ c, none);
  response_of = λ r. some r;
}

-- A stale entry is asked for again with a header of the cache's own, and no answer comes.
abbrev revalidates : Run Fields ℕ
revalidates = updates ((b'i' ∷ [], b'e' ∷ []) ∷ []) (forces (fetches (λ answer. returns answer)))

abbrev old_request : Request ℕ ℕ Fields ℕ
old_request = record {
  parts = record { method = 1; uri = 9; headers = (b'a' ∷ [], b'v' ∷ []) ∷ [] };
  body = 4;
}

one_letter : {a b : ℕ} → a ∷ [] ≡ b ∷ [] → a ≡ b
one_letter e = cc

only : {a b : ℕ} → some a ≡ some b → b ≡ a
only e = cc

-- The request that is handed back has the cache's headers.
handed_back : handle_request sample sources (λ parts. revalidates) old_request [] ≡ (
  9 ∷ [],
  request (record {
    parts = record {
      method = 1;
      uri = 9;
      headers = (b'a' ∷ [], b'v' ∷ []) ∷ (b'i' ∷ [], b'e' ∷ []) ∷ (b'c' ∷ [], b'n' ∷ []) ∷ [];
    };
    body = 4;
  }),
)
unfolding handle_request run_cache execute new_upstream update_headers force_no_cache with_headers
    insert_all remote_fetch conclude recover_request insert string_eq
handed_back = refl

handle_request-IsFallback_example :
    IsFallback sample
      (b'a' ∷ [])
      old_request
      (handle_request sample sources (λ parts. revalidates) old_request []).1
    × All (λ url. url ≡ 9) (handle_request sample sources (λ parts. revalidates) old_request []).0
handle_request-IsFallback_example =
    handle_request-IsFallback sample sample_laws sources (b'a' ∷ []) (λ c. All (λ url. url ≡ 9) c)
      old_request (λ url headers c e p. (only e, p)) (λ parts. revalidates) []
      (
        ((λ e. omega (arith, one_letter e)), tt),
        ((λ e. omega (arith, one_letter e)), (λ answer. tt)),
      )
      tt

abbrev recv : List (Option Page) → Received Page
recv [] = pending
recv (v ∷ []) = value v
recv _ = failed

-- Another request is under way.
abbrev one_event : List (Event Page)
one_event = new_event ∷ []

abbrev other_page : Page
other_page = record page { original_request = record { url = 71; headers = 4 } }

take_response-start_get_example :
    let (first, client1, w1) = start_get outside events client one_event 71 4 in
    let (client2, w2, fate) = take_response outside events client1 (listen_at 1 w1) other_page in
    (first ≡ waits_for 1)
    × (client1.conn ≡ some (9 ∷ 2 ∷ 0 ∷ 0 ∷ 0 ∷ 71 ∷ 4 ∷ []))
    × (listeners_at 1 (poll_at recv true 1 w2) ≡ answered (some other_page) ∷ [])
    × (client2.cache ≡ [])
    × (fate ≡ goes_on)
unfolding lookup serialize_to to_le_bytes
take_response-start_get_example =
    take_response-start_get outside recv client one_event 71 4 (9 ∷ [])
      (9 ∷ 2 ∷ 0 ∷ 0 ∷ 0 ∷ 71 ∷ 4 ∷ []) other_page true refl refl refl refl refl
