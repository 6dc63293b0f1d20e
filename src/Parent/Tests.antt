-- ===== src/Parent/Tests.antt =====
-- The parent's theorems at concrete inputs.
use pvn_project.Base.{
  ◌⊎◌, string_eq_instance, ℕ, zero, suc, ◌-◌, ◌≡◌, refl, inl, inr, true, false, List, [], ◌∷◌, ◌++◌,
  Option, none, some, length, arith, Eq, ◌==◌, ==_iff, ltb, ok, done, string_eq, contains,
  starts_with, to_lowercase, lookup, insert, remove,
}
use pvn_project.Http.{content_encoding_name}
use pvn_project.Http.Sample.{Fields, sample, sample_laws, accept_encoding_name}
use pvn_project.Wire.{Request, Response, DownstreamMessage, response, page_loaded}
use pvn_project.Wire.Json.{object, try_from}
use pvn_project.Wire.RoundTrip.{serialize_all}
use pvn_project.EventHub.{Events}
use pvn_project.ClientCache.{Outside, goes_on, PullThroughClient}
use pvn_project.Parent.Page.{
  PageCommand, create_browser_context, new_page, set_user_agent, set_cookie, start_tasks, goto,
  close, Browser, and_next, execute, apply_user_agent, set_parsed, set_cookies, load_page,
  resolve_recursive,
}
use pvn_project.Parent.Plan.{agent_plan, cookies_plan, perform}
use pvn_project.Parent.Load.{resolve_recursive_lem}
use pvn_project.Parent.{
  record_lcp, RequestPaused, Command, Codecs, gzip_name, response_body, compress, with_encoding,
  copy_headers, extract_resource, sniff_resources,
}
use pvn_project.Parent.Sniff.{continued, failed, others, resources_of, sniff_resources_lem}
use pvn_project.Parent.Resource.{Packed, Sent, extract_resource_lem}
use pvn_project.Parent.Push.{push_all, lcp_messages}
use pvn_project.Parent.Serve.{read_requests}
use pvn_project.Parent.Requests.{Each, read_requests-serialize_all}
use pvn_project.Parent.Delivery.{Merge, responses, take_all, run, push_all-Merge}

-- A URL is its text; compression puts a 1 in front.
abbrev codecs : Codecs (List ℕ) (List ℕ)
codecs = record {
  parse_url = λ text. some text;
  to_string = λ text. text;
  base64_decode = λ text. some text;
  gzip = λ bytes. some (1 ∷ bytes);
  status_code = λ n. some n;
}

-- A response to a GET request, whose headers say `Content-Encoding: br`.
abbrev paused : RequestPaused ℕ (List ℕ)
paused = record {
  request_id = 7;
  request = record { url = 5 ∷ []; method = b'G' ∷ b'E' ∷ b'T' ∷ []; headers = object [] };
  response_status_code = some 200;
  response_headers = some ((content_encoding_name, b'b' ∷ b'r' ∷ []) ∷ []);
  body = some (false, 8 ∷ 9 ∷ []);
}

abbrev posted : RequestPaused ℕ (List ℕ)
posted = record paused {
  request_id = 6;
  request = record { url = 5 ∷ []; method = b'P' ∷ []; headers = object [] };
  response_status_code = none;
}

sniff_resources_lem_example :
    (commands : List (Command ℕ)) × (sniff_resources sample codecs (posted ∷ paused ∷ []) none
      ≡ done (commands, resources_of sample codecs (posted ∷ paused ∷ []) none))
    × (continued commands ≡ 6 ∷ 7 ∷ [])
    × (failed commands ≡ others (posted ∷ paused ∷ []))
sniff_resources_lem_example =
    sniff_resources_lem sample codecs (posted ∷ paused ∷ []) none (inl refl, (inr (_, refl), tt))

abbrev extracted : Response (List ℕ) Fields
extracted = record {
  original_request = record { url = 5 ∷ []; headers = (accept_encoding_name, gzip_name) ∷ [] };
  url = 5 ∷ [];
  status = 200;
  headers = (content_encoding_name, gzip_name) ∷ [];
  body = 1 ∷ 8 ∷ 9 ∷ [];
}

extract_runs : extract_resource sample codecs paused (some gzip_name) ≡ done extracted
unfolding extract_resource response_body compress with_encoding copy_headers try_from contains
    starts_with string_eq to_lowercase insert remove
extract_runs = refl

extract_resource_lem_example :
    (extracted.url ≡ extracted.original_request.url)
    × (lookup accept_encoding_name extracted.original_request.headers ≡ some gzip_name)
    × (status : ℕ) × (raw : List ℕ) × (some 200 ≡ some status)
    × Sent sample sample_laws codecs paused.body raw
    × Packed sample sample_laws codecs (some gzip_name) raw extracted.body extracted.headers
extract_resource_lem_example =
    extract_resource_lem sample sample_laws codecs paused (some gzip_name) extracted extract_runs

-- Requests are a URL and a fetch mode.
abbrev mode_of : List ℕ → Option (List ℕ)
mode_of mode = some mode

abbrev encode_request : Request ℕ (List ℕ) → Option (List ℕ)
encode_request q = some (q.url ∷ q.headers)

abbrev decode_request : List ℕ → Option (Request ℕ (List ℕ) × ℕ)
decode_request [] = none
decode_request (u ∷ h) = some (record { url = u; headers = h }, 0)

abbrev two_requests : List (Request ℕ (List ℕ))
two_requests = record { url = 1; headers = b'x' ∷ [] } ∷ record { url = 2; headers = [] } ∷ []

read_requests-serialize_all_example :
    (written : List ℕ) × (serialize_all encode_request decode_request two_requests []
      ≡ some ([] ++ written))
    × Each mode_of encode_request decode_request false two_requests
        (read_requests mode_of decode_request false written)
read_requests-serialize_all_example =
    read_requests-serialize_all mode_of encode_request decode_request false two_requests []
      ((_, _, refl, refl, omega arith), ((_, _, refl, refl, omega arith), tt))

instance abbrev nat_eq : Eq ℕ
nat_eq = record { beq = λ a b. a == b; beq_iff = ==_iff }

abbrev Page : Type 0
Page = Response ℕ ℕ

abbrev encode : DownstreamMessage ℕ ℕ ℕ → Option (List ℕ)
encode (response r) = some (
    0 ∷ r.original_request.url ∷ r.original_request.headers ∷ r.url ∷ r.status ∷ r.headers ∷ r.body)
encode (page_loaded n) = some (1 ∷ n.url ∷ n.lcp_secs ∷ [])

abbrev decode : List ℕ → Option (DownstreamMessage ℕ ℕ ℕ × ℕ)
decode (zero ∷ q ∷ h ∷ u ∷ s ∷ k ∷ b) = some (
  response (record {
    original_request = record { url = q; headers = h };
    url = u;
    status = s;
    headers = k;
    body = b;
  }),
  0,
)
decode (suc n ∷ u ∷ l ∷ []) = some (page_loaded (record { url = u; lcp_secs = l }), 0)
decode _ = none

abbrev outside : Outside ℕ ℕ ℕ ℕ (List ℕ)
outside = record {
  encode_request = λ r. some [];
  decode_message = decode;
  convert = λ r. some (r.status);
  has_parts = λ r. true;
  is_storable = λ q r. true;
  uri_of = λ q. q.url ∷ [];
  put = λ k r c. ok (r ∷ c);
}

abbrev counted : Events (List ℕ) ℕ Page
counted = record {
  new = λ w. (length w, 0 ∷ w);
  alive = λ n w. ltb n (length w);
  send = λ n v w. n ∷ w;
}

abbrev client : PullThroughClient ℕ ℕ (List ℕ)
client = record { conn = some []; pending_requests = record { listeners = [] }; cache = [] }

abbrev resource : Page
resource = record {
  original_request = record { url = 70; headers = 0 };
  url = 70;
  status = 200;
  headers = 0;
  body = 3 ∷ [];
}

abbrev difference : ℕ → ℕ → ℕ
difference a b = a - b

abbrev sent : List (DownstreamMessage ℕ ℕ ℕ)
sent = page_loaded (record { url = 70; lcp_secs = 4 }) ∷ response resource ∷ []

push_all-Merge_example :
    let (client', w') = take_all outside counted client [] sent in
    (responses sent ≡ resource ∷ [])
    × (written : List ℕ) × (push_all encode sent (9 ∷ []) ≡ (9 ∷ []) ++ written)
    × (run outside counted (length sent) (record {
      read_half = some (written ++ (5 ∷ []));
      client = client;
      world = [];
      fate = goes_on;
    })
        ≡ record { read_half = some (5 ∷ []); client = client'; world = w'; fate = goes_on })
unfolding lcp_messages record_lcp
push_all-Merge_example =
    push_all-Merge outside counted encode difference 6 70 (resource ∷ []) (none ∷ some 10 ∷ []) sent
      (9 ∷ []) (5 ∷ []) client [] merged
      ((_, _, refl, refl, omega arith), ((_, _, refl, refl, omega arith), tt)) (tt, ((_, refl), tt))
  where
    merged :
        Merge
          (response resource ∷ [])
          (lcp_messages {H = ℕ} difference 6 70 (none ∷ some 10 ∷ []))
          sent
    merged = Merge.second (Merge.first Merge.ends)

-- A browser that accepts all commands; every second cookie is none.
abbrev browser : Browser ℕ Fields (List ℕ) (List ℕ)
browser = record {
  accepts = λ given command. true;
  get_all = λ name headers. elim (lookup name headers) [ none ↦ [] | some v ↦ v ∷ [] ];
  split_parse = λ text. some (text, []) ∷ none ∷ [];
  user_agent = b'u' ∷ [];
  accept_language = b'l' ∷ [];
  cookie = b'c' ∷ [];
}

abbrev page_request : Request ℕ Fields
page_request = record { url = 9; headers = (b'u' ∷ [], 1 ∷ []) ∷ (b'c' ∷ [], 2 ∷ []) ∷ [] }

page_commands : resolve_recursive sample browser page_request ≡ (
  create_browser_context
      ∷ new_page
      ∷ set_user_agent (1 ∷ []) none
      ∷ set_cookie (2 ∷ []) [] 9
      ∷ start_tasks none
      ∷ goto 9
      ∷ close
      ∷ [],
  true,
)
unfolding resolve_recursive execute apply_user_agent set_parsed set_cookies load_page lookup
    string_eq
page_commands = refl

resolve_recursive_lem_example :
    ((agent : List (PageCommand ℕ (List ℕ))) × (cookies : List (PageCommand ℕ (List ℕ)))
      × (agent_plan sample browser page_request.headers ≡ some agent)
      × (cookies_plan sample browser 9 (browser.get_all browser.cookie page_request.headers)
          ≡ some cookies)
      × (resolve_recursive sample browser page_request
          ≡ and_next
              (perform sample browser (create_browser_context ∷ new_page ∷ (agent ++ cookies)) [])
              (λ set_up.
                and_next
                  (execute sample browser (goto 9) (
                    set_up
                    ++ (start_tasks (sample.get sample.accept_encoding page_request.headers) ∷ [])))
                  (execute sample browser close))))
    ⊎ (((agent_plan sample browser page_request.headers ≡ none)
          ⊎ (cookies_plan sample browser 9 (browser.get_all browser.cookie page_request.headers)
              ≡ none))
        × ((resolve_recursive sample browser page_request).1 ≡ false))
resolve_recursive_lem_example = resolve_recursive_lem sample browser page_request
