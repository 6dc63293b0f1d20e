-- ===== src/Parent.antt =====
-- apps/rdr_parent_cache/src/resolver.rs and server.rs: what the parent makes of the browser's
-- network events, what it writes to the client's connection, and how it reads the client's
-- requests. The browser's answers, the HTTP client and the codecs are parameters.
pub mod Resource
pub mod Sniff
pub mod Push
pub mod Serve
pub mod Delivery
pub mod Requests
pub mod Rounds
pub mod Page
pub mod Chain
pub mod Plan
pub mod Load
mod Tests
use pvn_project.Base.{
  ℕ, ◌%◌, Bool, true, false, not, ◌&&◌, List, [], ◌∷◌, ◌++◌, Option, none, some, ltb, if◌then◌else◌,
  string_eq, contains, to_lowercase, Outcome, done, bails, panics, or_bail, or_panic, and_then,
}
use pvn_project.Http.{Http, content_encoding_name}
use pvn_project.Wire.{Request, Response}
use pvn_project.Wire.Json.{CdpRequest, try_from}

-- `EventRequestPaused`, with the browser's answer to `GetResponseBody` for it: whether the body is
-- in base 64, and its bytes.
pub record RequestPaused (I J : Type 0) : Type 0 where
  pub request_id : I
  pub request : CdpRequest J
  pub response_status_code : Option ℕ
  pub response_headers : Option (List (List ℕ × List ℕ))
  pub body : Option (Bool × List ℕ)

-- The commands that decide on a paused request.
pub data Command (I : Type 0) : Type 0 where
  fail_request continue_request : I → Command I

-- The parsers and codecs of the libraries.
pub record Codecs (U J : Type 0) : Type 0 where
  pub parse_url : List ℕ → Option U
  pub to_string : J → List ℕ
  pub base64_decode : List ℕ → Option (List ℕ)
  pub gzip : List ℕ → Option (List ℕ)
  pub status_code : ℕ → Option ℕ

abbrev pub gzip_name : List ℕ
gzip_name = b'g' ∷ b'z' ∷ b'i' ∷ b'p' ∷ []

abbrev pub get_name : List ℕ
get_name = b'g' ∷ b'e' ∷ b't' ∷ []

module _ {U H K V J : Type 0} (http : Http H K V) (codecs : Codecs U J) where
  -- The body as the browser gives it; the test for redirections is the source's.
  unfoldable pub response_body : ℕ → Option (Bool × List ℕ) → Outcome (List ℕ)
  response_body status answer =
      if ltb status 300 && ltb 399 status
      then done []
      else or_bail answer
          (λ r. if r.0 then or_bail (codecs.base64_decode r.1) (λ bytes. done bytes) else done r.1)

  -- The body as the client accepts it, and the headers so far.
  unfoldable pub compress : Option V → List ℕ → Outcome (List ℕ × H)
  compress none body = done (body, http.empty)
  compress (some encoding) body = or_bail (http.to_str encoding) (λ text.
      if contains text gzip_name
      then or_bail (codecs.gzip body) (λ packed.
        or_bail (http.parse_value gzip_name)
          (λ value. done (packed, http.insert http.content_encoding value http.empty)))
      else done (body, http.empty))

  -- The request that the client is told of.
  unfoldable pub with_encoding : Option V → Request U H → Request U H
  with_encoding none request = record request {
    headers = http.remove http.accept_encoding request.headers;
  }
  with_encoding (some encoding) request = record request {
    headers =
        http.insert http.accept_encoding encoding
          (http.remove http.accept_encoding request.headers);
  }

  -- The loop over the response's headers.
  unfoldable pub copy_headers : List (List ℕ × List ℕ) → H → Option H
  copy_headers [] headers = some headers
  copy_headers ((name, value) ∷ entries) headers =
      if string_eq (to_lowercase name) content_encoding_name
      then copy_headers entries headers
      else elim (http.parse_name name) [
        | none ↦ none
        | some k ↦ elim (http.parse_value value) [
          | none ↦ none
          | some v ↦ copy_headers entries (http.insert k v headers)
        ]
      ]

module _ {U H K V I J : Type 0} (http : Http H K V) (codecs : Codecs U J) where
  unfoldable pub extract_resource : RequestPaused I J → Option V → Outcome (Response U H)
  unfolding with_encoding
  extract_resource event original_accept_encoding = or_panic event.response_status_code (λ status.
      or_bail (try_from http codecs.parse_url codecs.to_string event.request) (λ request.
        and_then (response_body http codecs status event.body) (λ raw.
          and_then (compress http codecs original_accept_encoding raw) (λ packed.
            or_panic event.response_headers (λ entries.
              or_bail (copy_headers http codecs entries packed.1) (λ headers.
                or_bail (codecs.status_code (status % 65536)) (λ code. done (record {
                  original_request = with_encoding http codecs original_accept_encoding request;
                  url = request.url;
                  status = code;
                  headers = headers;
                  body = packed.0;
                }))))))))

  -- One round of the loop of `sniff_resources`: the commands that the page is given, each of which
  -- may fail with no effect but a warning, and the resource that is yielded.
  unfoldable pub handle_paused :
      RequestPaused I J → Option V → Outcome (List (Command I) × Option (Response U H))
  handle_paused event encoding =
      if not (string_eq (to_lowercase event.request.method) get_name)
      then done (fail_request event.request_id ∷ continue_request event.request_id ∷ [], none)
      else elim event.response_status_code [
        | none ↦ done (continue_request event.request_id ∷ [], none)
        | some status ↦ elim (extract_resource event encoding) [
          | done resource ↦ done (continue_request event.request_id ∷ [], some resource)
          | bails ↦ done (continue_request event.request_id ∷ [], none)
          | panics ↦ panics
        ]
      ]

  -- The loop over the events: all commands, and all resources, in order.
  unfoldable pub sniff_resources :
      List (RequestPaused I J) → Option V → Outcome (List (Command I) × List (Response U H))
  unfolding handle_paused
  sniff_resources [] encoding = done ([], [])
  sniff_resources (event ∷ events) encoding = and_then (handle_paused event encoding) (λ now.
      and_then (sniff_resources events encoding)
        (λ later. done (now.0 ++ later.0, elim now.1 [ none ↦ later.1 | some r ↦ r ∷ later.1 ])))

-- The loop of `record_lcp`: the first event with details, each event being its details.
unfoldable pub record_lcp : {F : Type 0} → List (Option F) → Option F
record_lcp [] = none
record_lcp (none ∷ events) = record_lcp events
record_lcp (some render_time ∷ events) = some render_time
