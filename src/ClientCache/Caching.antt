-- ===== src/ClientCache/Caching.antt =====
-- apps/rdr_client_cache/src/cache.rs: the proxy that answers GET requests through the cache. What
-- the cache does with a request is a parameter, as the calls it makes on the middleware, each of
-- which it may choose by the answers to those before.
use pvn_project.Base.{Bool, true, List, [], ◌∷◌, Option, none, some, if◌then◌else◌}
use pvn_project.Http.{Http}

-- What a request is without its body.
pub record Parts (M U H : Type 0) : Type 0 where
  pub method : M
  pub uri : U
  pub headers : H

pub record Request (M U H B : Type 0) : Type 0 where
  pub parts : Parts M U H
  pub body : B

pub record UpstreamRequest (M U H B : Type 0) : Type 0 where
  pub req : Request M U H B
  pub parts : Parts M U H

-- The cache's calls, and how its run ends.
pub data Run (H R : Type 0) : Type 0 where
  returns : Option R → Run H R
  updates : H → Run H R → Run H R
  forces : Run H R → Run H R
  fetches : (Option R → Run H R) → Run H R

pub data RequestOrResponse (M U H B S : Type 0) : Type 0 where
  request : Request M U H B → RequestOrResponse M U H B S
  response : S → RequestOrResponse M U H B S

-- The entries of a header map, a URL from a URI, and the name and the value that forbid a cache.
pub record Sources (M U L H K V C R S : Type 0) : Type 0 where
  pub entries : H → List (K × V)
  pub parse_url : U → Option L
  pub cache_control : K
  pub no_cache : V
  pub is_get : M → Bool
  pub is_head : M → Bool
  pub client_get : L → H → C → C × Option R
  pub response_of : R → Option S

module _ {M U H B : Type 0} where
  unfoldable pub new_upstream : Request M U H B → UpstreamRequest M U H B
  new_upstream req = record { req = req; parts = req.parts }

  unfoldable pub recover_request : UpstreamRequest M U H B → Request M U H B
  recover_request middleware = middleware.req

  -- A request with other headers.
  unfoldable pub with_headers : H → UpstreamRequest M U H B → UpstreamRequest M U H B
  with_headers headers middleware = record {
    req = record {
      parts = record {
        method = middleware.req.parts.method;
        uri = middleware.req.parts.uri;
        headers = headers;
      };
      body = middleware.req.body;
    };
    parts = middleware.parts;
  }

module _ {H K V : Type 0} (http : Http H K V) where
  -- The loop of `update_headers`.
  unfoldable pub insert_all : List (K × V) → H → H
  insert_all [] headers = headers
  insert_all ((name, value) ∷ entries) headers = insert_all entries (http.insert name value headers)

module _ {M U L H K V C R S : Type 0} (http : Http H K V)
    (sources : Sources M U L H K V C R S) where
  unfoldable pub is_method_get_head : Parts M U H → Bool
  is_method_get_head parts =
      if sources.is_get parts.method then true else sources.is_head parts.method

  module _ {B : Type 0} where
    unfoldable pub update_headers : H → UpstreamRequest M U H B → UpstreamRequest M U H B
    unfolding with_headers insert_all
    update_headers new_headers middleware =
        with_headers (insert_all http (sources.entries new_headers) middleware.req.parts.headers)
          middleware

    unfoldable pub force_no_cache : UpstreamRequest M U H B → UpstreamRequest M U H B
    unfolding with_headers
    force_no_cache middleware =
        with_headers
          (http.insert sources.cache_control sources.no_cache middleware.req.parts.headers)
          middleware

    unfoldable pub remote_fetch : UpstreamRequest M U H B → C → C × Option R
    remote_fetch middleware c = elim (sources.parse_url middleware.req.parts.uri) [
      | none ↦ (c, none)
      | some url ↦ sources.client_get url middleware.req.parts.headers c
    ]

    -- The cache's run, with the client's state.
    unfoldable pub execute :
        Run H R → UpstreamRequest M U H B → C → UpstreamRequest M U H B × C × Option R
    unfolding update_headers force_no_cache remote_fetch
    execute (returns r) middleware c = (middleware, c, r)
    execute (updates headers more) middleware c = execute more (update_headers headers middleware) c
    execute (forces more) middleware c = execute more (force_no_cache middleware) c
    execute (fetches more) middleware c =
        let fetched = remote_fetch middleware c in execute (more fetched.1) middleware fetched.0

    -- The response, or where there is none the request, for the proxy to go on with.
    unfoldable pub conclude : UpstreamRequest M U H B → Option R → RequestOrResponse M U H B S
    unfolding recover_request
    conclude middleware none = request (recover_request middleware)
    conclude middleware (some r) = elim (sources.response_of r) [
      | none ↦ request (recover_request middleware)
      | some s ↦ response s
    ]

    -- The cache's run on a new middleware.
    unfoldable pub run_cache :
        (Parts M U H → Run H R) → Request M U H B → C → C × RequestOrResponse M U H B S
    unfolding execute new_upstream conclude
    run_cache cache_run req c =
        let ran = execute (cache_run req.parts) (new_upstream req) c in
        (ran.1, conclude ran.0 ran.2)

    unfoldable pub handle_request :
        (Parts M U H → Run H R) → Request M U H B → C → C × RequestOrResponse M U H B S
    unfolding run_cache
    handle_request cache_run req c =
        if sources.is_get req.parts.method then run_cache cache_run req c else (c, request req)
