-- ===== src/ClientCache/Fallback.antt =====
-- What the proxy goes on with where the cache has no response.
use pvn_project.Base.{
  ◌≡◌, ◌≢◌, ◌⊎◌, refl, sym, ap, ◌∙◌, inl, inr, Bool-cases, List, [], ◌∷◌, Option, none, some,
  Option-cases, All,
}
use pvn_project.Http.{Http, HttpLaws}
use pvn_project.ClientCache.Caching.{
  Parts, Request, UpstreamRequest, Run, returns, updates, forces, fetches, RequestOrResponse,
  request, response, Sources, new_upstream, recover_request, with_headers, insert_all,
  update_headers, force_no_cache, remote_fetch, execute, conclude, run_cache, handle_request,
}

module _ {M U L H K V C R S : Type 0} (sources : Sources M U L H K V C R S) (k : K) where
  -- No call of the run sets the header `k`.
  abbrev pub Leaves : Run H R → Type 0
  Leaves (returns r) = Unit
  Leaves (updates headers more) =
      All (λ (e : K × V). e.0 ≢ k) (sources.entries headers) × Leaves more
  Leaves (forces more) = (sources.cache_control ≢ k) × Leaves more
  Leaves (fetches more) = (r : Option R) → Leaves (more r)

module _ {H K V : Type 0} (http : Http H K V) (laws : HttpLaws http) (k : K) where
  get-insert_all :
      (entries : List (K × V)) (headers : H)
      → All (λ (e : K × V). e.0 ≢ k) entries
      → http.get k (insert_all http entries headers) ≡ http.get k headers
  unfolding insert_all
  get-insert_all [] headers h = refl
  get-insert_all ((name, value) ∷ entries) headers h =
      get-insert_all entries (http.insert name value headers) h.1
      ∙ laws.get-insert_other name k value headers h.0

module _ {M U H K V B : Type 0} (http : Http H K V) (k : K) where
  -- The same request, but for headers other than `k`.
  abbrev pub Same : Request M U H B → Request M U H B → Type 0
  Same new old =
      (new.parts.method ≡ old.parts.method)
      × (new.parts.uri ≡ old.parts.uri)
      × (new.body ≡ old.body)
      × (http.get k new.parts.headers ≡ http.get k old.parts.headers)

  -- The reply is a response, or the request as it came but for headers other than `k`.
  abbrev pub IsFallback : {S : Type 0} → Request M U H B → RequestOrResponse M U H B S → Type 0
  IsFallback {S = S} old reply =
      ((s : S) × (reply ≡ response s))
      ⊎ ((new : Request M U H B) × (reply ≡ request new) × Same new old)

module _ {M U L H K V C R S B : Type 0} (http : Http H K V) (laws : HttpLaws http)
    (sources : Sources M U L H K V C R S) (k : K) where
  module _ (P : C → Type 0) (old : Request M U H B)
      (get-P : (url : L) (headers : H) (c : C)
        → sources.parse_url old.parts.uri ≡ some url
        → P c
        → P (sources.client_get url headers c).0) where
    remote_fetch-P :
        (middleware : UpstreamRequest M U H B) (c : C)
        → Same http k middleware.req old
        → P c
        → P (remote_fetch http sources middleware c).0
    unfolding remote_fetch
    remote_fetch-P middleware c same p =
        elim (Option-cases (sources.parse_url middleware.req.parts.uri)) [
          | inl bad ↦ rw (bad, remote_fetch) p
          | inr (url, good) ↦
              rw (good, remote_fetch)
                (get-P url middleware.req.parts.headers c (ap sources.parse_url (sym same.1) ∙ good)
                  p)
        ]

    execute-Same :
        (run : Run H R) (middleware : UpstreamRequest M U H B) (c : C)
        → Leaves sources k run
        → Same http k middleware.req old
        → P c
        → Same http k (execute http sources run middleware c).0.req old
          × P (execute http sources run middleware c).1
    unfolding execute update_headers force_no_cache with_headers
    execute-Same (returns r) middleware c leaves same p = (same, p)
    execute-Same (updates headers more) middleware c leaves (m, u, b, g) p =
        execute-Same more (update_headers http sources headers middleware) c leaves.1
          (
            m,
            u,
            b,
            get-insert_all http laws k (sources.entries headers) middleware.req.parts.headers
                  leaves.0
                ∙ g,
          )
          p
    execute-Same (forces more) middleware c leaves (m, u, b, g) p =
        execute-Same more (force_no_cache http sources middleware) c leaves.1
          (
            m,
            u,
            b,
            laws.get-insert_other sources.cache_control k sources.no_cache
                  middleware.req.parts.headers leaves.0
                ∙ g,
          )
          p
    execute-Same (fetches more) middleware c leaves same p =
        execute-Same (more (remote_fetch http sources middleware c).1) middleware
          (remote_fetch http sources middleware c).0
          (leaves (remote_fetch http sources middleware c).1) same
          (remote_fetch-P middleware c same p)

    conclude-IsFallback :
        (middleware : UpstreamRequest M U H B) (r : Option R)
        → Same http k middleware.req old
        → IsFallback http k old (conclude http sources middleware r)
    unfolding conclude recover_request
    conclude-IsFallback middleware none same = inr (middleware.req, refl, same)
    conclude-IsFallback middleware (some r) same = elim (Option-cases (sources.response_of r)) [
      | inl bad ↦ inr (middleware.req, rw (bad, conclude) refl, same)
      | inr (s, good) ↦ inl (s, rw (good, conclude) refl)
    ]

    -- Whatever calls the cache makes on the middleware, a request is answered with a response, or
    -- it is handed back with its method, its URI, its body and the header `k`, if the cache sets no
    -- header of that name. And the client is asked for the request's own URL only: a property `P`
    -- of the client's state that holds before, and that a `get` of that URL keeps, holds behind.
    pub handle_request-IsFallback :
        (cache_run : Parts M U H → Run H R) (c : C)
        → Leaves sources k (cache_run old.parts)
        → P c
        → IsFallback http k old (handle_request http sources cache_run old c).1
          × P (handle_request http sources cache_run old c).0
    unfolding handle_request run_cache new_upstream
    handle_request-IsFallback cache_run c leaves p =
        elim (Bool-cases (sources.is_get old.parts.method)) [
          | inr other ↦ rw (other, handle_request) (inr (old, refl, (refl, refl, refl, refl)), p)
          | inl get ↦
              let (same, p') =
                execute-Same (cache_run old.parts) (new_upstream old) c leaves
                  (refl, refl, refl, refl) p in
              rw (get, handle_request)
                (
                  conclude-IsFallback
                      (execute http sources (cache_run old.parts) (new_upstream old) c).0 _ same,
                  p',
                )
        ]
