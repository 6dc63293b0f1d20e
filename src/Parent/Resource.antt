-- ===== src/Parent/Resource.antt =====
-- What `extract_resource` says of a resource.
use pvn_project.Base.{
  ℕ, ◌%◌, ltb, ◌&&◌, arith, ◌≡◌, ◌⊎◌, refl, sym, ap, ◌∙◌, inl, inr, Bool, true, false, Bool-cases,
  List, [], ◌∷◌, Option, none, some, Option-cases, Outcome, done, or_bail, if◌then◌else◌,
  or_bail-done, or_panic-done, and_then-done, string_eq, string_eq_iff, to_lowercase, contains,
  subst,
}
use pvn_project.Http.{Http, HttpLaws, content_encoding_name}
use pvn_project.Wire.{Request, Response}
use pvn_project.Wire.Json.{try_from}
use pvn_project.Parent.{
  RequestPaused, Codecs, gzip_name, response_body, compress, with_encoding, copy_headers,
  extract_resource,
}

module _ {U H K V J : Type 0} (http : Http H K V) (laws : HttpLaws http) (codecs : Codecs U J) where
  -- Whether the client's encodings have the text `gzip` in them.
  unfoldable pub accepts_gzip : Option V → Bool
  accepts_gzip none = false
  accepts_gzip (some encoding) = elim (http.to_str encoding) [
    | none ↦ false
    | some text ↦ contains text gzip_name
  ]

  copy_headers-get :
      (entries : List (List ℕ × List ℕ)) (headers : H) {headers' : H}
      → copy_headers http codecs entries headers ≡ some headers'
      → http.get http.content_encoding headers' ≡ http.get http.content_encoding headers
  unfolding copy_headers
  copy_headers-get [] headers {headers'} h = ap (http.get http.content_encoding) (same h)
    where
      same : some headers ≡ some headers' → headers' ≡ headers
      same x = cc
  copy_headers-get ((name, value) ∷ entries) headers {headers'} h =
      elim (Bool-cases (string_eq (to_lowercase name) content_encoding_name)) [
        | inl hit ↦ copy_headers-get entries headers (rw (hit, copy_headers) at h)
        | inr miss ↦ elim (Option-cases (http.parse_name name)) [
          | inl bad ↦ absurd (panics (rw (miss, bad, copy_headers) at h))
          | inr (k, named) ↦ elim (Option-cases (http.parse_value value)) [
            | inl bad ↦ absurd (panics (rw (miss, named, bad, copy_headers) at h))
            | inr (v, read) ↦
                copy_headers-get entries (http.insert k v headers)
                  (rw (miss, named, read, copy_headers) at h)
                ∙ laws.get-insert_other k http.content_encoding v headers
                    (λ e. other miss (laws.parse_name-lowercase name (named ∙ ap some e)))
          ]
        ]
      ]
    where
      panics : ◌≡◌ {A = Option H} none (some headers') → ⊥
      panics x = cc

      other :
          string_eq (to_lowercase name) content_encoding_name ≡ false
          → to_lowercase name ≡ content_encoding_name
          → ⊥
      other miss e = cc (miss, (string_eq_iff _ _).1 e)

  -- The body that the client is sent, and what its headers say of it.
  abbrev pub Packed : Option V → List ℕ → List ℕ → H → Type 0
  Packed encoding raw body headers =
      ((accepts_gzip encoding ≡ true)
        × (codecs.gzip raw ≡ some body)
        × (v : V) × (http.parse_value gzip_name ≡ some v)
        × (http.get http.content_encoding headers ≡ some v))
      ⊎ ((accepts_gzip encoding ≡ false)
          × (body ≡ raw)
          × (http.get http.content_encoding headers ≡ none))

  -- The bytes of the body that the browser has, which it gives as text or in base64.
  abbrev pub Sent : Option (Bool × List ℕ) → List ℕ → Type 0
  Sent answer raw =
      (text : List ℕ) × (((answer ≡ some (true, text)) × (codecs.base64_decode text ≡ some raw))
        ⊎ ((answer ≡ some (false, text)) × (raw ≡ text)))

  decoded-Sent :
      (coded : Bool) (text : List ℕ) {raw : List ℕ}
      → (if coded then or_bail (codecs.base64_decode text) (λ bytes. done bytes) else done text)
        ≡ done raw
      → Sent (some (coded, text)) raw
  decoded-Sent true text {raw} h =
      let (bytes, d, h2) = or_bail-done (λ bytes. done bytes) (codecs.base64_decode text) h in
      (text, inl (refl, d ∙ ap some (inner bytes h2)))
    where
      inner : (bytes : List ℕ) → ◌≡◌ {A = Outcome (List ℕ)} (done bytes) (done raw) → bytes ≡ raw
      inner bytes x = cc
  decoded-Sent false text {raw} h = (text, inr (refl, inner h))
    where
      inner : ◌≡◌ {A = Outcome (List ℕ)} (done text) (done raw) → raw ≡ text
      inner x = cc

  response_body-Sent :
      (status : ℕ) (answer : Option (Bool × List ℕ)) {raw : List ℕ}
      → response_body http codecs status answer ≡ done raw
      → Sent answer raw
  unfolding response_body
  response_body-Sent status answer {raw} h =
      let ((coded, text), e, h1) = or_bail-done _ answer (rw (never status) at h) in
      subst (λ answer. Sent answer raw) (sym e) (decoded-Sent coded text h1)
    where
      never : (status : ℕ) → (ltb status 300 && ltb 399 status) ≡ false
      never status = ground arith

  accepts_gzip_lem :
      (encoding : V) (text : List ℕ)
      → http.to_str encoding ≡ some text
      → accepts_gzip (some encoding) ≡ contains text gzip_name
  unfolding accepts_gzip
  accepts_gzip_lem encoding text reads = rw (reads, accepts_gzip) refl

  compress-Packed :
      (encoding : Option V) (raw : List ℕ) {p : List ℕ × H}
      → compress http codecs encoding raw ≡ done p
      → Packed encoding raw p.0 p.1
  unfolding compress accepts_gzip
  compress-Packed none raw {p} h = inr (refl, ap (λ r. r) (sym (first h)), second h)
    where
      first : ◌≡◌ {A = Outcome (List ℕ × H)} (done (raw, http.empty)) (done p) → raw ≡ p.0
      first x = cc

      second :
          ◌≡◌ {A = Outcome (List ℕ × H)} (done (raw, http.empty)) (done p)
          → http.get http.content_encoding p.1 ≡ none
      second x = let e : http.empty ≡ p.1 = cc in rw⁻¹ e (laws.get-empty http.content_encoding)
  compress-Packed (some encoding) raw {p} h =
      let (text, reads, h1) = or_bail-done _ (http.to_str encoding) h in
      elim (Bool-cases (contains text gzip_name)) [
        | inl hit ↦
            let (body, packed, h2) = or_bail-done _ (codecs.gzip raw) (rw hit at h1) in
            let (v, value, h3) = or_bail-done _ (http.parse_value gzip_name) h2 in
            inl (
              accepts_gzip_lem encoding text reads ∙ hit,
              packed ∙ ap some (first body v h3),
              v,
              value,
              second body v h3,
            )
        | inr miss ↦ inr (
          accepts_gzip_lem encoding text reads ∙ miss,
          plain (rw miss at h1),
          bare (rw miss at h1),
        )
      ]
    where
      first :
          (body : List ℕ) (v : V)
          → ◌≡◌ {A = Outcome (List ℕ × H)}
              (done (body, http.insert http.content_encoding v http.empty))
              (done p)
          → body ≡ p.0
      first body v x = cc

      second :
          (body : List ℕ) (v : V)
          → ◌≡◌ {A = Outcome (List ℕ × H)}
              (done (body, http.insert http.content_encoding v http.empty))
              (done p)
          → http.get http.content_encoding p.1 ≡ some v
      second body v x =
          let e : http.insert http.content_encoding v http.empty ≡ p.1 = cc in
          rw⁻¹ e (laws.get-insert_self http.content_encoding v http.empty)

      plain : ◌≡◌ {A = Outcome (List ℕ × H)} (done (raw, http.empty)) (done p) → p.0 ≡ raw
      plain x = cc

      bare :
          ◌≡◌ {A = Outcome (List ℕ × H)} (done (raw, http.empty)) (done p)
          → http.get http.content_encoding p.1 ≡ none
      bare x = let e : http.empty ≡ p.1 = cc in rw⁻¹ e (laws.get-empty http.content_encoding)

  with_encoding-get :
      (encoding : Option V) (request : Request U H)
      → http.get http.accept_encoding (with_encoding http codecs encoding request).headers
        ≡ encoding
  unfolding with_encoding
  with_encoding-get none request = laws.get-remove_self http.accept_encoding request.headers
  with_encoding-get (some e) request = laws.get-insert_self http.accept_encoding e _

module _ {U H K V I J : Type 0} (http : Http H K V) (laws : HttpLaws http)
    (codecs : Codecs U J) where
  -- A resource that `extract_resource` gives has the URL of its own request; its request accepts
  -- the encodings that the client accepts, whatever the browser's own request did; and its body is
  -- the browser's, out of base64 where the browser says so, and for any status, compressed where
  -- the client's encodings have the text `gzip` in them, with a content encoding that says just
  -- this, whatever the browser's response said.
  pub extract_resource_lem :
      (event : RequestPaused I J) (encoding : Option V) (r : Response U H)
      → extract_resource http codecs event encoding ≡ done r
      → (r.url ≡ r.original_request.url)
        × (http.get http.accept_encoding r.original_request.headers ≡ encoding)
        × (status : ℕ) × (raw : List ℕ) × (event.response_status_code ≡ some status)
        × Sent http laws codecs event.body raw
        × Packed http laws codecs encoding raw r.body r.headers
  unfolding extract_resource
  extract_resource_lem event encoding r h =
      let (status, s, h1) = or_panic-done _ event.response_status_code h in
      let (request, q, h2) =
        or_bail-done _ (try_from http codecs.parse_url codecs.to_string event.request) h1 in
      let (raw, b, h3) = and_then-done _ (response_body http codecs status event.body) h2 in
      let (packed, p, h4) = and_then-done _ (compress http codecs encoding raw) h3 in
      let (entries, n, h5) = or_panic-done _ event.response_headers h4 in
      let (headers, c, h6) = or_bail-done _ (copy_headers http codecs entries packed.1) h5 in
      let (code, k, h7) = or_bail-done _ (codecs.status_code (status % 65536)) h6 in
      subst
        (λ (r : Response U H).
          (r.url ≡ r.original_request.url)
          × (http.get http.accept_encoding r.original_request.headers ≡ encoding)
          × (status : ℕ) × (raw : List ℕ) × (event.response_status_code ≡ some status)
          × Sent http laws codecs event.body raw
          × Packed http laws codecs encoding raw r.body r.headers)
        (inner h7)
        (
          with_encoding-url encoding request,
          with_encoding-get http laws codecs encoding request,
          status,
          raw,
          s,
          response_body-Sent http laws codecs status event.body b,
          subst
              (λ (e : Option V).
                ((accepts_gzip http laws codecs encoding ≡ true)
                  × (codecs.gzip raw ≡ some packed.0)
                  × (v : V) × (http.parse_value gzip_name ≡ some v)
                  × (e ≡ some v))
                ⊎ ((accepts_gzip http laws codecs encoding ≡ false)
                    × (packed.0 ≡ raw)
                    × (e ≡ none)))
              (sym (copy_headers-get http laws codecs entries packed.1 c))
              (compress-Packed http laws codecs encoding raw p),
        )
    where
      inner : {q : Response U H} → done q ≡ done r → q ≡ r
      inner x = cc

      with_encoding-url :
          (encoding : Option V) (request : Request U H)
          → request.url ≡ (with_encoding http codecs encoding request).url
      with_encoding-url none request = unfold with_encoding in refl
      with_encoding-url (some e) request = unfold with_encoding in refl
