-- ===== src/Parent/Sniff.antt =====
-- What the page is told about its events, and which resources they yield.
use pvn_project.Base.{
  ◌%◌, done-IsCalm, or_panic-IsCalm, ◌&&◌, ltb, contains, or_bail, IsCalm, or_bail-IsCalm,
  and_then-IsCalm, ℕ, ◌≡◌, refl, ap, ◌∙◌, sym, Bool, true, false, not, List, [], ◌∷◌, ◌++◌, map,
  Option, none, some, Option-cases, Bool-cases, inl, inr, ◌⊎◌, All, Outcome, done, bails, panics,
  string_eq, to_lowercase, if◌then◌else◌,
}
use pvn_project.Http.{Http}
use pvn_project.Wire.{Response}
use pvn_project.Parent.{
  RequestPaused, Command, fail_request, continue_request, Codecs, get_name, gzip_name,
  response_body, compress, copy_headers, extract_resource, handle_paused, sniff_resources,
}

module _ {I : Type 0} where
  -- The requests that are continued, and those that are failed, by the commands.
  unfoldable pub continued : List (Command I) → List I
  continued [] = []
  continued (continue_request id ∷ commands) = id ∷ continued commands
  continued (fail_request id ∷ commands) = continued commands

  unfoldable pub failed : List (Command I) → List I
  failed [] = []
  failed (fail_request id ∷ commands) = id ∷ failed commands
  failed (continue_request id ∷ commands) = failed commands

  continued-append :
      (xs ys : List (Command I)) → continued (xs ++ ys) ≡ continued xs ++ continued ys
  unfolding continued
  continued-append [] ys = refl
  continued-append (continue_request id ∷ xs) ys = ap (◌∷◌ id) (continued-append xs ys)
  continued-append (fail_request id ∷ xs) ys = continued-append xs ys

  failed-append : (xs ys : List (Command I)) → failed (xs ++ ys) ≡ failed xs ++ failed ys
  unfolding failed
  failed-append [] ys = refl
  failed-append (fail_request id ∷ xs) ys = ap (◌∷◌ id) (failed-append xs ys)
  failed-append (continue_request id ∷ xs) ys = failed-append xs ys

module _ {I J : Type 0} where
  unfoldable pub is_get : RequestPaused I J → Bool
  is_get event = string_eq (to_lowercase event.request.method) get_name

  unfoldable pub others : List (RequestPaused I J) → List I
  unfolding is_get
  others [] = []
  others (event ∷ events) =
      let rest = others events in if is_get event then rest else event.request_id ∷ rest

  -- A response has headers.
  abbrev pub HasHeaders : RequestPaused I J → Type 0
  HasHeaders event =
      (event.response_status_code ≡ none)
      ⊎ ((headers : List (List ℕ × List ℕ)) × (event.response_headers ≡ some headers))

module _ {U H K V J : Type 0} (http : Http H K V) (codecs : Codecs U J) where
  response_body-IsCalm :
      (status : ℕ) (answer : Option (Bool × List ℕ))
      → IsCalm (response_body http codecs status answer)
  unfolding response_body
  response_body-IsCalm status answer = elim (Bool-cases (ltb status 300 && ltb 399 status)) [
    | inl hit ↦ rw hit (done-IsCalm _)
    | inr miss ↦ rw miss (or_bail-IsCalm _ answer (λ (is_base64, bytes). decoded is_base64 bytes))
  ]
    where
      decoded :
          (is_base64 : Bool) (bytes : List ℕ)
          → IsCalm
              (if is_base64 then or_bail (codecs.base64_decode bytes) (λ b. done b) else done bytes)
      decoded true bytes = or_bail-IsCalm _ (codecs.base64_decode bytes) (λ b. done-IsCalm b)
      decoded false bytes = done-IsCalm bytes

  compress-IsCalm :
      (encoding : Option V) (body : List ℕ) → IsCalm (compress http codecs encoding body)
  unfolding compress
  compress-IsCalm none body = done-IsCalm _
  compress-IsCalm (some e) body = or_bail-IsCalm _ (http.to_str e) (λ text.
      elim (Bool-cases (contains text gzip_name)) [
        | inl hit ↦ rw hit (
            or_bail-IsCalm _ (codecs.gzip body)
              (λ packed. or_bail-IsCalm _ (http.parse_value gzip_name) (λ value. done-IsCalm _)))
        | inr miss ↦ rw miss (done-IsCalm _)
      ])

module _ {U H K V I J : Type 0} (http : Http H K V) (codecs : Codecs U J) where
  extract_resource-IsCalm :
      (event : RequestPaused I J) (encoding : Option V) (status : ℕ)
      (headers : List (List ℕ × List ℕ))
      → event.response_status_code ≡ some status
      → event.response_headers ≡ some headers
      → IsCalm (extract_resource http codecs event encoding)
  unfolding extract_resource
  extract_resource-IsCalm event encoding status headers s h =
      or_panic-IsCalm _ event.response_status_code status s (
        or_bail-IsCalm _ _ (λ request.
          and_then-IsCalm _ _ (response_body-IsCalm http codecs status event.body) (λ raw.
            and_then-IsCalm _ _ (compress-IsCalm http codecs encoding raw) (λ packed.
              or_panic-IsCalm _ event.response_headers headers h (
                or_bail-IsCalm _ (copy_headers http codecs headers packed.1) (λ kept.
                  or_bail-IsCalm _ (codecs.status_code (status % 65536))
                    (λ code. done-IsCalm _)))))))

  -- The resource of an event: that of a response to a GET request, if it can be extracted.
  unfoldable pub resource_of : RequestPaused I J → Option V → List (Response U H)
  unfolding is_get
  resource_of event encoding = if not (is_get event) then [] else elim event.response_status_code [
    | none ↦ []
    | some status ↦ elim (extract_resource http codecs event encoding) [
      | done resource ↦ resource ∷ []
      | bails ↦ []
      | panics ↦ []
    ]
  ]

  unfoldable pub resources_of : List (RequestPaused I J) → Option V → List (Response U H)
  resources_of [] encoding = []
  resources_of (event ∷ events) encoding =
      resource_of event encoding ++ resources_of events encoding

  -- What one round does.
  abbrev Handled : RequestPaused I J → Option V → List (Command I) → Option (Response U H) → Type 0
  Handled event encoding commands resource =
      (handle_paused http codecs event encoding ≡ done (commands, resource))
      × (continued commands ≡ event.request_id ∷ [])
      × (failed commands ≡ (if is_get event then [] else event.request_id ∷ []))
      × (resource_of event encoding ≡ elim resource [ none ↦ [] | some r ↦ r ∷ [] ])

  handle_paused_lem :
      (event : RequestPaused I J) (encoding : Option V)
      → HasHeaders event
      → (commands : List (Command I)) × (resource : Option (Response U H)) × Handled event encoding
          commands resource
  unfolding handle_paused continued failed resource_of is_get
  handle_paused_lem event encoding has =
      elim (Bool-cases (string_eq (to_lowercase event.request.method) get_name)) [
        | inr miss ↦
            (fail_request event.request_id ∷ goes_on, none, rw miss (refl, refl, refl, refl))
        | inl hit ↦ elim (Option-cases event.response_status_code) [
          | inl asks ↦ (goes_on, none, rw (hit, asks) (refl, refl, refl, refl))
          | inr (status, answers) ↦
              extracted status hit answers (extract_resource http codecs event encoding) refl
        ]
      ]
    where
      goes_on : List (Command I)
      goes_on = continue_request event.request_id ∷ []

      extracted :
          (status : ℕ)
          → string_eq (to_lowercase event.request.method) get_name ≡ true
          → event.response_status_code ≡ some status
          → (o : Outcome (Response U H)) → extract_resource http codecs event encoding ≡ o
          → (commands : List (Command I)) × (resource : Option (Response U H)) × Handled event
              encoding commands resource
      extracted status hit answers (done r) e =
          (goes_on, some r, rw (hit, answers, e) (refl, refl, refl, refl))
      extracted status hit answers bails e =
          (goes_on, none, rw (hit, answers, e) (refl, refl, refl, refl))
      extracted status hit answers panics e = elim has [
        | inl asks ↦ absurd (differ (sym asks ∙ answers))
        | inr (headers, there) ↦
            absurd (extract_resource-IsCalm event encoding status headers answers there e)
      ]
        where
          differ : none ≡ some status → ⊥
          differ x = cc

  -- The loop over the page's events, in which every response has its headers, ends without a panic.
  -- Every request is continued exactly once, in order; those that are failed are exactly those of
  -- another method than GET; and what is yielded is, in order, one resource for each response to a
  -- GET request from which a resource can be extracted.
  pub sniff_resources_lem :
      (events : List (RequestPaused I J)) (encoding : Option V)
      → All HasHeaders events
      → (commands : List (Command I)) × (sniff_resources http codecs events encoding
          ≡ done (commands, resources_of events encoding))
        × (continued commands ≡ map (λ event. event.request_id) events)
        × (failed commands ≡ others events)
  unfolding sniff_resources resources_of others
  sniff_resources_lem [] encoding has = ([], refl, unfold continued in refl, unfold failed in refl)
  sniff_resources_lem (event ∷ events) encoding has =
      let (now, resource, round) = handle_paused_lem event encoding has.0 in
      let (later, rest, all_go_on, all_fail) = sniff_resources_lem events encoding has.1 in
      (
        now ++ later,
        rw (round.0, rest)
            (ap (λ rs. done (now ++ later, rs))
              (joined resource (resources_of events encoding)
                ∙ ap (λ rs. rs ++ resources_of events encoding) (sym round.3))),
        continued-append now later ∙ rw (round.1, all_go_on) refl,
        failed-append now later ∙ rw (round.2, all_fail) (added (is_get event)),
      )
    where
      joined :
          (resource : Option (Response U H)) (rest : List (Response U H))
          → elim resource [ none ↦ rest | some r ↦ r ∷ rest ]
            ≡ elim resource [ none ↦ [] | some r ↦ r ∷ [] ] ++ rest
      joined none rest = refl
      joined (some r) rest = refl

      added :
          (b : Bool)
          → (if b then [] else event.request_id ∷ []) ++ others events
            ≡ (if b then others events else event.request_id ∷ others events)
      added true = refl
      added false = refl
