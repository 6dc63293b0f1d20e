-- ===== src/Parent/Plan.antt =====
-- The set-up of a page as a plan that is carried out up to the first command that fails.
use pvn_project.Base.{
  ℕ, ◌≡◌, refl, sym, ap, ◌∙◌, inl, inr, Bool, true, List, [], ◌∷◌, ◌++◌, Option, none, some,
  Option-cases,
}
use pvn_project.Http.{Http}
use pvn_project.Parent.Page.{
  PageCommand, set_user_agent, set_cookie, Browser, and_next, execute, apply_user_agent, set_parsed,
  set_cookies,
}
use pvn_project.Parent.Chain.{and_next_assoc, and_next_cong, and_next_end}

module _ {U H K V : Type 0} (http : Http H K V) (browser : Browser U H K V) where
  -- The user agent and the language, if there is an agent; none, if one of them is not text.
  unfoldable pub agent_plan : H → Option (List (PageCommand U V))
  agent_plan headers = elim (http.get browser.user_agent headers) [
    | none ↦ some []
    | some agent ↦ elim (http.to_str agent) [
      | none ↦ none
      | some text ↦ elim (http.get browser.accept_language headers) [
        | none ↦ some (set_user_agent text none ∷ [])
        | some language ↦ elim (http.to_str language) [
          | none ↦ none
          | some accepted ↦ some (set_user_agent text (some accepted) ∷ [])
        ]
      ]
    ]
  ]

  -- Every cookie that can be parsed.
  unfoldable pub parsed_plan : U → List (Option (List ℕ × List ℕ)) → List (PageCommand U V)
  parsed_plan url [] = []
  parsed_plan url (none ∷ cookies) = parsed_plan url cookies
  parsed_plan url (some (name, value) ∷ cookies) =
      set_cookie name value url ∷ parsed_plan url cookies

  unfoldable pub cookies_plan : U → List V → Option (List (PageCommand U V))
  unfolding parsed_plan
  cookies_plan url [] = some []
  cookies_plan url (v ∷ values) = elim (http.to_str v) [
    | none ↦ none
    | some text ↦ elim (cookies_plan url values) [
      | none ↦ none
      | some rest ↦ some (parsed_plan url (browser.split_parse text) ++ rest)
    ]
  ]

  -- The commands, one after the other, up to the first that fails.
  unfoldable pub perform :
      List (PageCommand U V) → List (PageCommand U V) → List (PageCommand U V) × Bool
  unfolding execute
  perform [] given = (given, true)
  perform (command ∷ commands) given =
      and_next (execute http browser command given) (perform commands)

  pub perform-append :
      (xs ys given : List (PageCommand U V))
      → perform (xs ++ ys) given ≡ and_next (perform xs given) (perform ys)
  unfolding perform
  perform-append [] ys given = refl
  perform-append (x ∷ xs) ys given =
      and_next_cong (execute http browser x given) _ _ (perform-append xs ys)
      ∙ sym (and_next_assoc (execute http browser x given) (perform xs) (perform ys))

  perform-one :
      (c : PageCommand U V) (given : List (PageCommand U V))
      → execute http browser c given ≡ perform (c ∷ []) given
  unfolding perform
  perform-one c given = sym (and_next_end (execute http browser c given))

  pub apply_user_agent-perform :
      (headers : H) (plan given : List (PageCommand U V))
      → agent_plan headers ≡ some plan
      → apply_user_agent http browser headers given ≡ perform plan given
  unfolding agent_plan apply_user_agent perform
  apply_user_agent-perform headers plan given h =
      elim (Option-cases (http.get browser.user_agent headers)) [
        | inl bare ↦
            let e : some [] ≡ some plan = rw (bare, agent_plan) at h in
            rw (bare, apply_user_agent) (to e refl given)
        | inr (agent, has) ↦ elim (Option-cases (http.to_str agent)) [
          | inl bad ↦
              let e : ◌≡◌ {A = Option (List (PageCommand U V))} none (some plan) =
                rw (has, bad, agent_plan) at h in
              cc
          | inr (text, reads) ↦ elim (Option-cases (http.get browser.accept_language headers)) [
            | inl no_language ↦
                let e : some (set_user_agent text none ∷ []) ≡ some plan =
                  rw (has, reads, no_language, agent_plan) at h in
                rw (has, reads, no_language, apply_user_agent)
                  (perform-one (set_user_agent text none) given ∙ to e refl given)
            | inr (language, speaks) ↦ elim (Option-cases (http.to_str language)) [
              | inl bad ↦
                  let e : ◌≡◌ {A = Option (List (PageCommand U V))} none (some plan) =
                    rw (has, reads, speaks, bad, agent_plan) at h in
                  cc
              | inr (accepted, spelled) ↦
                  let e : some (set_user_agent text (some accepted) ∷ []) ≡ some plan =
                    rw (has, reads, speaks, spelled, agent_plan) at h in
                  rw (has, reads, speaks, spelled, apply_user_agent)
                    (perform-one (set_user_agent text (some accepted)) given ∙ to e refl given)
            ]
          ]
        ]
      ]
    where
      to :
          {xs ys zs : List (PageCommand U V)}
          → some ys ≡ some zs
          → xs ≡ ys
          → (given : List (PageCommand U V)) → perform xs given ≡ perform zs given
      to e e' given = cc

  set_parsed-perform :
      (url : U) (cookies : List (Option (List ℕ × List ℕ))) (given : List (PageCommand U V))
      → set_parsed http browser url cookies given ≡ perform (parsed_plan url cookies) given
  unfolding set_parsed parsed_plan perform
  set_parsed-perform url [] given = refl
  set_parsed-perform url (none ∷ cookies) given = set_parsed-perform url cookies given
  set_parsed-perform url (some (name, value) ∷ cookies) given =
      and_next_cong (execute http browser (set_cookie name value url) given) _ _
        (set_parsed-perform url cookies)

  pub set_cookies-perform :
      (url : U) (values : List V) (plan given : List (PageCommand U V))
      → cookies_plan url values ≡ some plan
      → set_cookies http browser url values given ≡ perform plan given
  unfolding set_cookies cookies_plan perform
  set_cookies-perform url [] plan given h = to h given
    where
      to :
          some [] ≡ some plan
          → (given : List (PageCommand U V)) → (given, true) ≡ perform plan given
      to e given = let e' : [] ≡ plan = cc in rw (sym e') refl
  set_cookies-perform url (v ∷ values) plan given h = elim (Option-cases (http.to_str v)) [
    | inl bad ↦
        let e : ◌≡◌ {A = Option (List (PageCommand U V))} none (some plan) =
          rw (bad, cookies_plan) at h in
        cc
    | inr (text, reads) ↦ elim (Option-cases (cookies_plan url values)) [
      | inl bad ↦
          let e : ◌≡◌ {A = Option (List (PageCommand U V))} none (some plan) =
            rw (reads, bad, cookies_plan) at h in
          cc
      | inr (rest, planned) ↦
          let e : some (parsed_plan url (browser.split_parse text) ++ rest) ≡ some plan =
            rw (reads, planned, cookies_plan) at h in
          let e' : parsed_plan url (browser.split_parse text) ++ rest ≡ plan = cc in
          rw (reads, set_cookies)
            (ap (λ r. and_next r (set_cookies http browser url values))
                (set_parsed-perform url (browser.split_parse text) given)
              ∙ and_next_cong (perform (parsed_plan url (browser.split_parse text)) given) _ _
                  (λ g. set_cookies-perform url values rest g planned)
              ∙ sym (perform-append (parsed_plan url (browser.split_parse text)) rest given)
              ∙ ap (λ p. perform p given) e')
    ]
  ]
