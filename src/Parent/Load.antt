-- ===== src/Parent/Load.antt =====
-- The load of a page: its plan, where there is one.
use pvn_project.Base.{
  ◌≡◌, ◌⊎◌, refl, sym, ap, ◌∙◌, inl, inr, false, List, [], ◌∷◌, ◌++◌, Option, none, some,
  Option-cases,
}
use pvn_project.Http.{Http}
use pvn_project.Wire.{Request}
use pvn_project.Parent.Page.{
  PageCommand, create_browser_context, new_page, set_user_agent, goto, start_tasks, close, Browser,
  and_next, execute, apply_user_agent, set_parsed, set_cookies, load_page, resolve_recursive,
}
use pvn_project.Parent.Chain.{and_next_assoc, and_next_cong, and_next_fails, fails_first}
use pvn_project.Parent.Plan.{
  agent_plan, parsed_plan, cookies_plan, perform, perform-append, apply_user_agent-perform,
  set_cookies-perform,
}

module _ {U H K V : Type 0} (http : Http H K V) (browser : Browser U H K V) where
  set_cookies-fails :
      (url : U) (values : List V) (given : List (PageCommand U V))
      → cookies_plan http browser url values ≡ none
      → (set_cookies http browser url values given).1 ≡ false
  unfolding set_cookies cookies_plan
  set_cookies-fails url [] given h = cc
  set_cookies-fails url (v ∷ values) given h = elim (Option-cases (http.to_str v)) [
    | inl bad ↦ rw (bad, set_cookies) refl
    | inr (text, reads) ↦ elim (Option-cases (cookies_plan http browser url values)) [
      | inl bad ↦
          rw (reads, set_cookies)
            (and_next_fails (set_parsed http browser url (browser.split_parse text) given) _
              (λ g. set_cookies-fails url values g bad))
      | inr (rest, planned) ↦
          let e : some (parsed_plan http browser url (browser.split_parse text) ++ rest) ≡ none =
            rw (reads, planned, cookies_plan) at h in
          cc
    ]
  ]

  apply_user_agent-fails :
      (headers : H) (given : List (PageCommand U V))
      → agent_plan http browser headers ≡ none
      → (apply_user_agent http browser headers given).1 ≡ false
  unfolding agent_plan apply_user_agent
  apply_user_agent-fails headers given h =
      elim (Option-cases (http.get browser.user_agent headers)) [
        | inl bare ↦
            let e : ◌≡◌ {A = Option (List (PageCommand U V))} (some []) none =
              rw (bare, agent_plan) at h in
            cc
        | inr (agent, has) ↦ elim (Option-cases (http.to_str agent)) [
          | inl bad ↦ rw (has, bad, apply_user_agent) refl
          | inr (text, reads) ↦ elim (Option-cases (http.get browser.accept_language headers)) [
            | inl no_language ↦
                let e : some (set_user_agent text none ∷ []) ≡ none =
                  rw (has, reads, no_language, agent_plan) at h in
                cc
            | inr (language, speaks) ↦ elim (Option-cases (http.to_str language)) [
              | inl bad ↦ rw (has, reads, speaks, bad, apply_user_agent) refl
              | inr (accepted, spelled) ↦
                  let e : some (set_user_agent text (some accepted) ∷ []) ≡ none =
                    rw (has, reads, speaks, spelled, agent_plan) at h in
                  cc
            ]
          ]
        ]
      ]

  -- The set-up of a page is a plan: a context and a page of its own; the user agent of the client's
  -- request, and with it the language, where the request has an agent, and neither where it has
  -- none; and each cookie of its headers that can be parsed, in their order. Where these headers are
  -- text, the commands are those of the plan up to the first that fails; exactly behind a whole plan
  -- the tasks are started, with the encodings that the client accepts, and the URL of the request is
  -- loaded, and where it loads the page is closed. Else the load fails.
  pub resolve_recursive_lem :
      (req : Request U H)
      → ((agent : List (PageCommand U V)) × (cookies : List (PageCommand U V)) × (agent_plan http
              browser req.headers
            ≡ some agent)
          × (cookies_plan http browser req.url (browser.get_all browser.cookie req.headers)
              ≡ some cookies)
          × (resolve_recursive http browser req
              ≡ and_next
                  (perform http browser (create_browser_context ∷ new_page ∷ (agent ++ cookies)) [])
                  (λ set_up.
                    and_next
                      (execute http browser
                        (goto req.url)
                        (set_up ++ (start_tasks (http.get http.accept_encoding req.headers) ∷ [])))
                      (execute http browser close))))
        ⊎ (((agent_plan http browser req.headers ≡ none)
              ⊎ (cookies_plan http browser req.url (browser.get_all browser.cookie req.headers)
                  ≡ none))
            × ((resolve_recursive http browser req).1 ≡ false))
  unfolding resolve_recursive perform load_page
  resolve_recursive_lem req = elim (Option-cases (agent_plan http browser req.headers)) [
    | inl bad ↦ inr (
      inl bad,
      and_next_fails (execute http browser create_browser_context []) _ (λ g.
          and_next_fails (execute http browser new_page g) _ (λ g'.
            fails_first (apply_user_agent http browser req.headers g') _
              (apply_user_agent-fails req.headers g' bad))),
    )
    | inr (agent, planned) ↦
        elim (Option-cases
          (cookies_plan http browser req.url (browser.get_all browser.cookie req.headers))) [
            | inl bad ↦ inr (
              inr bad,
              and_next_fails (execute http browser create_browser_context []) _ (λ g.
                  and_next_fails (execute http browser new_page g) _ (λ g'.
                    and_next_fails (apply_user_agent http browser req.headers g') _ (λ g''.
                      fails_first
                        (set_cookies http browser req.url
                          (browser.get_all browser.cookie req.headers) g'')
                        _ (set_cookies-fails req.url _ g'' bad)))),
            )
            | inr (cookies, baked) ↦ inl (
              agent,
              cookies,
              planned,
              baked,
              and_next_cong (execute http browser create_browser_context []) _ _ (λ g.
                    and_next_cong (execute http browser new_page g) _ _
                      (λ g'. both agent cookies planned baked g')
                    ∙ sym (
                        and_next_assoc (execute http browser new_page g)
                          (perform http browser (agent ++ cookies)) (load_page http browser req)))
                  ∙ sym (
                      and_next_assoc (execute http browser create_browser_context [])
                        (perform http browser (new_page ∷ (agent ++ cookies)))
                        (load_page http browser req)),
            )
          ]
  ]
    where
      both :
          (agent cookies : List (PageCommand U V))
          → agent_plan http browser req.headers ≡ some agent
          → cookies_plan http browser req.url (browser.get_all browser.cookie req.headers)
            ≡ some cookies
          → (g : List (PageCommand U V))
          → and_next (apply_user_agent http browser req.headers g) (λ g'.
            and_next
              (set_cookies http browser req.url (browser.get_all browser.cookie req.headers) g')
              (load_page http browser req))
            ≡ and_next (perform http browser (agent ++ cookies) g) (load_page http browser req)
      both agent cookies planned baked g =
          ap
            (λ r. and_next r (λ g'.
              and_next
                (set_cookies http browser req.url (browser.get_all browser.cookie req.headers) g')
                (load_page http browser req)))
            (apply_user_agent-perform http browser req.headers agent g planned)
          ∙ and_next_cong (perform http browser agent g) _ _ (λ g'.
            ap (λ r. and_next r (load_page http browser req))
              (set_cookies-perform http browser req.url _ cookies g' baked))
          ∙ sym (
              and_next_assoc (perform http browser agent g) (perform http browser cookies)
                (load_page http browser req))
          ∙ ap (λ r. and_next r (load_page http browser req))
              (sym (perform-append http browser agent cookies g))
