-- ===== src/Parent/Page.antt =====
-- apps/rdr_parent_cache/src/resolver.rs: `resolve_recursive`, as the commands that it gives the
-- browser. What is made of a page's events is not part of it: those tasks are started and run on
-- their own. The browser, which may refuse a command, and the cookie parser are parameters.
use pvn_project.Base.{ℕ, Bool, true, false, List, [], ◌∷◌, ◌++◌, Option, none, some}
use pvn_project.Http.{Http}
use pvn_project.Wire.{Request}

pub data PageCommand (U V : Type 0) : Type 0 where
  create_browser_context : PageCommand U V
  new_page : PageCommand U V
  set_user_agent : List ℕ → Option (List ℕ) → PageCommand U V
  set_cookie : List ℕ → List ℕ → U → PageCommand U V
  start_tasks : Option V → PageCommand U V
  goto : U → PageCommand U V
  close : PageCommand U V

-- The browser's answer to a command behind others, the names and the parser.
pub record Browser (U H K V : Type 0) : Type 0 where
  pub accepts : List (PageCommand U V) → PageCommand U V → Bool
  pub get_all : K → H → List V
  pub split_parse : List ℕ → List (Option (List ℕ × List ℕ))
  pub user_agent : K
  pub accept_language : K
  pub cookie : K

module _ {U V : Type 0} where
  -- What comes behind a step, if it has not failed.
  abbrev pub and_next :
      List (PageCommand U V) × Bool
      → (List (PageCommand U V) → List (PageCommand U V) × Bool)
      → List (PageCommand U V) × Bool
  and_next (given, true) rest = rest given
  and_next (given, false) rest = (given, false)

  -- A `?` on a value that may be missing.
  abbrev pub or_stop :
      {A : Type 0}
      → List (PageCommand U V)
      → Option A
      → (A → List (PageCommand U V) × Bool)
      → List (PageCommand U V) × Bool
  or_stop given none rest = (given, false)
  or_stop given (some a) rest = rest a

module _ {U H K V : Type 0} (http : Http H K V) (browser : Browser U H K V) where
  -- A command is given, and fails or not.
  unfoldable pub execute : PageCommand U V → List (PageCommand U V) → List (PageCommand U V) × Bool
  execute command given = (given ++ (command ∷ []), browser.accepts given command)

  unfoldable pub apply_user_agent : H → List (PageCommand U V) → List (PageCommand U V) × Bool
  unfolding execute
  apply_user_agent headers given = elim (http.get browser.user_agent headers) [
    | none ↦ (given, true)
    | some user_agent ↦ or_stop given (http.to_str user_agent) (λ agent.
        elim (http.get browser.accept_language headers) [
          | none ↦ execute (set_user_agent agent none) given
          | some language ↦
              or_stop given (http.to_str language)
                (λ accepted. execute (set_user_agent agent (some accepted)) given)
        ])
  ]

  -- The inner loop; what is no cookie is passed over.
  unfoldable pub set_parsed :
      U → List (Option (List ℕ × List ℕ)) → List (PageCommand U V) → List (PageCommand U V) × Bool
  unfolding execute
  set_parsed url [] given = (given, true)
  set_parsed url (none ∷ cookies) given = set_parsed url cookies given
  set_parsed url (some (name, value) ∷ cookies) given =
      and_next (execute (set_cookie name value url) given) (set_parsed url cookies)

  unfoldable pub set_cookies : U → List V → List (PageCommand U V) → List (PageCommand U V) × Bool
  unfolding set_parsed
  set_cookies url [] given = (given, true)
  set_cookies url (cookie_string ∷ cookie_strings) given =
      or_stop given (http.to_str cookie_string) (λ text.
        and_next (set_parsed url (browser.split_parse text) given) (set_cookies url cookie_strings))

  -- The tasks are started, and the page is loaded and closed.
  unfoldable pub load_page : Request U H → List (PageCommand U V) → List (PageCommand U V) × Bool
  unfolding execute
  load_page req given =
      and_next (given ++ (start_tasks (http.get http.accept_encoding req.headers) ∷ []), true)
        (λ given. and_next (execute (goto req.url) given) (execute close))

  unfoldable pub resolve_recursive : Request U H → List (PageCommand U V) × Bool
  unfolding apply_user_agent set_cookies load_page
  resolve_recursive req = and_next (execute create_browser_context []) (λ given.
      and_next (execute new_page given) (λ given.
        and_next (apply_user_agent req.headers given) (λ given.
          and_next (set_cookies req.url (browser.get_all browser.cookie req.headers) given)
            (load_page req))))
