-- ===== src/Wire/Json.antt =====
-- apps/rdr_common/src/lib.rs: the requests of the browser, whose headers are JSON, as requests of
-- the wire. The JSON library's values and their text are parameters.
use pvn_project.Base.{ℕ, List, [], ◌∷◌, Option, none, some, ◌>>=◌}
use pvn_project.Http.{Http}
use pvn_project.Wire.{Request}

pub data Json (J : Type 0) : Type 0 where
  object : List (List ℕ × J) → Json J
  other : Json J

-- The browser's request.
pub record CdpRequest (J : Type 0) : Type 0 where
  pub url : List ℕ
  pub method : List ℕ
  pub headers : Json J

module _ {U H K V J : Type 0} (http : Http H K V) (parse_url : List ℕ → Option U)
    (to_string : J → List ℕ) where
  -- The loop over the object's entries.
  unfoldable pub insert_entries : List (List ℕ × J) → H → Option H
  insert_entries [] headers = some headers
  insert_entries ((k, v) ∷ entries) headers = do
    name ← http.parse_name k
    value ← http.parse_value (to_string v)
    insert_entries entries (http.insert name value headers)

  unfoldable pub headers_from_json : Json J → Option H
  unfolding insert_entries
  headers_from_json (object entries) = insert_entries entries http.empty
  headers_from_json other = none

  unfoldable pub try_from : CdpRequest J → Option (Request U H)
  unfolding headers_from_json
  try_from value = do
    url ← parse_url value.url
    headers ← headers_from_json value.headers
    some (record { url = url; headers = headers })
