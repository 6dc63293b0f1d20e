-- ===== src/Http.antt =====
-- The HTTP library's headers, as the applications use them: a map from names to values, with the
-- parsers of both. The map and the names are parameters.
pub mod Sample
use pvn_project.Base.{ℕ, ◌≡◌, ◌≢◌, List, Option, none, some, [], ◌∷◌, to_lowercase}

pub record Http (H K V : Type 0) : Type 0 where
  pub empty : H
  pub get : K → H → Option V
  pub insert : K → V → H → H
  pub remove : K → H → H
  pub parse_name : List ℕ → Option K
  pub parse_value : List ℕ → Option V
  pub to_str : V → Option (List ℕ)
  pub accept_encoding : K
  pub content_encoding : K

-- The name of `content_encoding`.
abbrev pub content_encoding_name : List ℕ
content_encoding_name =
    b'c' ∷ b'o' ∷ b'n' ∷ b't' ∷ b'e' ∷ b'n' ∷ b't' ∷ b'-' ∷ b'e' ∷ b'n' ∷ b'c' ∷ b'o' ∷ b'd' ∷ b'i'
    ∷ b'n' ∷ b'g' ∷ []

-- A map, in which an insertion takes the place of what the name had, and names that are read
-- without regard to case.
pub record HttpLaws {H K V : Type 0} (http : Http H K V) : Type 0 where
  pub get-empty : (k : K) → http.get k http.empty ≡ none
  pub get-insert_self : (k : K) (v : V) (h : H) → http.get k (http.insert k v h) ≡ some v
  pub get-insert_other :
      (k j : K) (v : V) (h : H) → k ≢ j → http.get j (http.insert k v h) ≡ http.get j h
  pub get-remove_self : (k : K) (h : H) → http.get k (http.remove k h) ≡ none
  pub get-remove_other : (k j : K) (h : H) → k ≢ j → http.get j (http.remove k h) ≡ http.get j h
  pub parse_name-lowercase :
      (name : List ℕ)
      → http.parse_name name ≡ some http.content_encoding
      → to_lowercase name ≡ content_encoding_name
