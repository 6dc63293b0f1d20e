-- ===== src/Dash.antt =====
-- apps/video_transcoder/src/dash_transcoder.rs: the match of a request's URI with a base URI. The
-- library's scheme and host are parameters with an equality; a path is its characters' numbers.
pub mod Prefix
pub mod Names
pub mod Text
pub mod Replace
pub mod Xml
pub mod Absolute
pub mod Segments
pub mod Stream
pub mod Sniff
pub mod Proxy
pub mod Manifest
pub mod Bases
pub mod Sample
mod Tests
use pvn_project.Base.{
  starts_with, ℕ, Bool, true, false, ◌&&◌, List, [], ◌∷◌, Option, none, some, ◌==◌, if◌then◌else◌,
  length, drop, Eq,
}

-- What is read of a `Uri`.
pub record Uri (S H : Type 0) : Type 0 where
  pub scheme : Option S
  pub host : Option H
  pub port : Option ℕ
  pub path : List ℕ

-- A part that one of the two does not have matches.
unfoldable pub part_matches : {A : Type 0} → (A → A → Bool) → Option A → Option A → Bool
part_matches same test none = true
part_matches same none (some p) = true
part_matches same (some t) (some p) = same t p

abbrev pub slash : ℕ
slash = 47

unfoldable pub trim_start : List ℕ → List ℕ
trim_start [] = []
trim_start (c ∷ cs) = let rest = trim_start cs in if c == slash then rest else c ∷ cs

unfoldable pub trim_end : List ℕ → List ℕ
trim_end [] = []
trim_end (c ∷ cs) = elim (trim_end cs) [
  | [] ↦ if c == slash then [] else c ∷ []
  | d ∷ ds ↦ c ∷ d ∷ ds
]

-- `str::trim_matches('/')`
unfoldable pub trim_matches : List ℕ → List ℕ
trim_matches cs = trim_end (trim_start cs)

module _ {S H : Type 0} ⦃s : Eq S⦄ ⦃h : Eq H⦄ where
  unfoldable pub uri_prefixes : Uri S H → Uri S H → Option (List ℕ)
  unfolding part_matches
  uri_prefixes prefix test =
      if part_matches s.beq test.scheme prefix.scheme
        && (part_matches h.beq test.host prefix.host
            && (part_matches ◌==◌ test.port prefix.port && starts_with test.path prefix.path))
      then some (trim_matches (drop (length prefix.path) test.path))
      else none
