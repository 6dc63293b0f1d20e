-- ===== src/Parent/Serve.antt =====
-- apps/rdr_parent_cache/src/server.rs: the requests that a client sends, and which of the two ways
-- each is resolved.
use pvn_project.Base.{
  ℕ, zero, suc, Bool, true, false, ◌||◌, List, [], ◌∷◌, Option, none, some, length, string_eq,
}
use pvn_project.Wire.{Request, extract_from}

-- `resolve_recursive` or `resolve_direct`
pub data Resolution : Type 0 where
  recursive direct : Resolution

abbrev pub navigate : List ℕ
navigate = b'n' ∷ b'a' ∷ b'v' ∷ b'i' ∷ b'g' ∷ b'a' ∷ b't' ∷ b'e' ∷ []

-- `fetch_mode` reads the header `sec-fetch-mode`.
module _ {U H : Type 0} (fetch_mode : H → Option (List ℕ)) where
  unfoldable pub is_navigation : Request U H → Bool
  is_navigation req = elim (fetch_mode req.headers) [
    | none ↦ true
    | some mode ↦ string_eq mode navigate
  ]

  unfoldable pub resolution : Bool → Request U H → Resolution
  unfolding is_navigation
  resolution always_recursive req = elim (always_recursive || is_navigation req) [
    | true ↦ recursive
    | false ↦ direct
  ]

  -- The loop, on fuel: each request is given to a task of its own, until one cannot be read.
  unfoldable pub read_loop :
      (List ℕ → Option (Request U H × ℕ)) → Bool → ℕ → List ℕ → List (Resolution × Request U H)
  unfolding resolution
  read_loop decode always_recursive zero reader = []
  read_loop decode always_recursive (suc fuel) reader = elim (extract_from decode reader) [
    | none ↦ []
    | some (req, reader') ↦
        (resolution always_recursive req, req) ∷ read_loop decode always_recursive fuel reader'
  ]

  -- Each request has four bytes at least, so a round for each byte is fuel enough.
  unfoldable pub read_requests :
      (List ℕ → Option (Request U H × ℕ)) → Bool → List ℕ → List (Resolution × Request U H)
  unfolding read_loop
  read_requests decode always_recursive reader =
      read_loop decode always_recursive (suc (length reader)) reader
