-- ===== src/Dash/Text.antt =====
-- The string functions that apps/video_transcoder/src/dash_transcoder.rs uses.
use pvn_project.Base.{
  ℕ, zero, suc, ◌+◌, ◌-◌, ◌*◌, ◌&&◌, true, false, List, [], ◌∷◌, ◌++◌, Option, none, some,
  if◌then◌else◌, ltb, leb, ◌==◌, length, drop, starts_with, u32_mod,
}

-- `str::replace`, on fuel for the characters: `part` is not empty.
unfoldable pub replace_from : ℕ → List ℕ → List ℕ → List ℕ → List ℕ
replace_from zero text part by = text
replace_from (suc fuel) [] part by = []
replace_from (suc fuel) (c ∷ cs) part by = elim (starts_with (c ∷ cs) part) [
  | true ↦ by ++ replace_from fuel (drop (length part) (c ∷ cs)) part by
  | false ↦ c ∷ replace_from fuel cs part by
]

unfoldable pub replace : List ℕ → List ℕ → List ℕ → List ℕ
unfolding replace_from
replace part by text = replace_from (length text) text part by

-- `str::parse::<u32>`: an optional plus sign, and digits.
unfoldable pub parse_digits : ℕ → List ℕ → Option ℕ
parse_digits n [] = some n
parse_digits n (c ∷ cs) = elim (leb b'0' c && (leb c b'9' && ltb (10 * n + (c - b'0')) u32_mod)) [
  | true ↦ parse_digits (10 * n + (c - b'0')) cs
  | false ↦ none
]

unfoldable pub parse_u32 : List ℕ → Option ℕ
unfolding parse_digits
parse_u32 [] = none
parse_u32 (c ∷ []) = if c == b'+' then none else parse_digits 0 (c ∷ [])
parse_u32 (c ∷ d ∷ cs) = if c == b'+' then parse_digits 0 (d ∷ cs) else parse_digits 0 (c ∷ d ∷ cs)
