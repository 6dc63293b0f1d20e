-- ===== src/Wire/Tests.antt =====
-- The wire's theorems at concrete inputs.
use pvn_project.Base.{
  ℕ, ◌≡◌, refl, List, [], ◌∷◌, ◌++◌, Option, none, some, arith, length, Eq, ◌==◌, ==_iff,
}
use pvn_project.Wire.{extract_from, to_le_bytes}
use pvn_project.Wire.RoundTrip.{
  frame, extract_from_cut, serialize_all, extract_all, extract_all-serialize_all,
}

-- Lists of bytes, encoded as themselves.
abbrev encode : List ℕ → Option (List ℕ)
encode xs = some xs

abbrev decode : List ℕ → Option (List ℕ × ℕ)
decode xs = some (xs, length xs)

extract_from_cut_example : extract_from decode (2 ∷ 0 ∷ 0 ∷ 0 ∷ 5 ∷ []) ≡ none
extract_from_cut_example =
    extract_from_cut encode decode (5 ∷ 6 ∷ []) (2 ∷ 0 ∷ 0 ∷ 0 ∷ 5 ∷ []) (6 ∷ [])
      (unfold frame to_le_bytes in refl) (omega arith) (omega arith)

abbrev messages : List (List ℕ)
messages = (1 ∷ []) ∷ [] ∷ (2 ∷ 3 ∷ []) ∷ []

extract_all-serialize_all_example :
    (written : List ℕ) × (serialize_all encode decode messages [] ≡ some ([] ++ written))
    × (extract_all encode decode 3 (written ++ []) ≡ some (messages, []))
extract_all-serialize_all_example = extract_all-serialize_all encode decode messages [] [] (
  (1 ∷ [], 1, refl, refl, omega arith),
  (([], 0, refl, refl, omega arith), ((2 ∷ 3 ∷ [], 2, refl, refl, omega arith), tt)),
)

instance abbrev nat_eq : Eq ℕ
nat_eq = record { beq = λ a b. a == b; beq_iff = ==_iff }

-- Name 1 has two values, and name 2 has one.
abbrev entries : List (Option ℕ × ℕ)
entries = (some 1, 10) ∷ (none, 11) ∷ (some 2, 20) ∷ []

abbrev converted : List (ℕ × ℕ)
converted = (1, 11) ∷ (2, 20) ∷ []
