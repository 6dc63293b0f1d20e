-- ===== src/Dash/Replace.antt =====
-- The replacement of text needs no more rounds than there are characters.
use pvn_project.Base.{
  ℕ, zero, suc, ◌≤◌, ◌<◌, ◌≡◌, refl, ap, inl, inr, Bool-cases, List, [], ◌∷◌, ◌++◌, length, drop,
  length-drop, starts_with, arith,
}
use pvn_project.Dash.Text.{replace_from}

-- For a part that is not empty, a round for each character is enough: more rounds give the same.
replace_from_ends :
    (fuel more : ℕ) (text part by : List ℕ)
    → 0 < length part
    → length text ≤ fuel
    → fuel ≤ more
    → replace_from fuel text part by ≡ replace_from more text part by
unfolding replace_from
replace_from_ends zero zero text part by some_part enough k = refl
replace_from_ends zero (suc more) [] part by some_part enough k = refl
replace_from_ends zero (suc more) (c ∷ cs) part by some_part enough k = absurd (omega arith)
replace_from_ends (suc fuel) zero text part by some_part enough k = absurd (omega arith)
replace_from_ends (suc fuel) (suc more) [] part by some_part enough k = refl
replace_from_ends (suc fuel) (suc more) (c ∷ cs) part by some_part enough k =
    elim (Bool-cases (starts_with (c ∷ cs) part)) [
      | inl hit ↦
          rw (hit, replace_from)
            (ap (λ r. by ++ r)
              (replace_from_ends fuel more (drop (length part) (c ∷ cs)) part by some_part
                (omega (arith, length-drop (length part) (c ∷ cs))) (omega arith)))
      | inr miss ↦
          rw (miss, replace_from)
            (ap (λ r. c ∷ r)
              (replace_from_ends fuel more cs part by some_part (omega arith) (omega arith)))
    ]
