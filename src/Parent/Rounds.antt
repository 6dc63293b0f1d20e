-- ===== src/Parent/Rounds.antt =====
-- The loop over the client's requests needs no more rounds than there are bytes.
use pvn_project.Base.{
  ℕ, zero, suc, ◌+◌, ◌<◌, ◌≤◌, ◌≡◌, refl, ap, inl, inr, Bool, Bool-cases, List, ◌∷◌, Option, none,
  some, Option-cases, >>=-some, ltb, length, take, drop, length-drop, arith,
}
use pvn_project.Wire.{Request, read_exact, extract_from, from_le_bytes}
use pvn_project.Parent.Serve.{resolution, read_loop}

read_exact-length :
    (n : ℕ) (reader : List ℕ) {bytes rest : List ℕ}
    → read_exact n reader ≡ some (bytes, rest)
    → length rest + n ≡ length reader
unfolding read_exact
read_exact-length n reader {bytes} {rest} h = elim (Bool-cases (ltb (length reader) n)) [
  | inl short ↦
      let e : ◌≡◌ {A = Option (List ℕ × List ℕ)} none (some (bytes, rest)) = rw short at h in cc
  | inr long ↦
      let e : some (take n reader, drop n reader) ≡ some (bytes, rest) = rw long at h in
      let same : drop n reader ≡ rest = cc in
      ground (arith, long, ap length same, length-drop n reader)
]

-- A value takes the four bytes of its length at least.
extract_from-length :
    {A : Type 0} (decode : List ℕ → Option (A × ℕ)) (reader : List ℕ) {a : A} {rest : List ℕ}
    → extract_from decode reader ≡ some (a, rest)
    → length rest + 4 ≤ length reader
unfolding extract_from
extract_from-length decode reader {a} {rest} h =
    let (p, e, h1) = >>=-some (read_exact 4 reader) _ h in
    let (q, e1, h2) = >>=-some (read_exact (from_le_bytes p.0) p.1) _ h1 in
    let (r, e2, h3) = >>=-some (decode q.0) _ h2 in
    let same : q.1 ≡ rest = last h3 in
    omega (
      arith,
      read_exact-length 4 reader e,
      read_exact-length (from_le_bytes p.0) p.1 e1,
      ap length same,
    )
  where
    last : {A : Type 0} {p q : A × List ℕ} → some p ≡ some q → p.1 ≡ q.1
    last e = cc

module _ {U H : Type 0} (fetch_mode : H → Option (List ℕ)) where
  -- A round for each byte and one more is enough: more rounds give no other requests.
  read_loop_ends :
      (decode : List ℕ → Option (Request U H × ℕ)) (always_recursive : Bool) (fuel more : ℕ)
      (reader : List ℕ)
      → length reader < fuel
      → fuel ≤ more
      → read_loop fetch_mode decode always_recursive fuel reader
        ≡ read_loop fetch_mode decode always_recursive more reader
  unfolding read_loop
  read_loop_ends decode always_recursive zero more reader enough k = absurd (omega arith)
  read_loop_ends decode always_recursive (suc fuel) zero reader enough k = absurd (omega arith)
  read_loop_ends decode always_recursive (suc fuel) (suc more) reader enough k =
      elim (Option-cases (extract_from decode reader)) [
        | inl bad ↦ rw (bad, read_loop) refl
        | inr ((req, rest), good) ↦
            rw (good, read_loop)
              (ap (λ r. (resolution fetch_mode always_recursive req, req) ∷ r)
                (read_loop_ends decode always_recursive fuel more rest
                  (omega (arith, extract_from-length decode reader good)) (omega arith)))
      ]
