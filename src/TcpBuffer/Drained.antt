-- ===== src/TcpBuffer/Drained.antt =====
-- What a buffer gives to read behind a drain.
use pvn_project.Base.{
  ℕ, zero, suc, ◌+◌, ◌-◌, ◌≤◌, ◌≡◌, refl, sym, ap, ◌∙◌, inl, inr, List, [], ◌∷◌, ◌++◌, Option-cases,
  ltb, length, take, drop, drop-append, if◌then◌else◌, arith,
}
use pvn_project.TcpBuffer.{
  Segment, TcpBuffer, find_contiguous, advance, process_valid_data, shift_segments, drain_front,
  get_data,
}

shift : (n m : ℕ) → suc n + m ≡ suc (n + m)
shift n m = omega arith

module _ {A : Type 0} where
  take-nil : (n : ℕ) → take {A = A} n [] ≡ []
  take-nil zero = refl
  take-nil (suc n) = refl

  drop-take : (n m : ℕ) (xs : List A) → drop n (take (n + m) xs) ≡ take m (drop n xs)
  drop-take zero m xs = ap (λ k. take k xs) (omega arith)
  drop-take (suc n) m [] = ap (drop (suc n)) (take-nil (suc n + m)) ∙ sym (take-nil m)
  drop-take (suc n) m (x ∷ xs) =
      ap (λ k. drop (suc n) (take k (x ∷ xs))) (shift n m) ∙ drop-take n m xs

  take_add : (m k : ℕ) (xs : List A) → take (m + k) xs ≡ take m xs ++ take k (drop m xs)
  take_add zero k xs = ap (λ j. take j xs) (omega arith)
  take_add (suc m) k [] = take-nil (suc m + k) ∙ sym (take-nil k)
  take_add (suc m) k (x ∷ xs) =
      ap (λ j. take j (x ∷ xs)) (shift m k) ∙ ap (λ r. x ∷ r) (take_add m k xs)

-- The loop only adds to the good data.
advance_grows :
    (fuel : ℕ) (segments : List Segment) (valid : ℕ)
    → (k : ℕ) × (advance fuel segments valid ≡ valid + k)
unfolding advance
advance_grows zero segments valid = (0, omega arith)
advance_grows (suc fuel) segments valid = elim (Option-cases (find_contiguous valid segments)) [
  | inl stop ↦ (0, rw (stop, advance) (omega arith))
  | inr (s, found) ↦
      let (k, e) = advance_grows fuel segments (valid + s.len) in
      (s.len + k, rw (found, advance) (e ∙ omega arith))
]

-- The front goes, the rest of the good data stays, and more may have become good.
pub get_data-drain_front :
    (b : TcpBuffer) (front rest : List ℕ)
    → length front ≤ b.valid_data
    → get_data b ≡ front ++ rest
    → (more : List ℕ) × (get_data (drain_front b (length front)) ≡ rest ++ more)
unfolding drain_front process_valid_data get_data
get_data-drain_front b front rest near e =
    let (k, grown) = advance_grows (suc (length segments)) segments left in
    (
      take k (drop left (drop n b.buf)),
      rw (shorter, grown)
          (take_add left k (drop n b.buf) ∙ ap (λ r. r ++ take k (drop left (drop n b.buf))) stays),
    )
  where
    n : ℕ
    n = length front

    left : ℕ
    left = b.valid_data - n

    segments : List Segment
    segments = shift_segments n b.received_segments

    shorter : (if ltb n b.valid_data then b.valid_data - n else 0) ≡ left
    shorter = ground arith

    whole : n + left ≡ b.valid_data
    whole = omega arith

    stays : take left (drop n b.buf) ≡ rest
    stays =
        sym (drop-take n left b.buf)
        ∙ ap (λ v. drop n (take v b.buf)) whole
        ∙ ap (drop n) e
        ∙ drop-append front rest
