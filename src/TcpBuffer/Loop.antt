-- ===== src/TcpBuffer/Loop.antt =====
-- The loop of `process_valid_data`: an invariant rule, its bounds, and its end.
use pvn_project.Base.{
  ℕ, zero, suc, ◌+◌, ◌≤◌, ◌<◌, ◌≡◌, sym, subst, inl, inr, Bool, true, Bool-cases, List, [], ◌∷◌,
  none, some, Option-cases, leb, ◌==◌, ==_iff, if◌then◌else◌, length, arith, All,
}
use pvn_project.TcpBuffer.{Segment, TcpBuffer, retain, find_contiguous, advance, process_valid_data}

pub retain-All {κ} :
    (P : Segment → Type κ) (keep : Segment → Bool) (ss : List Segment)
    → All P ss
    → All P (retain keep ss)
retain-All P keep [] h = tt
retain-All P keep (s ∷ ss) h = elim (Bool-cases (keep s)) [
  | inl e ↦ rw e (h.0, retain-All P keep ss h.1)
  | inr e ↦ rw e (retain-All P keep ss h.1)
]

-- What is kept passes the test.
pub retain-keeps :
    (keep : Segment → Bool) (ss : List Segment) → All (λ s. keep s ≡ true) (retain keep ss)
retain-keeps keep [] = tt
retain-keeps keep (s ∷ ss) = elim (Bool-cases (keep s)) [
  | inl e ↦ rw e (e, retain-keeps keep ss)
  | inr e ↦ rw e (retain-keeps keep ss)
]

pub find_contiguous-some {κ} :
    (Q : Segment → Type κ) (v : ℕ) (ss : List Segment) {s : Segment}
    → All Q ss
    → find_contiguous v ss ≡ some s
    → (s.start ≡ v) × Q s
unfolding find_contiguous
find_contiguous-some Q v [] h e = cc
find_contiguous-some Q v (t ∷ ss) {s} h e = elim (Bool-cases (t.start == v)) [
  | inl hit ↦ subst (λ u. (u.start ≡ v) × Q u) (same (rw hit at e)) ((==_iff _ _).0 hit, h.0)
  | inr miss ↦ find_contiguous-some Q v ss h.1 (rw miss at e)
]
  where
    same : some t ≡ some s → t ≡ s
    same p = cc

-- What each segment carries from its start to its end, the loop carries to its result.
pub advance_inv {ℓ κ} :
    (P : ℕ → Type ℓ) (Q : Segment → Type κ)
    → ((s : Segment) → Q s → P s.start → P (s.start + s.len))
    → (fuel : ℕ) (ss : List Segment) (v : ℕ) → All Q ss
    → P v
    → P (advance fuel ss v)
unfolding advance
advance_inv P Q step zero ss v h p = p
advance_inv P Q step (suc fuel) ss v h p = elim (Option-cases (find_contiguous v ss)) [
  | inl e ↦ rw (e, advance) p
  | inr (s, e) ↦ rw (e, advance) (advance_inv P Q step fuel ss (v + s.len) h (next s e))
]
  where
    next : (s : Segment) → find_contiguous v ss ≡ some s → P (v + s.len)
    next s e =
        let f = find_contiguous-some Q v ss h e in
        subst (λ n. P (n + s.len)) f.0 (step s f.1 (subst P (sym f.0) p))

pub le-advance : (fuel : ℕ) (ss : List Segment) (v : ℕ) → v ≤ advance fuel ss v
unfolding advance
le-advance zero ss v = omega arith
le-advance (suc fuel) ss v = elim (Option-cases (find_contiguous v ss)) [
  | inl e ↦ rw (e, advance) (omega arith)
  | inr (s, e) ↦ rw (e, advance) (omega (arith, le-advance fuel ss (v + s.len)))
]

abbrev pub IsNonempty : List Segment → Type 0
IsNonempty ss = All (λ s. 0 < s.len) ss

-- How many segments the loop may still use.
count_from : ℕ → List Segment → ℕ
count_from v [] = 0
count_from v (s ∷ ss) = (if leb v s.start then 1 else 0) + count_from v ss

count_from-le-length : (v : ℕ) (ss : List Segment) → count_from v ss ≤ length ss
unfolding count_from
count_from-le-length v [] = omega arith
count_from-le-length v (s ∷ ss) = ground (arith, count_from-le-length v ss)

count_from_mono : (v w : ℕ) (ss : List Segment) → v ≤ w → count_from w ss ≤ count_from v ss
unfolding count_from
count_from_mono v w [] h = omega arith
count_from_mono v w (s ∷ ss) h = ground (arith, count_from_mono v w ss h)

count_from_falls :
    (v w : ℕ) (ss : List Segment) {s : Segment}
    → find_contiguous v ss ≡ some s
    → v < w
    → count_from w ss < count_from v ss
unfolding count_from find_contiguous
count_from_falls v w [] e h = cc
count_from_falls v w (t ∷ ss) {s} e h = elim (Bool-cases (t.start == v)) [
  | inl hit ↦ ground (arith, count_from_mono v w ss)
  | inr miss ↦ ground (arith, count_from_falls v w ss (rw miss at e) h)
]

advance_ends :
    (fuel : ℕ) (ss : List Segment) (v : ℕ)
    → IsNonempty ss
    → count_from v ss < fuel
    → find_contiguous (advance fuel ss v) ss ≡ none
unfolding advance
advance_ends zero ss v h lt = elim lt [ ]
advance_ends (suc fuel) ss v h lt = elim (Option-cases (find_contiguous v ss)) [
  | inl e ↦ rw (e, advance) e
  | inr (s, e) ↦
      rw (e, advance)
        (advance_ends fuel ss (v + s.len) h
          (omega (arith, count_from_falls v (v + s.len) ss e (more s e))))
]
  where
    more : (s : Segment) → find_contiguous v ss ≡ some s → v < v + s.len
    more s e = omega (arith, (find_contiguous-some (λ t. 0 < t.len) v ss h e).1)

-- Where no received segment is empty, the loop of `process_valid_data` ends by its own test: no
-- segment starts where the good data then ends.
pub process_valid_data_ends :
    (b : TcpBuffer)
    → IsNonempty b.received_segments
    → find_contiguous (process_valid_data b).valid_data b.received_segments ≡ none
unfolding process_valid_data
process_valid_data_ends b h =
    advance_ends (suc (length b.received_segments)) b.received_segments b.valid_data h
      (omega (arith, count_from-le-length b.valid_data b.received_segments))
