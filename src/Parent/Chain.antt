-- ===== src/Parent/Chain.antt =====
-- Steps that follow each other up to the first that fails.
use pvn_project.Base.{◌≡◌, refl, Bool, true, false, List}
use pvn_project.Parent.Page.{PageCommand, and_next}

module _ {U V : Type 0} where
  pub and_next_assoc :
      (r : List (PageCommand U V) × Bool)
      (k l : List (PageCommand U V) → List (PageCommand U V) × Bool)
      → and_next (and_next r k) l ≡ and_next r (λ given. and_next (k given) l)
  and_next_assoc (given, true) k l = refl
  and_next_assoc (given, false) k l = refl

  pub and_next_cong :
      (r : List (PageCommand U V) × Bool)
      (k l : List (PageCommand U V) → List (PageCommand U V) × Bool)
      → ((given : List (PageCommand U V)) → k given ≡ l given)
      → and_next r k ≡ and_next r l
  and_next_cong (given, true) k l e = e given
  and_next_cong (given, false) k l e = refl

  pub and_next_fails :
      (r : List (PageCommand U V) × Bool)
      (k : List (PageCommand U V) → List (PageCommand U V) × Bool)
      → ((given : List (PageCommand U V)) → (k given).1 ≡ false)
      → (and_next r k).1 ≡ false
  and_next_fails (given, true) k h = h given
  and_next_fails (given, false) k h = refl

  pub fails_first :
      (r : List (PageCommand U V) × Bool)
      (k : List (PageCommand U V) → List (PageCommand U V) × Bool)
      → r.1 ≡ false
      → (and_next r k).1 ≡ false
  fails_first (given, true) k h = cc
  fails_first (given, false) k h = refl

  pub and_next_end : (r : List (PageCommand U V) × Bool) → and_next r (λ given. (given, true)) ≡ r
  and_next_end (given, true) = refl
  and_next_end (given, false) = refl
