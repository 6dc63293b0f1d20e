-- ===== src/Base/Outcomes.antt =====
-- How a fallible function ends, with `?` and `let ... else`.
use mathlib.Core.Option.{Option, none, some}
use mathlib.Core.Path.{◌≡◌, refl}
use mathlib.Core.Logic.{◌⊎◌, inl, inr}

-- A result, an error, or a panic.
pub data Outcome {ℓ} (A : Type ℓ) : Type ℓ where
  done : A → Outcome A
  bails : Outcome A
  panics : Outcome A

pub Outcome-cases {ℓ} :
    {A : Type ℓ} (o : Outcome A) → ((a : A) × (o ≡ done a)) ⊎ (o ≡ bails) ⊎ (o ≡ panics)
Outcome-cases (done a) = inl (a, refl)
Outcome-cases bails = inr (inl refl)
Outcome-cases panics = inr (inr refl)

module _ {ℓ κ} {A : Type ℓ} {B : Type κ} where
  -- `let ... else bail!`, and `?` on what is an error or a value.
  abbrev pub or_bail : Option A → (A → Outcome B) → Outcome B
  or_bail none rest = bails
  or_bail (some a) rest = rest a

  -- `unwrap`
  abbrev pub or_panic : Option A → (A → Outcome B) → Outcome B
  or_panic none rest = panics
  or_panic (some a) rest = rest a

  abbrev pub and_then : Outcome A → (A → Outcome B) → Outcome B
  and_then (done a) rest = rest a
  and_then bails rest = bails
  and_then panics rest = panics

-- There is no panic.
abbrev pub IsCalm {ℓ} : {A : Type ℓ} → Outcome A → Type ℓ
IsCalm o = o ≡ panics → ⊥

pub done-IsCalm {ℓ} : {A : Type ℓ} (a : A) → IsCalm (done a)
done-IsCalm a e = cc

pub bails-IsCalm {ℓ} : {A : Type ℓ} → IsCalm {A = A} bails
bails-IsCalm e = cc

module _ {ℓ κ} {A : Type ℓ} {B : Type κ} (rest : A → Outcome B) where
  pub or_bail-IsCalm : (o : Option A) → ((a : A) → IsCalm (rest a)) → IsCalm (or_bail o rest)
  or_bail-IsCalm none calm = bails-IsCalm
  or_bail-IsCalm (some a) calm = calm a

  pub and_then-IsCalm :
      (o : Outcome A) → IsCalm o → ((a : A) → IsCalm (rest a)) → IsCalm (and_then o rest)
  and_then-IsCalm (done a) h calm = calm a
  and_then-IsCalm bails h calm = bails-IsCalm
  and_then-IsCalm panics h calm = absurd (h refl)

  pub or_panic-IsCalm :
      (o : Option A) (a : A) → o ≡ some a → IsCalm (rest a) → IsCalm (or_panic o rest)
  or_panic-IsCalm o a e calm = rw e calm

  -- A result has come through each step.
  pub or_bail-done :
      (o : Option A) {b : B} → or_bail o rest ≡ done b → (a : A) × (o ≡ some a) × (rest a ≡ done b)
  or_bail-done none h = cc
  or_bail-done (some a) h = (a, refl, h)

  pub or_panic-done :
      (o : Option A) {b : B} → or_panic o rest ≡ done b → (a : A) × (o ≡ some a) × (rest a ≡ done b)
  or_panic-done none h = cc
  or_panic-done (some a) h = (a, refl, h)

  pub and_then-done :
      (o : Outcome A) {b : B}
      → and_then o rest ≡ done b
      → (a : A) × (o ≡ done a) × (rest a ≡ done b)
  and_then-done (done a) h = (a, refl, h)
  and_then-done bails h = cc
  and_then-done panics h = cc
