-- ===== src/Base/Strings.antt =====
-- Strings of the source, as the numbers of their characters.
use Prim.Native.Nat.{ℕ, ◌+◌}
use mathlib.Core.Path.{◌≡◌, refl, ap₂}
use mathlib.Core.Logic.{◌↔◌, inl, inr}
use mathlib.Core.Bool.{Bool, true, false, ◌&&◌, ◌||◌}
use mathlib.Core.List.{List, [], ◌∷◌}
use pvn_project.Base.Classes.{Eq}
use pvn_project.Base.Tests.{leb, ◌==◌, ==_iff, if◌then◌else◌, Bool-cases}

unfoldable pub string_eq : List ℕ → List ℕ → Bool
string_eq [] [] = true
string_eq [] (d ∷ ds) = false
string_eq (c ∷ cs) [] = false
string_eq (c ∷ cs) (d ∷ ds) = let rest = string_eq cs ds in c == d && rest

pub string_eq_iff : (cs ds : List ℕ) → (string_eq cs ds ≡ true) ↔ (cs ≡ ds)
unfolding string_eq
string_eq_iff [] [] = (λ h. refl, λ h. refl)
string_eq_iff [] (d ∷ ds) = (λ h. cc, λ h. cc)
string_eq_iff (c ∷ cs) [] = (λ h. cc, λ h. cc)
string_eq_iff (c ∷ cs) (d ∷ ds) = elim (Bool-cases (c == d)) [
  | inl hit ↦ rw hit (
    λ h. ap₂ ◌∷◌ ((==_iff c d).0 hit) ((string_eq_iff cs ds).0 h),
    λ h. (string_eq_iff cs ds).1 (tails h),
  )
  | inr miss ↦ rw miss (λ h. cc, λ h. cc (miss, (==_iff c d).1 (heads h)))
]
  where
    tails : c ∷ cs ≡ d ∷ ds → cs ≡ ds
    tails h = cc

    heads : c ∷ cs ≡ d ∷ ds → c ≡ d
    heads h = cc

instance abbrev pub string_eq_instance : Eq (List ℕ)
string_eq_instance = record { beq = string_eq; beq_iff = string_eq_iff }

-- `str::starts_with`: whether the first string starts with the second.
unfoldable pub starts_with : List ℕ → List ℕ → Bool
starts_with test [] = true
starts_with [] (p ∷ ps) = false
starts_with (t ∷ ts) (p ∷ ps) = let rest = starts_with ts ps in t == p && rest

-- `str::contains`
unfoldable pub contains : List ℕ → List ℕ → Bool
contains [] part = starts_with [] part
contains (c ∷ cs) part = let later = contains cs part in starts_with (c ∷ cs) part || later

-- `str::to_lowercase` on ASCII: for a comparison with a lower-case ASCII string without a `k`, the
-- other characters make no difference.
unfoldable pub to_lowercase : List ℕ → List ℕ
to_lowercase [] = []
to_lowercase (c ∷ cs) = (if leb b'A' c && leb c b'Z' then c + 32 else c) ∷ to_lowercase cs
