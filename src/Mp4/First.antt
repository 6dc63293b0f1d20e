-- ===== src/Mp4/First.antt =====
-- Which atom the search finds, in a buffer that is laid out as atoms.
use pvn_project.Base.{
  ℕ, ◌≡◌, ◌≢◌, ◌⊎◌, if◌then◌else◌, subst, refl, sym, ap, ◌∙◌, inl, inr, true, false, Bool-cases,
  ==_iff, ◌==◌, List, [], ◌∷◌, ◌++◌, append_assoc, Option, none, some, All,
}
use pvn_project.Mp4.{Header, AtomDescription, done, extract_from, find_atom}
use pvn_project.Mp4.Search.{HeaderLaws, Fits, layout, box, find_atom-At, find_atom-missing}
use pvn_project.Mp4.Cut.{extract_from-At}

-- The body of the first atom of the kind.
unfoldable pub first_body : ℕ → List (ℕ × List ℕ) → Option (List ℕ)
first_body atom [] = none
first_body atom ((kind, body) ∷ atoms) = if kind == atom then some body else first_body atom atoms

-- Where the first atom of the kind stands.
abbrev Split : ℕ → List (ℕ × List ℕ) → Type 0
Split atom atoms =
    (before : List (ℕ × List ℕ)) × (body : List ℕ) × (after : List (ℕ × List ℕ)) × (atoms
      ≡ before ++ ((atom, body) ∷ after))
    × All (λ a. a.0 ≢ atom) before
    × All Fits before
    × Fits (atom, body)
    × (first_body atom atoms ≡ some body)

split :
    (atom : ℕ) (atoms : List (ℕ × List ℕ))
    → All Fits atoms
    → (All (λ a. a.0 ≢ atom) atoms × (first_body atom atoms ≡ none)) ⊎ Split atom atoms
unfolding first_body
split atom [] fits = inl (tt, refl)
split atom ((kind, body) ∷ atoms) fits = elim (Bool-cases (kind == atom)) [
  | inl same ↦ inr (here ((==_iff kind atom).0 same) same)
  | inr other ↦ elim (split atom atoms fits.1) [
    | inl (others, missing) ↦ inl ((differs other, others), rw (other, first_body) missing)
    | inr (before, found, after, parts, others, small, fit, first) ↦ inr (
      (kind, body) ∷ before,
      found,
      after,
      ap (λ r. (kind, body) ∷ r) parts,
      (differs other, others),
      (fits.0, small),
      fit,
      rw (other, first_body) first,
    )
  ]
]
  where
    differs : (kind == atom) ≡ false → kind ≢ atom
    differs other e = no (sym other ∙ (==_iff kind atom).1 e)
      where
        no : false ≡ true → ⊥
        no x = cc

    here : kind ≡ atom → (kind == atom) ≡ true → Split atom ((kind, body) ∷ atoms)
    here e same = (
      [],
      body,
      atoms,
      ap (λ k. (k, body) ∷ atoms) e,
      tt,
      tt,
      subst (λ k. Fits (k, body)) e fits.0,
      rw (same, first_body) refl,
    )

module _ (read_from : List ℕ → Option Header) (header_bytes : ℕ → ℕ → List ℕ)
    (laws : HeaderLaws read_from header_bytes) where
  layout-append :
      (before after : List (ℕ × List ℕ))
      → layout read_from header_bytes laws (before ++ after)
        ≡ layout read_from header_bytes laws before ++ layout read_from header_bytes laws after
  layout-append [] after = refl
  layout-append (a ∷ before) after =
      rw (layout-append before after) (sym (append_assoc (box read_from header_bytes laws a) _ _))

  -- In a buffer that is laid out as atoms, each with a header that has room for its kind and its
  -- size: where there is an atom of the kind, the search describes the first one, and what the
  -- description cuts out of the buffer is that atom's body; else it finds nothing.
  find_atom-layout :
      (atoms : List (ℕ × List ℕ)) (atom : ℕ)
      → All Fits atoms
      → let buffer = layout read_from header_bytes laws atoms in
        ((first_body atom atoms ≡ none) × (find_atom read_from buffer atom ≡ none))
        ⊎ ((body : List ℕ) × (d : AtomDescription) × (first_body atom atoms ≡ some body)
            × (find_atom read_from buffer atom ≡ some d)
            × (extract_from d buffer ≡ done (some body)))
  find_atom-layout atoms atom fits = elim (split atom atoms fits) [
    | inl (others, missing) ↦
        inl (missing, find_atom-missing read_from header_bytes laws atoms atom fits others)
    | inr (before, body, after, parts, others, small, fit, first) ↦
        let (d, found, at) =
          find_atom-At read_from header_bytes laws before atom body
            (layout read_from header_bytes laws after) small others fit in
        let same =
          ap (layout read_from header_bytes laws) parts
          ∙ layout-append before ((atom, body) ∷ after) in
        inr (body, d, first, rw same found, rw same (extract_from-At _ _ _ d body at))
  ]
