-- ===== src/Wire/Headers.antt =====
-- What `Response::convert` makes of a header map with several values for a name.
use pvn_project.Base.{
  ◌≡◌, refl, sym, ap, ◌∙◌, inl, inr, List, [], ◌∷◌, Option, none, some, Option-cases, if◌then◌else◌,
  Eq, lookup, insert, lookup-insert,
}
use pvn_project.Wire.{convert_entry, convert_headers}

module _ {K V S : Type 0} ⦃e : Eq K⦄ (to_str : V → Option S) where
  -- The text of the last entry that belongs to the name, else what was known of it before. An
  -- entry without a name belongs to the name before it.
  unfoldable pub last_text : K → List (Option K × V) → Option K → Option S → Option S
  last_text k [] current known = known
  last_text k ((some key, value) ∷ entries) current known =
      last_text k entries (some key) (if e.beq key k then to_str value else known)
  last_text k ((none, value) ∷ entries) none known = last_text k entries none known
  last_text k ((none, value) ∷ entries) (some key) known =
      last_text k entries (some key) (if e.beq key k then to_str value else known)

  convert_entry-lookup :
      (k key : K) (value : V) (headers headers' : List (K × S))
      → convert_entry to_str (some key) value headers ≡ some headers'
      → lookup k headers' ≡ (if e.beq key k then to_str value else lookup k headers)
  unfolding convert_entry
  convert_entry-lookup k key value headers headers' h = elim (Option-cases (to_str value)) [
    | inl bad ↦ absurd (panics (rw bad at h))
    | inr (text, good) ↦
        ap (lookup k) (sym (inserted text (rw good at h)))
        ∙ lookup-insert key k text headers
        ∙ rw good
  ]
    where
      panics : ◌≡◌ {A = Option (List (K × S))} none (some headers') → ⊥
      panics x = cc

      inserted :
          (text : S)
          → some (insert key text headers) ≡ some headers'
          → insert key text headers ≡ headers'
      inserted text x = cc

  nameless :
      (value : V) (entries : List (Option K × V)) (headers : List (K × S))
      → convert_headers to_str ((none, value) ∷ entries) none headers ≡ none
  unfolding convert_headers convert_entry
  nameless value entries headers = refl

  -- Where the conversion does not panic, each name has the text of its last value: of several
  -- values of one name all but the last are lost.
  convert_headers-last_text :
      (k : K) (entries : List (Option K × V)) (current : Option K) (headers : List (K × S))
      {result : List (K × S)}
      → convert_headers to_str entries current headers ≡ some result
      → lookup k result ≡ last_text k entries current (lookup k headers)
  unfolding convert_headers last_text
  convert_headers-last_text k [] current headers {result} h = ap (lookup k) (same h)
    where
      same : some headers ≡ some result → result ≡ headers
      same x = cc
  convert_headers-last_text k ((some key, value) ∷ entries) current headers {result} h =
      elim (Option-cases (convert_entry to_str (some key) value headers)) [
        | inl bad ↦ absurd (panics (rw bad at h))
        | inr (next, good) ↦
            convert_headers-last_text k entries (some key) next (rw good at h)
            ∙ ap (last_text k entries (some key))
                (convert_entry-lookup k key value headers next good)
      ]
    where
      panics : ◌≡◌ {A = Option (List (K × S))} none (some result) → ⊥
      panics x = cc
  convert_headers-last_text k ((none, value) ∷ entries) none headers {result} h =
      absurd (panics (sym (nameless value entries headers) ∙ h))
    where
      panics : ◌≡◌ {A = Option (List (K × S))} none (some result) → ⊥
      panics x = cc
  convert_headers-last_text k ((none, value) ∷ entries) (some key) headers {result} h =
      elim (Option-cases (convert_entry to_str (some key) value headers)) [
        | inl bad ↦ absurd (panics (rw bad at h))
        | inr (next, good) ↦
            convert_headers-last_text k entries (some key) next (rw good at h)
            ∙ ap (last_text k entries (some key))
                (convert_entry-lookup k key value headers next good)
      ]
    where
      panics : ◌≡◌ {A = Option (List (K × S))} none (some result) → ⊥
      panics x = cc
