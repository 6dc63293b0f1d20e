-- ===== src/Mp4/Search.antt =====
-- The search for atoms in a buffer that is laid out atoms atoms, one behind the other.
use pvn_project.Base.{
  ℕ, zero, suc, ◌%◌, ◌+◌, ◌<◌, ◌≤◌, ◌≡◌, ◌≢◌, refl, sym, ap, ◌∙◌, inl, inr, true, false, ==_iff,
  ◌==◌, Bool-cases, List, [], ◌∷◌, ◌++◌, append_assoc, Option, none, some, leb, length,
  length-append, drop, drop-append, drop-drop, length-drop, arith, u32_mod, All,
}
use pvn_project.Mp4.{Header, AtomDescription, usize_mod, as_usize, describe, search_atom, find_atom}

-- `header_bytes` writes the eight bytes of a header, and `read_from` reads them, whatever follows.
pub record HeaderLaws (read_from : List ℕ → Option Header) (header_bytes : ℕ → ℕ → List ℕ)
    : Type 0 where
  pub length-header_bytes : (kind size : ℕ) → length (header_bytes kind size) ≡ 8
  pub read_from-header_bytes :
      (kind size : ℕ) (rest : List ℕ)
      → kind < u32_mod
      → size + 8 < u32_mod
      → read_from (header_bytes kind size ++ rest) ≡ some (record { kind = kind; size = some size })

-- The kind and the body have room in a header.
abbrev pub Fits : ℕ × List ℕ → Type 0
Fits (kind, body) = (kind < u32_mod) × (length body + 8 < u32_mod)

-- In memory, this is the wrap-around.
as_usize_lem :
    (buffer : List ℕ) (n : ℕ) → length buffer < usize_mod → as_usize buffer n ≡ n % usize_mod
unfolding as_usize
as_usize_lem buffer n h = elim (Bool-cases (leb n (length buffer))) [
  | inl near ↦ rw near (small n (leb_le n (length buffer) near) h)
  | inr far ↦ rw far refl
]
  where
    leb_le : (a b : ℕ) → leb a b ≡ true → a ≤ b
    leb_le a b h = ground (arith, h)

    small : (n : ℕ) → n ≤ length buffer → length buffer < usize_mod → n ≡ n % usize_mod
    small n near h = omega arith

pub as_usize_within : (buffer : List ℕ) (n : ℕ) → n ≤ length buffer → as_usize buffer n ≡ n
unfolding as_usize
as_usize_within buffer n near = rw within refl
  where
    within : leb n (length buffer) ≡ true
    within = ground arith

-- The bytes before and behind `body`, and the description that names its place.
pub record At (before after buffer : List ℕ) (d : AtomDescription) (body : List ℕ) : Type 0 where
  pub parts : buffer ≡ before ++ (body ++ after)
  pub starts : d.start ≡ length before
  pub ends : d.end ≡ length before + length body

module _ (read_from : List ℕ → Option Header) (header_bytes : ℕ → ℕ → List ℕ)
    (laws : HeaderLaws read_from header_bytes) where
  abbrev pub box : ℕ × List ℕ → List ℕ
  box (kind, body) = header_bytes kind (length body) ++ body

  abbrev pub layout : List (ℕ × List ℕ) → List ℕ
  layout [] = []
  layout (a ∷ atoms) = box a ++ layout atoms

  length-box : (kind : ℕ) (body : List ℕ) → length (box (kind, body)) ≡ length body + 8
  length-box kind body = omega (
    arith,
    length-append (header_bytes kind (length body)) body,
    laws.length-header_bytes kind (length body),
  )

  read_from-box :
      (kind : ℕ) (body rest : List ℕ)
      → Fits (kind, body)
      → read_from (box (kind, body) ++ rest)
        ≡ some (record { kind = kind; size = some (length body) })
  read_from-box kind body rest fits =
      rw (append_assoc (header_bytes kind (length body)) body rest)
        (laws.read_from-header_bytes kind (length body) (body ++ rest) fits.0 fits.1)

  behind :
      (buffer : List ℕ) (offset kind : ℕ) (body rest : List ℕ)
      → drop offset buffer ≡ box (kind, body) ++ rest
      → drop (offset + (length body + 8)) buffer ≡ rest
  behind buffer offset kind body rest e =
      sym (drop-drop (length body + 8) offset buffer)
      ∙ rw (e, sym (length-box kind body)) (drop-append (box (kind, body)) rest)

  inside :
      (buffer : List ℕ) (offset kind : ℕ) (body rest : List ℕ)
      → drop offset buffer ≡ box (kind, body) ++ rest
      → leb (length buffer) offset ≡ false
  inside buffer offset kind body rest e = ground (arith, size, length-drop offset buffer)
    where
      size : length (drop offset buffer) ≡ length body + 8 + length rest
      size =
          ap length e ∙ omega (arith, length-append (box (kind, body)) rest, length-box kind body)

  -- The end of an atom that is there does not wrap around.
  next :
      (buffer : List ℕ) (offset kind : ℕ) (body rest : List ℕ)
      → drop offset buffer ≡ box (kind, body) ++ rest
      → as_usize buffer (offset + (length body + 8)) ≡ offset + (length body + 8)
  next buffer offset kind body rest e =
      as_usize_within buffer _ (omega (arith, size, length-drop offset buffer))
    where
      size : length (drop offset buffer) ≡ length body + 8 + length rest
      size =
          ap length e ∙ omega (arith, length-append (box (kind, body)) rest, length-box kind body)

  differs : (kind atom : ℕ) → kind ≢ atom → (kind == atom) ≡ false
  differs kind atom other = elim (Bool-cases (kind == atom)) [
    | inl same ↦ absurd (other ((==_iff kind atom).0 same))
    | inr e ↦ e
  ]

  -- The loop passes over the atoms of other kinds.
  search_atom-found :
      (fuel : ℕ) (buffer : List ℕ) (atom offset : ℕ) (atoms : List (ℕ × List ℕ))
      (body rest : List ℕ)
      → drop offset buffer ≡ layout atoms ++ (box (atom, body) ++ rest)
      → All Fits atoms
      → All (λ a. a.0 ≢ atom) atoms
      → Fits (atom, body)
      → length atoms < fuel
      → search_atom read_from fuel buffer atom offset
        ≡ some (
            describe buffer
              (offset + length (layout atoms))
              (record { kind = atom; size = some (length body) }))
  unfolding search_atom
  search_atom-found zero buffer atom offset atoms body rest e fits others fit enough =
      absurd (omega arith)
  search_atom-found (suc fuel) buffer atom offset [] body rest e fits others fit enough =
      rw (inside buffer offset atom body rest e, e, read_from-box atom body rest fit, same)
        (ap (λ o. some (describe buffer o (record { kind = atom; size = some (length body) })))
          (omega arith))
    where
      same : (atom == atom) ≡ true
      same = (==_iff atom atom).1 refl
  search_atom-found (suc fuel) buffer atom offset ((kind, inner) ∷ atoms) body rest e fits others
        fit enough =
      rw
        (
          inside buffer offset kind inner tail cut,
          cut,
          read_from-box kind inner tail fits.0,
          differs kind atom others.0,
          next buffer offset kind inner tail cut,
        )
        (search_atom-found fuel buffer atom (offset + (length inner + 8)) atoms body rest
            (behind buffer offset kind inner tail cut) fits.1 others.1 fit (omega arith)
          ∙ ap (λ o. some (describe buffer o (record { kind = atom; size = some (length body) })))
              there)
    where
      tail : List ℕ
      tail = layout atoms ++ (box (atom, body) ++ rest)

      cut : drop offset buffer ≡ box (kind, inner) ++ tail
      cut = e ∙ append_assoc (box (kind, inner)) (layout atoms) (box (atom, body) ++ rest)

      there :
          offset + (length inner + 8) + length (layout atoms)
          ≡ offset + length (box (kind, inner) ++ layout atoms)
      there = omega (arith, length-append (box (kind, inner)) (layout atoms), length-box kind inner)

  search_atom-missing :
      (fuel : ℕ) (buffer : List ℕ) (atom offset : ℕ) (atoms : List (ℕ × List ℕ))
      → drop offset buffer ≡ layout atoms
      → All Fits atoms
      → All (λ a. a.0 ≢ atom) atoms
      → search_atom read_from fuel buffer atom offset ≡ none
  unfolding search_atom
  search_atom-missing zero buffer atom offset atoms e fits others = refl
  search_atom-missing (suc fuel) buffer atom offset [] e fits others = rw ended refl
    where
      ended : leb (length buffer) offset ≡ true
      ended = ground (arith, ap length e, length-drop offset buffer)
  search_atom-missing (suc fuel) buffer atom offset ((kind, inner) ∷ atoms) e fits others =
      rw
        (
          inside buffer offset kind inner (layout atoms) e,
          e,
          read_from-box kind inner (layout atoms) fits.0,
          differs kind atom others.0,
          next buffer offset kind inner (layout atoms) e,
        )
        (search_atom-missing fuel buffer atom (offset + (length inner + 8)) atoms
          (behind buffer offset kind inner (layout atoms) e) fits.1 others.1)

  length-layout : (atoms : List (ℕ × List ℕ)) → length atoms ≤ length (layout atoms)
  length-layout [] = omega arith
  length-layout ((kind, body) ∷ atoms) = omega (
    arith,
    length-append (box (kind, body)) (layout atoms),
    length-box kind body,
    length-layout atoms,
  )

  enough_fuel :
      (atoms : List (ℕ × List ℕ)) (kind : ℕ) (body rest : List ℕ)
      → length atoms < length (layout atoms ++ (box (kind, body) ++ rest))
  enough_fuel atoms kind body rest = omega (
    arith,
    length-append (layout atoms) (box (kind, body) ++ rest),
    length-append (box (kind, body)) rest,
    length-box kind body,
    length-layout atoms,
  )

  -- The header that is found has the size of the body.
  pub find_atom-header :
      (atoms : List (ℕ × List ℕ)) (atom : ℕ) (body rest : List ℕ) {d : AtomDescription}
      → All Fits atoms
      → All (λ a. a.0 ≢ atom) atoms
      → Fits (atom, body)
      → find_atom read_from (layout atoms ++ (box (atom, body) ++ rest)) atom ≡ some d
      → d.header ≡ record { kind = atom; size = some (length body) }
  unfolding find_atom describe
  find_atom-header atoms atom body rest {d} fits others fit found = only (
      sym found
      ∙ search_atom-found (length buffer) buffer atom 0 atoms body rest refl fits others fit
          (enough_fuel atoms atom body rest))
    where
      buffer : List ℕ
      buffer = layout atoms ++ (box (atom, body) ++ rest)

      only : {e : AtomDescription} → some d ≡ some e → d.header ≡ e.header
      only x = cc

  -- The first atom of a kind is found, behind any atoms of other kinds and whatever follows it.
  pub find_atom-At :
      (atoms : List (ℕ × List ℕ)) (atom : ℕ) (body rest : List ℕ)
      → All Fits atoms
      → All (λ a. a.0 ≢ atom) atoms
      → Fits (atom, body)
      → (d : AtomDescription) × (find_atom read_from
            (layout atoms ++ (box (atom, body) ++ rest))
            atom
          ≡ some d)
        × At
            (layout atoms ++ header_bytes atom (length body))
            rest
            (layout atoms ++ (box (atom, body) ++ rest))
            d
            body
  unfolding find_atom describe
  find_atom-At atoms atom body rest fits others fit = (
    _,
    search_atom-found (length buffer) buffer atom 0 atoms body rest refl fits others fit
        (enough_fuel atoms atom body rest),
    record {
      parts =
          ap (λ r. layout atoms ++ r) (append_assoc (header_bytes atom (length body)) body rest)
          ∙ sym (append_assoc (layout atoms) (header_bytes atom (length body)) (body ++ rest));
      starts = omega (
        arith,
        length-append (layout atoms) (header_bytes atom (length body)),
        laws.length-header_bytes atom (length body),
      );
      ends =
          as_usize_within buffer _ reaches
          ∙ omega (
            arith,
            length-append (layout atoms) (header_bytes atom (length body)),
            laws.length-header_bytes atom (length body),
          );
    },
  )
    where
      buffer : List ℕ
      buffer = layout atoms ++ (box (atom, body) ++ rest)

      reaches : 0 + length (layout atoms) + 8 + length body ≤ length buffer
      reaches = omega (
        arith,
        length-append (layout atoms) (box (atom, body) ++ rest),
        length-append (box (atom, body)) rest,
        length-box atom body,
      )

module _ (read_from : List ℕ → Option Header) (header_bytes : ℕ → ℕ → List ℕ)
    (laws : HeaderLaws read_from header_bytes) where
  pub find_atom-missing :
      (atoms : List (ℕ × List ℕ)) (atom : ℕ)
      → All Fits atoms
      → All (λ a. a.0 ≢ atom) atoms
      → find_atom read_from (layout read_from header_bytes laws atoms) atom ≡ none
  unfolding find_atom
  find_atom-missing atoms atom fits others =
      search_atom-missing read_from header_bytes laws _ _ atom 0 atoms refl fits others
