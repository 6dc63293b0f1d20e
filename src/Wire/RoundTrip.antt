-- ===== src/Wire/RoundTrip.antt =====
-- What is framed on one end of a stream is read on the other.
use pvn_project.Base.{
  take-append, drop-append, ℕ, zero, suc, ◌+◌, ◌%◌, ◌≤◌, ◌<◌, ◌≡◌, refl, sym, ap, ◌∙◌, inl, inr,
  false, Bool-cases, List, [], ◌∷◌, ◌++◌, append_assoc, append-nil, Option, none, some, ◌>>=◌,
  length, take, drop, length-drop, length-append, ltb, ltb→lt, lt→ltb, arith, u32_mod, All,
}
use pvn_project.Wire.{to_le_bytes, from_le_bytes, read_exact, serialize_to, extract_from}

pub from_le_bytes-to_le_bytes : (n : ℕ) → n < u32_mod → from_le_bytes (to_le_bytes n) ≡ n
unfolding to_le_bytes from_le_bytes
from_le_bytes-to_le_bytes n h = omega arith

read_exact-append : (xs ys : List ℕ) → read_exact (length xs) (xs ++ ys) ≡ some (xs, ys)
unfolding read_exact
read_exact-append xs ys = elim (Bool-cases (ltb (length (xs ++ ys)) (length xs))) [
  | inl short ↦ absurd (omega (arith, ltb→lt _ _ short, length-append xs ys))
  | inr enough ↦ rw (enough, take-append xs ys, drop-append xs ys)
]

read_exact_short : (n : ℕ) (xs : List ℕ) → length xs < n → read_exact n xs ≡ none
unfolding read_exact
read_exact_short n xs h = rw (lt→ltb _ _ h)

-- The bytes of one frame.
unfoldable pub frame : List ℕ → List ℕ
frame bytes = to_le_bytes (length bytes) ++ bytes

prefix_read :
    (bytes rest : List ℕ)
    → read_exact 4 (frame bytes ++ rest) ≡ some (to_le_bytes (length bytes), bytes ++ rest)
unfolding frame
prefix_read bytes rest =
    rw (append_assoc (to_le_bytes (length bytes)) bytes rest)
      (unfold to_le_bytes in read_exact-append (to_le_bytes (length bytes)) (bytes ++ rest))

take_four : (xs ys : List ℕ) → 4 ≤ length xs → take 4 (xs ++ ys) ≡ take 4 xs
take_four (a ∷ b ∷ c ∷ d ∷ xs) ys h = refl
take_four [] ys h = absurd (omega arith)
take_four (a ∷ []) ys h = absurd (omega arith)
take_four (a ∷ b ∷ []) ys h = absurd (omega arith)
take_four (a ∷ b ∷ c ∷ []) ys h = absurd (omega arith)

-- The length is read from a cut frame, if its bytes are there.
head_of_part :
    (part bytes missing : List ℕ)
    → part ++ missing ≡ frame bytes
    → 4 ≤ length part
    → read_exact 4 part ≡ some (to_le_bytes (length bytes), drop 4 part)
unfolding read_exact
head_of_part part bytes missing e long = rw enough (ap (λ (h : List ℕ). some (h, drop 4 part)) head)
  where
    enough : ltb (length part) 4 ≡ false
    enough = ground arith

    head : take 4 part ≡ to_le_bytes (length bytes)
    head = sym (take_four part missing long) ∙ ap (take 4) e ∙ unfold frame to_le_bytes in refl

module _ {A : Type 0} (encode_to_vec : A → Option (List ℕ)) where
  pub serialize_to-frame :
      (item : A) (bytes writer : List ℕ)
      → encode_to_vec item ≡ some bytes
      → length bytes < u32_mod
      → serialize_to encode_to_vec item writer ≡ some (writer ++ frame bytes)
  unfolding serialize_to frame
  serialize_to-frame item bytes writer e h =
      rw (e, mod_eq) (ap some (append_assoc writer (to_le_bytes (length bytes)) bytes))
    where
      mod_eq : length bytes % u32_mod ≡ length bytes
      mod_eq = omega arith

module _ {A : Type 0} (encode_to_vec : A → Option (List ℕ))
    (decode_from_slice : List ℕ → Option (A × ℕ)) where
  pub extract_from-frame :
      (item : A) (bytes rest : List ℕ) (used : ℕ)
      → length bytes < u32_mod
      → decode_from_slice bytes ≡ some (item, used)
      → extract_from decode_from_slice (frame bytes ++ rest) ≡ some (item, rest)
  unfolding extract_from
  extract_from-frame item bytes rest used h d = rw (
    prefix_read bytes rest,
    from_le_bytes-to_le_bytes (length bytes) h,
    read_exact-append bytes rest,
    d,
  )

  -- Round trip: what is serialized to a writer is, behind what was written before, extracted
  -- again by a reader at that place, and the reader is then behind it. The value must have an
  -- encoding of less than 2^32 bytes that the decoder takes back.
  pub extract_from-serialize_to :
      (item : A) (bytes writer rest : List ℕ) (used : ℕ)
      → encode_to_vec item ≡ some bytes
      → decode_from_slice bytes ≡ some (item, used)
      → length bytes < u32_mod
      → (written : List ℕ) × (serialize_to encode_to_vec item writer ≡ some (writer ++ written))
        × (extract_from decode_from_slice (written ++ rest) ≡ some (item, rest))
  extract_from-serialize_to item bytes writer rest used e d h = (
    frame bytes,
    serialize_to-frame encode_to_vec item bytes writer e h,
    extract_from-frame item bytes rest used h d,
  )

  -- A frame that is cut off anywhere gives an error, and never a value.
  pub extract_from_cut :
      (bytes part missing : List ℕ)
      → part ++ missing ≡ frame bytes
      → 0 < length missing
      → length bytes < u32_mod
      → extract_from decode_from_slice part ≡ none
  unfolding extract_from
  extract_from_cut bytes part missing e more h = elim (Bool-cases (ltb (length part) 4)) [
    | inl short ↦ rw (read_exact_short 4 part (ltb→lt _ _ short))
    | inr long ↦
        let four : 4 ≤ length part = ground arith in
        rw (
          head_of_part part bytes missing e four,
          from_le_bytes-to_le_bytes (length bytes) h,
          read_exact_short (length bytes) (drop 4 part) (omega (arith, length-drop 4 part, size)),
        )
  ]
    where
      size : length part + length missing ≡ 4 + length bytes
      size =
          sym (length-append part missing) ∙ ap length e ∙ unfold frame to_le_bytes in omega arith

  pub extract_from_short :
      (reader : List ℕ) → length reader < 4 → extract_from decode_from_slice reader ≡ none
  unfolding extract_from
  extract_from_short reader h = rw (read_exact_short 4 reader h)

  -- Any number of messages, each with such an encoding, come out of the stream as they went in.
  unfoldable pub serialize_all : List A → List ℕ → Option (List ℕ)
  serialize_all [] writer = some writer
  serialize_all (x ∷ xs) writer = serialize_to encode_to_vec x writer >>= serialize_all xs

  pub extract_all : ℕ → List ℕ → Option (List A × List ℕ)
  extract_all zero reader = some ([], reader)
  extract_all (suc n) reader = do
    (x, reader') ← extract_from decode_from_slice reader
    (xs, reader'') ← extract_all n reader'
    some (x ∷ xs, reader'')

  abbrev pub Travels : A → Type 0
  Travels x =
      (bytes : List ℕ) × (used : ℕ) × (encode_to_vec x ≡ some bytes)
      × (decode_from_slice bytes ≡ some (x, used))
      × (length bytes < u32_mod)

  -- Round trip: values whose encodings decode to them and are shorter than 2^32 bytes, written one
  -- after the other behind whatever was written before, are read back in their order, and what
  -- follows them stays unread.
  pub extract_all-serialize_all :
      (xs : List A) (writer rest : List ℕ)
      → All Travels xs
      → (written : List ℕ) × (serialize_all xs writer ≡ some (writer ++ written))
        × (extract_all (length xs) (written ++ rest) ≡ some (xs, rest))
  unfolding serialize_all extract_all
  extract_all-serialize_all [] writer rest t = ([], ap some (sym (append-nil writer)), refl)
  extract_all-serialize_all (x ∷ xs) writer rest t =
      let (bytes, used, e, d, h) = t.0 in
      let (written, w, r) = extract_all-serialize_all xs (writer ++ frame bytes) rest t.1 in
      (
        frame bytes ++ written,
        rw (serialize_to-frame encode_to_vec x bytes writer e h, w)
            (ap some (append_assoc writer (frame bytes) written)),
        rw (append_assoc, extract_from-frame x bytes (written ++ rest) used h d, r),
      )
