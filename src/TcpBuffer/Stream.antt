-- ===== src/TcpBuffer/Stream.antt =====
-- A `TcpBuffer` against the byte stream that its segments are cut from.
use pvn_project.Base.{
  ℕ, suc, ◌+◌, ◌-◌, ◌≤◌, ◌<◌, ◌≡◌, subst, ap, ◌∙◌, inl, inr, Bool-cases, List, [], ◌∷◌, ◌++◌, some,
  ltb, ltb→lt, length, get_elem?, take, drop, length-take, arith, All, append-All, map-All,
  get_elem?-append_left, get_elem?-append_right, get_elem?-append_past, get_elem?-take,
  get_elem?-drop, lt-length_of_get_elem?, prefix, take-eq-prefix,
}
use pvn_project.TcpBuffer.{
  Segment, TcpBuffer, new, process_valid_data, grow, overwrite, store, get_data, shift_segments,
  drain_front,
}
use pvn_project.TcpBuffer.Loop.{retain-All, advance_inv}
use pvn_project.TcpBuffer.Shape.{length-grow}

-- The buffer holds the stream's bytes from `lo` up to `hi`.
abbrev pub Agrees : (ℕ → ℕ) → List ℕ → ℕ → ℕ → Type 0
Agrees stream buf lo hi = (i : ℕ) → lo ≤ i → i < hi → get_elem? buf i ≡ some (stream i)

abbrev pub Covers : (ℕ → ℕ) → List ℕ → Segment → Type 0
Covers stream buf s = Agrees stream buf s.start (s.start + s.len)

-- Bytes marked as good, and bytes that a segment vouches for, are the stream's.
pub record Follows (stream : ℕ → ℕ) (b : TcpBuffer) : Type 0 where
  pub good : Agrees stream b.buf 0 b.valid_data
  pub vouched : All (Covers stream b.buf) b.received_segments

pub process_valid_data-Follows :
    (stream : ℕ → ℕ) (b : TcpBuffer) → Follows stream b → Follows stream (process_valid_data b)
unfolding process_valid_data
process_valid_data-Follows stream b f = record {
  good =
      advance_inv (Agrees stream b.buf 0) (Covers stream b.buf) join
        (suc (length b.received_segments)) b.received_segments b.valid_data f.vouched f.good;
  vouched = retain-All (Covers stream b.buf) _ b.received_segments f.vouched;
}
  where
    join :
        (s : Segment)
        → Covers stream b.buf s
        → Agrees stream b.buf 0 s.start
        → Agrees stream b.buf 0 (s.start + s.len)
    join s c p i lo hi = elim (Bool-cases (ltb i s.start)) [
      | inl e ↦ p i lo (ltb→lt _ _ e)
      | inr e ↦ c i (ground arith) hi
    ]

grow-keeps :
    (n : ℕ) (buf : List ℕ) (i : ℕ) → i < length buf → get_elem? (grow n buf) i ≡ get_elem? buf i
unfolding grow
grow-keeps n buf i h = get_elem?-append_left buf _ i h

module _ (buf : List ℕ) (offset : ℕ) (bytes : List ℕ)
    (room : offset + length bytes ≤ length buf) where
  head_length : length (take offset buf) ≡ offset
  head_length = omega (arith, length-take offset buf)

  overwrite_inside :
      (i : ℕ)
      → i < length bytes
      → get_elem? (overwrite buf offset bytes) (offset + i) ≡ get_elem? bytes i
  unfolding overwrite
  overwrite_inside i h =
      get_elem?-append_past (take offset buf) (bytes ++ drop (offset + length bytes) buf) i
        (offset + i) (omega (arith, head_length))
      ∙ get_elem?-append_left bytes _ i h

  overwrite_before :
      (i : ℕ) → i < offset → get_elem? (overwrite buf offset bytes) i ≡ get_elem? buf i
  unfolding overwrite
  overwrite_before i h =
      get_elem?-append_left (take offset buf) _ i (omega (arith, head_length))
      ∙ get_elem?-take offset buf i h

  overwrite_after :
      (i : ℕ)
      → get_elem? (overwrite buf offset bytes) (offset + (length bytes + i))
        ≡ get_elem? buf (offset + length bytes + i)
  unfolding overwrite
  overwrite_after i =
      get_elem?-append_past (take offset buf) (bytes ++ drop (offset + length bytes) buf)
        (length bytes + i) (offset + (length bytes + i)) (omega (arith, head_length))
      ∙ get_elem?-append_right bytes (drop (offset + length bytes) buf) i
      ∙ get_elem?-drop (offset + length bytes) buf i

  module _ (stream : ℕ → ℕ)
      (carried : (i : ℕ) → i < length bytes → get_elem? bytes i ≡ some (stream (offset + i))) where
    overwrite_written : Agrees stream (overwrite buf offset bytes) offset (offset + length bytes)
    overwrite_written i lo hi =
        subst (λ j. get_elem? (overwrite buf offset bytes) j ≡ some (stream j)) back
          (overwrite_inside (i - offset) inside ∙ carried (i - offset) inside)
      where
        back : offset + (i - offset) ≡ i
        back = omega arith

        inside : i - offset < length bytes
        inside = omega arith

    overwrite_kept :
        (i : ℕ)
        → get_elem? buf i ≡ some (stream i)
        → get_elem? (overwrite buf offset bytes) i ≡ some (stream i)
    overwrite_kept i e = elim (Bool-cases (ltb i offset)) [
      | inl before ↦ overwrite_before i (ltb→lt _ _ before) ∙ e
      | inr later ↦ elim (Bool-cases (ltb i (offset + length bytes))) [
        | inl within ↦ overwrite_written i (ground arith) (ltb→lt _ _ within)
        | inr after ↦
            let k = i - (offset + length bytes) in
            subst (λ j. get_elem? (overwrite buf offset bytes) j ≡ some (stream i))
              (ground (arith, later, after))
              (overwrite_after k ∙ ap (get_elem? buf) (ground (arith, after)) ∙ e)
      ]
    ]

-- Storing bytes of the stream at their place keeps the buffer in line with the stream.
pub store-Follows :
    (stream : ℕ → ℕ) (b : TcpBuffer) (offset : ℕ) (bytes : List ℕ)
    → ((i : ℕ) → i < length bytes → get_elem? bytes i ≡ some (stream (offset + i)))
    → Follows stream b
    → Follows stream (store b offset bytes)
unfolding store
store-Follows stream b offset bytes carried f = process_valid_data-Follows stream _ (record {
  good = λ i lo hi. kept i (f.good i lo hi);
  vouched =
      append-All (Covers stream buf') _ _
        (retain-All (Covers stream buf') _ b.received_segments (
          map-All (Covers stream b.buf) (Covers stream buf') b.received_segments
            (λ s c i lo hi. kept i (c i lo hi)) f.vouched))
        (overwrite_written grown offset bytes room stream carried, tt);
})
  where
    grown : List ℕ
    grown = grow (offset + length bytes) b.buf

    buf' : List ℕ
    buf' = overwrite grown offset bytes

    room : offset + length bytes ≤ length grown
    room = omega (arith, length-grow (offset + length bytes) b.buf)

    kept : (i : ℕ) → get_elem? b.buf i ≡ some (stream i) → get_elem? buf' i ≡ some (stream i)
    kept i e =
        overwrite_kept grown offset bytes room stream carried i
          (grow-keeps (offset + length bytes) b.buf i (lt-length_of_get_elem? b.buf i e) ∙ e)

drop-Agrees :
    (stream : ℕ → ℕ) (buf : List ℕ) (n lo hi : ℕ)
    → n ≤ lo
    → Agrees stream buf lo hi
    → Agrees (λ i. stream (n + i)) (drop n buf) (lo - n) (hi - n)
drop-Agrees stream buf n lo hi le a i h k =
    get_elem?-drop n buf i ∙ a (n + i) (omega arith) (omega arith)

shift_segments-Covers :
    (stream : ℕ → ℕ) (buf : List ℕ) (n : ℕ) (ss : List Segment)
    → All (Covers stream buf) ss
    → All (Covers (λ i. stream (n + i)) (drop n buf)) (shift_segments n ss)
unfolding shift_segments
shift_segments-Covers stream buf n [] h = tt
shift_segments-Covers stream buf n (s ∷ ss) h = elim (Bool-cases (ltb s.start n)) [
  | inl e ↦ rw e (shift_segments-Covers stream buf n ss h.1)
  | inr e ↦ rw e (
    (λ i lo hi.
        drop-Agrees stream buf n s.start (s.start + s.len) (ground arith) h.0 i lo (ground arith)),
    shift_segments-Covers stream buf n ss h.1,
  )
]

-- After a drain the buffer is in line with the rest of the stream.
pub drain_front-Follows :
    (stream : ℕ → ℕ) (b : TcpBuffer) (n : ℕ)
    → Follows stream b
    → Follows (λ i. stream (n + i)) (drain_front b n)
unfolding drain_front
drain_front-Follows stream b n f =
    process_valid_data-Follows (λ i. stream (n + i)) _
      (record {
        good = λ i lo hi. get_elem?-drop n b.buf i ∙ f.good (n + i) (omega arith) (ground arith);
        vouched = shift_segments-Covers stream b.buf n b.received_segments f.vouched;
      })

pub new-Follows : (stream : ℕ → ℕ) (seqno capacity : ℕ) → Follows stream (new seqno capacity)
unfolding new
new-Follows stream seqno capacity = record { good = λ i lo hi. absurd (omega arith); vouched = tt }

-- What a reader sees is the start of the stream.
pub get_data-eq-prefix :
    (stream : ℕ → ℕ) (b : TcpBuffer) → Follows stream b → get_data b ≡ prefix stream b.valid_data
unfolding get_data
get_data-eq-prefix stream b f =
    take-eq-prefix stream b.valid_data b.buf (λ i h. f.good i (omega arith) h)
