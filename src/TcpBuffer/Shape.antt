-- ===== src/TcpBuffer/Shape.antt =====
-- The shape of a `TcpBuffer`: its bounds, kept by every operation.
use pvn_project.Base.{
  ℕ, suc, ◌+◌, ◌-◌, ◌≤◌, ◌<◌, max, ◌≡◌, sym, subst, ◌∙◌, ◌⊎◌, inl, inr, Bool, true, Bool-cases,
  List, [], ◌∷◌, ◌++◌, none, some, ltb, ltb→lt, length, take, drop, replicate, length-append,
  length-take, length-drop, length-replicate, arith, All, append-All, map-All,
}
use pvn_project.Pnet.{Pnet}
use pvn_project.TcpBuffer.{
  Segment, TcpBuffer, new, retain, advance, process_valid_data, offset_of, grow, overwrite, store,
  add_segment, add_packet_data, shift_segments, drain_front, drain,
}
use pvn_project.TcpBuffer.Loop.{retain-All, retain-keeps, advance_inv}

-- A segment of at least one byte, inside a buffer of `n` bytes.
abbrev pub Fits : ℕ → Segment → Type 0
Fits n s = (0 < s.len) × (s.start + s.len ≤ n)

-- Moreover it starts behind the good data.
abbrev pub Waits : ℕ → ℕ → Segment → Type 0
Waits valid n s = (valid < s.start) × Fits n s

pub record IsValid (b : TcpBuffer) : Type 0 where
  pub bounded : b.valid_data ≤ length b.buf
  pub capped : length b.buf ≤ b.max_capacity
  pub waiting : All (Waits b.valid_data (length b.buf)) b.received_segments

All-both {κ κ'} :
    (P : Segment → Type κ) (Q : Segment → Type κ') (ss : List Segment)
    → All P ss
    → All Q ss
    → All (λ s. P s × Q s) ss
All-both P Q [] h k = tt
All-both P Q (s ∷ ss) h k = ((h.0, k.0), All-both P Q ss h.1 k.1)

pub process_valid_data-IsValid :
    (b : TcpBuffer)
    → b.valid_data ≤ length b.buf
    → length b.buf ≤ b.max_capacity
    → All (Fits (length b.buf)) b.received_segments
    → IsValid (process_valid_data b)
unfolding process_valid_data
process_valid_data-IsValid b h c fits =
    let v = advance (suc (length b.received_segments)) b.received_segments b.valid_data in
    let keep : Segment → Bool = λ s. ltb v s.start in
    record {
      bounded =
          advance_inv (λ n. n ≤ length b.buf) (Fits (length b.buf)) (λ s f p. f.1) _ _ _ fits h;
      capped = c;
      waiting =
          map-All (λ s. (keep s ≡ true) × Fits (length b.buf) s) (Waits v (length b.buf)) _
            (λ s f. (ltb→lt v s.start f.0, f.1))
            (All-both (λ s. keep s ≡ true) (Fits (length b.buf)) (retain keep b.received_segments)
              (retain-keeps keep b.received_segments) (retain-All _ keep _ fits));
    }

pub new-IsValid : (seqno capacity : ℕ) → IsValid (new seqno capacity)
unfolding new
new-IsValid seqno capacity = record { bounded = omega arith; capped = omega arith; waiting = tt }

pub length-grow : (n : ℕ) (buf : List ℕ) → length (grow n buf) ≡ max (length buf) n
unfolding grow
length-grow n buf = omega (
  arith,
  length-append buf (replicate (n - length buf) 0),
  length-replicate {A = ℕ} (n - length buf) 0,
)

pub length-overwrite :
    (buf : List ℕ) (offset : ℕ) (bytes : List ℕ)
    → offset + length bytes ≤ length buf
    → length (overwrite buf offset bytes) ≡ length buf
unfolding overwrite
length-overwrite buf offset bytes h = omega (
  arith,
  length-append (take offset buf) (bytes ++ drop (offset + length bytes) buf),
  length-append bytes (drop (offset + length bytes) buf),
  length-take offset buf,
  length-drop (offset + length bytes) buf,
)

-- The length of the buffer that `store` leaves.
pub length-stored :
    (buf : List ℕ) (offset : ℕ) (bytes : List ℕ)
    → length (overwrite (grow (offset + length bytes) buf) offset bytes)
      ≡ max (length buf) (offset + length bytes)
length-stored buf offset bytes =
    length-overwrite _ offset bytes (omega (arith, length-grow (offset + length bytes) buf))
    ∙ length-grow (offset + length bytes) buf

widen : (v m n : ℕ) (ss : List Segment) → m ≤ n → All (Waits v m) ss → All (Fits n) ss
widen v m n ss h = map-All (Waits v m) (Fits n) ss (λ s w. (w.1.0, omega arith))

pub store-IsValid :
    {b : TcpBuffer} (offset : ℕ) (bytes : List ℕ)
    → 0 < length bytes
    → offset + length bytes ≤ b.max_capacity
    → IsValid b
    → IsValid (store b offset bytes)
unfolding store
store-IsValid {b} offset bytes pos fits v =
    process_valid_data-IsValid _ (omega (arith, n_eq, v.bounded)) (omega (arith, n_eq, v.capped)) (
      append-All (Fits n) _ _
        (retain-All (Fits n) _ _
          (widen b.valid_data (length b.buf) n _ (omega (arith, n_eq)) v.waiting))
        ((pos, omega (arith, n_eq)), tt))
  where
    n : ℕ
    n = length (overwrite (grow (offset + length bytes) b.buf) offset bytes)

    n_eq : n ≡ max (length b.buf) (offset + length bytes)
    n_eq = length-stored b.buf offset bytes

pub add_segment-IsValid :
    {b : TcpBuffer} (seqno : ℕ) (bytes : List ℕ)
    → 0 < length bytes
    → IsValid b
    → IsValid (add_segment b seqno bytes)
unfolding add_segment
add_segment-IsValid {b} seqno bytes pos v = ground (
  arith,
  store-IsValid {b = b} (offset_of b.initial_seqno seqno) bytes,
  store-IsValid {b = b} (offset_of b.initial_seqno seqno)
      (take (b.max_capacity - offset_of b.initial_seqno seqno) bytes),
  length-take (b.max_capacity - offset_of b.initial_seqno seqno) bytes,
)

-- A packet keeps the bounds, whatever its sequence number and payload.
pub add_packet_data-IsValid :
    {P : Type 0} (net : Pnet P) (b : TcpBuffer) (packet : P)
    → IsValid b
    → IsValid (add_packet_data net b packet)
unfolding add_packet_data
add_packet_data-IsValid net b packet v =
    ground (arith, add_segment-IsValid {b = b} (net.header packet).sequence (net.payload packet))

shift_segments-Fits :
    (n m : ℕ) (ss : List Segment) → All (Fits m) ss → All (Fits (m - n)) (shift_segments n ss)
unfolding shift_segments
shift_segments-Fits n m [] h = tt
shift_segments-Fits n m (s ∷ ss) h = ground (arith, shift_segments-Fits n m ss h.1)

pub drain_front-IsValid :
    (b : TcpBuffer) (n : ℕ) → n ≤ length b.buf → IsValid b → IsValid (drain_front b n)
unfolding drain_front
drain_front-IsValid b n h v =
    process_valid_data-IsValid _ (ground (arith, shorter)) (omega (arith, shorter, v.capped)) (
      subst (λ m. All (Fits m) (shift_segments n b.received_segments)) (sym shorter)
        (shift_segments-Fits n (length b.buf) _
          (widen b.valid_data (length b.buf) (length b.buf) _ (omega arith) v.waiting)))
  where
    shorter : length (drop n b.buf) ≡ length b.buf - n
    shorter = length-drop n b.buf

-- `drain` succeeds and keeps the bounds where it is asked for no more bytes than are buffered, and
-- panics where it is asked for more.
pub drain-IsValid :
    (b : TcpBuffer) (n : ℕ)
    → IsValid b
    → ((length b.buf < n) × (drain b n ≡ none))
      ⊎ ((n ≤ length b.buf) × (drain b n ≡ some (drain_front b n)) × IsValid (drain_front b n))
unfolding drain
drain-IsValid b n v = elim (Bool-cases (ltb (length b.buf) n)) [
  | inl e ↦ inl (ltb→lt _ _ e, rw e)
  | inr e ↦ let h : n ≤ length b.buf = ground arith in inr (h, rw e, drain_front-IsValid b n h v)
]
