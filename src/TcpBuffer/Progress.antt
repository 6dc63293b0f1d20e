-- ===== src/TcpBuffer/Progress.antt =====
-- The progress that a packet makes that comes in order.
use pvn_project.Base.{
  ℕ, suc, ◌+◌, ◌-◌, ◌≤◌, ◌<◌, min, ◌≡◌, refl, List, [], ◌∷◌, ◌++◌, some, length, take, length-take,
  arith, All,
}
use pvn_project.Pnet.{Pnet}
use pvn_project.TcpBuffer.{
  Segment, TcpBuffer, find_contiguous, advance, process_valid_data, store, add_segment,
  add_packet_data, len,
}
use pvn_project.TcpBuffer.Loop.{retain-All, le-advance}
use pvn_project.TcpBuffer.Shape.{IsValid, Waits}
use pvn_project.TcpBuffer.Offset.{offset_of-add}

-- Behind segments that all start later, the one that starts here is found.
find_contiguous-last :
    (v : ℕ) (ss : List Segment) (s : Segment)
    → All (λ t. v < t.start) ss
    → s.start ≡ v
    → find_contiguous v (ss ++ (s ∷ [])) ≡ some s
unfolding find_contiguous
find_contiguous-last v [] s h e = ground arith
find_contiguous-last v (t ∷ ss) s h e = ground (arith, find_contiguous-last v ss s h.1 e)

starts_later : (v n : ℕ) (ss : List Segment) → All (Waits v n) ss → All (λ t. v < t.start) ss
starts_later v n [] h = tt
starts_later v n (s ∷ ss) h = (h.0.0, starts_later v n ss h.1)

le-advance_found :
    (fuel v : ℕ) (ss : List Segment) (s : Segment)
    → find_contiguous v ss ≡ some s
    → v + s.len ≤ advance (suc fuel) ss v
unfolding advance
le-advance_found fuel v ss s e = rw (e, advance) (le-advance fuel ss (v + s.len))

le-store :
    (b : TcpBuffer) (bytes : List ℕ)
    → IsValid b
    → b.valid_data + length bytes ≤ (store b b.valid_data bytes).valid_data
unfolding store process_valid_data
le-store b bytes v =
    le-advance_found _ b.valid_data _ (record { start = b.valid_data; len = length bytes })
      (find_contiguous-last b.valid_data _ _
        (retain-All (λ t. b.valid_data < t.start) _ b.received_segments
          (starts_later b.valid_data (length b.buf) b.received_segments v.waiting))
        refl)

-- A packet that comes in order, with the first sequence number plus the good data as its own, without
-- a wrap-around, makes all its bytes good that fit the capacity.
pub add_packet_data-advances :
    {P : Type 0} (net : Pnet P) (b : TcpBuffer) (p : P)
    → IsValid b
    → (net.header p).sequence ≡ b.initial_seqno + b.valid_data
    → min (b.valid_data + length (net.payload p)) b.max_capacity ≤ len (add_packet_data net b p)
unfolding add_packet_data add_segment len
add_packet_data-advances net b p v e =
    rw (e, offset_of-add b.initial_seqno b.valid_data)
      (ground (
        arith,
        le-store b (net.payload p) v,
        le-store b (take (b.max_capacity - b.valid_data) (net.payload p)) v,
        length-take (b.max_capacity - b.valid_data) (net.payload p),
        v.bounded,
        v.capped,
      ))
