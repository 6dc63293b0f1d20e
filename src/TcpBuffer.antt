-- ===== src/TcpBuffer.antt =====
-- apps/tls_validator/src/tcp_buffer.rs: a buffer that reassembles a TCP stream from segments in
-- any order. A `usize` is an unbounded number (all sizes stay near `max_capacity`); `u32` sums wrap.
pub mod Loop
pub mod Shape
pub mod Stream
pub mod Ops
pub mod Offset
pub mod History
pub mod Drained
pub mod Progress
mod Tests
use pvn_project.Base.{
  ℕ, zero, suc, ◌+◌, ◌-◌, ◌%◌, Bool, true, false, not, ◌&&◌, ◌||◌, List, [], ◌∷◌, ◌++◌, Option,
  none, some, ltb, leb, ◌==◌, if◌then◌else◌, length, take, drop, replicate, u32_max, wrapping_add,
  u32_mod,
}
use pvn_project.Pnet.{Pnet}

-- `start` is an offset from the start of the buffer.
pub record Segment : Type 0 where
  pub start : ℕ
  pub len : ℕ

pub record TcpBuffer : Type 0 where
  pub buf : List ℕ
  pub max_capacity : ℕ
  pub initial_seqno : ℕ
  pub valid_data : ℕ
  pub received_segments : List Segment

unfoldable pub new : ℕ → ℕ → TcpBuffer
new initial_seqno capacity = record {
  buf = [];
  max_capacity = capacity;
  initial_seqno = initial_seqno;
  valid_data = 0;
  received_segments = [];
}

-- `Vec::retain`
abbrev pub retain : (Segment → Bool) → List Segment → List Segment
retain keep [] = []
retain keep (s ∷ ss) = let rest = retain keep ss in if keep s then s ∷ rest else rest

-- One run of the `for` loop: the first segment that starts where the good data ends.
unfoldable pub find_contiguous : ℕ → List Segment → Option Segment
find_contiguous valid [] = none
find_contiguous valid (s ∷ ss) = if s.start == valid then some s else find_contiguous valid ss

-- The `while keep_iterating` loop, on fuel.
unfoldable pub advance : ℕ → List Segment → ℕ → ℕ
advance zero segments valid = valid
advance (suc fuel) segments valid = elim (find_contiguous valid segments) [
  | none ↦ valid
  | some s ↦ advance fuel segments (valid + s.len)
]

-- Each round uses up a segment, so one round more than there are segments is fuel enough.
unfoldable pub process_valid_data : TcpBuffer → TcpBuffer
process_valid_data b =
    let valid = advance (suc (length b.received_segments)) b.received_segments b.valid_data in
    record b {
      valid_data = valid;
      received_segments = retain (λ s. ltb valid s.start) b.received_segments;
    }

-- Where in the buffer a sequence number belongs.
unfoldable pub offset_of : ℕ → ℕ → ℕ
offset_of initial_seqno seqno =
    if ltb seqno initial_seqno then u32_max - initial_seqno + seqno else seqno - initial_seqno

-- `resize(end, 0)` where `end` is past the end.
unfoldable pub grow : ℕ → List ℕ → List ℕ
grow end buf = buf ++ replicate (end - length buf) 0

-- `buf[offset..offset + data.len()].copy_from_slice(data)`
unfoldable pub overwrite : List ℕ → ℕ → List ℕ → List ℕ
overwrite buf offset bytes = take offset buf ++ (bytes ++ drop (offset + length bytes) buf)

-- The part of `add_segment` behind its early return and truncation.
unfoldable pub store : TcpBuffer → ℕ → List ℕ → TcpBuffer
unfolding grow overwrite
store b offset bytes =
    let end = offset + length bytes in
    process_valid_data (record b {
      buf = overwrite (grow end b.buf) offset bytes;
      received_segments =
          retain (λ s. leb end s.start || leb (s.start + s.len) offset) b.received_segments
          ++ (record { start = offset; len = length bytes } ∷ []);
    })

unfoldable pub add_segment : TcpBuffer → ℕ → List ℕ → TcpBuffer
add_segment b seqno bytes =
    let offset = offset_of b.initial_seqno seqno in
    if leb b.max_capacity offset
    then b
    else store b offset (
        if ltb b.max_capacity (offset + length bytes)
        then take (b.max_capacity - offset) bytes
        else bytes)

unfoldable pub add_packet_data : {P : Type 0} → Pnet P → TcpBuffer → P → TcpBuffer
add_packet_data net b packet =
    if ltb 0 (length (net.payload packet))
    then add_segment b (net.header packet).sequence (net.payload packet)
    else b

unfoldable pub len : TcpBuffer → ℕ
len b = b.valid_data

unfoldable pub get_data : TcpBuffer → List ℕ
get_data b = take b.valid_data b.buf

-- `filter_map` over the segments: those that start before the cut go, the others move down.
unfoldable pub shift_segments : ℕ → List Segment → List Segment
shift_segments n [] = []
shift_segments n (s ∷ ss) =
    let rest = shift_segments n ss in
    if ltb s.start n then rest else record s { start = s.start - n } ∷ rest

-- The part of `drain` behind the removal of the bytes.
unfoldable pub drain_front : TcpBuffer → ℕ → TcpBuffer
drain_front b n = process_valid_data (record b {
  initial_seqno = wrapping_add b.initial_seqno (n % u32_mod);
  buf = drop n b.buf;
  valid_data = if ltb n b.valid_data then b.valid_data - n else 0;
  received_segments = shift_segments n b.received_segments;
})

-- `none` is the panic of `Vec::drain` past the end.
unfoldable pub drain : TcpBuffer → ℕ → Option TcpBuffer
drain b n = if ltb (length b.buf) n then none else some (drain_front b n)
