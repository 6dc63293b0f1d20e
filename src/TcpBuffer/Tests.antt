-- ===== src/TcpBuffer/Tests.antt =====
-- Runs of the buffer, and the theorems at concrete inputs.
use pvn_project.Base.{
  ℕ, ◌+◌, ◌*◌, ◌<◌, ◌≤◌, ◌≡◌, refl, ◌⊎◌, inl, List, [], ◌∷◌, none, some, arith, prefix,
  get_elem?-prefix,
}
use pvn_project.Pnet.Sample.{Datagram, sample, datagram}
use pvn_project.TcpBuffer.{
  TcpBuffer, new, find_contiguous, advance, process_valid_data, offset_of, grow, overwrite, store,
  add_segment, add_packet_data, len, get_data, shift_segments, drain_front, drain,
}
use pvn_project.TcpBuffer.Loop.{process_valid_data_ends}
use pvn_project.TcpBuffer.Shape.{IsValid, drain-IsValid}
use pvn_project.TcpBuffer.Offset.{distance, offset_of-distance}
use pvn_project.TcpBuffer.History.{Op, arrives, drains, deliver, deliver-prefix}
use pvn_project.TcpBuffer.Progress.{add_packet_data-advances}

abbrev stream : ℕ → ℕ
stream i = i * i + 7

-- The bytes of the stream from `k` up to `k + n`, for a buffer that starts at 1000.
abbrev piece : ℕ → ℕ → Datagram
piece k n = datagram (1000 + k) 0 (prefix (λ i. stream (k + i)) n)

abbrev history : List (Op Datagram)
history = arrives (piece 4 3) ∷ arrives (piece 2 4) ∷ arrives (piece 0 2) ∷ drains 3 ∷ []

abbrev fresh : TcpBuffer
fresh = record {
  buf = [];
  max_capacity = 100;
  initial_seqno = 1000;
  valid_data = 0;
  received_segments = [];
}

-- The bytes from 3 on; the byte behind the good data came with the segment that was dropped.
abbrev drained_buffer : TcpBuffer
drained_buffer = record {
  buf = 16 ∷ 23 ∷ 32 ∷ 43 ∷ [];
  max_capacity = 100;
  initial_seqno = 1003;
  valid_data = 3;
  received_segments = [];
}

history_runs : deliver sample (new 1000 100) history ≡ some drained_buffer
unfolding deliver new add_packet_data add_segment store process_valid_data offset_of grow overwrite
    advance find_contiguous drain drain_front shift_segments
history_runs = refl

deliver-prefix_example : get_data drained_buffer ≡ prefix (λ i. stream (3 + i)) (len drained_buffer)
deliver-prefix_example =
    deliver-prefix sample stream 1000 100 history (omega arith)
      (
        inl (omega arith, get_elem?-prefix (λ i. stream (4 + i)) 3),
        (
          inl (omega arith, get_elem?-prefix (λ i. stream (2 + i)) 4),
          (inl (omega arith, get_elem?-prefix (λ i. stream (0 + i)) 2), (omega arith, tt)),
        ),
      )
      history_runs

fresh-IsValid : IsValid fresh
fresh-IsValid = record { bounded = omega arith; capped = omega arith; waiting = tt }

drained_buffer-IsValid : IsValid drained_buffer
drained_buffer-IsValid = record { bounded = omega arith; capped = omega arith; waiting = tt }

abbrev waiting_buffer : TcpBuffer
waiting_buffer = record drained_buffer {
  received_segments = record { start = 5; len = 2 } ∷ record { start = 3; len = 2 } ∷ [];
}

process_valid_data_ends_example :
    find_contiguous (process_valid_data waiting_buffer).valid_data waiting_buffer.received_segments
    ≡ none
process_valid_data_ends_example = process_valid_data_ends waiting_buffer (omega arith)

waiting_buffer_run : (process_valid_data waiting_buffer).valid_data ≡ 7
unfolding process_valid_data advance find_contiguous
waiting_buffer_run = refl

drain-IsValid_example :
    ((4 < 5) × (drain drained_buffer 5 ≡ none))
    ⊎ ((5 ≤ 4)
        × (drain drained_buffer 5 ≡ some (drain_front drained_buffer 5))
        × IsValid (drain_front drained_buffer 5))
drain-IsValid_example = drain-IsValid drained_buffer 5 drained_buffer-IsValid

add_packet_data-advances_example : 3 ≤ len (add_packet_data sample fresh (piece 0 3))
add_packet_data-advances_example =
    add_packet_data-advances sample fresh (piece 0 3) fresh-IsValid refl

-- Two bytes before the wrap-around, and one behind it.
offset_of-distance_example :
    ((4294967294 ≤ 1) × (offset_of 4294967294 1 ≡ distance 4294967294 1))
    ⊎ ((1 < 4294967294) × (offset_of 4294967294 1 + 1 ≡ distance 4294967294 1))
offset_of-distance_example = offset_of-distance 4294967294 1 (omega arith) (omega arith)

short_offset : (offset_of 4294967294 1 ≡ 2) × (distance 4294967294 1 ≡ 3)
unfolding offset_of
short_offset = (refl, refl)
