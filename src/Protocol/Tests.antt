-- ===== src/Protocol/Tests.antt =====
-- The theorems on frames and resets at concrete inputs.
use pvn_project.Base.{ℕ, ◌/◌, ◌≡◌, refl, List, [], ◌∷◌, Option, none, some, ok, arith, ◌==◌}
use pvn_project.Pnet.{v4}
use pvn_project.Pnet.Sample.{sample, sample_laws, datagram}
use pvn_project.TcpBuffer.{TcpBuffer, len, get_data}
use pvn_project.TcpBuffer.Shape.{IsValid}
use pvn_project.Protocol.{
  HandshakePayload, client_hello, HandshakeMessage, read_handshake_msg, read_handshake_frame,
  read_body, generate_return_rst, set_tcp_checksum,
}
use pvn_project.Protocol.Frame.{frame, read_handshake_msg-frame, read_handshake_msg-part}
use pvn_project.Protocol.Reset.{Answers, generate_return_rst-Answers}

-- A decoder that takes every body for an empty ClientHello.
abbrev decode : List ℕ → Option HandshakePayload
decode bytes = some (client_hello [])

abbrev holding : List ℕ → ℕ → TcpBuffer
holding bytes n = record {
  buf = bytes;
  max_capacity = 100;
  initial_seqno = 0;
  valid_data = n;
  received_segments = [];
}

-- A record of two bytes, and one byte of the next.
abbrev whole : TcpBuffer
whole = holding (0x16 ∷ 3 ∷ 1 ∷ 0 ∷ 2 ∷ 8 ∷ 9 ∷ 0x16 ∷ []) 8

abbrev hello : HandshakeMessage
hello = record { is_tls12 = 1 == 3; total_len = 7; payload = client_hello [] }

whole-IsValid : IsValid whole
whole-IsValid = record { bounded = omega arith; capped = omega arith; waiting = tt }

whole_read : read_handshake_msg decode whole ≡ ok (some hello)
unfolding read_handshake_msg read_handshake_frame read_body len get_data
whole_read = refl

read_handshake_msg-frame_example : read_handshake_msg decode whole ≡ ok (some hello)
unfolding frame
read_handshake_msg-frame_example =
    read_handshake_msg-frame decode whole 1 (8 ∷ 9 ∷ []) (0x16 ∷ []) whole-IsValid
      (unfold get_data in refl) (omega arith) refl

-- All but the last byte of that record.
abbrev part : TcpBuffer
part = holding (0x16 ∷ 3 ∷ 1 ∷ 0 ∷ 2 ∷ 8 ∷ []) 6

part-IsValid : IsValid part
part-IsValid = record { bounded = omega arith; capped = omega arith; waiting = tt }

read_handshake_msg-part_example : read_handshake_msg decode part ≡ ok none
unfolding frame get_data
read_handshake_msg-part_example =
    read_handshake_msg-part decode part 1 (8 ∷ 9 ∷ []) (get_data part) (9 ∷ []) part-IsValid refl
      refl (omega arith) (omega arith)

generate_return_rst-Answers_example :
    Answers
      (sample.header (datagram 1000 0 []))
      (sample.header (
        set_tcp_checksum sample (generate_return_rst sample (datagram 1000 0 []) 77) (v4 1) (v4 2)))
      77
      (20 / 4)
generate_return_rst-Answers_example =
    generate_return_rst-Answers sample sample_laws (datagram 1000 0 []) 77 (v4 1) (v4 2)
