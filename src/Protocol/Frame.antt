-- ===== src/Protocol/Frame.antt =====
-- What `read_handshake_msg` returns: how much of the buffer a message takes, and the round trip
-- with the record format.
use pvn_project.Base.{
  take-append, ℕ, ◌+◌, ◌*◌, ◌-◌, ◌/◌, ◌%◌, ◌≤◌, ◌<◌, ◌≡◌, refl, sym, ap, ◌∙◌, inl, inr, false,
  Bool-cases, List, [], ◌∷◌, ◌++◌, Option, none, some, Result, ok, err, ltb, append-nil, lt→ltb,
  ◌==◌, length, length-take, length-append, arith,
}
use pvn_project.TcpBuffer.{TcpBuffer, len, get_data}
use pvn_project.TcpBuffer.Shape.{IsValid}
use pvn_project.Protocol.{
  HandshakePayload, HandshakeMessage, tls_header_length, tls_max_record_length,
  tls_handshake_record, read_handshake_frame, read_body, read_handshake_msg,
}

pub length-get_data : (b : TcpBuffer) → IsValid b → length (get_data b) ≡ len b
unfolding get_data len
length-get_data b v = omega (arith, length-take b.valid_data b.buf, v.bounded)

module _ (read_bytes : List ℕ → Option HandshakePayload) where
  read_body_bounds :
      (b : TcpBuffer) (minor n : ℕ) {m : HandshakeMessage}
      → read_body read_bytes b minor n ≡ ok (some m)
      → (m.total_len ≡ tls_header_length + n) × (n ≤ length (get_data b) - tls_header_length)
  unfolding read_body
  read_body_bounds b minor n e = ground arith

  read_handshake_frame_bounds :
      (bytes : List ℕ) {minor n : ℕ}
      → read_handshake_frame bytes ≡ ok (minor, n)
      → n ≤ tls_max_record_length
  unfolding read_handshake_frame
  read_handshake_frame_bounds bytes e = ground arith

  -- A message that is read from a well-formed buffer takes at least a header, at most one record,
  -- and never more than the good data.
  pub read_handshake_msg_bounds :
      (b : TcpBuffer) {m : HandshakeMessage}
      → IsValid b
      → read_handshake_msg read_bytes b ≡ ok (some m)
      → (tls_header_length ≤ m.total_len)
        × (m.total_len ≤ tls_header_length + tls_max_record_length)
        × (m.total_len ≤ len b)
  unfolding read_handshake_msg
  read_handshake_msg_bounds b {m} v e = elim (Bool-cases (ltb (len b) tls_header_length)) [
    | inl short ↦ absurd (no (rw short at e))
    | inr long ↦ go (read_handshake_frame (get_data b)) refl long (rw long at e)
  ]
    where
      no : ◌≡◌ {A = Result (Option HandshakeMessage)} (ok none) (ok (some m)) → ⊥
      no p = cc

      go :
          (r : Result (ℕ × ℕ))
          → read_handshake_frame (get_data b) ≡ r
          → ltb (len b) tls_header_length ≡ false
          → elim r [ err ↦ err | ok (minor, n) ↦ read_body read_bytes b minor n ] ≡ ok (some m)
          → (tls_header_length ≤ m.total_len)
            × (m.total_len ≤ tls_header_length + tls_max_record_length)
            × (m.total_len ≤ len b)
      go err f long p = cc
      go (ok (minor, n)) f long p = ground (
        arith,
        read_body_bounds b minor n p,
        read_handshake_frame_bounds (get_data b) f,
        length-get_data b v,
      )

-- A handshake record as a sender writes it.
unfoldable pub frame : ℕ → List ℕ → List ℕ
frame minor body =
    tls_handshake_record ∷ 3 ∷ minor ∷ (length body / 256) ∷ (length body % 256) ∷ body

read_handshake_frame-frame :
    (minor : ℕ) (body rest : List ℕ)
    → length body ≤ tls_max_record_length
    → read_handshake_frame (frame minor body ++ rest) ≡ ok (minor, length body)
unfolding read_handshake_frame frame
read_handshake_frame-frame minor body rest small = rw size (ground arith)
  where
    size : length body / 256 * 256 + length body % 256 ≡ length body
    size = omega arith

-- The header is in the first five bytes.
read_handshake_frame-append :
    (xs ys : List ℕ) → 5 ≤ length xs → read_handshake_frame (xs ++ ys) ≡ read_handshake_frame xs
unfolding read_handshake_frame
read_handshake_frame-append (a ∷ b ∷ c ∷ d ∷ e ∷ xs) ys h = refl
read_handshake_frame-append [] ys h = absurd (omega arith)
read_handshake_frame-append (a ∷ []) ys h = absurd (omega arith)
read_handshake_frame-append (a ∷ b ∷ []) ys h = absurd (omega arith)
read_handshake_frame-append (a ∷ b ∷ c ∷ []) ys h = absurd (omega arith)
read_handshake_frame-append (a ∷ b ∷ c ∷ d ∷ []) ys h = absurd (omega arith)

module _ (read_bytes : List ℕ → Option HandshakePayload) where
  read_body-frame :
      (b : TcpBuffer) (minor : ℕ) (body rest : List ℕ) {payload : HandshakePayload}
      → get_data b ≡ frame minor body ++ rest
      → read_bytes body ≡ some payload
      → read_body read_bytes b minor (length body)
        ≡ ok (
            some (record {
              is_tls12 = minor == 3;
              total_len = length (frame minor body);
              payload = payload;
            }))
  unfolding read_body frame
  read_body-frame b minor body rest {payload} e decoded =
      rw (e, take-append body rest, decoded) (ground (arith, length-append body rest))

  read_body-short :
      (b : TcpBuffer) (minor n : ℕ)
      → length (get_data b) - tls_header_length < n
      → read_body read_bytes b minor n ≡ ok none
  unfolding read_body
  read_body-short b minor n h = rw (lt→ltb _ _ h)

  -- Round trip: a buffer whose good data start with a whole record, of at most the maximum length
  -- and with a body that the decoder accepts, gives that message, and says how long the record is.
  pub read_handshake_msg-frame :
      (b : TcpBuffer) (minor : ℕ) (body rest : List ℕ) {payload : HandshakePayload}
      → IsValid b
      → get_data b ≡ frame minor body ++ rest
      → length body ≤ tls_max_record_length
      → read_bytes body ≡ some payload
      → read_handshake_msg read_bytes b
        ≡ ok (
            some (record {
              is_tls12 = minor == 3;
              total_len = length (frame minor body);
              payload = payload;
            }))
  unfolding read_handshake_msg
  read_handshake_msg-frame b minor body rest v e small decoded =
      rw (enough, read_frame) (read_body-frame b minor body rest e decoded)
    where
      read_frame : read_handshake_frame (get_data b) ≡ ok (minor, length body)
      read_frame = rw e (read_handshake_frame-frame minor body rest small)

      size : length (frame minor body ++ rest) ≡ 5 + (length body + length rest)
      size = unfold frame in omega (arith, length-append body rest)

      enough : ltb (len b) tls_header_length ≡ false
      enough = ground (arith, length-get_data b v, ap length e, size)

  -- While a record, of at most the maximum length, has not come in whole, more data are awaited:
  -- the buffer holds `part`, the record's start, and the rest is still to come.
  pub read_handshake_msg-part :
      (b : TcpBuffer) (minor : ℕ) (body part rest : List ℕ)
      → IsValid b
      → get_data b ≡ part
      → part ++ rest ≡ frame minor body
      → 0 < length rest
      → length body ≤ tls_max_record_length
      → read_handshake_msg read_bytes b ≡ ok none
  unfolding read_handshake_msg
  read_handshake_msg-part b minor body part rest v e whole more small =
      elim (Bool-cases (ltb (len b) tls_header_length)) [
        | inl short ↦ rw short
        | inr long ↦
            let enough : 5 ≤ length part = ground (arith, length-get_data b v, ap length e) in
            rw (long, header enough) (waits enough)
      ]
    where
      header : 5 ≤ length part → read_handshake_frame (get_data b) ≡ ok (minor, length body)
      header long =
          ap read_handshake_frame e
          ∙ sym (read_handshake_frame-append part rest long)
          ∙ ap read_handshake_frame (whole ∙ sym (append-nil (frame minor body)))
          ∙ read_handshake_frame-frame minor body [] small

      size : length part + length rest ≡ 5 + length body
      size = sym (length-append part rest) ∙ ap length whole ∙ unfold frame in omega arith

      waits : 5 ≤ length part → read_body read_bytes b minor (length body) ≡ ok none
      waits long = read_body-short b minor (length body) (omega (arith, ap length e, size))
