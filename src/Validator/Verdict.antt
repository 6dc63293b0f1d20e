-- ===== src/Validator/Verdict.antt =====
-- What decides on a flow: the name of its ClientHello, the version of its ServerHello and the
-- server's certificates, once their records have come in.
use pvn_project.Base.{
  ℕ, ◌≤◌, ◌≡◌, ==_iff, refl, ◌∙◌, ◌⊎◌, inl, inr, true, false, Bool-cases, List, [], ◌∷◌, ◌++◌,
  Option, none, some, ok, arith, ◌==◌, if◌then◌else◌, length,
}
use pvn_project.Pnet.{Pnet, IpAddr}
use pvn_project.TcpBuffer.{TcpBuffer, new, add_packet_data, drain, drain_front, get_data, len}
use pvn_project.TcpBuffer.Drained.{get_data-drain_front}
use pvn_project.TcpBuffer.Shape.{IsValid, add_packet_data-IsValid, drain-IsValid}
use pvn_project.Protocol.{
  ServerName, dns_name, ServerNamePayload, single_dns_name, ClientExtension, server_name,
  ServerExtension, ProtocolVersion, supported_versions, tlsv1_2, HandshakePayload, client_hello,
  server_hello, certificate, tls_max_record_length, read_handshake_msg,
}
use pvn_project.Protocol.Frame.{frame, read_handshake_msg-frame, read_handshake_msg_bounds}
use pvn_project.Validator.{
  Tls, ServerBuffer, cleared, bad, wait_for_client_hello, wait_for_server_hello, wait_for_certs,
  buffer_capacity, find_server_name, selects_other_version, client_hello_seen, certificates_valid,
  server_hello_seen, certificates_seen, sniff_client_hello, sniff_server_hello, sniff_certificates,
  outgoing_status, incoming_status,
}

-- The names that a ClientHello offers, in order.
unfoldable pub offered : IpAddr → List ClientExtension → List ServerName
offered dest [] = []
offered dest (server_name (single_dns_name n) ∷ es) = dns_name n ∷ offered dest es
offered dest (server_name ServerNamePayload.ip_address ∷ es) =
    ServerName.ip_address dest ∷ offered dest es
offered dest (server_name ServerNamePayload.invalid ∷ es) = offered dest es
offered dest (ClientExtension.other ∷ es) = offered dest es

unfoldable pub last_or {ℓ} : {A : Type ℓ} → Option A → List A → Option A
last_or d [] = d
last_or d (x ∷ xs) = last_or (some x) xs

last_or-some {ℓ} : {A : Type ℓ} (a : A) (xs : List A) → (x : A) × (last_or (some a) xs ≡ some x)
unfolding last_or
last_or-some a [] = (a, refl)
last_or-some a (x ∷ xs) = last_or-some x xs

last_or_cases {ℓ} : {A : Type ℓ} (xs : List A) → (xs ≡ []) ⊎ ((x : A) × (last_or none xs ≡ some x))
unfolding last_or
last_or_cases [] = inl refl
last_or_cases (x ∷ xs) = inr (last_or-some x xs)

-- The loop over the extensions finds the last name that is offered, and keeps the given one where
-- none is.
pub find_server_name-last_or :
    (dest : IpAddr) (es : List ClientExtension) (name : Option ServerName)
    → find_server_name dest es name ≡ last_or name (offered dest es)
unfolding find_server_name last_or offered
find_server_name-last_or dest [] name = refl
find_server_name-last_or dest (server_name (single_dns_name n) ∷ es) name =
    find_server_name-last_or dest es (some (dns_name n))
find_server_name-last_or dest (server_name ServerNamePayload.ip_address ∷ es) name =
    find_server_name-last_or dest es (some (ServerName.ip_address dest))
find_server_name-last_or dest (server_name ServerNamePayload.invalid ∷ es) name =
    find_server_name-last_or dest es name
find_server_name-last_or dest (ClientExtension.other ∷ es) name =
    find_server_name-last_or dest es name

-- The versions that a ServerHello selects, in order.
unfoldable pub selected : List ServerExtension → List ProtocolVersion
selected [] = []
selected (supported_versions v ∷ es) = v ∷ selected es
selected (ServerExtension.other ∷ es) = selected es

abbrev pub SelectsTls12 : List ProtocolVersion → Type 0
SelectsTls12 vs = (vs ≡ []) ⊎ ((later : List ProtocolVersion) × (vs ≡ tlsv1_2 ∷ later))

abbrev pub SelectsOther : List ProtocolVersion → Type 0
SelectsOther vs = (later : List ProtocolVersion) × (vs ≡ ProtocolVersion.other ∷ later)

selects_other_version_cases :
    (es : List ServerExtension)
    → ((selects_other_version es ≡ true) × SelectsOther (selected es))
      ⊎ ((selects_other_version es ≡ false) × SelectsTls12 (selected es))
unfolding selects_other_version selected
selects_other_version_cases [] = inr (refl, inl refl)
selects_other_version_cases (supported_versions tlsv1_2 ∷ es) = inr (refl, inr (selected es, refl))
selects_other_version_cases (supported_versions ProtocolVersion.other ∷ es) =
    inl (refl, (selected es, refl))
selects_other_version_cases (ServerExtension.other ∷ es) = selects_other_version_cases es

equal : (a b : ℕ) → (a == b) ≡ true → a ≡ b
equal a b e = grind (arith, ==_iff)

different : (a b : ℕ) → (a == b) ≡ false → ¬ (a ≡ b)
different a b e = grind (arith, ==_iff)

module _ {P : Type 0} (net : Pnet P) (tls : Tls) (p : P) (minor : ℕ) (body rest : List ℕ)
    (small : length body ≤ tls_max_record_length) where
  completes :
      (b : TcpBuffer) {payload : HandshakePayload}
      → IsValid b
      → get_data (add_packet_data net b p) ≡ frame minor body ++ rest
      → tls.read_bytes body ≡ some payload
      → read_handshake_msg tls.read_bytes (add_packet_data net b p)
        ≡ ok (
            some (record {
              is_tls12 = minor == 3;
              total_len = length (frame minor body);
              payload = payload;
            }))
  completes b v e decoded =
      read_handshake_msg-frame tls.read_bytes (add_packet_data net b p) minor body rest
        (add_packet_data-IsValid net b p v) e small decoded

  -- The packet completes a ClientHello, of any size that a record has. Where no sequence number is
  -- expected of the server yet, the flow is cleared, whatever names are offered. Where one is: with
  -- no name offered, the flow is bad; else the server's records are awaited, for the last name
  -- offered, from that sequence number on.
  pub outgoing_client_hello :
      (b : TcpBuffer) (es : List ClientExtension) (expected : Option ℕ) (dest : IpAddr)
      → IsValid b
      → get_data (add_packet_data net b p) ≡ frame minor body ++ rest
      → tls.read_bytes body ≡ some (client_hello es)
      → let decided = outgoing_status net tls p expected dest (wait_for_client_hello b) in
        ((expected ≡ none) × (decided ≡ (cleared, true)))
        ⊎ ((seqno : ℕ) × (expected ≡ some seqno)
            × (offered dest es ≡ [])
            × (decided ≡ (bad, false)))
        ⊎ ((seqno : ℕ) × (expected ≡ some seqno)
            × (name : ServerName) × (last_or none (offered dest es) ≡ some name)
            × (decided ≡ (
              wait_for_server_hello (record { buffer = new seqno buffer_capacity; name = name }),
              true,
            )))
  unfolding outgoing_status sniff_client_hello client_hello_seen last_or
  outgoing_client_hello b es none dest v e decoded =
      inl (refl, rw (completes b v e decoded, sniff_client_hello) refl)
  outgoing_client_hello b es (some seqno) dest v e decoded =
      inr (elim (last_or_cases (offered dest es)) [
        | inl nothing ↦ inl (
          seqno,
          refl,
          nothing,
          rw (
            completes b v e decoded,
            sniff_client_hello,
            find_server_name-last_or dest es none,
            nothing,
          ),
        )
        | inr (name, last) ↦ inr (
          seqno,
          refl,
          name,
          last,
          rw (
            completes b v e decoded,
            sniff_client_hello,
            find_server_name-last_or dest es none,
            last,
          ),
        )
      ])

  judges :
      (sb : ServerBuffer) (cs : List (List ℕ)) (now : ℕ)
      → IsValid sb.buffer
      → get_data (add_packet_data net sb.buffer p) ≡ frame minor body ++ rest
      → tls.read_bytes body ≡ some (certificate cs)
      → incoming_status net tls now p (wait_for_certs sb)
        ≡ some (if certificates_valid tls now sb.name cs then (cleared, true) else (bad, false))
  unfolding incoming_status sniff_certificates certificates_seen
  judges sb cs now v e decoded = rw (completes sb.buffer v e decoded, sniff_certificates)

  -- The packet completes a Certificate message: the flow is cleared exactly where the chain is not
  -- empty and the validator accepts its first certificate, with the others behind it, for the name
  -- of the ClientHello at this time; else the flow is bad.
  pub incoming_certificate :
      (sb : ServerBuffer) (cs : List (List ℕ)) (now : ℕ)
      → IsValid sb.buffer
      → get_data (add_packet_data net sb.buffer p) ≡ frame minor body ++ rest
      → tls.read_bytes body ≡ some (certificate cs)
      → ((leaf : List ℕ) × (others : List (List ℕ)) × (cs ≡ leaf ∷ others)
          × (tls.verify_server_cert leaf others sb.name now ≡ true)
          × (incoming_status net tls now p (wait_for_certs sb) ≡ some (cleared, true)))
        ⊎ ((leaf : List ℕ) × (others : List (List ℕ)) × (cs ≡ leaf ∷ others)
            × (tls.verify_server_cert leaf others sb.name now ≡ false)
            × (incoming_status net tls now p (wait_for_certs sb) ≡ some (bad, false)))
        ⊎ ((cs ≡ []) × (incoming_status net tls now p (wait_for_certs sb) ≡ some (bad, false)))
  unfolding certificates_valid
  incoming_certificate sb [] now v e decoded = inr (inr (refl, judges sb [] now v e decoded))
  incoming_certificate sb (c ∷ cs) now v e decoded =
      elim (Bool-cases (tls.verify_server_cert c cs sb.name now)) [
        | inl good ↦ inl (c, cs, refl, good, judges sb (c ∷ cs) now v e decoded ∙ rw good)
        | inr wrong ↦ inr (inl (c, cs, refl, wrong, judges sb (c ∷ cs) now v e decoded ∙ rw wrong))
      ]

  -- The packet completes a ServerHello. Where its record is of TLS 1.2 and the first version it
  -- selects, if any, is TLS 1.2 too, the certificates are awaited for the same name, in the buffer with
  -- this record drained, which gives what followed it, and perhaps more; where its record or this version is another
  -- one, the flow is cleared. There is no panic.
  pub incoming_server_hello :
      (sb : ServerBuffer) (es : List ServerExtension) (now : ℕ)
      → IsValid sb.buffer
      → get_data (add_packet_data net sb.buffer p) ≡ frame minor body ++ rest
      → tls.read_bytes body ≡ some (server_hello es)
      → ((minor ≡ 3)
          × SelectsTls12 (selected es)
          × (buffer : TcpBuffer) × (more : List ℕ) × (drain
                (add_packet_data net sb.buffer p)
                (length (frame minor body))
              ≡ some buffer)
          × (get_data buffer ≡ rest ++ more)
          × (incoming_status net tls now p (wait_for_server_hello sb)
              ≡ some (wait_for_certs (record { buffer = buffer; name = sb.name }), true)))
        ⊎ (((¬ (minor ≡ 3)) ⊎ SelectsOther (selected es))
            × (incoming_status net tls now p (wait_for_server_hello sb) ≡ some (cleared, true)))
  unfolding incoming_status sniff_server_hello server_hello_seen
  incoming_server_hello sb es now v e decoded = elim (Bool-cases (minor == 3)) [
    | inr old ↦ inr (inl (different minor 3 old), step ∙ rw old refl)
    | inl tls12 ↦ elim (selects_other_version_cases es) [
      | inl (other, version) ↦ inr (inr version, step ∙ rw (tls12, other) refl)
      | inr (same, version) ↦ inl (
        equal minor 3 tls12,
        version,
        _,
        _,
        d,
        (get_data-drain_front b (frame minor body) rest fits e).1,
        step ∙ rw (tls12, same, d) refl,
      )
    ]
  ]
    where
      b : TcpBuffer
      b = add_packet_data net sb.buffer p

      n : ℕ
      n = length (frame minor body)

      w : IsValid b
      w = add_packet_data-IsValid net sb.buffer p v

      message :
          read_handshake_msg tls.read_bytes b
          ≡ ok (some (record { is_tls12 = minor == 3; total_len = n; payload = server_hello es }))
      message = completes sb.buffer v e decoded

      fits : n ≤ b.valid_data
      fits = unfold len in (read_handshake_msg_bounds tls.read_bytes b w message).2

      d : drain b n ≡ some (drain_front b n)
      d = elim (drain-IsValid b n w) [
        | inl (far, _) ↦ absurd (omega (arith, fits, w.bounded))
        | inr (near, drained, _) ↦ drained
      ]

      step :
          incoming_status net tls now p (wait_for_server_hello sb)
          ≡ server_hello_seen
              (record sb { buffer = b })
              (record { is_tls12 = minor == 3; total_len = n; payload = server_hello es })
              (server_hello es)
      step = rw (message, sniff_server_hello) refl
