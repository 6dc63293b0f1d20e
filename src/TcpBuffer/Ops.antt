-- ===== src/TcpBuffer/Ops.antt =====
-- Whole histories of a `TcpBuffer`, and the progress that one packet makes.
use pvn_project.Base.{
  ℕ, ◌+◌, ◌-◌, ◌≤◌, ◌<◌, ◌≡◌, refl, ◌∙◌, ◌⊎◌, inl, inr, true, Bool-cases, List, some, ltb, leb,
  length, get_elem?, take, length-take, arith, get_elem?-take, u32_mod, u32_max,
}
use pvn_project.Pnet.{Pnet}
use pvn_project.TcpBuffer.{
  TcpBuffer, process_valid_data, offset_of, store, add_segment, add_packet_data,
}
use pvn_project.TcpBuffer.Stream.{Follows, store-Follows}

add_segment-Follows :
    (stream : ℕ → ℕ) (b : TcpBuffer) (seqno : ℕ) (bytes : List ℕ)
    → (b.max_capacity ≤ offset_of b.initial_seqno seqno)
      ⊎ ((i : ℕ)
          → i < length bytes
          → get_elem? bytes i ≡ some (stream (offset_of b.initial_seqno seqno + i)))
    → Follows stream b
    → Follows stream (add_segment b seqno bytes)
unfolding add_segment
add_segment-Follows stream b seqno bytes (inl far) f = rw (le→leb far) f
  where
    le→leb :
        b.max_capacity ≤ offset_of b.initial_seqno seqno
        → leb b.max_capacity (offset_of b.initial_seqno seqno) ≡ true
    le→leb h = ground arith
add_segment-Follows stream b seqno bytes (inr carried) f =
    elim (Bool-cases (leb b.max_capacity offset)) [
      | inl e ↦ rw e f
      | inr e ↦ rw e (elim (Bool-cases (ltb b.max_capacity (offset + length bytes))) [
        | inl cut ↦ rw cut (store-Follows stream b offset kept some_carried f)
        | inr whole ↦ rw whole (store-Follows stream b offset bytes carried f)
      ])
    ]
  where
    offset : ℕ
    offset = offset_of b.initial_seqno seqno

    kept : List ℕ
    kept = take (b.max_capacity - offset) bytes

    some_carried : (i : ℕ) → i < length kept → get_elem? kept i ≡ some (stream (offset + i))
    some_carried i h =
        get_elem?-take (b.max_capacity - offset) bytes i
          (omega (arith, length-take (b.max_capacity - offset) bytes))
        ∙ carried i (omega (arith, length-take (b.max_capacity - offset) bytes))

-- Two numbers that operations leave alone.
pub store-fixed :
    (b : TcpBuffer) (offset : ℕ) (bytes : List ℕ)
    → ((store b offset bytes).initial_seqno ≡ b.initial_seqno)
      × ((store b offset bytes).max_capacity ≡ b.max_capacity)
unfolding store process_valid_data
store-fixed b offset bytes = (refl, refl)

module _ {P : Type 0} (net : Pnet P) where
  pub add_packet_data-fixed :
      (b : TcpBuffer) (p : P)
      → ((add_packet_data net b p).initial_seqno ≡ b.initial_seqno)
        × ((add_packet_data net b p).max_capacity ≡ b.max_capacity)
  unfolding add_packet_data add_segment
  add_packet_data-fixed b p = ground (
    arith,
    store-fixed b (offset_of b.initial_seqno (net.header p).sequence) (net.payload p),
    store-fixed b (offset_of b.initial_seqno (net.header p).sequence)
        (take (b.max_capacity - offset_of b.initial_seqno (net.header p).sequence) (net.payload p)),
  )

  -- The packet holds bytes of the stream that starts at `initial`, with no wrap-around between
  -- them; or it is from before `initial`, and too old for a buffer of `capacity` bytes.
  abbrev pub Carries : (ℕ → ℕ) → ℕ → ℕ → P → Type 0
  Carries stream initial capacity p =
      ((initial ≤ (net.header p).sequence)
        × ((i : ℕ)
            → i < length (net.payload p)
            → get_elem? (net.payload p) i ≡ some (stream ((net.header p).sequence - initial + i))))
      ⊎ (((net.header p).sequence < initial)
          × (capacity + initial ≤ u32_max + (net.header p).sequence))

  pub add_packet_data-Follows :
      (stream : ℕ → ℕ) (b : TcpBuffer) (p : P)
      → b.initial_seqno < u32_mod
      → Carries stream b.initial_seqno b.max_capacity p
      → Follows stream b
      → Follows stream (add_packet_data net b p)
  unfolding add_packet_data
  add_packet_data-Follows stream b p word c f = elim (Bool-cases (ltb 0 (length (net.payload p)))) [
    | inl e ↦ rw e (add_segment-Follows stream b seqno (net.payload p) (placed c) f)
    | inr e ↦ rw e f
  ]
    where
      seqno : ℕ
      seqno = (net.header p).sequence

      ahead : b.initial_seqno ≤ seqno → offset_of b.initial_seqno seqno ≡ seqno - b.initial_seqno
      ahead h = unfold offset_of in ground arith

      behind :
          seqno < b.initial_seqno
          → offset_of b.initial_seqno seqno ≡ u32_max - b.initial_seqno + seqno
      behind h = unfold offset_of in ground arith

      placed :
          Carries stream b.initial_seqno b.max_capacity p
          → (b.max_capacity ≤ offset_of b.initial_seqno seqno)
            ⊎ ((i : ℕ)
                → i < length (net.payload p)
                → get_elem? (net.payload p) i ≡ some (stream (offset_of b.initial_seqno seqno + i)))
      placed (inl fresh) = inr (rw (ahead fresh.0) fresh.1)
      placed (inr stale) = inl (omega (arith, behind stale.0))
