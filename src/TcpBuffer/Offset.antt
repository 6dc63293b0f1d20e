-- ===== src/TcpBuffer/Offset.antt =====
-- Where `add_segment` puts a sequence number: right without a wrap-around, one byte short with one.
use pvn_project.Base.{
  ◌⊎◌, inl, inr, Bool-cases, ltb, ℕ, ◌+◌, ◌-◌, ◌%◌, ◌≤◌, ◌<◌, ◌≡◌, arith, u32_mod,
}
use pvn_project.TcpBuffer.{offset_of}

-- How far `seqno` is ahead of `initial` on the circle of sequence numbers.
abbrev pub distance : ℕ → ℕ → ℕ
distance initial seqno = (seqno + u32_mod - initial) % u32_mod

-- Two `u32` sequence numbers: the offset is their distance on the circle where `seqno` has not
-- wrapped past `initial`, and one less than their distance where it has.
pub offset_of-distance :
    (initial seqno : ℕ)
    → initial < u32_mod
    → seqno < u32_mod
    → ((initial ≤ seqno) × (offset_of initial seqno ≡ distance initial seqno))
      ⊎ ((seqno < initial) × (offset_of initial seqno + 1 ≡ distance initial seqno))
unfolding offset_of
offset_of-distance initial seqno h k = elim (Bool-cases (ltb seqno initial)) [
  | inl wrapped ↦ inr (ground arith, ground arith)
  | inr ahead ↦ inl (ground arith, ground arith)
]

-- Without a wrap-around the offset is the difference.
pub offset_of-add : (initial k : ℕ) → offset_of initial (initial + k) ≡ k
unfolding offset_of
offset_of-add initial k = ground arith
