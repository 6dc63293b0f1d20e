-- ===== src/TcpBuffer/History.antt =====
-- Whole histories of a `TcpBuffer`: packets in any order, and drains.
use pvn_project.Base.{
  ℕ, ◌+◌, ◌<◌, ◌≡◌, refl, sym, subst, ap, inl, inr, List, [], ◌∷◌, Option, some, arith, prefix,
  u32_mod, ◌>>=◌,
}
use mathlib.Core.Path.{fun_ext}
use native.Mathlib.Nat.{zero-add, add_assoc}
use pvn_project.Pnet.{Pnet}
use pvn_project.TcpBuffer.{
  TcpBuffer, new, process_valid_data, add_packet_data, get_data, drain_front, drain, len,
}
use pvn_project.TcpBuffer.Shape.{IsValid, new-IsValid, add_packet_data-IsValid, drain-IsValid}
use pvn_project.TcpBuffer.Stream.{Follows, new-Follows, drain_front-Follows, get_data-eq-prefix}
use pvn_project.TcpBuffer.Ops.{Carries, add_packet_data-fixed, add_packet_data-Follows}

-- What the owner of a buffer does with it.
pub data Op (P : Type 0) : Type 0 where
  arrives : P → Op P
  drains : ℕ → Op P

module _ {P : Type 0} (net : Pnet P) where
  unfoldable pub deliver : TcpBuffer → List (Op P) → Option TcpBuffer
  deliver b [] = some b
  deliver b (arrives p ∷ ops) = deliver (add_packet_data net b p) ops
  deliver b (drains n ∷ ops) = drain b n >>= λ b'. deliver b' ops

  -- Every packet of the history holds bytes of the one stream that starts at `initial`.
  abbrev pub Consistent : (ℕ → ℕ) → ℕ → ℕ → List (Op P) → Type 0
  Consistent stream initial capacity [] = Unit
  Consistent stream initial capacity (arrives p ∷ ops) =
      Carries net stream initial capacity p × Consistent stream initial capacity ops
  Consistent stream initial capacity (drains n ∷ ops) =
      (initial + n < u32_mod) × Consistent (λ i. stream (n + i)) (initial + n) capacity ops

abbrev pub drained : {P : Type 0} → List (Op P) → ℕ
drained [] = 0
drained (arrives p ∷ ops) = drained ops
drained (drains n ∷ ops) = n + drained ops

drain_front-fixed :
    (b : TcpBuffer) (n : ℕ)
    → b.initial_seqno + n < u32_mod
    → ((drain_front b n).initial_seqno ≡ b.initial_seqno + n)
      × ((drain_front b n).max_capacity ≡ b.max_capacity)
unfolding drain_front process_valid_data
drain_front-fixed b n h = (omega arith, refl)

module _ {P : Type 0} (net : Pnet P) where
  deliver-Follows :
      (stream : ℕ → ℕ) (b : TcpBuffer) (ops : List (Op P)) {b' : TcpBuffer}
      → b.initial_seqno < u32_mod
      → IsValid b
      → Consistent net stream b.initial_seqno b.max_capacity ops
      → Follows stream b
      → deliver net b ops ≡ some b'
      → Follows (λ i. stream (drained ops + i)) b'
  unfolding deliver
  deliver-Follows stream b [] {b'} word v c f e =
      subst (Follows (λ i. stream (0 + i))) (same e) (simp zero-add f)
    where
      same : some b ≡ some b' → b ≡ b'
      same p = cc
  deliver-Follows stream b (arrives p ∷ ops) {b'} word v c f e =
      let fixed = add_packet_data-fixed net b p in
      deliver-Follows stream (add_packet_data net b p) ops (rw fixed.0 word)
        (add_packet_data-IsValid net b p v) (rw (fixed.0, fixed.1) c.1)
        (add_packet_data-Follows net stream b p word c.0 f) e
  deliver-Follows stream b (drains n ∷ ops) {b'} word v c f e = elim (drain-IsValid b n v) [
    | inl (far, p) ↦ cc (rw p at e)
    | inr (near, p, w) ↦
        let fixed = drain_front-fixed b n c.0 in
        subst (λ s. Follows s b') (fun_ext (λ i. ap stream (sym (add_assoc n (drained ops) i))))
          (deliver-Follows (λ i. stream (n + i)) (drain_front b n) ops (rw fixed.0 c.0) w
            (rw (fixed.0, fixed.1) c.1) (drain_front-Follows stream b n f) (rw p at e))
  ]

  -- Whatever packets of one byte stream arrive, in whatever order, overlapping, repeated or cut
  -- off, and whatever is drained between them without asking for more than is buffered: what can
  -- then be read is a piece of the stream with no gap, from behind the drained bytes on. The
  -- sequence numbers must not wrap around within the history.
  pub deliver-prefix :
      (stream : ℕ → ℕ) (initial capacity : ℕ) (ops : List (Op P)) {b : TcpBuffer}
      → initial < u32_mod
      → Consistent net stream initial capacity ops
      → deliver net (new initial capacity) ops ≡ some b
      → get_data b ≡ prefix (λ i. stream (drained ops + i)) (len b)
  unfolding new len
  deliver-prefix stream initial capacity ops {b} word c e =
      get_data-eq-prefix (λ i. stream (drained ops + i)) b
        (deliver-Follows stream (new initial capacity) ops word (new-IsValid initial capacity) c
          (new-Follows stream initial capacity) e)
