-- ===== src/Base/Words.antt =====
-- Machine words: `u32` arithmetic wraps, as the release profile compiles it.
use Prim.Native.Nat.{ℕ, ◌+◌, ◌%◌}

abbrev pub u32_mod : ℕ
u32_mod = 4294967296

abbrev pub u32_max : ℕ
u32_max = 4294967295

abbrev pub wrapping_add : ℕ → ℕ → ℕ
wrapping_add a b = (a + b) % u32_mod
