-- ===== src/Validator/Window.antt =====
-- When the next expected sequence number of one side moves on.
use pvn_project.Base.{ℕ, ◌≤◌, ◌<◌, ◌≡◌, ◌↔◌, ◌⊎◌, true, some, arith, u32_mod}
use pvn_project.TcpBuffer.Offset.{distance}
use pvn_project.Validator.{moves_on}

-- Of two `u32` numbers, a new one takes the place of the expected one exactly where it is greater,
-- or where it has wrapped around and is at most 20 ahead on the circle: `tcp_max_window` is 20.
pub moves_on_iff :
    (target next : ℕ)
    → target < u32_mod
    → next < u32_mod
    → (moves_on (some target) next ≡ true)
      ↔ ((target < next) ⊎ ((next < target) × (distance target next ≤ 20)))
unfolding moves_on
moves_on_iff target next h k = ground arith
