-- ===== src/Prelude/Int.antt =====
-- Differences of times, which are negative when a clock was set back.
use Prim.Native.Nat.{ℕ, ◌-◌}
use auto_ops.Prelude.Tests.{leb, if◌then◌else◌}

-- `negsuc n` is -(n + 1).
pub data ℤ : Type 0 where
  pos : ℕ → ℤ
  negsuc : ℕ → ℤ

-- a - b, as an integer.
abbrev pub sub_ℕ : ℕ → ℕ → ℤ
sub_ℕ a b = if leb b a then pos (a - b) else negsuc (b - a - 1)
