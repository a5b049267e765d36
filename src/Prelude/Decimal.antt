-- ===== src/Prelude/Decimal.antt =====
-- `String(n)` of a natural number.
use Prim.Native.Nat.{ℕ, zero, suc, ◌/◌, ◌%◌, ◌<◌}
use Prim.Native.String.{String}
use mathlib.Core.Path.{◌≡◌, refl}
use native.Mathlib.Omega.{arith}
use auto_ops.Prelude.Tests.{ltb, if◌then◌else◌}
use auto_ops.Prelude.Text.{◌<>◌}

digit : ℕ → String
digit zero = "0"
digit (suc zero) = "1"
digit (suc (suc zero)) = "2"
digit (suc (suc (suc zero))) = "3"
digit (suc (suc (suc (suc zero)))) = "4"
digit (suc (suc (suc (suc (suc zero))))) = "5"
digit (suc (suc (suc (suc (suc (suc zero)))))) = "6"
digit (suc (suc (suc (suc (suc (suc (suc zero))))))) = "7"
digit (suc (suc (suc (suc (suc (suc (suc (suc zero)))))))) = "8"
digit _ = "9"

decimal_with : ℕ → ℕ → String
decimal_with zero n = ""
decimal_with (suc fuel) n =
    let high = decimal_with fuel (n / 10) in if ltb n 10 then digit n else high <> digit (n % 10)

-- Each round divides by ten, so that the number itself is fuel enough.
unfoldable pub decimal : ℕ → String
unfolding decimal_with digit
decimal n = decimal_with (suc n) n

-- More fuel changes nothing.
decimal_with_enough :
    (fuel more n : ℕ) → n < fuel → n < more → decimal_with fuel n ≡ decimal_with more n
unfolding decimal_with
decimal_with_enough zero more n h k = elim h [ ]
decimal_with_enough (suc fuel) zero n h k = elim k [ ]
decimal_with_enough (suc fuel) (suc more) n h k =
    ground (arith, decimal_with_enough fuel more (n / 10))

writes : decimal 1204 ≡ "1204"
unfolding decimal
writes = refl
