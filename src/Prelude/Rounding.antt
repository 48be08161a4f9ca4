-- ===== src/Prelude/Rounding.antt =====
-- `Math.ceil` and `Math.round` of a quotient.
use Prim.Native.Nat.{ℕ, ◌+◌, ◌-◌, ◌*◌, ◌/◌}
use money_management_app.Prelude.Tests.{leb, if◌then◌else◌}
use money_management_app.Prelude.Int.{ℤ, pos, negsuc}

-- `Math.ceil(a / b)`, for a positive divisor.
unfoldable pub ceil_div : ℕ → ℕ → ℕ
ceil_div a b = (a + b - 1) / b

-- `Math.round(a / b)`, for a positive divisor: halves are rounded up.
unfoldable pub round_div : ℕ → ℕ → ℕ
round_div a b = (2 * a + b) / (2 * b)

-- `Math.round(a / b)`, for a positive divisor and a numerator of either sign.
unfoldable pub round_div_ℤ : ℤ → ℕ → ℤ
unfolding round_div
round_div_ℤ (pos a) b = pos (round_div a b)
round_div_ℤ (negsuc a) b = if leb (2 * a + 2) b then pos 0 else negsuc ((2 * a + 1 - b) / (2 * b))
