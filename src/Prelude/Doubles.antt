-- ===== src/Prelude/Doubles.antt =====
-- The numbers of JavaScript, IEEE doubles, where the code adds and compares fractions. They are a
-- parameter of the definitions that use them.
use Prim.Native.Nat.{ℕ, ◌+◌, ◌≤◌, ◌<◌}
use mathlib.Core.Path.{◌≡◌}
use mathlib.Core.Bool.{Bool, true, false}
use money_management_app.Prelude.Tests.{if◌then◌else◌}

-- In hundredths, what a column Decimal(15, 2) holds at most.
abbrev pub largest : ℕ
largest = 999999999999999

-- Operations on doubles. The laws are on sums of two amounts, which are off by less than half a hundredth:
-- a stored sum is exact, and a comparison of a sum is right unless the exact values are equal.
pub record Doubles : Type 1 where
  pub Num : Type 0
  pub of_nat : ℕ → Num
  -- The double next to an amount in hundredths.
  pub of_cents : ℕ → Num
  pub add : Num → Num → Num
  pub div : Num → Num → Num
  pub leb_num : Num → Num → Bool
  -- What a column with two decimal places stores of a number, in hundredths.
  pub to_cents : Num → ℕ
  pub to_cents-of_cents : (a : ℕ) → a ≤ largest → to_cents (of_cents a) ≡ a
  pub to_cents-add : (a b : ℕ) → a + b ≤ largest → to_cents (add (of_cents a) (of_cents b)) ≡ a + b
  pub leb_num-above :
      (a b t : ℕ)
      → a + b ≤ largest
      → t < a + b
      → leb_num (of_cents t) (add (of_cents a) (of_cents b)) ≡ true
  pub leb_num-below :
      (a b t : ℕ)
      → t ≤ largest
      → a + b < t
      → leb_num (of_cents t) (add (of_cents a) (of_cents b)) ≡ false

-- `Math.min`
abbrev pub min_num : (num : Doubles) → num.Num → num.Num → num.Num
min_num num x y = if num.leb_num y x then y else x
