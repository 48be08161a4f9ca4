-- ===== src/Tests/Exact.antt =====
-- Exact fractions in the place of doubles.
use money_management_app.Prelude.{ℕ, ◌+◌, ◌*◌, ◌/◌, ◌≤◌, ◌<◌, ◌≡◌, Bool, true, false, leb, arith}
use money_management_app.Prelude.Doubles.{Doubles, largest}

pub record Fraction : Type 0 where
  pub part : ℕ
  pub whole : ℕ

abbrev pub cents : ℕ → Fraction
cents n = record { part = n; whole = 100 }

abbrev pub sum : Fraction → Fraction → Fraction
sum x y = record { part = x.part * y.whole + y.part * x.whole; whole = x.whole * y.whole }

abbrev pub quotient : Fraction → Fraction → Fraction
quotient x y = record { part = x.part * y.whole; whole = x.whole * y.part }

abbrev pub below : Fraction → Fraction → Bool
below x y = leb (x.part * y.whole) (y.part * x.whole)

abbrev pub rounded : Fraction → ℕ
rounded x = x.part * 100 / x.whole

pub below-above :
    (a b t : ℕ) → a + b ≤ largest → t < a + b → below (cents t) (sum (cents a) (cents b)) ≡ true
below-above a b t fits more = ground arith

pub below-below :
    (a b t : ℕ) → t ≤ largest → a + b < t → below (cents t) (sum (cents a) (cents b)) ≡ false
below-below a b t fits less = ground arith

abbrev pub exact : Doubles
exact = record {
  Num = Fraction;
  of_nat = λ n. record { part = n; whole = 1 };
  of_cents = cents;
  add = sum;
  div = quotient;
  leb_num = below;
  to_cents = rounded;
  to_cents-of_cents = λ a fits. omega arith;
  to_cents-add = λ a b fits. omega arith;
  leb_num-above = below-above;
  leb_num-below = below-below;
}
