-- ===== src/Prelude/Sums.antt =====
-- `xs.reduce((s, x) => s + f(x), 0)` and `_sum` over a list of rows.
use mathlib.Core.Path.{◌≡◌, refl, sym, ap, ap₂, ◌∙◌}
use mathlib.Core.Logic.{inl, inr, ∥∥₁_elim}
use Prim.Native.Nat.{suc}
use native.Mathlib.Nat.{ℕ_set}
use mathlib.Core.HLevel.{hedberg}
use native.Mathlib.Decide.{ℕ_discrete}
use mathlib.Core.Bool.{Bool, not}
use mathlib.Core.List.{List, [], ◌∷◌, ◌++◌, Perm, Permᴰ, flatten}
use money_management_app.Prelude.Tests.{Bool-cases}
use money_management_app.Prelude.Lists.{filter, length}
use money_management_app.Prelude.Int.{ℤ, pos, ◌+ℤ◌, +ℤ_zero, +ℤ_assoc, +ℤ_left_comm, int_laws}

module _ {ℓ} {A : Type ℓ} (f : A → ℤ) where
  -- The reduce loop, from the left.
  abbrev pub sum_from : ℤ → List A → ℤ
  sum_from acc [] = acc
  sum_from acc (x ∷ xs) = sum_from (acc +ℤ f x) xs

  abbrev pub sum_of : List A → ℤ
  sum_of xs = sum_from (pos 0) xs

  -- The sum as a plain recursion.
  abbrev pub sum_right : List A → ℤ
  sum_right [] = pos 0
  sum_right (x ∷ xs) = f x +ℤ sum_right xs

  pub sum_from-eq : (acc : ℤ) (xs : List A) → sum_from acc xs ≡ acc +ℤ sum_right xs
  sum_from-eq acc [] = omega int_laws
  sum_from-eq acc (x ∷ xs) = sum_from-eq (acc +ℤ f x) xs ∙ +ℤ_assoc acc (f x) (sum_right xs)

  pub sum_of-eq : (xs : List A) → sum_of xs ≡ sum_right xs
  sum_of-eq xs = sum_from-eq (pos 0) xs ∙ +ℤ_zero (sum_right xs)

  pub sum_right-append : (xs ys : List A) → sum_right (xs ++ ys) ≡ sum_right xs +ℤ sum_right ys
  sum_right-append [] ys = sym (+ℤ_zero (sum_right ys))
  sum_right-append (x ∷ xs) ys =
      ap (λ s. f x +ℤ s) (sum_right-append xs ys)
      ∙ sym (+ℤ_assoc (f x) (sum_right xs) (sum_right ys))

  -- A sum splits along a test.
  pub sum_right-split :
      (p : A → Bool) (xs : List A)
      → sum_right xs ≡ sum_right (filter p xs) +ℤ sum_right (filter (λ x. not (p x)) xs)
  sum_right-split p [] = omega int_laws
  sum_right-split p (x ∷ xs) = elim (Bool-cases (p x)) [
    | inl e ↦
        rw (e, sum_right-split p xs)
          (sym (+ℤ_assoc (f x) (sum_right (filter p xs)) (sum_right (filter (λ y. not (p y)) xs))))
    | inr e ↦
        rw (e, sum_right-split p xs)
          (+ℤ_left_comm (f x) (sum_right (filter p xs)) (sum_right (filter (λ y. not (p y)) xs)))
  ]

ℤ_discrete : Discrete ℤ
ℤ_discrete = hlevel ℕ_discrete

module _ {A : Type 0} (f : A → ℤ) where
  sum_right-permᴰ : {xs ys : List A} → Permᴰ xs ys → sum_right f xs ≡ sum_right f ys
  sum_right-permᴰ Permᴰ.nil = refl
  sum_right-permᴰ (Permᴰ.cons e p) = ap₂ (λ a s. f a +ℤ s) e (sum_right-permᴰ p)
  sum_right-permᴰ (Permᴰ.swap {a} {b} {l} e e') =
      rw (← e, ← e') (+ℤ_left_comm (f a) (f b) (sum_right f l))
  sum_right-permᴰ (Permᴰ.trans p q) = sum_right-permᴰ p ∙ sum_right-permᴰ q

  -- The order of the rows does not matter to a sum.
  pub sum_right-perm : {xs ys : List A} → Perm xs ys → sum_right f xs ≡ sum_right f ys
  sum_right-perm {xs} {ys} p =
      ∥∥₁_elim p (hedberg ℤ_discrete (sum_right f xs) (sum_right f ys)) sum_right-permᴰ

  -- The sums of the groups add up to the sum of all.
  pub sum_right-flatten :
      (gs : List (List A)) → sum_right f (flatten gs) ≡ sum_right (λ g. sum_right f g) gs
  unfolding flatten
  sum_right-flatten [] = refl
  sum_right-flatten (g ∷ gs) =
      sum_right-append f g (flatten gs) ∙ ap (λ s. sum_right f g +ℤ s) (sum_right-flatten gs)

module _ {A : Type 0} where
  length-permᴰ : {xs ys : List A} → Permᴰ xs ys → length xs ≡ length ys
  length-permᴰ Permᴰ.nil = refl
  length-permᴰ (Permᴰ.cons e p) = ap suc (length-permᴰ p)
  length-permᴰ (Permᴰ.swap e e') = refl
  length-permᴰ (Permᴰ.trans p q) = length-permᴰ p ∙ length-permᴰ q

  pub length-perm : {xs ys : List A} → Perm xs ys → length xs ≡ length ys
  length-perm {xs} {ys} p = ∥∥₁_elim p (ℕ_set (length xs) (length ys)) length-permᴰ
