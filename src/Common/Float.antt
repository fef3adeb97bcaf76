-- ===== src/Common/Float.antt =====
-- `float64`, which this library does not define: the operations that the program calls.
use mathlib.Core.Path.{◌≡◌}
use mathlib.Core.Bool.{Bool, true, false, not, ◌&&◌}
use v.Common.Int.{ℤ, is_pos}

-- `of_int` converts; `lt` and `eq` are Go's `<` and `==`.
pub record Float : Type 1 where
  pub F : Type 0
  pub of_int : ℤ → F
  pub plus : F → F → F
  pub div : F → F → F
  pub lt : F → F → Bool
  pub eq : F → F → Bool
  pub is_nan : F → Bool
  pub is_inf : F → Bool

-- What IEEE 754 promises of comparisons, and of the numbers that come from integers.
pub record IsIeee (f : Float) : Type 0 where
  pub lt_irrefl : (x : f.F) → f.lt x x ≡ false
  pub lt_trans : (x y z : f.F) → f.lt x y ≡ true → f.lt y z ≡ true → f.lt x z ≡ true
  pub tie :
      (x y : f.F)
      → f.is_nan x ≡ false
      → f.is_nan y ≡ false
      → f.eq x y ≡ (not (f.lt x y) && not (f.lt y x))
  pub tie_trans :
      (x y z : f.F)
      → f.is_nan x ≡ false
      → f.is_nan y ≡ false
      → f.is_nan z ≡ false
      → f.lt x y ≡ false
      → f.lt y z ≡ false
      → f.lt x z ≡ false
  pub sum_number : (a b : ℤ) → f.is_nan (f.plus (f.of_int a) (f.of_int b)) ≡ false
  pub quotient_number :
      (a b c : ℤ)
      → is_pos c ≡ true
      → f.is_nan (f.div (f.plus (f.of_int a) (f.of_int b)) (f.of_int c)) ≡ false
