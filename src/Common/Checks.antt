-- ===== src/Common/Checks.antt =====
-- Validation, as a list of checks of which the first error is returned.
use mathlib.Core.Path.{◌≡◌, refl}
use mathlib.Core.Bool.{Bool, true, false}
use mathlib.Core.Option.{Option, none, some}
use mathlib.Core.List.{List, [], ◌∷◌}
use v.Common.Lists.{All}

module _ {ℓ} {E : Type ℓ} where
  -- `if b { return e }`.
  abbrev pub fail_if : Bool → E → Option E
  fail_if true e = some e
  fail_if false e = none

  unfoldable pub first_of : List (Option E) → Option E
  first_of [] = none
  first_of (none ∷ checks) = first_of checks
  first_of (some e ∷ checks) = some e

  pub first_of-none :
      (checks : List (Option E)) → first_of checks ≡ none → All (λ c. c ≡ none) checks
  unfolding first_of
  first_of-none [] h = tt
  first_of-none (none ∷ checks) h = (refl, first_of-none checks h)
  first_of-none (some e ∷ checks) h = cc

  pub none-first_of :
      (checks : List (Option E)) → All (λ c. c ≡ none) checks → first_of checks ≡ none
  unfolding first_of
  none-first_of [] h = refl
  none-first_of (none ∷ checks) h = none-first_of checks h.1
  none-first_of (some e ∷ checks) h = cc

  pub fail_if-false : (b : Bool) (e : E) → fail_if b e ≡ none → b ≡ false
  fail_if-false true e h = cc
  fail_if-false false e h = refl
