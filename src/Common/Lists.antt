-- ===== src/Common/Lists.antt =====
-- Lists measured by native numbers, sets of texts as lists, and predicates over a list.
use Prim.Native.Nat.{ℕ, zero, suc, ◌+◌, ◌≤◌, ◌<◌}
use Prim.Native.String.{String}
use mathlib.Core.Path.{◌≡◌, subst}
use mathlib.Core.Bool.{Bool, true, false, not, ◌||◌}
use mathlib.Core.List.{List, [], ◌∷◌, ◌++◌}
use mathlib.Core.Option.{Option, none, some, some-injective}
use native.Mathlib.Omega.{arith}
use mathlib.Core.Logic.{inl, inr, ◌≢◌}
use v.Common.Tests.{◌==◌, if◌then◌else◌, str_eq_iff, Bool-cases}

module _ {ℓ} {A : Type ℓ} where
  abbrev pub length : List A → ℕ
  length [] = 0
  length (x ∷ xs) = suc (length xs)

  abbrev pub filter : (A → Bool) → List A → List A
  filter p [] = []
  filter p (x ∷ xs) = let rest = filter p xs in if p x then x ∷ rest else rest

  abbrev pub take : ℕ → List A → List A
  take zero xs = []
  take (suc n) [] = []
  take (suc n) (x ∷ xs) = x ∷ take n xs

  abbrev pub drop : ℕ → List A → List A
  drop zero xs = xs
  drop (suc n) [] = []
  drop (suc n) (x ∷ xs) = drop n xs

  abbrev pub get_elem? : List A → ℕ → Option A
  get_elem? [] i = none
  get_elem? (x ∷ xs) zero = some x
  get_elem? (x ∷ xs) (suc i) = get_elem? xs i

  abbrev pub All {κ} : (A → Type κ) → List A → Type κ
  All P [] = Unit
  All P (x ∷ xs) = P x × All P xs

  pub All-get_elem? {κ} :
      (P : A → Type κ) (xs : List A) (i : ℕ) (a : A) → All P xs → get_elem? xs i ≡ some a → P a
  All-get_elem? P [] i a h e = cc
  All-get_elem? P (x ∷ xs) zero a h e = subst P (some-injective x a e) h.0
  All-get_elem? P (x ∷ xs) (suc i) a h e = All-get_elem? P xs i a h.1 e

  pub get_elem?-some : (xs : List A) (i : ℕ) → i < length xs → get_elem? xs i ≢ none
  get_elem?-some [] i h e = elim h [ ]
  get_elem?-some (x ∷ xs) zero h e = cc
  get_elem?-some (x ∷ xs) (suc i) h e = get_elem?-some xs i (omega arith) e

  pub length-append : (xs ys : List A) → length (xs ++ ys) ≡ length xs + length ys
  length-append [] ys = omega arith
  length-append (x ∷ xs) ys = omega (arith, length-append xs ys)

  pub length-filter-le : (p : A → Bool) (xs : List A) → length (filter p xs) ≤ length xs
  length-filter-le p [] = omega arith
  length-filter-le p (x ∷ xs) = ground (arith, length-filter-le p xs)

-- `_, found := set[a]`.
unfoldable pub contains : String → List String → Bool
contains a [] = false
contains a (x ∷ xs) = x == a || contains a xs

-- `set[a] = struct{}{}`.
unfoldable pub add : String → List String → List String
unfolding contains
add a xs = if contains a xs then xs else a ∷ xs

-- `delete(set, a)`.
unfoldable pub remove : String → List String → List String
remove a xs = filter (λ x. not (x == a)) xs

pub contains-add :
    (a b : String) (xs : List String)
    → contains b (add a xs) ≡ (if a == b then true else contains b xs)
unfolding contains add
contains-add a b xs = elim (Bool-cases (contains a xs)) [
  | inl old ↦ ground (arith, old, str_eq_iff a b)
  | inr new ↦ ground (arith, new, str_eq_iff a b)
]

pub contains-remove :
    (a b : String) (xs : List String)
    → contains b (remove a xs) ≡ (if a == b then false else contains b xs)
unfolding contains remove
contains-remove a b [] = ground arith
contains-remove a b (x ∷ xs) =
    ground (arith, str_eq_iff x a, str_eq_iff x b, str_eq_iff a b, contains-remove a b xs)
