-- ===== src/Common/Maps.antt =====
-- A Go map with text keys, as an association list.
use Prim.Native.String.{String}
use mathlib.Core.Path.{◌≡◌, refl}
use mathlib.Core.Option.{Option, none, some}
use mathlib.Core.List.{List, [], ◌∷◌}
use native.Mathlib.Omega.{arith}
use mathlib.Core.Logic.{inl, inr}
use v.Common.Tests.{◌==◌, if◌then◌else◌, str_eq_iff, str_eq_refl, Bool-cases}
use v.Common.Lists.{All}

abbrev pub Dict {ℓ} : Type ℓ → Type ℓ
Dict V = List (String × V)

module _ {ℓ} {V : Type ℓ} where
  unfoldable pub lookup : String → Dict V → Option V
  lookup key [] = none
  lookup key ((name, x) ∷ rest) = if name == key then some x else lookup key rest

  -- `m[k]`, whose default is the zero value.
  abbrev pub or_zero : V → Option V → V
  or_zero z none = z
  or_zero z (some v) = v

  unfoldable pub delete : String → Dict V → Dict V
  delete key [] = []
  delete key ((name, x) ∷ rest) =
      let left = delete key rest in if name == key then left else (name, x) ∷ left

  unfoldable pub insert : String → V → Dict V → Dict V
  insert key new [] = (key, new) ∷ []
  insert key new ((name, x) ∷ rest) =
      if name == key then (key, new) ∷ rest else (name, x) ∷ insert key new rest

  pub lookup-insert :
      (key wanted : String) (new : V) (m : Dict V)
      → lookup wanted (insert key new m) ≡ (if key == wanted then some new else lookup wanted m)
  unfolding insert lookup
  lookup-insert key wanted new ((name, x) ∷ rest) =
      let ih = lookup-insert key wanted new rest in
      ground (arith, ih, str_eq_iff name wanted, str_eq_iff key wanted, str_eq_iff name key)
  lookup-insert key wanted new [] = refl

  pub lookup-delete :
      (k j : String) (m : Dict V) → lookup j (delete k m) ≡ (if k == j then none else lookup j m)
  unfolding lookup delete
  lookup-delete k j [] = ground arith
  lookup-delete k j ((i, w) ∷ m) =
      ground (arith, str_eq_iff k j, str_eq_iff i k, str_eq_iff i j, lookup-delete k j m)

  -- The keys of a map are distinct.
  abbrev pub Distinct : Dict V → Type ℓ
  Distinct [] = Unit
  Distinct ((k, v) ∷ m) = (lookup k m ≡ none) × Distinct m

  pub insert-Distinct : (k : String) (v : V) (m : Dict V) → Distinct m → Distinct (insert k v m)
  unfolding lookup insert
  insert-Distinct k v [] h = (refl, tt)
  insert-Distinct k v ((j, w) ∷ m) h = elim (Bool-cases (j == k)) [
    | inl same ↦ rw same (ground (arith, str_eq_iff j k))
    | inr new ↦ rw new (
      ground (arith, lookup-insert k j v m, str_eq_iff k j, str_eq_iff j k),
      insert-Distinct k v m h.1,
    )
  ]

  pub delete-Distinct : (k : String) (m : Dict V) → Distinct m → Distinct (delete k m)
  unfolding lookup delete
  delete-Distinct k [] h = tt
  delete-Distinct k ((j, w) ∷ m) h = elim (Bool-cases (j == k)) [
    | inl same ↦ rw same (delete-Distinct k m h.1)
    | inr new ↦ rw new (ground (arith, lookup-delete k j m), delete-Distinct k m h.1)
  ]

  -- What a lookup in `m` finds, a lookup in `m'` finds.
  abbrev pub Extends : Dict V → Dict V → Type ℓ
  Extends m m' = (k : String) (v : V) → lookup k m ≡ some v → lookup k m' ≡ some v

  Extends-tail :
      (k : String) (v : V) (m m' : Dict V)
      → lookup k m ≡ none
      → Extends ((k, v) ∷ m) m'
      → Extends m m'
  unfolding lookup
  Extends-tail k v m m' fresh e j w h = elim (Bool-cases (k == j)) [
    | inl same ↦ ground (arith, str_eq_iff k j)
    | inr other ↦ e j w (rw other h)
  ]

  -- Where the keys are distinct, a lookup finds each entry.
  pub Extends-All :
      (m m' : Dict V)
      → Distinct m
      → Extends m m'
      → All (λ (e : String × V). lookup e.0 m' ≡ some e.1) m
  unfolding lookup
  Extends-All [] m' d e = tt
  Extends-All ((k, v) ∷ m) m' d e =
      (e k v (rw str_eq_refl), Extends-All m m' d.1 (Extends-tail k v m m' d.0 e))
