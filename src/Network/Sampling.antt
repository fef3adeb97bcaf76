-- ===== src/Network/Sampling.antt =====
-- The bounds of a sampled duration.
use mathlib.Core.Path.{subst}
use v.Common.{
  ◌≡◌, refl, sym, ◌⊎◌, inl, inr, Bool, true, false, Option, none, Option-cases, Bool-cases, [], ◌∷◌,
  All, String, ◌==◌, if◌then◌else◌, str_eq_iff, first_of, first_of-none, arith,
}
use v.Common.Int.{ℤ, pos, ◌≤ℤ◌, ltb_ℤ, max_ℤ, min_ℤ}
use v.Common.Float.{Float}
use v.Network.Distribution.{
  Distribution, DistributionError, parse_duration_or_zero, error_of, or_zero_duration, check_model,
  check_range, range_checks, check_distribution, clamp_sample, parsed,
}

module _ (f : Float) (parse_duration : String → Option ℤ) (parse_float : String → Option f.F) where
  error_of-none :
      (r : DistributionError ⊎ ℤ)
      → error_of f parse_duration parse_float r ≡ none
      → r ≡ inr (or_zero_duration f parse_duration parse_float r)
  error_of-none (inl e) h = cc
  error_of-none (inr d) h = refl

  -- A bound that is given is the parsed duration, and is not negative.
  bound_lem :
      (s : String)
      → error_of f parse_duration parse_float
          (parse_duration_or_zero f parse_duration parse_float s)
        ≡ none
      → (s == "") ≡ false
      → (or_zero_duration f parse_duration parse_float
            (parse_duration_or_zero f parse_duration parse_float s)
          ≡ parsed f parse_duration parse_float s)
        × (pos 0 ≤ℤ parsed f parse_duration parse_float s)
  unfolding parse_duration_or_zero
  bound_lem s h given = elim (Option-cases (parse_duration s)) [
    | inl bad ↦ absurd (ground (arith, bad, given))
    | inr (d, e) ↦ elim (Bool-cases (ltb_ℤ d (pos 0))) [
      | inl below ↦ absurd (ground (arith, e, given, below))
      | inr above ↦ (ground (arith, e, given, above), ground (arith, e, above))
    ]
  ]

  check_distribution-none :
      (d : Distribution f.F)
      → check_distribution f parse_duration parse_float false d ≡ none
      → ((d.model == "") ≡ false) × (check_range f parse_duration parse_float d ≡ none)
  unfolding check_distribution
  check_distribution-none d h = elim (Bool-cases (d.model == "")) [
    | inl no_model ↦ absurd (ground (arith, no_model))
    | inr has_model ↦
        let checks =
          check_model f parse_duration parse_float d
          ∷ check_range f parse_duration parse_float d
          ∷ [] in
        let all : first_of checks ≡ none = ground (arith, has_model) in
        (has_model, (first_of-none checks all).1.0)
  ]

  check_range-none :
      (d : Distribution f.F)
      → check_range f parse_duration parse_float d ≡ none
      → All (λ c. c ≡ none) (range_checks f parse_duration parse_float d)
  unfolding check_range
  check_range-none d h = first_of-none (range_checks f parse_duration parse_float d) h

  -- The bounds, for durations in place of their texts.
  abbrev clamped : Bool → Bool → ℤ → ℤ → ℤ → ℤ
  clamped no_min no_max min max drawn =
      let value = max_ℤ drawn (pos 0) in
      let above = if no_min then value else max_ℤ value min in
      if no_max then above else min_ℤ above max

  clamped_lem :
      (no_min no_max : Bool) (min max drawn : ℤ)
      → (no_min ≡ false → pos 0 ≤ℤ min)
      → (no_max ≡ false → pos 0 ≤ℤ max)
      → (no_min ≡ false → no_max ≡ false → ltb_ℤ max min ≡ false)
      → (pos 0 ≤ℤ clamped no_min no_max min max drawn)
        × (no_min ≡ false → min ≤ℤ clamped no_min no_max min max drawn)
        × (no_max ≡ false → clamped no_min no_max min max drawn ≤ℤ max)
  clamped_lem true true min max drawn a b c = (ground arith, λ e. cc, λ e. cc)
  clamped_lem true false min max drawn a b c =
      (ground (arith, b refl), λ e. cc, λ e. ground (arith, b refl))
  clamped_lem false true min max drawn a b c =
      (ground (arith, a refl), λ e. ground (arith, a refl), λ e. cc)
  clamped_lem false false min max drawn a b c = (
    ground (arith, a refl, b refl),
    λ e. ground (arith, a refl, b refl, c refl refl),
    λ e. ground (arith, b refl),
  )

  -- A sample of a valid distribution is not negative, and keeps to the bounds that are given,
  -- whatever its model draws.
  pub sample_bounds :
      (d : Distribution f.F) (drawn : ℤ)
      → check_distribution f parse_duration parse_float false d ≡ none
      → (pos 0 ≤ℤ clamp_sample f parse_duration parse_float d drawn)
        × ((d.min ≡ "")
            ⊎ (parsed f parse_duration parse_float d.min
                ≤ℤ clamp_sample f parse_duration parse_float d drawn))
        × ((d.max ≡ "")
            ⊎ (clamp_sample f parse_duration parse_float d drawn
                ≤ℤ parsed f parse_duration parse_float d.max))
  unfolding clamp_sample
  sample_bounds d drawn h =
      let (has_model, range) = check_distribution-none d h in
      let all = check_range-none d range in
      let min = parsed f parse_duration parse_float d.min in
      let max = parsed f parse_duration parse_float d.max in
      let r : clamp_sample f parse_duration parse_float d drawn
          ≡ clamped (d.min == "") (d.max == "") min max drawn =
        ground (arith, has_model) in
      let (a, b, c) =
        clamped_lem (d.min == "") (d.max == "") min max drawn (λ e. (bound_lem d.min all.0 e).1)
          (λ e. (bound_lem d.max all.1.0 e).1)
          (λ e e'.
            ground (arith, all.1.1.0, bound_lem d.min all.0 e, bound_lem d.max all.1.0 e')) in
      (
        subst (λ s. pos 0 ≤ℤ s) (sym r) a,
        elim (Bool-cases (d.min == "")) [
          | inl e ↦ inl ((str_eq_iff d.min "").0 e)
          | inr e ↦ inr (subst (λ s. min ≤ℤ s) (sym r) (b e))
        ],
        elim (Bool-cases (d.max == "")) [
          | inl e ↦ inl ((str_eq_iff d.max "").0 e)
          | inr e ↦ inr (subst (λ s. s ≤ℤ max) (sym r) (c e))
        ],
      )
