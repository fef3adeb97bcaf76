-- ===== src/Network/Distribution.antt =====
-- internal/distribution/distribution.go: which distributions are valid, and the bounds of a sample.
-- `parse_duration` is `time.ParseDuration`, `parse_float` is `strconv.ParseFloat`.
use v.Common.{
  ◌⊎◌, inl, inr, Bool, not, ◌&&◌, ◌||◌, Option, none, some, List, [], ◌∷◌, String, ◌==◌,
  if◌then◌else◌, fail_if, first_of, or_zero,
}
use v.Common.Int.{ℤ, pos, ltb_ℤ, is_pos, max_ℤ, min_ℤ}
use v.Common.Float.{Float}

pub record Distribution (F : Type 0) : Type 0 where
  pub model : String
  pub value : String
  pub mean : String
  pub sigma : String
  pub xm : String
  pub alpha : F
  pub beta : F
  pub scale : String
  pub mu : F
  pub log_sigma : F
  pub min : String
  pub max : String

pub data DistributionError : Type 0 where
  model_required unsupported_model invalid_duration negative_duration not_positive bad_alpha
        scale_and_beta no_rate sigma_twice bad_sigma bad_lognormal min_above_max :
      DistributionError

module _ (f : Float) (parse_duration : String → Option ℤ) (parse_float : String → Option f.F) where
  abbrev pub zero_float : f.F
  zero_float = f.of_int (pos 0)

  -- `finitePositive`, and `networkPositiveFinite` of model/network.go.
  unfoldable pub finite_positive : f.F → Bool
  finite_positive x = f.lt zero_float x && not (f.is_nan x) && not (f.is_inf x)

  -- `parseDurationOrZero`.
  unfoldable pub parse_duration_or_zero : String → DistributionError ⊎ ℤ
  parse_duration_or_zero s = if s == "" then inr (pos 0) else elim (parse_duration s) [
    | none ↦ inl invalid_duration
    | some d ↦ if ltb_ℤ d (pos 0) then inl negative_duration else inr d
  ]

  abbrev pub error_of : DistributionError ⊎ ℤ → Option DistributionError
  error_of (inl e) = some e
  error_of (inr d) = none

  unfoldable pub positive_duration : String → Option DistributionError
  unfolding parse_duration_or_zero
  positive_duration s = elim (parse_duration_or_zero s) [
    | inl e ↦ some e
    | inr d ↦ fail_if (not (is_pos d)) not_positive
  ]

  -- `lognormalSigma`.
  unfoldable pub lognormal_sigma : Distribution f.F → Option f.F
  lognormal_sigma d = if d.sigma == "" then some d.log_sigma else parse_float d.sigma

  unfoldable pub check_gamma : Distribution f.F → Option DistributionError
  unfolding finite_positive positive_duration
  check_gamma d =
      if not (finite_positive d.alpha)
      then some bad_alpha
      else if not (d.scale == "") && not (f.eq d.beta zero_float)
      then some scale_and_beta
      else if not (d.scale == "")
      then positive_duration d.scale
      else fail_if (not (finite_positive d.beta)) no_rate

  unfoldable pub check_lognormal : Distribution f.F → Option DistributionError
  unfolding lognormal_sigma
  check_lognormal d =
      if not (d.sigma == "") && not (f.eq d.log_sigma zero_float)
      then some sigma_twice
      else elim (lognormal_sigma d) [
        | none ↦ some bad_sigma
        | some s ↦
            fail_if
              (f.is_nan d.mu || f.is_inf d.mu || f.is_nan s || f.is_inf s || f.lt s zero_float)
              bad_lognormal
      ]

  -- The switch of `Validate`.
  unfoldable pub check_model : Distribution f.F → Option DistributionError
  unfolding check_gamma check_lognormal
  check_model d =
      if d.model == "fixed"
      then error_of (parse_duration_or_zero d.value)
      else if d.model == "exponential" || d.model == "poisson"
      then positive_duration d.mean
      else if d.model == "normal"
      then first_of (
          elim (parse_duration d.mean) [ none ↦ some invalid_duration | some _ ↦ none ]
          ∷ error_of (parse_duration_or_zero d.sigma)
          ∷ [])
      else if d.model == "pareto"
      then first_of
          (positive_duration d.xm ∷ fail_if (not (finite_positive d.alpha)) bad_alpha ∷ [])
      else if d.model == "gamma"
      then check_gamma d
      else if d.model == "lognormal"
      then check_lognormal d
      else some unsupported_model

  abbrev pub or_zero_duration : DistributionError ⊎ ℤ → ℤ
  or_zero_duration (inl e) = pos 0
  or_zero_duration (inr d) = d

  abbrev pub range_checks : Distribution f.F → List (Option DistributionError)
  range_checks d =
      let low = parse_duration_or_zero d.min in
      let high = parse_duration_or_zero d.max in
      error_of low
      ∷ error_of high
      ∷ fail_if
          (not (d.min == "")
            && not (d.max == "")
            && ltb_ℤ (or_zero_duration high) (or_zero_duration low))
          min_above_max
      ∷ []

  -- The end of `Validate`.
  unfoldable pub check_range : Distribution f.F → Option DistributionError
  unfolding first_of
  check_range d = first_of (range_checks d)

  -- `Validate`.
  unfoldable pub check_distribution : Bool → Distribution f.F → Option DistributionError
  unfolding check_model check_range
  check_distribution optional d =
      if d.model == ""
      then (if optional then none else some model_required)
      else first_of (check_model d ∷ check_range d ∷ [])

  -- `d, _ := time.ParseDuration(s)`.
  abbrev pub parsed : String → ℤ
  parsed s = or_zero (pos 0) (parse_duration s)

  -- `Sample`, from the value that the model draws.
  unfoldable pub clamp_sample : Distribution f.F → ℤ → ℤ
  clamp_sample d drawn =
      let value = max_ℤ drawn (pos 0) in
      let above = if d.min == "" then value else max_ℤ value (parsed d.min) in
      if d.model == "" then pos 0 else if d.max == "" then above else min_ℤ above (parsed d.max)
