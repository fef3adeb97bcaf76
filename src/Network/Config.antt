-- ===== src/Network/Config.antt =====
-- internal/model/network.go: the impairments of a peer's network, their validation and their sampling.
-- `parse_duration` is `time.ParseDuration`, `print_duration` is `Duration.String`.
use v.Common.{
  Bool, true, false, not, ◌&&◌, ◌||◌, Option, none, some, List, [], ◌∷◌, String, ◌==◌,
  if◌then◌else◌, fail_if, first_of,
}
use v.Common.Int.{ℤ, pos, ltb_ℤ, is_pos, eq_ℤ}
use v.Common.Float.{Float}
use v.Network.Distribution.{
  Distribution, DistributionError, zero_float, finite_positive, check_distribution, parsed,
  clamp_sample,
}

pub record TbfConfig (F : Type 0) : Type 0 where
  pub rate_mbps : F
  pub burst_kbit : F
  pub latency : String

pub record NetworkConfig (F : Type 0) : Type 0 where
  pub scope : String
  pub delay : String
  pub delay_distribution : Option (Distribution F)
  pub jitter : String
  pub jitter_distribution : String
  pub loss_percent : Option F
  pub duplicate_percent : Option F
  pub corrupt_percent : Option F
  pub reorder_percent : Option F
  pub reorder_correlation_percent : Option F
  pub rate_mbps : Option F
  pub tbf : Option (TbfConfig F)
  pub queue_limit : Option ℤ

pub data NetworkError : Type 0 where
  bad_scope bad_jitter_distribution bad_duration jitter_too_large delay_twice no_minimum
        jitter_without_delay bad_percent reorder_without_delay correlation_without_reorder bad_rate
        rate_twice bad_tbf bad_latency bad_queue_limit no_random_source :
      NetworkError
  bad_delay_distribution : DistributionError → NetworkError

-- `math.MaxInt32`, and `math.MaxUint32` microseconds.
abbrev pub max_int32 : ℤ
max_int32 = pos 2_147_483_647

abbrev pub microsecond : ℤ
microsecond = pos 1000

abbrev pub max_latency : ℤ
max_latency = pos 4_294_967_295_000

abbrev pub max_uint32 : ℤ
max_uint32 = pos 4_294_967_295

abbrev pub absent : {A : Type 0} → Option A → Bool
absent none = true
absent (some a) = false

module _ (f : Float) (parse_duration : String → Option ℤ) (parse_float : String → Option f.F) where
  unfoldable pub network_duration : String → Option ℤ
  network_duration s = if s == "" then some (pos 0) else elim (parse_duration s) [
    | none ↦ none
    | some d ↦ if ltb_ℤ d (pos 0) then none else some d
  ]

  abbrev pub known : Option ℤ → ℤ
  known none = pos 0
  known (some d) = d

  abbrev pub missing : Option ℤ → Bool
  missing none = true
  missing (some d) = false

  -- `value != nil && *value > 0`.
  abbrev pub above_zero : Option f.F → Bool
  above_zero none = false
  above_zero (some x) = f.lt (zero_float f parse_duration parse_float) x

  -- `value == nil || *value <= 0`.
  abbrev pub not_above_zero : Option f.F → Bool
  not_above_zero none = true
  not_above_zero (some x) =
      let zero = zero_float f parse_duration parse_float in f.lt x zero || f.eq x zero

  abbrev pub bad_percentage : Option f.F → Bool
  bad_percentage none = false
  bad_percentage (some x) =
      f.is_nan x
      || f.is_inf x
      || f.lt x (zero_float f parse_duration parse_float)
      || f.lt (f.of_int (pos 100)) x

  abbrev pub bad_rate_value : Option f.F → Bool
  bad_rate_value none = false
  bad_rate_value (some x) =
      f.is_nan x || f.is_inf x || f.lt x (zero_float f parse_duration parse_float)

  abbrev pub bad_limit : Option ℤ → Bool
  bad_limit none = false
  bad_limit (some n) = not (is_pos n) || ltb_ℤ max_uint32 n

  -- The block of `Validate` on the distribution of the delay.
  unfoldable pub check_delay_distribution : NetworkConfig f.F → Option NetworkError
  unfolding first_of
  check_delay_distribution c = elim c.delay_distribution [
    | none ↦ none
    | some d ↦ first_of (
        fail_if (not (c.delay == "")) delay_twice
        ∷ elim (check_distribution f parse_duration parse_float false d) [
          | none ↦ none
          | some e ↦ some (bad_delay_distribution e)
        ]
        ∷ fail_if
            ((is_pos (known (network_duration c.jitter)) || above_zero c.reorder_percent)
              && not (is_pos (parsed f parse_duration parse_float d.min)))
            no_minimum
        ∷ [])
  ]

  abbrev pub tbf_latency : TbfConfig f.F → Option NetworkError
  tbf_latency t = elim (network_duration t.latency) [
    | none ↦ some bad_duration
    | some l ↦ fail_if (ltb_ℤ l microsecond || ltb_ℤ max_latency l) bad_latency
  ]

  -- The block of `Validate` on the token bucket.
  unfoldable pub check_tbf : NetworkConfig f.F → Option NetworkError
  unfolding first_of
  check_tbf c = elim c.tbf [
    | none ↦ none
    | some t ↦ first_of (
        fail_if (above_zero c.rate_mbps) rate_twice
        ∷ fail_if
            (not (finite_positive f parse_duration parse_float t.rate_mbps)
              || not (finite_positive f parse_duration parse_float t.burst_kbit))
            bad_tbf
        ∷ tbf_latency t
        ∷ [])
  ]

  -- What `Validate` checks, in its order.
  abbrev pub network_checks : NetworkConfig f.F → List (Option NetworkError)
  network_checks c =
      let delay = network_duration c.delay in
      let jitter = network_duration c.jitter in
      fail_if (not (c.scope == "") && not (c.scope == "p2p") && not (c.scope == "all")) bad_scope
      ∷ fail_if
          (not (c.jitter_distribution == "")
            && not (c.jitter_distribution == "uniform")
            && not (c.jitter_distribution == "normal")
            && not (c.jitter_distribution == "pareto")
            && not (c.jitter_distribution == "paretonormal"))
          bad_jitter_distribution
      ∷ fail_if (missing delay || missing jitter) bad_duration
      ∷ fail_if (ltb_ℤ max_int32 (known jitter)) jitter_too_large
      ∷ check_delay_distribution c
      ∷ fail_if (is_pos (known jitter) && eq_ℤ (known delay) (pos 0) && absent c.delay_distribution)
          jitter_without_delay
      ∷ fail_if (bad_percentage c.loss_percent) bad_percent
      ∷ fail_if (bad_percentage c.duplicate_percent) bad_percent
      ∷ fail_if (bad_percentage c.corrupt_percent) bad_percent
      ∷ fail_if (bad_percentage c.reorder_percent) bad_percent
      ∷ fail_if (bad_percentage c.reorder_correlation_percent) bad_percent
      ∷ fail_if
          (above_zero c.reorder_percent
            && eq_ℤ (known delay) (pos 0)
            && absent c.delay_distribution)
          reorder_without_delay
      ∷ fail_if (above_zero c.reorder_correlation_percent && not_above_zero c.reorder_percent)
          correlation_without_reorder
      ∷ fail_if (bad_rate_value c.rate_mbps) bad_rate
      ∷ check_tbf c
      ∷ fail_if (bad_limit c.queue_limit) bad_queue_limit
      ∷ []

  unfoldable pub check_network : NetworkConfig f.F → Option NetworkError
  unfolding first_of
  check_network c = first_of (network_checks c)

  -- `Resolve`: `drawn` is what the distribution's model draws from the random source, if there is one.
  -- The result is the configuration with its error, as in the code.
  unfoldable pub resolve :
      (ℤ → String) → NetworkConfig f.F → Option ℤ → NetworkConfig f.F × Option NetworkError
  resolve print_duration c drawn = elim (check_network c) [
    | some e ↦ (c, some e)
    | none ↦ elim c.delay_distribution [
      | none ↦ (c, none)
      | some d ↦ elim drawn [
        | none ↦ (c, some no_random_source)
        | some value ↦
            let sampled = record c {
              delay = print_duration (clamp_sample f parse_duration parse_float d value);
              delay_distribution = none;
            } in
            (sampled, check_network sampled)
      ]
    ]
  ]
