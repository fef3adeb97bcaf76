-- ===== src/Network/Resolved.antt =====
-- Sampling the delay of a valid configuration gives a valid configuration.
use mathlib.Core.Path.{subst}
use v.Common.{
  ◌≡◌, ◌≢◌, refl, sym, inl, inr, Bool, true, false, ◌||◌, Option, none, some, All, String,
  str_eq_iff, first_of, first_of-none, none-first_of, arith,
}
use v.Common.Int.{ℤ, pos, ◌≤ℤ◌, is_pos, eq_ℤ}
use v.Common.Float.{Float}
use v.Network.Distribution.{Distribution, check_distribution, clamp_sample, parsed}
use v.Network.Config.{
  NetworkConfig, NetworkError, network_duration, known, above_zero, check_delay_distribution,
  check_tbf, network_checks, check_network, resolve,
}
use v.Network.Sampling.{sample_bounds}

module _ (f : Float) (parse_duration : String → Option ℤ) (parse_float : String → Option f.F) where
  abbrev needs_minimum : NetworkConfig f.F → Bool
  needs_minimum c =
      is_pos (
        known f parse_duration parse_float (network_duration f parse_duration parse_float c.jitter))
      || above_zero f parse_duration parse_float c.reorder_percent

  delay_distribution_lem :
      (c : NetworkConfig f.F) (d : Distribution f.F)
      → check_delay_distribution f parse_duration parse_float c ≡ none
      → c.delay_distribution ≡ some d
      → (check_distribution f parse_duration parse_float false d ≡ none)
        × (needs_minimum c ≡ true → is_pos (parsed f parse_duration parse_float d.min) ≡ true)
  unfolding check_delay_distribution first_of
  delay_distribution_lem c d h e = (ground (arith, e), λ n. ground (arith, e, n))

  module _ (print_duration : ℤ → String)
      (print_parse : (d : ℤ) → pos 0 ≤ℤ d → parse_duration (print_duration d) ≡ some d)
      (parse_empty : parse_duration "" ≡ none) where
    printed_lem :
        (d : ℤ)
        → pos 0 ≤ℤ d
        → network_duration f parse_duration parse_float (print_duration d) ≡ some d
    unfolding network_duration
    printed_lem d h = ground (arith, print_parse d h, parse_empty, str_eq_iff (print_duration d) "")

    min_given : (s : String) → is_pos (parsed f parse_duration parse_float s) ≡ true → s ≢ ""
    min_given s h e = ground (arith, e, parse_empty)

    sample_pos :
        (c : NetworkConfig f.F) (d : Distribution f.F) (drawn : ℤ)
        → check_delay_distribution f parse_duration parse_float c ≡ none
        → c.delay_distribution ≡ some d
        → needs_minimum c ≡ true
        → eq_ℤ (clamp_sample f parse_duration parse_float d drawn) (pos 0) ≡ false
    sample_pos c d drawn h e n =
        let (valid, wide) = delay_distribution_lem c d h e in
        elim ((sample_bounds f parse_duration parse_float d drawn valid).1) [
          | inl none_given ↦ absurd (min_given d.min (wide n) none_given)
          | inr low ↦ ground (arith, low, wide n)
        ]

    unfoldable sampled : NetworkConfig f.F → ℤ → NetworkConfig f.F
    sampled c v = record c { delay = print_duration v; delay_distribution = none }

    sampled-dist :
        (c : NetworkConfig f.F) (v : ℤ)
        → check_delay_distribution f parse_duration parse_float (sampled c v) ≡ none
    unfolding sampled check_delay_distribution
    sampled-dist c v = refl

    sampled-tbf :
        (c : NetworkConfig f.F) (v : ℤ)
        → check_tbf f parse_duration parse_float c ≡ none
        → check_tbf f parse_duration parse_float (sampled c v) ≡ none
    unfolding sampled check_tbf
    sampled-tbf c v h = h

    sampled_checks :
        (c : NetworkConfig f.F) (v : ℤ)
        → pos 0 ≤ℤ v
        → (needs_minimum c ≡ true → eq_ℤ v (pos 0) ≡ false)
        → All (λ r. r ≡ none) (network_checks f parse_duration parse_float c)
        → All (λ r. r ≡ none) (network_checks f parse_duration parse_float (sampled c v))
    unfolding sampled
    sampled_checks c v h nonzero
          (
            scope,
            (
              jitters,
              (
                dur,
                (
                  large,
                  (
                    dist,
                    (jit, (p1, (p2, (p3, (p4, (p5, (reo, (cor, (rate, (tbf, (queue, _))))))))))),
                  ),
                ),
              ),
            ),
          ) =
        let delay = printed_lem v h in
        (
          scope,
          (
            jitters,
            (
              ground (arith, delay, dur),
              (
                large,
                (
                  sampled-dist c v,
                  (
                    ground (arith, delay, nonzero),
                    (
                      p1,
                      (
                        p2,
                        (
                          p3,
                          (
                            p4,
                            (
                              p5,
                              (
                                ground (arith, delay, nonzero),
                                (cor, (rate, (sampled-tbf c v tbf, (queue, tt)))),
                              ),
                            ),
                          ),
                        ),
                      ),
                    ),
                  ),
                ),
              ),
            ),
          ),
        )

    network-sampled :
        (c : NetworkConfig f.F) (v : ℤ)
        → pos 0 ≤ℤ v
        → (needs_minimum c ≡ true → eq_ℤ v (pos 0) ≡ false)
        → check_network f parse_duration parse_float c ≡ none
        → check_network f parse_duration parse_float (sampled c v) ≡ none
    unfolding check_network
    network-sampled c v h nonzero e =
        let checks = first_of-none (network_checks f parse_duration parse_float c) e in
        none-first_of (network_checks f parse_duration parse_float (sampled c v))
          (sampled_checks c v h nonzero checks)

    network-delay :
        (c : NetworkConfig f.F)
        → check_network f parse_duration parse_float c ≡ none
        → check_delay_distribution f parse_duration parse_float c ≡ none
    unfolding check_network
    network-delay c e = (first_of-none (network_checks f parse_duration parse_float c) e).1.1.1.1.0

    resolve_form :
        (c : NetworkConfig f.F) (d : Distribution f.F) (drawn : ℤ)
        → check_network f parse_duration parse_float c ≡ none
        → c.delay_distribution ≡ some d
        → resolve f parse_duration parse_float print_duration c (some drawn) ≡ (
          sampled c (clamp_sample f parse_duration parse_float d drawn),
          check_network f parse_duration parse_float
              (sampled c (clamp_sample f parse_duration parse_float d drawn)),
        )
    unfolding resolve sampled
    resolve_form c d drawn h e = ground (arith, h, e)

    -- Whatever a random source draws, `resolve` succeeds on a valid configuration with a delay
    -- distribution: the result is valid, has no distribution, and its delay is the clamped sample.
    pub resolve_succeeds :
        (c : NetworkConfig f.F) (d : Distribution f.F) (drawn : ℤ)
        → check_network f parse_duration parse_float c ≡ none
        → c.delay_distribution ≡ some d
        → let r = resolve f parse_duration parse_float print_duration c (some drawn) in
          (r.1 ≡ none)
          × (check_network f parse_duration parse_float r.0 ≡ none)
          × (r.0.delay_distribution ≡ none)
          × (network_duration f parse_duration parse_float r.0.delay
              ≡ some (clamp_sample f parse_duration parse_float d drawn))
    unfolding sampled
    resolve_succeeds c d drawn h e =
        let block = network-delay c h in
        let v = clamp_sample f parse_duration parse_float d drawn in
        let above =
          (sample_bounds f parse_duration parse_float d drawn
            (delay_distribution_lem c d block e).0).0 in
        let fine = network-sampled c v above (sample_pos c d drawn block e) h in
        subst
          (λ (r : NetworkConfig f.F × Option NetworkError).
            (r.1 ≡ none)
            × (check_network f parse_duration parse_float r.0 ≡ none)
            × (r.0.delay_distribution ≡ none)
            × (network_duration f parse_duration parse_float r.0.delay ≡ some v))
          (sym (resolve_form c d drawn h e)) (fine, fine, refl, printed_lem v above)
