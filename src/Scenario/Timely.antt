-- ===== src/Scenario/Timely.antt =====
-- internal/scenario/scenario.go: one phase of a scenario against the jobs that are known before it.
use mathlib.Core.Path.{subst}
use v.Common.{
  ℕ, ◌≡◌, refl, sym, ◌∙◌, ap, ◌⊎◌, inl, inr, true, false, Option, Bool-cases, List, ◌∷◌, String,
  ◌==◌, str_eq_iff, if◌then◌else◌, Dict, contains, first_of-none, fail_if-false, arith,
}
use v.Common.Int.{ℤ}
use v.Common.Float.{Float}
use v.Scenario.Model.{NodeConfigs, should_await, Tracking}
use v.Scenario.Actions.{or_else}
use v.Scenario.Validate.{
  is_background_action, Err, with_phase_defaults, check_common, validate_action, track_job,
  validate_phase,
}
use v.Scenario.Kept.{unless-inr, or_else-inr}
use v.Scenario.Acted.{true-false, jobs_after, IsTimely, Q, Acted, validate_action-Acted}

module _ (f : Float) (parse_duration : String → Option ℤ) (parse_float : String → Option f.F)
    (configs : NodeConfigs) (numbered : String → ℕ → String) where
  record Tracked (p : (Q f parse_duration parse_float configs numbered)) (t : Tracking)
      (r : (Q f parse_duration parse_float configs numbered) × Tracking) : Type 0 where
    pub same : r.0 ≡ p
    pub fresh : should_await p ≡ false → contains p.job t.known_jobs ≡ false
    pub background : should_await p ≡ false → is_background_action p.action ≡ true
    pub known : r.1.known_jobs ≡ (if should_await p then t.known_jobs else p.job ∷ t.known_jobs)

  track_job-Tracked :
      (p : (Q f parse_duration parse_float configs numbered)) (t : Tracking)
      (r : (Q f parse_duration parse_float configs numbered) × Tracking)
      → track_job f parse_duration parse_float configs numbered p t ≡ inr r
      → Tracked p t r
  unfolding track_job
  track_job-Tracked p t r h =
      let (o, same) = unless-inr _ _ r h in
      let checks = first_of-none _ o in
      let away = fail_if-false _ _ checks.0 in
      let old = fail_if-false _ _ checks.1.1.0 in
      subst (Tracked p t) same (record {
        same = refl;
        fresh = λ b. ground (arith, b, old);
        background = λ b. ground (arith, b, away);
        known = ground arith;
      })

  background_not_stop :
      (action : String) → is_background_action action ≡ true → (action == "stop-all") ≡ false
  background_not_stop action h = elim (Bool-cases (action == "stop-all")) [
    | inr other ↦ other
    | inl e ↦
        absurd (
          true-false
            (sym h ∙ ap (λ a. is_background_action a) ((str_eq_iff action "stop-all").0 e)))
  ]

  abbrev pub Timely :
      (Q f parse_duration parse_float configs numbered) → List String → List String → Type 0
  Timely q js js' = IsTimely q js × (js' ≡ jobs_after q js)

  Timely-of :
      (q : (Q f parse_duration parse_float configs numbered)) (t : Tracking)
      (r₁ r : (Q f parse_duration parse_float configs numbered) × Tracking)
      → Acted f parse_duration parse_float configs numbered q t r₁
      → Tracked r₁.0 r₁.1 r
      → Timely r.0 t.known_jobs r.1.known_jobs
  Timely-of q t r₁ r a k =
      let p = r₁.0 in
      let started : should_await p ≡ false → r₁.1.known_jobs ≡ t.known_jobs =
        λ b. ground (arith, a.known, background_not_stop p.action (k.background b)) in
      let after : r.1.known_jobs ≡ jobs_after p t.known_jobs = elim (Bool-cases (should_await p)) [
        | inl waits ↦ ground (arith, waits, k.known, a.known)
        | inr runs ↦
            ground
              (arith, runs, k.known, started runs, background_not_stop p.action (k.background runs))
      ] in
      subst (λ q. Timely q t.known_jobs r.1.known_jobs) (sym k.same)
        (
          record {
            waited = a.waited;
            fresh = λ b. ap (contains p.job) (sym (started b)) ∙ k.fresh b;
            background = k.background;
          },
          after,
        )

  pub validate_phase-Timely :
      (profiles : Dict configs.NodeConfig) (i : ℕ)
      (p : (Q f parse_duration parse_float configs numbered)) (t : Tracking)
      (r : (Q f parse_duration parse_float configs numbered) × Tracking)
      → validate_phase f parse_duration parse_float configs numbered profiles i p t ≡ inr r
      → Timely r.0 t.known_jobs r.1.known_jobs
  unfolding validate_phase
  validate_phase-Timely profiles i p t r h =
      let act = validate_action f parse_duration parse_float configs numbered profiles in
      let track : (Q f parse_duration parse_float configs numbered) × Tracking
          → Err f parse_duration parse_float configs numbered
            ⊎ ((Q f parse_duration parse_float configs numbered) × Tracking) =
        λ r. track_job f parse_duration parse_float configs numbered r.0 r.1 in
      let start = with_phase_defaults f parse_duration parse_float configs numbered i p in
      let (q, e, k) =
        or_else-inr (check_common f parse_duration parse_float configs numbered start)
          (λ q. or_else (act q t) track) r h in
      let (r₁, e₁, k₁) = or_else-inr (act q t) track r k in
      Timely-of q t r₁ r
        (validate_action-Acted f parse_duration parse_float configs numbered profiles q t r₁ e₁)
        (track_job-Tracked r₁.0 r₁.1 r k₁)
