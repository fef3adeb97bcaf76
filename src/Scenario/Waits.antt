-- ===== src/Scenario/Waits.antt =====
-- internal/scenario/scenario.go: the phases of a scenario against the jobs of the phases before them.
use mathlib.Core.Path.{subst}
use mathlib.Core.Option.{some-injective}
use v.Common.{
  ℕ, zero, suc, ◌≡◌, ◌≢◌, ◌∙◌, false, str_eq_iff, contains, All, ap, ◌⊎◌, inl, inr, true, Option,
  some, Bool-cases, Sum-cases, List, [], ◌∷◌, String, Dict, get_elem?, take, first_of, arith,
}
use v.Common.Int.{ℤ}
use v.Common.Float.{Float}
use v.Scenario.Model.{NodeConfigs, Phase, Scenario, should_await, Tracking}
use v.Scenario.Actions.{all_known, or_else, unless}
use v.Scenario.Validate.{
  is_background_action, ScenarioError, Err, validate_phase, validate_phases, validate, no_jobs,
  with_scenario_defaults, scenario_errors,
}
use v.Scenario.Kept.{or_else-inr}
use v.Scenario.Acted.{jobs_after_all, waits_for_jobs, IsTimely, Q}
use v.Scenario.Timely.{validate_phase-Timely}

-- A phase fits the jobs that earlier phases have started: it waits only for some of them, and if it runs in
-- the background, it is of a kind that may and its job's name is not among them.
pub record FitsJobs {F C : Type 0} (js : List String) (p : Phase F C) : Type 0 where
  pub waits :
      ((p.action ≢ "wait-ready") × (p.action ≢ "wait-jobs"))
      ⊎ All (λ id. contains id js ≡ true) p.jobs
  pub runs :
      (p.await ≢ some false)
      ⊎ (((p.action ≡ "join") ⊎ ((p.action ≡ "publish") ⊎ (p.action ≡ "leave")))
          × (contains p.job js ≡ false))

all_known-All :
    (js ids : List String) → all_known js ids ≡ true → All (λ id. contains id js ≡ true) ids
unfolding all_known
all_known-All js [] h = tt
all_known-All js (id ∷ ids) h = (ground arith, all_known-All js ids (ground arith))

background_named :
    (a : String) → is_background_action a ≡ true → (a ≡ "join") ⊎ ((a ≡ "publish") ⊎ (a ≡ "leave"))
background_named a h =
    ground (arith, str_eq_iff a "join", str_eq_iff a "publish", str_eq_iff a "leave")

module _ (f : Float) (parse_duration : String → Option ℤ) (parse_float : String → Option f.F)
    (configs : NodeConfigs) (numbered : String → ℕ → String) where
  phases_cons :
      (profiles : Dict configs.NodeConfig) (i : ℕ)
      (p : Q f parse_duration parse_float configs numbered)
      (ps : List (Q f parse_duration parse_float configs numbered)) (t : Tracking)
      (x : Q f parse_duration parse_float configs numbered)
      (qs : List (Q f parse_duration parse_float configs numbered))
      → validate_phases f parse_duration parse_float configs numbered profiles i (p ∷ ps) t
        ≡ inr (x ∷ qs)
      → (t' : Tracking) × (validate_phase f parse_duration parse_float configs numbered profiles i p
            t
          ≡ inr (x, t'))
        × (validate_phases f parse_duration parse_float configs numbered profiles (suc i) ps t'
            ≡ inr qs)
  unfolding validate_phases
  phases_cons profiles i p ps t x qs h =
      elim (Sum-cases
        (validate_phase f parse_duration parse_float configs numbered profiles i p t)) [
          | inl (e, k) ↦ absurd (ground (arith, k))
          | inr ((y, t'), k) ↦
              elim (Sum-cases (
                validate_phases f parse_duration parse_float configs numbered profiles (suc i) ps
                  t')) [
                    | inl (e, k') ↦ absurd (ground (arith, k, k'))
                    | inr (ys, k') ↦ (t', ground (arith, k, k'), ground (arith, k, k'))
                  ]
        ]

  validate_phases-IsTimely :
      (profiles : Dict configs.NodeConfig) (i n : ℕ)
      (ps qs : List (Q f parse_duration parse_float configs numbered)) (t : Tracking)
      (q : Q f parse_duration parse_float configs numbered)
      → validate_phases f parse_duration parse_float configs numbered profiles i ps t ≡ inr qs
      → get_elem? qs n ≡ some q
      → IsTimely q (jobs_after_all (take n qs) t.known_jobs)
  unfolding validate_phases
  validate_phases-IsTimely profiles i n ps [] t q h e = cc
  validate_phases-IsTimely profiles i n [] (x ∷ qs) t q h e = cc
  validate_phases-IsTimely profiles i zero (p ∷ ps) (x ∷ qs) t q h e =
      let (t', er, rest) = phases_cons profiles i p ps t x qs h in
      let (timely, after) =
        validate_phase-Timely f parse_duration parse_float configs numbered profiles i p t (x, t')
          er in
      subst (λ q. IsTimely q t.known_jobs) (some-injective x q e) timely
  validate_phases-IsTimely profiles i (suc n) (p ∷ ps) (x ∷ qs) t q h e =
      let (t', er, rest) = phases_cons profiles i p ps t x qs h in
      let (timely, after) =
        validate_phase-Timely f parse_duration parse_float configs numbered profiles i p t (x, t')
          er in
      subst (λ js. IsTimely q (jobs_after_all (take n qs) js)) after
        (validate_phases-IsTimely profiles (suc i) n ps qs t' q rest e)

  phases_or_nil :
      ScenarioError (Err f parse_duration parse_float configs numbered)
        ⊎ Scenario f.F configs.NodeConfig
      → List (Q f parse_duration parse_float configs numbered)
  phases_or_nil (inl e) = []
  phases_or_nil (inr s) = s.phases

  phases_path :
      (start s' : Scenario f.F configs.NodeConfig)
      (phases : List (Q f parse_duration parse_float configs numbered))
      → ◌≡◌
          {A = ScenarioError (Err f parse_duration parse_float configs numbered)
            ⊎ Scenario f.F configs.NodeConfig}
          (inr (record start { phases = phases }))
          (inr s')
      → phases ≡ s'.phases
  unfolding phases_or_nil
  phases_path start s' phases h = ap phases_or_nil h

  phases_of :
      (s s' : Scenario f.F configs.NodeConfig)
      → validate f parse_duration parse_float configs numbered s ≡ inr s'
      → (start : Scenario f.F configs.NodeConfig) × (validate_phases f parse_duration parse_float
            configs numbered start.profiles 0 start.phases
            (no_jobs f parse_duration parse_float configs numbered)
          ≡ inr s'.phases)
  unfolding validate
  phases_of s s' h =
      let q = with_scenario_defaults f parse_duration parse_float configs numbered s in
      let run : Scenario f.F configs.NodeConfig
          → ScenarioError (Err f parse_duration parse_float configs numbered)
            ⊎ List (Q f parse_duration parse_float configs numbered) =
        λ q.
          validate_phases f parse_duration parse_float configs numbered q.profiles 0 q.phases
            (no_jobs f parse_duration parse_float configs numbered) in
      let (start, e, k) =
        or_else-inr
          (unless (first_of (scenario_errors f parse_duration parse_float configs numbered q)) q)
          (λ q. or_else (run q) (λ phases. inr (record q { phases = phases }))) s' h in
      let (phases, e', k') =
        or_else-inr (run start) (λ phases. inr (record start { phases = phases })) s' k in
      (start, e' ∙ ap inr (phases_path start s' phases k'))

  timely-fits :
      (q : Q f parse_duration parse_float configs numbered) (js : List String)
      → IsTimely q js
      → FitsJobs js q
  unfolding should_await
  timely-fits q js t = record {
    waits = elim (Bool-cases (waits_for_jobs q)) [
      | inl w ↦ inr (all_known-All js q.jobs (t.waited w))
      | inr w ↦ inl (
        ground (arith, w, str_eq_iff q.action "wait-ready"),
        ground (arith, w, str_eq_iff q.action "wait-jobs"),
      )
    ];
    runs = elim (Bool-cases (should_await q)) [
      | inl w ↦ inl (λ e. absurd (ground (arith, w, e)))
      | inr w ↦ inr (background_named q.action (t.background w), t.fresh w)
    ];
  }

  -- In a scenario that validation returns, each phase fits the jobs that the phases before it have started
  -- in the background since the last `stop-all`: `wait-ready` and `wait-jobs` name only such jobs, and a phase
  -- with `await: false` is a join, a publish or a leave whose job has none of their names.
  pub validate-fits :
      (s s' : Scenario f.F configs.NodeConfig) (n : ℕ)
      (q : Q f parse_duration parse_float configs numbered)
      → validate f parse_duration parse_float configs numbered s ≡ inr s'
      → get_elem? s'.phases n ≡ some q
      → FitsJobs (jobs_after_all (take n s'.phases) []) q
  validate-fits s s' n q h e =
      let (start, k) = phases_of s s' h in
      timely-fits q _ (validate_phases-IsTimely start.profiles 0 n start.phases s'.phases _ q k e)
