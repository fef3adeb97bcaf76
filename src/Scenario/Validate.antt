-- ===== src/Scenario/Validate.antt =====
-- internal/scenario/scenario.go: `Validate`, over the phases in order.
use v.Common.{
  ℕ, suc, ◌⊎◌, inl, inr, Bool, true, false, not, ◌&&◌, ◌||◌, Option, none, some, List, [], ◌∷◌,
  String, ◌==◌, if◌then◌else◌, Dict, contains, is_blank, fail_if, first_of,
}
use v.Common.Int.{ℤ, pos, ltb_ℤ, is_pos, eq_ℤ}
use v.Common.Float.{Float}
use v.Scenario.Model.{NodeConfigs, Scenario, should_await, Tracking, is_nil}
use v.Scenario.Actions.{
  bad_repeat, bad_parallelism, no_jobs_here, bad_on_error, no_on_error_here, no_placement_here,
  no_encoding_here, no_window_here, unknown_action, no_background_here, no_parallel_here,
  duplicate_job, or_text, or_else, unless, P, E, bad_span, validate_join, validate_wait,
  validate_wait_ready, validate_wait_jobs, validate_publish, validate_leave, validate_stop_all,
}

pub data ScenarioError (A : Type 0) : Type 0 where
  unsupported_version name_required no_phase bad_on_exit bad_shutdown_timeout : ScenarioError A
  in_phase : ℕ → A → ScenarioError A

abbrev pub is_background_action : String → Bool
is_background_action a = a == "join" || a == "publish" || a == "leave"

abbrev pub action_name : String → String
action_name a = if a == "sleep" then "wait" else if a == "reset" then "stop-all" else a

-- `numbered s n` is `fmt.Sprintf("%s-%d", s, n)`.
module _ (f : Float) (parse_duration : String → Option ℤ) (parse_float : String → Option f.F)
    (configs : NodeConfigs) (numbered : String → ℕ → String) where
  abbrev pub Ph : Type 0
  Ph = P f parse_duration parse_float configs

  abbrev pub Err : Type 0
  Err = E f parse_duration parse_float configs

  abbrev pub canonical_type : String → String
  canonical_type t =
      if t == "" then t else elim (configs.built_in t) [ none ↦ t | some c ↦ configs.type_of c ]

  -- The defaults of the phase with an index.
  unfoldable pub with_phase_defaults : ℕ → Ph → Ph
  with_phase_defaults i p =
      let action = action_name p.action in
      record p {
        action = action;
        name = if p.name == "" then numbered action (suc i) else p.name;
        node_type = canonical_type p.node_type;
        job = if p.job == "" then numbered "phase" (suc i) else p.job;
        repeat = if eq_ℤ p.repeat (pos 0) then pos 1 else p.repeat;
      }

  abbrev pub publishes_or_leaves : Ph → Bool
  publishes_or_leaves p = p.action == "publish" || p.action == "leave"

  -- What is asked of a phase before its action's own checks; `onError` has a default.
  unfoldable pub check_common : Ph → Err ⊎ Ph
  check_common p =
      let q = record p {
        on_error = if publishes_or_leaves p then or_text p.on_error "fail" else p.on_error;
      } in
      unless
        (first_of (
          fail_if (not (is_pos p.repeat)) bad_repeat
          ∷ fail_if (ltb_ℤ p.parallelism (pos 0)) bad_parallelism
          ∷ fail_if
              (not (is_nil p.jobs)
                && not (p.action == "wait-ready")
                && not (p.action == "wait-jobs"))
              no_jobs_here
          ∷ fail_if
              (publishes_or_leaves p
                && not (q.on_error == "fail")
                && not (q.on_error == "continue"))
              bad_on_error
          ∷ fail_if (not (publishes_or_leaves p) && not (p.on_error == "")) no_on_error_here
          ∷ fail_if
              (not (p.action == "join") && (not (p.agent_id == "") || not (p.placement == "")))
              no_placement_here
          ∷ fail_if (not (p.action == "publish") && not (p.payload_encoding == "")) no_encoding_here
          ∷ fail_if (not (p.action == "publish") && not (p.delivery_window == "")) no_window_here
          ∷ []))
        q

  -- The switch on the action.
  unfoldable pub validate_action : Dict configs.NodeConfig → Ph → Tracking → Err ⊎ (Ph × Tracking)
  validate_action profiles p t =
      if p.action == "join"
      then validate_join f parse_duration parse_float configs profiles p t
      else if p.action == "wait"
      then validate_wait f parse_duration parse_float configs p t
      else if p.action == "wait-ready"
      then validate_wait_ready f parse_duration parse_float configs p t
      else if p.action == "wait-jobs"
      then validate_wait_jobs f parse_duration parse_float configs p t
      else if p.action == "publish"
      then validate_publish f parse_duration parse_float configs p t
      else if p.action == "leave"
      then validate_leave f parse_duration parse_float configs p t
      else if p.action == "stop-all"
      then validate_stop_all f parse_duration parse_float configs p t
      else if p.action == "log"
      then inr (p, t)
      else inl unknown_action

  -- What is asked after it: a job in the background is new, and becomes known.
  unfoldable pub track_job : Ph → Tracking → Err ⊎ (Ph × Tracking)
  track_job p t =
      let background = not (should_await p) in
      unless
        (first_of (
          fail_if (background && not (is_background_action p.action)) no_background_here
          ∷ fail_if (p.parallel && not (is_background_action p.action)) no_parallel_here
          ∷ fail_if (background && contains p.job t.known_jobs) duplicate_job
          ∷ []))
        (p, if background then record t { known_jobs = p.job ∷ t.known_jobs } else t)

  -- The body of the loop of `Validate`.
  unfoldable pub validate_phase :
      Dict configs.NodeConfig → ℕ → Ph → Tracking → Err ⊎ (Ph × Tracking)
  validate_phase profiles i p t =
      or_else (check_common (with_phase_defaults i p))
        (λ q. or_else (validate_action profiles q t) (λ (r : Ph × Tracking). track_job r.0 r.1))

  unfoldable pub validate_phases :
      Dict configs.NodeConfig → ℕ → List Ph → Tracking → ScenarioError Err ⊎ List Ph
  validate_phases profiles i [] t = inr []
  validate_phases profiles i (p ∷ ps) t = elim (validate_phase profiles i p t) [
    | inl e ↦ inl (in_phase i e)
    | inr (q, t') ↦ elim (validate_phases profiles (suc i) ps t') [
      | inl e ↦ inl e
      | inr qs ↦ inr (q ∷ qs)
    ]
  ]

  abbrev pub is_nil_phases : List Ph → Bool
  is_nil_phases [] = true
  is_nil_phases (p ∷ ps) = false

  abbrev pub with_scenario_defaults :
      Scenario f.F configs.NodeConfig → Scenario f.F configs.NodeConfig
  with_scenario_defaults s = record s {
    version = if eq_ℤ s.version (pos 0) then pos 1 else s.version;
    on_exit = or_text s.on_exit "cancel";
    job_shutdown_timeout = or_text s.job_shutdown_timeout "3m";
  }

  abbrev pub scenario_errors : Scenario f.F configs.NodeConfig → List (Option (ScenarioError Err))
  scenario_errors q =
      fail_if (not (eq_ℤ q.version (pos 1)) && not (eq_ℤ q.version (pos 2))) unsupported_version
      ∷ fail_if (is_blank q.name) name_required
      ∷ fail_if (is_nil_phases q.phases) no_phase
      ∷ fail_if (not (q.on_exit == "cancel") && not (q.on_exit == "drain")) bad_on_exit
      ∷ fail_if (bad_span f parse_duration parse_float configs q.job_shutdown_timeout)
          bad_shutdown_timeout
      ∷ []

  abbrev pub no_jobs : Tracking
  no_jobs = record { background_joins = []; known_jobs = [] }

  -- `Validate`: the scenario with its defaults, or the error.
  unfoldable pub validate :
      Scenario f.F configs.NodeConfig → ScenarioError Err ⊎ Scenario f.F configs.NodeConfig
  validate s =
      let q = with_scenario_defaults s in
      or_else (unless (first_of (scenario_errors q)) q) (λ q.
        or_else (validate_phases q.profiles 0 q.phases no_jobs)
          (λ phases. inr (record q { phases = phases })))
