-- ===== src/Scenario/Actions.antt =====
-- internal/scenario/scenario.go: what `Validate` asks of each action.
use v.Common.{
  ◌⊎◌, inl, inr, Bool, true, not, ◌&&◌, ◌||◌, Option, none, some, List, [], ◌∷◌, String, ◌==◌,
  if◌then◌else◌, Dict, lookup, contains, has_outer_space, fail_if, first_of,
}
use v.Common.Int.{ℤ, pos, ltb_ℤ, is_pos, eq_ℤ}
use v.Common.Float.{Float}
use v.Network.Distribution.{DistributionError, check_distribution}
use v.Scenario.Model.{
  NodeConfigs, Phase, should_await, Tracking, add_join, first_unwaited, remove_joins, is_nil,
}

pub data PhaseError (E : Type 0) : Type 0 where
  bad_repeat bad_parallelism no_jobs_here bad_on_error no_on_error_here no_placement_here
        no_encoding_here no_window_here bad_placement bad_agent_id no_target bad_role bad_duration
        bad_min_count unknown_job unwaited_join bad_ready_ratio bad_timeout must_await bad_window
        bad_encoding payload_too_large unknown_action no_background_here no_parallel_here
        duplicate_job unknown_profile :
      PhaseError E
  bad_interval bad_lifetime : DistributionError → PhaseError E
  bad_node : E → PhaseError E

-- 1h, 16 MiB.
abbrev pub hour : ℤ
hour = pos 3_600_000_000_000

abbrev pub max_publish_payload_bytes : ℤ
max_publish_payload_bytes = pos 16_777_216

abbrev pub or_text : String → String → String
or_text s default = if s == "" then default else s

abbrev pub or_else : {E A B : Type 0} → E ⊎ A → (A → E ⊎ B) → E ⊎ B
or_else (inl e) k = inl e
or_else (inr a) k = k a

abbrev pub unless : {E A : Type 0} → Option E → A → E ⊎ A
unless (some e) a = inl e
unless none a = inr a

-- Every name is a key of `knownJobs`.
unfoldable pub all_known : List String → List String → Bool
all_known known [] = true
all_known known (j ∷ js) = contains j known && all_known known js

module _ (f : Float) (parse_duration : String → Option ℤ) (parse_float : String → Option f.F)
    (configs : NodeConfigs) where
  abbrev pub P : Type 0
  P = Phase f.F configs.NodeConfig

  abbrev pub E : Type 0
  E = PhaseError configs.ConfigError

  -- `err != nil || d <= 0`.
  abbrev pub bad_span : String → Bool
  bad_span s = elim (parse_duration s) [ none ↦ true | some d ↦ not (is_pos d) ]

  abbrev pub bad_window_text : String → Bool
  bad_window_text s = elim (parse_duration s) [
    | none ↦ true
    | some d ↦ not (is_pos d) || ltb_ℤ hour d
  ]

  abbrev pub interval_error : P → Option E
  interval_error p = elim (check_distribution f parse_duration parse_float true p.interval) [
    | none ↦ none
    | some e ↦ some (bad_interval e)
  ]

  abbrev pub lifetime_error : P → Option E
  lifetime_error p = elim (check_distribution f parse_duration parse_float true p.lifetime) [
    | none ↦ none
    | some e ↦ some (bad_lifetime e)
  ]

  -- The first half of `resolveNodeConfig`: which kind of node a phase asks for.
  unfoldable pub kind_of : Dict configs.NodeConfig → P → String
  kind_of profiles p =
      let profile = lookup p.profile profiles in
      let own : String = elim profile [ none ↦ p.profile | some c ↦ configs.type_of c ] in
      let kind = if p.node_type == "" then own else p.node_type in
      if not (kind == "") then kind else if p.role == "boot" then "boot" else "full"

  abbrev pub canonical : configs.NodeConfig → configs.NodeConfig
  canonical c = elim (configs.built_in (configs.type_of c)) [
    | none ↦ c
    | some preset ↦ configs.with_type (configs.type_of preset) c
  ]

  -- The base configuration: the built-in one, with the profile that the phase names.
  unfoldable pub base_config : Dict configs.NodeConfig → P → E ⊎ configs.NodeConfig
  base_config profiles p =
      let kind = kind_of profiles p in
      let known = configs.built_in kind in
      let base : configs.NodeConfig = elim known [
        | none ↦ configs.with_type kind configs.full
        | some c ↦ c
      ] in
      if p.profile == "" then inr base else elim (lookup p.profile profiles) [
        | some profile ↦ inr (configs.merge base profile)
        | none ↦ elim known [ none ↦ inl unknown_profile | some c ↦ inr base ]
      ]

  abbrev pub node_error : Option configs.ConfigError → Option E
  node_error none = none
  node_error (some e) = some (bad_node e)

  -- The rest of `resolveNodeConfig`, from the base configuration.
  unfoldable pub overlay : P → configs.NodeConfig → E ⊎ P
  overlay p base =
      let merged = configs.merge base p.node in
      let typed = if p.node_type == "" then merged else configs.with_type p.node_type merged in
      let c = configs.with_defaults (canonical typed) in
      unless (node_error (configs.validate c)) (record p {
        node = c;
        node_type = configs.type_of c;
        profile = or_text p.profile (configs.type_of c);
      })

  unfoldable pub resolve_node_config : Dict configs.NodeConfig → P → E ⊎ P
  resolve_node_config profiles p = or_else (base_config profiles p) (overlay p)

  abbrev pub join_defaults : P → P
  join_defaults p = record p {
    placement = or_text p.placement "balanced";
    role = or_text p.role "worker";
  }

  abbrev pub join_errors : P → List (Option E)
  join_errors q =
      fail_if
        (not (q.placement == "balanced")
          && not (q.placement == "single-agent")
          && not (q.placement == "random"))
        bad_placement
      ∷ fail_if (not (q.agent_id == "") && has_outer_space q.agent_id) bad_agent_id
      ∷ fail_if (q.group == "" || not (is_pos q.count)) no_target
      ∷ fail_if (not (q.role == "boot") && not (q.role == "worker")) bad_role
      ∷ interval_error q
      ∷ lifetime_error q
      ∷ []

  -- A join in the background is remembered.
  abbrev pub tracked_join : Tracking → P → P × Tracking
  tracked_join t r =
      let joins = add_join r.group r.job t.background_joins in
      (r, if should_await r then t else record t { background_joins = joins })

  unfoldable pub validate_join : Dict configs.NodeConfig → P → Tracking → E ⊎ (P × Tracking)
  validate_join profiles p t =
      let q = join_defaults p in
      or_else (unless (first_of (join_errors q)) q)
        (λ q. or_else (resolve_node_config profiles q) (λ r. inr (tracked_join t r)))

  unfoldable pub validate_wait : P → Tracking → E ⊎ (P × Tracking)
  validate_wait p t = unless (fail_if (bad_span p.duration) bad_duration) (p, t)

  unfoldable pub validate_wait_ready : P → Tracking → E ⊎ (P × Tracking)
  validate_wait_ready p t =
      let zero = f.of_int (pos 0) in
      let q = record p {
        ready_ratio = if f.eq p.ready_ratio zero then f.of_int (pos 1) else p.ready_ratio;
        timeout = or_text p.timeout "1m";
      } in
      let errors = first_of (
        fail_if (ltb_ℤ q.min_count (pos 0)) bad_min_count
        ∷ fail_if (not (all_known t.known_jobs q.jobs)) unknown_job
        ∷ fail_if
            (not (first_unwaited t.background_joins q.group q.jobs == "")
              && eq_ℤ q.min_count (pos 0))
            unwaited_join
        ∷ fail_if
            (f.is_nan q.ready_ratio
              || f.lt q.ready_ratio zero
              || f.eq q.ready_ratio zero
              || f.lt (f.of_int (pos 1)) q.ready_ratio)
            bad_ready_ratio
        ∷ fail_if (bad_span q.timeout) bad_timeout
        ∷ []) in
      unless errors (q, record t { background_joins = remove_joins q.jobs t.background_joins })

  unfoldable pub validate_wait_jobs : P → Tracking → E ⊎ (P × Tracking)
  validate_wait_jobs p t =
      let q = record p { timeout = or_text p.timeout "5m" } in
      let errors = first_of (
        fail_if (not (should_await q)) must_await
        ∷ fail_if (bad_span q.timeout) bad_timeout
        ∷ fail_if (not (is_nil q.jobs) && not (all_known t.known_jobs q.jobs)) unknown_job
        ∷ []) in
      let left = if is_nil q.jobs then [] else remove_joins q.jobs t.background_joins in
      unless errors (q, record t { background_joins = left })

  unfoldable pub validate_publish : P → Tracking → E ⊎ (P × Tracking)
  validate_publish p t =
      let q = record p {
        delivery_window = or_text p.delivery_window "10s";
        payload_encoding = or_text p.payload_encoding "envelope";
        payload_size = if is_pos p.payload_size then p.payload_size else pos 32;
      } in
      let errors = first_of (
        fail_if (bad_window_text q.delivery_window) bad_window
        ∷ fail_if (not (q.payload_encoding == "envelope") && not (q.payload_encoding == "raw"))
            bad_encoding
        ∷ fail_if (q.group == "" || not (is_pos q.count)) no_target
        ∷ fail_if (ltb_ℤ max_publish_payload_bytes q.payload_size) payload_too_large
        ∷ interval_error q
        ∷ []) in
      unless errors (q, t)

  unfoldable pub validate_leave : P → Tracking → E ⊎ (P × Tracking)
  validate_leave p t =
      let errors =
        first_of
          (fail_if (p.group == "" || not (is_pos p.count)) no_target ∷ interval_error p ∷ []) in
      unless errors (p, t)

  unfoldable pub validate_stop_all : P → Tracking → E ⊎ (P × Tracking)
  validate_stop_all p t = inr (p, record { background_joins = []; known_jobs = [] })
