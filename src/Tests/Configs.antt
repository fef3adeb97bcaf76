-- ===== src/Tests/Configs.antt =====
-- A delay between 1 and 9 units, and a scenario that waits for the job it has started.
use Prim.Native.String.{String}
use v.Common.{
  ℕ, zero, suc, ap, length, codes, ◌≡◌, ◌⊎◌, refl, inr, false, Option, none, some, List, [], ◌∷◌,
  ◌==◌, if◌then◌else◌, lookup, contains, add, remove, first_of, insert, is_blank, has_outer_space,
  arith,
}
use v.Common.Int.{ℤ, pos, ◌≤ℤ◌}
use v.Network.Distribution.{
  Distribution, check_distribution, clamp_sample, check_model, check_range, parse_duration_or_zero,
  positive_duration,
}
use v.Network.Config.{
  NetworkConfig, check_network, network_duration, check_delay_distribution, check_tbf, resolve,
}
use v.Network.Sampling.{sample_bounds}
use v.Network.Resolved.{resolve_succeeds}
use v.Scenario.Model.{
  NodeConfigs, Phase, Scenario, should_await, add_join, remove_joins, remove_each,
}
use v.Scenario.Actions.{
  validate_join, validate_wait_jobs, resolve_node_config, base_config, kind_of, overlay, all_known,
}
use v.Scenario.Validate.{
  validate, validate_phases, validate_phase, with_phase_defaults, check_common, validate_action,
  track_job,
}
use v.Scenario.Acted.{jobs_after_all}
use v.Scenario.Waits.{FitsJobs, validate-fits}
use v.Tests.Data.{whole}

-- A text of n + 1 letters is a duration of n.
abbrev size_of : List ℕ → Option ℤ
size_of [] = none
size_of (c ∷ cs) = some (pos (length cs))

abbrev parse_duration : String → Option ℤ
parse_duration s = size_of (codes s)

abbrev letters : ℕ → String
letters zero = String.[]
letters (suc n) = String.◌∷◌ "x" (letters n)

abbrev print_duration : ℤ → String
print_duration (pos n) = letters (suc n)
print_duration (ℤ.negsuc n) = String.[]

length-letters : (n : ℕ) → length (codes (letters n)) ≡ n
length-letters zero = refl
length-letters (suc n) = ap suc (length-letters n)

print_parse : (d : ℤ) → pos 0 ≤ℤ d → parse_duration (print_duration d) ≡ some d
print_parse (pos n) h = ap (λ m. some (pos m)) (length-letters n)
print_parse (ℤ.negsuc n) h = absurd (ground arith)

abbrev parse_float : String → Option ℤ
parse_float s = none

abbrev between : Distribution ℤ
between = record {
  model = "exponential";
  value = "";
  mean = "xx";
  sigma = "";
  xm = "";
  alpha = pos 0;
  beta = pos 0;
  scale = "";
  mu = pos 0;
  log_sigma = pos 0;
  min = "xx";
  max = "xxx";
}

between_valid : check_distribution whole parse_duration parse_float false between ≡ none
unfolding check_distribution check_model positive_duration parse_duration_or_zero check_range
    first_of
between_valid = refl

sample_bounds_example :
    (pos 0 ≤ℤ clamp_sample whole parse_duration parse_float between (pos 20))
    × ((between.min ≡ "")
        ⊎ (pos 1 ≤ℤ clamp_sample whole parse_duration parse_float between (pos 20)))
    × ((between.max ≡ "")
        ⊎ (clamp_sample whole parse_duration parse_float between (pos 20) ≤ℤ pos 2))
sample_bounds_example =
    sample_bounds whole parse_duration parse_float between (pos 20) between_valid

-- The delay is drawn, and there is jitter.
abbrev shaped : NetworkConfig ℤ
shaped = record {
  scope = "p2p";
  delay = "";
  delay_distribution = some between;
  jitter = "xx";
  jitter_distribution = "normal";
  loss_percent = some (pos 1);
  duplicate_percent = none;
  corrupt_percent = none;
  reorder_percent = none;
  reorder_correlation_percent = none;
  rate_mbps = none;
  tbf = none;
  queue_limit = some (pos 100);
}

shaped_valid : check_network whole parse_duration parse_float shaped ≡ none
unfolding check_network check_delay_distribution check_tbf network_duration check_distribution
    check_model positive_duration parse_duration_or_zero check_range first_of
shaped_valid = refl

resolve_succeeds_example :
    let r = resolve whole parse_duration parse_float print_duration shaped (some (pos 0)) in
    (r.1 ≡ none)
    × (check_network whole parse_duration parse_float r.0 ≡ none)
    × (r.0.delay_distribution ≡ none)
    × (network_duration whole parse_duration parse_float r.0.delay
        ≡ some (clamp_sample whole parse_duration parse_float between (pos 0)))
resolve_succeeds_example =
    resolve_succeeds whole parse_duration parse_float print_duration print_parse refl shaped between
      (pos 0) shaped_valid refl

-- A configuration is the name of its type.
abbrev configs : NodeConfigs
configs = record {
  NodeConfig = String;
  ConfigError = Unit;
  type_of = λ c. c;
  with_type = λ t c. t;
  built_in = λ t. if t == "full" then some "full" else none;
  full = "full";
  merge = λ a b. if b == "" then a else b;
  with_defaults = λ c. c;
  validate = λ c. none;
}

abbrev numbered : String → ℕ → String
numbered s n = s

abbrev never : Distribution ℤ
never = record between { model = "" }

abbrev phase : Phase ℤ String
phase = record {
  name = "";
  job = "";
  jobs = [];
  action = "";
  on_error = "";
  agent_id = "";
  placement = "";
  group = "g";
  role = "";
  profile = "";
  node_type = "";
  count = pos 1;
  repeat = pos 0;
  parallel = false;
  parallelism = pos 0;
  await = none;
  duration = "";
  timeout = "xx";
  message = "";
  ready_ratio = pos 0;
  min_count = pos 0;
  payload_size = pos 0;
  payload_encoding = "";
  delivery_window = "";
  topic = "";
  interval = never;
  lifetime = never;
  node = "";
}

-- A join in the background, and the wait for it.
abbrev plan : Scenario ℤ String
plan = record {
  version = pos 0;
  name = "plan";
  seed = pos 1;
  on_exit = "";
  job_shutdown_timeout = "xxx";
  profiles = [];
  phases =
      record phase { action = "join"; job = "grow"; await = some false }
      ∷ record phase { action = "wait-jobs"; job = "done"; jobs = "grow" ∷ [] }
      ∷ [];
}

abbrev joined : Phase ℤ String
joined = record phase {
  action = "join";
  job = "grow";
  await = some false;
  name = "join";
  repeat = pos 1;
  placement = "balanced";
  role = "worker";
  node = "full";
  node_type = "full";
  profile = "full";
}

abbrev waited : Phase ℤ String
waited = record phase {
  action = "wait-jobs";
  job = "done";
  jobs = "grow" ∷ [];
  name = "wait-jobs";
  repeat = pos 1;
}

abbrev valid_plan : Scenario ℤ String
valid_plan = record plan { version = pos 1; on_exit = "cancel"; phases = joined ∷ waited ∷ [] }

plan_valid : validate whole parse_duration parse_float configs numbered plan ≡ inr valid_plan
unfolding validate validate_phases validate_phase with_phase_defaults check_common validate_action
    track_job validate_join validate_wait_jobs resolve_node_config base_config kind_of overlay
    should_await add_join remove_joins remove_each all_known is_blank has_outer_space first_of
    check_distribution lookup insert contains add remove
plan_valid = refl

validate-fits_example : FitsJobs (jobs_after_all (joined ∷ []) []) waited
validate-fits_example =
    validate-fits whole parse_duration parse_float configs numbered plan valid_plan 1 waited
      plan_valid refl
