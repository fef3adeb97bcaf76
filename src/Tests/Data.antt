-- ===== src/Tests/Data.antt =====
-- A small fleet, and numbers in place of floats.
use v.Common.{◌≡◌, refl, true, false, not, ◌&&◌, none, some, [], ◌∷◌, String, arith}
use v.Common.Int.{ℤ, pos, ◌+ℤ◌, ltb_ℤ, eq_ℤ}
use v.Common.Float.{Float, IsIeee}
use v.Experiments.Defs.{Experiment}
use v.Model.{Agent, AgentState, Node, NodeState}
use v.Fleet.Defs.{Fleet}

-- Integers, on which division is by 1.
abbrev pub whole : Float
whole = record {
  F = ℤ;
  of_int = λ a. a;
  plus = λ a b. a +ℤ b;
  div = λ a b. a;
  lt = λ a b. ltb_ℤ a b;
  eq = λ a b. eq_ℤ a b;
  is_nan = λ a. false;
  is_inf = λ a. false;
}

lt_tie : (a b : ℤ) → eq_ℤ a b ≡ (not (ltb_ℤ a b) && not (ltb_ℤ b a))
lt_tie (pos a) (pos b) = ground arith
lt_tie (pos a) (ℤ.negsuc b) = ground arith
lt_tie (ℤ.negsuc a) (pos b) = ground arith
lt_tie (ℤ.negsuc a) (ℤ.negsuc b) = ground arith

pub whole-IsIeee : IsIeee whole
whole-IsIeee = record {
  lt_irrefl = λ x. ground arith;
  lt_trans = λ x y z h k. ground arith;
  tie = λ x y h k. lt_tie x y;
  tie_trans = λ x y z _ _ _ h k. ground arith;
  sum_number = λ a b. refl;
  quotient_number = λ a b c h. refl;
}

abbrev pub agent_a : Agent
agent_a = record {
  startup_reconciled = true;
  peer_image = "";
  run_drain = true;
  id = "a";
  name = "a";
  url = "http://a";
  metrics_url = "";
  hostname = "a";
  version = "3";
  capacity = pos 2;
  default_capacity = pos 2;
  capacity_override = pos 0;
  capacity_pending = false;
  capacity_revision = "r1";
  active_nodes = pos 0;
  state = AgentState.online;
  labels = [];
  started_at = 1;
  last_seen = 5;
}

abbrev pub node_of : String → NodeState → Node
node_of id state = record {
  id = id;
  run_id = "run";
  generation = 1;
  agent_id = "a";
  group = "g";
  role = "worker";
  type = "full";
  profile = "full";
  peer_id = id;
  state = state;
  addresses = [];
  connected_peers = "n" ∷ "m" ∷ [];
  routing_peers = [];
  mesh_peers = [];
  overlay_observed_at = 0;
  topic_peers = [];
  metadata = none;
  started_at = 2;
  last_seen = 5;
  error = "";
}

-- One Agent and no Peer.
abbrev pub idle_fleet : Fleet
idle_fleet = record {
  settings_error = none;
  capacity_overrides = [];
  capacity_revisions = ("a", "r1") ∷ [];
  reported_capacities = ("a", pos 2) ∷ [];
  agents = ("a", agent_a) ∷ [];
  nodes = [];
  active_node_ids = some [];
  reservations = [];
  agent_snapshots = [];
  node_report_times = [];
}

abbrev pub run_1 : Experiment
run_1 = record {
  stop_requested = false;
  controller_version = "3";
  cleanup_state = "";
  data_state = "";
  integrity_error = "";
  cleanup_error = "";
  agents = [];
  execution_id = "";
  superseded = false;
  previous_run_ids = [];
  id = "r1";
  batch_id = "b";
  iteration = pos 1;
  repetitions = pos 2;
  name = "plan";
  state = "queued";
  seed = pos 1;
  phase = pos 0;
  total_phases = pos 2;
  phase_name = "";
  active_jobs = pos 0;
  completed_jobs = pos 0;
  failed_jobs = pos 0;
  canceled_jobs = pos 0;
  started_at = 0;
  finished_at = 0;
  error = "";
}
