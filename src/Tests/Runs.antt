-- ===== src/Tests/Runs.antt =====
-- Two Peers that are connected, a publication between them, and a batch of events.
use v.Common.{
  filter, str_eq_iff, ℕ, ◌≡◌, ◌≢◌, refl, Bool, true, false, Option, none, some, List, [], ◌∷◌, ◌++◌,
  String, ◌==◌, if◌then◌else◌, lookup, contains, drop, take, codes, All, arith,
}
use v.Model.{Node, NodeState}
use v.Fleet.Defs.{Fleet, agent_is_online}
use v.Topology.Defs.{Edge, is_visible, key_of, visible_nodes, network_edges_at}
use v.Topology.Claims.{has_identity}
use v.Topology.Reported.{Reported, by_connection, has_edge}
use v.Topology.Shown.{network_edges_at-has}
use v.Topology.Edges.{IsLink, edge_key, network_edges_at_lem}
use v.Publish.Topics.{node_subscribes_to_topic}
use v.Publish.Cohort.{PublishRequest, capture_publish_cohort, node_agent_online}
use v.Publish.Targets.{IsCohort, capture_publish_cohort_lem}
use v.EventBatch.Defs.{
  Bytes, ok, marshal_within, envelope, add_events, validate_within, check_sizes,
}
use v.EventBatch.Prefix.{Fits, marshal_within_lem}
use v.EventBatch.Validated.{IsSent, validated-IsSent}
use v.Tests.Data.{node_of, idle_fleet}
use v.Report.Defs.{prefix_of, send_heartbeat_batches, fill_batches, flush_batch}
use v.Report.Complete.{all_nodes, IsBody, send_heartbeat_batches_lem}
use v.Report.Sends.{send_heartbeat_batches_sends}

abbrev peers : List Node
peers = node_of "n" NodeState.ready ∷ node_of "m" NodeState.ready ∷ []

abbrev pair_fleet : Fleet
pair_fleet = record idle_fleet {
  nodes = ("n", node_of "n" NodeState.ready) ∷ ("m", node_of "m" NodeState.ready) ∷ [];
  active_node_ids = some ("n" ∷ "m" ∷ []);
}

peers_named : All (λ (n : Node). n.id ≢ "") peers
peers_named = ((λ e. cc), ((λ e. cc), tt))

network_edges_at_lem_example :
    All
      (λ (e : Edge).
        IsLink (visible_nodes (some idle_fleet.agents) 9 peers) (edge_key e) e.reported_by)
      (network_edges_at peers (some idle_fleet.agents) 9)
network_edges_at_lem_example = network_edges_at_lem peers (some idle_fleet.agents) 9 peers_named

abbrev node_n : Node
node_n = node_of "n" NodeState.ready

abbrev node_m : Node
node_m = node_of "m" NodeState.ready

one_n :
    filter (has_identity "run" "n") (visible_nodes (some idle_fleet.agents) 9 peers) ≡ node_n ∷ []
unfolding visible_nodes is_visible lookup agent_is_online
one_n = refl

one_m :
    filter (has_identity "run" "m") (visible_nodes (some idle_fleet.agents) 9 peers) ≡ node_m ∷ []
unfolding visible_nodes is_visible lookup agent_is_online
one_m = refl

m_named : node_m.id ≢ ""
m_named e = cc

m_other : node_m.id ≢ node_n.id
m_other e = ground (arith, e, str_eq_iff "m" "n")

n_reports_m : Reported node_n "m" "transport" ""
unfolding contains
n_reports_m = by_connection refl

network_edges_at-has_example :
    has_edge (key_of "n" "m" "transport" "") "n" (network_edges_at peers (some idle_fleet.agents) 9)
    ≡ true
network_edges_at-has_example =
    network_edges_at-has peers (some idle_fleet.agents) 9 0 node_n node_m "m" "transport" "" refl
      one_n one_m m_named m_other n_reports_m

abbrev parse_bool : String → Option Bool
parse_bool s = if s == "true" then some true else if s == "false" then some false else none

abbrev no_json : String → Option (List String)
no_json s = none

abbrev one_topic : String → List String
one_topic s = s ∷ []

abbrev as_is : String → String
as_is s = s

abbrev subscribes : Node → String → Bool
subscribes = node_subscribes_to_topic parse_bool no_json one_topic as_is

abbrev request : PublishRequest
request = record {
  run_id = "run";
  topic = "";
  target_nodes = 0;
  target_nodes_by_topic = [];
  target_node_ids = none;
  target_node_ids_by_topic = [];
  cohort_captured_at = 0;
}

abbrev asked : List String
asked = "kpl/default" ∷ []

captured : (capture_publish_cohort subscribes pair_fleet 9 "n" asked request).1 ≡ true
unfolding capture_publish_cohort lookup node_agent_online agent_is_online
captured = refl

is_asked : contains "kpl/default" asked ≡ true
unfolding contains
is_asked = refl

capture_publish_cohort_lem_example :
    IsCohort subscribes pair_fleet 9 "run" "n" "kpl/default"
      (capture_publish_cohort subscribes pair_fleet 9 "n" asked request).0
capture_publish_cohort_lem_example =
    capture_publish_cohort_lem subscribes pair_fleet 9 "n" "kpl/default" asked request captured
      is_asked

-- Every event is encoded as two bytes, and 32 bytes are the limit.
abbrev encode : ℕ → Option Bytes
encode n = some (n ∷ n ∷ [])

abbrev agent_bytes : Bytes
agent_bytes = codes "\"a\""

abbrev events : List ℕ
events = 1 ∷ 2 ∷ 3 ∷ []

abbrev sent_bytes : Bytes
sent_bytes = codes "{\"agentId\":\"a\",\"events\":[" ++ (1 ∷ 1 ∷ 44 ∷ 2 ∷ 2 ∷ []) ++ codes "]}"

marshals : marshal_within encode 32 9 (some agent_bytes) events ≡ ok sent_bytes 2
unfolding marshal_within envelope add_events
marshals = refl

marshal_within_lem_example :
    Fits encode 32 0 (envelope encode agent_bytes) (take 9 events) sent_bytes 2
marshal_within_lem_example = marshal_within_lem encode 32 9 agent_bytes events marshals

validated : validate_within encode 32 (some agent_bytes) events ≡ none
unfolding validate_within check_sizes
validated = refl

validated-IsSent_example :
    IsSent encode (marshal_within encode 32 9 (some agent_bytes) (drop 2 events))
validated-IsSent_example =
    validated-IsSent encode 32 9 2 agent_bytes events validated (omega arith) (omega arith)

-- Two of the three nodes fit in a body of 18 bytes with the prefix of 11.
abbrev report_header : Bytes
report_header = codes "{}"

abbrev takes_all : Bytes → List ℕ → Bool
takes_all body nodes = true

report_in_two :
    all_nodes (send_heartbeat_batches encode takes_all 18 (some report_header) (1 ∷ 2 ∷ 3 ∷ [])).0
    ≡ 1 ∷ 2 ∷ 3 ∷ []
unfolding prefix_of send_heartbeat_batches fill_batches flush_batch
report_in_two = refl

send_heartbeat_batches_lem_example :
    All
      (IsBody encode takes_all 18 (prefix_of report_header))
      (send_heartbeat_batches encode takes_all 18 (some report_header) (1 ∷ 2 ∷ 3 ∷ [])).0
send_heartbeat_batches_lem_example =
    send_heartbeat_batches_lem encode takes_all 18 report_header (1 ∷ 2 ∷ 3 ∷ [])

send_heartbeat_batches_sends_example :
    ((send_heartbeat_batches encode takes_all 18 (some report_header) (1 ∷ 2 ∷ 3 ∷ [])).1 ≡ none)
    × (all_nodes
          (send_heartbeat_batches encode takes_all 18 (some report_header) (1 ∷ 2 ∷ 3 ∷ [])).0
        ≡ 1 ∷ 2 ∷ 3 ∷ [])
unfolding prefix_of
send_heartbeat_batches_sends_example =
    send_heartbeat_batches_sends encode takes_all (λ body nodes. refl) 18 report_header
      (1 ∷ 2 ∷ 3 ∷ []) (omega arith)
      ((_, refl, omega arith), ((_, refl, omega arith), ((_, refl, omega arith), tt)))
