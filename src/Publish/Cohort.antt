-- ===== src/Publish/Cohort.antt =====
-- internal/controller/runner.go: the Peers of a run that are counted, stopped or published to.
-- `subscribes` is `nodeSubscribesToTopic`.
use v.Common.{
  ℕ, ◌+◌, Bool, true, false, not, ◌&&◌, ◌||◌, Option, none, some, List, [], ◌∷◌, map, String, ◌==◌,
  if◌then◌else◌, nat_eq, Dict, lookup, insert, filter, length, sort_by, text_lt,
}
use v.Model.{Time, Node, NodeState, is_ready, is_failed, is_serving}
use v.Fleet.Defs.{Fleet, agent_is_online}

pub record Counts : Type 0 where
  pub ready : ℕ
  pub total : ℕ
  pub failed : ℕ

abbrev pub matches : String → String → Bool
matches wanted actual = wanted == "" || actual == wanted

-- The zero Agent, of a missing key, is not online.
unfoldable pub node_agent_online : Fleet → Time → Node → Bool
node_agent_online s now n = elim (lookup n.agent_id s.agents) [
  | none ↦ false
  | some a ↦ agent_is_online a now
]

unfoldable pub count_node : Fleet → Time → Node → Counts → Counts
count_node s now n c = record {
  ready = if is_ready n.state && node_agent_online s now n then c.ready + 1 else c.ready;
  total = c.total + 1;
  failed = if is_failed n.state then c.failed + 1 else c.failed;
}

-- `readyCount`.
unfoldable pub ready_count : Fleet → Time → String → ℕ → String → String → Dict Node → Counts
ready_count s now run generation group type [] = record { ready = 0; total = 0; failed = 0 }
ready_count s now run generation group type ((k, n) ∷ m) =
    let rest = ready_count s now run generation group type m in
    if n.run_id == run
      && nat_eq n.generation generation
      && matches group n.group
      && matches type n.type
    then count_node s now n rest
    else rest

-- The text of a state.
abbrev pub state_text : NodeState → String
state_text NodeState.starting = "starting"
state_text NodeState.ready = "ready"
state_text NodeState.stopping = "stopping"
state_text NodeState.stopped = "stopped"
state_text NodeState.failed = "failed"
state_text (NodeState.other s) = s

unfoldable pub is_match : String → String → String → String → Node → Bool
is_match run group state type n =
    n.run_id == run
    && matches group n.group
    && matches type n.type
    && matches state (state_text n.state)
    && is_serving n.state

unfoldable pub nodes_of : Dict Node → List Node
nodes_of [] = []
nodes_of ((k, n) ∷ m) = n ∷ nodes_of m

-- `matchingNodes`.
unfoldable pub matching_nodes : Fleet → String → String → String → String → List Node
matching_nodes s run group state type =
    sort_by (λ a b. text_lt a.id b.id) (filter (is_match run group state type) (nodes_of s.nodes))

-- The parts of a publish request that the cohort fills in; `none` is the nil slice.
pub record PublishRequest : Type 0 where
  pub run_id : String
  pub topic : String
  pub target_nodes : ℕ
  pub target_nodes_by_topic : Dict ℕ
  pub target_node_ids : Option (List String)
  pub target_node_ids_by_topic : Dict (List String)
  pub cohort_captured_at : Time

module _ (subscribes : Node → String → Bool) where
  -- `topicSubscriberCount`.
  unfoldable pub topic_subscriber_count : Fleet → Time → String → String → ℕ
  topic_subscriber_count s now run topic = length (
      filter (λ n. node_agent_online s now n && subscribes n topic)
        (matching_nodes s run "" "ready" ""))

  -- The loop that looks for the publisher.
  unfoldable pub publisher_counts : Fleet → Time → String → String → List Node → Bool
  publisher_counts s now topic publisher [] = false
  publisher_counts s now topic publisher (n ∷ ns) =
      let rest = publisher_counts s now topic publisher ns in
      if n.id == publisher && node_agent_online s now n then not (subscribes n topic) else rest

  -- `topicReachTargetCount`.
  unfoldable pub topic_reach_target_count : Fleet → Time → String → String → String → ℕ
  topic_reach_target_count s now run topic publisher =
      let subscribers = topic_subscriber_count s now run topic in
      let count =
        if publisher_counts s now topic publisher (matching_nodes s run "" "ready" "")
        then subscribers + 1
        else subscribers in
      if nat_eq count 0 then 1 else count

  unfoldable pub is_target : Fleet → Time → String → String → String → Node → Bool
  is_target s now run publisher topic n =
      not (n.id == publisher)
      && n.run_id == run
      && is_ready n.state
      && node_agent_online s now n
      && subscribes n topic

  -- The receivers of a topic, in order.
  unfoldable pub targets_of : Fleet → Time → String → String → String → List String
  targets_of s now run publisher topic =
      sort_by text_lt
        (map (λ (n : Node). n.id) (filter (is_target s now run publisher topic) (nodes_of s.nodes)))

  -- The body of the loop over the topics.
  unfoldable pub capture_topic : Fleet → Time → String → String → PublishRequest → PublishRequest
  capture_topic s now publisher topic r =
      let targets = targets_of s now r.run_id publisher topic in
      let r₁ = record r {
        target_node_ids_by_topic = insert topic targets r.target_node_ids_by_topic;
        target_nodes_by_topic = insert topic (length targets + 1) r.target_nodes_by_topic;
      } in
      if not (r.topic == "*")
      then record r₁ { target_node_ids = some targets; target_nodes = length targets + 1 }
      else r₁

  unfoldable pub capture_topics :
      Fleet → Time → String → List String → PublishRequest → PublishRequest
  capture_topics s now publisher [] r = r
  capture_topics s now publisher (t ∷ ts) r =
      capture_topics s now publisher ts (capture_topic s now publisher t r)

  abbrev pub is_publisher : Fleet → Time → Option Node → Bool
  is_publisher s now none = false
  is_publisher s now (some n) = is_ready n.state && node_agent_online s now n

  -- `capturePublishCohort`, with its result.
  unfoldable pub capture_publish_cohort :
      Fleet → Time → String → List String → PublishRequest → PublishRequest × Bool
  capture_publish_cohort s now publisher topics r =
      if is_publisher s now (lookup publisher s.nodes)
      then (
        capture_topics s now publisher topics (record r {
          cohort_captured_at = now;
          target_node_ids_by_topic = [];
          target_nodes_by_topic = [];
        }),
        true,
      )
      else (r, false)
