-- ===== src/Fleet/Heartbeat.antt =====
-- internal/controller/state.go: `heartbeat`, the status report of an Agent.
use v.Common.{
  ℕ, ◌+◌, Bool, not, ◌&&◌, ◌||◌, Option, none, some, List, [], ◌∷◌, String, ◌==◌, if◌then◌else◌,
  ltb, leb, nat_eq, lookup, or_zero, insert, contains, filter,
}
use v.Common.Int.{ℤ, pos, ◌+ℤ◌, ◌-ℤ◌, max_ℤ, eq_ℤ}
use v.Model.{
  Time, is_zero, Agent, Node, NodeState, AgentState, AgentHeartbeat, is_stopped, is_serving,
}
use v.Fleet.Defs.{Fleet, set_node, range_nodes, active_nodes, first_non_empty}
use v.Fleet.Capacity.{observe_capacity}
use v.Fleet.Register.{reserved_count}
use v.Fleet.Merge.{check_nodes, Applied, reserved_by, apply_nodes, fine, bad}

pub data HeartbeatError : Type 0 where
  missing_id not_registered instance_mismatch : HeartbeatError
  bad_node : String → HeartbeatError

-- The serving Peers of an Agent, those still reserved left out.
unfoldable pub serving_count : String → Fleet → List Node → ℕ
unfolding reserved_by
serving_count a s [] = 0
serving_count a s (n ∷ ns) =
    let rest = serving_count a s ns in
    if n.agent_id == a && not (reserved_by a n.id s) && is_serving n.state then rest + 1 else rest

unfoldable pub stop_node : Time → Node → Node
stop_node now n = record n { state = NodeState.stopped; last_seen = now }

-- A Peer that a full report leaves out has exited, unless it is still being created.
unfoldable pub is_omitted : String → List String → String → Node → Fleet → Bool
unfolding reserved_by
is_omitted a seen k n s =
    n.agent_id == a && not (contains k seen) && not (is_stopped n.state) && not (reserved_by a k s)

unfoldable pub stop_omitted : Time → String → List String → String → Node → Fleet → Fleet
unfolding is_omitted stop_node
stop_omitted now a seen k n s = if is_omitted a seen k n s then set_node (stop_node now n) s else s

-- The fields that a report may leave out.
unfoldable pub merge_agent : Time → Fleet → Agent → Agent → Agent
merge_agent now s previous a = record a {
  url = first_non_empty a.url previous.url;
  metrics_url = first_non_empty a.metrics_url previous.metrics_url;
  name = first_non_empty a.name previous.name;
  hostname = first_non_empty a.hostname previous.hostname;
  version = first_non_empty a.version previous.version;
  peer_image = first_non_empty a.peer_image previous.peer_image;
  run_drain = a.run_drain || previous.run_drain;
  startup_reconciled = a.startup_reconciled || previous.startup_reconciled;
  capacity =
      if eq_ℤ a.capacity (pos 0)
      then or_zero (pos 0) (lookup a.id s.reported_capacities)
      else a.capacity;
  started_at = if is_zero a.started_at then previous.started_at else a.started_at;
  last_seen = now;
  state = AgentState.online;
}

unfoldable pub is_stale : Time → Time → Bool
is_stale reported last = not (is_zero reported) && not (is_zero last) && ltb reported last

-- A full report that is no newer than the last one.
unfoldable pub is_repeated : Bool → Time → Time → Bool
is_repeated partial reported last =
    not partial && not (is_zero reported) && not (is_zero last) && leb reported last

-- What a late report may still say: which Peers have exited.
unfoldable pub terminal_nodes : List Node → List Node
terminal_nodes ns = filter (λ n. is_stopped n.state) ns

unfoldable pub note_snapshot : Bool → Time → String → Fleet → Fleet
note_snapshot stale reported a s =
    if not stale && not (is_zero reported)
    then record s { agent_snapshots = insert a reported s.agent_snapshots }
    else s

unfoldable pub observed_active : Bool → String → Applied → ℕ
observed_active partial a r =
    if partial then serving_count a r.fleet (active_nodes r.fleet) else r.observed

unfoldable pub finish_nodes : Bool → Time → String → List String → Fleet → Fleet
finish_nodes partial now a seen s =
    if partial then s else range_nodes (stop_omitted now a seen) s.nodes s

-- The occupancy that is recorded: what the Agent says or what its Peers show, and the reservations.
unfoldable pub occupancy : ℤ → ℕ → ℕ → ℤ
unfolding ◌+ℤ◌
occupancy reported observed reserved = max_ℤ (max_ℤ (pos 0) reported) (pos observed) +ℤ pos reserved

-- The last part: the record of the Agent.
unfoldable pub record_agent : Bool → String → Agent → Agent → ℕ → Fleet → Fleet
unfolding ◌-ℤ◌
record_agent stale fresh previous a released s =
    if stale
    then record s {
      agents =
          insert previous.id
            (record previous {
              active_nodes = max_ℤ (pos 0) (previous.active_nodes -ℤ pos released);
            })
            s.agents;
    }
    else (let (s', a') = observe_capacity fresh a s in
        record s' { agents = insert a'.id a' s'.agents })

-- An accepted report.
unfoldable pub accept_report :
    Time → String → Agent → AgentHeartbeat → List String → Bool → Fleet → Fleet
accept_report now fresh previous h seen stale s =
    let id = h.agent.id in
    let reported = h.agent.last_seen in
    let nodes = if stale then terminal_nodes h.nodes else h.nodes in
    let s₁ = note_snapshot stale reported id s in
    let a = merge_agent now s₁ previous h.agent in
    let r = apply_nodes now reported id nodes (record { fleet = s₁; observed = 0; released = 0 }) in
    let active =
      occupancy a.active_nodes (observed_active h.partial id r)
        (reserved_count id r.fleet.reservations) in
    record_agent stale fresh previous (record a { active_nodes = active }) r.released
      (finish_nodes h.partial now id seen r.fleet)

unfoldable pub heartbeat_of :
    Time → String → Agent → AgentHeartbeat → Fleet → Fleet × Option HeartbeatError
heartbeat_of now fresh previous h s =
    let reported = h.agent.last_seen in
    let last = or_zero 0 (lookup h.agent.id s.agent_snapshots) in
    if not (is_zero h.agent.started_at) && not (nat_eq h.agent.started_at previous.started_at)
    then (s, some instance_mismatch)
    else if is_repeated h.partial reported last
    then (s, none)
    else elim (check_nodes h.agent.id s [] h.nodes) [
      | bad id ↦ (s, some (bad_node id))
      | fine seen ↦ (accept_report now fresh previous h seen (is_stale reported last) s, none)
    ]

-- `heartbeat`.
unfoldable pub heartbeat : Time → String → AgentHeartbeat → Fleet → Fleet × Option HeartbeatError
heartbeat now fresh h s =
    if h.agent.id == "" then (s, some missing_id) else elim (lookup h.agent.id s.agents) [
      | none ↦ (s, some not_registered)
      | some previous ↦ heartbeat_of now fresh previous h s
    ]
