-- ===== src/Fleet/Register.antt =====
-- internal/controller/state.go: `registerAgent` and `markStaleAgents`.
use v.Common.{
  ℕ, ◌+◌, Bool, not, ◌&&◌, ◌||◌, none, some, [], ◌∷◌, String, ◌==◌, if◌then◌else◌, ltb, nat_eq,
  Dict, lookup, or_zero, insert, delete, is_blank,
}
use v.Common.Int.{pos, ◌+ℤ◌, max_ℤ}
use v.Model.{Time, is_zero, Agent, Node, NodeState, AgentState, is_offline}
use v.Fleet.Defs.{
  Fleet, set_node, range_nodes, node_has_live_state, agent_is_online, first_non_empty,
}
use v.Fleet.Capacity.{observe_capacity}

pub data RegisterError : Type 0 where
  settings : String → RegisterError
  missing_identity already_registered : RegisterError

pub data RegisterReply : Type 0 where
  ok : Agent → RegisterReply
  err : RegisterError → RegisterReply

-- Forget the reservations of one Agent.
unfoldable pub drop_reservations : String → Dict String → Dict String
drop_reservations a [] = []
drop_reservations a ((k, owner) ∷ m) =
    let rest = drop_reservations a m in if owner == a then rest else (k, owner) ∷ rest

unfoldable pub fail_node : Time → Node → Node
fail_node now n = record n {
  state = NodeState.failed;
  error = "Agent instance restarted";
  last_seen = now;
}

-- The Peers of a restarted Agent have failed.
unfoldable pub fail_entry : String → Time → String → Node → Fleet → Fleet
unfolding node_has_live_state fail_node
fail_entry a now k n s =
    if n.agent_id == a && node_has_live_state n then set_node (fail_node now n) s else s

-- How many reservations an Agent has.
unfoldable pub reserved_count : String → Dict String → ℕ
reserved_count a [] = 0
reserved_count a ((k, owner) ∷ m) =
    let rest = reserved_count a m in if owner == a then rest + 1 else rest

-- The three branches of `registerAgent`: a restart, a repeated registration, a new Agent.
unfoldable pub restart_agent : Time → Agent → Fleet → Fleet
restart_agent now a s =
    let s' =
      range_nodes (fail_entry a.id now) s.nodes
        (record s { reservations = drop_reservations a.id s.reservations }) in
    record s' { agent_snapshots = delete a.id s'.agent_snapshots }

unfoldable pub rejoin : Agent → Agent → Agent
rejoin previous a = record a {
  metrics_url = first_non_empty a.metrics_url previous.metrics_url;
  active_nodes = max_ℤ a.active_nodes previous.active_nodes;
}

unfoldable pub join : Fleet → Agent → Agent
unfolding reserved_count ◌+ℤ◌
join s a = record a { active_nodes = a.active_nodes +ℤ pos (reserved_count a.id s.reservations) }

-- What every accepted registration ends with.
unfoldable pub admit : Time → String → Time → Agent → Fleet → Fleet × RegisterReply
admit now fresh reported_at a s =
    let a₁ = record a {
      started_at = if is_zero a.started_at then now else a.started_at;
      active_nodes = max_ℤ (pos 0) a.active_nodes;
      last_seen = now;
      state = AgentState.online;
    } in
    let s₁ = record s {
      agent_snapshots =
          if not (is_zero reported_at)
            && ltb (or_zero 0 (lookup a.id s.agent_snapshots)) reported_at
          then insert a.id reported_at s.agent_snapshots
          else s.agent_snapshots;
    } in
    let (s₂, a₂) = observe_capacity fresh a₁ s₁ in
    (record s₂ { agents = insert a₂.id a₂ s₂.agents }, ok a₂)

unfoldable pub same_start : Agent → Agent → Agent
same_start previous a = record a {
  started_at = if is_zero a.started_at then previous.started_at else a.started_at;
}

unfoldable pub is_refused : Time → Agent → Agent → Bool
is_refused now previous a = ltb a.started_at previous.started_at || agent_is_online previous now

unfoldable pub register_known : Time → String → Agent → Agent → Fleet → Fleet × RegisterReply
register_known now fresh previous a s =
    let b = same_start previous a in
    if nat_eq b.started_at previous.started_at
    then admit now fresh a.last_seen (rejoin previous b) s
    else if is_refused now previous b
    then (s, err already_registered)
    else admit now fresh a.last_seen b (restart_agent now b s)

-- `registerAgent`.
unfoldable pub register_agent : Time → String → Agent → Fleet → Fleet × RegisterReply
register_agent now fresh a s = elim s.settings_error [
  | some e ↦ (s, err (settings e))
  | none ↦
      if is_blank a.id || is_blank a.url
      then (s, err missing_identity)
      else elim (lookup a.id s.agents) [
        | some previous ↦ register_known now fresh previous a s
        | none ↦ admit now fresh a.last_seen (join s a) s
      ]
]

-- `markStaleAgents`.
unfoldable pub mark_stale : Time → ℕ → Dict Agent → Dict Agent
mark_stale now max_age [] = []
mark_stale now max_age ((k, a) ∷ m) =
    (
      k,
      if ltb (a.last_seen + max_age) now && not (is_offline a.state)
          then record a { state = AgentState.offline }
          else a,
    )
    ∷ mark_stale now max_age m

unfoldable pub mark_stale_agents : Time → ℕ → Fleet → Fleet
mark_stale_agents now max_age s = record s { agents = mark_stale now max_age s.agents }
