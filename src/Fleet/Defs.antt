-- ===== src/Fleet/Defs.antt =====
-- internal/controller/state.go: the state, the index of live Peers, and the liveness of an Agent.
use v.Common.{
  ℕ, ◌+◌, Bool, not, ◌&&◌, ◌||◌, Option, none, some, List, [], ◌∷◌, String, ◌==◌, if◌then◌else◌,
  leb, Dict, lookup, insert, add, remove,
}
use v.Common.Int.{ℤ}
use v.Model.{Time, is_zero, Agent, Node, is_stopped, is_failed, is_online}

pub record Fleet : Type 0 where
  pub settings_error : Option String
  pub capacity_overrides : Dict ℤ
  pub capacity_revisions : Dict String
  pub reported_capacities : Dict ℤ
  pub agents : Dict Agent
  pub nodes : Dict Node
  pub active_node_ids : Option (List String)
  pub reservations : Dict String
  pub agent_snapshots : Dict Time
  pub node_report_times : Dict Time

-- 10 s in nanoseconds.
abbrev pub agent_stale_after : ℕ
agent_stale_after = 10_000_000_000

unfoldable pub new_fleet : Option String → Dict ℤ → Fleet
new_fleet e overrides = record {
  settings_error = e;
  capacity_overrides = overrides;
  capacity_revisions = [];
  reported_capacities = [];
  agents = [];
  nodes = [];
  active_node_ids = none;
  reservations = [];
  agent_snapshots = [];
  node_report_times = [];
}

unfoldable pub node_has_live_state : Node → Bool
node_has_live_state n = not (is_stopped n.state) && not (is_failed n.state)

-- The first call of `setNodeLocked` ranges over the nodes.
unfoldable pub live_ids : Dict Node → List String
unfolding node_has_live_state
live_ids [] = []
live_ids ((k, n) ∷ m) = let rest = live_ids m in if node_has_live_state n then add k rest else rest

unfoldable pub active_index : Fleet → List String
unfolding live_ids
active_index s = elim s.active_node_ids [ none ↦ live_ids s.nodes | some ids ↦ ids ]

unfoldable pub set_node : Node → Fleet → Fleet
unfolding active_index node_has_live_state
set_node n s = record s {
  nodes = insert n.id n s.nodes;
  active_node_ids =
      some
        (if node_has_live_state n then add n.id (active_index s) else remove n.id (active_index s));
}

-- The nodes that the iterator yields, in its order.
unfoldable pub live_nodes : Dict Node → List Node
unfolding node_has_live_state
live_nodes [] = []
live_nodes ((k, n) ∷ m) =
    let rest = live_nodes m in if node_has_live_state n then n ∷ rest else rest

unfoldable pub indexed_nodes : Dict Node → List String → List Node
unfolding node_has_live_state
indexed_nodes m [] = []
indexed_nodes m (k ∷ ids) =
    let rest = indexed_nodes m ids in
    elim (lookup k m) [ none ↦ rest | some n ↦ if node_has_live_state n then n ∷ rest else rest ]

unfoldable pub active_nodes : Fleet → List Node
unfolding live_nodes indexed_nodes
active_nodes s = elim s.active_node_ids [
  | none ↦ live_nodes s.nodes
  | some ids ↦ indexed_nodes s.nodes ids
]

-- `for id, node := range s.nodes`: each entry of the map, as it stood when the loop began.
unfoldable pub range_nodes : (String → Node → Fleet → Fleet) → Dict Node → Fleet → Fleet
range_nodes body [] s = s
range_nodes body ((k, n) ∷ m) s = range_nodes body m (body k n s)

unfoldable pub agent_is_online : Agent → Time → Bool
agent_is_online a now =
    is_online a.state && (is_zero a.last_seen || leb now (a.last_seen + agent_stale_after))

-- `firstNonEmpty`.
unfoldable pub first_non_empty : String → String → String
first_non_empty value fallback = if value == "" then fallback else value
