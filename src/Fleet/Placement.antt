-- ===== src/Fleet/Placement.antt =====
-- internal/controller/runner.go: where a Peer is placed, and the record of a created Peer.
use v.Common.{
  ℕ, Bool, true, false, not, ◌&&◌, ◌||◌, Option, none, some, List, [], ◌∷◌, String, ◌==◌,
  if◌then◌else◌, ltb, nat_eq, Dict, lookup, insert, delete, text_lt, sort_by, length, get_elem?,
}
use v.Common.Int.{ℤ, pos, ◌+ℤ◌, ◌-ℤ◌, is_pos, leb_ℤ}
use v.Common.Float.{Float}
use v.Model.{Time, is_zero, Agent, Node, NodeState, is_serving}
use v.Fleet.Defs.{Fleet, set_node, agent_is_online}

pub record Reserved : Type 0 where
  pub fleet : Fleet
  pub agent : Option Agent

-- `utilization` and `balancedAgentBefore`, over the floats of `f`.
module _ (f : Float) where
  open f use {F, of_int, plus, div, lt, eq}

  unfoldable pub utilization : Agent → ℤ → F
  utilization a additional =
      let occupied = plus (of_int a.active_nodes) (of_int additional) in
      if is_pos a.capacity then div occupied (of_int a.capacity) else occupied

  unfoldable pub balanced_before : Agent → Agent → Bool
  unfolding utilization
  balanced_before a b =
      if not (eq (utilization a (pos 1)) (utilization b (pos 1)))
      then lt (utilization a (pos 1)) (utilization b (pos 1))
      else if not (eq (utilization a (pos 0)) (utilization b (pos 0)))
      then lt (utilization a (pos 0)) (utilization b (pos 0))
      else text_lt a.id b.id

-- `agent.Capacity > 0 && agent.ActiveNodes >= agent.Capacity`.
unfoldable pub is_full : Agent → Bool
is_full a = is_pos a.capacity && leb_ℤ a.capacity a.active_nodes

unfoldable pub is_candidate : Time → String → Agent → Bool
unfolding is_full
is_candidate now target a =
    (target == "" || a.id == target) && agent_is_online a now && not (is_full a)

unfoldable pub candidates : Time → String → Dict Agent → List Agent
unfolding is_candidate
candidates now target [] = []
candidates now target ((k, a) ∷ m) =
    let rest = candidates now target m in if is_candidate now target a then a ∷ rest else rest

-- The scan for the best candidate: `before` is `balancedAgentBefore`.
unfoldable pub best_of : (Agent → Agent → Bool) → Agent → List Agent → Agent
best_of before selected [] = selected
best_of before selected (a ∷ rest) = best_of before (if before a selected then a else selected) rest

-- Balanced placement, or the draw of a number below the count of candidates.
pub data Choice : Type 0 where
  balanced : Choice
  random : (ℕ → ℕ) → Choice

unfoldable pub select_agent : (Agent → Agent → Bool) → Choice → List Agent → Option Agent
unfolding best_of
select_agent before c [] = none
select_agent before balanced (a ∷ rest) = some (best_of before a rest)
select_agent before (random draw) (a ∷ rest) =
    get_elem? (sort_by (λ x y. text_lt x.id y.id) (a ∷ rest)) (draw (length (a ∷ rest)))

unfoldable pub reserve : String → Agent → Fleet → Reserved
unfolding ◌+ℤ◌
reserve node a s =
    let a' = record a { active_nodes = a.active_nodes +ℤ pos 1 } in
    record {
      fleet = record s {
        agents = insert a'.id a' s.agents;
        reservations = insert node a'.id s.reservations;
      };
      agent = some a';
    }

unfoldable pub reserve_choice : String → Option Agent → Fleet → Reserved
unfolding reserve
reserve_choice node none s = record { fleet = s; agent = none }
reserve_choice node (some a) s = reserve node a s

-- The Agent that already holds the reservation, if it is usable.
unfoldable pub held_agent : Time → String → String → Option Agent → Option Agent
held_agent now target owner none = none
held_agent now target owner (some a) =
    if agent_is_online a now && (target == "" || owner == target) then some a else none

-- `tryReserveAgentWithPlacement`.
unfoldable pub try_reserve :
    (Agent → Agent → Bool) → Choice → Time → String → String → Fleet → Reserved
try_reserve before c now node target s = elim (lookup node s.reservations) [
  | some owner ↦ record { fleet = s; agent = held_agent now target owner (lookup owner s.agents) }
  | none ↦ reserve_choice node (select_agent before c (candidates now target s.agents)) s
]

unfoldable pub release_slot : String → Option Agent → Dict Agent → Dict Agent
unfolding ◌-ℤ◌
release_slot id none agents = agents
release_slot id (some a) agents =
    if is_pos a.active_nodes
    then insert id (record a { active_nodes = a.active_nodes -ℤ pos 1 }) agents
    else agents

-- `releaseReservation`: a Peer with no reservation names the Agent with the empty id.
unfoldable pub release_reservation : String → Fleet → Fleet
unfolding release_slot
release_reservation node s = elim (lookup node s.reservations) [
  | none ↦ record s { agents = release_slot "" (lookup "" s.agents) s.agents }
  | some owner ↦ record s {
    reservations = delete node s.reservations;
    agents = release_slot owner (lookup owner s.agents) s.agents;
  }
]

abbrev pub is_empty_state : NodeState → Bool
is_empty_state (NodeState.other s) = s == ""
is_empty_state _ = false

pub record CreateRequest : Type 0 where
  pub id : String
  pub run_id : String
  pub generation : ℕ
  pub group : String
  pub role : String
  pub type : String
  pub profile : String

abbrev default_to : String → String → String
default_to value fallback = if value == "" then fallback else value

-- What a create response leaves out. `metadata` are the entries made from the request's
-- configuration where the response has none.
unfoldable pub fill_created : Time → Dict String → CreateRequest → String → Node → Node
fill_created now metadata q agent n = record n {
  id = default_to n.id q.id;
  run_id = default_to n.run_id q.run_id;
  generation = if nat_eq n.generation 0 then q.generation else n.generation;
  agent_id = default_to n.agent_id agent;
  group = default_to n.group q.group;
  role = default_to n.role q.role;
  type = default_to n.type q.type;
  profile = default_to n.profile q.profile;
  state = if is_empty_state n.state then NodeState.starting else n.state;
  metadata = elim n.metadata [ none ↦ some metadata | some m ↦ some m ];
  started_at = if is_zero n.started_at then now else n.started_at;
  last_seen = if is_zero n.last_seen then now else n.last_seen;
}

-- A delayed response must not undo the lifecycle that came after it.
unfoldable pub takes_created : Option Node → Node → Bool
takes_created none n = true
takes_created (some old) n = is_serving old.state && ltb old.last_seen n.last_seen

abbrev pub is_instance : Option Agent → Option Time → Bool
is_instance a none = true
is_instance none (some t) = false
is_instance (some a) (some t) = nat_eq a.started_at t

-- `recordCreatedNode`; the result tells whether the Agent is still the expected instance.
unfoldable pub record_created :
    Time → Dict String → CreateRequest → String → Option Time → Node → Fleet → Fleet × Bool
record_created now metadata q agent expected n s =
    let m = fill_created now metadata q agent n in
    if not (is_instance (lookup agent s.agents) expected)
    then (s, false)
    else if takes_created (lookup m.id s.nodes) m
    then (set_node m s, true)
    else (s, true)

unfoldable pub mark_stopping : Time → Option Node → Fleet → Fleet
mark_stopping now none s = s
mark_stopping now (some n) s =
    if is_serving n.state
    then set_node (record n { state = NodeState.stopping; last_seen = now }) s
    else s

-- `markNodeStoppingAndReleaseCapacity`.
unfoldable pub mark_node_stopping : Time → String → Fleet → Fleet
mark_node_stopping now node s =
    let s' = mark_stopping now (lookup node s.nodes) s in
    record s' { reservations = delete node s'.reservations }
