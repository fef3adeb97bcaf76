-- ===== src/Model.antt =====
-- internal/model/model.go: the records that the Controller, the Agents and the Peers exchange.
-- A time is a number of nanoseconds, and 0 is Go's zero time. An `int` is signed.
use v.Common.{ℕ, Option, Bool, true, false, not, ◌&&◌, List, String, Dict, nat_eq}
use v.Common.Int.{ℤ}

abbrev pub Time : Type 0
Time = ℕ

-- `t.IsZero()`.
abbrev pub is_zero : Time → Bool
is_zero t = nat_eq t 0

-- `unset` is the empty text of a zero record.
pub data AgentState : Type 0 where
  unset online offline : AgentState

-- The five states of a Peer; `other` is any other text, the empty one among them.
pub data NodeState : Type 0 where
  starting ready stopping stopped failed : NodeState
  other : String → NodeState

pub record Agent : Type 0 where
  pub startup_reconciled : Bool
  pub peer_image : String
  pub run_drain : Bool
  pub id : String
  pub name : String
  pub url : String
  pub metrics_url : String
  pub hostname : String
  pub version : String
  pub capacity : ℤ
  pub default_capacity : ℤ
  pub capacity_override : ℤ
  pub capacity_pending : Bool
  pub capacity_revision : String
  pub active_nodes : ℤ
  pub state : AgentState
  pub labels : Dict String
  pub started_at : Time
  pub last_seen : Time

pub record Node : Type 0 where
  pub id : String
  pub run_id : String
  pub generation : ℕ
  pub agent_id : String
  pub group : String
  pub role : String
  pub type : String
  pub profile : String
  pub peer_id : String
  pub state : NodeState
  pub addresses : List String
  pub connected_peers : List String
  pub routing_peers : List String
  pub mesh_peers : Dict (List String)
  pub overlay_observed_at : Time
  pub topic_peers : Dict ℤ
  pub metadata : Option (Dict String)  -- `none` is the nil map
  pub started_at : Time
  pub last_seen : Time
  pub error : String

pub record AgentHeartbeat : Type 0 where
  pub agent : Agent
  pub nodes : List Node
  pub partial : Bool

abbrev pub is_stopped : NodeState → Bool
is_stopped NodeState.stopped = true
is_stopped _ = false

abbrev pub is_failed : NodeState → Bool
is_failed NodeState.failed = true
is_failed _ = false

abbrev pub is_stopping : NodeState → Bool
is_stopping NodeState.stopping = true
is_stopping _ = false

abbrev pub is_ready : NodeState → Bool
is_ready NodeState.ready = true
is_ready _ = false

-- `state != stopping && state != stopped && state != failed`: the Peer serves or will serve.
abbrev pub is_serving : NodeState → Bool
is_serving s = not (is_stopping s) && not (is_stopped s) && not (is_failed s)

abbrev pub is_online : AgentState → Bool
is_online AgentState.online = true
is_online _ = false

abbrev pub is_offline : AgentState → Bool
is_offline AgentState.offline = true
is_offline _ = false

-- A value of an event's `fields`, of the kinds that the modelled code writes. `milliseconds` is
-- `float64(d) / float64(time.Millisecond)`, kept as the duration `d`.
pub data FieldValue : Type 0 where
  text : String → FieldValue
  texts : List String → FieldValue
  number : ℕ → FieldValue
  milliseconds : ℤ → FieldValue

-- The bandwidth sample and the latency are left out.
pub record TraceEvent : Type 0 where
  pub group : String
  pub session_id : String
  pub sequence : ℕ
  pub event_id : String
  pub run_id : String
  pub agent_id : String
  pub node_id : String
  pub peer_id : String
  pub type : String
  pub message_id : String
  pub remote_peer_id : String
  pub topic : String
  pub timestamp : Time
  pub fields : Option (Dict FieldValue)  -- `none` is the nil map

pub record EventBatch : Type 0 where
  pub agent_id : String
  pub events : List TraceEvent
