-- ===== src/Fleet/Reports.antt =====
-- What a heartbeat does to the Peers.
use v.Common.{
  ℕ, ◌≡◌, ◌⊎◌, or_zero, nat_eq, refl, Bool, not, ◌&&◌, ◌||◌, some, Option-cases, List, [], ◌∷◌,
  String, ◌==◌, Bool-cases, inl, inr, lookup, arith,
}
use v.Model.{Time, is_zero, Agent, Node, AgentHeartbeat}
use v.Fleet.Defs.{Fleet}
use v.Fleet.Lifecycle.{
  IsLater, same-IsLater, set_node-IsLater, report-Follows, finish_nodes-IsLater,
}
use v.Fleet.Capacity.{observe_capacity}
use v.Fleet.Heartbeat.{
  note_snapshot, record_agent, accept_report, heartbeat_of, heartbeat, HeartbeatError, is_stale,
  is_repeated,
}
use v.Fleet.Merge.{
  Applied, apply_node, apply_nodes, clear_reservation, complete_node, check_nodes, Checked, fine,
  bad,
}

clear_reservation-IsLater :
    (s₀ : Fleet) (a id : String) (s : Fleet) → IsLater s₀ s → IsLater s₀ (clear_reservation a id s)
unfolding clear_reservation
clear_reservation-IsLater s₀ a id s l = same-IsLater s₀ s _ (ground arith) (ground arith) l

-- A reported Peer is written under its own id, and follows its lifecycle.
pub apply_node-IsLater :
    (s₀ : Fleet) (now reported : Time) (a : String) (n : Node) (r : Applied)
    → IsLater s₀ r.fleet
    → IsLater s₀ (apply_node now reported a n r).fleet
unfolding apply_node complete_node
apply_node-IsLater s₀ now reported a n r l = clear_reservation-IsLater s₀ a _ _ (
    set_node-IsLater s₀ _ _ (same-IsLater s₀ r.fleet _ refl refl l)
      (report-Follows r.fleet _ n.id l.consistent refl))

apply_nodes-IsLater :
    (s₀ : Fleet) (now reported : Time) (a : String) (ns : List Node) (r : Applied)
    → IsLater s₀ r.fleet
    → IsLater s₀ (apply_nodes now reported a ns r).fleet
unfolding apply_nodes
apply_nodes-IsLater s₀ now reported a [] r l = l
apply_nodes-IsLater s₀ now reported a (n ∷ ns) r l =
    apply_nodes-IsLater s₀ now reported a ns (apply_node now reported a n r)
      (apply_node-IsLater s₀ now reported a n r l)

pub note_snapshot-IsLater :
    (s₀ : Fleet) (stale : Bool) (reported : Time) (a : String) (s : Fleet)
    → IsLater s₀ s
    → IsLater s₀ (note_snapshot stale reported a s)
unfolding note_snapshot
note_snapshot-IsLater s₀ stale reported a s l = same-IsLater s₀ s _ (ground arith) (ground arith) l

record_agent-IsLater :
    (s₀ : Fleet) (stale : Bool) (fresh : String) (previous a : Agent) (released : ℕ) (s : Fleet)
    → IsLater s₀ s
    → IsLater s₀ (record_agent stale fresh previous a released s)
unfolding record_agent observe_capacity
record_agent-IsLater s₀ stale fresh previous a released s l =
    same-IsLater s₀ s _ (ground arith) (ground arith) l

accept_report-IsLater :
    (s₀ : Fleet) (now : Time) (fresh : String) (previous : Agent) (h : AgentHeartbeat)
    (seen : List String) (stale : Bool) (s : Fleet)
    → IsLater s₀ s
    → IsLater s₀ (accept_report now fresh previous h seen stale s)
unfolding accept_report
accept_report-IsLater s₀ now fresh previous h seen stale s l =
    record_agent-IsLater s₀ stale fresh previous _ _ _ (
      finish_nodes-IsLater s₀ h.partial now h.agent.id seen _ (
        apply_nodes-IsLater s₀ now h.agent.last_seen h.agent.id _ _
          (note_snapshot-IsLater s₀ stale h.agent.last_seen h.agent.id s l)))

-- A report that is accepted is applied to the Peers that were checked.
pub record Accepts (now : Time) (fresh : String) (h : AgentHeartbeat) (s s' : Fleet) : Type 0 where
  pub previous : Agent
  pub seen : List String
  pub stale : Bool
  pub known : lookup h.agent.id s.agents ≡ some previous
  pub checked : check_nodes h.agent.id s [] h.nodes ≡ fine seen
  pub applied : s' ≡ accept_report now fresh previous h seen stale s

is_refused_report : Agent → AgentHeartbeat → Fleet → Bool
is_refused_report previous h s =
    not (is_zero h.agent.started_at) && not (nat_eq h.agent.started_at previous.started_at)
    || is_repeated h.partial h.agent.last_seen (or_zero 0 (lookup h.agent.id s.agent_snapshots))

checked_form :
    (now : Time) (fresh : String) (previous : Agent) (h : AgentHeartbeat) (s : Fleet) (c : Checked)
    → lookup h.agent.id s.agents ≡ some previous
    → check_nodes h.agent.id s [] h.nodes ≡ c
    → let s' = (heartbeat_of now fresh previous h s).0 in (s' ≡ s) ⊎ Accepts now fresh h s s'
unfolding heartbeat_of is_refused_report
checked_form now fresh previous h s (bad id) known e = inl (ground (arith, e))
checked_form now fresh previous h s (fine seen) known e =
    elim (Bool-cases (is_refused_report previous h s)) [
      | inl stays ↦ inl (ground arith)
      | inr goes ↦ inr (record {
        previous = previous;
        seen = seen;
        stale = is_stale h.agent.last_seen (or_zero 0 (lookup h.agent.id s.agent_snapshots));
        known = known;
        checked = e;
        applied = ground arith;
      })
    ]

pub heartbeat_form :
    (now : Time) (fresh : String) (h : AgentHeartbeat) (s : Fleet)
    → let s' = (heartbeat now fresh h s).0 in (s' ≡ s) ⊎ Accepts now fresh h s s'
unfolding heartbeat
heartbeat_form now fresh h s = elim (Option-cases (lookup h.agent.id s.agents)) [
  | inl e ↦ inl (ground arith)
  | inr (previous, e) ↦ elim (Bool-cases (h.agent.id == "")) [
    | inl empty ↦ inl (ground arith)
    | inr named ↦
        rw (named, e)
          (checked_form now fresh previous h s (check_nodes h.agent.id s [] h.nodes) e refl)
  ]
]

-- Whatever the report says, each Peer that is known stays known and follows its lifecycle.
pub heartbeat-IsLater :
    (s₀ : Fleet) (now : Time) (fresh : String) (h : AgentHeartbeat) (s : Fleet)
    → IsLater s₀ s
    → IsLater s₀ (heartbeat now fresh h s).0
heartbeat-IsLater s₀ now fresh h s l = elim (heartbeat_form now fresh h s) [
  | inl same ↦ rw same l
  | inr r ↦ rw r.applied (accept_report-IsLater s₀ now fresh r.previous h r.seen r.stale s l)
]

-- A refused report changes nothing.
pub heartbeat_error_unchanged :
    (now : Time) (fresh : String) (h : AgentHeartbeat) (s : Fleet) {e : HeartbeatError}
    → (heartbeat now fresh h s).1 ≡ some e
    → (heartbeat now fresh h s).0 ≡ s
unfolding heartbeat heartbeat_of
heartbeat_error_unchanged now fresh h s e = ground arith
