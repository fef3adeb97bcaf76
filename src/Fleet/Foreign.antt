-- ===== src/Fleet/Foreign.antt =====
-- What a heartbeat leaves alone: the Peers of other Agents.
use mathlib.Core.Option.{some-injective}
use mathlib.Core.Path.{subst}
use v.Common.{
  ap, ℕ, ◌≡◌, refl, sym, ◌∙◌, Bool, true, false, some, Bool-cases, inl, inr, List, [], ◌∷◌, String,
  ◌==◌, str_eq_iff, if◌then◌else◌, lookup, All, arith,
}
use v.Model.{Time, Agent, Node, AgentHeartbeat, is_stopped}
use v.Fleet.Defs.{Fleet}
use v.Fleet.Capacity.{observe_capacity}
use v.Fleet.Heartbeat.{
  is_omitted, stop_node, stop_omitted, finish_nodes, terminal_nodes, note_snapshot, record_agent,
  accept_report, heartbeat,
}
use v.Fleet.Merge.{
  Applied, is_foreign, is_bad_node, check_nodes, fine, complete_node, merge_node, apply_node,
  apply_nodes, clear_reservation,
}
use v.Fleet.Index.{IsConsistent, range_nodes_inv, set_node-lookup}
use v.Fleet.Lifecycle.{IsLater, IsLater-refl, if_set-local, stop_omitted-IsLater, report-id}
use v.Fleet.Reports.{heartbeat_form, apply_node-IsLater, note_snapshot-IsLater}

module _ (s₀ : Fleet) (a k : String) (n : Node)
    (foreign : is_foreign a (some n.agent_id) ≡ true) where
  -- The fleet is a later one, and the Peer `k` is as it was.
  abbrev Leaves : Fleet → Type 0
  Leaves s = IsLater s₀ s × (lookup k s.nodes ≡ some n)

  good-other :
      (s : Fleet) (seen : List String) (id : String)
      → lookup k s.nodes ≡ some n
      → is_bad_node a s seen id ≡ false
      → (id == k) ≡ false
  unfolding is_bad_node
  good-other s seen id found good = elim (Bool-cases (id == k)) [
    | inr other ↦ other
    | inl same ↦ absurd (ground (arith, same, str_eq_iff id k, found, foreign, good))
  ]

  -- A report of the Peer would have been refused.
  check_nodes-other :
      (s : Fleet) (seen seen' : List String) (ns : List Node)
      → lookup k s.nodes ≡ some n
      → check_nodes a s seen ns ≡ fine seen'
      → All (λ (m : Node). (m.id == k) ≡ false) ns
  unfolding check_nodes
  check_nodes-other s seen seen' [] found e = tt
  check_nodes-other s seen seen' (m ∷ ns) found e = elim (Bool-cases (is_bad_node a s seen m.id)) [
    | inl bad ↦ absurd (ground (arith, bad))
    | inr good ↦ (
      good-other s seen m.id found good,
      check_nodes-other s (m.id ∷ seen) seen' ns found (ground (arith, good)),
    )
  ]

  clear_reservation-nodes : (id : String) (s : Fleet) → (clear_reservation a id s).nodes ≡ s.nodes
  unfolding clear_reservation
  clear_reservation-nodes id s = ground arith

  apply_node-local :
      (now reported : Time) (m : Node) (r : Applied)
      → (m.id == k) ≡ false
      → IsLater s₀ r.fleet
      → lookup k r.fleet.nodes ≡ some n
      → lookup k (apply_node now reported a m r).fleet.nodes ≡ some n
  unfolding apply_node complete_node
  apply_node-local now reported m r other l e =
      let old = lookup m.id r.fleet.nodes in
      let written = merge_node old (complete_node now a old m) in
      let id = report-id r.fleet (complete_node now a old m) m.id l.consistent refl in
      rw (clear_reservation-nodes, set_node-lookup) (ground (arith, id, other, e))

  apply_node-Leaves :
      (now reported : Time) (m : Node) (r : Applied)
      → (m.id == k) ≡ false
      → Leaves r.fleet
      → Leaves (apply_node now reported a m r).fleet
  apply_node-Leaves now reported m r other (l, e) =
      (apply_node-IsLater s₀ now reported a m r l, apply_node-local now reported m r other l e)

  apply_nodes-Leaves :
      (now reported : Time) (ns : List Node) (r : Applied)
      → All (λ (m : Node). (m.id == k) ≡ false) ns
      → Leaves r.fleet
      → Leaves (apply_nodes now reported a ns r).fleet
  unfolding apply_nodes
  apply_nodes-Leaves now reported [] r h l = l
  apply_nodes-Leaves now reported (m ∷ ns) r h l =
      apply_nodes-Leaves now reported ns _ h.1 (apply_node-Leaves now reported m r h.0 l)

  terminal-other :
      (ns : List Node)
      → All (λ (m : Node). (m.id == k) ≡ false) ns
      → All (λ (m : Node). (m.id == k) ≡ false) (terminal_nodes ns)
  unfolding terminal_nodes
  terminal-other [] h = tt
  terminal-other (m ∷ ns) h = elim (Bool-cases (is_stopped m.state)) [
    | inl over ↦ rw over (h.0, terminal-other ns h.1)
    | inr live ↦ rw live (terminal-other ns h.1)
  ]

  foreign-other : (n.agent_id == a) ≡ false
  unfolding is_foreign
  foreign-other = ground (arith, foreign)

  stop_omitted-foreign :
      (now : Time) (seen : List String) (j : String) (m : Node) (s : Fleet)
      → (m.agent_id == a) ≡ false
      → stop_omitted now a seen j m s ≡ s
  unfolding stop_omitted is_omitted
  stop_omitted-foreign now seen j m s h = ground (arith, h)

  stop_omitted-local :
      (now : Time) (seen : List String) (j : String) (m : Node) (s : Fleet)
      → lookup j s.nodes ≡ some m
      → Leaves s
      → lookup k (stop_omitted now a seen j m s).nodes ≡ some n
  unfolding stop_omitted is_omitted
  stop_omitted-local now seen j m s found (l, e) = elim (Bool-cases (j == k)) [
    | inl same ↦
        let here : lookup k s.nodes ≡ some m =
          subst (λ i. lookup i s.nodes ≡ some m) ((str_eq_iff j k).0 same) found in
        let it : n ≡ m = some-injective n m (sym e ∙ here) in
        let spared =
          stop_omitted-foreign now seen j m s
            (ap (λ (x : Node). x.agent_id == a) (sym it) ∙ foreign-other) in
        ap (λ (s : Fleet). lookup k s.nodes) spared ∙ e
    | inr other ↦ if_set-local s₀ j m s found l _ (stop_node now m) refl k other ∙ e
  ]

  finish_nodes-Leaves :
      (partial : Bool) (now : Time) (seen : List String) (s : Fleet)
      → Leaves s
      → Leaves (finish_nodes partial now a seen s)
  unfolding finish_nodes stop_omitted
  finish_nodes-Leaves true now seen s l = l
  finish_nodes-Leaves false now seen s l =
      range_nodes_inv Leaves (stop_omitted now a seen)
        (λ j m s found l. (
          stop_omitted-IsLater s₀ now a seen j m s found l.0,
          stop_omitted-local now seen j m s found l,
        ))
        (λ j m s found l. if_set-local s₀ j m s found l.0 _ (stop_node now m) refl) s.nodes s
        l.0.consistent.distinct (λ j m e. e) l

  record_agent-nodes :
      (stale : Bool) (fresh : String) (previous b : Agent) (released : ℕ) (s : Fleet)
      → (record_agent stale fresh previous b released s).nodes ≡ s.nodes
  unfolding record_agent observe_capacity
  record_agent-nodes stale fresh previous b released s = ground arith

  note_snapshot-nodes :
      (stale : Bool) (reported : Time) (s : Fleet)
      → (note_snapshot stale reported a s).nodes ≡ s.nodes
  unfolding note_snapshot
  note_snapshot-nodes stale reported s = ground arith

  merged_nodes : Bool → List Node → List Node
  merged_nodes stale ns = if stale then terminal_nodes ns else ns

  merged-other :
      (stale : Bool) (ns : List Node)
      → All (λ (m : Node). (m.id == k) ≡ false) ns
      → All (λ (m : Node). (m.id == k) ≡ false) (merged_nodes stale ns)
  unfolding merged_nodes
  merged-other true ns h = terminal-other ns h
  merged-other false ns h = h

accept_report-foreign :
    (now : Time) (fresh : String) (previous : Agent) (h : AgentHeartbeat) (seen : List String)
    (stale : Bool) (s : Fleet) (k : String) (n : Node)
    → IsConsistent s
    → lookup k s.nodes ≡ some n
    → is_foreign h.agent.id (some n.agent_id) ≡ true
    → check_nodes h.agent.id s [] h.nodes ≡ fine seen
    → lookup k (accept_report now fresh previous h seen stale s).nodes ≡ some n
unfolding accept_report merged_nodes
accept_report-foreign now fresh previous h seen stale s k n c e foreign checked =
    let a = h.agent.id in
    let reported = h.agent.last_seen in
    let others =
      merged-other s a k n foreign stale h.nodes
        (check_nodes-other s a k n foreign s [] seen h.nodes e checked) in
    let noted : lookup k (note_snapshot stale reported a s).nodes ≡ some n =
      ap (λ nodes. lookup k nodes) (note_snapshot-nodes s a k n foreign stale reported s) ∙ e in
    let start : Leaves s a k n foreign (note_snapshot stale reported a s) =
      (note_snapshot-IsLater s stale reported a s (IsLater-refl s c), noted) in
    let begun : Applied = record {
      fleet = note_snapshot stale reported a s;
      observed = 0;
      released = 0;
    } in
    let applied = apply_nodes-Leaves s a k n foreign now reported _ begun others start in
    let finished = finish_nodes-Leaves s a k n foreign h.partial now seen _ applied in
    ap (λ nodes. lookup k nodes) (record_agent-nodes s a k n foreign stale fresh previous _ _ _)
    ∙ finished.1

-- A heartbeat leaves every Peer of another Agent as it was, whether the report names it or not.
pub heartbeat_leaves_foreign :
    (now : Time) (fresh : String) (h : AgentHeartbeat) (s : Fleet) (k : String) (n : Node)
    → IsConsistent s
    → lookup k s.nodes ≡ some n
    → is_foreign h.agent.id (some n.agent_id) ≡ true
    → lookup k (heartbeat now fresh h s).0.nodes ≡ some n
heartbeat_leaves_foreign now fresh h s k n c e foreign = elim (heartbeat_form now fresh h s) [
  | inl same ↦ rw same e
  | inr r ↦
      rw r.applied
        (accept_report-foreign now fresh r.previous h r.seen r.stale s k n c e foreign r.checked)
]
