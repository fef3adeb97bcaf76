-- ===== src/Fleet/Merge.antt =====
-- internal/controller/state.go: the loops of `heartbeat` over the reported nodes, which are checked and then
-- merged with what the Controller knows.
use v.Common.{
  ℕ, ◌+◌, ◌-◌, Bool, false, not, ◌&&◌, ◌||◌, Option, none, some, List, [], ◌∷◌, String, ◌==◌,
  if◌then◌else◌, lookup, or_zero, insert, delete, contains,
}
use v.Model.{Time, is_zero, Node, NodeState, is_stopped, is_failed, is_stopping, is_serving}
use v.Fleet.Defs.{Fleet, set_node}

-- `owner != "" && owner != agent`.
unfoldable pub is_foreign : String → Option String → Bool
is_foreign a none = false
is_foreign a (some owner) = not (owner == "") && not (owner == a)

abbrev pub owner_of : Option Node → Option String
owner_of none = none
owner_of (some n) = some n.agent_id

-- The ids seen so far, or the first id that is empty, repeated or another Agent's.
pub data Checked : Type 0 where
  fine : List String → Checked
  bad : String → Checked

unfoldable pub is_bad_node : String → Fleet → List String → String → Bool
unfolding is_foreign
is_bad_node a s seen id =
    id == ""
    || contains id seen
    || is_foreign a (owner_of (lookup id s.nodes))
    || is_foreign a (lookup id s.reservations)

unfoldable pub check_nodes : String → Fleet → List String → List Node → Checked
check_nodes a s seen [] = fine seen
check_nodes a s seen (n ∷ ns) =
    let rest = check_nodes a s (n.id ∷ seen) ns in
    if is_bad_node a s seen n.id then bad n.id else rest

-- A completed exit is final, and a Peer that is on its way out takes no report of a live state.
unfoldable pub keeps_old : NodeState → NodeState → Bool
keeps_old old new =
    if is_stopped old
    then not (is_stopped new)
    else if is_failed old
    then not (is_failed new) && not (is_stopping new) && not (is_stopped new)
    else is_stopping old && not (is_stopping new) && not (is_stopped new) && not (is_failed new)

-- `topologyReportTime`: the age by the Agent's clock, moved to the Controller's.
unfoldable pub topology_report_time : Time → Time → Time → Time
topology_report_time received agent_reported peer_seen =
    if is_zero agent_reported || is_zero peer_seen
    then received
    else received - (agent_reported - peer_seen)

abbrev pub started_of : Time → Option Node → Time
started_of now none = now
started_of now (some n) = n.started_at

-- The report of one node, completed by what the Controller knows.
unfoldable pub complete_node : Time → String → Option Node → Node → Node
complete_node now a old n = record n {
  agent_id = a;
  last_seen = if is_zero n.last_seen then now else n.last_seen;
  started_at = if is_zero n.started_at then started_of now old else n.started_at;
}

unfoldable pub merge_node : Option Node → Node → Node
unfolding keeps_old
merge_node none n = n
merge_node (some old) n = if keeps_old old.state n.state then old else n

pub record Applied : Type 0 where
  pub fleet : Fleet
  pub observed : ℕ
  pub released : ℕ

-- `s.reservations[id] == agent`: a missing entry is the empty text.
unfoldable pub reserved_by : String → String → Fleet → Bool
reserved_by a id s = or_zero "" (lookup id s.reservations) == a

unfoldable pub clear_reservation : String → String → Fleet → Fleet
unfolding reserved_by
clear_reservation a id s =
    if reserved_by a id s then record s { reservations = delete id s.reservations } else s

-- One round of the loop over the reported nodes.
unfoldable pub apply_node : Time → Time → String → Node → Applied → Applied
apply_node now reported a n r =
    let s = r.fleet in
    let old = lookup n.id s.nodes in
    let m = merge_node old (complete_node now a old n) in
    let s₁ = record s {
      node_report_times =
          insert n.id (topology_report_time now reported n.last_seen) s.node_report_times;
    } in
    let s₂ = set_node m s₁ in
    record {
      fleet = clear_reservation a m.id s₂;
      observed = if is_serving m.state then r.observed + 1 else r.observed;
      released = if reserved_by a m.id s₂ then r.released + 1 else r.released;
    }

unfoldable pub apply_nodes : Time → Time → String → List Node → Applied → Applied
apply_nodes now reported a [] r = r
apply_nodes now reported a (n ∷ ns) r =
    apply_nodes now reported a ns (apply_node now reported a n r)
