-- ===== src/Tests/Control.antt =====
-- The fleet: one Agent, and Peers that are placed, reported and stopped.
use v.Common.{
  or_zero, inl, ℕ, ◌≡◌, ◌⊎◌, ◌≢◌, ◌<◌, refl, Bool, true, false, none, some, List, [], ◌∷◌, String,
  str_eq_iff, Dict, lookup, insert, contains, Distinct, All, arith,
}
use v.Common.Int.{ℤ, pos, ◌≤ℤ◌, is_pos, ◌+ℤ◌}
use v.Model.{Agent, Node, NodeState, AgentHeartbeat, is_serving}
use v.Fleet.Defs.{Fleet, set_node, active_index, agent_is_online}
use v.Fleet.Capacity.{
  desired_capacity, capacity_revision_of, capacity_pending_of, placement_limit, apply_capacity,
  set_agent_capacity, commit_capacity, bad_capacity, with_override, not_found, bad_request, ok, err,
  unavailable, conflict, internal,
}
use v.Fleet.Heartbeat.{heartbeat, not_registered}
use v.Fleet.Merge.{is_foreign}
use v.Fleet.Placement.{
  balanced_before, utilization, select_agent, balanced, random, best_of, try_reserve, candidates,
  is_candidate, is_full, reserve, reserve_choice, release_reservation,
}
use v.Fleet.Index.{IsConsistent, set_node-IsConsistent}
use v.Fleet.History.{
  Op, reports, stops, releases, run, run-IsConsistent, stopped_is_final, exit_is_final,
}
use v.Fleet.Foreign.{heartbeat_leaves_foreign}
use v.Fleet.Limits.{
  default_of, apply_capacity_bounds, apply_capacity_no_raise, set_agent_capacity_refused,
  set_agent_capacity_applies,
}
use v.Fleet.Choices.{Keyed, Takes, IsOneOf, balanced_choice_least}
use v.Fleet.Reservations.{Occupies, try_reserve_places, try_reserve_fails, release-reserve}
use v.Tests.Data.{whole, whole-IsIeee, agent_a, node_of, idle_fleet}

idle-IsConsistent : IsConsistent idle_fleet
unfolding lookup contains active_index
idle-IsConsistent = record { distinct = tt; keyed = λ k n h. cc; indexed = λ k. refl }

abbrev stopped_node : Node
stopped_node = node_of "n" NodeState.stopped

abbrev stopped_fleet : Fleet
stopped_fleet = set_node stopped_node idle_fleet

stopped-IsConsistent : IsConsistent stopped_fleet
stopped-IsConsistent = set_node-IsConsistent stopped_node idle_fleet idle-IsConsistent

-- The Peer is reported as ready again, after it has stopped.
abbrev late : AgentHeartbeat
late = record { agent = agent_a; nodes = node_of "n" NodeState.ready ∷ []; partial = true }

abbrev late_report : List Op
late_report = reports 9 "fresh" late ∷ stops 10 "n" ∷ releases "n" ∷ []

stopped_found : lookup "n" stopped_fleet.nodes ≡ some stopped_node
unfolding set_node insert lookup
stopped_found = refl

run-IsConsistent_example : IsConsistent (run late_report stopped_fleet)
run-IsConsistent_example = run-IsConsistent late_report stopped_fleet stopped-IsConsistent

stopped_is_final_example :
    (n : Node) × (lookup "n" (run late_report stopped_fleet).nodes ≡ some n)
    × (n.state ≡ NodeState.stopped)
stopped_is_final_example =
    stopped_is_final late_report stopped_fleet "n" stopped_node stopped-IsConsistent stopped_found
      refl

exit_is_final_example :
    (n : Node) × (lookup "n" (run late_report stopped_fleet).nodes ≡ some n)
    × (is_serving n.state ≡ false)
exit_is_final_example =
    exit_is_final late_report stopped_fleet "n" stopped_node stopped-IsConsistent stopped_found refl

abbrev stranger : AgentHeartbeat
stranger = record { agent = record agent_a { id = "b" }; nodes = []; partial = false }

stranger_refused : (heartbeat 9 "fresh" stranger idle_fleet).1 ≡ some not_registered
unfolding heartbeat lookup
stranger_refused = refl

-- The operator has asked for 5 and the Agent still reports 2.
abbrev raised_fleet : Fleet
raised_fleet = record idle_fleet { capacity_overrides = ("a", pos 5) ∷ [] }

wants_five : is_pos (desired_capacity raised_fleet agent_a) ≡ true
unfolding desired_capacity lookup
wants_five = refl

apply_capacity_bounds_example :
    (is_pos (apply_capacity raised_fleet agent_a).capacity ≡ true)
    × ((apply_capacity raised_fleet agent_a).capacity ≤ℤ desired_capacity raised_fleet agent_a)
apply_capacity_bounds_example = apply_capacity_bounds raised_fleet agent_a wants_five

found_a : lookup "a" raised_fleet.agents ≡ some agent_a
unfolding lookup
found_a = refl

not_reported :
    or_zero (pos 0) (lookup "a" raised_fleet.reported_capacities)
    ≢ desired_capacity raised_fleet agent_a
unfolding desired_capacity lookup
not_reported h = cc

apply_capacity_no_raise_example : (apply_capacity raised_fleet agent_a).capacity ≤ℤ pos 2
apply_capacity_no_raise_example =
    apply_capacity_no_raise raised_fleet agent_a agent_a found_a refl wants_five (inl not_reported)

abbrev saves : Dict ℤ → Bool
saves d = true

unknown_refused : (set_agent_capacity saves "r2" "b" (some (pos 3)) idle_fleet).1 ≡ err not_found
unfolding set_agent_capacity bad_capacity lookup
unknown_refused = refl

set_agent_capacity_refused_example :
    ((set_agent_capacity saves "r2" "b" (some (pos 3)) idle_fleet).0 ≡ idle_fleet)
    × (((bad_capacity (some (pos 3)) ≡ true) × (not_found ≡ bad_request))
        ⊎ ((bad_capacity (some (pos 3)) ≡ false)
            × (((idle_fleet.settings_error ≢ none) × (not_found ≡ unavailable))
                ⊎ ((idle_fleet.settings_error ≡ none)
                    × (((lookup "b" idle_fleet.agents ≡ none) × (not_found ≡ not_found))
                        ⊎ ((lookup "b" idle_fleet.agents ≢ none)
                            × (((is_pos (default_of (lookup "b" idle_fleet.agents)) ≡ false)
                                  × (not_found ≡ conflict))
                                ⊎ ((is_pos (default_of (lookup "b" idle_fleet.agents)) ≡ true)
                                    × (saves (
                                          with_override "b"
                                            (some (pos 3))
                                            idle_fleet.capacity_overrides)
                                        ≡ false)
                                    × (not_found ≡ internal)))))))))
set_agent_capacity_refused_example =
    set_agent_capacity_refused saves "r2" "b" (some (pos 3)) idle_fleet unknown_refused

idle-Keyed : Keyed idle_fleet.agents
unfolding lookup
idle-Keyed k a h = ground (arith, h, str_eq_iff "a" k)

abbrev lowered : Agent
lowered = record agent_a { capacity = pos 1; capacity_override = pos 1; capacity_pending = true }

lowered_ok : (set_agent_capacity saves "r2" "a" (some (pos 1)) idle_fleet).1 ≡ ok lowered
unfolding set_agent_capacity bad_capacity lookup commit_capacity with_override insert apply_capacity
    desired_capacity capacity_pending_of capacity_revision_of placement_limit
lowered_ok = refl

set_agent_capacity_applies_example :
    let s = (set_agent_capacity saves "r2" "a" (some (pos 1)) idle_fleet).0 in
    (lookup "a" s.agents ≡ some lowered)
    × (lookup "a" s.capacity_overrides ≡ some (pos 1))
    × (lowered.capacity_override ≡ pos 1)
    × (lowered.capacity ≤ℤ pos 1)
set_agent_capacity_applies_example =
    set_agent_capacity_applies saves "r2" "a" (pos 1) idle_fleet refl idle-Keyed lowered_ok

abbrev busy : Agent
busy = record agent_a { id = "b"; active_nodes = pos 1 }

picks_idle : select_agent (balanced_before whole) balanced (busy ∷ agent_a ∷ []) ≡ some agent_a
unfolding select_agent best_of balanced_before utilization ◌+ℤ◌
picks_idle = refl

balanced_choice_least_example :
    IsOneOf agent_a (busy ∷ agent_a ∷ [])
    × All (λ x. balanced_before whole x agent_a ≡ false) (busy ∷ agent_a ∷ [])
balanced_choice_least_example =
    balanced_choice_least whole whole-IsIeee (busy ∷ agent_a ∷ []) picks_idle

abbrev taken : Agent
taken = record agent_a { active_nodes = pos 1 }

places_on_a : (try_reserve (balanced_before whole) balanced 9 "n" "" idle_fleet).agent ≡ some taken
unfolding try_reserve lookup reserve_choice select_agent best_of candidates is_candidate
    agent_is_online is_full reserve ◌+ℤ◌
places_on_a = refl

no_reservation : lookup "n" idle_fleet.reservations ≡ none
unfolding lookup
no_reservation = refl

idle-Distinct : Distinct idle_fleet.agents
unfolding lookup
idle-Distinct = (refl, tt)

try_reserve_places_example :
    (b : Agent) × Takes 9 "" idle_fleet b
    × Occupies "n" b taken (try_reserve (balanced_before whole) balanced 9 "n" "" idle_fleet).fleet
try_reserve_places_example =
    try_reserve_places (balanced_before whole) balanced 9 "n" "" idle_fleet taken idle-Keyed
      idle-Distinct no_reservation places_on_a

-- Nobody has the id that is asked for.
nobody : (try_reserve (balanced_before whole) balanced 9 "n" "z" idle_fleet).agent ≡ none
unfolding try_reserve lookup reserve_choice select_agent candidates is_candidate
nobody = refl

no_draw : (draw : ℕ → ℕ) → balanced ≡ random draw → (n : ℕ) → 0 < n → draw n < n
no_draw draw e n h = cc

try_reserve_fails_example :
    All (λ (e : String × Agent). is_candidate 9 "z" e.1 ≡ false) idle_fleet.agents
    × ((try_reserve (balanced_before whole) balanced 9 "n" "z" idle_fleet).fleet ≡ idle_fleet)
try_reserve_fails_example =
    try_reserve_fails (balanced_before whole) balanced 9 "n" "z" idle_fleet no_draw no_reservation
      nobody

found_idle : lookup "a" idle_fleet.agents ≡ some agent_a
unfolding lookup
found_idle = refl

release-reserve_example :
    let s = release_reservation "n" (reserve "n" agent_a idle_fleet).fleet in
    (lookup "a" s.agents ≡ lookup "a" idle_fleet.agents)
    × (lookup "a" s.reservations ≡ lookup "a" idle_fleet.reservations)
release-reserve_example =
    release-reserve "n" agent_a idle_fleet "a" no_reservation found_idle (omega arith)

-- A Peer of another Agent, which a full report of `a` does not list.
abbrev foreign_node : Node
foreign_node = record (node_of "f" NodeState.ready) { agent_id = "b" }

abbrev shared_fleet : Fleet
shared_fleet = set_node foreign_node idle_fleet

foreign_found : lookup "f" shared_fleet.nodes ≡ some foreign_node
unfolding set_node insert lookup
foreign_found = refl

shared-IsConsistent : IsConsistent shared_fleet
shared-IsConsistent = set_node-IsConsistent foreign_node idle_fleet idle-IsConsistent

abbrev full_report : AgentHeartbeat
full_report = record { agent = agent_a; nodes = node_of "n" NodeState.ready ∷ []; partial = false }

owned_by_b : is_foreign "a" (some foreign_node.agent_id) ≡ true
unfolding is_foreign
owned_by_b = refl

heartbeat_leaves_foreign_example :
    lookup "f" (heartbeat 9 "fresh" full_report shared_fleet).0.nodes ≡ some foreign_node
heartbeat_leaves_foreign_example =
    heartbeat_leaves_foreign 9 "fresh" full_report shared_fleet "f" foreign_node shared-IsConsistent
      foreign_found owned_by_b
