-- ===== src/Fleet/Capacity.antt =====
-- internal/controller/agent_capacity.go: the placement limit of an Agent.
use v.Common.{
  Bool, false, not, ◌&&◌, ◌||◌, Option, none, some, String, ◌==◌, if◌then◌else◌, Dict, lookup,
  or_zero, insert, delete,
}
use v.Common.Int.{ℤ, pos, is_pos, eq_ℤ, leb_ℤ, ltb_ℤ, min_ℤ}
use v.Model.{Agent}
use v.Fleet.Defs.{Fleet}

-- The capacity that the operator wants: the override, or the Agent's own default.
unfoldable pub desired_capacity : Fleet → Agent → ℤ
desired_capacity s a =
    let override = or_zero (pos 0) (lookup a.id s.capacity_overrides) in
    if is_pos override then override else a.default_capacity

unfoldable pub capacity_revision_of : Fleet → Agent → String
capacity_revision_of s a = or_zero "" (lookup a.id s.capacity_revisions)

abbrev pub capacity_of : Option Agent → ℤ
capacity_of none = pos 0
capacity_of (some a) = a.capacity

-- Reductions limit placement at once; an increase waits for the Agent's acknowledgement.
unfoldable pub placement_limit : ℤ → ℤ → Bool → ℤ → ℤ
placement_limit reported desired pending previous =
    let limit : ℤ =
      if leb_ℤ reported (pos 0) || ltb_ℤ desired reported then desired else reported in
    if pending && is_pos previous then min_ℤ limit previous else limit

unfoldable pub capacity_pending_of : Fleet → Agent → ℤ → ℤ → Bool
unfolding capacity_revision_of
capacity_pending_of s a reported desired =
    not (eq_ℤ reported desired) || not (a.capacity_revision == capacity_revision_of s a)

-- `applyAgentCapacityLocked`.
unfoldable pub apply_capacity : Fleet → Agent → Agent
apply_capacity s a =
    let reported = or_zero (pos 0) (lookup a.id s.reported_capacities) in
    let override = or_zero (pos 0) (lookup a.id s.capacity_overrides) in
    let desired = desired_capacity s a in
    let pending = capacity_pending_of s a reported desired in
    let previous = capacity_of (lookup a.id s.agents) in
    record a {
      capacity_override = override;
      capacity_pending = is_pos desired && pending;
      capacity =
          if is_pos desired then placement_limit reported desired pending previous else reported;
    }

-- `observeAgentCapacityLocked`; `fresh` is `rand.Text()`.
unfoldable pub observe_capacity : String → Agent → Fleet → Fleet × Agent
observe_capacity fresh a s =
    let s' = record s {
      capacity_revisions =
          if is_pos a.default_capacity && capacity_revision_of s a == ""
          then insert a.id fresh s.capacity_revisions
          else s.capacity_revisions;
      reported_capacities = insert a.id a.capacity s.reported_capacities;
    } in
    (s', apply_capacity s' a)

pub data CapacityError : Type 0 where
  bad_request unavailable not_found conflict internal : CapacityError

pub data CapacityReply : Type 0 where
  ok : Agent → CapacityReply
  err : CapacityError → CapacityReply

-- `capacity != nil && *capacity <= 0`.
unfoldable pub bad_capacity : Option ℤ → Bool
bad_capacity none = false
bad_capacity (some c) = not (is_pos c)

unfoldable pub with_override : String → Option ℤ → Dict ℤ → Dict ℤ
with_override id none m = delete id m
with_override id (some c) m = insert id c m

-- What `setAgentCapacity` does once the new overrides are on disk.
unfoldable pub commit_capacity : String → String → Option ℤ → Agent → Fleet → Fleet × CapacityReply
commit_capacity fresh id c a s =
    let s' = record s {
      capacity_overrides = with_override id c s.capacity_overrides;
      capacity_revisions = insert id fresh s.capacity_revisions;
    } in
    let a' = apply_capacity s' a in (record s' { agents = insert id a' s.agents }, ok a')

-- `setAgentCapacity`; `save` is the atomic write of the settings file, which may fail.
unfoldable pub set_agent_capacity :
    (Dict ℤ → Bool) → String → String → Option ℤ → Fleet → Fleet × CapacityReply
set_agent_capacity save fresh id c s =
    if bad_capacity c then (s, err bad_request) else elim s.settings_error [
      | some e ↦ (s, err unavailable)
      | none ↦ elim (lookup id s.agents) [
        | none ↦ (s, err not_found)
        | some a ↦
            if not (is_pos a.default_capacity)
            then (s, err conflict)
            else if not (save (with_override id c s.capacity_overrides))
            then (s, err internal)
            else commit_capacity fresh id c a s
      ]
    ]
