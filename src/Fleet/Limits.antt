-- ===== src/Fleet/Limits.antt =====
-- The placement limit that the Controller derives for an Agent.
use v.Common.{
  ◌≡◌, refl, Bool, true, false, Option, none, some, String, Dict, ap, insert, lookup-insert,
  str_eq_refl, Option-cases, inl, inr, lookup, or_zero, ◌⊎◌, ◌≢◌, ◌↔◌, str_eq_iff, arith,
}
use v.Common.Int.{ℤ, pos, pos_part, neg_part, is_pos, ◌≤ℤ◌}
use v.Model.{Agent}
use v.Fleet.Defs.{Fleet}
use v.Fleet.Capacity.{
  desired_capacity, capacity_revision_of, capacity_of, placement_limit, capacity_pending_of,
  apply_capacity, with_override, bad_capacity, commit_capacity, set_agent_capacity, CapacityError,
  ok, err, bad_request, unavailable, not_found, conflict, internal,
}

limit_bounds :
    (reported desired : ℤ) (pending : Bool) (previous : ℤ)
    → is_pos desired ≡ true
    → (is_pos (placement_limit reported desired pending previous) ≡ true)
      × (placement_limit reported desired pending previous ≤ℤ desired)
unfolding placement_limit
limit_bounds reported desired pending previous h = ground arith

-- Where a capacity is wanted, the limit is positive and at most what is wanted.
pub apply_capacity_bounds :
    (s : Fleet) (a : Agent)
    → is_pos (desired_capacity s a) ≡ true
    → (is_pos (apply_capacity s a).capacity ≡ true)
      × ((apply_capacity s a).capacity ≤ℤ desired_capacity s a)
unfolding apply_capacity
apply_capacity_bounds s a h =
    let reported = or_zero (pos 0) (lookup a.id s.reported_capacities) in
    let desired = desired_capacity s a in
    rw h (
      limit_bounds reported desired (capacity_pending_of s a reported desired)
        (capacity_of (lookup a.id s.agents)) h)

limit_held :
    (reported desired previous : ℤ)
    → is_pos previous ≡ true
    → placement_limit reported desired true previous ≤ℤ previous
unfolding placement_limit
limit_held reported desired previous h = ground arith

-- The capacity is settled, not pending, exactly when nothing is wanted, or the Agent has reported
-- the wanted size under the current revision.
pub settled_iff :
    (s : Fleet) (a : Agent)
    → ((apply_capacity s a).capacity_pending ≡ false) ↔ (
        (is_pos (desired_capacity s a) ≡ false)
        ⊎ ((or_zero (pos 0) (lookup a.id s.reported_capacities) ≡ desired_capacity s a)
            × (a.capacity_revision ≡ capacity_revision_of s a)))
unfolding apply_capacity capacity_pending_of
settled_iff s a = ground (arith, str_eq_iff a.capacity_revision (capacity_revision_of s a))

-- While a capacity is wanted that the Agent has not reported, or not under the current revision, the new
-- placement limit is at most the positive limit on record.
pub apply_capacity_no_raise :
    (s : Fleet) (a previous : Agent)
    → lookup a.id s.agents ≡ some previous
    → is_pos previous.capacity ≡ true
    → is_pos (desired_capacity s a) ≡ true
    → (or_zero (pos 0) (lookup a.id s.reported_capacities) ≢ desired_capacity s a)
      ⊎ (a.capacity_revision ≢ or_zero "" (lookup a.id s.capacity_revisions))
    → (apply_capacity s a).capacity ≤ℤ previous.capacity
unfolding apply_capacity capacity_pending_of
apply_capacity_no_raise s a previous known h wanted behind =
    let reported = or_zero (pos 0) (lookup a.id s.reported_capacities) in
    let desired = desired_capacity s a in
    let pending : capacity_pending_of s a reported desired ≡ true = elim behind [
      | inl size ↦ ground (arith, size)
      | inr revision ↦
          ground (arith, revision, str_eq_iff a.capacity_revision (capacity_revision_of s a))
    ] in
    rw (wanted, pending, known) (limit_held reported desired previous.capacity h)

abbrev pub default_of : Option Agent → ℤ
default_of none = pos 0
default_of (some a) = a.default_capacity

-- Every refusal of a new capacity leaves the fleet as it was, and names its cause in this order: a
-- capacity that is not positive, damaged settings, an unknown Agent, one too old to report a default
-- capacity, and a failed write of the settings.
pub set_agent_capacity_refused :
    (save : Dict ℤ → Bool) (fresh id : String) (c : Option ℤ) (s : Fleet) {e : CapacityError}
    → (set_agent_capacity save fresh id c s).1 ≡ err e
    → ((set_agent_capacity save fresh id c s).0 ≡ s)
      × (((bad_capacity c ≡ true) × (e ≡ bad_request))
          ⊎ ((bad_capacity c ≡ false)
              × (((s.settings_error ≢ none) × (e ≡ unavailable))
                  ⊎ ((s.settings_error ≡ none)
                      × (((lookup id s.agents ≡ none) × (e ≡ not_found))
                          ⊎ ((lookup id s.agents ≢ none)
                              × (((is_pos (default_of (lookup id s.agents)) ≡ false)
                                    × (e ≡ conflict))
                                  ⊎ ((is_pos (default_of (lookup id s.agents)) ≡ true)
                                      × (save (with_override id c s.capacity_overrides) ≡ false)
                                      × (e ≡ internal)))))))))
unfolding set_agent_capacity commit_capacity
set_agent_capacity_refused save fresh id c s h = ground arith

set_agent_capacity_committed :
    (save : Dict ℤ → Bool) (fresh id : String) (c : Option ℤ) (s : Fleet) (a b : Agent)
    → lookup id s.agents ≡ some b
    → (set_agent_capacity save fresh id c s).1 ≡ ok a
    → set_agent_capacity save fresh id c s ≡ commit_capacity fresh id c b s
unfolding set_agent_capacity
set_agent_capacity_committed save fresh id c s a b known e = ground arith

set_agent_capacity_known :
    (save : Dict ℤ → Bool) (fresh id : String) (c : Option ℤ) (s : Fleet) (a : Agent)
    → (set_agent_capacity save fresh id c s).1 ≡ ok a
    → lookup id s.agents ≢ none
unfolding set_agent_capacity
set_agent_capacity_known save fresh id c s a e h = ground arith

desired-set :
    (s : Fleet) (a : Agent) (c : ℤ)
    → is_pos c ≡ true
    → lookup a.id s.capacity_overrides ≡ some c
    → desired_capacity s a ≡ c
unfolding desired_capacity
desired-set s a c h e = ground arith

apply_capacity-override :
    (s : Fleet) (a : Agent)
    → (apply_capacity s a).capacity_override ≡ or_zero (pos 0) (lookup a.id s.capacity_overrides)
unfolding apply_capacity
apply_capacity-override s a = refl

commit_applies :
    (fresh id : String) (c : ℤ) (s : Fleet) (b : Agent)
    → is_pos c ≡ true
    → b.id ≡ id
    → let s' = (commit_capacity fresh id (some c) b s).0 in
      (a : Agent) × ((commit_capacity fresh id (some c) b s).1 ≡ ok a)
      × (lookup id s'.agents ≡ some a)
      × (lookup id s'.capacity_overrides ≡ some c)
      × (a.capacity_override ≡ c)
      × (a.capacity ≤ℤ c)
unfolding commit_capacity with_override
commit_applies fresh id c s b h e =
    let s' : Fleet = record s {
      capacity_overrides = insert id c s.capacity_overrides;
      capacity_revisions = insert id fresh s.capacity_revisions;
    } in
    let stored : lookup b.id s'.capacity_overrides ≡ some c =
      rw (lookup-insert id b.id c s.capacity_overrides) (ground (arith, str_eq_iff id b.id)) in
    let wanted = desired-set s' b c h stored in
    (
      apply_capacity s' b,
      refl,
      rw (lookup-insert id id (apply_capacity s' b) s.agents, str_eq_refl),
      rw (lookup-insert id id c s.capacity_overrides, str_eq_refl),
      rw (apply_capacity-override s' b) (cc (ap (or_zero (pos 0)) stored)),
      omega
          (arith, apply_capacity_bounds s' b (rw wanted h), ap pos_part wanted, ap neg_part wanted),
    )

-- A positive capacity that is set is on record at once as the override and as the whole intent,
-- and it bounds the placement limit; a reported size above it no longer counts.
pub set_agent_capacity_applies :
    (save : Dict ℤ → Bool) (fresh id : String) (c : ℤ) (s : Fleet) {a : Agent}
    → is_pos c ≡ true
    → ((k : String) (b : Agent) → lookup k s.agents ≡ some b → b.id ≡ k)
    → (set_agent_capacity save fresh id (some c) s).1 ≡ ok a
    → let s' = (set_agent_capacity save fresh id (some c) s).0 in
      (lookup id s'.agents ≡ some a)
      × (lookup id s'.capacity_overrides ≡ some c)
      × (a.capacity_override ≡ c)
      × (a.capacity ≤ℤ c)
set_agent_capacity_applies save fresh id c s {a} h keyed e =
    elim (Option-cases (lookup id s.agents)) [
      | inl missing ↦ absurd (set_agent_capacity_known save fresh id (some c) s a e missing)
      | inr (b, known) ↦
          let p = set_agent_capacity_committed save fresh id (some c) s a b known e in
          let r = commit_applies fresh id c s b h (keyed id b known) in ground (arith, p, r)
    ]
