-- ===== src/Fleet/History.antt =====
-- Any sequence of the operations on the fleet.
use mathlib.Core.Path.{subst}
use v.Common.{
  ℕ, ◌≡◌, refl, sym, Bool, true, false, ◌||◌, Option, none, some, Option-cases, List, [], ◌∷◌,
  String, Bool-cases, inl, inr, Dict, lookup, nat_eq, arith, is_blank,
}
use v.Common.Int.{ℤ}
use v.Model.{Time, Agent, Node, NodeState, AgentHeartbeat, is_serving}
use v.Fleet.Defs.{Fleet}
use v.Fleet.Capacity.{observe_capacity, set_agent_capacity, commit_capacity}
use v.Fleet.Register.{
  admit, restart_agent, register_known, register_agent, mark_stale_agents, rejoin, same_start, join,
  is_refused,
}
use v.Fleet.Heartbeat.{heartbeat}
use v.Fleet.Placement.{
  Choice, try_reserve, reserve_choice, reserve, release_reservation, CreateRequest, fill_created,
  takes_created, is_instance, record_created, mark_stopping, mark_node_stopping,
}
use v.Fleet.Index.{IsConsistent}
use v.Fleet.Lifecycle.{
  IsLater, if_set-IsLater, IsLater-refl, same-IsLater, set_node-IsLater, fail_nodes-IsLater,
  Follows,
}
use v.Fleet.Reports.{heartbeat-IsLater}

-- An operation with what the clock, the random source, the disk and the callers hand it.
pub data Op : Type 0 where
  registers : Time → String → Agent → Op
  reports : Time → String → AgentHeartbeat → Op
  goes_stale : Time → ℕ → Op
  sets_capacity : (Dict ℤ → Bool) → String → String → Option ℤ → Op
  reserves : (Agent → Agent → Bool) → Choice → Time → String → String → Op
  releases : String → Op
  creates : Time → Dict String → CreateRequest → String → Option Time → Node → Op
  stops : Time → String → Op

pub step : Op → Fleet → Fleet
step (registers now fresh a) s = (register_agent now fresh a s).0
step (reports now fresh h) s = (heartbeat now fresh h s).0
step (goes_stale now max_age) s = mark_stale_agents now max_age s
step (sets_capacity save fresh id c) s = (set_agent_capacity save fresh id c s).0
step (reserves before c now node target) s = (try_reserve before c now node target s).fleet
step (releases node) s = release_reservation node s
step (creates now metadata q agent expected n) s =
    (record_created now metadata q agent expected n s).0
step (stops now node) s = mark_node_stopping now node s

pub run : List Op → Fleet → Fleet
run [] s = s
run (o ∷ os) s = run os (step o s)

admit-IsLater :
    (s₀ : Fleet) (now : Time) (fresh : String) (reported : Time) (a : Agent) (s : Fleet)
    → IsLater s₀ s
    → IsLater s₀ (admit now fresh reported a s).0
unfolding admit observe_capacity
admit-IsLater s₀ now fresh reported a s l = same-IsLater s₀ s _ refl refl l

restart_agent-IsLater :
    (s₀ : Fleet) (now : Time) (a : Agent) (s : Fleet)
    → IsLater s₀ s
    → IsLater s₀ (restart_agent now a s)
unfolding restart_agent
restart_agent-IsLater s₀ now a s l =
    same-IsLater s₀ _ _ refl refl
      (fail_nodes-IsLater s₀ a.id now _ (same-IsLater s₀ s _ refl refl l))

register_known-IsLater :
    (s₀ : Fleet) (now : Time) (fresh : String) (previous a : Agent) (s : Fleet)
    → IsLater s₀ s
    → IsLater s₀ (register_known now fresh previous a s).0
unfolding register_known
register_known-IsLater s₀ now fresh previous a s l =
    let b = same_start previous a in
    elim (Bool-cases (nat_eq b.started_at previous.started_at)) [
      | inl same ↦ rw same (admit-IsLater s₀ now fresh a.last_seen (rejoin previous b) s l)
      | inr other ↦ elim (Bool-cases (is_refused now previous b)) [
        | inl refused ↦ rw (other, refused) l
        | inr restarts ↦
            rw (other, restarts)
              (admit-IsLater s₀ now fresh a.last_seen b _ (restart_agent-IsLater s₀ now b s l))
      ]
    ]

register_agent-IsLater :
    (s₀ : Fleet) (now : Time) (fresh : String) (a : Agent) (s : Fleet)
    → IsLater s₀ s
    → IsLater s₀ (register_agent now fresh a s).0
unfolding register_agent
register_agent-IsLater s₀ now fresh a s l = elim (Option-cases s.settings_error) [
  | inr (e, broken) ↦ same-IsLater s₀ s _ (ground (arith, broken)) (ground (arith, broken)) l
  | inl fine ↦ elim (Bool-cases (is_blank a.id || is_blank a.url)) [
    | inl blank ↦ same-IsLater s₀ s _ (ground (arith, fine)) (ground (arith, fine)) l
    | inr named ↦ elim (Option-cases (lookup a.id s.agents)) [
      | inl new ↦
          let e : (register_agent now fresh a s).0 ≡ (admit now fresh a.last_seen (join s a) s).0 =
            ground (arith, fine, named, new) in
          subst (IsLater s₀) (sym e) (admit-IsLater s₀ now fresh a.last_seen (join s a) s l)
      | inr (previous, known) ↦
          let e : (register_agent now fresh a s).0 ≡ (register_known now fresh previous a s).0 =
            ground (arith, fine, named, known) in
          subst (IsLater s₀) (sym e) (register_known-IsLater s₀ now fresh previous a s l)
    ]
  ]
]

takes_created-Follows : (o : Option Node) (n : Node) → takes_created o n ≡ true → Follows o (some n)
unfolding takes_created
takes_created-Follows none n h = tt
takes_created-Follows (some old) n h = ground arith

record_created-IsLater :
    (s₀ : Fleet) (now : Time) (metadata : Dict String) (q : CreateRequest) (agent : String)
    (expected : Option Time) (n : Node) (s : Fleet)
    → IsLater s₀ s
    → IsLater s₀ (record_created now metadata q agent expected n s).0
unfolding record_created fill_created
record_created-IsLater s₀ now metadata q agent expected n s l =
    let m = fill_created now metadata q agent n in
    elim (Bool-cases (is_instance (lookup agent s.agents) expected)) [
      | inr other ↦ rw other l
      | inl same ↦ elim (Bool-cases (takes_created (lookup m.id s.nodes) m)) [
        | inl takes ↦
            rw (same, takes)
              (set_node-IsLater s₀ s m l (takes_created-Follows (lookup m.id s.nodes) m takes))
        | inr late ↦ rw (same, late) l
      ]
    ]

mark_stopping-IsLater :
    (s₀ : Fleet) (now : Time) (k : String) (o : Option Node) (s : Fleet)
    → lookup k s.nodes ≡ o
    → IsLater s₀ s
    → IsLater s₀ (mark_stopping now o s)
unfolding mark_stopping
mark_stopping-IsLater s₀ now k none s e l = l
mark_stopping-IsLater s₀ now k (some n) s e l =
    if_set-IsLater s₀ k n s e l (is_serving n.state) _ refl (λ h. ground arith)

mark_node_stopping-IsLater :
    (s₀ : Fleet) (now : Time) (node : String) (s : Fleet)
    → IsLater s₀ s
    → IsLater s₀ (mark_node_stopping now node s)
unfolding mark_node_stopping
mark_node_stopping-IsLater s₀ now node s l =
    same-IsLater s₀ _ _ refl refl (mark_stopping-IsLater s₀ now node (lookup node s.nodes) s refl l)

-- What touches neither the Peers nor their index.
abbrev SameNodes : Fleet → Fleet → Type 0
SameNodes s s' = (s'.nodes ≡ s.nodes) × (s'.active_node_ids ≡ s.active_node_ids)

set_agent_capacity-SameNodes :
    (save : Dict ℤ → Bool) (fresh id : String) (c : Option ℤ) (s : Fleet)
    → SameNodes s (set_agent_capacity save fresh id c s).0
unfolding set_agent_capacity commit_capacity
set_agent_capacity-SameNodes save fresh id c s = (ground arith, ground arith)

try_reserve-SameNodes :
    (before : Agent → Agent → Bool) (c : Choice) (now : Time) (node target : String) (s : Fleet)
    → SameNodes s (try_reserve before c now node target s).fleet
unfolding try_reserve reserve_choice reserve
try_reserve-SameNodes before c now node target s = (ground arith, ground arith)

release_reservation-SameNodes :
    (node : String) (s : Fleet) → SameNodes s (release_reservation node s)
unfolding release_reservation
release_reservation-SameNodes node s = (ground arith, ground arith)

SameNodes-IsLater : (s₀ s s' : Fleet) → SameNodes s s' → IsLater s₀ s → IsLater s₀ s'
SameNodes-IsLater s₀ s s' h l = same-IsLater s₀ s s' h.0 h.1 l

step-IsLater : (s₀ : Fleet) (o : Op) (s : Fleet) → IsLater s₀ s → IsLater s₀ (step o s)
unfolding step mark_stale_agents
step-IsLater s₀ (registers now fresh a) s l = register_agent-IsLater s₀ now fresh a s l
step-IsLater s₀ (reports now fresh h) s l = heartbeat-IsLater s₀ now fresh h s l
step-IsLater s₀ (goes_stale now max_age) s l = same-IsLater s₀ s _ refl refl l
step-IsLater s₀ (sets_capacity save fresh id c) s l =
    SameNodes-IsLater s₀ s _ (set_agent_capacity-SameNodes save fresh id c s) l
step-IsLater s₀ (reserves before c now node target) s l =
    SameNodes-IsLater s₀ s _ (try_reserve-SameNodes before c now node target s) l
step-IsLater s₀ (releases node) s l =
    SameNodes-IsLater s₀ s _ (release_reservation-SameNodes node s) l
step-IsLater s₀ (creates now metadata q agent expected n) s l =
    record_created-IsLater s₀ now metadata q agent expected n s l
step-IsLater s₀ (stops now node) s l = mark_node_stopping-IsLater s₀ now node s l

run-IsLater : (s₀ : Fleet) (os : List Op) (s : Fleet) → IsLater s₀ s → IsLater s₀ (run os s)
unfolding run
run-IsLater s₀ [] s l = l
run-IsLater s₀ (o ∷ os) s l = run-IsLater s₀ os (step o s) (step-IsLater s₀ o s l)

-- From a consistent state, any sequence of operations leaves each Peer under its own id and the
-- index of live Peers exactly the ids of those that are neither stopped nor failed.
pub run-IsConsistent : (os : List Op) (s : Fleet) → IsConsistent s → IsConsistent (run os s)
run-IsConsistent os s c = (run-IsLater s os s (IsLater-refl s c)).consistent

known_later :
    (os : List Op) (s : Fleet) (k : String) (n : Node)
    → IsConsistent s
    → lookup k s.nodes ≡ some n
    → (n' : Node) × (lookup k (run os s).nodes ≡ some n') × Follows (some n) (some n')
known_later os s k n c e =
    found (lookup k (run os s).nodes) refl
      (rw (← e) ((run-IsLater s os s (IsLater-refl s c)).follows k))
  where
    found :
        (o : Option Node)
        → lookup k (run os s).nodes ≡ o
        → Follows (some n) o
        → (n' : Node) × (lookup k (run os s).nodes ≡ some n') × Follows (some n) (some n')
    found none p f = absurd f
    found (some n') p f = (n', p, f)

-- From a consistent state, whatever operations follow, a Peer that has stopped is still known under
-- its key and still stopped.
pub stopped_is_final :
    (os : List Op) (s : Fleet) (k : String) (n : Node)
    → IsConsistent s
    → lookup k s.nodes ≡ some n
    → n.state ≡ NodeState.stopped
    → (n' : Node) × (lookup k (run os s).nodes ≡ some n') × (n'.state ≡ NodeState.stopped)
stopped_is_final os s k n c e h =
    let (n', e', f) = known_later os s k n c e in (n', e', ground arith)

-- From a consistent state, whatever operations follow, a Peer that is stopping, has stopped or has
-- failed is still known under its key and does not serve.
pub exit_is_final :
    (os : List Op) (s : Fleet) (k : String) (n : Node)
    → IsConsistent s
    → lookup k s.nodes ≡ some n
    → is_serving n.state ≡ false
    → (n' : Node) × (lookup k (run os s).nodes ≡ some n') × (is_serving n'.state ≡ false)
exit_is_final os s k n c e h = let (n', e', f) = known_later os s k n c e in (n', e', ground arith)
