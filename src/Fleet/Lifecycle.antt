-- ===== src/Fleet/Lifecycle.antt =====
-- How the state of a Peer may change: exits are final.
use mathlib.Core.Path.{subst}
use v.Common.{
  ◌≡◌, refl, sym, ◌∙◌, Bool, true, false, not, Option, none, some, List, String, ◌==◌, str_eq_iff,
  if◌then◌else◌, Bool-cases, inl, inr, lookup, arith,
}
use v.Model.{Time, Node, NodeState, is_stopped, is_serving}
use v.Fleet.Defs.{Fleet, set_node, range_nodes}
use v.Fleet.Index.{
  IsConsistent, same-IsConsistent, set_node-IsConsistent, set_node-lookup, range_nodes_inv,
}
use v.Fleet.Merge.{merge_node}
use v.Fleet.Register.{fail_node, fail_entry}
use v.Fleet.Heartbeat.{stop_node, stop_omitted, finish_nodes}

-- `stopped` stays; a Peer that is stopping or has failed never serves again.
abbrev pub may_follow : NodeState → NodeState → Bool
may_follow old new =
    if is_stopped old then is_stopped new else if is_serving old then true else not (is_serving new)

may_follow_refl : (a : NodeState) → may_follow a a ≡ true
may_follow_refl a = ground arith

may_follow_trans :
    (a b c : NodeState) → may_follow a b ≡ true → may_follow b c ≡ true → may_follow a c ≡ true
may_follow_trans a b c h k = ground arith

-- A Peer that is known stays known, under the same rule.
abbrev pub Follows : Option Node → Option Node → Type 0
Follows none new = Unit
Follows (some a) none = ⊥
Follows (some a) (some b) = may_follow a.state b.state ≡ true

pub Follows-refl : (o : Option Node) → Follows o o
Follows-refl none = tt
Follows-refl (some a) = may_follow_refl a.state

pub Follows-trans : (a b c : Option Node) → Follows a b → Follows b c → Follows a c
Follows-trans none b c h k = tt
Follows-trans (some a) none c h k = absurd h
Follows-trans (some a) (some b) none h k = absurd k
Follows-trans (some a) (some b) (some c) h k = may_follow_trans a.state b.state c.state h k

-- Consistent, and every Peer of `s₀` has followed its lifecycle since.
pub record IsLater (s₀ s : Fleet) : Type 0 where
  pub consistent : IsConsistent s
  pub follows : (k : String) → Follows (lookup k s₀.nodes) (lookup k s.nodes)

pub IsLater-refl : (s : Fleet) → IsConsistent s → IsLater s s
IsLater-refl s c = record { consistent = c; follows = λ k. Follows-refl (lookup k s.nodes) }

set_node-Follows :
    (n : Node) (s : Fleet)
    → Follows (lookup n.id s.nodes) (some n)
    → (k : String) → Follows (lookup k s.nodes) (lookup k (set_node n s).nodes)
set_node-Follows n s h k = elim (Bool-cases (n.id == k)) [
  | inl same ↦ let e = (str_eq_iff n.id k).0 same in rw (set_node-lookup n s k, same, ← e) h
  | inr other ↦ rw (set_node-lookup n s k, other) (Follows-refl (lookup k s.nodes))
]

pub set_node-IsLater :
    (s₀ s : Fleet) (n : Node)
    → IsLater s₀ s
    → Follows (lookup n.id s.nodes) (some n)
    → IsLater s₀ (set_node n s)
set_node-IsLater s₀ s n l h = record {
  consistent = set_node-IsConsistent n s l.consistent;
  follows = λ k.
      Follows-trans (lookup k s₀.nodes) (lookup k s.nodes) (lookup k (set_node n s).nodes)
        (l.follows k) (set_node-Follows n s h k);
}

-- A Peer as it is stored may change its state by the rule.
pub entry-Follows :
    (s : Fleet) (k : String) (old n : Node)
    → IsConsistent s
    → lookup k s.nodes ≡ some old
    → n.id ≡ old.id
    → may_follow old.state n.state ≡ true
    → Follows (lookup n.id s.nodes) (some n)
entry-Follows s k old n c found e h = rw (e, c.keyed k old found, found) h

pub same-IsLater :
    (s₀ s s' : Fleet)
    → s'.nodes ≡ s.nodes
    → s'.active_node_ids ≡ s.active_node_ids
    → IsLater s₀ s
    → IsLater s₀ s'
same-IsLater s₀ s s' e i l = record {
  consistent = same-IsConsistent s s' e i l.consistent;
  follows = rw e l.follows;
}

-- The body of a loop over the Peers that changes some of them: the entry, and no other.
module _ (s₀ : Fleet) (k : String) (n : Node) (s : Fleet) (found : lookup k s.nodes ≡ some n)
    (l : IsLater s₀ s) (t : Bool) (n' : Node) (same : n'.id ≡ n.id) where
  pub if_set-IsLater :
      (t ≡ true → may_follow n.state n'.state ≡ true) → IsLater s₀ (if t then set_node n' s else s)
  if_set-IsLater h = elim (Bool-cases t) [
    | inl go ↦
        rw go (set_node-IsLater s₀ s n' l (entry-Follows s k n n' l.consistent found same (h go)))
    | inr stay ↦ rw stay l
  ]

  pub if_set-local :
      (j : String)
      → (k == j) ≡ false
      → lookup j (if t then set_node n' s else s).nodes ≡ lookup j s.nodes
  if_set-local j other = elim (Bool-cases t) [
    | inl go ↦
        let e : n'.id ≡ k = same ∙ l.consistent.keyed k n found in
        rw go (rw (set_node-lookup n' s j, e, other))
    | inr stay ↦ rw stay
  ]

fail_follows : (a : NodeState) → is_stopped a ≡ false → may_follow a NodeState.failed ≡ true
fail_follows a h = ground arith

fail_entry-IsLater :
    (s₀ : Fleet) (a : String) (now : Time) (k : String) (n : Node) (s : Fleet)
    → lookup k s.nodes ≡ some n
    → IsLater s₀ s
    → IsLater s₀ (fail_entry a now k n s)
unfolding fail_entry
fail_entry-IsLater s₀ a now k n s found l =
    if_set-IsLater s₀ k n s found l _ (fail_node now n) refl
      (λ h. fail_follows n.state (ground arith))

-- A restart of an Agent fails its Peers, and touches no other.
pub fail_nodes-IsLater :
    (s₀ : Fleet) (a : String) (now : Time) (s : Fleet)
    → IsLater s₀ s
    → IsLater s₀ (range_nodes (fail_entry a now) s.nodes s)
unfolding fail_entry
fail_nodes-IsLater s₀ a now s l =
    range_nodes_inv (IsLater s₀) (fail_entry a now) (fail_entry-IsLater s₀ a now)
      (λ k n s found l. if_set-local s₀ k n s found l _ (fail_node now n) refl) s.nodes s
      l.consistent.distinct (λ k n e. e) l

pub stop_omitted-IsLater :
    (s₀ : Fleet) (now : Time) (a : String) (seen : List String) (k : String) (n : Node) (s : Fleet)
    → lookup k s.nodes ≡ some n
    → IsLater s₀ s
    → IsLater s₀ (stop_omitted now a seen k n s)
unfolding stop_omitted
stop_omitted-IsLater s₀ now a seen k n s found l =
    if_set-IsLater s₀ k n s found l _ (stop_node now n) refl (λ h. ground arith)

-- A full report stops the Peers that it leaves out.
pub finish_nodes-IsLater :
    (s₀ : Fleet) (partial : Bool) (now : Time) (a : String) (seen : List String) (s : Fleet)
    → IsLater s₀ s
    → IsLater s₀ (finish_nodes partial now a seen s)
unfolding finish_nodes stop_omitted
finish_nodes-IsLater s₀ true now a seen s l = l
finish_nodes-IsLater s₀ false now a seen s l =
    range_nodes_inv (IsLater s₀) (stop_omitted now a seen) (stop_omitted-IsLater s₀ now a seen)
      (λ k n s found l. if_set-local s₀ k n s found l _ (stop_node now n) refl) s.nodes s
      l.consistent.distinct (λ k n e. e) l

merge_node-id :
    (o : Option Node) (n : Node)
    → ((old : Node) → o ≡ some old → old.id ≡ n.id)
    → (merge_node o n).id ≡ n.id
unfolding merge_node
merge_node-id none n h = refl
merge_node-id (some old) n h = ground (arith, h old refl)

merge_node-follows : (old n : Node) → may_follow old.state (merge_node (some old) n).state ≡ true
unfolding merge_node
merge_node-follows old n = ground arith

merge_node-Follows : (o : Option Node) (n : Node) → Follows o (some (merge_node o n))
merge_node-Follows none n = tt
merge_node-Follows (some old) n = merge_node-follows old n

-- What a report of the Peer `id` writes.
module _ (s : Fleet) (n : Node) (id : String) (c : IsConsistent s) (e : n.id ≡ id) where
  pub report-id : (merge_node (lookup id s.nodes) n).id ≡ id
  report-id = merge_node-id (lookup id s.nodes) n (λ old h. c.keyed id old h ∙ sym e) ∙ e

  pub report-Follows :
      let m = merge_node (lookup id s.nodes) n in Follows (lookup m.id s.nodes) (some m)
  report-Follows =
      subst (λ k. Follows (lookup k s.nodes) (some (merge_node (lookup id s.nodes) n)))
        (sym report-id) (merge_node-Follows (lookup id s.nodes) n)
