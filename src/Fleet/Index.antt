-- ===== src/Fleet/Index.antt =====
-- The index of live Peers against the map of Peers, under every change of a Peer.
use v.Common.{
  ◌≡◌, refl, ◌∙◌, Bool, false, Option, none, some, [], ◌∷◌, String, ◌==◌, str_eq_iff, str_eq_refl,
  if◌then◌else◌, Bool-cases, inl, inr, Dict, lookup, Distinct, insert-Distinct, lookup-insert,
  contains, contains-add, contains-remove, arith,
}
use v.Model.{Node}
use v.Fleet.Defs.{Fleet, node_has_live_state, live_ids, active_index, set_node, range_nodes}

abbrev pub live_at : Option Node → Bool
live_at none = false
live_at (some n) = node_has_live_state n

-- Each Peer stands under its own id, and the index holds the ids of the live ones.
pub record IsConsistent (s : Fleet) : Type 0 where
  pub distinct : Distinct s.nodes
  pub keyed : (k : String) (n : Node) → lookup k s.nodes ≡ some n → n.id ≡ k
  pub indexed : (k : String) → contains k (active_index s) ≡ live_at (lookup k s.nodes)

contains-live_ids :
    (k : String) (m : Dict Node) → Distinct m → contains k (live_ids m) ≡ live_at (lookup k m)
unfolding live_ids lookup contains
contains-live_ids k [] h = refl
contains-live_ids k ((j, n) ∷ m) h =
    ground (arith, contains-live_ids k m h.1, contains-add j k (live_ids m), str_eq_iff j k)

pub set_node-lookup :
    (n : Node) (s : Fleet) (k : String)
    → lookup k (set_node n s).nodes ≡ (if n.id == k then some n else lookup k s.nodes)
unfolding set_node
set_node-lookup n s k = lookup-insert n.id k n s.nodes

set_node-keyed :
    (n : Node) (s : Fleet)
    → IsConsistent s
    → (k : String) (m : Node) → lookup k (set_node n s).nodes ≡ some m
    → m.id ≡ k
set_node-keyed n s c k m h = ground (arith, set_node-lookup n s k, str_eq_iff n.id k, c.keyed k m)

set_node-indexed :
    (n : Node) (s : Fleet)
    → IsConsistent s
    → (k : String)
    → contains k (active_index (set_node n s)) ≡ live_at (lookup k (set_node n s).nodes)
unfolding set_node active_index
set_node-indexed n s c k = ground (
  arith,
  lookup-insert n.id k n s.nodes,
  contains-add n.id k (active_index s),
  contains-remove n.id k (active_index s),
  c.indexed k,
  str_eq_iff n.id k,
)

pub set_node-IsConsistent : (n : Node) (s : Fleet) → IsConsistent s → IsConsistent (set_node n s)
unfolding set_node
set_node-IsConsistent n s c = record {
  distinct = insert-Distinct n.id n s.nodes c.distinct;
  keyed = set_node-keyed n s c;
  indexed = set_node-indexed n s c;
}

-- A state assembled before the index is consistent too: the first use of the index builds it.
pub unindexed-IsConsistent :
    (s : Fleet)
    → Distinct s.nodes
    → ((k : String) (n : Node) → lookup k s.nodes ≡ some n → n.id ≡ k)
    → s.active_node_ids ≡ none
    → IsConsistent s
unfolding active_index
unindexed-IsConsistent s d k e = record {
  distinct = d;
  keyed = k;
  indexed = λ j. rw (e, active_index) (contains-live_ids j s.nodes d);
}

active_index-same :
    (s s' : Fleet)
    → s'.nodes ≡ s.nodes
    → s'.active_node_ids ≡ s.active_node_ids
    → active_index s' ≡ active_index s
unfolding active_index
active_index-same s s' e i = ground arith

-- What does not touch the Peers keeps the consistency.
pub same-IsConsistent :
    (s s' : Fleet)
    → s'.nodes ≡ s.nodes
    → s'.active_node_ids ≡ s.active_node_ids
    → IsConsistent s
    → IsConsistent s'
same-IsConsistent s s' e i c = record {
  distinct = rw e c.distinct;
  keyed = rw e c.keyed;
  indexed = λ k. rw (active_index-same s s' e i, e) (c.indexed k);
}

-- The entries of `m` stand in `m'`.
abbrev pub Entries : Dict Node → Dict Node → Type 0
Entries m m' = (k : String) (n : Node) → lookup k m ≡ some n → lookup k m' ≡ some n

module _ {κ} (P : Fleet → Type κ) (body : String → Node → Fleet → Fleet)
    (keep : (k : String) (n : Node) (s : Fleet) → lookup k s.nodes ≡ some n → P s → P (body k n s))
    (local : (k : String) (n : Node) (s : Fleet)
      → lookup k s.nodes ≡ some n
      → P s
      → (j : String) → (k == j) ≡ false
      → lookup j (body k n s).nodes ≡ lookup j s.nodes) where
  range_tail :
      (k : String) (n : Node) (m : Dict Node) (s : Fleet)
      → lookup k m ≡ none
      → Entries ((k, n) ∷ m) s.nodes
      → P s
      → Entries m (body k n s).nodes
  unfolding lookup
  range_tail k n m s fresh e p j w h = elim (Bool-cases (k == j)) [
    | inl same ↦ ground (arith, str_eq_iff k j)
    | inr other ↦ local k n s (e k n (rw str_eq_refl)) p j other ∙ e j w (rw other h)
  ]

  -- The rule for a loop over the Peers: each round sees its entry as it stood at the start.
  pub range_nodes_inv :
      (m : Dict Node) (s : Fleet) → Distinct m → Entries m s.nodes → P s → P (range_nodes body m s)
  unfolding range_nodes lookup
  range_nodes_inv [] s d e p = p
  range_nodes_inv ((k, n) ∷ m) s d e p =
      let found : lookup k s.nodes ≡ some n = e k n (rw str_eq_refl) in
      range_nodes_inv m (body k n s) d.1 (range_tail k n m s d.0 e p) (keep k n s found p)
