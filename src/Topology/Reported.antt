-- ===== src/Topology/Reported.antt =====
-- The reports that are collected stay, whatever is collected after them.
use v.Common.{
  ℕ, ◌≡◌, ◌≢◌, refl, inl, inr, Bool, true, false, ◌&&◌, ◌||◌, some, Bool-cases, List, [], ◌∷◌,
  String, ◌==◌, str_eq_refl, get_elem?, Dict, contains, contains-add, arith,
}
use v.Model.{is_zero, Node}
use v.Topology.Defs.{
  Claim, EdgeKey, Edge, Reports, find_owner, owner_or_empty, same_key, report, key_of, add_report,
  add_reports, add_mesh, add_node, add_nodes,
}
use v.Topology.Edges.{edge_key}

-- A peer that a node reports, with the protocol and the topic.
pub data Reported (n : Node) : String → String → String → Type 0 where
  by_connection :
      {peer : String} → contains peer n.connected_peers ≡ true → Reported n peer "transport" ""
  by_routing :
      {peer : String}
      → is_zero n.overlay_observed_at ≡ false
      → contains peer n.routing_peers ≡ true
      → Reported n peer "kademlia" ""
  by_mesh :
      {peer topic : String} (i : ℕ) (ps : List String)
      → is_zero n.overlay_observed_at ≡ false
      → topic ≢ ""
      → get_elem? n.mesh_peers i ≡ some (topic, ps)
      → contains peer ps ≡ true
      → Reported n peer "gossipsub" topic

-- The node `r` reports the edge.
abbrev pub has : EdgeKey → String → Reports → Bool
has k r [] = false
has k r ((j, rs) ∷ m) = same_key j k && contains r rs || has k r m

abbrev pub has_edge : EdgeKey → String → List Edge → Bool
has_edge k r [] = false
has_edge k r (e ∷ es) = same_key (edge_key e) k && contains r e.reported_by || has_edge k r es

same_key_refl : (k : EdgeKey) → same_key k k ≡ true
same_key_refl k =
    rw (str_eq_refl k.source, str_eq_refl k.target, str_eq_refl k.protocol, str_eq_refl k.topic)
      refl

pub has-report : (k : EdgeKey) (r : String) (m : Reports) → has k r (report k r m) ≡ true
unfolding report contains
has-report k r [] = ground (arith, same_key_refl k, str_eq_refl r)
has-report k r ((j, rs) ∷ m) = elim (Bool-cases (same_key j k)) [
  | inl same ↦ ground (arith, same, contains-add r r rs, str_eq_refl r)
  | inr other ↦ ground (arith, other, has-report k r m)
]

report-has :
    (k k' : EdgeKey) (r r' : String) (m : Reports)
    → has k r m ≡ true
    → has k r (report k' r' m) ≡ true
unfolding report
report-has k k' r r' [] h = cc
report-has k k' r r' ((j, rs) ∷ m) h = elim (Bool-cases (same_key j k')) [
  | inl same ↦ ground (arith, same, h, contains-add r' r rs)
  | inr other ↦ elim (Bool-cases (same_key j k && contains r rs)) [
    | inl now ↦ ground (arith, other, now)
    | inr later ↦ ground (arith, other, later, h, report-has k k' r r' m)
  ]
]

module _ (cs : List Claim) (k : EdgeKey) (r : String) where
  pub add_report-has :
      (n : Node) (peer protocol topic : String) (m : Reports)
      → has k r m ≡ true
      → has k r (add_report cs n peer protocol topic m) ≡ true
  unfolding add_report
  add_report-has n peer protocol topic m h =
      let target = owner_or_empty (find_owner n.run_id peer cs) in
      ground (arith, h, report-has k (key_of n.id target protocol topic) r n.id m h)

  pub add_reports-has :
      (n : Node) (ps : List String) (protocol topic : String) (m : Reports)
      → has k r m ≡ true
      → has k r (add_reports cs n ps protocol topic m) ≡ true
  unfolding add_reports
  add_reports-has n [] protocol topic m h = h
  add_reports-has n (p ∷ ps) protocol topic m h =
      add_reports-has n ps protocol topic _ (add_report-has n p protocol topic m h)

  pub add_mesh-has :
      (n : Node) (mesh : Dict (List String)) (m : Reports)
      → has k r m ≡ true
      → has k r (add_mesh cs n mesh m) ≡ true
  unfolding add_mesh
  add_mesh-has n [] m h = h
  add_mesh-has n ((topic, ps) ∷ mesh) m h = elim (Bool-cases (topic == "")) [
    | inl skips ↦ rw skips (add_mesh-has n mesh m h)
    | inr goes ↦ rw goes (add_mesh-has n mesh _ (add_reports-has n ps "gossipsub" topic m h))
  ]

  pub add_node-has :
      (ready : List String) (n : Node) (m : Reports)
      → has k r m ≡ true
      → has k r (add_node cs ready n m) ≡ true
  unfolding add_node
  add_node-has ready n m h =
      let transport = add_reports-has n n.connected_peers "transport" "" m h in
      let routing = add_reports-has n n.routing_peers "kademlia" "" _ transport in
      elim (Bool-cases (contains n.id ready)) [
        | inr skips ↦ rw skips h
        | inl goes ↦ elim (Bool-cases (is_zero n.overlay_observed_at)) [
          | inl old ↦ rw (goes, old) transport
          | inr new ↦ rw (goes, new) (add_mesh-has n n.mesh_peers _ routing)
        ]
      ]

  pub add_nodes-has :
      (ready : List String) (ns : List Node) (m : Reports)
      → has k r m ≡ true
      → has k r (add_nodes cs ready ns m) ≡ true
  unfolding add_nodes
  add_nodes-has ready [] m h = h
  add_nodes-has ready (n ∷ ns) m h = add_nodes-has ready ns _ (add_node-has ready n m h)
