-- ===== src/Topology/Shown.antt =====
-- Every report between two Peers that are known without doubt shows as an edge.
use mathlib.Core.Option.{some-injective}
use mathlib.Core.Path.{subst}
use v.Common.{
  ℕ, zero, suc, ◌≡◌, ◌≢◌, refl, sym, ap, ◌∙◌, inl, inr, true, false, ◌&&◌, ◌||◌, Option, none, some,
  Bool-cases, List, [], ◌∷◌, map, String, ◌==◌, str_eq_iff, str_eq_refl, filter, get_elem?, Dict,
  contains, contains-add, text_lt, insert_by, sort_by, arith,
}
use v.Model.{Time, is_zero, Agent, Node}
use v.Topology.Defs.{
  Claim, EdgeKey, Edge, Reports, find_owner, claims_of, visible_nodes, ready_ids, owner_or_empty,
  same_key, key_of, add_report, add_reports, add_mesh, add_node, add_nodes, edge_of, edge_before,
  network_edges_at,
}
use v.Topology.Claims.{has_identity, claims-find, owner_after}
use v.Topology.Edges.{edge_key}
use v.Topology.Reported.{
  Reported, by_connection, by_routing, by_mesh, has, has_edge, has-report, add_reports-has,
  add_mesh-has, add_nodes-has,
}

module _ (cs : List Claim) (n : Node) (peer target : String)
    (own : owner_or_empty (find_owner n.run_id n.peer_id cs) ≡ n.id)
    (aim : owner_or_empty (find_owner n.run_id peer cs) ≡ target) (named : target ≢ "")
    (other : target ≢ n.id) where
  abbrev Shows : String → String → Reports → Type 0
  Shows protocol topic m = has (key_of n.id target protocol topic) n.id m ≡ true

  add_report-Shows :
      (protocol topic : String) (m : Reports)
      → Shows protocol topic (add_report cs n peer protocol topic m)
  unfolding add_report
  add_report-Shows protocol topic m = ground (
    arith,
    own,
    aim,
    named,
    other,
    str_eq_iff target "",
    str_eq_iff target n.id,
    str_eq_refl n.id,
    has-report (key_of n.id target protocol topic) n.id m,
  )

  add_reports-Shows :
      (ps : List String) (protocol topic : String) (m : Reports)
      → contains peer ps ≡ true
      → Shows protocol topic (add_reports cs n ps protocol topic m)
  unfolding add_reports contains
  add_reports-Shows [] protocol topic m h = cc
  add_reports-Shows (p ∷ ps) protocol topic m h = elim (Bool-cases (p == peer)) [
    | inl same ↦
        let first : Shows protocol topic (add_report cs n p protocol topic m) =
          subst (λ q. Shows protocol topic (add_report cs n q protocol topic m))
            (sym ((str_eq_iff p peer).0 same)) (add_report-Shows protocol topic m) in
        add_reports-has cs _ n.id n ps protocol topic _ first
    | inr differs ↦ add_reports-Shows ps protocol topic _ (ground (arith, h, differs))
  ]

  add_mesh-Shows :
      (mesh : Dict (List String)) (i : ℕ) (topic : String) (ps : List String) (m : Reports)
      → topic ≢ ""
      → get_elem? mesh i ≡ some (topic, ps)
      → contains peer ps ≡ true
      → Shows "gossipsub" topic (add_mesh cs n mesh m)
  unfolding add_mesh
  add_mesh-Shows [] i topic ps m t e h = cc
  add_mesh-Shows ((u, qs) ∷ mesh) zero topic ps m t e h =
      let same : u ≡ topic = cc in
      let same' : qs ≡ ps = cc in
      let filled : (u == "") ≡ false = ground (arith, same, t, str_eq_iff u "") in
      rw filled (
        add_mesh-has cs _ n.id n mesh _ (
          subst (λ v. Shows "gossipsub" topic (add_reports cs n qs "gossipsub" v m)) (sym same)
            (add_reports-Shows qs "gossipsub" topic m (ap (contains peer) same' ∙ h))))
  add_mesh-Shows ((u, qs) ∷ mesh) (suc i) topic ps m t e h = add_mesh-Shows mesh i topic ps _ t e h

  add_node-Shows :
      (ready : List String) (protocol topic : String) (m : Reports)
      → contains n.id ready ≡ true
      → Reported n peer protocol topic
      → Shows protocol topic (add_node cs ready n m)
  unfolding add_node
  add_node-Shows ready protocol topic m live (by_connection h) =
      let transport = add_reports-Shows n.connected_peers "transport" "" m h in
      let routing = add_reports-has cs _ n.id n n.routing_peers "kademlia" "" _ transport in
      elim (Bool-cases (is_zero n.overlay_observed_at)) [
        | inl old ↦ rw (live, old) transport
        | inr new ↦ rw (live, new) (add_mesh-has cs _ n.id n n.mesh_peers _ routing)
      ]
  add_node-Shows ready protocol topic m live (by_routing new h) =
      rw (live, new)
        (add_mesh-has cs _ n.id n n.mesh_peers _
          (add_reports-Shows n.routing_peers "kademlia" "" _ h))
  add_node-Shows ready protocol topic m live (by_mesh i ps new t e h) =
      rw (live, new) (add_mesh-Shows n.mesh_peers i topic ps _ t e h)

  add_nodes-Shows :
      (ready : List String) (i : ℕ) (ns : List Node) (protocol topic : String) (m : Reports)
      → get_elem? ns i ≡ some n
      → contains n.id ready ≡ true
      → Reported n peer protocol topic
      → Shows protocol topic (add_nodes cs ready ns m)
  unfolding add_nodes
  add_nodes-Shows ready i [] protocol topic m e live h = cc
  add_nodes-Shows ready zero (x ∷ ns) protocol topic m e live h =
      add_nodes-has cs _ n.id ready ns _ (
        subst (λ y. Shows protocol topic (add_node cs ready y m)) (sym (some-injective x n e))
          (add_node-Shows ready protocol topic m live h))
  add_nodes-Shows ready (suc i) (x ∷ ns) protocol topic m e live h =
      add_nodes-Shows ready i ns protocol topic _ e live h

contains-insert_by :
    (r x : String) (xs : List String)
    → contains r (insert_by text_lt x xs) ≡ (x == r || contains r xs)
unfolding insert_by contains
contains-insert_by r x [] = refl
contains-insert_by r x (y ∷ ys) = ground (arith, contains-insert_by r x ys)

contains-sort_by : (r : String) (xs : List String) → contains r (sort_by text_lt xs) ≡ contains r xs
unfolding sort_by contains
contains-sort_by r [] = refl
contains-sort_by r (x ∷ xs) =
    contains-insert_by r x (sort_by text_lt xs) ∙ ap (λ b. x == r || b) (contains-sort_by r xs)

has_edge-insert_by :
    (k : EdgeKey) (r : String) (x : Edge) (xs : List Edge)
    → has_edge k r (insert_by edge_before x xs) ≡ has_edge k r (x ∷ xs)
unfolding insert_by
has_edge-insert_by k r x [] = refl
has_edge-insert_by k r x (y ∷ ys) = ground (arith, has_edge-insert_by k r x ys)

has_edge-sort_by :
    (k : EdgeKey) (r : String) (xs : List Edge)
    → has_edge k r (sort_by edge_before xs) ≡ has_edge k r xs
unfolding sort_by
has_edge-sort_by k r [] = refl
has_edge-sort_by k r (x ∷ xs) =
    has_edge-insert_by k r x (sort_by edge_before xs)
    ∙ ap (λ b. same_key (edge_key x) k && contains r x.reported_by || b) (has_edge-sort_by k r xs)

has_edge-map : (k : EdgeKey) (r : String) (m : Reports) → has_edge k r (map edge_of m) ≡ has k r m
has_edge-map k r [] = refl
has_edge-map k r ((j, rs) ∷ m) = ground (arith, contains-sort_by r rs, has_edge-map k r m)

owner_of_one :
    (run peer : String) (n : Node) (vs : List Node)
    → filter (has_identity run peer) vs ≡ n ∷ []
    → owner_or_empty (find_owner run peer (claims_of vs [])) ≡ n.id
unfolding find_owner
owner_of_one run peer n vs h =
    ap owner_or_empty (claims-find run peer vs [] ∙ ap (owner_after none) h)

ready_one :
    (run peer : String) (n : Node) (vs : List Node)
    → filter (has_identity run peer) vs ≡ n ∷ []
    → contains n.id (ready_ids vs) ≡ true
unfolding ready_ids contains
ready_one run peer n [] h = cc
ready_one run peer n (x ∷ vs) h = elim (Bool-cases (has_identity run peer x)) [
  | inl hit ↦
      let same : x ≡ n = ground (arith, hit) in
      ground (arith, same, contains-add x.id n.id (ready_ids vs), str_eq_refl n.id)
  | inr miss ↦
      ground (
        arith,
        contains-add x.id n.id (ready_ids vs),
        ready_one run peer n vs (ground (arith, miss)),
      )
]

-- If a node is the only visible one of its identity, and reports a peer that is another node's, the
-- only visible one of that identity in the same run, with an ID, then there is an edge between the two
-- for the protocol and the topic, and the node is among those that report it.
pub network_edges_at-has :
    (ns : List Node) (agents : Option (Dict Agent)) (now : Time) (i : ℕ) (n m : Node)
    (peer protocol topic : String)
    → get_elem? ns i ≡ some n
    → filter (has_identity n.run_id n.peer_id) (visible_nodes agents now ns) ≡ n ∷ []
    → filter (has_identity n.run_id peer) (visible_nodes agents now ns) ≡ m ∷ []
    → m.id ≢ ""
    → m.id ≢ n.id
    → Reported n peer protocol topic
    → has_edge (key_of n.id m.id protocol topic) n.id (network_edges_at ns agents now) ≡ true
unfolding network_edges_at
network_edges_at-has ns agents now i n m peer protocol topic e one two named other h =
    let vs = visible_nodes agents now ns in
    let k = key_of n.id m.id protocol topic in
    let own = owner_of_one n.run_id n.peer_id n vs one in
    let aim = owner_of_one n.run_id peer m vs two in
    let live = ready_one n.run_id n.peer_id n vs one in
    has_edge-sort_by k n.id _
    ∙ has_edge-map k n.id _
    ∙ add_nodes-Shows (claims_of vs []) n peer m.id own aim named other (ready_ids vs) i ns protocol
        topic [] e live h
