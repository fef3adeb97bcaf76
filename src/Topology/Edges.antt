-- ===== src/Topology/Edges.antt =====
-- The edges join two reported nodes, and stand in order.
use v.Common.{
  ◌≡◌, ◌≢◌, ◌⊎◌, refl, inl, inr, Bool, true, ◌||◌, Option, Option-cases, Bool-cases, List, [], ◌∷◌,
  map, String, ◌==◌, str_eq_iff, All, Dict, contains, add, text_lt, text_lt_connected, sort_by,
  arith,
}
use v.Common.Order.{
  Sorted, sort_by-Sorted, sort_by-All, IsWeakOrder, lexical-IsWeakOrder, text_lt-IsWeakOrder,
  text_lt-IsTie, on-IsWeakOrder,
}
use v.Model.{Time, Agent, Node, is_zero}
use v.Topology.Defs.{
  EdgeKey, Edge, Reports, find_owner, claims_of, visible_nodes, ready_ids, owner_or_empty, same_key,
  report, key_of, add_report, add_reports, add_mesh, add_node, add_nodes, edge_of, by_text,
  edge_before, network_edges_at,
}
use v.Topology.Claims.{Owns, find-Owns}

abbrev pub IsEnd : EdgeKey → String → Type 0
IsEnd k r = (r ≡ k.source) ⊎ (r ≡ k.target)

-- Both ends are, each by itself, the visible node of an identity in one run; an end reported it.
pub record IsLink (ns : List Node) (k : EdgeKey) (rs : List String) : Type 0 where
  pub apart : text_lt k.source k.target ≡ true
  pub run : String
  pub source_owns : Owns ns run k.source
  pub target_owns : Owns ns run k.target
  pub reporters : All (IsEnd k) rs

module _ (vs : List Node) where
  abbrev AllLinks : Reports → Type 0
  AllLinks m = All (λ (e : EdgeKey × List String). IsLink vs e.0 e.1) m

  add-All :
      (P : String → Type 0) (r : String) (rs : List String) → P r → All P rs → All P (add r rs)
  unfolding add
  add-All P r rs h k = elim (Bool-cases (contains r rs)) [
    | inl old ↦ rw old k
    | inr new ↦ rw new (h, k)
  ]

  same_key-IsEnd : (j k : EdgeKey) (r : String) → same_key j k ≡ true → IsEnd k r → IsEnd j r
  same_key-IsEnd j k r h (inl e) = inl (ground (arith, e, str_eq_iff j.source k.source))
  same_key-IsEnd j k r h (inr e) = inr (ground (arith, e, str_eq_iff j.target k.target))

  report-AllLinks :
      (k : EdgeKey) (r : String) (m : Reports)
      → IsLink vs k (r ∷ [])
      → AllLinks m
      → AllLinks (report k r m)
  unfolding report
  report-AllLinks k r [] l h = (l, tt)
  report-AllLinks k r ((j, rs) ∷ m) l h = elim (Bool-cases (same_key j k)) [
    | inl same ↦
        let old = h.0 in
        let both = add-All (IsEnd j) r rs (same_key-IsEnd j k r same l.reporters.0) old.reporters in
        let wider : IsLink vs j (add r rs) = record {
          apart = old.apart;
          run = old.run;
          source_owns = old.source_owns;
          target_owns = old.target_owns;
          reporters = both;
        } in
        rw same (wider, h.1)
    | inr other ↦ rw other (h.0, report-AllLinks k r m l h.1)
  ]

  key_of-IsLink :
      (run id target protocol topic : String)
      → id ≢ target
      → Owns vs run id
      → Owns vs run target
      → IsLink vs (key_of id target protocol topic) (id ∷ [])
  unfolding key_of
  key_of-IsLink run id target protocol topic h a b = elim (Bool-cases (text_lt target id)) [
    | inl swap ↦ rw swap (record {
      apart = swap;
      run = run;
      source_owns = b;
      target_owns = a;
      reporters = (inr refl, tt);
    })
    | inr keep ↦ rw keep (record {
      apart = ground (arith, h, text_lt_connected target id);
      run = run;
      source_owns = a;
      target_owns = b;
      reporters = (inl refl, tt);
    })
  ]

  module _ (n : Node) (named : n.id ≢ "") where
    owner_known :
        (run peer id : String)
        → owner_or_empty (find_owner run peer (claims_of vs [])) ≡ id
        → id ≢ ""
        → Owns vs run id
    owner_known run peer id e h = elim (Option-cases (find_owner run peer (claims_of vs []))) [
      | inl skips ↦ absurd (ground (arith, skips))
      | inr (o, k) ↦ find-Owns run peer id vs (ground (arith, k)) h
    ]

    add_report-AllLinks :
        (peer protocol topic : String) (m : Reports)
        → AllLinks m
        → AllLinks (add_report (claims_of vs []) n peer protocol topic m)
    unfolding add_report
    add_report-AllLinks peer protocol topic m h =
        let cs = claims_of vs [] in
        let own = owner_or_empty (find_owner n.run_id n.peer_id cs) in
        let target = owner_or_empty (find_owner n.run_id peer cs) in
        elim (Bool-cases (own == n.id)) [
          | inr foreign ↦ rw foreign h
          | inl mine ↦ elim (Bool-cases (target == "" || target == n.id)) [
            | inl skips ↦ rw (mine, skips) h
            | inr goes ↦
                let mine' : own ≡ n.id = (str_eq_iff own n.id).0 mine in
                let some_target : target ≢ "" = λ e. ground (arith, e, str_eq_iff target "") in
                let other : n.id ≢ target = λ e. ground (arith, e, str_eq_iff target n.id) in
                let a = owner_known n.run_id n.peer_id n.id mine' named in
                let b = owner_known n.run_id peer target refl some_target in
                rw (mine, goes)
                  (report-AllLinks (key_of n.id target protocol topic) n.id m
                    (key_of-IsLink n.run_id n.id target protocol topic other a b) h)
          ]
        ]

    add_reports-AllLinks :
        (ps : List String) (protocol topic : String) (m : Reports)
        → AllLinks m
        → AllLinks (add_reports (claims_of vs []) n ps protocol topic m)
    unfolding add_reports
    add_reports-AllLinks [] protocol topic m h = h
    add_reports-AllLinks (p ∷ ps) protocol topic m h =
        add_reports-AllLinks ps protocol topic _ (add_report-AllLinks p protocol topic m h)

    add_mesh-AllLinks :
        (mesh : Dict (List String)) (m : Reports)
        → AllLinks m
        → AllLinks (add_mesh (claims_of vs []) n mesh m)
    unfolding add_mesh
    add_mesh-AllLinks [] m h = h
    add_mesh-AllLinks ((topic, ps) ∷ mesh) m h = elim (Bool-cases (topic == "")) [
      | inl skips ↦ rw skips (add_mesh-AllLinks mesh m h)
      | inr goes ↦
          rw goes (add_mesh-AllLinks mesh _ (add_reports-AllLinks ps "gossipsub" topic m h))
    ]

    add_node-AllLinks :
        (ready : List String) (m : Reports)
        → AllLinks m
        → AllLinks (add_node (claims_of vs []) ready n m)
    unfolding add_node
    add_node-AllLinks ready m h =
        let transport = add_reports-AllLinks n.connected_peers "transport" "" m h in
        let routing = add_reports-AllLinks n.routing_peers "kademlia" "" _ transport in
        elim (Bool-cases (contains n.id ready)) [
          | inr skips ↦ rw skips h
          | inl goes ↦ elim (Bool-cases (is_zero n.overlay_observed_at)) [
            | inl old ↦ rw (goes, old) transport
            | inr new ↦ rw (goes, new) (add_mesh-AllLinks n.mesh_peers _ routing)
          ]
        ]

  add_nodes-AllLinks :
      (ready : List String) (ns : List Node) (m : Reports)
      → All (λ (n : Node). n.id ≢ "") ns
      → AllLinks m
      → AllLinks (add_nodes (claims_of vs []) ready ns m)
  unfolding add_nodes
  add_nodes-AllLinks ready [] m a h = h
  add_nodes-AllLinks ready (n ∷ ns) m a h =
      add_nodes-AllLinks ready ns _ a.1 (add_node-AllLinks n a.0 ready m h)

abbrev pub edge_key : Edge → EdgeKey
edge_key e = record { source = e.source; target = e.target; protocol = e.protocol; topic = e.topic }

edges_of-links :
    (vs : List Node) (m : Reports)
    → AllLinks vs m
    → All (λ (e : Edge). IsLink vs (edge_key e) e.reported_by) (map edge_of m)
edges_of-links vs [] h = tt
edges_of-links vs ((k, rs) ∷ m) h =
    let old = h.0 in
    let link : IsLink vs k (sort_by text_lt rs) = record {
      apart = old.apart;
      run = old.run;
      source_owns = old.source_owns;
      target_owns = old.target_owns;
      reporters = sort_by-All text_lt (IsEnd k) rs old.reporters;
    } in
    (link, edges_of-links vs m h.1)

-- Where the nodes have IDs, every edge has two distinct ends in order, each the only visible node of
-- its identity in one and the same run, and only ends of the edge report it.
pub network_edges_at_lem :
    (ns : List Node) (agents : Option (Dict Agent)) (now : Time)
    → All (λ (n : Node). n.id ≢ "") ns
    → All
        (λ (e : Edge). IsLink (visible_nodes agents now ns) (edge_key e) e.reported_by)
        (network_edges_at ns agents now)
unfolding network_edges_at
network_edges_at_lem ns agents now h =
    let vs = visible_nodes agents now ns in
    let reports = add_nodes-AllLinks vs (ready_ids vs) ns [] h tt in
    sort_by-All edge_before (λ (e : Edge). IsLink vs (edge_key e) e.reported_by) _
      (edges_of-links vs _ reports)

by_text-IsWeakOrder :
    (key : Edge → String) (next : Edge → Edge → Bool)
    → IsWeakOrder next
    → IsWeakOrder (by_text key next)
by_text-IsWeakOrder key next w =
    lexical-IsWeakOrder (on-IsWeakOrder key text_lt-IsWeakOrder)
      (record { tie = λ a b. text_lt-IsTie.tie (key a) (key b) }) w

edge_before-IsWeakOrder : IsWeakOrder edge_before
unfolding edge_before
edge_before-IsWeakOrder =
    by_text-IsWeakOrder (λ (e : Edge). e.source) _
      (by_text-IsWeakOrder (λ (e : Edge). e.target) _
        (by_text-IsWeakOrder (λ (e : Edge). e.protocol) _
          (on-IsWeakOrder (λ (e : Edge). e.topic) text_lt-IsWeakOrder)))

-- The edges stand in the order of their source, target, protocol and topic.
pub network_edges_at-Sorted :
    (ns : List Node) (agents : Option (Dict Agent)) (now : Time)
    → Sorted edge_before (network_edges_at ns agents now)
unfolding network_edges_at
network_edges_at-Sorted ns agents now = sort_by-Sorted edge_before edge_before-IsWeakOrder _
