-- ===== src/Topology/Defs.antt =====
-- internal/controller/topology.go: `networkEdgesAt`, whose inner function and loops have names here.
use v.Common.{
  Bool, true, false, not, ◌&&◌, ◌||◌, Option, none, some, List, [], ◌∷◌, map, String, ◌==◌,
  if◌then◌else◌, leb, filter, contains, add, Dict, lookup, text_lt, sort_by, ◌+◌,
}
use v.Common.Order.{lexical}
use v.Model.{Time, is_zero, Agent, Node, is_ready}
use v.Fleet.Defs.{agent_is_online, agent_stale_after}

-- An entry of `peerToNode`: the key, and a node's ID, or "" where the identity is ambiguous.
pub record Claim : Type 0 where
  pub run_id : String
  pub peer_id : String
  pub owner : String

pub record EdgeKey : Type 0 where
  pub source : String
  pub target : String
  pub protocol : String
  pub topic : String

-- model.go: `Edge`.
pub record Edge : Type 0 where
  pub source : String
  pub target : String
  pub protocol : String
  pub topic : String
  pub reported_by : List String

abbrev pub Reports : Type 0
Reports = List (EdgeKey × List String)

-- The guards of the first loop; `agents` is a map or nil, and the zero Agent is not online.
unfoldable pub is_visible : Option (Dict Agent) → Time → Node → Bool
is_visible agents now n =
    let reachable : Bool = elim agents [
      | none ↦ true
      | some m ↦ elim (lookup n.agent_id m) [ none ↦ false | some a ↦ agent_is_online a now ]
    ] in
    not (n.peer_id == "")
    && is_ready n.state
    && reachable
    && (is_zero n.last_seen || leb now (n.last_seen + agent_stale_after))

-- `peerToNode[key]`.
unfoldable pub find_owner : String → String → List Claim → Option String
find_owner run peer [] = none
find_owner run peer (c ∷ cs) =
    if c.run_id == run && c.peer_id == peer then some c.owner else find_owner run peer cs

unfoldable pub set_owner : String → String → String → List Claim → List Claim
set_owner run peer id [] = record { run_id = run; peer_id = peer; owner = id } ∷ []
set_owner run peer id (c ∷ cs) =
    if c.run_id == run && c.peer_id == peer
    then record { run_id = run; peer_id = peer; owner = id } ∷ cs
    else c ∷ set_owner run peer id cs

unfoldable pub claim : Node → List Claim → List Claim
claim n cs =
    set_owner n.run_id n.peer_id
      (elim (find_owner n.run_id n.peer_id cs) [ none ↦ n.id | some _ ↦ "" ]) cs

-- The first loop, over the nodes that pass its guards.
unfoldable pub claims_of : List Node → List Claim → List Claim
claims_of [] cs = cs
claims_of (n ∷ ns) cs = claims_of ns (claim n cs)

unfoldable pub visible_nodes : Option (Dict Agent) → Time → List Node → List Node
visible_nodes agents now ns = filter (is_visible agents now) ns

unfoldable pub ready_ids : List Node → List String
ready_ids [] = []
ready_ids (n ∷ ns) = add n.id (ready_ids ns)

abbrev pub owner_or_empty : Option String → String
owner_or_empty none = ""
owner_or_empty (some id) = id

abbrev pub same_key : EdgeKey → EdgeKey → Bool
same_key a b =
    a.source == b.source && a.target == b.target && a.protocol == b.protocol && a.topic == b.topic

-- `reports[key][reporter] = struct{}{}`.
unfoldable pub report : EdgeKey → String → Reports → Reports
report k r [] = (k, r ∷ []) ∷ []
report k r ((j, rs) ∷ m) = if same_key j k then (j, add r rs) ∷ m else (j, rs) ∷ report k r m

-- The endpoints in order.
unfoldable pub key_of : String → String → String → String → EdgeKey
key_of id target protocol topic =
    if text_lt target id
    then record { source = target; target = id; protocol = protocol; topic = topic }
    else record { source = id; target = target; protocol = protocol; topic = topic }

-- The inner function `add`.
unfoldable pub add_report : List Claim → Node → String → String → String → Reports → Reports
add_report cs n peer protocol topic m =
    let target = owner_or_empty (find_owner n.run_id peer cs) in
    if not (owner_or_empty (find_owner n.run_id n.peer_id cs) == n.id)
    then m
    else if target == "" || target == n.id
    then m
    else report (key_of n.id target protocol topic) n.id m

unfoldable pub add_reports : List Claim → Node → List String → String → String → Reports → Reports
add_reports cs n [] protocol topic m = m
add_reports cs n (p ∷ ps) protocol topic m =
    add_reports cs n ps protocol topic (add_report cs n p protocol topic m)

-- The loop over `MeshPeers`.
unfoldable pub add_mesh : List Claim → Node → Dict (List String) → Reports → Reports
add_mesh cs n [] m = m
add_mesh cs n ((topic, ps) ∷ rest) m =
    add_mesh cs n rest (if topic == "" then m else add_reports cs n ps "gossipsub" topic m)

-- The body of the second loop.
unfoldable pub add_node : List Claim → List String → Node → Reports → Reports
add_node cs ready n m =
    let m₁ = add_reports cs n n.connected_peers "transport" "" m in
    if not (contains n.id ready)
    then m
    else if is_zero n.overlay_observed_at
    then m₁
    else add_mesh cs n n.mesh_peers (add_reports cs n n.routing_peers "kademlia" "" m₁)

unfoldable pub add_nodes : List Claim → List String → List Node → Reports → Reports
add_nodes cs ready [] m = m
add_nodes cs ready (n ∷ ns) m = add_nodes cs ready ns (add_node cs ready n m)

abbrev pub edge_of : EdgeKey × List String → Edge
edge_of (k, rs) = record {
  source = k.source;
  target = k.target;
  protocol = k.protocol;
  topic = k.topic;
  reported_by = sort_by text_lt rs;
}

abbrev pub by_text : (Edge → String) → (Edge → Edge → Bool) → Edge → Edge → Bool
by_text key next =
    lexical (λ (a b : Edge). text_lt (key a) (key b)) (λ (a b : Edge). key a == key b) next

-- The comparison that sorts the edges.
unfoldable pub edge_before : Edge → Edge → Bool
edge_before =
    by_text (λ e. e.source)
      (by_text (λ e. e.target)
        (by_text (λ e. e.protocol) (λ (a b : Edge). text_lt a.topic b.topic)))

unfoldable pub network_edges_at : List Node → Option (Dict Agent) → Time → List Edge
network_edges_at ns agents now =
    let visible = visible_nodes agents now ns in
    let reports = add_nodes (claims_of visible []) (ready_ids visible) ns [] in
    sort_by edge_before (map edge_of reports)

-- `networkEdges`.
unfoldable pub network_edges : List Node → Time → List Edge
network_edges ns now = network_edges_at ns none now
