-- ===== src/Publish/Targets.antt =====
-- The cohort of a publication: who receives each topic.
use v.Common.{
  ℕ, ◌+◌, ◌≤◌, ◌≡◌, refl, ap, inl, inr, Bool, true, false, ◌&&◌, some, Bool-cases, List, [], ◌∷◌,
  map, String, ◌==◌, str_eq_iff, str_eq_refl, ◌≢◌, ◌⊎◌, ◌∙◌, Option-cases, insert_by, sort_by,
  if◌then◌else◌, Dict, lookup, lookup-insert, contains, filter, All, length, text_lt, nat_eq, arith,
}
use v.Common.Order.{Sorted, sort_by-Sorted, sort_by-All, text_lt-IsWeakOrder}
use v.Model.{Time, Agent, Node, NodeState, is_ready, is_failed}
use v.Fleet.Defs.{Fleet, agent_is_online}
use v.Publish.Cohort.{
  Counts, count_node, ready_count, PublishRequest, is_publisher, is_target, nodes_of, targets_of,
  node_agent_online, capture_topic, capture_topics, capture_publish_cohort, matches,
}

not_both : (s : NodeState) → (is_ready s && is_failed s) ≡ false
not_both NodeState.starting = refl
not_both NodeState.ready = refl
not_both NodeState.stopping = refl
not_both NodeState.stopped = refl
not_both NodeState.failed = refl
not_both (NodeState.other s) = refl

abbrev Bounded : Counts → Type 0
Bounded c = c.ready + c.failed ≤ c.total

count_node-Bounded :
    (s : Fleet) (now : Time) (n : Node) (c : Counts) → Bounded c → Bounded (count_node s now n c)
unfolding count_node
count_node-Bounded s now n c h = ground (arith, not_both n.state, h)

-- No more Peers are ready or have failed than are counted.
pub ready_count_bounds :
    (s : Fleet) (now : Time) (run : String) (generation : ℕ) (group type : String) (m : Dict Node)
    → let c = ready_count s now run generation group type m in c.ready + c.failed ≤ c.total
unfolding ready_count count_node
ready_count_bounds s now run generation group type [] = omega arith
ready_count_bounds s now run generation group type ((k, n) ∷ m) =
    let bound = ready_count_bounds s now run generation group type m in
    let rest = ready_count s now run generation group type m in
    elim (Bool-cases (
      n.run_id == run
      && nat_eq n.generation generation
      && matches group n.group
      && matches type n.type)) [
        | inl hit ↦ rw hit (count_node-Bounded s now n rest bound)
        | inr miss ↦ rw miss bound
      ]

ready-path : (s : NodeState) → is_ready s ≡ true → s ≡ NodeState.ready
ready-path NodeState.ready h = refl
ready-path NodeState.starting h = cc
ready-path NodeState.stopping h = cc
ready-path NodeState.stopped h = cc
ready-path NodeState.failed h = cc
ready-path (NodeState.other x) h = cc

contains-insert_by :
    (id x : String) (xs : List String) → contains id (insert_by text_lt x xs) ≡ contains id (x ∷ xs)
unfolding contains insert_by
contains-insert_by id x [] = refl
contains-insert_by id x (y ∷ xs) = ground (arith, contains-insert_by id x xs)

contains-sort_by :
    (id : String) (xs : List String)
    → contains id xs ≡ true
    → contains id (sort_by text_lt xs) ≡ true
unfolding contains sort_by
contains-sort_by id [] h = cc
contains-sort_by id (x ∷ xs) h =
    contains-insert_by id x (sort_by text_lt xs) ∙ (elim (Bool-cases (x == id)) [
      | inl here ↦ ground (arith, here)
      | inr later ↦ ground (arith, later, contains-sort_by id xs (ground (arith, h, later)))
    ])

module _ (subscribes : Node → String → Bool) where
  -- A node is a receiver of the topic if it is another Peer of the run that is ready, its Agent is known
  -- and online, and it subscribes.
  pub record Receives (s : Fleet) (now : Time) (run publisher topic : String) (n : Node)
      : Type 0 where
    pub other : n.id ≢ publisher
    pub in_run : n.run_id ≡ run
    pub ready : n.state ≡ NodeState.ready
    pub agent : Agent
    pub known : lookup n.agent_id s.agents ≡ some agent
    pub online : agent_is_online agent now ≡ true
    pub subscribed : subscribes n topic ≡ true

  -- A node that the Controller keeps.
  abbrev pub IsKept : Node → Dict Node → Type 0
  IsKept n [] = ⊥
  IsKept n ((k, m) ∷ nodes) = (m ≡ n) ⊎ IsKept n nodes

  abbrev pub IsReceiver : Fleet → Time → String → String → String → String → Type 0
  IsReceiver s now run publisher topic id =
      (n : Node) × (n.id ≡ id) × IsKept n s.nodes × Receives s now run publisher topic n

  is_target-Receives :
      (s : Fleet) (now : Time) (run publisher topic : String) (n : Node)
      → is_target subscribes s now run publisher topic n ≡ true
      → Receives s now run publisher topic n
  unfolding is_target node_agent_online
  is_target-Receives s now run publisher topic n h =
      elim (Option-cases (lookup n.agent_id s.agents)) [
        | inl missing ↦ absurd (ground (arith, missing, h))
        | inr (a, known) ↦ record {
          other = ground (arith, h, str_eq_iff n.id publisher);
          in_run = ground (arith, h, str_eq_iff n.run_id run);
          ready = ready-path n.state (ground (arith, h));
          agent = a;
          known = known;
          online = ground (arith, h, known);
          subscribed = ground (arith, h);
        }
      ]

  Receives-is_target :
      (s : Fleet) (now : Time) (run publisher topic : String) (n : Node)
      → Receives s now run publisher topic n
      → is_target subscribes s now run publisher topic n ≡ true
  unfolding is_target node_agent_online
  Receives-is_target s now run publisher topic n r = ground (
    arith,
    r.other,
    r.in_run,
    ap is_ready r.ready,
    r.known,
    r.online,
    r.subscribed,
    str_eq_iff n.id publisher,
    str_eq_iff n.run_id run,
  )

  ids-All :
      (s : Fleet) (now : Time) (run publisher topic : String) (m : Dict Node)
      → ((n : Node) → IsKept n m → IsKept n s.nodes)
      → All (IsReceiver s now run publisher topic) (
          map
            (λ (n : Node). n.id)
            (filter (is_target subscribes s now run publisher topic) (nodes_of m)))
  unfolding nodes_of
  ids-All s now run publisher topic [] k = tt
  ids-All s now run publisher topic ((i, n) ∷ m) k =
      let rest = ids-All s now run publisher topic m (λ x y. k x (inr y)) in
      elim (Bool-cases (is_target subscribes s now run publisher topic n)) [
        | inl hit ↦
            rw hit
              ((n, refl, k n (inl refl), is_target-Receives s now run publisher topic n hit), rest)
        | inr miss ↦ rw miss rest
      ]

  -- Every receiver is among those that are filtered.
  receiver-in :
      (s : Fleet) (now : Time) (run publisher topic : String) (n : Node) (m : Dict Node)
      → IsKept n m
      → Receives s now run publisher topic n
      → contains n.id (
          map
            (λ (n : Node). n.id)
            (filter (is_target subscribes s now run publisher topic) (nodes_of m)))
        ≡ true
  unfolding contains nodes_of
  receiver-in s now run publisher topic n [] k r = absurd k
  receiver-in s now run publisher topic n ((i, x) ∷ m) (inl same) r =
      let hit : is_target subscribes s now run publisher topic x ≡ true =
        ap (is_target subscribes s now run publisher topic) same
        ∙ Receives-is_target s now run publisher topic n r in
      let named : (x.id == n.id) ≡ true = ap (λ (y : Node). y.id == n.id) same ∙ str_eq_refl n.id in
      rw hit (ground (arith, named))
  receiver-in s now run publisher topic n ((i, x) ∷ m) (inr later) r =
      let rest = receiver-in s now run publisher topic n m later r in
      elim (Bool-cases (is_target subscribes s now run publisher topic x)) [
        | inl hit ↦ rw hit (ground (arith, rest))
        | inr miss ↦ rw miss rest
      ]

  receiver-other :
      (s : Fleet) (now : Time) (run publisher topic id : String)
      → IsReceiver s now run publisher topic id
      → (id == publisher) ≡ false
  receiver-other s now run publisher topic id (n, e, k, r) = elim (Bool-cases (id == publisher)) [
    | inl same ↦ absurd (r.other (e ∙ (str_eq_iff id publisher).0 same))
    | inr apart ↦ apart
  ]

  not_contained :
      (s : Fleet) (now : Time) (run publisher topic : String) (ids : List String)
      → All (IsReceiver s now run publisher topic) ids
      → contains publisher ids ≡ false
  unfolding contains
  not_contained s now run publisher topic [] h = refl
  not_contained s now run publisher topic (id ∷ ids) h = ground (
    arith,
    receiver-other s now run publisher topic id h.0,
    not_contained s now run publisher topic ids h.1,
  )

  abbrev Recorded :
      Fleet → Time → String → List String → PublishRequest → String → PublishRequest → Type 0
  Recorded s now publisher ts r topic r' =
      let ids = targets_of subscribes s now r.run_id publisher topic in
      (lookup topic r'.target_node_ids_by_topic
        ≡ (if contains topic ts then some ids else lookup topic r.target_node_ids_by_topic))
      × (lookup topic r'.target_nodes_by_topic ≡ (
          if contains topic ts
          then some (length ids + 1)
          else lookup topic r.target_nodes_by_topic))

  capture_topic-Recorded :
      (s : Fleet) (now : Time) (publisher t topic : String) (r : PublishRequest)
      → Recorded s now publisher (t ∷ []) r topic (capture_topic subscribes s now publisher t r)
        × ((capture_topic subscribes s now publisher t r).run_id ≡ r.run_id)
  unfolding capture_topic contains
  capture_topic-Recorded s now publisher t topic r =
      let ids = targets_of subscribes s now r.run_id publisher t in
      let a = lookup-insert t topic ids r.target_node_ids_by_topic in
      let b = lookup-insert t topic (length ids + 1) r.target_nodes_by_topic in
      ((ground (arith, a, str_eq_iff t topic), ground (arith, b, str_eq_iff t topic)), ground arith)

  capture_topics-Recorded :
      (s : Fleet) (now : Time) (publisher topic : String) (ts : List String) (r : PublishRequest)
      → Recorded s now publisher ts r topic (capture_topics subscribes s now publisher ts r)
  unfolding capture_topics contains
  capture_topics-Recorded s now publisher topic [] r = (refl, refl)
  capture_topics-Recorded s now publisher topic (t ∷ ts) r =
      let (one, run) = capture_topic-Recorded s now publisher t topic r in
      let rest =
        capture_topics-Recorded s now publisher topic ts
          (capture_topic subscribes s now publisher t r) in
      let same = ap (λ x. targets_of subscribes s now x publisher topic) run in
      (ground (arith, one.0, rest.0, same), ground (arith, one.1, rest.1, same))

  -- What a topic's part of a captured cohort says.
  pub record IsCohort (s : Fleet) (now : Time) (run publisher topic : String) (r' : PublishRequest)
      : Type 0 where
    pub ids : List String
    pub recorded : lookup topic r'.target_node_ids_by_topic ≡ some ids
    pub counted : lookup topic r'.target_nodes_by_topic ≡ some (length ids + 1)
    pub others : contains publisher ids ≡ false
    pub receivers : All (IsReceiver s now run publisher topic) ids
    pub complete :
        (n : Node)
        → IsKept n s.nodes
        → Receives s now run publisher topic n
        → contains n.id ids ≡ true
    pub sorted : Sorted text_lt ids

  capture_topics-IsCohort :
      (s : Fleet) (now : Time) (publisher topic : String) (ts : List String) (r : PublishRequest)
      → contains topic ts ≡ true
      → IsCohort s now r.run_id publisher topic (capture_topics subscribes s now publisher ts r)
  unfolding targets_of
  capture_topics-IsCohort s now publisher topic ts r m =
      let ids = targets_of subscribes s now r.run_id publisher topic in
      let (a, b) = capture_topics-Recorded s now publisher topic ts r in
      let all : All (IsReceiver s now r.run_id publisher topic) ids =
        sort_by-All text_lt (IsReceiver s now r.run_id publisher topic) _
          (ids-All s now r.run_id publisher topic s.nodes (λ n k. k)) in
      record {
        ids = ids;
        recorded = ground (arith, a, m);
        counted = ground (arith, b, m);
        others = not_contained s now r.run_id publisher topic ids all;
        receivers = all;
        complete = λ n k h.
            contains-sort_by n.id _ (receiver-in s now r.run_id publisher topic n s.nodes k h);
        sorted = sort_by-Sorted text_lt text_lt-IsWeakOrder _;
      }

  -- When a cohort is captured, each topic asked for has a list of ids on record, in order, with their
  -- number and one more. They are exactly the ids of the Peers that the Controller keeps, other than the
  -- publisher, that are in the run and ready, whose Agent is known and online, and that subscribe to the
  -- topic.
  pub capture_publish_cohort_lem :
      (s : Fleet) (now : Time) (publisher topic : String) (ts : List String) (r : PublishRequest)
      → (capture_publish_cohort subscribes s now publisher ts r).1 ≡ true
      → contains topic ts ≡ true
      → IsCohort s now r.run_id publisher topic
          (capture_publish_cohort subscribes s now publisher ts r).0
  unfolding capture_publish_cohort
  capture_publish_cohort_lem s now publisher topic ts r h m =
      elim (Bool-cases (is_publisher subscribes s now (lookup publisher s.nodes))) [
        | inr refused ↦ absurd (ground (arith, refused))
        | inl accepted ↦ rw accepted (capture_topics-IsCohort s now publisher topic ts _ m)
      ]
