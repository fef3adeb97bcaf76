-- ===== src/Config/Stable.antt =====
-- internal/model/config.go: WithDefaults, which every reader of a configuration calls again, changes a
-- configuration that has its defaults no more.
use v.Common.{
  ◌≡◌, refl, ap, ◌∙◌, Bool, true, false, ◌&&◌, inl, inr, Option, none, some, List, [], ◌∷◌, String,
  ◌==◌, if◌then◌else◌, Dict, map, Bool-cases, arith,
}
use v.Common.Int.{ℤ, pos, eq_ℤ}
use v.Common.Float.{Float}
use v.Config.Defs.{or_default, default_text, promoted}
use v.Config.Params.{Params, params_defaults}
use v.Config.Node.{
  flat_limit, TopicScore, Score, GossipSub, Kademlia, NodeConfig, promoted_topics, is_true,
  is_false, subscription_mode, topics_or, promote_params, promote_legacy, flatten,
  kademlia_defaults, lacks_quantum, lacks_decay, topic_score_defaults, topics_defaults,
  score_defaults, scored, score_is_enabled, gossip_defaults, fill, with_defaults,
}

or_default_twice :
    {A : Type 0} (v : A) (x : Option A) → or_default v (or_default v x) ≡ or_default v x
or_default_twice v none = refl
or_default_twice v (some x) = refl

default_text_twice : (v s : String) → default_text v (default_text v s) ≡ default_text v s
default_text_twice v s = ground arith

module _ {F : Type 0} (quarter tenth : F) where
  params_defaults_twice :
      (p : Params F)
      → params_defaults quarter tenth (params_defaults quarter tenth p)
        ≡ params_defaults quarter tenth p
  unfolding params_defaults
  params_defaults_twice p = simp (or_default_twice, default_text_twice)

kademlia_defaults_twice :
    (k : Kademlia) → kademlia_defaults (kademlia_defaults k) ≡ kademlia_defaults k
unfolding kademlia_defaults
kademlia_defaults_twice k =
    let prefix = k.protocol_prefix == "" && k.protocol_id == "" in
    elim (Bool-cases prefix) [
      | inl h ↦ simp (or_default_twice, default_text_twice, h)
      | inr h ↦ simp (or_default_twice, default_text_twice, h)
    ]

topics_or_twice : (t : Option (List String)) → topics_or (topics_or t) ≡ topics_or t
topics_or_twice none = refl
topics_or_twice (some []) = refl
topics_or_twice (some (t ∷ ts)) = refl

module _ (f : Float) where
  has_quantum :
      (b : Bool) (t : TopicScore f.F)
      → lacks_quantum f b (record t { time_in_mesh_quantum = "1s" }) ≡ false
  unfolding lacks_quantum
  has_quantum b t = ground arith

  topic_score_twice :
      (b : Bool) (t : String × TopicScore f.F)
      → topic_score_defaults f b (topic_score_defaults f b t) ≡ topic_score_defaults f b t
  unfolding topic_score_defaults
  topic_score_twice b (topic, t) = elim (Bool-cases (lacks_quantum f b t)) [
    | inl h ↦ simp (h, has_quantum b t)
    | inr h ↦ simp h
  ]

  topics_defaults_twice :
      (b : Bool) (t : Option (Dict (TopicScore f.F)))
      → topics_defaults f b (topics_defaults f b t) ≡ topics_defaults f b t
  topics_defaults_twice b none = refl
  topics_defaults_twice b (some topics) = ap some (each topics)
    where
      each :
          (l : Dict (TopicScore f.F))
          → map (topic_score_defaults f b) (map (topic_score_defaults f b) l)
            ≡ map (topic_score_defaults f b) l
      each [] = refl
      each (t ∷ l) = rw (topic_score_twice b t) (ap (λ r. topic_score_defaults f b t ∷ r) (each l))

module _ (f : Float) (hundredth : f.F) where
  has_decay :
      (s : Score f.F) (x : f.F) (t : Option (Dict (TopicScore f.F)))
      → lacks_decay f (record s { decay_interval = "1s"; decay_to_zero = x; topics = t }) ≡ false
  unfolding lacks_decay
  has_decay s x t = ground arith

  lacks_decay-topics :
      (s : Score f.F) (t : Option (Dict (TopicScore f.F)))
      → lacks_decay f (record s { topics = t }) ≡ lacks_decay f s
  unfolding lacks_decay
  lacks_decay-topics s t = refl

  score_defaults_twice :
      (s : Score f.F)
      → score_defaults f hundredth (score_defaults f hundredth s) ≡ score_defaults f hundredth s
  unfolding score_defaults
  score_defaults_twice s =
      let again = topics_defaults_twice f (is_true s.is_enabled) s.topics in
      let new = topics_defaults f (is_true s.is_enabled) s.topics in
      elim (Bool-cases (lacks_decay f s)) [
        | inl h ↦ simp (h, has_decay s hundredth new, again)
        | inr h ↦ simp (h, lacks_decay-topics s new, again)
      ]

  scored_twice :
      (s : Option (Score f.F)) → scored f hundredth (scored f hundredth s) ≡ scored f hundredth s
  scored_twice none = refl
  scored_twice (some s) = ap some (score_defaults_twice s)

  score_is_enabled-scored :
      (s : Option (Score f.F)) → score_is_enabled (scored f hundredth s) ≡ score_is_enabled s
  unfolding score_defaults
  score_is_enabled-scored none = refl
  score_is_enabled-scored (some s) = refl

mode_twice :
    (s : Option Bool) (m : String)
    → default_text
        (subscription_mode (some (default_text (subscription_mode s) m == "subscribe")))
        (default_text (subscription_mode s) m)
      ≡ default_text (subscription_mode s) m
mode_twice s m = elim (Bool-cases (m == "")) [
  | inl h ↦ elim (Bool-cases (is_false s)) [ inl k ↦ rw (h, k) refl | inr k ↦ rw (h, k) refl ]
  | inr h ↦ simp h
]

inspect_twice :
    (b : Bool) (s : String)
    → (if b && (if b && s == "" then "1s" else s) == ""
        then "1s"
        else (if b && s == "" then "1s" else s))
      ≡ (if b && s == "" then "1s" else s)
inspect_twice false s = refl
inspect_twice true s = elim (Bool-cases (s == "")) [ inl h ↦ simp h | inr h ↦ simp h ]

module _ (f : Float) (quarter tenth hundredth : f.F) where
  gossip_defaults_twice :
      (g : GossipSub f.F)
      → gossip_defaults f quarter tenth hundredth (gossip_defaults f quarter tenth hundredth g)
        ≡ gossip_defaults f quarter tenth hundredth g
  unfolding gossip_defaults
  gossip_defaults_twice g = simp (
    or_default_twice, default_text_twice, mode_twice, topics_or_twice, scored_twice,
    score_is_enabled-scored, params_defaults_twice, inspect_twice,
  )

  fill_twice :
      (c : NodeConfig f.F)
      → fill f quarter tenth hundredth (fill f quarter tenth hundredth c)
        ≡ fill f quarter tenth hundredth c
  unfolding fill
  fill_twice c = simp (default_text_twice, gossip_defaults_twice, kademlia_defaults_twice)

promoted-or_default : (n v : ℤ) (x : Option ℤ) → promoted n (or_default v x) ≡ or_default v x
promoted-or_default n v none = refl
promoted-or_default n v (some x) = refl

promoted_topics-topics_or :
    (l t : Option (List String)) → promoted_topics l (topics_or t) ≡ topics_or t
promoted_topics-topics_or l none = refl
promoted_topics-topics_or l (some []) = refl
promoted_topics-topics_or l (some (t ∷ ts)) = refl

default_text-default :
    (v : String) (w s : String)
    → (w == "") ≡ false
    → default_text v (default_text w s) ≡ default_text w s
default_text-default v w s h = elim (Bool-cases (s == "")) [ inl k ↦ simp (h, k) | inr k ↦ simp k ]

promoted-flat_limit :
    (n : ℤ) (x : Option ℤ) → promoted (flat_limit n (promoted n x)) (promoted n x) ≡ promoted n x
promoted-flat_limit n (some x) = refl
promoted-flat_limit n none = elim (Bool-cases (eq_ℤ n (pos 0))) [ inl k ↦ simp k | inr k ↦ simp k ]

flat_limit_twice : (n : ℤ) (x : Option ℤ) → flat_limit (flat_limit n x) x ≡ flat_limit n x
flat_limit_twice n none = refl
flat_limit_twice n (some x) = refl

module _ (f : Float) (quarter tenth hundredth : f.F) where
  promote-with_defaults :
      (c : NodeConfig f.F)
      → promote_legacy (with_defaults f quarter tenth hundredth c)
        ≡ with_defaults f quarter tenth hundredth c
  unfolding promote_legacy with_defaults flatten fill gossip_defaults params_defaults promote_params
  promote-with_defaults c =
      simp
        (promoted-or_default, promoted_topics-topics_or, default_text-default, promoted-flat_limit)

  fill-flatten :
      (c : NodeConfig f.F)
      → fill f quarter tenth hundredth (flatten (fill f quarter tenth hundredth c))
        ≡ flatten (fill f quarter tenth hundredth c)
  unfolding flatten fill
  fill-flatten c = simp (default_text_twice, gossip_defaults_twice, kademlia_defaults_twice)

  flatten_twice : (c : NodeConfig f.F) → flatten (flatten c) ≡ flatten c
  unfolding flatten
  flatten_twice c = simp flat_limit_twice

  -- WithDefaults of a configuration that has its defaults is that configuration, the legacy fields, the
  -- scores and the topics included.
  pub with_defaults_twice :
      (c : NodeConfig f.F)
      → with_defaults f quarter tenth hundredth (with_defaults f quarter tenth hundredth c)
        ≡ with_defaults f quarter tenth hundredth c
  unfolding with_defaults
  with_defaults_twice c =
      let x = promote_legacy c in
      ap (λ y. flatten (fill f quarter tenth hundredth y)) (promote-with_defaults c)
      ∙ ap flatten (fill-flatten x)
      ∙ flatten_twice (fill f quarter tenth hundredth x)
