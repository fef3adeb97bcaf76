-- ===== src/Publish/Topics.antt =====
-- internal/controller/runner.go: the topics of a Peer, from the metadata that its Agent reports.
-- `parse_bool` is `strconv.ParseBool`, `parse_topics` decodes a JSON array of texts, `split` is
-- `strings.Split` at the commas, `trim` is `strings.TrimSpace`.
use v.Common.{
  ◌≡◌, ◌≢◌, inl, inr, Bool, true, false, not, ◌&&◌, ◌||◌, Option, none, some, Bool-cases, List, [],
  ◌∷◌, String, ◌==◌, str_eq_iff, if◌then◌else◌, lookup, or_zero, contains, add, All, sort_by,
  text_lt, arith,
}
use v.Common.Order.{sort_by-All}
use v.Model.{Node}

abbrev pub metadata_of : String → Node → Option String
metadata_of key n = elim n.metadata [ none ↦ none | some m ↦ lookup key m ]

module _ (parse_bool : String → Option Bool) (parse_topics : String → Option (List String))
    (split : String → List String) (trim : String → String) where
  -- `nodeFeatureEnabled`.
  unfoldable pub node_feature_enabled : Node → String → Bool → Bool
  node_feature_enabled n key fallback = elim (metadata_of key n) [
    | none ↦ fallback
    | some raw ↦ or_zero false (parse_bool raw)
  ]

  unfoldable pub plain_topics : Node → List String
  plain_topics n =
      let raw = trim (or_zero "" (metadata_of "topics" n)) in if raw == "" then [] else split raw

  -- `nodeTopics`.
  unfoldable pub node_topics : Node → List String
  node_topics n =
      let raw = trim (or_zero "" (metadata_of "topicsJSON" n)) in
      if raw == ""
      then plain_topics n
      else elim (parse_topics raw) [ none ↦ plain_topics n | some topics ↦ topics ]

  abbrev pub is_empty_list : List String → Bool
  is_empty_list [] = true
  is_empty_list (x ∷ xs) = false

  -- `nodeHasTopic`.
  unfoldable pub node_has_topic : Node → String → Bool
  node_has_topic n topic =
      let topics = node_topics n in
      if topic == ""
      then true
      else if is_empty_list topics
      then topic == "kpl/default"
      else contains topic topics

  unfoldable pub first_topic : List String → String
  first_topic [] = "kpl/default"
  first_topic (t ∷ ts) = let rest = first_topic ts in if not (t == "") then t else rest

  -- `nodeDefaultTopic`.
  unfoldable pub node_default_topic : Node → String
  node_default_topic n = first_topic (node_topics n)

  -- `nodeCanPublishTopic`.
  unfoldable pub node_can_publish_topic : Node → String → Bool
  node_can_publish_topic n topic =
      node_feature_enabled n "pubsubEnabled" (not (n.type == "boot") && not (n.type == "dht-only"))
      && node_feature_enabled n "allowPublish"
          (not (n.type == "subscriber") && not (n.type == "observer") && not (n.type == "relay"))
      && node_has_topic n topic

  unfoldable pub publishable : Node → List String → List String
  publishable n [] = []
  publishable n (t ∷ ts) =
      let rest = publishable n ts in
      if not (t == "") && node_can_publish_topic n t then add t rest else rest

  unfoldable pub publish_one : Node → String → List String
  publish_one n topic = if node_can_publish_topic n topic then topic ∷ [] else []

  -- `nodePublishTopics`.
  unfoldable pub node_publish_topics : Node → String → List String
  node_publish_topics n requested =
      let configured = node_topics n in
      if not (requested == "*")
      then publish_one n (if requested == "" then node_default_topic n else requested)
      else sort_by text_lt
          (publishable n (if is_empty_list configured then "kpl/default" ∷ [] else configured))

  abbrev pub mode_of : Node → String
  mode_of n =
      let mode = or_zero "" (metadata_of "topicMode" n) in
      if not (mode == "")
      then mode
      else if n.type == "publisher" || n.type == "relay"
      then n.type
      else "subscribe"

  -- `nodeSubscribesToTopic`.
  unfoldable pub node_subscribes_to_topic : Node → String → Bool
  node_subscribes_to_topic n topic =
      node_feature_enabled n "pubsubEnabled" (not (n.type == "boot") && not (n.type == "dht-only"))
      && mode_of n == "subscribe"
      && node_has_topic n topic

  abbrev pub MayPublish : Node → String → Type 0
  MayPublish n t = (t ≢ "") × (node_can_publish_topic n t ≡ true)

  first_topic-filled : (ts : List String) → first_topic ts ≢ ""
  unfolding first_topic
  first_topic-filled [] h = cc
  first_topic-filled (t ∷ ts) h = elim (Bool-cases (t == "")) [
    | inl empty ↦ first_topic-filled ts (ground (arith, empty))
    | inr filled ↦ ground (arith, filled, str_eq_iff t "")
  ]

  add-All :
      (P : String → Type 0) (t : String) (ts : List String) → P t → All P ts → All P (add t ts)
  unfolding add
  add-All P t ts h k = elim (Bool-cases (contains t ts)) [
    | inl old ↦ rw old k
    | inr new ↦ rw new (h, k)
  ]

  publishable-All : (n : Node) (ts : List String) → All (MayPublish n) (publishable n ts)
  unfolding publishable
  publishable-All n [] = tt
  publishable-All n (t ∷ ts) = elim (Bool-cases (not (t == "") && node_can_publish_topic n t)) [
    | inl may ↦
        let filled : t ≢ "" = λ e. ground (arith, e, str_eq_iff t "", may) in
        rw may (
          add-All (MayPublish n) t (publishable n ts) (filled, ground (arith, may))
            (publishable-All n ts))
    | inr skips ↦ rw skips (publishable-All n ts)
  ]

  publish_one-All : (n : Node) (t : String) → t ≢ "" → All (MayPublish n) (publish_one n t)
  unfolding publish_one
  publish_one-All n t h = elim (Bool-cases (node_can_publish_topic n t)) [
    | inl may ↦ rw may ((h, may), tt)
    | inr skips ↦ rw skips tt
  ]

  -- Whatever topic is asked for, a Peer publishes only to topics that have a name and that it may
  -- publish to.
  pub node_publish_topics-All :
      (n : Node) (requested : String) → All (MayPublish n) (node_publish_topics n requested)
  unfolding node_publish_topics node_default_topic
  node_publish_topics-All n requested = elim (Bool-cases (requested == "*")) [
    | inl every ↦ rw every (sort_by-All text_lt (MayPublish n) _ (publishable-All n _))
    | inr one ↦ elim (Bool-cases (requested == "")) [
      | inl empty ↦ rw (one, empty) (publish_one-All n _ (first_topic-filled (node_topics n)))
      | inr named ↦
          rw (one, named)
            (publish_one-All n requested (λ e. ground (arith, e, named, str_eq_iff requested "")))
    ]
  ]
