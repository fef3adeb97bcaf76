-- ===== src/Config/Node.antt =====
-- internal/model/config.go, score_config.go: promoteLegacy and WithDefaults. The records hold the fields
-- that these, Merge's replacements and its cases read; a slice is none where it is nil.
use v.Common.{
  Bool, true, false, not, ◌&&◌, Option, none, some, List, [], ◌∷◌, String, ◌==◌, if◌then◌else◌,
  Dict, map,
}
use v.Common.Int.{ℤ, pos}
use v.Common.Float.{Float}
use v.Network.Config.{NetworkConfig}
use v.Config.Defs.{or_default, default_text, promoted, pointed}
use v.Config.Params.{Params, params_defaults}

pub record TopicScore (F : Type 0) : Type 0 where
  pub skips_atomic_validation : Bool
  pub time_in_mesh_weight : F
  pub time_in_mesh_quantum : String
  pub time_in_mesh_cap : F

pub record Score (F : Type 0) : Type 0 where
  pub is_enabled : Option Bool
  pub skips_atomic_validation : Bool
  pub decay_interval : String
  pub decay_to_zero : F
  pub topics : Option (Dict (TopicScore F))

pub record GossipSub (F : Type 0) : Type 0 where
  pub enabled : Option Bool
  pub router : String
  pub topic_mode : String
  pub subscribe : Option Bool
  pub allow_publish : Option Bool
  pub topics : Option (List String)
  pub params : Params F
  pub score : Option (Score F)
  pub score_inspect_interval : String
  pub random_degree : Option ℤ
  pub random_network_size : Option ℤ

pub record Kademlia : Type 0 where
  pub enabled : Option Bool
  pub mode : String
  pub protocol_prefix : String
  pub protocol_id : String
  pub protocol_extension : String
  pub bucket_size : Option ℤ
  pub bootstrap_timeout : String
  pub bootstrap_retry_interval : String
  pub bootstrap_source : String
  pub bootstrap_peers : Option (List String)

pub record NodeConfig (F : Type 0) : Type 0 where
  pub type : String
  pub topics : Option (List String)
  pub d : ℤ
  pub d_low : ℤ
  pub d_high : ℤ
  pub d_out : ℤ
  pub d_lazy : ℤ
  pub heartbeat : String
  pub connect_limit : ℤ
  pub connection_limit : Option ℤ
  pub kademlia : Kademlia
  pub gossip_sub : GossipSub F
  pub network : NetworkConfig F

-- `len(topics) == 0`.
abbrev pub has_none : Option (List String) → Bool
has_none none = true
has_none (some []) = true
has_none (some (t ∷ topics)) = false

abbrev pub promoted_topics : Option (List String) → Option (List String) → Option (List String)
promoted_topics legacy topics = if has_none topics && not (has_none legacy) then legacy else topics

abbrev pub is_true : Option Bool → Bool
is_true (some b) = b
is_true none = false

abbrev pub is_false : Option Bool → Bool
is_false (some b) = not b
is_false none = false

-- The mode that `subscribe` means where no mode is given.
abbrev pub subscription_mode : Option Bool → String
subscription_mode subscribe = if is_false subscribe then "publish" else "subscribe"

abbrev pub topics_or : Option (List String) → Option (List String)
topics_or topics = if has_none topics then some ("kpl/default" ∷ []) else topics

-- `connectLimit`, where the nested limit is given or is not.
abbrev pub flat_limit : ℤ → Option ℤ → ℤ
flat_limit legacy none = legacy
flat_limit legacy (some limit) = limit

module _ {F : Type 0} where
  unfoldable pub promote_params : NodeConfig F → Params F → Params F
  promote_params c p = record p {
    d = promoted c.d p.d;
    d_low = promoted c.d_low p.d_low;
    d_high = promoted c.d_high p.d_high;
    d_out = promoted c.d_out p.d_out;
    d_lazy = promoted c.d_lazy p.d_lazy;
    heartbeat_interval = default_text c.heartbeat p.heartbeat_interval;
  }

  unfoldable pub promote_legacy : NodeConfig F → NodeConfig F
  promote_legacy c = record c {
    connection_limit = promoted c.connect_limit c.connection_limit;
    gossip_sub = record c.gossip_sub {
      topics = promoted_topics c.topics c.gossip_sub.topics;
      params = promote_params c c.gossip_sub.params;
    };
  }

  -- The flat fields are what the nested ones are.
  unfoldable pub flatten : NodeConfig F → NodeConfig F
  flatten c = record c {
    topics = c.gossip_sub.topics;
    d = pointed c.gossip_sub.params.d;
    d_low = pointed c.gossip_sub.params.d_low;
    d_high = pointed c.gossip_sub.params.d_high;
    d_out = pointed c.gossip_sub.params.d_out;
    d_lazy = pointed c.gossip_sub.params.d_lazy;
    heartbeat = c.gossip_sub.params.heartbeat_interval;
    connect_limit = flat_limit c.connect_limit c.connection_limit;
  }

unfoldable pub kademlia_defaults : Kademlia → Kademlia
kademlia_defaults k = record k {
  enabled = or_default true k.enabled;
  mode = default_text "server" k.mode;
  protocol_prefix =
      if k.protocol_prefix == "" && k.protocol_id == "" then "/k-p2p-lab/v3" else k.protocol_prefix;
  bucket_size = or_default (pos 20) k.bucket_size;
  bootstrap_timeout = default_text "60s" k.bootstrap_timeout;
  bootstrap_retry_interval = default_text "1s" k.bootstrap_retry_interval;
}

abbrev pub score_is_enabled : {F : Type 0} → Option (Score F) → Bool
score_is_enabled none = false
score_is_enabled (some s) = is_true s.is_enabled

module _ (f : Float) where
  unfoldable pub is_zero_float : f.F → Bool
  is_zero_float x = f.eq x (f.of_int (pos 0))

  unfoldable pub lacks_quantum : Bool → TopicScore f.F → Bool
  lacks_quantum enabled t =
      enabled
      && t.skips_atomic_validation
      && t.time_in_mesh_quantum == ""
      && is_zero_float t.time_in_mesh_weight
      && is_zero_float t.time_in_mesh_cap

  unfoldable pub topic_score_defaults : Bool → String × TopicScore f.F → String × TopicScore f.F
  topic_score_defaults enabled (topic, t) =
      (topic, if lacks_quantum enabled t then record t { time_in_mesh_quantum = "1s" } else t)

  unfoldable pub lacks_decay : Score f.F → Bool
  lacks_decay s =
      is_true s.is_enabled
      && s.skips_atomic_validation
      && s.decay_interval == ""
      && is_zero_float s.decay_to_zero

  abbrev pub topics_defaults :
      Bool → Option (Dict (TopicScore f.F)) → Option (Dict (TopicScore f.F))
  topics_defaults enabled none = none
  topics_defaults enabled (some topics) = some (map (topic_score_defaults enabled) topics)

-- `quarter`, `tenth` and `hundredth` are the floats 0.25, 0.1 and 0.01.
module _ (f : Float) (hundredth : f.F) where
  -- `PeerScoreConfig.WithDefaults`.
  unfoldable pub score_defaults : Score f.F → Score f.F
  score_defaults s = record s {
    decay_interval = if lacks_decay f s then "1s" else s.decay_interval;
    decay_to_zero = if lacks_decay f s then hundredth else s.decay_to_zero;
    topics = topics_defaults f (is_true s.is_enabled) s.topics;
  }

  abbrev pub scored : Option (Score f.F) → Option (Score f.F)
  scored none = none
  scored (some s) = some (score_defaults s)

module _ (f : Float) (quarter tenth hundredth : f.F) where
  unfoldable pub gossip_defaults : GossipSub f.F → GossipSub f.F
  gossip_defaults g =
      let mode = default_text (subscription_mode g.subscribe) g.topic_mode in
      record g {
        enabled = or_default true g.enabled;
        router = default_text "gossipsub" g.router;
        topic_mode = mode;
        subscribe = some (mode == "subscribe");
        allow_publish = or_default true g.allow_publish;
        score = scored f hundredth g.score;
        score_inspect_interval =
            if score_is_enabled g.score && g.score_inspect_interval == ""
            then "1s"
            else g.score_inspect_interval;
        topics = topics_or g.topics;
        params = params_defaults quarter tenth g.params;
      }

  unfoldable pub fill : NodeConfig f.F → NodeConfig f.F
  fill c = record c {
    type = default_text "full" c.type;
    gossip_sub = gossip_defaults c.gossip_sub;
    kademlia = kademlia_defaults c.kademlia;
  }

  -- `WithDefaults`.
  unfoldable pub with_defaults : NodeConfig f.F → NodeConfig f.F
  with_defaults c = flatten (fill (promote_legacy c))
