-- ===== src/Config/Presets.antt =====
-- internal/model/config.go: BuiltInNodeConfig and its presets.
use v.Common.{Bool, false, ◌||◌, Option, none, some, String, ◌==◌, if◌then◌else◌}
use v.Common.Int.{ℤ, pos}
use v.Common.Float.{Float}
use v.Network.Config.{NetworkConfig}
use v.Config.Params.{Params}
use v.Config.Kind.{kind_name}
use v.Config.Node.{GossipSub, Kademlia, NodeConfig, with_defaults}

abbrev pub empty_params : {F : Type 0} → Params F
empty_params = record {
  d = none;
  d_low = none;
  d_high = none;
  d_score = none;
  d_out = none;
  d_lazy = none;
  history_length = none;
  history_gossip = none;
  gossip_factor = none;
  gossip_retransmission = none;
  heartbeat_initial_delay = "";
  heartbeat_interval = "";
  slow_heartbeat_warning = none;
  fanout_ttl = "";
  prune_peers = none;
  prune_backoff = "";
  unsubscribe_backoff = "";
  connectors = none;
  max_pending_connections = none;
  connection_timeout = "";
  direct_connect_ticks = none;
  direct_connect_initial_delay = "";
  opportunistic_graft_ticks = none;
  opportunistic_graft_peers = none;
  graft_flood_threshold = "";
  max_i_have_length = none;
  max_i_have_messages = none;
  max_i_dont_want_length = none;
  max_i_dont_want_messages = none;
  i_want_followup_time = "";
  i_dont_want_message_threshold = none;
  i_dont_want_message_ttl = none;
}

abbrev pub empty_gossip : {F : Type 0} → GossipSub F
empty_gossip = record {
  enabled = none;
  router = "";
  topic_mode = "";
  subscribe = none;
  allow_publish = none;
  topics = none;
  params = empty_params;
  score = none;
  score_inspect_interval = "";
  random_degree = none;
  random_network_size = none;
}

abbrev pub empty_network : {F : Type 0} → NetworkConfig F
empty_network = record {
  scope = "";
  delay = "";
  delay_distribution = none;
  jitter = "";
  jitter_distribution = "";
  loss_percent = none;
  duplicate_percent = none;
  corrupt_percent = none;
  reorder_percent = none;
  reorder_correlation_percent = none;
  rate_mbps = none;
  tbf = none;
  queue_limit = none;
}

abbrev pub kademlia_mode : Option Bool → String → Kademlia
kademlia_mode enabled mode = record {
  enabled = enabled;
  mode = mode;
  protocol_prefix = "";
  protocol_id = "";
  protocol_extension = "";
  bucket_size = none;
  bootstrap_timeout = "";
  bootstrap_retry_interval = "";
  bootstrap_source = "";
  bootstrap_peers = none;
}

module _ {F : Type 0} where
  abbrev pub preset : String → Option ℤ → Kademlia → GossipSub F → NodeConfig F
  preset kind limit kademlia gossip = record {
    type = kind;
    topics = none;
    d = pos 0;
    d_low = pos 0;
    d_high = pos 0;
    d_out = pos 0;
    d_lazy = pos 0;
    heartbeat = "";
    connect_limit = pos 0;
    connection_limit = limit;
    kademlia = kademlia;
    gossip_sub = gossip;
    network = empty_network;
  }

  -- `applyV2WorkerGossipDefaults`.
  unfoldable pub worker_gossip : GossipSub F
  worker_gossip = record empty_gossip {
    params = record empty_params {
      d_low = some (pos 5);
      d_score = some (pos 3);
      max_i_have_length = some (pos 5500);
      heartbeat_initial_delay = "1s";
    };
  }

  unfoldable pub boot_gossip : GossipSub F
  boot_gossip = record empty_gossip {
    enabled = some false;
    params = record empty_params { d_score = some (pos 3) };
  }

-- `zero` is the float 0.
module _ (f : Float) (zero quarter tenth hundredth : f.F) where
  unfoldable pub quiet_gossip : GossipSub f.F
  quiet_gossip = record worker_gossip {
    params = record worker_gossip.params {
      history_gossip = some (pos 0);
      gossip_factor = some zero;
    };
  }

  abbrev built : NodeConfig f.F → Option (NodeConfig f.F)
  built c = some (with_defaults f quarter tenth hundredth c)

  -- The cases of `BuiltInNodeConfig`.
  unfoldable pub preset_of : String → Option (NodeConfig f.F)
  preset_of kind =
      let server = kademlia_mode none "server" in
      let client = kademlia_mode none "client" in
      let many = some (pos 55) in
      if kind == "boot"
      then built (preset kind none server boot_gossip)
      else if kind == "full" || kind == "worker"
      then built (preset "full" many server worker_gossip)
      else if kind == "light"
      then built (preset kind (some (pos 32)) client worker_gossip)
      else if kind == "publisher"
      then built (
          preset kind many client
            (record worker_gossip { subscribe = some false; topic_mode = "publish" }))
      else if kind == "subscriber" || kind == "observer"
      then built (preset kind many client (record worker_gossip { allow_publish = some false }))
      else if kind == "relay"
      then built (
          preset kind many client
            (record worker_gossip { topic_mode = "relay"; allow_publish = some false }))
      else if kind == "flood"
      then built (preset kind many client (record empty_gossip { router = "floodsub" }))
      else if kind == "random"
      then built (
          preset kind many client (record empty_gossip {
            router = "randomsub";
            random_degree = some (pos 6);
            random_network_size = some (pos 100);
          }))
      else if kind == "dht-only"
      then built (preset kind many server (record empty_gossip { enabled = some false }))
      else if kind == "gossip-only"
      then built (preset kind many (kademlia_mode (some false) "") worker_gossip)
      else if kind == "non-gossip" || kind == "mesh-only"
      then built (preset kind many server quiet_gossip)
      else none

  unfoldable pub built_in_node_config : String → Option (NodeConfig f.F)
  unfolding preset_of kind_name
  built_in_node_config kind = preset_of (kind_name kind)
