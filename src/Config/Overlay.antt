-- ===== src/Config/Overlay.antt =====
-- internal/model/config.go: Merge, which lays the fields that are set over a base.
use v.Common.{Bool, true, false, not, ◌&&◌, ◌||◌, Option, none, some, String, ◌==◌, if◌then◌else◌}
use v.Network.Config.{NetworkConfig}
use v.Config.Defs.{over, over_text, over_int}
use v.Config.Params.{merge_params}
use v.Config.Node.{GossipSub, Kademlia, NodeConfig, promote_legacy}

abbrev pub is_set : {A : Type 0} → Option A → Bool
is_set none = false
is_set (some a) = true

-- A subscription that is given without a mode gives the mode.
abbrev pub implied_mode : Option Bool → String → String
implied_mode none mode = mode
implied_mode (some subscribe) mode =
    if mode == "" then if subscribe then "subscribe" else "publish" else mode

-- What the overlay replaces is removed from the base: the other way to name the protocol, and the peers
-- of a source that has none.
unfoldable pub kademlia_base : Kademlia → Kademlia → Kademlia
kademlia_base k o =
    let by_id = not (o.protocol_id == "") && o.protocol_prefix == "" in
    let by_prefix = not (o.protocol_prefix == "") && o.protocol_id == "" in
    let without_peers =
      (o.bootstrap_source == "none" || o.bootstrap_source == "controller")
      && not (is_set o.bootstrap_peers) in
    record k {
      protocol_prefix = if by_id then "" else k.protocol_prefix;
      protocol_extension = if by_id && o.protocol_extension == "" then "" else k.protocol_extension;
      protocol_id = if by_prefix then "" else k.protocol_id;
      bootstrap_peers = if without_peers then none else k.bootstrap_peers;
    }

unfoldable pub merge_kademlia : Kademlia → Kademlia → Kademlia
merge_kademlia k o = record {
  enabled = over k.enabled o.enabled;
  mode = over_text k.mode o.mode;
  protocol_prefix = over_text k.protocol_prefix o.protocol_prefix;
  protocol_id = over_text k.protocol_id o.protocol_id;
  protocol_extension = over_text k.protocol_extension o.protocol_extension;
  bucket_size = over k.bucket_size o.bucket_size;
  bootstrap_timeout = over_text k.bootstrap_timeout o.bootstrap_timeout;
  bootstrap_retry_interval = over_text k.bootstrap_retry_interval o.bootstrap_retry_interval;
  bootstrap_source = over_text k.bootstrap_source o.bootstrap_source;
  bootstrap_peers = over k.bootstrap_peers o.bootstrap_peers;
}

module _ {F : Type 0} where
  -- So too the other way to give the delay, and the rate.
  unfoldable pub network_base : NetworkConfig F → NetworkConfig F → NetworkConfig F
  network_base n o = record n {
    delay_distribution =
        if not (o.delay == "") && not (is_set o.delay_distribution)
        then none
        else n.delay_distribution;
    delay = if is_set o.delay_distribution && o.delay == "" then "" else n.delay;
    rate_mbps = if is_set o.tbf && not (is_set o.rate_mbps) then none else n.rate_mbps;
    tbf = if is_set o.rate_mbps && not (is_set o.tbf) then none else n.tbf;
  }

  unfoldable pub merge_network : NetworkConfig F → NetworkConfig F → NetworkConfig F
  merge_network n o = record {
    scope = over_text n.scope o.scope;
    delay = over_text n.delay o.delay;
    delay_distribution = over n.delay_distribution o.delay_distribution;
    jitter = over_text n.jitter o.jitter;
    jitter_distribution = over_text n.jitter_distribution o.jitter_distribution;
    loss_percent = over n.loss_percent o.loss_percent;
    duplicate_percent = over n.duplicate_percent o.duplicate_percent;
    corrupt_percent = over n.corrupt_percent o.corrupt_percent;
    reorder_percent = over n.reorder_percent o.reorder_percent;
    reorder_correlation_percent = over n.reorder_correlation_percent o.reorder_correlation_percent;
    rate_mbps = over n.rate_mbps o.rate_mbps;
    tbf = over n.tbf o.tbf;
    queue_limit = over n.queue_limit o.queue_limit;
  }

  unfoldable pub merge_gossip : GossipSub F → GossipSub F → GossipSub F
  merge_gossip g o = record {
    enabled = over g.enabled o.enabled;
    router = over_text g.router o.router;
    topic_mode = over_text g.topic_mode o.topic_mode;
    subscribe = over g.subscribe o.subscribe;
    allow_publish = over g.allow_publish o.allow_publish;
    topics = over g.topics o.topics;
    params = merge_params g.params o.params;
    score = over g.score o.score;
    score_inspect_interval = over_text g.score_inspect_interval o.score_inspect_interval;
    random_degree = over g.random_degree o.random_degree;
    random_network_size = over g.random_network_size o.random_network_size;
  }

  -- `mergeNonZero`.
  unfoldable pub merge_non_zero : NodeConfig F → NodeConfig F → NodeConfig F
  merge_non_zero c o = record {
    type = over_text c.type o.type;
    topics = over c.topics o.topics;
    d = over_int c.d o.d;
    d_low = over_int c.d_low o.d_low;
    d_high = over_int c.d_high o.d_high;
    d_out = over_int c.d_out o.d_out;
    d_lazy = over_int c.d_lazy o.d_lazy;
    heartbeat = over_text c.heartbeat o.heartbeat;
    connect_limit = over_int c.connect_limit o.connect_limit;
    connection_limit = over c.connection_limit o.connection_limit;
    kademlia = merge_kademlia c.kademlia o.kademlia;
    gossip_sub = merge_gossip c.gossip_sub o.gossip_sub;
    network = merge_network c.network o.network;
  }

  unfoldable pub with_mode : NodeConfig F → NodeConfig F
  with_mode o = record o {
    gossip_sub = record o.gossip_sub {
      topic_mode = implied_mode o.gossip_sub.subscribe o.gossip_sub.topic_mode;
    };
  }

  -- `Merge`.
  unfoldable pub merge : NodeConfig F → NodeConfig F → NodeConfig F
  merge c overlay =
      let o = with_mode (promote_legacy overlay) in
      let base = record c {
        kademlia = kademlia_base c.kademlia o.kademlia;
        network = network_base c.network o.network;
      } in
      merge_non_zero base o
