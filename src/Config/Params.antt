-- ===== src/Config/Params.antt =====
-- internal/model/gossipsub_config.go, config.go: the parameters of GossipSub, their defaults and overlays.
use v.Common.{ℕ, Option, String}
use v.Common.Int.{ℤ, pos}
use v.Config.Defs.{or_default, default_text, over, over_text}

pub record Params (F : Type 0) : Type 0 where
  pub d : Option ℤ
  pub d_low : Option ℤ
  pub d_high : Option ℤ
  pub d_score : Option ℤ
  pub d_out : Option ℤ
  pub d_lazy : Option ℤ
  pub history_length : Option ℤ
  pub history_gossip : Option ℤ
  pub gossip_factor : Option F
  pub gossip_retransmission : Option ℤ
  pub heartbeat_initial_delay : String
  pub heartbeat_interval : String
  pub slow_heartbeat_warning : Option F
  pub fanout_ttl : String
  pub prune_peers : Option ℤ
  pub prune_backoff : String
  pub unsubscribe_backoff : String
  pub connectors : Option ℤ
  pub max_pending_connections : Option ℤ
  pub connection_timeout : String
  pub direct_connect_ticks : Option ℕ
  pub direct_connect_initial_delay : String
  pub opportunistic_graft_ticks : Option ℕ
  pub opportunistic_graft_peers : Option ℤ
  pub graft_flood_threshold : String
  pub max_i_have_length : Option ℤ
  pub max_i_have_messages : Option ℤ
  pub max_i_dont_want_length : Option ℤ
  pub max_i_dont_want_messages : Option ℤ
  pub i_want_followup_time : String
  pub i_dont_want_message_threshold : Option ℤ
  pub i_dont_want_message_ttl : Option ℤ

-- `quarter` and `tenth` are the floats 0.25 and 0.1.
module _ {F : Type 0} (quarter tenth : F) where
  unfoldable pub params_defaults : Params F → Params F
  params_defaults p = record {
    d = or_default (pos 6) p.d;
    d_low = or_default (pos 5) p.d_low;
    d_high = or_default (pos 12) p.d_high;
    d_score = or_default (pos 4) p.d_score;
    d_out = or_default (pos 2) p.d_out;
    d_lazy = or_default (pos 6) p.d_lazy;
    history_length = or_default (pos 5) p.history_length;
    history_gossip = or_default (pos 3) p.history_gossip;
    gossip_factor = or_default quarter p.gossip_factor;
    gossip_retransmission = or_default (pos 3) p.gossip_retransmission;
    heartbeat_initial_delay = default_text "100ms" p.heartbeat_initial_delay;
    heartbeat_interval = default_text "1s" p.heartbeat_interval;
    slow_heartbeat_warning = or_default tenth p.slow_heartbeat_warning;
    fanout_ttl = default_text "1m" p.fanout_ttl;
    prune_peers = or_default (pos 16) p.prune_peers;
    prune_backoff = default_text "1m" p.prune_backoff;
    unsubscribe_backoff = default_text "10s" p.unsubscribe_backoff;
    connectors = or_default (pos 8) p.connectors;
    max_pending_connections = or_default (pos 128) p.max_pending_connections;
    connection_timeout = default_text "30s" p.connection_timeout;
    direct_connect_ticks = or_default 300 p.direct_connect_ticks;
    direct_connect_initial_delay = default_text "1s" p.direct_connect_initial_delay;
    opportunistic_graft_ticks = or_default 60 p.opportunistic_graft_ticks;
    opportunistic_graft_peers = or_default (pos 2) p.opportunistic_graft_peers;
    graft_flood_threshold = default_text "10s" p.graft_flood_threshold;
    max_i_have_length = or_default (pos 5000) p.max_i_have_length;
    max_i_have_messages = or_default (pos 10) p.max_i_have_messages;
    max_i_dont_want_length = or_default (pos 10) p.max_i_dont_want_length;
    max_i_dont_want_messages = or_default (pos 1000) p.max_i_dont_want_messages;
    i_want_followup_time = default_text "3s" p.i_want_followup_time;
    i_dont_want_message_threshold = or_default (pos 1024) p.i_dont_want_message_threshold;
    i_dont_want_message_ttl = or_default (pos 3) p.i_dont_want_message_ttl;
  }

-- `mergeNonZero`, for the parameters.
unfoldable pub merge_params : {F : Type 0} → Params F → Params F → Params F
merge_params p q = record {
  d = over p.d q.d;
  d_low = over p.d_low q.d_low;
  d_high = over p.d_high q.d_high;
  d_score = over p.d_score q.d_score;
  d_out = over p.d_out q.d_out;
  d_lazy = over p.d_lazy q.d_lazy;
  history_length = over p.history_length q.history_length;
  history_gossip = over p.history_gossip q.history_gossip;
  gossip_factor = over p.gossip_factor q.gossip_factor;
  gossip_retransmission = over p.gossip_retransmission q.gossip_retransmission;
  heartbeat_initial_delay = over_text p.heartbeat_initial_delay q.heartbeat_initial_delay;
  heartbeat_interval = over_text p.heartbeat_interval q.heartbeat_interval;
  slow_heartbeat_warning = over p.slow_heartbeat_warning q.slow_heartbeat_warning;
  fanout_ttl = over_text p.fanout_ttl q.fanout_ttl;
  prune_peers = over p.prune_peers q.prune_peers;
  prune_backoff = over_text p.prune_backoff q.prune_backoff;
  unsubscribe_backoff = over_text p.unsubscribe_backoff q.unsubscribe_backoff;
  connectors = over p.connectors q.connectors;
  max_pending_connections = over p.max_pending_connections q.max_pending_connections;
  connection_timeout = over_text p.connection_timeout q.connection_timeout;
  direct_connect_ticks = over p.direct_connect_ticks q.direct_connect_ticks;
  direct_connect_initial_delay =
      over_text p.direct_connect_initial_delay q.direct_connect_initial_delay;
  opportunistic_graft_ticks = over p.opportunistic_graft_ticks q.opportunistic_graft_ticks;
  opportunistic_graft_peers = over p.opportunistic_graft_peers q.opportunistic_graft_peers;
  graft_flood_threshold = over_text p.graft_flood_threshold q.graft_flood_threshold;
  max_i_have_length = over p.max_i_have_length q.max_i_have_length;
  max_i_have_messages = over p.max_i_have_messages q.max_i_have_messages;
  max_i_dont_want_length = over p.max_i_dont_want_length q.max_i_dont_want_length;
  max_i_dont_want_messages = over p.max_i_dont_want_messages q.max_i_dont_want_messages;
  i_want_followup_time = over_text p.i_want_followup_time q.i_want_followup_time;
  i_dont_want_message_threshold =
      over p.i_dont_want_message_threshold q.i_dont_want_message_threshold;
  i_dont_want_message_ttl = over p.i_dont_want_message_ttl q.i_dont_want_message_ttl;
}
