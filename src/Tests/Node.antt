-- ===== src/Tests/Node.antt =====
-- The configurations of a Peer.
use v.Common.{is_space, ◌≡◌, ◌↔◌, refl, none, some, [], ◌∷◌}
use v.Common.Int.{ℤ, pos}
use v.Config.Params.{params_defaults}
use v.Config.Node.{NodeConfig, with_defaults}
use v.Config.Overlay.{merge}
use v.Config.Kind.{kind_name, trim_start, trim_end, lower, lower_char, small_letter}
use v.Config.Presets.{
  empty_params, empty_gossip, empty_network, kademlia_mode, boot_gossip, preset,
  built_in_node_config, preset_of,
}
use v.Config.Degrees.{check_degrees}
use v.Config.Exclusive.{IsExclusive, merge-IsExclusive}
use v.Config.Mesh.{IsMesh, check_degrees_lem}
use v.Config.Stable.{with_defaults_twice}
use v.Config.BuiltIn.{AreDecimals, IsReady, built_in_node_config-IsReady}
use v.Tests.Data.{whole}

abbrev legacy : NodeConfig ℤ
legacy = record (preset "" none (kademlia_mode none "") empty_gossip) {
  d = pos 8;
  topics = some ("blocks" ∷ []);
  connect_limit = pos 9;
}

with_defaults_twice_example :
    with_defaults whole (pos 0) (pos 0) (pos 0) (with_defaults whole (pos 0) (pos 0) (pos 0) legacy)
    ≡ with_defaults whole (pos 0) (pos 0) (pos 0) legacy
with_defaults_twice_example = with_defaults_twice whole (pos 0) (pos 0) (pos 0) legacy

-- The overlay fixes the delay and names the protocol by its identifier.
abbrev overlay : NodeConfig ℤ
overlay = record legacy {
  kademlia = record (kademlia_mode none "") { protocol_id = "/x/1" };
  network = record empty_network { delay = "5ms"; rate_mbps = some (pos 3) };
}

merge-IsExclusive_example :
    IsExclusive (with_defaults whole (pos 0) (pos 0) (pos 0) (merge legacy overlay))
merge-IsExclusive_example =
    merge-IsExclusive whole (pos 0) (pos 0) (pos 0) legacy overlay
      (record { one_protocol = refl; one_delay = refl; one_shaper = refl })
      (record { one_protocol = refl; one_delay = refl; one_shaper = refl })

check_degrees_lem_example :
    check_degrees (params_defaults (pos 0) (pos 0) (empty_params {F = ℤ})) ≡ none
    ↔ IsMesh (params_defaults (pos 0) (pos 0) (empty_params {F = ℤ}))
check_degrees_lem_example =
    check_degrees_lem (params_defaults (pos 0) (pos 0) (empty_params {F = ℤ}))

decimals : AreDecimals whole (pos 0) (pos 1) (pos 0) (pos 0) (pos 0)
decimals = record { zero_factor = refl; quarter_factor = refl; tenth_warning = refl }

abbrev boot : NodeConfig ℤ
boot =
    with_defaults whole (pos 0) (pos 0) (pos 0)
      (preset "boot" none (kademlia_mode none "server") boot_gossip)

boots : built_in_node_config whole (pos 0) (pos 0) (pos 0) (pos 0) " Boot" ≡ some boot
unfolding built_in_node_config kind_name trim_start trim_end lower lower_char small_letter is_space
    preset_of
boots = refl

built_in_node_config-IsReady_example : IsReady whole (pos 0) (pos 1) (pos 0) (pos 0) (pos 0) boot
built_in_node_config-IsReady_example =
    built_in_node_config-IsReady whole (pos 0) (pos 1) (pos 0) (pos 0) (pos 0) decimals " Boot" boot
      boots
