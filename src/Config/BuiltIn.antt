-- ===== src/Config/BuiltIn.antt =====
-- internal/model/config.go: the built-in configurations are valid ones.
use mathlib.Core.Option.{some-injective}
use mathlib.Core.Path.{subst}
use v.Common.{
  ◌≡◌, refl, sym, inl, inr, Bool-cases, str_eq_iff, Bool, true, false, ◌||◌, Option, none, some,
  String, ◌==◌, if◌then◌else◌, first_of,
}
use v.Common.Int.{ℤ, pos}
use v.Common.Float.{Float}
use v.Config.Defs.{promoted, default_text}
use v.Config.Params.{Params, params_defaults}
use v.Config.Node.{
  GossipSub, Kademlia, NodeConfig, promote_params, promote_legacy, flatten, fill, gossip_defaults,
  kademlia_defaults, with_defaults,
}
use v.Config.Kind.{kind_name}
use v.Config.Presets.{
  empty_gossip, preset, worker_gossip, boot_gossip, quiet_gossip, preset_of, built_in_node_config,
}
use v.Config.Degrees.{check_degrees, has_negative, is_factor, is_warning, check_params}
use v.Config.Exclusive.{IsExclusive}
use v.Config.Stable.{with_defaults_twice}

promoted-nought : (x : Option ℤ) → promoted (pos 0) x ≡ x
promoted-nought none = refl
promoted-nought (some x) = refl

default_text-blank : (s : String) → default_text "" s ≡ s
default_text-blank s = elim (Bool-cases (s == "")) [
  | inl h ↦ rw h (sym ((str_eq_iff s "").0 h))
  | inr h ↦ simp h
]

-- A preset has no flat fields.
promote_params-preset :
    {F : Type 0} (kind : String) (limit : Option ℤ) (k : Kademlia) (g : GossipSub F) (p : Params F)
    → promote_params (preset kind limit k g) p ≡ p
unfolding promote_params
promote_params-preset kind limit k g p = simp (promoted-nought, default_text-blank)

module _ (f : Float) (zero one quarter tenth hundredth : f.F) where
  -- 0 and 0.25 lie from 0 to 1, and 0.1 is not negative.
  pub record AreDecimals : Type 0 where
    pub zero_factor : is_factor f zero one (some zero) ≡ true
    pub quarter_factor : is_factor f zero one (some quarter) ≡ true
    pub tenth_warning : is_warning f zero one (some tenth) ≡ true

  -- It passes the checks of the parameters, names the protocol, the delay and the rate in one way each, and has
  -- its defaults.
  pub record IsReady (c : NodeConfig f.F) : Type 0 where
    pub passes : check_params f zero one c.gossip_sub.params ≡ none
    pub is_exclusive : IsExclusive c
    pub is_full : with_defaults f quarter tenth hundredth c ≡ c

  abbrev Every : Option (NodeConfig f.F) → Type 0
  Every o = (c : NodeConfig f.F) → o ≡ some c → IsReady c

  by_if :
      (b : Bool) (x y : Option (NodeConfig f.F)) → Every x → Every y → Every (if b then x else y)
  by_if true x y p q = p
  by_if false x y p q = q

  module _ (decimals : AreDecimals) where
    preset_ready :
        (kind : String) (limit : Option ℤ) (k : Kademlia) (g : GossipSub f.F)
        → check_params f zero one (params_defaults quarter tenth g.params) ≡ none
        → (k.protocol_id == "") ≡ true
        → Every (some (with_defaults f quarter tenth hundredth (preset kind limit k g)))
    unfolding with_defaults fill flatten promote_legacy gossip_defaults promote_params
        kademlia_defaults
    preset_ready kind limit k g h e c s = subst IsReady (some-injective _ c s) (record {
      passes = rw (promote_params-preset kind limit k g g.params) h;
      is_exclusive = record { one_protocol = simp e; one_delay = refl; one_shaper = refl };
      is_full = with_defaults_twice f quarter tenth hundredth (preset kind limit k g);
    })

    none_ready : Every none
    none_ready c s = cc

    params_pass :
        (g : GossipSub f.F)
        → check_degrees (params_defaults quarter tenth g.params) ≡ none
        → has_negative (params_defaults quarter tenth g.params) ≡ false
        → is_factor f zero one (params_defaults quarter tenth g.params).gossip_factor ≡ true
        → is_warning f zero one (params_defaults quarter tenth g.params).slow_heartbeat_warning
          ≡ true
        → check_params f zero one (params_defaults quarter tenth g.params) ≡ none
    unfolding check_params first_of
    params_pass g a b c d = rw (a, b, c, d) refl

    worker_pass :
        check_params f zero one (params_defaults quarter tenth worker_gossip.params) ≡ none
    unfolding worker_gossip params_defaults check_degrees has_negative first_of
    worker_pass = params_pass worker_gossip refl refl decimals.quarter_factor decimals.tenth_warning

    boot_pass : check_params f zero one (params_defaults quarter tenth boot_gossip.params) ≡ none
    unfolding boot_gossip params_defaults check_degrees has_negative first_of
    boot_pass = params_pass boot_gossip refl refl decimals.quarter_factor decimals.tenth_warning

    plain_pass : check_params f zero one (params_defaults quarter tenth empty_gossip.params) ≡ none
    unfolding params_defaults check_degrees has_negative first_of
    plain_pass = params_pass empty_gossip refl refl decimals.quarter_factor decimals.tenth_warning

    quiet_pass :
        check_params f zero one
          (params_defaults quarter tenth (quiet_gossip f zero quarter tenth hundredth).params)
        ≡ none
    unfolding quiet_gossip worker_gossip params_defaults check_degrees has_negative first_of
    quiet_pass =
        params_pass (quiet_gossip f zero quarter tenth hundredth) refl refl decimals.zero_factor
          decimals.tenth_warning

    preset_of-Every : (kind : String) → Every (preset_of f zero quarter tenth hundredth kind)
    unfolding preset_of
    preset_of-Every kind =
        by_if (kind == "boot") _ _ (preset_ready kind none _ boot_gossip boot_pass refl) (
          by_if (kind == "full" || kind == "worker") _ _
            (preset_ready "full" (some (pos 55)) _ worker_gossip worker_pass refl)
            (by_if (kind == "light") _ _
              (preset_ready kind (some (pos 32)) _ worker_gossip worker_pass refl)
              (by_if (kind == "publisher") _ _
                (preset_ready kind (some (pos 55)) _ _ worker_pass refl)
                (by_if (kind == "subscriber" || kind == "observer") _ _
                  (preset_ready kind (some (pos 55)) _ _ worker_pass refl)
                  (by_if (kind == "relay") _ _
                    (preset_ready kind (some (pos 55)) _ _ worker_pass refl)
                    (by_if (kind == "flood") _ _
                      (preset_ready kind (some (pos 55)) _ _ plain_pass refl)
                      (by_if (kind == "random") _ _
                        (preset_ready kind (some (pos 55)) _ _ plain_pass refl)
                        (by_if (kind == "dht-only") _ _
                          (preset_ready kind (some (pos 55)) _ _ plain_pass refl)
                          (by_if (kind == "gossip-only") _ _
                            (preset_ready kind (some (pos 55)) _ _ worker_pass refl)
                            (by_if (kind == "non-gossip" || kind == "mesh-only") _ _
                              (preset_ready kind (some (pos 55)) _ _ quiet_pass refl)
                              none_ready))))))))))

    -- If 0 and 0.25 count as factors from 0 to 1 and 0.1 as not negative, then every configuration that
    -- BuiltInNodeConfig returns passes the checks of its parameters, names the protocol, the delay and the
    -- rate in at most one way each, and is what WithDefaults makes of it.
    pub built_in_node_config-IsReady :
        (kind : String) (c : NodeConfig f.F)
        → built_in_node_config f zero quarter tenth hundredth kind ≡ some c
        → IsReady c
    unfolding built_in_node_config
    built_in_node_config-IsReady kind = preset_of-Every (kind_name kind)
