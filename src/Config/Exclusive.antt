-- ===== src/Config/Exclusive.antt =====
-- internal/model/config.go: an overlay does not mix two ways to say the same.
use v.Common.{
  ◌≡◌, true, not, ◌&&◌, ◌||◌, inl, inr, Option, none, some, String, ◌==◌, if◌then◌else◌, Bool-cases,
  arith,
}
use v.Common.Float.{Float}
use v.Network.Config.{NetworkConfig}
use v.Config.Defs.{over, over_text}
use v.Config.Node.{
  Kademlia, NodeConfig, promote_legacy, flatten, kademlia_defaults, fill, with_defaults,
}
use v.Config.Overlay.{
  is_set, kademlia_base, merge_kademlia, network_base, merge_network, merge_non_zero, with_mode,
  merge,
}

-- The protocol is named by its identifier or by a prefix, the delay is fixed or drawn, and the rate is
-- that of one shaper.
pub record IsExclusive {F : Type 0} (c : NodeConfig F) : Type 0 where
  pub one_protocol : (c.kademlia.protocol_id == "" || c.kademlia.protocol_prefix == "") ≡ true
  pub one_delay : (c.network.delay == "" || not (is_set c.network.delay_distribution)) ≡ true
  pub one_shaper : (not (is_set c.network.rate_mbps) || not (is_set c.network.tbf)) ≡ true

merge_names :
    (k o : Kademlia)
    → (k.protocol_id == "" || k.protocol_prefix == "") ≡ true
    → (o.protocol_id == "" || o.protocol_prefix == "") ≡ true
    → let m = kademlia_defaults (merge_kademlia (kademlia_base k o) o) in
      (m.protocol_id == "" || m.protocol_prefix == "") ≡ true
unfolding kademlia_defaults merge_kademlia kademlia_base
merge_names k o a b = elim (Bool-cases (o.protocol_id == "")) [
  | inl p ↦ elim (Bool-cases (o.protocol_prefix == "")) [
    | inr q ↦ simp (p, q)
    | inl q ↦ elim (Bool-cases (k.protocol_id == "")) [
      | inl x ↦ simp (p, q, x)
      | inr x ↦ elim (Bool-cases (k.protocol_prefix == "")) [
        | inl y ↦ simp (p, q, x, y)
        | inr y ↦ absurd (ground (arith, a, x, y))
      ]
    ]
  ]
  | inr p ↦ elim (Bool-cases (o.protocol_prefix == "")) [
    | inl q ↦ simp (p, q)
    | inr q ↦ absurd (ground (arith, b, p, q))
  ]
]

delays :
    {A : Type 0} (d e : String) (x y : Option A)
    → (d == "" || not (is_set x)) ≡ true
    → (e == "" || not (is_set y)) ≡ true
    → (over_text (if is_set y && e == "" then "" else d) e == ""
        || not (is_set (over (if not (e == "") && not (is_set y) then none else x) y)))
      ≡ true
delays d e x (some y) a b = elim (Bool-cases (e == "")) [
  | inl p ↦ simp p
  | inr p ↦ absurd (ground (arith, b, p))
]
delays d e none none a b = elim (Bool-cases (e == "")) [
  | inl p ↦ ground arith
  | inr p ↦ ground arith
]
delays d e (some x) none a b = elim (Bool-cases (e == "")) [
  | inl p ↦ elim (Bool-cases (d == "")) [
    | inl q ↦ simp (p, q)
    | inr q ↦ absurd (ground (arith, a, q))
  ]
  | inr p ↦ ground (arith, p)
]

merge_delays :
    {F : Type 0} (n o : NetworkConfig F)
    → (n.delay == "" || not (is_set n.delay_distribution)) ≡ true
    → (o.delay == "" || not (is_set o.delay_distribution)) ≡ true
    → let m = merge_network (network_base n o) o in
      (m.delay == "" || not (is_set m.delay_distribution)) ≡ true
unfolding merge_network network_base
merge_delays n o a b = delays n.delay o.delay n.delay_distribution o.delay_distribution a b

merge_rates :
    {F : Type 0} (n o : NetworkConfig F)
    → (not (is_set n.rate_mbps) || not (is_set n.tbf)) ≡ true
    → (not (is_set o.rate_mbps) || not (is_set o.tbf)) ≡ true
    → let m = merge_network (network_base n o) o in
      (not (is_set m.rate_mbps) || not (is_set m.tbf)) ≡ true
unfolding merge_network network_base
merge_rates n o a b = ground arith

module _ (f : Float) (quarter tenth hundredth : f.F) where
  -- If the base and the overlay each name the protocol in at most one way, give the delay in at most one
  -- way and use at most one shaper, then so does their Merge with its defaults.
  pub merge-IsExclusive :
      (base overlay : NodeConfig f.F)
      → IsExclusive base
      → IsExclusive overlay
      → IsExclusive (with_defaults f quarter tenth hundredth (merge base overlay))
  unfolding with_defaults fill flatten promote_legacy merge merge_non_zero with_mode
  merge-IsExclusive base overlay a b = record {
    one_protocol = merge_names base.kademlia overlay.kademlia a.one_protocol b.one_protocol;
    one_delay = merge_delays base.network overlay.network a.one_delay b.one_delay;
    one_shaper = merge_rates base.network overlay.network a.one_shaper b.one_shaper;
  }
