-- ===== src/Config/Mesh.antt =====
-- internal/model/config.go: which degrees the checks of Validate let pass.
use v.Common.{
  ◌+◌, ◌<◌, ◌≡◌, Bool, false, ◌↔◌, none, fail_if, first_of-none, none-first_of, fail_if-false,
  arith,
}
use v.Common.Int.{ℤ, pos, negsuc, ◌≤ℤ◌, ◌+ℤ◌, ltb_ℤ, pos_part, neg_part}
use v.Config.Defs.{pointed}
use v.Config.Params.{Params}
use v.Config.Degrees.{
  unordered_degrees, bad_degrees, bad_out_degree, bad_history, no_ticks, half, is_nought,
  check_degrees,
}

half-le : (d out : ℤ) → pos 1 ≤ℤ d → pos 0 ≤ℤ out → ltb_ℤ (half d) out ≡ false → out +ℤ out ≤ℤ d
unfolding ◌+ℤ◌
half-le (pos n) (pos m) o p h = ground arith
half-le (pos n) (negsuc m) o p h = ground arith
half-le (negsuc n) (pos m) o p h = ground arith
half-le (negsuc n) (negsuc m) o p h = ground arith

le-half : (d out : ℤ) → pos 0 ≤ℤ out → out +ℤ out ≤ℤ d → ltb_ℤ (half d) out ≡ false
unfolding ◌+ℤ◌
le-half (pos n) (pos m) p h = ground arith
le-half (pos n) (negsuc m) p h = ground arith
le-half (negsuc n) (pos m) p h = ground arith
le-half (negsuc n) (negsuc m) p h = ground arith

fail_if-none : {E : Type 0} (b : Bool) (e : E) → b ≡ false → fail_if b e ≡ none
fail_if-none b e h = rw h

infix 50 ◌<ℤ◌
abbrev pub ◌<ℤ◌ : ℤ → ℤ → Type 0
a <ℤ b = pos_part a + neg_part b < pos_part b + neg_part a

-- A Peer keeps from `d_low` to `d_high` others in the mesh of a topic, and can choose enough of them itself.
pub record IsMesh {F : Type 0} (p : Params F) : Type 0 where
  pub low_le : pointed p.d_low ≤ℤ pointed p.d
  pub le_high : pointed p.d ≤ℤ pointed p.d_high
  pub score_pos : pos 0 ≤ℤ pointed p.d_score
  pub score_le : pointed p.d_score ≤ℤ pointed p.d
  pub lazy_pos : pos 0 ≤ℤ pointed p.d_lazy
  pub out_pos : pos 0 ≤ℤ pointed p.d_out
  pub out_lt : pointed p.d_out <ℤ pointed p.d_low
  pub out_le : pointed p.d_out +ℤ pointed p.d_out ≤ℤ pointed p.d
  pub length_pos : pos 1 ≤ℤ pointed p.history_length
  pub gossip_pos : pos 0 ≤ℤ pointed p.history_gossip
  pub gossip_le : pointed p.history_gossip ≤ℤ pointed p.history_length
  pub connects : is_nought p.direct_connect_ticks ≡ false
  pub grafts : is_nought p.opportunistic_graft_ticks ≡ false

check_degrees-IsMesh : {F : Type 0} (p : Params F) → check_degrees p ≡ none → IsMesh p
unfolding check_degrees
check_degrees-IsMesh p h =
    let (a, (b, (c, (e, (g, z))))) = first_of-none _ h in
    let a1 = fail_if-false _ unordered_degrees a in
    let b1 = fail_if-false _ bad_degrees b in
    let c1 = fail_if-false _ bad_out_degree c in
    let e1 = fail_if-false _ bad_history e in
    let g1 = fail_if-false _ no_ticks g in
    let positive : pos 0 ≤ℤ pointed p.d_out = ground (arith, c1) in
    record {
      low_le = ground (arith, a1);
      le_high = ground (arith, a1);
      score_pos = ground (arith, b1);
      score_le = ground (arith, b1);
      lazy_pos = ground (arith, b1);
      out_pos = positive;
      out_lt = ground (arith, c1);
      out_le =
          half-le (pointed p.d) (pointed p.d_out) (ground (arith, b1)) positive
            (ground (arith, c1));
      length_pos = ground (arith, e1);
      gossip_pos = ground (arith, e1);
      gossip_le = ground (arith, e1);
      connects = ground (arith, g1);
      grafts = ground (arith, g1);
    }

IsMesh-check_degrees : {F : Type 0} (p : Params F) → IsMesh p → check_degrees p ≡ none
unfolding check_degrees
IsMesh-check_degrees p m =
    let wide = le-half (pointed p.d) (pointed p.d_out) m.out_pos m.out_le in
    let bounds = fail_if-none _ bad_degrees (
      ground
        (arith, m.low_le, m.le_high, m.score_pos, m.score_le, m.lazy_pos, m.out_pos, m.out_lt)) in
    let order = fail_if-none _ unordered_degrees (ground (arith, m.low_le, m.le_high)) in
    let out = fail_if-none _ bad_out_degree (ground (arith, m.out_pos, m.out_lt, wide)) in
    let past =
      fail_if-none _ bad_history (ground (arith, m.length_pos, m.gossip_pos, m.gossip_le)) in
    let ticks = fail_if-none _ no_ticks (ground (arith, m.connects, m.grafts)) in
    none-first_of _ (order, (bounds, (out, (past, (ticks, tt)))))

-- The checks of the degrees, the history and the ticks pass if and only if: the lower bound is at most the
-- target and that at most the upper bound; the number of scored Peers is from 0 to the target; the lazy
-- degree is not negative; the number of outbound Peers is from 0 to less than the lower bound, and twice it is
-- at most the target; the history has a positive length, of which a part from 0 on is gossiped; and neither
-- tick is 0.
pub check_degrees_lem : {F : Type 0} (p : Params F) → check_degrees p ≡ none ↔ IsMesh p
check_degrees_lem p = (check_degrees-IsMesh p, IsMesh-check_degrees p)
