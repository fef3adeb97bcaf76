-- ===== src/Config/Degrees.antt =====
-- internal/model/config.go: what Validate asks of the parameters of the gossipsub router.
use v.Common.{
  ℕ, ◌-◌, ◌/◌, Bool, true, false, not, ◌&&◌, ◌||◌, Option, none, some, [], ◌∷◌, if◌then◌else◌,
  nat_eq, fail_if, first_of,
}
use v.Common.Int.{ℤ, pos, negsuc, ltb_ℤ, is_pos}
use v.Common.Float.{Float}
use v.Config.Defs.{pointed}
use v.Config.Params.{Params}

pub data ParamsError : Type 0 where
  unordered_degrees bad_degrees bad_out_degree bad_history no_ticks bad_factor bad_warning
        negative :
      ParamsError

-- Go's division by two goes towards zero.
abbrev pub half : ℤ → ℤ
half (pos n) = pos (n / 2)
half (negsuc n) = if nat_eq n 0 then pos 0 else negsuc ((n - 1) / 2)

abbrev pub is_negative : ℤ → Bool
is_negative x = ltb_ℤ x (pos 0)

-- A pointer to a `uint64`, behind a default as well.
abbrev pub is_nought : Option ℕ → Bool
is_nought none = true
is_nought (some n) = nat_eq n 0

unfoldable pub check_degrees : {F : Type 0} → Params F → Option ParamsError
check_degrees p =
    let d = pointed p.d in
    let low = pointed p.d_low in
    let high = pointed p.d_high in
    let score = pointed p.d_score in
    let out = pointed p.d_out in
    first_of (
      fail_if (ltb_ℤ d low || ltb_ℤ high d) unordered_degrees
      ∷ fail_if
          (not (is_pos d)
            || is_negative low
            || not (is_pos high)
            || is_negative score
            || ltb_ℤ d score
            || is_negative (pointed p.d_lazy))
          bad_degrees
      ∷ fail_if (is_negative out || not (ltb_ℤ out low) || ltb_ℤ (half d) out) bad_out_degree
      ∷ fail_if
          (not (is_pos (pointed p.history_length))
            || is_negative (pointed p.history_gossip)
            || ltb_ℤ (pointed p.history_length) (pointed p.history_gossip))
          bad_history
      ∷ fail_if (is_nought p.direct_connect_ticks || is_nought p.opportunistic_graft_ticks) no_ticks
      ∷ [])

unfoldable pub has_negative : {F : Type 0} → Params F → Bool
has_negative p =
    is_negative (pointed p.gossip_retransmission)
    || is_negative (pointed p.prune_peers)
    || is_negative (pointed p.connectors)
    || is_negative (pointed p.max_pending_connections)
    || is_negative (pointed p.opportunistic_graft_peers)
    || is_negative (pointed p.max_i_have_length)
    || is_negative (pointed p.max_i_have_messages)
    || is_negative (pointed p.max_i_dont_want_length)
    || is_negative (pointed p.max_i_dont_want_messages)
    || is_negative (pointed p.i_dont_want_message_threshold)
    || is_negative (pointed p.i_dont_want_message_ttl)

-- `zero` and `one` are the floats.
module _ (f : Float) (zero one : f.F) where
  abbrev pub is_number : f.F → Bool
  is_number x = not (f.is_nan x) && not (f.is_inf x)

  abbrev pub is_factor : Option f.F → Bool
  is_factor none = false
  is_factor (some x) = is_number x && not (f.lt x zero) && not (f.lt one x)

  abbrev pub is_warning : Option f.F → Bool
  is_warning none = false
  is_warning (some x) = is_number x && not (f.lt x zero)

  unfoldable pub check_params : Params f.F → Option ParamsError
  check_params p = first_of (
      check_degrees p
      ∷ fail_if (not (is_factor p.gossip_factor)) bad_factor
      ∷ fail_if (not (is_warning p.slow_heartbeat_warning)) bad_warning
      ∷ fail_if (has_negative p) negative
      ∷ [])
