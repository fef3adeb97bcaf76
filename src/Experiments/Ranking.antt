-- ===== src/Experiments/Ranking.antt =====
-- The order of the runs is complete: it does not depend on the order of a map.
use v.Common.{◌≡◌, false, not, ◌&&◌, str_eq_iff, text_lt_connected, arith}
use v.Common.Int.{ℤ, pos, negsuc, ltb_ℤ, eq_ℤ}
use v.Common.Order.{
  IsWeakOrder, IsTie, lexical-IsWeakOrder, text_lt-IsWeakOrder, text_lt-IsTie, on-IsWeakOrder,
}
use v.Experiments.Defs.{
  Experiment, group_of, started_later, same_start, iteration_before, experiment_before,
}

eq_tie : (a b : ℤ) → eq_ℤ a b ≡ (not (ltb_ℤ a b) && not (ltb_ℤ b a))
eq_tie (pos a) (pos b) = ground arith
eq_tie (pos a) (negsuc b) = ground arith
eq_tie (negsuc a) (pos b) = ground arith
eq_tie (negsuc a) (negsuc b) = ground arith

started_later-IsWeakOrder : IsWeakOrder started_later
started_later-IsWeakOrder = record {
  irrefl = λ a. ground arith;
  trans = λ a b c h k. ground arith;
  not_trans = λ a b c h k. ground arith;
}

same_start-IsTie : IsTie started_later same_start
same_start-IsTie = record { tie = λ a b. ground arith }

iteration_before-IsWeakOrder : IsWeakOrder iteration_before
iteration_before-IsWeakOrder = record {
  irrefl = λ a. ground arith;
  trans = λ a b c h k. ground arith;
  not_trans = λ a b c h k. ground arith;
}

-- `experimentBefore` is a strict weak order.
pub experiment_before-IsWeakOrder : IsWeakOrder experiment_before
unfolding experiment_before
experiment_before-IsWeakOrder = lexical-IsWeakOrder started_later-IsWeakOrder same_start-IsTie (
    lexical-IsWeakOrder (on-IsWeakOrder (λ (e : Experiment). group_of e) text_lt-IsWeakOrder)
      (record { tie = λ a b. text_lt-IsTie.tie (group_of a) (group_of b) })
      (lexical-IsWeakOrder iteration_before-IsWeakOrder
        (record { tie = λ a b. eq_tie a.iteration b.iteration })
        (on-IsWeakOrder (λ (e : Experiment). e.id) text_lt-IsWeakOrder)))

-- Two runs, neither of which stands before the other, have the same id.
pub experiment_before_tie :
    (a b : Experiment) → experiment_before a b ≡ false → experiment_before b a ≡ false → a.id ≡ b.id
unfolding experiment_before
experiment_before_tie a b h k = ground (
  arith,
  text_lt_connected a.id b.id,
  text_lt_connected (group_of a) (group_of b),
  str_eq_iff (group_of a) (group_of b),
  str_eq_iff (group_of b) (group_of a),
  eq_tie a.iteration b.iteration,
  eq_tie b.iteration a.iteration,
)
