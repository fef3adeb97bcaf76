-- ===== src/Jobs/Progress.antt =====
-- A wait on jobs ends: each round leaves fewer jobs.
use v.Common.{
  ℕ, suc, ◌+◌, ◌<◌, ◌≤◌, ◌≡◌, ap, Bool, true, not, some, Option-cases, List, [], ◌∷◌, String, ◌==◌,
  Bool-cases, inl, inr, Dict, lookup, contains, remove, length, length-filter-le, arith,
}
use v.Jobs.Defs.{
  Job, job_failed, Waiting, waiting, returned, settle, Choice, context, channel, result_of,
  wait_round,
}
use v.Jobs.Wait.{System, Ready, closed, ends, round, Reach, here, next, begun}

-- The jobs that a wait still observes.
abbrev pub left : Waiting → ℕ
left (waiting armed) = length armed
left (returned e) = 0

-- The rounds of a wait's loop in a history.
abbrev pub rounds : {strict : Bool} {s u : System} → Reach strict s u → ℕ
rounds here = 0
rounds (next r (ends id e j h busy)) = rounds r
rounds (next r (round c id ids w q)) = suc (rounds r)

left-settle : (l : List String) → left (settle l) ≤ length l
left-settle [] = omega arith
left-settle (id ∷ ids) = omega arith

length-remove :
    (id : String) (l : List String) → contains id l ≡ true → length (remove id l) < length l
unfolding contains remove
length-remove id [] h = cc
length-remove id (x ∷ l) h = elim (Bool-cases (x == id)) [
  | inl same ↦ ground (arith, same, length-filter-le (λ y. not (y == id)) l)
  | inr other ↦ ground (arith, other, length-remove id l)
]

round-left :
    (strict : Bool) (t : Dict Job) (id : String) (ids : List String) (c : Choice)
    → Ready t (id ∷ ids) c
    → left (wait_round strict c t (id ∷ ids)) < length (id ∷ ids)
unfolding wait_round
round-left strict t id ids context q = omega arith
round-left strict t id ids (channel k) (closed m d) =
    elim (Option-cases (result_of strict (lookup k t))) [
      | inl well ↦
          let r : wait_round strict (channel k) t (id ∷ ids) ≡ settle (remove k (id ∷ ids)) =
            ground (arith, well) in
          omega (arith, ap left r, left-settle (remove k (id ∷ ids)), length-remove k (id ∷ ids) m)
      | inr (e, fails) ↦
          let r : wait_round strict (channel k) t (id ∷ ids) ≡ returned (some (job_failed k e)) =
            ground (arith, fails) in
          omega (arith, ap left r)
    ]

-- A wait makes at most one round for each selected job, whatever the order of the events: each round
-- returns or leaves fewer jobs to observe.
pub wait_terminates :
    (strict : Bool) (t : Dict Job) (l : List String) {u : System} (r : Reach strict (begun t l) u)
    → rounds r + left u.waiter ≤ length l
wait_terminates strict t l here = omega (arith, left-settle l)
wait_terminates strict t l (next r (ends id e j h busy)) = wait_terminates strict t l r
wait_terminates strict t l (next {t = s} r (round c id ids w q)) =
    omega (arith, wait_terminates strict t l r, ap left w, round-left strict s.table id ids c q)
