-- ===== src/Tests/Jobs.antt =====
-- Two jobs of a run, one of which fails.
use v.Common.{
  ◌+◌, ◌≤◌, ◌≡◌, ◌⊎◌, refl, Bool, true, false, Option, none, some, List, [], ◌∷◌, String, Dict,
  lookup, insert, contains, remove, Distinct,
}
use v.Jobs.Defs.{Job, context_done, finish_job, job_failed, Waiting, returned, channel, wait_round}
use v.Jobs.Wait.{System, closed, ends, round, Reach, here, next, begun}
use v.Jobs.Outcomes.{wait_succeeds, wait_fails_truly, wait_done_drains}
use v.Jobs.Progress.{rounds, wait_terminates}

abbrev running : Job
running = record { done = false; err = none; cancelable = true; canceled = false }

abbrev over : Option String → Job
over e = record { done = true; err = e; cancelable = true; canceled = false }

abbrev two : Dict Job
two = ("j", running) ∷ ("k", running) ∷ []

two-Distinct : Distinct two
unfolding lookup
two-Distinct = (refl, (refl, tt))

-- The wait is on `k` alone, and `k` ends.
abbrev waits : List String
waits = "k" ∷ []

abbrev ended_table : Option String → Dict Job
ended_table e = ("j", running) ∷ ("k", over e) ∷ []

abbrev final_system : Option String → Waiting → System
final_system e w = record { table = ended_table e; waiter = w }

reach_end :
    (strict : Bool) (e : Option String)
    → Reach strict
        (begun two waits)
        (final_system e (wait_round strict (channel "k") (ended_table e) waits))
unfolding finish_job lookup insert contains
reach_end strict e =
    next (next here (ends "k" e running refl refl))
      (round (channel "k") "k" [] refl (closed refl refl))

reach_success : Reach true (begun two waits) (final_system none (returned none))
unfolding wait_round lookup remove
reach_success = reach_end true none

reach_failure :
    Reach true
      (begun two waits)
      (final_system (some "bad") (returned (some (job_failed "k" "bad"))))
unfolding wait_round lookup
reach_failure = reach_end true (some "bad")

reach_drained : Reach false (begun two waits) (final_system (some "bad") (returned none))
unfolding wait_round lookup remove
reach_drained = reach_end false (some "bad")

k_selected : contains "k" waits ≡ true
unfolding contains
k_selected = refl

wait_succeeds_example :
    (j : Job) × (lookup "k" (ended_table none) ≡ some j) × (j.done ≡ true) × (j.err ≡ none)
wait_succeeds_example = wait_succeeds two waits reach_success refl "k" k_selected

wait_fails_truly_example :
    (job_failed "k" "bad" ≡ context_done)
    ⊎ ((id : String) × (e : String) × (j : Job) × (job_failed "k" "bad" ≡ job_failed id e)
        × (contains id waits ≡ true)
        × (lookup id (ended_table (some "bad")) ≡ some j)
        × (j.done ≡ true)
        × (j.err ≡ some e))
wait_fails_truly_example = wait_fails_truly two waits (job_failed "k" "bad") reach_failure refl

wait_done_drains_example :
    (j : Job) × (lookup "k" (ended_table (some "bad")) ≡ some j) × (j.done ≡ true)
wait_done_drains_example = wait_done_drains two waits reach_drained refl "k" k_selected

wait_terminates_example : rounds reach_drained + 0 ≤ 1
wait_terminates_example = wait_terminates false two waits reach_drained
