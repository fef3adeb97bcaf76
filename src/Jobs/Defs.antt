-- ===== src/Jobs/Defs.antt =====
-- internal/controller/jobs.go: the table of jobs, and the wait on some of them.
-- A job's `done` channel is the flag `done`; `reflect.Select` chooses any case that is ready.
use v.Common.{
  Bool, true, false, Option, none, some, List, [], ◌∷◌, String, if◌then◌else◌, Dict, lookup, insert,
  contains, remove, sort_by, text_lt,
}

pub record Job : Type 0 where
  pub done : Bool
  pub err : Option String
  pub cancelable : Bool
  pub canceled : Bool

-- `start` passes no cancel function and `startContext` passes one.
unfoldable pub new_job : Bool → Job
new_job cancelable = record { done = false; err = none; cancelable = cancelable; canceled = false }

pub record Started : Type 0 where
  pub table : Dict Job
  pub accepted : Bool

-- `startJob`.
unfoldable pub start_job : String → Bool → Dict Job → Started
unfolding new_job
start_job id cancelable t = elim (lookup id t) [
  | some j ↦ record { table = t; accepted = false }
  | none ↦ record { table = insert id (new_job cancelable) t; accepted = true }
]

-- The end of the job's goroutine: its result is stored and its channel closed.
unfoldable pub finish_job : String → Option String → Dict Job → Dict Job
finish_job id e t = elim (lookup id t) [
  | none ↦ t
  | some j ↦ insert id (record j { done = true; err = e }) t
]

unfoldable pub cancel_all : Dict Job → Dict Job
cancel_all [] = []
cancel_all ((k, j) ∷ t) =
    (k, if j.cancelable then record j { canceled = true } else j) ∷ cancel_all t

-- The job that the loop of `reset` finds still running.
unfoldable pub running_job : Dict Job → Option String
running_job [] = none
running_job ((k, j) ∷ t) = let rest = running_job t in if j.done then rest else some k

pub record WasReset : Type 0 where
  pub table : Dict Job
  pub error : Option String

-- `reset`.
unfoldable pub reset : Dict Job → WasReset
unfolding running_job
reset t = elim (running_job t) [
  | some k ↦ record { table = t; error = some k }
  | none ↦ record { table = []; error = none }
]

unfoldable pub keys : Dict Job → List String
keys [] = []
keys ((k, j) ∷ t) = k ∷ keys t

pub data Selection : Type 0 where
  selected : List String → Selection
  missing : String → Selection

abbrev pub also : String → Selection → Selection
also id (selected ids) = selected (id ∷ ids)
also id (missing k) = missing k

-- The loop over the ids: a repeated id counts once.
unfoldable pub select_from : Dict Job → List String → List String → Selection
select_from t seen [] = selected []
select_from t seen (id ∷ ids) =
    let again = select_from t seen ids in
    let first = also id (select_from t (id ∷ seen) ids) in
    elim (lookup id t) [ none ↦ missing id | some j ↦ if contains id seen then again else first ]

-- `selectJobs`: no id at all stands for every job, in order.
unfoldable pub select_jobs : List String → Dict Job → Selection
unfolding keys select_from
select_jobs [] t = select_from t [] (sort_by text_lt (keys t))
select_jobs (id ∷ ids) t = select_from t [] (id ∷ ids)

pub data WaitError : Type 0 where
  context_done : WaitError
  job_failed : String → String → WaitError

-- A wait is in its loop, with the jobs that it still observes, or has returned.
pub data Waiting : Type 0 where
  waiting : List String → Waiting
  returned : Option WaitError → Waiting

-- `for remaining > 0`.
abbrev pub settle : List String → Waiting
settle [] = returned none
settle (id ∷ ids) = waiting (id ∷ ids)

pub data Choice : Type 0 where
  context : Choice
  channel : String → Choice

-- `wait` reports the error of a job, and `waitDone` does not look at it.
abbrev pub result_of : Bool → Option Job → Option String
result_of strict none = none
result_of false (some j) = none
result_of true (some j) = j.err

-- One round of the loop of `wait` (`strict`) or `waitDone`.
unfoldable pub wait_round : Bool → Choice → Dict Job → List String → Waiting
wait_round strict context t armed = returned (some context_done)
wait_round strict (channel id) t armed = elim (result_of strict (lookup id t)) [
  | some e ↦ returned (some (job_failed id e))
  | none ↦ settle (remove id armed)
]

pub data WaitStart : Type 0 where
  not_found : String → WaitStart
  begins : List String → Waiting → WaitStart

-- What `wait` and `waitDone` do before their loop.
unfoldable pub begin_wait : List String → Dict Job → WaitStart
begin_wait ids t = elim (select_jobs ids t) [
  | missing id ↦ not_found id
  | selected l ↦ begins l (settle l)
]
