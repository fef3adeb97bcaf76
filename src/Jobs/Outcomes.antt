-- ===== src/Jobs/Outcomes.antt =====
-- What a wait on jobs that has returned tells of them.
use mathlib.Core.Path.{subst}
use mathlib.Core.Bool.{false≢true}
use v.Common.{
  ◌≡◌, ◌≢◌, ◌⊎◌, inl, inr, refl, true, false, Option, none, some, List, String, Dict, lookup,
  contains,
}
use v.Jobs.Defs.{Job, WaitError, context_done, job_failed, returned}
use v.Jobs.Wait.{System, Reach, begun, EndsWell, Holds, Reach-Holds, begun-Holds}

-- Whenever `wait` returns no error, in whatever order the jobs end and the channels are chosen, every
-- selected job has ended and none of them has failed.
pub wait_succeeds :
    (t : Dict Job) (l : List String) {u : System}
    → Reach true (begun t l) u
    → u.waiter ≡ returned none
    → (k : String) → contains k l ≡ true
    → (j : Job) × (lookup k u.table ≡ some j) × (j.done ≡ true) × (j.err ≡ none)
wait_succeeds t l {u} r e k m =
    ended (lookup k u.table) refl
      (subst (Holds true l u.table) e (Reach-Holds true l r (begun-Holds true t l)) k m)
  where
    ended :
        (o : Option Job)
        → lookup k u.table ≡ o
        → EndsWell true o
        → (j : Job) × (lookup k u.table ≡ some j) × (j.done ≡ true) × (j.err ≡ none)
    ended none h w = absurd w
    ended (some j) h w = (j, h, w.0, w.1 refl)

-- An error with which the loop of `wait` returns, once the jobs are selected, is the context's, or the
-- result of a selected job that has ended.
pub wait_fails_truly :
    (t : Dict Job) (l : List String) {u : System} (x : WaitError)
    → Reach true (begun t l) u
    → u.waiter ≡ returned (some x)
    → (x ≡ context_done)
      ⊎ ((id : String) × (e : String) × (j : Job) × (x ≡ job_failed id e)
          × (contains id l ≡ true)
          × (lookup id u.table ≡ some j)
          × (j.done ≡ true)
          × (j.err ≡ some e))
wait_fails_truly t l {u} context_done r h = inl refl
wait_fails_truly t l {u} (job_failed id e) r h =
    let p = subst (Holds true l u.table) h (Reach-Holds true l r (begun-Holds true t l)) in
    inr (id, e, p.2, refl, p.1, p.3, p.4, p.5)

-- `waitDone` never returns a job's error.
pub wait_done_ignores :
    (t : Dict Job) (l : List String) {u : System} (id e : String)
    → Reach false (begun t l) u
    → u.waiter ≢ returned (some (job_failed id e))
wait_done_ignores t l {u} id e r h =
    false≢true (subst (Holds false l u.table) h (Reach-Holds false l r (begun-Holds false t l))).0

-- When `waitDone` returns no error, every selected job has ended.
pub wait_done_drains :
    (t : Dict Job) (l : List String) {u : System}
    → Reach false (begun t l) u
    → u.waiter ≡ returned none
    → (k : String) → contains k l ≡ true
    → (j : Job) × (lookup k u.table ≡ some j) × (j.done ≡ true)
wait_done_drains t l {u} r h k m =
    ended (lookup k u.table) refl
      (subst (Holds false l u.table) h (Reach-Holds false l r (begun-Holds false t l)) k m)
  where
    ended :
        (o : Option Job)
        → lookup k u.table ≡ o
        → EndsWell false o
        → (j : Job) × (lookup k u.table ≡ some j) × (j.done ≡ true)
    ended none h w = absurd w
    ended (some j) h w = (j, h, w.0)
