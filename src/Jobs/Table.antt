-- ===== src/Jobs/Table.antt =====
-- The table of jobs: starting, ending, cancelling, resetting and selecting.
use mathlib.Core.Option
use mathlib.Core.Path.{subst}
use v.Common.{
  ◌≡◌, ◌⊎◌, ◌≢◌, refl, sym, Bool, true, false, ◌||◌, none, some, Option-cases, List, [], ◌∷◌,
  String, ◌==◌, Distinct, str_eq_iff, str_eq_refl, if◌then◌else◌, Bool-cases, inl, inr, Dict,
  lookup, lookup-insert, contains, All, arith,
}
use v.Jobs.Defs.{
  Job, new_job, start_job, cancel_all, running_job, reset, Selection, selected, missing, also,
  select_from, select_jobs,
}

-- A job starts exactly when its id is free; it is then on record and running, and every other job is
-- as it was. A refused start changes nothing.
pub start_job_lem :
    (id : String) (cancelable : Bool) (t : Dict Job)
    → ((lookup id t ≡ none)
        × ((start_job id cancelable t).accepted ≡ true)
        × ((k : String)
            → lookup k (start_job id cancelable t).table
              ≡ (if id == k then some (new_job cancelable) else lookup k t)))
      ⊎ ((lookup id t ≢ none)
          × ((start_job id cancelable t).accepted ≡ false)
          × ((start_job id cancelable t).table ≡ t))
unfolding start_job
start_job_lem id cancelable t = elim (Option-cases (lookup id t)) [
  | inl free ↦ inl (
    free,
    ground (arith, free),
    λ k. ground (arith, free, lookup-insert id k (new_job cancelable) t),
  )
  | inr (j, taken) ↦
      inr ((λ e. ground (arith, taken)), ground (arith, taken), ground (arith, taken))
]

none-running : (t : Dict Job) → running_job t ≡ none → All (λ (e : String × Job). e.1.done ≡ true) t
unfolding running_job
none-running [] e = tt
none-running ((i, w) ∷ t) e = elim (Bool-cases w.done) [
  | inr busy ↦ absurd (ground (arith, busy))
  | inl over ↦ (over, none-running t (ground (arith, over)))
]

some-running :
    (t : Dict Job) (k : String)
    → Distinct t
    → running_job t ≡ some k
    → (j : Job) × (lookup k t ≡ some j) × (j.done ≡ false)
unfolding running_job lookup
some-running [] k d e = absurd (ground arith)
some-running ((i, w) ∷ t) k d e = elim (Bool-cases w.done) [
  | inr busy ↦ (w, ground (arith, str_eq_iff i k), busy)
  | inl over ↦
      let (j, found, busy) = some-running t k d.1 (ground (arith, over)) in
      (j, ground (arith, str_eq_iff i k, found, d.0), busy)
]

-- `reset` is all or nothing: it forgets every job if all of them have ended, and otherwise names a
-- job that is still running and leaves the table alone.
pub reset_lem :
    (t : Dict Job)
    → Distinct t
    → (((reset t).error ≡ none)
        × ((reset t).table ≡ [])
        × All (λ (e : String × Job). e.1.done ≡ true) t)
      ⊎ ((k : String) × (j : Job) × ((reset t).error ≡ some k)
          × ((reset t).table ≡ t)
          × (lookup k t ≡ some j)
          × (j.done ≡ false))
unfolding reset
reset_lem t d = elim (Option-cases (running_job t)) [
  | inl e ↦ inl (ground (arith, e), ground (arith, e), none-running t e)
  | inr (k, e) ↦
      let (j, found, busy) = some-running t k d e in
      inr (k, j, ground (arith, e), ground (arith, e), found, busy)
]

-- Cancelling changes no job's end: it marks those that can be cancelled, and only those.
pub cancel_all_lem :
    (k : String) (t : Dict Job)
    → lookup k (cancel_all t)
      ≡ Option.map
          (λ (j : Job). if j.cancelable then record j { canceled = true } else j)
          (lookup k t)
unfolding cancel_all lookup
cancel_all_lem k [] = refl
cancel_all_lem k ((i, w) ∷ t) = ground (arith, cancel_all_lem k t)

-- The ids are distinct and name jobs of the table.
abbrev pub Fresh : List String → List String → Type 0
Fresh seen [] = Unit
Fresh seen (id ∷ ids) = (contains id seen ≡ false) × Fresh (id ∷ seen) ids

abbrev pub Selects : Dict Job → List String → List String → Selection → Type 0
Selects t seen ids (missing k) = (contains k ids ≡ true) × (lookup k t ≡ none)
Selects t seen ids (selected l) =
    Fresh seen l
    × All (λ k. lookup k t ≢ none) l
    × ((k : String) → (contains k l || contains k seen) ≡ (contains k ids || contains k seen))

skip-Selects :
    (t : Dict Job) (seen ids : List String) (id : String) (r : Selection)
    → contains id seen ≡ true
    → Selects t seen ids r
    → Selects t seen (id ∷ ids) r
unfolding contains
skip-Selects t seen ids id (missing k) again (h, gone) = (ground arith, gone)
skip-Selects t seen ids id (selected l) again (f, known, same) =
    (f, known, λ k. ground (arith, same k, str_eq_iff id k))

take-Selects :
    (t : Dict Job) (seen ids : List String) (id : String) (j : Job) (r : Selection)
    → lookup id t ≡ some j
    → contains id seen ≡ false
    → Selects t (id ∷ seen) ids r
    → Selects t seen (id ∷ ids) (also id r)
unfolding contains
take-Selects t seen ids id j (missing k) here new (h, gone) = (ground arith, gone)
take-Selects t seen ids id j (selected l) here new (f, known, same) =
    ((new, f), ((λ e. ground arith), known), λ k. ground (arith, same k))

select_from-Selects :
    (t : Dict Job) (seen ids : List String) → Selects t seen ids (select_from t seen ids)
unfolding select_from contains
select_from-Selects t seen [] = (tt, tt, λ k. refl)
select_from-Selects t seen (id ∷ ids) =
    let P = Selects t seen (id ∷ ids) in
    elim (Option-cases (lookup id t)) [
      | inl gone ↦
          let e : select_from t seen (id ∷ ids) ≡ missing id = ground (arith, gone) in
          subst P (sym e) (ground (arith, str_eq_refl id), gone)
      | inr (j, here) ↦ elim (Bool-cases (contains id seen)) [
        | inl again ↦
            let e : select_from t seen (id ∷ ids) ≡ select_from t seen ids =
              ground (arith, here, again) in
            subst P (sym e) (
              skip-Selects t seen ids id (select_from t seen ids) again
                (select_from-Selects t seen ids))
        | inr new ↦
            let e : select_from t seen (id ∷ ids) ≡ also id (select_from t (id ∷ seen) ids) =
              ground (arith, here, new) in
            subst P (sym e) (
              take-Selects t seen ids id j (select_from t (id ∷ seen) ids) here new
                (select_from-Selects t (id ∷ seen) ids))
      ]
    ]

-- Of a list of ids with at least one, `selectJobs` selects each once, and all of them name jobs; or it
-- names one of them that is no job.
pub select_jobs_named :
    (t : Dict Job) (id : String) (ids : List String)
    → Selects t [] (id ∷ ids) (select_jobs (id ∷ ids) t)
unfolding select_jobs
select_jobs_named t id ids = select_from-Selects t [] (id ∷ ids)
