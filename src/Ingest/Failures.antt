-- ===== src/Ingest/Failures.antt =====
-- internal/controller/run_integrity.go: a failure to store the events of a run is on the run's record.
use text.Mathlib.TextLemmas.{cons-ne-nil, cons-append}
use mathlib.Core.Path.{subst}
use v.Common.{
  ◌≡◌, refl, ap, Dict, insert, add, sym, ◌∙◌, Bool, true, false, inl, inr, Option, none, some,
  Option-cases, List, [], ◌∷◌, String, ◌==◌, str_eq_iff, str_eq_refl, if◌then◌else◌, Bool-cases,
  lookup, lookup-insert, contains, contains-add, arith,
}
use Prim.Native.String.{◌++◌ as text_append}
use v.Model.{TraceEvent}
use v.Experiments.Defs.{Experiment}
use v.Ingest.Store.{
  Deletion, Persisted, synced, torn, undone, unsynced, Store, mark_incomplete,
  record_run_write_error, accept, accumulator_of, persist_events, commit_events, unless_deleted,
  append_run_events, deleted, present, unreadable,
}

-- The run's record tells that its data are incomplete and why, and the run is noted for another write.
pub record IsMarked {C : Type 0} (id : String) (s : Store C) : Type 0 where
  pub run : Experiment
  pub found : lookup id s.experiments ≡ some run
  pub incomplete : run.data_state ≡ "incomplete"
  pub told : (run.integrity_error == "") ≡ false
  pub failed : (run.state == "completed") ≡ false
  pub noted : contains id s.failed_run_writes ≡ true

prefixed-not_empty : (e : String) → (text_append "Result recording failed: " e == "") ≡ false
prefixed-not_empty e = elim (Bool-cases (text_append "Result recording failed: " e == "")) [
  | inr n ↦ n
  | inl h ↦
      let p = (str_eq_iff (text_append "Result recording failed: " e) "").0 h in
      absurd (cons-ne-nil _ _ (sym (cons-append _ _ _) ∙ p))
]

told-mark : (e : String) (r : Experiment) → ((mark_incomplete e r).integrity_error == "") ≡ false
unfolding mark_incomplete
told-mark e r = elim (Bool-cases (r.integrity_error == "")) [
  | inl n ↦ rw n (prefixed-not_empty e)
  | inr h ↦ rw h h
]

failed-mark : (e : String) (r : Experiment) → ((mark_incomplete e r).state == "completed") ≡ false
unfolding mark_incomplete
failed-mark e r = elim (Bool-cases (r.state == "completed")) [ inl c ↦ rw c | inr c ↦ rw c c ]

module _ {C : Type 0} where
  error-record :
      (id e : String) (s : Store C) {r : Experiment}
      → lookup id s.experiments ≡ some r
      → record_run_write_error id e s ≡ record s {
        experiments = insert id (mark_incomplete e r) s.experiments;
        failed_run_writes = add id s.failed_run_writes;
      }
  unfolding record_run_write_error insert add
  error-record id e s found = rw (found, record_run_write_error)

  error-IsMarked :
      (id e : String) (s : Store C) {r : Experiment}
      → lookup id s.experiments ≡ some r
      → IsMarked id (record_run_write_error id e s)
  error-IsMarked id e s {r} found = subst (IsMarked id) (sym (error-record id e s found)) (record {
    run = mark_incomplete e r;
    found =
        lookup-insert id id (mark_incomplete e r) s.experiments
        ∙ ap (λ b. if b then some (mark_incomplete e r) else lookup id s.experiments)
            (str_eq_refl id);
    incomplete = unfold mark_incomplete in refl;
    told = told-mark e r;
    failed = failed-mark e r;
    noted = contains-add id id s.failed_run_writes ∙ rw (str_eq_refl id);
  })

  -- The store is as it was but for the files and the runs' records: nothing is counted.
  pub record IsUncounted (s t : Store C) : Type 0 where
    pub metrics : t.run_metrics ≡ s.run_metrics
    pub recent : t.recent ≡ s.recent

  error-IsUncounted : (id e : String) (s : Store C) → IsUncounted s (record_run_write_error id e s)
  unfolding record_run_write_error
  error-IsUncounted id e s = elim (Option-cases (lookup id s.experiments)) [
    | inl unknown ↦ record {
      metrics = rw (unknown, record_run_write_error);
      recent = rw (unknown, record_run_write_error);
    }
    | inr (r, found) ↦ record {
      metrics = rw (found, record_run_write_error);
      recent = rw (found, record_run_write_error);
    }
  ]

  -- What a call that fails leaves, where the run is known.
  pub record Failed (id : String) (s t : Store C) : Type 0 where
    pub marked : IsMarked id t
    pub uncounted : IsUncounted s t

  error-Failed :
      (id e : String) (s : Store C) {r : Experiment}
      → lookup id s.experiments ≡ some r
      → Failed id s (record_run_write_error id e s)
  error-Failed id e s found = record {
    marked = error-IsMarked id e s found;
    uncounted = error-IsUncounted id e s;
  }

  written-Failed :
      (id e : String) (logs : Dict (List TraceEvent)) (s : Store C) {r : Experiment}
      → lookup id s.experiments ≡ some r
      → Failed id s (record_run_write_error id e (record s { logs = logs }))
  written-Failed id e logs s found =
      let f = error-Failed id e (record s { logs = logs }) found in
      record {
        marked = f.marked;
        uncounted = record { metrics = f.uncounted.metrics; recent = f.uncounted.recent };
      }

  branch-Failed :
      (b : Bool) (id error : String) (s : Store C) (x y : Store C × Option String)
      → x.1 ≡ none
      → Failed id s y.0
      → (if b then x else y).1 ≡ some error
      → Failed id s (if b then x else y).0
  branch-Failed true id error s x y n f h = cc
  branch-Failed false id error s x y n f h = f

  module _ (empty : C) (tally : TraceEvent → C → C) where
    commit-Failed :
        (p : Persisted) (run error : String) (es : List TraceEvent) (s : Store C) {r : Experiment}
        → lookup run s.experiments ≡ some r
        → (commit_events empty tally p run es s).1 ≡ some error
        → Failed run s (commit_events empty tally p run es s).0
    unfolding commit_events persist_events
    commit-Failed p run error [] s found h = cc
    commit-Failed synced run error (e ∷ es) s found h = elim (Bool-cases (run == "")) [
      | inl b ↦ absurd (ground (arith, b))
      | inr b ↦ absurd (ground (arith, b))
    ]
    commit-Failed (undone x) run error (e ∷ es) s found h =
        branch-Failed (run == "") run error s _ _ refl (error-Failed run x s found) h
    commit-Failed (torn n x) run error (e ∷ es) s found h =
        branch-Failed (run == "") run error s _ _ refl (written-Failed run x _ s found) h
    commit-Failed (unsynced x) run error (e ∷ es) s found h =
        branch-Failed (run == "") run error s _ _ refl (written-Failed run x _ s found) h

    unless_deleted-Failed :
        (d : Deletion) (run error : String) (s : Store C) (commit : Store C × Option String)
        {r : Experiment}
        → lookup run s.experiments ≡ some r
        → (commit.1 ≡ some error → Failed run s commit.0)
        → (unless_deleted empty tally d run s commit).1 ≡ some error
        → Failed run s (unless_deleted empty tally d run s commit).0
    unfolding unless_deleted
    unless_deleted-Failed present run error s commit found k h = k h
    unless_deleted-Failed deleted run error s commit found k h = cc
    unless_deleted-Failed (unreadable x) run error s commit found k h = error-Failed run x s found

    -- When `appendRunEvents` fails on a run that is known, whether the deletion marker could not be read
    -- or the events could not be stored, nothing is counted, and the run's record says that its data are
    -- incomplete and why, does not say that the run completed, and is noted for another write.
    pub append_run_events_fails :
        (d : Deletion) (p : Persisted) (run error : String) (es : List TraceEvent) (s : Store C)
        {r : Experiment}
        → lookup run s.experiments ≡ some r
        → (append_run_events empty tally d p run es s).1 ≡ some error
        → Failed run s (append_run_events empty tally d p run es s).0
    unfolding append_run_events
    append_run_events_fails d p run error es s found h =
        let fresh = accept (accumulator_of empty tally run s) [] es in
        elim (Bool-cases (run == "")) [
          | inl loose ↦ rw loose (commit-Failed p run error fresh s found (rw loose at h))
          | inr named ↦ rw named (
              unless_deleted-Failed d run error s (commit_events empty tally p run fresh s) found
                (commit-Failed p run error fresh s found) (rw named at h))
        ]
