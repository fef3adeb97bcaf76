-- ===== src/Ingest/Known.antt =====
-- internal/controller/state.go: the record of a run stays, and says so when its events could not be stored.
use v.Common.{
  ◌≡◌, ◌≢◌, refl, ◌∙◌, insert, none, some, str_eq_refl, false, inl, inr, Option, Option-cases, List,
  [], ◌∷◌, String, ◌==◌, Bool-cases, lookup, lookup-insert, arith,
}
use v.Experiments.Defs.{Experiment}
use v.Model.{TraceEvent}
use v.Ingest.Store.{
  Deletion, deleted, present, unreadable, Persisted, synced, torn, undone, unsynced, Store, accept,
  accumulator_of, count_events, persist_events, commit_events, unless_deleted, append_run_events,
  record_run_write_error, mark_incomplete, safe_name,
}
use v.Ingest.Tracks.{IsExact, OwnFiles}

-- The run's record says that its data are incomplete.
abbrev pub IsMarked : {C : Type 0} → String → Store C → Type 0
IsMarked r s = (x : Experiment) × (lookup r s.experiments ≡ some x) × (x.data_state ≡ "incomplete")

abbrev pub IsKnown : {C : Type 0} → String → Store C → Type 0
IsKnown r s = lookup r s.experiments ≢ none

module _ {C : Type 0} (empty : C) (tally : TraceEvent → C → C) where
  pub persist-experiments :
      (p : Persisted) (run : String) (es : List TraceEvent) (s : Store C)
      → (persist_events empty tally p run es s).experiments ≡ s.experiments
  unfolding persist_events
  persist-experiments synced run es s = refl
  persist-experiments (undone e) run es s = refl
  persist-experiments (torn n e) run es s = refl
  persist-experiments (unsynced e) run es s = refl

  pub error-marks :
      (run e : String) (s : Store C) → IsKnown run s → IsMarked run (record_run_write_error run e s)
  unfolding record_run_write_error mark_incomplete
  error-marks run e s k = elim (Option-cases (lookup run s.experiments)) [
    | inl unknown ↦ absurd (k unknown)
    | inr (x, found) ↦
        rw (found, record_run_write_error)
          (
            mark_incomplete e x,
            lookup-insert run run (mark_incomplete e x) s.experiments ∙ rw (str_eq_refl run) refl,
            refl,
          )
  ]

  error-IsKnown :
      (run r e : String) (s : Store C) → IsKnown r s → IsKnown r (record_run_write_error run e s)
  unfolding record_run_write_error
  error-IsKnown run r e s k = elim (Option-cases (lookup run s.experiments)) [
    | inl unknown ↦ rw (unknown, record_run_write_error) k
    | inr (x, found) ↦
        rw (found, record_run_write_error)
          (λ h. ground (arith, lookup-insert run r (mark_incomplete e x) s.experiments, h, k))
  ]

  commit-IsKnown :
      (p : Persisted) (run r : String) (es : List TraceEvent) (s : Store C)
      → IsKnown r s
      → IsKnown r (commit_events empty tally p run es s).0
  unfolding commit_events persist_events count_events
  commit-IsKnown p run r [] s k = k
  commit-IsKnown synced run r (e ∷ es) s k = elim (Bool-cases (run == "")) [
    | inl loose ↦ rw loose k
    | inr named ↦ rw named k
  ]
  commit-IsKnown (undone error) run r (e ∷ es) s k = elim (Bool-cases (run == "")) [
    | inl loose ↦ rw loose k
    | inr named ↦ rw named (error-IsKnown run r error _ k)
  ]
  commit-IsKnown (torn n error) run r (e ∷ es) s k = elim (Bool-cases (run == "")) [
    | inl loose ↦ rw loose k
    | inr named ↦ rw named (error-IsKnown run r error _ k)
  ]
  commit-IsKnown (unsynced error) run r (e ∷ es) s k = elim (Bool-cases (run == "")) [
    | inl loose ↦ rw loose k
    | inr named ↦ rw named (error-IsKnown run r error _ k)
  ]

  unless_deleted-IsKnown :
      (d : Deletion) (run r : String) (s : Store C) (commit : Store C × Option String)
      → IsKnown r s
      → IsKnown r commit.0
      → IsKnown r (unless_deleted empty tally d run s commit).0
  unfolding unless_deleted
  unless_deleted-IsKnown present run r s commit k c = c
  unless_deleted-IsKnown deleted run r s commit k c = k
  unless_deleted-IsKnown (unreadable error) run r s commit k c = error-IsKnown run r error s k

  pub append_run_events-IsKnown :
      (d : Deletion) (p : Persisted) (run r : String) (es : List TraceEvent) (s : Store C)
      → IsKnown r s
      → IsKnown r (append_run_events empty tally d p run es s).0
  unfolding append_run_events
  append_run_events-IsKnown d p run r es s k =
      let fresh = accept (accumulator_of empty tally run s) [] es in
      let committed = commit-IsKnown p run r fresh s k in
      elim (Bool-cases (run == "")) [
        | inl loose ↦ rw loose committed
        | inr named ↦ rw named (unless_deleted-IsKnown d run r s _ k committed)
      ]

  log-other :
      (run r : String) (log : List TraceEvent) (s : Store C)
      → OwnFiles run r
      → (run == r) ≡ false
      → IsExact empty tally r s
      → IsExact empty tally r (record s { logs = insert (safe_name run) log s.logs })
  log-other run r log s own other h =
      rw (lookup-insert (safe_name run) (safe_name r) log s.logs, own, other) h

  -- A write to the file of one run leaves the others exact.
  pub persist-other :
      (p : Persisted) (run r : String) (es : List TraceEvent) (s : Store C)
      → OwnFiles run r
      → (run == r) ≡ false
      → IsExact empty tally r s
      → IsExact empty tally r (persist_events empty tally p run es s)
  unfolding persist_events
  persist-other synced run r es s own other h = log-other run r _ s own other h
  persist-other (undone e) run r es s own other h = h
  persist-other (torn n e) run r es s own other h = log-other run r _ s own other h
  persist-other (unsynced e) run r es s own other h = log-other run r _ s own other h
