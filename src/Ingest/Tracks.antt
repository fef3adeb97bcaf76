-- ===== src/Ingest/Tracks.antt =====
-- internal/controller/state.go: what the files and the accumulators of the runs have in common, and that
-- events that are written and counted keep it.
use mathlib.Core.Path.{subst}
use v.Common.{
  ◌≡◌, sym, ◌∙◌, false, inl, inr, Option-cases, List, [], ◌∷◌, ◌++◌, String, ◌==◌, str_eq_iff,
  if◌then◌else◌, Bool-cases, All, lookup, lookup-insert,
}
use v.Model.{TraceEvent}
use v.Ingest.Defs.{Accumulator, has_event}
use v.Ingest.Store.{
  synced, Store, safe_name, record_run_write_error, accumulator_of, log_of, observe_all,
  count_events, persist_events,
}
use v.Ingest.Identity.{AreNormal}
use v.Ingest.Accepted.{
  known, known-append, Unlike, append-Unlike, Accepted, observe_all-AreNormal,
  observe_all-has_event,
}

-- The accumulator knows the events of the file and no others, and none of them stands there twice.
pub record Tracks {C : Type 0} (a : Accumulator C) (log : List TraceEvent) : Type 0 where
  pub normal : AreNormal a.sequences
  pub exact : (e : TraceEvent) → has_event a e ≡ known log e
  pub once : Unlike log

-- Two runs have one file only if they are one.
abbrev pub OwnFiles : String → String → Type 0
OwnFiles run r = (safe_name run == safe_name r) ≡ (run == r)

module _ {C : Type 0} (empty : C) (tally : TraceEvent → C → C) where
  abbrev pub IsExact : String → Store C → Type 0
  IsExact run s = Tracks (accumulator_of empty tally run s) (log_of empty tally run s)

  -- The runs of the store; telemetry of no run is kept in memory only.
  abbrev pub AreExact : Store C → Type 0
  AreExact s = (run : String) → (run == "") ≡ false → IsExact run s

  unknown-known :
      {a : Accumulator C} {log : List TraceEvent} (es : List TraceEvent)
      → Tracks a log
      → All (λ e. has_event a e ≡ false) es
      → All (λ e. known log e ≡ false) es
  unknown-known [] h u = tt
  unknown-known (e ∷ es) h u = (sym (h.exact e) ∙ u.0, unknown-known es h u.1)

  observe_all-Tracks :
      (a : Accumulator C) (log es : List TraceEvent)
      → Accepted a [] es
      → Tracks a log
      → Tracks (observe_all empty tally es a) (log ++ es)
  observe_all-Tracks a log es c h = record {
    normal = observe_all-AreNormal empty tally es a c.words h.normal;
    exact = λ e.
        let seen = observe_all-has_event empty tally es a e c.words h.normal in
        rw (seen, known-append log es e, h.exact e);
    once = append-Unlike log es h.once c.unlike (unknown-known es h c.unknown);
  }

  -- A failure is noted on the run alone.
  error-metrics :
      (id e : String) (s : Store C) → (record_run_write_error id e s).run_metrics ≡ s.run_metrics
  unfolding record_run_write_error
  error-metrics id e s = elim (Option-cases (lookup id s.experiments)) [
    | inl unknown ↦ rw (unknown, record_run_write_error)
    | inr (r, found) ↦ rw (found, record_run_write_error)
  ]

  error-logs : (id e : String) (s : Store C) → (record_run_write_error id e s).logs ≡ s.logs
  unfolding record_run_write_error
  error-logs id e s = elim (Option-cases (lookup id s.experiments)) [
    | inl unknown ↦ rw (unknown, record_run_write_error)
    | inr (r, found) ↦ rw (found, record_run_write_error)
  ]

  pub error-IsExact :
      (run id e : String) (s : Store C)
      → IsExact run s
      → IsExact run (record_run_write_error id e s)
  error-IsExact run id e s h = rw (error-metrics id e s, error-logs id e s) h

  -- The store after the events of a run are written and counted.
  unfoldable pub written : String → List TraceEvent → Store C → Store C
  written run es s = count_events empty tally run es (persist_events empty tally synced run es s)

  written-metrics :
      (run r : String) (es : List TraceEvent) (s : Store C)
      → accumulator_of empty tally r (written run es s) ≡ (
          if run == r
          then observe_all empty tally es (accumulator_of empty tally run s)
          else accumulator_of empty tally r s)
  unfolding written count_events persist_events
  written-metrics run r es s =
      let l =
        lookup-insert run r (observe_all empty tally es (accumulator_of empty tally run s))
          s.run_metrics in
      rw l (elim (Bool-cases (run == r)) [ inl e ↦ rw e | inr e ↦ rw e ])

  pub written-log :
      (run r : String) (es : List TraceEvent) (s : Store C)
      → OwnFiles run r
      → log_of empty tally r (written run es s)
        ≡ (if run == r then log_of empty tally run s ++ es else log_of empty tally r s)
  unfolding written count_events persist_events
  written-log run r es s own =
      let l = lookup-insert (safe_name run) (safe_name r) (log_of empty tally run s ++ es) s.logs in
      rw (l, own) (elim (Bool-cases (run == r)) [ inl e ↦ rw e | inr e ↦ rw e ])

  pub written-IsExact :
      (run r : String) (es : List TraceEvent) (s : Store C)
      → OwnFiles run r
      → Accepted (accumulator_of empty tally run s) [] es
      → IsExact r s
      → IsExact r (written run es s)
  written-IsExact run r es s own c h = elim (Bool-cases (run == r)) [
    | inr other ↦ rw (written-metrics run r es s, written-log run r es s own, other) h
    | inl same ↦
        let here = subst (λ x. IsExact x s) (sym ((str_eq_iff run r).0 same)) h in
        rw (written-metrics run r es s, written-log run r es s own, same)
          (observe_all-Tracks (accumulator_of empty tally run s) (log_of empty tally run s) es c
            here)
  ]
