-- ===== src/Ingest/Store.antt =====
-- internal/controller/state.go: `appendEvents` and `appendRunEvents`.
-- internal/controller/run_integrity.go: `recordRunWriteError`.
-- What the disk does is a value that the caller hands in; `String` stands for the text of an error.
use v.Common.{
  ℕ, ◌-◌, Bool, not, ◌&&◌, ◌||◌, leb, nat_eq, Option, none, some, List, [], ◌∷◌, ◌++◌, String, ◌==◌,
  if◌then◌else◌, ltb, length, drop, take, filter, map, Dict, lookup, insert, or_zero, add,
}
use Prim.Native.Char.{code}
use Prim.Native.String.{◌++◌ as text_append}
use v.Model.{Time, is_zero, TraceEvent, EventBatch}
use v.Experiments.Defs.{Experiment}
use v.Ingest.Defs.{Codes, is_empty, event_identity, contains_codes, Accumulator, has_event, observe}

-- `resultDeletedLocked`.
pub data Deletion : Type 0 where
  present deleted : Deletion
  unreadable : String → Deletion

-- `persistEventsLocked`: the events are on disk and synced; they are not on disk; a part of them may
-- be, since a failed write was not undone; or they are on disk and a later sync or close failed.
pub data Persisted : Type 0 where
  synced : Persisted
  undone : String → Persisted
  torn : ℕ → String → Persisted
  unsynced : String → Persisted

abbrev pub recent_event_limit : ℕ
recent_event_limit = 300

-- The fields of `state` that take part; `logs` are the files events.jsonl, under the
-- name of their directory.
pub record Store (C : Type 0) : Type 0 where
  pub run_metrics : Dict (Accumulator C)
  pub recent : List TraceEvent
  pub logs : Dict (List TraceEvent)
  pub experiments : Dict Experiment
  pub failed_run_writes : List String

abbrev is_name_code : ℕ → Bool
is_name_code c =
    (leb b'a' c && leb c b'z')
    || (leb b'A' c && leb c b'Z')
    || (leb b'0' c && leb c b'9')
    || nat_eq c b'-'
    || nat_eq c b'_'

abbrev safe_chars : String → String
safe_chars String.[] = String.[]
safe_chars (String.◌∷◌ c s) =
    let rest = safe_chars s in String.◌∷◌ (if is_name_code (code c) then c else "_") rest

-- `safeName`, by which a run's directory is called.
unfoldable pub safe_name : String → String
safe_name s = if safe_chars s == "" then "unnamed" else safe_chars s

-- The run after a failed write.
unfoldable pub mark_incomplete : String → Experiment → Experiment
mark_incomplete e run =
    let error =
      if run.integrity_error == ""
      then text_append "Result recording failed: " e
      else run.integrity_error in
    let failed = run.state == "completed" in
    record run {
      integrity_error = error;
      data_state = "incomplete";
      state = if failed then "failed" else run.state;
      error = if failed then error else run.error;
    }

-- `append(s.events, accepted...)`, cut to the last 300.
unfoldable pub keep_recent : List TraceEvent → List TraceEvent
keep_recent es =
    if ltb recent_event_limit (length es) then drop (length es - recent_event_limit) es else es

-- What `appendEvents` fills in.
unfoldable pub complete_event : Time → String → TraceEvent → TraceEvent
complete_event now agent e = record e {
  agent_id = if e.agent_id == "" then agent else e.agent_id;
  timestamp = if is_zero e.timestamp && not (e.type == "bandwidth") then now else e.timestamp;
}

module _ {C : Type 0} where
  -- `recordRunWriteError`.
  unfoldable pub record_run_write_error : String → String → Store C → Store C
  unfolding mark_incomplete
  record_run_write_error id e s = elim (lookup id s.experiments) [
    | none ↦ s
    | some run ↦ record s {
      experiments = insert id (mark_incomplete e run) s.experiments;
      failed_run_writes = add id s.failed_run_writes;
    }
  ]

  -- The loop that leaves out the events that were observed, or stand in the batch before.
  unfoldable pub accept : Accumulator C → List Codes → List TraceEvent → List TraceEvent
  accept a pending [] = []
  accept a pending (e ∷ es) =
      let skipped = accept a pending es in
      let anonymous = e ∷ accept a pending es in
      let identified = e ∷ accept a (event_identity e ∷ pending) es in
      if has_event a e
      then skipped
      else if is_empty (event_identity e)
      then anonymous
      else if contains_codes (event_identity e) pending
      then skipped
      else identified

  module _ (empty : C) (tally : TraceEvent → C → C) where
    abbrev pub new_accumulator : Accumulator C
    new_accumulator = record { seen = []; sequences = []; revision = 0; statistics = empty }

    abbrev pub accumulator_of : String → Store C → Accumulator C
    accumulator_of run s = or_zero new_accumulator (lookup run s.run_metrics)

    abbrev pub log_of : String → Store C → List TraceEvent
    log_of run s = or_zero [] (lookup (safe_name run) s.logs)

    unfoldable pub observe_all : List TraceEvent → Accumulator C → Accumulator C
    observe_all [] a = a
    observe_all (e ∷ es) a = observe_all es (observe tally e a)

    -- What `appendRunEvents` does once the events are persisted.
    unfoldable pub count_events : String → List TraceEvent → Store C → Store C
    count_events run accepted s = record s {
      run_metrics = insert run (observe_all accepted (accumulator_of run s)) s.run_metrics;
      recent = keep_recent (s.recent ++ accepted);
    }

    -- The events that the disk took are at the end of the run's file.
    unfoldable pub persist_events : Persisted → String → List TraceEvent → Store C → Store C
    persist_events synced run es s = record s {
      logs = insert (safe_name run) (log_of run s ++ es) s.logs;
    }
    persist_events (undone e) run es s = s
    persist_events (torn n e) run es s = record s {
      logs = insert (safe_name run) (log_of run s ++ take n es) s.logs;
    }
    persist_events (unsynced e) run es s = record s {
      logs = insert (safe_name run) (log_of run s ++ es) s.logs;
    }

    abbrev pub persist_error : Persisted → Option String
    persist_error synced = none
    persist_error (undone e) = some e
    persist_error (torn n e) = some e
    persist_error (unsynced e) = some e

    -- The accepted events are persisted, unless they belong to no run, and then counted.
    unfoldable pub commit_events :
        Persisted → String → List TraceEvent → Store C → Store C × Option String
    commit_events p run [] s = (s, none)
    commit_events p run (e ∷ es) s =
        if run == ""
        then (count_events run (e ∷ es) s, none)
        else let written = persist_events p run (e ∷ es) s in
          elim (persist_error p) [
            | some error ↦ (record_run_write_error run error written, some error)
            | none ↦ (count_events run (e ∷ es) written, none)
          ]

    -- A run that is deleted takes no events, and a marker that cannot be read is a failure.
    unfoldable pub unless_deleted :
        Deletion → String → Store C → Store C × Option String → Store C × Option String
    unless_deleted present run s commit = commit
    unless_deleted deleted run s commit = (s, none)
    unless_deleted (unreadable error) run s commit =
        (record_run_write_error run error s, some error)

    -- `appendRunEvents`.
    unfoldable pub append_run_events :
        Deletion → Persisted → String → List TraceEvent → Store C → Store C × Option String
    append_run_events d p run es s =
        let commit = commit_events p run (accept (accumulator_of run s) [] es) s in
        if run == "" then commit else unless_deleted d run s commit

    -- The loop of `appendEvents` over the runs of a batch, in the order `runs` of Go's map.
    unfoldable pub append_each :
        (String → Deletion)
        → (String → Persisted)
        → List String
        → List TraceEvent
        → Store C
        → Store C × Option String
    append_each d p [] es s = (s, none)
    append_each d p (run ∷ runs) es s =
        let (s', error) =
          append_run_events (d run) (p run) run (filter (λ e. e.run_id == run) es) s in
        let rest = append_each d p runs es s' in elim error [ some e ↦ (s', some e) | none ↦ rest ]

  -- `appendEvents`.
  unfoldable pub append_events :
      C
      → (TraceEvent → C → C)
      → Time
      → (String → Deletion)
      → (String → Persisted)
      → List String
      → EventBatch
      → Store C
      → Store C × Option String
  append_events empty tally now d p runs batch s =
      append_each empty tally d p runs (map (complete_event now batch.agent_id) batch.events) s
