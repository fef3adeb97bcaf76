-- ===== src/Spool/Defs.antt =====
-- internal/agent/telemetry_spool.go: one file for each batch that an Agent has received, with the number of
-- its events that the Controller has acknowledged. `key` is telemetryKey, the hash of an event's JSON.
-- The disk's outcomes are values that the caller hands in.
use v.Common.{
  ℕ, suc, ◌+◌, ◌-◌, Bool, true, false, not, ◌&&◌, ◌||◌, Option, none, some, List, [], ◌∷◌, ◌++◌,
  String, ◌==◌, if◌then◌else◌, ltb, leb, nat_eq, length, take, drop, filter, map, sort_by, text_lt,
  Dict, lookup, insert, delete, or_zero,
}
use v.Model.{TraceEvent}

-- A segment: the events of its file, the acknowledgement in memory, and that of its `.ack` file, which is
-- 0 where there is none. An event is read back as it was written.
pub record Segment : Type 0 where
  pub name : String
  pub events : List TraceEvent
  pub ack : ℕ
  pub acked : ℕ

pub record Ref : Type 0 where
  pub segment : String
  pub index : ℕ

-- `files` are the segments in the order of their names, in which os.ReadDir lists them.
pub record Spool : Type 0 where
  pub files : List Segment
  pub refs : Dict (List Ref)

pub data SpoolError : Type 0 where
  invalid_ack out_of_order not_written not_removed : SpoolError
  no_segment : SpoolError

-- `refs[key]`.
abbrev pub refs_at : String → Dict (List Ref) → List Ref
refs_at k refs = or_zero [] (lookup k refs)

unfoldable pub is_invalid : List Segment → Bool
is_invalid [] = false
is_invalid (s ∷ files) = ltb (length s.events) s.ack || is_invalid files

unfoldable pub remove_ref : String → ℕ → List Ref → List Ref
remove_ref name i [] = []
remove_ref name i (r ∷ rest) =
    if r.segment == name && nat_eq r.index i then rest else r ∷ remove_ref name i rest

abbrev pub is_none : List Ref → Bool
is_none [] = true
is_none (r ∷ rest) = false

-- `writeTelemetryFile`: the file is written; it is not; or it has its name, but a sync failed.
pub data Write : Type 0 where
  kept lost renamed : Write

-- What the disk does for a segment: the write of the acknowledgement; is the file removed, that synced?
pub record Outcome : Type 0 where
  pub write : Write
  pub is_removed : Bool
  pub is_synced : Bool

-- A new file stands where its name belongs.
unfoldable pub insert_file : Segment → List Segment → List Segment
insert_file s [] = s ∷ []
insert_file s (t ∷ files) = if text_lt t.name s.name then t ∷ insert_file s files else s ∷ t ∷ files

-- The segments as they are read: the acknowledgement is that of the file.
unfoldable pub reopened : List Segment → List Segment
reopened [] = []
reopened (s ∷ files) = record s { ack = s.acked } ∷ reopened files

-- The events of the files that are not acknowledged.
unfoldable pub unacknowledged : List Segment → List TraceEvent
unacknowledged [] = []
unacknowledged (s ∷ files) = drop s.ack s.events ++ unacknowledged files

-- `refs[key]` without the reference, and without the key if none is left.
unfoldable pub drop_ref : String → String → ℕ → Dict (List Ref) → Dict (List Ref)
drop_ref k name i refs =
    let left = remove_ref name i (refs_at k refs) in
    if is_none left then delete k refs else insert k left refs

-- The sorted indices follow on `next` with no gap: where they end.
unfoldable pub run_of_indices : ℕ → List ℕ → Option ℕ
run_of_indices next [] = some next
run_of_indices next (i ∷ rest) =
    let more = run_of_indices (suc next) rest in if nat_eq i next then more else none

unfoldable pub indices_of : String → List Ref → List ℕ
indices_of name selected =
    sort_by ltb (map (λ r. r.index) (filter (λ r. r.segment == name) selected))

unfoldable pub find_segment : String → List Segment → Option Segment
find_segment name [] = none
find_segment name (s ∷ files) = if s.name == name then some s else find_segment name files

unfoldable pub set_ack : String → ℕ → List Segment → List Segment
set_ack name n [] = []
set_ack name n (s ∷ files) =
    if s.name == name then record s { ack = n } ∷ files else s ∷ set_ack name n files

unfoldable pub set_acked : String → ℕ → List Segment → List Segment
set_acked name n [] = []
set_acked name n (s ∷ files) =
    if s.name == name then record s { acked = n } ∷ files else s ∷ set_acked name n files

unfoldable pub remove_file : String → List Segment → List Segment
remove_file name [] = []
remove_file name (s ∷ files) = if s.name == name then files else s ∷ remove_file name files

-- A segment that is acknowledged as a whole is removed.
unfoldable pub finish : Outcome → Segment → ℕ → Spool → Spool × Option SpoolError
finish o s next sp =
    if not (nat_eq next (length s.events))
    then (sp, none)
    else if not o.is_removed
    then (sp, some not_removed)
    else (
      record sp { files = remove_file s.name sp.files },
      if o.is_synced then none else some not_removed,
    )

module _ (key : TraceEvent → String) where
  -- The loop over the events of a segment, from index `i` on: those behind `ack` get a reference.
  unfoldable pub add_refs : String → ℕ → ℕ → List TraceEvent → Dict (List Ref) → Dict (List Ref)
  add_refs name i ack [] refs = refs
  add_refs name i ack (e ∷ es) refs = add_refs name (suc i) ack es (
      if leb ack i
      then insert (key e) (refs_at (key e) refs ++ (record { segment = name; index = i } ∷ [])) refs
      else refs)

  unfoldable pub load : List Segment → Dict (List Ref) → Dict (List Ref)
  load [] refs = refs
  load (s ∷ files) refs = load files (add_refs s.name 0 s.ack s.events refs)

  -- `openTelemetrySpool`, given the files that it lists.
  unfoldable pub open_spool : List Segment → Option (Spool × List TraceEvent)
  unfolding reopened
  open_spool listed =
      let files = reopened listed in
      if is_invalid files
      then none
      else some (record { files = files; refs = load files [] }, unacknowledged files)

  -- `append`.
  unfoldable pub append : Write → String → List TraceEvent → Spool → Spool × Option SpoolError
  append w name [] sp = (sp, none)
  append lost name (e ∷ es) sp = (sp, some not_written)
  append renamed name (e ∷ es) sp =
      let s : Segment = record { name = name; events = e ∷ es; ack = 0; acked = 0 } in
      (record sp { files = insert_file s sp.files }, some not_written)
  append kept name (e ∷ es) sp =
      let s : Segment = record { name = name; events = e ∷ es; ack = 0; acked = 0 } in
      (record { files = insert_file s sp.files; refs = add_refs name 0 0 (e ∷ es) sp.refs }, none)

  -- The references of `refs` that the events select, `used` of which are taken for each key.
  unfoldable pub select_refs : Dict (List Ref) → Dict ℕ → List TraceEvent → List Ref
  select_refs refs used [] = []
  select_refs refs used (e ∷ es) =
      let n = or_zero 0 (lookup (key e) used) in
      let skipped = select_refs refs used es in
      elim (drop n (refs_at (key e) refs)) [
        | [] ↦ skipped
        | r ∷ others ↦ r ∷ select_refs refs (insert (key e) (n + 1) used) es
      ]

  -- The loop over the acknowledged events, of which the first has index `i`.
  unfoldable pub forget : String → ℕ → List TraceEvent → Dict (List Ref) → Dict (List Ref)
  forget name i [] refs = refs
  forget name i (e ∷ es) refs = forget name (suc i) es (drop_ref (key e) name i refs)

  -- A segment is acknowledged up to `next` in memory.
  unfoldable pub advance : Segment → ℕ → Spool → Spool
  advance s next sp = record {
    files = set_ack s.name next sp.files;
    refs = forget s.name s.ack (take (next - s.ack) (drop s.ack s.events)) sp.refs;
  }

  -- What follows the write of the acknowledgement.
  unfoldable pub acknowledge_segment :
      Outcome → Write → Segment → ℕ → Spool → Spool × Option SpoolError
  acknowledge_segment o lost s next sp = (sp, some not_written)
  acknowledge_segment o renamed s next sp =
      (record sp { files = set_acked s.name next sp.files }, some not_written)
  acknowledge_segment o kept s next sp =
      let s' : Segment = record s { acked = next } in
      finish o s' next (advance s' next (record sp { files = set_acked s.name next sp.files }))

  unfoldable pub settle : Outcome → List Ref → Spool → Segment → Spool × Option SpoolError
  settle o selected sp s = elim (run_of_indices s.ack (indices_of s.name selected)) [
    | none ↦ (sp, some out_of_order)
    | some next ↦ acknowledge_segment o o.write s next sp
  ]

  -- The loop over the segments that are selected, in the order `names` of Go's map. A reference holds
  -- its segment, so that it is found.
  unfoldable pub settle_all :
      (String → Outcome) → List String → List Ref → Spool → Spool × Option SpoolError
  settle_all outcome [] selected sp = (sp, none)
  settle_all outcome (name ∷ names) selected sp = elim (find_segment name sp.files) [
    | none ↦ (sp, some no_segment)
    | some s ↦
        let step = settle (outcome name) selected sp s in
        let rest = settle_all outcome names selected step.0 in
        elim step.1 [ some e ↦ (step.0, some e) | none ↦ rest ]
  ]

  -- `acknowledge`.
  unfoldable pub acknowledge :
      (String → Outcome) → List String → List TraceEvent → Spool → Spool × Option SpoolError
  acknowledge outcome names events sp = settle_all outcome names (select_refs sp.refs [] events) sp
