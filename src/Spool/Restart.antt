-- ===== src/Spool/Restart.antt =====
-- internal/agent/telemetry_spool.go: an Agent that restarts finds the references that it had.
use mathlib.Core.List.{append_assoc, append-nil}
use mathlib.Core.Path.{subst}
use mathlib.Core.Option.{some-injective}
use v.Common.{
  ℕ, zero, suc, ◌+◌, ◌-◌, ◌≤◌, ◌<◌, ◌≡◌, ◌≢◌, text_lt, All, refl, sym, ap, ◌∙◌, Bool, true, false,
  not, ◌&&◌, ◌||◌, inl, inr, Option, none, some, Option-cases, List, [], ◌∷◌, ◌++◌, String, ◌==◌,
  str_eq_iff, str_eq_refl, if◌then◌else◌, leb, nat_eq, Bool-cases, length, take, drop, All, Dict,
  arith,
}
use v.Model.{TraceEvent}
use v.Spool.Defs.{
  Write, kept, lost, renamed, reopened, Segment, Spool, refs_at, is_invalid, load, unacknowledged,
  open_spool, append, select_refs, Outcome, acknowledge,
}
use v.Spool.Refs.{segment_refs, refs_in, refs_at-add_refs, refs_at-load}
use v.Spool.Synced.{
  AreSynced, IsLast, insert_file-last, AreSynced-snoc, reopened-AreSynced, reopened_synced, Kept,
  settle_all-Kept,
}

-- What an Agent does with its spool: it keeps a batch that it has received, or the acknowledgement of one.
pub data SpoolStep : Type 0 where
  received : Write → String → List TraceEvent → SpoolStep
  delivered : (String → Outcome) → List String → List TraceEvent → SpoolStep

module _ (key : TraceEvent → String) where
  unfoldable pub take_step : SpoolStep → Spool → Spool
  take_step (received w name events) sp = (append key w name events sp).0
  take_step (delivered outcome names events) sp = (acknowledge key outcome names events sp).0

  unfoldable pub take_steps : List SpoolStep → Spool → Spool
  take_steps [] sp = sp
  take_steps (s ∷ steps) sp = take_steps steps (take_step s sp)

  -- No write fails once its file has its name, and a new file's name comes after the others.
  abbrev pub IsOrderly : List SpoolStep → Spool → Type 0
  IsOrderly [] sp = Unit
  IsOrderly (received w name events ∷ steps) sp =
      (w ≢ renamed) × IsLast name sp.files × IsOrderly steps (take_step (received w name events) sp)
  IsOrderly (delivered outcome names events ∷ steps) sp =
      ((name : String) → (outcome name).write ≢ renamed)
      × IsOrderly steps (take_step (delivered outcome names events) sp)

  refs_in-snoc :
      (k : String) (s : Segment) (files : List Segment)
      → refs_in key k (files ++ (s ∷ []))
        ≡ refs_in key k files ++ segment_refs key k s.name 0 s.ack s.events
  unfolding refs_in
  refs_in-snoc k s [] = append-nil (segment_refs key k s.name 0 s.ack s.events)
  refs_in-snoc k s (t ∷ files) =
      let own = segment_refs key k t.name 0 t.ack t.events in
      let new = segment_refs key k s.name 0 s.ack s.events in
      ap (λ l. own ++ l) (refs_in-snoc k s files) ∙ sym (append_assoc own (refs_in key k files) new)

  append-Kept :
      (w : Write) (name : String) (events : List TraceEvent) (sp : Spool)
      → w ≢ renamed
      → IsLast name sp.files
      → Kept key (sp, none)
      → Kept key (append key w name events sp)
  unfolding append
  append-Kept w name [] sp c l a = a
  append-Kept lost name (e ∷ es) sp c l a = a
  append-Kept renamed name (e ∷ es) sp c l a = absurd (c refl)
  append-Kept kept name (e ∷ es) sp c l a =
      let s : Segment = record { name = name; events = e ∷ es; ack = 0; acked = 0 } in
      let placed = insert_file-last s sp.files l in
      (
        (λ k.
            refs_at-add_refs key k name 0 0 (e ∷ es) sp.refs
            ∙ ap (λ l. l ++ segment_refs key k name 0 0 (e ∷ es)) (a.0 k)
            ∙ sym (refs_in-snoc k s sp.files)
            ∙ sym (ap (refs_in key k) placed)),
        subst AreSynced (sym placed) (AreSynced-snoc s sp.files refl a.1),
      )

  take_steps-Kept :
      (steps : List SpoolStep) (sp : Spool)
      → IsOrderly steps sp
      → Kept key (sp, none)
      → Kept key (take_steps steps sp, none)
  unfolding take_steps take_step acknowledge
  take_steps-Kept [] sp o a = a
  take_steps-Kept (received w name events ∷ steps) sp o a =
      take_steps-Kept steps (append key w name events sp).0 o.2
        (append-Kept w name events sp o.0 o.1 a)
  take_steps-Kept (delivered outcome names events ∷ steps) sp o a =
      let selected = select_refs key sp.refs [] events in
      take_steps-Kept steps (acknowledge key outcome names events sp).0 o.1
        (settle_all-Kept key outcome names selected sp o.0 a)

  -- Once a spool has been opened, take any sequence of batches kept and batches acknowledged, the segments of
  -- a batch in any order, where the disk may refuse writes and removals, but no write fails after its file
  -- has its name, and the name of each new file comes after those that are there. Then, for every key, the
  -- references that reading the files again would give are those in memory, in the same order.
  pub load-take_steps :
      (files : List Segment) (opened : Spool × List TraceEvent)
      → open_spool key files ≡ some opened
      → (steps : List SpoolStep) → IsOrderly steps opened.0
      → (k : String)
      → refs_at k (load key (reopened (take_steps steps opened.0).files) [])
        ≡ refs_at k (take_steps steps opened.0).refs
  unfolding open_spool refs_in v.Common.lookup
  load-take_steps files opened h steps o k = elim (Bool-cases (is_invalid (reopened files))) [
    | inl bad ↦ absurd (ground (arith, h, bad))
    | inr ok ↦
        let listed = reopened files in
        let start : Spool = record { files = listed; refs = load key listed [] } in
        let same : (start, unacknowledged listed) ≡ opened =
          some-injective (start, unacknowledged listed) opened (ground (arith, h, ok)) in
        let fresh : Kept key (start, none) =
          ((λ j. refs_at-load key j listed []), reopened_synced files) in
        let begun = subst (λ (x : Spool × List TraceEvent). Kept key (x.0, none)) same fresh in
        let after = take_steps steps opened.0 in
        let end = take_steps-Kept steps opened.0 o begun in
        ap (λ l. refs_at k (load key l [])) (reopened-AreSynced after.files end.1)
        ∙ refs_at-load key k after.files []
        ∙ sym (end.0 k)
  ]
