-- ===== src/Ingest/Stored.antt =====
-- internal/controller/state.go: no event that the Controller acknowledges is missing from the run's file.
use mathlib.Core.List.{append-nil}
use mathlib.Core.Path.{subst}
use v.Common.{
  ◌≡◌, sym, ◌∙◌, true, false, ◌||◌, inl, inr, List, [], ◌∷◌, ◌++◌, String, ◌==◌, Bool-cases, All,
  str_eq_refl, arith,
}
use v.Model.{TraceEvent}
use v.Ingest.Defs.{Codes, is_empty, event_identity, contains_codes, Accumulator, has_event}
use v.Ingest.Store.{
  safe_name, present, synced, Store, accept, accumulator_of, log_of, commit_events, unless_deleted,
  append_run_events,
}
use v.Ingest.Identity.{codes_eq_refl, sequenced-not_empty}
use v.Ingest.Numbered.{IsNumbered}
use v.Ingest.Accepted.{known}
use v.Ingest.Tracks.{IsExact, written, written-log}
use v.Ingest.Held.{
  has_text, HasEvent, HasEvent-left, HasEvent-right, has_text-HasEvent, known-HasEvent,
}

module _ {C : Type 0} where
  -- The event has no identity, was observed, is pending, or is accepted under its text.
  abbrev IsCovered : Accumulator C → List Codes → List TraceEvent → TraceEvent → Type 0
  IsCovered a pending out e =
      (is_empty (event_identity e)
        || (has_event a e || (contains_codes (event_identity e) pending || has_text out e)))
      ≡ true

  more-IsCovered :
      (a : Accumulator C) (pending : List Codes) (x : TraceEvent) (out es : List TraceEvent)
      → All (IsCovered a pending out) es
      → All (IsCovered a pending (x ∷ out)) es
  unfolding has_text
  more-IsCovered a pending x out [] h = tt
  more-IsCovered a pending x out (e ∷ es) h =
      (ground (arith, h.0), more-IsCovered a pending x out es h.1)

  pending-IsCovered :
      (a : Accumulator C) (pending : List Codes) (x : TraceEvent) (out es : List TraceEvent)
      → All (IsCovered a (event_identity x ∷ pending) out) es
      → All (IsCovered a pending (x ∷ out)) es
  unfolding has_text contains_codes
  pending-IsCovered a pending x out [] h = tt
  pending-IsCovered a pending x out (e ∷ es) h =
      (ground (arith, h.0), pending-IsCovered a pending x out es h.1)

  module _ (a : Accumulator C) (pending : List Codes) (e : TraceEvent) (es : List TraceEvent) where
    accept_old : has_event a e ≡ true → accept a pending (e ∷ es) ≡ accept a pending es
    unfolding accept
    accept_old old = rw old

    module _ (new : has_event a e ≡ false) where
      accept_anonymous :
          is_empty (event_identity e) ≡ true → accept a pending (e ∷ es) ≡ e ∷ accept a pending es
      unfolding accept
      accept_anonymous anonymous = rw (new, anonymous)

      module _ (named : is_empty (event_identity e) ≡ false) where
        accept_twice :
            contains_codes (event_identity e) pending ≡ true
            → accept a pending (e ∷ es) ≡ accept a pending es
        unfolding accept
        accept_twice twice = rw (new, named, twice)

        accept_once :
            contains_codes (event_identity e) pending ≡ false
            → accept a pending (e ∷ es) ≡ e ∷ accept a (event_identity e ∷ pending) es
        unfolding accept
        accept_once once = rw (new, named, once)

  accept-covers :
      (a : Accumulator C) (pending : List Codes) (es : List TraceEvent)
      → All (IsCovered a pending (accept a pending es)) es
  accept-covers a pending [] = tt
  accept-covers a pending (e ∷ es) =
      let rest = accept-covers a pending es in
      elim (Bool-cases (has_event a e)) [
        | inl old ↦
            subst (λ out. All (IsCovered a pending out) (e ∷ es))
              (sym (accept_old a pending e es old)) (ground (arith, old), rest)
        | inr new ↦ elim (Bool-cases (is_empty (event_identity e))) [
          | inl anonymous ↦
              subst (λ out. All (IsCovered a pending out) (e ∷ es))
                (sym (accept_anonymous a pending e es new anonymous))
                (
                  ground (arith, anonymous),
                  more-IsCovered a pending e (accept a pending es) es rest,
                )
          | inr named ↦ elim (Bool-cases (contains_codes (event_identity e) pending)) [
            | inl twice ↦
                subst (λ out. All (IsCovered a pending out) (e ∷ es))
                  (sym (accept_twice a pending e es new named twice)) (ground (arith, twice), rest)
            | inr once ↦
                let next = event_identity e ∷ pending in
                let own = codes_eq_refl (event_identity e) in
                subst (λ out. All (IsCovered a pending out) (e ∷ es))
                  (sym (accept_once a pending e es new named once))
                  (
                    unfold has_text in ground (arith, own),
                    pending-IsCovered a pending e (accept a next es) es (accept-covers a next es),
                  )
          ]
        ]
      ]

  accept-IsNumbered :
      (a : Accumulator C) (pending : List Codes) (es : List TraceEvent)
      → All IsNumbered es
      → All IsNumbered (accept a pending es)
  unfolding accept
  accept-IsNumbered a pending [] p = tt
  accept-IsNumbered a pending (e ∷ es) p =
      let skipped = accept-IsNumbered a pending es p.1 in
      let kept = accept-IsNumbered a (event_identity e ∷ pending) es p.1 in
      elim (Bool-cases (has_event a e)) [
        | inl old ↦ rw old skipped
        | inr new ↦ elim (Bool-cases (is_empty (event_identity e))) [
          | inl none_given ↦ rw (new, none_given) (p.0, skipped)
          | inr named ↦ elim (Bool-cases (contains_codes (event_identity e) pending)) [
            | inl twice ↦ rw (new, named, twice) skipped
            | inr once ↦ rw (new, named, once) (p.0, kept)
          ]
        ]
      ]

  module _ (empty : C) (tally : TraceEvent → C → C) where
    -- The file after a batch of the run is stored.
    stored-log :
        (run : String) (es : List TraceEvent) (s : Store C)
        → (run == "") ≡ false
        → log_of empty tally run (commit_events empty tally synced run es s).0
          ≡ log_of empty tally run s ++ es
    unfolding commit_events written
    stored-log run [] s named = sym (append-nil (log_of empty tally run s))
    stored-log run (e ∷ es) s named = rw named (
        written-log empty tally run run (e ∷ es) s
          (str_eq_refl (safe_name run) ∙ sym (str_eq_refl run))
        ∙ rw (str_eq_refl run))

    covered-stored :
        (run : String) (out es : List TraceEvent) (s : Store C)
        → IsExact empty tally run s
        → All IsNumbered out
        → All IsNumbered es
        → All (IsCovered (accumulator_of empty tally run s) [] out) es
        → All (HasEvent (log_of empty tally run s ++ out)) es
    unfolding contains_codes
    covered-stored run out [] s x p q h = tt
    covered-stored run out (e ∷ es) s x p q h =
        let log = log_of empty tally run s in
        let named = sequenced-not_empty e q.0.sequenced in
        let rest = covered-stored run out es s x p q.1 h.1 in
        elim (Bool-cases (known log e)) [
          | inl old ↦ (HasEvent-left log out e (known-HasEvent log e q.0.sequenced old), rest)
          | inr new ↦
              let found : has_text out e ≡ true = ground (arith, x.exact e, new, named, h.0) in
              (HasEvent-right log out e (has_text-HasEvent out e p q.0 found), rest)
        ]

    -- When a batch of session events is stored for a run that is not deleted, and the write is synced, the
    -- run's file has an event of the same node and session with the same number for each event of the
    -- batch, be it new or a retry; the node ids have no NUL, and the file was in step with the accumulator.
    pub append_run_events_stores :
        (run : String) (es : List TraceEvent) (s : Store C)
        → (run == "") ≡ false
        → IsExact empty tally run s
        → All IsNumbered es
        → All
            (HasEvent
              (log_of empty tally run (append_run_events empty tally present synced run es s).0))
            es
    unfolding append_run_events unless_deleted
    append_run_events_stores run es s named h p =
        let a = accumulator_of empty tally run s in
        let fresh = accept a [] es in
        rw (named, stored-log run fresh s named)
          (covered-stored run fresh es s h (accept-IsNumbered a [] es p) p (accept-covers a [] es))
