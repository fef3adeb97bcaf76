-- ===== src/Ingest/Accepted.antt =====
-- internal/controller/state.go: the loop of `appendRunEvents` that leaves out the retries.
use v.Common.{
  ◌<◌, ◌≡◌, refl, sym, ap, ◌∙◌, Bool, true, false, not, ◌&&◌, ◌||◌, inl, inr, List, [], ◌∷◌, ◌++◌,
  Bool-cases, All, arith,
}
use v.Model.{TraceEvent}
use v.Sequences.Defs.{u64_mod}
use v.Ingest.Defs.{
  Codes, codes_eq, is_empty, event_identity, contains_codes, Accumulator, has_event, observe,
}
use v.Ingest.Store.{accept, observe_all}
use v.Ingest.Identity.{same_identity, same_identity-text, codes_eq_refl, AreNormal}
use v.Ingest.Remembered.{observe-AreNormal, observe-has_event}

-- One of the events is of the same identity.
unfoldable pub known : List TraceEvent → TraceEvent → Bool
known [] y = false
known (x ∷ xs) y = same_identity x y || known xs y

-- No event is a repetition of an earlier one.
abbrev pub Unlike : List TraceEvent → Type 0
Unlike [] = Unit
Unlike (x ∷ xs) = All (λ y. same_identity x y ≡ false) xs × Unlike xs

pub known-append :
    (xs ys : List TraceEvent) (z : TraceEvent) → known (xs ++ ys) z ≡ (known xs z || known ys z)
unfolding known
known-append [] ys z = refl
known-append (x ∷ xs) ys z = ground (arith, known-append xs ys z)

All-append :
    (P : TraceEvent → Type 0) (xs ys : List TraceEvent) → All P xs → All P ys → All P (xs ++ ys)
All-append P [] ys h k = k
All-append P (x ∷ xs) ys h k = (h.0, All-append P xs ys h.1 k)

known-head :
    (x : TraceEvent) (xs ys : List TraceEvent)
    → All (λ y. known (x ∷ xs) y ≡ false) ys
    → All (λ y. same_identity x y ≡ false) ys
unfolding known
known-head x xs [] h = tt
known-head x xs (y ∷ ys) h = (ground arith, known-head x xs ys h.1)

known-tail :
    (x : TraceEvent) (xs ys : List TraceEvent)
    → All (λ y. known (x ∷ xs) y ≡ false) ys
    → All (λ y. known xs y ≡ false) ys
unfolding known
known-tail x xs [] h = tt
known-tail x xs (y ∷ ys) h = (ground arith, known-tail x xs ys h.1)

pub append-Unlike :
    (xs ys : List TraceEvent)
    → Unlike xs
    → Unlike ys
    → All (λ y. known xs y ≡ false) ys
    → Unlike (xs ++ ys)
append-Unlike [] ys h k n = k
append-Unlike (x ∷ xs) ys h k n = (
  All-append (λ y. same_identity x y ≡ false) xs ys h.0 (known-head x xs ys n),
  append-Unlike xs ys h.1 k (known-tail x xs ys n),
)

-- The event has no identity, or its text is not among those.
abbrev IsFree : List Codes → TraceEvent → Type 0
IsFree pending e =
    (not (is_empty (event_identity e)) && contains_codes (event_identity e) pending) ≡ false

free-different :
    (x y : TraceEvent) (pending : List Codes)
    → IsFree (event_identity x ∷ pending) y
    → same_identity x y ≡ false
unfolding contains_codes
free-different x y pending h = elim (Bool-cases (same_identity x y)) [
  | inr e ↦ e
  | inl e ↦
      let t = same_identity-text x y e in
      let s : codes_eq (event_identity x) (event_identity y) ≡ true =
        rw (← t.1) (codes_eq_refl (event_identity x)) in
      let n : is_empty (event_identity y) ≡ false = sym (ap is_empty t.1) ∙ t.0 in
      absurd (ground (arith, s, n))
]

anonymous-different :
    (x y : TraceEvent) → is_empty (event_identity x) ≡ true → same_identity x y ≡ false
anonymous-different x y h = elim (Bool-cases (same_identity x y)) [
  | inr e ↦ e
  | inl e ↦ absurd (ground (arith, same_identity-text x y e))
]

All-anonymous :
    (x : TraceEvent) (ys : List TraceEvent)
    → is_empty (event_identity x) ≡ true
    → All (λ y. same_identity x y ≡ false) ys
All-anonymous x [] h = tt
All-anonymous x (y ∷ ys) h = (anonymous-different x y h, All-anonymous x ys h)

All-different :
    (x : TraceEvent) (pending : List Codes) (ys : List TraceEvent)
    → All (IsFree (event_identity x ∷ pending)) ys
    → All (λ y. same_identity x y ≡ false) ys
All-different x pending [] h = tt
All-different x pending (y ∷ ys) h =
    (free-different x y pending h.0, All-different x pending ys h.1)

IsFree-less :
    (c : Codes) (pending : List Codes) (ys : List TraceEvent)
    → All (IsFree (c ∷ pending)) ys
    → All (IsFree pending) ys
unfolding contains_codes
IsFree-less c pending [] h = tt
IsFree-less c pending (y ∷ ys) h = (ground arith, IsFree-less c pending ys h.1)

module _ {C : Type 0} where
  pub record Accepted (a : Accumulator C) (pending : List Codes) (es : List TraceEvent)
      : Type 0 where
    pub unknown : All (λ e. has_event a e ≡ false) es
    pub free : All (IsFree pending) es
    pub unlike : Unlike es
    pub words : All (λ e. e.sequence < u64_mod) es

  pub accept-Accepted :
      (a : Accumulator C) (pending : List Codes) (es : List TraceEvent)
      → All (λ e. e.sequence < u64_mod) es
      → Accepted a pending (accept a pending es)
  unfolding accept
  accept-Accepted a pending [] w = record { unknown = tt; free = tt; unlike = tt; words = tt }
  accept-Accepted a pending (e ∷ es) w =
      let skipped = accept-Accepted a pending es w.1 in
      elim (Bool-cases (has_event a e)) [
        | inl old ↦ rw old skipped
        | inr new ↦ elim (Bool-cases (is_empty (event_identity e))) [
          | inl none ↦
              rw (new, none)
                (record {
                  unknown = (new, skipped.unknown);
                  free = (ground (arith, none), skipped.free);
                  unlike = (All-anonymous e (accept a pending es) none, skipped.unlike);
                  words = (w.0, skipped.words);
                })
          | inr some ↦ elim (Bool-cases (contains_codes (event_identity e) pending)) [
            | inl twice ↦ rw (new, some, twice) skipped
            | inr once ↦
                rw (new, some, once)
                  (let next = event_identity e ∷ pending in
                    let rest = accept-Accepted a next es w.1 in
                    record {
                      unknown = (new, rest.unknown);
                      free = (
                        ground (arith, once),
                        IsFree-less (event_identity e) pending (accept a next es) rest.free,
                      );
                      unlike = (All-different e pending (accept a next es) rest.free, rest.unlike);
                      words = (w.0, rest.words);
                    })
          ]
        ]
      ]

  module _ (empty : C) (tally : TraceEvent → C → C) where
    pub observe_all-AreNormal :
        (es : List TraceEvent) (a : Accumulator C)
        → All (λ e. e.sequence < u64_mod) es
        → AreNormal a.sequences
        → AreNormal (observe_all empty tally es a).sequences
    unfolding observe_all
    observe_all-AreNormal [] a w h = h
    observe_all-AreNormal (e ∷ es) a w h =
        observe_all-AreNormal es (observe tally e a) w.1 (observe-AreNormal tally e a w.0 h)

    pub observe_all-has_event :
        (es : List TraceEvent) (a : Accumulator C) (y : TraceEvent)
        → All (λ e. e.sequence < u64_mod) es
        → AreNormal a.sequences
        → has_event (observe_all empty tally es a) y ≡ (has_event a y || known es y)
    unfolding observe_all known
    observe_all-has_event [] a y w h = ground arith
    observe_all-has_event (e ∷ es) a y w h =
        let rest =
          observe_all-has_event es (observe tally e a) y w.1 (observe-AreNormal tally e a w.0 h) in
        let first = observe-has_event tally e y a w.0 h in rw (rest, first) (ground arith)
