-- ===== src/Ingest/Held.antt =====
-- internal/controller/run_metrics.go: which lists have an event, by its text or by its number.
use v.Common.{
  ◌≡◌, Bool, true, false, ◌||◌, ◌⊎◌, inl, inr, str_eq_iff, List, [], ◌∷◌, ◌++◌, Bool-cases, All,
  arith,
}
use v.Model.{TraceEvent}
use v.Ingest.Defs.{codes_eq, is_sequenced, event_identity}
use v.Ingest.Identity.{same_identity, codes_eq_sound}
use v.Ingest.Numbered.{IsNumbered, AreOne, identity-AreOne}
use v.Ingest.Accepted.{known}

-- An event with the same text for its identity is in the list.
unfoldable pub has_text : List TraceEvent → TraceEvent → Bool
has_text [] y = false
has_text (x ∷ xs) y = codes_eq (event_identity x) (event_identity y) || has_text xs y

-- The list has an event of the same node and session with the same number.
abbrev pub HasEvent : List TraceEvent → TraceEvent → Type 0
HasEvent [] y = ⊥
HasEvent (x ∷ xs) y = AreOne x y ⊎ HasEvent xs y

pub HasEvent-left :
    (xs ys : List TraceEvent) (y : TraceEvent) → HasEvent xs y → HasEvent (xs ++ ys) y
HasEvent-left [] ys y h = absurd h
HasEvent-left (x ∷ xs) ys y (inl one) = inl one
HasEvent-left (x ∷ xs) ys y (inr h) = inr (HasEvent-left xs ys y h)

pub HasEvent-right :
    (xs ys : List TraceEvent) (y : TraceEvent) → HasEvent ys y → HasEvent (xs ++ ys) y
HasEvent-right [] ys y h = h
HasEvent-right (x ∷ xs) ys y h = inr (HasEvent-right xs ys y h)

pub has_text-HasEvent :
    (xs : List TraceEvent) (y : TraceEvent)
    → All IsNumbered xs
    → IsNumbered y
    → has_text xs y ≡ true
    → HasEvent xs y
unfolding has_text
has_text-HasEvent [] y p q h = cc
has_text-HasEvent (x ∷ xs) y p q h =
    elim (Bool-cases (codes_eq (event_identity x) (event_identity y))) [
      | inl e ↦
          inl (identity-AreOne x y p.0 q (codes_eq_sound (event_identity x) (event_identity y) e))
      | inr e ↦ inr (has_text-HasEvent xs y p.1 q (ground (arith, e, h)))
    ]

same_identity-AreOne :
    (x y : TraceEvent) → is_sequenced y ≡ true → same_identity x y ≡ true → AreOne x y
unfolding same_identity
same_identity-AreOne x y s h = elim (Bool-cases (is_sequenced x)) [
  | inr loose ↦ absurd (ground (arith, s, loose, h))
  | inl own ↦ record {
    node = (str_eq_iff x.node_id y.node_id).0 (ground (arith, s, own, h));
    session = (str_eq_iff x.session_id y.session_id).0 (ground (arith, s, own, h));
    number = ground (arith, s, own, h);
  }
]

pub known-HasEvent :
    (xs : List TraceEvent) (y : TraceEvent)
    → is_sequenced y ≡ true
    → known xs y ≡ true
    → HasEvent xs y
unfolding known
known-HasEvent [] y s h = cc
known-HasEvent (x ∷ xs) y s h = elim (Bool-cases (same_identity x y)) [
  | inl e ↦ inl (same_identity-AreOne x y s e)
  | inr e ↦ inr (known-HasEvent xs y s (ground (arith, e, h)))
]
