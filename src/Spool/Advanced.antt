-- ===== src/Spool/Advanced.antt =====
-- internal/agent/telemetry_spool.go: an acknowledgement takes from the references those that it should.
use mathlib.Core.Path.{subst}
use v.Common.{
  ℕ, suc, ◌≡◌, refl, sym, ap, ◌∙◌, Bool, true, false, ◌&&◌, inl, inr, some, List, [], ◌∷◌, ◌++◌,
  String, ◌==◌, str_eq_iff, if◌then◌else◌, leb, Bool-cases, drop, All, arith,
}
use mathlib.Core.Option.{some-injective}
use v.Model.{TraceEvent}
use v.Spool.Defs.{Segment, Ref, remove_ref, find_segment, set_ack}
use v.Spool.Refs.{remove_ref-skip, remove_ref-head, segment_refs, refs_in, first_ref}

-- The segment that is found is the one whose acknowledgement is set.
pub find-set_ack :
    (name : String) (n : ℕ) (files : List Segment) (s : Segment)
    → find_segment name files ≡ some s
    → find_segment name (set_ack name n files) ≡ some (record s { ack = n })
unfolding find_segment set_ack
find-set_ack name n [] s h = cc
find-set_ack name n (t ∷ files) s h = elim (Bool-cases (t.name == name)) [
  | inl here ↦
      let same : t ≡ s = some-injective t s (ground (arith, h, here)) in ground (arith, here, same)
  | inr other ↦ ground (arith, other, find-set_ack name n files s (ground (arith, h, other)))
]

pub set_ack_twice :
    (name : String) (m n : ℕ) (files : List Segment)
    → set_ack name n (set_ack name m files) ≡ set_ack name n files
unfolding set_ack
set_ack_twice name m n [] = refl
set_ack_twice name m n (t ∷ files) = elim (Bool-cases (t.name == name)) [
  | inl here ↦ rw (here, here)
  | inr other ↦ rw (other, other, set_ack_twice name m n files)
]

pub if_true {ℓ} : {A : Type ℓ} (b : Bool) (x y : A) → b ≡ true → (if b then x else y) ≡ x
if_true b x y h = rw h

pub if_false {ℓ} : {A : Type ℓ} (b : Bool) (x y : A) → b ≡ false → (if b then x else y) ≡ y
if_false b x y h = rw h

module _ (key : TraceEvent → String) where
  segment_refs-other :
      (k name wanted : String) (i a : ℕ) (es : List TraceEvent)
      → (name == wanted) ≡ false
      → All (λ (r : Ref). (r.segment == wanted) ≡ false) (segment_refs key k name i a es)
  unfolding segment_refs
  segment_refs-other k name wanted i a [] h = tt
  segment_refs-other k name wanted i a (e ∷ es) h =
      let rest = segment_refs-other k name wanted (suc i) a es h in
      elim (Bool-cases (leb a i && key e == k)) [ inl b ↦ rw b (h, rest) | inr b ↦ rw b rest ]

  -- The references of a key without the one of an event, if the event has that key.
  abbrev pub without : String → TraceEvent → String → ℕ → List Ref → List Ref
  without k e name a refs = if key e == k then remove_ref name a refs else refs

  bump_head :
      (k : String) (files : List Segment) (s : Segment) (e : TraceEvent) (rest : List TraceEvent)
      → drop s.ack s.events ≡ e ∷ rest
      → without k e s.name s.ack (refs_in key k (s ∷ files))
        ≡ refs_in key k (record s { ack = suc s.ack } ∷ files)
  unfolding refs_in
  bump_head k files s e rest d =
      let first = first_ref key k s.name s.ack 0 s.ack s.events e rest (omega arith) d in
      let later = segment_refs key k s.name 0 (suc s.ack) s.events in
      elim (Bool-cases (key e == k)) [
        | inl mine ↦
            rw (mine, first, mine) (remove_ref-head s.name s.ack (later ++ refs_in key k files))
        | inr theirs ↦ rw (theirs, first, theirs)
      ]

  bump_tail :
      (k name : String) (files : List Segment) (t : Segment) (e : TraceEvent) (a : ℕ)
      (after : List Ref)
      → (t.name == name) ≡ false
      → without k e name a (refs_in key k files) ≡ after
      → without k e name a (refs_in key k (t ∷ files))
        ≡ segment_refs key k t.name 0 t.ack t.events ++ after
  unfolding refs_in
  bump_tail k name files t e a after other ih =
      let own = segment_refs key k t.name 0 t.ack t.events in
      let skip =
        remove_ref-skip name a own (refs_in key k files)
          (segment_refs-other k t.name name 0 t.ack t.events other) in
      elim (Bool-cases (key e == k)) [
        | inl mine ↦
            if_true (key e == k) _ _ mine
            ∙ skip
            ∙ ap (λ l. own ++ l) (sym (if_true (key e == k) _ _ mine) ∙ ih)
        | inr theirs ↦
            if_false (key e == k) _ _ theirs
            ∙ ap (λ l. own ++ l) (sym (if_false (key e == k) _ _ theirs) ∙ ih)
      ]

  -- One more event of the segment is acknowledged.
  pub bump_refs :
      (k name : String) (files : List Segment) (s : Segment) (e : TraceEvent)
      (rest : List TraceEvent)
      → find_segment name files ≡ some s
      → drop s.ack s.events ≡ e ∷ rest
      → without k e name s.ack (refs_in key k files)
        ≡ refs_in key k (set_ack name (suc s.ack) files)
  unfolding find_segment set_ack
  bump_refs k name [] s e rest h d = cc
  bump_refs k name (t ∷ files) s e rest h d = elim (Bool-cases (t.name == name)) [
    | inl here ↦
        let same : t ≡ s = some-injective t s (ground (arith, h, here)) in
        let named : s.name ≡ name =
          ap (λ (x : Segment). x.name) (sym same) ∙ (str_eq_iff t.name name).0 here in
        let set =
          if_true (t.name == name) (record t { ack = suc s.ack } ∷ files)
            (t ∷ set_ack name (suc s.ack) files) here in
        subst
          (λ (x : Segment).
            without k e name s.ack (refs_in key k (x ∷ files))
            ≡ refs_in key k (record x { ack = suc s.ack } ∷ files))
          (sym same)
          (subst
            (λ n.
              without k e n s.ack (refs_in key k (s ∷ files))
              ≡ refs_in key k (record s { ack = suc s.ack } ∷ files))
            named (bump_head k files s e rest d))
        ∙ sym (ap (refs_in key k) set)
    | inr other ↦
        let ih = bump_refs k name files s e rest (ground (arith, h, other)) d in
        let set =
          if_false (t.name == name) (record t { ack = suc s.ack } ∷ files)
            (t ∷ set_ack name (suc s.ack) files) other in
        bump_tail k name files t e s.ack (refs_in key k (set_ack name (suc s.ack) files)) other ih
        ∙ unfold refs_in in sym (ap (refs_in key k) set)
  ]
