-- ===== src/Ingest/Remembered.antt =====
-- internal/controller/run_metrics.go: after `observe`, `hasEvent` knows the event and those it knew.
use mathlib.Core.Path.{ap₂}
use v.Common.{
  ℕ, ◌<◌, ◌≡◌, refl, sym, ap, ◌∙◌, true, not, ◌&&◌, ◌||◌, inl, inr, nat_eq, Bool-cases, arith,
}
use v.Model.{TraceEvent}
use v.Sequences.Defs.{u64_mod, Ranges, add_sequence, through}
use v.Sequences.Added.{holds, IsNormal, add_sequence_lem}
use v.Sequences.Through.{through_lem}
use v.Ingest.Defs.{
  is_empty, is_sequenced, event_identity, contains_codes, key_eq, session_key, ranges_of,
  set_ranges, Accumulator, has_event, remember, observe,
}
use v.Ingest.Identity.{
  same_identity, same_identity-text, key_eq-path, ranges_of-set_ranges, AreNormal,
  ranges_of-IsNormal, set_ranges-AreNormal,
}

-- `through` is not 0 exactly at the numbers that the intervals hold.
through-holds :
    (n : ℕ) (ranges : Ranges)
    → 0 < n
    → IsNormal ranges
    → not (nat_eq (through n ranges) 0) ≡ holds n ranges
through-holds n ranges p h =
    let r = through_lem n ranges h in
    elim (Bool-cases (holds n ranges)) [
      | inl e ↦ ground (arith, r.beyond e, e)
      | inr e ↦ ground (arith, r.absent e, e)
    ]

same_session :
    (x y : TraceEvent)
    → is_sequenced x ≡ true
    → is_sequenced y ≡ true
    → same_identity x y ≡ (key_eq (session_key x) (session_key y) && nat_eq x.sequence y.sequence)
unfolding same_identity
same_session x y sx sy = ground (arith, sx, sy)

module _ {C : Type 0} where
  sequenced-has_event :
      (a : Accumulator C) (y : TraceEvent)
      → AreNormal a.sequences
      → is_sequenced y ≡ true
      → has_event a y ≡ holds y.sequence (ranges_of (session_key y) a.sequences)
  unfolding has_event
  sequenced-has_event a y h s =
      let p : 0 < y.sequence = unfold is_sequenced in ground arith in
      rw s (
        through-holds y.sequence (ranges_of (session_key y) a.sequences) p
          (ranges_of-IsNormal (session_key y) a.sequences h))

  pub remember-AreNormal :
      (x : TraceEvent) (a : Accumulator C)
      → x.sequence < u64_mod
      → AreNormal a.sequences
      → AreNormal (remember x a).sequences
  unfolding remember
  remember-AreNormal x a l h = elim (Bool-cases (is_sequenced x)) [
    | inl s ↦ rw s (
        let old = ranges_of (session_key x) a.sequences in
        set_ranges-AreNormal (session_key x) (add_sequence x.sequence old) a.sequences
          (add_sequence_lem x.sequence old l (ranges_of-IsNormal (session_key x) a.sequences h)).0
          h)
    | inr s ↦
        rw s (elim (Bool-cases (is_empty (event_identity x))) [ inl e ↦ rw e h | inr e ↦ rw e h ])
  ]

  remember-sequences :
      (x : TraceEvent) (a : Accumulator C)
      → is_sequenced x ≡ true
      → (remember x a).sequences
        ≡ set_ranges
            (session_key x)
            (add_sequence x.sequence (ranges_of (session_key x) a.sequences))
            a.sequences
  unfolding remember
  remember-sequences x a s = rw s

  -- Both events are of sessions.
  both-has_event :
      (x y : TraceEvent) (a : Accumulator C)
      → x.sequence < u64_mod
      → AreNormal a.sequences
      → is_sequenced x ≡ true
      → is_sequenced y ≡ true
      → has_event (remember x a) y ≡ (has_event a y || same_identity x y)
  both-has_event x y a l h sx sy =
      let old = ranges_of (session_key x) a.sequences in
      let new = add_sequence x.sequence old in
      let added =
        (add_sequence_lem x.sequence old l (ranges_of-IsNormal (session_key x) a.sequences h)).1
          y.sequence in
      let after = sequenced-has_event (remember x a) y (remember-AreNormal x a l h) sy in
      let before = sequenced-has_event a y h sy in
      let found = ranges_of-set_ranges (session_key x) (session_key y) new a.sequences in
      let p : 0 < x.sequence = unfold is_sequenced in ground arith in
      let same = same_session x y sx sy in
      let stored = ap (ranges_of (session_key y)) (remember-sequences x a sx) ∙ found in
      elim (Bool-cases (key_eq (session_key x) (session_key y))) [
        | inl e ↦
            let one : old ≡ ranges_of (session_key y) a.sequences =
              ap (λ k. ranges_of k a.sequences) (key_eq-path (session_key x) (session_key y) e) in
            rw (after, stored, e, added, one, before, same, e) (ground arith)
        | inr e ↦ rw (after, stored, e, before, same, e) (ground arith)
      ]

  remember-has_event :
      (x y : TraceEvent) (a : Accumulator C)
      → x.sequence < u64_mod
      → AreNormal a.sequences
      → has_event (remember x a) y ≡ (has_event a y || same_identity x y)
  remember-has_event x y a l h = elim (Bool-cases (is_sequenced x)) [
    | inl sx ↦ elim (Bool-cases (is_sequenced y)) [
      | inl sy ↦ both-has_event x y a l h sx sy
      | inr sy ↦ unfold has_event remember same_identity in ground (arith, sx, sy)
    ]
    | inr sx ↦ elim (Bool-cases (is_sequenced y)) [
      | inl sy ↦ unfold has_event remember same_identity in ground (arith, sx, sy)
      | inr sy ↦ unfold has_event remember same_identity contains_codes in ground (arith, sx, sy)
    ]
  ]

  -- The statistics have no part in what an accumulator remembers.
  counted-has_event :
      (a : Accumulator C) (y : TraceEvent) (n : ℕ) (c : C)
      → has_event (record a { revision = n; statistics = c }) y ≡ has_event a y
  unfolding has_event
  counted-has_event a y n c = refl

  module _ (tally : TraceEvent → C → C) where
    pub observe-AreNormal :
        (x : TraceEvent) (a : Accumulator C)
        → x.sequence < u64_mod
        → AreNormal a.sequences
        → AreNormal (observe tally x a).sequences
    unfolding observe
    observe-AreNormal x a l h = elim (Bool-cases (has_event a x)) [
      | inl old ↦ rw old h
      | inr new ↦ rw new (remember-AreNormal x a l h)
    ]

    -- An event that is known is not observed again.
    known-has_event :
        (x y : TraceEvent) (a : Accumulator C)
        → AreNormal a.sequences
        → has_event a x ≡ true
        → same_identity x y ≡ true
        → has_event a y ≡ true
    known-has_event x y a h k e = elim (Bool-cases (is_sequenced x)) [
      | inl sx ↦ elim (Bool-cases (is_sequenced y)) [
        | inl sy ↦
            let one = same_session x y sx sy in
            let key = key_eq-path (session_key x) (session_key y) (ground arith) in
            let number : x.sequence ≡ y.sequence = ground arith in
            let found = ap₂ (λ n k. holds n (ranges_of k a.sequences)) number key in
            sequenced-has_event a y h sy ∙ sym found ∙ sym (sequenced-has_event a x h sx) ∙ k
        | inr sy ↦ absurd (unfold same_identity in ground (arith, sx, sy))
      ]
      | inr sx ↦ elim (Bool-cases (is_sequenced y)) [
        | inl sy ↦ absurd (unfold same_identity in ground (arith, sx, sy))
        | inr sy ↦
            let t = same_identity-text x y e in
            unfold has_event in ground (arith, sx, sy, k, t.0, t.1)
      ]
    ]

    pub observe-has_event :
        (x y : TraceEvent) (a : Accumulator C)
        → x.sequence < u64_mod
        → AreNormal a.sequences
        → has_event (observe tally x a) y ≡ (has_event a y || same_identity x y)
    observe-has_event x y a l h =
        let after = remember-has_event x y a l h in
        elim (Bool-cases (has_event a x)) [
          | inl old ↦ unfold observe in ground (arith, known-has_event x y a h old, old)
          | inr new ↦ unfold observe in rw new (counted-has_event (remember x a) y _ _ ∙ after)
        ]
