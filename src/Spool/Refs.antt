-- ===== src/Spool/Refs.antt =====
-- internal/agent/telemetry_spool.go: what the references to unacknowledged events are, read off the files.
use mathlib.Core.List.{append_assoc, append-nil, head-eq_of_cons-eq}
use v.Common.{
  ℕ, zero, suc, ◌+◌, ◌≤◌, ◌≡◌, refl, sym, ap, ◌∙◌, true, false, ◌&&◌, inl, inr, List, [], ◌∷◌, ◌++◌,
  String, ◌==◌, str_eq_iff, str_eq_refl, if◌then◌else◌, leb, Bool-cases, length, drop, All, Dict,
  insert, delete, lookup-insert, lookup-delete, arith,
}
use v.Model.{TraceEvent}
use v.Spool.Defs.{Segment, Ref, refs_at, remove_ref, is_none, add_refs, load, drop_ref}

-- Removing a reference leaves alone the references of other segments before it.
pub remove_ref-skip :
    (name : String) (i : ℕ) (xs ys : List Ref)
    → All (λ r. (r.segment == name) ≡ false) xs
    → remove_ref name i (xs ++ ys) ≡ xs ++ remove_ref name i ys
unfolding remove_ref
remove_ref-skip name i [] ys h = refl
remove_ref-skip name i (r ∷ xs) ys h = rw h.0 (ap (λ l. r ∷ l) (remove_ref-skip name i xs ys h.1))

pub remove_ref-head :
    (name : String) (i : ℕ) (rest : List Ref)
    → remove_ref name i (record { segment = name; index = i } ∷ rest) ≡ rest
unfolding remove_ref
remove_ref-head name i rest = ground (arith, str_eq_refl name)

pub refs_at-drop_ref :
    (k j name : String) (i : ℕ) (refs : Dict (List Ref))
    → refs_at j (drop_ref k name i refs)
      ≡ (if k == j then remove_ref name i (refs_at k refs) else refs_at j refs)
unfolding drop_ref
refs_at-drop_ref k j name i refs = by_left (remove_ref name i (refs_at k refs)) refl
  where
    by_left :
        (left : List Ref)
        → remove_ref name i (refs_at k refs) ≡ left
        → refs_at j (if is_none left then delete k refs else insert k left refs)
          ≡ (if k == j then left else refs_at j refs)
    by_left [] e =
        rw (lookup-delete k j refs) (elim (Bool-cases (k == j)) [ inl h ↦ rw h | inr h ↦ rw h ])
    by_left (r ∷ rest) e =
        rw (lookup-insert k j (r ∷ rest) refs)
          (elim (Bool-cases (k == j)) [ inl h ↦ rw h | inr h ↦ rw h ])

refs_at-push :
    (k j : String) (r : Ref) (refs : Dict (List Ref))
    → refs_at j (insert k (refs_at k refs ++ (r ∷ [])) refs)
      ≡ (if k == j then refs_at j refs ++ (r ∷ []) else refs_at j refs)
refs_at-push k j r refs =
    let grown = refs_at k refs ++ (r ∷ []) in
    rw (lookup-insert k j grown refs) (elim (Bool-cases (k == j)) [
      | inl same ↦ rw same (ap (λ x. refs_at x refs ++ (r ∷ [])) ((str_eq_iff k j).0 same))
      | inr other ↦ rw other
    ])

module _ (key : TraceEvent → String) where
  -- The references of a key to the events of a segment, from index `i` on.
  unfoldable pub segment_refs : String → String → ℕ → ℕ → List TraceEvent → List Ref
  segment_refs k name i ack [] = []
  segment_refs k name i ack (e ∷ es) =
      let rest = segment_refs k name (suc i) ack es in
      if leb ack i && key e == k then record { segment = name; index = i } ∷ rest else rest

  unfoldable pub refs_in : String → List Segment → List Ref
  unfolding segment_refs
  refs_in k [] = []
  refs_in k (s ∷ files) = segment_refs k s.name 0 s.ack s.events ++ refs_in k files

  pub refs_at-add_refs :
      (k name : String) (i ack : ℕ) (es : List TraceEvent) (refs : Dict (List Ref))
      → refs_at k (add_refs key name i ack es refs) ≡ refs_at k refs ++ segment_refs k name i ack es
  unfolding add_refs segment_refs
  refs_at-add_refs k name i ack [] refs = sym (append-nil (refs_at k refs))
  refs_at-add_refs k name i ack (e ∷ es) refs = elim (Bool-cases (leb ack i)) [
    | inr acked ↦ rw acked (refs_at-add_refs k name (suc i) ack es refs)
    | inl live ↦
        let r : Ref = record { segment = name; index = i } in
        let grown = insert (key e) (refs_at (key e) refs ++ (r ∷ [])) refs in
        let ih = refs_at-add_refs k name (suc i) ack es grown in
        let push = refs_at-push (key e) k r refs in
        elim (Bool-cases (key e == k)) [
          | inl same ↦
              rw (live, ih, push, same)
                (append_assoc (refs_at k refs) (r ∷ []) (segment_refs k name (suc i) ack es))
          | inr other ↦ rw (live, ih, push, other)
        ]
  ]

  pub refs_at-load :
      (k : String) (files : List Segment) (refs : Dict (List Ref))
      → refs_at k (load key files refs) ≡ refs_at k refs ++ refs_in k files
  unfolding load refs_in
  refs_at-load k [] refs = sym (append-nil (refs_at k refs))
  refs_at-load k (s ∷ files) refs =
      refs_at-load k files (add_refs key s.name 0 s.ack s.events refs)
      ∙ ap (λ l. l ++ refs_in k files) (refs_at-add_refs k s.name 0 s.ack s.events refs)
      ∙ append_assoc (refs_at k refs) (segment_refs k s.name 0 s.ack s.events) (refs_in k files)

  -- Behind the acknowledgement its value is of no account.
  behind :
      (k name : String) (i a b : ℕ) (es : List TraceEvent)
      → a ≤ i
      → b ≤ i
      → segment_refs k name i a es ≡ segment_refs k name i b es
  unfolding segment_refs
  behind k name i a b [] p q = refl
  behind k name i a b (e ∷ es) p q =
      let rest = behind k name (suc i) a b es (omega arith) (omega arith) in
      let x : leb a i ≡ true = ground arith in
      let y : leb b i ≡ true = ground arith in rw (rest, x, y)

  -- A segment that is acknowledged as a whole has no references.
  pub exhausted :
      (k name : String) (i a : ℕ) (es : List TraceEvent)
      → i + length es ≤ a
      → segment_refs k name i a es ≡ []
  unfolding segment_refs
  exhausted k name i a [] h = refl
  exhausted k name i a (e ∷ es) h =
      let x : leb a i ≡ false = ground arith in rw x (exhausted k name (suc i) a es (omega arith))

  -- The first event that is not acknowledged has the first of the references.
  pub first_ref :
      (k name : String) (d i a : ℕ) (es : List TraceEvent) (e : TraceEvent) (rest : List TraceEvent)
      → a ≡ i + d
      → drop d es ≡ e ∷ rest
      → segment_refs k name i a es ≡ (
          if key e == k
          then record { segment = name; index = a } ∷ segment_refs k name i (suc a) es
          else segment_refs k name i (suc a) es)
  unfolding segment_refs
  first_ref k name zero i a [] e rest p h = cc
  first_ref k name (suc d) i a [] e rest p h = cc
  first_ref k name zero i a (x ∷ es) e rest p h =
      let same : x ≡ e = head-eq_of_cons-eq h in
      let here : a ≡ i = omega arith in
      let later = behind k name (suc i) a (suc a) es (omega arith) (omega arith) in
      let y : leb a i ≡ true = ground arith in
      let z : leb (suc a) i ≡ false = ground arith in
      let behind_it = segment_refs k name (suc i) (suc a) es in
      rw (y, z, later, ap key same)
        (ap
          (λ n.
            if key e == k then (record { segment = name; index = n }) ∷ behind_it else behind_it)
          (sym here))
  first_ref k name (suc d) i a (x ∷ es) e rest p h =
      let y : leb a i ≡ false = ground arith in
      let z : leb (suc a) i ≡ false = ground arith in
      rw (y, z) (first_ref k name d (suc i) a es e rest (omega arith) h)
