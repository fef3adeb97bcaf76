-- ===== src/Spool/Forgotten.antt =====
-- internal/agent/telemetry_spool.go: acknowledging events in order keeps references and files alike.
use mathlib.Core.List.{tail-eq_of_cons-eq}
use mathlib.Core.Path.{subst}
use mathlib.Core.Option.{some-injective}
use v.Common.{
  ℕ, zero, suc, ◌+◌, ◌≤◌, ◌≡◌, refl, sym, ap, ◌∙◌, inl, inr, some, List, [], ◌∷◌, ◌++◌, String,
  ◌==◌, str_eq_iff, nat_eq, Bool-cases, length, take, drop, Dict, arith,
}
use v.Model.{TraceEvent}
use v.Spool.Defs.{
  Segment, Ref, refs_at, remove_ref, drop_ref, forget, find_segment, set_ack, run_of_indices,
}
use v.Spool.Refs.{refs_at-drop_ref, segment_refs, refs_in, exhausted}
use v.Spool.Advanced.{find-set_ack, set_ack_twice, bump_refs, if_true, if_false}

drop-suc :
    (n : ℕ) (es : List TraceEvent) (e : TraceEvent) (rest : List TraceEvent)
    → drop n es ≡ e ∷ rest
    → drop (suc n) es ≡ rest
drop-suc zero [] e rest h = cc
drop-suc zero (x ∷ es) e rest h = tail-eq_of_cons-eq h
drop-suc (suc n) [] e rest h = cc
drop-suc (suc n) (x ∷ es) e rest h = drop-suc n es e rest h

drop-empty : (n : ℕ) (es : List TraceEvent) → drop n es ≡ [] → length es ≤ n
drop-empty zero [] h = omega arith
drop-empty zero (x ∷ es) h = cc
drop-empty (suc n) [] h = omega arith
drop-empty (suc n) (x ∷ es) h = omega (arith, drop-empty n es h)

set_ack_same :
    (name : String) (n : ℕ) (files : List Segment) (s : Segment)
    → find_segment name files ≡ some s
    → n ≡ s.ack
    → set_ack name n files ≡ files
unfolding find_segment set_ack
set_ack_same name n [] s h e = cc
set_ack_same name n (t ∷ files) s h e = elim (Bool-cases (t.name == name)) [
  | inl here ↦
      let same : t ≡ s = some-injective t s (ground (arith, h, here)) in
      let own : n ≡ t.ack = e ∙ ap (λ (x : Segment). x.ack) (sym same) in
      if_true (t.name == name) _ _ here ∙ ap (λ k. record t { ack = k } ∷ files) own
  | inr other ↦
      let ih = set_ack_same name n files s (ground (arith, h, other)) e in
      if_false (t.name == name) _ _ other ∙ ap (λ l. t ∷ l) ih
]

pub run_of_indices-le : (n : ℕ) (l : List ℕ) (next : ℕ) → run_of_indices n l ≡ some next → n ≤ next
unfolding run_of_indices
run_of_indices-le n [] next h = ground arith
run_of_indices-le n (i ∷ rest) next h = elim (Bool-cases (nat_eq i n)) [
  | inl e ↦ let ih = run_of_indices-le (suc n) rest next (ground (arith, h, e)) in omega arith
  | inr e ↦ absurd (ground (arith, h, e))
]

module _ (key : TraceEvent → String) where
  -- The references are those to the events of the files that are not acknowledged.
  abbrev pub Agrees : List Segment → Dict (List Ref) → Type 0
  Agrees files refs = (k : String) → refs_at k refs ≡ refs_in key k files

  set_ack-exhausted :
      (k name : String) (n : ℕ) (files : List Segment) (s : Segment)
      → find_segment name files ≡ some s
      → length s.events ≤ s.ack
      → s.ack ≤ n
      → refs_in key k (set_ack name n files) ≡ refs_in key k files
  unfolding find_segment set_ack refs_in
  set_ack-exhausted k name n [] s h l p = cc
  set_ack-exhausted k name n (t ∷ files) s h l p = elim (Bool-cases (t.name == name)) [
    | inl here ↦
        let same : t ≡ s = some-injective t s (ground (arith, h, here)) in
        let long : length t.events ≤ t.ack =
          subst (λ (x : Segment). length x.events ≤ x.ack) (sym same) l in
        let less : t.ack ≤ n = subst (λ (x : Segment). x.ack ≤ n) (sym same) p in
        let old = exhausted key k t.name 0 t.ack t.events (omega arith) in
        let new = exhausted key k t.name 0 n t.events (omega arith) in
        ap (refs_in key k) (if_true (t.name == name) _ _ here)
        ∙ ap (λ l. l ++ refs_in key k files) (new ∙ sym old)
    | inr other ↦
        let ih = set_ack-exhausted k name n files s (ground (arith, h, other)) l p in
        ap (refs_in key k) (if_false (t.name == name) _ _ other)
        ∙ ap (λ l. segment_refs key k t.name 0 t.ack t.events ++ l) ih
  ]

  forget_one :
      (name : String) (files : List Segment) (s : Segment) (refs : Dict (List Ref)) (e : TraceEvent)
      (rest : List TraceEvent)
      → find_segment name files ≡ some s
      → drop s.ack s.events ≡ e ∷ rest
      → Agrees files refs
      → Agrees (set_ack name (suc s.ack) files) (drop_ref (key e) name s.ack refs)
  forget_one name files s refs e rest h d a k =
      let bumped = bump_refs key k name files s e rest h d in
      refs_at-drop_ref (key e) k name s.ack refs ∙ elim (Bool-cases (key e == k)) [
        | inl mine ↦
            if_true (key e == k) _ _ mine
            ∙ ap (λ x. remove_ref name s.ack (refs_at x refs)) ((str_eq_iff (key e) k).0 mine)
            ∙ ap (remove_ref name s.ack) (a k)
            ∙ sym (if_true (key e == k) _ _ mine)
            ∙ bumped
        | inr theirs ↦
            if_false (key e == k) _ _ theirs ∙ a k ∙ sym (if_false (key e == k) _ _ theirs) ∙ bumped
      ]

  -- So too for as many events as one likes.
  pub forget_all :
      (m : ℕ) (name : String) (files : List Segment) (s : Segment) (refs : Dict (List Ref))
      → find_segment name files ≡ some s
      → Agrees files refs
      → Agrees
          (set_ack name (s.ack + m) files)
          (forget key name s.ack (take m (drop s.ack s.events)) refs)
  unfolding forget
  forget_all zero name files s refs h a =
      let same = set_ack_same name (s.ack + 0) files s h (omega arith) in
      λ k. a k ∙ sym (ap (refs_in key k) same)
  forget_all (suc m) name files s refs h a =
      let next : Segment = record s { ack = suc s.ack } in
      let found = find-set_ack name (suc s.ack) files s h in
      by_rest (drop s.ack s.events) refl
        (λ rf. forget_all m name (set_ack name (suc s.ack) files) next rf found)
    where
      by_rest :
          (es : List TraceEvent)
          → drop s.ack s.events ≡ es
          → ((rf : Dict (List Ref))
              → Agrees (set_ack name (suc s.ack) files) rf
              → Agrees
                  (set_ack name (suc s.ack + m) (set_ack name (suc s.ack) files))
                  (forget key name (suc s.ack) (take m (drop (suc s.ack) s.events)) rf))
          → Agrees
              (set_ack name (s.ack + suc m) files)
              (forget key name s.ack (take (suc m) es) refs)
      by_rest [] d ih k =
          a k
          ∙ sym (
              set_ack-exhausted k name (s.ack + suc m) files s h (drop-empty s.ack s.events d)
                (omega arith))
      by_rest (e ∷ rest) d ih k =
          let less = drop_ref (key e) name s.ack refs in
          let later = ih less (forget_one name files s refs e rest h d a) k in
          let left : drop (suc s.ack) s.events ≡ rest = drop-suc s.ack s.events e rest d in
          let count : suc s.ack + m ≡ s.ack + suc m = omega arith in
          ap (λ l. refs_at k (forget key name (suc s.ack) (take m l) less)) (sym left)
          ∙ later
          ∙ ap (refs_in key k) (set_ack_twice name (suc s.ack) (suc s.ack + m) files)
          ∙ ap (λ n. refs_in key k (set_ack name n files)) count
