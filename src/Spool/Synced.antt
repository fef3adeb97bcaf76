-- ===== src/Spool/Synced.antt =====
-- internal/agent/telemetry_spool.go: what is in memory of each file stays what the file says.
use mathlib.Core.Path.{subst}
use mathlib.Core.Option.{some-injective}
use v.Common.{
  ℕ, ◌+◌, ◌-◌, ◌≤◌, ◌≡◌, ◌≢◌, text_lt, All, refl, sym, ap, ◌∙◌, true, inl, inr, Option, none, some,
  List, [], ◌∷◌, ◌++◌, String, ◌==◌, str_eq_iff, nat_eq, Bool-cases, length, All, arith,
}
use v.Model.{TraceEvent}
use v.Spool.Defs.{
  Write, kept, lost, renamed, insert_file, reopened, set_acked, acknowledge_segment, Segment, Ref,
  Spool, SpoolError, out_of_order, no_segment, find_segment, set_ack, remove_file, run_of_indices,
  indices_of, advance, Outcome, finish, settle, settle_all,
}
use v.Spool.Refs.{segment_refs, refs_in, exhausted}
use v.Spool.Advanced.{find-set_ack, if_true, if_false}
use v.Spool.Forgotten.{Agrees, forget_all, run_of_indices-le}

find_segment_name :
    (name : String) (files : List Segment) (s : Segment)
    → find_segment name files ≡ some s
    → s.name ≡ name
unfolding find_segment
find_segment_name name [] s h = cc
find_segment_name name (t ∷ files) s h = elim (Bool-cases (t.name == name)) [
  | inl here ↦
      let same : t ≡ s = some-injective t s (ground (arith, h, here)) in
      ap (λ (x : Segment). x.name) (sym same) ∙ (str_eq_iff t.name name).0 here
  | inr other ↦ find_segment_name name files s (ground (arith, h, other))
]

-- What is in memory of an acknowledgement is what its file says.
abbrev pub AreSynced : List Segment → Type 0
AreSynced files = All (λ (s : Segment). s.acked ≡ s.ack) files

-- The name comes after those of the files.
abbrev pub IsLast : String → List Segment → Type 0
IsLast name files = All (λ (s : Segment). text_lt s.name name ≡ true) files

pub insert_file-last :
    (s : Segment) (files : List Segment)
    → IsLast s.name files
    → insert_file s files ≡ files ++ (s ∷ [])
unfolding insert_file
insert_file-last s [] h = refl
insert_file-last s (t ∷ files) h = rw h.0 (ap (λ l. t ∷ l) (insert_file-last s files h.1))

pub AreSynced-snoc :
    (s : Segment) (files : List Segment)
    → s.acked ≡ s.ack
    → AreSynced files
    → AreSynced (files ++ (s ∷ []))
AreSynced-snoc s [] e h = (e, tt)
AreSynced-snoc s (t ∷ files) e h = (h.0, AreSynced-snoc s files e h.1)

remove_file-AreSynced :
    (name : String) (files : List Segment) → AreSynced files → AreSynced (remove_file name files)
unfolding remove_file
remove_file-AreSynced name [] h = tt
remove_file-AreSynced name (t ∷ files) h = elim (Bool-cases (t.name == name)) [
  | inl here ↦ rw here h.1
  | inr other ↦ rw other (h.0, remove_file-AreSynced name files h.1)
]

set_both-AreSynced :
    (name : String) (n : ℕ) (files : List Segment)
    → AreSynced files
    → AreSynced (set_ack name n (set_acked name n files))
unfolding set_ack set_acked
set_both-AreSynced name n [] h = tt
set_both-AreSynced name n (t ∷ files) h = elim (Bool-cases (t.name == name)) [
  | inl here ↦
      subst (λ l. AreSynced (set_ack name n l)) (sym (if_true (t.name == name) _ _ here))
        (subst AreSynced (sym (if_true (t.name == name) _ _ here)) (refl, h.1))
  | inr other ↦
      subst (λ l. AreSynced (set_ack name n l)) (sym (if_false (t.name == name) _ _ other))
        (subst AreSynced (sym (if_false (t.name == name) _ _ other))
          (h.0, set_both-AreSynced name n files h.1))
]

pub reopened-AreSynced : (files : List Segment) → AreSynced files → reopened files ≡ files
unfolding reopened
reopened-AreSynced [] h = refl
reopened-AreSynced (t ∷ files) h =
    ap (λ n. record t { ack = n } ∷ reopened files) h.0
    ∙ ap (λ l. t ∷ l) (reopened-AreSynced files h.1)

pub reopened_synced : (files : List Segment) → AreSynced (reopened files)
unfolding reopened
reopened_synced [] = tt
reopened_synced (t ∷ files) = (refl, reopened_synced files)

find-set_acked :
    (name : String) (n : ℕ) (files : List Segment) (s : Segment)
    → find_segment name files ≡ some s
    → find_segment name (set_acked name n files) ≡ some (record s { acked = n })
unfolding find_segment set_acked
find-set_acked name n [] s h = cc
find-set_acked name n (t ∷ files) s h = elim (Bool-cases (t.name == name)) [
  | inl here ↦
      let same : t ≡ s = some-injective t s (ground (arith, h, here)) in ground (arith, here, same)
  | inr other ↦ ground (arith, other, find-set_acked name n files s (ground (arith, h, other)))
]

module _ (key : TraceEvent → String) where
  refs_in-set_acked :
      (k name : String) (n : ℕ) (files : List Segment)
      → refs_in key k (set_acked name n files) ≡ refs_in key k files
  unfolding set_acked refs_in
  refs_in-set_acked k name n [] = refl
  refs_in-set_acked k name n (t ∷ files) = elim (Bool-cases (t.name == name)) [
    | inl here ↦ ap (refs_in key k) (if_true (t.name == name) _ _ here)
    | inr other ↦
        ap (refs_in key k) (if_false (t.name == name) _ _ other)
        ∙ ap (λ l. segment_refs key k t.name 0 t.ack t.events ++ l)
            (refs_in-set_acked k name n files)
  ]

  abbrev pub Kept : Spool × Option SpoolError → Type 0
  Kept step = Agrees key step.0.files step.0.refs × AreSynced step.0.files

  remove_file-exhausted :
      (k name : String) (files : List Segment) (s : Segment)
      → find_segment name files ≡ some s
      → length s.events ≤ s.ack
      → refs_in key k (remove_file name files) ≡ refs_in key k files
  unfolding find_segment remove_file refs_in
  remove_file-exhausted k name [] s h l = cc
  remove_file-exhausted k name (t ∷ files) s h l = elim (Bool-cases (t.name == name)) [
    | inl here ↦
        let same : t ≡ s = some-injective t s (ground (arith, h, here)) in
        let long : length t.events ≤ t.ack =
          subst (λ (x : Segment). length x.events ≤ x.ack) (sym same) l in
        let old = exhausted key k t.name 0 t.ack t.events (omega arith) in
        ap (refs_in key k) (if_true (t.name == name) _ _ here)
        ∙ sym (ap (λ l. l ++ refs_in key k files) old)
    | inr other ↦
        let ih = remove_file-exhausted k name files s (ground (arith, h, other)) l in
        ap (refs_in key k) (if_false (t.name == name) _ _ other)
        ∙ ap (λ l. segment_refs key k t.name 0 t.ack t.events ++ l) ih
  ]

  finish-Kept :
      (o : Outcome) (s : Segment) (next : ℕ) (sp : Spool)
      → find_segment s.name sp.files ≡ some (record s { ack = next })
      → Agrees key sp.files sp.refs
      → AreSynced sp.files
      → Kept (finish o s next sp)
  unfolding finish
  finish-Kept o s next sp h a y = elim (Bool-cases (nat_eq next (length s.events))) [
    | inr more ↦ rw more (a, y)
    | inl whole ↦ elim (Bool-cases o.is_removed) [
      | inr left ↦ rw (whole, left) (a, y)
      | inl gone ↦
          let done : length s.events ≤ next = ground arith in
          let agrees : Agrees key (remove_file s.name sp.files) sp.refs = λ k.
            a k ∙ sym (remove_file-exhausted k s.name sp.files (record s { ack = next }) h done) in
          rw (whole, gone) (agrees, remove_file-AreSynced s.name sp.files y)
    ]
  ]

  advance-Agrees :
      (s : Segment) (next : ℕ) (sp : Spool)
      → s.ack ≤ next
      → find_segment s.name sp.files ≡ some s
      → Agrees key sp.files sp.refs
      → Agrees key (advance key s next sp).files (advance key s next sp).refs
  unfolding advance
  advance-Agrees s next sp l h a k =
      let count : s.ack + (next - s.ack) ≡ next = omega arith in
      forget_all key (next - s.ack) s.name sp.files s sp.refs h a k
      ∙ ap (λ n. refs_in key k (set_ack s.name n sp.files)) count

  acknowledge_segment-Kept :
      (o : Outcome) (w : Write) (s : Segment) (next : ℕ) (sp : Spool)
      → w ≢ renamed
      → s.ack ≤ next
      → find_segment s.name sp.files ≡ some s
      → Kept (sp, none)
      → Kept (acknowledge_segment key o w s next sp)
  unfolding acknowledge_segment advance
  acknowledge_segment-Kept o lost s next sp c l h a = a
  acknowledge_segment-Kept o renamed s next sp c l h a = absurd (c refl)
  acknowledge_segment-Kept o kept s next sp c l h a =
      let s' : Segment = record s { acked = next } in
      let disk : Spool = record sp { files = set_acked s.name next sp.files } in
      let found = find-set_acked s.name next sp.files s h in
      let agrees : Agrees key disk.files disk.refs =
        λ k. a.0 k ∙ sym (refs_in-set_acked k s.name next sp.files) in
      finish-Kept o s' next (advance key s' next disk)
        (find-set_ack s.name next disk.files s' found) (advance-Agrees s' next disk l found agrees)
        (set_both-AreSynced s.name next sp.files a.1)

  settle-Kept :
      (o : Outcome) (selected : List Ref) (sp : Spool) (s : Segment)
      → o.write ≢ renamed
      → find_segment s.name sp.files ≡ some s
      → Kept (sp, none)
      → Kept (settle key o selected sp s)
  unfolding settle
  settle-Kept o selected sp s c h a =
      by_run (run_of_indices s.ack (indices_of s.name selected)) refl
    where
      by_run :
          (r : Option ℕ)
          → run_of_indices s.ack (indices_of s.name selected) ≡ r
          → Kept (elim r [
            | none ↦ (sp, some out_of_order)
            | some next ↦ acknowledge_segment key o o.write s next sp
          ])
      by_run none e = a
      by_run (some next) e =
          let le = run_of_indices-le s.ack (indices_of s.name selected) next e in
          acknowledge_segment-Kept o o.write s next sp c le h a

  then_rest :
      (step : Spool × Option SpoolError) (more : Spool → Spool × Option SpoolError)
      → Kept step
      → ((next : Spool) → Kept (next, none) → Kept (more next))
      → Kept (elim step.1 [ some e ↦ (step.0, some e) | none ↦ more step.0 ])
  then_rest (sp, none) more one ih = ih sp one
  then_rest (sp, some e) more one ih = one

  pub settle_all-Kept :
      (outcome : String → Outcome) (names : List String) (selected : List Ref) (sp : Spool)
      → ((name : String) → (outcome name).write ≢ renamed)
      → Kept (sp, none)
      → Kept (settle_all key outcome names selected sp)
  unfolding settle_all
  settle_all-Kept outcome [] selected sp c a = a
  settle_all-Kept outcome (name ∷ names) selected sp c a =
      by_found (find_segment name sp.files) refl
        (λ next b. settle_all-Kept outcome names selected next c b)
    where
      by_found :
          (f : Option Segment)
          → find_segment name sp.files ≡ f
          → ((next : Spool) → Kept (next, none) → Kept (settle_all key outcome names selected next))
          → Kept (elim f [
            | none ↦ (sp, some no_segment)
            | some s ↦
                let step = settle key (outcome name) selected sp s in
                let rest = settle_all key outcome names selected step.0 in
                elim step.1 [ some e ↦ (step.0, some e) | none ↦ rest ]
          ])
      by_found none e ih = a
      by_found (some s) e ih =
          let named = find_segment_name name sp.files s e in
          let found : find_segment s.name sp.files ≡ some s =
            ap (λ n. find_segment n sp.files) named ∙ e in
          let one = settle-Kept (outcome name) selected sp s (c name) found a in
          then_rest (settle key (outcome name) selected sp s)
            (settle_all key outcome names selected) one ih
