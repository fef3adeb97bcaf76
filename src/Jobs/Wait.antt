-- ===== src/Jobs/Wait.antt =====
-- The waits on jobs, while the jobs go on: a step relation between the table and the loop of a wait.
use mathlib.Core.Path.{subst}
use v.Common.{
  ◌≡◌, ◌⊎◌, refl, sym, Bool, true, false, Option, none, some, Option-cases, List, [], ◌∷◌, String,
  ◌==◌, str_eq_iff, if◌then◌else◌, Bool-cases, inl, inr, Dict, lookup, lookup-insert, contains,
  remove, contains-remove, arith,
}
use v.Jobs.Defs.{
  Job, finish_job, context_done, job_failed, Waiting, waiting, returned, settle, Choice, context,
  channel, result_of, wait_round,
}

pub record System : Type 0 where
  pub table : Dict Job
  pub waiter : Waiting

abbrev pub is_done : Option Job → Bool
is_done none = false
is_done (some j) = j.done

-- A case of the select is ready when its channel is closed; the context may end at any time.
pub data Ready (t : Dict Job) (armed : List String) : Choice → Type 0 where
  ended : Ready t armed context
  closed :
      {id : String}
      → contains id armed ≡ true
      → is_done (lookup id t) ≡ true
      → Ready t armed (channel id)

-- A running job ends with some result, or the loop makes a round, as long as a job is left.
pub data Step (strict : Bool) : System → System → Type 0 where
  ends :
      {s : System} (id : String) (e : Option String) (j : Job)
      → lookup id s.table ≡ some j
      → j.done ≡ false
      → Step strict s (record s { table = finish_job id e s.table })
  round :
      {s : System} (c : Choice) (id : String) (ids : List String)
      → s.waiter ≡ waiting (id ∷ ids)
      → Ready s.table (id ∷ ids) c
      → Step strict s (record s { waiter = wait_round strict c s.table (id ∷ ids) })

pub data Reach (strict : Bool) (s : System) : System → Type 0 where
  here : Reach strict s s
  next : {t u : System} → Reach strict s t → Step strict t u → Reach strict s u

-- A job has ended, and well if the wait looks at results.
abbrev pub EndsWell : Bool → Option Job → Type 0
EndsWell strict none = ⊥
EndsWell strict (some j) = (j.done ≡ true) × (strict ≡ true → j.err ≡ none)

-- Each selected job is still observed or has ended well, unless the wait has failed; a failure is
-- the result of a selected job that has ended, or the end of the context.
abbrev pub Holds : Bool → List String → Dict Job → Waiting → Type 0
Holds strict l t (waiting armed) =
    ((k : String) → contains k l ≡ true → (contains k armed ≡ true) ⊎ EndsWell strict (lookup k t))
    × ((k : String) → contains k armed ≡ true → contains k l ≡ true)
Holds strict l t (returned none) = (k : String) → contains k l ≡ true → EndsWell strict (lookup k t)
Holds strict l t (returned (some context_done)) = Unit
Holds strict l t (returned (some (job_failed id e))) =
    (strict ≡ true)
    × (contains id l ≡ true)
    × (j : Job) × (lookup id t ≡ some j)
    × (j.done ≡ true)
    × (j.err ≡ some e)

finish_job-lookup :
    (id : String) (e : Option String) (t : Dict Job) (j : Job) (k : String)
    → lookup id t ≡ some j
    → lookup k (finish_job id e t)
      ≡ (if id == k then some (record j { done = true; err = e }) else lookup k t)
unfolding finish_job
finish_job-lookup id e t j k h =
    ground (arith, h, lookup-insert id k (record j { done = true; err = e }) t)

-- What has ended stays as it is.
finish_job-keeps :
    (id : String) (e : Option String) (t : Dict Job) (j w : Job) (k : String)
    → lookup id t ≡ some j
    → j.done ≡ false
    → lookup k t ≡ some w
    → w.done ≡ true
    → lookup k (finish_job id e t) ≡ some w
finish_job-keeps id e t j w k h busy hk over =
    ground (arith, finish_job-lookup id e t j k h, str_eq_iff id k)

EndsWell-finish :
    (strict : Bool) (id : String) (e : Option String) (t : Dict Job) (j : Job) (k : String)
    → lookup id t ≡ some j
    → j.done ≡ false
    → EndsWell strict (lookup k t)
    → EndsWell strict (lookup k (finish_job id e t))
EndsWell-finish strict id e t j k h busy w = elim (Option-cases (lookup k t)) [
  | inl gone ↦ absurd (subst (EndsWell strict) gone w)
  | inr (v, hk) ↦
      let well = subst (EndsWell strict) hk w in
      rw (finish_job-keeps id e t j v k h busy hk well.0) well
]

finish-Holds :
    (strict : Bool) (l : List String) (id : String) (e : Option String) (t : Dict Job) (j : Job)
    (w : Waiting)
    → lookup id t ≡ some j
    → j.done ≡ false
    → Holds strict l t w
    → Holds strict l (finish_job id e t) w
finish-Holds strict l id e t j (waiting armed) h busy (p, sub) = (
  (λ k m. elim (p k m) [
    | inl a ↦ inl a
    | inr w ↦ inr (EndsWell-finish strict id e t j k h busy w)
  ]),
  sub,
)
finish-Holds strict l id e t j (returned none) h busy p =
    λ k m. EndsWell-finish strict id e t j k h busy (p k m)
finish-Holds strict l id e t j (returned (some context_done)) h busy p = tt
finish-Holds strict l id e t j (returned (some (job_failed i f))) h busy (s, m, v, hk, over, err) =
    (s, m, v, finish_job-keeps id e t j v i h busy hk over, over, err)

settle-Holds :
    (strict : Bool) (l : List String) (t : Dict Job) (r : List String)
    → ((k : String) → contains k l ≡ true → (contains k r ≡ true) ⊎ EndsWell strict (lookup k t))
    → ((k : String) → contains k r ≡ true → contains k l ≡ true)
    → Holds strict l t (settle r)
settle-Holds strict l t [] p sub =
    λ k m. elim (p k m) [ inl a ↦ absurd (unfold contains in cc a) | inr w ↦ w ]
settle-Holds strict l t (id ∷ ids) p sub = (p, sub)

result_of-EndsWell :
    (strict : Bool) (o : Option Job)
    → is_done o ≡ true
    → result_of strict o ≡ none
    → EndsWell strict o
result_of-EndsWell strict none d e = cc
result_of-EndsWell false (some j) d e = (d, λ h. cc)
result_of-EndsWell true (some j) d e = (d, λ h. e)

result_of-some :
    (strict : Bool) (o : Option Job) (e : String)
    → result_of strict o ≡ some e
    → (strict ≡ true) × (j : Job) × (o ≡ some j) × (j.err ≡ some e)
result_of-some strict none e h = cc
result_of-some false (some j) e h = cc
result_of-some true (some j) e h = (refl, j, refl, h)

channel-Holds :
    (strict : Bool) (l : List String) (t : Dict Job) (armed : List String) (id : String)
    → contains id armed ≡ true
    → is_done (lookup id t) ≡ true
    → Holds strict l t (waiting armed)
    → Holds strict l t (wait_round strict (channel id) t armed)
unfolding wait_round
channel-Holds strict l t armed id a over (p, sub) =
    elim (Option-cases (result_of strict (lookup id t))) [
      | inr (e, failed) ↦
          let (s, j, h, err) = result_of-some strict (lookup id t) e failed in
          let r : wait_round strict (channel id) t armed ≡ returned (some (job_failed id e)) =
            ground (arith, failed) in
          subst (Holds strict l t) (sym r)
            (s, sub id a, j, h, subst (λ o. is_done o ≡ true) h over, err)
      | inl fine ↦
          let r : wait_round strict (channel id) t armed ≡ settle (remove id armed) =
            ground (arith, fine) in
          subst (Holds strict l t) (sym r) (
            settle-Holds strict l t (remove id armed)
              (λ k m. elim (Bool-cases (id == k)) [
                | inl same ↦ inr (
                    subst (λ i. EndsWell strict (lookup i t)) ((str_eq_iff id k).0 same)
                      (result_of-EndsWell strict (lookup id t) over fine))
                | inr other ↦ elim (p k m) [
                  | inl b ↦ inl (rw (contains-remove id k armed, other) b)
                  | inr w ↦ inr w
                ]
              ])
              (λ k m. sub k (ground (arith, contains-remove id k armed))))
    ]

Step-Holds :
    (strict : Bool) (l : List String) {s u : System}
    → Step strict s u
    → Holds strict l s.table s.waiter
    → Holds strict l u.table u.waiter
unfolding wait_round
Step-Holds strict l {s} (ends id e j h busy) p =
    finish-Holds strict l id e s.table j s.waiter h busy p
Step-Holds strict l {s} (round c id ids w r) p = round_of c r (subst (Holds strict l s.table) w p)
  where
    round_of :
        (c : Choice)
        → Ready s.table (id ∷ ids) c
        → Holds strict l s.table (waiting (id ∷ ids))
        → Holds strict l s.table (wait_round strict c s.table (id ∷ ids))
    round_of context r q = tt
    round_of (channel i) (closed a over) q = channel-Holds strict l s.table (id ∷ ids) i a over q

pub Reach-Holds :
    (strict : Bool) (l : List String) {s u : System}
    → Reach strict s u
    → Holds strict l s.table s.waiter
    → Holds strict l u.table u.waiter
Reach-Holds strict l here p = p
Reach-Holds strict l (next r st) p = Step-Holds strict l st (Reach-Holds strict l r p)

abbrev pub begun : Dict Job → List String → System
begun t l = record { table = t; waiter = settle l }

pub begun-Holds : (strict : Bool) (t : Dict Job) (l : List String) → Holds strict l t (settle l)
begun-Holds strict t l = settle-Holds strict l t l (λ k m. inl m) (λ k m. m)
