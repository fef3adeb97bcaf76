-- ===== src/Scenario/Kept.antt =====
-- What the validation of an action keeps of a phase, and of the jobs that are known.
use mathlib.Core.Path.{subst}
use v.Common.{
  ◌≡◌, refl, sym, ◌⊎◌, inl, inr, true, false, not, ◌&&◌, Option, none, some, Bool-cases, List, [],
  ◌∷◌, String, Dict, first_of, first_of-none, fail_if-false, arith,
}
use v.Common.Int.{ℤ}
use v.Common.Float.{Float}
use v.Scenario.Model.{NodeConfigs, should_await, Tracking, is_nil}
use v.Scenario.Actions.{
  or_else, unless, P, E, all_known, overlay, base_config, join_defaults, join_errors, tracked_join,
  resolve_node_config, validate_join, validate_wait, validate_wait_ready, validate_wait_jobs,
  validate_publish, validate_leave,
}

pub unless-inr : {E A : Type 0} (o : Option E) (a b : A) → unless o a ≡ inr b → (o ≡ none) × (a ≡ b)
unless-inr (some e) a b h = cc
unless-inr none a b h = (refl, cc)

pub or_else-inr :
    {E A B : Type 0} (r : E ⊎ A) (k : A → E ⊎ B) (b : B)
    → or_else r k ≡ inr b
    → (a : A) × (r ≡ inr a) × (k a ≡ inr b)
or_else-inr (inl e) k b h = cc
or_else-inr (inr a) k b h = (a, refl, h)

nil_known :
    (known jobs : List String)
    → (not (is_nil jobs) && not (all_known known jobs)) ≡ false
    → all_known known jobs ≡ true
unfolding all_known
nil_known known [] h = refl
nil_known known (j ∷ js) h = ground (arith, h)

module _ (f : Float) (parse_duration : String → Option ℤ) (parse_float : String → Option f.F)
    (configs : NodeConfigs) where
  abbrev pub Ph : Type 0
  Ph = P f parse_duration parse_float configs

  abbrev Result : Type 0
  Result = E f parse_duration parse_float configs ⊎ (Ph × Tracking)

  -- The parts of a phase that say which jobs it starts and waits for.
  pub record SameJobs (p q : Ph) : Type 0 where
    pub action : q.action ≡ p.action
    pub job : q.job ≡ p.job
    pub jobs : q.jobs ≡ p.jobs
    pub await : q.await ≡ p.await

  pub record Kept (p : Ph) (t : Tracking) (r : Ph × Tracking) : Type 0 where
    pub same : SameJobs p r.0
    pub known : r.1.known_jobs ≡ t.known_jobs

  overlay-SameJobs :
      (p q : Ph) (base : configs.NodeConfig)
      → overlay f parse_duration parse_float configs p base ≡ inr q
      → SameJobs p q
  unfolding overlay
  overlay-SameJobs p q base h =
      subst (SameJobs p) (unless-inr _ _ q h).1
        (record { action = refl; job = refl; jobs = refl; await = refl })

  resolve-SameJobs :
      (profiles : Dict configs.NodeConfig) (p q : Ph)
      → resolve_node_config f parse_duration parse_float configs profiles p ≡ inr q
      → SameJobs p q
  unfolding resolve_node_config
  resolve-SameJobs profiles p q h =
      let (base, e, k) =
        or_else-inr (base_config f parse_duration parse_float configs profiles p)
          (overlay f parse_duration parse_float configs p) q h in
      overlay-SameJobs p q base k

  inr-path : (a b : Ph × Tracking) (r : Result) → r ≡ inr a → r ≡ inr b → a ≡ b
  inr-path a b r h k = cc

  tracked_join-Kept :
      (p q : Ph) (t : Tracking)
      → SameJobs p q
      → Kept p t (tracked_join f parse_duration parse_float configs t q)
  tracked_join-Kept p q t s = elim (Bool-cases (should_await q)) [
    | inl waits ↦ record { same = s; known = ground (arith, waits) }
    | inr runs ↦ record { same = s; known = ground (arith, runs) }
  ]

  pub validate_join-Kept :
      (profiles : Dict configs.NodeConfig) (p : Ph) (t : Tracking) (r : Ph × Tracking)
      → validate_join f parse_duration parse_float configs profiles p t ≡ inr r
      → Kept p t r
  unfolding validate_join
  validate_join-Kept profiles p t r h =
      let q = join_defaults f parse_duration parse_float configs p in
      let end : Ph → Result = λ q.
        or_else (resolve_node_config f parse_duration parse_float configs profiles q)
          (λ r. inr (tracked_join f parse_duration parse_float configs t r)) in
      let (a, e, k) =
        or_else-inr (unless (first_of (join_errors f parse_duration parse_float configs q)) q) end r
          h in
      let (b, e', k') =
        or_else-inr (resolve_node_config f parse_duration parse_float configs profiles a)
          (λ r. inr (tracked_join f parse_duration parse_float configs t r)) r k in
      let same : SameJobs q b =
        subst (λ a. SameJobs a b) (sym (unless-inr _ q a e).1) (resolve-SameJobs profiles a b e') in
      let same' : SameJobs p b = record {
        action = same.action;
        job = same.job;
        jobs = same.jobs;
        await = same.await;
      } in
      subst (Kept p t)
        (inr-path (tracked_join f parse_duration parse_float configs t b) r _ refl k')
        (tracked_join-Kept p b t same')

  pub validate_wait-Kept :
      (p : Ph) (t : Tracking) (r : Ph × Tracking)
      → validate_wait f parse_duration parse_float configs p t ≡ inr r
      → Kept p t r
  unfolding validate_wait
  validate_wait-Kept p t r h = subst (Kept p t) (unless-inr _ _ r h).1 (record {
    same = record { action = refl; job = refl; jobs = refl; await = refl };
    known = refl;
  })

  pub validate_wait_ready-Kept :
      (p : Ph) (t : Tracking) (r : Ph × Tracking)
      → validate_wait_ready f parse_duration parse_float configs p t ≡ inr r
      → Kept p t r
  unfolding validate_wait_ready
  validate_wait_ready-Kept p t r h = subst (Kept p t) (unless-inr _ _ r h).1 (record {
    same = record { action = refl; job = refl; jobs = refl; await = refl };
    known = refl;
  })

  pub validate_wait_ready-known :
      (p : Ph) (t : Tracking) (r : Ph × Tracking)
      → validate_wait_ready f parse_duration parse_float configs p t ≡ inr r
      → all_known t.known_jobs p.jobs ≡ true
  unfolding validate_wait_ready
  validate_wait_ready-known p t r h =
      let none_fails = first_of-none _ (unless-inr _ _ r h).0 in
      let known : not (all_known t.known_jobs p.jobs) ≡ false = fail_if-false _ _ none_fails.1.0 in
      ground (arith, known)

  pub validate_wait_jobs-Kept :
      (p : Ph) (t : Tracking) (r : Ph × Tracking)
      → validate_wait_jobs f parse_duration parse_float configs p t ≡ inr r
      → Kept p t r
  unfolding validate_wait_jobs
  validate_wait_jobs-Kept p t r h = subst (Kept p t) (unless-inr _ _ r h).1 (record {
    same = record { action = refl; job = refl; jobs = refl; await = refl };
    known = refl;
  })

  pub validate_publish-Kept :
      (p : Ph) (t : Tracking) (r : Ph × Tracking)
      → validate_publish f parse_duration parse_float configs p t ≡ inr r
      → Kept p t r
  unfolding validate_publish
  validate_publish-Kept p t r h = subst (Kept p t) (unless-inr _ _ r h).1 (record {
    same = record { action = refl; job = refl; jobs = refl; await = refl };
    known = refl;
  })

  pub validate_leave-Kept :
      (p : Ph) (t : Tracking) (r : Ph × Tracking)
      → validate_leave f parse_duration parse_float configs p t ≡ inr r
      → Kept p t r
  unfolding validate_leave
  validate_leave-Kept p t r h = subst (Kept p t) (unless-inr _ _ r h).1 (record {
    same = record { action = refl; job = refl; jobs = refl; await = refl };
    known = refl;
  })

  pub validate_wait_jobs-known :
      (p : Ph) (t : Tracking) (r : Ph × Tracking)
      → validate_wait_jobs f parse_duration parse_float configs p t ≡ inr r
      → all_known t.known_jobs p.jobs ≡ true
  unfolding validate_wait_jobs
  validate_wait_jobs-known p t r h =
      let none_fails = first_of-none _ (unless-inr _ _ r h).0 in
      let known : (not (is_nil p.jobs) && not (all_known t.known_jobs p.jobs)) ≡ false =
        fail_if-false _ _ none_fails.1.1.0 in
      nil_known t.known_jobs p.jobs known
