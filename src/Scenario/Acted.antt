-- ===== src/Scenario/Acted.antt =====
-- What the validation of a phase's action asks of the jobs that are known, and leaves of them.
use mathlib.Core.Path.{subst}
use v.Common.{
  ℕ, ◌≡◌, ◌≢◌, refl, sym, ◌∙◌, ap, inl, inr, Bool, true, false, ◌||◌, Option, Bool-cases, List, [],
  ◌∷◌, String, ◌==◌, str_eq_iff, if◌then◌else◌, Dict, contains, arith,
}
use v.Common.Int.{ℤ}
use v.Common.Float.{Float}
use v.Scenario.Model.{NodeConfigs, Phase, should_await, Tracking}
use v.Scenario.Actions.{all_known, validate_stop_all}
use v.Scenario.Validate.{is_background_action, validate_action}
use v.Scenario.Kept.{
  Ph, Kept, validate_join-Kept, validate_wait-Kept, validate_wait_ready-Kept,
  validate_wait_jobs-Kept, validate_publish-Kept, validate_leave-Kept, validate_wait_ready-known,
  validate_wait_jobs-known,
}

pub true-false : true ≢ false
true-false h = cc

-- The jobs that run in the background after a phase, and after phases.
abbrev pub jobs_after : {F C : Type 0} → Phase F C → List String → List String
jobs_after p js = if p.action == "stop-all" then [] else if should_await p then js else p.job ∷ js

abbrev pub jobs_after_all : {F C : Type 0} → List (Phase F C) → List String → List String
jobs_after_all [] js = js
jobs_after_all (p ∷ ps) js = jobs_after_all ps (jobs_after p js)

abbrev pub waits_for_jobs : {F C : Type 0} → Phase F C → Bool
waits_for_jobs p = p.action == "wait-ready" || p.action == "wait-jobs"

-- A phase waits only for jobs that are known; if it runs in the background, its action may and its
-- job's name is new.
pub record IsTimely {F C : Type 0} (p : Phase F C) (js : List String) : Type 0 where
  pub waited : waits_for_jobs p ≡ true → all_known js p.jobs ≡ true
  pub fresh : should_await p ≡ false → contains p.job js ≡ false
  pub background : should_await p ≡ false → is_background_action p.action ≡ true

module _ (f : Float) (parse_duration : String → Option ℤ) (parse_float : String → Option f.F)
    (configs : NodeConfigs) (numbered : String → ℕ → String) where
  abbrev pub Q : Type 0
  Q = Ph f parse_duration parse_float configs

  pub record Acted (p : Q) (t : Tracking) (r : Q × Tracking) : Type 0 where
    pub known : r.1.known_jobs ≡ (if r.0.action == "stop-all" then [] else t.known_jobs)
    pub waited : waits_for_jobs r.0 ≡ true → all_known t.known_jobs r.0.jobs ≡ true

  Acted-of :
      (name : String) (p : Q) (t : Tracking) (r : Q × Tracking)
      → (p.action == name) ≡ true
      → Kept f parse_duration parse_float configs p t r
      → (name == "stop-all") ≡ false
      → ((name == "wait-ready" || name == "wait-jobs") ≡ true
          → all_known t.known_jobs p.jobs ≡ true)
      → Acted p t r
  Acted-of name p t r e k other w =
      let named : r.0.action ≡ name = k.same.action ∙ (str_eq_iff p.action name).0 e in
      record {
        known = k.known ∙ ground (arith, ap (λ a. a == "stop-all") named, other);
        waited = λ h.
            subst (λ js. all_known t.known_jobs js ≡ true) (sym k.same.jobs)
              (w (sym (ap (λ a. a == "wait-ready" || a == "wait-jobs") named) ∙ h));
      }

  stop_all-Acted :
      (p : Q) (t : Tracking) (r : Q × Tracking)
      → (p.action == "stop-all") ≡ true
      → validate_stop_all f parse_duration parse_float configs p t ≡ inr r
      → Acted p t r
  unfolding validate_stop_all
  stop_all-Acted p t r e h =
      let named = (str_eq_iff p.action "stop-all").0 e in
      let same : (p, record { background_joins = []; known_jobs = [] }) ≡ r = cc in
      subst (Acted p t) same (record {
        known = rw e refl;
        waited = λ w.
            absurd (true-false (sym w ∙ ap (λ a. a == "wait-ready" || a == "wait-jobs") named));
      })

  log-Acted :
      (p : Q) (t : Tracking) (r : Q × Tracking)
      → (p.action == "log") ≡ true
      → (p, t) ≡ r
      → Acted p t r
  log-Acted p t r e same = subst (Acted p t) same (
      Acted-of "log" p t (p, t) e
        (record {
          same = record { action = refl; job = refl; jobs = refl; await = refl };
          known = refl;
        })
        refl (λ w. absurd (true-false (sym w))))

  pub validate_action-Acted :
      (profiles : Dict configs.NodeConfig) (p : Q) (t : Tracking) (r : Q × Tracking)
      → validate_action f parse_duration parse_float configs numbered profiles p t ≡ inr r
      → Acted p t r
  unfolding validate_action
  validate_action-Acted profiles p t r h = elim (Bool-cases (p.action == "join")) [
    | inl e ↦
        Acted-of "join" p t r e
          (validate_join-Kept f parse_duration parse_float configs profiles p t r
            (ground (arith, e)))
          refl (λ w. absurd (true-false (sym w)))
    | inr n_join ↦ elim (Bool-cases (p.action == "wait")) [
      | inl e ↦
          Acted-of "wait" p t r e
            (validate_wait-Kept f parse_duration parse_float configs p t r
              (ground (arith, n_join, e)))
            refl (λ w. absurd (true-false (sym w)))
      | inr n_wait ↦ elim (Bool-cases (p.action == "wait-ready")) [
        | inl e ↦
            Acted-of "wait-ready" p t r e
              (validate_wait_ready-Kept f parse_duration parse_float configs p t r
                (ground (arith, n_join, n_wait, e)))
              refl
              (λ w.
                validate_wait_ready-known f parse_duration parse_float configs p t r
                  (ground (arith, n_join, n_wait, e)))
        | inr n_waitready ↦ elim (Bool-cases (p.action == "wait-jobs")) [
          | inl e ↦
              Acted-of "wait-jobs" p t r e
                (validate_wait_jobs-Kept f parse_duration parse_float configs p t r
                  (ground (arith, n_join, n_wait, n_waitready, e)))
                refl
                (λ w.
                  validate_wait_jobs-known f parse_duration parse_float configs p t r
                    (ground (arith, n_join, n_wait, n_waitready, e)))
          | inr n_waitjobs ↦ elim (Bool-cases (p.action == "publish")) [
            | inl e ↦
                Acted-of "publish" p t r e
                  (validate_publish-Kept f parse_duration parse_float configs p t r
                    (ground (arith, n_join, n_wait, n_waitready, n_waitjobs, e)))
                  refl (λ w. absurd (true-false (sym w)))
            | inr n_publish ↦ elim (Bool-cases (p.action == "leave")) [
              | inl e ↦
                  Acted-of "leave" p t r e
                    (validate_leave-Kept f parse_duration parse_float configs p t r
                      (ground (arith, n_join, n_wait, n_waitready, n_waitjobs, n_publish, e)))
                    refl (λ w. absurd (true-false (sym w)))
              | inr n_leave ↦ elim (Bool-cases (p.action == "stop-all")) [
                | inl e ↦
                    stop_all-Acted p t r e (
                      ground
                        (arith, n_join, n_wait, n_waitready, n_waitjobs, n_publish, n_leave, e))
                | inr n_stop ↦ elim (Bool-cases (p.action == "log")) [
                  | inl e ↦ log-Acted p t r e (
                      ground (
                        arith, n_join, n_wait, n_waitready, n_waitjobs, n_publish, n_leave, n_stop,
                        e,
                      ))
                  | inr n_log ↦ absurd (
                      ground (
                        arith, n_join, n_wait, n_waitready, n_waitjobs, n_publish, n_leave, n_stop,
                        n_log,
                      ))
                ]
              ]
            ]
          ]
        ]
      ]
    ]
  ]
