-- ===== src/Telemetry/Sound.antt =====
-- internal/peer/telemetry.go: no operation of a producer loses an event without counting it.
use mathlib.Core.List.{append_assoc}
use mathlib.Core.Path.{subst}
use v.Common.{
  ℕ, ◌+◌, ◌%◌, ◌≤◌, ◌<◌, ◌≡◌, refl, Bool, false, ◌||◌, inl, inr, List, [], ◌∷◌, ◌++◌, ◌==◌, lookup,
  leb, nat_eq, Bool-cases, length, length-append, All, arith,
}
use v.Model.{Time, TraceEvent}
use v.Sequences.Defs.{u64_mod}
use v.Telemetry.Clock.{Reading}
use v.Telemetry.Queue.{
  Telemetry, Random, next_sequence, identified, advance, drop_one, push, refuses, enqueue,
  drop_notice, report_drops, queue_limit, reading_at, carries_clock,
}
use v.Telemetry.Ordered.{
  Between, Between-push, Between-raise, drops_of, told, told-append, All-push,
}

abbrev pub HasSession : TraceEvent → Type 0
HasSession e = (e.session_id == "") ≡ false

-- Every number up to the last has gone to an event that is kept, or to a drop that is counted, or told
-- by a notice that is kept or that was lost; the events that are kept are in the order of their numbers
-- and of a session. `n` bounds the numbers.
pub record IsSound (n lost_drops sequence dropped : ℕ) (kept : List TraceEvent) : Type 0 where
  pub bounded : sequence ≤ n
  pub counted : sequence ≡ length kept + told kept + dropped + lost_drops
  pub ordered : Between 0 kept sequence
  pub sourced : All HasSession kept

pub IsSound-raise :
    (n m lost_drops sequence dropped : ℕ) (kept : List TraceEvent)
    → n ≤ m
    → IsSound n lost_drops sequence dropped kept
    → IsSound m lost_drops sequence dropped kept
IsSound-raise n m lost_drops sequence dropped kept le h = record {
  bounded = omega (arith, h.bounded);
  counted = h.counted;
  ordered = h.ordered;
  sourced = h.sourced;
}

drop-IsSound :
    (n lost_drops sequence dropped : ℕ) (kept : List TraceEvent)
    → n + 2 < u64_mod
    → IsSound n lost_drops sequence dropped kept
    → IsSound (n + 1) lost_drops ((sequence + 1) % u64_mod) ((dropped + 1) % u64_mod) kept
drop-IsSound n lost_drops sequence dropped kept room h = record {
  bounded = omega (arith, h.bounded);
  counted = omega (arith, h.bounded, h.counted);
  ordered =
      Between-raise 0 sequence ((sequence + 1) % u64_mod) kept h.ordered (omega (arith, h.bounded));
  sourced = h.sourced;
}

push-IsSound :
    (n lost_drops sequence dropped left : ℕ) (kept : List TraceEvent) (x : TraceEvent)
    → n + 2 < u64_mod
    → HasSession x
    → x.sequence ≡ (sequence + 1) % u64_mod
    → dropped ≡ left + drops_of x
    → IsSound n lost_drops sequence dropped kept
    → IsSound (n + 1) lost_drops ((sequence + 1) % u64_mod) left (kept ++ (x ∷ []))
unfolding told
push-IsSound n lost_drops sequence dropped left kept x room own number balance h = record {
  bounded = omega (arith, h.bounded);
  counted =
      omega (arith, h.bounded, h.counted, length-append kept (x ∷ []), told-append kept (x ∷ []));
  ordered =
      subst (Between 0 (kept ++ (x ∷ []))) number
        (Between-push 0 sequence kept x h.ordered (omega (arith, h.bounded, number)));
  sourced = All-push HasSession kept x h.sourced own;
}

-- `before` are the events that have left the queue.
abbrev pub Sound : ℕ → List TraceEvent → ℕ → Telemetry → Type 0
Sound n before lost_drops t = IsSound n lost_drops t.sequence t.dropped (before ++ t.queue)

-- An event that is no notice of drops.
abbrev pub IsPlain : TraceEvent → Type 0
IsPlain e = (e.type == "telemetry_drop") ≡ false

module _ (n : ℕ) (before : List TraceEvent) (lost_drops : ℕ) (random : Random) where
  -- `rand.Text` returns a text that is not empty.
  abbrev pub IsFresh : Type 0
  IsFresh = (random.session == "") ≡ false

  identified-HasSession :
      (r : Reading) (e : TraceEvent) (t : Telemetry)
      → IsFresh
      → HasSession (identified random r e t)
  unfolding identified
  identified-HasSession r e t fresh = elim (Bool-cases (t.session_id == "")) [
    | inl unset ↦ rw unset fresh
    | inr set ↦ rw set set
  ]

  plain-drops :
      (r : Reading) (e : TraceEvent) (t : Telemetry)
      → IsPlain e
      → drops_of (identified random r e t) ≡ 0
  unfolding identified drops_of
  plain-drops r e t plain = rw plain

  pub enqueue-Sound :
      (e : TraceEvent) (priority : Bool) (r : Reading) (t : Telemetry)
      → n + 2 < u64_mod
      → IsFresh
      → IsPlain e
      → Sound n before lost_drops t
      → Sound (n + 1) before lost_drops (enqueue random e priority r t)
  unfolding enqueue
  enqueue-Sound e priority r t room fresh plain h = elim (Bool-cases (refuses priority t)) [
    | inl full ↦ rw full (
        unfold drop_one advance in
        drop-IsSound n lost_drops t.sequence t.dropped (before ++ t.queue) room h)
    | inr open_queue ↦
        let x = identified random r e t in
        let one = append_assoc before t.queue (x ∷ []) in
        let pushed =
          push-IsSound n lost_drops t.sequence t.dropped t.dropped (before ++ t.queue) x room
            (identified-HasSession r e t fresh) (unfold identified in refl)
            (omega (arith, plain-drops r e t plain)) h in
        rw open_queue (
          unfold push advance in
          subst (IsSound (n + 1) lost_drops (next_sequence t) t.dropped) one pushed)
  ]

  notice-drops :
      (r : Reading) (count : ℕ) (t : Telemetry)
      → drops_of (identified random r (drop_notice count) t) ≡ count
  unfolding identified drops_of drop_notice carries_clock lookup
  notice-drops r count t = ground arith

  pub report-Sound :
      (priority : Bool) (now : Time) (t : Telemetry)
      → n + 2 < u64_mod
      → IsFresh
      → Sound n before lost_drops t
      → Sound (n + 1) before lost_drops (report_drops random priority now t)
  unfolding report_drops
  report-Sound priority now t room fresh h =
      elim (Bool-cases (nat_eq t.dropped 0 || leb (queue_limit priority t) (length t.queue))) [
        | inl quiet ↦ rw quiet (
            IsSound-raise n (n + 1) lost_drops t.sequence t.dropped (before ++ t.queue)
              (omega arith) h)
        | inr due ↦
            let x = identified random (reading_at now t) (drop_notice t.dropped) t in
            let one = append_assoc before t.queue (x ∷ []) in
            let pushed =
              push-IsSound n lost_drops t.sequence t.dropped 0 (before ++ t.queue) x room
                (identified-HasSession (reading_at now t) (drop_notice t.dropped) t fresh)
                (unfold identified in refl)
                (omega (arith, notice-drops (reading_at now t) t.dropped t)) h in
            rw due (
              unfold push advance in
              subst (IsSound (n + 1) lost_drops (next_sequence t) 0) one pushed)
      ]
