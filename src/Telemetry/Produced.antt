-- ===== src/Telemetry/Produced.antt =====
-- internal/peer/telemetry.go: each call of a producer keeps the count of events and drops.
use v.Common.{
  ℕ, ◌+◌, ◌<◌, ◌≡◌, refl, Bool, true, false, not, ◌&&◌, ◌||◌, inl, inr, Option, none, some,
  Option-cases, List, ◌++◌, String, ◌==◌, if◌then◌else◌, Bool-cases, arith,
}
use v.Model.{Time, TraceEvent}
use v.Sequences.Defs.{u64_mod}
use v.Telemetry.Clock.{Reading, ClockEstimate}
use v.Telemetry.Queue.{
  Telemetry, Random, reading_at, observation_reading, observe_clock, enqueue, report_drops,
  report_if_open,
}
use v.Telemetry.Measurement.{
  emit_with_clock, emit, emit_observed, measurement_event, measure, start_measurement, checkpoint,
  stop_measurement, accept_clock_estimate,
}
use v.Telemetry.Sound.{Sound, IsSound-raise, IsPlain, IsFresh, enqueue-Sound, report-Sound}

-- An operation of a producer, with what the clock and the random source hand it.
pub data Call : Type 0 where
  emits_with_clock : Time → TraceEvent → Reading → Call
  emits : Time → Time → TraceEvent → Call
  observes : Time → Time → (Reading → Option TraceEvent) → Bool → Call
  starts : Time → Time → List String → Call
  checks stops : Time → Time → Call
  syncs : ClockEstimate → Time → Call

pub call : Random → Call → Telemetry → Telemetry
call random (emits_with_clock now e r) t = emit_with_clock random now e r t
call random (emits now later e) t = emit random now later e t
call random (observes now later build priority) t = emit_observed random now later build priority t
call random (starts now later topics) t = (start_measurement random now later topics t).0
call random (checks now later) t = checkpoint random now later t
call random (stops now later) t = stop_measurement random now later t
call random (syncs e at) t = accept_clock_estimate e at t

-- The callers make no notices of drops themselves.
abbrev pub IsPlainCall : Call → Type 0
IsPlainCall (emits_with_clock now e r) = IsPlain e
IsPlainCall (emits now later e) = IsPlain e
IsPlainCall (observes now later build priority) =
    (r : Reading) (e : TraceEvent) → build r ≡ some e → IsPlain e
IsPlainCall (starts now later topics) = Unit
IsPlainCall (checks now later) = Unit
IsPlainCall (stops now later) = Unit
IsPlainCall (syncs e at) = Unit

-- Both branches of a test are sound.
either :
    (n : ℕ) (before : List TraceEvent) (lost_drops : ℕ) (b : Bool) (t u : Telemetry)
    → Sound n before lost_drops t
    → Sound n before lost_drops u
    → Sound n before lost_drops (if b then t else u)
either n before lost_drops true t u h k = h
either n before lost_drops false t u h k = k

module _ (n : ℕ) (before : List TraceEvent) (lost_drops : ℕ) (random : Random)
    (fresh : IsFresh n before lost_drops random) (room : n + 4 < u64_mod) where
  raise : (t : Telemetry) → Sound n before lost_drops t → Sound (n + 2) before lost_drops t
  raise t h =
      IsSound-raise n (n + 2) lost_drops t.sequence t.dropped (before ++ t.queue) (omega arith) h

  report_if_open-Sound :
      (now : Time) (t : Telemetry)
      → Sound n before lost_drops t
      → Sound (n + 1) before lost_drops (report_if_open random now t)
  unfolding report_if_open
  report_if_open-Sound now t h =
      either (n + 1) before lost_drops t.is_sealed t (report_drops random false now t)
        (IsSound-raise n (n + 1) lost_drops t.sequence t.dropped (before ++ t.queue) (omega arith)
          h)
        (report-Sound n before lost_drops random false now t (omega arith) fresh h)

  -- An event is enqueued after the drops are reported.
  second-Sound :
      (e : TraceEvent) (priority : Bool) (r : Reading) (t : Telemetry)
      → IsPlain e
      → Sound (n + 1) before lost_drops t
      → Sound (n + 2) before lost_drops (enqueue random e priority r t)
  second-Sound e priority r t plain h =
      let u = enqueue random e priority r t in
      IsSound-raise (n + 1 + 1) (n + 2) lost_drops u.sequence u.dropped (before ++ u.queue)
        (omega arith)
        (enqueue-Sound (n + 1) before lost_drops random e priority r t (omega arith) fresh plain h)

  emit_with_clock-Sound :
      (now : Time) (e : TraceEvent) (r : Reading) (t : Telemetry)
      → IsPlain e
      → Sound n before lost_drops t
      → Sound (n + 2) before lost_drops (emit_with_clock random now e r t)
  unfolding emit_with_clock
  emit_with_clock-Sound now e r t plain h =
      second-Sound e false r (report_if_open random now t) plain (report_if_open-Sound now t h)

  emit-Sound :
      (now later : Time) (e : TraceEvent) (t : Telemetry)
      → IsPlain e
      → Sound n before lost_drops t
      → Sound (n + 2) before lost_drops (emit random now later e t)
  unfolding emit
  emit-Sound now later e t plain h =
      let s = report_if_open random now t in
      second-Sound e false (reading_at later s) s plain (report_if_open-Sound now t h)

  emit_observed-Sound :
      (now later : Time) (build : Reading → Option TraceEvent) (priority : Bool) (t : Telemetry)
      → ((r : Reading) (e : TraceEvent) → build r ≡ some e → IsPlain e)
      → Sound n before lost_drops t
      → Sound (n + 2) before lost_drops (emit_observed random now later build priority t)
  unfolding emit_observed
  emit_observed-Sound now later build priority t plain h =
      let r = observation_reading now t in
      elim (Option-cases (build r)) [
        | inl skips ↦ rw (skips, emit_observed) (unfold observe_clock in raise t h)
        | inr (e, built) ↦
            rw (built, emit_observed)
              (second-Sound e priority r (report_if_open random later (observe_clock now t))
                (plain r e built)
                (report_if_open-Sound later (observe_clock now t) (unfold observe_clock in h)))
      ]

  measure-Sound :
      (now later : Time) (type : String) (topics : Option (List String)) (priority : Bool)
      (t : Telemetry)
      → (type == "telemetry_drop") ≡ false
      → Sound n before lost_drops t
      → Sound (n + 2) before lost_drops (measure random now later type topics priority t)
  unfolding measure
  measure-Sound now later type topics priority t plain h =
      let s = report_drops random priority now t in
      let r = observation_reading later s in
      second-Sound (measurement_event type r.timestamp topics) priority r (observe_clock later s)
        (unfold measurement_event in plain)
        (unfold observe_clock in
          report-Sound n before lost_drops random priority now t (omega arith) fresh h)

  start-Sound :
      (now later : Time) (topics : List String) (t : Telemetry)
      → Sound n before lost_drops t
      → Sound (n + 2) before lost_drops (start_measurement random now later topics t).0
  unfolding start_measurement
  start-Sound now later topics t h =
      elim (Bool-cases (t.measurement_started || t.measurement_stopped)) [
        | inl again ↦ rw again (raise t h)
        | inr first ↦
            rw first (measure-Sound now later "measurement_start" (some topics) false _ refl h)
      ]

  checkpoint-Sound :
      (now later : Time) (t : Telemetry)
      → Sound n before lost_drops t
      → Sound (n + 2) before lost_drops (checkpoint random now later t)
  unfolding checkpoint
  checkpoint-Sound now later t h =
      either (n + 2) before lost_drops (t.measurement_started && not t.measurement_stopped) _ t
        (measure-Sound now later "measurement_checkpoint" none false t refl h) (raise t h)

  stop-Sound :
      (now later : Time) (t : Telemetry)
      → Sound n before lost_drops t
      → Sound (n + 2) before lost_drops (stop_measurement random now later t)
  unfolding stop_measurement
  stop-Sound now later t h =
      either (n + 2) before lost_drops t.measurement_stopped t _ (raise t h) (
        either (n + 2) before lost_drops t.measurement_started _ _
          (measure-Sound now later "measurement_stop" none true _ refl h) (raise t h))

  pub call-Sound :
      (c : Call) (t : Telemetry)
      → IsPlainCall c
      → Sound n before lost_drops t
      → Sound (n + 2) before lost_drops (call random c t)
  unfolding call
  call-Sound (emits_with_clock now e r) t plain h = emit_with_clock-Sound now e r t plain h
  call-Sound (emits now later e) t plain h = emit-Sound now later e t plain h
  call-Sound (observes now later build priority) t plain h =
      emit_observed-Sound now later build priority t plain h
  call-Sound (starts now later topics) t plain h = start-Sound now later topics t h
  call-Sound (checks now later) t plain h = checkpoint-Sound now later t h
  call-Sound (stops now later) t plain h = stop-Sound now later t h
  call-Sound (syncs e at) t plain h = unfold accept_clock_estimate in raise t h
