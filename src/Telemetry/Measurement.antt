-- ===== src/Telemetry/Measurement.antt =====
-- internal/peer/telemetry.go: what the producers of events call, each under the mutex.
use v.Common.{
  Bool, true, false, not, ◌&&◌, ◌||◌, Option, none, some, List, [], ◌∷◌, String, if◌then◌else◌,
}
use v.Model.{Time, TraceEvent, texts}
use v.Telemetry.Clock.{ClockEstimate, Reading, sample_of}
use v.Telemetry.Queue.{
  Telemetry, Random, reading_at, observation_reading, observe_clock, enqueue, report_drops,
  report_if_open, drop_notice,
}

-- `emitWithClock`.
unfoldable pub emit_with_clock : Random → Time → TraceEvent → Reading → Telemetry → Telemetry
emit_with_clock random now e r t = enqueue random e false r (report_if_open random now t)

-- `emit`, which reads the clock again for the event.
unfoldable pub emit : Random → Time → Time → TraceEvent → Telemetry → Telemetry
emit random now later e t =
    let open_state = report_if_open random now t in
    enqueue random e false (reading_at later open_state) open_state

-- `emitObservedPriority`: the event is built from a reading that is taken under the mutex.
unfoldable pub emit_observed :
    Random → Time → Time → (Reading → Option TraceEvent) → Bool → Telemetry → Telemetry
emit_observed random now later build priority t =
    let r = observation_reading now t in
    elim (build r) [
      | none ↦ observe_clock now t
      | some e ↦ enqueue random e priority r (report_if_open random later (observe_clock now t))
    ]

-- An event of the measurement itself.
unfoldable pub measurement_event : String → Time → Option (List String) → TraceEvent
unfolding drop_notice
measurement_event type at topics = record (drop_notice 0) {
  type = type;
  timestamp = at;
  fields = elim topics [ none ↦ none | some l ↦ some (("subscribedTopics", texts l) ∷ []) ];
}

-- Drops are reported, and then the event is enqueued with a reading of its own.
unfoldable pub measure :
    Random → Time → Time → String → Option (List String) → Bool → Telemetry → Telemetry
measure random now later type topics priority t =
    let reported = report_drops random priority now t in
    let r = observation_reading later reported in
    enqueue random (measurement_event type r.timestamp topics) priority r
      (observe_clock later reported)

-- `startMeasurement`.
unfoldable pub start_measurement : Random → Time → Time → List String → Telemetry → Telemetry × Bool
start_measurement random now later topics t =
    if t.measurement_started || t.measurement_stopped then (t, false) else (
      measure random now later "measurement_start" (some topics) false
          (record t { measurement_started = true; measurement_done = false }),
      true,
    )

-- `checkpoint`.
unfoldable pub checkpoint : Random → Time → Time → Telemetry → Telemetry
checkpoint random now later t =
    if t.measurement_started && not t.measurement_stopped
    then measure random now later "measurement_checkpoint" none false t
    else t

-- `stopMeasurement`.
unfoldable pub stop_measurement : Random → Time → Time → Telemetry → Telemetry
stop_measurement random now later t =
    if t.measurement_stopped
    then t
    else if t.measurement_started
    then record (measure random now later "measurement_stop" none true
        (record t { measurement_stopped = true })) { measurement_done = true }
    else record t { measurement_stopped = true }

-- `acceptClockEstimate`.
unfoldable pub accept_clock_estimate : ClockEstimate → Time → Telemetry → Telemetry
accept_clock_estimate e at t = record t { clock = some (sample_of e at) }
