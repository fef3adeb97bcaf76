-- ===== src/Forward/Queue.antt =====
-- internal/agent/agent.go: the queue of events that an Agent has taken from its Peers.
-- internal/agent/run_drain.go: the wait for the events of a run.
-- What the spool and the Controller answer are values that the caller hands in; the range over a map is
-- in the order of its list.
use v.Common.{
  ℕ, ◌+◌, Bool, true, false, ◌&&◌, ◌||◌, Option, none, some, List, [], ◌∷◌, ◌++◌, map, filter,
  String, ◌==◌, if◌then◌else◌, ltb, leb, nat_eq, length, take, drop, Dict, lookup, insert,
}
use v.Model.{TraceEvent, EventBatch}
use v.EventBatch.Defs.{Bytes, ok, err, marshal_event_batch_prefix}

abbrev pub queue_limit : ℕ
queue_limit = 50000

-- The fields of `Server` that `eventsMu` guards. While a request is under way `in_flight` holds its
-- events: `eventsInFlight` is its length, and `inFlightRuns` counts its events by run.
pub record Forwarder : Type 0 where
  pub id : String
  pub events : List TraceEvent
  pub in_flight : List TraceEvent
  pub terminations : Dict TraceEvent
  pub telemetry_closed : Bool
  pub spool_error : Option String

abbrev pub owned_by : String → TraceEvent → TraceEvent
owned_by id e = record e { agent_id = id }

-- `enqueueEvents`: `appended` is the error of `spool.append`.
unfoldable pub enqueue_events : Option String → EventBatch → Forwarder → Forwarder × Bool
enqueue_events appended batch s =
    if s.telemetry_closed
      || ltb queue_limit (length s.events + length s.in_flight + length batch.events)
    then (s, false)
    else elim appended [
      | some e ↦ (record s { spool_error = some e }, false)
      | none ↦ (record s { events = s.events ++ map (owned_by s.id) batch.events }, true)
    ]

-- `closeTelemetry`.
unfoldable pub close_telemetry : Forwarder → Forwarder
close_telemetry s = record s { telemetry_closed = true }

-- A Peer's first exit marker is kept, and an earlier one takes its place.
abbrev pub is_earlier : TraceEvent → Option TraceEvent → Bool
is_earlier e none = true
is_earlier e (some old) = ltb e.timestamp old.timestamp

abbrev pub or_old : Option String → Option String → Option String
or_old none old = old
or_old (some e) old = some e

-- `queueTermination`: the marker is kept even if it could not be persisted.
unfoldable pub queue_termination : Option String → TraceEvent → Forwarder → Forwarder
queue_termination appended e s =
    if is_earlier e (lookup e.node_id s.terminations)
    then record s {
      spool_error = or_old appended s.spool_error;
      terminations = insert e.node_id e s.terminations;
    }
    else s

-- The loop of `admitTerminationsLocked` over the markers.
unfoldable pub admit : Dict TraceEvent → Forwarder → Forwarder
admit [] s = record s { terminations = [] }
admit ((id, e) ∷ rest) s =
    let more = admit rest (record s { events = s.events ++ (e ∷ []) }) in
    if leb queue_limit (length s.events + length s.in_flight)
    then record s { terminations = (id, e) ∷ rest }
    else more

-- The first events become the request.
unfoldable pub split : ℕ → Forwarder → Forwarder
split n s = record s { in_flight = take n s.events; events = drop n s.events }

-- `flushEvents` up to its request.
unfoldable pub begin_flush : (TraceEvent → Option Bytes) → Option Bytes → Forwarder → Forwarder
begin_flush encode agent s =
    let admitted = admit s.terminations s in
    if ltb 0 (length s.in_flight)
    then s
    else if nat_eq (length admitted.events) 0
    then admitted
    else elim (marshal_event_batch_prefix encode agent admitted.events) [
      | err reason ↦ admitted
      | ok bytes n ↦ split n admitted
    ]

abbrev pub is_settled : Forwarder → Bool
is_settled s = nat_eq (length s.events) 0 && nat_eq (length s.terminations) 0

-- `flushEvents` after its request: `fine` tells that the Controller took the request and that
-- `spool.acknowledge` returned no error.
unfoldable pub end_flush : Bool → Forwarder → Forwarder
end_flush true s = record s {
  in_flight = [];
  spool_error = if is_settled s then none else s.spool_error;
}
end_flush false s = record s { in_flight = []; events = s.in_flight ++ s.events }

-- The events of a run.
unfoldable pub of_run : String → List TraceEvent → List TraceEvent
of_run run es = filter (λ e. e.run_id == run) es

unfoldable pub marker_count : String → Dict TraceEvent → ℕ
marker_count run [] = 0
marker_count run ((id, e) ∷ rest) = (if e.run_id == run then 1 else 0) + marker_count run rest

unfoldable pub remaining : String → Forwarder → ℕ
remaining run s =
    length (of_run run s.in_flight) + length (of_run run s.events) + marker_count run s.terminations

pub data Drain : Type 0 where
  waits : Drain
  drained : Option String → Drain
  gave_up : ℕ → Drain

-- A round of `drainRunEvents`: `ended` is `ctx.Err() != nil`. If it waits, `flushEvents` is next.
unfoldable pub drain_run_events : String → Bool → Forwarder → Drain
drain_run_events run ended s =
    if nat_eq (remaining run s) 0
    then drained s.spool_error
    else if ended
    then gave_up (remaining run s)
    else waits
