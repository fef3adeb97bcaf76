-- ===== src/Telemetry/Queue.antt =====
-- internal/peer/telemetry.go: the source sequence of a Peer, its queue and the count of dropped events.
-- `rand.Text` is a value that the caller hands in: a text for the session and one for each number.
-- The channel is buffered, and all producers hold the mutex.
use v.Common.{
  ℕ, ◌+◌, ◌-◌, ◌%◌, Bool, false, not, ◌&&◌, ◌||◌, Option, none, some, List, [], ◌∷◌, ◌++◌, String,
  ◌==◌, if◌then◌else◌, ltb, leb, nat_eq, length, Dict, lookup, insert, or_zero,
}
use v.Model.{Time, is_zero, Node, TraceEvent, FieldValue, text, number, milliseconds}
use v.Sequences.Defs.{u64_mod}
use v.Telemetry.Clock.{ClockSample, Reading, clock_reading_at, after_last}

pub record Telemetry : Type 0 where
  pub node : Node
  pub queue : List TraceEvent
  pub capacity : ℕ
  pub dropped : ℕ
  pub session_id : String
  pub sequence : ℕ
  pub observed_at : Time
  pub measurement_started : Bool
  pub measurement_stopped : Bool
  pub measurement_done : Bool  -- the channel is closed
  pub is_sealed : Bool
  pub clock : Option ClockSample

-- `newTelemetry`.
unfoldable pub new_telemetry : Node → Telemetry
new_telemetry n = record {
  node = n;
  queue = [];
  capacity = 10000;
  dropped = 0;
  session_id = "";
  sequence = 0;
  observed_at = 0;
  measurement_started = false;
  measurement_stopped = false;
  measurement_done = false;
  is_sealed = false;
  clock = none;
}

-- What `rand.Text` returns: for the session, and for the event of a number.
pub record Random : Type 0 where
  pub session : String
  pub event : ℕ → String

-- `t.clockReading()` at a time.
unfoldable pub reading_at : Time → Telemetry → Reading
reading_at now t = clock_reading_at now t.clock

-- `observationClockLocked`.
unfoldable pub observation_reading : Time → Telemetry → Reading
observation_reading now t = after_last t.observed_at (reading_at now t)

unfoldable pub observe_clock : Time → Telemetry → Telemetry
observe_clock now t = record t { observed_at = (observation_reading now t).timestamp }

-- `queueLimit`.
unfoldable pub queue_limit : Bool → Telemetry → ℕ
queue_limit priority t = if not priority && leb 4 t.capacity then t.capacity - 3 else t.capacity

abbrev pub is_one : Option FieldValue → Bool
is_one (some (number n)) = nat_eq n 1
is_one _ = false

-- `event.Fields[name]`.
abbrev pub field_of : String → TraceEvent → Option FieldValue
field_of name e = elim e.fields [ none ↦ none | some fields ↦ lookup name fields ]

-- The events that carry the clock's estimate.
unfoldable pub carries_clock : TraceEvent → Bool
carries_clock e =
    e.type == "measurement_start"
    || (e.type == "measurement_checkpoint")
    || (e.type == "measurement_stop")
    || (e.type == "publish")
    || (e.type == "deliver")
    || (e.type == "duplicate")
    || (e.type == "bandwidth")
    || (e.type == "rpc_metadata")
    || (e.type == "pubsub_reject")
    || (e.type == "graft")
    || (e.type == "prune")
    || (e.type == "join")
    || (e.type == "leave")
    || is_one (field_of "rpcMetadataVersion" e)

-- The fields of the clock; a nil map is made first.
unfoldable pub with_clock : Reading → Option (Dict FieldValue) → Option (Dict FieldValue)
with_clock r fields = some (
    insert "clockUncertaintyMs" (milliseconds r.uncertainty) (
      insert "clockOffsetMs" (milliseconds r.offset)
        (insert "clockBasis" (text "controller-offset-v1") (or_zero [] fields))))

-- The number of the next event of the source.
abbrev pub next_sequence : Telemetry → ℕ
next_sequence t = (t.sequence + 1) % u64_mod

-- What `identifyLockedWithClock` returns.
unfoldable pub identified : Random → Reading → TraceEvent → Telemetry → TraceEvent
unfolding carries_clock with_clock
identified random r e t = record e {
  session_id = if t.session_id == "" then random.session else t.session_id;
  sequence = next_sequence t;
  run_id = t.node.run_id;
  node_id = t.node.id;
  group = t.node.group;
  agent_id = t.node.agent_id;
  event_id = if e.event_id == "" then random.event (next_sequence t) else e.event_id;
  timestamp = if is_zero e.timestamp then r.timestamp else e.timestamp;
  fields = if r.synchronized && carries_clock e then with_clock r e.fields else e.fields;
}

-- What `identifyLockedWithClock` changes.
unfoldable pub advance : Random → Telemetry → Telemetry
advance random t = record t {
  session_id = if t.session_id == "" then random.session else t.session_id;
  sequence = next_sequence t;
}

-- `t.dropped.Add(1)`.
unfoldable pub drop_one : Telemetry → Telemetry
drop_one t = record t { dropped = (t.dropped + 1) % u64_mod }

unfoldable pub push : TraceEvent → Telemetry → Telemetry
push e t = record t { queue = t.queue ++ (e ∷ []) }

-- The test of `enqueueLockedWithClock`, and a send that would block.
unfoldable pub refuses : Bool → Telemetry → Bool
unfolding queue_limit
refuses priority t =
    t.is_sealed
    || (ltb 0 t.capacity && leb (queue_limit priority t) (length t.queue))
    || leb t.capacity (length t.queue)

-- `enqueueLockedWithClock`.
unfoldable pub enqueue : Random → TraceEvent → Bool → Reading → Telemetry → Telemetry
enqueue random e priority r t =
    if refuses priority t
    then drop_one (advance random t)
    else push (identified random r e t) (advance random t)

-- The notice of `reportDropsLocked`.
unfoldable pub drop_notice : ℕ → TraceEvent
drop_notice count = record {
  group = "";
  session_id = "";
  sequence = 0;
  event_id = "";
  run_id = "";
  agent_id = "";
  node_id = "";
  peer_id = "";
  type = "telemetry_drop";
  message_id = "";
  remote_peer_id = "";
  topic = "";
  timestamp = 0;
  fields = some (("count", number count) ∷ []);
}

-- `reportDropsLocked`.
unfoldable pub report_drops : Random → Bool → Time → Telemetry → Telemetry
report_drops random priority now t =
    if nat_eq t.dropped 0 || leb (queue_limit priority t) (length t.queue)
    then t
    else push (identified random (reading_at now t) (drop_notice t.dropped) t)
        (record (advance random t) { dropped = 0 })

-- `if !t.sealed { t.reportDropsLocked(false) }`.
unfoldable pub report_if_open : Random → Time → Telemetry → Telemetry
report_if_open random now t = if t.is_sealed then t else report_drops random false now t
