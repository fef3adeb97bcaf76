-- ===== src/Tests/Events.antt =====
-- Telemetry from a Peer to the file of its run: intervals, a batch with retries, and the queues.
use v.Common.{
  ℕ, ◌+◌, ◌*◌, ◌<◌, ◌≡◌, refl, true, false, ◌&&◌, ◌||◌, Option, none, some, List, [], ◌∷◌, ◌++◌,
  String, ltb, nat_eq, codes, All, length, lookup, insert, text_lt, arith,
}
use v.Model.{NodeState, TraceEvent, EventBatch}
use v.EventBatch.Defs.{Bytes, marshal_event_batch_prefix, marshal_within, add_events, envelope}
use v.Sequences.Defs.{u64_mod, Ranges, add_sequence, through}
use v.Sequences.Added.{holds, IsNormal, add_sequence_lem}
use v.Sequences.Through.{Reaches, through_lem}
use v.Ingest.Defs.{event_identity, has_event, is_sequenced, ranges_of, contains_codes}
use v.Ingest.Store.{
  present, synced, torn, Store, log_of, append_run_events, unless_deleted, commit_events, accept,
}
use v.Ingest.Tracks.{AreExact}
use v.Ingest.Exact.{new-AreExact}
use v.Ingest.Held.{HasEvent}
use v.Ingest.Stored.{append_run_events_stores}
use v.Ingest.Numbered.{IsNumbered}
use v.Ingest.Failures.{Failed, append_run_events_fails}
use v.Ingest.Accepted.{Unlike}
use v.Telemetry.Queue.{Random, new_telemetry}
use v.Telemetry.Consumer.{Input, new_consumer, Choice}
use v.Telemetry.Produced.{emits, starts}
use v.Telemetry.Consumed.{Steady, kept}
use v.Telemetry.History as Peer
use v.Telemetry.History.{HaveOwnTexts, run_accounts, run-Unlike}
use v.Forward.Queue.{
  of_run, marker_count, drain_run_events, drained, remaining, begin_flush, enqueue_events,
  queue_termination, end_flush, admit, split,
}
use v.Forward.Fifo.{step, Op, enqueues, exits, begins, answers, pending}
use v.Forward.Delivered.{new_forwarder, all_put, all_taken, run, run_fifo, drain_delivers}
use v.Spool.Defs.{
  Write, reopened, Segment, Spool, Outcome, open_spool, load, refs_at, is_invalid, unacknowledged,
}
use v.Spool.Restart.{SpoolStep, IsOrderly, received, delivered, take_steps, load-take_steps}
use v.Tests.Data.{node_of, run_1}

abbrev two_ranges : Ranges
two_ranges = record { first = 1; last = 2 } ∷ record { first = 6; last = 9 } ∷ []

add_sequence_lem_example :
    IsNormal (add_sequence 4 two_ranges)
    × ((s : ℕ)
        → holds s (add_sequence 4 two_ranges) ≡ (holds s two_ranges || (nat_eq s 4 && ltb 0 4)))
add_sequence_lem_example = add_sequence_lem 4 two_ranges (omega arith) (omega arith)

-- A number between two intervals joins them.
add_between :
    add_sequence 3 (record { first = 1; last = 2 } ∷ record { first = 4; last = 9 } ∷ [])
    ≡ record { first = 1; last = 9 } ∷ []
unfolding add_sequence
add_between = refl

through_lem_example : Reaches 7 two_ranges (through 7 two_ranges)
through_lem_example = through_lem 7 two_ranges (omega arith)

abbrev event_of : ℕ → String → TraceEvent
event_of sequence type = record {
  group = "g";
  session_id = "s";
  sequence = sequence;
  event_id = "";
  run_id = "run";
  agent_id = "a";
  node_id = "n";
  peer_id = "n";
  type = type;
  message_id = "m";
  remote_peer_id = "";
  topic = "t";
  timestamp = 3;
  fields = none;
}

-- The second event comes twice.
abbrev retried : List TraceEvent
retried = event_of 1 "publish" ∷ event_of 2 "deliver" ∷ event_of 2 "deliver" ∷ []

abbrev store : Store ℕ
store = record {
  run_metrics = [];
  recent = [];
  logs = [];
  experiments = ("run", run_1) ∷ [];
  failed_run_writes = [];
}

abbrev count_one : TraceEvent → ℕ → ℕ
count_one e n = n + 1

abbrev batch_a : EventBatch
batch_a = record { agent_id = "a"; events = retried }

store-AreExact : AreExact 0 count_one store
store-AreExact = new-AreExact 0 count_one store refl refl

event_of-IsNumbered : (n : ℕ) (type : String) → 0 < n → n < u64_mod → IsNumbered (event_of n type)
unfolding is_sequenced
event_of-IsNumbered n type p w = record {
  sequenced = ground arith;
  word = w;
  node = (omega arith, tt);
}

retried-AreNumbered : All IsNumbered retried
retried-AreNumbered =
    let second = event_of-IsNumbered 2 "deliver" (omega arith) (omega arith) in
    (event_of-IsNumbered 1 "publish" (omega arith) (omega arith), (second, (second, tt)))

append_run_events_stores_example :
    All
      (HasEvent (
        log_of 0 count_one "run"
          (append_run_events 0 count_one present synced "run" retried store).0))
      retried
append_run_events_stores_example =
    append_run_events_stores 0 count_one "run" retried store refl (store-AreExact "run" refl)
      retried-AreNumbered

torn_fails :
    (append_run_events 0 count_one present (torn 1 "full") "run" retried store).1 ≡ some "full"
unfolding append_run_events unless_deleted commit_events accept has_event is_sequenced through
    ranges_of lookup event_identity contains_codes
torn_fails = refl

run_1_found : lookup "run" store.experiments ≡ some run_1
unfolding lookup
run_1_found = refl

append_run_events_fails_example :
    Failed "run" store (append_run_events 0 count_one present (torn 1 "full") "run" retried store).0
append_run_events_fails_example =
    append_run_events_fails 0 count_one present (torn 1 "full") "run" "full" retried store
      run_1_found torn_fails

abbrev random : Random
random = record { session = "s"; event = λ n. "e" }

abbrev encode : TraceEvent → Option Bytes
encode e = some (codes "{}")

abbrev agent : Option Bytes
agent = some (codes "\"a\"")

abbrev input : Input
input = record {
  random = random;
  now = 6;
  ends = false;
  expired = false;
  accepts = true;
  choice = Choice.event;
}

-- A measurement starts, an event follows, and the loop receives the first of the two.
abbrev peer_ops : List Peer.Op
peer_ops =
    Peer.produces random (starts 4 5 ("t" ∷ []))
    ∷ Peer.produces random (emits 5 6 (event_of 0 "deliver"))
    ∷ Peer.consumes input
    ∷ Peer.consumes input
    ∷ Peer.consumes input
    ∷ []

peer_ops-IsProper : All Peer.IsProper peer_ops
peer_ops-IsProper = ((refl, tt), ((refl, refl), (refl, (refl, (refl, tt)))))

run_accounts_example :
    Steady
      (2 * length peer_ops)
      (Peer.run encode agent peer_ops (new_consumer (new_telemetry (node_of "n" NodeState.ready))))
run_accounts_example =
    run_accounts encode agent (node_of "n" NodeState.ready) peer_ops (omega arith) peer_ops-IsProper

run-Unlike_example :
    Unlike (
      kept (
        Peer.run encode agent peer_ops
          (new_consumer (new_telemetry (node_of "n" NodeState.ready)))))
    × HaveOwnTexts (
        kept (
          Peer.run encode agent peer_ops
            (new_consumer (new_telemetry (node_of "n" NodeState.ready)))))
run-Unlike_example =
    run-Unlike encode agent (node_of "n" NodeState.ready) peer_ops (omega arith) peer_ops-IsProper

-- A request fails, and the next one takes the same events and the exit marker.
abbrev agent_ops : List Op
agent_ops =
    enqueues none batch_a
    ∷ begins
    ∷ exits none (event_of 0 "measurement_terminated")
    ∷ answers false
    ∷ begins
    ∷ answers true
    ∷ []

abbrev restored : List TraceEvent
restored = event_of 7 "deliver" ∷ []

run_fifo_example :
    (pending (new_forwarder "a" restored)
      ++ all_put encode agent agent_ops (new_forwarder "a" restored))
    ≡ all_taken encode agent agent_ops (new_forwarder "a" restored)
      ++ pending (run encode agent agent_ops (new_forwarder "a" restored))
run_fifo_example = run_fifo encode agent agent_ops (new_forwarder "a" restored)

agent_drained :
    drain_run_events "run" false (run encode agent agent_ops (new_forwarder "a" restored))
    ≡ drained none
unfolding drain_run_events remaining of_run new_forwarder run step begin_flush enqueue_events
    queue_termination end_flush admit split marker_count lookup insert marshal_event_batch_prefix
    marshal_within add_events envelope
agent_drained = refl

drain_delivers_example :
    (of_run "run" (restored ++ all_put encode agent agent_ops (new_forwarder "a" restored))
      ≡ of_run "run" (all_taken encode agent agent_ops (new_forwarder "a" restored)))
    × (marker_count "run" (run encode agent agent_ops (new_forwarder "a" restored)).terminations
        ≡ 0)
drain_delivers_example =
    drain_delivers encode agent "run" "a" restored false agent_ops none agent_drained

-- The first of the two events of a file is acknowledged.
abbrev spool_files : List Segment
spool_files =
    record {
      name = "1.json";
      events = event_of 1 "join" ∷ event_of 2 "deliver" ∷ [];
      ack = 0;
      acked = 1;
    }
    ∷ []

abbrev key_of : TraceEvent → String
key_of e = e.type

abbrev opened : Spool × List TraceEvent
opened = (
  record { files = reopened spool_files; refs = load key_of (reopened spool_files) [] },
  event_of 2 "deliver" ∷ [],
)

spool_opens : open_spool key_of spool_files ≡ some opened
unfolding open_spool reopened is_invalid unacknowledged
spool_opens = refl

abbrev works : String → Outcome
works name = record { write = Write.kept; is_removed = true; is_synced = true }

-- A batch is kept, and the rest of the first file is acknowledged.
abbrev spool_steps : List SpoolStep
spool_steps =
    received Write.kept "2.json" (event_of 3 "deliver" ∷ [])
    ∷ delivered works ("1.json" ∷ []) (event_of 2 "deliver" ∷ [])
    ∷ []

text_after : text_lt "1.json" "2.json" ≡ true
unfolding text_lt
text_after = refl

spool-IsOrderly : IsOrderly key_of spool_steps opened.0
unfolding reopened
spool-IsOrderly = ((λ h. cc), (text_after, tt), ((λ name h. cc), tt))

load-take_steps_example :
    refs_at "deliver" (load key_of (reopened (take_steps key_of spool_steps opened.0).files) [])
    ≡ refs_at "deliver" (take_steps key_of spool_steps opened.0).refs
load-take_steps_example =
    load-take_steps key_of spool_files opened spool_opens spool_steps spool-IsOrderly "deliver"
