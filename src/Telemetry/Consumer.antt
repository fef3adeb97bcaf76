-- ===== src/Telemetry/Consumer.antt =====
-- internal/peer/telemetry.go: the loop of `run`, which sends the queue to the Agent in batches.
-- The loop is cut where the producers can come between: before a request, before the drops are reported
-- and before each receive. The context, the clock and the Agent are values that the caller hands in.
use v.Common.{
  ℕ, Bool, true, false, not, ◌&&◌, ◌||◌, Option, List, [], ◌∷◌, ◌++◌, if◌then◌else◌, ltb, nat_eq,
  length, take, drop,
}
use v.Model.{Time, TraceEvent}
use v.EventBatch.Defs.{Bytes, ok, err, marshal_event_batch_prefix}
use v.Telemetry.Queue.{Telemetry, Random, drop_one, report_drops}

-- `cap(batch)`.
abbrev pub batch_capacity : ℕ
batch_capacity = 250

pub data Phase : Type 0 where
  at_top flushing reporting receiving : Phase
  returned : Bool → Phase

-- `delivered` are the events that the Agent has accepted, and `lost` those that cannot be encoded.
pub record Consumer : Type 0 where
  pub peer : Telemetry
  pub batch : List TraceEvent
  pub flush_now : Bool
  pub draining : Bool
  pub phase : Phase
  pub delivered : List TraceEvent
  pub lost : List TraceEvent

unfoldable pub new_consumer : Telemetry → Consumer
new_consumer t = record {
  peer = t;
  batch = [];
  flush_now = false;
  draining = false;
  phase = at_top;
  delivered = [];
  lost = [];
}

-- What `flush` returns: the number of events that were sent, or one of its two kinds of errors.
pub data Reply : Type 0 where
  sent : ℕ → Reply
  unencodable failed : Reply

-- `flush`: `accepts` tells whether the Agent took the request.
unfoldable pub flush : (TraceEvent → Option Bytes) → Option Bytes → Bool → List TraceEvent → Reply
flush encode agent accepts [] = sent 0
flush encode agent accepts (e ∷ es) = elim (marshal_event_batch_prefix encode agent (e ∷ es)) [
  | err reason ↦ unencodable
  | ok bytes n ↦ if accepts then sent n else failed
]

-- The drain starts: the producers are shut out.
unfoldable pub enter_drain : Bool → Consumer → Consumer
enter_drain starts c =
    if starts then record c { draining = true; peer = record c.peer { is_sealed = true } } else c

-- The drain has run out of time, a batch is due, or neither.
unfoldable pub next_phase : Bool → Consumer → Phase
next_phase expired c =
    if c.draining && expired
    then returned false
    else if ltb 0 (length c.batch)
        && (c.flush_now || nat_eq (length c.batch) batch_capacity || c.draining)
    then flushing
    else reporting

-- The top of the loop: `ends` is `ctx.Err() != nil`, `expired` is `drainCtx.Err() != nil`.
unfoldable pub at_loop_top : Bool → Bool → Consumer → Consumer
at_loop_top ends expired c =
    let entered = enter_drain (ends && not c.draining) c in
    record entered { phase = next_phase expired entered }

-- The batch is cut behind the events that are settled, and the loop goes on with the rest.
unfoldable pub cut : ℕ → Consumer → Consumer
cut count c =
    let rest = drop count c.batch in
    let more = ltb 0 (length rest) in
    record c { batch = rest; flush_now = more; phase = if more then at_top else reporting }

-- What follows a request.
unfoldable pub after_flush : Reply → Consumer → Consumer
after_flush (sent n) c = cut n (record c { delivered = c.delivered ++ take n c.batch })
after_flush unencodable c =
    cut 1 (record c { lost = c.lost ++ take 1 c.batch; peer = drop_one c.peer })
after_flush failed c = record c { flush_now = true; phase = at_top }

-- `t.reportDropsLocked(drainCtx != nil)`.
unfoldable pub report : Random → Time → Consumer → Consumer
report random now c = record c {
  peer = report_drops random c.draining now c.peer;
  phase = receiving;
}

-- The cases of the last `select`.
pub data Choice : Type 0 where
  context event tick : Choice

-- `event := <-t.events`.
unfoldable pub receive : Phase → List TraceEvent → Consumer → Consumer
receive next [] c = c
receive next (e ∷ rest) c = record c {
  batch = c.batch ++ (e ∷ []);
  peer = record c.peer { queue = rest };
  phase = next;
}

-- A drain receives what is queued, until the batch is full or the queue is empty.
unfoldable pub drain_receive : List TraceEvent → Consumer → Consumer
drain_receive (e ∷ rest) c = receive receiving (e ∷ rest) c
drain_receive [] c =
    if nat_eq (length c.batch) 0
    then record c { phase = returned true }
    else record c { flush_now = true; phase = at_top }

unfoldable pub take_events : Choice → Consumer → Consumer
take_events choice c =
    if c.draining
    then if ltb (length c.batch) batch_capacity
      then drain_receive c.peer.queue c
      else record c { phase = at_top }
    else elim choice [
      | context ↦ record c { phase = at_top }
      | event ↦ receive at_top c.peer.queue c
      | tick ↦ record c { flush_now = true; phase = at_top }
    ]

-- What the surroundings hand to one step of the loop.
pub record Input : Type 0 where
  pub random : Random
  pub now : Time
  pub ends : Bool
  pub expired : Bool
  pub accepts : Bool
  pub choice : Choice

module _ (encode : TraceEvent → Option Bytes) (agent : Option Bytes) where
  unfoldable pub consume_at : Phase → Input → Consumer → Consumer
  consume_at at_top i c = at_loop_top i.ends i.expired c
  consume_at flushing i c = after_flush (flush encode agent i.accepts c.batch) c
  consume_at reporting i c = report i.random i.now c
  consume_at receiving i c = take_events i.choice c
  consume_at (returned fine) i c = c

  -- One step of `run`.
  unfoldable pub consume : Input → Consumer → Consumer
  consume i c = consume_at c.phase i c
