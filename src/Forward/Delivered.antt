-- ===== src/Forward/Delivered.antt =====
-- internal/agent/agent.go, run_drain.go: what any sequence of calls and answers does to the queue.
use mathlib.Core.List.{append_assoc, append-nil}
use v.Common.{
  suc, ◌+◌, ◌≤◌, ◌≡◌, refl, sym, ap, ◌∙◌, Bool, true, false, inl, inr, Option, none, some, List, [],
  ◌∷◌, ◌++◌, map, String, ◌==◌, ltb, nat_eq, Bool-cases, length, length-append, arith,
}
use v.Model.{TraceEvent, EventBatch}
use v.EventBatch.Defs.{Bytes}
use v.Forward.Queue.{
  Forwarder, owned_by, queue_limit, enqueue_events, close_telemetry, admit, begin_flush, end_flush,
  of_run, marker_count, remaining, drained, drain_run_events,
}
use v.Forward.Fifo.{
  Op, enqueues, closes, exits, begins, answers, pending, admit-bound, admit-in_flight,
  empty_of_not_pos, exit-pending, requested-pending, step, put_by, taken_by, step-Moves,
}

-- The queue of `New`: `restored` are the events that openTelemetrySpool has read.
unfoldable pub new_forwarder : String → List TraceEvent → Forwarder
new_forwarder id restored = record {
  id = id;
  events = restored;
  in_flight = [];
  terminations = [];
  telemetry_closed = false;
  spool_error = none;
}

of_run-append :
    (run : String) (xs ys : List TraceEvent)
    → of_run run (xs ++ ys) ≡ of_run run xs ++ of_run run ys
unfolding of_run
of_run-append run [] ys = refl
of_run-append run (x ∷ xs) ys = elim (Bool-cases (x.run_id == run)) [
  | inl here ↦ rw here (ap (λ l. x ∷ l) (of_run-append run xs ys))
  | inr other ↦ rw other (of_run-append run xs ys)
]

length-map : (f : TraceEvent → TraceEvent) (xs : List TraceEvent) → length (map f xs) ≡ length xs
length-map f [] = refl
length-map f (x ∷ xs) = ap (λ n. suc n) (length-map f xs)

empty_of_length : (xs : List TraceEvent) → length xs ≡ 0 → xs ≡ []
empty_of_length [] h = refl
empty_of_length (x ∷ xs) h = absurd (omega arith)

drained-remaining :
    (name : String) (ended : Bool) (s : Forwarder) (e : Option String)
    → drain_run_events name ended s ≡ drained e
    → remaining name s ≡ 0
unfolding drain_run_events
drained-remaining name ended s e h = elim (Bool-cases (nat_eq (remaining name s) 0)) [
  | inl done ↦ ground (arith, done)
  | inr more ↦ absurd (ground (arith, more))
]

module _ (encode : TraceEvent → Option Bytes) (agent : Option Bytes) where
  unfoldable pub run : List Op → Forwarder → Forwarder
  run [] s = s
  run (o ∷ os) s = run os (step encode agent o s)

  -- All the events that the operations accept, and all that the Controller has taken, in order.
  unfoldable pub all_put : List Op → Forwarder → List TraceEvent
  all_put [] s = []
  all_put (o ∷ os) s = put_by encode agent o s ++ all_put os (step encode agent o s)

  unfoldable pub all_taken : List Op → Forwarder → List TraceEvent
  all_taken [] s = []
  all_taken (o ∷ os) s = taken_by encode agent o s ++ all_taken os (step encode agent o s)

  -- The queue is a first-in first-out queue: in any sequence of deliveries by Peers, exits of Peers,
  -- requests and answers, the events that the Controller has taken, followed by those of the request
  -- under way and those that wait, are the events that waited at first, followed by those accepted
  -- since, in the order of their acceptance. A request that fails loses and reorders nothing.
  pub run_fifo :
      (os : List Op) (s : Forwarder)
      → (pending s ++ all_put os s) ≡ all_taken os s ++ pending (run os s)
  unfolding run all_put all_taken
  run_fifo [] s = append-nil (pending s)
  run_fifo (o ∷ os) s =
      let s' = step encode agent o s in
      let put = put_by encode agent o s in
      let taken = taken_by encode agent o s in
      sym (append_assoc (pending s) put (all_put os s'))
      ∙ ap (λ l. l ++ all_put os s') (step-Moves encode agent o s)
      ∙ append_assoc taken (pending s') (all_put os s')
      ∙ ap (λ l. taken ++ l) (run_fifo os s')
      ∙ sym (append_assoc taken (all_taken os s') (pending (run os s')))

  enqueue-bound :
      (appended : Option String) (batch : EventBatch) (s : Forwarder)
      → length (pending s) ≤ queue_limit
      → length (pending (enqueue_events appended batch s).0) ≤ queue_limit
  unfolding enqueue_events
  enqueue-bound none batch s h = ground (
    arith,
    length-append s.in_flight s.events,
    length-append s.in_flight (s.events ++ map (owned_by s.id) batch.events),
    length-append s.events (map (owned_by s.id) batch.events),
    length-map (owned_by s.id) batch.events,
  )
  enqueue-bound (some e) batch s h = ground arith

  begin-bound :
      (s : Forwarder)
      → length (pending s) ≤ queue_limit
      → length (pending (begin_flush encode agent s)) ≤ queue_limit
  unfolding begin_flush
  begin-bound s h = elim (Bool-cases (ltb 0 (length s.in_flight))) [
    | inl busy ↦ rw busy h
    | inr idle ↦
        let none_sent = empty_of_not_pos s.in_flight idle in
        let a = admit s.terminations s in
        let a_idle = admit-in_flight s.terminations s ∙ none_sent in
        let few : length s.events + length s.in_flight ≤ queue_limit =
          omega (arith, length-append s.in_flight s.events) in
        let small : length (pending a) ≤ queue_limit = omega (
          arith,
          admit-bound s.terminations s few,
          length-append a.in_flight a.events,
          ap (length {A = TraceEvent}) (admit-in_flight s.terminations s),
        ) in
        elim (Bool-cases (nat_eq (length a.events) 0)) [
          | inl nothing ↦ rw (idle, nothing) small
          | inr some_events ↦
              rw (idle, some_events)
                (rw (ap (length {A = TraceEvent}) (requested-pending encode agent a a_idle)) small)
        ]
  ]

  step-bound :
      (o : Op) (s : Forwarder)
      → length (pending s) ≤ queue_limit
      → length (pending (step encode agent o s)) ≤ queue_limit
  unfolding step
  step-bound (enqueues none batch) s h = enqueue-bound none batch s h
  step-bound (enqueues (some e) batch) s h = enqueue-bound (some e) batch s h
  step-bound closes s h = unfold close_telemetry in h
  step-bound (exits appended e) s h = rw (exit-pending appended e s) h
  step-bound begins s h = begin-bound s h
  step-bound (answers true) s h =
      unfold end_flush in omega (arith, length-append s.in_flight s.events)
  step-bound (answers false) s h = unfold end_flush in h

  -- The Agent never holds more than 50000 events, the request under way among them.
  pub run_bound :
      (os : List Op) (s : Forwarder)
      → length (pending s) ≤ queue_limit
      → length (pending (run os s)) ≤ queue_limit
  unfolding run
  run_bound [] s h = h
  run_bound (o ∷ os) s h = run_bound os (step encode agent o s) (step-bound o s h)

  -- When `drainRunEvents` returns after any such sequence, and not because its context ended, the
  -- Controller has taken every event of the run that the Agent found in its spool when it started, and
  -- then every one that it accepted, in the order of acceptance, and no exit marker of the run is held
  -- back.
  pub drain_delivers :
      (name id : String) (restored : List TraceEvent) (ended : Bool) (os : List Op)
      (e : Option String)
      → drain_run_events name ended (run os (new_forwarder id restored)) ≡ drained e
      → (of_run name (restored ++ all_put os (new_forwarder id restored))
          ≡ of_run name (all_taken os (new_forwarder id restored)))
        × (marker_count name (run os (new_forwarder id restored)).terminations ≡ 0)
  unfolding remaining
  drain_delivers name id restored ended os e h =
      let s = new_forwarder id restored in
      let s' = run os s in
      let settled = drained-remaining name ended s' e h in
      let requested = empty_of_length (of_run name s'.in_flight) (omega (arith, settled)) in
      let queued = empty_of_length (of_run name s'.events) (omega (arith, settled)) in
      let all_settled : restored ++ all_put os s ≡ all_taken os s ++ pending s' =
        unfold new_forwarder in run_fifo os (new_forwarder id restored) in
      let rest : of_run name (pending s') ≡ [] =
        of_run-append name s'.in_flight s'.events
        ∙ ap (λ l. l ++ of_run name s'.events) requested
        ∙ queued in
      (
        ap (of_run name) all_settled
            ∙ of_run-append name (all_taken os s) (pending s')
            ∙ ap (λ l. of_run name (all_taken os s) ++ l) rest
            ∙ append-nil (of_run name (all_taken os s)),
        omega (arith, settled),
      )
