-- ===== src/Forward/Fifo.antt =====
-- internal/agent/agent.go: the queue is a first-in first-out queue, whatever requests fail.
use mathlib.Core.List.{append_assoc, append-nil}
use v.Common.{
  ℕ, zero, suc, ◌+◌, ◌≤◌, ◌≡◌, refl, sym, ap, ◌∙◌, Bool, true, false, ◌||◌, inl, inr, Option, none,
  some, List, [], ◌∷◌, ◌++◌, map, String, if◌then◌else◌, ltb, leb, nat_eq, Bool-cases, length,
  length-append, take, drop, Dict, lookup, arith,
}
use v.Model.{TraceEvent, EventBatch}
use v.EventBatch.Defs.{Bytes, ok, err, marshal_event_batch_prefix}
use v.Forward.Queue.{
  Forwarder, owned_by, queue_limit, enqueue_events, close_telemetry, queue_termination, is_earlier,
  admit, split, begin_flush, end_flush,
}

-- What a call and its answer do to the queue.
pub data Op : Type 0 where
  enqueues : Option String → EventBatch → Op
  closes : Op
  exits : Option String → TraceEvent → Op
  begins : Op
  answers : Bool → Op

-- The abstract view: the events that are waiting, those of the request under way first.
abbrev pub pending : Forwarder → List TraceEvent
pending s = s.in_flight ++ s.events

-- The markers that `admitTerminationsLocked` puts into the queue.
unfoldable pub admitted : Dict TraceEvent → Forwarder → List TraceEvent
admitted [] s = []
admitted ((id, e) ∷ rest) s =
    let more = e ∷ admitted rest (record s { events = s.events ++ (e ∷ []) }) in
    if leb queue_limit (length s.events + length s.in_flight) then [] else more

admit-events : (m : Dict TraceEvent) (s : Forwarder) → (admit m s).events ≡ s.events ++ admitted m s
unfolding admit admitted
admit-events [] s = sym (append-nil s.events)
admit-events ((id, e) ∷ rest) s =
    elim (Bool-cases (leb queue_limit (length s.events + length s.in_flight))) [
      | inl full ↦ rw full (sym (append-nil s.events))
      | inr room ↦
          let s' = record s { events = s.events ++ (e ∷ []) } in
          rw room (admit-events rest s' ∙ append_assoc s.events (e ∷ []) (admitted rest s'))
    ]

pub admit-in_flight : (m : Dict TraceEvent) (s : Forwarder) → (admit m s).in_flight ≡ s.in_flight
unfolding admit
admit-in_flight [] s = refl
admit-in_flight ((id, e) ∷ rest) s =
    elim (Bool-cases (leb queue_limit (length s.events + length s.in_flight))) [
      | inl full ↦ rw full
      | inr room ↦ rw room (admit-in_flight rest (record s { events = s.events ++ (e ∷ []) }))
    ]

pub admit-bound :
    (m : Dict TraceEvent) (s : Forwarder)
    → length s.events + length s.in_flight ≤ queue_limit
    → length (admit m s).events + length s.in_flight ≤ queue_limit
unfolding admit
admit-bound [] s h = h
admit-bound ((id, e) ∷ rest) s h =
    elim (Bool-cases (leb queue_limit (length s.events + length s.in_flight))) [
      | inl full ↦ rw full h
      | inr room ↦
          let l = length-append s.events (e ∷ []) in
          rw room (
            admit-bound rest (record s { events = s.events ++ (e ∷ []) }) (ground (arith, room, l)))
    ]

pub take-append-drop : (n : ℕ) (xs : List TraceEvent) → take n xs ++ drop n xs ≡ xs
take-append-drop zero xs = refl
take-append-drop (suc n) [] = refl
take-append-drop (suc n) (x ∷ xs) = ap (λ l. x ∷ l) (take-append-drop n xs)

pub exit-pending :
    (appended : Option String) (e : TraceEvent) (s : Forwarder)
    → pending (queue_termination appended e s) ≡ pending s
unfolding queue_termination
exit-pending appended e s = elim (Bool-cases (is_earlier e (lookup e.node_id s.terminations))) [
  | inl early ↦ rw early
  | inr late ↦ rw late
]

pub empty_of_not_pos : (xs : List TraceEvent) → ltb 0 (length xs) ≡ false → xs ≡ []
empty_of_not_pos [] h = refl
empty_of_not_pos (x ∷ xs) h = absurd (ground arith)

module _ (encode : TraceEvent → Option Bytes) (agent : Option Bytes) where
  unfoldable pub step : Op → Forwarder → Forwarder
  step (enqueues appended batch) s = (enqueue_events appended batch s).0
  step closes s = close_telemetry s
  step (exits appended e) s = queue_termination appended e s
  step begins s = begin_flush encode agent s
  step (answers fine) s = end_flush fine s

  -- The events that the operation accepts.
  unfoldable pub put_by : Op → Forwarder → List TraceEvent
  put_by (enqueues appended batch) s =
      if (enqueue_events appended batch s).1 then map (owned_by s.id) batch.events else []
  put_by closes s = []
  put_by (exits appended e) s = []
  put_by begins s = if ltb 0 (length s.in_flight) then [] else admitted s.terminations s
  put_by (answers fine) s = []

  -- The events that the Controller has taken for good.
  unfoldable pub taken_by : Op → Forwarder → List TraceEvent
  taken_by (enqueues appended batch) s = []
  taken_by closes s = []
  taken_by (exits appended e) s = []
  taken_by begins s = []
  taken_by (answers fine) s = if fine then s.in_flight else []

  -- A step of the abstract queue: what is put goes behind what waits, and what is taken comes first.
  abbrev pub Moves : List TraceEvent → List TraceEvent → List TraceEvent → List TraceEvent → Type 0
  Moves before put taken after = (before ++ put) ≡ taken ++ after

  enqueue-Moves :
      (appended : Option String) (batch : EventBatch) (s : Forwarder)
      → Moves
          (pending s)
          (put_by (enqueues appended batch) s)
          []
          (pending (enqueue_events appended batch s).0)
  unfolding put_by enqueue_events
  enqueue-Moves none batch s =
      elim (Bool-cases (
        s.telemetry_closed
        || ltb queue_limit (length s.events + length s.in_flight + length batch.events))) [
          | inl full ↦ rw full (append-nil (pending s))
          | inr room ↦
              rw room (append_assoc s.in_flight s.events (map (owned_by s.id) batch.events))
        ]
  enqueue-Moves (some e) batch s =
      elim (Bool-cases (
        s.telemetry_closed
        || ltb queue_limit (length s.events + length s.in_flight + length batch.events))) [
          | inl full ↦ rw full (append-nil (pending s))
          | inr room ↦ rw room (append-nil (pending s))
        ]

  -- No request is under way: the request takes the first events of the queue.
  pub split-pending : (n : ℕ) (s : Forwarder) → s.in_flight ≡ [] → pending (split n s) ≡ pending s
  unfolding split
  split-pending n s idle = take-append-drop n s.events ∙ sym (ap (λ l. l ++ s.events) idle)

  pub requested-pending :
      (s : Forwarder)
      → s.in_flight ≡ []
      → pending (elim (marshal_event_batch_prefix encode agent s.events) [
        | err reason ↦ s
        | ok bytes n ↦ split n s
      ])
        ≡ pending s
  requested-pending s idle =
      elim (marshal_event_batch_prefix encode agent s.events)
        as (λ b. pending (elim b [ err reason ↦ s | ok bytes n ↦ split n s ]) ≡ pending s) [
          | err reason ↦ refl
          | ok bytes n ↦ split-pending n s idle
        ]

  begin-Moves :
      (s : Forwarder)
      → Moves (pending s) (put_by begins s) [] (pending (begin_flush encode agent s))
  unfolding put_by begin_flush
  begin-Moves s = elim (Bool-cases (ltb 0 (length s.in_flight))) [
    | inl busy ↦ rw busy (append-nil (pending s))
    | inr idle ↦
        let none_sent = empty_of_not_pos s.in_flight idle in
        let a = admit s.terminations s in
        let a_idle = admit-in_flight s.terminations s ∙ none_sent in
        let same : (pending s ++ admitted s.terminations s) ≡ pending a =
          append_assoc s.in_flight s.events (admitted s.terminations s)
          ∙ ap (λ l. s.in_flight ++ l) (sym (admit-events s.terminations s))
          ∙ ap (λ l. l ++ a.events) (sym (admit-in_flight s.terminations s)) in
        elim (Bool-cases (nat_eq (length a.events) 0)) [
          | inl nothing ↦ rw (idle, nothing) same
          | inr some_events ↦ rw (idle, some_events) (same ∙ sym (requested-pending a a_idle))
        ]
  ]

  pub step-Moves :
      (o : Op) (s : Forwarder) → Moves (pending s) (put_by o s) (taken_by o s) (pending (step o s))
  unfolding step taken_by
  step-Moves (enqueues appended batch) s = enqueue-Moves appended batch s
  step-Moves closes s = unfold put_by close_telemetry in append-nil (pending s)
  step-Moves (exits appended e) s =
      unfold put_by in append-nil (pending s) ∙ sym (exit-pending appended e s)
  step-Moves begins s = begin-Moves s
  step-Moves (answers true) s = unfold put_by end_flush in append-nil (pending s)
  step-Moves (answers false) s = unfold put_by end_flush in append-nil (pending s)
