-- ===== src/Telemetry/Consumed.antt =====
-- internal/peer/telemetry.go: each step of `run` keeps the count of events and drops, and their order.
use mathlib.Core.List.{append_assoc}
use mathlib.Core.Path.{subst}
use v.Common.{
  ℕ, zero, suc, ◌+◌, ◌%◌, ◌<◌, ◌≡◌, refl, sym, ap, ◌∙◌, Bool, true, false, not, ◌&&◌, Option, List,
  [], ◌∷◌, ◌++◌, ◌==◌, if◌then◌else◌, ltb, nat_eq, length, length-append, take, drop, arith,
}
use v.Model.{TraceEvent}
use v.EventBatch.Defs.{Bytes, ok, err, marshal_event_batch_prefix}
use v.Sequences.Defs.{u64_mod}
use v.Telemetry.Queue.{drop_one, report_drops}
use v.Telemetry.Consumer.{
  batch_capacity, Phase, at_top, flushing, reporting, receiving, returned, Consumer, sent,
  unencodable, failed, flush, enter_drain, at_loop_top, cut, after_flush, report, Choice, context,
  event, tick, receive, drain_receive, take_events, Input, consume_at,
}
use v.Telemetry.Ordered.{Between-remove, drops_of, told, told-append, All-remove}
use v.Telemetry.Sound.{IsSound, IsSound-raise, HasSession, report-Sound}

-- The events that the Agent has, those of the batch and those of the queue, in this order.
abbrev pub kept : Consumer → List TraceEvent
kept c = (c.delivered ++ c.batch) ++ c.peer.queue

abbrev pub Steady : ℕ → Consumer → Type 0
Steady n c = IsSound n (told c.lost) c.peer.sequence c.peer.dropped (kept c)

take-append-drop : (n : ℕ) (xs : List TraceEvent) → take n xs ++ drop n xs ≡ xs
take-append-drop zero xs = refl
take-append-drop (suc n) [] = refl
take-append-drop (suc n) (x ∷ xs) = ap (λ l. x ∷ l) (take-append-drop n xs)

-- An event that leaves the batch unsent is counted as a drop.
lose-IsSound :
    (n lost_drops sequence dropped : ℕ) (xs ys : List TraceEvent) (e : TraceEvent)
    → n < u64_mod
    → IsSound n lost_drops sequence dropped (xs ++ (e ∷ ys))
    → IsSound n (lost_drops + drops_of e) sequence ((dropped + 1) % u64_mod) (xs ++ ys)
unfolding told
lose-IsSound n lost_drops sequence dropped xs ys e room h = record {
  bounded = h.bounded;
  counted = omega (
    arith,
    h.bounded,
    h.counted,
    length-append xs (e ∷ ys),
    length-append xs ys,
    told-append xs (e ∷ ys),
    told-append xs ys,
  );
  ordered = Between-remove 0 sequence xs ys e h.ordered;
  sourced = All-remove HasSession xs ys e h.sourced;
}

module _ (n : ℕ) where
  -- Both branches of a test are steady.
  either : (b : Bool) (c d : Consumer) → Steady n c → Steady n d → Steady n (if b then c else d)
  either true c d h k = h
  either false c d h k = k

  at_loop_top-Steady :
      (ends expired : Bool) (c : Consumer) → Steady n c → Steady n (at_loop_top ends expired c)
  unfolding at_loop_top enter_drain
  at_loop_top-Steady ends expired c h = either (ends && not c.draining) _ c h h

  sent-Steady : (k : ℕ) (c : Consumer) → Steady n c → Steady n (after_flush (sent k) c)
  unfolding after_flush cut
  sent-Steady k c h =
      let same : (c.delivered ++ take k c.batch) ++ drop k c.batch ≡ c.delivered ++ c.batch =
        append_assoc c.delivered (take k c.batch) (drop k c.batch)
        ∙ ap (λ l. c.delivered ++ l) (take-append-drop k c.batch) in
      subst (λ l. IsSound n (told c.lost) c.peer.sequence c.peer.dropped (l ++ c.peer.queue))
        (sym same) h

  receive-Steady :
      (next : Phase) (c : Consumer) (e : TraceEvent) (rest : List TraceEvent)
      → IsSound n
          (told c.lost)
          c.peer.sequence
          c.peer.dropped
          ((c.delivered ++ c.batch) ++ (e ∷ rest))
      → Steady n (receive next (e ∷ rest) c)
  unfolding receive
  receive-Steady next c e rest h =
      let same : (c.delivered ++ (c.batch ++ (e ∷ []))) ++ rest
          ≡ (c.delivered ++ c.batch) ++ (e ∷ rest) =
        ap (λ l. l ++ rest) (sym (append_assoc c.delivered c.batch (e ∷ [])))
        ∙ append_assoc (c.delivered ++ c.batch) (e ∷ []) rest in
      subst (IsSound n (told c.lost) c.peer.sequence c.peer.dropped) (sym same) h

  lost-Steady :
      (c : Consumer) (e : TraceEvent) (es : List TraceEvent)
      → n < u64_mod
      → c.batch ≡ e ∷ es
      → Steady n c
      → Steady n (after_flush unencodable c)
  unfolding after_flush cut drop_one told
  lost-Steady c e es room split h =
      let apart : kept c ≡ c.delivered ++ (e ∷ (es ++ c.peer.queue)) =
        ap (λ l. (c.delivered ++ l) ++ c.peer.queue) split
        ∙ append_assoc c.delivered (e ∷ es) c.peer.queue in
      let lost =
        lose-IsSound n (told c.lost) c.peer.sequence c.peer.dropped c.delivered (es ++ c.peer.queue)
          e room (subst (IsSound n (told c.lost) c.peer.sequence c.peer.dropped) apart h) in
      let sum : told (c.lost ++ take 1 c.batch) ≡ told c.lost + drops_of e =
        ap (λ l. told (c.lost ++ take 1 l)) split ∙ told-append c.lost (e ∷ []) ∙ omega arith in
      let left : (c.delivered ++ drop 1 c.batch) ++ c.peer.queue
          ≡ c.delivered ++ (es ++ c.peer.queue) =
        ap (λ l. (c.delivered ++ drop 1 l) ++ c.peer.queue) split
        ∙ append_assoc c.delivered es c.peer.queue in
      let dropped = (c.peer.dropped + 1) % u64_mod in
      subst
        (λ k. IsSound n k c.peer.sequence dropped ((c.delivered ++ drop 1 c.batch) ++ c.peer.queue))
        (sym sum)
        (subst (IsSound n (told c.lost + drops_of e) c.peer.sequence dropped) (sym left) lost)

  answered-Steady :
      (accepts : Bool) (k : ℕ) (c : Consumer)
      → Steady n c
      → Steady n (after_flush (if accepts then sent k else failed) c)
  answered-Steady true k c h = sent-Steady k c h
  answered-Steady false k c h = unfold after_flush in h

  flushed-Steady :
      (encode : TraceEvent → Option Bytes) (agent : Option Bytes) (accepts : Bool) (c : Consumer)
      (batch : List TraceEvent)
      → n < u64_mod
      → c.batch ≡ batch
      → Steady n c
      → Steady n (after_flush (flush encode agent accepts batch) c)
  unfolding flush
  flushed-Steady encode agent accepts c [] room split h = sent-Steady 0 c h
  flushed-Steady encode agent accepts c (e ∷ es) room split h =
      elim (marshal_event_batch_prefix encode agent (e ∷ es))
        as (λ b. Steady n (
          after_flush
            (elim b [ err reason ↦ unencodable | ok bytes k ↦ if accepts then sent k else failed ])
            c)) [
              | err reason ↦ lost-Steady c e es room split h
              | ok bytes k ↦ answered-Steady accepts k c h
            ]

  drain_receive-Steady :
      (queue : List TraceEvent) (c : Consumer)
      → c.peer.queue ≡ queue
      → Steady n c
      → Steady n (drain_receive queue c)
  unfolding drain_receive
  drain_receive-Steady [] c split h = either (nat_eq (length c.batch) 0) _ _ h h
  drain_receive-Steady (e ∷ rest) c split h = receive-Steady receiving c e rest (
      subst
        (λ q.
          IsSound n (told c.lost) c.peer.sequence c.peer.dropped ((c.delivered ++ c.batch) ++ q))
        split h)

  take_events-Steady :
      (choice : Choice) (c : Consumer) → Steady n c → Steady n (take_events choice c)
  unfolding take_events
  take_events-Steady choice c h =
      either c.draining _ _
        (either (ltb (length c.batch) batch_capacity) _ _
          (drain_receive-Steady c.peer.queue c refl h) h)
        (chosen choice)
    where
      received :
          (queue : List TraceEvent) → c.peer.queue ≡ queue → Steady n (receive at_top queue c)
      received [] split = unfold receive in h
      received (e ∷ rest) split = receive-Steady at_top c e rest (
          subst
            (λ q.
              IsSound n (told c.lost) c.peer.sequence c.peer.dropped
                ((c.delivered ++ c.batch) ++ q))
            split h)

      chosen :
          (choice : Choice)
          → Steady n (elim choice [
            | context ↦ record c { phase = at_top }
            | event ↦ receive at_top c.peer.queue c
            | tick ↦ record c { flush_now = true; phase = at_top }
          ])
      chosen context = h
      chosen event = received c.peer.queue refl
      chosen tick = h

  raise : (c : Consumer) → Steady n c → Steady (n + 2) c
  raise c h =
      IsSound-raise n (n + 2) (told c.lost) c.peer.sequence c.peer.dropped (kept c) (omega arith) h

  pub consume-Steady :
      (encode : TraceEvent → Option Bytes) (agent : Option Bytes) (phase : Phase) (i : Input)
      (c : Consumer)
      → n + 4 < u64_mod
      → (i.random.session == "") ≡ false
      → Steady n c
      → Steady (n + 2) (consume_at encode agent phase i c)
  unfolding consume_at
  consume-Steady encode agent at_top i c room fresh h =
      raise (at_loop_top i.ends i.expired c) (at_loop_top-Steady i.ends i.expired c h)
  consume-Steady encode agent flushing i c room fresh h =
      raise (after_flush (flush encode agent i.accepts c.batch) c)
        (flushed-Steady encode agent i.accepts c c.batch (omega arith) refl h)
  consume-Steady encode agent reporting i c room fresh h =
      let t = report_drops i.random c.draining i.now c.peer in
      unfold report in
      IsSound-raise (n + 1) (n + 2) (told c.lost) t.sequence t.dropped
        ((c.delivered ++ c.batch) ++ t.queue) (omega arith)
        (report-Sound n (c.delivered ++ c.batch) (told c.lost) i.random c.draining i.now c.peer
          (omega arith) fresh h)
  consume-Steady encode agent receiving i c room fresh h =
      raise (take_events i.choice c) (take_events-Steady i.choice c h)
  consume-Steady encode agent (returned fine) i c room fresh h = raise c h
