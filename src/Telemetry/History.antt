-- ===== src/Telemetry/History.antt =====
-- internal/peer/telemetry.go: any sequence of the calls of the producers and the steps of `run`.
use mathlib.Core.Path.{subst}
use v.Common.{
  ℕ, ◌+◌, ◌*◌, ◌<◌, ◌≤◌, ◌≡◌, ◌≢◌, refl, true, false, Option, List, [], ◌∷◌, ◌++◌, ◌==◌, length,
  All, arith,
}
use v.Model.{Node, TraceEvent}
use v.EventBatch.Defs.{Bytes}
use v.Sequences.Defs.{u64_mod}
use v.Ingest.Defs.{is_sequenced, event_identity}
use v.Ingest.Numbered.{identity-number}
use v.Ingest.Identity.{same_identity}
use v.Ingest.Accepted.{Unlike}
use v.Telemetry.Queue.{Random, new_telemetry}
use v.Telemetry.Consumer.{Consumer, Input, new_consumer, consume}
use v.Telemetry.Ordered.{Between, Between-le, told}
use v.Telemetry.Sound.{HasSession}
use v.Telemetry.Produced.{Call, call, IsPlainCall, call-Sound}
use v.Telemetry.Consumed.{Steady, kept, consume-Steady}

pub data Op : Type 0 where
  produces : Random → Call → Op
  consumes : Input → Op

-- The random texts of a session are not empty, and the callers make no notices of drops.
abbrev pub IsProper : Op → Type 0
IsProper (produces random c) = ((random.session == "") ≡ false) × IsPlainCall c
IsProper (consumes i) = (i.random.session == "") ≡ false

later_differs :
    (x : TraceEvent) (low high : ℕ) (ys : List TraceEvent)
    → HasSession x
    → 0 < x.sequence
    → x.sequence ≤ low
    → Between low ys high
    → All HasSession ys
    → All (λ y. same_identity x y ≡ false) ys
unfolding same_identity is_sequenced
later_differs x low high [] s p le b h = tt
later_differs x low high (y ∷ ys) s p le b h =
    (ground (arith, s, h.0, b.0), later_differs x y.sequence high ys s p (omega arith) b.1 h.1)

ascending-Unlike :
    (low high : ℕ) (es : List TraceEvent) → Between low es high → All HasSession es → Unlike es
ascending-Unlike low high [] b h = tt
ascending-Unlike low high (e ∷ es) b h = (
  later_differs e e.sequence high es h.0 (omega arith) (omega arith) b.1 h.1,
  ascending-Unlike e.sequence high es b.1 h.1,
)

-- No event has the text by which the Controller tells an earlier one.
abbrev pub HaveOwnTexts : List TraceEvent → Type 0
HaveOwnTexts [] = Unit
HaveOwnTexts (x ∷ xs) = All (λ y. event_identity x ≢ event_identity y) xs × HaveOwnTexts xs

later_texts :
    (x : TraceEvent) (low high : ℕ) (ys : List TraceEvent)
    → is_sequenced x ≡ true
    → x.sequence ≤ low
    → high < u64_mod
    → Between low ys high
    → All HasSession ys
    → All (λ y. event_identity x ≢ event_identity y) ys
unfolding is_sequenced
later_texts x low high [] s le top b h = tt
later_texts x low high (y ∷ ys) s le top b h =
    let within = Between-le y.sequence high ys b.1 in
    let numbered : is_sequenced y ≡ true = ground (arith, h.0, b.0) in
    (
      (λ e.
          let same =
            identity-number x y s numbered (omega (arith, b.0, within)) (omega (arith, within)) e in
          absurd (omega (arith, b.0, same))),
      later_texts x y.sequence high ys s (omega (arith, b.0)) top b.1 h.1,
    )

ascending-HaveOwnTexts :
    (low high : ℕ) (es : List TraceEvent)
    → high < u64_mod
    → Between low es high
    → All HasSession es
    → HaveOwnTexts es
unfolding is_sequenced
ascending-HaveOwnTexts low high [] top b h = tt
ascending-HaveOwnTexts low high (e ∷ es) top b h =
    let numbered : is_sequenced e ≡ true = ground (arith, h.0, b.0) in
    (
      later_texts e e.sequence high es numbered (omega arith) top b.1 h.1,
      ascending-HaveOwnTexts e.sequence high es top b.1 h.1,
    )

module _ (encode : TraceEvent → Option Bytes) (agent : Option Bytes) where
  pub step : Op → Consumer → Consumer
  step (produces random l) c = record c { peer = call random l c.peer }
  step (consumes i) c = consume encode agent i c

  pub run : List Op → Consumer → Consumer
  unfolding step
  run [] c = c
  run (o ∷ os) c = run os (step o c)

  step-Steady :
      (o : Op) (n : ℕ) (c : Consumer)
      → n + 4 < u64_mod
      → IsProper o
      → Steady n c
      → Steady (n + 2) (step o c)
  unfolding step consume
  step-Steady (produces random l) n c room p h =
      call-Sound n (c.delivered ++ c.batch) (told c.lost) random p.0 room l c.peer p.1 h
  step-Steady (consumes i) n c room p h = consume-Steady n encode agent c.phase i c room p h

  run-Steady :
      (os : List Op) (n m : ℕ) (c : Consumer)
      → m ≡ n + 2 * length os
      → m + 4 < u64_mod
      → All IsProper os
      → Steady n c
      → Steady m (run os c)
  unfolding run
  run-Steady [] n m c e room p h = subst (λ k. Steady k c) (omega arith) h
  run-Steady (o ∷ os) n m c e room p h =
      run-Steady os (n + 2) m (step o c) (omega arith) room p.1
        (step-Steady o n c (omega arith) p.0 h)

  -- A Peer starts with an empty queue and no batch.
  start-Steady : (node : Node) → Steady 0 (new_consumer (new_telemetry node))
  unfolding new_consumer new_telemetry told
  start-Steady node = record {
    bounded = omega arith;
    counted = refl;
    ordered = omega arith;
    sourced = tt;
  }

  -- However the calls of the producers, the clock, the Agent's answers and the steps of `run` follow one
  -- another, each number that the Peer has given out belongs to an event that is delivered, in the batch
  -- or in the queue, or to a drop that is counted, or told by a notice among these or among the events
  -- that could not be encoded; the events stand in the order of their numbers, and each is of a session.
  pub run_accounts :
      (node : Node) (os : List Op)
      → 2 * length os + 4 < u64_mod
      → All IsProper os
      → Steady (2 * length os) (run os (new_consumer (new_telemetry node)))
  run_accounts node os room p =
      run-Steady os 0 (2 * length os) (new_consumer (new_telemetry node)) (omega arith) room p
        (start-Steady node)

  -- No two of the events that a Peer has delivered, or is to deliver, are of one session with one
  -- number, and no two have one text for their identity, in whatever way they were produced: by neither
  -- does the Controller take one for a retry of the other.
  pub run-Unlike :
      (node : Node) (os : List Op)
      → 2 * length os + 4 < u64_mod
      → All IsProper os
      → Unlike (kept (run os (new_consumer (new_telemetry node))))
        × HaveOwnTexts (kept (run os (new_consumer (new_telemetry node))))
  run-Unlike node os room p =
      let h = run_accounts node os room p in
      let c = run os (new_consumer (new_telemetry node)) in
      (
        ascending-Unlike 0 c.peer.sequence (kept c) h.ordered h.sourced,
        ascending-HaveOwnTexts 0 c.peer.sequence (kept c) (omega (arith, h.bounded, room)) h.ordered
            h.sourced,
      )
