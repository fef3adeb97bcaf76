-- ===== src/Ingest/Exact.antt =====
-- internal/controller/state.go: the file of a run holds each event once, and the accumulator knows them.
use v.Common.{◌<◌, ◌≡◌, ◌≢◌, ◌⊎◌, none, false, Option, List, [], String, All, lookup, arith}
use v.Model.{TraceEvent}
use v.Sequences.Defs.{u64_mod}
use v.Ingest.Defs.{has_event, ranges_of, contains_codes}
use v.Sequences.Defs.{through, search, end_of}
use v.Ingest.Store.{Store, new_accumulator}
use v.Ingest.Accepted.{known, Accepted}
use v.Ingest.Tracks.{IsExact, AreExact}
use v.Ingest.Known.{IsMarked}

-- A sequence number is a `uint64`.
abbrev pub AreWords : List TraceEvent → Type 0
AreWords es = All (λ e. e.sequence < u64_mod) es

module _ {C : Type 0} (empty : C) (tally : TraceEvent → C → C) where
  -- What is left of a run that was exact: it is exact, or it is marked and an error is returned.
  abbrev pub Settled : String → Store C × Option String → Type 0
  Settled r res = IsExact empty tally r res.0 ⊎ (IsMarked r res.0 × (res.1 ≢ none))

  nothing : (e : TraceEvent) → has_event (new_accumulator empty tally) e ≡ false
  unfolding has_event ranges_of through search end_of contains_codes
  nothing e = ground arith

  -- A store with no events is exact.
  pub new-AreExact : (s : Store C) → s.run_metrics ≡ [] → s.logs ≡ [] → AreExact empty tally s
  unfolding lookup known
  new-AreExact s m l run n = rw (m, l) (record { normal = tt; exact = λ e. nothing e; once = tt })
