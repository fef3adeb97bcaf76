-- ===== src/Ingest/Defs.antt =====
-- internal/controller/run_metrics.go: the identity of an event, and the part of a run's accumulator
-- that remembers which events were observed. `tally` stands for the statistics that `observe` keeps.
use v.Common.{
  ℕ, zero, suc, ◌+◌, ◌/◌, ◌%◌, Bool, true, false, not, ◌&&◌, ◌||◌, List, [], ◌∷◌, ◌++◌, String,
  ◌==◌, if◌then◌else◌, ltb, nat_eq, codes,
}
use v.Model.{TraceEvent}
use v.Sequences.Defs.{Ranges, add_sequence, through}

-- A text that is put together is the list of its codes.
abbrev pub Codes : Type 0
Codes = List ℕ

abbrev pub codes_eq : Codes → Codes → Bool
codes_eq [] [] = true
codes_eq [] (d ∷ ds) = false
codes_eq (c ∷ more) [] = false
codes_eq (c ∷ more) (d ∷ ds) = nat_eq c d && codes_eq more ds

-- `%d` of a `uint64`, which has 20 digits at most.
unfoldable pub digits : ℕ → ℕ → Codes → Codes
digits zero n acc = acc
digits (suc fuel) n acc =
    let more = digits fuel (n / 10) ((b'0' + n % 10) ∷ acc) in
    if ltb n 10 then (b'0' + n) ∷ acc else more

unfoldable pub decimal : ℕ → Codes
unfolding digits
decimal n = digits 20 n []

-- `event.SessionID != "" && event.Sequence > 0`.
unfoldable pub is_sequenced : TraceEvent → Bool
is_sequenced e = not (e.session_id == "") && ltb 0 e.sequence

-- The text of a session's event.
unfoldable pub sequenced_text : String → String → ℕ → Codes
unfolding decimal
sequenced_text node session n =
    codes node ++ (0 ∷ codes "session:" ++ (codes session ++ (codes ":" ++ decimal n)))

-- `eventIdentity`.
unfoldable pub event_identity : TraceEvent → Codes
unfolding is_sequenced sequenced_text
event_identity e =
    if is_sequenced e
    then sequenced_text e.node_id e.session_id e.sequence
    else if e.event_id == ""
    then []
    else codes e.node_id ++ (0 ∷ codes e.event_id)

abbrev pub is_empty : Codes → Bool
is_empty [] = true
is_empty (c ∷ rest) = false

-- `_, exists := set[id]`.
unfoldable pub contains_codes : Codes → List Codes → Bool
contains_codes a [] = false
contains_codes a (x ∷ xs) = codes_eq x a || contains_codes a xs

pub record SessionKey : Type 0 where
  pub node_id : String
  pub session_id : String

abbrev pub key_eq : SessionKey → SessionKey → Bool
key_eq a b = a.node_id == b.node_id && a.session_id == b.session_id

abbrev pub session_key : TraceEvent → SessionKey
session_key e = record { node_id = e.node_id; session_id = e.session_id }

-- `sequences[key]`: a key that is missing has no intervals.
unfoldable pub ranges_of : SessionKey → List (SessionKey × Ranges) → Ranges
ranges_of k [] = []
ranges_of k ((j, r) ∷ rest) = if key_eq j k then r else ranges_of k rest

-- `sequences[key] = ranges`.
unfoldable pub set_ranges :
    SessionKey → Ranges → List (SessionKey × Ranges) → List (SessionKey × Ranges)
set_ranges k new [] = (k, new) ∷ []
set_ranges k new ((j, r) ∷ rest) =
    if key_eq j k then (k, new) ∷ rest else (j, r) ∷ set_ranges k new rest

pub record Accumulator (C : Type 0) : Type 0 where
  pub seen : List Codes
  pub sequences : List (SessionKey × Ranges)
  pub revision : ℕ
  pub statistics : C

module _ {C : Type 0} where
  -- `hasEvent`.
  unfoldable pub has_event : Accumulator C → TraceEvent → Bool
  has_event a e =
      if is_sequenced e
      then not (nat_eq (through e.sequence (ranges_of (session_key e) a.sequences)) 0)
      else not (is_empty (event_identity e)) && contains_codes (event_identity e) a.seen

  -- How `observe` remembers the event.
  unfoldable pub remember : TraceEvent → Accumulator C → Accumulator C
  remember e a =
      if is_sequenced e
      then record a {
        sequences =
            set_ranges (session_key e)
              (add_sequence e.sequence (ranges_of (session_key e) a.sequences)) a.sequences;
      }
      else if is_empty (event_identity e)
      then a
      else record a { seen = event_identity e ∷ a.seen }

  module _ (tally : TraceEvent → C → C) where
    -- `observe`.
    unfoldable pub observe : TraceEvent → Accumulator C → Accumulator C
    observe e a =
        if has_event a e
        then a
        else let b = remember e a in
          record b { revision = b.revision + 1; statistics = tally e b.statistics }
