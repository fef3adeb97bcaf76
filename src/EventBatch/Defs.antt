-- ===== src/EventBatch/Defs.antt =====
-- internal/model/event_batch.go. `encode` is `json.Marshal`, which may fail; a text is its bytes.
use v.Common.{
  ℕ, zero, suc, ◌+◌, ◌-◌, Option, none, some, List, [], ◌∷◌, ◌++◌, if◌then◌else◌, ltb, length, take,
  codes,
}

-- 10 << 20.
abbrev pub max_event_batch_bytes : ℕ
max_event_batch_bytes = 10_485_760

abbrev pub max_event_batch_events : ℕ
max_event_batch_events = 5000

abbrev pub Bytes : Type 0
Bytes = List ℕ

-- `{"agentId":`, `,"events":[` and `]}`.
abbrev pub agent_part : Bytes
agent_part = codes "{\"agentId\":"

abbrev pub events_part : Bytes
events_part = codes ",\"events\":["

abbrev pub end_part : Bytes
end_part = codes "]}"

pub data BatchError : Type 0 where
  agent_error envelope_too_large encode_error event_too_large : BatchError

pub data Batch : Type 0 where
  ok : Bytes → ℕ → Batch
  err : BatchError → Batch

abbrev pub separator : ℕ → Bytes
separator zero = []
separator (suc n) = codes ","

-- What ends the loop: the batch so far, or an error where there is none.
abbrev pub stop : ℕ → Bytes → BatchError → Batch
stop zero bytes e = err e
stop (suc n) bytes e = ok (bytes ++ end_part) (suc n)

module _ {E : Type 0} (encode : E → Option Bytes) where
  -- The loop over the events, `limit` bytes at most.
  unfoldable pub add_events : ℕ → ℕ → Bytes → List E → Batch
  add_events limit count bytes [] = ok (bytes ++ end_part) count
  add_events limit count bytes (e ∷ es) = elim (encode e) [
    | none ↦ stop count bytes encode_error
    | some b ↦
        let rest = add_events limit (suc count) (bytes ++ (separator count ++ b)) es in
        if ltb limit (length bytes + length (separator count) + length b + 2)
        then stop count bytes event_too_large
        else rest
  ]

  unfoldable pub envelope : Bytes → Bytes
  envelope agent = (agent_part ++ agent) ++ events_part

  -- `MarshalEventBatchPrefix`, with the two limits as arguments.
  unfoldable pub marshal_within : ℕ → ℕ → Option Bytes → List E → Batch
  unfolding envelope
  marshal_within limit most none es = err agent_error
  marshal_within limit most (some agent) es =
      if ltb limit (length (envelope agent) + 2)
      then err envelope_too_large
      else add_events limit 0 (envelope agent) (take most es)

  unfoldable pub marshal_event_batch_prefix : Option Bytes → List E → Batch
  unfolding marshal_within
  marshal_event_batch_prefix = marshal_within max_event_batch_bytes max_event_batch_events

  -- The encoder of `ValidateEventSizes`: `Write` is given the event and a newline.
  unfoldable pub check_sizes : ℕ → List E → Option BatchError
  check_sizes limit [] = none
  check_sizes limit (e ∷ es) =
      let rest = check_sizes limit es in
      elim (encode e) [
        | none ↦ some encode_error
        | some b ↦ if ltb limit (length (b ++ codes "\n") - 1) then some event_too_large else rest
      ]

  -- `ValidateEventSizes`.
  unfoldable pub validate_within : ℕ → Option Bytes → List E → Option BatchError
  unfolding check_sizes
  validate_within limit agent [] = none
  validate_within limit none (e ∷ es) = some agent_error
  validate_within limit (some agent) (e ∷ es) =
      let overhead = length agent_part + length agent + length (codes ",\"events\":[]}") in
      if ltb limit overhead
      then some envelope_too_large
      else check_sizes (limit - overhead) (e ∷ es)

  unfoldable pub validate_event_sizes : Option Bytes → List E → Option BatchError
  unfolding validate_within
  validate_event_sizes = validate_within max_event_batch_bytes
