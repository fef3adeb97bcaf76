-- ===== src/Report/Defs.antt =====
-- internal/agent/heartbeat.go: sendHeartbeatBatches. `encode` is `json.Marshal`, which may fail; `send` posts a
-- body and tells whether the Controller took it. `header` is the encoding of the Agent and `"partial":true`.
use v.Common.{
  ℕ, ◌+◌, ◌-◌, take, codes, Bool, Option, none, some, List, [], ◌∷◌, ◌++◌, if◌then◌else◌, ltb,
  length,
}
use v.EventBatch.Defs.{Bytes, end_part, separator}

pub data SendError : Type 0 where
  agent_not_encoded agent_too_large not_encoded node_too_large not_sent : SendError

-- A body that `send` was called with, and the nodes in it.
pub record Sent (N : Type 0) : Type 0 where
  pub body : Bytes
  pub nodes : List N

-- `append(header[:len(header)-1], ",\"nodes\":["...)`.
unfoldable pub prefix_of : Bytes → Bytes
prefix_of header = take (length header - 1) header ++ codes ",\"nodes\":["

abbrev pub Sending : Type 0 → Type 0
Sending N = List (Sent N) × Option SendError

module _ {N : Type 0} (encode : N → Option Bytes) (send : Bytes → List N → Bool) where
  -- `flush`, and then the rest.
  unfoldable pub flush_batch : Bytes → List N → Sending N → Sending N
  flush_batch buffer chunk rest =
      let sent : Sent N = record { body = buffer ++ end_part; nodes = chunk } in
      if send (buffer ++ end_part) chunk
      then (sent ∷ rest.0, rest.1)
      else (sent ∷ [], some not_sent)

  -- The loop over the nodes, with the buffer and the nodes in it.
  unfoldable pub fill_batches : ℕ → Bytes → Bytes → List N → List N → Sending N
  fill_batches limit prefix buffer chunk [] = flush_batch buffer chunk ([], none)
  fill_batches limit prefix buffer chunk (n ∷ ns) = elim (encode n) [
    | none ↦ ([], some not_encoded)
    | some b ↦
        let fresh = fill_batches limit prefix (prefix ++ b) (n ∷ []) ns in
        let grown =
          fill_batches limit prefix (buffer ++ (separator (length chunk) ++ b)) (chunk ++ (n ∷ []))
            ns in
        if ltb limit (length prefix + length b + 2)
        then ([], some node_too_large)
        else if ltb limit (length buffer + length (separator (length chunk)) + length b + 2)
        then flush_batch buffer chunk fresh
        else grown
  ]

  -- `sendHeartbeatBatches`.
  unfoldable pub send_heartbeat_batches : ℕ → Option Bytes → List N → Sending N
  send_heartbeat_batches limit none nodes = ([], some agent_not_encoded)
  send_heartbeat_batches limit (some header) nodes =
      let prefix = prefix_of header in
      if ltb limit (length prefix + 2)
      then ([], some agent_too_large)
      else fill_batches limit prefix prefix [] nodes
