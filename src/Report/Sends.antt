-- ===== src/Report/Sends.antt =====
-- internal/agent/heartbeat.go: a report whose nodes fit is sent as a whole.
use v.Common.{
  ℕ, ◌+◌, ◌≤◌, ◌≡◌, refl, ap, ◌∙◌, Bool, true, false, inl, inr, Option, none, some, List, [], ◌∷◌,
  ◌++◌, if◌then◌else◌, ltb, length, All, Bool-cases, arith,
}
use v.EventBatch.Defs.{Bytes, end_part, separator}
use v.Report.Defs.{
  prefix_of, not_encoded, node_too_large, Sending, flush_batch, fill_batches,
  send_heartbeat_batches,
}
use v.Report.Complete.{all_nodes, batches-IsComplete}

module _ {N : Type 0} (encode : N → Option Bytes) (send : Bytes → List N → Bool) where
  encoded-step :
      (limit : ℕ) (prefix buffer : Bytes) (chunk : List N) (n : N) (ns : List N) (b : Bytes)
      → encode n ≡ some b
      → fill_batches encode send limit prefix buffer chunk (n ∷ ns) ≡ (
          if ltb limit (length prefix + length b + 2)
          then ([], some node_too_large)
          else if ltb limit (length buffer + length (separator (length chunk)) + length b + 2)
          then flush_batch encode send buffer chunk
              (fill_batches encode send limit prefix (prefix ++ b) (n ∷ []) ns)
          else fill_batches encode send limit prefix
              (buffer ++ (separator (length chunk) ++ b))
              (chunk ++ (n ∷ []))
              ns)
  unfolding fill_batches
  encoded-step limit prefix buffer chunk n ns b e =
      let code : Option Bytes → Sending N = λ o. elim o [
        | none ↦ ([], some not_encoded)
        | some c ↦
            if ltb limit (length prefix + length c + 2)
            then ([], some node_too_large)
            else if ltb limit (length buffer + length (separator (length chunk)) + length c + 2)
            then flush_batch encode send buffer chunk
                (fill_batches encode send limit prefix (prefix ++ c) (n ∷ []) ns)
            else fill_batches encode send limit prefix (buffer ++ (separator (length chunk) ++ c))
                (chunk ++ (n ∷ [])) ns
      ] in
      ap code e

  abbrev pub FitsAlone : ℕ → Bytes → N → Type 0
  FitsAlone limit prefix n =
      (b : Bytes) × (encode n ≡ some b) × (length prefix + length b + 2 ≤ limit)

  module _ (takes : (body : Bytes) (nodes : List N) → send body nodes ≡ true) where
    flush_batch-none :
        (buffer : Bytes) (chunk : List N) (rest : Sending N)
        → rest.1 ≡ none
        → (flush_batch encode send buffer chunk rest).1 ≡ none
    unfolding flush_batch
    flush_batch-none buffer chunk rest h = rw (takes (buffer ++ end_part) chunk) h

    fill_batches-none :
        (limit : ℕ) (prefix buffer : Bytes) (chunk nodes : List N)
        → All (FitsAlone limit prefix) nodes
        → (fill_batches encode send limit prefix buffer chunk nodes).1 ≡ none
    unfolding fill_batches
    fill_batches-none limit prefix buffer chunk [] a = flush_batch-none buffer chunk ([], none) refl
    fill_batches-none limit prefix buffer chunk (n ∷ ns) ((b, e, fits), a) =
        let alone : ltb limit (length prefix + length b + 2) ≡ false = ground arith in
        let after = separator (length chunk) in
        let fresh = fill_batches-none limit prefix (prefix ++ b) (n ∷ []) ns a in
        let grown =
          fill_batches-none limit prefix (buffer ++ (after ++ b)) (chunk ++ (n ∷ [])) ns a in
        ap (λ (r : Sending N). r.1) (encoded-step limit prefix buffer chunk n ns b e)
        ∙ elim (Bool-cases (ltb limit (length buffer + length after + length b + 2))) [
          | inl full ↦ rw (alone, full) (flush_batch-none buffer chunk _ fresh)
          | inr room ↦ rw (alone, room) grown
        ]

    -- If the prefix fits, every node can be encoded and fits on its own, and the Controller takes every
    -- body, then there is no error, and the bodies hold exactly the nodes, in order.
    pub send_heartbeat_batches_sends :
        (limit : ℕ) (header : Bytes) (nodes : List N)
        → length (prefix_of header) + 2 ≤ limit
        → All (FitsAlone limit (prefix_of header)) nodes
        → ((send_heartbeat_batches encode send limit (some header) nodes).1 ≡ none)
          × (all_nodes (send_heartbeat_batches encode send limit (some header) nodes).0 ≡ nodes)
    unfolding send_heartbeat_batches
    send_heartbeat_batches_sends limit header nodes l a =
        let prefix = prefix_of header in
        let fits : ltb limit (length prefix + 2) ≡ false = ground arith in
        let good : (send_heartbeat_batches encode send limit (some header) nodes).1 ≡ none =
          rw fits (fill_batches-none limit prefix prefix [] nodes a) in
        (good, (batches-IsComplete encode send limit header nodes).whole good)
