-- ===== src/Report/Complete.antt =====
-- internal/agent/heartbeat.go: every body is within the limit, and without an error the bodies hold all nodes.
use mathlib.Core.List.{append_assoc}
use mathlib.Core.Path.{subst}
use v.Common.{
  ℕ, suc, ◌+◌, ◌≤◌, ◌≡◌, refl, ap, ◌∙◌, Bool, false, inl, inr, Option, none, some, List, [], ◌∷◌,
  ◌++◌, if◌then◌else◌, ltb, length, length-append, All, Bool-cases, arith,
}
use v.EventBatch.Defs.{Bytes, end_part, separator}
use v.Report.Defs.{
  prefix_of, not_encoded, node_too_large, Sent, Sending, flush_batch, fill_batches,
  send_heartbeat_batches,
}

abbrev pub all_nodes : {N : Type 0} → List (Sent N) → List N
all_nodes [] = []
all_nodes (s ∷ sent) = s.nodes ++ all_nodes sent

module _ {N : Type 0} (encode : N → Option Bytes) (send : Bytes → List N → Bool) where
  -- `out` is `bytes` with the encodings of the nodes, of which the first has `count` before it.
  abbrev pub Written : Bytes → ℕ → List N → Bytes → Type 0
  Written bytes count [] out = bytes ≡ out
  Written bytes count (n ∷ ns) out =
      (b : Bytes) × (encode n ≡ some b)
      × Written (bytes ++ (separator count ++ b)) (suc count) ns out

  -- A body of JSON within the limit, with the encodings of its nodes in order.
  pub record IsBody (limit : ℕ) (prefix : Bytes) (s : Sent N) : Type 0 where
    pub buffer : Bytes
    pub written : Written prefix 0 s.nodes buffer
    pub closed : s.body ≡ buffer ++ end_part
    pub small : length s.body ≤ limit

  -- Every body that is sent is one. Without an error they hold exactly the nodes, in order.
  pub record IsComplete (limit : ℕ) (prefix : Bytes) (nodes : List N) (r : Sending N) : Type 0 where
    pub bodies : All (IsBody limit prefix) r.0
    pub whole : r.1 ≡ none → all_nodes r.0 ≡ nodes

  Written-snoc :
      (bytes : Bytes) (count k : ℕ) (ns : List N) (out : Bytes) (n : N) (b : Bytes)
      → k ≡ count + length ns
      → Written bytes count ns out
      → encode n ≡ some b
      → Written bytes count (ns ++ (n ∷ [])) (out ++ (separator k ++ b))
  Written-snoc bytes count k [] out n b h w e =
      let here : count ≡ k = omega (arith, h) in
      (b, e, ap (λ x. x ++ (separator count ++ b)) w ∙ ap (λ i. out ++ (separator i ++ b)) here)
  Written-snoc bytes count k (m ∷ ns) out n b h (c, d, w) e =
      let later = bytes ++ (separator count ++ c) in
      (c, d, Written-snoc later (suc count) k ns out n b (omega (arith, h)) w e)

  ltb-false : (a b : ℕ) → ltb a b ≡ false → b ≤ a
  ltb-false a b h = ground arith

  flush_batch-IsComplete :
      (limit : ℕ) (prefix buffer : Bytes) (chunk later : List N) (rest : Sending N)
      → Written prefix 0 chunk buffer
      → length buffer + 2 ≤ limit
      → IsComplete limit prefix later rest
      → IsComplete limit prefix (chunk ++ later) (flush_batch encode send buffer chunk rest)
  unfolding flush_batch
  flush_batch-IsComplete limit prefix buffer chunk later rest w l r =
      let size : length (buffer ++ end_part) ≤ limit =
        omega (arith, length-append buffer end_part) in
      let body : IsBody limit prefix (record { body = buffer ++ end_part; nodes = chunk }) =
        record { buffer = buffer; written = w; closed = refl; small = size } in
      elim (Bool-cases (send (buffer ++ end_part) chunk)) [
        | inl taken ↦
            rw taken
              (record { bodies = (body, r.bodies); whole = λ h. ap (λ l. chunk ++ l) (r.whole h) })
        | inr lost ↦ rw lost (record { bodies = (body, tt); whole = λ h. cc })
      ]

  fill_batches-IsComplete :
      (limit : ℕ) (prefix buffer : Bytes) (chunk nodes : List N)
      → Written prefix 0 chunk buffer
      → length buffer + 2 ≤ limit
      → IsComplete limit prefix
          (chunk ++ nodes)
          (fill_batches encode send limit prefix buffer chunk nodes)
  unfolding fill_batches
  fill_batches-IsComplete limit prefix buffer chunk [] w l =
      flush_batch-IsComplete limit prefix buffer chunk [] ([], none) w l
        (record { bodies = tt; whole = λ h. refl })
  fill_batches-IsComplete limit prefix buffer chunk (n ∷ ns) w l =
      by_code (encode n) refl
        (λ b e s.
          fill_batches-IsComplete limit prefix (prefix ++ b) (n ∷ []) ns (b, e, refl)
            (omega (arith, length-append prefix b, s)))
        (λ b e s.
          let fits = length-append (separator (length chunk)) b in
          fill_batches-IsComplete limit prefix (buffer ++ (separator (length chunk) ++ b))
            (chunk ++ (n ∷ [])) ns
            (Written-snoc prefix 0 (length chunk) chunk buffer n b (omega arith) w e)
            (omega (arith, length-append buffer (separator (length chunk) ++ b), fits, s)))
    where
      by_code :
          (o : Option Bytes)
          → encode n ≡ o
          → ((b : Bytes)
              → encode n ≡ some b
              → length prefix + length b + 2 ≤ limit
              → IsComplete limit prefix
                  (n ∷ ns)
                  (fill_batches encode send limit prefix (prefix ++ b) (n ∷ []) ns))
          → ((b : Bytes)
              → encode n ≡ some b
              → length buffer + length (separator (length chunk)) + length b + 2 ≤ limit
              → IsComplete limit prefix ((chunk ++ (n ∷ [])) ++ ns) (
                  fill_batches encode send limit prefix
                    (buffer ++ (separator (length chunk) ++ b))
                    (chunk ++ (n ∷ []))
                    ns))
          → IsComplete limit prefix (chunk ++ (n ∷ ns)) (elim o [
            | none ↦ ([], some not_encoded)
            | some b ↦
                let fresh = fill_batches encode send limit prefix (prefix ++ b) (n ∷ []) ns in
                let grown =
                  fill_batches encode send limit prefix
                    (buffer ++ (separator (length chunk) ++ b))
                    (chunk ++ (n ∷ []))
                    ns in
                if ltb limit (length prefix + length b + 2)
                then ([], some node_too_large)
                else if ltb limit (length buffer + length (separator (length chunk)) + length b + 2)
                then flush_batch encode send buffer chunk fresh
                else grown
          ])
      by_code none e fresh grown = record { bodies = tt; whole = λ h. cc }
      by_code (some b) e fresh grown =
          elim (Bool-cases (ltb limit (length prefix + length b + 2))) [
            | inl large ↦ rw large (record { bodies = tt; whole = λ h. cc })
            | inr fits ↦
                let alone = ltb-false limit (length prefix + length b + 2) fits in
                elim (Bool-cases
                  (ltb limit (length buffer + length (separator (length chunk)) + length b + 2))) [
                    | inl full ↦
                        rw (fits, full)
                          (flush_batch-IsComplete limit prefix buffer chunk (n ∷ ns)
                            (fill_batches encode send limit prefix (prefix ++ b) (n ∷ []) ns) w l
                            (fresh b e alone))
                    | inr room ↦
                        rw (fits, room)
                          (subst
                            (λ all. IsComplete limit prefix all (
                              fill_batches encode send limit prefix
                                (buffer ++ (separator (length chunk) ++ b)) (chunk ++ (n ∷ [])) ns))
                            (append_assoc chunk (n ∷ []) ns) (grown b e (ltb-false limit _ room)))
                  ]
          ]

  pub batches-IsComplete :
      (limit : ℕ) (header : Bytes) (nodes : List N)
      → IsComplete limit
          (prefix_of header)
          nodes
          (send_heartbeat_batches encode send limit (some header) nodes)
  unfolding send_heartbeat_batches
  batches-IsComplete limit header nodes =
      let prefix = prefix_of header in
      elim (Bool-cases (ltb limit (length prefix + 2))) [
        | inl large ↦ rw large (record { bodies = tt; whole = λ h. cc })
        | inr fits ↦ rw fits (
            fill_batches-IsComplete limit prefix prefix [] nodes refl
              (ltb-false limit (length prefix + 2) fits))
      ]

  -- Whatever is encoded and whatever the Controller takes, each body that is sent is the prefix with the
  -- encodings of its nodes in order, with commas between them, and the closing brackets, and is within the
  -- limit.
  pub send_heartbeat_batches_lem :
      (limit : ℕ) (header : Bytes) (nodes : List N)
      → All
          (IsBody limit (prefix_of header))
          (send_heartbeat_batches encode send limit (some header) nodes).0
  send_heartbeat_batches_lem limit header nodes = (batches-IsComplete limit header nodes).bodies
