-- ===== src/EventBatch/Prefix.antt =====
-- The batch that is sent: within the limits, the longest prefix, and never refused once validated.
use mathlib.Core.Path.{subst}
use v.Common.{
  ℕ, zero, suc, ◌+◌, ◌<◌, ◌≤◌, ◌≡◌, ◌⊎◌, sym, ◌∙◌, false, Option, none, some, Option-cases,
  Bool-cases, inl, inr, List, [], ◌∷◌, ◌++◌, ltb, ltb→lt, length, length-append, take, drop, arith,
}
use v.EventBatch.Defs.{
  Bytes, end_part, BatchError, encode_error, event_too_large, ok, separator, stop, add_events,
  envelope, marshal_within,
}

module _ {E : Type 0} (encode : E → Option Bytes) where
  -- The encodings of `n` events behind `bytes`, with the separators that JSON wants.
  pub data Joins : ℕ → Bytes → List E → ℕ → Bytes → Type 0 where
    done : {count : ℕ} {bytes : Bytes} {es : List E} → Joins count bytes es 0 bytes
    more :
        {count n : ℕ} {bytes out : Bytes} {es : List E} (e : E) (b : Bytes)
        → encode e ≡ some b
        → Joins (suc count) (bytes ++ (separator count ++ b)) es n out
        → Joins count bytes (e ∷ es) (suc n) out

  -- What follows the prefix does not fit or cannot be encoded, unless the events have run out.
  abbrev Blocked : ℕ → ℕ → Bytes → List E → Type 0
  Blocked limit count bytes [] = Unit
  Blocked limit count bytes (e ∷ es) =
      (encode e ≡ none)
      ⊎ ((b : Bytes) × (encode e ≡ some b)
          × (limit < length bytes + length (separator count) + length b + 2))

  pub record Fits (limit count : ℕ) (bytes : Bytes) (es : List E) (out : Bytes) (total : ℕ)
      : Type 0 where
    pub taken : ℕ
    pub body : Bytes
    pub counted : total ≡ count + taken
    pub few : taken ≤ length es
    pub joined : Joins count bytes es taken body
    pub closed : out ≡ body ++ end_part
    pub small : length out ≤ limit
    pub longest : Blocked limit total body (drop taken es)

  stop-Fits :
      (limit count : ℕ) (bytes : Bytes) (es : List E) (r : BatchError) (out : Bytes) (total : ℕ)
      → length bytes + 2 ≤ limit
      → Blocked limit count bytes es
      → stop count bytes r ≡ ok out total
      → Fits limit count bytes es out total
  stop-Fits limit zero bytes es r out total h k e = cc
  stop-Fits limit (suc n) bytes es r out total h k e = record {
    taken = 0;
    body = bytes;
    counted = ground arith;
    few = omega arith;
    joined = done;
    closed = ground arith;
    small = ground (arith, length-append bytes end_part);
    longest = subst (λ t. Blocked limit t bytes es) {x = suc n} (ground arith) k;
  }

  more-Fits :
      (limit count : ℕ) (bytes : Bytes) (x : E) (es : List E) (b out : Bytes) (total : ℕ)
      → encode x ≡ some b
      → Fits limit (suc count) (bytes ++ (separator count ++ b)) es out total
      → Fits limit count bytes (x ∷ es) out total
  more-Fits limit count bytes x es b out total e f = record {
    taken = suc f.taken;
    body = f.body;
    counted = omega (arith, f.counted);
    few = omega (arith, f.few);
    joined = more x b e f.joined;
    closed = f.closed;
    small = f.small;
    longest = f.longest;
  }

  fits-next :
      (limit count : ℕ) (bytes b : Bytes)
      → ltb limit (length bytes + length (separator count) + length b + 2) ≡ false
      → length (bytes ++ (separator count ++ b)) + 2 ≤ limit
  fits-next limit count bytes b h =
      ground (arith, length-append bytes (separator count ++ b), length-append (separator count) b)

  add_events-Fits :
      (limit count : ℕ) (bytes : Bytes) (es : List E) (out : Bytes) (total : ℕ)
      → length bytes + 2 ≤ limit
      → add_events encode limit count bytes es ≡ ok out total
      → Fits limit count bytes es out total
  unfolding add_events
  add_events-Fits limit count bytes [] out total h e = record {
    taken = 0;
    body = bytes;
    counted = ground arith;
    few = omega arith;
    joined = done;
    closed = ground arith;
    small = ground (arith, length-append bytes end_part);
    longest = tt;
  }
  add_events-Fits limit count bytes (x ∷ es) out total h e =
      let size : Bytes → ℕ = λ b. length bytes + length (separator count) + length b + 2 in
      elim (Option-cases (encode x)) [
        | inl fails ↦
            let r : add_events encode limit count bytes (x ∷ es) ≡ stop count bytes encode_error =
              ground (arith, fails) in
            stop-Fits limit count bytes (x ∷ es) encode_error out total h (inl fails) (sym r ∙ e)
        | inr (b, eb) ↦ elim (Bool-cases (ltb limit (size b))) [
          | inl full ↦
              let r : add_events encode limit count bytes (x ∷ es)
                  ≡ stop count bytes event_too_large =
                ground (arith, eb, full) in
              stop-Fits limit count bytes (x ∷ es) event_too_large out total h
                (inr (b, eb, ltb→lt limit (size b) full)) (sym r ∙ e)
          | inr room ↦
              let bytes' = bytes ++ (separator count ++ b) in
              let r : add_events encode limit count bytes (x ∷ es)
                  ≡ add_events encode limit (suc count) bytes' es =
                ground (arith, eb, room) in
              more-Fits limit count bytes x es b out total eb (
                add_events-Fits limit (suc count) bytes' es out total
                  (fits-next limit count bytes b room) (sym r ∙ e))
        ]
      ]

  -- A batch that is sent holds the envelope and, separated by commas, the encodings of its first
  -- events in order; it stays within the byte limit and counts those events, at most the event limit;
  -- and it is the longest: the next event, within the event limit, does not fit or cannot be encoded.
  pub marshal_within_lem :
      (limit most : ℕ) (agent : Bytes) (es : List E) {out : Bytes} {total : ℕ}
      → marshal_within encode limit most (some agent) es ≡ ok out total
      → Fits limit 0 (envelope encode agent) (take most es) out total
  unfolding marshal_within
  marshal_within_lem limit most agent es {out} {total} e =
      let open_part = envelope encode agent in
      elim (Bool-cases (ltb limit (length open_part + 2))) [
        | inl large ↦ absurd (ground (arith, large))
        | inr small ↦
            let r : marshal_within encode limit most (some agent) es
                ≡ add_events encode limit 0 open_part (take most es) =
              ground (arith, small) in
            add_events-Fits limit 0 open_part (take most es) out total (ground (arith, small))
              (sym r ∙ e)
      ]
