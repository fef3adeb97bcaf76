-- ===== src/EventBatch/Validated.antt =====
-- Events that were validated are always sent: no batch of them is refused.
use mathlib.Core.Path.{subst}
use v.Common.{
  ℕ, zero, suc, ◌+◌, ◌-◌, ◌<◌, ◌≤◌, ◌≡◌, refl, sym, Option, none, some, Option-cases, Bool-cases,
  inl, inr, List, [], ◌∷◌, ◌++◌, ltb, length, length-append, take, drop, codes, arith,
}
use v.EventBatch.Defs.{
  Bytes, agent_part, events_part, end_part, BatchError, encode_error, event_too_large, Batch, ok,
  separator, stop, add_events, envelope, marshal_within, check_sizes, validate_within,
}

module _ {E : Type 0} (encode : E → Option Bytes) where
  -- A batch of one event or more.
  abbrev pub IsSent : Batch → Type 0
  IsSent b = (out : Bytes) × (total : ℕ) × (b ≡ ok out total) × (0 < total)

  stop-IsSent : (n : ℕ) (bytes : Bytes) (r : BatchError) → IsSent (stop (suc n) bytes r)
  stop-IsSent n bytes r = (bytes ++ end_part, suc n, refl, omega arith)

  -- Once it has an event, the loop never fails.
  add_events-IsSent :
      (limit n : ℕ) (bytes : Bytes) (es : List E)
      → IsSent (add_events encode limit (suc n) bytes es)
  unfolding add_events
  add_events-IsSent limit n bytes [] = (bytes ++ end_part, suc n, refl, omega arith)
  add_events-IsSent limit n bytes (e ∷ es) = elim (Option-cases (encode e)) [
    | inl fails ↦
        let r : add_events encode limit (suc n) bytes (e ∷ es) ≡ stop (suc n) bytes encode_error =
          ground (arith, fails) in
        subst IsSent (sym r) (stop-IsSent n bytes encode_error)
    | inr (b, eb) ↦
        let size = length bytes + length (separator (suc n)) + length b + 2 in
        elim (Bool-cases (ltb limit size)) [
          | inl full ↦
              let r : add_events encode limit (suc n) bytes (e ∷ es)
                  ≡ stop (suc n) bytes event_too_large =
                ground (arith, eb, full) in
              subst IsSent (sym r) (stop-IsSent n bytes event_too_large)
          | inr room ↦
              let bytes' = bytes ++ (separator (suc n) ++ b) in
              let r : add_events encode limit (suc n) bytes (e ∷ es)
                  ≡ add_events encode limit (suc (suc n)) bytes' es =
                ground (arith, eb, room) in
              subst IsSent (sym r) (add_events-IsSent limit (suc n) bytes' es)
        ]
  ]

  -- The first event starts the batch when it fits.
  first-IsSent :
      (limit : ℕ) (bytes b : Bytes) (e : E) (es : List E)
      → encode e ≡ some b
      → length bytes + length b + 2 ≤ limit
      → IsSent (add_events encode limit 0 bytes (e ∷ es))
  unfolding add_events
  first-IsSent limit bytes b e es eb h =
      let bytes' = bytes ++ ([] ++ b) in
      let r : add_events encode limit 0 bytes (e ∷ es) ≡ add_events encode limit 1 bytes' es =
        ground (arith, eb) in
      subst IsSent (sym r) (add_events-IsSent limit 0 bytes' es)

  check_sizes-head :
      (limit : ℕ) (e : E) (es : List E)
      → check_sizes encode limit (e ∷ es) ≡ none
      → (b : Bytes) × (encode e ≡ some b) × (length b ≤ limit)
  unfolding check_sizes
  check_sizes-head limit e es h = elim (Option-cases (encode e)) [
    | inl fails ↦ absurd (ground (arith, fails))
    | inr (b, eb) ↦ (b, eb, ground (arith, eb, length-append b (codes "\n")))
  ]

  check_sizes-drop :
      (limit n : ℕ) (es : List E)
      → check_sizes encode limit es ≡ none
      → check_sizes encode limit (drop n es) ≡ none
  unfolding check_sizes
  check_sizes-drop limit zero es h = h
  check_sizes-drop limit (suc n) [] h = h
  check_sizes-drop limit (suc n) (e ∷ es) h = elim (Option-cases (encode e)) [
    | inl fails ↦ absurd (ground (arith, fails))
    | inr (b, eb) ↦ check_sizes-drop limit n es (ground (arith, eb))
  ]

  send :
      (limit most : ℕ) (agent : Bytes) (es : List E)
      → length agent_part + length agent + length (codes ",\"events\":[]}") ≤ limit
      → check_sizes encode
          (limit - (length agent_part + length agent + length (codes ",\"events\":[]}")))
          es
        ≡ none
      → 0 < length es
      → IsSent (marshal_within encode limit (suc most) (some agent) es)
  unfolding marshal_within envelope
  send limit most agent [] h k p = elim p [ ]
  send limit most agent (e ∷ es) h k p =
      let (b, eb, fits) = check_sizes-head _ e es k in
      let wide : length (envelope encode agent)
          ≡ length agent_part + length agent + length events_part =
        ground (
          arith,
          length-append (agent_part ++ agent) events_part,
          length-append agent_part agent,
        ) in
      let r : marshal_within encode limit (suc most) (some agent) (e ∷ es)
          ≡ add_events encode limit 0 (envelope encode agent) (e ∷ take most es) =
        ground (arith, wide) in
      subst IsSent (sym r) (
        first-IsSent limit (envelope encode agent) b e (take most es) eb
          (omega (arith, wide, fits)))

  -- Once a list of events has been validated, every batch from it is sent with an event or more:
  -- whatever number of first events has been sent before, as long as one is left and the limit on
  -- events is not 0, `marshal_within` with the same byte limit does not fail.
  pub validated-IsSent :
      (limit most sent : ℕ) (agent : Bytes) (es : List E)
      → validate_within encode limit (some agent) es ≡ none
      → 0 < most
      → 0 < length (drop sent es)
      → IsSent (marshal_within encode limit most (some agent) (drop sent es))
  unfolding validate_within
  validated-IsSent limit zero sent agent es h m p = elim m [ ]
  validated-IsSent limit (suc most) zero agent [] h m p = elim p [ ]
  validated-IsSent limit (suc most) (suc sent) agent [] h m p = elim p [ ]
  validated-IsSent limit (suc most) sent agent (e ∷ es) h m p =
      let room : length agent_part + length agent + length (codes ",\"events\":[]}") ≤ limit =
        ground arith in
      send limit most agent (drop sent (e ∷ es)) room
        (check_sizes-drop _ sent (e ∷ es) (ground (arith, room))) p
