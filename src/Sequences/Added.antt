-- ===== src/Sequences/Added.antt =====
-- internal/controller/run_metrics_window.go: what `add` makes of a list of intervals.
use v.Common.{
  ℕ, ◌+◌, ◌≤◌, ◌<◌, ◌≡◌, refl, Bool, true, false, ◌&&◌, ◌||◌, inl, inr, [], ◌∷◌, ltb, leb, nat_eq,
  Bool-cases, All, arith,
}
use v.Sequences.Defs.{
  u64_mod, sub_u64, Range, Ranges, reaches, min_ℕ, max_ℕ, coalesce, put, add_at, add_sequence,
}
use v.Sequences.Search.{first_index, Rising, search-first_index}

-- Whether an interval holds the number.
unfoldable pub holds : ℕ → Ranges → Bool
holds s [] = false
holds s (r ∷ rest) = (leb r.first s && leb s r.last) || holds s rest

-- The intervals are behind `low`, in order, and a number is missing between any two.
abbrev pub Apart : ℕ → Ranges → Type 0
Apart low [] = Unit
Apart low (r ∷ rest) =
    (low < r.first) × (r.first ≤ r.last) × (r.last < u64_mod) × Apart (r.last + 1) rest

-- No interval starts at 0.
abbrev pub IsNormal : Ranges → Type 0
IsNormal ranges = Apart 0 ranges

Apart-reaches :
    (low sequence : ℕ) (ranges : Ranges)
    → 0 < sequence
    → sequence < u64_mod
    → sequence ≤ low
    → Apart low ranges
    → All (λ s. reaches sequence s ≡ true) ranges
Apart-reaches low sequence [] p q h a = tt
Apart-reaches low sequence (r ∷ rest) p q h a =
    (ground arith, Apart-reaches (r.last + 1) sequence rest p q (omega arith) a.3)

reaches-Rising :
    (low sequence : ℕ) (ranges : Ranges)
    → 0 < sequence
    → sequence < u64_mod
    → Apart low ranges
    → Rising (reaches sequence) ranges
reaches-Rising low sequence [] p q a = tt
reaches-Rising low sequence (r ∷ rest) p q a = (
  λ e. Apart-reaches (r.last + 1) sequence rest p q (ground arith) a.3,
  reaches-Rising (r.last + 1) sequence rest p q a.3,
)

-- No number up to `low` lies in intervals behind it.
pub holds-low : (low s : ℕ) (ranges : Ranges) → Apart low ranges → s ≤ low → holds s ranges ≡ false
unfolding holds
holds-low low s [] a h = refl
holds-low low s (r ∷ rest) a h = ground (arith, holds-low (r.last + 1) s rest a.3)

-- A number joins the intervals `after`, which stood as `before`, and they stay apart.
record Joined (low sequence : ℕ) (before after : Ranges) : Type 0 where
  kept : Apart low after
  added : (s : ℕ) → holds s after ≡ (holds s before || nat_eq s sequence)

coalesce-Joined :
    (low sequence : ℕ) (r : Range) (rest : Ranges)
    → low < sequence
    → sequence < u64_mod
    → Apart low (r ∷ rest)
    → reaches sequence r ≡ true
    → r.first ≤ sequence + 1
    → Joined low sequence
        (r ∷ rest)
        (coalesce (record { first = min_ℕ r.first sequence; last = max_ℕ r.last sequence }) rest)
unfolding coalesce holds
coalesce-Joined low sequence r [] p q a e h = record {
  kept = ground arith;
  added = λ s. ground arith;
}
coalesce-Joined low sequence r (n ∷ rest) p q a e h = record {
  kept = ground arith;
  added = λ s. ground arith;
}

put-Joined :
    (low sequence : ℕ) (r : Range) (rest : Ranges)
    → low < sequence
    → sequence < u64_mod
    → Apart low (r ∷ rest)
    → reaches sequence r ≡ true
    → Joined low sequence (r ∷ rest) (put sequence r rest)
unfolding put holds
put-Joined low sequence r rest p q a e =
    elim (Bool-cases (ltb sequence r.first && ltb 1 (sub_u64 r.first sequence))) [
      | inl before ↦ rw before (record { kept = ground arith; added = λ s. ground (arith, before) })
      | inr touches ↦
          rw touches (coalesce-Joined low sequence r rest p q a e (ground (arith, touches)))
    ]

add_at-Joined :
    (low sequence : ℕ) (ranges : Ranges)
    → low < sequence
    → sequence < u64_mod
    → Apart low ranges
    → Joined low sequence ranges (add_at (first_index (reaches sequence) ranges) sequence ranges)
unfolding first_index add_at holds
add_at-Joined low sequence [] p q a = record { kept = omega arith; added = λ s. ground arith }
add_at-Joined low sequence (r ∷ rest) p q a = elim (Bool-cases (reaches sequence r)) [
  | inl e ↦ rw e (put-Joined low sequence r rest p q a e)
  | inr e ↦ rw e (
      let tail = add_at-Joined (r.last + 1) sequence rest (ground arith) q a.3 in
      record { kept = (a.0, a.1, a.2, tail.kept); added = λ s. ground (arith, tail.added s) })
]

-- Where the intervals are in order with a gap between any two, `add` keeps them so, and they hold
-- the numbers that they held and the new one, unless it is 0.
pub add_sequence_lem :
    (sequence : ℕ) (ranges : Ranges)
    → sequence < u64_mod
    → IsNormal ranges
    → IsNormal (add_sequence sequence ranges)
      × ((s : ℕ)
          → holds s (add_sequence sequence ranges)
            ≡ (holds s ranges || (nat_eq s sequence && ltb 0 sequence)))
unfolding add_sequence
add_sequence_lem sequence ranges q a = elim (Bool-cases (nat_eq sequence 0)) [
  | inl e ↦ rw e (a, λ s. ground (arith, e))
  | inr e ↦
      let p : 0 < sequence = ground arith in
      let found =
        search-first_index (reaches sequence) ranges (reaches-Rising 0 sequence ranges p q a) in
      let joined = add_at-Joined 0 sequence ranges p q a in
      rw (e, found) (joined.kept, λ s. ground (arith, joined.added s))
]
