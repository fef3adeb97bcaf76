-- ===== src/Sequences/Search.antt =====
-- internal/controller/run_metrics_window.go: the calls of `sort.Search` find the first interval.
use v.Common.{
  ℕ, zero, suc, ◌+◌, ◌/◌, ◌≤◌, ◌<◌, ◌≡◌, refl, Bool, true, false, inl, inr, [], ◌∷◌, if◌then◌else◌,
  ltb, All, Bool-cases, length, arith,
}
use v.Sequences.Defs.{Range, Ranges, search_loop, search, at}

-- Behind an interval that passes the test, all pass it.
abbrev pub Rising : (Range → Bool) → Ranges → Type 0
Rising p [] = Unit
Rising p (r ∷ rest) = (p r ≡ true → All (λ s. p s ≡ true) rest) × Rising p rest

-- The index that a linear search finds.
unfoldable pub first_index : (Range → Bool) → Ranges → ℕ
first_index p [] = 0
first_index p (r ∷ rest) = if p r then 0 else suc (first_index p rest)

-- The loop finds the only index of its interval at which the test turns from false to true.
search_loop-turn :
    (fuel : ℕ) (f : ℕ → Bool) (i j k : ℕ)
    → i ≤ k
    → k ≤ j
    → j ≤ i + fuel
    → ((a : ℕ) → a < k → f a ≡ false)
    → ((a : ℕ) → k ≤ a → a < j → f a ≡ true)
    → search_loop fuel f i j ≡ k
unfolding search_loop
search_loop-turn zero f i j k p q m below above = omega arith
search_loop-turn (suc fuel) f i j k p q m below above = elim (Bool-cases (ltb i j)) [
  | inr done ↦ ground arith
  | inl more ↦ elim (Bool-cases (f ((i + j) / 2))) [
    | inl high ↦
        let le : k ≤ (i + j) / 2 = ground (arith, below ((i + j) / 2), high) in
        let rest =
          search_loop-turn fuel f i ((i + j) / 2) k p le (ground arith) below
            (λ a h l. above a h (ground arith)) in
        ground (arith, rest)
    | inr low ↦
        let lt : (i + j) / 2 + 1 ≤ k = ground (arith, above ((i + j) / 2), low) in
        let rest = search_loop-turn fuel f ((i + j) / 2 + 1) j k lt q (ground arith) below above in
        ground (arith, rest)
  ]
]

first_index-le : (p : Range → Bool) (ranges : Ranges) → first_index p ranges ≤ length ranges
unfolding first_index
first_index-le p [] = omega arith
first_index-le p (r ∷ rest) = ground (arith, first_index-le p rest)

at-below :
    (p : Range → Bool) (ranges : Ranges) (a : ℕ) → a < first_index p ranges → at p ranges a ≡ false
unfolding first_index
at-below p [] a h = refl
at-below p (r ∷ rest) zero h = ground arith
at-below p (r ∷ rest) (suc a) h = ground (arith, at-below p rest a)

at-All :
    (p : Range → Bool) (ranges : Ranges) (a : ℕ)
    → All (λ s. p s ≡ true) ranges
    → a < length ranges
    → at p ranges a ≡ true
at-All p [] a h l = elim l [ ]
at-All p (r ∷ rest) zero h l = h.0
at-All p (r ∷ rest) (suc a) h l = at-All p rest a h.1 (omega arith)

at-above :
    (p : Range → Bool) (ranges : Ranges) (a : ℕ)
    → Rising p ranges
    → first_index p ranges ≤ a
    → a < length ranges
    → at p ranges a ≡ true
unfolding first_index
at-above p [] a h k l = elim l [ ]
at-above p (r ∷ rest) zero h k l = ground arith
at-above p (r ∷ rest) (suc a) h k l = elim (Bool-cases (p r)) [
  | inl e ↦ at-All p rest a (h.0 e) (omega arith)
  | inr e ↦ at-above p rest a h.1 (ground arith) (omega arith)
]

pub search-first_index :
    (p : Range → Bool) (ranges : Ranges)
    → Rising p ranges
    → search (length ranges) (at p ranges) ≡ first_index p ranges
unfolding search
search-first_index p ranges h =
    search_loop-turn (length ranges) (at p ranges) 0 (length ranges) (first_index p ranges)
      (omega arith) (first_index-le p ranges) (omega arith) (at-below p ranges)
      (λ a k l. at-above p ranges a h k l)
