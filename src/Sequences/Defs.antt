-- ===== src/Sequences/Defs.antt =====
-- internal/controller/run_metrics_window.go: the intervals of sequence numbers that a session has sent.
-- A `uint64` is a number below 2 ^ 64; a difference wraps around.
use v.Common.{
  ℕ, zero, suc, ◌+◌, ◌-◌, ◌/◌, ◌%◌, Bool, false, not, ◌&&◌, ◌||◌, Option, none, some, List, [], ◌∷◌,
  if◌then◌else◌, ltb, leb, nat_eq, length, get_elem?,
}

abbrev pub u64_mod : ℕ
u64_mod = 18_446_744_073_709_551_616

-- `a - b` on `uint64`.
abbrev pub sub_u64 : ℕ → ℕ → ℕ
sub_u64 a b = (a + u64_mod - b) % u64_mod

pub record Range : Type 0 where
  pub first : ℕ
  pub last : ℕ

abbrev pub Ranges : Type 0
Ranges = List Range

-- The loop of `sort.Search`: `i` and `j` close in on the first index at which `f` holds.
unfoldable pub search_loop : ℕ → (ℕ → Bool) → ℕ → ℕ → ℕ
search_loop zero f i j = i
search_loop (suc fuel) f i j =
    let upper = search_loop fuel f ((i + j) / 2 + 1) j in
    let lower = search_loop fuel f i ((i + j) / 2) in
    if ltb i j then if not (f ((i + j) / 2)) then upper else lower else i

-- `sort.Search`: the interval shrinks in each round, so there are at most `n`.
unfoldable pub search : ℕ → (ℕ → Bool) → ℕ
unfolding search_loop
search n f = search_loop n f 0 n

-- A test of `ranges[i]`; `search` asks only for indices of the list.
abbrev pub at : (Range → Bool) → Ranges → ℕ → Bool
at p ranges i = elim (get_elem? ranges i) [ none ↦ false | some r ↦ p r ]

-- The interval ends at or after the number, or just before it.
abbrev pub reaches : ℕ → Range → Bool
reaches sequence r = leb sequence r.last || nat_eq r.last (sub_u64 sequence 1)

abbrev pub min_ℕ : ℕ → ℕ → ℕ
min_ℕ a b = if leb a b then a else b

abbrev pub max_ℕ : ℕ → ℕ → ℕ
max_ℕ a b = if leb a b then b else a

-- The interval joins the next one if no number lies between them.
unfoldable pub coalesce : Range → Ranges → Ranges
coalesce r [] = r ∷ []
coalesce r (next ∷ rest) =
    if leb (sub_u64 next.first r.last) 1
    then record r { last = max_ℕ r.last next.last } ∷ rest
    else r ∷ next ∷ rest

-- What `add` does at the interval that it has found.
unfoldable pub put : ℕ → Range → Ranges → Ranges
unfolding coalesce
put sequence r rest =
    if ltb sequence r.first && ltb 1 (sub_u64 r.first sequence)
    then record { first = sequence; last = sequence } ∷ r ∷ rest
    else coalesce (record { first = min_ℕ r.first sequence; last = max_ℕ r.last sequence }) rest

-- What `add` does at the index `i`: at the end it appends an interval.
unfoldable pub add_at : ℕ → ℕ → Ranges → Ranges
unfolding put
add_at i sequence [] = record { first = sequence; last = sequence } ∷ []
add_at zero sequence (r ∷ rest) = put sequence r rest
add_at (suc i) sequence (r ∷ rest) = r ∷ add_at i sequence rest

-- `add`.
unfoldable pub add_sequence : ℕ → Ranges → Ranges
unfolding search add_at
add_sequence sequence ranges =
    if nat_eq sequence 0
    then ranges
    else add_at (search (length ranges) (at (reaches sequence) ranges)) sequence ranges

-- The end of the interval that `through` has found, and 0 where it does not hold the number.
unfoldable pub end_of : ℕ → Option Range → ℕ
end_of start none = 0
end_of start (some r) = if nat_eq start 0 || ltb start r.first then 0 else r.last

-- `through`.
unfoldable pub through : ℕ → Ranges → ℕ
unfolding search end_of
through start ranges =
    end_of start (get_elem? ranges (search (length ranges) (at (λ r. leb start r.last) ranges)))
