-- ===== src/Sequences/Through.antt =====
-- internal/controller/run_metrics_window.go: `through` tells how far a session is complete.
use v.Common.{
  ℕ, ◌+◌, ◌≤◌, ◌≡◌, refl, true, false, inl, inr, [], ◌∷◌, leb, Bool-cases, get_elem?, All, arith,
}
use v.Sequences.Defs.{Range, Ranges, end_of, through}
use v.Sequences.Search.{first_index, Rising, search-first_index}
use v.Sequences.Added.{holds, Apart, IsNormal, holds-low}

Apart-ends :
    (low start : ℕ) (ranges : Ranges)
    → start ≤ low
    → Apart low ranges
    → All (λ (s : Range). leb start s.last ≡ true) ranges
Apart-ends low start [] h a = tt
Apart-ends low start (r ∷ rest) h a =
    (ground arith, Apart-ends (r.last + 1) start rest (omega arith) a.3)

ends-Rising :
    (low start : ℕ) (ranges : Ranges)
    → Apart low ranges
    → Rising (λ (s : Range). leb start s.last) ranges
ends-Rising low start [] a = tt
ends-Rising low start (r ∷ rest) a = (
  λ e. Apart-ends (r.last + 1) start rest (ground arith) a.3,
  ends-Rising (r.last + 1) start rest a.3,
)

-- `top` is the last of the numbers held without a gap from `start` on.
pub record Reaches (start : ℕ) (ranges : Ranges) (top : ℕ) : Type 0 where
  pub absent : holds start ranges ≡ false → top ≡ 0
  pub beyond : holds start ranges ≡ true → start ≤ top
  pub whole : holds start ranges ≡ true → (s : ℕ) → start ≤ s → s ≤ top → holds s ranges ≡ true
  pub gap : holds start ranges ≡ true → holds (top + 1) ranges ≡ false

found-Reaches :
    (low start : ℕ) (ranges : Ranges)
    → Apart low ranges
    → Reaches start ranges
        (end_of start (get_elem? ranges (first_index (λ r. leb start r.last) ranges)))
unfolding first_index end_of holds
found-Reaches low start [] a = record {
  absent = λ h. refl;
  beyond = λ h. ground arith;
  whole = λ h s p q. ground arith;
  gap = λ h. refl;
}
found-Reaches low start (r ∷ rest) a = elim (Bool-cases (leb start r.last)) [
  | inl e ↦ rw e (record {
    absent = λ h. ground (arith, holds-low (r.last + 1) start rest a.3);
    beyond = λ h. ground (arith, holds-low (r.last + 1) start rest a.3);
    whole = λ h s p q. ground (arith, holds-low (r.last + 1) start rest a.3);
    gap = λ h. ground (
      arith,
      holds-low (r.last + 1) start rest a.3,
      holds-low (r.last + 1) (r.last + 1) rest a.3,
    );
  })
  | inr e ↦ rw e (
      let tail = found-Reaches (r.last + 1) start rest a.3 in
      let top = end_of start (get_elem? rest (first_index (λ s. leb start s.last) rest)) in
      record {
        absent = λ h. tail.absent (ground arith);
        beyond = λ h. tail.beyond (ground arith);
        whole = λ h s p q. ground (arith, tail.whole (ground arith) s p q);
        gap = λ h.
            let b = tail.beyond (ground arith) in
            let g = tail.gap (ground arith) in ground (arith, b, g);
      })
]

-- Where the intervals are in order with a gap between any two, `through` returns the last of the
-- numbers that they hold without a gap from `start` on, and 0 if they do not hold `start`.
pub through_lem :
    (start : ℕ) (ranges : Ranges) → IsNormal ranges → Reaches start ranges (through start ranges)
unfolding through
through_lem start ranges a =
    let found = search-first_index (λ r. leb start r.last) ranges (ends-Rising 0 start ranges a) in
    rw found (found-Reaches 0 start ranges a)
