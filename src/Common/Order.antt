-- ===== src/Common/Order.antt =====
-- Strict weak orders, as Boolean tests, and sorting by one.
use Prim.Native.Nat.{suc}
use Prim.Native.String.{String}
use mathlib.Core.Path.{◌≡◌, refl}
use mathlib.Core.Bool.{Bool, true, false, not, ◌&&◌}
use mathlib.Core.Logic.{inl, inr}
use mathlib.Core.List.{List, [], ◌∷◌, Perm}
use mathlib.Core.List.Perm
use native.Mathlib.Omega.{arith}
use v.Common.Tests.{if◌then◌else◌, Bool-cases, ◌==◌, str_eq_iff}
use v.Common.Lists.{All, length}
use v.Common.Sort.{insert_by, sort_by}
use v.Common.Text.{text_lt, text_lt_irrefl, text_lt_trans, text_lt_connected}

-- `less` orders the values, and two values neither of which is less are interchangeable.
pub record IsWeakOrder {ℓ} {A : Type ℓ} (less : A → A → Bool) : Type ℓ where
  pub irrefl : (a : A) → less a a ≡ false
  pub trans : (a b c : A) → less a b ≡ true → less b c ≡ true → less a c ≡ true
  pub not_trans : (a b c : A) → less a b ≡ false → less b c ≡ false → less a c ≡ false

-- `same` tells that neither of two values is less.
pub record IsTie {ℓ} {A : Type ℓ} (less same : A → A → Bool) : Type ℓ where
  pub tie : (a b : A) → same a b ≡ (not (less a b) && not (less b a))

-- `if !same(a, b) { return less(a, b) }; return next(a, b)`.
abbrev pub lexical {ℓ} : {A : Type ℓ} (less same next : A → A → Bool) → A → A → Bool
lexical less same next a b = if not (same a b) then less a b else next a b

module _ {ℓ} {A : Type ℓ} {less : A → A → Bool} where
  pub weak_asym : IsWeakOrder less → (a b : A) → less a b ≡ true → less b a ≡ false
  weak_asym w a b h = elim (Bool-cases (less b a)) [
    | inl k ↦ ground (arith, w.trans a b a h k, w.irrefl a)
    | inr k ↦ k
  ]

  pub lexical-IsWeakOrder :
      {same next : A → A → Bool}
      → IsWeakOrder less
      → IsTie less same
      → IsWeakOrder next
      → IsWeakOrder (lexical less same next)
  lexical-IsWeakOrder {same} {next} w t n = record {
    irrefl = λ a. ground (arith, t.tie a a, w.irrefl a, n.irrefl a);
    trans = λ a b c h k. ground (
      arith,
      t.tie a b,
      t.tie b c,
      t.tie a c,
      w.trans a b c,
      w.not_trans a b c,
      w.not_trans c b a,
      w.not_trans b c a,
      w.not_trans c a b,
      w.not_trans b a c,
      w.not_trans a c b,
      n.trans a b c,
      weak_asym w a b,
      weak_asym w b c,
      weak_asym w a c,
    );
    not_trans = λ a b c h k. ground (
      arith,
      t.tie a b,
      t.tie b c,
      t.tie a c,
      w.trans a b c,
      w.not_trans a b c,
      w.not_trans c b a,
      w.not_trans b c a,
      w.not_trans c a b,
      w.not_trans b a c,
      w.not_trans a c b,
      n.not_trans a b c,
      weak_asym w a b,
      weak_asym w b c,
      weak_asym w a c,
    );
  }

pub text_lt-not_trans :
    (a b c : String) → text_lt a b ≡ false → text_lt b c ≡ false → text_lt a c ≡ false
text_lt-not_trans a b c h k = elim (Bool-cases (text_lt a c)) [
  | inr no_lt ↦ no_lt
  | inl lt ↦ elim (Bool-cases (text_lt b a)) [
    | inl ba ↦ ground (arith, text_lt_trans b a c ba lt)
    | inr ba ↦ ground (arith, text_lt_connected a b h ba)
  ]
]

pub text_lt-IsWeakOrder : IsWeakOrder text_lt
text_lt-IsWeakOrder = record {
  irrefl = text_lt_irrefl;
  trans = text_lt_trans;
  not_trans = text_lt-not_trans;
}

pub text_lt-IsTie : IsTie text_lt ◌==◌
text_lt-IsTie = record {
  tie = λ a b. ground (arith, str_eq_iff a b, text_lt_irrefl a, text_lt_connected a b);
}

-- The order of the values of a key.
pub on-IsWeakOrder {ℓ κ} :
    {A : Type ℓ} {B : Type κ} {less : B → B → Bool} (key : A → B)
    → IsWeakOrder less
    → IsWeakOrder (λ a b. less (key a) (key b))
on-IsWeakOrder key w = record {
  irrefl = λ a. w.irrefl (key a);
  trans = λ a b c. w.trans (key a) (key b) (key c);
  not_trans = λ a b c. w.not_trans (key a) (key b) (key c);
}

-- No value stands before one that is less.
module _ {ℓ} {A : Type ℓ} (less : A → A → Bool) where
  abbrev pub Sorted : List A → Type 0
  Sorted [] = Unit
  Sorted (x ∷ xs) = All (λ y. less y x ≡ false) xs × Sorted xs

  module _ (w : IsWeakOrder less) where
    All-insert_by :
        (a x : A) (xs : List A)
        → less x a ≡ false
        → All (λ y. less y a ≡ false) xs
        → All (λ y. less y a ≡ false) (insert_by less x xs)
    unfolding insert_by
    All-insert_by a x [] h k = (h, tt)
    All-insert_by a x (y ∷ ys) h k = ground (arith, All-insert_by a x ys h k.1)

    All-not_less :
        (a x : A) (xs : List A)
        → less x a ≡ false
        → All (λ y. less y x ≡ false) xs
        → All (λ y. less y a ≡ false) xs
    All-not_less a x [] h k = tt
    All-not_less a x (y ∷ ys) h k = (w.not_trans y x a k.0 h, All-not_less a x ys h k.1)

    insert_by-Sorted : (a : A) (xs : List A) → Sorted xs → Sorted (insert_by less a xs)
    unfolding insert_by
    insert_by-Sorted a [] h = (tt, tt)
    insert_by-Sorted a (x ∷ xs) h = elim (Bool-cases (less x a)) [
      | inl lt ↦ rw lt (All-insert_by x a xs (weak_asym w x a lt) h.0, insert_by-Sorted a xs h.1)
      | inr ge ↦ rw ge ((ge, All-not_less a x xs ge h.0), h)
    ]

    pub sort_by-Sorted : (xs : List A) → Sorted (sort_by less xs)
    unfolding sort_by
    sort_by-Sorted [] = tt
    sort_by-Sorted (x ∷ xs) = insert_by-Sorted x (sort_by less xs) (sort_by-Sorted xs)

  insert_by-All {κ} :
      (P : A → Type κ) (a : A) (xs : List A) → P a → All P xs → All P (insert_by less a xs)
  unfolding insert_by
  insert_by-All P a [] h k = (h, tt)
  insert_by-All P a (x ∷ xs) h k = elim (Bool-cases (less x a)) [
    | inl lt ↦ rw lt (k.0, insert_by-All P a xs h k.1)
    | inr ge ↦ rw ge (h, k)
  ]

  pub sort_by-All {κ} : (P : A → Type κ) (xs : List A) → All P xs → All P (sort_by less xs)
  unfolding sort_by
  sort_by-All P [] h = tt
  sort_by-All P (x ∷ xs) h = insert_by-All P x (sort_by less xs) h.0 (sort_by-All P xs h.1)

  insert_by-perm : (a : A) (xs : List A) → Perm (insert_by less a xs) (a ∷ xs)
  unfolding insert_by
  insert_by-perm a [] = Perm.refl (a ∷ [])
  insert_by-perm a (x ∷ xs) = elim (Bool-cases (less x a)) [
    | inl lt ↦ rw lt (Perm.trans (Perm.cons x (insert_by-perm a xs)) (Perm.swap a x xs))
    | inr ge ↦ rw ge (Perm.refl (a ∷ x ∷ xs))
  ]

  pub sort_by-perm : (xs : List A) → Perm (sort_by less xs) xs
  unfolding sort_by
  sort_by-perm [] = Perm.refl []
  sort_by-perm (x ∷ xs) =
      Perm.trans (insert_by-perm x (sort_by less xs)) (Perm.cons x (sort_by-perm xs))

  length-insert_by : (a : A) (xs : List A) → length (insert_by less a xs) ≡ suc (length xs)
  unfolding insert_by
  length-insert_by a [] = refl
  length-insert_by a (x ∷ xs) = ground (arith, length-insert_by a xs)

  pub length-sort_by : (xs : List A) → length (sort_by less xs) ≡ length xs
  unfolding sort_by
  length-sort_by [] = refl
  length-sort_by (x ∷ xs) = omega (arith, length-insert_by x (sort_by less xs), length-sort_by xs)
