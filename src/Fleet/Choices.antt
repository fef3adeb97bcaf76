-- ===== src/Fleet/Choices.antt =====
-- The choice of an Agent for a Peer, and the reservation that follows.
use mathlib.Core.Path.{subst}
use mathlib.Core.Option.{some-injective}
use v.Common.{
  ◌≡◌, ◌⊎◌, Bool, true, false, some, List, [], ◌∷◌, String, str_eq_iff, if◌then◌else◌, Bool-cases,
  inl, inr, Dict, lookup, All, All-get_elem?, arith, text_lt,
}
use v.Common.Int.{ℤ, pos, is_pos}
use v.Common.Float.{Float, IsIeee}
use v.Common.Order.{
  IsWeakOrder, IsTie, lexical-IsWeakOrder, text_lt-IsWeakOrder, on-IsWeakOrder, weak_asym,
  sort_by-All,
}
use v.Model.{Time, Agent}
use v.Fleet.Defs.{Fleet, agent_is_online}
use v.Fleet.Placement.{
  utilization, balanced_before, is_full, is_candidate, candidates, best_of, Choice, balanced,
  random, select_agent,
}

module _ (f : Float) (ieee : IsIeee f) where
  utilization_number : (a : Agent) (k : ℤ) → f.is_nan (utilization f a k) ≡ false
  unfolding utilization
  utilization_number a k = elim (Bool-cases (is_pos a.capacity)) [
    | inl bounded ↦ rw bounded (ieee.quotient_number a.active_nodes k a.capacity bounded)
    | inr free ↦ rw free (ieee.sum_number a.active_nodes k)
  ]

  less_used : ℤ → Agent → Agent → Bool
  less_used k a b = f.lt (utilization f a k) (utilization f b k)

  same_used : ℤ → Agent → Agent → Bool
  same_used k a b = f.eq (utilization f a k) (utilization f b k)

  less_used-IsWeakOrder : (k : ℤ) → IsWeakOrder (less_used k)
  unfolding less_used
  less_used-IsWeakOrder k = record {
    irrefl = λ a. ieee.lt_irrefl (utilization f a k);
    trans = λ a b c. ieee.lt_trans (utilization f a k) (utilization f b k) (utilization f c k);
    not_trans = λ a b c.
        ieee.tie_trans (utilization f a k) (utilization f b k) (utilization f c k)
          (utilization_number a k) (utilization_number b k) (utilization_number c k);
  }

  same_used-IsTie : (k : ℤ) → IsTie (less_used k) (same_used k)
  unfolding less_used same_used
  same_used-IsTie k = record {
    tie = λ a b.
        ieee.tie (utilization f a k) (utilization f b k) (utilization_number a k)
          (utilization_number b k);
  }

  -- The comparison of Agents is a strict weak order, over floats that compare as IEEE 754 says.
  pub balanced_before-IsWeakOrder : IsWeakOrder (balanced_before f)
  unfolding balanced_before less_used same_used
  balanced_before-IsWeakOrder =
      lexical-IsWeakOrder (less_used-IsWeakOrder (pos 1)) (same_used-IsTie (pos 1)) (
        lexical-IsWeakOrder (less_used-IsWeakOrder (pos 0)) (same_used-IsTie (pos 0))
          (on-IsWeakOrder (λ (a : Agent). a.id) text_lt-IsWeakOrder))

module _ (before : Agent → Agent → Bool) (w : IsWeakOrder before) where
  best_of_le :
      (selected : Agent) (l : List Agent) (x : Agent)
      → before x selected ≡ false
      → before x (best_of before selected l) ≡ false
  unfolding best_of
  best_of_le selected [] x h = h
  best_of_le selected (a ∷ l) x h =
      best_of_le (if before a selected then a else selected) l x
        (ground (arith, w.not_trans x selected a h, weak_asym w a selected))

  best_of_least :
      (selected : Agent) (l : List Agent)
      → All (λ x. before x (best_of before selected l) ≡ false) l
  unfolding best_of
  best_of_least selected [] = tt
  best_of_least selected (a ∷ l) = (
    best_of_le (if before a selected then a else selected) l a (ground (arith, w.irrefl a)),
    best_of_least (if before a selected then a else selected) l,
  )

  best_of_first :
      (selected : Agent) (l : List Agent) → before selected (best_of before selected l) ≡ false
  best_of_first selected l = best_of_le selected l selected (w.irrefl selected)

  balanced_least :
      (l : List Agent) {a : Agent}
      → select_agent before balanced l ≡ some a
      → All (λ x. before x a ≡ false) l
  unfolding select_agent
  balanced_least [] e = cc
  balanced_least (x ∷ l) e =
      subst (λ b. All (λ y. before y b ≡ false) (x ∷ l)) (some-injective (best_of before x l) _ e)
        (best_of_first x l, best_of_least x l)

best_of-All {κ} :
    (P : Agent → Type κ) (before : Agent → Agent → Bool) (selected : Agent) (l : List Agent)
    → P selected
    → All P l
    → P (best_of before selected l)
unfolding best_of
best_of-All P before selected [] h k = h
best_of-All P before selected (a ∷ l) h k = elim (Bool-cases (before a selected)) [
  | inl lt ↦ rw lt (best_of-All P before a l k.0 k.1)
  | inr ge ↦ rw ge (best_of-All P before selected l h k.1)
]

-- Whatever holds of every candidate holds of the one that is selected.
pub select_agent-All {κ} :
    (P : Agent → Type κ) (before : Agent → Agent → Bool) (c : Choice) (l : List Agent) (a : Agent)
    → All P l
    → select_agent before c l ≡ some a
    → P a
unfolding select_agent
select_agent-All P before balanced [] a h e = cc
select_agent-All P before (random draw) [] a h e = cc
select_agent-All P before balanced (x ∷ l) a h e =
    subst P (some-injective (best_of before x l) a e) (best_of-All P before x l h.0 h.1)
select_agent-All P before (random draw) (x ∷ l) a h e =
    All-get_elem? P _ _ a (sort_by-All (λ x y. text_lt x.id y.id) P (x ∷ l) h) e

-- The Agent is one of the list.
abbrev pub IsOneOf : Agent → List Agent → Type 0
IsOneOf a [] = ⊥
IsOneOf a (x ∷ l) = (x ≡ a) ⊎ IsOneOf a l

each-IsOneOf :
    (l all : List Agent) → ((x : Agent) → IsOneOf x l → IsOneOf x all) → All (λ x. IsOneOf x all) l
each-IsOneOf [] all h = tt
each-IsOneOf (x ∷ l) all h = (h x (inl (λ i. x)), each-IsOneOf l all (λ y m. h y (inr m)))

-- Balanced placement picks one of the candidates, and no other candidate comes before it, over floats
-- that compare as IEEE 754 says.
pub balanced_choice_least :
    (f : Float) (ieee : IsIeee f) (l : List Agent) {a : Agent}
    → select_agent (balanced_before f) balanced l ≡ some a
    → IsOneOf a l × All (λ x. balanced_before f x a ≡ false) l
balanced_choice_least f ieee l {a} e = (
  select_agent-All (λ x. IsOneOf x l) (balanced_before f) balanced l a (each-IsOneOf l l (λ x m. m))
      e,
  balanced_least (balanced_before f) (balanced_before-IsWeakOrder f ieee) l e,
)

-- The Agents that may take a Peer: registered, online, with room, and the target if there is one.
pub record Takes (now : Time) (target : String) (s : Fleet) (a : Agent) : Type 0 where
  pub registered : lookup a.id s.agents ≡ some a
  pub online : agent_is_online a now ≡ true
  pub room : is_full a ≡ false
  pub aimed : (target ≡ "") ⊎ (a.id ≡ target)

abbrev pub Keyed : Dict Agent → Type 0
Keyed m = (k : String) (a : Agent) → lookup k m ≡ some a → a.id ≡ k

pub candidates-Takes :
    (now : Time) (target : String) (s : Fleet) (m : Dict Agent)
    → Keyed s.agents
    → All (λ (e : String × Agent). lookup e.0 s.agents ≡ some e.1) m
    → All (Takes now target s) (candidates now target m)
unfolding candidates is_candidate
candidates-Takes now target s [] k h = tt
candidates-Takes now target s ((j, a) ∷ m) k h = elim (Bool-cases (is_candidate now target a)) [
  | inr no_room ↦ rw no_room (candidates-Takes now target s m k h.1)
  | inl fits ↦ rw fits (
    record {
      registered = ground (arith, k j a h.0, h.0);
      online = ground arith;
      room = ground arith;
      aimed = ground (arith, str_eq_iff target "", str_eq_iff a.id target);
    },
    candidates-Takes now target s m k h.1,
  )
]
