-- ===== src/Fleet/Reservations.antt =====
-- What a reservation does to the fleet, and that a release undoes it.
use mathlib.Core.Option.{some-injective}
use mathlib.Core.Path.{subst}
use v.Common.{
  ◌≡◌, ◌⊎◌, refl, sym, ap, ◌∙◌, Bool, true, false, none, some, Option-cases, List, [], ◌∷◌, String,
  str_eq_iff, str_eq_refl, inl, inr, Bool-cases, text_lt, sort_by, Dict, lookup, insert,
  lookup-insert, lookup-delete, Distinct, Extends-All, All, arith, ℕ, ◌<◌, length, get_elem?-some,
}
use v.Common.Int.{pos, is_pos, ◌≤ℤ◌, ◌+ℤ◌, ◌-ℤ◌, +ℤ-cancel, +ℤ_parts}
use v.Common.Order.{length-sort_by}
use v.Model.{Time, Agent}
use v.Fleet.Defs.{Fleet}
use v.Fleet.Placement.{
  is_full, is_candidate, candidates, Choice, balanced, random, select_agent, reserve,
  reserve_choice, try_reserve, release_slot, release_reservation,
}
use v.Fleet.Choices.{Takes, Keyed, candidates-Takes, select_agent-All}

-- What a successful reservation means for the Agent `b`, which becomes `a`.
pub record Occupies (node : String) (b a : Agent) (s' : Fleet) : Type 0 where
  pub one_more : a ≡ record b { active_nodes = b.active_nodes +ℤ pos 1 }
  pub recorded : lookup a.id s'.agents ≡ some a
  pub reserved : lookup node s'.reservations ≡ some a.id
  pub within : (is_pos a.capacity ≡ false) ⊎ (a.active_nodes ≤ℤ a.capacity)

reserve-Occupies :
    (node : String) (b : Agent) (s : Fleet) {a : Agent}
    → is_full b ≡ false
    → (reserve node b s).agent ≡ some a
    → Occupies node b a (reserve node b s).fleet
unfolding reserve is_full ◌+ℤ◌
reserve-Occupies node b s {a} h e =
    let b' : Agent = record b { active_nodes = b.active_nodes +ℤ pos 1 } in
    let same : b' ≡ a = some-injective b' a e in
    subst (λ x. Occupies node b x (reserve node b s).fleet) same
      (record {
        one_more = refl;
        recorded = rw (lookup-insert b.id b.id b' s.agents, str_eq_refl);
        reserved = rw (lookup-insert node node b.id s.reservations, str_eq_refl);
        within = elim (Bool-cases (is_pos b.capacity)) [
          | inl bounded ↦ inr (ground (arith, bounded))
          | inr free ↦ inl free
        ];
      })

-- A Peer with no reservation is placed on an Agent that is registered, online, has room and is the
-- target if one is named; its occupancy grows by one, stays within a positive capacity, and the
-- reservation is on record.
pub try_reserve_places :
    (before : Agent → Agent → Bool) (c : Choice) (now : Time) (node target : String) (s : Fleet)
    (a : Agent)
    → Keyed s.agents
    → Distinct s.agents
    → lookup node s.reservations ≡ none
    → (try_reserve before c now node target s).agent ≡ some a
    → (b : Agent) × Takes now target s b
      × Occupies node b a (try_reserve before c now node target s).fleet
unfolding try_reserve reserve_choice
try_reserve_places before c now node target s a k d free e =
    let l = candidates now target s.agents in
    elim (Option-cases (select_agent before c l)) [
      | inl nobody ↦ absurd (ground (arith, free, nobody))
      | inr (b, picked) ↦
          let t : Takes now target s b =
            select_agent-All (Takes now target s) before c l b
              (candidates-Takes now target s s.agents k
                (Extends-All s.agents s.agents d (λ k v e. e)))
              picked in
          let p : try_reserve before c now node target s ≡ reserve node b s =
            ground (arith, free, picked) in
          (
            b,
            t,
            subst (λ r. Occupies node b a r.fleet) (sym p)
                (reserve-Occupies node b s t.room (ap (λ r. r.agent) (sym p) ∙ e)),
          )
    ]

candidates-nil :
    (now : Time) (target : String) (m : Dict Agent)
    → candidates now target m ≡ []
    → All (λ (e : String × Agent). is_candidate now target e.1 ≡ false) m
unfolding candidates
candidates-nil now target [] e = tt
candidates-nil now target ((k, a) ∷ m) e = elim (Bool-cases (is_candidate now target a)) [
  | inl fits ↦ absurd (ground (arith, fits))
  | inr no_room ↦ (no_room, candidates-nil now target m (ground (arith, no_room)))
]

select_agent-nil :
    (before : Agent → Agent → Bool) (c : Choice) (l : List Agent)
    → ((draw : ℕ → ℕ) → c ≡ random draw → (n : ℕ) → 0 < n → draw n < n)
    → select_agent before c l ≡ none
    → l ≡ []
unfolding select_agent
select_agent-nil before c [] fair e = refl
select_agent-nil before balanced (x ∷ l) fair e = cc
select_agent-nil before (random draw) (x ∷ l) fair e = absurd (
    get_elem?-some (sort_by by_id (x ∷ l)) (draw (length (x ∷ l)))
      (omega (arith, length-sort_by by_id (x ∷ l), fair draw refl (length (x ∷ l)) (omega arith)))
      e)
  where
    by_id : Agent → Agent → Bool
    by_id a b = text_lt a.id b.id

-- Where every number drawn is below its bound, a Peer with no reservation is left without an Agent
-- only if no Agent is a candidate, and then nothing changes.
pub try_reserve_fails :
    (before : Agent → Agent → Bool) (c : Choice) (now : Time) (node target : String) (s : Fleet)
    → ((draw : ℕ → ℕ) → c ≡ random draw → (n : ℕ) → 0 < n → draw n < n)
    → lookup node s.reservations ≡ none
    → (try_reserve before c now node target s).agent ≡ none
    → All (λ (e : String × Agent). is_candidate now target e.1 ≡ false) s.agents
      × ((try_reserve before c now node target s).fleet ≡ s)
unfolding try_reserve reserve_choice reserve
try_reserve_fails before c now node target s fair free e =
    let l = candidates now target s.agents in
    let none_picked : select_agent before c l ≡ none =
      ground (arith, free, Option-cases (select_agent before c l)) in
    (
      candidates-nil now target s.agents (select_agent-nil before c l fair none_picked),
      ground (arith, free, none_picked),
    )

release_slot-undoes :
    (b : Agent) (m : Dict Agent) (k : String)
    → lookup b.id m ≡ some b
    → is_pos (b.active_nodes +ℤ pos 1) ≡ true
    → let b' = record b { active_nodes = b.active_nodes +ℤ pos 1 } in
      lookup k (release_slot b.id (some b') (insert b.id b' m)) ≡ lookup k m
unfolding release_slot
release_slot-undoes b m k known p =
    let b' : Agent = record b { active_nodes = b.active_nodes +ℤ pos 1 } in
    let undone : Agent = record b { active_nodes = b.active_nodes +ℤ pos 1 -ℤ pos 1 } in
    let same : undone ≡ b =
      ap {B = Agent} (λ t. record b { active_nodes = t }) (+ℤ-cancel b.active_nodes (pos 1)) in
    rw p (
      ground (
        arith,
        lookup-insert b.id k undone (insert b.id b' m),
        lookup-insert b.id k b' m,
        same,
        str_eq_iff b.id k,
        known,
      ))

-- Releasing a fresh reservation gives back every Agent and every reservation as they were, if the
-- Agent's occupancy was not negative.
pub release-reserve :
    (node : String) (b : Agent) (s : Fleet) (k : String)
    → lookup node s.reservations ≡ none
    → lookup b.id s.agents ≡ some b
    → pos 0 ≤ℤ b.active_nodes
    → let s' = release_reservation node (reserve node b s).fleet in
      (lookup k s'.agents ≡ lookup k s.agents)
      × (lookup k s'.reservations ≡ lookup k s.reservations)
unfolding release_reservation reserve
release-reserve node b s k free known p =
    let b' : Agent = record b { active_nodes = b.active_nodes +ℤ pos 1 } in
    let held : lookup node (insert node b.id s.reservations) ≡ some b.id =
      rw (lookup-insert node node b.id s.reservations, str_eq_refl) in
    let stored : lookup b.id (insert b.id b' s.agents) ≡ some b' =
      rw (lookup-insert b.id b.id b' s.agents, str_eq_refl) in
    let positive : is_pos (b.active_nodes +ℤ pos 1) ≡ true =
      ground (arith, +ℤ_parts b.active_nodes (pos 1)) in
    rw (held, release_reservation)
      (
        rw stored (release_slot-undoes b s.agents k known positive),
        ground (
          arith,
          lookup-delete node k (insert node b.id s.reservations),
          lookup-insert node k b.id s.reservations,
          str_eq_iff node k,
          free,
        ),
      )
