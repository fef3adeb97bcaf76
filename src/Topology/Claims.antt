-- ===== src/Topology/Claims.antt =====
-- Which node an identity, a run and a Peer's ID, belongs to.
use mathlib.Core.Option.{some-injective}
use v.Common.{
  ◌≡◌, ◌≢◌, refl, sym, ◌∙◌, inl, inr, Bool, ◌&&◌, Option, none, some, Option-cases, Bool-cases,
  List, [], ◌∷◌, String, ◌==◌, str_eq_iff, if◌then◌else◌, filter, arith,
}
use v.Model.{Node}
use v.Topology.Defs.{Claim, find_owner, set_owner, claim, claims_of}

abbrev pub has_identity : String → String → Node → Bool
has_identity run peer n = n.run_id == run && n.peer_id == peer

find-set :
    (run peer run' peer' id : String) (cs : List Claim)
    → find_owner run' peer' (set_owner run peer id cs)
      ≡ (if run == run' && peer == peer' then some id else find_owner run' peer' cs)
unfolding find_owner set_owner
find-set run peer run' peer' id [] = refl
find-set run peer run' peer' id (c ∷ cs) = ground (
  arith,
  str_eq_iff run run',
  str_eq_iff peer peer',
  str_eq_iff c.run_id run,
  str_eq_iff c.peer_id peer,
  str_eq_iff c.run_id run',
  str_eq_iff c.peer_id peer',
  find-set run peer run' peer' id cs,
)

-- What the nodes with the identity leave of its owner so far.
abbrev pub owner_after : Option String → List Node → Option String
owner_after o [] = o
owner_after none (n ∷ ns) = owner_after (some n.id) ns
owner_after (some _) (n ∷ ns) = owner_after (some "") ns

abbrev claimed : Option String → Node → String
claimed none n = n.id
claimed (some _) n = ""

claim_lem :
    (run peer : String) (n : Node) (cs : List Claim)
    → find_owner run peer (claim n cs) ≡ (
        if has_identity run peer n
        then some (claimed (find_owner run peer cs) n)
        else find_owner run peer cs)
unfolding claim
claim_lem run peer n cs =
    find-set n.run_id n.peer_id run peer _ cs ∙ elim (Bool-cases (has_identity run peer n)) [
      | inl same ↦ elim (Option-cases (find_owner run peer cs)) [
        | inl e ↦ ground (arith, same, e, str_eq_iff n.run_id run, str_eq_iff n.peer_id peer)
        | inr (o, e) ↦ ground (arith, same, e, str_eq_iff n.run_id run, str_eq_iff n.peer_id peer)
      ]
      | inr other ↦ ground (arith, other)
    ]

owner_after-claimed :
    (o : Option String) (n : Node) (ns : List Node)
    → owner_after (some (claimed o n)) ns ≡ owner_after o (n ∷ ns)
owner_after-claimed none n ns = refl
owner_after-claimed (some _) n ns = refl

pub claims-find :
    (run peer : String) (ns : List Node) (cs : List Claim)
    → find_owner run peer (claims_of ns cs)
      ≡ owner_after (find_owner run peer cs) (filter (has_identity run peer) ns)
unfolding claims_of
claims-find run peer [] cs = refl
claims-find run peer (n ∷ ns) cs = elim (Bool-cases (has_identity run peer n)) [
  | inl same ↦ ground (
    arith,
    same,
    claims-find run peer ns (claim n cs),
    claim_lem run peer n cs,
    owner_after-claimed (find_owner run peer cs) n (filter (has_identity run peer) ns),
  )
  | inr other ↦ ground (arith, other, claims-find run peer ns (claim n cs), claim_lem run peer n cs)
]

-- The one node with the identity is `id`.
abbrev pub Owns : List Node → String → String → Type 0
Owns ns run id =
    (peer : String) × (n : Node) × (filter (has_identity run peer) ns ≡ n ∷ []) × (n.id ≡ id)

owner_after-none : (o : String) (ns : List Node) → owner_after (some o) ns ≢ none
owner_after-none o [] h = cc
owner_after-none o (n ∷ ns) h = owner_after-none "" ns h

owner_after-empty : (ns : List Node) (id : String) → owner_after (some "") ns ≡ some id → id ≡ ""
owner_after-empty [] id h = cc
owner_after-empty (n ∷ ns) id h = owner_after-empty ns id h

one_of :
    (ns : List Node) (id : String)
    → owner_after none ns ≡ some id
    → id ≢ ""
    → (n : Node) × (ns ≡ n ∷ []) × (n.id ≡ id)
one_of [] id h e = cc
one_of (n ∷ []) id h e = (n, refl, some-injective n.id id h)
one_of (n ∷ m ∷ ns) id h e = absurd (e (owner_after-empty ns id h))

-- What the map of identities gives, where it is not empty, is the one visible node.
pub find-Owns :
    (run peer id : String) (ns : List Node)
    → find_owner run peer (claims_of ns []) ≡ some id
    → id ≢ ""
    → Owns ns run id
unfolding find_owner
find-Owns run peer id ns h e =
    let (n, one, same) =
      one_of (filter (has_identity run peer) ns) id (sym (claims-find run peer ns []) ∙ h) e in
    (peer, n, one, same)
