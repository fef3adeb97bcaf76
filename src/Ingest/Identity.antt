-- ===== src/Ingest/Identity.antt =====
-- internal/controller/run_metrics.go: `hasEvent` knows an event exactly if `observe` has seen its identity.
use v.Common.{
  ℕ, ◌≡◌, refl, sym, ◌∙◌, Bool, true, false, not, ◌&&◌, ◌||◌, inl, inr, List, [], ◌∷◌, ◌++◌, ◌==◌,
  str_eq_iff, str_eq_refl, if◌then◌else◌, nat_eq, Bool-cases, All, codes, arith,
}
use v.Model.{TraceEvent}
use v.Sequences.Defs.{Ranges}
use v.Sequences.Added.{IsNormal}
use v.Ingest.Defs.{
  Codes, codes_eq, is_empty, is_sequenced, event_identity, SessionKey, sequenced_text, key_eq,
  ranges_of, set_ranges,
}

-- Two events of one source with one identity, by which retries are told from new events.
unfoldable pub same_identity : TraceEvent → TraceEvent → Bool
same_identity x y =
    if is_sequenced x && is_sequenced y
    then x.node_id == y.node_id && (x.session_id == y.session_id && nat_eq x.sequence y.sequence)
    else if is_sequenced x || is_sequenced y
    then false
    else not (is_empty (event_identity x)) && codes_eq (event_identity x) (event_identity y)

pub codes_eq_sound : (a b : Codes) → codes_eq a b ≡ true → a ≡ b
codes_eq_sound [] [] h = refl
codes_eq_sound [] (d ∷ ds) h = cc
codes_eq_sound (c ∷ more) [] h = cc
codes_eq_sound (c ∷ more) (d ∷ ds) h = ground (arith, codes_eq_sound more ds)

pub codes_eq_refl : (a : Codes) → codes_eq a a ≡ true
codes_eq_refl [] = refl
codes_eq_refl (c ∷ more) = ground (arith, codes_eq_refl more)

not_empty-append : (a b : Codes) (c : ℕ) → is_empty (a ++ (c ∷ b)) ≡ false
not_empty-append [] b c = refl
not_empty-append (x ∷ a) b c = refl

pub sequenced_identity :
    (e : TraceEvent)
    → is_sequenced e ≡ true
    → event_identity e ≡ sequenced_text e.node_id e.session_id e.sequence
unfolding event_identity
sequenced_identity e h = rw h

pub sequenced-not_empty :
    (e : TraceEvent) → is_sequenced e ≡ true → is_empty (event_identity e) ≡ false
unfolding sequenced_text
sequenced-not_empty e h = rw (sequenced_identity e h) (not_empty-append (codes e.node_id) _ 0)

sequenced-text :
    (x y : TraceEvent)
    → is_sequenced x ≡ true
    → is_sequenced y ≡ true
    → same_identity x y ≡ true
    → event_identity x ≡ event_identity y
unfolding same_identity
sequenced-text x y sx sy h =
    let node : x.node_id ≡ y.node_id =
      (str_eq_iff x.node_id y.node_id).0 (ground (arith, sx, sy)) in
    let session : x.session_id ≡ y.session_id =
      (str_eq_iff x.session_id y.session_id).0 (ground (arith, sx, sy)) in
    let number : x.sequence ≡ y.sequence = ground (arith, sx, sy) in
    let texts : sequenced_text x.node_id x.session_id x.sequence
        ≡ sequenced_text y.node_id y.session_id y.sequence =
      cc in
    sequenced_identity x sx ∙ texts ∙ sym (sequenced_identity y sy)

-- Events with one identity have one text for it, and that is not empty.
pub same_identity-text :
    (x y : TraceEvent)
    → same_identity x y ≡ true
    → (is_empty (event_identity x) ≡ false) × (event_identity x ≡ event_identity y)
unfolding same_identity
same_identity-text x y h = elim (Bool-cases (is_sequenced x)) [
  | inl sx ↦ elim (Bool-cases (is_sequenced y)) [
    | inl sy ↦ (sequenced-not_empty x sx, sequenced-text x y sx sy h)
    | inr sy ↦ absurd (ground (arith, sx, sy))
  ]
  | inr sx ↦ elim (Bool-cases (is_sequenced y)) [
    | inl sy ↦ absurd (ground (arith, sx, sy))
    | inr sy ↦ (
      ground (arith, sx, sy),
      codes_eq_sound (event_identity x) (event_identity y) (ground (arith, sx, sy)),
    )
  ]
]

key_eq-text :
    (a b : SessionKey) → key_eq a b ≡ true → (a.node_id ≡ b.node_id) × (a.session_id ≡ b.session_id)
key_eq-text a b h =
    ground (arith, str_eq_iff a.node_id b.node_id, str_eq_iff a.session_id b.session_id)

pub key_eq-path : (a b : SessionKey) → key_eq a b ≡ true → a ≡ b
key_eq-path a b h = let p = key_eq-text a b h in ground (arith, p.0, p.1)

pub key_eq_refl : (a : SessionKey) → key_eq a a ≡ true
key_eq_refl a = ground (arith, str_eq_refl a.node_id, str_eq_refl a.session_id)

pub ranges_of-set_ranges :
    (k j : SessionKey) (new : Ranges) (m : List (SessionKey × Ranges))
    → ranges_of j (set_ranges k new m) ≡ (if key_eq k j then new else ranges_of j m)
unfolding ranges_of set_ranges
ranges_of-set_ranges k j new [] = ground arith
ranges_of-set_ranges k j new ((i, r) ∷ rest) = elim (Bool-cases (key_eq i k)) [
  | inl same ↦ let e = key_eq-path i k same in rw same (rw (← e) (ground arith))
  | inr other ↦ elim (Bool-cases (key_eq i j)) [
    | inl here ↦
        let e = key_eq-path i j here in
        let apart : key_eq k j ≡ false = elim (Bool-cases (key_eq k j)) [
          | inl kj ↦ ground (arith, key_eq-path k j kj, key_eq_refl i, other)
          | inr kj ↦ kj
        ] in
        rw (other, here, apart)
    | inr there ↦ rw (other, there) (ranges_of-set_ranges k j new rest)
  ]
]

-- The intervals of each session are in order.
abbrev pub AreNormal : List (SessionKey × Ranges) → Type 0
AreNormal m = All (λ (e : SessionKey × Ranges). IsNormal e.1) m

pub ranges_of-IsNormal :
    (k : SessionKey) (m : List (SessionKey × Ranges)) → AreNormal m → IsNormal (ranges_of k m)
unfolding ranges_of
ranges_of-IsNormal k [] h = tt
ranges_of-IsNormal k ((j, r) ∷ rest) h = elim (Bool-cases (key_eq j k)) [
  | inl e ↦ rw e h.0
  | inr e ↦ rw e (ranges_of-IsNormal k rest h.1)
]

pub set_ranges-AreNormal :
    (k : SessionKey) (new : Ranges) (m : List (SessionKey × Ranges))
    → IsNormal new
    → AreNormal m
    → AreNormal (set_ranges k new m)
unfolding set_ranges
set_ranges-AreNormal k new [] h n = (h, tt)
set_ranges-AreNormal k new ((j, r) ∷ rest) h n = elim (Bool-cases (key_eq j k)) [
  | inl e ↦ rw e (h, n.1)
  | inr e ↦ rw e (n.0, set_ranges-AreNormal k new rest h n.1)
]
