-- ===== src/Ingest/Numbered.antt =====
-- internal/controller/run_metrics.go: the text of a session's event tells the events of a session apart.
use mathlib.Core.List.{append_assoc, head-eq_of_cons-eq, tail-eq_of_cons-eq}
use mathlib.Core.Path.{subst}
use v.Common.{
  ℕ, zero, suc, ◌+◌, ◌-◌, ◌*◌, ◌/◌, ◌%◌, ◌<◌, ◌≡◌, refl, sym, ap, ◌∙◌, true, inl, inr, [], ◌∷◌,
  ◌++◌, String, ltb, Bool-cases, All, codes, codes_injective, arith,
}
use v.Model.{TraceEvent}
use v.Sequences.Defs.{u64_mod}
use v.Ingest.Defs.{Codes, digits, decimal, sequenced_text, is_sequenced, event_identity}
use v.Ingest.Identity.{sequenced_identity}

-- The number whose decimal digits follow those of `n`.
abbrev read : Codes → ℕ → ℕ
read [] n = n
read (c ∷ cs) n = read cs (n * 10 + (c - b'0'))

abbrev power : ℕ → ℕ
power zero = 1
power (suc k) = 10 * power k

digits-read : (fuel n : ℕ) (acc : Codes) → n < power fuel → read (digits fuel n acc) 0 ≡ read acc n
unfolding digits
digits-read zero n acc h = ap (read acc) (omega arith)
digits-read (suc fuel) n acc h = elim (Bool-cases (ltb n 10)) [
  | inl small ↦ rw small (ap (read acc) (omega arith))
  | inr large ↦ rw large (
      digits-read fuel (n / 10) ((b'0' + n % 10) ∷ acc) (omega arith) ∙ ap (read acc) (omega arith))
]

digits-colon :
    (fuel n : ℕ) (acc : Codes) → All (λ c. c < b':') acc → All (λ c. c < b':') (digits fuel n acc)
unfolding digits
digits-colon zero n acc h = h
digits-colon (suc fuel) n acc h = elim (Bool-cases (ltb n 10)) [
  | inl small ↦ rw small (ground arith, h)
  | inr large ↦ rw large (digits-colon fuel (n / 10) ((b'0' + n % 10) ∷ acc) (omega arith, h))
]

decimal_injective : (m n : ℕ) → m < u64_mod → n < u64_mod → decimal m ≡ decimal n → m ≡ n
unfolding decimal
decimal_injective m n h k e =
    sym (digits-read 20 m [] (omega arith))
    ∙ ap (λ d. read d 0) e
    ∙ digits-read 20 n [] (omega arith)

All-last : (P : ℕ → Type 0) (a d : Codes) (c : ℕ) → All P (a ++ (c ∷ d)) → P c
All-last P [] d c h = h.0
All-last P (x ∷ a) d c h = All-last P a d c h.1

-- The last colon divides a text.
split_last :
    (a b d e : Codes)
    → a ++ (b':' ∷ d) ≡ b ++ (b':' ∷ e)
    → All (λ c. c < b':') d
    → All (λ c. c < b':') e
    → (a ≡ b) × (d ≡ e)
split_last [] [] d e h p q = (refl, tail-eq_of_cons-eq h)
split_last [] (y ∷ b) d e h p q =
    let later = subst (All (λ c. c < b':')) (tail-eq_of_cons-eq h) p in
    absurd (ground (arith, All-last (λ c. c < b':') b e b':' later))
split_last (x ∷ a) [] d e h p q =
    let later = subst (All (λ c. c < b':')) (sym (tail-eq_of_cons-eq h)) q in
    absurd (ground (arith, All-last (λ c. c < b':') a d b':' later))
split_last (x ∷ a) (y ∷ b) d e h p q =
    let rest = split_last a b d e (tail-eq_of_cons-eq h) p q in
    let same : x ≡ y = head-eq_of_cons-eq h in (cc, rest.1)

-- The first 0 divides a text.
split_first :
    (a b d e : Codes)
    → a ++ (0 ∷ d) ≡ b ++ (0 ∷ e)
    → All (λ c. 0 < c) a
    → All (λ c. 0 < c) b
    → (a ≡ b) × (d ≡ e)
split_first [] [] d e h p q = (refl, tail-eq_of_cons-eq h)
split_first [] (y ∷ b) d e h p q =
    let same : 0 ≡ y = head-eq_of_cons-eq h in absurd (ground (arith, q.0, same))
split_first (x ∷ a) [] d e h p q =
    let same : x ≡ 0 = head-eq_of_cons-eq h in absurd (ground (arith, p.0, same))
split_first (x ∷ a) (y ∷ b) d e h p q =
    let rest = split_first a b d e (tail-eq_of_cons-eq h) p.1 q.1 in
    let same : x ≡ y = head-eq_of_cons-eq h in (cc, rest.1)

append_cancel : (a d e : Codes) → a ++ d ≡ a ++ e → d ≡ e
append_cancel [] d e h = h
append_cancel (x ∷ a) d e h = append_cancel a d e (tail-eq_of_cons-eq h)

-- A session's event of a node whose id has no NUL, with a number of 64 bits.
pub record IsNumbered (e : TraceEvent) : Type 0 where
  pub sequenced : is_sequenced e ≡ true
  pub word : e.sequence < u64_mod
  pub node : All (λ c. 0 < c) (codes e.node_id)

-- The events are of one node and session, with one number.
pub record AreOne (x y : TraceEvent) : Type 0 where
  pub node : x.node_id ≡ y.node_id
  pub session : x.session_id ≡ y.session_id
  pub number : x.sequence ≡ y.sequence

pub identity-AreOne :
    (x y : TraceEvent)
    → IsNumbered x
    → IsNumbered y
    → event_identity x ≡ event_identity y
    → AreOne x y
unfolding sequenced_text
identity-AreOne x y p q e =
    let texts = sym (sequenced_identity x p.sequenced) ∙ e ∙ sequenced_identity y q.sequenced in
    let parts = split_first (codes x.node_id) (codes y.node_id) _ _ texts p.node q.node in
    let tails = append_cancel (codes "session:") _ _ parts.1 in
    let ends =
      split_last (codes x.session_id) (codes y.session_id) (decimal x.sequence) (decimal y.sequence)
        tails (unfold decimal in digits-colon 20 x.sequence [] tt)
        (unfold decimal in digits-colon 20 y.sequence [] tt) in
    record {
      node = codes_injective x.node_id y.node_id parts.0;
      session = codes_injective x.session_id y.session_id ends.0;
      number = decimal_injective x.sequence y.sequence p.word q.word ends.1;
    }

sequenced_text-last :
    (node session : String) (n : ℕ)
    → sequenced_text node session n
      ≡ (codes node ++ (0 ∷ codes "session:" ++ codes session)) ++ (b':' ∷ decimal n)
unfolding sequenced_text
sequenced_text-last node session n =
    ap (λ l. codes node ++ (0 ∷ l))
      (sym (append_assoc (codes "session:") (codes session) (b':' ∷ decimal n)))
    ∙ sym (append_assoc (codes node) (0 ∷ codes "session:" ++ codes session) (b':' ∷ decimal n))

-- Whatever the ids are, one text is of one number.
pub identity-number :
    (x y : TraceEvent)
    → is_sequenced x ≡ true
    → is_sequenced y ≡ true
    → x.sequence < u64_mod
    → y.sequence < u64_mod
    → event_identity x ≡ event_identity y
    → x.sequence ≡ y.sequence
identity-number x y p q h k e =
    let texts =
      sym (sequenced_text-last x.node_id x.session_id x.sequence)
      ∙ sym (sequenced_identity x p)
      ∙ e
      ∙ sequenced_identity y q
      ∙ sequenced_text-last y.node_id y.session_id y.sequence in
    let ends =
      split_last _ _ (decimal x.sequence) (decimal y.sequence) texts
        (unfold decimal in digits-colon 20 x.sequence [] tt)
        (unfold decimal in digits-colon 20 y.sequence [] tt) in
    decimal_injective x.sequence y.sequence h k ends.1
