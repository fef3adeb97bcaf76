-- ===== src/Telemetry/Ordered.antt =====
-- internal/peer/telemetry.go: lists of events in the order of their sequence numbers, and the drops that
-- notices among them tell.
use v.Common.{
  ℕ, ◌+◌, ◌≤◌, ◌<◌, ◌≡◌, Option, some, List, [], ◌∷◌, ◌++◌, ◌==◌, if◌then◌else◌, All, arith,
}
use v.Model.{TraceEvent, FieldValue, number}
use v.Telemetry.Queue.{field_of}

-- The numbers ascend from above `low`, and none is above `high`.
abbrev pub Between : ℕ → List TraceEvent → ℕ → Type 0
Between low [] high = low ≤ high
Between low (e ∷ es) high = (low < e.sequence) × Between e.sequence es high

pub Between-push :
    (low high : ℕ) (es : List TraceEvent) (e : TraceEvent)
    → Between low es high
    → high < e.sequence
    → Between low (es ++ (e ∷ [])) e.sequence
Between-push low high [] e h lt = omega arith
Between-push low high (x ∷ es) e h lt = (h.0, Between-push x.sequence high es e h.1 lt)

pub Between-raise :
    (low high top : ℕ) (es : List TraceEvent)
    → Between low es high
    → high ≤ top
    → Between low es top
Between-raise low high top [] h le = omega arith
Between-raise low high top (e ∷ es) h le = (h.0, Between-raise e.sequence high top es h.1 le)

Between-lower :
    (low low' high : ℕ) (es : List TraceEvent)
    → Between low' es high
    → low ≤ low'
    → Between low es high
Between-lower low low' high [] h le = omega arith
Between-lower low low' high (e ∷ es) h le = (omega arith, h.1)

pub Between-remove :
    (low high : ℕ) (xs ys : List TraceEvent) (e : TraceEvent)
    → Between low (xs ++ (e ∷ ys)) high
    → Between low (xs ++ ys) high
Between-remove low high [] ys e h = Between-lower low e.sequence high ys h.1 (omega arith)
Between-remove low high (x ∷ xs) ys e h = (h.0, Between-remove x.sequence high xs ys e h.1)

pub Between-le : (low high : ℕ) (es : List TraceEvent) → Between low es high → low ≤ high
Between-le low high [] h = h
Between-le low high (e ∷ es) h = omega (arith, Between-le e.sequence high es h.1)

abbrev pub number_of : Option FieldValue → ℕ
number_of (some (number n)) = n
number_of _ = 0

-- The drops that a notice tells; other events tell none.
unfoldable pub drops_of : TraceEvent → ℕ
drops_of e = if e.type == "telemetry_drop" then number_of (field_of "count" e) else 0

unfoldable pub told : List TraceEvent → ℕ
told [] = 0
told (e ∷ es) = drops_of e + told es

pub told-append : (xs ys : List TraceEvent) → told (xs ++ ys) ≡ told xs + told ys
unfolding told
told-append [] ys = omega arith
told-append (x ∷ xs) ys = omega (arith, told-append xs ys)

pub All-remove :
    (P : TraceEvent → Type 0) (xs ys : List TraceEvent) (e : TraceEvent)
    → All P (xs ++ (e ∷ ys))
    → All P (xs ++ ys)
All-remove P [] ys e h = h.1
All-remove P (x ∷ xs) ys e h = (h.0, All-remove P xs ys e h.1)

pub All-push :
    (P : TraceEvent → Type 0) (xs : List TraceEvent) (e : TraceEvent)
    → All P xs
    → P e
    → All P (xs ++ (e ∷ []))
All-push P [] e h p = (p, tt)
All-push P (x ∷ xs) e h p = (h.0, All-push P xs e h.1 p)
