-- ===== src/Common/Text.antt =====
-- `strings.TrimSpace`, as far as the program asks for it: is a text blank, has it space around it.
use Prim.Native.Nat.{ℕ}
use Prim.Native.Char.{code}
use Prim.Native.String.{String}
use mathlib.Core.Bool.{Bool, true, false, ◌&&◌, ◌||◌}
use mathlib.Core.List.{List, [], ◌∷◌}
use mathlib.Core.Path.{◌≡◌, refl, ap₂}
use native.Mathlib.Omega.{arith}
use text.Mathlib.TextEquality.{Char-path}
use v.Common.Tests.{ltb, leb, nat_eq}

abbrev pub codes : String → List ℕ
codes String.[] = []
codes (String.◌∷◌ c s) = code c ∷ codes s

-- `unicode.IsSpace`.
unfoldable pub is_space : ℕ → Bool
is_space c =
    (leb 9 c && leb c 13)
    || (nat_eq c 32)
    || (nat_eq c 0x85)
    || (nat_eq c 0xa0)
    || (nat_eq c 0x1680)
    || (leb 0x2000 c && leb c 0x200a)
    || (nat_eq c 0x2028)
    || (nat_eq c 0x2029)
    || (nat_eq c 0x202f)
    || (nat_eq c 0x205f)
    || (nat_eq c 0x3000)

all_space : List ℕ → Bool
unfolding is_space
all_space [] = true
all_space (c ∷ zs) = is_space c && all_space zs

-- `strings.TrimSpace(s) == ""`.
unfoldable pub is_blank : String → Bool
unfolding all_space
is_blank s = all_space (codes s)

last_is_space : List ℕ → Bool
unfolding is_space
last_is_space [] = false
last_is_space (c ∷ []) = is_space c
last_is_space (c ∷ d ∷ zs) = last_is_space (d ∷ zs)

first_is_space : List ℕ → Bool
unfolding is_space
first_is_space [] = false
first_is_space (c ∷ zs) = is_space c

-- `strings.TrimSpace(s) != s`.
unfoldable pub has_outer_space : String → Bool
unfolding first_is_space last_is_space
has_outer_space s = first_is_space (codes s) || last_is_space (codes s)

codes_lt : List ℕ → List ℕ → Bool
codes_lt [] [] = false
codes_lt [] (d ∷ ds) = true
codes_lt (c ∷ zs) [] = false
codes_lt (c ∷ zs) (d ∷ ds) = ltb c d || nat_eq c d && codes_lt zs ds

-- Go's `<` on texts: by bytes of UTF-8, which is by code points.
unfoldable pub text_lt : String → String → Bool
unfolding codes_lt
text_lt s t = codes_lt (codes s) (codes t)

codes_lt_irrefl : (zs : List ℕ) → codes_lt zs zs ≡ false
unfolding codes_lt
codes_lt_irrefl [] = refl
codes_lt_irrefl (c ∷ zs) = ground (arith, codes_lt_irrefl zs)

codes_lt_trans :
    (xs ys zs : List ℕ) → codes_lt xs ys ≡ true → codes_lt ys zs ≡ true → codes_lt xs zs ≡ true
unfolding codes_lt
codes_lt_trans [] [] zs h k = cc
codes_lt_trans [] (b ∷ ys) [] h k = cc
codes_lt_trans [] (b ∷ ys) (c ∷ zs) h k = refl
codes_lt_trans (a ∷ xs) [] zs h k = cc
codes_lt_trans (a ∷ xs) (b ∷ ys) [] h k = cc
codes_lt_trans (a ∷ xs) (b ∷ ys) (c ∷ zs) h k = ground (arith, codes_lt_trans xs ys zs)

codes_lt_connected : (xs ys : List ℕ) → codes_lt xs ys ≡ false → codes_lt ys xs ≡ false → xs ≡ ys
unfolding codes_lt
codes_lt_connected [] [] h k = refl
codes_lt_connected [] (b ∷ ys) h k = cc
codes_lt_connected (a ∷ xs) [] h k = cc
codes_lt_connected (a ∷ xs) (b ∷ ys) h k = ground (arith, codes_lt_connected xs ys)

pub codes_injective : (s t : String) → codes s ≡ codes t → s ≡ t
codes_injective String.[] String.[] h = refl
codes_injective String.[] (String.◌∷◌ d t) h = cc
codes_injective (String.◌∷◌ c s) String.[] h = cc
codes_injective (String.◌∷◌ c s) (String.◌∷◌ d t) h =
    ap₂ (String.◌∷◌) (Char-path c d (ground arith)) (codes_injective s t (ground arith))

pub text_lt_irrefl : (s : String) → text_lt s s ≡ false
unfolding text_lt
text_lt_irrefl s = codes_lt_irrefl (codes s)

pub text_lt_trans : (s t u : String) → text_lt s t ≡ true → text_lt t u ≡ true → text_lt s u ≡ true
unfolding text_lt
text_lt_trans s t u h k = codes_lt_trans (codes s) (codes t) (codes u) h k

pub text_lt_connected : (s t : String) → text_lt s t ≡ false → text_lt t s ≡ false → s ≡ t
unfolding text_lt
text_lt_connected s t h k = codes_injective s t (codes_lt_connected (codes s) (codes t) h k)
