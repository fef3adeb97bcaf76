-- ===== src/Config/Kind.antt =====
-- internal/model/config.go: how BuiltInNodeConfig reads the name of a kind.
use Prim.Native.Char.{Char, code}
use v.Common.{◌&&◌, String, ◌==◌, if◌then◌else◌, nat_eq, is_space}

unfoldable pub trim_start : String → String
unfolding is_space
trim_start String.[] = ""
trim_start (String.◌∷◌ c s) =
    let rest = trim_start s in if is_space (code c) then rest else String.◌∷◌ c s

unfoldable pub trim_end : String → String
unfolding is_space
trim_end String.[] = ""
trim_end (String.◌∷◌ c s) =
    let rest = trim_end s in if rest == "" && is_space (code c) then "" else String.◌∷◌ c rest

-- The letter of `small` that stands where the character stands in `capital`.
unfoldable pub small_letter : String → String → Char → Char
small_letter (String.◌∷◌ u capital) (String.◌∷◌ l small) c =
    let other = small_letter capital small c in if nat_eq (code c) (code u) then l else other
small_letter String.[] small c = c
small_letter (String.◌∷◌ u capital) String.[] c = c

-- `unicode.ToLower`, as far as its value is an ASCII letter: no kind has any other letter.
unfoldable pub lower_char : Char → Char
unfolding small_letter
lower_char = small_letter "ABCDEFGHIJKLMNOPQRSTUVWXYZİK" "abcdefghijklmnopqrstuvwxyzik"

unfoldable pub lower : String → String
unfolding lower_char
lower String.[] = ""
lower (String.◌∷◌ c s) = String.◌∷◌ (lower_char c) (lower s)

-- `strings.ToLower(strings.TrimSpace(kind))`.
unfoldable pub kind_name : String → String
unfolding trim_start trim_end lower
kind_name kind = lower (trim_end (trim_start kind))
