-- ===== src/Config/Defs.antt =====
-- internal/model/config.go: what WithDefaults, promoteLegacy and mergeNonZero do with one field.
use v.Common.{Option, none, some, String, ◌==◌, if◌then◌else◌}
use v.Common.Int.{ℤ, pos, eq_ℤ}

-- `if field == nil { field = &value }`.
abbrev pub or_default : {A : Type 0} → A → Option A → Option A
or_default value none = some value
or_default value (some x) = some x

-- `if field == "" { field = value }`.
abbrev pub default_text : String → String → String
default_text value field = if field == "" then value else field

-- A pointer of the overlay, or the base's if it is nil.
abbrev pub over : {A : Type 0} → Option A → Option A → Option A
over base none = base
over base (some x) = some x

abbrev pub over_text : String → String → String
over_text base field = if field == "" then base else field

abbrev pub over_int : ℤ → ℤ → ℤ
over_int base field = if eq_ℤ field (pos 0) then base else field

-- `if legacy != 0 && field == nil { field = &legacy }`.
abbrev pub promoted : ℤ → Option ℤ → Option ℤ
promoted legacy none = if eq_ℤ legacy (pos 0) then none else some legacy
promoted legacy (some x) = some x

-- What a pointer points to; the code does so only behind a default.
abbrev pub pointed : Option ℤ → ℤ
pointed none = pos 0
pointed (some x) = x
