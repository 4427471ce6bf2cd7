-- ===== src/Param/Text.antt =====
-- Texts of values, and the lists of allowed and critical values, in eigerApp/src/eigerParam.cpp.
use Prim.Native.String.{◌++◌}
use adeiger.Base.{
  ℕ, zero, suc, String, Bool, true, false, Option, none, some, List, [], ◌∷◌, str_eq, if◌then◌else◌,
}
use adeiger.Base.Int.{ℤ, pos, negsuc}
use adeiger.Param.Outside.{Outside}
use adeiger.Param.Types.{Param, ParamType, enum_type, Result, ok, failure, undefined}

abbrev pub is_enum : ParamType → Bool
is_enum enum_type = true
is_enum _ = false

abbrev pub value_at : List String → ℕ → Result String
value_at [] i = undefined
value_at (v ∷ values) zero = ok v
value_at (v ∷ values) (suc i) = value_at values i

-- `mEnumValues[index]`
unfoldable pub enum_at : List String → ℤ → Result String
enum_at values (pos i) = value_at values i
enum_at values (negsuc i) = undefined

-- The index of the first value that is equal.
unfoldable pub get_enum_index : List String → String → Option ℕ
get_enum_index [] value = none
get_enum_index (v ∷ values) value =
    let rest = get_enum_index values value in
    if str_eq v value then some 0 else elim rest [ none ↦ none | some i ↦ some (suc i) ]

unfoldable pub is_critical : List String → String → Bool
is_critical [] value = false
is_critical (v ∷ values) value =
    let rest = is_critical values value in if str_eq v value then true else rest

-- `toString` of a text
abbrev pub quote : String → String
quote value = "\"" ++ value ++ "\""

abbrev pub quoted : Result String → Result String
quoted (ok value) = ok (quote value)
quoted failure = failure
quoted undefined = undefined

module _ (o : Outside) where
  open o use {Double}

  unfoldable pub to_string_bool : Param Double → Bool → Result String
  to_string_bool p value =
      if is_enum p.type
      then quoted (enum_at p.enum_values (pos (if value then 0 else 1)))
      else ok (if value then "true" else "false")

  unfoldable pub to_string_int : Param Double → ℤ → Result String
  to_string_int p value =
      if is_enum p.type then quoted (enum_at p.enum_values value) else ok (o.show_int value)
