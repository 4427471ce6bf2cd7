-- ===== src/Param/Json.antt =====
-- What eigerApp/src/eigerParam.cpp reads off the detector's JSON: lists of texts, the type, the
-- access mode and the limits of a parameter, and values.
use text.Mathlib.Text.{starts_with}
use adeiger.Base.{
  String, Bool, true, false, Option, none, some, List, [], ◌∷◌, ◌||◌, str_eq, if◌then◌else◌,
}
use adeiger.Param.Outside.{Token, array, string_text, other_kind, Outside}
use adeiger.Param.Types.{
  ParamType, bool_type, int_type, uint_type, double_type, string_type, enum_type, command_type,
  AccessMode, read_only, read_write, write_only, MinMax, Limit, int_limit, double_limit,
}

abbrev pub token_values : Token → List String
token_values t = elim t.kind [ array ↦ t.below | string_text ↦ t.text ∷ [] | other_kind ↦ [] ]

-- The switch on the first letter.
unfoldable pub letter_type : String → Option ParamType
letter_type text =
    if starts_with text "s"
    then some string_type
    else if starts_with text "l"
    then some string_type
    else if starts_with text "f"
    then some double_type
    else if starts_with text "b"
    then some bool_type
    else if starts_with text "u"
    then some uint_type
    else if starts_with text "i"
    then some int_type
    else if starts_with text "e"
    then some enum_type
    else if starts_with text "c"
    then some command_type
    else none

-- `parseValue` of a boolean
unfoldable pub parse_bool_value : String → Option Bool
parse_bool_value raw =
    if str_eq raw "true" then some true else if str_eq raw "false" then some false else none

unfoldable pub access_text : String → Option AccessMode
access_text text =
    if str_eq text "r"
    then some read_only
    else if str_eq text "w"
    then some write_only
    else if str_eq text "rw"
    then some read_write
    else none

module _ (o : Outside) where
  open o use {Json, Double}

  -- With an empty name, the first token.
  unfoldable pub parse_array : Json → String → List String
  parse_array tokens name =
      elim (if str_eq name "" then some (o.root tokens) else o.find tokens name) [
        | none ↦ []
        | some t ↦ token_values t
      ]

  -- A parameter with allowed values is an enumeration; one that can only be written is a command.
  unfoldable pub parse_type : Json → Option ParamType
  parse_type tokens = elim (o.find tokens "value_type") [
    | none ↦ none
    | some t ↦
        let text : String = elim (o.find tokens "allowed_values") [
          | none ↦ t.text
          | some _ ↦ "enum"
        ] in
        letter_type (elim (o.find tokens "access_mode") [
          | none ↦ text
          | some mode ↦ if starts_with mode.text "w" then "command" else text
        ])
  ]

  unfoldable pub parse_access_mode : Json → Option AccessMode
  parse_access_mode tokens = elim (o.find tokens "access_mode") [
    | none ↦ none
    | some t ↦ access_text t.text
  ]

  -- The limit that a text says, for a type; the types that have none leave the old one.
  unfoldable pub limit_of : String → String → Limit Double → Option (Limit Double)
  limit_of type_text text old =
      if starts_with type_text "i" || starts_with type_text "u"
      then (elim (o.scan_int text) [ none ↦ none | some n ↦ some (int_limit n) ])
      else if starts_with type_text "f"
      then (elim (o.scan_double text) [ none ↦ none | some x ↦ some (double_limit x) ])
      else some old

  -- `exists` is set before the limit is read, so it also stays set when that fails.
  unfoldable pub parse_min_max : Json → String → MinMax Double → Bool × MinMax Double
  parse_min_max tokens key old = elim (o.find tokens key) [
    | none ↦ (true, record old { exists = false })
    | some t ↦ elim (o.find tokens "value_type") [
      | none ↦ (false, record old { exists = true })
      | some type ↦ elim (limit_of type.text t.text old.limit) [
        | none ↦ (false, record old { exists = true })
        | some limit ↦ (true, record { exists = true; limit = limit })
      ]
    ]
  ]

  unfoldable pub parse_raw_value : Json → Option String
  parse_raw_value tokens = elim (o.find tokens "value") [ none ↦ none | some t ↦ some t.text ]
