-- ===== src/Param/Create.antt =====
-- The constructor of `EigerParam`, the setters of its object, and `create` of the parameter set, in eigerApp/src/eigerParam.cpp.
use adeiger.Base.{
  ℕ, String, Bool, true, false, not, Option, none, some, List, [], ◌∷◌, ◌++◌, length, ltb, ◌==◌,
  ◌&&◌, str_eq, if◌then◌else◌,
}
use adeiger.Param.Outside.{
  Sys, det_config, command, fw_command, sys_command, AsynType, int32, float64, octet, other_type,
  Outside,
}
use adeiger.Param.Types.{
  ParamType, uninit, int_type, double_type, string_type, command_type, read_only, write_only, Param,
  ok, failure, Method, pure, or_fail, blank_param, this, store, ◌>>=◌,
}

-- The type of a parameter that the detector does not have.
unfoldable pub local_type : AsynType → Option ParamType
local_type int32 = some int_type
local_type float64 = some double_type
local_type octet = some string_type
local_type other_type = none

abbrev pub is_command_part : Sys → Bool
is_command_part command = true
is_command_part fw_command = true
is_command_part sys_command = true
is_command_part _ = false

abbrev pub is_det_config : Sys → Bool
is_det_config det_config = true
is_det_config _ = false

unfoldable pub first_type : AsynType → Sys → String → Option ParamType
first_type asyn_type ss name =
    if str_eq name ""
    then local_type asyn_type
    else if is_command_part ss
    then some command_type
    else some uninit

-- `map::insert` keeps the value of a key that is there.
unfoldable pub insert_name : String → ℕ → List (String × ℕ) → List (String × ℕ)
insert_name name i [] = (name, i) ∷ []
insert_name name i ((key, j) ∷ entries) =
    let rest = insert_name name i entries in
    if str_eq key name then (key, j) ∷ entries else (key, j) ∷ rest

unfoldable pub insert_index : ℕ → ℕ → List (ℕ × ℕ) → List (ℕ × ℕ)
insert_index index i [] = (index, i) ∷ []
insert_index index i ((key, j) ∷ entries) =
    let rest = insert_index index i entries in
    if ltb index key
    then (index, i) ∷ (key, j) ∷ entries
    else if key == index
    then (key, j) ∷ entries
    else (key, j) ∷ rest

module _ {o : Outside} where
  -- `findParam`, or else `createParam`.
  unfoldable pub asyn_param : String → AsynType → Method o ℕ
  asyn_param asyn_name asyn_type s = elim (o.find_param asyn_name s.asyn) [
    | some index ↦ (ok index, s)
    | none ↦
        let r = o.create_param asyn_name asyn_type s.asyn in
        (elim r.0 [ none ↦ failure | some index ↦ ok index ], record s { asyn = r.1 })
  ]

  -- Fails where the constructor throws.
  unfoldable pub new_param : String → AsynType → Sys → String → Method o (Param o.Double)
  new_param asyn_name asyn_type ss name = do
    index ← asyn_param asyn_name asyn_type
    type ← or_fail (first_type asyn_type ss name)
    pure (record (blank_param o) {
      asyn_name = asyn_name;
      asyn_type = asyn_type;
      sub_system = ss;
      name = name;
      remote = not (str_eq name "");
      asyn_index = index;
      type = type;
      access_mode = if not (str_eq name "") && is_command_part ss then write_only else read_only;
    })

  unfoldable pub enter : Param o.Double → Method o ℕ
  enter p s =
      let i = length s.params in
      (
        ok i,
        record s {
          params = s.params ++ (p ∷ []);
          det_config_map =
              if not (str_eq p.name "") && is_det_config p.sub_system
              then insert_name p.name i s.det_config_map
              else s.det_config_map;
          asyn_map = insert_index p.asyn_index i s.asyn_map;
        },
      )

  unfoldable pub create : String → AsynType → Sys → String → Method o ℕ
  create asyn_name asyn_type ss name = do p ← new_param asyn_name asyn_type ss name; enter p

  unfoldable pub set_epsilon : ℕ → o.Double → Method o (Unit {0})
  set_epsilon i epsilon = do p ← this i; store i (record p { epsilon = epsilon })

  unfoldable pub set_enum_values : ℕ → List String → Method o (Unit {0})
  set_enum_values i values = do
    p ← this i
    store i (record p { enum_values = values; custom_enum = true })
