-- ===== src/Param/Fetch.antt =====
-- `baseFetch` and `fetch` of eigerApp/src/eigerParam.cpp, and `fetchAll` and `fetchParams` of the
-- parameter set. The timeout that they are given is not used there.
use adeiger.Base.{
  ℕ, String, Bool, true, false, not, Option, none, some, List, [], ◌∷◌, length, ◌==◌, ◌&&◌,
  if◌then◌else◌,
}
use adeiger.Base.Int.{ℤ, pos, negsuc}
use adeiger.Param.Outside.{
  Sys, det_status, fw_status, fw_command, command, mon_status, stream_status, sys_command, Outside,
}
use adeiger.Param.Types.{
  ParamType, uninit, bool_type, int_type, uint_type, double_type, enum_type, command_type,
  AccessMode, read_only, write_only, Param, int_limit, ok, Method, pure, fail, require, or_fail,
  this, store, ◌>>=◌, ◌>>◌,
}
use adeiger.Param.Json.{
  parse_array, parse_type, parse_access_mode, parse_min_max, parse_raw_value, parse_bool_value,
}
use adeiger.Param.Text.{get_enum_index}
use adeiger.Param.Get.{int_of_bool, set_integer_param, get_bool, get_int}

abbrev pub is_uninit : ParamType → Bool
is_uninit uninit = true
is_uninit _ = false

abbrev pub is_command : ParamType → Bool
is_command command_type = true
is_command _ = false

abbrev pub is_write_only : AccessMode → Bool
is_write_only write_only = true
is_write_only _ = false

-- The access mode for a part of the detector, with the one that the JSON says.
unfoldable pub access_of : Sys → Option AccessMode → AccessMode
access_of command mode = write_only
access_of fw_command mode = write_only
access_of sys_command mode = write_only
access_of det_status mode = read_only
access_of fw_status mode = read_only
access_of mon_status mode = read_only
access_of stream_status mode = read_only
access_of _ none = read_only
access_of _ (some mode) = mode

-- `(int) (mEnumValues.size() - 1)`
unfoldable pub last_index : List String → ℤ
last_index [] = negsuc 0
last_index (v ∷ values) = pos (length values)

module _ (o : Outside) where
  open o use {Json, Double}

  -- What the first reply says about a parameter.
  unfoldable pub described : Param Double → ParamType → Json → Param Double
  described p type tokens = record p {
    type = if p.custom_enum then enum_type else type;
    access_mode = access_of p.sub_system (parse_access_mode o tokens);
    enum_values = if p.custom_enum then p.enum_values else parse_array o tokens "allowed_values";
    critical_values = parse_array o tokens "critical_values";
  }

  unfoldable pub read_int : ParamType → List String → String → Option ℤ
  read_int enum_type values raw = elim (get_enum_index values raw) [
    | none ↦ none
    | some index ↦ some (pos index)
  ]
  read_int bool_type values raw = elim (parse_bool_value raw) [
    | none ↦ none
    | some value ↦ some (int_of_bool value)
  ]
  read_int int_type values raw = o.scan_int raw
  read_int uint_type values raw = o.scan_int raw
  read_int _ values raw = none

module _ {o : Outside} where
  open o use {Json, Double}

  -- `RestAPI::get`, whose status is not looked at.
  unfoldable pub api_get : Sys → String → Method o String
  api_get ss name s = let r = o.rest_get ss name s.server in (ok r.0, record s { server = r.1 })

  unfoldable pub describe : ℕ → Json → Method o (Unit {0})
  describe i tokens = do
    p ← this i
    type ← or_fail (parse_type o tokens)
    store i (described o p type tokens)

  unfoldable pub read_limits : ℕ → Json → Method o (Unit {0})
  read_limits i tokens = do
    p ← this i
    let lo = parse_min_max o tokens "min" p.min in store i (record p { min = lo.1 }) >> require lo.0
    p ← this i
    let hi = parse_min_max o tokens "max" p.max in store i (record p { max = hi.1 }) >> require hi.0

  unfoldable pub enum_limits : ℕ → Method o (Unit {0})
  enum_limits i = do
    p ← this i
    store i (record p {
      min = record { exists = true; limit = int_limit (pos 0) };
      max = record { exists = true; limit = int_limit (last_index p.enum_values) };
    })

  unfoldable pub set_limits : ParamType → ℕ → Json → Method o (Unit {0})
  set_limits int_type i tokens = read_limits i tokens
  set_limits uint_type i tokens = read_limits i tokens
  set_limits double_type i tokens = read_limits i tokens
  set_limits enum_type i tokens = enum_limits i
  set_limits _ i tokens = pure tt

  -- A parameter that can only be written leaves the text `raw` that it is given.
  unfoldable pub base_fetch : ℕ → String → Method o String
  base_fetch i raw = do
    p ← this i
    require p.remote
    if is_write_only p.access_mode then pure raw else (do
      buffer ← api_get p.sub_system p.name
      tokens ← or_fail (o.parse_json buffer)
      if is_uninit p.type then describe i tokens else pure tt
      p ← this i
      set_limits p.type i tokens
      or_fail (parse_raw_value o tokens))

  -- The value that is parsed here is not stored; `get` reads the asyn parameter.
  unfoldable pub accept_bool : ParamType → ℕ → String → Method o (Unit {0})
  accept_bool bool_type i raw = do value ← or_fail (parse_bool_value raw); pure tt
  accept_bool enum_type i raw = do
    p ← this i
    require (length p.enum_values == 2)
    index ← or_fail (get_enum_index p.enum_values raw)
    set_integer_param p (pos index)
  accept_bool _ i raw = fail

  unfoldable pub fetch_bool : ℕ → Method o Bool
  fetch_bool i = do
    p ← this i
    if p.remote && not (is_command p.type)
        then (do raw ← base_fetch i ""; p ← this i; accept_bool p.type i raw)
        else pure tt
    get_bool i

  unfoldable pub fetch_int : ℕ → Method o ℤ
  fetch_int i = do
    p ← this i
    if p.remote && not (is_command p.type)
        then (do
          raw ← base_fetch i ""
          p ← this i
          value ← or_fail (read_int o p.type p.enum_values raw)
          set_integer_param p value)
        else pure tt
    get_int i
