-- ===== src/Param/Put.antt =====
-- `basePut` and `put` of eigerApp/src/eigerParam.cpp.
use adeiger.Base.{
  ℕ, String, Bool, true, false, not, Option, none, some, length, ◌==◌, ◌&&◌, ◌||◌, str_eq,
  if◌then◌else◌,
}
use adeiger.Base.Int.{ℤ, pos, ltb_ℤ}
use adeiger.Param.Outside.{Sys, Outside}
use adeiger.Param.Types.{
  ParamType, bool_type, int_type, uint_type, double_type, string_type, enum_type, command_type,
  AccessMode, read_only, Param, MinMax, Limit, int_limit, double_limit, Result, ok, failure, Method,
  pure, undef, require, or_fail, this, ◌>>=◌, ◌>>◌,
}
use adeiger.Param.Json.{parse_array}
use adeiger.Param.Text.{is_enum, enum_at, get_enum_index, quote, to_string_bool, to_string_int}
use adeiger.Param.Get.{
  is_int32, nonzero_int, int_of_bool, lift, get_double_param, set_integer_param, set_double_param,
  set_string_param, ignore_status,
}
use adeiger.Param.Fetch.{is_uninit}
use adeiger.Param.FetchAll.{fetch, fetch_params}

abbrev pub is_read_only : AccessMode → Bool
is_read_only read_only = true
is_read_only _ = false

abbrev pub is_bool : ParamType → Bool
is_bool bool_type = true
is_bool _ = false

abbrev pub is_uint : ParamType → Bool
is_uint uint_type = true
is_uint _ = false

abbrev pub is_double : ParamType → Bool
is_double double_type = true
is_double _ = false

abbrev pub is_string : ParamType → Bool
is_string string_type = true
is_string _ = false

abbrev pub takes_int : ParamType → Bool
takes_int bool_type = true
takes_int int_type = true
takes_int uint_type = true
takes_int enum_type = true
takes_int command_type = true
takes_int _ = false

module _ (o : Outside) where
  open o use {Double}

  -- `valInt` and `valDouble` of the union
  abbrev pub val_int : Limit Double → ℤ
  val_int (int_limit n) = n
  val_int (double_limit x) = o.int_bits x

  abbrev pub val_double : Limit Double → Double
  val_double (int_limit n) = o.double_bits n
  val_double (double_limit x) = x

  abbrev pub at_least : MinMax Double → ℤ → ℤ
  at_least min value =
      if min.exists && ltb_ℤ value (val_int min.limit) then val_int min.limit else value

  abbrev pub at_most : MinMax Double → ℤ → ℤ
  at_most max value =
      if max.exists && ltb_ℤ (val_int max.limit) value then val_int max.limit else value

  -- The limits, and 0 for an unsigned parameter.
  unfoldable pub clamp_int : Param Double → ℤ → ℤ
  clamp_int p value =
      let v = at_most p.max (at_least p.min value) in
      if is_uint p.type && ltb_ℤ v (pos 0) then pos 0 else v

  unfoldable pub clamp_double : Param Double → Double → Double
  clamp_double p value =
      let lo = p.min.exists && o.ltb_double value (val_double p.min.limit) in
      let v = if lo then val_double p.min.limit else value in
      if p.max.exists && o.ltb_double (val_double p.max.limit) v then val_double p.max.limit else v

  unfoldable pub int_text : Param Double → ℤ → Result String
  int_text p value =
      if is_bool p.type then to_string_bool o p (nonzero_int value) else to_string_int o p value

module _ {o : Outside} where
  open o use {Double}

  -- `RestAPI::put`
  unfoldable pub api_put : Sys → String → String → Method o String
  api_put ss name raw s =
      let r = o.rest_put ss name raw s.server in
      (elim r.0 [ none ↦ failure | some reply ↦ ok reply ], record s { server = r.1 })

  -- The reply names the parameters that have changed, which are fetched; whether that succeeds is
  -- not looked at.
  unfoldable pub base_put : ℕ → String → Method o (Unit {0})
  base_put i raw = do
    p ← this i
    require (not (is_read_only p.access_mode))
    reply ← api_put p.sub_system p.name raw
    if str_eq reply "" || str_eq reply "\"\"" then pure tt else (do
      tokens ← or_fail (o.parse_json reply)
      ignore_status (fetch_params (parse_array o tokens "")))

  -- The type of a parameter is known after the first fetch.
  unfoldable pub know_type : ℕ → Method o (Unit {0})
  know_type i = do p ← this i; if is_uninit p.type then fetch i else pure tt

  unfoldable pub put_bool : ℕ → Bool → Method o (Unit {0})
  put_bool i value = do
    p ← this i
    if not p.remote then ignore_status (set_integer_param p (int_of_bool value)) else (do
      know_type i
      p ← this i
      require (is_bool p.type || (is_enum p.type && (length p.enum_values == 2)))
      text ← lift (to_string_bool o p value)
      base_put i text
      set_integer_param p (int_of_bool value))

  unfoldable pub send_int : ℕ → ℤ → Method o ℤ
  send_int i value = do
    know_type i
    p ← this i
    require (takes_int p.type)
    text ← lift (int_text o p (clamp_int o p value))
    base_put i text
    pure (clamp_int o p value)

  unfoldable pub put_int : ℕ → ℤ → Method o (Unit {0})
  put_int i value = do
    p ← this i
    value ← if p.remote then send_int i value else pure value
    p ← this i
    if is_int32 p.asyn_type
        then set_integer_param p value
        else (do text ← lift (enum_at p.enum_values value); set_string_param p text)

  unfoldable pub send_double : ℕ → Double → Method o Double
  send_double i value = do
    know_type i
    p ← this i
    require (is_double p.type)
    base_put i (o.show_double (clamp_double o p value))
    pure (clamp_double o p value)

  unfoldable pub put_new_double : ℕ → Double → Method o (Unit {0})
  put_new_double i value = do
    p ← this i
    value ← if p.remote then send_double i value else pure value
    set_double_param p value

  -- A value that is as near to the present one as `mEpsilon` is not put.
  unfoldable pub put_double : ℕ → Double → Method o (Unit {0})
  put_double i value = do
    p ← this i
    current ← get_double_param p
    if o.nonzero p.epsilon
          && o.near (elim current [ none ↦ o.zero_double | some x ↦ x ]) value p.epsilon
        then pure tt
        else put_new_double i value

  -- A text for an integer parameter is put as its index, which only an enumeration has.
  unfoldable pub set_text : Param Double → Option ℕ → String → Method o (Unit {0})
  set_text p index value =
      if is_int32 p.asyn_type
      then (elim index [ none ↦ undef | some n ↦ set_integer_param p (pos n) ])
      else set_string_param p value

  unfoldable pub put_string : ℕ → String → Method o (Unit {0})
  put_string i value = do
    p ← this i
    if not p.remote then ignore_status (set_string_param p value) else (do
      know_type i
      p ← this i
      require (is_string p.type || is_enum p.type)
      index ←
          if is_enum p.type
          then (do n ← or_fail (get_enum_index p.enum_values value); pure (some n))
          else pure none
      base_put i (quote value)
      set_text p index value)
