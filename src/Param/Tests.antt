-- ===== src/Param/Tests.antt =====
-- Runs of the parameters' code on a small detector, and the theorems at concrete values.
use adeiger.Base.{
  ℕ, suc, String, ◌≡◌, refl, true, false, none, some, [], ◌∷◌, str_eq, if◌then◌else◌, ltb, arith,
  get_or,
}
use adeiger.Base.Int.{pos, ◌≤ℤ◌}
use adeiger.Param.Outside.{det_config, int32, string_text, other_kind, Outside}
use adeiger.Param.Types.{
  Param, uint_type, enum_type, read_write, int_limit, System, ok, blank_param, bool_type, this,
  pure, fail, require, or_fail, ◌>>=◌,
}
use adeiger.Param.Text.{get_enum_index, to_string_bool, to_string_int, quote}
use adeiger.Param.Get.{int_of_bool, get_bool, get_integer_param}
use adeiger.Param.Json.{parse_raw_value, parse_bool_value}
use adeiger.Param.Fetch.{
  read_int, fetch_bool, base_fetch, accept_bool, api_get, describe, set_limits,
}
use adeiger.Param.FetchAll.{find_name, get_by_name, get_by_index}
use adeiger.Param.Put.{clamp_int, put_int, put_string}
use adeiger.Param.Create.{enter}
use adeiger.Param.Clamp.{lower, upper, clamp_int-Within}
use adeiger.Param.Enums.{
  Found, get_enum_index-Found, to_string_int-read_int, to_string_bool_opposite,
}
use adeiger.Param.Guards.{Refused, put_int-Refused, put_string-Refused}
use adeiger.Param.FetchBool.{Post, IsPresent, fetch_bool-Post}
use adeiger.Param.Names.{Ascending, or_else, get_by_index-enter, get_by_name-enter}

-- A detector that answers every request with the value true and takes every setting. All integers of
-- asyn are 0.
abbrev detector : Outside
detector = record {
  Double = ℕ;
  zero_double = 0;
  ltb_double = ltb;
  near = λ a b epsilon. true;
  nonzero = λ x. ltb 0 x;
  from_kb = λ x. x;
  from_bytes = λ x. x;
  scan_int = λ text. if str_eq text "7" then some (pos 7) else none;
  scan_double = λ text. none;
  show_int = λ n. "n";
  show_double = λ x. "x";
  int_bits = λ x. pos x;
  double_bits = λ n. 0;
  Json = String;
  parse_json = λ text. some text;
  find = λ json key.
      if str_eq key "value"
      then some (record { kind = other_kind; text = "true"; below = [] })
      else none;
  root = λ json. record { kind = string_text; text = json; below = [] };
  Server = ℕ;
  is_1_6_0 = false;
  rest_get = λ ss name server. ("", suc server);
  rest_put = λ ss name text server. (some "", suc server);
  Asyn = ℕ;
  find_param = λ name asyn. none;
  create_param = λ name type asyn. (some asyn, suc asyn);
  get_integer = λ i asyn. pos 0;
  get_double = λ i asyn. none;
  get_string = λ i asyn. none;
  set_integer = λ i n asyn. (true, suc asyn);
  set_double = λ i x asyn. (true, suc asyn);
  set_string = λ i text asyn. (true, suc asyn);
}

-- A setting with the limits 1 and 10.
abbrev limited : Param ℕ
limited = record (blank_param detector) {
  name = "nimages";
  remote = true;
  asyn_type = int32;
  sub_system = det_config;
  type = uint_type;
  min = record { exists = true; limit = int_limit (pos 1) };
  max = record { exists = true; limit = int_limit (pos 10) };
}

abbrev monitor_mode : Param ℕ
monitor_mode = record (blank_param detector) {
  name = "mode";
  remote = true;
  asyn_type = int32;
  type = enum_type;
  access_mode = read_write;
  enum_values = "disabled" ∷ "enabled" ∷ [];
}

abbrev two_params : System detector
two_params = record {
  server = 0;
  asyn = 5;
  params = limited ∷ monitor_mode ∷ [];
  det_config_map = ("nimages", 0) ∷ [];
  asyn_map = (3, 0) ∷ (4, 1) ∷ [];
}

clamp_int-Within_example :
    (lower detector limited ≤ℤ clamp_int detector limited (pos 12))
    × (clamp_int detector limited (pos 12) ≤ℤ upper detector limited)
clamp_int-Within_example =
    clamp_int-Within detector limited (pos 12) refl refl (omega arith) (omega arith)

get_enum_index-Found_example :
    Found
      ("disabled" ∷ "enabled" ∷ [])
      "enabled"
      (get_enum_index ("disabled" ∷ "enabled" ∷ []) "enabled")
get_enum_index-Found_example = get_enum_index-Found ("disabled" ∷ "enabled" ∷ []) "enabled"

to_string_int-read_int_example : to_string_int detector monitor_mode (pos 1) ≡ ok (quote "enabled")
unfolding read_int get_enum_index
to_string_int-read_int_example =
    to_string_int-read_int detector monitor_mode "enabled" (pos 1) refl refl

-- `put` of false sends "enabled".
to_string_bool_opposite_example :
    (to_string_bool detector monitor_mode false ≡ ok (quote "enabled"))
    × (read_int detector enum_type monitor_mode.enum_values "enabled" ≡ some (int_of_bool true))
to_string_bool_opposite_example =
    to_string_bool_opposite detector monitor_mode "disabled" "enabled" false refl refl refl

put_int-Refused_example : Refused two_params (put_int 0 (pos 5) two_params)
put_int-Refused_example = put_int-Refused two_params 0 (pos 5) refl refl refl

put_string-Refused_example : Refused two_params (put_string 1 "on" two_params)
unfolding get_enum_index
put_string-Refused_example = put_string-Refused two_params 1 "on" refl refl refl

abbrev frame_time : Param ℕ
frame_time = record limited { name = "frame_time"; asyn_index = 9 }

get_by_index-enter_example :
    Ascending (enter frame_time two_params).1.asyn_map
    × (get_by_index 9 (enter frame_time two_params).1
        ≡ some (or_else (get_by_index 9 two_params) 2))
get_by_index-enter_example = get_by_index-enter two_params frame_time ((omega arith, tt), (tt, tt))

get_by_name-enter_example :
    (get_by_name "frame_time" (enter frame_time two_params).1 ≡ some 2)
    × (get_or (enter frame_time two_params).1.params 2 (blank_param detector) ≡ frame_time)
unfolding get_by_name find_name
get_by_name-enter_example = get_by_name-enter two_params frame_time refl refl refl

-- A switch that is on in the detector and off in asyn.
abbrev switch_params : System detector
switch_params = record two_params { params = record limited { type = bool_type } ∷ [] }

fetch_bool-Post_example :
    Post switch_params (IsPresent switch_params 0) (fetch_bool 0 switch_params)
fetch_bool-Post_example = fetch_bool-Post switch_params 0 refl refl

-- `fetch` reads off although the detector says on.
fetch_bool_off : (fetch_bool 0 switch_params).0 ≡ ok false
unfolding fetch_bool base_fetch accept_bool get_bool api_get describe set_limits this pure fail
    require or_fail ◌>>=◌ parse_raw_value parse_bool_value get_integer_param
fetch_bool_off = refl
