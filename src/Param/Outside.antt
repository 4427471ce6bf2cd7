-- ===== src/Param/Outside.antt =====
-- What eigerApp/src/eigerParam.cpp uses of its surroundings: the arithmetic and the text of numbers,
-- the JSON parser frozen (a copy of another project's library, under eigerApp/frozenSrc), the
-- detector's REST interface, and the parameter library of asynPortDriver.
use adeiger.Base.{ℕ, String, Bool, Option, List}
use adeiger.Base.Int.{ℤ}

-- `sys_t`
pub data Sys : Type 0 where
  api_version det_config det_status fw_config fw_status fw_command : Sys
  command data_files mon_config mon_status mon_images : Sys
  stream_config stream_status sys_command : Sys

-- `asynParamType`
pub data AsynType : Type 0 where
  int32 float64 octet other_type : AsynType

pub data TokenKind : Type 0 where
  array string_text other_kind : TokenKind

-- A `json_token`: its text, and for an array the texts of the tokens below it.
pub record Token : Type 0 where
  pub kind : TokenKind
  pub text : String
  pub below : List String

pub record Outside : Type 1 where
  -- floating-point numbers: `a < b`, `fabs(a - b) < epsilon`, `x != 0`, and the two conversions of
  -- the free disk space to GB, from KB and from bytes
  pub Double : Type 0
  pub zero_double : Double
  pub ltb_double : Double → Double → Bool
  pub near : Double → Double → Double → Bool
  pub nonzero : Double → Bool
  pub from_kb : Double → Double
  pub from_bytes : Double → Double
  -- `sscanf` with %d and %lf, and `ostream`
  pub scan_int : String → Option ℤ
  pub scan_double : String → Option Double
  pub show_int : ℤ → String
  pub show_double : Double → String
  -- the other member of the union in `eiger_min_max_t`
  pub int_bits : Double → ℤ
  pub double_bits : ℤ → Double
  -- frozen: `parse_json`, `find_json_token`, and the first token
  pub Json : Type 0
  pub parse_json : String → Option Json
  pub find : Json → String → Option Token
  pub root : Json → Token
  -- `RestAPI::get` leaves a text in its buffer; `RestAPI::put` fails or has a reply
  pub Server : Type 0
  pub is_1_6_0 : Bool
  pub rest_get : Sys → String → Server → String × Server
  pub rest_put : Sys → String → String → Server → Option String × Server
  -- asynPortDriver: a setter returns whether it succeeded
  pub Asyn : Type 0
  pub find_param : String → Asyn → Option ℕ
  pub create_param : String → AsynType → Asyn → Option ℕ × Asyn
  pub get_integer : ℕ → Asyn → ℤ
  pub get_double : ℕ → Asyn → Option Double
  pub get_string : ℕ → Asyn → Option String
  pub set_integer : ℕ → ℤ → Asyn → Bool × Asyn
  pub set_double : ℕ → Double → Asyn → Bool × Asyn
  pub set_string : ℕ → String → Asyn → Bool × Asyn
