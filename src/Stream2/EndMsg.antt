-- ===== src/Stream2/EndMsg.antt =====
-- `parse_end_msg` of eigerApp/src/stream2.c: the members and keys of an end message, and the loop
-- over them.
use adeiger.Base.{ℕ, String, none, str_eq, if◌then◌else◌}
use adeiger.Cbor.{Env}
use adeiger.Stream2.Memory.{CharPtr}
use adeiger.Stream2.Types.{EndMsg, Msg}
use adeiger.Stream2.Monad.{M, reply, ◌>>=◌, Field, at}
use adeiger.Stream2.Scalars.{parse_uint64, parse_text_string, each_field, calloc_msg}

abbrev pub in_series_id : Field EndMsg ℕ
in_series_id = record { view = λ m. m.series_id; update = λ v m. record m { series_id = v } }

abbrev pub in_series_unique_id : Field EndMsg CharPtr
in_series_unique_id = record {
  view = λ m. m.series_unique_id;
  update = λ v m. record m { series_unique_id = v };
}

pub data EndKey : Type 0 where
  series_id series_unique_id : EndKey
  unknown : EndKey

-- The ladder of `strcmp`.
unfoldable pub end_key : String → EndKey
end_key key =
    if str_eq key "series_id"
    then series_id
    else if str_eq key "series_unique_id"
    then series_unique_id
    else unknown

-- The structure after `calloc`.
abbrev pub new_end_msg : EndMsg
new_end_msg = record { series_id = 0; series_unique_id = none }

module _ (e : Env) where
  open e use {Value, Double}

  unfoldable pub parse_end_value : EndKey → Value → M EndMsg Value
  parse_end_value series_id it = at in_series_id (parse_uint64 e it)
  parse_end_value series_unique_id it = at in_series_unique_id (parse_text_string e it)
  parse_end_value unknown it = reply (e.advance it)

  unfoldable pub parse_end_field : String → Value → M EndMsg Value
  parse_end_field key it = do it ← reply (e.skip_tag it); parse_end_value (end_key key) it

  unfoldable pub parse_end_msg : ℕ → Value → M (Msg Double) Value
  parse_end_msg fuel it = calloc_msg e Msg.end new_end_msg (each_field e parse_end_field fuel it)
