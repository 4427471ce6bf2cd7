-- ===== src/Stream2/Image.antt =====
-- `parse_image_msg` of eigerApp/src/stream2.c: the members and keys of an image message, and the
-- loop over them.
use adeiger.Base.{ℕ, String, none, str_eq, if◌then◌else◌}
use adeiger.Cbor.{Env}
use adeiger.Stream2.Memory.{CharPtr}
use adeiger.Stream2.Types.{ImageMsg, HeapArray, ChannelArray, UserData, no_items, no_user_data, Msg}
use adeiger.Stream2.Monad.{M, reply, ◌>>=◌, Field, at}
use adeiger.Stream2.Scalars.{parse_uint64, parse_text_string, each_field, calloc_msg}
use adeiger.Stream2.Arrays.{parse_array_2_uint64}
use adeiger.Stream2.Values.{parse_user_data, parse_image_data}

abbrev pub in_series_id : Field ImageMsg ℕ
in_series_id = record { view = λ m. m.series_id; update = λ v m. record m { series_id = v } }

abbrev pub in_series_unique_id : Field ImageMsg CharPtr
in_series_unique_id = record {
  view = λ m. m.series_unique_id;
  update = λ v m. record m { series_unique_id = v };
}

abbrev pub in_image_id : Field ImageMsg ℕ
in_image_id = record { view = λ m. m.image_id; update = λ v m. record m { image_id = v } }

abbrev pub in_real_time : Field ImageMsg (ℕ × ℕ)
in_real_time = record { view = λ m. m.real_time; update = λ v m. record m { real_time = v } }

abbrev pub in_series_date : Field ImageMsg CharPtr
in_series_date = record { view = λ m. m.series_date; update = λ v m. record m { series_date = v } }

abbrev pub in_start_time : Field ImageMsg (ℕ × ℕ)
in_start_time = record { view = λ m. m.start_time; update = λ v m. record m { start_time = v } }

abbrev pub in_stop_time : Field ImageMsg (ℕ × ℕ)
in_stop_time = record { view = λ m. m.stop_time; update = λ v m. record m { stop_time = v } }

abbrev pub in_user_data : Field ImageMsg UserData
in_user_data = record { view = λ m. m.user_data; update = λ v m. record m { user_data = v } }

abbrev pub in_channel_data : Field ImageMsg (HeapArray ChannelArray)
in_channel_data = record {
  view = λ m. m.channel_data;
  update = λ v m. record m { channel_data = v };
}

pub data ImageKey : Type 0 where
  series_id series_unique_id image_id : ImageKey
  real_time series_date start_time : ImageKey
  stop_time user_data channel_data : ImageKey
  unknown : ImageKey

-- The ladder of `strcmp`.
unfoldable pub image_key : String → ImageKey
image_key key =
    if str_eq key "series_id"
    then series_id
    else if str_eq key "series_unique_id"
    then series_unique_id
    else if str_eq key "image_id"
    then image_id
    else if str_eq key "real_time"
    then real_time
    else if str_eq key "series_date"
    then series_date
    else if str_eq key "start_time"
    then start_time
    else if str_eq key "stop_time"
    then stop_time
    else if str_eq key "user_data"
    then user_data
    else if str_eq key "data"
    then channel_data
    else unknown

-- The structure after `calloc`.
abbrev pub new_image_msg : ImageMsg
new_image_msg = record {
  series_id = 0;
  series_unique_id = none;
  image_id = 0;
  real_time = (0, 0);
  series_date = none;
  start_time = (0, 0);
  stop_time = (0, 0);
  user_data = no_user_data;
  channel_data = no_items;
}

module _ (e : Env) where
  open e use {Value, Double}

  unfoldable pub parse_image_value : ImageKey → Value → M ImageMsg Value
  parse_image_value series_id it = at in_series_id (parse_uint64 e it)
  parse_image_value series_unique_id it = at in_series_unique_id (parse_text_string e it)
  parse_image_value image_id it = at in_image_id (parse_uint64 e it)
  parse_image_value real_time it = at in_real_time (parse_array_2_uint64 e it)
  parse_image_value series_date it = at in_series_date (parse_text_string e it)
  parse_image_value start_time it = at in_start_time (parse_array_2_uint64 e it)
  parse_image_value stop_time it = at in_stop_time (parse_array_2_uint64 e it)
  parse_image_value user_data it = at in_user_data (parse_user_data e it)
  parse_image_value channel_data it = at in_channel_data (parse_image_data e it)
  parse_image_value unknown it = reply (e.advance it)

  unfoldable pub parse_image_field : String → Value → M ImageMsg Value
  parse_image_field key it = do it ← reply (e.skip_tag it); parse_image_value (image_key key) it

  unfoldable pub parse_image_msg : ℕ → Value → M (Msg Double) Value
  parse_image_msg fuel it =
      calloc_msg e Msg.image new_image_msg (each_field e parse_image_field fuel it)
