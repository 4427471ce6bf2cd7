-- ===== src/Stream2/Tests.antt =====
-- Messages to run the parser of eigerApp/src/stream2.c on, and the theorems at these inputs.
use adeiger.Base.{
  ℕ, zero, suc, ◌*◌, ◌/◌, ◌%◌, ◌^◌, ◌<◌, ◌≡◌, refl, Bool, true, not, none, some, List, [], ◌∷◌,
  ◌++◌, arith, replicate, get_or, ◌==◌,
}
use adeiger.Cbor.{Env, MovesForward}
use adeiger.Stream2.Memory
use adeiger.Stream2.Memory.{Heap, freed, null_deref}
use adeiger.Stream2.Monad.{ok}
use adeiger.Stream2.Tokens.{Token, Items, Cursor, env, env-MovesForward}
use adeiger.Stream2.Types.{Msg, ImageMsg, MultidimArray, no_array, no_bytes}
use adeiger.Stream2.Parse.{Parsed, parsed, crashed}
use adeiger.Stream2.Memory.{malloc, free}
use adeiger.Stream2.Monad.{
  cbor_result, pure, fail, diverge, reply, require, get, modify, ◌>>=◌, at, local,
}
use adeiger.Stream2.Scalars.{
  for_each, read_u64_be, skip_header, consume_byte_string_nocopy, parse_copied, parse_key,
  parse_tag, parse_bool, read_double, parse_double, parse_uint64, store_text, dup_text,
  parse_text_string, each_field, fill_msg, calloc_msg,
}
use adeiger.Stream2.Arrays.{
  typed_array_elem_size, parse_array_2_uint64, read_orig_size, parse_dectris_compression,
  parse_plain_bytes, parse_bytes, parse_typed_array, parse_multidim_array,
}
use adeiger.Stream2.Values.{
  axis_field, parse_goniometer_axis, goniometer_field, parse_goniometer, parse_user_data,
  store_items, calloc_items, parse_channels, parse_detector_translation, parse_heap_map,
  parse_channel_array, parse_flatfield, parse_pixel_mask, parse_image_data, parse_threshold,
  parse_threshold_energy,
}
use adeiger.Stream2.Start.{
  start_key, skip_start_tag, parse_lookup_table, parse_start_value, parse_start_field,
  parse_start_msg,
}
use adeiger.Stream2.Image.{image_key, parse_image_value, parse_image_field, parse_image_msg}
use adeiger.Stream2.EndMsg.{end_key, parse_end_value, parse_end_field, parse_end_msg}
use adeiger.Stream2.Free.{free_each, free_items, free_image_msg, free_start_msg, stream2_free_msg}
use adeiger.Stream2.Parse.{
  has_magic, parse_msg_type, parse_by_type, parse_msg, after_free, finish, stream2_parse_msg,
}
use adeiger.Stream2.Sound.Parse.{
  Ended, GivenBack, stream2_parse_msg-Ended, stream2_free_msg-stream2_parse_msg,
}
use adeiger.Stream2.Triple.Arrays.{
  TypedLength, CompressionChecked, DimensionsChecked, tag_size, parse_typed_array_checked,
  parse_bytes_checked, parse_multidim_array_checked, parse_multidim_array_size,
}
use adeiger.Stream2.Triple.Messages.{HandsOut, stream2_parse_msg-HandsOut}
use adeiger.Stream2.Triple.Images.{Checked, stream2_parse_msg-Checked}
use adeiger.Stream2.Numbers.{typed_array_elem_size-tag, read_u64_be_bytes, skip_header_argument}
use adeiger.Stream2.Arrays.{data_size}

abbrev granted : ℕ → Bool
granted n = true

-- The signature, and from offset 40 a byte string of twelve bytes behind its header.
abbrev buffer : List ℕ
buffer =
    (0xd9 ∷ 0xd9 ∷ 0xf7 ∷ replicate 37 0)
    ++ (0x4c ∷ 0 ∷ 0 ∷ 0 ∷ 0 ∷ 0 ∷ 0 ∷ 0 ∷ 8 ∷ 0 ∷ 0 ∷ 0 ∷ 0 ∷ [])

abbrev pub empty_heap : Heap
empty_heap = record { next = 0; live = [] }

abbrev end_items : Items
end_items =
    (3, Token.map 4)
    ∷ (4, Token.text 4 "type")
    ∷ (9, Token.text 3 "end")
    ∷ (13, Token.text 9 "series_id")
    ∷ (23, Token.uint 7)
    ∷ (24, Token.text 16 "series_unique_id")
    ∷ (26, Token.text 2 "ab")
    ∷ (29, Token.text 7 "novelty")
    ∷ (37, Token.uint 1)
    ∷ []

-- A tag of an array, its dimensions, and a compressed byte string.
abbrev array_items : Items
array_items =
    (32, Token.tag 40)
    ∷ (33, Token.array 2)
    ∷ (34, Token.array 2)
    ∷ (35, Token.uint 2)
    ∷ (36, Token.uint 2)
    ∷ (37, Token.tag 69)
    ∷ (38, Token.tag 56500)
    ∷ (39, Token.array 3)
    ∷ (39, Token.text 5 "bslz4")
    ∷ (39, Token.uint 2)
    ∷ (40, Token.bytes 12)
    ∷ []

abbrev image_items : Items
image_items =
    ((3, Token.map 4)
      ∷ (4, Token.text 4 "type")
      ∷ (9, Token.text 5 "image")
      ∷ (13, Token.text 9 "image_id")
      ∷ (23, Token.uint 5)
      ∷ (24, Token.text 16 "series_unique_id")
      ∷ (26, Token.text 2 "ab")
      ∷ (29, Token.text 4 "data")
      ∷ (30, Token.map 1)
      ∷ (31, Token.text 3 "all")
      ∷ [])
    ++ array_items

-- The key `channels` twice, each with one channel.
abbrev repeated_items : Items
repeated_items =
    (3, Token.map 3)
    ∷ (4, Token.text 4 "type")
    ∷ (9, Token.text 5 "start")
    ∷ (15, Token.text 8 "channels")
    ∷ (24, Token.array 1)
    ∷ (25, Token.text 3 "all")
    ∷ (29, Token.text 8 "channels")
    ∷ (38, Token.array 1)
    ∷ (39, Token.text 3 "all")
    ∷ []

-- All that a run computes with.
run : Items → (ℕ → Bool) → Parsed ℕ
unfolding malloc free cbor_result pure fail diverge reply require get modify ◌>>=◌ at local for_each
    read_u64_be skip_header consume_byte_string_nocopy parse_copied parse_key parse_tag parse_bool
    read_double parse_double parse_uint64 store_text dup_text parse_text_string each_field fill_msg
    calloc_msg typed_array_elem_size parse_array_2_uint64 read_orig_size parse_dectris_compression
    parse_plain_bytes parse_bytes parse_typed_array parse_multidim_array axis_field
    parse_goniometer_axis goniometer_field parse_goniometer parse_user_data store_items calloc_items
    parse_channels parse_detector_translation parse_heap_map parse_channel_array parse_flatfield
    parse_pixel_mask parse_image_data parse_threshold parse_threshold_energy start_key
    skip_start_tag parse_lookup_table parse_start_value parse_start_field parse_start_msg image_key
    parse_image_value parse_image_field parse_image_msg end_key parse_end_value parse_end_field
    parse_end_msg free_each free_items free_image_msg free_start_msg stream2_free_msg has_magic
    parse_msg_type parse_by_type parse_msg after_free finish stream2_parse_msg Memory.◌>>◌
run items grants = stream2_parse_msg (env items buffer grants) 60 0 60 empty_heap

end_run :
    run end_items granted
    ≡ parsed
        (Msg.end 0 (record { series_id = 7; series_unique_id = some (1, "ab") }))
        (record { next = 2; live = 1 ∷ 0 ∷ [] })
unfolding run
end_run = refl

-- The second array of channels is not granted: the message is freed through a pointer that is
-- `NULL`, with the length of the first array.
repeated_key_crashes : run repeated_items (λ n. not (n == 3)) ≡ crashed null_deref
unfolding run
repeated_key_crashes = refl

-- A second text for a key leaves the block of the first one allocated after the message is freed.
leaking_items : Items
leaking_items =
    (3, Token.map 3)
    ∷ (4, Token.text 4 "type")
    ∷ (9, Token.text 3 "end")
    ∷ (13, Token.text 16 "series_unique_id")
    ∷ (14, Token.text 2 "ab")
    ∷ (15, Token.text 16 "series_unique_id")
    ∷ (16, Token.text 2 "cd")
    ∷ []

abbrev leaking_msg : Msg ℕ
leaking_msg = Msg.end 0 (record { series_id = 0; series_unique_id = some (2, "cd") })

abbrev leaking_heap : Heap
leaking_heap = record { next = 3; live = 2 ∷ 1 ∷ 0 ∷ [] }

repeated_key_leaks :
    (run leaking_items granted ≡ parsed leaking_msg leaking_heap)
    × (stream2_free_msg leaking_msg leaking_heap ≡ freed (record { next = 3; live = 1 ∷ [] }))
unfolding run leaking_items
repeated_key_leaks = (refl, refl)

abbrev pub image_env : Env
image_env = env image_items buffer granted

abbrev pub image_forward : MovesForward image_env
image_forward = env-MovesForward image_items buffer granted

abbrev pub image_array : MultidimArray
image_array = record {
  dim = (2, 2);
  array = record {
    tag = 69;
    bytes = record {
      ptr = 41;
      len = 12;
      compression = record { algorithm = some (4, "bslz4"); elem_size = 2; orig_size = 8 };
    };
  };
}

abbrev pub image_contents : ImageMsg
image_contents = record {
  series_id = 0;
  series_unique_id = some (1, "ab");
  image_id = 5;
  real_time = (0, 0);
  series_date = none;
  start_time = (0, 0);
  stop_time = (0, 0);
  user_data = record { ptr = 0; len = 0 };
  channel_data = record {
    ptr = some 2;
    items = record { channel = some (3, "all"); array = image_array } ∷ [];
  };
}

abbrev pub image_msg : Msg ℕ
image_msg = Msg.image 0 image_contents

abbrev pub image_heap : Heap
image_heap = record { next = 5; live = 4 ∷ 3 ∷ 2 ∷ 1 ∷ 0 ∷ [] }

pub image_run : stream2_parse_msg image_env 60 0 60 empty_heap ≡ parsed image_msg image_heap
unfolding run
image_run = refl

stream2_parse_msg-Ended_example :
    Ended image_env image_forward empty_heap (stream2_parse_msg image_env 60 0 60 empty_heap)
stream2_parse_msg-Ended_example =
    stream2_parse_msg-Ended image_env image_forward 60 0 60 empty_heap (omega arith)

stream2_free_msg-stream2_parse_msg_example :
    GivenBack image_env image_forward empty_heap image_msg image_heap
      (stream2_free_msg image_msg image_heap)
unfolding run
stream2_free_msg-stream2_parse_msg_example =
    stream2_free_msg-stream2_parse_msg image_env image_forward 60 0 60 empty_heap image_heap
      image_msg (omega arith) refl

stream2_parse_msg-HandsOut_example :
    HandsOut image_env (stream2_parse_msg image_env 60 0 60 empty_heap)
stream2_parse_msg-HandsOut_example = stream2_parse_msg-HandsOut image_env 60 0 60 empty_heap

stream2_parse_msg-Checked_example :
    Checked image_env (stream2_parse_msg image_env 60 0 60 empty_heap)
stream2_parse_msg-Checked_example = stream2_parse_msg-Checked image_env 60 0 60 empty_heap

abbrev at_array : Cursor
at_array = record { items = array_items; left = 1 }

abbrev blank_array : MultidimArray
blank_array = record { dim = (0, 0); array = no_array }

abbrev after_array : Cursor
after_array = record { items = []; left = 0 }

parse_multidim_array_checked_example :
    DimensionsChecked image_env (parse_multidim_array image_env at_array empty_heap blank_array).2
unfolding run
parse_multidim_array_checked_example =
    parse_multidim_array_checked image_env at_array after_array empty_heap blank_array refl

-- The array has 2 times 2 elements of 2 bytes.
parse_multidim_array_size_example :
    let m' = (parse_multidim_array image_env at_array empty_heap blank_array).2 in
    m'.dim.0 * m'.dim.1 * tag_size m'.array.tag ≡ data_size m'.array
unfolding run
parse_multidim_array_size_example =
    parse_multidim_array_size image_env at_array after_array empty_heap blank_array refl
      (omega arith) (omega arith)

abbrev at_typed : Cursor
at_typed = record {
  items =
      (37, Token.tag 69)
      ∷ (38, Token.tag 56500)
      ∷ (39, Token.array 3)
      ∷ (39, Token.text 5 "bslz4")
      ∷ (39, Token.uint 2)
      ∷ (40, Token.bytes 12)
      ∷ [];
  left = 1;
}

parse_typed_array_checked_example :
    TypedLength 4 (parse_typed_array image_env at_typed empty_heap no_array).2
unfolding run
parse_typed_array_checked_example =
    parse_typed_array_checked image_env at_typed after_array 4 empty_heap no_array refl

abbrev at_bytes : Cursor
at_bytes = record {
  items =
      (38, Token.tag 56500)
      ∷ (39, Token.array 3)
      ∷ (39, Token.text 5 "bslz4")
      ∷ (39, Token.uint 2)
      ∷ (40, Token.bytes 12)
      ∷ [];
  left = 1;
}

parse_bytes_checked_example :
    CompressionChecked image_env (parse_bytes image_env at_bytes empty_heap no_bytes).2
unfolding run
parse_bytes_checked_example =
    parse_bytes_checked image_env at_bytes after_array empty_heap no_bytes refl

-- The tag 69: little-endian integers of 16 bits.
typed_array_elem_size-tag_example :
    typed_array_elem_size {S = ℕ} (record { tag = 69; bytes = no_bytes }) empty_heap 0
    ≡ (ok 2, empty_heap, 0)
typed_array_elem_size-tag_example =
    typed_array_elem_size-tag empty_heap 0 no_bytes 0 0 1 1 (omega arith) (omega arith)
      (omega arith) (omega arith) (omega arith)

abbrev AllBytes : List ℕ → Type 0
AllBytes [] = Unit
AllBytes (x ∷ l) = (x < 256) × AllBytes l

get_or-lt : (l : List ℕ) (i : ℕ) → AllBytes l → get_or l i 0 < 256
get_or-lt [] i h = omega arith
get_or-lt (x ∷ l) zero h = h.0
get_or-lt (x ∷ l) (suc i) h = get_or-lt l i h.1

-- The bytes at 41 are 0, 0, 0, 0, 0, 0, 0 and 8.
read_u64_be_bytes_example :
    let n : ℕ = read_u64_be image_env 41 in
    (n / 2 ^ 56 ≡ 0)
    × ((n / 2 ^ 48) % 256 ≡ 0)
    × ((n / 2 ^ 40) % 256 ≡ 0)
    × ((n / 2 ^ 32) % 256 ≡ 0)
    × ((n / 2 ^ 24) % 256 ≡ 0)
    × ((n / 2 ^ 16) % 256 ≡ 0)
    × ((n / 2 ^ 8) % 256 ≡ 0)
    × (n % 256 ≡ 8)
read_u64_be_bytes_example = read_u64_be_bytes image_env (λ i. get_or-lt buffer i (omega arith)) 41

skip_header_argument_example : skip_header image_env 40 ≡ 41
skip_header_argument_example = skip_header_argument image_env 40 12 refl (omega arith)
