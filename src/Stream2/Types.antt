-- ===== src/Stream2/Types.antt =====
-- The structures of eigerApp/src/stream2.h. `D` is the type `double`. A pointer is the serial
-- number of its block, and text is kept with the pointer to it.
use adeiger.Base.{ℕ, Bool, none, List, []}
use adeiger.Stream2.Memory.{Ptr, CharPtr}

-- `enum stream2_result` without `STREAM2_OK`, which is `ok` of `Outcome`.
pub data Stream2Error : Type 0 where
  out_of_memory signature decode parse not_implemented : Stream2Error

pub record Compression : Type 0 where
  pub algorithm : CharPtr
  pub elem_size : ℕ
  pub orig_size : ℕ

-- `ptr` is an offset in the message buffer.
pub record Bytes : Type 0 where
  pub ptr : ℕ
  pub len : ℕ
  pub compression : Compression

pub record TypedArray : Type 0 where
  pub tag : ℕ
  pub bytes : Bytes

pub record MultidimArray : Type 0 where
  pub dim : ℕ × ℕ
  pub array : TypedArray

-- An array on the heap with its length, as `channels`, `flatfield`, `pixel_mask`,
-- `threshold_energy` and `data` are. The length is that of `items`; while `ptr` is `NULL` none of
-- them can be reached.
pub record HeapArray (A : Type 0) : Type 0 where
  pub ptr : Ptr
  pub items : List A

-- `struct stream2_flatfield`, `stream2_pixel_mask` and `stream2_image_data`: one layout.
pub record ChannelArray : Type 0 where
  pub channel : CharPtr
  pub array : MultidimArray

pub record ThresholdEnergy (D : Type 0) : Type 0 where
  pub channel : CharPtr
  pub energy : D

pub record GoniometerAxis (D : Type 0) : Type 0 where
  pub increment : D
  pub start : D

pub record Goniometer (D : Type 0) : Type 0 where
  pub chi : GoniometerAxis D
  pub kappa : GoniometerAxis D
  pub omega_axis : GoniometerAxis D
  pub phi : GoniometerAxis D
  pub two_theta : GoniometerAxis D

pub record UserData : Type 0 where
  pub ptr : ℕ
  pub len : ℕ

pub record StartMsg (D : Type 0) : Type 0 where
  pub series_id : ℕ
  pub series_unique_id : CharPtr
  pub arm_date : CharPtr
  pub beam_center_x : D
  pub beam_center_y : D
  pub channels : HeapArray CharPtr
  pub count_time : D
  pub countrate_correction_enabled : Bool
  pub countrate_correction_lookup_table : TypedArray
  pub detector_description : CharPtr
  pub detector_serial_number : CharPtr
  pub detector_translation : List D
  pub flatfield : HeapArray ChannelArray
  pub flatfield_enabled : Bool
  pub frame_time : D
  pub goniometer : Goniometer D
  pub image_dtype : CharPtr
  pub image_size_x : ℕ
  pub image_size_y : ℕ
  pub incident_energy : D
  pub incident_wavelength : D
  pub number_of_images : ℕ
  pub pixel_mask : HeapArray ChannelArray
  pub pixel_mask_enabled : Bool
  pub pixel_size_x : D
  pub pixel_size_y : D
  pub saturation_value : ℕ
  pub sensor_material : CharPtr
  pub sensor_thickness : D
  pub threshold_energy : HeapArray (ThresholdEnergy D)
  pub user_data : UserData
  pub virtual_pixel_interpolation_enabled : Bool

pub record ImageMsg : Type 0 where
  pub series_id : ℕ
  pub series_unique_id : CharPtr
  pub image_id : ℕ
  pub real_time : ℕ × ℕ
  pub series_date : CharPtr
  pub start_time : ℕ × ℕ
  pub stop_time : ℕ × ℕ
  pub user_data : UserData
  pub channel_data : HeapArray ChannelArray

pub record EndMsg : Type 0 where
  pub series_id : ℕ
  pub series_unique_id : CharPtr

-- `struct stream2_msg *`: `NULL`, or the block of a message with its type tag and contents.
pub data Msg (D : Type 0) : Type 0 where
  null : Msg D
  start : ℕ → StartMsg D → Msg D
  image : ℕ → ImageMsg → Msg D
  end : ℕ → EndMsg → Msg D

-- What `calloc` leaves in a new structure: zeros.
abbrev pub no_compression : Compression
no_compression = record { algorithm = none; elem_size = 0; orig_size = 0 }

abbrev pub no_bytes : Bytes
no_bytes = record { ptr = 0; len = 0; compression = no_compression }

abbrev pub no_array : TypedArray
no_array = record { tag = 0; bytes = no_bytes }

abbrev pub no_channel : ChannelArray
no_channel = record { channel = none; array = record { dim = (0, 0); array = no_array } }

abbrev pub no_items : {A : Type 0} → HeapArray A
no_items = record { ptr = none; items = [] }

abbrev pub no_user_data : UserData
no_user_data = record { ptr = 0; len = 0 }
