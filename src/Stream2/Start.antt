-- ===== src/Stream2/Start.antt =====
-- `parse_start_msg` of eigerApp/src/stream2.c: the keys of a start message, the member that each
-- fills, and the loop over them.
pub mod Fields
use adeiger.Base.{
  ℕ, ◌^◌, ◌-◌, Bool, false, String, List, [], ◌∷◌, none, some, str_eq, if◌then◌else◌,
}
use adeiger.Cbor.{Env}
use adeiger.Stream2.Memory.{Ptr, CharPtr, Heap, malloc}
use adeiger.Stream2.Types.{
  StartMsg, Goniometer, GoniometerAxis, TypedArray, HeapArray, ChannelArray, ThresholdEnergy,
  UserData, Msg, out_of_memory, no_array, no_items, no_user_data,
}
use adeiger.Stream2.Monad.{M, Outcome, pure, reply, ◌>>=◌, Field, at, local}
use adeiger.Stream2.Scalars.{
  parse_bool, parse_double, parse_uint64, parse_text_string, each_field, calloc_msg,
}
use adeiger.Stream2.Arrays.{parse_typed_array}
use adeiger.Stream2.Values.{
  parse_goniometer, parse_user_data, parse_channels, parse_detector_translation, parse_flatfield,
  parse_pixel_mask, parse_threshold_energy,
}
pub use Fields.*

-- The keys that the loop compares with; `unknown` is any other one.
pub data StartKey : Type 0 where
  series_id series_unique_id arm_date : StartKey
  beam_center_x beam_center_y channels : StartKey
  count_time countrate_correction_enabled countrate_correction_lookup_table : StartKey
  detector_description detector_serial_number detector_translation : StartKey
  flatfield flatfield_enabled frame_time : StartKey
  goniometer image_dtype image_size_x : StartKey
  image_size_y incident_energy incident_wavelength : StartKey
  number_of_images pixel_mask pixel_mask_enabled : StartKey
  pixel_size_x pixel_size_y saturation_value : StartKey
  sensor_material sensor_thickness threshold_energy : StartKey
  user_data virtual_pixel_interpolation_enabled : StartKey
  unknown : StartKey

-- The ladder of `strcmp`.
unfoldable pub start_key : String → StartKey
start_key key =
    if str_eq key "series_id"
    then series_id
    else if str_eq key "series_unique_id"
    then series_unique_id
    else if str_eq key "arm_date"
    then arm_date
    else if str_eq key "beam_center_x"
    then beam_center_x
    else if str_eq key "beam_center_y"
    then beam_center_y
    else if str_eq key "channels"
    then channels
    else if str_eq key "count_time"
    then count_time
    else if str_eq key "countrate_correction_enabled"
    then countrate_correction_enabled
    else if str_eq key "countrate_correction_lookup_table"
    then countrate_correction_lookup_table
    else if str_eq key "detector_description"
    then detector_description
    else if str_eq key "detector_serial_number"
    then detector_serial_number
    else if str_eq key "detector_translation"
    then detector_translation
    else if str_eq key "flatfield"
    then flatfield
    else if str_eq key "flatfield_enabled"
    then flatfield_enabled
    else if str_eq key "frame_time"
    then frame_time
    else if str_eq key "goniometer"
    then goniometer
    else if str_eq key "image_dtype"
    then image_dtype
    else if str_eq key "image_size_x"
    then image_size_x
    else if str_eq key "image_size_y"
    then image_size_y
    else if str_eq key "incident_energy"
    then incident_energy
    else if str_eq key "incident_wavelength"
    then incident_wavelength
    else if str_eq key "number_of_images"
    then number_of_images
    else if str_eq key "pixel_mask"
    then pixel_mask
    else if str_eq key "pixel_mask_enabled"
    then pixel_mask_enabled
    else if str_eq key "pixel_size_x"
    then pixel_size_x
    else if str_eq key "pixel_size_y"
    then pixel_size_y
    else if str_eq key "saturation_value"
    then saturation_value
    else if str_eq key "sensor_material"
    then sensor_material
    else if str_eq key "sensor_thickness"
    then sensor_thickness
    else if str_eq key "threshold_energy"
    then threshold_energy
    else if str_eq key "user_data"
    then user_data
    else if str_eq key "virtual_pixel_interpolation_enabled"
    then virtual_pixel_interpolation_enabled
    else unknown

module _ (e : Env) where
  open e use {Value, Double}

  -- `cbor_value_skip_tag`, except in front of the lookup table, whose tag is verified.
  unfoldable pub skip_start_tag : StartKey → Value → M (StartMsg Double) Value
  skip_start_tag countrate_correction_lookup_table it = pure it
  skip_start_tag _ it = reply (e.skip_tag it)

  unfoldable pub parse_lookup_table : Value → M TypedArray Value
  parse_lookup_table it = do (it, _) ← parse_typed_array e it; pure it

  unfoldable pub parse_start_value : ℕ → StartKey → Value → M (StartMsg Double) Value
  parse_start_value fuel series_id it = at in_series_id (parse_uint64 e it)
  parse_start_value fuel series_unique_id it = at in_series_unique_id (parse_text_string e it)
  parse_start_value fuel arm_date it = at in_arm_date (parse_text_string e it)
  parse_start_value fuel beam_center_x it = at in_beam_center_x (parse_double e it)
  parse_start_value fuel beam_center_y it = at in_beam_center_y (parse_double e it)
  parse_start_value fuel channels it = at in_channels (parse_channels e it)
  parse_start_value fuel count_time it = at in_count_time (parse_double e it)
  parse_start_value fuel countrate_correction_enabled it =
      at in_countrate_correction_enabled (parse_bool e it)
  parse_start_value fuel countrate_correction_lookup_table it =
      at in_countrate_correction_lookup_table (parse_lookup_table it)
  parse_start_value fuel detector_description it =
      at in_detector_description (parse_text_string e it)
  parse_start_value fuel detector_serial_number it =
      at in_detector_serial_number (parse_text_string e it)
  parse_start_value fuel detector_translation it =
      at in_detector_translation (parse_detector_translation e it)
  parse_start_value fuel flatfield it = at in_flatfield (parse_flatfield e it)
  parse_start_value fuel flatfield_enabled it = at in_flatfield_enabled (parse_bool e it)
  parse_start_value fuel frame_time it = at in_frame_time (parse_double e it)
  parse_start_value fuel goniometer it = at in_goniometer (parse_goniometer e fuel it)
  parse_start_value fuel image_dtype it = at in_image_dtype (parse_text_string e it)
  parse_start_value fuel image_size_x it = at in_image_size_x (parse_uint64 e it)
  parse_start_value fuel image_size_y it = at in_image_size_y (parse_uint64 e it)
  parse_start_value fuel incident_energy it = at in_incident_energy (parse_double e it)
  parse_start_value fuel incident_wavelength it = at in_incident_wavelength (parse_double e it)
  parse_start_value fuel number_of_images it = at in_number_of_images (parse_uint64 e it)
  parse_start_value fuel pixel_mask it = at in_pixel_mask (parse_pixel_mask e it)
  parse_start_value fuel pixel_mask_enabled it = at in_pixel_mask_enabled (parse_bool e it)
  parse_start_value fuel pixel_size_x it = at in_pixel_size_x (parse_double e it)
  parse_start_value fuel pixel_size_y it = at in_pixel_size_y (parse_double e it)
  parse_start_value fuel saturation_value it = at in_saturation_value (parse_uint64 e it)
  parse_start_value fuel sensor_material it = at in_sensor_material (parse_text_string e it)
  parse_start_value fuel sensor_thickness it = at in_sensor_thickness (parse_double e it)
  parse_start_value fuel threshold_energy it = at in_threshold_energy (parse_threshold_energy e it)
  parse_start_value fuel user_data it = at in_user_data (parse_user_data e it)
  parse_start_value fuel virtual_pixel_interpolation_enabled it =
      at in_virtual_pixel_interpolation_enabled (parse_bool e it)
  parse_start_value fuel unknown it = reply (e.advance it)

  unfoldable pub parse_start_field : ℕ → String → Value → M (StartMsg Double) Value
  parse_start_field fuel key it = do
    it ← skip_start_tag (start_key key) it
    parse_start_value fuel (start_key key) it

  abbrev blank_axis : GoniometerAxis Double
  blank_axis = record { increment = e.zero_double; start = e.zero_double }

  -- The structure after `calloc` and the two assignments behind it.
  abbrev pub new_start_msg : StartMsg Double
  new_start_msg = record {
    series_id = 0;
    series_unique_id = none;
    arm_date = none;
    beam_center_x = e.zero_double;
    beam_center_y = e.zero_double;
    channels = no_items;
    count_time = e.zero_double;
    countrate_correction_enabled = false;
    countrate_correction_lookup_table = record no_array { tag = 2 ^ 64 - 1 };
    detector_description = none;
    detector_serial_number = none;
    detector_translation = e.zero_double ∷ e.zero_double ∷ e.zero_double ∷ [];
    flatfield = no_items;
    flatfield_enabled = false;
    frame_time = e.zero_double;
    goniometer = record {
      chi = blank_axis;
      kappa = blank_axis;
      omega_axis = blank_axis;
      phi = blank_axis;
      two_theta = blank_axis;
    };
    image_dtype = none;
    image_size_x = 0;
    image_size_y = 0;
    incident_energy = e.zero_double;
    incident_wavelength = e.zero_double;
    number_of_images = 0;
    pixel_mask = no_items;
    pixel_mask_enabled = false;
    pixel_size_x = e.zero_double;
    pixel_size_y = e.zero_double;
    saturation_value = 0;
    sensor_material = none;
    sensor_thickness = e.zero_double;
    threshold_energy = no_items;
    user_data = no_user_data;
    virtual_pixel_interpolation_enabled = false;
  }

  unfoldable pub parse_start_msg : ℕ → Value → M (Msg Double) Value
  parse_start_msg fuel it =
      calloc_msg e Msg.start new_start_msg (each_field e (parse_start_field fuel) fuel it)
