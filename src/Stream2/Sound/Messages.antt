-- ===== src/Stream2/Sound/Messages.antt =====
-- The loops over the keys of a start message, an image message and an end message keep what the
-- message owns, and end (eigerApp/src/stream2.c).
use adeiger.Base.{ℕ, ◌≤◌, ◌<◌, String, arith}
use adeiger.Cbor.{Env, MovesForward}
use adeiger.Stream2.Types.{StartMsg}
use adeiger.Stream2.Start.{
  StartKey, start_key, skip_start_tag, parse_lookup_table, parse_start_value, parse_start_field,
}
use adeiger.Stream2.Image.{ImageKey, image_key, parse_image_value, parse_image_field}
use adeiger.Stream2.EndMsg.{EndKey, end_key, parse_end_value, parse_end_field}
use adeiger.Stream2.Sound.{Owner, Sound, pure-Sound, weaken-Sound, bind-Sound, at-Sound}
use adeiger.Stream2.Sound.Scalars.{
  Past, advance-Sound, skip_tag-Sound, parse_bool-Sound, parse_uint64-Sound, parse_double-Sound,
  parse_text_string-Sound,
}
use adeiger.Stream2.Sound.Arrays.{typed_blocks, parse_typed_array-Sound, parse_array_2_uint64-Sound}
use adeiger.Stream2.Sound.StartParts.{
  start_blocks, start_series_id-IsPart, start_series_unique_id-IsPart, start_arm_date-IsPart,
  start_beam_center_x-IsPart, start_beam_center_y-IsPart, start_channels-IsPart,
  start_count_time-IsPart, start_countrate_correction_enabled-IsPart,
  start_countrate_correction_lookup_table-IsPart, start_detector_description-IsPart,
  start_detector_serial_number-IsPart, start_detector_translation-IsPart, start_flatfield-IsPart,
  start_flatfield_enabled-IsPart, start_frame_time-IsPart, start_goniometer-IsPart,
  start_image_dtype-IsPart, start_image_size_x-IsPart, start_image_size_y-IsPart,
  start_incident_energy-IsPart, start_incident_wavelength-IsPart, start_number_of_images-IsPart,
  start_pixel_mask-IsPart, start_pixel_mask_enabled-IsPart, start_pixel_size_x-IsPart,
  start_pixel_size_y-IsPart, start_saturation_value-IsPart, start_sensor_material-IsPart,
  start_sensor_thickness-IsPart, start_threshold_energy-IsPart, start_user_data-IsPart,
  start_virtual_pixel_interpolation_enabled-IsPart,
}
use adeiger.Stream2.Sound.Values.{
  parse_goniometer-Sound, parse_user_data-Sound, parse_detector_translation-Sound,
  parse_channels-Sound, parse_flatfield-Sound, parse_pixel_mask-Sound, parse_image_data-Sound,
  parse_threshold_energy-Sound,
}
use adeiger.Stream2.Sound.MessageParts.{
  image_blocks, end_blocks, image_series_id-IsPart, image_series_unique_id-IsPart,
  image_image_id-IsPart, image_real_time-IsPart, image_series_date-IsPart, image_start_time-IsPart,
  image_stop_time-IsPart, image_user_data-IsPart, image_channel_data-IsPart, end_series_id-IsPart,
  end_series_unique_id-IsPart,
}

module _ (e : Env) (forward : MovesForward e) where
  open e use {Value, Double}
  open forward use {remaining}

  skip_start_tag-Sound :
      {o : Owner (StartMsg Double)} (key : StartKey) (it : Value)
      → Sound o (λ v. remaining v ≤ remaining it) (skip_start_tag e key it)
  unfolding skip_start_tag
  skip_start_tag-Sound StartKey.countrate_correction_lookup_table it = pure-Sound _ (omega arith)
  skip_start_tag-Sound _ it = skip_tag-Sound e forward it

  parse_lookup_table-Sound :
      (it : Value) → Sound typed_blocks (Past e forward (remaining it)) (parse_lookup_table e it)
  unfolding parse_lookup_table
  parse_lookup_table-Sound it =
      bind-Sound (parse_typed_array-Sound e forward it) (λ r lt. pure-Sound _ lt)

  parse_start_value-Sound :
      (fuel : ℕ) (key : StartKey) (it : Value)
      → remaining it < fuel
      → Sound start_blocks (Past e forward (remaining it)) (parse_start_value e fuel key it)
  unfolding parse_start_value
  parse_start_value-Sound fuel StartKey.series_id it h =
      at-Sound start_series_id-IsPart (parse_uint64-Sound e forward it)
  parse_start_value-Sound fuel StartKey.series_unique_id it h =
      at-Sound start_series_unique_id-IsPart (parse_text_string-Sound e forward it)
  parse_start_value-Sound fuel StartKey.arm_date it h =
      at-Sound start_arm_date-IsPart (parse_text_string-Sound e forward it)
  parse_start_value-Sound fuel StartKey.beam_center_x it h =
      at-Sound start_beam_center_x-IsPart (parse_double-Sound e forward it)
  parse_start_value-Sound fuel StartKey.beam_center_y it h =
      at-Sound start_beam_center_y-IsPart (parse_double-Sound e forward it)
  parse_start_value-Sound fuel StartKey.channels it h =
      at-Sound start_channels-IsPart (parse_channels-Sound e forward it)
  parse_start_value-Sound fuel StartKey.count_time it h =
      at-Sound start_count_time-IsPart (parse_double-Sound e forward it)
  parse_start_value-Sound fuel StartKey.countrate_correction_enabled it h =
      at-Sound start_countrate_correction_enabled-IsPart (parse_bool-Sound e forward it)
  parse_start_value-Sound fuel StartKey.countrate_correction_lookup_table it h =
      at-Sound start_countrate_correction_lookup_table-IsPart (parse_lookup_table-Sound it)
  parse_start_value-Sound fuel StartKey.detector_description it h =
      at-Sound start_detector_description-IsPart (parse_text_string-Sound e forward it)
  parse_start_value-Sound fuel StartKey.detector_serial_number it h =
      at-Sound start_detector_serial_number-IsPart (parse_text_string-Sound e forward it)
  parse_start_value-Sound fuel StartKey.detector_translation it h =
      at-Sound start_detector_translation-IsPart (parse_detector_translation-Sound e forward it)
  parse_start_value-Sound fuel StartKey.flatfield it h =
      at-Sound start_flatfield-IsPart (parse_flatfield-Sound e forward it)
  parse_start_value-Sound fuel StartKey.flatfield_enabled it h =
      at-Sound start_flatfield_enabled-IsPart (parse_bool-Sound e forward it)
  parse_start_value-Sound fuel StartKey.frame_time it h =
      at-Sound start_frame_time-IsPart (parse_double-Sound e forward it)
  parse_start_value-Sound fuel StartKey.goniometer it h =
      at-Sound start_goniometer-IsPart (parse_goniometer-Sound e forward fuel it h)
  parse_start_value-Sound fuel StartKey.image_dtype it h =
      at-Sound start_image_dtype-IsPart (parse_text_string-Sound e forward it)
  parse_start_value-Sound fuel StartKey.image_size_x it h =
      at-Sound start_image_size_x-IsPart (parse_uint64-Sound e forward it)
  parse_start_value-Sound fuel StartKey.image_size_y it h =
      at-Sound start_image_size_y-IsPart (parse_uint64-Sound e forward it)
  parse_start_value-Sound fuel StartKey.incident_energy it h =
      at-Sound start_incident_energy-IsPart (parse_double-Sound e forward it)
  parse_start_value-Sound fuel StartKey.incident_wavelength it h =
      at-Sound start_incident_wavelength-IsPart (parse_double-Sound e forward it)
  parse_start_value-Sound fuel StartKey.number_of_images it h =
      at-Sound start_number_of_images-IsPart (parse_uint64-Sound e forward it)
  parse_start_value-Sound fuel StartKey.pixel_mask it h =
      at-Sound start_pixel_mask-IsPart (parse_pixel_mask-Sound e forward it)
  parse_start_value-Sound fuel StartKey.pixel_mask_enabled it h =
      at-Sound start_pixel_mask_enabled-IsPart (parse_bool-Sound e forward it)
  parse_start_value-Sound fuel StartKey.pixel_size_x it h =
      at-Sound start_pixel_size_x-IsPart (parse_double-Sound e forward it)
  parse_start_value-Sound fuel StartKey.pixel_size_y it h =
      at-Sound start_pixel_size_y-IsPart (parse_double-Sound e forward it)
  parse_start_value-Sound fuel StartKey.saturation_value it h =
      at-Sound start_saturation_value-IsPart (parse_uint64-Sound e forward it)
  parse_start_value-Sound fuel StartKey.sensor_material it h =
      at-Sound start_sensor_material-IsPart (parse_text_string-Sound e forward it)
  parse_start_value-Sound fuel StartKey.sensor_thickness it h =
      at-Sound start_sensor_thickness-IsPart (parse_double-Sound e forward it)
  parse_start_value-Sound fuel StartKey.threshold_energy it h =
      at-Sound start_threshold_energy-IsPart (parse_threshold_energy-Sound e forward it)
  parse_start_value-Sound fuel StartKey.user_data it h =
      at-Sound start_user_data-IsPart (parse_user_data-Sound e forward it)
  parse_start_value-Sound fuel StartKey.virtual_pixel_interpolation_enabled it h =
      at-Sound start_virtual_pixel_interpolation_enabled-IsPart (parse_bool-Sound e forward it)
  parse_start_value-Sound fuel StartKey.unknown it h = advance-Sound e forward it

  pub parse_start_field-Sound :
      (fuel : ℕ) (key : String) (it : Value)
      → remaining it < fuel
      → Sound start_blocks (Past e forward (remaining it)) (parse_start_field e fuel key it)
  unfolding parse_start_field
  parse_start_field-Sound fuel key it h =
      bind-Sound (skip_start_tag-Sound (start_key key) it) (λ v le.
        weaken-Sound (parse_start_value-Sound fuel (start_key key) v (omega arith))
          (λ w q. omega arith))

  parse_image_value-Sound :
      (key : ImageKey) (it : Value)
      → Sound image_blocks (Past e forward (remaining it)) (parse_image_value e key it)
  unfolding parse_image_value
  parse_image_value-Sound ImageKey.series_id it =
      at-Sound image_series_id-IsPart (parse_uint64-Sound e forward it)
  parse_image_value-Sound ImageKey.series_unique_id it =
      at-Sound image_series_unique_id-IsPart (parse_text_string-Sound e forward it)
  parse_image_value-Sound ImageKey.image_id it =
      at-Sound image_image_id-IsPart (parse_uint64-Sound e forward it)
  parse_image_value-Sound ImageKey.real_time it =
      at-Sound image_real_time-IsPart (parse_array_2_uint64-Sound e forward it)
  parse_image_value-Sound ImageKey.series_date it =
      at-Sound image_series_date-IsPart (parse_text_string-Sound e forward it)
  parse_image_value-Sound ImageKey.start_time it =
      at-Sound image_start_time-IsPart (parse_array_2_uint64-Sound e forward it)
  parse_image_value-Sound ImageKey.stop_time it =
      at-Sound image_stop_time-IsPart (parse_array_2_uint64-Sound e forward it)
  parse_image_value-Sound ImageKey.user_data it =
      at-Sound image_user_data-IsPart (parse_user_data-Sound e forward it)
  parse_image_value-Sound ImageKey.channel_data it =
      at-Sound image_channel_data-IsPart (parse_image_data-Sound e forward it)
  parse_image_value-Sound ImageKey.unknown it = advance-Sound e forward it

  pub parse_image_field-Sound :
      (key : String) (it : Value)
      → Sound image_blocks (Past e forward (remaining it)) (parse_image_field e key it)
  unfolding parse_image_field
  parse_image_field-Sound key it =
      bind-Sound (skip_tag-Sound e forward it)
        (λ v le. weaken-Sound (parse_image_value-Sound (image_key key) v) (λ w q. omega arith))

  parse_end_value-Sound :
      (key : EndKey) (it : Value)
      → Sound end_blocks (Past e forward (remaining it)) (parse_end_value e key it)
  unfolding parse_end_value
  parse_end_value-Sound EndKey.series_id it =
      at-Sound end_series_id-IsPart (parse_uint64-Sound e forward it)
  parse_end_value-Sound EndKey.series_unique_id it =
      at-Sound end_series_unique_id-IsPart (parse_text_string-Sound e forward it)
  parse_end_value-Sound EndKey.unknown it = advance-Sound e forward it

  pub parse_end_field-Sound :
      (key : String) (it : Value)
      → Sound end_blocks (Past e forward (remaining it)) (parse_end_field e key it)
  unfolding parse_end_field
  parse_end_field-Sound key it =
      bind-Sound (skip_tag-Sound e forward it)
        (λ v le. weaken-Sound (parse_end_value-Sound (end_key key) v) (λ w q. omega arith))
