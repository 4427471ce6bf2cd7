-- ===== src/Stream2/Sound/StartParts.antt =====
-- The blocks of a start message, member by member (eigerApp/src/stream2.h).
use adeiger.Base.{◌+◌, arith}
use adeiger.Stream2.Types.{StartMsg}
use adeiger.Stream2.Start.Fields
use adeiger.Stream2.Sound.{Owner, no_blocks, IsPart}
use adeiger.Stream2.Sound.Scalars.{text_blocks}
use adeiger.Stream2.Sound.Arrays.{typed_blocks}
use adeiger.Stream2.Sound.ValueParts.{ArrayFits, array_blocks, channel_blocks, threshold_blocks}

-- What a start message owns; its four arrays on the heap decide whether it can be freed.
abbrev pub start_blocks : {D : Type 0} → Owner (StartMsg D)
start_blocks = record {
  blocks = λ m p.
      text_blocks.blocks m.series_unique_id p
      + text_blocks.blocks m.arm_date p
      + (array_blocks text_blocks).blocks m.channels p
      + typed_blocks.blocks m.countrate_correction_lookup_table p
      + text_blocks.blocks m.detector_description p
      + text_blocks.blocks m.detector_serial_number p
      + (array_blocks channel_blocks).blocks m.flatfield p
      + text_blocks.blocks m.image_dtype p
      + (array_blocks channel_blocks).blocks m.pixel_mask p
      + text_blocks.blocks m.sensor_material p
      + (array_blocks threshold_blocks).blocks m.threshold_energy p;
  Fit = λ m.
      ArrayFits m.channels.ptr m.channels.items
      × ArrayFits m.flatfield.ptr m.flatfield.items
      × ArrayFits m.pixel_mask.ptr m.pixel_mask.items
      × ArrayFits m.threshold_energy.ptr m.threshold_energy.items;
}

module _ {D : Type 0} where
  pub start_series_id-IsPart : IsPart (start_blocks {D = D}) no_blocks Fields.in_series_id
  start_series_id-IsPart = record {
    within = λ t p. omega arith;
    swap = λ t s p. omega arith;
    fit_view = λ t x. tt;
    fit_update = λ t s x y. x;
  }

  pub start_series_unique_id-IsPart :
      IsPart (start_blocks {D = D}) text_blocks Fields.in_series_unique_id
  start_series_unique_id-IsPart = record {
    within = λ t p. omega arith;
    swap = λ t s p. omega arith;
    fit_view = λ t x. tt;
    fit_update = λ t s x y. x;
  }

  pub start_arm_date-IsPart : IsPart (start_blocks {D = D}) text_blocks Fields.in_arm_date
  start_arm_date-IsPart = record {
    within = λ t p. omega arith;
    swap = λ t s p. omega arith;
    fit_view = λ t x. tt;
    fit_update = λ t s x y. x;
  }

  pub start_beam_center_x-IsPart : IsPart (start_blocks {D = D}) no_blocks Fields.in_beam_center_x
  start_beam_center_x-IsPart = record {
    within = λ t p. omega arith;
    swap = λ t s p. omega arith;
    fit_view = λ t x. tt;
    fit_update = λ t s x y. x;
  }

  pub start_beam_center_y-IsPart : IsPart (start_blocks {D = D}) no_blocks Fields.in_beam_center_y
  start_beam_center_y-IsPart = record {
    within = λ t p. omega arith;
    swap = λ t s p. omega arith;
    fit_view = λ t x. tt;
    fit_update = λ t s x y. x;
  }

  pub start_channels-IsPart :
      IsPart (start_blocks {D = D}) (array_blocks text_blocks) Fields.in_channels
  start_channels-IsPart = record {
    within = λ t p. omega arith;
    swap = λ t s p. omega arith;
    fit_view = λ t x. x.0;
    fit_update = λ t s x y. (y, x.1, x.2, x.3);
  }

  pub start_count_time-IsPart : IsPart (start_blocks {D = D}) no_blocks Fields.in_count_time
  start_count_time-IsPart = record {
    within = λ t p. omega arith;
    swap = λ t s p. omega arith;
    fit_view = λ t x. tt;
    fit_update = λ t s x y. x;
  }

  pub start_countrate_correction_enabled-IsPart :
      IsPart (start_blocks {D = D}) no_blocks Fields.in_countrate_correction_enabled
  start_countrate_correction_enabled-IsPart = record {
    within = λ t p. omega arith;
    swap = λ t s p. omega arith;
    fit_view = λ t x. tt;
    fit_update = λ t s x y. x;
  }

  pub start_countrate_correction_lookup_table-IsPart :
      IsPart (start_blocks {D = D}) typed_blocks Fields.in_countrate_correction_lookup_table
  start_countrate_correction_lookup_table-IsPart = record {
    within = λ t p. omega arith;
    swap = λ t s p. omega arith;
    fit_view = λ t x. tt;
    fit_update = λ t s x y. x;
  }

  pub start_detector_description-IsPart :
      IsPart (start_blocks {D = D}) text_blocks Fields.in_detector_description
  start_detector_description-IsPart = record {
    within = λ t p. omega arith;
    swap = λ t s p. omega arith;
    fit_view = λ t x. tt;
    fit_update = λ t s x y. x;
  }

  pub start_detector_serial_number-IsPart :
      IsPart (start_blocks {D = D}) text_blocks Fields.in_detector_serial_number
  start_detector_serial_number-IsPart = record {
    within = λ t p. omega arith;
    swap = λ t s p. omega arith;
    fit_view = λ t x. tt;
    fit_update = λ t s x y. x;
  }

  pub start_detector_translation-IsPart :
      IsPart (start_blocks {D = D}) no_blocks Fields.in_detector_translation
  start_detector_translation-IsPart = record {
    within = λ t p. omega arith;
    swap = λ t s p. omega arith;
    fit_view = λ t x. tt;
    fit_update = λ t s x y. x;
  }

  pub start_flatfield-IsPart :
      IsPart (start_blocks {D = D}) (array_blocks channel_blocks) Fields.in_flatfield
  start_flatfield-IsPart = record {
    within = λ t p. omega arith;
    swap = λ t s p. omega arith;
    fit_view = λ t x. x.1;
    fit_update = λ t s x y. (x.0, y, x.2, x.3);
  }

  pub start_flatfield_enabled-IsPart :
      IsPart (start_blocks {D = D}) no_blocks Fields.in_flatfield_enabled
  start_flatfield_enabled-IsPart = record {
    within = λ t p. omega arith;
    swap = λ t s p. omega arith;
    fit_view = λ t x. tt;
    fit_update = λ t s x y. x;
  }

  pub start_frame_time-IsPart : IsPart (start_blocks {D = D}) no_blocks Fields.in_frame_time
  start_frame_time-IsPart = record {
    within = λ t p. omega arith;
    swap = λ t s p. omega arith;
    fit_view = λ t x. tt;
    fit_update = λ t s x y. x;
  }

  pub start_goniometer-IsPart : IsPart (start_blocks {D = D}) no_blocks Fields.in_goniometer
  start_goniometer-IsPart = record {
    within = λ t p. omega arith;
    swap = λ t s p. omega arith;
    fit_view = λ t x. tt;
    fit_update = λ t s x y. x;
  }

  pub start_image_dtype-IsPart : IsPart (start_blocks {D = D}) text_blocks Fields.in_image_dtype
  start_image_dtype-IsPart = record {
    within = λ t p. omega arith;
    swap = λ t s p. omega arith;
    fit_view = λ t x. tt;
    fit_update = λ t s x y. x;
  }

  pub start_image_size_x-IsPart : IsPart (start_blocks {D = D}) no_blocks Fields.in_image_size_x
  start_image_size_x-IsPart = record {
    within = λ t p. omega arith;
    swap = λ t s p. omega arith;
    fit_view = λ t x. tt;
    fit_update = λ t s x y. x;
  }

  pub start_image_size_y-IsPart : IsPart (start_blocks {D = D}) no_blocks Fields.in_image_size_y
  start_image_size_y-IsPart = record {
    within = λ t p. omega arith;
    swap = λ t s p. omega arith;
    fit_view = λ t x. tt;
    fit_update = λ t s x y. x;
  }

  pub start_incident_energy-IsPart :
      IsPart (start_blocks {D = D}) no_blocks Fields.in_incident_energy
  start_incident_energy-IsPart = record {
    within = λ t p. omega arith;
    swap = λ t s p. omega arith;
    fit_view = λ t x. tt;
    fit_update = λ t s x y. x;
  }

  pub start_incident_wavelength-IsPart :
      IsPart (start_blocks {D = D}) no_blocks Fields.in_incident_wavelength
  start_incident_wavelength-IsPart = record {
    within = λ t p. omega arith;
    swap = λ t s p. omega arith;
    fit_view = λ t x. tt;
    fit_update = λ t s x y. x;
  }

  pub start_number_of_images-IsPart :
      IsPart (start_blocks {D = D}) no_blocks Fields.in_number_of_images
  start_number_of_images-IsPart = record {
    within = λ t p. omega arith;
    swap = λ t s p. omega arith;
    fit_view = λ t x. tt;
    fit_update = λ t s x y. x;
  }

  pub start_pixel_mask-IsPart :
      IsPart (start_blocks {D = D}) (array_blocks channel_blocks) Fields.in_pixel_mask
  start_pixel_mask-IsPart = record {
    within = λ t p. omega arith;
    swap = λ t s p. omega arith;
    fit_view = λ t x. x.2;
    fit_update = λ t s x y. (x.0, x.1, y, x.3);
  }

  pub start_pixel_mask_enabled-IsPart :
      IsPart (start_blocks {D = D}) no_blocks Fields.in_pixel_mask_enabled
  start_pixel_mask_enabled-IsPart = record {
    within = λ t p. omega arith;
    swap = λ t s p. omega arith;
    fit_view = λ t x. tt;
    fit_update = λ t s x y. x;
  }

  pub start_pixel_size_x-IsPart : IsPart (start_blocks {D = D}) no_blocks Fields.in_pixel_size_x
  start_pixel_size_x-IsPart = record {
    within = λ t p. omega arith;
    swap = λ t s p. omega arith;
    fit_view = λ t x. tt;
    fit_update = λ t s x y. x;
  }

  pub start_pixel_size_y-IsPart : IsPart (start_blocks {D = D}) no_blocks Fields.in_pixel_size_y
  start_pixel_size_y-IsPart = record {
    within = λ t p. omega arith;
    swap = λ t s p. omega arith;
    fit_view = λ t x. tt;
    fit_update = λ t s x y. x;
  }

  pub start_saturation_value-IsPart :
      IsPart (start_blocks {D = D}) no_blocks Fields.in_saturation_value
  start_saturation_value-IsPart = record {
    within = λ t p. omega arith;
    swap = λ t s p. omega arith;
    fit_view = λ t x. tt;
    fit_update = λ t s x y. x;
  }

  pub start_sensor_material-IsPart :
      IsPart (start_blocks {D = D}) text_blocks Fields.in_sensor_material
  start_sensor_material-IsPart = record {
    within = λ t p. omega arith;
    swap = λ t s p. omega arith;
    fit_view = λ t x. tt;
    fit_update = λ t s x y. x;
  }

  pub start_sensor_thickness-IsPart :
      IsPart (start_blocks {D = D}) no_blocks Fields.in_sensor_thickness
  start_sensor_thickness-IsPart = record {
    within = λ t p. omega arith;
    swap = λ t s p. omega arith;
    fit_view = λ t x. tt;
    fit_update = λ t s x y. x;
  }

  pub start_threshold_energy-IsPart :
      IsPart (start_blocks {D = D}) (array_blocks threshold_blocks) Fields.in_threshold_energy
  start_threshold_energy-IsPart = record {
    within = λ t p. omega arith;
    swap = λ t s p. omega arith;
    fit_view = λ t x. x.3;
    fit_update = λ t s x y. (x.0, x.1, x.2, y);
  }

  pub start_user_data-IsPart : IsPart (start_blocks {D = D}) no_blocks Fields.in_user_data
  start_user_data-IsPart = record {
    within = λ t p. omega arith;
    swap = λ t s p. omega arith;
    fit_view = λ t x. tt;
    fit_update = λ t s x y. x;
  }

  pub start_virtual_pixel_interpolation_enabled-IsPart :
      IsPart (start_blocks {D = D}) no_blocks Fields.in_virtual_pixel_interpolation_enabled
  start_virtual_pixel_interpolation_enabled-IsPart = record {
    within = λ t p. omega arith;
    swap = λ t s p. omega arith;
    fit_view = λ t x. tt;
    fit_update = λ t s x y. x;
  }
