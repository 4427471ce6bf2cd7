-- ===== src/Stream2/Start/Fields.antt =====
-- The members of `struct stream2_start_msg`, as places to parse into.
use adeiger.Base.{ℕ, Bool, List}
use adeiger.Stream2.Memory.{CharPtr}
use adeiger.Stream2.Types.{
  StartMsg, Goniometer, TypedArray, HeapArray, ChannelArray, ThresholdEnergy, UserData,
}
use adeiger.Stream2.Monad.{Field}

module _ {D : Type 0} where
  abbrev pub in_series_id : Field (StartMsg D) ℕ
  in_series_id = record { view = λ m. m.series_id; update = λ v m. record m { series_id = v } }

  abbrev pub in_series_unique_id : Field (StartMsg D) CharPtr
  in_series_unique_id = record {
    view = λ m. m.series_unique_id;
    update = λ v m. record m { series_unique_id = v };
  }

  abbrev pub in_arm_date : Field (StartMsg D) CharPtr
  in_arm_date = record { view = λ m. m.arm_date; update = λ v m. record m { arm_date = v } }

  abbrev pub in_beam_center_x : Field (StartMsg D) D
  in_beam_center_x = record {
    view = λ m. m.beam_center_x;
    update = λ v m. record m { beam_center_x = v };
  }

  abbrev pub in_beam_center_y : Field (StartMsg D) D
  in_beam_center_y = record {
    view = λ m. m.beam_center_y;
    update = λ v m. record m { beam_center_y = v };
  }

  abbrev pub in_channels : Field (StartMsg D) (HeapArray CharPtr)
  in_channels = record { view = λ m. m.channels; update = λ v m. record m { channels = v } }

  abbrev pub in_count_time : Field (StartMsg D) D
  in_count_time = record { view = λ m. m.count_time; update = λ v m. record m { count_time = v } }

  abbrev pub in_countrate_correction_enabled : Field (StartMsg D) Bool
  in_countrate_correction_enabled = record {
    view = λ m. m.countrate_correction_enabled;
    update = λ v m. record m { countrate_correction_enabled = v };
  }

  abbrev pub in_countrate_correction_lookup_table : Field (StartMsg D) TypedArray
  in_countrate_correction_lookup_table = record {
    view = λ m. m.countrate_correction_lookup_table;
    update = λ v m. record m { countrate_correction_lookup_table = v };
  }

  abbrev pub in_detector_description : Field (StartMsg D) CharPtr
  in_detector_description = record {
    view = λ m. m.detector_description;
    update = λ v m. record m { detector_description = v };
  }

  abbrev pub in_detector_serial_number : Field (StartMsg D) CharPtr
  in_detector_serial_number = record {
    view = λ m. m.detector_serial_number;
    update = λ v m. record m { detector_serial_number = v };
  }

  abbrev pub in_detector_translation : Field (StartMsg D) (List D)
  in_detector_translation = record {
    view = λ m. m.detector_translation;
    update = λ v m. record m { detector_translation = v };
  }

  abbrev pub in_flatfield : Field (StartMsg D) (HeapArray ChannelArray)
  in_flatfield = record { view = λ m. m.flatfield; update = λ v m. record m { flatfield = v } }

  abbrev pub in_flatfield_enabled : Field (StartMsg D) Bool
  in_flatfield_enabled = record {
    view = λ m. m.flatfield_enabled;
    update = λ v m. record m { flatfield_enabled = v };
  }

  abbrev pub in_frame_time : Field (StartMsg D) D
  in_frame_time = record { view = λ m. m.frame_time; update = λ v m. record m { frame_time = v } }

  abbrev pub in_goniometer : Field (StartMsg D) (Goniometer D)
  in_goniometer = record { view = λ m. m.goniometer; update = λ v m. record m { goniometer = v } }

  abbrev pub in_image_dtype : Field (StartMsg D) CharPtr
  in_image_dtype = record {
    view = λ m. m.image_dtype;
    update = λ v m. record m { image_dtype = v };
  }

  abbrev pub in_image_size_x : Field (StartMsg D) ℕ
  in_image_size_x = record {
    view = λ m. m.image_size_x;
    update = λ v m. record m { image_size_x = v };
  }

  abbrev pub in_image_size_y : Field (StartMsg D) ℕ
  in_image_size_y = record {
    view = λ m. m.image_size_y;
    update = λ v m. record m { image_size_y = v };
  }

  abbrev pub in_incident_energy : Field (StartMsg D) D
  in_incident_energy = record {
    view = λ m. m.incident_energy;
    update = λ v m. record m { incident_energy = v };
  }

  abbrev pub in_incident_wavelength : Field (StartMsg D) D
  in_incident_wavelength = record {
    view = λ m. m.incident_wavelength;
    update = λ v m. record m { incident_wavelength = v };
  }

  abbrev pub in_number_of_images : Field (StartMsg D) ℕ
  in_number_of_images = record {
    view = λ m. m.number_of_images;
    update = λ v m. record m { number_of_images = v };
  }

  abbrev pub in_pixel_mask : Field (StartMsg D) (HeapArray ChannelArray)
  in_pixel_mask = record { view = λ m. m.pixel_mask; update = λ v m. record m { pixel_mask = v } }

  abbrev pub in_pixel_mask_enabled : Field (StartMsg D) Bool
  in_pixel_mask_enabled = record {
    view = λ m. m.pixel_mask_enabled;
    update = λ v m. record m { pixel_mask_enabled = v };
  }

  abbrev pub in_pixel_size_x : Field (StartMsg D) D
  in_pixel_size_x = record {
    view = λ m. m.pixel_size_x;
    update = λ v m. record m { pixel_size_x = v };
  }

  abbrev pub in_pixel_size_y : Field (StartMsg D) D
  in_pixel_size_y = record {
    view = λ m. m.pixel_size_y;
    update = λ v m. record m { pixel_size_y = v };
  }

  abbrev pub in_saturation_value : Field (StartMsg D) ℕ
  in_saturation_value = record {
    view = λ m. m.saturation_value;
    update = λ v m. record m { saturation_value = v };
  }

  abbrev pub in_sensor_material : Field (StartMsg D) CharPtr
  in_sensor_material = record {
    view = λ m. m.sensor_material;
    update = λ v m. record m { sensor_material = v };
  }

  abbrev pub in_sensor_thickness : Field (StartMsg D) D
  in_sensor_thickness = record {
    view = λ m. m.sensor_thickness;
    update = λ v m. record m { sensor_thickness = v };
  }

  abbrev pub in_threshold_energy : Field (StartMsg D) (HeapArray (ThresholdEnergy D))
  in_threshold_energy = record {
    view = λ m. m.threshold_energy;
    update = λ v m. record m { threshold_energy = v };
  }

  abbrev pub in_user_data : Field (StartMsg D) UserData
  in_user_data = record { view = λ m. m.user_data; update = λ v m. record m { user_data = v } }

  abbrev pub in_virtual_pixel_interpolation_enabled : Field (StartMsg D) Bool
  in_virtual_pixel_interpolation_enabled = record {
    view = λ m. m.virtual_pixel_interpolation_enabled;
    update = λ v m. record m { virtual_pixel_interpolation_enabled = v };
  }
