-- ===== src/Stream2/Sound/Values.antt =====
-- The parsers of goniometers, user data and arrays on the heap in eigerApp/src/stream2.c keep what is
-- owned and move forward.
use adeiger.Base.{ℕ, ◌<◌, ◌≡◌, refl, String, none, arith, str_eq}
use adeiger.Cbor.{Env, MovesForward}
use adeiger.Stream2.Memory.{malloc}
use adeiger.Stream2.Types.{no_channel}
use adeiger.Stream2.Monad.{M}
use adeiger.Stream2.Values.{
  axis_field, parse_goniometer_axis, goniometer_field, parse_goniometer, parse_user_data,
  store_items, calloc_items, parse_channels, parse_detector_translation, parse_heap_map,
  parse_channel_array, parse_flatfield, parse_pixel_mask, parse_image_data, parse_threshold,
  no_threshold, parse_threshold_energy,
}
use adeiger.Stream2.Sound.{
  Owner, no_blocks, Sound, pure-Sound, any-Sound, weaken-Sound, require-Sound, modify-Sound,
  bind-Sound, if-Sound, at-Sound, for_each-Sound,
}
use adeiger.Stream2.Sound.Scalars.{
  text_blocks, Past, advance-Sound, skip_tag-Sound, enter-Sound, leave-Sound, parse_double-Sound,
  parse_text_string-Sound, each_field-Sound,
}
use adeiger.Stream2.Sound.Arrays.{parse_multidim_array-Sound}
use adeiger.Stream2.Sound.ValueParts.{
  replicate-blocks, array_blocks, channel_blocks, threshold_blocks, item-IsPart, coordinate-IsPart,
  axis_increment-IsPart, axis_start-IsPart, chi-IsPart, kappa-IsPart, omega_axis-IsPart, phi-IsPart,
  two_theta-IsPart, entry_channel-IsPart, entry_array-IsPart, threshold_channel-IsPart,
  threshold_energy-IsPart,
}

module _ (e : Env) (forward : MovesForward e) where
  open e use {Value, Double}
  open forward use {remaining}

  axis_field-Sound :
      (key : String) (it : Value)
      → Sound no_blocks (Past e forward (remaining it)) (axis_field e key it)
  unfolding axis_field
  axis_field-Sound key it = bind-Sound (skip_tag-Sound e forward it) λ v le.
      weaken-Sound
        (if-Sound (str_eq key "increment")
          (at-Sound axis_increment-IsPart (parse_double-Sound e forward v))
          (if-Sound (str_eq key "start")
            (at-Sound axis_start-IsPart (parse_double-Sound e forward v))
            (advance-Sound e forward v)))
        (λ w q. omega arith)

  parse_goniometer_axis-Sound :
      (fuel : ℕ) (it : Value)
      → remaining it < fuel
      → Sound no_blocks (Past e forward (remaining it)) (parse_goniometer_axis e fuel it)
  unfolding parse_goniometer_axis
  parse_goniometer_axis-Sound fuel it h = bind-Sound (require-Sound _ _) λ _ _.
      bind-Sound (enter-Sound e forward it) λ field lt.
        bind-Sound
          (each_field-Sound e forward _ fuel (λ key v k. axis_field-Sound key v) fuel field
            (omega arith) (omega arith))
          λ w le. leave-Sound e forward it w (omega arith)

  goniometer_field-Sound :
      (fuel : ℕ) (key : String) (it : Value)
      → remaining it < fuel
      → Sound no_blocks (Past e forward (remaining it)) (goniometer_field e fuel key it)
  unfolding goniometer_field
  goniometer_field-Sound fuel key it h = bind-Sound (skip_tag-Sound e forward it) λ v le.
      let axis = parse_goniometer_axis-Sound fuel v (omega arith) in
      weaken-Sound
        (if-Sound (str_eq key "chi") (at-Sound chi-IsPart axis) (
          if-Sound (str_eq key "kappa") (at-Sound kappa-IsPart axis) (
            if-Sound (str_eq key "omega") (at-Sound omega_axis-IsPart axis) (
              if-Sound (str_eq key "phi") (at-Sound phi-IsPart axis) (
                if-Sound (str_eq key "two_theta") (at-Sound two_theta-IsPart axis)
                  (advance-Sound e forward v))))))
        (λ w q. omega arith)

  pub parse_goniometer-Sound :
      (fuel : ℕ) (it : Value)
      → remaining it < fuel
      → Sound no_blocks (Past e forward (remaining it)) (parse_goniometer e fuel it)
  unfolding parse_goniometer
  parse_goniometer-Sound fuel it h = bind-Sound (require-Sound _ _) λ _ _.
      bind-Sound (enter-Sound e forward it) λ field lt.
        bind-Sound
          (each_field-Sound e forward _ fuel (goniometer_field-Sound fuel) fuel field (omega arith)
            (omega arith))
          λ w le. leave-Sound e forward it w (omega arith)

  pub parse_user_data-Sound :
      (it : Value) → Sound no_blocks (Past e forward (remaining it)) (parse_user_data e it)
  unfolding parse_user_data
  parse_user_data-Sound it =
      bind-Sound (advance-Sound e forward it)
        λ v lt. bind-Sound (modify-Sound _ (λ t p. omega arith) (λ t x. x)) λ _ _. pure-Sound _ lt

  pub parse_detector_translation-Sound :
      (it : Value)
      → Sound no_blocks (Past e forward (remaining it)) (parse_detector_translation e it)
  unfolding parse_detector_translation
  parse_detector_translation-Sound it = bind-Sound (require-Sound _ _) λ _ _.
      bind-Sound (any-Sound _) λ len _. bind-Sound (require-Sound _ _) λ _ _.
        bind-Sound (enter-Sound e forward it) λ elt lt.
          bind-Sound
            (for_each-Sound (Past e forward (remaining it)) _
              (λ i v h.
                weaken-Sound (at-Sound (coordinate-IsPart _ i) (parse_double-Sound e forward v))
                  (λ w q. omega arith))
              len 0 elt lt)
            λ elt' lt'. leave-Sound e forward it elt' lt'

  calloc_items-Sound :
      {A : Type 0} (o : Owner A) (len : ℕ) (blank : A)
      → ((p : ℕ) → o.blocks blank p ≡ 0)
      → ((a : A) → o.Fit a)
      → Sound (array_blocks o) (λ _. Unit {0}) (calloc_items e len blank)
  unfolding calloc_items store_items malloc
  calloc_items-Sound o len blank empty fit = record {
    keeps = λ h t p b k. ground (arith, replicate-blocks o blank empty fit len p);
    ends = λ h t. ground arith;
    fits = λ h t x. ground arith;
  }

  pub parse_channels-Sound :
      (it : Value)
      → Sound (array_blocks text_blocks) (Past e forward (remaining it)) (parse_channels e it)
  unfolding parse_channels
  parse_channels-Sound it = bind-Sound (require-Sound _ _) λ _ _. bind-Sound (any-Sound _) λ len _.
      bind-Sound (calloc_items-Sound text_blocks len none (λ p. refl) (λ a. tt)) λ _ _.
        bind-Sound (enter-Sound e forward it) λ elt lt.
          bind-Sound
            (for_each-Sound (Past e forward (remaining it)) _
              (λ i v h.
                weaken-Sound
                  (at-Sound (item-IsPart text_blocks none (λ p. refl) (λ a. tt) i)
                    (parse_text_string-Sound e forward v))
                  (λ w q. omega arith))
              len 0 elt lt)
            λ elt' lt'. leave-Sound e forward it elt' lt'

  parse_heap_map-Sound :
      {A : Type 0} (o : Owner A) (blank : A)
      → ((p : ℕ) → o.blocks blank p ≡ 0)
      → ((a : A) → o.Fit a)
      → (parse_entry : Value → M A Value)
      → ((it : Value) → Sound o (Past e forward (remaining it)) (parse_entry it))
      → (it : Value)
      → Sound
          (array_blocks o)
          (Past e forward (remaining it))
          (parse_heap_map e blank parse_entry it)
  unfolding parse_heap_map
  parse_heap_map-Sound o blank empty fit parse_entry entry it =
      bind-Sound (require-Sound _ _) λ _ _. bind-Sound (any-Sound _) λ len _.
        bind-Sound (calloc_items-Sound o len blank empty fit) λ _ _.
          bind-Sound (enter-Sound e forward it) λ elt lt.
            bind-Sound
              (for_each-Sound (Past e forward (remaining it)) _
                (λ i v h.
                  weaken-Sound (at-Sound (item-IsPart o blank empty fit i) (entry v))
                    (λ w q. omega arith))
                len 0 elt lt)
              λ elt' lt'. leave-Sound e forward it elt' lt'

  parse_channel_array-Sound :
      (it : Value) → Sound channel_blocks (Past e forward (remaining it)) (parse_channel_array e it)
  unfolding parse_channel_array
  parse_channel_array-Sound it =
      bind-Sound (at-Sound entry_channel-IsPart (parse_text_string-Sound e forward it)) λ v lt.
        weaken-Sound (at-Sound entry_array-IsPart (parse_multidim_array-Sound e forward v))
          (λ w q. omega arith)

  parse_threshold-Sound :
      (it : Value) → Sound threshold_blocks (Past e forward (remaining it)) (parse_threshold e it)
  unfolding parse_threshold
  parse_threshold-Sound it =
      bind-Sound (at-Sound threshold_channel-IsPart (parse_text_string-Sound e forward it)) λ v lt.
        weaken-Sound (at-Sound threshold_energy-IsPart (parse_double-Sound e forward v))
          (λ w q. omega arith)

  pub parse_flatfield-Sound :
      (it : Value)
      → Sound (array_blocks channel_blocks) (Past e forward (remaining it)) (parse_flatfield e it)
  unfolding parse_flatfield
  parse_flatfield-Sound =
      parse_heap_map-Sound channel_blocks no_channel (λ p. refl) (λ a. tt) _
        parse_channel_array-Sound

  pub parse_pixel_mask-Sound :
      (it : Value)
      → Sound (array_blocks channel_blocks) (Past e forward (remaining it)) (parse_pixel_mask e it)
  unfolding parse_pixel_mask
  parse_pixel_mask-Sound =
      parse_heap_map-Sound channel_blocks no_channel (λ p. refl) (λ a. tt) _
        parse_channel_array-Sound

  pub parse_image_data-Sound :
      (it : Value)
      → Sound (array_blocks channel_blocks) (Past e forward (remaining it)) (parse_image_data e it)
  unfolding parse_image_data
  parse_image_data-Sound =
      parse_heap_map-Sound channel_blocks no_channel (λ p. refl) (λ a. tt) _
        parse_channel_array-Sound

  pub parse_threshold_energy-Sound :
      (it : Value)
      → Sound
          (array_blocks threshold_blocks)
          (Past e forward (remaining it))
          (parse_threshold_energy e it)
  unfolding parse_threshold_energy
  parse_threshold_energy-Sound =
      parse_heap_map-Sound threshold_blocks (no_threshold e) (λ p. refl) (λ a. tt) _
        parse_threshold-Sound
