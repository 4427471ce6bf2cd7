-- ===== src/Stream2/Free.antt =====
-- `stream2_free_msg` of eigerApp/src/stream2.c, call by call.
use adeiger.Base.{none, some, List, [], ◌∷◌}
use adeiger.Stream2.Memory.{block, Heap, Freed, freed, fault, null_deref, free, ◌>>◌}
use adeiger.Stream2.Types.{
  MultidimArray, HeapArray, ChannelArray, ThresholdEnergy, StartMsg, ImageMsg, Msg,
}

-- `free(array.data.compression.algorithm)`
abbrev pub free_algorithm : MultidimArray → Heap → Freed
free_algorithm m = free (block m.array.bytes.compression.algorithm)

-- A loop over the elements of an array.
unfoldable pub free_each : {A : Type 0} → (A → Heap → Freed) → List A → Heap → Freed
free_each free_item [] = freed
free_each free_item (a ∷ items) = free_item a >> free_each free_item items

-- The loop over an array on the heap, and `free` of the array. With a length above 0 the loop reads
-- through the pointer.
unfoldable pub free_items : {A : Type 0} → (A → Heap → Freed) → HeapArray A → Heap → Freed
free_items free_item a = elim a.ptr [
  | some p ↦ free_each free_item a.items >> free (some p)
  | none ↦ elim a.items [ [] ↦ freed | _ ∷ _ ↦ λ _. fault null_deref ]
]

abbrev pub free_channel_array : ChannelArray → Heap → Freed
free_channel_array c = free (block c.channel) >> free_algorithm c.array

unfoldable pub free_image_msg : ImageMsg → Heap → Freed
free_image_msg m = free (block m.series_date) >> free_items free_channel_array m.channel_data

module _ {D : Type 0} where
  abbrev pub free_threshold : ThresholdEnergy D → Heap → Freed
  free_threshold t = free (block t.channel)

  unfoldable pub free_start_msg : StartMsg D → Heap → Freed
  free_start_msg m =
      free (block m.arm_date)
      >> free_items (λ c. free (block c)) m.channels
      >> free (block m.countrate_correction_lookup_table.bytes.compression.algorithm)
      >> free (block m.detector_description)
      >> free (block m.detector_serial_number)
      >> free_items free_channel_array m.flatfield
      >> free (block m.image_dtype)
      >> free_items free_channel_array m.pixel_mask
      >> free (block m.sensor_material)
      >> free_items free_threshold m.threshold_energy

  unfoldable pub stream2_free_msg : Msg D → Heap → Freed
  stream2_free_msg Msg.null = freed
  stream2_free_msg (Msg.start p m) =
      free_start_msg m >> free (block m.series_unique_id) >> free (some p)
  stream2_free_msg (Msg.image p m) =
      free_image_msg m >> free (block m.series_unique_id) >> free (some p)
  stream2_free_msg (Msg.end p m) = free (block m.series_unique_id) >> free (some p)
