-- ===== src/Stream2/Values.antt =====
-- The parsers of the values that only a start message or an image message holds: goniometers, user
-- data, and the arrays on the heap (eigerApp/src/stream2.c).
use adeiger.Base.{
  ℕ, ◌+◌, ◌-◌, ◌%◌, ◌^◌, String, List, none, some, replicate, get_or, set, str_eq, if◌then◌else◌,
  ◌==◌,
}
use adeiger.Cbor.{Env}
use adeiger.Stream2.Memory.{Ptr, CharPtr, Heap, malloc}
use adeiger.Stream2.Types.{
  parse, out_of_memory, GoniometerAxis, Goniometer, UserData, HeapArray, ChannelArray,
  MultidimArray, ThresholdEnergy, no_channel,
}
use adeiger.Stream2.Monad.{M, Outcome, pure, reply, require, modify, ◌>>=◌, ◌>>◌, Field, at}
use adeiger.Stream2.Scalars.{for_each, parse_double, parse_text_string, each_field}
use adeiger.Stream2.Arrays.{parse_multidim_array}

-- The element `i` of an array on the heap; none can be reached through `NULL`.
abbrev pub item : {A : Type 0} → A → ℕ → Field (HeapArray A) A
item blank i = record {
  view = λ a. elim a.ptr [ none ↦ blank | some _ ↦ get_or a.items i blank ];
  update = λ v a. record { ptr = a.ptr; items = set a.items i v };
}

-- The element `i` of a `double[3]`.
abbrev pub coordinate : {D : Type 0} → D → ℕ → Field (List D) D
coordinate zero_double i = record { view = λ l. get_or l i zero_double; update = λ v l. set l i v }

abbrev pub axis_increment : {D : Type 0} → Field (GoniometerAxis D) D
axis_increment = record { view = λ a. a.increment; update = λ v a. record a { increment = v } }

abbrev pub axis_start : {D : Type 0} → Field (GoniometerAxis D) D
axis_start = record { view = λ a. a.start; update = λ v a. record a { start = v } }

abbrev pub gonio_chi : {D : Type 0} → Field (Goniometer D) (GoniometerAxis D)
gonio_chi = record { view = λ g. g.chi; update = λ v g. record g { chi = v } }

abbrev pub gonio_kappa : {D : Type 0} → Field (Goniometer D) (GoniometerAxis D)
gonio_kappa = record { view = λ g. g.kappa; update = λ v g. record g { kappa = v } }

abbrev pub gonio_omega_axis : {D : Type 0} → Field (Goniometer D) (GoniometerAxis D)
gonio_omega_axis = record { view = λ g. g.omega_axis; update = λ v g. record g { omega_axis = v } }

abbrev pub gonio_phi : {D : Type 0} → Field (Goniometer D) (GoniometerAxis D)
gonio_phi = record { view = λ g. g.phi; update = λ v g. record g { phi = v } }

abbrev pub gonio_two_theta : {D : Type 0} → Field (Goniometer D) (GoniometerAxis D)
gonio_two_theta = record { view = λ g. g.two_theta; update = λ v g. record g { two_theta = v } }

abbrev pub entry_channel : Field ChannelArray CharPtr
entry_channel = record { view = λ c. c.channel; update = λ v c. record c { channel = v } }

abbrev pub entry_array : Field ChannelArray MultidimArray
entry_array = record { view = λ c. c.array; update = λ v c. record c { array = v } }

abbrev pub threshold_channel : {D : Type 0} → Field (ThresholdEnergy D) CharPtr
threshold_channel = record { view = λ c. c.channel; update = λ v c. record c { channel = v } }

abbrev pub threshold_energy : {D : Type 0} → Field (ThresholdEnergy D) D
threshold_energy = record { view = λ c. c.energy; update = λ v c. record c { energy = v } }

module _ (e : Env) where
  open e use {Value, Double}

  unfoldable pub axis_field : String → Value → M (GoniometerAxis Double) Value
  axis_field key it = do
    it ← reply (e.skip_tag it)
    if str_eq key "increment"
        then at axis_increment (parse_double e it)
        else if str_eq key "start"
        then at axis_start (parse_double e it)
        else reply (e.advance it)

  unfoldable pub parse_goniometer_axis : ℕ → Value → M (GoniometerAxis Double) Value
  parse_goniometer_axis fuel it = do
    require (e.is_map it) parse
    field ← reply (e.enter_container it)
    field ← each_field e axis_field fuel field
    reply (e.leave_container it field)

  unfoldable pub goniometer_field : ℕ → String → Value → M (Goniometer Double) Value
  goniometer_field fuel key it = do
    it ← reply (e.skip_tag it)
    if str_eq key "chi"
        then at gonio_chi (parse_goniometer_axis fuel it)
        else if str_eq key "kappa"
        then at gonio_kappa (parse_goniometer_axis fuel it)
        else if str_eq key "omega"
        then at gonio_omega_axis (parse_goniometer_axis fuel it)
        else if str_eq key "phi"
        then at gonio_phi (parse_goniometer_axis fuel it)
        else if str_eq key "two_theta"
        then at gonio_two_theta (parse_goniometer_axis fuel it)
        else reply (e.advance it)

  unfoldable pub parse_goniometer : ℕ → Value → M (Goniometer Double) Value
  parse_goniometer fuel it = do
    require (e.is_map it) parse
    field ← reply (e.enter_container it)
    field ← each_field e (goniometer_field fuel) fuel field
    reply (e.leave_container it field)

  -- The user's item, undecoded: the bytes between the iterator and the next item.
  unfoldable pub parse_user_data : Value → M UserData Value
  parse_user_data it = do
    next ← reply (e.advance it)
    modify (λ _. record {
      ptr = e.get_next_byte it;
      len = (e.get_next_byte next + 2 ^ 64 - e.get_next_byte it) % 2 ^ 64;
    })
    pure next

  -- `ptr = calloc(len, sizeof(A))`; `len` is stored if that was granted.
  unfoldable pub store_items :
      {A : Type 0} → ℕ → A → HeapArray A → Ptr × Heap → Outcome (Unit {0}) × Heap × HeapArray A
  store_items len blank a (none, h) = (Outcome.err out_of_memory, h, record a { ptr = none })
  store_items len blank a (some p, h) =
      (Outcome.ok tt, h, record { ptr = some p; items = replicate len blank })

  unfoldable pub calloc_items : {A : Type 0} → ℕ → A → M (HeapArray A) (Unit {0})
  calloc_items len blank h a = store_items len blank a (malloc e.grants h)

  unfoldable pub parse_channels : Value → M (HeapArray CharPtr) Value
  parse_channels it = do
    require (e.is_array it) parse
    len ← reply (e.get_array_length it)
    calloc_items len none
    elt ← reply (e.enter_container it)
    elt ← for_each len 0 (λ i elt. at (item none i) (parse_text_string e elt)) elt
    reply (e.leave_container it elt)

  unfoldable pub parse_detector_translation : Value → M (List Double) Value
  parse_detector_translation it = do
    require (e.is_array it) parse
    len ← reply (e.get_array_length it)
    require (len == 3) parse
    elt ← reply (e.enter_container it)
    elt ← for_each len 0 (λ i elt. at (coordinate e.zero_double i) (parse_double e elt)) elt
    reply (e.leave_container it elt)

  -- A map with an entry for each channel, into an array on the heap.
  unfoldable pub parse_heap_map :
      {A : Type 0} → A → (Value → M A Value) → Value → M (HeapArray A) Value
  parse_heap_map blank parse_entry it = do
    require (e.is_map it) parse
    len ← reply (e.get_map_length it)
    calloc_items len blank
    field ← reply (e.enter_container it)
    field ← for_each len 0 (λ i field. at (item blank i) (parse_entry field)) field
    reply (e.leave_container it field)

  unfoldable pub parse_channel_array : Value → M ChannelArray Value
  parse_channel_array field = do
    field ← at entry_channel (parse_text_string e field)
    at entry_array (parse_multidim_array e field)

  unfoldable pub parse_flatfield : Value → M (HeapArray ChannelArray) Value
  parse_flatfield = parse_heap_map no_channel parse_channel_array

  unfoldable pub parse_pixel_mask : Value → M (HeapArray ChannelArray) Value
  parse_pixel_mask = parse_heap_map no_channel parse_channel_array

  unfoldable pub parse_image_data : Value → M (HeapArray ChannelArray) Value
  parse_image_data = parse_heap_map no_channel parse_channel_array

  unfoldable pub parse_threshold : Value → M (ThresholdEnergy Double) Value
  parse_threshold field = do
    field ← at threshold_channel (parse_text_string e field)
    at threshold_energy (parse_double e field)

  abbrev pub no_threshold : ThresholdEnergy Double
  no_threshold = record { channel = none; energy = e.zero_double }

  unfoldable pub parse_threshold_energy : Value → M (HeapArray (ThresholdEnergy Double)) Value
  parse_threshold_energy = parse_heap_map no_threshold parse_threshold
