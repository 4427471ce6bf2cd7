-- ===== src/Stream2/Triple/Images.antt =====
-- What holds of the arrays of every image message that `stream2_parse_msg` of eigerApp/src/stream2.c
-- hands out.
use adeiger.Base.{
  ℕ, zero, suc, ◌+◌, ◌≤◌, ◌<◌, ◌≡◌, refl, subst, sym, ap, String, Option, none, some, List, [], ◌∷◌,
  length, set, replicate, length-set, arith, str_eq, ◌==◌, ◌||◌,
}
use adeiger.Cbor.{Env, CborError}
use adeiger.Stream2.Memory.{Heap, Ptr, Freed, freed, fault, malloc}
use adeiger.Stream2.Types.{
  Stream2Error, HeapArray, ChannelArray, MultidimArray, ImageMsg, Msg, no_channel,
}
use adeiger.Stream2.Monad.{
  M, Outcome, ok, err, out_of_fuel, pure, fail, diverge, Field, at, cbor_result,
}
use adeiger.Stream2.Scalars.{
  max_key_len, is_out_of_memory, for_each, parse_copied, parse_key, each_field, fill_msg,
  calloc_msg,
}
use adeiger.Stream2.Arrays.{array_bytes, multidim_array, parse_typed_array, parse_multidim_array}
use adeiger.Stream2.Values.{
  item, entry_array, store_items, calloc_items, parse_heap_map, parse_channel_array,
  parse_image_data,
}
use adeiger.Stream2.Start.{parse_start_msg}
use adeiger.Stream2.Image
use adeiger.Stream2.Image.{
  ImageKey, image_key, parse_image_value, parse_image_field, parse_image_msg,
}
use adeiger.Stream2.EndMsg.{parse_end_msg}
use adeiger.Stream2.Free.{stream2_free_msg}
use adeiger.Stream2.Parse.{
  Parsed, parsed, refused, crashed, no_fuel, parse_by_type, parse_msg, after_free, finish,
  stream2_parse_msg,
}
use adeiger.Stream2.Triple.{
  Holds, Triple, Any, any-Triple, pure-Triple, fail-Triple, reply-Triple, if-Triple, bind-Triple,
  require-Triple, get-Triple, weaken-Triple, at-Triple, update-Triple, both-Triple,
}
use adeiger.Stream2.Triple.Arrays.{
  DimensionsChecked, CompressionChecked, elem_size-Triple, parse_bytes-Triple,
  parse_multidim_array-Triple,
}

-- The first `n` elements satisfy `C`, and there are so many.
abbrev pub FirstAre {ℓ κ} : {A : Type ℓ} → (A → Type κ) → ℕ → List A → Type κ
FirstAre C zero l = Unit
FirstAre C (suc n) [] = Unit
FirstAre C (suc n) (x ∷ l) = C x × FirstAre C n l

abbrev pub All {ℓ κ} : {A : Type ℓ} → (A → Type κ) → List A → Type κ
All C [] = Unit
All C (x ∷ l) = C x × All C l

module _ {A : Type 0} (C : A → Type 0) where
  set-FirstAre :
      (l : List A) (n : ℕ) (x : A)
      → C x
      → n < length l
      → FirstAre C n l
      → FirstAre C (suc n) (set l n x)
  set-FirstAre [] n x c h k = tt
  set-FirstAre (y ∷ l) zero x c h k = (c, tt)
  set-FirstAre (y ∷ l) (suc n) x c h k = (k.0, set-FirstAre l n x c (omega arith) k.1)

  All-first : (l : List A) (n : ℕ) → length l ≡ n → FirstAre C n l → All C l
  All-first [] n h k = tt
  All-first (x ∷ l) zero h k = absurd (omega arith)
  All-first (x ∷ l) (suc n) h k = (k.0, All-first l n (omega arith) k.1)

length-replicate : {A : Type 0} (n : ℕ) (a : A) → length (replicate n a) ≡ n
length-replicate zero a = refl
length-replicate (suc n) a = ap suc (length-replicate n a)

module _ {S V : Type 0} (I : ℕ → S → Type 0) where
  for_each-Triple :
      (n i : ℕ) (body : ℕ → V → M S V) (it : V)
      → ((j : ℕ) (it : V) → i ≤ j → j < i + n → Triple (I j) (body j it) (λ _. I (suc j)))
      → Triple (I i) (for_each n i body it) (λ _. I (i + n))
  unfolding for_each
  for_each-Triple zero i body it step = pure-Triple it (λ t x. subst (λ k. I k t) (omega arith) x)
  for_each-Triple (suc n) i body it step = bind-Triple (step i it (omega arith) (omega arith)) λ it.
      weaken-Triple
        (for_each-Triple n (suc i) body it (λ j it le lt. step j it (omega arith) (omega arith)))
        (λ v t x. subst (λ k. I k t) (omega arith) x)

module _ (e : Env) where
  open e use {Value, Double}

  typed_bytes-Triple :
      (it : Value) → Triple Any (parse_typed_array e it) (λ _ a. CompressionChecked e a.bytes)
  unfolding parse_typed_array
  typed_bytes-Triple it = bind-Triple (any-Triple _) λ v.
      bind-Triple (at-Triple array_bytes (λ s t. refl) (parse_bytes-Triple e v)) λ w.
        bind-Triple get-Triple λ array.
          bind-Triple (elem_size-Triple array)
            λ size. bind-Triple (require-Triple _ _) λ _. pure-Triple _ (λ t x. x.0.0.0)

  -- What `stream2_parse_msg` has checked of an array of an image.
  abbrev pub ArrayChecked : MultidimArray → Type 0
  ArrayChecked m = DimensionsChecked e m × CompressionChecked e m.array.bytes

  multidim_bytes-Triple :
      (it : Value)
      → Triple Any (parse_multidim_array e it) (λ _ m. CompressionChecked e m.array.bytes)
  unfolding parse_multidim_array
  multidim_bytes-Triple it = bind-Triple (any-Triple _) λ r. bind-Triple (any-Triple _) λ _.
      bind-Triple (any-Triple _) λ _. bind-Triple (any-Triple _) λ len.
        bind-Triple (any-Triple _) λ _. bind-Triple (any-Triple _) λ elt.
          bind-Triple (any-Triple _) λ elt'.
            bind-Triple (at-Triple multidim_array (λ s t. refl) (typed_bytes-Triple elt')) λ c.
              bind-Triple get-Triple λ m.
                bind-Triple (require-Triple _ _)
                  λ _. weaken-Triple (reply-Triple _) (λ v t x. x.0.0)

  array-Triple : (it : Value) → Triple Any (parse_multidim_array e it) (λ _ m. ArrayChecked m)
  array-Triple it =
      both-Triple (parse_multidim_array e it) (parse_multidim_array-Triple e it)
        (multidim_bytes-Triple it)

  abbrev pub ChannelChecked : ChannelArray → Type 0
  ChannelChecked c = ArrayChecked c.array

  channel-Triple : (it : Value) → Triple Any (parse_channel_array e it) (λ _ c. ChannelChecked c)
  unfolding parse_channel_array
  channel-Triple it =
      bind-Triple (any-Triple _) λ v. at-Triple entry_array (λ s t. refl) (array-Triple v)

  -- While the loop over the channels runs: so many are checked, of so many.
  abbrev Filled : ℕ → ℕ → HeapArray ChannelArray → Type 0
  Filled len i a = (length a.items ≡ len) × FirstAre ChannelChecked i a.items

  calloc_items-Triple : (len : ℕ) → Triple Any (calloc_items e len no_channel) (λ _. Filled len 0)
  unfolding calloc_items store_items
  calloc_items-Triple len = record { run = λ h t x. stored (malloc e.grants h) t }
    where
      stored :
          (r : Ptr × Heap) (t : HeapArray ChannelArray)
          → Holds
              (λ (_ : Unit {0}). Filled len 0)
              (store_items e len no_channel t r).0
              (store_items e len no_channel t r).2
      stored (none, h) t = tt
      stored (some p, h) t = (length-replicate len no_channel, tt)

  image_data-Triple :
      (it : Value) → Triple Any (parse_image_data e it) (λ _ a. All ChannelChecked a.items)
  unfolding parse_image_data parse_heap_map
  image_data-Triple it = bind-Triple (any-Triple _) λ _. bind-Triple (any-Triple _) λ len.
      bind-Triple (calloc_items-Triple len) λ _. bind-Triple (reply-Triple _) λ field.
        bind-Triple
          (for_each-Triple (Filled len) len 0 _ field (λ j v le lt.
            update-Triple _ _ (item no_channel j) (channel-Triple v) (λ r s t x c. (
              omega (arith, x.0, length-set t.items j s),
              set-FirstAre ChannelChecked t.items j s c (omega arith) x.1,
            ))))
          λ field.
            weaken-Triple (reply-Triple _)
              (λ v t x. All-first ChannelChecked t.items (0 + len) (omega (arith, x.0)) x.1)

  abbrev pub ImageChecked : ImageMsg → Type 0
  ImageChecked m = All ChannelChecked m.channel_data.items

  -- A member of the message that is no array.
  other-Triple :
      {S : Type 0} (f : Field ImageMsg S) (m : M S Value)
      → ((s : S) (t : ImageMsg) → (f.update s t).channel_data ≡ t.channel_data)
      → Triple ImageChecked (at f m) (λ _. ImageChecked)
  other-Triple f m same =
      update-Triple (λ _ _. Unit) _ f (any-Triple m)
        (λ r s t x y.
          subst (λ (a : HeapArray ChannelArray). All ChannelChecked a.items) (sym (same s t)) x)

  image_value-Triple :
      (key : ImageKey) (it : Value)
      → Triple ImageChecked (parse_image_value e key it) (λ _. ImageChecked)
  unfolding parse_image_value
  image_value-Triple ImageKey.series_id it = other-Triple _ _ (λ s t. refl)
  image_value-Triple ImageKey.series_unique_id it = other-Triple _ _ (λ s t. refl)
  image_value-Triple ImageKey.image_id it = other-Triple _ _ (λ s t. refl)
  image_value-Triple ImageKey.real_time it = other-Triple _ _ (λ s t. refl)
  image_value-Triple ImageKey.series_date it = other-Triple _ _ (λ s t. refl)
  image_value-Triple ImageKey.start_time it = other-Triple _ _ (λ s t. refl)
  image_value-Triple ImageKey.stop_time it = other-Triple _ _ (λ s t. refl)
  image_value-Triple ImageKey.user_data it = other-Triple _ _ (λ s t. refl)
  image_value-Triple ImageKey.channel_data it =
      update-Triple _ _ Image.in_channel_data (image_data-Triple it) (λ r s t x y. y)
  image_value-Triple ImageKey.unknown it = reply-Triple _

  image_field-Triple :
      (key : String) (it : Value)
      → Triple ImageChecked (parse_image_field e key it) (λ _. ImageChecked)
  unfolding parse_image_field
  image_field-Triple key it = bind-Triple (reply-Triple _) λ v. image_value-Triple (image_key key) v

  error_or-Triple :
      {T A : Type 0} {P : T → Type 0} (a : A) (c : Option CborError)
      → Triple P
          (elim c as (λ _. M T A) [ none ↦ pure a | some error ↦ fail (cbor_result error) ])
          (λ _. P)
  error_or-Triple a none = pure-Triple a (λ t x. x)
  error_or-Triple a (some error) = fail-Triple _

  parse_key-Triple :
      {T : Type 0} {P : T → Type 0} (it : Value) → Triple P (parse_key e {S = T} it) (λ _. P)
  unfolding parse_key parse_copied
  parse_key-Triple {T} {P} it =
      let c = e.copy_text_string it in
      bind-Triple {Q = λ _. P}
        (weaken-Triple (require-Triple (e.is_text_string it) _) (λ a t x. x.0))
        λ _.
          if-Triple (is_out_of_memory c.error || c.key_len == max_key_len)
            (λ _. pure-Triple _ (λ t x. x)) (λ _. error_or-Triple (c.text, c.next) c.error)

  fields-Triple :
      (fuel : ℕ) (it : Value)
      → Triple ImageChecked (each_field e (parse_image_field e) fuel it) (λ _. ImageChecked)
  unfolding each_field diverge
  fields-Triple zero it = record { run = λ h t x. tt }
  fields-Triple (suc fuel) it =
      if-Triple (e.is_valid it)
        (λ _.
          bind-Triple (parse_key-Triple it)
            λ r. bind-Triple (image_field-Triple r.0 r.1) λ v. fields-Triple fuel v)
        (λ _. pure-Triple it (λ t x. x))

  abbrev pub MsgChecked : Msg Double → Type 0
  MsgChecked Msg.null = Unit
  MsgChecked (Msg.start p m) = Unit
  MsgChecked (Msg.image p m) = ImageChecked m
  MsgChecked (Msg.end p m) = Unit

  module _ {T : Type 0} (wrap : ℕ → T → Msg Double) (blank : T) (loop : M T Value) (C : T → Type 0)
      (is : (p : ℕ) (m : T) → C m → MsgChecked (wrap p m)) where
    filled :
        (p : ℕ) (r : Outcome Value) (m : T)
        → Holds (λ _. C) r m
        → Holds (λ _. MsgChecked) r (wrap p m)
    filled p (ok v) m x = is p m x
    filled p (err _) m x = tt
    filled p out_of_fuel m x = tt

    fill_msg-Holds :
        C blank
        → Triple C loop (λ _. C)
        → (a : Ptr × Heap)
        → Holds (λ _. MsgChecked) (fill_msg e wrap blank loop a).0 (fill_msg e wrap blank loop a).2
    unfolding fill_msg
    fill_msg-Holds c s (none, h) = tt
    fill_msg-Holds c s (some p, h) = filled p (loop h blank).0 (loop h blank).2 (s.run h blank c)

    checked_msg-Triple :
        C blank
        → Triple C loop (λ _. C)
        → Triple Any (calloc_msg e wrap blank loop) (λ _. MsgChecked)
    unfolding calloc_msg
    checked_msg-Triple c s = record { run = λ h t x. fill_msg-Holds c s _ }

  by_type-Triple :
      (fuel : ℕ) (type : String) (it : Value)
      → Triple Any (parse_by_type e fuel type it) (λ _. MsgChecked)
  unfolding parse_by_type parse_start_msg parse_image_msg parse_end_msg
  by_type-Triple fuel type it =
      if-Triple (str_eq type "start")
        (λ _. checked_msg-Triple _ _ _ Any (λ p m x. tt) tt (any-Triple _))
        (λ _.
          if-Triple (str_eq type "image")
            (λ _. checked_msg-Triple _ _ _ ImageChecked (λ p m x. x) tt (fields-Triple fuel it))
            (λ _.
              if-Triple (str_eq type "end")
                (λ _. checked_msg-Triple _ _ _ Any (λ p m x. tt) tt (any-Triple _))
                (λ _. fail-Triple _)))

  msg-Triple : (fuel buffer size : ℕ) → Triple Any (parse_msg e fuel buffer size) (λ _. MsgChecked)
  unfolding parse_msg
  msg-Triple fuel buffer size = bind-Triple (any-Triple _) λ _. bind-Triple (any-Triple _) λ it.
      bind-Triple (any-Triple _) λ _. bind-Triple (any-Triple _) λ field.
        bind-Triple (any-Triple _) λ r.
          bind-Triple (record { run = λ h t x. (by_type-Triple fuel r.0 r.1).run h t tt })
            λ v. reply-Triple _

  abbrev pub Checked : Parsed Double → Type 0
  Checked (parsed msg h) = MsgChecked msg
  Checked (refused error h) = Unit
  Checked (crashed f) = Unit
  Checked no_fuel = Unit

  after_free-Checked : (error : Stream2Error) (r : Freed) → Checked (after_free e error r)
  unfolding after_free
  after_free-Checked error (freed h) = tt
  after_free-Checked error (fault f) = tt

  finish-Checked :
      (r : Outcome Value) (h : Heap) (msg : Msg Double)
      → Holds (λ _. MsgChecked) r msg
      → Checked (finish e (r, h, msg))
  unfolding finish
  finish-Checked (ok v) h msg x = x
  finish-Checked (err error) h msg x = after_free-Checked error (stream2_free_msg msg h)
  finish-Checked out_of_fuel h msg x = tt

  -- In an image message that is handed out with `STREAM2_OK`, the array of every channel has as many
  -- elements as its dimensions say, modulo 2^64, and a tag of RFC 8746; and if it is compressed it
  -- names the algorithm bslz4 or lz4, is at least 12 bytes long, and starts with its size without
  -- compression.
  pub stream2_parse_msg-Checked :
      (fuel buffer size : ℕ) (h : Heap) → Checked (stream2_parse_msg e fuel buffer size h)
  unfolding stream2_parse_msg
  stream2_parse_msg-Checked fuel buffer size h =
      let run = parse_msg e fuel buffer size h Msg.null in
      finish-Checked run.0 run.1 run.2 ((msg-Triple fuel buffer size).run h Msg.null tt)
