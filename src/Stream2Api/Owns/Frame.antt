-- ===== src/Stream2Api/Owns/Frame.antt =====
-- `getFrame` of eigerApp/src/stream2Api.cpp keeps what the receiver owns allocated, and gives the message
-- back after its last threshold.
use adeiger.Base.{
  ℕ, ◌+◌, ◌≡◌, refl, ap, Bool, true, false, Option, none, some, String, ◌==◌, arith, inl, str_eq,
  leb, get_elem?,
}
use adeiger.Cbor.{Env}
use adeiger.Stream2.Memory.{CharPtr}
use adeiger.Stream2.Types.{HeapArray, ChannelArray, Bytes, ImageMsg, Msg}
use adeiger.Stream2.Free.{stream2_free_msg}
use adeiger.Stream2.Sound.MessageParts.{image_blocks}
use adeiger.Stream2.Sound.Free.{msg_count, stream2_free_msg-Frees}
use adeiger.Stream2.Triple.Images.{ImageChecked}
use adeiger.Stream2Api.Outside.{DataType, Outside}
use adeiger.Stream2Api.Monad.{
  overflow, out_of_range, unset, Receiver, M, pure, fail, get, value_or, ◌>>=◌, system, give_back,
}
use adeiger.Stream2Api.Messages.{null_read, set_open}
use adeiger.Stream2Api.TimeStamp.{update_cache, extract_time_stamp}
use adeiger.Stream2Api.Frame.{
  copy_bytes, copy_compressed, compressed_content, frame_content, time_stamp_if, threshold_number,
  image_data, fill_frame, typed_frame, frame_of, end_frame, frame_of_image, get_frame,
}
use adeiger.Stream2Api.Owns.{
  Owns, nothing, image_count, ImageFits, Good, Safe, pure-Safe, fail-Safe, if-Safe, weaken-Safe,
  get-Safe, modify-Safe, value-Safe, require-Safe, bind-Safe, give_back-Safe,
}

module _ (e : Env) (o : Outside) where
  open e use {Double}
  open o use {Net}

  abbrev State : Type 0
  State = Receiver Double Net

  -- The receiver owns what it owned, and its image is `i`.
  abbrev Has : Option (ℕ × ImageMsg) → State → Type 0
  Has i s = Owns (ImageChecked e) nothing s × (s.image ≡ i)

  module _ (i : Option (ℕ × ImageMsg)) where
    abbrev Keeps : {A : Type 0} → M State A → Type 0
    Keeps m = Safe (Has i) m (λ _. Has i)

    call-Keeps : {A : Type 0} (f : Net → A × Net) → Keeps (system f)
    unfolding system
    call-Keeps f = record { run = λ s x. x }

    copy_bytes-Keeps : (size ptr len : ℕ) → Keeps (copy_bytes e o size ptr len)
    unfolding copy_bytes
    copy_bytes-Keeps size ptr len =
        bind-Safe (require-Safe (leb len size) overflow tt) λ _. pure-Safe _ (λ s x. x)

    compressed-Keeps :
        (decompress : Bool) (size : ℕ) (b : Bytes) (encoding : String) (t : DataType)
        → Keeps (compressed_content e o decompress size b encoding t)
    unfolding compressed_content copy_compressed
    compressed-Keeps true size b encoding t =
        bind-Safe (require-Safe _ overflow tt) λ _. pure-Safe _ (λ s x. x)
    compressed-Keeps false size b encoding t =
        bind-Safe (copy_bytes-Keeps size _ _) λ copied. pure-Safe _ (λ s x. x)

    update_cache-Keeps : (date : CharPtr) → Keeps (update_cache e o date)
    unfolding update_cache
    update_cache-Keeps none = fail-Safe _ tt
    update_cache-Keeps (some (p, date)) = bind-Safe get-Safe λ s.
        if-Safe (str_eq s.cached_ts.0 date) (pure-Safe tt (λ s x. x.0)) (modify-Safe _ (λ s x. x.0))

    time_stamp-Keeps : (extract : Bool) (m : ImageMsg) → Keeps (time_stamp_if e o extract m)
    unfolding time_stamp_if extract_time_stamp
    time_stamp-Keeps true m =
        bind-Safe
          (bind-Safe (update_cache-Keeps m.series_date) λ _.
            bind-Safe (require-Safe _ _ tt) λ _. bind-Safe get-Safe λ s. pure-Safe _ (λ s x. x.0))
          λ ts. pure-Safe _ (λ s x. x)
    time_stamp-Keeps false m = pure-Safe _ (λ s x. x)

    threshold_number-Keeps : (c : CharPtr) → Keeps (threshold_number e o c)
    unfolding threshold_number
    threshold_number-Keeps none = fail-Safe null_read tt
    threshold_number-Keeps (some (p, channel)) = value-Safe unset tt _

    image_data-Keeps : (a : HeapArray ChannelArray) (thresh : ℕ) → Keeps (image_data e o a thresh)
    unfolding image_data
    image_data-Keeps a thresh =
        elim a.ptr
          as (λ p. Keeps (elim p [
            | none ↦ fail null_read
            | some p ↦ value_or out_of_range (get_elem? a.items thresh)
          ])) [ none ↦ fail-Safe null_read tt | some p ↦ value-Safe out_of_range tt _ ]

    content-Keeps :
        (decompress : Bool) (size : ℕ) (b : Bytes) (t : DataType)
        → Keeps (frame_content e o decompress size b t)
    unfolding frame_content
    content-Keeps decompress size b t =
        elim b.compression.algorithm
          as (λ a. Keeps (elim a [
            | none ↦ copy_bytes e o size b.ptr b.len >>= λ copied.
                pure (record { contents = copied; codec = none; compressed_size = none })
            | some (p, encoding) ↦ compressed_content e o decompress size b encoding t
          ])) [
            | none ↦ bind-Safe (copy_bytes-Keeps size b.ptr b.len) λ copied. pure-Safe _ (λ s x. x)
            | some (p, encoding) ↦ compressed-Keeps decompress size b encoding t
          ]

    fill_frame-Keeps :
        (m : ImageMsg) (c : ChannelArray) (t : DataType) (thresh : ℕ) (decompress extract : Bool)
        → Keeps (fill_frame e o m c t thresh decompress extract)
    unfolding fill_frame
    fill_frame-Keeps m c t thresh decompress extract =
        bind-Safe (content-Keeps decompress _ c.array.array.bytes t) λ content.
          bind-Safe (time_stamp-Keeps extract m) λ ts. bind-Safe get-Safe λ s.
            bind-Safe {Q = λ _. Has i} (weaken-Safe (value-Safe out_of_range tt _) (λ a s x. x.0))
              λ threshold.
                bind-Safe (threshold_number-Keeps threshold.channel)
                  λ number. pure-Safe _ (λ s x. x)

    typed_frame-Keeps :
        (m : ImageMsg) (c : ChannelArray) (thresh : ℕ) (decompress extract : Bool)
        (t : Option DataType)
        → Keeps (typed_frame e o m c thresh decompress extract t)
    unfolding typed_frame
    typed_frame-Keeps m c thresh decompress extract none = pure-Safe _ (λ s x. x)
    typed_frame-Keeps m c thresh decompress extract (some t) = bind-Safe (call-Keeps _) λ granted.
        if-Safe granted (fill_frame-Keeps m c t thresh decompress extract) (pure-Safe _ (λ s x. x))

    frame_of-Keeps :
        (m : ImageMsg) (thresh : ℕ) (decompress extract : Bool)
        → Keeps (frame_of e o m thresh decompress extract)
    unfolding frame_of
    frame_of-Keeps m thresh decompress extract =
        bind-Safe (image_data-Keeps m.channel_data thresh) λ c.
          bind-Safe (require-Safe _ overflow tt)
            λ _. typed_frame-Keeps m c thresh decompress extract _

  -- The image is given back after the last threshold, and kept before.
  free_image-Safe :
      (p : ℕ) (m : ImageMsg)
      → image_blocks.Fit m
      → Safe
          (Has (some (p, m)))
          (give_back (stream2_free_msg {D = Double} (Msg.image p m)))
          (λ _ s. Owns (ImageChecked e) nothing (record s { image = none }))
  free_image-Safe p m fit =
      give_back-Safe (λ s. Owns (ImageChecked e) nothing (record s { image = none }))
        (msg_count {D = Double} (Msg.image p m))
        (λ s x q. omega (arith, x.0.0 q, ap (λ i. image_count i q) x.1))
        (λ s h x y. (λ q. omega (arith, x.0.0 q, y q, ap (λ i. image_count i q) x.1), tt)) _
        (stream2_free_msg-Frees (Msg.image p m) (inl fit))

  end_frame-Safe :
      (p : ℕ) (m : ImageMsg) (thresh : ℕ)
      → image_blocks.Fit m
      → Safe (Has (some (p, m))) (end_frame e o p m thresh) (λ _. Owns (ImageChecked e) nothing)
  unfolding end_frame set_open
  end_frame-Safe p m thresh fit = bind-Safe get-Safe λ s.
      if-Safe (thresh + 1 == s.num_thresholds)
        (bind-Safe (record { run = λ t x. (free_image-Safe p m fit).run t x.0 })
          λ _.
            bind-Safe (modify-Safe {Q = Owns (ImageChecked e) nothing} _ (λ t x. x))
              λ _. modify-Safe _ (λ t x. x))
        (pure-Safe tt (λ t x. x.0.0))

  frame_of_image-Safe :
      (i : Option (ℕ × ImageMsg)) (thresh : ℕ) (decompress extract : Bool)
      → ImageFits (ImageChecked e) i
      → Safe
          (Has i)
          (frame_of_image e o i thresh decompress extract)
          (λ _. Owns (ImageChecked e) nothing)
  unfolding frame_of_image
  frame_of_image-Safe none thresh decompress extract fit = fail-Safe null_read tt
  frame_of_image-Safe (some (p, m)) thresh decompress extract fit =
      bind-Safe (frame_of-Keeps (some (p, m)) m thresh decompress extract)
        λ r. bind-Safe (end_frame-Safe p m thresh fit.0) λ _. pure-Safe r (λ s x. x)

  -- Where all that the receiver owns is allocated, and its image is fit to be freed and checked, this is
  -- so after `getFrame`; which comes to an end, or crashes otherwise than by a wrong call of `free`.
  pub get_frame-Owns :
      (thresh : ℕ) (decompress extract : Bool) (s : State)
      → Owns (ImageChecked e) nothing s
      → Good
          (λ _. Owns (ImageChecked e) nothing)
          (get_frame e o thresh decompress extract s).0
          (get_frame e o thresh decompress extract s).1
  unfolding get_frame ◌>>=◌ get
  get_frame-Owns thresh decompress extract s owns =
      (frame_of_image-Safe s.image thresh decompress extract owns.1).run s (owns, refl)
