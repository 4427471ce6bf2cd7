-- ===== src/Stream2Api/Bounds.antt =====
-- `getFrame` of eigerApp/src/stream2Api.cpp writes within the array that it has allocated, and the name
-- of the compression fits its buffer.
use mathlib.Core.Option.{some-injective, none-ne-some}
use text.Mathlib.TextEquality.{eq_iff}
use adeiger.Base.{
  ℕ, zero, suc, ◌*◌, ◌^◌, ◌≤◌, ◌<◌, ◌≡◌, refl, subst, sym, ap, ◌∙◌, Bool, true, false, Bool-cases,
  inl, inr, Option, none, some, String, List, [], ◌∷◌, length, get_elem?, codes, str_eq, ltb, leb,
  ◌==◌, ◌||◌, if◌then◌else◌, arith,
}
use adeiger.Cbor.{Env, MovesForward}
use adeiger.Stream2.Memory.{CharPtr}
use adeiger.Stream2.Types.{TypedArray, HeapArray, ChannelArray, Bytes, ImageMsg}
use adeiger.Stream2.Arrays.{data_size}
use adeiger.Stream2.Triple.Arrays.{tag_size, CompressionChecked, no_wrap}
use adeiger.Stream2.Triple.Images.{All, ChannelChecked, ImageChecked}
use adeiger.Stream2Api.Outside.{DataType, uint8, uint16, uint32, Outside}
use adeiger.Stream2Api.Monad.{
  Crash, heap_fault, overflow, out_of_range, division, unset, Result, ok, crash, out_of_fuel,
  Receiver, M, pure, fail, get, modify, value_or, require, continue, ◌>>=◌, system, after,
  give_back,
}
use adeiger.Stream2.Memory.{Freed, freed, fault, Heap}
use adeiger.Stream2Api.Life.{new_receiver}
use adeiger.Stream2Api.Owns.{ImageFits}
use adeiger.Stream2Api.Owns.Calls.{Calls, Calls-IsSafe}
use adeiger.Stream2Api.Messages.{null_read, set_open}
use adeiger.Stream2Api.TimeStamp.{update_cache, extract_time_stamp}
use adeiger.Stream2Api.Frame.{
  data_type_of, elem_size, capacity, fits_encoding, copy_bytes, compressed_content, frame_content,
  time_stamp_if, threshold_number, image_data, fill_frame, typed_frame, frame_of, end_frame,
  frame_of_image, get_frame,
}

-- No write outside of an array; and `Q` of what is returned.
abbrev pub NotOverflow : Crash → Type 0
NotOverflow (heap_fault f) = Unit
NotOverflow overflow = ⊥
NotOverflow out_of_range = Unit
NotOverflow division = Unit
NotOverflow unset = Unit

abbrev pub NoOverflow : {A : Type 0} → (A → Type 0) → Result A → Type 0
NoOverflow Q (ok a) = Q a
NoOverflow Q (crash c) = NotOverflow c
NoOverflow Q out_of_fuel = Unit

abbrev pub AnyOf : {A : Type 0} → A → Type 0
AnyOf a = Unit

record Within {S A : Type 0} (Q : A → Type 0) (m : M S A) : Type 0 where
  run : (s : S) → NoOverflow Q (m s).0

module _ {S : Type 0} where
  pure-Within : {A : Type 0} {Q : A → Type 0} (a : A) → Q a → Within {S = S} Q (pure a)
  unfolding pure
  pure-Within a q = record { run = λ s. q }

  get-Within : Within {S = S} AnyOf get
  unfolding get
  get-Within = record { run = λ s. tt }

  modify-Within : (f : S → S) → Within AnyOf (modify f)
  unfolding modify
  modify-Within f = record { run = λ s. tt }

  require-Within : (b : Bool) → b ≡ true → Within {S = S} AnyOf (require b overflow)
  unfolding require pure
  require-Within b h = record { run = λ s. rw h tt }

  other-Within : (b : Bool) (c : Crash) → NotOverflow c → Within {S = S} AnyOf (require b c)
  unfolding require pure fail
  other-Within true c x = record { run = λ s. tt }
  other-Within false c x = record { run = λ s. x }

  if-Within :
      {A : Type 0} {Q : A → Type 0} (b : Bool) {m n : M S A}
      → Within Q m
      → Within Q n
      → Within Q (if b then m else n)
  if-Within true x y = x
  if-Within false x y = y

  module _ {A B : Type 0} {Q : A → Type 0} (R : B → Type 0) where
    continue-NoOverflow :
        (f : A → M S B)
        → ((a : A) → Q a → Within R (f a))
        → (r : Result A) (s : S) → NoOverflow Q r
        → NoOverflow R (continue r f s).0
    continue-NoOverflow f k (ok a) s x = (k a x).run s
    continue-NoOverflow f k (crash c) s x = x
    continue-NoOverflow f k out_of_fuel s x = x

  bind-Within :
      {A B : Type 0} {Q : A → Type 0} {R : B → Type 0} {m : M S A} {f : A → M S B}
      → Within Q m
      → ((a : A) → Q a → Within R (f a))
      → Within R (m >>= f)
  unfolding ◌>>=◌
  bind-Within {R} {m} {f} x k = record {
    run = λ s. continue-NoOverflow R f k (m s).0 (m s).1 (x.run s);
  }

weaken-Within :
    {S A : Type 0} {Q R : A → Type 0} {m : M S A} → Within Q m → ((a : A) → Q a → R a) → Within R m
weaken-Within {A = A} {Q = Q} {R = R} {m = m} x f = record { run = λ s. go (m s).0 (x.run s) }
  where
    go : (r : Result A) → NoOverflow Q r → NoOverflow R r
    go (ok a) y = f a y
    go (crash c) y = y
    go out_of_fuel y = y

value-Within :
    {S A : Type 0} (c : Crash)
    → NotOverflow c
    → (v : Option A) → Within {S = S} (λ a. v ≡ some a) (value_or c v)
unfolding value_or fail pure
value-Within c x none = record { run = λ s. x }
value-Within c x (some a) = record { run = λ s. refl }

same_size :
    (u t : DataType) (tag k : ℕ)
    → tag ≡ k
    → elem_size u ≡ tag_size k
    → some u ≡ some t
    → elem_size t ≡ tag_size tag
same_size u t tag k q size h =
    ap elem_size (sym (some-injective u t h)) ∙ size ∙ ap tag_size (sym q)

eq_of_test : (a b : ℕ) → (a == b) ≡ true → a ≡ b
eq_of_test a b h = ground arith

size_by_tests :
    (a b c : Bool) (tag : ℕ) (t : DataType)
    → (tag == 64) ≡ a
    → (tag == 69) ≡ b
    → (tag == 70) ≡ c
    → (if a then some uint8 else if b then some uint16 else if c then some uint32 else none)
      ≡ some t
    → elem_size t ≡ tag_size tag
size_by_tests true b c tag t x y z h = same_size uint8 t tag 64 (eq_of_test tag 64 x) refl h
size_by_tests false true c tag t x y z h = same_size uint16 t tag 69 (eq_of_test tag 69 y) refl h
size_by_tests false false true tag t x y z h =
    same_size uint32 t tag 70 (eq_of_test tag 70 z) refl h
size_by_tests false false false tag t x y z h = absurd (none-ne-some t h)

-- The elements of a type have the size that the tag says.
elem_size-data_type_of :
    (tag : ℕ) (t : DataType) → data_type_of tag ≡ some t → elem_size t ≡ tag_size tag
unfolding data_type_of
elem_size-data_type_of tag t h =
    size_by_tests (tag == 64) (tag == 69) (tag == 70) tag t refl refl refl h

right_of_or : (a b : Bool) → (a || b) ≡ true → a ≡ false → b ≡ true
right_of_or true b h q = cc
right_of_or false b h q = h

name_fits :
    (p : ℕ) (text name : String)
    → ltb (length (codes name)) 32 ≡ true
    → str_eq text name ≡ true
    → fits_encoding (some (p, text)) ≡ true
name_fits p text name short q =
    subst (λ s. ltb (length (codes s)) 32 ≡ true) (sym ((eq_iff text name).0 q)) short

algorithm_fits :
    (p : ℕ) (text : String)
    → (str_eq text "bslz4" || str_eq text "lz4") ≡ true
    → fits_encoding (some (p, text)) ≡ true
algorithm_fits p text h = elim (Bool-cases (str_eq text "bslz4")) [
  | inl q ↦ name_fits p text "bslz4" refl q
  | inr q ↦ name_fits p text "lz4" refl (right_of_or _ _ h q)
]

get_elem?-All :
    {A : Type 0} (C : A → Type 0) (l : List A) (i : ℕ) (a : A)
    → All C l
    → get_elem? l i ≡ some a
    → C a
get_elem?-All C [] i a x h = absurd (none-ne-some a h)
get_elem?-All C (b ∷ l) zero a x h = subst C (some-injective b a h) x.0
get_elem?-All C (b ∷ l) (suc i) a x h = get_elem?-All C l i a x.1 h

module _ (e : Env) (o : Outside) where
  open e use {Double}
  open o use {Net}

  encoding_fits :
      (b : Bytes) → CompressionChecked e b → fits_encoding b.compression.algorithm ≡ true
  encoding_fits b h =
      elim b.compression.algorithm
          as (λ a.
            CompressionChecked e (record b {
              compression = record {
                algorithm = a;
                elem_size = b.compression.elem_size;
                orig_size = b.compression.orig_size;
              };
            })
            → fits_encoding a ≡ true) [
              | none ↦ λ x. refl
              | some (p, text) ↦ λ x. algorithm_fits p text x.0
            ]
        h

  -- Both dimensions are below 2^32.
  abbrev pub IsSmall : ChannelArray → Type 0
  IsSmall c = (c.array.dim.0 < 2 ^ 32) × (c.array.dim.1 < 2 ^ 32)

  abbrev pub SmallImage : Option (ℕ × ImageMsg) → Type 0
  SmallImage none = Unit
  SmallImage (some (p, m)) = All IsSmall m.channel_data.items

  size_of_product : (w h k l size : ℕ) → w * h * k ≡ size → l ≡ k → size ≤ h * w * l
  size_of_product w h k l size x y = grind arith

  size_fits :
      (c : ChannelArray) (t : DataType)
      → ChannelChecked e c
      → IsSmall c
      → data_type_of c.array.array.tag ≡ some t
      → data_size c.array.array ≤ capacity (c.array.dim.1, c.array.dim.0) t
  size_fits c t checked small known =
      size_of_product c.array.dim.0 c.array.dim.1 _ _ _
        (no_wrap e c.array small.0 small.1 checked.0)
        (elem_size-data_type_of c.array.array.tag t known)

  abbrev State : Type 0
  State = Receiver Double Net

  le_test : (a b : ℕ) → a ≤ b → leb a b ≡ true
  le_test a b h = ground arith

  copy_bytes-Within :
      (size ptr len : ℕ) → len ≤ size → Within {S = State} AnyOf (copy_bytes e o size ptr len)
  unfolding copy_bytes
  copy_bytes-Within size ptr len le =
      bind-Within (require-Within (leb len size) (le_test len size le)) λ _ _. pure-Within _ tt

  -- The data fits, as long as it is not copied in its compressed form.
  content-Within :
      (size : ℕ) (a : TypedArray) (t : DataType)
      → data_size a ≤ size
      → Within {S = State} AnyOf (frame_content e o true size a.bytes t)
  unfolding frame_content compressed_content
  content-Within size a t le =
      elim a.bytes.compression.algorithm
          as (λ x.
            (elim x [ none ↦ a.bytes.len | some _ ↦ a.bytes.compression.orig_size ]) ≤ size
            → Within {S = State} AnyOf (elim x [
              | none ↦ copy_bytes e o size a.bytes.ptr a.bytes.len >>= λ copied.
                  pure (record { contents = copied; codec = none; compressed_size = none })
              | some (p, encoding) ↦ compressed_content e o true size a.bytes encoding t
            ])) [
              | none ↦
                  λ fits. bind-Within (copy_bytes-Within size _ _ fits) λ copied _. pure-Within _ tt
              | some (p, encoding) ↦ λ fits.
                  bind-Within (require-Within _ (le_test _ size fits)) λ _ _. pure-Within _ tt
            ]
        le

  update_cache-Within : (date : CharPtr) → Within {S = State} AnyOf (update_cache e o date)
  unfolding update_cache fail
  update_cache-Within none = record { run = λ s. tt }
  update_cache-Within (some (p, date)) =
      bind-Within get-Within λ s _. if-Within _ (pure-Within tt tt) (modify-Within _)

  time_stamp-Within :
      (extract : Bool) (m : ImageMsg) → Within {S = State} AnyOf (time_stamp_if e o extract m)
  unfolding time_stamp_if extract_time_stamp
  time_stamp-Within true m =
      bind-Within {Q = AnyOf}
        (bind-Within (update_cache-Within m.series_date) λ _ _.
          bind-Within (other-Within _ division tt)
            λ _ _. bind-Within get-Within λ s _. pure-Within _ tt)
        λ ts _. pure-Within _ tt
  time_stamp-Within false m = pure-Within _ tt

  threshold_number-Within : (c : CharPtr) → Within {S = State} AnyOf (threshold_number e o c)
  unfolding threshold_number fail
  threshold_number-Within none = record { run = λ s. tt }
  threshold_number-Within (some (p, channel)) =
      weaken-Within (value-Within unset tt (o.scan_threshold channel)) (λ a x. tt)

  image_data-Within :
      (a : HeapArray ChannelArray) (thresh : ℕ)
      → Within {S = State} (λ c. get_elem? a.items thresh ≡ some c) (image_data e o a thresh)
  unfolding image_data fail
  image_data-Within a thresh =
      elim a.ptr
        as (λ p.
          Within {S = State} (λ c. get_elem? a.items thresh ≡ some c)
            (elim p [
              | none ↦ fail null_read
              | some p ↦ value_or out_of_range (get_elem? a.items thresh)
            ])) [ none ↦ record { run = λ s. tt } | some p ↦ value-Within out_of_range tt _ ]

  module _ (m : ImageMsg) (c : ChannelArray) (thresh : ℕ) (extract : Bool) where
    fill_frame-Within :
        (t : DataType)
        → data_size c.array.array ≤ capacity (c.array.dim.1, c.array.dim.0) t
        → Within {S = State} AnyOf (fill_frame e o m c t thresh true extract)
    unfolding fill_frame
    fill_frame-Within t le = bind-Within (content-Within _ c.array.array t le) λ content _.
        bind-Within (time_stamp-Within extract m) λ ts _. bind-Within get-Within λ s _.
          bind-Within (value-Within out_of_range tt _) λ threshold _.
            bind-Within (threshold_number-Within threshold.channel) λ number _. pure-Within _ tt

    typed_frame-Within :
        (t : Option DataType)
        → ((u : DataType)
            → t ≡ some u
            → data_size c.array.array ≤ capacity (c.array.dim.1, c.array.dim.0) u)
        → Within {S = State} AnyOf (typed_frame e o m c thresh true extract t)
    unfolding typed_frame system
    typed_frame-Within none le = pure-Within _ tt
    typed_frame-Within (some t) le =
        bind-Within {Q = AnyOf} (record { run = λ s. tt })
          λ granted _. if-Within granted (fill_frame-Within t (le t refl)) (pure-Within _ tt)

  frame_of-Within :
      (m : ImageMsg) (thresh : ℕ) (extract : Bool)
      → ImageChecked e m
      → All IsSmall m.channel_data.items
      → Within {S = State} AnyOf (frame_of e o m thresh true extract)
  unfolding frame_of
  frame_of-Within m thresh extract checked small =
      bind-Within (image_data-Within m.channel_data thresh) λ c at.
        let c_checked = get_elem?-All (ChannelChecked e) m.channel_data.items thresh c checked at in
        let c_small = get_elem?-All IsSmall m.channel_data.items thresh c small at in
        bind-Within (require-Within _ (encoding_fits c.array.array.bytes c_checked.1)) λ _ _.
          typed_frame-Within m c thresh extract _ (λ u known. size_fits c u c_checked c_small known)

  give_back-Within : (f : Heap → Freed) → Within {S = State} AnyOf (give_back f)
  unfolding give_back
  give_back-Within f = record { run = λ s. after_any s (f s.heap) }
    where
      after_any : (s : State) (r : Freed) → NoOverflow AnyOf (after r s).0
      after_any s (freed h) = tt
      after_any s (fault g) = tt

  end_frame-Within :
      (p : ℕ) (m : ImageMsg) (thresh : ℕ) → Within {S = State} AnyOf (end_frame e o p m thresh)
  unfolding end_frame set_open
  end_frame-Within p m thresh = bind-Within get-Within λ s _.
      if-Within _
        (bind-Within (give_back-Within _)
          λ _ _. bind-Within (modify-Within _) λ _ _. modify-Within _)
        (pure-Within tt tt)

  frame_of_image-Within :
      (i : Option (ℕ × ImageMsg)) (thresh : ℕ) (extract : Bool)
      → ImageFits (ImageChecked e) i
      → SmallImage i
      → Within {S = State} AnyOf (frame_of_image e o i thresh true extract)
  unfolding frame_of_image fail
  frame_of_image-Within none thresh extract checked small = record { run = λ s. tt }
  frame_of_image-Within (some (p, m)) thresh extract checked small =
      bind-Within (frame_of-Within m thresh extract checked.1 small)
        λ r _. bind-Within (end_frame-Within p m thresh) λ _ _. pure-Within r tt

  -- After any calls of a new receiver that have returned, with an image whose dimensions are all below
  -- 2^32, `getFrame` that decompresses does not write outside of the array that it has allocated, nor
  -- outside of the buffer for the name of the compression.
  pub get_frame-NoOverflow :
      (forward : MovesForward e) (net : Net) (h : Heap) (unset_ts : ℕ × ℕ) (t : State)
      → Calls e o (new_receiver e o net h unset_ts) t
      → SmallImage t.image
      → (thresh : ℕ) (extract : Bool) → NoOverflow AnyOf (get_frame e o thresh true extract t).0
  unfolding get_frame ◌>>=◌ get
  get_frame-NoOverflow forward net h unset_ts t calls small thresh extract =
      (frame_of_image-Within t.image thresh extract
          (Calls-IsSafe e o forward net h unset_ts t calls).0.1 small).run
        t
