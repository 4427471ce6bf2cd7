-- ===== src/Stream2Api/Frame.antt =====
-- `uncompress` and `getFrame` of eigerApp/src/stream2Api.cpp.
use adeiger.Base.{
  ℕ, zero, suc, ◌+◌, ◌-◌, ◌*◌, ◌/◌, ◌%◌, ◌^◌, Bool, true, false, Option, none, some, String, List,
  [], ◌∷◌, length, get_elem?, leb, ltb, ◌==◌, str_eq, codes, if◌then◌else◌,
}
use adeiger.Base.Int.{ℤ}
use adeiger.Cbor.{Env}
use adeiger.Stream2.Memory.{CharPtr}
use adeiger.Stream2.Types.{HeapArray, ChannelArray, Bytes, ImageMsg, Msg}
use adeiger.Stream2.Free.{stream2_free_msg}
use adeiger.Stream2Api.Outside.{DataType, uint8, uint16, uint32, Outside}
use adeiger.Stream2Api.Monad.{
  overflow, out_of_range, unset, Status, success, error, Receiver, M, pure, fail, get, modify,
  value_or, require, ◌>>=◌, ◌>>◌, system, give_back,
}
use adeiger.Stream2Api.Messages.{null_read, set_open}
use adeiger.Stream2Api.TimeStamp.{extract_time_stamp}

pub data Codec : Type 0 where
  lz4hdf5 bslz4 : Codec

-- An `NDArray` with what is written to it.
pub record NdArray (D : Type 0) : Type 0 where
  pub dims : ℕ × ℕ
  pub data_type : DataType
  pub contents : List ℕ
  pub codec : Option Codec
  pub compressed_size : Option ℕ
  pub epics_ts : Option (ℕ × ℕ)
  pub threshold_number : ℤ
  pub threshold_energy : D

-- What is written for the data of a frame.
pub record Content : Type 0 where
  pub contents : List ℕ
  pub codec : Option Codec
  pub compressed_size : Option ℕ

abbrev pub elem_size : DataType → ℕ
elem_size uint8 = 1
elem_size uint16 = 2
elem_size uint32 = 4

-- Of the tags, `STREAM2_TYPED_ARRAY_UINT8` and two little-endian ones.
unfoldable pub data_type_of : ℕ → Option DataType
data_type_of tag =
    if tag == 64
    then some uint8
    else if tag == 69
    then some uint16
    else if tag == 70
    then some uint32
    else none

-- The size of the array that the pool has allocated.
abbrev pub capacity : ℕ × ℕ → DataType → ℕ
capacity dims t = dims.0 * dims.1 * elem_size t

-- `char encoding[32]`
abbrev pub encoding_size : ℕ
encoding_size = 32

abbrev pub fits_encoding : CharPtr → Bool
fits_encoding none = true
fits_encoding (some (p, text)) = ltb (length (codes text)) encoding_size

unfoldable pub codec_of : String → Option Codec
codec_of encoding =
    if str_eq encoding "lz4"
    then some lz4hdf5
    else if str_eq encoding "bslz4"
    then some bslz4
    else none

-- The bytes in front of the data of bslz4.
abbrev pub skipped : Option Codec → ℕ
skipped (some bslz4) = 12
skipped _ = 0

module _ (e : Env) (o : Outside) where
  open e use {Double}
  open o use {Net}

  abbrev Recv : Type 0 → Type 0
  Recv A = M (Receiver Double Net) A

  unfoldable pub read_bytes : ℕ → ℕ → List ℕ
  read_bytes ptr zero = []
  read_bytes ptr (suc n) = e.byte ptr ∷ read_bytes (ptr + 1) n

  -- `memcpy` to an array.
  unfoldable pub copy_bytes : ℕ → ℕ → ℕ → Recv (List ℕ)
  copy_bytes size ptr len = do require (leb len size) overflow; pure (read_bytes ptr len)

  -- What is in the array afterwards; the status is not looked at.
  unfoldable pub uncompress : ℕ → String → ℕ → DataType → List ℕ
  uncompress ptr encoding uncompressed_size t =
      if str_eq encoding "lz4"
      then (o.lz4 ptr uncompressed_size).1
      else if str_eq encoding "bslz4"
      then (o.bshuf (ptr + 12) (uncompressed_size / elem_size t) (elem_size t)).1
      else []

  unfoldable pub copy_compressed : ℕ → Bytes → Option Codec → Recv Content
  copy_compressed size b codec = do
    copied ← copy_bytes size (b.ptr + skipped codec) ((b.len + 2 ^ 64 - skipped codec) % 2 ^ 64)
    pure (record {
      contents = copied;
      codec = codec;
      compressed_size = some ((b.len + 2 ^ 64 - skipped codec) % 2 ^ 64);
    })

  -- The decompressors write the size that the data has without compression.
  unfoldable pub compressed_content : Bool → ℕ → Bytes → String → DataType → Recv Content
  compressed_content true size b encoding t = do
    require (leb b.compression.orig_size size) overflow
    pure (record {
      contents = uncompress b.ptr encoding b.compression.orig_size t;
      codec = none;
      compressed_size = none;
    })
  compressed_content false size b encoding t = copy_compressed size b (codec_of encoding)

  unfoldable pub frame_content : Bool → ℕ → Bytes → DataType → Recv Content
  frame_content decompress size b t = elim b.compression.algorithm [
    | none ↦ do
      copied ← copy_bytes size b.ptr b.len
      pure (record { contents = copied; codec = none; compressed_size = none })
    | some (p, encoding) ↦ compressed_content decompress size b encoding t
  ]

  unfoldable pub time_stamp_if : Bool → ImageMsg → Recv (Option (ℕ × ℕ))
  time_stamp_if true m = do ts ← extract_time_stamp e o m; pure (some ts)
  time_stamp_if false m = pure none

  -- The number in the name of a channel.
  unfoldable pub threshold_number : CharPtr → Recv ℤ
  threshold_number none = fail null_read
  threshold_number (some (p, channel)) = value_or unset (o.scan_threshold channel)

  -- The element `thresh` of `mImageMsg->data`.
  unfoldable pub image_data : HeapArray ChannelArray → ℕ → Recv ChannelArray
  image_data a thresh = elim a.ptr [
    | none ↦ fail null_read
    | some p ↦ value_or out_of_range (get_elem? a.items thresh)
  ]

  -- With an array from the pool.
  unfoldable pub fill_frame :
      ImageMsg → ChannelArray → DataType → ℕ → Bool → Bool → Recv (Status × Option (NdArray Double))
  fill_frame m c t thresh decompress extract = do
    let dims : ℕ × ℕ = (c.array.dim.1, c.array.dim.0)
    content ← frame_content decompress (capacity dims t) c.array.array.bytes t
    ts ← time_stamp_if extract m
    s ← get
    threshold ← value_or out_of_range (get_elem? s.thresholds thresh)
    number ← threshold_number threshold.channel
    pure (
      success,
      some (record {
        dims = dims;
        data_type = t;
        contents = content.contents;
        codec = content.codec;
        compressed_size = content.compressed_size;
        epics_ts = ts;
        threshold_number = number;
        threshold_energy = threshold.energy;
      }),
    )

  unfoldable pub typed_frame :
      ImageMsg
      → ChannelArray
      → ℕ
      → Bool
      → Bool
      → Option DataType
      → Recv (Status × Option (NdArray Double))
  typed_frame m c thresh decompress extract none = pure (error, none)
  typed_frame m c thresh decompress extract (some t) = do
    granted ← system (o.alloc (c.array.dim.1, c.array.dim.0) t)
    if granted then fill_frame m c t thresh decompress extract else pure (error, none)

  unfoldable pub frame_of : ImageMsg → ℕ → Bool → Bool → Recv (Status × Option (NdArray Double))
  frame_of m thresh decompress extract = do
    c ← image_data m.channel_data thresh
    require (fits_encoding c.array.array.bytes.compression.algorithm) overflow
    typed_frame m c thresh decompress extract (data_type_of c.array.array.tag)

  -- The label `error`: after the last threshold the message is given back.
  unfoldable pub end_frame : ℕ → ImageMsg → ℕ → Recv (Unit {0})
  end_frame p m thresh = do
    s ← get
    if thresh + 1 == s.num_thresholds
        then (do
          give_back (stream2_free_msg {D = Double} (Msg.image p m))
          modify (λ s. record s { image = none })
          set_open e o false)
        else pure tt

  unfoldable pub frame_of_image :
      Option (ℕ × ImageMsg) → ℕ → Bool → Bool → Recv (Status × Option (NdArray Double))
  frame_of_image none thresh decompress extract = fail null_read
  frame_of_image (some (p, m)) thresh decompress extract = do
    r ← frame_of m thresh decompress extract
    end_frame p m thresh
    pure r

  unfoldable pub get_frame : ℕ → Bool → Bool → Recv (Status × Option (NdArray Double))
  get_frame thresh decompress extract = do s ← get; frame_of_image s.image thresh decompress extract
