-- ===== src/StreamApi/Frame.antt =====
-- `uncompress` and `getFrame` of eigerApp/src/streamApi.cpp.
use adeiger.Base.{
  ℕ, ◌+◌, ◌-◌, ◌*◌, ◌/◌, ◌%◌, ◌^◌, Bool, true, false, Option, none, some, List, [], ◌++◌, length,
  take, drop, leb, ◌||◌, codes, if◌then◌else◌,
}
use adeiger.Stream2.Memory.{Fault}
use adeiger.Stream2Api.Outside.{DataType, uint8, uint16, uint32}
use adeiger.Stream2Api.Monad.{
  heap_fault, overflow, unset, M, pure, fail, require, value_or, ◌>>=◌, ◌>>◌,
}
use adeiger.Stream2Api.Frame.{elem_size}
use adeiger.StreamApi.Outside.{Outside}
use adeiger.StreamApi.Monad.{Status, success, error, Receiver, system, msg_init, msg_close}
use adeiger.StreamApi.Tokens.{ShapeRead, dims, partial, behind, read_size, read_chars, read_shape}
use adeiger.StreamApi.Messages.{same_bytes, starts_with}

pub data Codec : Type 0 where
  lz4 bslz4 : Codec

-- What is written to the `NDArray`.
pub record Frame : Type 0 where
  pub shape : ℕ × ℕ
  pub data_type : DataType
  pub contents : List ℕ
  pub codec : Option Codec
  pub compressed_size : Option ℕ

unfoldable pub frame_type : List ℕ → Option DataType
frame_type type =
    if starts_with type (codes "uint32")
    then some uint32
    else if starts_with type (codes "uint16")
    then some uint16
    else if starts_with type (codes "uint8")
    then some uint8
    else none

unfoldable pub uncompressed_size : ℕ × ℕ → DataType → ℕ
uncompressed_size shape t = ((shape.0 * shape.1) % 2 ^ 64 * elem_size t) % 2 ^ 64

abbrev pub is_bitshuffle : List ℕ → Bool
is_bitshuffle encoding =
    same_bytes encoding (codes "bs32-lz4<")
    || same_bytes encoding (codes "bs16-lz4<")
    || same_bytes encoding (codes "bs8-lz4<")

unfoldable pub codec_of : List ℕ → Option Codec
codec_of encoding =
    if same_bytes encoding (codes "lz4<")
    then some lz4
    else if is_bitshuffle encoding
    then some bslz4
    else none

abbrev pub skipped : Option Codec → ℕ
skipped (some bslz4) = 12
skipped _ = 0

-- What `recv` leaves of an array.
abbrev pub received : List ℕ → List ℕ → List ℕ
received bytes old = bytes ++ drop (length bytes) old

module _ (o : Outside) where
  open o use {Net, Json}

  abbrev Recv : Type 0 → Type 0
  Recv A = M (Receiver Net) A

  -- What is in the array afterwards; the status is not looked at.
  unfoldable pub uncompress : List ℕ → List ℕ → ℕ → DataType → List ℕ
  uncompress input encoding size t =
      if same_bytes encoding (codes "lz4<")
      then o.lz4 input size
      else if is_bitshuffle encoding
      then o.bshuf (drop 12 input) (size / elem_size t) (elem_size t)
      else []

  -- The array has `size` bytes.
  unfoldable pub copy_compressed :
      List ℕ → ℕ → ℕ → Option Codec → (List ℕ → Option ℕ → Frame) → Recv Frame
  copy_compressed input len size codec make = do
    require (leb ((len + 2 ^ 64 - skipped codec) % 2 ^ 64) size) overflow
    pure (
        make (take ((len + 2 ^ 64 - skipped codec) % 2 ^ 64) (drop (skipped codec) input))
          (some ((len + 2 ^ 64 - skipped codec) % 2 ^ 64)))

  unfoldable pub compressed_frame : Bool → ℕ × ℕ → DataType → List ℕ → ℕ → List ℕ → Recv Frame
  compressed_frame true shape t encoding len input = pure (record {
    shape = shape;
    data_type = t;
    contents = uncompress input encoding (uncompressed_size shape t) t;
    codec = none;
    compressed_size = none;
  })
  compressed_frame false shape t encoding len input =
      copy_compressed input len (uncompressed_size shape t) (codec_of encoding) (λ contents size.
        record {
          shape = shape;
          data_type = t;
          contents = contents;
          codec = codec_of encoding;
          compressed_size = size;
        })

  -- `zmq_recv` cuts a message off at the size of the buffer.
  unfoldable pub receive_data : Bool → ℕ × ℕ → DataType → List ℕ → ℕ → Recv Frame
  receive_data decompress shape t encoding len =
      if same_bytes encoding (codes "<")
      then (do
        bytes ← system o.recv
        pure (record {
          shape = shape;
          data_type = t;
          contents = take (uncompressed_size shape t) bytes;
          codec = none;
          compressed_size = none;
        }))
      else (do
        granted ← system (o.malloc len)
        temp ← value_or (heap_fault Fault.null_deref) granted
        bytes ← system o.recv
        compressed_frame decompress shape t encoding len (received (take len bytes) temp))

  unfoldable pub fill_frame : Bool → ℕ × ℕ → DataType → List ℕ → ℕ → Recv (Status × Option Frame)
  fill_frame decompress shape t encoding len = do
    frame ← receive_data decompress shape t encoding len
    msg_init
    time_stamp ← system o.recv
    msg_close
    pure (success, some frame)

  unfoldable pub typed_frame :
      Bool → ℕ × ℕ → Option DataType → List ℕ → ℕ → Recv (Status × Option Frame)
  typed_frame decompress shape none encoding len = pure (error, none)
  typed_frame decompress shape (some t) encoding len = do
    granted ← system (o.alloc shape t)
    if granted then fill_frame decompress shape t encoding len else pure (error, none)

  -- What the message with the shape says. The numbers are used only where all tokens are read.
  unfoldable pub shaped_frame :
      Bool → ShapeRead → Option (List ℕ) → Option (List ℕ) → Option ℕ → Recv (Status × Option Frame)
  shaped_frame decompress behind type encoding len = fail overflow
  shaped_frame decompress (dims x y) (some type) (some encoding) (some len) =
      typed_frame decompress (x, y) (frame_type type) encoding len
  shaped_frame decompress partial (some type) (some encoding) (some len) = fail unset
  shaped_frame decompress _ _ _ _ = pure (error, none)

  unfoldable pub json_frame : Bool → Option Json → Recv (Status × Option Frame)
  json_frame decompress none = pure (error, none)
  json_frame decompress (some json) =
      shaped_frame decompress (read_shape o json "shape") (read_chars o json "type" 8)
        (read_chars o json "encoding" 32) (read_size o json "size")

  unfoldable pub get_frame : Bool → Recv (Status × Option Frame)
  get_frame decompress = do
    msg_init
    bytes ← system o.recv
    r ← json_frame decompress (o.parse_json bytes)
    msg_close
    pure r
