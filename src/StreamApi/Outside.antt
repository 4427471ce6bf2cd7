-- ===== src/StreamApi/Outside.antt =====
-- What eigerApp/src/streamApi.cpp uses of its surroundings: ZeroMQ, the JSON parser frozen, the heap, the
-- pool of arrays, and the decompressors. A text is a list of bytes.
use adeiger.Base.{ℕ, Bool, List, Option, String}
use adeiger.Stream2Api.Outside.{Polled, DataType}

-- A `json_token`: its text, all that stands from its first byte on, and the same of the tokens below it.
pub record Token : Type 0 where
  pub text : List ℕ
  pub onwards : List ℕ
  pub below : List (List ℕ)

pub record Outside : Type 1 where
  pub Net : Type 0
  pub poll : ℕ → Net → Polled × Net
  -- the bytes of the next message
  pub recv : Net → List ℕ × Net
  pub Json : Type 0
  pub parse_json : List ℕ → Option Json
  pub find : Json → String → Option Token
  -- `sscanf` with "%lu"
  pub scan_size : List ℕ → Option ℕ
  -- `malloc` of so many bytes, and what they hold before they are written
  pub malloc : ℕ → Net → Option (List ℕ) × Net
  -- `NDArrayPool::alloc`
  pub alloc : ℕ × ℕ → DataType → Net → Bool × Net
  -- `LZ4_decompress_fast` to so many bytes and `bshuf_decompress_lz4` to so many elements of a size: what
  -- they leave in the array
  pub lz4 : List ℕ → ℕ → List ℕ
  pub bshuf : List ℕ → ℕ → ℕ → List ℕ
