-- ===== src/Stream2Api/Outside.antt =====
-- What eigerApp/src/stream2Api.cpp uses of its surroundings, besides the decoder and the allocator of
-- `Env`: ZeroMQ, the pool of arrays, the decompressors, `sscanf`, and the conversion of a date.
use adeiger.Base.{ℕ, Bool, List, Option, String}
use adeiger.Base.Int.{ℤ}

-- The result of `zmq_poll`.
pub data Polled : Type 0 where
  ready timed_out poll_failed : Polled

-- `NDDataType_t`
pub data DataType : Type 0 where
  uint8 uint16 uint32 : DataType

-- The arrays of `Env` are the memory of all messages. A message that is received has an address of its
-- own.
pub record Outside : Type 1 where
  pub Net : Type 0
  pub poll : ℕ → Net → Polled × Net
  -- the address and the size of the next message
  pub recv : Net → (ℕ × ℕ) × Net
  -- `NDArrayPool::alloc` grants an array of the two dimensions or not
  pub alloc : ℕ × ℕ → DataType → Net → Bool × Net
  -- `decompress_lz4hdf5` of the bytes at an address to so many bytes, and `bshuf_decompress_lz4` to so
  -- many elements of a size: whether it succeeds, and what it leaves in the array
  pub lz4 : ℕ → ℕ → Bool × List ℕ
  pub bshuf : ℕ → ℕ → ℕ → Bool × List ℕ
  -- `sscanf` with "threshold_%d"
  pub scan_threshold : String → Option ℤ
  -- `parseRfc3339Timestamp`, converted to an `epicsTimeStamp`: seconds and nanoseconds
  pub parse_date : String → ℕ × ℕ
