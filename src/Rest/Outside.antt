-- ===== src/Rest/Outside.antt =====
-- What eigerApp/src/restApi.cpp uses of its surroundings: the operating system's sockets with the
-- detector behind them, the heap, the clock, `sscanf` and `printf`, and the JSON parser frozen.
use adeiger.Base.{ℕ, Bool, Option, List}
use adeiger.Base.Int.{ℤ}

-- `::connect` of a socket that does not block.
pub data Connected : Type 0 where
  connected in_progress refused : Connected

pub record Outside : Type 1 where
  pub Net : Type 0
  -- `epicsSocketCreate`; the two calls of `fcntl`; `::connect`; `select` for writing
  pub create : Net → Option ℕ × Net
  pub set_blocking : ℕ → Bool → Net → Net
  pub connect : ℕ → Net → Connected × Net
  pub wait_writable : ℕ → Net → Bool × Net
  pub destroy : ℕ → Net → Net
  -- `send` succeeds or not; `select` for reading, with a timeout in seconds
  pub send : ℕ → List ℕ → Net → Bool × Net
  pub wait_readable : ℕ → ℕ → Net → Bool × Net
  -- `recv` of so many bytes at most: no bytes stand for a result that is 0 or below
  pub recv : ℕ → ℕ → Net → List ℕ × Net
  pub close : ℕ → Net → Net
  -- `malloc` of so many bytes
  pub malloc : ℕ → Net → Bool × Net
  -- what an array on the stack holds before it is written
  pub garbage : Net → List ℕ
  -- the seconds since the start of a measurement, and whether they are below a timeout
  pub Seconds : Type 0
  pub zero_seconds : Seconds
  pub clock : Net → Seconds × Net
  pub within : Seconds → Seconds → Seconds → Bool
  pub sleep_rest : Seconds → Seconds → Seconds → Net → Net
  pub is_zero : Seconds → Bool
  -- `sscanf` with "%*s %d", "%lu", "%d" and "%s"
  pub scan_code : List ℕ → Option ℤ
  pub scan_length : List ℕ → Option ℕ
  pub scan_int : List ℕ → Option ℤ
  pub scan_word : List ℕ → Option (List ℕ)
  -- `printf` with "%d", "%06d", "%lu" and "%lf"
  pub show_int : ℤ → List ℕ
  pub show_six : ℕ → List ℕ
  pub show_length : ℕ → List ℕ
  pub show_seconds : Seconds → List ℕ
  -- frozen: the text of a member of an object, if the text is an object
  pub Json : Type 0
  pub parse_json : List ℕ → Option Json
  pub is_object : Json → Bool
  pub find : Json → List ℕ → Option (List ℕ)
