-- ===== src/Stream2Api/Monad.antt =====
-- The state of a `Stream2API` of eigerApp/src/stream2Api.cpp, and the shape of its methods.
use adeiger.Base.{ℕ, suc, Bool, Option, none, some, String, List, ◌∷◌, if◌then◌else◌}
use adeiger.Stream2.Memory.{Heap, CharPtr, Freed, freed, fault, Fault}
use adeiger.Stream2.Types.{
  Stream2Error, out_of_memory, signature, decode, parse, not_implemented, ImageMsg, ThresholdEnergy,
}

-- What C++ leaves undefined.
pub data Crash : Type 0 where
  -- a fault of `free`, or a read through `NULL`
  heap_fault : Fault → Crash
  -- a write behind the end of an array, an index out of range, a division by 0
  overflow out_of_range division : Crash
  -- a variable that was never written
  unset : Crash

pub data Result (A : Type 0) : Type 0 where
  ok : A → Result A
  crash : Crash → Result A
  -- the end of the fuel of `stream2_parse_msg`
  out_of_fuel : Result A

-- `enum stream_err`, or the error of `stream2_parse_msg`.
pub data Status : Type 0 where
  success timeout error : Status
  refused : Stream2Error → Status

unfoldable pub error_code : Stream2Error → ℕ
error_code out_of_memory = 1
error_code signature = 2
error_code decode = 3
error_code parse = 4
error_code not_implemented = 5

-- The `int` that a method returns: `STREAM_WRONG_HTYPE` would be 2.
unfoldable pub status_code : Status → ℕ
status_code success = 0
status_code timeout = 1
status_code error = 3
status_code (refused err) = error_code err

-- The members of the class. `msg_open` says that `mMsg` is initialised and not closed.
pub record Receiver (D N : Type 0) : Type 0 where
  pub net : N
  pub heap : Heap
  pub msg_open : Bool
  pub image : Option (ℕ × ImageMsg)
  pub num_thresholds : ℕ
  pub series_id : ℕ
  pub image_dtype : CharPtr
  pub image_size : ℕ × ℕ
  pub number_of_images : ℕ
  pub thresholds : List (ThresholdEnergy D)
  pub cached_ts : String × (ℕ × ℕ)

abbrev pub M : Type 0 → Type 0 → Type 0
M S A = S → Result A × S

module _ {S : Type 0} where
  unfoldable pub pure : {A : Type 0} → A → M S A
  pure a s = (ok a, s)

  unfoldable pub fail : {A : Type 0} → Crash → M S A
  fail c s = (crash c, s)

  unfoldable pub diverge : {A : Type 0} → M S A
  diverge s = (out_of_fuel, s)

  unfoldable pub get : M S S
  get s = (ok s, s)

  unfoldable pub modify : (S → S) → M S (Unit {0})
  modify f s = (ok tt, f s)

  abbrev pub continue : {A B : Type 0} → Result A → (A → M S B) → M S B
  continue (ok a) f s = f a s
  continue (crash c) f s = (crash c, s)
  continue out_of_fuel f s = (out_of_fuel, s)

  infixl 5 ◌>>=◌ ◌>>◌
  unfoldable pub ◌>>=◌ : {A B : Type 0} → M S A → (A → M S B) → M S B
  ◌>>=◌ m f s = let (r, s') = m s in continue r f s'

  abbrev pub ◌>>◌ : {A B : Type 0} → M S A → M S B → M S B
  m >> k = m >>= λ _. k

  -- An expression that has a value or is undefined.
  unfoldable pub value_or : {A : Type 0} → Crash → Option A → M S A
  value_or c none = fail c
  value_or c (some a) = pure a

  unfoldable pub require : Bool → Crash → M S (Unit {0})
  require b c = if b then pure tt else fail c

module _ {D N : Type 0} where
  unfoldable pub system : {A : Type 0} → (N → A × N) → M (Receiver D N) A
  system f s = let (a, net) = f s.net in (ok a, record s { net = net })

  abbrev pub after : Freed → M (Receiver D N) (Unit {0})
  after (freed h) s = (ok tt, record s { heap = h })
  after (fault f) s = (crash (heap_fault f), s)

  -- A call of `free` or of `stream2_free_msg`.
  unfoldable pub give_back : (Heap → Freed) → M (Receiver D N) (Unit {0})
  give_back f s = after (f s.heap) s

  -- `epicsStrDup`, whose allocation is always granted.
  unfoldable pub str_dup : CharPtr → M (Receiver D N) CharPtr
  str_dup none s = (crash (heap_fault Fault.null_deref), s)
  str_dup (some (p, text)) s = (
    ok (some (s.heap.next, text)),
    record s { heap = record { next = suc s.heap.next; live = s.heap.next ∷ s.heap.live } },
  )
