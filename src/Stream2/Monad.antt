-- ===== src/Stream2/Monad.antt =====
-- The shape of a function of eigerApp/src/stream2.c: it reads and writes the heap and the structure
-- behind its out-parameter, and ends with `STREAM2_OK` and the moved iterator or with an error. What
-- was written before an error stays written. `out_of_fuel` is the end of a loop's fuel.
use adeiger.Base.{Bool, if◌then◌else◌}
use adeiger.Cbor.{CborError, Reply, done, failed}
use adeiger.Stream2.Memory.{Heap}
use adeiger.Stream2.Types.{Stream2Error}

pub data Outcome (A : Type 0) : Type 0 where
  ok : A → Outcome A
  err : Stream2Error → Outcome A
  out_of_fuel : Outcome A

abbrev pub M : Type 0 → Type 0 → Type 0
M S A = Heap → S → Outcome A × Heap × S

-- `CBOR_RESULT` on an error code.
unfoldable pub cbor_result : CborError → Stream2Error
cbor_result CborError.unknown_length = Stream2Error.parse
cbor_result CborError.data_too_large = Stream2Error.parse
cbor_result CborError.out_of_memory = Stream2Error.out_of_memory
cbor_result (CborError.other c) = Stream2Error.decode

module _ {S : Type 0} where
  unfoldable pub pure : {A : Type 0} → A → M S A
  pure a h s = (ok a, h, s)

  unfoldable pub fail : {A : Type 0} → Stream2Error → M S A
  fail e h s = (err e, h, s)

  unfoldable pub diverge : {A : Type 0} → M S A
  diverge h s = (out_of_fuel, h, s)

  -- `if ((r = CBOR_RESULT(...))) return r;`
  unfoldable pub reply : {A : Type 0} → Reply A → M S A
  reply (done a) = pure a
  reply (failed e) = fail (cbor_result e)

  -- `if (!b) return e;`
  unfoldable pub require : Bool → Stream2Error → M S (Unit {0})
  require b e = if b then pure tt else fail e

  unfoldable pub get : M S S
  get h s = (ok s, h, s)

  unfoldable pub modify : (S → S) → M S (Unit {0})
  modify f h s = (ok tt, h, f s)

  abbrev pub continue : {A B : Type 0} → Outcome A → (A → M S B) → M S B
  continue (ok a) f h s = f a h s
  continue (err e) f h s = (err e, h, s)
  continue out_of_fuel f h s = (out_of_fuel, h, s)

  infixl 5 ◌>>=◌ ◌>>◌
  unfoldable pub ◌>>=◌ : {A B : Type 0} → M S A → (A → M S B) → M S B
  ◌>>=◌ m f h s = let (r, h', s') = m h s in continue r f h' s'

  abbrev pub ◌>>◌ : {A B : Type 0} → M S A → M S B → M S B
  m >> k = m >>= λ _. k

-- A member of a structure.
pub record Field (T S : Type 0) : Type 0 where
  pub view : T → S
  pub update : S → T → T

-- A call that is handed `&t->field`.
unfoldable pub at : {T S A : Type 0} → Field T S → M S A → M T A
at f m h t = let (r, h', s) = m h (f.view t) in (r, h', f.update s t)

abbrev pub with_variable : {A S : Type 0} → Outcome A → S → Outcome (A × S)
with_variable (ok a) s = ok (a, s)
with_variable (err e) s = err e
with_variable out_of_fuel s = out_of_fuel

-- A call that is handed the address of a local variable, with the variable's last value.
unfoldable pub local : {T S A : Type 0} → S → M S A → M T (A × S)
local init m h t = let (r, h', s) = m h init in (with_variable r s, h', t)
