-- ===== src/Stream2Api/TimeStamp.antt =====
-- `extractTimeStampFromMessage` of eigerApp/src/stream2Api.cpp.
use adeiger.Base.{ℕ, ◌+◌, ◌*◌, ◌/◌, ◌%◌, ◌^◌, none, some, not, str_eq, ◌==◌, if◌then◌else◌}
use adeiger.Cbor.{Env}
use adeiger.Stream2.Memory.{Fault, CharPtr}
use adeiger.Stream2.Types.{ImageMsg}
use adeiger.Stream2Api.Outside.{Outside}
use adeiger.Stream2Api.Monad.{
  heap_fault, division, Receiver, M, pure, fail, get, modify, require, ◌>>=◌, ◌>>◌,
}

abbrev pub nsec_per_sec : ℕ
nsec_per_sec = 1000000000

-- The time that so many ticks of a clock take, in nanoseconds.
unfoldable pub elapsed_ns : ℕ → ℕ → ℕ
elapsed_ns ticks time_base = (nsec_per_sec * ticks) % 2 ^ 64 / time_base

-- The members of an `epicsTimeStamp` have 32 bits.
unfoldable pub add_elapsed : ℕ × ℕ → ℕ → ℕ × ℕ
add_elapsed (sec, nsec) elapsed =
    let frame_nsec : ℕ = (nsec + elapsed) % 2 ^ 64 in
    ((sec + frame_nsec / nsec_per_sec) % 2 ^ 64 % 2 ^ 32, frame_nsec % nsec_per_sec % 2 ^ 32)

module _ (e : Env) (o : Outside) where
  open e use {Double}
  open o use {Net}

  -- The date of the series is parsed when it is not that of before.
  unfoldable pub update_cache : CharPtr → M (Receiver Double Net) (Unit {0})
  update_cache none = fail (heap_fault Fault.null_deref)
  update_cache (some (p, date)) = do
    s ← get
    if str_eq s.cached_ts.0 date
        then pure tt
        else modify (λ s. record s { cached_ts = (date, o.parse_date date) })

  unfoldable pub extract_time_stamp : ImageMsg → M (Receiver Double Net) (ℕ × ℕ)
  extract_time_stamp m = do
    update_cache m.series_date
    require (not (m.start_time.1 == 0)) division
    s ← get
    pure (add_elapsed s.cached_ts.1 (elapsed_ns m.start_time.0 m.start_time.1))
