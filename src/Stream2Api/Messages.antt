-- ===== src/Stream2Api/Messages.antt =====
-- `getHeader` and `waitFrame` of eigerApp/src/stream2Api.cpp.
use adeiger.Base.{ℕ, zero, suc, Bool, true, false, Option, none, some, List, [], ◌∷◌, ◌++◌, length}
use adeiger.Cbor.{Env}
use adeiger.Stream2.Memory.{CharPtr, block, Fault, free}
use adeiger.Stream2.Types.{Stream2Error, HeapArray, ThresholdEnergy, StartMsg, ImageMsg, Msg}
use adeiger.Stream2.Free.{stream2_free_msg}
use adeiger.Stream2.Parse.{Parsed, parsed, refused, crashed, no_fuel, stream2_parse_msg}
use adeiger.Stream2Api.Outside.{Polled, ready, timed_out, poll_failed, Outside}
use adeiger.Stream2Api.Monad.{
  Crash, heap_fault, Result, Status, success, timeout, error, Receiver, M, pure, fail, modify,
  ◌>>=◌, ◌>>◌, system, give_back, str_dup,
}

-- What `waitFrame` returns: its status, `*end`, and `*numThresholds` if it is written.
pub record Waited : Type 0 where
  pub status : Status
  pub end : Bool
  pub num_thresholds : Option ℕ

abbrev pub null_read : Crash
null_read = heap_fault Fault.null_deref

module _ (e : Env) (o : Outside) where
  open e use {Double}
  open o use {Net}

  abbrev Recv : Type 0 → Type 0
  Recv A = M (Receiver Double Net) A

  abbrev poll_result : Polled → Status
  poll_result ready = success
  poll_result timed_out = timeout
  poll_result poll_failed = error

  -- `poll`, which takes seconds.
  unfoldable pub poll : ℕ → Recv Status
  poll seconds = do answer ← system (o.poll seconds); pure (poll_result answer)

  -- `if(timeout && (err = poll(timeout))) return err;`
  unfoldable pub poll_first : ℕ → Recv Status
  poll_first zero = pure success
  poll_first (suc n) = poll (suc n)

  unfoldable pub set_open : Bool → Recv (Unit {0})
  set_open b = modify (λ s. record s { msg_open = b })

  -- What `stream2_parse_msg` returns in the state.
  unfoldable pub take_parsed : Parsed Double → Recv (Option Stream2Error × Msg Double)
  take_parsed (parsed msg h) s = (Result.ok (none, msg), record s { heap = h })
  take_parsed (refused err h) s = (Result.ok (some err, Msg.null), record s { heap = h })
  take_parsed (crashed f) s = (Result.crash (heap_fault f), s)
  take_parsed no_fuel s = (Result.out_of_fuel, s)

  -- The next message, parsed. Each byte of it gives a unit of fuel.
  unfoldable pub receive : Recv (Option Stream2Error × Msg Double)
  receive = do
    set_open true
    (buffer, size) ← system o.recv
    λ s. take_parsed (stream2_parse_msg e size buffer size s.heap) s

  unfoldable pub free_thresholds : List (ThresholdEnergy Double) → Recv (Unit {0})
  free_thresholds [] = pure tt
  free_thresholds (t ∷ thresholds) = do
    give_back (free (block t.channel))
    free_thresholds thresholds

  unfoldable pub push_threshold : ThresholdEnergy Double → Recv (Unit {0})
  push_threshold t = do
    channel ← str_dup t.channel
    modify (λ s. record s { thresholds = s.thresholds ++ (record t { channel = channel } ∷ []) })

  unfoldable pub push_thresholds : List (ThresholdEnergy Double) → Recv (Unit {0})
  push_thresholds [] = pure tt
  push_thresholds (t ∷ thresholds) = do push_threshold t; push_thresholds thresholds

  unfoldable pub copy_thresholds : HeapArray (ThresholdEnergy Double) → Recv (Unit {0})
  copy_thresholds a = elim a.ptr [
    | some p ↦ push_thresholds a.items
    | none ↦ elim a.items [ [] ↦ pure tt | _ ∷ _ ↦ fail null_read ]
  ]

  unfoldable pub set_image_dtype : CharPtr → Recv (Unit {0})
  set_image_dtype image_dtype = do
    λ s. give_back (free (block s.image_dtype)) s
    copy ← str_dup image_dtype
    modify (λ s. record s { image_dtype = copy })

  unfoldable pub set_thresholds : HeapArray (ThresholdEnergy Double) → Recv (Unit {0})
  set_thresholds a = do
    λ s. free_thresholds s.thresholds s
    modify (λ s. record s { thresholds = [] })
    copy_thresholds a

  unfoldable pub keep_start : StartMsg Double → Recv (Unit {0})
  keep_start m = do
    modify (λ s. record s { series_id = m.series_id })
    set_image_dtype m.image_dtype
    modify (λ s. record s {
      image_size = (m.image_size_x, m.image_size_y);
      number_of_images = m.number_of_images;
    })
    set_thresholds m.threshold_energy

  -- A message that is read by its type.
  unfoldable pub read_start : Msg Double → Recv Status
  read_start Msg.null = fail null_read
  read_start (Msg.start p m) = do keep_start m; pure success
  read_start (Msg.image p m) = pure error
  read_start (Msg.end p m) = pure error

  unfoldable pub read_header : Option Stream2Error × Msg Double → Recv Status
  read_header (some err, msg) = pure (Status.refused err)
  read_header (none, msg) = do
    status ← read_start msg
    give_back (stream2_free_msg msg)
    pure status

  unfoldable pub header_after : Status → Recv Status
  header_after success = do
    message ← receive
    status ← read_header message
    set_open false
    pure status
  header_after status = pure status

  unfoldable pub get_header : ℕ → Recv Status
  get_header seconds = do status ← poll_first seconds; header_after status

  abbrev pub waited : Status → Waited
  waited status = record { status = status; end = false; num_thresholds = none }

  -- A message that is not kept.
  unfoldable pub drop_message : Msg Double → Waited → Recv Waited
  drop_message msg w = do give_back (stream2_free_msg msg); set_open false; pure w

  unfoldable pub keep_image : ℕ → ImageMsg → Recv Waited
  keep_image p m = do
    modify (λ s. record s { image = some (p, m); num_thresholds = length m.channel_data.items })
    pure (record {
      status = success;
      end = false;
      num_thresholds = some (length m.channel_data.items);
    })

  unfoldable pub read_frame : Option Stream2Error × Msg Double → Recv Waited
  read_frame (some err, msg) = pure (waited (Status.refused err))
  read_frame (none, Msg.null) = fail null_read
  read_frame (none, Msg.image p m) = keep_image p m
  read_frame (none, Msg.end p m) =
      drop_message (Msg.end p m) (record (waited success) { end = true })
  read_frame (none, Msg.start p m) = drop_message (Msg.start p m) (waited error)

  unfoldable pub frame_after : Status → Recv Waited
  frame_after success = do message ← receive; read_frame message
  frame_after status = pure (waited status)

  unfoldable pub wait_frame : ℕ → Recv Waited
  wait_frame seconds = do status ← poll_first seconds; frame_after status
