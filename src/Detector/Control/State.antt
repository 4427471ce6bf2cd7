-- ===== src/Detector/Control/State.antt =====
-- The state of `controlTask` of eigerApp/src/eigerDetector.cpp, the writes of clients and the other tasks.
use adeiger.Base.{
  ℕ, suc, ◌+◌, ◌-◌, ◌==◌, Bool, true, false, Option, none, some, String, List, [], ◌∷◌,
  if◌then◌else◌,
}
use adeiger.Base.Int.{ℤ}
use adeiger.Detector.Files.{Acquisition}

pub data DataSource : Type 0 where
  no_source filewriter stream : DataSource

pub data TriggerMode : Type 0 where
  ints inte exts exte continuous extg : TriggerMode

-- The values of `ADStatus` that the driver sets.
pub data Status : Type 0 where
  idle acquiring failed aborted : Status

-- The parameters that `controlTask` latches.
pub record Settings : Type 0 where
  pub data_source : DataSource
  pub trigger_mode : TriggerMode
  pub fw_enable : Bool
  pub stream_enable : Bool
  pub save_files : Bool
  pub remove_files : Bool
  pub manual_trigger : Bool
  pub images_per_file : ℕ
  pub num_images : ℕ
  pub num_triggers : ℕ
  pub pattern : List ℕ

-- Where `controlTask` is without the lock: at `mStartEvent.wait`; in `arm`; in the loop of triggers; in the
-- loop over the state of the detector; in `disarm`; in the loop over the state of the FileWriter; and at
-- the two last events.
pub data Phase : Type 0 where
  waiting arming triggering watching disarming fw_watching poll_waiting stream_waiting : Phase

-- `params` are the parameters as they are now, `latched` as they were at the start, with the number of
-- images of the mode. An event is whether it is signalled. `aborting` counts the writes of 0 that are in
-- the call of `abort`, without the lock.
pub record Control : Type 0 where
  pub phase : Phase
  pub status : Status
  pub acquire : Bool
  pub aborting : ℕ
  pub message : String
  pub params : Settings
  pub latched : Settings
  pub saved_num_images : ℕ
  pub sequence_id : ℤ
  pub armed : Bool
  pub num_images_counter : ℕ
  pub triggers : ℕ
  pub wait_poll : Bool
  pub wait_stream : Bool
  pub start_event : Bool
  pub stop_event : Bool
  pub trigger_event : Bool
  pub stream_event : Bool
  pub poll_done : Bool
  pub stream_done : Bool
  pub poll_stop : Bool
  pub poll_complete : Bool
  pub stream_complete : Bool
  pub poll_queue : Option Acquisition

-- What the lock is taken for by clients: a write to ADAcquire, a write of 0 that comes back from `abort`, a
-- write to the trigger, and one to other parameters.
pub data Write : Type 0 where
  to_acquire : Bool → Write
  abort_returns : Write
  to_trigger : Write
  to_params : Settings → Write

-- What happens while the lock is free, and what the driver is told next: whether `arm` works and with which
-- series, the frames that came, whether the detector and the FileWriter are still busy, whether the path
-- exists, and the ends of `pollTask` and `streamTask` with their results.
pub record Moment : Type 0 where
  pub writes : List Write
  pub series : Option ℤ
  pub images : ℕ
  pub busy : Bool
  pub fw_busy : Bool
  pub path_exists : Bool
  pub poll_end : Option Bool
  pub stream_end : Option Bool

abbrev pub is_acquiring : Status → Bool
is_acquiring acquiring = true
is_acquiring _ = false

-- `writeInt32`. A write of 0 that stops an acquisition frees the lock for the call of `abort`; what comes
-- after is `abort_returns`, which does nothing where no such call is under way.
unfoldable pub write_int32 : Write → Control → Control
write_int32 (to_acquire true) c =
    if is_acquiring c.status
    then record c { acquire = true }
    else record c { status = acquiring; start_event = true; acquire = true }
write_int32 (to_acquire false) c =
    if is_acquiring c.status
    then record c { status = aborted; aborting = suc c.aborting }
    else record c { acquire = false }
write_int32 abort_returns c =
    if c.aborting == 0
    then c
    else record c { aborting = c.aborting - 1; stop_event = true; acquire = false }
write_int32 to_trigger c = record c { trigger_event = true }
write_int32 (to_params p) c = record c { params = p }

unfoldable pub write_all : List Write → Control → Control
write_all [] c = c
write_all (w ∷ ws) c = write_all ws (write_int32 w c)

-- What the other tasks do.
unfoldable pub other_tasks : Moment → Control → Control
other_tasks m c = record c {
  num_images_counter = c.num_images_counter + m.images;
  poll_done = elim m.poll_end [ none ↦ c.poll_done | some b ↦ true ];
  poll_complete = elim m.poll_end [ none ↦ c.poll_complete | some b ↦ b ];
  stream_done = elim m.stream_end [ none ↦ c.stream_done | some b ↦ true ];
  stream_complete = elim m.stream_end [ none ↦ c.stream_complete | some b ↦ b ];
}

abbrev pub is_filewriter : DataSource → Bool
is_filewriter filewriter = true
is_filewriter _ = false

abbrev pub is_stream : DataSource → Bool
is_stream stream = true
is_stream _ = false

-- One image for each trigger.
abbrev pub is_single : TriggerMode → Bool
is_single inte = true
is_single exte = true
is_single _ = false

-- The driver sends the triggers.
abbrev pub sends_triggers : TriggerMode → Bool
sends_triggers ints = true
sends_triggers inte = true
sends_triggers continuous = true
sends_triggers _ = false

abbrev pub is_external : TriggerMode → Bool
is_external exts = true
is_external exte = true
is_external _ = false

abbrev pub is_continuous : TriggerMode → Bool
is_continuous continuous = true
is_continuous _ = false
