-- ===== src/Detector/Control/Tests.antt =====
-- Runs of `controlTask` of eigerApp/src/eigerDetector.cpp.
use adeiger.Base.{
  ℕ, ◌≤◌, take, arith, ◌≡◌, refl, true, false, none, some, [], ◌∷◌, codes, List, inl,
}
use adeiger.Base.Int.{pos}
use adeiger.Detector.Control.{
  filewriter, ints, inte, Settings, idle, acquiring, failed, aborted, waiting, arming, Control,
  to_acquire, abort_returns, Moment, write_int32, write_all, other_tasks, config_error, fail,
  start_control, of_mode, checked, begin, ceil_div, acquisition_of, trigger_message, watch,
  trigger_next, armed_now, after_arm, send_trigger, watch_again, restored, ended, finish,
  wait_stream_done, watch_fw, disarmed, after_disarm, after_poll, after_stream, resume,
  control_step, control,
}
use adeiger.Detector.Control.Spec.{Turns}
use adeiger.Detector.Control.Order.{Orderly}
use adeiger.Detector.Control.Orderly.{control-Orderly}
use adeiger.Detector.Control.Stopping.{Quiet, abort_ends}
use adeiger.Detector.Control.Stretches.{seen}
use adeiger.Detector.Control.Refinement.{writes_of, control-Turns}

abbrev settings : Settings
settings = record {
  data_source = filewriter;
  trigger_mode = ints;
  fw_enable = true;
  stream_enable = true;
  save_files = true;
  remove_files = true;
  manual_trigger = false;
  images_per_file = 1000;
  num_images = 2500;
  num_triggers = 1;
  pattern = codes "s_$id";
}

abbrev ready : Control
ready = record {
  phase = waiting;
  status = idle;
  acquire = false;
  aborting = 0;
  message = "Ready";
  params = settings;
  latched = settings;
  saved_num_images = 0;
  sequence_id = pos 0;
  armed = false;
  num_images_counter = 0;
  triggers = 0;
  wait_poll = false;
  wait_stream = false;
  start_event = false;
  stop_event = false;
  trigger_event = false;
  stream_event = false;
  poll_done = false;
  stream_done = false;
  poll_stop = false;
  poll_complete = false;
  stream_complete = false;
  poll_queue = none;
}

-- Nothing happens but that the detector is done.
abbrev calm : Moment
calm = record {
  writes = [];
  series = some (pos 7);
  images = 0;
  busy = false;
  fw_busy = false;
  path_exists = true;
  poll_end = some true;
  stream_end = none;
}

abbrev start : Moment
start = record calm { writes = to_acquire true ∷ [] }

abbrev stop : Moment
stop = record calm { writes = to_acquire false ∷ abort_returns ∷ [] }

abbrev turn : List Moment
turn = start ∷ calm ∷ calm ∷ calm ∷ calm ∷ []

-- One acquisition of three data files.
turn_end :
    ((control turn ready).phase ≡ waiting)
    × ((control turn ready).status ≡ idle)
    × ((control turn ready).acquire ≡ false)
    × ((control turn ready).poll_queue ≡ some (acquisition_of settings (pos 7)))
unfolding write_int32 write_all other_tasks config_error fail start_control of_mode checked begin
    trigger_message watch trigger_next armed_now after_arm send_trigger watch_again restored ended
    finish wait_stream_done watch_fw disarmed after_disarm after_poll after_stream resume
    control_step control
turn_end = (refl, refl, refl, refl)

three_files : (acquisition_of settings (pos 7)).n_data_files ≡ 3
unfolding acquisition_of ceil_div
three_files = refl

-- A client starts again while an aborted acquisition is wound up: the new one runs, but ADAcquire is 0.
abbrev restarted : List Moment
restarted = start ∷ calm ∷ stop ∷ start ∷ calm ∷ calm ∷ []

restarted_end :
    ((control restarted ready).status ≡ acquiring)
    × ((control restarted ready).phase ≡ arming)
    × ((control restarted ready).acquire ≡ false)
unfolding write_int32 write_all other_tasks config_error fail start_control of_mode checked begin
    trigger_message watch trigger_next armed_now after_arm send_trigger watch_again restored ended
    finish wait_stream_done watch_fw disarmed after_disarm after_poll after_stream resume
    control_step control
restarted_end = (refl, refl, refl)

-- A stop before the task has taken the start is lost.
abbrev start_stop : Moment
start_stop = record calm { writes = to_acquire true ∷ to_acquire false ∷ abort_returns ∷ [] }

stop_lost :
    ((control (start_stop ∷ []) ready).status ≡ acquiring)
    × ((control (start_stop ∷ []) ready).stop_event ≡ false)
unfolding write_int32 write_all other_tasks config_error fail start_control of_mode checked begin
    trigger_message watch trigger_next armed_now after_arm send_trigger watch_again restored ended
    finish wait_stream_done watch_fw disarmed after_disarm after_poll after_stream resume
    control_step control
stop_lost = (refl, refl)

-- When the detector cannot be armed, the number of images stays 1.
abbrev unarmed : List Moment
unarmed = start ∷ record calm { series = none } ∷ []

abbrev single : Control
single = record ready { params = record settings { trigger_mode = inte } }

unarmed_end :
    ((control unarmed single).status ≡ failed) × ((control unarmed single).params.num_images ≡ 1)
unfolding write_int32 write_all other_tasks config_error fail start_control of_mode checked begin
    trigger_message watch trigger_next armed_now after_arm send_trigger watch_again restored ended
    finish wait_stream_done watch_fw disarmed after_disarm after_poll after_stream resume
    control_step control
unarmed_end = (refl, refl)

-- While a write of 0 is in `abort`, the task may free the lock with no stop event pending; the event is
-- signalled when the call returns.
abbrev stopping : List Moment
stopping = start ∷ record calm { writes = to_acquire false ∷ [] } ∷ []

stopping_end :
    ((control stopping ready).status ≡ aborted)
    × ((control stopping ready).stop_event ≡ false)
    × ((write_int32 abort_returns (control stopping ready)).stop_event ≡ true)
unfolding write_int32 write_all other_tasks config_error fail start_control of_mode checked begin
    trigger_message watch trigger_next armed_now after_arm send_trigger watch_again restored ended
    finish wait_stream_done watch_fw disarmed after_disarm after_poll after_stream resume
    control_step control
stopping_end = (refl, refl, refl)

control-Turns_example : Turns (seen ready) (writes_of turn) (seen (control turn ready))
control-Turns_example = control-Turns turn ready refl

ready-Orderly : Orderly ready
ready-Orderly = record {
  armed = refl;
  stopping = λ e b. cc;
  sent = λ e. cc;
  next = λ e. cc;
  asked = λ e. cc;
}

control-Orderly_example : Orderly (control turn ready)
control-Orderly_example = control-Orderly turn ready ready-Orderly

-- The detector is being armed, and a client has aborted.
abbrev arming_aborted : Control
arming_aborted = record ready { phase = arming; status = aborted; stop_event = true }

arming_aborted-Orderly : Orderly arming_aborted
arming_aborted-Orderly = record {
  armed = refl;
  stopping = λ e b. inl refl;
  sent = λ e. cc;
  next = λ e. cc;
  asked = λ e. cc;
}

abbrev over : Moment
over = record calm { stream_end = some true; busy = true }

over-Quiet : Quiet over
over-Quiet = record {
  no_writes = refl;
  fw_done = refl;
  poll_over = (true, refl);
  stream_over = (true, refl);
}

abbrev six : List Moment
six = over ∷ over ∷ over ∷ over ∷ over ∷ over ∷ []

abort_ends_example : (k : ℕ) × (k ≤ 6) × ((control (take k six) arming_aborted).phase ≡ waiting)
abort_ends_example =
    abort_ends six arming_aborted
      (over-Quiet, (over-Quiet, (over-Quiet, (over-Quiet, (over-Quiet, (over-Quiet, tt))))))
      arming_aborted-Orderly refl refl (omega arith)
