-- ===== src/Detector/Control.antt =====
-- `controlTask` and the writes of `writeInt32` that it reacts to, of eigerApp/src/eigerDetector.cpp.
pub mod State
pub mod Start
pub mod Spec
pub mod Stretches
pub mod Refinement
pub mod Order
pub mod Orderly
pub mod Stopping
mod Tests
use adeiger.Base.{
  ℕ, suc, ◌+◌, ◌*◌, ◌-◌, ◌/◌, Bool, true, false, not, ◌&&◌, ◌||◌, ◌==◌, ltb, leb, Option, none,
  some, String, List, [], ◌∷◌, if◌then◌else◌,
}
use adeiger.Base.Int.{ℤ, pos}
use adeiger.Detector.Files.{Acquisition}
unfoldable pub use State.*
unfoldable pub use Start.*

-- A turn of the loop of triggers after its wait.
unfoldable pub send_trigger : Moment → Control → Control
send_trigger m c =
    let fires = not c.latched.manual_trigger || c.trigger_event in
    let sent : Control = record c {
      triggers = if fires then suc c.triggers else c.triggers;
      trigger_event = c.trigger_event && not c.latched.manual_trigger;
    } in
    record sent { phase = trigger_next m sent }

-- After `mStopEvent.wait`.
unfoldable pub watch_again : Moment → Control → Control
watch_again m c = record c {
  stop_event = false;
  phase = if c.stop_event then disarming else watch m c;
}

unfoldable pub restored : Control → Control
restored c = record c {
  phase = waiting;
  params = record c.params {
    num_images =
        if c.saved_num_images == c.latched.num_images
        then c.params.num_images
        else c.saved_num_images;
  };
}

-- What the status and the mode make of the end of an acquisition, up to the top of the next turn.
unfoldable pub ended : Status → Bool → Control → Control
ended acquiring true c = record c { start_event = true }
ended acquiring false c = record c { status = idle; acquire = false; message = "Ready" }
ended aborted repeats c = record c { message = "Acquisition aborted"; acquire = false }
ended idle repeats c = record c { message = "Ready" }
ended failed repeats c = c

unfoldable pub finish : Control → Control
finish c = ended c.status (is_continuous c.latched.trigger_mode) (restored c)

unfoldable pub wait_stream_done : Control → Control
wait_stream_done c = if c.wait_stream then record c { phase = stream_waiting } else finish c

-- A turn of the loop over the state of the FileWriter.
unfoldable pub watch_fw : Moment → Control → Control
watch_fw m c = record c {
  phase = if m.fw_busy then fw_watching else poll_waiting;
  poll_stop = not m.fw_busy || c.poll_stop;
}

unfoldable pub disarmed : Control → Control
disarmed c = record c { armed = false; message = "Processing files" }

unfoldable pub after_disarm : Moment → Control → Control
after_disarm m c = if c.wait_poll then watch_fw m (disarmed c) else wait_stream_done (disarmed c)

unfoldable pub after_poll : Control → Control
after_poll c = if c.poll_done then wait_stream_done (record c { poll_done = false }) else c

unfoldable pub after_stream : Control → Control
after_stream c = if c.stream_done then finish (record c { stream_done = false }) else c

unfoldable pub resume : Moment → Phase → Control → Control
resume m waiting c = if c.start_event then begin m c else c
resume m arming c = after_arm m m.series c
resume m triggering c = send_trigger m c
resume m watching c = watch_again m c
resume m disarming c = after_disarm m c
resume m fw_watching c = watch_fw m c
resume m poll_waiting c = after_poll c
resume m stream_waiting c = after_stream c

-- What others do while the lock is free, and then `controlTask` up to where it frees the lock again.
unfoldable pub control_step : Moment → Control → Control
control_step m c = resume m c.phase (other_tasks m (write_all m.writes c))

unfoldable pub control : List Moment → Control → Control
control [] c = c
control (m ∷ ms) c = control ms (control_step m c)
