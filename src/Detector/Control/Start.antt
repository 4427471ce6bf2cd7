-- ===== src/Detector/Control/Start.antt =====
-- `controlTask` of eigerApp/src/eigerDetector.cpp from its start up to the first trigger.
use adeiger.Base.{
  ℕ, ◌+◌, ◌*◌, ◌-◌, ◌/◌, Bool, true, false, not, ◌&&◌, ◌||◌, ltb, leb, Option, none, some, String,
  if◌then◌else◌,
}
use adeiger.Base.Int.{ℤ}
use adeiger.Detector.Files.{Acquisition}
use adeiger.Detector.Control.State.{
  waiting, arming, triggering, watching, disarming, acquiring, failed, Settings, Phase, Control,
  Moment, is_acquiring, is_filewriter, is_stream, is_single, sends_triggers, is_external,
}

unfoldable pub config_error : Settings → Bool → Option String
config_error p path_exists =
    if p.fw_enable && p.save_files && not path_exists
    then some "Invalid file path"
    else if is_filewriter p.data_source && not p.fw_enable
    then some "FileWriter API is disabled"
    else if is_stream p.data_source && not p.stream_enable
    then some "Stream API is disabled"
    else none

unfoldable pub fail : String → Control → Control
fail text c = record c { phase = waiting; acquire = false; status = failed; message = text }

-- The start, from `mStartEvent.wait` up to the latching of the parameters.
unfoldable pub start_control : Control → Control
start_control c = record c {
  status = acquiring;
  start_event = false;
  stop_event = false;
  trigger_event = false;
  poll_done = false;
  stream_event = false;
  latched = c.params;
}

-- The parameters with the number of images of the mode.
unfoldable pub of_mode : Settings → Settings
of_mode p = record p { num_images = if is_single p.trigger_mode then 1 else p.num_images }

-- From the checks up to the call of `arm`.
unfoldable pub checked : Option String → Control → Control
checked (some text) c = fail text c
checked none c = record c {
  phase = arming;
  message = "Arming";
  saved_num_images = c.latched.num_images;
  latched = of_mode c.latched;
  params = of_mode c.params;
}

unfoldable pub begin : Moment → Control → Control
begin m c = checked (config_error c.params m.path_exists) (start_control c)

-- `ceil` of the quotient, for numbers that a double holds exactly and a divisor that is not 0.
unfoldable pub ceil_div : ℕ → ℕ → ℕ
ceil_div a b = (a + b - 1) / b

unfoldable pub acquisition_of : Settings → ℤ → Acquisition
acquisition_of p series = record {
  pattern = p.pattern;
  sequence_id = series;
  n_data_files = ceil_div (p.num_images * p.num_triggers) p.images_per_file;
  save_files = p.save_files;
  parse_files = is_filewriter p.data_source;
  remove_files = p.remove_files;
}

abbrev needs_poll : Settings → Bool
needs_poll p = is_filewriter p.data_source || (p.fw_enable && p.save_files)

unfoldable pub trigger_message : Settings → String
trigger_message p =
    if is_external p.trigger_mode
    then "Waiting for external triggers (press Stop when done)"
    else if p.manual_trigger
    then "Waiting for manual triggers"
    else "Triggering"

-- A turn of the loop over the state of the detector up to `unlock`, which is left at once when all images are there
-- or the detector is not busy.
unfoldable pub watch : Moment → Control → Phase
watch m c =
    if leb (c.latched.num_images * c.latched.num_triggers) c.num_images_counter || not m.busy
    then disarming
    else watching

-- The condition of the loop of triggers.
unfoldable pub trigger_next : Moment → Control → Phase
trigger_next m c =
    if is_acquiring c.status && ltb c.triggers c.latched.num_triggers then triggering else watch m c

-- From `arm` up to the first trigger.
unfoldable pub armed_now : Moment → ℤ → Control → Control
armed_now m series c =
    let p = c.latched in
    let started : Control = record c {
      num_images_counter = 0;
      sequence_id = series;
      armed = true;
      message = trigger_message p;
      triggers = 0;
      wait_poll = needs_poll p;
      wait_stream = is_stream p.data_source;
      poll_complete = if needs_poll p then false else c.poll_complete;
      poll_stop = if needs_poll p then false else c.poll_stop;
      poll_queue = if needs_poll p then some (acquisition_of p series) else c.poll_queue;
      stream_complete = if is_stream p.data_source then false else c.stream_complete;
      stream_event = is_stream p.data_source || c.stream_event;
    } in
    record started {
      phase = if sends_triggers p.trigger_mode then trigger_next m started else watch m started;
    }

unfoldable pub after_arm : Moment → Option ℤ → Control → Control
after_arm m none c = fail "Failed to arm the detector" c
after_arm m (some series) c = armed_now m series c
