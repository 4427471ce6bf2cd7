-- ===== src/Detector/Control/Refinement.antt =====
-- `controlTask` keeps to what Detector/Control/Spec allows.
use adeiger.Base.{
  ◌≡◌, refl, ◌⊎◌, inl, Bool, true, false, String, ◌∙◌, Option, none, some, List, [], ◌∷◌, arith,
  if◌then◌else◌, subst,
}
use adeiger.Base.Int.{ℤ}
use adeiger.Detector.Control.{
  Status, idle, acquiring, failed, aborted, Phase, waiting, arming, triggering, watching, disarming,
  fw_watching, poll_waiting, stream_waiting, Control, Write, to_acquire, to_trigger, to_params,
  abort_returns, Moment, is_continuous, write_int32, write_all, other_tasks, config_error, checked,
  start_control, of_mode, restored, ended, fail, begin, after_arm, finish, wait_stream_done,
  watch_fw, disarmed, after_disarm, after_poll, after_stream, resume, control_step, control,
}
use adeiger.Detector.Control.Spec.{
  Turn, waits, stays, begins, refuses, completes, goes_on, gives_up, Turns, no_turn, then_turn,
  clients,
}
use adeiger.Detector.Control.Stretches.{
  is_active, seen, Running, Refines, write_all-Running, write_all-clients, Stays-Refines,
  fail-Refines, armed_now-Stays, send_trigger-Stays, watch_again-Stays, watch_fw-Stays,
}

-- The end of an acquisition.
ended-Refines :
    (status : Status) (repeats : Bool) (c : Control)
    → is_active c.phase ≡ true
    → c.status ≡ status
    → is_continuous c.latched.trigger_mode ≡ repeats
    → (status ≡ acquiring) ⊎ (status ≡ aborted)
    → Turn (seen c) (seen (ended status repeats (restored c)))
unfolding ended restored
ended-Refines acquiring true c a e r h = (goes_on a r e)
ended-Refines acquiring false c a e r h = (completes a r e)
ended-Refines aborted repeats c a e r h = (gives_up a e)
ended-Refines idle repeats c a e r h = absurd (ground (arith, h))
ended-Refines failed repeats c a e r h = absurd (ground (arith, h))

ended-waiting : (s : Status) (b : Bool) (c : Control) → (ended s b c).phase ≡ c.phase
unfolding ended
ended-waiting s b c = ground arith

finish-Refines : (c : Control) → is_active c.phase ≡ true → Running c → Refines c (finish c)
unfolding finish restored
finish-Refines c a h = (
  ended-Refines c.status (is_continuous c.latched.trigger_mode) c a refl refl (h a),
  λ e. absurd (
      ground
        (arith, e, ended-waiting c.status (is_continuous c.latched.trigger_mode) (restored c))),
)

after_arm-Refines :
    (m : Moment) (series : Option ℤ) (c : Control)
    → is_active c.phase ≡ true
    → Running c
    → Refines c (after_arm m series c)
unfolding after_arm
after_arm-Refines m none c a h = fail-Refines "Failed to arm the detector" c a
after_arm-Refines m (some series) c a h = Stays-Refines c _ a h (armed_now-Stays m series c)

if-Refines :
    (b : Bool) (c x y : Control) → Refines c x → Refines c y → Refines c (if b then x else y)
if-Refines true c x y p q = p
if-Refines false c x y p q = q

-- What is tested may be used where it holds.
then-Refines :
    (b : Bool) (c x y : Control)
    → (b ≡ true → Refines c x)
    → (b ≡ false → Refines c y)
    → Refines c (if b then x else y)
then-Refines true c x y p q = p refl
then-Refines false c x y p q = q refl

wait_stream_done-Refines :
    (c : Control) → is_active c.phase ≡ true → Running c → Refines c (wait_stream_done c)
unfolding wait_stream_done
wait_stream_done-Refines c a h =
    if-Refines c.wait_stream c _ _
      (Stays-Refines c (record c { phase = stream_waiting }) a h
        (record { active = refl; same = refl }))
      (finish-Refines c a h)

after_disarm-Refines :
    (m : Moment) (c : Control) → is_active c.phase ≡ true → Running c → Refines c (after_disarm m c)
unfolding after_disarm disarmed
after_disarm-Refines m c a h =
    if-Refines c.wait_poll c (watch_fw m (disarmed c)) (wait_stream_done (disarmed c))
      (Stays-Refines (disarmed c) (watch_fw m (disarmed c)) a h (watch_fw-Stays m (disarmed c)))
      (wait_stream_done-Refines (disarmed c) a h)

after_poll-Refines : (c : Control) → is_active c.phase ≡ true → Running c → Refines c (after_poll c)
unfolding after_poll
after_poll-Refines c a h =
    if-Refines c.poll_done c _ _ (wait_stream_done-Refines _ a h) (stays a, h)

after_stream-Refines :
    (c : Control) → is_active c.phase ≡ true → Running c → Refines c (after_stream c)
unfolding after_stream
after_stream-Refines c a h = if-Refines c.stream_done c _ _ (finish-Refines _ a h) (stays a, h)

checked-Refines :
    (error : Option String) (c : Control)
    → is_active c.phase ≡ false
    → c.start_event ≡ true
    → Refines c (checked error (start_control c))
unfolding checked start_control fail of_mode
checked-Refines none c a q = (begins a q, λ r. inl refl)
checked-Refines (some t) c a q = (refuses a q, λ r. cc)

resume-Refines :
    (m : Moment) (p : Phase) (c : Control) → c.phase ≡ p → Running c → Refines c (resume m p c)
unfolding resume begin
resume-Refines m waiting c e h =
    then-Refines c.start_event c _ _
      (checked-Refines (config_error c.params m.path_exists) c (rw e refl))
      (λ q. (waits (rw e refl) q, h))
resume-Refines m arming c e h = after_arm-Refines m m.series c (rw e refl) h
resume-Refines m triggering c e h = Stays-Refines c _ (rw e refl) h (send_trigger-Stays m c)
resume-Refines m watching c e h = Stays-Refines c _ (rw e refl) h (watch_again-Stays m c)
resume-Refines m disarming c e h = after_disarm-Refines m c (rw e refl) h
resume-Refines m fw_watching c e h = Stays-Refines c _ (rw e refl) h (watch_fw-Stays m c)
resume-Refines m poll_waiting c e h = after_poll-Refines c (rw e refl) h
resume-Refines m stream_waiting c e h = after_stream-Refines c (rw e refl) h

pub other_tasks-phase : (m : Moment) (c : Control) → (other_tasks m c).phase ≡ c.phase
unfolding other_tasks
other_tasks-phase m c = refl

waiting-idle : (c : Control) → c.phase ≡ waiting → ¬ (is_active c.phase ≡ true)
waiting-idle c e a = ground (arith, e, a)

write_int32-phase : (w : Write) (c : Control) → (write_int32 w c).phase ≡ c.phase
unfolding write_int32
write_int32-phase (to_acquire true) c = ground arith
write_int32-phase (to_acquire false) c = ground arith
write_int32-phase abort_returns c = ground arith
write_int32-phase to_trigger c = refl
write_int32-phase (to_params p) c = refl

pub write_all-phase : (ws : List Write) (c : Control) → (write_all ws c).phase ≡ c.phase
unfolding write_all write_int32
write_all-phase [] c = refl
write_all-phase (w ∷ ws) c = write_all-phase ws (write_int32 w c) ∙ write_int32-phase w c

-- After the writes comes one turn of the task.
pub control_step-Turn :
    (m : Moment) (c : Control)
    → Running c
    → Turn (clients m.writes (seen c)) (seen (control_step m c)) × Running (control_step m c)
unfolding control_step other_tasks
control_step-Turn m c h =
    let r =
      resume-Refines m c.phase (other_tasks m written) (write_all-phase m.writes c)
        (write_all-Running m.writes c h) in
    (
      subst (λ x. Turn x (seen (resume m c.phase (other_tasks m written))))
          (write_all-clients m.writes c) r.0,
      r.1,
    )
  where
    written : Control
    written = write_all m.writes c

abbrev pub writes_of : List Moment → List (List Write)
writes_of [] = []
writes_of (m ∷ ms) = m.writes ∷ writes_of ms

control-Running-Turns :
    (ms : List Moment) (c : Control)
    → Running c
    → Turns (seen c) (writes_of ms) (seen (control ms c))
unfolding control
control-Running-Turns [] c h = no_turn
control-Running-Turns (m ∷ ms) c h =
    let r = control_step-Turn m c h in
    then_turn r.0 (control-Running-Turns ms (control_step m c) r.1)

-- From a state in which `controlTask` waits, however the detector, `pollTask` and `streamTask` behave: each
-- time that the lock is free, just the writes that clients have made change what is seen, as the
-- specification says, and then one turn of the task that the specification allows. A write of 0 may be in
-- the call of `abort` over any number of turns.
pub control-Turns :
    (ms : List Moment) (c : Control)
    → c.phase ≡ waiting
    → Turns (seen c) (writes_of ms) (seen (control ms c))
control-Turns ms c e = control-Running-Turns ms c (λ a. absurd (waiting-idle c e a))
