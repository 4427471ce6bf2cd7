-- ===== src/Detector/Control/Orderly.antt =====
-- `controlTask` of eigerApp/src/eigerDetector.cpp keeps its order.
use adeiger.Base.{
  ◌≤◌, ◌<◌, ◌≡◌, refl, ap, ◌∙◌, Bool, true, false, String, Option, none, some, List, [], ◌∷◌, arith,
}
use adeiger.Base.Int.{ℤ}
use adeiger.Detector.Control.Refinement.{other_tasks-phase, write_all-phase}
use adeiger.Detector.Control.{
  Status, aborted, Phase, waiting, arming, triggering, watching, disarming, fw_watching,
  poll_waiting, stream_waiting, Control, Write, Moment, is_continuous, write_int32, write_all,
  other_tasks, config_error, checked, start_control, restored, ended, fail, begin, watch, armed_now,
  after_arm, send_trigger, watch_again, finish, wait_stream_done, watch_fw, disarmed, after_disarm,
  after_poll, after_stream, resume, control_step, control,
}
use adeiger.Detector.Control.Order.{
  is_armed, stops_early, IsStopping, Orderly, write_int32-Orderly, watch-Chosen,
  trigger_next-Chosen, go-Orderly, if-Orderly, if-Chosen, rest-Orderly,
}

ended-same :
    (s : Status) (b : Bool) (c : Control)
    → ((ended s b c).phase ≡ c.phase) × ((ended s b c).armed ≡ c.armed)
unfolding ended
ended-same s b c = ground arith

finish-Orderly : (c : Control) → c.armed ≡ false → Orderly (finish c)
unfolding finish restored
finish-Orderly c a =
    let (p, q) = ended-same c.status (is_continuous c.latched.trigger_mode) (restored c) in
    rest-Orderly (finish c) (q ∙ a) (ap is_armed p) (ap stops_early p)
      (λ e. absurd (ground (arith, p, e)))

wait_stream_done-Orderly : (c : Control) → c.armed ≡ false → Orderly (wait_stream_done c)
unfolding wait_stream_done
wait_stream_done-Orderly c a =
    if-Orderly c.wait_stream (record c { phase = stream_waiting }) (finish c)
      (rest-Orderly (record c { phase = stream_waiting }) a refl refl
        (λ e. absurd (ground (arith, e))))
      (finish-Orderly c a)

watch_fw-Orderly : (m : Moment) (c : Control) → c.armed ≡ false → Orderly (watch_fw m c)
unfolding watch_fw
watch_fw-Orderly m c a =
    rest-Orderly (watch_fw m c) a (ground arith) (ground arith) (λ e. ground arith)

armed_now-Orderly :
    (m : Moment) (series : ℤ) (c : Control)
    → (c.status ≡ aborted → IsStopping c)
    → Orderly (armed_now m series c)
unfolding armed_now
armed_now-Orderly m series c d =
    go-Orderly _ _ (if-Chosen _ _ _ _ (trigger_next-Chosen m _) (watch-Chosen m _)) refl
      (omega arith) d

fail-Orderly : (t : String) (c : Control) → c.armed ≡ false → Orderly (fail t c)
unfolding fail
fail-Orderly t c a = rest-Orderly (fail t c) a refl refl (λ e. absurd (ground (arith, e)))

checked-Orderly :
    (e : Option String) (c : Control) → c.armed ≡ false → Orderly (checked e (start_control c))
unfolding checked start_control
checked-Orderly (some t) c a = fail-Orderly t (start_control c) a
checked-Orderly none c a = record {
  armed = a;
  stopping = λ e b. cc;
  sent = λ e. cc;
  next = λ e. cc;
  asked = λ e. cc;
}

after_arm-Orderly :
    (m : Moment) (series : Option ℤ) (c : Control)
    → c.armed ≡ false
    → (c.status ≡ aborted → IsStopping c)
    → Orderly (after_arm m series c)
unfolding after_arm
after_arm-Orderly m none c a d = fail-Orderly "Failed to arm the detector" c a
after_arm-Orderly m (some series) c a d = armed_now-Orderly m series c d

send_trigger-Orderly :
    (m : Moment) (c : Control)
    → c.armed ≡ true
    → c.triggers < c.latched.num_triggers
    → (c.status ≡ aborted → IsStopping c)
    → Orderly (send_trigger m c)
unfolding send_trigger
send_trigger-Orderly m c a lt d = go-Orderly _ _ (trigger_next-Chosen m _) a (ground arith) d

watch_again-Orderly :
    (m : Moment) (c : Control)
    → c.armed ≡ true
    → c.triggers ≤ c.latched.num_triggers
    → (c.status ≡ aborted → IsStopping c)
    → Orderly (watch_again m c)
unfolding watch_again watch
watch_again-Orderly m c a le d = record {
  armed = ground arith;
  stopping = λ e b. ground (arith, d);
  sent = λ e. le;
  next = λ e. ground arith;
  asked = λ e. ground arith;
}

after_poll-Orderly : (c : Control) → c.armed ≡ false → Orderly c → Orderly (after_poll c)
unfolding after_poll
after_poll-Orderly c a h =
    if-Orderly c.poll_done _ c (wait_stream_done-Orderly (record c { poll_done = false }) a) h

after_stream-Orderly : (c : Control) → c.armed ≡ false → Orderly c → Orderly (after_stream c)
unfolding after_stream
after_stream-Orderly c a h =
    if-Orderly c.stream_done _ c (finish-Orderly (record c { stream_done = false }) a) h

resume-Orderly :
    (m : Moment) (p : Phase) (c : Control) → c.phase ≡ p → Orderly c → Orderly (resume m p c)
unfolding resume begin disarmed after_disarm
resume-Orderly m waiting c e h =
    if-Orderly c.start_event _ c
      (checked-Orderly (config_error c.params m.path_exists) c (h.armed ∙ ap is_armed e)) h
resume-Orderly m arming c e h =
    after_arm-Orderly m m.series c (h.armed ∙ ap is_armed e) (λ q. h.stopping q (ap stops_early e))
resume-Orderly m triggering c e h =
    send_trigger-Orderly m c (h.armed ∙ ap is_armed e) (h.next e)
      (λ q. h.stopping q (ap stops_early e))
resume-Orderly m watching c e h =
    watch_again-Orderly m c (h.armed ∙ ap is_armed e) (h.sent (ap is_armed e))
      (λ q. h.stopping q (ap stops_early e))
resume-Orderly m disarming c e h =
    if-Orderly c.wait_poll _ _ (watch_fw-Orderly m (disarmed c) refl)
      (wait_stream_done-Orderly (disarmed c) refl)
resume-Orderly m fw_watching c e h = watch_fw-Orderly m c (h.armed ∙ ap is_armed e)
resume-Orderly m poll_waiting c e h = after_poll-Orderly c (h.armed ∙ ap is_armed e) h
resume-Orderly m stream_waiting c e h = after_stream-Orderly c (h.armed ∙ ap is_armed e) h

other_tasks-Orderly : (m : Moment) (c : Control) → Orderly c → Orderly (other_tasks m c)
unfolding other_tasks
other_tasks-Orderly m c h = record {
  armed = h.armed;
  stopping = h.stopping;
  sent = h.sent;
  next = h.next;
  asked = h.asked;
}

write_all-Orderly : (ws : List Write) (c : Control) → Orderly c → Orderly (write_all ws c)
unfolding write_all
write_all-Orderly [] c h = h
write_all-Orderly (w ∷ ws) c h = write_all-Orderly ws (write_int32 w c) (write_int32-Orderly w c h)

pub control_step-Orderly : (m : Moment) (c : Control) → Orderly c → Orderly (control_step m c)
unfolding control_step
control_step-Orderly m c h =
    resume-Orderly m c.phase (other_tasks m (write_all m.writes c))
      (other_tasks-phase m (write_all m.writes c) ∙ write_all-phase m.writes c)
      (other_tasks-Orderly m (write_all m.writes c) (write_all-Orderly m.writes c h))

-- Wherever the lock is free: the detector is armed just from a successful `arm` to the end of `disarm`; an
-- abort before the disarming has its event pending, or its writer is still in the call of `abort`; no more
-- triggers were sent than asked for; and `pollTask` was told to stop before it is waited for.
pub control-Orderly : (ms : List Moment) (c : Control) → Orderly c → Orderly (control ms c)
unfolding control
control-Orderly [] c h = h
control-Orderly (m ∷ ms) c h = control-Orderly ms (control_step m c) (control_step-Orderly m c h)
