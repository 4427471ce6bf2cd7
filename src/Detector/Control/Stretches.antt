-- ===== src/Detector/Control/Stretches.antt =====
-- What each stretch of `controlTask` of eigerApp/src/eigerDetector.cpp does with what is seen.
use adeiger.Base.{
  ◌≡◌, refl, sym, ap, ◌∙◌, subst, ◌==◌, ◌⊎◌, Bool, true, false, String, List, [], ◌∷◌, arith,
  if◌then◌else◌,
}
use adeiger.Base.Int.{ℤ}
use adeiger.Detector.Control.{
  Status, idle, acquiring, failed, aborted, Phase, waiting, disarming, fw_watching, poll_waiting,
  Control, Write, to_acquire, abort_returns, to_trigger, to_params, Moment, is_acquiring,
  is_continuous, write_int32, write_all, fail, watch, trigger_next, armed_now, send_trigger,
  watch_again, watch_fw,
}
use adeiger.Detector.Control.Spec.{Seen, client, clients, Turn, stays, fails}

abbrev pub is_active : Phase → Bool
is_active waiting = false
is_active _ = true

abbrev pub seen : Control → Seen
seen c = record {
  active = is_active c.phase;
  repeats = is_continuous c.latched.trigger_mode;
  continuous = is_continuous c.params.trigger_mode;
  asked = c.start_event;
  aborting = c.aborting;
  status = c.status;
  acquire = c.acquire;
}

-- Within an acquisition the status is that it runs or was aborted.
abbrev pub Running : Control → Type 0
Running c = is_active c.phase ≡ true → (c.status ≡ acquiring) ⊎ (c.status ≡ aborted)

write_int32-Running : (w : Write) (c : Control) → Running c → Running (write_int32 w c)
unfolding write_int32
write_int32-Running (to_acquire true) c h a = ground (arith, h)
write_int32-Running (to_acquire false) c h a = ground (arith, h)
write_int32-Running abort_returns c h a = ground (arith, h)
write_int32-Running to_trigger c h a = h a
write_int32-Running (to_params p) c h a = h a

-- A stretch of `controlTask`: what is seen before and after it.
abbrev pub Refines : Control → Control → Type 0
Refines c d = Turn (seen c) (seen d) × Running d

if-seen : (b : Bool) (c d : Control) → seen (if b then c else d) ≡ (if b then seen c else seen d)
if-seen true c d = refl
if-seen false c d = refl

-- A write that finds the acquisition running sets the status that is there.
again :
    (t : Status) (c : Control)
    → c.status ≡ t
    → seen (
        if is_acquiring t
        then record c { acquire = true }
        else record c { status = acquiring; start_event = true; acquire = true })
      ≡ record (seen c) {
        status = acquiring;
        asked = if is_acquiring t then c.start_event else true;
        acquire = true;
      }
again acquiring c e = rw e refl
again idle c e = refl
again failed c e = refl
again aborted c e = refl

-- A write is seen as the specification says.
write_int32-client : (w : Write) (c : Control) → seen (write_int32 w c) ≡ client w (seen c)
unfolding write_int32 client
write_int32-client (to_acquire true) c = again c.status c refl
write_int32-client (to_acquire false) c = if-seen (is_acquiring c.status) _ _
write_int32-client abort_returns c = if-seen (c.aborting == 0) _ _
write_int32-client to_trigger c = refl
write_int32-client (to_params p) c = refl

pub write_all-clients :
    (ws : List Write) (c : Control) → seen (write_all ws c) ≡ clients ws (seen c)
unfolding write_all clients
write_all-clients [] c = refl
write_all-clients (w ∷ ws) c =
    write_all-clients ws (write_int32 w c) ∙ ap (clients ws) (write_int32-client w c)

pub write_all-Running : (ws : List Write) (c : Control) → Running c → Running (write_all ws c)
unfolding write_all
write_all-Running [] c h = h
write_all-Running (w ∷ ws) c h = write_all-Running ws (write_int32 w c) (write_int32-Running w c h)

-- A part of the task that only goes from one place of an acquisition to another.
pub record Stays (c d : Control) : Type 0 where
  pub active : is_active d.phase ≡ true
  pub same : seen d ≡ record (seen c) { active = is_active d.phase }

pub Stays-Refines : (c d : Control) → is_active c.phase ≡ true → Running c → Stays c d → Refines c d
Stays-Refines c d a h s = (
  subst (Turn (seen c)) (sym (s.same ∙ ap (λ b. record (seen c) { active = b }) (s.active ∙ sym a)))
      (stays a),
  λ r. rw (ap (λ v. v.status) s.same) (h a),
)

pub fail-Refines : (t : String) (c : Control) → is_active c.phase ≡ true → Refines c (fail t c)
unfolding fail
fail-Refines t c a = (fails a, λ e. cc)

watch-active : (m : Moment) (c : Control) → is_active (watch m c) ≡ true
unfolding watch
watch-active m c = ground arith

trigger_next-active : (m : Moment) (c : Control) → is_active (trigger_next m c) ≡ true
unfolding trigger_next
trigger_next-active m c = ground (arith, watch-active m c)

if-active :
    (b : Bool) (p q : Phase)
    → is_active p ≡ true
    → is_active q ≡ true
    → is_active (if b then p else q) ≡ true
if-active true p q h k = h
if-active false p q h k = k

pub armed_now-Stays : (m : Moment) (series : ℤ) (c : Control) → Stays c (armed_now m series c)
unfolding armed_now
armed_now-Stays m series c = record {
  active = if-active _ _ _ (trigger_next-active m _) (watch-active m _);
  same = refl;
}

pub send_trigger-Stays : (m : Moment) (c : Control) → Stays c (send_trigger m c)
unfolding send_trigger
send_trigger-Stays m c = record { active = trigger_next-active m _; same = refl }

pub watch_again-Stays : (m : Moment) (c : Control) → Stays c (watch_again m c)
unfolding watch_again
watch_again-Stays m c = record {
  active = if-active c.stop_event disarming _ refl (watch-active m c);
  same = refl;
}

pub watch_fw-Stays : (m : Moment) (c : Control) → Stays c (watch_fw m c)
unfolding watch_fw
watch_fw-Stays m c = record {
  active = if-active m.fw_busy fw_watching poll_waiting refl refl;
  same = refl;
}
