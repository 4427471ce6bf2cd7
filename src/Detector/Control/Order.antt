-- ===== src/Detector/Control/Order.antt =====
-- What holds wherever `controlTask` of eigerApp/src/eigerDetector.cpp frees the lock, and that clients keep it.
use adeiger.Base.{◌≤◌, ◌<◌, ◌≡◌, sym, ◌∙◌, ◌⊎◌, Bool, true, false, arith, if◌then◌else◌}
use adeiger.Detector.Control.{
  aborted, Phase, arming, triggering, watching, disarming, poll_waiting, Control, Write, to_acquire,
  abort_returns, to_trigger, to_params, Moment, is_acquiring, write_int32, watch, trigger_next,
}

abbrev pub is_armed : Phase → Bool
is_armed triggering = true
is_armed watching = true
is_armed disarming = true
is_armed _ = false

-- The phases that a stop is to end.
abbrev pub stops_early : Phase → Bool
stops_early arming = true
stops_early triggering = true
stops_early watching = true
stops_early _ = false

-- The stop is signalled, or its writer has yet to come back from `abort` and will signal it.
abbrev pub IsStopping : Control → Type 0
IsStopping c = (c.stop_event ≡ true) ⊎ (0 < c.aborting)

pub record Orderly (c : Control) : Type 0 where
  pub armed : c.armed ≡ is_armed c.phase
  pub stopping : c.status ≡ aborted → stops_early c.phase ≡ true → IsStopping c
  pub sent : is_armed c.phase ≡ true → c.triggers ≤ c.latched.num_triggers
  pub next : c.phase ≡ triggering → c.triggers < c.latched.num_triggers
  pub asked : c.phase ≡ poll_waiting → c.poll_stop ≡ true

pub write_int32-Orderly : (w : Write) (c : Control) → Orderly c → Orderly (write_int32 w c)
unfolding write_int32
write_int32-Orderly (to_acquire true) c h = record {
  armed = ground (arith, h.armed);
  stopping = λ a b. ground (arith, h.stopping);
  sent = λ a. ground (arith, h.sent);
  next = λ a. ground (arith, h.next);
  asked = λ a. ground (arith, h.asked);
}
write_int32-Orderly (to_acquire false) c h = record {
  armed = ground (arith, h.armed);
  stopping = λ a b. ground (arith, h.stopping);
  sent = λ a. ground (arith, h.sent);
  next = λ a. ground (arith, h.next);
  asked = λ a. ground (arith, h.asked);
}
write_int32-Orderly abort_returns c h = record {
  armed = ground (arith, h.armed);
  stopping = λ a b. ground (arith, h.stopping);
  sent = λ a. ground (arith, h.sent);
  next = λ a. ground (arith, h.next);
  asked = λ a. ground (arith, h.asked);
}
write_int32-Orderly to_trigger c h = record {
  armed = h.armed;
  stopping = h.stopping;
  sent = h.sent;
  next = h.next;
  asked = h.asked;
}
write_int32-Orderly (to_params p) c h = record {
  armed = h.armed;
  stopping = h.stopping;
  sent = h.sent;
  next = h.next;
  asked = h.asked;
}

-- What `watch` and `trigger_next` choose.
pub record Chosen (c : Control) (p : Phase) : Type 0 where
  pub armed : is_armed p ≡ true
  pub next : p ≡ triggering → c.triggers < c.latched.num_triggers
  pub away : ¬ (p ≡ poll_waiting)
  pub over : is_acquiring c.status ≡ false → ¬ (p ≡ triggering)

pub watch-Chosen : (m : Moment) (c : Control) → Chosen c (watch m c)
unfolding watch
watch-Chosen m c = record {
  armed = ground arith;
  next = λ e. ground arith;
  away = λ e. ground arith;
  over = λ q e. ground arith;
}

pub trigger_next-Chosen : (m : Moment) (c : Control) → Chosen c (trigger_next m c)
unfolding trigger_next watch
trigger_next-Chosen m c = record {
  armed = ground arith;
  next = λ e. ground arith;
  away = λ e. ground arith;
  over = λ q e. ground arith;
}

-- Whatever phase is chosen, the task goes on in good order.
pub go-Orderly :
    (c : Control) (p : Phase)
    → Chosen c p
    → c.armed ≡ true
    → c.triggers ≤ c.latched.num_triggers
    → (c.status ≡ aborted → IsStopping c)
    → Orderly (record c { phase = p })
go-Orderly c p h a b d = record {
  armed = a ∙ sym h.armed;
  stopping = λ e q. d e;
  sent = λ e. b;
  next = h.next;
  asked = λ e. absurd (h.away e);
}

pub if-Orderly : (b : Bool) (c d : Control) → Orderly c → Orderly d → Orderly (if b then c else d)
if-Orderly true c d p q = p
if-Orderly false c d p q = q

pub if-Chosen :
    (b : Bool) (c : Control) (p q : Phase) → Chosen c p → Chosen c q → Chosen c (if b then p else q)
if-Chosen true c p q h k = h
if-Chosen false c p q h k = k

-- Where the detector is not armed and no stop is waited for.
pub rest-Orderly :
    (c : Control)
    → c.armed ≡ false
    → is_armed c.phase ≡ false
    → stops_early c.phase ≡ false
    → (c.phase ≡ poll_waiting → c.poll_stop ≡ true)
    → Orderly c
rest-Orderly c a p s q = record {
  armed = a ∙ sym p;
  stopping = λ e b. ground (arith, s, b);
  sent = λ e. ground (arith, p, e);
  next = λ e. ground (arith, p, e);
  asked = q;
}
