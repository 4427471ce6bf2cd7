-- ===== src/Detector/Control/Stopping.antt =====
-- An acquisition that was aborted comes to its end.
use adeiger.Base.{
  ℕ, suc, ◌≤◌, ◌<◌, ◌≡◌, ◌≢◌, refl, sym, ap, subst, ◌∙◌, ◌⊎◌, inl, inr, Bool, true, false, Option,
  none, some, List, [], ◌∷◌, length, take, arith, if◌then◌else◌,
}
use adeiger.Base.Int.{ℤ}
use adeiger.Detector.Control.Order.{Orderly, IsStopping, stops_early}
use adeiger.Detector.Control.Orderly.{control_step-Orderly}
use adeiger.Detector.Control.Spec.{
  Seen, clients, Turn, waits, stays, begins, refuses, fails, completes, goes_on, gives_up,
}
use adeiger.Detector.Control.Stretches.{seen}
use adeiger.Detector.Control.Refinement.{control_step-Turn}
use adeiger.Detector.Control.{
  Status, aborted, Phase, waiting, arming, triggering, watching, disarming, fw_watching,
  poll_waiting, stream_waiting, Control, Moment, Write, is_continuous, write_all, other_tasks,
  restored, ended, fail, watch, trigger_next, armed_now, after_arm, send_trigger, watch_again,
  finish, wait_stream_done, watch_fw, disarmed, after_disarm, after_poll, after_stream, resume,
  control_step, control,
}

-- Nobody writes, the FileWriter is done, and `pollTask` and `streamTask` have come to their ends.
pub record Quiet (m : Moment) : Type 0 where
  pub no_writes : m.writes ≡ []
  pub fw_done : m.fw_busy ≡ false
  pub poll_over : (b : Bool) × (m.poll_end ≡ some b)
  pub stream_over : (b : Bool) × (m.stream_end ≡ some b)

abbrev pub AllQuiet : List Moment → Type 0
AllQuiet [] = Unit
AllQuiet (m ∷ ms) = Quiet m × AllQuiet ms

-- How many periods an aborted acquisition may still take.
abbrev pub rank : Phase → ℕ
rank waiting = 0
rank stream_waiting = 1
rank poll_waiting = 2
rank fw_watching = 3
rank disarming = 4
rank watching = 5
rank triggering = 6
rank arming = 6

record Falls (p : Phase) (d : Control) : Type 0 where
  lower : rank d.phase < rank p
  still : (d.phase ≡ waiting) ⊎ (d.status ≡ aborted)

if-Falls :
    (b : Bool) (p : Phase) (c d : Control) → Falls p c → Falls p d → Falls p (if b then c else d)
if-Falls true p c d h k = h
if-Falls false p c d h k = k

then-Falls :
    (b : Bool) (p : Phase) (c d : Control) → b ≡ true → Falls p c → Falls p (if b then c else d)
then-Falls true p c d e h = h
then-Falls false p c d e h = cc

watch-rank : (m : Moment) (c : Control) → rank (watch m c) ≤ 5
unfolding watch
watch-rank m c = ground arith

trigger_next-rank : (m : Moment) (c : Control) → c.status ≡ aborted → rank (trigger_next m c) ≤ 5
unfolding trigger_next
trigger_next-rank m c e = ground (arith, watch-rank m c)

if-rank : (b : Bool) (p q : Phase) → rank p ≤ 5 → rank q ≤ 5 → rank (if b then p else q) ≤ 5
if-rank true p q h k = h
if-rank false p q h k = k

armed_now-Falls :
    (m : Moment) (series : ℤ) (c : Control)
    → c.status ≡ aborted
    → Falls arming (armed_now m series c)
unfolding armed_now
armed_now-Falls m series c e = record {
  lower = omega (arith, if-rank _ _ _ (trigger_next-rank m _ e) (watch-rank m _));
  still = inr e;
}

after_arm-Falls :
    (m : Moment) (series : Option ℤ) (c : Control)
    → c.status ≡ aborted
    → Falls arming (after_arm m series c)
unfolding after_arm fail
after_arm-Falls m none c e = record { lower = omega arith; still = inl refl }
after_arm-Falls m (some series) c e = armed_now-Falls m series c e

ended-phase : (s : Status) (b : Bool) (c : Control) → (ended s b c).phase ≡ c.phase
unfolding ended
ended-phase s b c = ground arith

finish-waiting : (c : Control) → (finish c).phase ≡ waiting
unfolding finish restored
finish-waiting c = ended-phase c.status (is_continuous c.latched.trigger_mode) (restored c)

finish-Falls : (p : Phase) (c : Control) → 0 < rank p → Falls p (finish c)
finish-Falls p c h = record { lower = rw (finish-waiting c) h; still = inl (finish-waiting c) }

wait_stream_done-Falls :
    (p : Phase) (c : Control) → 1 < rank p → c.status ≡ aborted → Falls p (wait_stream_done c)
unfolding wait_stream_done
wait_stream_done-Falls p c h e =
    if-Falls c.wait_stream p (record c { phase = stream_waiting }) (finish c)
      (record { lower = h; still = inr e }) (finish-Falls p c (omega (arith, h)))

watch_fw-Falls :
    (p : Phase) (m : Moment) (c : Control)
    → 2 < rank p
    → m.fw_busy ≡ false
    → c.status ≡ aborted
    → Falls p (watch_fw m c)
unfolding watch_fw
watch_fw-Falls p m c h q e = record { lower = rw q h; still = inr e }

resume-Falls :
    (m : Moment) (p : Phase) (c : Control)
    → p ≢ waiting
    → m.fw_busy ≡ false
    → c.poll_done ≡ true
    → c.stream_done ≡ true
    → c.status ≡ aborted
    → (stops_early p ≡ true → c.stop_event ≡ true)
    → Falls p (resume m p c)
unfolding resume send_trigger watch_again disarmed after_disarm after_poll after_stream
resume-Falls m waiting c n f a b e s = absurd (n refl)
resume-Falls m arming c n f a b e s = after_arm-Falls m m.series c e
resume-Falls m triggering c n f a b e s = record {
  lower = omega (arith, trigger_next-rank m _ e);
  still = inr e;
}
resume-Falls m watching c n f a b e s = record { lower = rw (s refl) (omega arith); still = inr e }
resume-Falls m disarming c n f a b e s =
    if-Falls c.wait_poll disarming (watch_fw m (disarmed c)) (wait_stream_done (disarmed c))
      (watch_fw-Falls disarming m (disarmed c) (omega arith) f e)
      (wait_stream_done-Falls disarming (disarmed c) (omega arith) e)
resume-Falls m fw_watching c n f a b e s = watch_fw-Falls fw_watching m c (omega arith) f e
resume-Falls m poll_waiting c n f a b e s =
    then-Falls c.poll_done poll_waiting (wait_stream_done (record c { poll_done = false })) c a
      (wait_stream_done-Falls poll_waiting (record c { poll_done = false }) (omega arith) e)
resume-Falls m stream_waiting c n f a b e s =
    then-Falls c.stream_done stream_waiting (finish (record c { stream_done = false })) c b
      (finish-Falls stream_waiting (record c { stream_done = false }) (omega arith))

unwritten : (ws : List Write) (c : Control) → ws ≡ [] → write_all ws c ≡ c
unfolding write_all
unwritten ws c e = rw e refl

over : (o : Option Bool) (d b : Bool) → o ≡ some b → elim o [ none ↦ d | some b ↦ true ] ≡ true
over o d b e = rw e refl

rank-waiting : (p : Phase) → rank p ≤ 0 → p ≡ waiting
rank-waiting p h = ground arith

waiting-cases : (p : Phase) → (p ≡ waiting) ⊎ (p ≢ waiting)
waiting-cases p = ground arith

-- The event is signalled once every stop has come back from `abort`.
signalled : (c : Control) → c.aborting ≡ 0 → IsStopping c → c.stop_event ≡ true
signalled c z (inl e) = e
signalled c z (inr h) = absurd (omega (arith, z, h))

-- The task does not touch the calls of `abort`.
Turn-aborting : {s t : Seen} → Turn s t → t.aborting ≡ s.aborting
Turn-aborting (waits a q) = refl
Turn-aborting (stays a) = refl
Turn-aborting (begins a q) = refl
Turn-aborting (refuses a q) = refl
Turn-aborting (fails a) = refl
Turn-aborting (completes a r e) = refl
Turn-aborting (goes_on a r e) = refl
Turn-aborting (gives_up a e) = refl

clients-none : (ws : List Write) (s : Seen) → ws ≡ [] → clients ws s ≡ s
unfolding clients
clients-none ws s e = rw e refl

control_step-aborting :
    (m : Moment) (c : Control)
    → Quiet m
    → c.status ≡ aborted
    → (control_step m c).aborting ≡ c.aborting
control_step-aborting m c q e =
    Turn-aborting (control_step-Turn m c (λ a. inr e)).0
    ∙ ap (λ s. s.aborting) (clients-none m.writes (seen c) q.no_writes)

control_step-Falls :
    (m : Moment) (c : Control)
    → Quiet m
    → Orderly c
    → c.status ≡ aborted
    → c.aborting ≡ 0
    → c.phase ≢ waiting
    → Falls c.phase (control_step m c)
unfolding control_step other_tasks
control_step-Falls m c q h e z n =
    subst (λ x. Falls c.phase (resume m c.phase (other_tasks m x)))
      (sym (unwritten m.writes c q.no_writes))
      (resume-Falls m c.phase (other_tasks m c) n q.fw_done
        (over m.poll_end c.poll_done q.poll_over.0 q.poll_over.1)
        (over m.stream_end c.stream_done q.stream_over.0 q.stream_over.1) e
        (λ b. signalled c z (h.stopping e b)))

-- Once a client has aborted an acquisition and no call of `abort` is under way, if nobody writes, and the
-- FileWriter, `pollTask` and `streamTask` come to their ends, then `controlTask` waits for the next start
-- after six periods at most, whatever it was doing; `arm` may fail, and the detector may stay busy.
pub abort_ends :
    (ms : List Moment) (c : Control)
    → AllQuiet ms
    → Orderly c
    → c.status ≡ aborted
    → c.aborting ≡ 0
    → rank c.phase ≤ length ms
    → (k : ℕ) × (k ≤ rank c.phase) × ((control (take k ms) c).phase ≡ waiting)
unfolding control
abort_ends [] c q h e z le = (0, omega arith, rank-waiting c.phase (omega (arith, le)))
abort_ends (m ∷ ms) c q h e z le = elim (waiting-cases c.phase) [
  | inl w ↦ (0, omega arith, w)
  | inr n ↦
      let f = control_step-Falls m c q.0 h e z n in
      elim f.still [
        | inl w ↦ (1, omega (arith, f.lower), w)
        | inr a ↦
            let (k, b, w) =
              abort_ends ms (control_step m c) q.1 (control_step-Orderly m c h) a
                (control_step-aborting m c q.0 e ∙ z) (omega (arith, f.lower, le)) in
            (suc k, omega (arith, f.lower, b), w)
      ]
]
