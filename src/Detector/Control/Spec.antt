-- ===== src/Detector/Control/Spec.antt =====
-- What a client may see of an acquisition of eigerApp/src/eigerDetector.cpp: what each write changes, and what
-- the task may change between two places where it frees the lock.
use adeiger.Base.{ℕ, suc, ◌-◌, ◌==◌, ◌≡◌, Bool, true, false, List, [], ◌∷◌, if◌then◌else◌}
use adeiger.Detector.Control.{
  Status, idle, acquiring, failed, aborted, Write, to_acquire, abort_returns, to_trigger, to_params,
  is_acquiring, is_continuous,
}

-- `active` while the task is within an acquisition, which `repeats` if its mode is continuous; `continuous` is
-- the mode that is set for the next. `asked` is whether a start is pending, and `aborting` counts the stops
-- that are still in the call of `abort`.
pub record Seen : Type 0 where
  pub active : Bool
  pub repeats : Bool
  pub continuous : Bool
  pub asked : Bool
  pub aborting : ℕ
  pub status : Status
  pub acquire : Bool

-- A write sets ADStatus and ADAcquire, and asks for a start if none runs.
unfoldable pub client : Write → Seen → Seen
client (to_acquire true) s = record s {
  status = acquiring;
  asked = if is_acquiring s.status then s.asked else true;
  acquire = true;
}
client (to_acquire false) s =
    if is_acquiring s.status
    then record s { status = aborted; aborting = suc s.aborting }
    else record s { acquire = false }
client abort_returns s =
    if s.aborting == 0 then s else record s { aborting = s.aborting - 1; acquire = false }
client to_trigger s = s
client (to_params p) s = record s { continuous = is_continuous p.trigger_mode }

unfoldable pub clients : List Write → Seen → Seen
clients [] s = s
clients (w ∷ ws) s = clients ws (client w s)

-- The task alone. An acquisition begins, or is refused, just if it was asked for, and what was asked for is
-- then taken. It ends as failed, as idle only if the status still says that it runs, as aborted only if
-- the status says so, or with the next one asked for if it repeats.
pub data Turn (s : Seen) : Seen → Type 0 where
  waits : s.active ≡ false → s.asked ≡ false → Turn s s
  stays : s.active ≡ true → Turn s s
  begins :
      s.active ≡ false
      → s.asked ≡ true
      → Turn s
          (record s { active = true; repeats = s.continuous; asked = false; status = acquiring })
  refuses :
      s.active ≡ false
      → s.asked ≡ true
      → Turn s (record s {
        active = false;
        repeats = s.continuous;
        asked = false;
        status = failed;
        acquire = false;
      })
  fails : s.active ≡ true → Turn s (record s { active = false; status = failed; acquire = false })
  completes :
      s.active ≡ true
      → s.repeats ≡ false
      → s.status ≡ acquiring
      → Turn s (record s { active = false; status = idle; acquire = false })
  goes_on :
      s.active ≡ true
      → s.repeats ≡ true
      → s.status ≡ acquiring
      → Turn s (record s { active = false; asked = true })
  gives_up :
      s.active ≡ true → s.status ≡ aborted → Turn s (record s { active = false; acquire = false })

-- The writes that were made each time the lock was free, each time followed by one turn of the task.
pub data Turns : Seen → List (List Write) → Seen → Type 0 where
  no_turn : {s : Seen} → Turns s [] s
  then_turn :
      {ws : List Write} {wss : List (List Write)} {s t u : Seen}
      → Turn (clients ws s) t
      → Turns t wss u
      → Turns s (ws ∷ wss) u
