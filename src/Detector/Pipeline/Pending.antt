-- ===== src/Detector/Pipeline/Pending.antt =====
-- The number of pending files in eigerApp/src/eigerDetector.cpp.
use adeiger.Base.{
  ℕ, ◌≢◌, zero, suc, ◌-◌, ◌<◌, ◌≤◌, ◌≡◌, refl, sym, ◌∙◌, inl, inr, Bool, true, false, some, ◌==◌,
  arith, Bool-cases,
}
use native.Mathlib.Decide.{dec_lt}
use adeiger.Detector.Files.{File, Files, positive, busy, busy-update}
use adeiger.Detector.Pipeline.{
  Pipeline, Poller, Step, finds, offers, drains, waits, fetches, for_parser, for_saver, saved,
  reaped, find_file, miss_file, offer_file, wait_pending, download, give_parser, give_saver,
  save_file, reap, looking,
}
use adeiger.Detector.Pipeline.Counts.{held, unsent, queued}
use adeiger.Detector.Pipeline.Moves.{reaps_of}
use adeiger.Detector.Pipeline.References.{Inv, sent, unsent-one, both-le, Step-refs}

positive-pred : (n : ℕ) → 1 ≤ n → n - 1 ≢ 0 → positive (n - 1) ≡ positive n
positive-pred n h k = ground arith

positive-of : (n : ℕ) → 1 ≤ n → positive n ≡ 1
positive-of n h = ground arith

pub next-le-sent : (p : Poller) (n : ℕ) → n ≤ sent p n
next-le-sent p n = ground arith

busy-cong :
    (fs gs : Files) (n : ℕ)
    → ((j : ℕ) → (fs j).ref_count ≡ (gs j).ref_count)
    → busy fs n ≡ busy gs n
unfolding busy
busy-cong fs gs zero h = refl
busy-cong fs gs (suc n) h = rw (busy-cong fs gs n h, h n) refl

module _ {s : Pipeline} (inv : Inv s) where
  open inv use {covered, fresh, wanted, offered, counted, settled, loaded}

  -- Steps that leave the pending files alone.
  same_busy :
      {t : Pipeline} (st : Step s t)
      → ((n : ℕ) → reaps_of st n ≡ 0)
      → t.pending ≡ s.pending
      → sent t.poller t.next ≡ sent s.poller s.next
      → t.pending ≡ busy t.files (sent t.poller t.next)
  same_busy {t} st none_reaped p q =
      rw (p, q) (counted ∙ sym (busy-cong t.files s.files _ same_refs))
    where
      same_refs : (n : ℕ) → (t.files n).ref_count ≡ (s.files n).ref_count
      same_refs n = omega (arith, Step-refs inv st n, none_reaped n)

  find_file-counted :
      s.poller ≡ looking
      → (find_file s).pending
        ≡ busy (find_file s).files (sent (find_file s).poller (find_file s).next)
  unfolding find_file busy
  find_file-counted p = ground (arith, counted, fresh s.next)

  pub reaper-sent : (i : ℕ) → s.reaper ≡ some i → (1 ≤ (s.files i).ref_count) × (i < s.next)
  reaper-sent i p = elim (dec_lt i s.next) [
    | yes lt ↦ (referred, lt)
    | no past ↦ absurd (
        omega (
          arith,
          here,
          covered i,
          fresh i (omega arith),
          both-le (s.files i) (unsent s i) (queued s i) (unsent-one s i (omega arith)),
        ))
  ]
    where
      here : held s.reaper i ≡ 1
      here = rw p (ground arith)

      referred : 1 ≤ (s.files i).ref_count
      referred = omega (arith, here, covered i)

  reap-counted :
      (i : ℕ)
      → s.reaper ≡ some i
      → (reap i s).pending ≡ busy (reap i s).files (sent (reap i s).poller (reap i s).next)
  unfolding reap
  reap-counted i p = elim (Bool-cases ((s.files i).ref_count - 1 == 0)) [
    | inl e ↦ rw e (
        grind (
          arith,
          counted,
          busy-update s.files i (sent s.poller s.next) (reduced false) lt,
          positive-of _ (reaper-sent i p).0,
        ))
    | inr e ↦ rw e (
        grind (
          arith,
          counted,
          busy-update s.files i (sent s.poller s.next) (reduced (s.files i).has_data) lt,
          positive-pred _ (reaper-sent i p).0,
        ))
  ]
    where
      lt : i < sent s.poller s.next
      lt = omega (arith, (reaper-sent i p).1, next-le-sent s.poller s.next)

      reduced : Bool → File
      reduced b = record (s.files i) { ref_count = (s.files i).ref_count - 1; has_data = b }

  pub Step-counted :
      {t : Pipeline} (st : Step s t) → t.pending ≡ busy t.files (sent t.poller t.next)
  unfolding find_file miss_file offer_file wait_pending download give_parser give_saver save_file
  Step-counted (finds p q) = find_file-counted p
  Step-counted (reaped {i} p) = reap-counted i p
  Step-counted (offers p q) = same_busy (offers p q) (λ n. refl) refl (rw p refl)
  Step-counted (drains p q) = same_busy (drains p q) (λ n. refl) refl (rw p refl)
  Step-counted (waits p) = ground (arith, counted)
  Step-counted (for_parser p q) =
      same_busy (for_parser p q) (λ n. refl) (ground arith) (ground arith)
  Step-counted (for_saver p q) = same_busy (for_saver p q) (λ n. refl) (ground arith) (ground arith)
  Step-counted (fetches true p) = same_busy (fetches true p) (λ n. refl) refl refl
  Step-counted (fetches false p) = same_busy (fetches false p) (λ n. refl) refl refl
  Step-counted (saved true p) = same_busy (saved true p) (λ n. refl) refl refl
  Step-counted (saved false p) = same_busy (saved false p) (λ n. refl) refl refl
  Step-counted _ = counted
