-- ===== src/Detector/Pipeline/References.antt =====
-- The invariant of the references to a file in eigerApp/src/eigerDetector.cpp, and what a step does with
-- the reference counts.
use adeiger.Base.{ℕ, suc, ◌+◌, ◌<◌, ◌≤◌, ◌≡◌, refl, ◌⊎◌, inl, true, false, arith}
use adeiger.Rest.Outside.{Outside}
use adeiger.Detector.Files.{Acquisition, File, Files, make_file, update, uses, busy}
use adeiger.Detector.Pipeline.{
  Pipeline, Poller, Step, finds, offers, drains, waits, takes, fetches, gives_up, for_parser,
  for_saver, saved, reaped, find_file, miss_file, offer_file, wait_pending, download, give_parser,
  give_saver, save_file, reap, offering, done, start,
}
use adeiger.Detector.Pipeline.Counts.{at, for_both, unsent, queued, readers, pieces, count-append}
use adeiger.Detector.Pipeline.Moves.{reaps_of, lost, Step-SameUses, Step-pieces}

-- The files that are counted as pending or have been.
abbrev pub sent : Poller → ℕ → ℕ
sent offering n = suc n
sent _ n = n

pub record Inv (s : Pipeline) : Type 0 where
  pub covered : (n : ℕ) → pieces s n ≤ (s.files n).ref_count
  pub fresh : (n : ℕ) → s.next ≤ n → (s.files n).ref_count ≡ uses (s.files n)
  pub wanted : (n : ℕ) → 0 < queued s n → 0 < uses (s.files n)
  pub offered : s.poller ≡ offering → (s.next < s.total) × (0 < uses (s.files s.next))
  pub counted : s.pending ≡ busy s.files (sent s.poller s.next)
  pub settled : s.poller ≡ done → s.pending ≡ 0
  pub loaded : (n : ℕ) → 0 < readers s n → (s.files n).has_data ≡ true

busy-start : (fs : Files) (n : ℕ) → busy fs 0 ≡ 0
unfolding busy
busy-start fs n = refl

pub start-Inv : (o : Outside) (acq : Acquisition) → Inv (start o acq)
unfolding start make_file busy
start-Inv o acq = record {
  covered = λ n. ground arith;
  fresh = λ n h. refl;
  wanted = λ n h. omega (arith, h);
  offered = λ e. cc;
  counted = refl;
  settled = λ e. refl;
  loaded = λ n h. absurd (omega (arith, h));
}

reap-refs :
    (i : ℕ) (s : Pipeline) (n : ℕ)
    → at n i ≤ (s.files n).ref_count
    → ((reap i s).files n).ref_count + at n i ≡ (s.files n).ref_count
unfolding reap update
reap-refs i s n h = ground arith

pub Step-next : {s t : Pipeline} → Step s t → s.next ≤ t.next
unfolding find_file offer_file miss_file wait_pending download give_parser give_saver save_file reap
Step-next (finds p q) = ground arith
Step-next (offers p q) = omega arith
Step-next (waits p) = ground arith
Step-next (for_parser p q) = ground arith
Step-next (for_saver p q) = ground arith
Step-next (reaped p) = ground arith
Step-next (fetches true p) = omega arith
Step-next (fetches false p) = omega arith
Step-next (saved true p) = omega arith
Step-next (saved false p) = omega arith
Step-next _ = omega arith

uses-SameUses : (f g : File) → (f.save ≡ g.save) × (f.parse ≡ g.parse) → uses f ≡ uses g
uses-SameUses f g (a, b) = rw (a, b) refl

pub unsent-one : (s : Pipeline) (n : ℕ) → s.next ≤ n → unsent s n ≡ 1
unsent-one s n h = ground arith

pub both-le : (f : File) (j k : ℕ) → j ≡ 1 → uses f ≤ for_both f (j + k)
both-le f j k e = rw e (ground arith)

-- A reference before the download is new only where the file is sent.
Step-queued :
    {s t : Pipeline} (st : Step s t) (n : ℕ)
    → 0 < queued t n
    → (0 < queued s n) ⊎ ((s.poller ≡ offering) × (n ≡ s.next))
unfolding find_file offer_file miss_file wait_pending download give_parser give_saver save_file reap
Step-queued (finds p q) n h = ground arith
Step-queued {s} (offers p q) n h = ground (arith, count-append n s.downloads s.next)
Step-queued (waits p) n h = ground arith
Step-queued (takes p q) n h = ground arith
Step-queued (for_parser p q) n h = ground arith
Step-queued (for_saver p q) n h = ground arith
Step-queued (reaped p) n h = ground arith
Step-queued (fetches true p) n h = ground arith
Step-queued (fetches false p) n h = ground arith
Step-queued (gives_up p q) n h = ground arith
Step-queued (saved true p) n h = inl h
Step-queued (saved false p) n h = inl h
Step-queued _ n h = inl h

module _ {s : Pipeline} (inv : Inv s) where
  open inv use {covered, fresh, wanted, offered, counted, settled, loaded}

  pub accounted :
      {t : Pipeline} (st : Step s t) (n : ℕ) → pieces t n + (lost st n + reaps_of st n) ≡ pieces s n
  accounted st n = Step-pieces st n (wanted n) (λ e. (offered e).1)

  pub Step-refs :
      {t : Pipeline} (st : Step s t) (n : ℕ)
      → (t.files n).ref_count + reaps_of st n ≡ (s.files n).ref_count
  unfolding find_file miss_file offer_file wait_pending download give_parser give_saver save_file
      reap update
  Step-refs (finds p q) n = ground arith
  Step-refs (waits p) n = ground arith
  Step-refs (fetches true p) n = ground arith
  Step-refs (for_parser p q) n = ground arith
  Step-refs (for_saver p q) n = ground arith
  Step-refs (saved false p) n = ground arith
  Step-refs (reaped {i} p) n = reap-refs i s n (omega (arith, accounted (reaped p) n, covered n))
  Step-refs (fetches false p) n = omega arith
  Step-refs _ n = omega arith

  pub Step-fresh :
      {t : Pipeline} (st : Step s t) (n : ℕ) → t.next ≤ n → (t.files n).ref_count ≡ uses (t.files n)
  Step-fresh {t} st n h = omega (
    arith,
    accounted st n,
    Step-refs st n,
    covered n,
    fresh n past,
    uses-SameUses (t.files n) (s.files n) (Step-SameUses st n),
    both-le (s.files n) (unsent s n) (queued s n) (unsent-one s n past),
    both-le (t.files n) (unsent t n) (queued t n) (unsent-one t n h),
  )
    where
      past : s.next ≤ n
      past = omega (arith, Step-next st)

  pub Step-wanted : {t : Pipeline} (st : Step s t) (n : ℕ) → 0 < queued t n → 0 < uses (t.files n)
  Step-wanted st n h = ground (arith, Step-queued st n h, Step-SameUses st n, wanted n, offered)

  pub Step-settled : {t : Pipeline} (st : Step s t) → t.poller ≡ done → t.pending ≡ 0
  unfolding find_file miss_file offer_file wait_pending download give_parser give_saver save_file
      reap
  Step-settled (finds p q) e = ground arith
  Step-settled (waits p) e = ground arith
  Step-settled (for_parser p q) e = ground arith
  Step-settled (for_saver p q) e = ground arith
  Step-settled (reaped p) e = ground arith
  Step-settled (offers p q) e = cc
  Step-settled (drains p q) e = cc
  Step-settled (fetches true p) e = settled e
  Step-settled (fetches false p) e = settled e
  Step-settled (saved true p) e = settled e
  Step-settled (saved false p) e = settled e
  Step-settled _ e = settled e

  pub Step-offered :
      {t : Pipeline} (st : Step s t)
      → t.poller ≡ offering
      → (t.next < t.total) × (0 < uses (t.files t.next))
  unfolding find_file miss_file offer_file wait_pending download give_parser give_saver save_file
      reap update
  Step-offered (finds p q) e = ground (arith, offered)
  Step-offered (waits p) e = ground arith
  Step-offered (offers p q) e = cc
  Step-offered (drains p q) e = cc
  Step-offered (for_parser p q) e = ground (arith, offered)
  Step-offered (for_saver p q) e = ground (arith, offered)
  Step-offered (fetches true p) e = ground (arith, offered)
  Step-offered (fetches false p) e = offered e
  Step-offered (saved true p) e = offered e
  Step-offered (saved false p) e = ground (arith, offered)
  Step-offered (reaped p) e = ground (arith, offered)
  Step-offered _ e = offered e

  pub Step-covered : {t : Pipeline} (st : Step s t) (n : ℕ) → pieces t n ≤ (t.files n).ref_count
  Step-covered st n = omega (arith, accounted st n, Step-refs st n, covered n)
