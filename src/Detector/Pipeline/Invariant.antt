-- ===== src/Detector/Pipeline/Invariant.antt =====
-- What holds of every acquisition: the reference counts cover the references, and the number of pending
-- files is that of the files still referred to.
use adeiger.Base.{ℕ, ◌<◌, ◌≡◌, ◌∙◌, ◌⊎◌, inl, inr, true, false, arith}
use adeiger.Rest.Outside.{Outside}
use adeiger.Detector.Files.{Acquisition, update}
use adeiger.Detector.Pipeline.{
  Pipeline, Step, finds, waits, takes, fetches, gives_up, for_parser, for_saver, takes_parse,
  parsed, takes_save, saved, leaves, reaped, find_file, miss_file, offer_file, wait_pending,
  download, give_parser, give_saver, save_file, reap, Run, at_rest, then_step, Reach,
}
use adeiger.Detector.Pipeline.Counts.{readers, count-append}
use adeiger.Detector.Pipeline.Moves.{after_download-SameUses, reap-SameUses}
use adeiger.Detector.Pipeline.References.{
  Inv, start-Inv, Step-fresh, Step-wanted, Step-settled, Step-offered, Step-covered,
}
use adeiger.Detector.Pipeline.Pending.{Step-counted}

reap-data :
    (i : ℕ) (s : Pipeline) (n : ℕ)
    → (((reap i s).files n).ref_count ≡ 0) ⊎ (((reap i s).files n).has_data ≡ (s.files n).has_data)
unfolding reap update
reap-data i s n = ground arith

reap-readers : (i : ℕ) (s : Pipeline) (n : ℕ) → readers (reap i s) n ≡ readers s n
unfolding reap
reap-readers i s n = ground (
  arith,
  after_download-SameUses s.downloader n ((reap i s).files n) (s.files n) (reap-SameUses i s n),
)

module _ {s : Pipeline} (inv : Inv s) where
  open inv use {covered, fresh, wanted, offered, counted, settled, loaded}

  Step-loaded :
      {t : Pipeline} (st : Step s t) (n : ℕ) → 0 < readers t n → (t.files n).has_data ≡ true
  unfolding find_file miss_file offer_file wait_pending download give_parser give_saver save_file
      update
  Step-loaded (finds p q) n h = ground (arith, loaded n)
  Step-loaded (waits p) n h = ground (arith, loaded n)
  Step-loaded {t} (reaped {i} p) n h = elim (reap-data i s n) [
    | inl e ↦ absurd (omega (arith, h, e, Step-covered inv (reaped p) n))
    | inr e ↦ e ∙ loaded n (omega (arith, h, reap-readers i s n))
  ]
  Step-loaded (for_parser {i} p q) n h = ground (arith, loaded n, count-append n s.parses i)
  Step-loaded (for_saver {i} p q) n h = ground (arith, loaded n, count-append n s.saves i)
  Step-loaded (fetches true p) n h = ground (arith, loaded n)
  Step-loaded (fetches false p) n h = ground (arith, loaded n)
  Step-loaded (saved true p) n h = ground (arith, loaded n)
  Step-loaded (saved false p) n h = ground (arith, loaded n)
  Step-loaded (takes p q) n h = ground (arith, loaded n)
  Step-loaded (gives_up p q) n h = ground (arith, loaded n)
  Step-loaded (takes_parse p q) n h = ground (arith, loaded n)
  Step-loaded (parsed p q) n h = ground (arith, loaded n)
  Step-loaded (takes_save p q) n h = ground (arith, loaded n)
  Step-loaded (leaves p q) n h = ground (arith, loaded n)
  Step-loaded _ n h = loaded n h

pub Step-Inv : {s t : Pipeline} → Step s t → Inv s → Inv t
Step-Inv st inv = record {
  covered = Step-covered inv st;
  fresh = Step-fresh inv st;
  wanted = Step-wanted inv st;
  offered = Step-offered inv st;
  counted = Step-counted inv st;
  settled = Step-settled inv st;
  loaded = Step-loaded inv st;
}

pub Run-Inv : {s t : Pipeline} → Run s t → Inv s → Inv t
Run-Inv at_rest inv = inv
Run-Inv (then_step r st) inv = Step-Inv st (Run-Inv r inv)

-- Whatever order the tasks run in and whatever calls fail: the references that the queues and the tasks
-- hold to a file never exceed its reference count, the number of pending files is that of the files whose
-- count is not zero, and a file whose data a task will read still has its data.
pub Reach-Inv : (o : Outside) (acq : Acquisition) {s : Pipeline} → Reach o acq s → Inv s
Reach-Inv o acq r = Run-Inv r (start-Inv o acq)
