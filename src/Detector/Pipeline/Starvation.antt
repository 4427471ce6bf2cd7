-- ===== src/Detector/Pipeline/Starvation.antt =====
-- When `pollTask` ends, and when it cannot.
use adeiger.Base.{ℕ, ◌+◌, ◌<◌, ◌≤◌, ◌≡◌, ◌≢◌, refl, ◌∙◌, true, false, count, arith}
use native.Mathlib.Decide.{dec_lt}
use adeiger.Rest.Outside.{Outside}
use adeiger.Detector.Files.{Acquisition, File, make_file, uses, positive, busy-here}
use adeiger.Detector.Pipeline.{
  Pipeline, Downloader, got, failed, fetched, passed, Saver, unused, writing, written, Step,
  fetches, Run, at_rest, then_step, Reach, start, done, download,
}
use adeiger.Detector.Pipeline.Counts.{at, for_both, held, unsent, queued, pieces}
use adeiger.Detector.Pipeline.Moves.{lost, Step-SameUses}
use adeiger.Detector.Pipeline.References.{Inv, sent, unsent-one, accounted, Step-refs, Step-next}
use adeiger.Detector.Pipeline.Pending.{next-le-sent}
use adeiger.Detector.Pipeline.Invariant.{Step-Inv, Run-Inv, Reach-Inv}

-- More reaps are expected of a file than will come.
record Starved (s : Pipeline) (n : ℕ) : Type 0 where
  short : pieces s n < (s.files n).ref_count
  begun : n < s.next

Step-Starved : {s t : Pipeline} (st : Step s t) (n : ℕ) → Inv s → Starved s n → Starved t n
Step-Starved st n inv h = record {
  short = omega (arith, h.short, accounted inv st n, Step-refs inv st n);
  begun = omega (arith, h.begun, Step-next st);
}

Run-Starved : {s t : Pipeline} (r : Run s t) (n : ℕ) → Inv s → Starved s n → Starved t n
Run-Starved at_rest n inv h = h
Run-Starved (then_step r st) n inv h = Step-Starved st n (Run-Inv r inv) (Run-Starved r n inv h)

positive-at_least : (n : ℕ) → 1 ≤ n → positive n ≡ 1
positive-at_least n h = ground arith

-- While a file that was sent is referred to, the poll task does not end.
unfinished :
    (s : Pipeline) (n : ℕ) → Inv s → n < s.next → 1 ≤ (s.files n).ref_count → s.poller ≢ done
unfinished s n inv lt h e = absurd (
    omega (
      arith,
      inv.counted,
      inv.settled e,
      busy-here s.files n (sent s.poller s.next) (omega (arith, next-le-sent s.poller s.next)),
      positive-at_least _ h,
    ))

Starved-unfinished : (s : Pipeline) (n : ℕ) → Inv s → Starved s n → s.poller ≢ done
Starved-unfinished s n inv h = unfinished s n inv h.begun (omega (arith, h.short))

both-twice : (f : File) (j k : ℕ) → j ≡ 1 → 1 ≤ k → uses f + uses f ≤ for_both f (j + k)
both-twice f j k e h = rw e (ground arith)

-- A file that is being downloaded was sent.
got-begun : (s : Pipeline) (n : ℕ) → Inv s → s.downloader ≡ got n → n < s.next
got-begun s n inv e = elim (dec_lt n s.next) [
  | yes lt ↦ lt
  | no past ↦ absurd (
      omega (
        arith,
        inv.covered n,
        inv.fresh n (omega arith),
        inv.wanted n waits,
        both-twice (s.files n) (unsent s n) (queued s n) (unsent-one s n (omega arith)) waits,
      ))
]
  where
    waits : 1 ≤ queued s n
    waits = rw e (ground arith)

lost-Starved :
    (s : Pipeline) (n : ℕ)
    → Inv s
    → s.downloader ≡ got n
    → (s.files n).save ≡ true
    → (s.files n).parse ≡ true
    → Starved (download n false s) n
unfolding download
lost-Starved s n inv e a b = record {
  short = omega (arith, accounted inv (fetches false e) n, inv.covered n, losing);
  begun = got-begun s n inv e;
}
  where
    losing : lost {s = s} {t = download n false s} (fetches false e) n ≡ 1
    losing = rw (a, b) (ground arith)

-- When the download of a file that is to be saved and parsed fails, `pollTask` never ends, whatever happens
-- afterwards: the file is handed to `reapTask` once, but counts twice.
pub failed_download_starves :
    (o : Outside) (acq : Acquisition) {s t : Pipeline} (n : ℕ)
    → Reach o acq s
    → s.downloader ≡ got n
    → (s.files n).save ≡ true
    → (s.files n).parse ≡ true
    → Run (download n false s) t
    → t.poller ≢ done
failed_download_starves o acq {s} {t} n reach e a b r =
    Starved-unfinished t n (Run-Inv r after) (Run-Starved r n after (lost-Starved s n before e a b))
  where
    before : Inv s
    before = Reach-Inv o acq reach

    after : Inv (download n false s)
    after = Step-Inv (fetches false e) before

-- A reference that `downloadTask` holds.
abbrev pub of_downloader : Downloader → ℕ → ℕ
of_downloader (got i) n = at n i
of_downloader (failed i) n = at n i
of_downloader (fetched i) n = at n i
of_downloader (passed i) n = at n i
of_downloader _ n = 0

abbrev pub of_saver : Saver → ℕ → ℕ
of_saver (writing i) n = at n i
of_saver (written i) n = at n i
of_saver unused n = 0

-- All the pointers to a file.
abbrev pub pointers : Pipeline → ℕ → ℕ
pointers s n =
    count n s.downloads
    + of_downloader s.downloader n
    + count n s.parses
    + held s.parser n
    + count n s.saves
    + of_saver s.saver n
    + count n s.reaps
    + held s.reaper n

-- Each pointer to a file that is to be saved is counted.
pointers-counted :
    (s : Pipeline) (n : ℕ)
    → (s.files n).save ≡ true
    → for_both (s.files n) (unsent s n) + pointers s n ≤ pieces s n
pointers-counted s n e = ground arith

both-exact : (f : File) (j : ℕ) → j ≡ 1 → for_both f j ≡ uses f
both-exact f j e = rw e (ground arith)

start-save :
    (o : Outside) (acq : Acquisition) (n : ℕ) → ((start o acq).files n).save ≡ acq.save_files
unfolding start make_file
start-save o acq n = refl

pub Reach-save :
    (o : Outside) (acq : Acquisition) {s : Pipeline}
    → Reach o acq s
    → (n : ℕ) → (s.files n).save ≡ acq.save_files
Reach-save o acq at_rest n = start-save o acq n
Reach-save o acq (then_step r st) n = (Step-SameUses st n).0 ∙ Reach-save o acq r n

no_references :
    (s : Pipeline) (n : ℕ) → Inv s → s.poller ≡ done → n < s.next → (s.files n).ref_count ≡ 0
no_references s n inv e lt = elim (dec_lt 0 (s.files n).ref_count) [
  | yes h ↦ absurd (unfinished s n inv lt h e)
  | no h ↦ omega arith
]

-- When files are saved, then no queue and no task holds a pointer to any file once `pollTask` frees the
-- list of files.
pub done_holds_nothing :
    (o : Outside) (acq : Acquisition) {s : Pipeline}
    → acq.save_files ≡ true
    → Reach o acq s
    → s.poller ≡ done
    → (n : ℕ) → pointers s n ≡ 0
done_holds_nothing o acq {s} saves r e n = elim (dec_lt n s.next) [
  | yes lt ↦ omega (arith, inv.covered n, no_references s n inv e lt, all_counted)
  | no past ↦ omega (
    arith,
    inv.covered n,
    inv.fresh n (omega arith),
    all_counted,
    both-exact (s.files n) (unsent s n) (unsent-one s n (omega arith)),
  )
]
  where
    inv : Inv s
    inv = Reach-Inv o acq r

    all_counted : for_both (s.files n) (unsent s n) + pointers s n ≤ pieces s n
    all_counted = pointers-counted s n (Reach-save o acq r n ∙ saves)
