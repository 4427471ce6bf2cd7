-- ===== src/Detector/Pipeline/Removal.antt =====
-- Which files are removed from the server, and when.
use adeiger.Base.{ℕ, ◌+◌, ◌≤◌, ◌≡◌, refl, sym, ◌∙◌, ◌⊎◌, inl, inr, true, false, count, arith}
use adeiger.Detector.Pipeline.Starvation.{Reach-save}
use native.Mathlib.Decide.{dec_lt}
use adeiger.Rest.Outside.{Outside}
use adeiger.Detector.Files.{Acquisition, update}
use adeiger.Detector.Pipeline.{
  Downloader, fetched, passed, Pipeline, Step, stops, finds, misses, offers, drains, waits, takes,
  fetches, gives_up, for_parser, for_saver, takes_parse, parsed, takes_save, saved, leaves,
  collects, reaped, find_file, miss_file, offer_file, wait_pending, download, give_parser,
  give_saver, save_file, reap, Run, at_rest, then_step, Reach, start,
}
use adeiger.Detector.Pipeline.Counts.{at, before_save, queued, unsent, pieces, count-append}
use adeiger.Detector.Pipeline.Moves.{unsent_suc, Step-SameUses}
use adeiger.Detector.Pipeline.References.{Inv}
use adeiger.Detector.Pipeline.Invariant.{Step-Inv, Reach-Inv}
use adeiger.Detector.Pipeline.Once.{Reach-Once}

-- Every download of a file that is to be saved succeeds.
abbrev pub Arrives : {s t : Pipeline} → Step s t → Type 0
Arrives {s} (fetches {i} false e) = (s.files i).save ≡ false
Arrives _ = Unit

abbrev pub AllArrive : {s t : Pipeline} → Run s t → Type 0
AllArrive at_rest = Unit
AllArrive (then_step r st) = AllArrive r × Arrives st

abbrev to_saver : Downloader → ℕ → ℕ
to_saver (fetched i) n = at n i
to_saver (passed i) n = at n i
to_saver _ n = 0

-- How often the file will be saved or has been.
abbrev saves_of : Pipeline → ℕ → ℕ
saves_of s n =
    unsent s n
    + queued s n
    + to_saver s.downloader n
    + count n s.saves
    + before_save s.saver n
    + count n s.disk

Step-remove :
    {s t : Pipeline} (st : Step s t) (n : ℕ) → (t.files n).remove ≡ true → (s.files n).remove ≡ true
unfolding find_file miss_file offer_file wait_pending download give_parser give_saver save_file reap
    update
Step-remove (finds p q) n w = ground arith
Step-remove (waits p) n w = ground arith
Step-remove (for_parser p q) n w = ground arith
Step-remove (for_saver p q) n w = ground arith
Step-remove (fetches true p) n w = ground arith
Step-remove (fetches false p) n w = w
Step-remove (saved true p) n w = w
Step-remove (saved false p) n w = ground arith
Step-remove (reaped p) n w = ground arith
Step-remove _ n w = w

abbrev Wanted : Pipeline → ℕ → Type 0
Wanted s n = ((s.files n).save ≡ true) × ((s.files n).remove ≡ true)

Step-Wanted : {s t : Pipeline} (st : Step s t) (n : ℕ) → Wanted t n → Wanted s n
Step-Wanted st n (a, b) = (sym (Step-SameUses st n).0 ∙ a, Step-remove st n b)

Step-saves_of :
    {s t : Pipeline} (st : Step s t) (n : ℕ) → Wanted t n → Arrives st → saves_of s n ≤ saves_of t n
unfolding find_file miss_file offer_file wait_pending download give_parser give_saver save_file reap
    update
Step-saves_of stops n w g = omega arith
Step-saves_of {s} (finds p q) n w g = ground (arith, unsent_suc s.next n)
Step-saves_of (misses p q) n w g = omega arith
Step-saves_of {s} (offers p q) n w g =
    omega (arith, count-append n s.downloads s.next, unsent_suc s.next n)
Step-saves_of (drains p q) n w g = omega arith
Step-saves_of (waits p) n w g = ground arith
Step-saves_of (takes p q) n w g = ground arith
Step-saves_of (fetches true p) n w g = ground arith
Step-saves_of (fetches false p) n w g = ground arith
Step-saves_of (gives_up p q) n w g = ground arith
Step-saves_of (for_parser p q) n w g = ground arith
Step-saves_of {s} (for_saver {i} p q) n w g = ground (arith, count-append n s.saves i)
Step-saves_of (takes_parse p q) n w g = omega arith
Step-saves_of (parsed p q) n w g = omega arith
Step-saves_of (takes_save p q) n w g = ground arith
Step-saves_of (saved true p) n w g = ground arith
Step-saves_of (saved false p) n w g = ground arith
Step-saves_of (leaves p q) n w g = ground arith
Step-saves_of (collects p q) n w g = omega arith
Step-saves_of (reaped p) n w g = ground arith

start-saves_of : (o : Outside) (acq : Acquisition) (n : ℕ) → 1 ≤ saves_of (start o acq) n
unfolding start
start-saves_of o acq n = ground arith

Reach-saves_of :
    (o : Outside) (acq : Acquisition) {s : Pipeline}
    → (r : Reach o acq s) → AllArrive r
    → (n : ℕ) → Wanted s n
    → 1 ≤ saves_of s n
Reach-saves_of o acq at_rest g n w = start-saves_of o acq n
Reach-saves_of o acq (then_step r st) g n w =
    omega (arith, Step-saves_of st n w g.1, Reach-saves_of o acq r g.0 n (Step-Wanted st n w))

saves_of-pieces :
    (s : Pipeline) (n : ℕ) → (s.files n).save ≡ true → saves_of s n ≤ pieces s n + count n s.disk
saves_of-pieces s n e = ground arith

Step-disk : {s t : Pipeline} (st : Step s t) (n : ℕ) → count n s.disk ≤ count n t.disk
unfolding find_file miss_file offer_file wait_pending download give_parser give_saver save_file reap
Step-disk (finds p q) n = ground arith
Step-disk (waits p) n = ground arith
Step-disk (for_parser p q) n = ground arith
Step-disk (for_saver p q) n = ground arith
Step-disk (fetches true p) n = omega arith
Step-disk (fetches false p) n = omega arith
Step-disk (saved true p) n = ground arith
Step-disk (saved false p) n = omega arith
Step-disk (reaped p) n = ground arith
Step-disk _ n = omega arith

-- A removal is asked for when the last reference is gone, and only if it is wanted.
abbrev Removed : Pipeline → Pipeline → ℕ → Type 0
Removed s t n =
    (count n t.deletes ≤ count n s.deletes)
    ⊎ (((t.files n).remove ≡ true) × ((t.files n).ref_count ≡ 0))

reap-Removed : (s : Pipeline) (i n : ℕ) → Removed s (reap i s) n
unfolding reap update
reap-Removed s i n = ground arith

find_file-Removed : (s : Pipeline) (n : ℕ) → Inv s → Removed s (find_file s) n
unfolding find_file
find_file-Removed s n inv = ground (arith, inv.fresh s.next)

Step-Removed : {s t : Pipeline} (st : Step s t) (n : ℕ) → Inv s → Removed s t n
unfolding miss_file offer_file wait_pending download give_parser give_saver save_file
Step-Removed {s} (finds p q) n inv = find_file-Removed s n inv
Step-Removed {s} (reaped {i} p) n inv = reap-Removed s i n
Step-Removed (waits p) n inv = ground arith
Step-Removed (for_parser p q) n inv = ground arith
Step-Removed (for_saver p q) n inv = ground arith
Step-Removed (fetches true p) n inv = inl (omega arith)
Step-Removed (fetches false p) n inv = inl (omega arith)
Step-Removed (saved true p) n inv = inl (omega arith)
Step-Removed (saved false p) n inv = inl (omega arith)
Step-Removed _ n inv = inl (omega arith)

start-deletes : (o : Outside) (acq : Acquisition) (n : ℕ) → count n (start o acq).deletes ≡ 0
unfolding start
start-deletes o acq n = refl

Reach-on_disk :
    (o : Outside) (acq : Acquisition) {s : Pipeline}
    → (r : Reach o acq s) → AllArrive r
    → (n : ℕ) → (s.files n).save ≡ true
    → 1 ≤ count n s.deletes
    → 1 ≤ count n s.disk
Reach-on_disk o acq at_rest g n a h = omega (arith, start-deletes o acq n)
Reach-on_disk o acq {s} (then_step r st) g n a h = elim (Step-Removed st n (Reach-Inv o acq r)) [
  | inl le ↦ omega (
    arith,
    Step-disk st n,
    Reach-on_disk o acq r g.0 n (sym (Step-SameUses st n).0 ∙ a) (omega (arith, le, h)),
  )
  | inr (w, e) ↦ omega (
    arith,
    e,
    Reach-saves_of o acq (then_step r st) g n (a, w),
    saves_of-pieces s n a,
    (Step-Inv st (Reach-Inv o acq r)).covered n,
  )
]

-- If files are saved and every download succeeds, then the removal of a file from the server is asked for
-- at most once, and only after the whole file was written to the disk; writing it may fail, and the tasks may
-- run in any order.
pub removed_once_after_saved :
    (o : Outside) (acq : Acquisition) {s : Pipeline}
    → (r : Reach o acq s) → AllArrive r
    → acq.save_files ≡ true
    → (n : ℕ) → (count n s.deletes ≤ 1) × (count n s.deletes ≤ count n s.disk)
removed_once_after_saved o acq {s} r g a n =
    let once = (Reach-Once o acq r n).referred in
    elim (dec_lt 0 (count n s.deletes)) [
      | yes h ↦ (
        omega (arith, once),
        omega (arith, once, Reach-on_disk o acq r g n (Reach-save o acq r n ∙ a) h),
      )
      | no h ↦ (omega (arith, h), omega (arith, h))
    ]
