-- ===== src/Detector/Pipeline/Moves.antt =====
-- What one step does with the references to one file.
use adeiger.Base.{
  ℕ, suc, ◌+◌, ◌-◌, ◌<◌, ◌≡◌, refl, ap, Bool, true, false, some, ◌==◌, leb, arith, if◌then◌else◌,
  ◌||◌, Bool-cases, inl, inr,
}
use native.Mathlib.Decide.{ℕ_discrete}
use adeiger.Detector.Files.{File, Files, update, uses}
use adeiger.Detector.Pipeline.{
  Pipeline, Downloader, Step, stops, finds, misses, offers, drains, waits, takes, fetches, gives_up,
  for_parser, for_saver, takes_parse, parsed, takes_save, saved, leaves, collects, reaped,
  find_file, miss_file, offer_file, wait_pending, download, give_parser, give_saver, save_file,
  reap, offering,
}
use adeiger.Detector.Pipeline.Counts.{
  at, for_both, held, unsent, after_download, queued, pieces, count-append,
}

-- The references that a failed download forgets: a file is handed to `reapTask` once, however often it
-- is to be reaped.
abbrev pub lost : {s t : Pipeline} → Step s t → ℕ → ℕ
lost {s} (fetches {i} false e) n = if n == i then uses (s.files n) - 1 else 0
lost _ n = 0

abbrev pub reaps_of : {s t : Pipeline} → Step s t → ℕ → ℕ
reaps_of (reaped {i} e) n = at n i
reaps_of _ n = 0

abbrev pub SameUses : File → File → Type 0
SameUses f g = (f.save ≡ g.save) × (f.parse ≡ g.parse)

ruleset moving = (arith, count-append)

pub reap-SameUses : (i : ℕ) (s : Pipeline) (n : ℕ) → SameUses ((reap i s).files n) (s.files n)
unfolding reap update
reap-SameUses i s n = ground arith

update-SameUses :
    (fs : Files) (i n : ℕ) (f : File) → SameUses f (fs i) → SameUses (update fs i f n) (fs n)
unfolding update
update-SameUses fs i n f h = ground arith

pub Step-SameUses : {s t : Pipeline} (st : Step s t) (n : ℕ) → SameUses (t.files n) (s.files n)
unfolding find_file miss_file offer_file wait_pending download give_parser give_saver save_file reap
    update
Step-SameUses (finds p q) n = ground arith
Step-SameUses (waits p) n = ground arith
Step-SameUses {s} (fetches {i} true p) n = update-SameUses s.files i n _ (refl, refl)
Step-SameUses (for_parser p q) n = ground arith
Step-SameUses (for_saver p q) n = ground arith
Step-SameUses {s} (saved {i} false p) n = update-SameUses s.files i n _ (refl, refl)
Step-SameUses {s} (reaped {i} p) n = reap-SameUses i s n
Step-SameUses (fetches false p) n = (refl, refl)
Step-SameUses _ n = (refl, refl)

pub unsent_suc : (k n : ℕ) → (if leb (suc k) n then 1 else 0) + at n k ≡ (if leb k n then 1 else 0)
unsent_suc k n = ground arith

both-none : (f : File) (k : ℕ) → f.save || f.parse ≡ false → for_both f k ≡ 0
both-none f k h = ground arith

find_file-pieces : (s : Pipeline) (n : ℕ) → pieces (find_file s) n ≡ pieces s n
unfolding find_file
find_file-pieces s n = elim (Bool-cases ((s.files s.next).save || (s.files s.next).parse)) [
  | inl e ↦ rw e refl
  | inr e ↦ elim (ℕ_discrete n s.next) [
    | yes q ↦ rw e (grind (arith, both-none (s.files s.next), unsent_suc s.next n))
    | no q ↦ rw e (grind (arith, unsent_suc s.next n))
  ]
]

pub after_download-SameUses :
    (d : Downloader) (n : ℕ) (f g : File)
    → SameUses f g
    → after_download d f n ≡ after_download d g n
after_download-SameUses d n f g h = ground arith

both-SameUses : (n : ℕ) (f g : File) → SameUses f g → for_both f n ≡ for_both g n
both-SameUses n f g (a, b) = rw (a, b) refl

-- A file of another list that goes to the same tasks.
abbrev with_files : Pipeline → Files → Pipeline
with_files s fs = record s { files = fs }

with_files-pieces :
    (s : Pipeline) (fs : Files) (n : ℕ)
    → SameUses (fs n) (s.files n)
    → pieces (with_files s fs) n ≡ pieces s n
with_files-pieces s fs n h = omega (
  arith,
  after_download-SameUses s.downloader n (fs n) (s.files n) h,
  both-SameUses (unsent s n + queued s n) (fs n) (s.files n) h,
)

reap-pieces :
    (i : ℕ) (s : Pipeline) (n : ℕ) → s.reaper ≡ some i → pieces (reap i s) n + at n i ≡ pieces s n
unfolding reap
reap-pieces i s n p = elim (Bool-cases ((s.files i).ref_count - 1 == 0)) [
  | inl e ↦ rw e (omega (arith, ap (λ r. held r n) p, same false))
  | inr e ↦ rw e (omega (arith, ap (λ r. held r n) p, same (s.files i).has_data))
]
  where
    reduced : Bool → File
    reduced b = record (s.files i) { ref_count = (s.files i).ref_count - 1; has_data = b }

    same : (b : Bool) → pieces (with_files s (update s.files i (reduced b))) n ≡ pieces s n
    same b =
        with_files-pieces s (update s.files i (reduced b)) n
          (update-SameUses s.files i n (reduced b) (refl, refl))

pub Step-pieces :
    {s t : Pipeline} (st : Step s t) (n : ℕ)
    → (0 < queued s n → 0 < uses (s.files n))
    → (s.poller ≡ offering → 0 < uses (s.files s.next))
    → pieces t n + (lost st n + reaps_of st n) ≡ pieces s n
unfolding find_file miss_file offer_file wait_pending download give_parser give_saver save_file reap
    update
Step-pieces stops n w o = ground arith
Step-pieces (finds p q) n w o = omega (arith, find_file-pieces _ n)
Step-pieces (misses p q) n w o = ground arith
Step-pieces {s} (offers p q) n w o =
    ground (arith, count-append n s.downloads s.next, unsent_suc s.next n)
Step-pieces (drains p q) n w o = ground arith
Step-pieces (waits p) n w o = ground arith
Step-pieces (takes p q) n w o = ground arith
Step-pieces (fetches true p) n w o = ground arith
Step-pieces (fetches false p) n w o = ground arith
Step-pieces {s} (gives_up {i} p q) n w o = ground (arith, count-append n s.reaps i)
Step-pieces {s} (for_parser {i} p q) n w o = ground (arith, count-append n s.parses i)
Step-pieces {s} (for_saver {i} p q) n w o = ground (arith, count-append n s.saves i)
Step-pieces (takes_parse p q) n w o = ground arith
Step-pieces {s} (parsed {i} p q) n w o = ground (arith, count-append n s.reaps i)
Step-pieces (takes_save p q) n w o = ground arith
Step-pieces (saved ok p) n w o = ground arith
Step-pieces {s} (leaves {i} p q) n w o = ground (arith, count-append n s.reaps i)
Step-pieces (collects p q) n w o = ground arith
Step-pieces {s} (reaped {i} p) n w o = omega (arith, reap-pieces i s n p)
