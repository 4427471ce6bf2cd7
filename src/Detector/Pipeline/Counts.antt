-- ===== src/Detector/Pipeline/Counts.antt =====
-- The references to a file that the queues and the tasks hold.
use adeiger.Base.{
  ℕ, ◌+◌, ◌≡◌, Bool, true, false, Option, none, some, List, [], ◌∷◌, ◌++◌, ◌==◌, leb, count, arith,
  if◌then◌else◌,
}
use adeiger.Detector.Files.{File}
use adeiger.Detector.Pipeline.{
  Downloader, got, failed, fetched, passed, Saver, writing, written, Pipeline,
}

abbrev pub at : ℕ → ℕ → ℕ
at n i = if n == i then 1 else 0

abbrev pub part : Bool → ℕ → ℕ
part true n = n
part false n = 0

-- What a file that goes to both tasks counts for.
abbrev pub for_both : File → ℕ → ℕ
for_both f n = part f.save n + part f.parse n

abbrev pub held : Option ℕ → ℕ → ℕ
held none n = 0
held (some i) n = at n i

abbrev pub before_download : Downloader → ℕ → ℕ
before_download (got i) n = at n i
before_download _ n = 0

-- The references of a file that is not downloaded yet.
abbrev pub queued : Pipeline → ℕ → ℕ
queued s n = count n s.downloads + before_download s.downloader n

abbrev pub unsent : Pipeline → ℕ → ℕ
unsent s n = if leb s.next n then 1 else 0

abbrev pub after_download : Downloader → File → ℕ → ℕ
after_download (fetched i) f n = for_both f (at n i)
after_download (passed i) f n = part f.save (at n i)
after_download _ f n = 0

abbrev pub before_save : Saver → ℕ → ℕ
before_save (writing i) n = at n i
before_save _ n = 0

-- The references through which the data is still read.
abbrev pub readers : Pipeline → ℕ → ℕ
readers s n =
    after_download s.downloader (s.files n) n
    + count n s.parses
    + held s.parser n
    + count n s.saves
    + before_save s.saver n

abbrev pub after_failure : Downloader → ℕ → ℕ
after_failure (failed i) n = at n i
after_failure _ n = 0

abbrev pub after_save : Saver → ℕ → ℕ
after_save (written i) n = at n i
after_save _ n = 0

-- The references that only wait to be reaped.
abbrev pub leaving : Pipeline → ℕ → ℕ
leaving s n =
    after_failure s.downloader n + after_save s.saver n + count n s.reaps + held s.reaper n

-- How often the file will be reaped, if every download succeeds.
abbrev pub pieces : Pipeline → ℕ → ℕ
pieces s n = for_both (s.files n) (unsent s n + queued s n) + readers s n + leaving s n

pub count-append : (n : ℕ) (l : List ℕ) (i : ℕ) → count n (l ++ i ∷ []) ≡ count n l + at n i
count-append n [] i = ground arith
count-append n (x ∷ l) i = ground (arith, count-append n l i)
