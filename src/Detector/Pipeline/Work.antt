-- ===== src/Detector/Pipeline/Work.antt =====
-- A bound on the steps that are left of an acquisition.
use adeiger.Base.{
  ℕ, ◌+◌, ◌*◌, ◌-◌, ◌<◌, ◌≡◌, Bool, true, false, Option, none, some, [], ◌∷◌, ◌==◌, length,
  length-append, arith,
}
use adeiger.Detector.Pipeline.{
  Poller, looking, offering, draining, done, Downloader, unoccupied, got, failed, fetched, passed,
  Saver, unused, writing, written, Pipeline, Step, stops, finds, misses, offers, drains, waits,
  takes, fetches, gives_up, for_parser, for_saver, takes_parse, parsed, takes_save, saved, leaves,
  collects, reaped, find_file, miss_file, offer_file, wait_pending, download, give_parser,
  give_saver, save_file, reap,
}
use adeiger.Detector.Pipeline.References.{Inv}

-- `total - next` files are left, and `3 - retries` failures.
abbrev pub poller_work : Poller → ℕ → ℕ → ℕ
poller_work looking files tries = 16 * files + tries + 2
poller_work offering files tries = 16 * files + tries + 1
poller_work draining files tries = 1
poller_work done files tries = 0

abbrev pub downloader_work : Downloader → ℕ
downloader_work unoccupied = 0
downloader_work (got i) = 13
downloader_work (failed i) = 3
downloader_work (fetched i) = 12
downloader_work (passed i) = 6

abbrev pub saver_work : Saver → ℕ
saver_work unused = 0
saver_work (writing i) = 4
saver_work (written i) = 3

abbrev pub times : ℕ → Option ℕ → ℕ
times k none = 0
times k (some i) = k

abbrev pub work : Pipeline → ℕ
work s =
    poller_work s.poller (s.total - s.next) (3 - s.retries)
    + 14 * length s.downloads
    + downloader_work s.downloader
    + 5 * length s.parses
    + times 3 s.parser
    + 5 * length s.saves
    + saver_work s.saver
    + 2 * length s.reaps
    + times 1 s.reaper

-- A step that changes something: not another turn of a loop that waits.
abbrev pub moves : {s t : Pipeline} → Step s t → Bool
moves stops = false
moves {s} (misses p q) = s.stop
moves {s} (waits p) = s.pending == 0
moves _ = true

pub Step-work : {s t : Pipeline} (st : Step s t) → Inv s → moves st ≡ true → work t < work s
unfolding find_file miss_file offer_file wait_pending download give_parser give_saver save_file reap
Step-work stops inv m = cc
Step-work (finds p q) inv m = ground arith
Step-work (misses p q) inv m = ground arith
Step-work {s} (offers p q) inv m =
    ground (arith, inv.offered, length-append s.downloads (s.next ∷ []))
Step-work (drains p q) inv m = ground arith
Step-work (waits p) inv m = ground arith
Step-work (takes p q) inv m = ground arith
Step-work (fetches true p) inv m = ground arith
Step-work (fetches false p) inv m = ground arith
Step-work {s} (gives_up {i} p q) inv m = ground (arith, length-append s.reaps (i ∷ []))
Step-work {s} (for_parser {i} p q) inv m = ground (arith, length-append s.parses (i ∷ []))
Step-work {s} (for_saver {i} p q) inv m = ground (arith, length-append s.saves (i ∷ []))
Step-work (takes_parse p q) inv m = ground arith
Step-work {s} (parsed {i} p q) inv m = ground (arith, length-append s.reaps (i ∷ []))
Step-work (takes_save p q) inv m = ground arith
Step-work (saved true p) inv m = ground arith
Step-work (saved false p) inv m = ground arith
Step-work {s} (leaves {i} p q) inv m = ground (arith, length-append s.reaps (i ∷ []))
Step-work (collects p q) inv m = ground arith
Step-work (reaped p) inv m = ground arith
