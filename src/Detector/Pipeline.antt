-- ===== src/Detector/Pipeline.antt =====
-- `pollTask`, `downloadTask`, `parseTask`, `saveTask` and `reapTask` of eigerApp/src/eigerDetector.cpp
-- for one acquisition. A file is an index of the list of files.
pub mod Counts
pub mod Moves
pub mod References
pub mod Pending
pub mod Invariant
pub mod Starvation
pub mod Work
pub mod Progress
pub mod Once
pub mod Removal
use adeiger.Base.{
  ℕ, suc, ◌+◌, ◌-◌, ◌<◌, ◌≡◌, Bool, true, false, ◌&&◌, ◌||◌, ◌==◌, not, ltb, leb, Option, none,
  some, List, [], ◌∷◌, ◌++◌, length, if◌then◌else◌,
}
use adeiger.Rest.Outside.{Outside}
use adeiger.Detector.Files.{Acquisition, File, Files, make_file, update}

-- Where `pollTask` stands: in the loop over the list; before a send; in the last loop; at the end.
pub data Poller : Type 0 where
  looking offering draining done : Poller

-- Where `downloadTask` stands: waiting; after a receive; after a failed `getFile`, after a good one;
-- and after the test of `parse`.
pub data Downloader : Type 0 where
  unoccupied : Downloader
  got failed fetched passed : ℕ → Downloader

pub data Saver : Type 0 where
  unused : Saver
  writing written : ℕ → Saver

-- The four queues hold file pointers. `disk` are the files written in full and `deletes` those whose
-- removal from the server was asked for, the last one first.
pub record Pipeline : Type 0 where
  pub files : Files
  pub total : ℕ
  pub next : ℕ
  pub retries : ℕ
  pub stop : Bool
  pub pending : ℕ
  pub poller : Poller
  pub complete : Bool
  pub downloads : List ℕ
  pub downloader : Downloader
  pub parses : List ℕ
  pub parser : Option ℕ
  pub saves : List ℕ
  pub saver : Saver
  pub reaps : List ℕ
  pub reaper : Option ℕ
  pub disk : List ℕ
  pub deletes : List ℕ

abbrev pub max_retries : ℕ
max_retries = 2

abbrev pub default_queue_capacity : ℕ
default_queue_capacity = 2

abbrev pub reap_queue_capacity : ℕ
reap_queue_capacity = 4

-- `pollTask` up to its first loop. The other tasks wait.
unfoldable pub start : Outside → Acquisition → Pipeline
start o acq = record {
  files = make_file o acq;
  total = suc acq.n_data_files;
  next = 0;
  retries = 0;
  stop = false;
  pending = 0;
  poller = looking;
  complete = false;
  downloads = [];
  downloader = unoccupied;
  parses = [];
  parser = none;
  saves = [];
  saver = unused;
  reaps = [];
  reaper = none;
  disk = [];
  deletes = [];
}

-- The condition of the first loop.
abbrev pub wants_more : Pipeline → Bool
wants_more s = ltb s.next s.total && leb s.retries max_retries

-- `waitFile` has found the file; the send to the download queue is a step of its own.
unfoldable pub find_file : Pipeline → Pipeline
find_file s =
    let f = s.files s.next in
    if f.save || f.parse
    then record s { pending = s.pending + 1; poller = offering }
    else record s {
      next = suc s.next;
      deletes = if f.remove then s.next ∷ s.deletes else s.deletes;
    }

unfoldable pub miss_file : Pipeline → Pipeline
miss_file s = record s { retries = if s.stop then suc s.retries else s.retries }

unfoldable pub offer_file : Pipeline → Pipeline
offer_file s = record s {
  downloads = s.downloads ++ s.next ∷ [];
  next = suc s.next;
  poller = looking;
}

-- One turn of the last loop.
unfoldable pub wait_pending : Pipeline → Pipeline
wait_pending s =
    if s.pending == 0 then record s { poller = done; complete = s.next == s.total } else s

-- `getFile`, whose data stays empty when it fails.
unfoldable pub download : ℕ → Bool → Pipeline → Pipeline
download i ok s =
    if ok
    then record s {
      downloader = fetched i;
      files = update s.files i (record (s.files i) { has_data = true });
    }
    else record s { downloader = failed i }

unfoldable pub give_parser : ℕ → Pipeline → Pipeline
give_parser i s =
    if (s.files i).parse
    then record s { downloader = passed i; parses = s.parses ++ i ∷ [] }
    else record s { downloader = passed i }

unfoldable pub give_saver : ℕ → Pipeline → Pipeline
give_saver i s =
    if (s.files i).save
    then record s { downloader = unoccupied; saves = s.saves ++ i ∷ [] }
    else record s { downloader = unoccupied }

-- The body of `saveTask`, from `open` on: whether the whole file was written.
unfoldable pub save_file : ℕ → Bool → Pipeline → Pipeline
save_file i whole s =
    if whole then record s { saver = written i; disk = i ∷ s.disk } else record s {
      saver = written i;
      files = update s.files i (record (s.files i) { remove = false });
    }

-- The body of `reapTask`.
unfoldable pub reap : ℕ → Pipeline → Pipeline
reap i s =
    let f = s.files i in
    let left = f.ref_count - 1 in
    if left == 0
    then record s {
      reaper = none;
      files = update s.files i (record f { ref_count = left; has_data = false });
      deletes = if f.remove then i ∷ s.deletes else s.deletes;
      pending = s.pending - 1;
    }
    else record s { reaper = none; files = update s.files i (record f { ref_count = left }) }

-- One step of one task, or of `controlTask` that sets `mPollStop`. A send waits for room in its queue.
pub data Step (s : Pipeline) : Pipeline → Type 0 where
  stops : Step s (record s { stop = true })
  finds : s.poller ≡ looking → wants_more s ≡ true → Step s (find_file s)
  misses : s.poller ≡ looking → wants_more s ≡ true → Step s (miss_file s)
  offers : s.poller ≡ offering → length s.downloads < default_queue_capacity → Step s (offer_file s)
  drains : s.poller ≡ looking → wants_more s ≡ false → Step s (record s { poller = draining })
  waits : s.poller ≡ draining → Step s (wait_pending s)
  takes :
      {i : ℕ} {l : List ℕ}
      → s.downloader ≡ unoccupied
      → s.downloads ≡ i ∷ l
      → Step s (record s { downloader = got i; downloads = l })
  fetches : {i : ℕ} (ok : Bool) → s.downloader ≡ got i → Step s (download i ok s)
  gives_up :
      {i : ℕ}
      → s.downloader ≡ failed i
      → length s.reaps < reap_queue_capacity
      → Step s (record s { downloader = unoccupied; reaps = s.reaps ++ i ∷ [] })
  for_parser :
      {i : ℕ}
      → s.downloader ≡ fetched i
      → not (s.files i).parse || ltb (length s.parses) default_queue_capacity ≡ true
      → Step s (give_parser i s)
  for_saver :
      {i : ℕ}
      → s.downloader ≡ passed i
      → not (s.files i).save || ltb (length s.saves) default_queue_capacity ≡ true
      → Step s (give_saver i s)
  takes_parse :
      {i : ℕ} {l : List ℕ}
      → s.parser ≡ none
      → s.parses ≡ i ∷ l
      → Step s (record s { parser = some i; parses = l })
  parsed :
      {i : ℕ}
      → s.parser ≡ some i
      → length s.reaps < reap_queue_capacity
      → Step s (record s { parser = none; reaps = s.reaps ++ i ∷ [] })
  takes_save :
      {i : ℕ} {l : List ℕ}
      → s.saver ≡ unused
      → s.saves ≡ i ∷ l
      → Step s (record s { saver = writing i; saves = l })
  saved : {i : ℕ} (whole : Bool) → s.saver ≡ writing i → Step s (save_file i whole s)
  leaves :
      {i : ℕ}
      → s.saver ≡ written i
      → length s.reaps < reap_queue_capacity
      → Step s (record s { saver = unused; reaps = s.reaps ++ i ∷ [] })
  collects :
      {i : ℕ} {l : List ℕ}
      → s.reaper ≡ none
      → s.reaps ≡ i ∷ l
      → Step s (record s { reaper = some i; reaps = l })
  reaped : {i : ℕ} → s.reaper ≡ some i → Step s (reap i s)

-- Any sequence of steps, in any order of the tasks and with any outcome of the calls.
pub data Run (s : Pipeline) : Pipeline → Type 0 where
  at_rest : Run s s
  then_step : {t u : Pipeline} → Run s t → Step t u → Run s u

-- What an acquisition can come to.
abbrev pub Reach : Outside → Acquisition → Pipeline → Type 0
Reach o acq = Run (start o acq)
