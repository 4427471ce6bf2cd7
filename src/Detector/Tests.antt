-- ===== src/Detector/Tests.antt =====
-- Runs of the tasks of eigerApp/src/eigerDetector.cpp.
use adeiger.Base.{◌≤◌, ◌≡◌, ◌≢◌, refl, ◌⊎◌, true, false, [], ◌∷◌, codes, count, arith}
use adeiger.Base.Int.{pos}
use adeiger.Rest.Tests.{server}
use adeiger.Detector.Files.{Acquisition, make_file, update}
use adeiger.Detector.Pipeline.{
  Pipeline, passed, done, finds, offers, drains, waits, takes, fetches, gives_up, for_parser,
  for_saver, takes_parse, parsed, takes_save, saved, leaves, collects, reaped, Step, start,
  find_file, offer_file, wait_pending, download, give_parser, give_saver, save_file, reap, Run,
  at_rest, then_step, Reach,
}
use adeiger.Detector.Pipeline.References.{Inv}
use adeiger.Detector.Pipeline.Invariant.{Reach-Inv}
use adeiger.Detector.Pipeline.Starvation.{failed_download_starves, pointers, done_holds_nothing}
use adeiger.Detector.Pipeline.Work.{work}
use adeiger.Detector.Pipeline.Progress.{Lossless, Moving, steps, CanMove, poll_ends}
use adeiger.Detector.Pipeline.Removal.{AllArrive, removed_once_after_saved}

-- Only the master file, which is saved and then removed.
abbrev saving : Acquisition
saving = record {
  pattern = codes "s_$id";
  sequence_id = pos 7;
  n_data_files = 0;
  save_files = true;
  parse_files = false;
  remove_files = true;
}

infixl 5 ◌then◌
abbrev ◌then◌ : {s t u : Pipeline} → Run s t → Step t u → Run s u
r then st = then_step r st

-- `downloadTask` has the master file.
abbrev got_run : (s : Pipeline) × Reach server saving s
unfolding start make_file update find_file offer_file wait_pending download give_parser give_saver
    save_file reap
got_run = (_, (at_rest then finds refl refl) then offers refl (omega arith) then takes refl refl)

abbrev rest_run : (s : Pipeline) × Run got_run.0 s
unfolding start make_file update find_file offer_file wait_pending download give_parser give_saver
    save_file reap got_run
rest_run = (
  _,
  (at_rest then fetches true refl)
      then for_parser refl refl
      then for_saver refl refl
      then takes_save refl refl
      then saved true refl
      then leaves refl (omega arith)
      then collects refl refl
      then reaped refl
      then drains refl refl
      then waits refl,
)

-- The whole acquisition.
abbrev saved_run : (s : Pipeline) × Reach server saving s
unfolding start make_file update find_file offer_file wait_pending download give_parser give_saver
    save_file reap got_run
saved_run = (
  _,
  (got_run.1 then fetches true refl)
      then for_parser refl refl
      then for_saver refl refl
      then takes_save refl refl
      then saved true refl
      then leaves refl (omega arith)
      then collects refl refl
      then reaped refl
      then drains refl refl
      then waits refl,
)

saved_run_end :
    (saved_run.0.deletes ≡ 0 ∷ [])
    × (saved_run.0.disk ≡ 0 ∷ [])
    × (saved_run.0.poller ≡ done)
    × (saved_run.0.complete ≡ true)
unfolding start make_file update find_file offer_file wait_pending download give_parser give_saver
    save_file reap saved_run got_run
saved_run_end = (refl, refl, refl, refl)

-- The download fails: the file was never saved, but its removal from the server is asked for.
abbrev lost_run : (s : Pipeline) × Reach server saving s
unfolding start make_file update find_file offer_file wait_pending download give_parser give_saver
    save_file reap got_run
lost_run = (
  _,
  (got_run.1 then fetches false refl)
      then gives_up refl (omega arith)
      then collects refl refl
      then reaped refl,
)

lost_run_end : (lost_run.0.deletes ≡ 0 ∷ []) × (lost_run.0.disk ≡ [])
unfolding start make_file update find_file offer_file wait_pending download give_parser give_saver
    save_file reap lost_run got_run
lost_run_end = (refl, refl)

-- A master file and one data file, which are parsed only.
abbrev parsing : Acquisition
parsing = record saving { n_data_files = 1; save_files = false; parse_files = true }

-- `pollTask` frees the list while `downloadTask` has yet to read `save` of the data file.
abbrev freed_run : (s : Pipeline) × Reach server parsing s
unfolding start make_file update find_file offer_file wait_pending download give_parser give_saver
    save_file reap
freed_run = (
  _,
  (at_rest then finds refl refl)
      then finds refl refl
      then offers refl (omega arith)
      then takes refl refl
      then fetches true refl
      then for_parser refl refl
      then takes_parse refl refl
      then parsed refl (omega arith)
      then collects refl refl
      then reaped refl
      then drains refl refl
      then waits refl,
)

freed_run_end : (freed_run.0.poller ≡ done) × (freed_run.0.downloader ≡ passed 1)
unfolding start make_file update find_file offer_file wait_pending download give_parser give_saver
    save_file reap freed_run
freed_run_end = (refl, refl)

-- The data file is saved and parsed.
abbrev both_ways : Acquisition
both_ways = record saving { n_data_files = 1; parse_files = true }

abbrev both_run : (s : Pipeline) × Reach server both_ways s
unfolding start make_file update find_file offer_file wait_pending download give_parser give_saver
    save_file reap
both_run = (
  _,
  (at_rest then finds refl refl)
      then offers refl (omega arith)
      then takes refl refl
      then fetches true refl
      then for_parser refl refl
      then for_saver refl refl
      then finds refl refl
      then offers refl (omega arith)
      then takes refl refl,
)

abbrev starved_run : (s : Pipeline) × Run (download 1 false both_run.0) s
unfolding start make_file update find_file offer_file wait_pending download give_parser give_saver
    save_file reap both_run
starved_run =
    (_, (at_rest then gives_up refl (omega arith)) then collects refl refl then reaped refl)

Reach-Inv_example : Inv saved_run.0
Reach-Inv_example = Reach-Inv server saving saved_run.1

abbrev arrive : AllArrive saved_run.1
unfolding saved_run got_run
arrive = (((((((((((((tt, tt), tt), tt), tt), tt), tt), tt), tt), tt), tt), tt), tt), tt)

abbrev lossless : Lossless got_run.1
unfolding got_run
lossless = (((tt, λ n. refl), λ n. refl), λ n. refl)

abbrev lossless_rest : Lossless rest_run.1
unfolding rest_run got_run
lossless_rest = (
  (
    (
      (((((((tt, λ n. refl), λ n. refl), λ n. refl), λ n. refl), λ n. refl), λ n. refl), λ n. refl),
      λ n. refl,
    ),
    λ n. refl,
  ),
  λ n. refl,
)

abbrev moving : Moving rest_run.1
unfolding start make_file update find_file offer_file wait_pending download give_parser give_saver
    save_file reap rest_run got_run
moving = ((((((((((tt, refl), refl), refl), refl), refl), refl), refl), refl), refl), refl)

removed_once_after_saved_example :
    (count 0 saved_run.0.deletes ≤ 1) × (count 0 saved_run.0.deletes ≤ count 0 saved_run.0.disk)
removed_once_after_saved_example = removed_once_after_saved server saving saved_run.1 arrive refl 0

poll_ends_example :
    (steps rest_run.1 ≤ work got_run.0) × ((rest_run.0.poller ≡ done) ⊎ CanMove rest_run.0)
unfolding start make_file update find_file offer_file wait_pending download give_parser give_saver
    save_file reap
poll_ends_example = poll_ends server saving got_run.1 lossless rest_run.1 lossless_rest moving

failed_download_starves_example : starved_run.0.poller ≢ done
unfolding start make_file update find_file offer_file wait_pending download give_parser give_saver
    save_file reap both_run starved_run
failed_download_starves_example =
    failed_download_starves server both_ways 1 both_run.1 refl refl refl starved_run.1

done_holds_nothing_example : pointers saved_run.0 0 ≡ 0
unfolding start make_file update find_file offer_file wait_pending download give_parser give_saver
    save_file reap saved_run got_run
done_holds_nothing_example = done_holds_nothing server saving refl saved_run.1 refl 0
