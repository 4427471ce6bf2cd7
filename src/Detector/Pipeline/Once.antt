-- ===== src/Detector/Pipeline/Once.antt =====
-- How often the removal of a file is asked for in eigerApp/src/eigerDetector.cpp.
use adeiger.Base.{
  ℕ, ◌+◌, ◌-◌, ◌<◌, ◌≤◌, ◌≡◌, refl, inl, inr, Bool, false, ◌||◌, some, List, ◌∷◌, ◌==◌, count,
  arith, if◌then◌else◌, Bool-cases,
}
use native.Mathlib.Decide.{ℕ_discrete}
use adeiger.Rest.Outside.{Outside}
use adeiger.Detector.Files.{Acquisition, File, update, uses, positive}
use adeiger.Detector.Pipeline.{
  Pipeline, Step, finds, waits, fetches, for_parser, for_saver, saved, reaped, find_file, miss_file,
  offer_file, wait_pending, download, give_parser, give_saver, save_file, reap, at_rest, then_step,
  Reach, start,
}
use adeiger.Detector.Pipeline.Counts.{at, unsent}
use adeiger.Detector.Pipeline.Moves.{reaps_of, unsent_suc}
use adeiger.Detector.Pipeline.References.{Inv, Step-refs, Step-next}
use adeiger.Detector.Pipeline.Invariant.{Reach-Inv}
use adeiger.Detector.Pipeline.Pending.{reaper-sent}

-- How often the removal of the file was asked for, and how often it may still be.
pub record Once (s : Pipeline) (n : ℕ) : Type 0 where
  pub referred : count n s.deletes + positive (s.files n).ref_count ≤ 1
  pub ahead : count n s.deletes + unsent s n ≤ 1

count-if : (b : Bool) (n i : ℕ) (l : List ℕ) → count n (if b then i ∷ l else l) ≤ count n l + at n i
count-if b n i l = ground arith

uses-none : (f : File) → f.save || f.parse ≡ false → uses f ≡ 0
uses-none f e = ground arith

module _ {s : Pipeline} (inv : Inv s) where
  open inv use {fresh}

  skipped : (n : ℕ) → uses (s.files s.next) ≡ 0 → at n s.next + positive (s.files n).ref_count ≤ 1
  skipped n u = elim (ℕ_discrete n s.next) [
    | yes e ↦ rw (e, fresh s.next (omega arith), u) (ground arith)
    | no e ↦ ground arith
  ]

  find_file-Once : (n : ℕ) → Once s n → Once (find_file s) n
  unfolding find_file
  find_file-Once n h = elim (Bool-cases ((s.files s.next).save || (s.files s.next).parse)) [
    | inl e ↦ rw e (record { referred = h.referred; ahead = h.ahead })
    | inr e ↦ rw e (record {
      referred = omega (
        arith,
        h.referred,
        h.ahead,
        count-if (s.files s.next).remove n s.next s.deletes,
        unsent_suc s.next n,
        skipped n (uses-none (s.files s.next) e),
      );
      ahead = omega (
        arith,
        h.ahead,
        count-if (s.files s.next).remove n s.next s.deletes,
        unsent_suc s.next n,
      );
    })
  ]

  reap-positive :
      (i n : ℕ) (b : Bool)
      → 1 ≤ (s.files i).ref_count
      → (s.files i).ref_count - 1 ≡ 0
      → positive
            (update s.files i
              (record (s.files i) { ref_count = (s.files i).ref_count - 1; has_data = b })
              n).ref_count
          + at n i
        ≤ positive (s.files n).ref_count
  unfolding update
  reap-positive i n b h e = ground arith

  reap-positive_le :
      (i n : ℕ) (b : Bool)
      → positive
          (update s.files i
            (record (s.files i) { ref_count = (s.files i).ref_count - 1; has_data = b })
            n).ref_count
        ≤ positive (s.files n).ref_count
  unfolding update
  reap-positive_le i n b = ground arith

  begun-unsent : (i n : ℕ) → i < s.next → at n i + unsent s n ≤ 1
  begun-unsent i n h = ground arith

  reap-Once : (i : ℕ) → s.reaper ≡ some i → (n : ℕ) → Once s n → Once (reap i s) n
  unfolding reap
  reap-Once i p n h = elim (Bool-cases ((s.files i).ref_count - 1 == 0)) [
    | inl e ↦ rw e (record {
      referred = omega (
        arith,
        h.referred,
        count-if (s.files i).remove n i s.deletes,
        reap-positive i n false (reaper-sent inv i p).0 (ground arith),
      );
      ahead = omega (
        arith,
        h.ahead,
        h.referred,
        count-if (s.files i).remove n i s.deletes,
        reap-positive i n false (reaper-sent inv i p).0 (ground arith),
        begun-unsent i n (reaper-sent inv i p).1,
      );
    })
    | inr e ↦ rw e (record {
      referred = omega (arith, h.referred, reap-positive_le i n (s.files i).has_data);
      ahead = h.ahead;
    })
  ]

  same-Once :
      {t : Pipeline} (st : Step s t) (n : ℕ)
      → reaps_of st n ≡ 0
      → t.deletes ≡ s.deletes
      → Once s n
      → Once t n
  same-Once {t} st n r e h = record {
    referred = rw e (same_refs h.referred);
    ahead = rw e (ground (arith, h.ahead, Step-next st));
  }
    where
      same_refs :
          count n s.deletes + positive (s.files n).ref_count ≤ 1
          → count n s.deletes + positive (t.files n).ref_count ≤ 1
      same_refs k = ground (arith, Step-refs inv st n)

  Step-Once : {t : Pipeline} (st : Step s t) (n : ℕ) → Once s n → Once t n
  unfolding miss_file offer_file wait_pending download give_parser give_saver save_file
  Step-Once (finds p q) n h = find_file-Once n h
  Step-Once (reaped {i} p) n h = reap-Once i p n h
  Step-Once (waits p) n h = same-Once (waits p) n refl (ground arith) h
  Step-Once (for_parser p q) n h = same-Once (for_parser p q) n refl (ground arith) h
  Step-Once (for_saver p q) n h = same-Once (for_saver p q) n refl (ground arith) h
  Step-Once (fetches ok p) n h = same-Once (fetches ok p) n (ground arith) (ground arith) h
  Step-Once (saved ok p) n h = same-Once (saved ok p) n refl (ground arith) h
  Step-Once st n h = same-Once st n refl refl h

start-Once : (o : Outside) (acq : Acquisition) (n : ℕ) → Once (start o acq) n
unfolding start
start-Once o acq n = record { referred = ground arith; ahead = ground arith }

pub Reach-Once :
    (o : Outside) (acq : Acquisition) {s : Pipeline} → Reach o acq s → (n : ℕ) → Once s n
Reach-Once o acq at_rest n = start-Once o acq n
Reach-Once o acq (then_step r st) n = Step-Once (Reach-Inv o acq r) st n (Reach-Once o acq r n)
