-- ===== src/Detector/Pipeline/Progress.antt =====
-- Once `pollTask` is asked to stop, the acquisition comes to its end.
use adeiger.Base.{
  ℕ, zero, suc, ◌+◌, ◌<◌, ◌≤◌, ◌≡◌, ◌≢◌, refl, ◌⊎◌, inl, inr, true, Option, none, some, List, [],
  ◌∷◌, arith, Bool-cases,
}
use adeiger.Rest.Outside.{Outside}
use adeiger.Detector.Files.{Acquisition, Files, busy, make_file}
use adeiger.Detector.Pipeline.{
  Poller, looking, offering, draining, done, Downloader, unoccupied, got, failed, fetched, passed,
  Saver, unused, writing, written, Pipeline, Step, finds, offers, drains, waits, takes, fetches,
  gives_up, for_parser, for_saver, takes_parse, parsed, takes_save, saved, leaves, collects, reaped,
  Run, at_rest, then_step, Reach, start, wants_more,
}
use adeiger.Detector.Pipeline.Counts.{pieces}
use adeiger.Detector.Pipeline.Moves.{lost}
use adeiger.Detector.Pipeline.References.{Inv, accounted, Step-refs}
use adeiger.Detector.Pipeline.Invariant.{Run-Inv, Reach-Inv}
use adeiger.Detector.Pipeline.Work.{work, moves, Step-work}

-- No step of the run forgets a reference: every download of a file that is both saved and parsed
-- succeeds.
abbrev pub Lossless : {s t : Pipeline} → Run s t → Type 0
Lossless at_rest = Unit
Lossless (then_step r st) = Lossless r × ((n : ℕ) → lost st n ≡ 0)

-- Every step of the run moves.
abbrev pub Moving : {s t : Pipeline} → Run s t → Type 0
Moving at_rest = Unit
Moving (then_step r st) = Moving r × (moves st ≡ true)

abbrev pub steps : {s t : Pipeline} → Run s t → ℕ
steps at_rest = 0
steps (then_step r st) = suc (steps r)

abbrev pub CanMove : Pipeline → Type 0
CanMove s = (t : Pipeline) × (st : Step s t) × (moves st ≡ true)

abbrev Balanced : Pipeline → Type 0
Balanced s = (n : ℕ) → (s.files n).ref_count ≡ pieces s n

Run-Balanced : {s t : Pipeline} (r : Run s t) → Lossless r → Inv s → Balanced s → Balanced t
Run-Balanced at_rest l inv b n = b n
Run-Balanced (then_step r st) l inv b n = omega (
  arith,
  accounted (Run-Inv r inv) st n,
  Step-refs (Run-Inv r inv) st n,
  l.1 n,
  Run-Balanced r l.0 inv b n,
)

start-Balanced : (o : Outside) (acq : Acquisition) → Balanced (start o acq)
unfolding start make_file
start-Balanced o acq n = ground arith

Run-work : {s t : Pipeline} (r : Run s t) → Moving r → Inv s → steps r + work t ≤ work s
Run-work at_rest m inv = omega arith
Run-work (then_step r st) m inv =
    omega (arith, Run-work r m.0 inv, Step-work st (Run-Inv r inv) m.1)

module _ (s : Pipeline) where
  abbrev MovesOr : Type 0 → Type 0
  MovesOr P = CanMove s ⊎ P

  reaper-free : (r : Option ℕ) → s.reaper ≡ r → MovesOr (s.reaper ≡ none)
  reaper-free none e = inr e
  reaper-free (some i) e = inl (_, reaped e, refl)

  reaps-none : (l : List ℕ) → s.reaps ≡ l → s.reaper ≡ none → MovesOr (s.reaps ≡ [])
  reaps-none [] e h = inr e
  reaps-none (i ∷ l) e h = inl (_, collects h e, refl)

  parser-free : (r : Option ℕ) → s.parser ≡ r → s.reaps ≡ [] → MovesOr (s.parser ≡ none)
  parser-free none e h = inr e
  parser-free (some i) e h = inl (_, parsed e (rw h (omega arith)), refl)

  saver-free : (r : Saver) → s.saver ≡ r → s.reaps ≡ [] → MovesOr (s.saver ≡ unused)
  saver-free unused e h = inr e
  saver-free (writing i) e h = inl (_, saved true e, refl)
  saver-free (written i) e h = inl (_, leaves e (rw h (omega arith)), refl)

  parses-none : (l : List ℕ) → s.parses ≡ l → s.parser ≡ none → MovesOr (s.parses ≡ [])
  parses-none [] e h = inr e
  parses-none (i ∷ l) e h = inl (_, takes_parse h e, refl)

  saves-none : (l : List ℕ) → s.saves ≡ l → s.saver ≡ unused → MovesOr (s.saves ≡ [])
  saves-none [] e h = inr e
  saves-none (i ∷ l) e h = inl (_, takes_save h e, refl)

  downloader-free :
      (d : Downloader)
      → s.downloader ≡ d
      → s.reaps ≡ []
      → s.parses ≡ []
      → s.saves ≡ []
      → MovesOr (s.downloader ≡ unoccupied)
  downloader-free unoccupied e a b c = inr e
  downloader-free (got i) e a b c = inl (_, fetches true e, refl)
  downloader-free (failed i) e a b c = inl (_, gives_up e (rw a (omega arith)), refl)
  downloader-free (fetched i) e a b c = inl (_, for_parser e (rw b (ground arith)), refl)
  downloader-free (passed i) e a b c = inl (_, for_saver e (rw c (ground arith)), refl)

  downloads-none :
      (l : List ℕ) → s.downloads ≡ l → s.downloader ≡ unoccupied → MovesOr (s.downloads ≡ [])
  downloads-none [] e h = inr e
  downloads-none (i ∷ l) e h = inl (_, takes h e, refl)

  looks : s.poller ≡ looking → CanMove s
  looks e = elim (Bool-cases (wants_more s)) [
    | inl q ↦ (_, finds e q, refl)
    | inr q ↦ (_, drains e q, refl)
  ]

  then_try : {P : Type 0} → MovesOr P → (P → CanMove s) → CanMove s
  then_try (inl c) f = c
  then_try (inr p) f = f p

  -- No queue and no other task has a file.
  record Empty : Type 0 where
    no_reaper : s.reaper ≡ none
    no_reaps : s.reaps ≡ []
    no_parser : s.parser ≡ none
    no_saver : s.saver ≡ unused
    no_parses : s.parses ≡ []
    no_saves : s.saves ≡ []
    no_downloader : s.downloader ≡ unoccupied
    no_downloads : s.downloads ≡ []

  empties : (Empty → CanMove s) → CanMove s
  empties f = then_try (reaper-free _ refl) λ a. then_try (reaps-none _ refl a) λ b.
      then_try (parser-free _ refl b) λ c. then_try (saver-free _ refl b) λ d.
        then_try (parses-none _ refl c) λ g. then_try (saves-none _ refl d) λ h.
          then_try (downloader-free _ refl b g h) λ i. then_try (downloads-none _ refl i) λ j.
            f (record {
              no_reaper = a;
              no_reaps = b;
              no_parser = c;
              no_saver = d;
              no_parses = g;
              no_saves = h;
              no_downloader = i;
              no_downloads = j;
            })

  Empty-pieces : Empty → (n : ℕ) → n < s.next → pieces s n ≡ 0
  Empty-pieces h n lt =
      rw
        (
          h.no_reaper, h.no_reaps, h.no_parser, h.no_saver, h.no_parses, h.no_saves,
          h.no_downloader, h.no_downloads,
        )
        (ground arith)

busy-none : (fs : Files) (n : ℕ) → ((j : ℕ) → j < n → (fs j).ref_count ≡ 0) → busy fs n ≡ 0
unfolding busy
busy-none fs zero h = refl
busy-none fs (suc n) h = rw (busy-none fs n (λ j lt. h j (omega arith)), h n (omega arith)) refl

drained : (s : Pipeline) → Inv s → Balanced s → Empty s → s.poller ≡ draining → CanMove s
drained s inv b h e = (_, waits e, rw none_pending refl)
  where
    none_pending : s.pending ≡ 0
    none_pending =
        rw (inv.counted, e)
          (busy-none s.files s.next (λ j lt. omega (arith, b j, Empty-pieces s h j lt)))

poller-moves :
    (s : Pipeline) (p : Poller) → s.poller ≡ p → Inv s → Balanced s → Empty s → p ≢ done → CanMove s
poller-moves s looking e inv b h k = looks s e
poller-moves s offering e inv b h k = (_, offers e (rw h.no_downloads (omega arith)), refl)
poller-moves s draining e inv b h k = drained s inv b h e
poller-moves s done e inv b h k = absurd (k refl)

-- As long as `pollTask` has not ended, something can move.
can_move : (s : Pipeline) → Inv s → Balanced s → s.poller ≢ done → CanMove s
can_move s inv b k = empties s λ h. poller-moves s s.poller refl inv b h k

is_done : (p : Poller) → (p ≡ done) ⊎ (p ≢ done)
is_done p = ground arith

-- From any state of an acquisition in which no download of a file that is saved and parsed has failed, or
-- fails later: a run whose steps all move has at most `work` steps, and where it can go no further
-- `pollTask` has ended: the bounded queues never block each other. (Until `mPollStop` is set, the step that is
-- left may be the arrival of the next file.)
pub poll_ends :
    (o : Outside) (acq : Acquisition) {s t : Pipeline}
    → (r : Reach o acq s) → Lossless r
    → (q : Run s t) → Lossless q
    → Moving q
    → (steps q ≤ work s) × ((t.poller ≡ done) ⊎ CanMove t)
poll_ends o acq {s} {t} r l q k m = (
  omega (arith, Run-work q m inv),
  elim (is_done t.poller) [
    | inl e ↦ inl e
    | inr e ↦ inr (can_move t (Run-Inv q inv) (Run-Balanced q k inv balanced) e)
  ],
)
  where
    inv : Inv s
    inv = Reach-Inv o acq r

    balanced : Balanced s
    balanced = Run-Balanced r l (Reach-Inv o acq at_rest) (start-Balanced o acq)
