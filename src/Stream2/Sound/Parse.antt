-- ===== src/Stream2/Sound/Parse.antt =====
-- `stream2_parse_msg` of eigerApp/src/stream2.c returns a message, an error or a crash in
-- `stream2_free_msg`; it never runs out of fuel and never frees what is not its own.
use adeiger.Base.{
  ℕ, suc, ◌+◌, ◌-◌, ◌≤◌, ◌<◌, ◌≡◌, refl, subst, ◌∷◌, String, Bool, true, false, none, some, inl,
  inr, arith, count, str_eq, ◌==◌, if◌then◌else◌,
}
use adeiger.Cbor.{Env, MovesForward}
use adeiger.Stream2.Memory.{Ptr, Heap, Freed, freed, fault, null_deref, bad_free, malloc}
use adeiger.Stream2.Types.{Stream2Error, Msg}
use adeiger.Stream2.Monad.{M, Outcome, ok, err, out_of_fuel}
use adeiger.Stream2.Scalars.{fill_msg, calloc_msg}
use adeiger.Stream2.Start.{parse_start_msg, new_start_msg}
use adeiger.Stream2.Image.{parse_image_msg, new_image_msg}
use adeiger.Stream2.EndMsg.{parse_end_msg, new_end_msg}
use adeiger.Stream2.Free.{stream2_free_msg}
use adeiger.Stream2.Parse.{
  Parsed, parsed, refused, crashed, no_fuel, parse_msg_type, parse_by_type, parse_msg, after_free,
  finish, stream2_parse_msg,
}
use adeiger.Stream2.Sound.{
  Owner, Fits, Ends, Sound, fail-Sound, any-Sound, reply-Sound, weaken-Sound, require-Sound,
  bind-Sound, if-Sound,
}
use adeiger.Stream2.Sound.Scalars.{parse_key-Sound, skip_tag-Sound, enter-Sound, each_field-Sound}
use adeiger.Stream2.Sound.StartParts.{start_blocks}
use adeiger.Stream2.Sound.MessageParts.{image_blocks, end_blocks}
use adeiger.Stream2.Sound.Messages.{
  parse_start_field-Sound, parse_image_field-Sound, parse_end_field-Sound,
}
use adeiger.Stream2.Sound.Free.{Released, msg_count, MsgFits, msg_blocks, stream2_free_msg-Frees}

-- An allocation adds its block to the heap, if it is granted.
abbrev Allocated : Heap → Ptr × Heap → Type 0
Allocated h (none, h') = (p : ℕ) → count p h.live ≤ count p h'.live
Allocated h (some q, h') = (p : ℕ) → (if p == q then 1 else 0) + count p h.live ≤ count p h'.live

malloc-Allocated : (grants : ℕ → Bool) (h : Heap) → Allocated h (malloc grants h)
unfolding malloc
malloc-Allocated grants h = go (grants h.next)
  where
    go :
        (b : Bool)
        → Allocated h (
            if b
            then (some h.next, record { next = suc h.next; live = h.next ∷ h.live })
            else (none, record { next = suc h.next; live = h.live }))
    go true = λ p. omega arith
    go false = λ p. omega arith

module _ (e : Env) (forward : MovesForward e) where
  open e use {Value, Double}
  open forward use {remaining}

  module _ {T : Type 0} (o : Owner T) {Q : Value → Type 0} (wrap : ℕ → T → Msg Double) (blank : T)
      (loop : M T Value) (sound : Sound o Q loop)
      (counted : (q : ℕ) (m : T) (p : ℕ)
        → msg_count (wrap q m) p ≡ (if p == q then 1 else 0) + o.blocks m p)
      (fit : (q : ℕ) (m : T) → o.Fit m → MsgFits (wrap q m))
      (empty : (p : ℕ) → o.blocks blank p ≡ 0) (blank_fit : o.Fit blank) where
    fill_keeps :
        (h : Heap) (a : Ptr × Heap) (p b : ℕ)
        → Allocated h a
        → b ≤ count p h.live
        → msg_count (fill_msg e wrap blank loop a).2 p + b
          ≤ count p (fill_msg e wrap blank loop a).1.live
    unfolding fill_msg
    fill_keeps h (none, h') p b x k = omega (arith, x p)
    fill_keeps h (some q, h') p b x k = omega (
      arith,
      x p,
      empty p,
      counted q (loop h' blank).2 p,
      sound.keeps h' blank p ((if p == q then 1 else 0) + b) (omega (arith, x p, empty p)),
    )

    fill-Ends : (a : Ptr × Heap) → Ends Q (fill_msg e wrap blank loop a).0
    unfolding fill_msg
    fill-Ends (none, h') = tt
    fill-Ends (some q, h') = sound.ends h' blank

    Fits-wrapped : (q : ℕ) (r : Outcome Value) (m : T) → Fits o.Fit r m → Fits MsgFits r (wrap q m)
    Fits-wrapped q (ok v) m x = fit q m x
    Fits-wrapped q (err _) m x = tt
    Fits-wrapped q out_of_fuel m x = tt

    fill-Fits :
        (a : Ptr × Heap)
        → Fits MsgFits (fill_msg e wrap blank loop a).0 (fill_msg e wrap blank loop a).2
    unfolding fill_msg
    fill-Fits (none, h') = tt
    fill-Fits (some q, h') =
        Fits-wrapped q (loop h' blank).0 (loop h' blank).2 (sound.fits h' blank blank_fit)

    calloc_msg-Sound : Sound msg_blocks Q (calloc_msg e wrap blank loop)
    unfolding calloc_msg
    calloc_msg-Sound = record {
      keeps = λ h t p b k.
          fill_keeps h (malloc e.grants h) p b (malloc-Allocated e.grants h) (omega arith);
      ends = λ h t. fill-Ends (malloc e.grants h);
      fits = λ h t x. fill-Fits (malloc e.grants h);
    }

  parse_start_msg-Sound :
      (fuel : ℕ) (it : Value)
      → remaining it < fuel
      → Sound msg_blocks (λ v. Unit {0}) (parse_start_msg e fuel it)
  unfolding parse_start_msg
  parse_start_msg-Sound fuel it h =
      calloc_msg-Sound start_blocks Msg.start (new_start_msg e) _
        (weaken-Sound
          (each_field-Sound e forward _ fuel (parse_start_field-Sound e forward fuel) fuel it h h)
          (λ v q. tt))
        (λ q m p. refl) (λ q m x. x) (λ p. refl) (tt, tt, tt, tt)

  parse_image_msg-Sound :
      (fuel : ℕ) (it : Value)
      → remaining it < fuel
      → Sound msg_blocks (λ v. Unit {0}) (parse_image_msg e fuel it)
  unfolding parse_image_msg
  parse_image_msg-Sound fuel it h =
      calloc_msg-Sound image_blocks Msg.image new_image_msg _
        (weaken-Sound
          (each_field-Sound e forward _ fuel (λ key v k. parse_image_field-Sound e forward key v)
            fuel it h h)
          (λ v q. tt))
        (λ q m p. refl) (λ q m x. x) (λ p. refl) tt

  parse_end_msg-Sound :
      (fuel : ℕ) (it : Value)
      → remaining it < fuel
      → Sound msg_blocks (λ v. Unit {0}) (parse_end_msg e fuel it)
  unfolding parse_end_msg
  parse_end_msg-Sound fuel it h =
      calloc_msg-Sound end_blocks Msg.end new_end_msg _
        (weaken-Sound
          (each_field-Sound e forward _ fuel (λ key v k. parse_end_field-Sound e forward key v) fuel
            it h h)
          (λ v q. tt))
        (λ q m p. refl) (λ q m x. x) (λ p. refl) tt

  parse_msg_type-Sound :
      {T : Type 0} {o : Owner T} (it : Value)
      → Sound o (λ (r : String × Value). remaining r.1 ≤ remaining it) (parse_msg_type e it)
  unfolding parse_msg_type
  parse_msg_type-Sound it = bind-Sound (parse_key-Sound e forward it) λ r le.
      bind-Sound (require-Sound _ _) λ _ _.
        bind-Sound (skip_tag-Sound e forward (r.1))
          λ v le'. weaken-Sound (parse_key-Sound e forward v) (λ w q. omega arith)

  parse_by_type-Sound :
      (fuel : ℕ) (type : String) (it : Value)
      → remaining it < fuel
      → Sound msg_blocks (λ v. Unit {0}) (parse_by_type e fuel type it)
  unfolding parse_by_type
  parse_by_type-Sound fuel type it h =
      if-Sound (str_eq type "start") (parse_start_msg-Sound fuel it h) (
        if-Sound (str_eq type "image") (parse_image_msg-Sound fuel it h)
          (if-Sound (str_eq type "end") (parse_end_msg-Sound fuel it h) (fail-Sound _)))

  parse_msg-Sound :
      (fuel buffer size : ℕ)
      → size ≤ fuel
      → Sound msg_blocks (λ v. Unit {0}) (parse_msg e fuel buffer size)
  unfolding parse_msg
  parse_msg-Sound fuel buffer size h = bind-Sound (require-Sound _ _) λ _ _.
      bind-Sound (reply-Sound _ (forward.init (buffer + 3) (size - 3))) λ it le.
        bind-Sound (require-Sound _ _) λ _ _. bind-Sound (enter-Sound e forward it) λ field lt.
          bind-Sound (parse_msg_type-Sound field) λ r le'.
            bind-Sound (parse_by_type-Sound fuel (r.0) (r.1) (omega arith)) λ v _. any-Sound _

  -- What every call of the parser that began at the heap `h` leaves behind.
  abbrev pub Ended : Heap → Parsed Double → Type 0
  Ended h (parsed msg h') =
      MsgFits msg × ((p : ℕ) → msg_count msg p + count p h.live ≤ count p h'.live)
  Ended h (refused error h') = (p : ℕ) → count p h.live ≤ count p h'.live
  Ended h (crashed null_deref) = Unit
  Ended h (crashed (bad_free p)) = ⊥
  Ended h no_fuel = ⊥

  after_free-Ended :
      (h h' : Heap) (error : Stream2Error) (c : ℕ → ℕ)
      → ((p : ℕ) → c p + count p h.live ≤ count p h'.live)
      → (r : Freed) → Released (Unit {0}) c h' r
      → Ended h (after_free e error r)
  unfolding after_free
  after_free-Ended h h' error c k (freed h'') x = λ p. omega (arith, k p, x p)
  after_free-Ended h h' error c k (fault null_deref) x = tt
  after_free-Ended h h' error c k (fault (bad_free q)) x = x

  finish-Ended :
      (h : Heap) (r : Outcome Value) (h' : Heap) (msg : Msg Double)
      → Ends (λ _. Unit {0}) r
      → Fits MsgFits r msg
      → ((p : ℕ) → msg_count msg p + count p h.live ≤ count p h'.live)
      → Ended h (finish e (r, h', msg))
  unfolding finish
  finish-Ended h (ok v) h' msg x y k = (y, k)
  finish-Ended h (err error) h' msg x y k =
      after_free-Ended h h' error (msg_count msg) k (stream2_free_msg msg h')
        ((stream2_free_msg-Frees msg (inr tt)).run h' (λ p. omega (arith, k p)))
  finish-Ended h out_of_fuel h' msg x y k = x

  -- With fuel for each byte, `stream2_parse_msg` comes to an end. On success the message is fit to be
  -- freed, and its blocks stand in the heap beside those of before. On an error no block of before
  -- is lost. The only fault is a read through `NULL`: no call of `free` goes wrong.
  pub stream2_parse_msg-Ended :
      (fuel buffer size : ℕ) (h : Heap)
      → size ≤ fuel
      → Ended h (stream2_parse_msg e fuel buffer size h)
  unfolding stream2_parse_msg
  stream2_parse_msg-Ended fuel buffer size h enough =
      let sound = parse_msg-Sound fuel buffer size enough in
      let run = parse_msg e fuel buffer size h Msg.null in
      finish-Ended h (run.0) (run.1) (run.2) (sound.ends h Msg.null) (sound.fits h Msg.null tt)
        (λ p. sound.keeps h Msg.null p (count p h.live) (omega arith))

  -- What is left when the message of a successful call has been freed: no fault, the message's
  -- blocks given back and no others, and all that was allocated before the call still there.
  abbrev pub GivenBack : Heap → Msg Double → Heap → Freed → Type 0
  GivenBack h msg h' (freed h'') =
      (p : ℕ)
      → (count p h''.live + msg_count msg p ≡ count p h'.live) × (count p h.live ≤ count p h''.live)
  GivenBack h msg h' (fault f) = ⊥

  given_back :
      (h h' : Heap) (msg : Msg Double)
      → ((p : ℕ) → msg_count msg p + count p h.live ≤ count p h'.live)
      → (r : Freed) → Released ⊥ (msg_count msg) h' r
      → GivenBack h msg h' r
  given_back h h' msg k (freed h'') x = λ p. (x p, omega (arith, x p, k p))
  given_back h h' msg k (fault null_deref) x = x
  given_back h h' msg k (fault (bad_free p)) x = x

  -- `stream2_free_msg` of a message that `stream2_parse_msg` handed out gives back just the blocks of
  -- that message, each once, and never faults.
  pub stream2_free_msg-stream2_parse_msg :
      (fuel buffer size : ℕ) (h h' : Heap) (msg : Msg Double)
      → size ≤ fuel
      → stream2_parse_msg e fuel buffer size h ≡ parsed msg h'
      → GivenBack h msg h' (stream2_free_msg msg h')
  stream2_free_msg-stream2_parse_msg fuel buffer size h h' msg enough result =
      let ended = subst (Ended h) result (stream2_parse_msg-Ended fuel buffer size h enough) in
      given_back h h' msg ended.1 (stream2_free_msg msg h')
        ((stream2_free_msg-Frees msg (inl ended.0)).run h' (λ p. omega (arith, ended.1 p)))
