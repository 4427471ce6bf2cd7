-- ===== src/Stream2Api/Owns/Messages.antt =====
-- `getHeader` and `waitFrame` of eigerApp/src/stream2Api.cpp keep what the receiver owns allocated.
use adeiger.Base.{
  ℕ, zero, suc, ◌+◌, ◌≤◌, ◌≡◌, refl, Bool, true, false, Option, none, some, List, [], ◌∷◌, ◌++◌,
  count, arith, inl, ap,
}
use adeiger.Cbor.{Env, MovesForward}
use adeiger.Stream2.Memory.{CharPtr, block, null_deref, bad_free, free}
use adeiger.Stream2.Types.{Stream2Error, HeapArray, ThresholdEnergy, StartMsg, ImageMsg, Msg}
use adeiger.Stream2.Free.{stream2_free_msg}
use adeiger.Stream2.Parse.{Parsed, parsed, refused, crashed, no_fuel, stream2_parse_msg}
use adeiger.Stream2.Sound.Scalars.{text_count}
use adeiger.Stream2.Sound.ValueParts.{sum_blocks, threshold_blocks}
use adeiger.Stream2.Sound.Free.{msg_count, MsgFits, free_text-Frees, stream2_free_msg-Frees}
use adeiger.Stream2.Sound.Parse.{Ended, stream2_parse_msg-Ended}
use adeiger.Stream2.Triple.Images.{ImageChecked, MsgChecked, Checked, stream2_parse_msg-Checked}
use adeiger.Stream2Api.Outside.{Outside}
use adeiger.Stream2Api.Monad.{
  Status, success, timeout, error, Receiver, M, pure, fail, give_back, str_dup,
}
use adeiger.Stream2Api.Messages.{
  Waited, null_read, poll, poll_first, set_open, take_parsed, receive, free_thresholds,
  push_threshold, push_thresholds, copy_thresholds, set_image_dtype, set_thresholds, keep_start,
  read_start, read_header, header_after, get_header, drop_message, keep_image, read_frame,
  frame_after, wait_frame,
}
use adeiger.Stream2Api.Owns.{
  Owns, nothing, image_count, ImageFits, Good, Safe, pure-Safe, fail-Safe, modify-Safe, bind-Safe,
  system-Safe, give_back-Safe, str_dup-Safe,
}

sum_blocks-append :
    {A : Type 0} (o : A → ℕ → ℕ) (l m : List A) (p : ℕ)
    → sum_blocks o (l ++ m) p ≡ sum_blocks o l p + sum_blocks o m p
sum_blocks-append o [] m p = omega arith
sum_blocks-append o (a ∷ l) m p = omega (arith, sum_blocks-append o l m p)

module _ {e : Env} (forward : MovesForward e) (o : Outside) where
  open e use {Double}
  open o use {Net}

  abbrev State : Type 0
  State = Receiver Double Net

  abbrev Keeps : {A : Type 0} → (ℕ → ℕ) → M State A → Type 0
  Keeps c m = Safe (Owns (ImageChecked e) c) m (λ _. Owns (ImageChecked e) c)

  set_open-Keeps : (c : ℕ → ℕ) (b : Bool) → Keeps c (set_open e o b)
  unfolding set_open
  set_open-Keeps c b = modify-Safe _ (λ s x. x)

  poll_first-Keeps : (c : ℕ → ℕ) (seconds : ℕ) → Keeps c (poll_first e o seconds)
  unfolding poll_first poll
  poll_first-Keeps c zero = pure-Safe _ (λ s x. x)
  poll_first-Keeps c (suc n) = bind-Safe (system-Safe _ c _) λ answer. pure-Safe _ (λ s x. x)

  -- The blocks of a message that was received, besides those of the receiver.
  abbrev pub Received : Option Stream2Error × Msg Double → State → Type 0
  Received (none, msg) s = Owns (ImageChecked e) (msg_count msg) s × MsgFits msg × MsgChecked e msg
  Received (some err, msg) s = Owns (ImageChecked e) nothing s

  take_parsed-Good :
      (s : State) (r : Parsed Double)
      → Owns (ImageChecked e) nothing s
      → Ended e forward s.heap r
      → Checked e r
      → Good Received (take_parsed e o r s).0 (take_parsed e o r s).1
  unfolding take_parsed
  take_parsed-Good s (parsed msg h) x y z = ((λ p. omega (arith, x.0 p, y.1 p), x.1), y.0, z)
  take_parsed-Good s (refused err h) x y z = (λ p. omega (arith, x.0 p, y p), x.1)
  take_parsed-Good s (crashed null_deref) x y z = tt
  take_parsed-Good s (crashed (bad_free p)) x y z = y
  take_parsed-Good s no_fuel x y z = y

  pub receive-Safe : Safe (Owns (ImageChecked e) nothing) (receive e o) Received
  unfolding receive
  receive-Safe = bind-Safe (set_open-Keeps nothing true) λ _.
      bind-Safe (system-Safe _ nothing _) λ m. record {
        run = λ s x.
            take_parsed-Good s (stream2_parse_msg e m.1 m.0 m.1 s.heap) x
              (stream2_parse_msg-Ended e forward m.1 m.0 m.1 s.heap (omega arith))
              (stream2_parse_msg-Checked e m.1 m.0 m.1 s.heap);
      }

  -- Without the thresholds, or without the name of the data type, which have been given back.
  abbrev pub ButThresholds : (ℕ → ℕ) → State → Type 0
  ButThresholds c s =
      ((p : ℕ) → text_count s.image_dtype p + image_count s.image p + c p ≤ count p s.heap.live)
      × ImageFits (ImageChecked e) s.image

  abbrev pub ButDtype : (ℕ → ℕ) → State → Type 0
  ButDtype c s =
      ((p : ℕ)
        → sum_blocks threshold_blocks.blocks s.thresholds p + image_count s.image p + c p
          ≤ count p s.heap.live)
      × ImageFits (ImageChecked e) s.image

  pub free_thresholds-Safe :
      (c : ℕ → ℕ) (l : List (ThresholdEnergy Double))
      → Safe
          (ButThresholds (λ p. c p + sum_blocks threshold_blocks.blocks l p))
          (free_thresholds e o l)
          (λ _. ButThresholds c)
  unfolding free_thresholds
  free_thresholds-Safe c [] = pure-Safe tt (λ s x. (λ p. omega (arith, x.0 p), x.1))
  free_thresholds-Safe c (t ∷ l) =
      bind-Safe
        (give_back-Safe _ (text_count t.channel) (λ s x p. omega (arith, x.0 p))
          (λ s h x y. (λ p. omega (arith, x.0 p, y p), x.1)) _ (free_text-Frees t.channel))
        λ _. free_thresholds-Safe c l

  push_threshold-Keeps : (c : ℕ → ℕ) (t : ThresholdEnergy Double) → Keeps c (push_threshold e o t)
  unfolding push_threshold
  push_threshold-Keeps c t = bind-Safe (str_dup-Safe _ c t.channel) λ channel. modify-Safe _ (λ s x.
      (
        λ p. omega (
          arith,
          x.0 p,
          sum_blocks-append threshold_blocks.blocks s.thresholds
              (record t { channel = channel } ∷ []) p,
        ),
        x.1,
      ))

  push_thresholds-Keeps :
      (c : ℕ → ℕ) (l : List (ThresholdEnergy Double)) → Keeps c (push_thresholds e o l)
  unfolding push_thresholds
  push_thresholds-Keeps c [] = pure-Safe tt (λ s x. x)
  push_thresholds-Keeps c (t ∷ l) =
      bind-Safe (push_threshold-Keeps c t) λ _. push_thresholds-Keeps c l

  copy_thresholds-Keeps :
      (c : ℕ → ℕ) (a : HeapArray (ThresholdEnergy Double)) → Keeps c (copy_thresholds e o a)
  unfolding copy_thresholds
  copy_thresholds-Keeps c a =
      elim a.ptr
        as (λ p. Keeps c (elim p [
          | some p ↦ push_thresholds e o a.items
          | none ↦ elim a.items [ [] ↦ pure tt | _ ∷ _ ↦ fail null_read ]
        ])) [
          | some p ↦ push_thresholds-Keeps c a.items
          | none ↦
              elim a.items as (λ l. Keeps c (elim l [ [] ↦ pure tt | _ ∷ _ ↦ fail null_read ])) [
                | [] ↦ pure-Safe tt (λ s x. x)
                | b ∷ l ↦ fail-Safe null_read tt
              ]
        ]

  dup_after :
      (c : ℕ → ℕ) (t : CharPtr)
      → Safe (ButDtype c) (str_dup t) (λ t'. ButDtype (λ p. c p + text_count t' p))
  unfolding str_dup
  dup_after c none = record { run = λ s x. tt }
  dup_after c (some (q, text)) = record { run = λ s x. (λ p. omega (arith, x.0 p), x.1) }

  pub give_dtype_back :
      (c : ℕ → ℕ)
      → Safe
          (Owns (ImageChecked e) c)
          (λ (s : State). give_back (free (block s.image_dtype)) s)
          (λ _. ButDtype c)
  give_dtype_back c = record {
    run = λ s x.
        (give_back-Safe {P = λ t. Owns (ImageChecked e) c t × (t.image_dtype ≡ s.image_dtype)}
            (ButDtype c) (text_count s.image_dtype)
            (λ t y p. omega (arith, y.0.0 p, ap (λ d. text_count d p) y.1))
            (λ t h y z. (λ p. omega (arith, y.0.0 p, z p, ap (λ d. text_count d p) y.1), y.0.1)) _
            (free_text-Frees s.image_dtype)).run
          s (x, refl);
  }

  set_image_dtype-Keeps : (c : ℕ → ℕ) (t : CharPtr) → Keeps c (set_image_dtype e o t)
  unfolding set_image_dtype
  set_image_dtype-Keeps c t =
      bind-Safe (give_dtype_back c) λ _.
        bind-Safe (dup_after c t) λ copy. modify-Safe _ (λ s x. (λ p. omega (arith, x.0 p), x.1))

  set_thresholds-Keeps :
      (c : ℕ → ℕ) (a : HeapArray (ThresholdEnergy Double)) → Keeps c (set_thresholds e o a)
  unfolding set_thresholds
  set_thresholds-Keeps c a =
      bind-Safe
        (record {
          run = λ s x. (free_thresholds-Safe c s.thresholds).run s (λ p. omega (arith, x.0 p), x.1);
        })
        λ _.
          bind-Safe (modify-Safe _ (λ s x. (λ p. omega (arith, x.0 p), x.1)))
            λ _. copy_thresholds-Keeps c a

  keep_start-Keeps : (c : ℕ → ℕ) (m : StartMsg Double) → Keeps c (keep_start e o m)
  unfolding keep_start
  keep_start-Keeps c m = bind-Safe (modify-Safe _ (λ s x. x)) λ _.
      bind-Safe (set_image_dtype-Keeps c m.image_dtype)
        λ _. bind-Safe (modify-Safe _ (λ s x. x)) λ _. set_thresholds-Keeps c m.threshold_energy

  read_start-Keeps : (c : ℕ → ℕ) (msg : Msg Double) → Keeps c (read_start e o msg)
  unfolding read_start
  read_start-Keeps c Msg.null = fail-Safe null_read tt
  read_start-Keeps c (Msg.start p m) = bind-Safe (keep_start-Keeps c m) λ _. pure-Safe _ (λ s x. x)
  read_start-Keeps c (Msg.image p m) = pure-Safe _ (λ s x. x)
  read_start-Keeps c (Msg.end p m) = pure-Safe _ (λ s x. x)

  -- A message that is fit to be freed is given back.
  pub free_msg-Safe :
      (msg : Msg Double)
      → MsgFits msg
      → Safe {S = State}
          (Owns (ImageChecked e) (msg_count msg))
          (give_back (stream2_free_msg msg))
          (λ _. Owns (ImageChecked e) nothing)
  free_msg-Safe msg fit =
      give_back-Safe (Owns (ImageChecked e) nothing) (msg_count msg) (λ s x p. omega (arith, x.0 p))
        (λ s h x y. (λ p. omega (arith, x.0 p, y p), x.1)) _ (stream2_free_msg-Frees msg (inl fit))

  read_header-Safe :
      (r : Option Stream2Error × Msg Double)
      → Safe (Received r) (read_header e o r) (λ _. Owns (ImageChecked e) nothing)
  unfolding read_header
  read_header-Safe (some err, msg) = pure-Safe _ (λ s x. x)
  read_header-Safe (none, msg) = record {
    run = λ s x.
        (bind-Safe (read_start-Keeps (msg_count msg) msg)
            λ status. bind-Safe (free_msg-Safe msg x.1) λ _. pure-Safe status (λ s x. x)).run
          s x.0;
  }

  header_after-Keeps : (status : Status) → Keeps nothing (header_after e o status)
  unfolding header_after
  header_after-Keeps success = bind-Safe receive-Safe λ r.
      bind-Safe (read_header-Safe r)
        λ status. bind-Safe (set_open-Keeps nothing false) λ _. pure-Safe status (λ s x. x)
  header_after-Keeps timeout = pure-Safe _ (λ s x. x)
  header_after-Keeps error = pure-Safe _ (λ s x. x)
  header_after-Keeps (Status.refused err) = pure-Safe _ (λ s x. x)

  drop_message-Safe :
      (msg : Msg Double) (w : Waited)
      → MsgFits msg
      → Safe
          (Owns (ImageChecked e) (msg_count msg))
          (drop_message e o msg w)
          (λ _. Owns (ImageChecked e) nothing)
  unfolding drop_message
  drop_message-Safe msg w fit =
      bind-Safe (free_msg-Safe msg fit)
        λ _. bind-Safe (set_open-Keeps nothing false) λ _. pure-Safe w (λ s x. x)

  keep_image-Safe :
      (q : ℕ) (m : ImageMsg)
      → MsgFits {D = Double} (Msg.image q m)
      → ImageChecked e m
      → Safe
          (Owns (ImageChecked e) (msg_count {D = Double} (Msg.image q m)))
          (keep_image e o q m)
          (λ _. Owns (ImageChecked e) nothing)
  unfolding keep_image
  keep_image-Safe q m fit checked =
      bind-Safe (modify-Safe _ (λ s x. (λ p. omega (arith, x.0 p), (fit, checked))))
        λ _. pure-Safe _ (λ s x. x)

  read_frame-Safe :
      (r : Option Stream2Error × Msg Double)
      → Safe (Received r) (read_frame e o r) (λ _. Owns (ImageChecked e) nothing)
  unfolding read_frame
  read_frame-Safe (some err, msg) = pure-Safe _ (λ s x. x)
  read_frame-Safe (none, Msg.null) = fail-Safe null_read tt
  read_frame-Safe (none, Msg.image p m) = record {
    run = λ s x. (keep_image-Safe p m x.1 x.2).run s x.0;
  }
  read_frame-Safe (none, Msg.end p m) = record {
    run = λ s x. (drop_message-Safe (Msg.end p m) _ x.1).run s x.0;
  }
  read_frame-Safe (none, Msg.start p m) = record {
    run = λ s x. (drop_message-Safe (Msg.start p m) _ x.1).run s x.0;
  }

  frame_after-Keeps : (status : Status) → Keeps nothing (frame_after e o status)
  unfolding frame_after
  frame_after-Keeps success = bind-Safe receive-Safe λ r. read_frame-Safe r
  frame_after-Keeps timeout = pure-Safe _ (λ s x. x)
  frame_after-Keeps error = pure-Safe _ (λ s x. x)
  frame_after-Keeps (Status.refused err) = pure-Safe _ (λ s x. x)

  get_header-Keeps : (seconds : ℕ) → Keeps nothing (get_header e o seconds)
  unfolding get_header
  get_header-Keeps seconds =
      bind-Safe (poll_first-Keeps nothing seconds) λ status. header_after-Keeps status

  wait_frame-Keeps : (seconds : ℕ) → Keeps nothing (wait_frame e o seconds)
  unfolding wait_frame
  wait_frame-Keeps seconds =
      bind-Safe (poll_first-Keeps nothing seconds) λ status. frame_after-Keeps status

  -- Where all that the receiver owns is allocated, and its image is fit to be freed and checked, this is
  -- so after `getHeader`; which comes to an end, or crashes otherwise than by a wrong call of `free`.
  pub get_header-Owns :
      (seconds : ℕ) (s : State)
      → Owns (ImageChecked e) nothing s
      → Good
          (λ _. Owns (ImageChecked e) nothing)
          (get_header e o seconds s).0
          (get_header e o seconds s).1
  get_header-Owns seconds s owns = (get_header-Keeps seconds).run s owns

  -- Where all that the receiver owns is allocated, and its image is fit to be freed and checked, this is
  -- so after `waitFrame`; which comes to an end, or crashes otherwise than by a wrong call of `free`.
  pub wait_frame-Owns :
      (seconds : ℕ) (s : State)
      → Owns (ImageChecked e) nothing s
      → Good
          (λ _. Owns (ImageChecked e) nothing)
          (wait_frame e o seconds s).0
          (wait_frame e o seconds s).1
  wait_frame-Owns seconds s owns = (wait_frame-Keeps seconds).run s owns
