-- ===== src/Stream2/Triple/Messages.antt =====
-- What `stream2_parse_msg` of eigerApp/src/stream2.c hands out with `STREAM2_OK`, and what it does
-- with a buffer that is no message.
use adeiger.Base.{ℕ, ◌≡◌, String, false, str_eq, none, some}
use adeiger.Cbor.{Env}
use adeiger.Stream2.Memory.{Heap, Freed, freed, fault, Ptr}
use adeiger.Stream2.Types.{signature, Msg}
use adeiger.Stream2.Monad.{M, Outcome, ok, err, out_of_fuel, require, fail, ◌>>=◌}
use adeiger.Stream2.Scalars.{fill_msg, calloc_msg}
use adeiger.Stream2.Start.{parse_start_msg}
use adeiger.Stream2.Image.{parse_image_msg}
use adeiger.Stream2.EndMsg.{parse_end_msg}
use adeiger.Stream2.Free.{stream2_free_msg}
use adeiger.Stream2.Parse.{
  Parsed, parsed, refused, crashed, no_fuel, has_magic, parse_by_type, parse_msg, after_free,
  finish, stream2_parse_msg,
}
use adeiger.Stream2.Triple.{
  Holds, Triple, Any, any-Triple, fail-Triple, reply-Triple, if-Triple, bind-Triple,
}

-- `*msg_out` is not `NULL`.
abbrev pub IsMessage : {D : Type 0} → Msg D → Type 0
IsMessage Msg.null = ⊥
IsMessage (Msg.start p m) = Unit
IsMessage (Msg.image p m) = Unit
IsMessage (Msg.end p m) = Unit

module _ (e : Env) where
  open e use {Value, Double}

  filled :
      {T : Type 0} (wrap : ℕ → T → Msg Double)
      → ((p : ℕ) (m : T) → IsMessage (wrap p m))
      → (p : ℕ) (r : Outcome Value) (m : T) → Holds (λ _ msg. IsMessage msg) r (wrap p m)
  filled wrap is p (ok v) m = is p m
  filled wrap is p (err _) m = tt
  filled wrap is p out_of_fuel m = tt

  fill_msg-IsMessage :
      {T : Type 0} (wrap : ℕ → T → Msg Double) (blank : T) (loop : M T Value)
      → ((p : ℕ) (m : T) → IsMessage (wrap p m))
      → (a : Ptr × Heap)
      → Holds
          (λ _ msg. IsMessage msg)
          (fill_msg e wrap blank loop a).0
          (fill_msg e wrap blank loop a).2
  unfolding fill_msg
  fill_msg-IsMessage wrap blank loop is (none, h) = tt
  fill_msg-IsMessage wrap blank loop is (some p, h) =
      filled wrap is p (loop h blank).0 (loop h blank).2

  calloc_msg-Triple :
      {T : Type 0} (wrap : ℕ → T → Msg Double) (blank : T) (loop : M T Value)
      → ((p : ℕ) (m : T) → IsMessage (wrap p m))
      → Triple Any (calloc_msg e wrap blank loop) (λ _ msg. IsMessage msg)
  unfolding calloc_msg
  calloc_msg-Triple wrap blank loop is = record {
    run = λ h t x. fill_msg-IsMessage wrap blank loop is _;
  }

  parse_by_type-Triple :
      (fuel : ℕ) (type : String) (it : Value)
      → Triple Any (parse_by_type e fuel type it) (λ _ msg. IsMessage msg)
  unfolding parse_by_type parse_start_msg parse_image_msg parse_end_msg
  parse_by_type-Triple fuel type it =
      if-Triple (str_eq type "start") (λ _. calloc_msg-Triple _ _ _ (λ p m. tt))
        (λ _.
          if-Triple (str_eq type "image") (λ _. calloc_msg-Triple _ _ _ (λ p m. tt))
            (λ _.
              if-Triple (str_eq type "end") (λ _. calloc_msg-Triple _ _ _ (λ p m. tt))
                (λ _. fail-Triple _)))

  parse_msg-Triple :
      (fuel buffer size : ℕ) → Triple Any (parse_msg e fuel buffer size) (λ _ msg. IsMessage msg)
  unfolding parse_msg
  parse_msg-Triple fuel buffer size = bind-Triple (any-Triple _) λ _.
      bind-Triple (any-Triple _) λ it. bind-Triple (any-Triple _) λ _.
        bind-Triple (any-Triple _) λ field. bind-Triple (any-Triple _) λ r.
          bind-Triple (record { run = λ h t x. (parse_by_type-Triple fuel r.0 r.1).run h t tt })
            λ v. reply-Triple _

  abbrev pub HandsOut : Parsed Double → Type 0
  HandsOut (parsed msg h) = IsMessage msg
  HandsOut (refused error h) = Unit
  HandsOut (crashed f) = Unit
  HandsOut no_fuel = Unit

  finish-HandsOut :
      (r : Outcome Value) (h : Heap) (msg : Msg Double)
      → Holds (λ _ msg. IsMessage msg) r msg
      → HandsOut (finish e (r, h, msg))
  unfolding finish after_free
  finish-HandsOut (ok v) h msg x = x
  finish-HandsOut (err error) h msg x = after (stream2_free_msg msg h)
    where
      after : (r : Freed) → HandsOut (after_free e error r)
      after (freed h) = tt
      after (fault f) = tt
  finish-HandsOut out_of_fuel h msg x = tt

  -- With `STREAM2_OK` the message is not `NULL`.
  pub stream2_parse_msg-HandsOut :
      (fuel buffer size : ℕ) (h : Heap) → HandsOut (stream2_parse_msg e fuel buffer size h)
  unfolding stream2_parse_msg
  stream2_parse_msg-HandsOut fuel buffer size h =
      let run = parse_msg e fuel buffer size h Msg.null in
      finish-HandsOut run.0 run.1 run.2 ((parse_msg-Triple fuel buffer size).run h Msg.null tt)

  -- A buffer without the signature is refused, and the heap is left as it was.
  stream2_parse_msg_signature :
      (fuel buffer size : ℕ) (h : Heap)
      → has_magic e buffer size ≡ false
      → stream2_parse_msg e fuel buffer size h ≡ refused signature h
  unfolding stream2_parse_msg parse_msg finish after_free stream2_free_msg ◌>>=◌ require fail
  stream2_parse_msg_signature fuel buffer size h no_magic = rw no_magic
