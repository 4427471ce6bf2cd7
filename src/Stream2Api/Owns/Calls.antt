-- ===== src/Stream2Api/Owns/Calls.antt =====
-- Any sequence of calls of a `Stream2API` of eigerApp/src/stream2Api.cpp.
use adeiger.Base.{ℕ, ◌≡◌, Bool, Option, arith}
use adeiger.Cbor.{Env, MovesForward}
use adeiger.Stream2.Memory.{Heap}
use adeiger.Stream2.Triple.Images.{ImageChecked}
use adeiger.Stream2Api.Outside.{Outside}
use adeiger.Stream2Api.Monad.{Result, ok, crash, out_of_fuel, Status, Receiver}
use adeiger.Stream2Api.Messages.{Waited, get_header, wait_frame}
use adeiger.Stream2Api.Frame.{NdArray, get_frame}
use adeiger.Stream2Api.Life.{new_receiver, destroy}
use adeiger.Stream2Api.Owns.{Owns, nothing, Good, Safe, modify-Safe, bind-Safe}
use adeiger.Stream2Api.Owns.Messages.{
  give_dtype_back, free_thresholds-Safe, get_header-Owns, wait_frame-Owns,
}
use adeiger.Stream2Api.Owns.Frame.{get_frame-Owns}

good_of_ok :
    {S A : Type 0} (Q : S → Type 0) (r : Result A) (s : S) (a : A)
    → r ≡ ok a
    → Good (λ _. Q) r s
    → Q s
good_of_ok Q (ok b) s a e x = x
good_of_ok Q (crash c) s a e x = cc
good_of_ok Q out_of_fuel s a e x = cc

module _ (e : Env) (o : Outside) where
  open e use {Double}
  open o use {Net}

  abbrev State : Type 0
  State = Receiver Double Net

  -- One call that returns, in any order and with any arguments.
  pub data Call : State → State → Type 0 where
    header :
        (seconds : ℕ) (s : State) (status : Status)
        → (get_header e o seconds s).0 ≡ ok status
        → Call s (get_header e o seconds s).1
    wait :
        (seconds : ℕ) (s : State) (w : Waited)
        → (wait_frame e o seconds s).0 ≡ ok w
        → Call s (wait_frame e o seconds s).1
    frame :
        (thresh : ℕ) (decompress extract : Bool) (s : State)
        → (r : Status × Option (NdArray Double))
        → (get_frame e o thresh decompress extract s).0 ≡ ok r
        → Call s (get_frame e o thresh decompress extract s).1

  pub data Calls (s : State) : State → Type 0 where
    none_yet : Calls s s
    then_call : {t u : State} → Calls s t → Call t u → Calls s u

  module _ (forward : MovesForward e) where
    Call-Owns :
        {s t : State} → Call s t → Owns (ImageChecked e) nothing s → Owns (ImageChecked e) nothing t
    Call-Owns (header seconds s status q) x =
        good_of_ok (Owns (ImageChecked e) nothing) _ _ status q
          (get_header-Owns forward o seconds s x)
    Call-Owns (wait seconds s w q) x =
        good_of_ok (Owns (ImageChecked e) nothing) _ _ w q (wait_frame-Owns forward o seconds s x)
    Call-Owns (frame thresh decompress extract s r q) x =
        good_of_ok (Owns (ImageChecked e) nothing) _ _ r q
          (get_frame-Owns e o thresh decompress extract s x)

    Calls-Owns :
        {s t : State}
        → Calls s t
        → Owns (ImageChecked e) nothing s
        → Owns (ImageChecked e) nothing t
    Calls-Owns none_yet x = x
    Calls-Owns (then_call calls call) x = Call-Owns call (Calls-Owns calls x)

    destroy-Safe :
        Safe (Owns (ImageChecked e) nothing) (destroy e o) (λ _. Owns (ImageChecked e) nothing)
    unfolding destroy
    destroy-Safe = bind-Safe (give_dtype_back forward o nothing) λ _.
        bind-Safe (modify-Safe _ (λ s x. (λ p. omega (arith, x.0 p), x.1))) λ _.
          bind-Safe
            (record {
              run = λ s (x : Owns (ImageChecked e) nothing s).
                  (free_thresholds-Safe forward o nothing s.thresholds).run s
                    (λ p. omega (arith, x.0 p), x.1);
            })
            λ _. modify-Safe _ (λ s x. (λ p. omega (arith, x.0 p), x.1))

    -- What the receiver owns is allocated, and every further call comes to an end without a wrong call
    -- of `free`, and leaves it so; the destructor too.
    abbrev pub IsSafe : State → Type 0
    IsSafe t =
        Owns (ImageChecked e) nothing t
        × ((seconds : ℕ)
            → Good (λ _. Owns (ImageChecked e) nothing) (get_header e o seconds t).0
                (get_header e o seconds t).1)
        × ((seconds : ℕ)
            → Good (λ _. Owns (ImageChecked e) nothing) (wait_frame e o seconds t).0
                (wait_frame e o seconds t).1)
        × ((thresh : ℕ) (decompress extract : Bool)
            → Good (λ _. Owns (ImageChecked e) nothing)
                (get_frame e o thresh decompress extract t).0
                (get_frame e o thresh decompress extract t).1)
        × Good (λ _. Owns (ImageChecked e) nothing) (destroy e o t).0 (destroy e o t).1

    -- After any calls of a new receiver that have returned, all that the receiver owns is allocated, its
    -- image is fit to be freed and has been checked; and `getHeader`, `waitFrame`, `getFrame` and the
    -- destructor come to an end, leaving it so, or crash otherwise than by a wrong call of `free`.
    pub Calls-IsSafe :
        (net : Net) (h : Heap) (unset_ts : ℕ × ℕ) (t : State)
        → Calls (new_receiver e o net h unset_ts) t
        → IsSafe t
    unfolding new_receiver
    Calls-IsSafe net h unset_ts t calls =
        let owns : Owns (ImageChecked e) nothing t = Calls-Owns calls (λ p. omega arith, tt) in
        (
          owns,
          λ seconds. get_header-Owns forward o seconds t owns,
          λ seconds. wait_frame-Owns forward o seconds t owns,
          λ thresh decompress extract. get_frame-Owns e o thresh decompress extract t owns,
          destroy-Safe.run t owns,
        )
