-- ===== src/StreamApi/Balance.antt =====
-- Every message that a method of eigerApp/src/streamApi.cpp initialises it closes, on every path.
use adeiger.Base.{
  ℕ, zero, suc, ◌+◌, ◌≡◌, subst, sym, Bool, true, false, Option, none, some, List, arith,
  if◌then◌else◌, codes,
}
use adeiger.Stream2Api.Outside.{DataType}
use adeiger.Stream2Api.Monad.{
  Crash, Result, ok, crash, out_of_fuel, M, pure, fail, modify, require, value_or, continue, ◌>>=◌,
}
use adeiger.StreamApi.Outside.{Outside}
use adeiger.StreamApi.Monad.{
  Status, success, timeout, wrong_htype, error, Receiver, system, msg_init, msg_close,
}
use adeiger.StreamApi.Tokens.{ShapeRead, dims, partial, behind, refused}
use adeiger.StreamApi.Messages.{
  FrameHeader, same_bytes, poll_first, forget_after, forget_message, forget_messages, header_after,
  get_header, keep_numbers, frame_after, wait_frame,
}
use adeiger.StreamApi.Frame.{
  copy_compressed, compressed_frame, receive_data, fill_frame, typed_frame, shaped_frame,
  json_frame, get_frame,
}

-- So many messages are open after a call that returns; a call whose behaviour is undefined says nothing.
abbrev pub OpenAfter : {N A : Type 0} → ℕ → Result A → Receiver N → Type 0
OpenAfter n (ok a) s = s.open_messages ≡ n
OpenAfter n (crash c) s = Unit
OpenAfter n out_of_fuel s = ⊥

-- Of `i` messages that are open besides others, `j` are left.
record Opens {N A : Type 0} (i j : ℕ) (m : M (Receiver N) A) : Type 0 where
  run : (n : ℕ) (s : Receiver N) → s.open_messages ≡ n + i → OpenAfter (n + j) (m s).0 (m s).1

plus_zero : (n : ℕ) → n + 0 ≡ n
plus_zero n = omega arith

module _ {N : Type 0} {i : ℕ} where
  pure-Opens : {A : Type 0} (a : A) → Opens {N = N} i i (pure a)
  unfolding pure
  pure-Opens a = record { run = λ n s h. h }

  fail-Opens : {A : Type 0} (c : Crash) → Opens {N = N} {A = A} i i (fail c)
  unfolding fail
  fail-Opens c = record { run = λ n s h. tt }

  system-Opens : {A : Type 0} (f : N → A × N) → Opens i i (system f)
  unfolding system
  system-Opens f = record { run = λ n s h. h }

  init-Opens : Opens {N = N} i (suc i) msg_init
  unfolding msg_init modify
  init-Opens = record { run = λ n s h. omega arith }

  close-Opens : Opens {N = N} (suc i) i msg_close
  unfolding msg_close modify
  close-Opens = record { run = λ n s h. omega arith }

  require-Opens : (b : Bool) (c : Crash) → Opens {N = N} i i (require b c)
  unfolding require
  require-Opens true c = pure-Opens tt
  require-Opens false c = fail-Opens c

  value-Opens : {A : Type 0} (c : Crash) (v : Option A) → Opens {N = N} i i (value_or c v)
  unfolding value_or
  value-Opens c none = fail-Opens c
  value-Opens c (some a) = pure-Opens a

  if-Opens :
      {j : ℕ} {A : Type 0} (b : Bool) {m k : M (Receiver N) A}
      → Opens i j m
      → Opens i j k
      → Opens i j (if b then m else k)
  if-Opens true x y = x
  if-Opens false x y = y

continue-OpenAfter :
    {N A B : Type 0} (j k n : ℕ) (f : A → M (Receiver N) B)
    → ((a : A) → Opens j k (f a))
    → (r : Result A) (s : Receiver N) → OpenAfter (n + j) r s
    → OpenAfter (n + k) (continue r f s).0 (continue r f s).1
continue-OpenAfter j k n f rest (ok a) s x = (rest a).run n s x
continue-OpenAfter j k n f rest (crash c) s x = x
continue-OpenAfter j k n f rest out_of_fuel s x = x

bind-Opens :
    {N A B : Type 0} {i j k : ℕ} {m : M (Receiver N) A} {f : A → M (Receiver N) B}
    → Opens i j m
    → ((a : A) → Opens j k (f a))
    → Opens i k (m >>= f)
unfolding ◌>>=◌
bind-Opens {j = j} {k = k} {m = m} {f = f} x rest = record {
  run = λ n s h. continue-OpenAfter j k n f rest (m s).0 (m s).1 (x.run n s h);
}

module _ (o : Outside) where
  open o use {Net, Json}

  module _ {i : ℕ} where
    poll_first-Opens : (seconds : ℕ) → Opens i i (poll_first o seconds)
    unfolding poll_first
    poll_first-Opens zero = pure-Opens _
    poll_first-Opens (suc n) = bind-Opens (system-Opens _) λ answer. pure-Opens _

    forget_after-Opens : (status : Status) → Opens i i (forget_after o status)
    unfolding forget_after
    forget_after-Opens success =
        bind-Opens init-Opens λ _. bind-Opens (system-Opens _) λ bytes. close-Opens
    forget_after-Opens timeout = pure-Opens tt
    forget_after-Opens wrong_htype = pure-Opens tt
    forget_after-Opens error = pure-Opens tt

    forget_messages-Opens : (n seconds : ℕ) → Opens i i (forget_messages o n seconds)
    unfolding forget_messages forget_message
    forget_messages-Opens zero seconds = pure-Opens tt
    forget_messages-Opens (suc n) seconds =
        bind-Opens (bind-Opens (poll_first-Opens seconds) λ status. forget_after-Opens status)
          λ _. forget_messages-Opens n seconds

  header_after-Opens : (seconds : ℕ) (status : Status) → Opens 0 0 (header_after o seconds status)
  unfolding header_after
  header_after-Opens seconds success = bind-Opens init-Opens λ _.
      bind-Opens (system-Opens _) λ bytes.
        bind-Opens (forget_messages-Opens _ seconds) λ _. bind-Opens close-Opens λ _. pure-Opens _
  header_after-Opens seconds timeout = pure-Opens _
  header_after-Opens seconds wrong_htype = pure-Opens _
  header_after-Opens seconds error = pure-Opens _

  keep_numbers-Opens : {i : ℕ} (h : FrameHeader) → Opens i i (keep_numbers o h)
  unfolding keep_numbers modify
  keep_numbers-Opens h = record { run = λ n s x. x }

  frame_after-Opens : (status : Status) → Opens 0 0 (frame_after o status)
  unfolding frame_after
  frame_after-Opens success = bind-Opens init-Opens λ _.
      bind-Opens (system-Opens _)
        λ bytes. bind-Opens (keep_numbers-Opens _) λ _. bind-Opens close-Opens λ _. pure-Opens _
  frame_after-Opens timeout = pure-Opens _
  frame_after-Opens wrong_htype = pure-Opens _
  frame_after-Opens error = pure-Opens _

  module _ {i : ℕ} where
    compressed-Opens :
        (decompress : Bool) (shape : ℕ × ℕ) (t : DataType) (encoding : List ℕ) (len : ℕ)
        (input : List ℕ)
        → Opens i i (compressed_frame o decompress shape t encoding len input)
    unfolding compressed_frame copy_compressed
    compressed-Opens true shape t encoding len input = pure-Opens _
    compressed-Opens false shape t encoding len input =
        bind-Opens (require-Opens _ _) λ _. pure-Opens _

    receive_data-Opens :
        (decompress : Bool) (shape : ℕ × ℕ) (t : DataType) (encoding : List ℕ) (len : ℕ)
        → Opens i i (receive_data o decompress shape t encoding len)
    unfolding receive_data
    receive_data-Opens decompress shape t encoding len =
        if-Opens (same_bytes encoding (codes "<"))
          (bind-Opens (system-Opens _) λ bytes. pure-Opens _)
          (bind-Opens (system-Opens _) λ granted. bind-Opens (value-Opens _ granted) λ temp.
            bind-Opens (system-Opens _) λ bytes. compressed-Opens decompress shape t encoding len _)

    typed_frame-Opens :
        (decompress : Bool) (shape : ℕ × ℕ) (t : Option DataType) (encoding : List ℕ) (len : ℕ)
        → Opens i i (typed_frame o decompress shape t encoding len)
    unfolding typed_frame fill_frame
    typed_frame-Opens decompress shape none encoding len = pure-Opens _
    typed_frame-Opens decompress shape (some t) encoding len =
        bind-Opens (system-Opens _) λ granted.
          if-Opens granted
            (bind-Opens (receive_data-Opens decompress shape t encoding len) λ frame.
              bind-Opens init-Opens λ _.
                bind-Opens (system-Opens _) λ time_stamp. bind-Opens close-Opens λ _. pure-Opens _)
            (pure-Opens _)

    shaped_frame-Opens :
        (decompress : Bool) (shape : ShapeRead) (type encoding : Option (List ℕ)) (len : Option ℕ)
        → Opens i i (shaped_frame o decompress shape type encoding len)
    unfolding shaped_frame
    shaped_frame-Opens decompress behind type encoding len = fail-Opens _
    shaped_frame-Opens decompress refused type encoding len = pure-Opens _
    shaped_frame-Opens decompress (dims x y) none encoding len = pure-Opens _
    shaped_frame-Opens decompress (dims x y) (some type) none len = pure-Opens _
    shaped_frame-Opens decompress (dims x y) (some type) (some encoding) none = pure-Opens _
    shaped_frame-Opens decompress (dims x y) (some type) (some encoding) (some len) =
        typed_frame-Opens decompress (x, y) _ encoding len
    shaped_frame-Opens decompress partial none encoding len = pure-Opens _
    shaped_frame-Opens decompress partial (some type) none len = pure-Opens _
    shaped_frame-Opens decompress partial (some type) (some encoding) none = pure-Opens _
    shaped_frame-Opens decompress partial (some type) (some encoding) (some len) = fail-Opens _

    json_frame-Opens :
        (decompress : Bool) (json : Option Json) → Opens i i (json_frame o decompress json)
    unfolding json_frame
    json_frame-Opens decompress none = pure-Opens _
    json_frame-Opens decompress (some json) = shaped_frame-Opens decompress _ _ _ _

  get_header-Opens : (seconds : ℕ) → Opens 0 0 (get_header o seconds)
  unfolding get_header
  get_header-Opens seconds =
      bind-Opens (poll_first-Opens seconds) λ status. header_after-Opens seconds status

  wait_frame-Opens : (seconds : ℕ) → Opens 0 0 (wait_frame o seconds)
  unfolding wait_frame
  wait_frame-Opens seconds =
      bind-Opens (poll_first-Opens seconds) λ status. frame_after-Opens status

  get_frame-Opens : (decompress : Bool) → Opens 0 0 (get_frame o decompress)
  unfolding get_frame
  get_frame-Opens decompress = bind-Opens init-Opens λ _. bind-Opens (system-Opens _) λ bytes.
      bind-Opens (json_frame-Opens decompress _) λ r. bind-Opens close-Opens λ _. pure-Opens r

  balanced :
      {A : Type 0} (m : M (Receiver Net) A) (s : Receiver Net)
      → Opens 0 0 m
      → OpenAfter s.open_messages (m s).0 (m s).1
  balanced m s x =
      subst (λ k. OpenAfter k (m s).0 (m s).1) (plus_zero s.open_messages)
        (x.run s.open_messages s (sym (plus_zero s.open_messages)))

  -- `getHeader`, `waitFrame` and `getFrame` come to an end, and each that returns, with success or an
  -- error, leaves as many messages open as there were.
  pub calls-Balanced :
      (seconds : ℕ) (decompress : Bool) (s : Receiver Net)
      → OpenAfter s.open_messages (get_header o seconds s).0 (get_header o seconds s).1
        × OpenAfter s.open_messages (wait_frame o seconds s).0 (wait_frame o seconds s).1
        × OpenAfter s.open_messages (get_frame o decompress s).0 (get_frame o decompress s).1
  calls-Balanced seconds decompress s = (
    balanced (get_header o seconds) s (get_header-Opens seconds),
    balanced (wait_frame o seconds) s (wait_frame-Opens seconds),
    balanced (get_frame o decompress) s (get_frame-Opens decompress),
  )
