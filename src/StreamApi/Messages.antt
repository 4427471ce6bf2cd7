-- ===== src/StreamApi/Messages.antt =====
-- `getHeader` and `waitFrame` of eigerApp/src/streamApi.cpp.
use adeiger.Base.{
  ℕ, zero, suc, Bool, true, false, Option, none, some, List, [], ◌∷◌, ◌==◌, length, take, codes,
  if◌then◌else◌,
}
use adeiger.Stream2Api.Outside.{Polled, ready, timed_out, poll_failed}
use adeiger.Stream2Api.Monad.{M, pure, modify, ◌>>=◌, ◌>>◌}
use adeiger.StreamApi.Outside.{Outside}
use adeiger.StreamApi.Monad.{
  Status, success, timeout, wrong_htype, error, Receiver, system, msg_init, msg_close,
}
use adeiger.StreamApi.Tokens.{read_size, read_chars, read_text}

unfoldable pub same_bytes : List ℕ → List ℕ → Bool
same_bytes [] [] = true
same_bytes (a ∷ l) (b ∷ m) = let rest = same_bytes l m in if a == b then rest else false
same_bytes _ _ = false

-- `strncmp` with a text that is not shorter.
abbrev pub starts_with : List ℕ → List ℕ → Bool
starts_with text start = same_bytes (take (length start) text) start

-- What a header says: the status, the series if it is written, and how many messages follow that are to be
-- skipped.
pub record Header : Type 0 where
  pub status : Status
  pub series : Option ℕ
  pub skip : ℕ

-- What the header of a frame says. `series` and `frame` are those that are written.
pub record FrameHeader : Type 0 where
  pub status : Status
  pub end : Bool
  pub series : Option ℕ
  pub frame : Option ℕ

abbrev pub failed : Status → Option ℕ → Header
failed status series = record { status = status; series = series; skip = 0 }

unfoldable pub skip_of : List ℕ → ℕ
skip_of detail =
    if same_bytes detail (codes "basic")
    then 1
    else if same_bytes detail (codes "all")
    then 7
    else 0

unfoldable pub detail_header : ℕ → Option (List ℕ) → Header
detail_header series none = failed error (some series)
detail_header series (some detail) = record {
  status = success;
  series = some series;
  skip = skip_of detail;
}

-- `err |= ...` of the two numbers.
unfoldable pub both_read : Option ℕ → Option ℕ → Bool → Status
both_read (some series) (some frame) true = success
both_read _ _ _ = error

module _ (o : Outside) where
  open o use {Net, Json}

  abbrev Recv : Type 0 → Type 0
  Recv A = M (Receiver Net) A

  unfoldable pub series_header : Json → Header
  series_header json = elim (read_size o json "series") [
    | none ↦ failed error none
    | some series ↦ detail_header series (read_text o json "header_detail")
  ]

  unfoldable pub json_header : Json → Header
  json_header json = elim (read_text o json "htype") [
    | none ↦ failed error none
    | some htype ↦
        if starts_with htype (codes "dheader") then series_header json else failed wrong_htype none
  ]

  unfoldable pub header_of : List ℕ → Header
  header_of bytes = elim (o.parse_json bytes) [
    | none ↦ failed error none
    | some json ↦ json_header json
  ]

  abbrev poll_result : Polled → Status
  poll_result ready = success
  poll_result timed_out = timeout
  poll_result poll_failed = error

  -- `if(timeout && (err = poll(timeout))) return err;`
  unfoldable pub poll_first : ℕ → Recv Status
  poll_first zero = pure success
  poll_first (suc n) = do answer ← system (o.poll (suc n)); pure (poll_result answer)

  -- `getHeader` without a header to fill: a message is received and forgotten.
  unfoldable pub forget_after : Status → Recv (Unit {0})
  forget_after success = do msg_init; bytes ← system o.recv; msg_close
  forget_after status = pure tt

  unfoldable pub forget_message : ℕ → Recv (Unit {0})
  forget_message seconds = do status ← poll_first seconds; forget_after status

  unfoldable pub forget_messages : ℕ → ℕ → Recv (Unit {0})
  forget_messages zero seconds = pure tt
  forget_messages (suc n) seconds = do forget_message seconds; forget_messages n seconds

  unfoldable pub header_after : ℕ → Status → Recv Header
  header_after seconds success = do
    msg_init
    bytes ← system o.recv
    forget_messages (header_of bytes).skip seconds
    msg_close
    pure (header_of bytes)
  header_after seconds status = pure (failed status none)

  unfoldable pub get_header : ℕ → Recv Header
  get_header seconds = do status ← poll_first seconds; header_after seconds status

  -- The buffer for the type of the header has 64 characters; it stays empty where the token cannot be read.
  unfoldable pub frame_fields : Json → Bool → List ℕ → FrameHeader
  frame_fields json read htype =
      if starts_with htype (codes "dseries_end")
      then record { status = success; end = true; series = none; frame = none }
      else record {
        status = both_read (read_size o json "series") (read_size o json "frame") read;
        end = false;
        series = read_size o json "series";
        frame = read_size o json "frame";
      }

  unfoldable pub frame_header_of : List ℕ → FrameHeader
  frame_header_of bytes = elim (o.parse_json bytes) [
    | none ↦ record { status = error; end = false; series = none; frame = none }
    | some json ↦ elim (read_chars o json "htype" 64) [
      | none ↦ frame_fields json false []
      | some htype ↦ frame_fields json true htype
    ]
  ]

  abbrev pub written : Option ℕ → ℕ → ℕ
  written none old = old
  written (some n) old = n

  unfoldable pub keep_numbers : FrameHeader → Recv (Unit {0})
  keep_numbers h =
      modify (λ s. record s { series = written h.series s.series; frame = written h.frame s.frame })

  unfoldable pub frame_after : Status → Recv FrameHeader
  frame_after success = do
    msg_init
    bytes ← system o.recv
    keep_numbers (frame_header_of bytes)
    msg_close
    pure (frame_header_of bytes)
  frame_after status = pure (record { status = status; end = false; series = none; frame = none })

  unfoldable pub wait_frame : ℕ → Recv FrameHeader
  wait_frame seconds = do status ← poll_first seconds; frame_after status
