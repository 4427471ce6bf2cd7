-- ===== src/Stream2/Parse.antt =====
-- `stream2_parse_msg` of eigerApp/src/stream2.c: the signature, the type of the message, and what
-- becomes of a message that did not parse to its end.
use adeiger.Base.{ℕ, ◌+◌, ◌-◌, String, Bool, not, ◌&&◌, ltb, ◌==◌, str_eq, if◌then◌else◌}
use adeiger.Cbor.{Env}
use adeiger.Stream2.Memory.{Heap, Freed, freed, fault, Fault}
use adeiger.Stream2.Types.{Stream2Error, signature, parse, Msg}
use adeiger.Stream2.Monad.{M, Outcome, ok, err, out_of_fuel, fail, reply, require, ◌>>=◌, ◌>>◌}
use adeiger.Stream2.Scalars.{parse_key}
use adeiger.Stream2.Start.{parse_start_msg}
use adeiger.Stream2.Image.{parse_image_msg}
use adeiger.Stream2.EndMsg.{parse_end_msg}
use adeiger.Stream2.Free.{stream2_free_msg}

-- How a call of `stream2_parse_msg` ends: with `STREAM2_OK` and the message in `*msg_out`, with an
-- error and `NULL` there, or with a fault of the call of `stream2_free_msg`.
pub data Parsed (D : Type 0) : Type 0 where
  parsed : Msg D → Heap → Parsed D
  refused : Stream2Error → Heap → Parsed D
  crashed : Fault → Parsed D
  no_fuel : Parsed D

module _ (e : Env) where
  open e use {Value, Double}

  -- The first three bytes of the buffer are 0xd9 0xd9 0xf7.
  unfoldable pub has_magic : ℕ → ℕ → Bool
  has_magic buffer size =
      not (ltb size 3)
      && (e.byte buffer == 0xd9)
      && (e.byte (buffer + 1) == 0xd9)
      && (e.byte (buffer + 2) == 0xf7)

  unfoldable pub parse_msg_type : {S : Type 0} → Value → M S (String × Value)
  parse_msg_type it = do
    (key, it) ← parse_key e it
    require (str_eq key "type") parse
    it ← reply (e.skip_tag it)
    parse_key e it

  unfoldable pub parse_by_type : ℕ → String → Value → M (Msg Double) Value
  parse_by_type fuel type field =
      if str_eq type "start"
      then parse_start_msg e fuel field
      else if str_eq type "image"
      then parse_image_msg e fuel field
      else if str_eq type "end"
      then parse_end_msg e fuel field
      else fail parse

  unfoldable pub parse_msg : ℕ → ℕ → ℕ → M (Msg Double) Value
  parse_msg fuel buffer size = do
    require (has_magic buffer size) signature
    it ← reply (e.parser_init (buffer + 3) (size - 3))
    require (e.is_map it) parse
    field ← reply (e.enter_container it)
    (type, field) ← parse_msg_type field
    field ← parse_by_type fuel type field
    reply (e.leave_container it field)

  unfoldable pub after_free : Stream2Error → Freed → Parsed Double
  after_free error (freed h) = refused error h
  after_free error (fault f) = crashed f

  unfoldable pub finish : Outcome Value × Heap × Msg Double → Parsed Double
  finish (ok _, h, msg) = parsed msg h
  finish (err error, h, msg) = after_free error (stream2_free_msg msg h)
  finish (out_of_fuel, h, msg) = no_fuel

  unfoldable pub stream2_parse_msg : ℕ → ℕ → ℕ → Heap → Parsed Double
  stream2_parse_msg fuel buffer size h = finish (parse_msg fuel buffer size h Msg.null)
