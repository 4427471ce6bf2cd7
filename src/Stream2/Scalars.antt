-- ===== src/Stream2/Scalars.antt =====
-- The parsers of single items in eigerApp/src/stream2.c, and its two kinds of loop. A parser takes
-- the iterator `it` and returns the moved one; its state is the variable that it fills.
use adeiger.Base.{
  ℕ, zero, suc, ◌+◌, ◌*◌, ◌^◌, String, Bool, true, false, Option, none, some, ◌==◌, ◌||◌,
  if◌then◌else◌,
}
use adeiger.Cbor.{CborError, done, failed, Copied, Env}
use adeiger.Stream2.Memory.{Ptr, CharPtr, Heap, malloc}
use adeiger.Stream2.Types.{out_of_memory, parse, Bytes, Msg}
use adeiger.Stream2.Monad.{
  M, Outcome, cbor_result, pure, fail, diverge, reply, require, modify, ◌>>=◌, ◌>>◌,
}

-- `enum { MAX_KEY_LEN = 64 }`
abbrev pub max_key_len : ℕ
max_key_len = 64

-- `==` of an error code that may be `CborNoError`, and `CborErrorOutOfMemory`.
abbrev pub is_out_of_memory : Option CborError → Bool
is_out_of_memory (some CborError.out_of_memory) = true
is_out_of_memory _ = false

-- `for (size_t i = 0; i < len; i++)` with the iterator that its body moves.
unfoldable pub for_each : {S V : Type 0} → ℕ → ℕ → (ℕ → V → M S V) → V → M S V
for_each zero i body it = pure it
for_each (suc n) i body it = do it ← body i it; for_each n (suc i) body it

module _ (e : Env) where
  open e use {Value, Double}

  -- The eight bytes at an offset of the buffer, the most significant first. The shifts keep the
  -- bytes apart, so that their bitwise or is their sum.
  unfoldable pub read_u64_be : ℕ → ℕ
  read_u64_be ptr =
      e.byte ptr * 2 ^ 56
      + e.byte (ptr + 1) * 2 ^ 48
      + e.byte (ptr + 2) * 2 ^ 40
      + e.byte (ptr + 3) * 2 ^ 32
      + e.byte (ptr + 4) * 2 ^ 24
      + e.byte (ptr + 5) * 2 ^ 16
      + e.byte (ptr + 6) * 2 ^ 8
      + e.byte (ptr + 7)

  -- The offset of a byte string's contents behind its header, by the header's first byte.
  unfoldable pub skip_header : ℕ → ℕ
  skip_header ptr =
      if e.byte ptr == 0x58
      then ptr + 1 + 1
      else if e.byte ptr == 0x59
      then ptr + 1 + 2
      else if e.byte ptr == 0x5a
      then ptr + 1 + 4
      else if e.byte ptr == 0x5b
      then ptr + 1 + 8
      else ptr + 1

  unfoldable pub consume_byte_string_nocopy : Value → M Bytes Value
  consume_byte_string_nocopy it = do
    len ← reply (e.get_string_length it)
    modify (λ b. record b { len = len })
    modify (λ b. record b { ptr = skip_header (e.get_next_byte it) })
    reply (e.advance it)

  unfoldable pub parse_copied : {S : Type 0} → Copied Value → M S (String × Value)
  parse_copied c =
      if is_out_of_memory c.error || c.key_len == max_key_len
      then pure ("", c.next)
      else elim c.error [ none ↦ pure (c.text, c.next) | some error ↦ fail (cbor_result error) ]

  -- A key that does not fit is read as the empty one.
  unfoldable pub parse_key : {S : Type 0} → Value → M S (String × Value)
  parse_key it = do require (e.is_text_string it) parse; parse_copied (e.copy_text_string it)

  unfoldable pub parse_tag : Value → M ℕ Value
  parse_tag it = do
    require (e.is_tag it) parse
    tag ← reply (e.get_tag it)
    modify (λ _. tag)
    reply (e.advance_fixed it)

  unfoldable pub parse_bool : Value → M Bool Value
  parse_bool it = do
    require (e.is_boolean it) parse
    value ← reply (e.get_boolean it)
    modify (λ _. value)
    reply (e.advance_fixed it)

  -- The value of a half, single or double float.
  unfoldable pub read_double : Value → M Double (Unit {0})
  read_double it =
      if e.is_half_float it
      then (do h ← reply (e.get_half_float it); modify (λ _. e.float_to_double (e.half_to_float h)))
      else if e.is_float it
      then (do f ← reply (e.get_float it); modify (λ _. e.float_to_double f))
      else if e.is_double it
      then (do d ← reply (e.get_double it); modify (λ _. d))
      else fail parse

  unfoldable pub parse_double : Value → M Double Value
  parse_double it = do read_double it; reply (e.advance_fixed it)

  unfoldable pub parse_uint64 : Value → M ℕ Value
  parse_uint64 it = do
    require (e.is_unsigned_integer it) parse
    value ← reply (e.get_uint64 it)
    modify (λ _. value)
    reply (e.advance_fixed it)

  -- `cbor_value_dup_text_string`: a text that does not decode leaves the pointer as it was, and a
  -- refused allocation leaves `NULL`.
  unfoldable pub store_text : String → Value → Ptr × Heap → Outcome Value × Heap × CharPtr
  store_text text next (none, h) = (Outcome.err out_of_memory, h, none)
  store_text text next (some p, h) = (Outcome.ok next, h, some (p, text))

  unfoldable pub dup_text : Value → M CharPtr Value
  dup_text it h s = elim (e.dup_text_string it) [
    | done (text, next) ↦ store_text text next (malloc e.grants h)
    | failed error ↦ fail (cbor_result error) h s
  ]

  unfoldable pub parse_text_string : Value → M CharPtr Value
  parse_text_string it = do require (e.is_text_string it) parse; dup_text it

  -- `while (cbor_value_is_valid(it))` over the pairs of a map: a key, then what `handler` makes of
  -- the value behind it.
  unfoldable pub each_field : {S : Type 0} → (String → Value → M S Value) → ℕ → Value → M S Value
  each_field handler zero it = diverge
  each_field handler (suc fuel) it =
      if e.is_valid it
      then (do (key, it) ← parse_key it; it ← handler key it; each_field handler fuel it)
      else pure it

  -- `calloc` of a message's structure, which `*msg_out` points to from then on, and the loop that
  -- fills it.
  unfoldable pub fill_msg :
      {T : Type 0}
      → (ℕ → T → Msg Double)
      → T
      → M T Value
      → Ptr × Heap
      → Outcome Value × Heap × Msg Double
  fill_msg wrap blank loop (none, h) = (Outcome.err out_of_memory, h, Msg.null)
  fill_msg wrap blank loop (some p, h) = let (r, h', m) = loop h blank in (r, h', wrap p m)

  unfoldable pub calloc_msg :
      {T : Type 0} → (ℕ → T → Msg Double) → T → M T Value → M (Msg Double) Value
  calloc_msg wrap blank loop h _ = fill_msg wrap blank loop (malloc e.grants h)
