-- ===== src/Stream2/Arrays.antt =====
-- The parsers of composite items in eigerApp/src/stream2.c: pairs of integers, compressed byte
-- strings, typed and multi-dimensional arrays, goniometers and user data.
use adeiger.Base.{
  ℕ, ◌+◌, ◌*◌, ◌/◌, ◌%◌, ◌^◌, String, Bool, false, not, none, some, ◌==◌, leb, ltb, ◌&&◌, ◌||◌,
  if◌then◌else◌, str_eq,
}
use adeiger.Cbor.{Env}
use adeiger.Stream2.Memory.{CharPtr}
use adeiger.Stream2.Types.{
  parse, decode, not_implemented, Bytes, TypedArray, MultidimArray, no_compression,
}
use adeiger.Stream2.Monad.{
  M, pure, fail, reply, require, get, modify, ◌>>=◌, ◌>>◌, Field, at, local,
}
use adeiger.Stream2.Scalars.{
  for_each, read_u64_be, consume_byte_string_nocopy, parse_tag, parse_uint64, parse_text_string,
}

abbrev pub multi_dimensional_array_row_major : ℕ
multi_dimensional_array_row_major = 40

abbrev pub dectris_compression : ℕ
dectris_compression = 56500

-- `stream2_typed_array_elem_size`: a tag is 0b010_f_s_e_ll.
unfoldable pub typed_array_elem_size : {S : Type 0} → TypedArray → M S ℕ
typed_array_elem_size array =
    if leb 64 array.tag && leb array.tag 87
    then pure (2 ^ ((array.tag / 2 ^ 4) % 2 + array.tag % 4))
    else fail not_implemented

-- Which algorithm a text names; the pointer has been filled when it is read.
abbrev pub is_algorithm : String → CharPtr → Bool
is_algorithm name none = false
is_algorithm name (some (_, text)) = str_eq text name

-- The element `i` of a `uint64_t[2]`.
abbrev pub element : ℕ → Field (ℕ × ℕ) ℕ
element i = record {
  view = λ (x, y). if i == 0 then x else y;
  update = λ v (x, y). if i == 0 then (v, y) else (x, v);
}

abbrev pub compression_algorithm : Field Bytes CharPtr
compression_algorithm = record {
  view = λ b. b.compression.algorithm;
  update = λ v b. record b { compression = record (b.compression) { algorithm = v } };
}

abbrev pub compression_elem_size : Field Bytes ℕ
compression_elem_size = record {
  view = λ b. b.compression.elem_size;
  update = λ v b. record b { compression = record (b.compression) { elem_size = v } };
}

abbrev pub array_tag : Field TypedArray ℕ
array_tag = record { view = λ a. a.tag; update = λ v a. record a { tag = v } }

abbrev pub array_bytes : Field TypedArray Bytes
array_bytes = record { view = λ a. a.bytes; update = λ v a. record a { bytes = v } }

abbrev pub multidim_dim : Field MultidimArray (ℕ × ℕ)
multidim_dim = record { view = λ a. a.dim; update = λ v a. record a { dim = v } }

abbrev pub multidim_array : Field MultidimArray TypedArray
multidim_array = record { view = λ a. a.array; update = λ v a. record a { array = v } }

-- The size in bytes of the decompressed data.
abbrev pub data_size : TypedArray → ℕ
data_size array = elim array.bytes.compression.algorithm [
  | none ↦ array.bytes.len
  | some _ ↦ array.bytes.compression.orig_size
]

module _ (e : Env) where
  open e use {Value, Double}

  unfoldable pub parse_array_2_uint64 : Value → M (ℕ × ℕ) Value
  parse_array_2_uint64 it = do
    require (e.is_array it) parse
    len ← reply (e.get_array_length it)
    require (len == 2) parse
    elt ← reply (e.enter_container it)
    elt ← for_each len 0 (λ i elt. at (element i) (parse_uint64 e elt)) elt
    reply (e.leave_container it elt)

  -- The uncompressed size stands in the first eight bytes of the compressed data.
  unfoldable pub read_orig_size : M Bytes (Unit {0})
  read_orig_size = do
    b ← get
    require
        (is_algorithm "bslz4" b.compression.algorithm || is_algorithm "lz4" b.compression.algorithm)
        not_implemented
    require (not (ltb b.len 12)) decode
    modify
        (λ b. record b { compression = record (b.compression) { orig_size = read_u64_be e b.ptr } })

  unfoldable pub parse_dectris_compression : Value → M Bytes Value
  parse_dectris_compression it = do
    (it, tag) ← local 0 (parse_tag e it)
    require (tag == dectris_compression) parse
    require (e.is_array it) parse
    len ← reply (e.get_array_length it)
    require (len == 3) parse
    elt ← reply (e.enter_container it)
    elt ← at compression_algorithm (parse_text_string e elt)
    elt ← at compression_elem_size (parse_uint64 e elt)
    require (e.is_byte_string elt) parse
    elt ← consume_byte_string_nocopy e elt
    read_orig_size
    reply (e.leave_container it elt)

  -- A byte string that is not compressed.
  unfoldable pub parse_plain_bytes : Value → M Bytes Value
  parse_plain_bytes it = do
    require (e.is_byte_string it) parse
    modify (λ b. record b { compression = no_compression })
    consume_byte_string_nocopy e it

  unfoldable pub parse_bytes : Value → M Bytes Value
  parse_bytes it =
      if e.is_tag it
      then (do
        tag ← reply (e.get_tag it)
        if tag == dectris_compression then parse_dectris_compression it else fail parse)
      else parse_plain_bytes it

  -- Returns the number of elements too.
  unfoldable pub parse_typed_array : Value → M TypedArray (Value × ℕ)
  parse_typed_array it = do
    it ← at array_tag (parse_tag e it)
    it ← at array_bytes (parse_bytes it)
    array ← get
    elem_size ← typed_array_elem_size array
    require (data_size array % elem_size == 0) parse
    pure (it, data_size array / elem_size)

  unfoldable pub parse_multidim_array : Value → M MultidimArray Value
  parse_multidim_array it = do
    (it, tag) ← local 0 (parse_tag e it)
    require (tag == multi_dimensional_array_row_major) parse
    require (e.is_array it) parse
    len ← reply (e.get_array_length it)
    require (len == 2) parse
    elt ← reply (e.enter_container it)
    elt ← at multidim_dim (parse_array_2_uint64 elt)
    (elt, array_len) ← at multidim_array (parse_typed_array elt)
    multidim ← get
    require ((multidim.dim.0 * multidim.dim.1) % 2 ^ 64 == array_len) parse
    reply (e.leave_container it elt)
