-- ===== src/Stream2/Triple/Arrays.antt =====
-- What the array parsers of eigerApp/src/stream2.c check: sizes, dimensions and compression.
use native.Mathlib.Nat.{div-add-mod}
use adeiger.Base.{
  subst, sym, ℕ, ◌+◌, ◌*◌, ◌/◌, ◌%◌, ◌^◌, ◌≤◌, ◌<◌, ◌≡◌, refl, true, not, none, some, arith, ◌==◌,
  leb, ltb, ◌&&◌, ◌||◌,
}
use adeiger.Cbor.{Env}
use adeiger.Stream2.Memory.{Heap}
use adeiger.Stream2.Types.{TypedArray, MultidimArray, Bytes, no_compression}
use adeiger.Stream2.Monad.{ok}
use adeiger.Stream2.Scalars.{read_u64_be, consume_byte_string_nocopy}
use adeiger.Stream2.Arrays.{
  typed_array_elem_size, multidim_array, is_algorithm, data_size, dectris_compression,
  read_orig_size, parse_dectris_compression, parse_plain_bytes, parse_bytes, parse_typed_array,
  parse_multidim_array,
}
use adeiger.Stream2.Triple.{
  Triple, Any, any-Triple, pure-Triple, fail-Triple, of_holds, reply-Triple, if-Triple,
  require-Triple, get-Triple, modify-Triple, weaken-Triple, bind-Triple, at-Triple,
}

-- The size of an element by the fields of its tag.
abbrev pub tag_size : ℕ → ℕ
tag_size tag = 2 ^ ((tag / 16) % 2 + tag % 4)

in_range_low : (n : ℕ) → (leb 64 n && leb n 87) ≡ true → 64 ≤ n
in_range_low n h = ground arith

in_range_high : (n : ℕ) → (leb 64 n && leb n 87) ≡ true → n ≤ 87
in_range_high n h = ground arith

pub elem_size-Triple :
    {T : Type 0} {P : T → Type 0} (a : TypedArray)
    → Triple P
        (typed_array_elem_size a)
        (λ n t. P t × (n ≡ tag_size a.tag) × (64 ≤ a.tag) × (a.tag ≤ 87))
unfolding typed_array_elem_size
elem_size-Triple a =
    if-Triple (leb 64 a.tag && leb a.tag 87)
      (λ c. pure-Triple _ (λ t p. (p, refl, in_range_low a.tag c, in_range_high a.tag c)))
      (λ c. fail-Triple _)

-- A typed array of `n` elements: its data is just as long.
abbrev pub TypedLength : ℕ → TypedArray → Type 0
TypedLength n a = (n * tag_size a.tag ≡ data_size a) × (64 ≤ a.tag) × (a.tag ≤ 87)

exact_division : (d s : ℕ) → (d % s == 0) ≡ true → d / s * s ≡ d
exact_division d s h = grind (arith, div-add-mod d s)

eq_of_test : (a b : ℕ) → (a == b) ≡ true → a ≡ b
eq_of_test a b h = ground arith

typed_length :
    (array t : TypedArray) (size : ℕ)
    → array ≡ t
    → size ≡ tag_size array.tag
    → data_size array / size * size ≡ data_size array
    → 64 ≤ array.tag
    → array.tag ≤ 87
    → TypedLength (data_size array / size) t
typed_length array t size same is whole low high =
    subst (TypedLength (data_size array / size)) same
      (subst (λ s. data_size array / size * s ≡ data_size array) is whole, low, high)

module _ (e : Env) where
  open e use {Value}

  pub parse_typed_array-Triple :
      (it : Value) → Triple Any (parse_typed_array e it) (λ (r : Value × ℕ) a. TypedLength r.1 a)
  unfolding parse_typed_array
  parse_typed_array-Triple it = bind-Triple (any-Triple _) λ v. bind-Triple (any-Triple _) λ w.
      bind-Triple get-Triple λ array. bind-Triple (elem_size-Triple array) λ size.
        bind-Triple (require-Triple (data_size array % size == 0) _) λ _.
          pure-Triple (w, data_size array / size)
            (λ t x.
              typed_length array t size x.0.0.1 x.0.1 (exact_division (data_size array) size x.1)
                (x.0.2) (x.0.3))

  -- What a byte string holds: as it is, or compressed by a known algorithm behind the size that it
  -- has without compression.
  abbrev pub CompressionChecked : Bytes → Type 0
  CompressionChecked b = elim b.compression.algorithm [
    | none ↦ (b.compression.elem_size ≡ 0) × (b.compression.orig_size ≡ 0)
    | some (p, text) ↦
        ((is_algorithm "bslz4" (some (p, text)) || is_algorithm "lz4" (some (p, text))) ≡ true)
        × (12 ≤ b.len)
        × (b.compression.orig_size ≡ read_u64_be e b.ptr)
  ]

  checked :
      (b : Bytes)
      → (is_algorithm "bslz4" b.compression.algorithm || is_algorithm "lz4" b.compression.algorithm)
        ≡ true
      → not (ltb b.len 12) ≡ true
      → CompressionChecked
          (record b { compression = record (b.compression) { orig_size = read_u64_be e b.ptr } })
  checked b known long =
      elim b.compression.algorithm
          as (λ a.
            (is_algorithm "bslz4" a || is_algorithm "lz4" a) ≡ true
            → CompressionChecked (record b {
              compression = record {
                algorithm = a;
                elem_size = b.compression.elem_size;
                orig_size = read_u64_be e b.ptr;
              };
            })) [ none ↦ λ x. cc | some (p, text) ↦ λ x. (x, ground arith, refl) ]
        known

  read_orig_size-Triple : Triple Any (read_orig_size e) (λ _ b. CompressionChecked b)
  unfolding read_orig_size
  read_orig_size-Triple = bind-Triple get-Triple λ b. bind-Triple (require-Triple _ _) λ _.
      bind-Triple (require-Triple _ _) λ _. modify-Triple _ (λ t x.
        subst
          (λ u.
            CompressionChecked (record u {
              compression = record (u.compression) { orig_size = read_u64_be e u.ptr };
            }))
          x.0.0.1 (checked b x.0.1 x.1))

  parse_dectris_compression-Triple :
      (it : Value) → Triple Any (parse_dectris_compression e it) (λ _ b. CompressionChecked b)
  unfolding parse_dectris_compression
  parse_dectris_compression-Triple it = bind-Triple (any-Triple _) λ r.
      bind-Triple (any-Triple _) λ _. bind-Triple (any-Triple _) λ _.
        bind-Triple (any-Triple _) λ len. bind-Triple (any-Triple _) λ _.
          bind-Triple (any-Triple _) λ a. bind-Triple (any-Triple _) λ b.
            bind-Triple (any-Triple _) λ c. bind-Triple (any-Triple _) λ _.
              bind-Triple (any-Triple _) λ d. bind-Triple read_orig_size-Triple λ _. reply-Triple _

  consume-Triple :
      (it : Value)
      → Triple
          (λ b. b.compression ≡ no_compression)
          (consume_byte_string_nocopy e it)
          (λ _ b. b.compression ≡ no_compression)
  unfolding consume_byte_string_nocopy
  consume-Triple it = bind-Triple (reply-Triple _) λ len.
      bind-Triple (modify-Triple _ (λ t x. x))
        λ _. bind-Triple (modify-Triple _ (λ t x. x)) λ _. reply-Triple _

  uncompressed : (b : Bytes) → b.compression ≡ no_compression → CompressionChecked b
  uncompressed b same =
      subst (λ c. CompressionChecked (record b { compression = c })) (sym same) (refl, refl)

  parse_plain_bytes-Triple :
      (it : Value) → Triple Any (parse_plain_bytes e it) (λ _ b. CompressionChecked b)
  unfolding parse_plain_bytes
  parse_plain_bytes-Triple it = bind-Triple (any-Triple _) λ _.
      bind-Triple (modify-Triple _ (λ t x. refl))
        λ _. weaken-Triple (consume-Triple it) (λ v b same. uncompressed b same)

  pub parse_bytes-Triple :
      (it : Value) → Triple Any (parse_bytes e it) (λ _ b. CompressionChecked b)
  unfolding parse_bytes
  parse_bytes-Triple it =
      if-Triple (e.is_tag it)
        (λ _. bind-Triple (reply-Triple _) λ tag.
          if-Triple (tag == dectris_compression) (λ _. parse_dectris_compression-Triple it)
            (λ _. fail-Triple _))
        (λ _. parse_plain_bytes-Triple it)

  -- The dimensions of an array that was accepted: 64-bit arithmetic, as in the source.
  abbrev pub DimensionsChecked : MultidimArray → Type 0
  DimensionsChecked m =
      ((m.dim.0 * m.dim.1) % 2 ^ 64 * tag_size m.array.tag ≡ data_size m.array)
      × (64 ≤ m.array.tag)
      × (m.array.tag ≤ 87)

  dimensions :
      (n : ℕ) (a m : MultidimArray)
      → TypedLength n m.array
      → a ≡ m
      → ((a.dim.0 * a.dim.1) % 2 ^ 64 == n) ≡ true
      → DimensionsChecked m
  dimensions n a m x same h =
      let test : ((m.dim.0 * m.dim.1) % 2 ^ 64 == n) ≡ true =
        subst (λ (u : MultidimArray). ((u.dim.0 * u.dim.1) % 2 ^ 64 == n) ≡ true) same h in
      (
        subst (λ k. k * tag_size m.array.tag ≡ data_size m.array) (sym (eq_of_test _ n test)) x.0,
        x.1,
        x.2,
      )

  pub parse_multidim_array-Triple :
      (it : Value) → Triple Any (parse_multidim_array e it) (λ _ m. DimensionsChecked m)
  unfolding parse_multidim_array
  parse_multidim_array-Triple it = bind-Triple (any-Triple _) λ r. bind-Triple (any-Triple _) λ _.
      bind-Triple (any-Triple _) λ _. bind-Triple (any-Triple _) λ len.
        bind-Triple (any-Triple _) λ _. bind-Triple (any-Triple _) λ elt.
          bind-Triple (any-Triple _) λ elt'.
            bind-Triple (at-Triple multidim_array (λ s t. refl) (parse_typed_array-Triple elt'))
              λ c. bind-Triple get-Triple λ m.
                bind-Triple (require-Triple ((m.dim.0 * m.dim.1) % 2 ^ 64 == c.1) _)
                  λ _. weaken-Triple (reply-Triple _) (λ v t x. dimensions c.1 m t x.0.0 x.0.1 x.1)

  -- A typed array that is accepted has a tag of RFC 8746, and its data, decompressed if it is
  -- compressed, has just the bytes of the number of elements that is returned.
  pub parse_typed_array_checked :
      (it v : Value) (n : ℕ) (h : Heap) (a : TypedArray)
      → (parse_typed_array e it h a).0 ≡ ok (v, n)
      → TypedLength n (parse_typed_array e it h a).2
  parse_typed_array_checked it v n h a =
      λ accepted. of_holds _ _ _ (v, n) accepted ((parse_typed_array-Triple it).run h a tt)

  -- Bytes that are accepted as compressed name the algorithm bslz4 or lz4, are at least 12 long, and
  -- give their first eight bytes, read as a big-endian number, as the size without compression.
  -- Bytes that are not compressed have the sizes 0 there.
  pub parse_bytes_checked :
      (it v : Value) (h : Heap) (b : Bytes)
      → (parse_bytes e it h b).0 ≡ ok v
      → CompressionChecked (parse_bytes e it h b).2
  parse_bytes_checked it v h b =
      λ accepted. of_holds _ _ _ v accepted ((parse_bytes-Triple it).run h b tt)

  -- A two-dimensional array that is accepted has as many elements as its dimensions say, where
  -- their product is taken modulo 2^64.
  pub parse_multidim_array_checked :
      (it v : Value) (h : Heap) (m : MultidimArray)
      → (parse_multidim_array e it h m).0 ≡ ok v
      → DimensionsChecked (parse_multidim_array e it h m).2
  parse_multidim_array_checked it v h m =
      λ accepted. of_holds _ _ _ v accepted ((parse_multidim_array-Triple it).run h m tt)

  product-lt : (a b : ℕ) → a < 2 ^ 32 → b < 2 ^ 32 → a * b < 2 ^ 64
  product-lt a b ha hb = grind arith

  pub no_wrap :
      (m : MultidimArray)
      → m.dim.0 < 2 ^ 32
      → m.dim.1 < 2 ^ 32
      → DimensionsChecked m
      → m.dim.0 * m.dim.1 * tag_size m.array.tag ≡ data_size m.array
  no_wrap m hw hh c =
      let lt : m.dim.0 * m.dim.1 < 2 ^ 64 = product-lt m.dim.0 m.dim.1 hw hh in
      let same : (m.dim.0 * m.dim.1) % 2 ^ 64 ≡ m.dim.0 * m.dim.1 = omega arith in
      subst (λ k. k * tag_size m.array.tag ≡ data_size m.array) same c.0

  -- With both dimensions below 2^32, a two-dimensional array that is accepted has exactly width times
  -- height times element size bytes of data, decompressed if it is compressed.
  pub parse_multidim_array_size :
      (it v : Value) (h : Heap) (m : MultidimArray)
      → (parse_multidim_array e it h m).0 ≡ ok v
      → (parse_multidim_array e it h m).2.dim.0 < 2 ^ 32
      → (parse_multidim_array e it h m).2.dim.1 < 2 ^ 32
      → let m' = (parse_multidim_array e it h m).2 in
        m'.dim.0 * m'.dim.1 * tag_size m'.array.tag ≡ data_size m'.array
  parse_multidim_array_size it v h m accepted hw hh =
      no_wrap (parse_multidim_array e it h m).2 hw hh
        (parse_multidim_array_checked it v h m accepted)
