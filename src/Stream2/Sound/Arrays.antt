-- ===== src/Stream2/Sound/Arrays.antt =====
-- The parsers of compressed, typed and multi-dimensional arrays in eigerApp/src/stream2.c keep what
-- is owned and move forward.
use adeiger.Base.{ℕ, arith, ◌==◌}
use adeiger.Cbor.{Env, MovesForward}
use adeiger.Stream2.Types.{TypedArray, MultidimArray}
use adeiger.Stream2.Arrays.{
  typed_array_elem_size, compression_algorithm, compression_elem_size, array_tag, array_bytes,
  multidim_dim, multidim_array, element, parse_array_2_uint64, read_orig_size,
  parse_dectris_compression, parse_plain_bytes, parse_bytes, parse_typed_array,
  parse_multidim_array, dectris_compression,
}
use adeiger.Stream2.Sound.{
  Owner, no_blocks, Sound, IsPart, pure-Sound, fail-Sound, any-Sound, weaken-Sound, require-Sound,
  get-Sound, modify-Sound, bind-Sound, if-Sound, at-Sound, local-Sound, for_each-Sound,
}
use adeiger.Stream2.Sound.Scalars.{
  text_blocks, bytes_blocks, Past, enter-Sound, leave-Sound, parse_tag-Sound, parse_uint64-Sound,
  parse_text_string-Sound, consume_byte_string_nocopy-Sound,
}

abbrev pub typed_blocks : Owner TypedArray
typed_blocks = record { blocks = λ a. bytes_blocks.blocks a.bytes; Fit = λ a. Unit }

abbrev pub multidim_blocks : Owner MultidimArray
multidim_blocks = record { blocks = λ m. typed_blocks.blocks m.array; Fit = λ m. Unit }

algorithm-IsPart : IsPart bytes_blocks text_blocks compression_algorithm
algorithm-IsPart = record {
  within = λ t p. omega arith;
  swap = λ t s p. omega arith;
  fit_view = λ t x. tt;
  fit_update = λ t s x y. x;
}

elem_size-IsPart : IsPart bytes_blocks no_blocks compression_elem_size
elem_size-IsPart = record {
  within = λ t p. omega arith;
  swap = λ t s p. omega arith;
  fit_view = λ t x. tt;
  fit_update = λ t s x y. x;
}

tag-IsPart : IsPart typed_blocks no_blocks array_tag
tag-IsPart = record {
  within = λ t p. omega arith;
  swap = λ t s p. omega arith;
  fit_view = λ t x. tt;
  fit_update = λ t s x y. x;
}

bytes-IsPart : IsPart typed_blocks bytes_blocks array_bytes
bytes-IsPart = record {
  within = λ t p. omega arith;
  swap = λ t s p. omega arith;
  fit_view = λ t x. tt;
  fit_update = λ t s x y. x;
}

dim-IsPart : IsPart multidim_blocks no_blocks multidim_dim
dim-IsPart = record {
  within = λ t p. omega arith;
  swap = λ t s p. omega arith;
  fit_view = λ t x. tt;
  fit_update = λ t s x y. x;
}

array-IsPart : IsPart multidim_blocks typed_blocks multidim_array
array-IsPart = record {
  within = λ t p. omega arith;
  swap = λ t s p. omega arith;
  fit_view = λ t x. tt;
  fit_update = λ t s x y. x;
}

element-IsPart : (i : ℕ) → IsPart no_blocks no_blocks (element i)
element-IsPart i = record {
  within = λ t p. omega arith;
  swap = λ t s p. omega arith;
  fit_view = λ t x. tt;
  fit_update = λ t s x y. x;
}

elem_size-Sound :
    {T : Type 0} {o : Owner T} (a : TypedArray) → Sound o (λ _. Unit {0}) (typed_array_elem_size a)
unfolding typed_array_elem_size
elem_size-Sound a = if-Sound _ (pure-Sound _ tt) (fail-Sound _)

module _ (e : Env) (forward : MovesForward e) where
  open e use {Value}
  open forward use {remaining}

  pub parse_array_2_uint64-Sound :
      (it : Value) → Sound no_blocks (Past e forward (remaining it)) (parse_array_2_uint64 e it)
  unfolding parse_array_2_uint64
  parse_array_2_uint64-Sound it = bind-Sound (require-Sound _ _) λ _ _.
      bind-Sound (any-Sound _) λ len _. bind-Sound (require-Sound _ _) λ _ _.
        bind-Sound (enter-Sound e forward it) λ elt lt.
          bind-Sound
            (for_each-Sound (Past e forward (remaining it)) _
              (λ i v h.
                weaken-Sound (at-Sound (element-IsPart i) (parse_uint64-Sound e forward v))
                  (λ w q. omega arith))
              len 0 elt lt)
            λ elt' lt'. leave-Sound e forward it elt' lt'

  read_orig_size-Sound : Sound bytes_blocks (λ _. Unit {0}) (read_orig_size e)
  unfolding read_orig_size
  read_orig_size-Sound = bind-Sound get-Sound λ b _.
      bind-Sound (require-Sound _ _)
        λ _ _. bind-Sound (require-Sound _ _) λ _ _. modify-Sound _ (λ t p. omega arith) (λ t x. x)

  parse_dectris_compression-Sound :
      (it : Value)
      → Sound bytes_blocks (Past e forward (remaining it)) (parse_dectris_compression e it)
  unfolding parse_dectris_compression
  parse_dectris_compression-Sound it =
      bind-Sound (local-Sound 0 (parse_tag-Sound e forward it)) λ r lt.
        bind-Sound (require-Sound _ _) λ _ _. bind-Sound (require-Sound _ _) λ _ _.
          bind-Sound (any-Sound _) λ len _. bind-Sound (require-Sound _ _) λ _ _.
            bind-Sound (enter-Sound e forward (r.0)) λ a lta.
              bind-Sound (at-Sound algorithm-IsPart (parse_text_string-Sound e forward a)) λ b ltb'.
                bind-Sound (at-Sound elem_size-IsPart (parse_uint64-Sound e forward b)) λ c ltc.
                  bind-Sound (require-Sound _ _) λ _ _.
                    bind-Sound (consume_byte_string_nocopy-Sound e forward c) λ d ltd.
                      bind-Sound read_orig_size-Sound
                        λ _ _. leave-Sound e forward (r.0) d (omega arith)

  parse_plain_bytes-Sound :
      (it : Value) → Sound bytes_blocks (Past e forward (remaining it)) (parse_plain_bytes e it)
  unfolding parse_plain_bytes
  parse_plain_bytes-Sound it = bind-Sound (require-Sound _ _) λ _ _.
      bind-Sound (modify-Sound _ (λ t p. omega arith) (λ t x. x))
        λ _ _. consume_byte_string_nocopy-Sound e forward it

  parse_bytes-Sound :
      (it : Value) → Sound bytes_blocks (Past e forward (remaining it)) (parse_bytes e it)
  unfolding parse_bytes
  parse_bytes-Sound it =
      if-Sound (e.is_tag it)
        (bind-Sound (any-Sound _) (λ tag _.
          if-Sound (tag == dectris_compression) (parse_dectris_compression-Sound it)
            (fail-Sound _)))
        (parse_plain_bytes-Sound it)

  pub parse_typed_array-Sound :
      (it : Value)
      → Sound typed_blocks
          (λ (r : Value × ℕ). Past e forward (remaining it) r.0)
          (parse_typed_array e it)
  unfolding parse_typed_array
  parse_typed_array-Sound it =
      bind-Sound (at-Sound tag-IsPart (parse_tag-Sound e forward it)) λ a lta.
        bind-Sound (at-Sound bytes-IsPart (parse_bytes-Sound a)) λ b ltb'.
          bind-Sound get-Sound λ array _.
            bind-Sound (elem_size-Sound array)
              λ elem_size _. bind-Sound (require-Sound _ _) λ _ _. pure-Sound _ (omega arith)

  pub parse_multidim_array-Sound :
      (it : Value)
      → Sound multidim_blocks (Past e forward (remaining it)) (parse_multidim_array e it)
  unfolding parse_multidim_array
  parse_multidim_array-Sound it = bind-Sound (local-Sound 0 (parse_tag-Sound e forward it)) λ r lt.
      bind-Sound (require-Sound _ _) λ _ _. bind-Sound (require-Sound _ _) λ _ _.
        bind-Sound (any-Sound _) λ len _. bind-Sound (require-Sound _ _) λ _ _.
          bind-Sound (enter-Sound e forward (r.0)) λ a lta.
            bind-Sound (at-Sound dim-IsPart (parse_array_2_uint64-Sound a)) λ b ltb'.
              bind-Sound (at-Sound array-IsPart (parse_typed_array-Sound b)) λ c ltc.
                bind-Sound get-Sound λ m _.
                  bind-Sound (require-Sound _ _)
                    λ _ _. leave-Sound e forward (r.0) (c.0) (omega arith)
