-- ===== src/Stream2/Numbers.antt =====
-- The number formats that eigerApp/src/stream2.c reads itself: the tags of typed arrays
-- (RFC 8746), big-endian integers, and the headers of byte strings (RFC 8949).
use native.Mathlib.Decide.{dec_lt, ℕ_discrete}
use adeiger.Base.{
  ap, ℕ, ◌+◌, ◌-◌, ◌*◌, ◌/◌, ◌%◌, ◌^◌, ◌≤◌, ◌<◌, ◌≡◌, ◌⊎◌, arith, ltb, if◌then◌else◌,
}
use adeiger.Cbor.{Env}
use adeiger.Stream2.Memory.{Heap}
use adeiger.Stream2.Types.{TypedArray, Bytes, not_implemented}
use adeiger.Stream2.Monad.{ok, err, pure, fail}
use adeiger.Stream2.Scalars.{read_u64_be, skip_header}
use adeiger.Stream2.Arrays.{typed_array_elem_size}

pow_at : (n k : ℕ) → n ≡ k → 2 ^ (n - 24) ≡ 2 ^ (k - 24)
pow_at n k e = ap (λ m. 2 ^ (m - 24)) e

typed_array_elem_size_value :
    {S : Type 0} (h : Heap) (s : S) (a : TypedArray) (n : ℕ)
    → 64 ≤ a.tag
    → a.tag ≤ 87
    → (a.tag / 16) % 2 + a.tag % 4 ≡ n
    → typed_array_elem_size a h s ≡ (ok (2 ^ n), h, s)
unfolding typed_array_elem_size pure fail
typed_array_elem_size_value h s a n low high e = rw e (ground arith)

-- For the tag 0b010_f_s_e_ll of RFC 8746, with f and s not both 1, the size of an element is
-- 2^(f + ll) bytes, whatever s and e are.
pub typed_array_elem_size-tag :
    {S : Type 0} (h : Heap) (s : S) (bytes : Bytes) (f sign endian ll : ℕ)
    → f < 2
    → sign < 2
    → endian < 2
    → ll < 4
    → f + sign < 2
    → typed_array_elem_size
        (record { tag = 64 + 16 * f + 8 * sign + 4 * endian + ll; bytes = bytes })
        h
        s
      ≡ (ok (2 ^ (f + ll)), h, s)
typed_array_elem_size-tag h s bytes f sign endian ll hf hs he hl fs =
    typed_array_elem_size_value h s _ (f + ll) (omega arith) (omega arith) (omega arith)

pub typed_array_elem_size-other :
    {S : Type 0} (h : Heap) (s : S) (a : TypedArray)
    → (a.tag < 64) ⊎ (87 < a.tag)
    → typed_array_elem_size a h s ≡ (err not_implemented, h, s)
unfolding typed_array_elem_size pure fail
typed_array_elem_size-other h s a out = ground arith

digit :
    (a b c d f g h i : ℕ)
    → b < 256
    → c < 256
    → d < 256
    → f < 256
    → g < 256
    → h < 256
    → i < 256
    → a < 256
    → let n : ℕ =
        a * 2 ^ 56
        + b * 2 ^ 48
        + c * 2 ^ 40
        + d * 2 ^ 32
        + f * 2 ^ 24
        + g * 2 ^ 16
        + h * 2 ^ 8
        + i in
      (n / 2 ^ 56 ≡ a)
      × ((n / 2 ^ 48) % 256 ≡ b)
      × ((n / 2 ^ 40) % 256 ≡ c)
      × ((n / 2 ^ 32) % 256 ≡ d)
      × ((n / 2 ^ 24) % 256 ≡ f)
      × ((n / 2 ^ 16) % 256 ≡ g)
      × ((n / 2 ^ 8) % 256 ≡ h)
      × (n % 256 ≡ i)
digit a b c d f g h i hb hc hd hf hg hh hi ha = (
  omega arith,
  omega arith,
  omega arith,
  omega arith,
  omega arith,
  omega arith,
  omega arith,
  omega arith,
)

module _ (e : Env) (bytes : (i : ℕ) → e.byte i < 256) where
  pub read_u64_be-lt : (ptr : ℕ) → read_u64_be e ptr < 2 ^ 64
  unfolding read_u64_be
  read_u64_be-lt ptr = omega (
    arith,
    bytes ptr,
    bytes (ptr + 1),
    bytes (ptr + 2),
    bytes (ptr + 3),
    bytes (ptr + 4),
    bytes (ptr + 5),
    bytes (ptr + 6),
    bytes (ptr + 7),
  )

  -- When every byte is below 256, the eight bytes can be read off the number again, the most
  -- significant first.
  pub read_u64_be_bytes :
      (ptr : ℕ)
      → let n : ℕ = read_u64_be e ptr in
        (n / 2 ^ 56 ≡ e.byte ptr)
        × ((n / 2 ^ 48) % 256 ≡ e.byte (ptr + 1))
        × ((n / 2 ^ 40) % 256 ≡ e.byte (ptr + 2))
        × ((n / 2 ^ 32) % 256 ≡ e.byte (ptr + 3))
        × ((n / 2 ^ 24) % 256 ≡ e.byte (ptr + 4))
        × ((n / 2 ^ 16) % 256 ≡ e.byte (ptr + 5))
        × ((n / 2 ^ 8) % 256 ≡ e.byte (ptr + 6))
        × (n % 256 ≡ e.byte (ptr + 7))
  unfolding read_u64_be
  read_u64_be_bytes ptr =
      digit (e.byte ptr) (e.byte (ptr + 1)) (e.byte (ptr + 2)) (e.byte (ptr + 3)) (e.byte (ptr + 4))
        (e.byte (ptr + 5)) (e.byte (ptr + 6)) (e.byte (ptr + 7)) (bytes _) (bytes _) (bytes _)
        (bytes _) (bytes _) (bytes _) (bytes _) (bytes _)

module _ (e : Env) where
  -- For a header of a byte string, 0x40 plus a number below 28, the contents begin behind the first
  -- byte if that number is below 24, and else behind the 1, 2, 4 or 8 bytes that follow it, as in
  -- RFC 8949.
  pub skip_header_argument :
      (ptr info : ℕ)
      → e.byte ptr ≡ 0x40 + info
      → info < 28
      → skip_header e ptr ≡ ptr + 1 + (if ltb info 24 then 0 else 2 ^ (info - 24))
  unfolding skip_header
  skip_header_argument ptr info header h = elim (dec_lt info 24) [
    | yes small ↦ ground arith
    | no large ↦ elim (ℕ_discrete info 24) [
      | yes is ↦ ground (arith, pow_at info 24 is)
      | no ne ↦ elim (ℕ_discrete info 25) [
        | yes is ↦ ground (arith, pow_at info 25 is)
        | no ne' ↦ elim (ℕ_discrete info 26) [
          | yes is ↦ ground (arith, pow_at info 26 is)
          | no ne'' ↦ let is : info ≡ 27 = omega arith in ground (arith, pow_at info 27 is)
        ]
      ]
    ]
  ]
