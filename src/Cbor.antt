-- ===== src/Cbor.antt =====
-- What eigerApp/src/stream2.c uses of its surroundings: the decoder tinyCBOR (a copy of another
-- project's library, under eigerApp/tinyCBORSrc), the allocator, the message buffer, and the
-- conversions of floating-point numbers. All of it is the parameter `Env` of the model.
use adeiger.Base.{ℕ, ◌≤◌, ◌<◌, ◌≡◌, refl, ◌⊎◌, inl, inr, String, Bool, Option}

-- The error codes of tinyCBOR that stream2.c tells apart; `other` stands for any further one.
pub data CborError : Type 0 where
  unknown_length data_too_large out_of_memory : CborError
  other : ℕ → CborError

-- What a call returns: its results, or an error code other than `CborNoError`.
pub data Reply (A : Type 0) : Type 0 where
  done : A → Reply A
  failed : CborError → Reply A

pub Reply-cases :
    {A : Type 0} (r : Reply A) → ((a : A) × (r ≡ done a)) ⊎ ((c : CborError) × (r ≡ failed c))
Reply-cases (done a) = inl (a, refl)
Reply-cases (failed c) = inr (c, refl)

-- `cbor_value_copy_text_string` into a buffer of 64 bytes reports more than an error code: the
-- value left in `buflen`, the C string now in the buffer, and the iterator `next`.
pub record Copied (V : Type 0) : Type 0 where
  pub error : Option CborError
  pub key_len : ℕ
  pub text : String
  pub next : V

-- `Value` is an iterator (`CborValue`). A call that moves an iterator returns the moved one. An
-- allocation is granted or not by its serial number, and `byte` reads the message buffer.
pub record Env : Type 1 where
  pub Value : Type 0
  pub Float : Type 0
  pub Double : Type 0
  pub zero_double : Double
  pub half_to_float : ℕ → Float
  pub float_to_double : Float → Double
  pub parser_init : ℕ → ℕ → Reply Value
  pub is_valid : Value → Bool
  pub is_byte_string : Value → Bool
  pub is_text_string : Value → Bool
  pub is_tag : Value → Bool
  pub is_boolean : Value → Bool
  pub is_half_float : Value → Bool
  pub is_float : Value → Bool
  pub is_double : Value → Bool
  pub is_unsigned_integer : Value → Bool
  pub is_array : Value → Bool
  pub is_map : Value → Bool
  pub get_tag : Value → Reply ℕ
  pub get_boolean : Value → Reply Bool
  pub get_half_float : Value → Reply ℕ
  pub get_float : Value → Reply Float
  pub get_double : Value → Reply Double
  pub get_uint64 : Value → Reply ℕ
  pub get_string_length : Value → Reply ℕ
  pub get_array_length : Value → Reply ℕ
  pub get_map_length : Value → Reply ℕ
  pub get_next_byte : Value → ℕ
  pub copy_text_string : Value → Copied Value
  pub dup_text_string : Value → Reply (String × Value)
  pub advance : Value → Reply Value
  pub advance_fixed : Value → Reply Value
  pub skip_tag : Value → Reply Value
  pub enter_container : Value → Reply Value
  pub leave_container : Value → Value → Reply Value
  pub grants : ℕ → Bool
  pub byte : ℕ → ℕ

-- An iterator only moves forward in its buffer: `remaining` counts the bytes behind it.
pub record MovesForward (e : Env) : Type 0 where
  pub remaining : e.Value → ℕ
  pub init : (off size : ℕ) (v : e.Value) → e.parser_init off size ≡ done v → remaining v ≤ size
  pub advance : (it v : e.Value) → e.advance it ≡ done v → remaining v < remaining it
  pub advance_fixed : (it v : e.Value) → e.advance_fixed it ≡ done v → remaining v < remaining it
  pub dup :
      (it v : e.Value) (s : String)
      → e.dup_text_string it ≡ done (s, v)
      → remaining v < remaining it
  pub copy : (it : e.Value) → remaining (e.copy_text_string it).next ≤ remaining it
  pub skip_tag : (it v : e.Value) → e.skip_tag it ≡ done v → remaining v ≤ remaining it
  pub enter : (it v : e.Value) → e.enter_container it ≡ done v → remaining v < remaining it
  pub leave : (it elt v : e.Value) → e.leave_container it elt ≡ done v → remaining v ≤ remaining elt
