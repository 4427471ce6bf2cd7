-- ===== src/Stream2/Tokens.antt =====
-- A decoder for the tests: a message is a list of items that are already split, each with the
-- offset of its first byte. It is one value of the parameter `Env`.
use adeiger.Base.{
  ℕ, zero, suc, ◌+◌, ◌-◌, ◌≤◌, ◌<◌, ◌≡◌, String, Bool, true, false, inl, inr, Option, none, some,
  List, [], ◌∷◌, arith, length, get_or, leb, ltb, Option-cases, if◌then◌else◌,
}
use adeiger.Cbor.{CborError, other, Reply, done, failed, Copied, Env, MovesForward}

pub data Token : Type 0 where
  uint : ℕ → Token
  -- the length in bytes, and the text
  text : ℕ → String → Token
  bytes : ℕ → Token
  tag : ℕ → Token
  boolean : Bool → Token
  double : ℕ → Token
  array : ℕ → Token
  map : ℕ → Token

abbrev pub Items : Type 0
Items = List (ℕ × Token)

-- The items behind an iterator, and how many of them its container still holds.
pub record Cursor : Type 0 where
  pub items : Items
  pub left : ℕ

abbrev pub end_of_input : CborError
end_of_input = other 257

-- The item that an iterator points to, by its first token.
abbrev pub first : Items → ℕ → Option Token
first items zero = none
first [] (suc n) = none
first ((_, t) ∷ _) (suc n) = some t

abbrev pub here : Cursor → Option Token
here c = first c.items c.left

-- Drops `n` whole items, the items inside of them too.
abbrev pub skip_items : ℕ → Items → Option Items
skip_items zero ts = some ts
skip_items (suc n) [] = none
skip_items (suc n) ((_, array k) ∷ ts) = skip_items (k + n) ts
skip_items (suc n) ((_, map k) ∷ ts) = skip_items (k + k + n) ts
skip_items (suc n) ((_, tag k) ∷ ts) = skip_items (suc n) ts
skip_items (suc n) ((_, t) ∷ ts) = skip_items n ts

-- The iterator behind an item, given what the item leaves.
abbrev pub moved : ℕ → Option Items → Reply Cursor
moved left none = failed end_of_input
moved left (some ts) = done (record { items = ts; left = left - 1 })

abbrev pub drop_token : Items → ℕ → Reply Cursor
drop_token [] left = failed end_of_input
drop_token ((_, tag _) ∷ ts) left = done (record { items = ts; left = left })
drop_token (_ ∷ ts) left = done (record { items = ts; left = left - 1 })

abbrev pub drop_tags : Items → Items
drop_tags ((_, tag _) ∷ ts) = drop_tags ts
drop_tags ts = ts

abbrev pub enter : Items → Reply Cursor
enter ((_, array n) ∷ ts) = done (record { items = ts; left = n })
enter ((_, map n) ∷ ts) = done (record { items = ts; left = n + n })
enter _ = failed end_of_input

abbrev pub offset : Items → ℕ
offset [] = 0
offset ((o, _) ∷ _) = o

abbrev pub copy : Items → ℕ → Copied Cursor
copy ((_, text n s) ∷ ts) left =
    if ltb n 64
    then record {
      error = none;
      key_len = n;
      text = s;
      next = record { items = ts; left = left - 1 };
    }
    else record {
      error = some CborError.out_of_memory;
      key_len = n;
      text = s;
      next = record { items = ts; left = left - 1 };
    }
copy ts left = record {
  error = some end_of_input;
  key_len = 64;
  text = "";
  next = record { items = ts; left = left };
}

abbrev pub dup : Items → ℕ → Reply (String × Cursor)
dup ((_, text n s) ∷ ts) left = done (s, record { items = ts; left = left - 1 })
dup _ left = failed end_of_input

abbrev pub is_uint : Option Token → Bool
is_uint (some (uint _)) = true
is_uint _ = false

abbrev pub is_text : Option Token → Bool
is_text (some (text _ _)) = true
is_text _ = false

abbrev pub is_bytes : Option Token → Bool
is_bytes (some (bytes _)) = true
is_bytes _ = false

abbrev pub is_tag : Option Token → Bool
is_tag (some (tag _)) = true
is_tag _ = false

abbrev pub is_boolean : Option Token → Bool
is_boolean (some (boolean _)) = true
is_boolean _ = false

abbrev pub is_double : Option Token → Bool
is_double (some (double _)) = true
is_double _ = false

abbrev pub is_array : Option Token → Bool
is_array (some (array _)) = true
is_array _ = false

abbrev pub is_map : Option Token → Bool
is_map (some (map _)) = true
is_map _ = false

abbrev pub number : Option Token → Reply ℕ
number (some (uint n)) = done n
number (some (tag n)) = done n
number (some (bytes n)) = done n
number (some (double n)) = done n
number (some (array n)) = done n
number (some (map n)) = done n
number _ = failed end_of_input

abbrev pub truth : Option Token → Reply Bool
truth (some (boolean b)) = done b
truth _ = failed end_of_input

-- A message of the given items in the given buffer, with an allocator.
abbrev pub env : Items → List ℕ → (ℕ → Bool) → Env
env items buffer grants = record {
  Value = Cursor;
  Float = ℕ;
  Double = ℕ;
  zero_double = 0;
  half_to_float = λ h. h;
  float_to_double = λ f. f;
  parser_init = λ off size.
      if leb (length items) size
      then done (record { items = items; left = 1 })
      else failed end_of_input;
  is_valid = λ c. elim (here c) [ none ↦ false | some _ ↦ true ];
  is_byte_string = λ c. is_bytes (here c);
  is_text_string = λ c. is_text (here c);
  is_tag = λ c. is_tag (here c);
  is_boolean = λ c. is_boolean (here c);
  is_half_float = λ c. false;
  is_float = λ c. false;
  is_double = λ c. is_double (here c);
  is_unsigned_integer = λ c. is_uint (here c);
  is_array = λ c. is_array (here c);
  is_map = λ c. is_map (here c);
  get_tag = λ c. number (here c);
  get_boolean = λ c. truth (here c);
  get_half_float = λ c. number (here c);
  get_float = λ c. number (here c);
  get_double = λ c. number (here c);
  get_uint64 = λ c. number (here c);
  get_string_length = λ c. number (here c);
  get_array_length = λ c. number (here c);
  get_map_length = λ c. number (here c);
  get_next_byte = λ c. offset c.items;
  copy_text_string = λ c. copy c.items c.left;
  dup_text_string = λ c. dup c.items c.left;
  advance = λ c. moved c.left (skip_items 1 c.items);
  advance_fixed = λ c. drop_token c.items c.left;
  skip_tag = λ c. done (record { items = drop_tags c.items; left = c.left });
  enter_container = λ c. enter c.items;
  leave_container = λ it elt. done (record { items = elt.items; left = it.left - 1 });
  grants = grants;
  byte = λ i. get_or buffer i 0;
}

skip_items-le : (n : ℕ) (ts us : Items) → skip_items n ts ≡ some us → length us ≤ length ts
skip_items-le zero ts us h = ground arith
skip_items-le (suc n) [] us h = cc
skip_items-le (suc n) ((_, array k) ∷ ts) us h = omega (arith, skip_items-le (k + n) ts us h)
skip_items-le (suc n) ((_, map k) ∷ ts) us h = omega (arith, skip_items-le (k + k + n) ts us h)
skip_items-le (suc n) ((_, tag k) ∷ ts) us h = omega (arith, skip_items-le (suc n) ts us h)
skip_items-le (suc n) ((_, t) ∷ ts) us h = omega (arith, skip_items-le n ts us h)

skip_items-lt : (ts us : Items) → skip_items 1 ts ≡ some us → length us < length ts
skip_items-lt [] us h = cc
skip_items-lt ((_, array k) ∷ ts) us h = omega (arith, skip_items-le (k + 0) ts us h)
skip_items-lt ((_, map k) ∷ ts) us h = omega (arith, skip_items-le (k + k + 0) ts us h)
skip_items-lt ((_, tag k) ∷ ts) us h = omega (arith, skip_items-lt ts us h)
skip_items-lt ((_, t) ∷ ts) us h = omega (arith, skip_items-le 0 ts us h)

advance-lt :
    (it v : Cursor)
    → moved it.left (skip_items 1 it.items) ≡ done v
    → length v.items < length it.items
advance-lt it v h = elim (Option-cases (skip_items 1 it.items)) [
  | inl e ↦ cc (rw e at h)
  | inr (us, e) ↦ ground (arith, skip_items-lt it.items us e)
]

drop_token-lt :
    (ts : Items) (left : ℕ) (v : Cursor) → drop_token ts left ≡ done v → length v.items < length ts
drop_token-lt [] left v h = cc
drop_token-lt ((_, tag _) ∷ ts) left v h = ground arith
drop_token-lt (_ ∷ ts) left v h = ground arith

drop_tags-le : (ts : Items) → length (drop_tags ts) ≤ length ts
drop_tags-le ((_, tag _) ∷ ts) = omega (arith, drop_tags-le ts)
drop_tags-le _ = omega arith

copy-le : (ts : Items) (left : ℕ) → length (copy ts left).next.items ≤ length ts
copy-le ((_, text n s) ∷ ts) left = ground arith
copy-le _ left = omega arith

dup-lt :
    (ts : Items) (left : ℕ) (v : Cursor) (s : String)
    → dup ts left ≡ done (s, v)
    → length v.items < length ts
dup-lt ((_, text n s) ∷ ts) left v t h = ground arith
dup-lt _ left v t h = cc

enter-lt : (ts : Items) (v : Cursor) → enter ts ≡ done v → length v.items < length ts
enter-lt ((_, array n) ∷ ts) v h = ground arith
enter-lt ((_, map n) ∷ ts) v h = ground arith
enter-lt _ v h = cc

pub env-MovesForward :
    (items : Items) (buffer : List ℕ) (grants : ℕ → Bool) → MovesForward (env items buffer grants)
env-MovesForward items buffer grants = record {
  remaining = λ c. length c.items;
  init = λ off size v h. ground arith;
  advance = advance-lt;
  advance_fixed = λ it v h. drop_token-lt it.items it.left v h;
  dup = λ it v s h. dup-lt it.items it.left v s h;
  copy = λ it. copy-le it.items it.left;
  skip_tag = λ it v h. ground (arith, drop_tags-le it.items);
  enter = λ it v h. enter-lt it.items v h;
  leave = λ it elt v h. ground arith;
}
