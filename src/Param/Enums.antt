-- ===== src/Param/Enums.antt =====
-- Enumerations in eigerApp/src/eigerParam.cpp: the text and the index of a value.
use mathlib.Core.Option.{some-injective, none-ne-some}
use text.Mathlib.TextEquality.{eq_iff}
use adeiger.Base.{
  ℕ, zero, suc, String, ◌≡◌, ◌≢◌, refl, ap, subst, Bool, true, false, not, Option, none, some, List,
  [], ◌∷◌, Bool-cases, inl, inr, str_eq, if◌then◌else◌,
}
use adeiger.Base.Int.{ℤ, pos}
use adeiger.Param.Outside.{Outside}
use adeiger.Param.Types.{Param, enum_type, ok}
use adeiger.Param.Text.{
  is_enum, value_at, enum_at, get_enum_index, quote, quoted, to_string_bool, to_string_int,
}
use adeiger.Param.Get.{int_of_bool}
use adeiger.Param.Fetch.{read_int}

-- The value stands at the index, and not before it.
abbrev pub IsFirst : List String → String → ℕ → Type 0
IsFirst [] value i = ⊥
IsFirst (v ∷ values) value zero = v ≡ value
IsFirst (v ∷ values) value (suc i) = (v ≢ value) × IsFirst values value i

abbrev pub IsAbsent : List String → String → Type 0
IsAbsent [] value = Unit
IsAbsent (v ∷ values) value = (v ≢ value) × IsAbsent values value

abbrev pub Found : List String → String → Option ℕ → Type 0
Found values value none = IsAbsent values value
Found values value (some i) = IsFirst values value i

Found-later :
    (v : String) (values : List String) (value : String)
    → v ≢ value
    → (r : Option ℕ) → Found values value r
    → Found (v ∷ values) value (elim r [ none ↦ none | some i ↦ some (suc i) ])
Found-later v values value ne none h = (ne, h)
Found-later v values value ne (some i) h = (ne, h)

-- `getEnumIndex` finds the first index at which the value stands, and fails only if it stands nowhere.
pub get_enum_index-Found :
    (values : List String) (value : String) → Found values value (get_enum_index values value)
unfolding get_enum_index
get_enum_index-Found [] value = tt
get_enum_index-Found (v ∷ values) value = elim (Bool-cases (str_eq v value)) [
  | inl h ↦ rw h ((eq_iff v value).0 h)
  | inr h ↦ rw h (
      Found-later v values value (λ e. cc (h, (eq_iff v value).1 e)) (get_enum_index values value)
        (get_enum_index-Found values value))
]

value_at-get_enum_index :
    (values : List String) (value : String) (i : ℕ)
    → IsFirst values value i
    → value_at values i ≡ ok value
value_at-get_enum_index [] value i h = elim h [ ]
value_at-get_enum_index (v ∷ values) value zero h = ap ok h
value_at-get_enum_index (v ∷ values) value (suc i) h = value_at-get_enum_index values value i h.1

abbrev to_int : Option ℕ → Option ℤ
to_int none = none
to_int (some index) = some (pos index)

first_index : (a b : String) → get_enum_index (a ∷ b ∷ []) a ≡ some 0
unfolding get_enum_index
first_index a b = rw ((eq_iff a a).1 refl) refl

second_index : (a b : String) → str_eq a b ≡ false → get_enum_index (a ∷ b ∷ []) b ≡ some 1
unfolding get_enum_index
second_index a b differ = rw (differ, (eq_iff b b).1 refl) refl

module _ (o : Outside) where
  open o use {Double}

  quoted_value :
      (values : List String) (raw : String) (n : ℤ) (r : Option ℕ)
      → Found values raw r
      → to_int r ≡ some n
      → quoted (enum_at values n) ≡ ok (quote raw)
  unfolding enum_at
  quoted_value values raw n none found h = elim (none-ne-some n h) [ ]
  quoted_value values raw n (some i) found h =
      subst (λ m. quoted (enum_at values m) ≡ ok (quote raw)) (some-injective (pos i) n h)
        (ap quoted (value_at-get_enum_index values raw i found))

  -- A text that `fetch` reads from the detector as the index `n` of an enumeration is the text that
  -- `put` sends for `n`, in quotes.
  pub to_string_int-read_int :
      (p : Param Double) (raw : String) (n : ℤ)
      → is_enum p.type ≡ true
      → read_int o enum_type p.enum_values raw ≡ some n
      → to_string_int o p n ≡ ok (quote raw)
  unfolding to_string_int read_int
  to_string_int-read_int p raw n is h = rw is (
      quoted_value p.enum_values raw n (get_enum_index p.enum_values raw)
        (get_enum_index-Found p.enum_values raw) h)

  read_first : (a b : String) → read_int o enum_type (a ∷ b ∷ []) a ≡ some (pos 0)
  unfolding read_int
  read_first a b = ap to_int (first_index a b)

  read_second :
      (a b : String) → str_eq a b ≡ false → read_int o enum_type (a ∷ b ∷ []) b ≡ some (pos 1)
  unfolding read_int
  read_second a b differ = ap to_int (second_index a b differ)

  -- For an enumeration of two different values, `put` of a `bool` sends the text that `fetch` reads as
  -- the opposite.
  pub to_string_bool_opposite :
      (p : Param Double) (a b : String) (value : Bool)
      → is_enum p.type ≡ true
      → p.enum_values ≡ a ∷ b ∷ []
      → str_eq a b ≡ false
      → (to_string_bool o p value ≡ ok (quote (if value then a else b)))
        × (read_int o enum_type p.enum_values (if value then a else b)
            ≡ some (int_of_bool (not value)))
  unfolding to_string_bool enum_at
  to_string_bool_opposite p a b true is two differ = rw (is, two) (refl, read_first a b)
  to_string_bool_opposite p a b false is two differ = rw (is, two) (refl, read_second a b differ)
