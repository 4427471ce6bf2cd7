-- ===== src/Param/Clamp.antt =====
-- The limits of eigerApp/src/eigerParam.cpp: `put` of an `int` sends a value between them.
use adeiger.Base.{◌≡◌, Bool, true, false, Bool-cases, inl, inr, refl, ◌&&◌, if◌then◌else◌, arith}
use adeiger.Base.Int.{ℤ, pos, ◌≤ℤ◌, ltb_ℤ}
use adeiger.Param.Outside.{Outside}
use adeiger.Param.Types.{Param, MinMax}
use adeiger.Param.Put.{is_uint, val_int, at_least, at_most, clamp_int}

abbrev max : ℤ → ℤ → ℤ
max lo v = if ltb_ℤ v lo then lo else v

abbrev min : ℤ → ℤ → ℤ
min hi v = if ltb_ℤ hi v then hi else v

le-max : (lo v : ℤ) → lo ≤ℤ max lo v
le-max lo v = elim (Bool-cases (ltb_ℤ v lo)) [
  | inl h ↦ rw h (omega arith)
  | inr h ↦ rw h (ground arith)
]

min-le : (hi v : ℤ) → min hi v ≤ℤ hi
min-le hi v = elim (Bool-cases (ltb_ℤ hi v)) [
  | inl h ↦ rw h (omega arith)
  | inr h ↦ rw h (ground arith)
]

max-le : (lo hi v : ℤ) → lo ≤ℤ hi → v ≤ℤ hi → max lo v ≤ℤ hi
max-le lo hi v h k = elim (Bool-cases (ltb_ℤ v lo)) [ inl e ↦ rw e h | inr e ↦ rw e k ]

le-min : (lo hi v : ℤ) → lo ≤ℤ hi → lo ≤ℤ v → lo ≤ℤ min hi v
le-min lo hi v h k = elim (Bool-cases (ltb_ℤ hi v)) [ inl e ↦ rw e h | inr e ↦ rw e k ]

le_trans : (a b c : ℤ) → a ≤ℤ b → b ≤ℤ c → a ≤ℤ c
le_trans a b c h k = omega arith

not_below : (a b : ℤ) → b ≤ℤ a → ltb_ℤ a b ≡ false
not_below a b h = ground arith

module _ (o : Outside) where
  open o use {Double}

  abbrev pub lower : Param Double → ℤ
  lower p = val_int o p.min.limit

  abbrev pub upper : Param Double → ℤ
  upper p = val_int o p.max.limit

  at_least-max :
      (m : MinMax Double) (v : ℤ) → m.exists ≡ true → at_least o m v ≡ max (val_int o m.limit) v
  at_least-max m v h = rw h refl

  at_most-min :
      (m : MinMax Double) (v : ℤ) → m.exists ≡ true → at_most o m v ≡ min (val_int o m.limit) v
  at_most-min m v h = rw h refl

  -- The last step of `clamp_int`.
  unfoldable above_zero : Bool → ℤ → ℤ
  above_zero unsigned v = if unsigned && ltb_ℤ v (pos 0) then pos 0 else v

  above_zero-le : (unsigned : Bool) (hi v : ℤ) → pos 0 ≤ℤ hi → v ≤ℤ hi → above_zero unsigned v ≤ℤ hi
  unfolding above_zero
  above_zero-le true hi v h k = max-le (pos 0) hi v h k
  above_zero-le false hi v h k = k

  le-above_zero : (unsigned : Bool) (lo v : ℤ) → lo ≤ℤ v → lo ≤ℤ above_zero unsigned v
  unfolding above_zero
  le-above_zero true lo v h = elim (Bool-cases (ltb_ℤ v (pos 0))) [
    | inl e ↦ rw e (ground arith)
    | inr e ↦ rw e h
  ]
  le-above_zero false lo v h = h

  -- When both limits exist, the lower one is not above the upper one, and the upper one is not below
  -- 0, the value that `put` sends for an integer is between the limits.
  pub clamp_int-Within :
      (p : Param Double) (value : ℤ)
      → p.min.exists ≡ true
      → p.max.exists ≡ true
      → lower p ≤ℤ upper p
      → pos 0 ≤ℤ upper p
      → (lower p ≤ℤ clamp_int o p value) × (clamp_int o p value ≤ℤ upper p)
  unfolding clamp_int above_zero
  clamp_int-Within p value has_min has_max h k =
      let v = min (upper p) (max (lower p) value) in
      rw (at_least-max p.min value has_min, at_most-min p.max (max (lower p) value) has_max)
        (
          le-above_zero (is_uint p.type) (lower p) v
              (le-min (lower p) (upper p) (max (lower p) value) h (le-max (lower p) value)),
          above_zero-le (is_uint p.type) (upper p) v k (min-le (upper p) (max (lower p) value)),
        )

  -- A value between the limits that exist, and not below 0 for an unsigned parameter, is sent as it is.
  clamp_int_fixed :
      (p : Param Double) (value : ℤ)
      → (p.min.exists && ltb_ℤ value (lower p)) ≡ false
      → (p.max.exists && ltb_ℤ (upper p) value) ≡ false
      → (is_uint p.type && ltb_ℤ value (pos 0)) ≡ false
      → clamp_int o p value ≡ value
  unfolding clamp_int
  clamp_int_fixed p value above below unsigned = rw (above, below, unsigned) refl

  -- For an unsigned parameter no negative value is sent, whatever the limits are.
  clamp_int_unsigned :
      (p : Param Double) (value : ℤ) → is_uint p.type ≡ true → pos 0 ≤ℤ clamp_int o p value
  unfolding clamp_int
  clamp_int_unsigned p value h = rw h (le-max (pos 0) (at_most o p.max (at_least o p.min value)))
