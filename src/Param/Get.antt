-- ===== src/Param/Get.antt =====
-- `getParam`, `setParam` and `get` of eigerApp/src/eigerParam.cpp: the asyn parameter behind a
-- parameter object.
use adeiger.Base.{
  ℕ, zero, String, Bool, true, false, Option, none, some, length, leb, ◌==◌, ◌&&◌, if◌then◌else◌,
}
use adeiger.Base.Int.{ℤ, pos}
use adeiger.Param.Outside.{AsynType, int32, octet, Outside}
use adeiger.Param.Types.{Param, Result, ok, failure, Method, pure, fail, or_fail, this, ◌>>=◌}
use adeiger.Param.Text.{is_enum, enum_at, get_enum_index}

abbrev pub is_int32 : AsynType → Bool
is_int32 int32 = true
is_int32 _ = false

abbrev pub is_octet : AsynType → Bool
is_octet octet = true
is_octet _ = false

-- `(bool) n`
abbrev pub nonzero_int : ℤ → Bool
nonzero_int (pos zero) = false
nonzero_int _ = true

abbrev pub int_of_bool : Bool → ℤ
int_of_bool b = pos (if b then 1 else 0)

abbrev pub status : Bool → Result (Unit {0})
status done = if done then ok tt else failure

module _ {o : Outside} where
  open o use {Double}

  -- A computation that does not touch the system.
  unfoldable pub lift : {A : Type 0} → Result A → Method o A
  lift r s = (r, s)

  unfoldable pub get_integer_param : Param Double → Method o ℤ
  get_integer_param p s = (ok (o.get_integer p.asyn_index s.asyn), s)

  unfoldable pub get_double_param : Param Double → Method o (Option Double)
  get_double_param p s = (ok (o.get_double p.asyn_index s.asyn), s)

  unfoldable pub get_string_param : Param Double → Method o (Option String)
  get_string_param p s = (ok (o.get_string p.asyn_index s.asyn), s)

  unfoldable pub set_integer_param : Param Double → ℤ → Method o (Unit {0})
  set_integer_param p value s =
      let r = o.set_integer p.asyn_index value s.asyn in (status r.0, record s { asyn = r.1 })

  unfoldable pub set_double_param : Param Double → Double → Method o (Unit {0})
  set_double_param p value s =
      let r = o.set_double p.asyn_index value s.asyn in (status r.0, record s { asyn = r.1 })

  unfoldable pub set_string_param : Param Double → String → Method o (Unit {0})
  set_string_param p value s =
      let r = o.set_string p.asyn_index value s.asyn in (status r.0, record s { asyn = r.1 })

  -- A call whose status is not looked at.
  unfoldable pub ignore_status : Method o (Unit {0}) → Method o (Unit {0})
  ignore_status m s = (ok tt, (m s).1)

  -- `get` of an `int`. A text that cannot be read is taken as empty.
  unfoldable pub get_int : ℕ → Method o ℤ
  get_int i = do
    p ← this i
    if is_int32 p.asyn_type
        then get_integer_param p
        else if is_octet p.asyn_type && leb 1 (length p.enum_values)
        then (do
          text ← get_string_param p
          index ← or_fail (get_enum_index p.enum_values (elim text [ none ↦ "" | some t ↦ t ]))
          pure (pos index))
        else fail

  unfoldable pub get_bool : ℕ → Method o Bool
  get_bool i = do
    p ← this i
    if is_int32 p.asyn_type
        then (do value ← get_integer_param p; pure (nonzero_int value))
        else if is_octet p.asyn_type && (length p.enum_values == 2)
        then (do value ← get_int i; pure (nonzero_int value))
        else fail

  unfoldable pub get_double : ℕ → Method o Double
  get_double i = do p ← this i; value ← get_double_param p; or_fail value

  unfoldable pub get_string : ℕ → Method o String
  get_string i = do
    p ← this i
    if is_enum p.type && is_int32 p.asyn_type
        then (do index ← get_integer_param p; lift (enum_at p.enum_values index))
        else (do value ← get_string_param p; or_fail value)
