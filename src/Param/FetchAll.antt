-- ===== src/Param/FetchAll.antt =====
-- The other `fetch` methods of eigerApp/src/eigerParam.cpp, and `getByName`, `getByIndex`, `fetchAll`
-- and `fetchParams` of the parameter set.
use adeiger.Base.{
  ℕ, String, Bool, true, false, not, Option, none, some, List, [], ◌∷◌, ◌==◌, ◌&&◌, str_eq,
  if◌then◌else◌,
}
use adeiger.Param.Outside.{AsynType, int32, float64, octet, other_type, Outside}
use adeiger.Param.Types.{
  ParamType, uninit, int_type, uint_type, double_type, string_type, enum_type, Result, ok, failure,
  undefined, System, Method, pure, require, or_fail, this, ◌>>=◌, ◌>>◌,
}
use adeiger.Param.Get.{set_double_param, set_string_param, get_double, get_string}
use adeiger.Param.Fetch.{is_command, base_fetch, fetch_int}

abbrev pub may_be_double : ParamType → Bool
may_be_double double_type = true
may_be_double int_type = true
may_be_double uint_type = true
may_be_double uninit = true
may_be_double _ = false

abbrev pub may_be_text : ParamType → Bool
may_be_text string_type = true
may_be_text enum_type = true
may_be_text uninit = true
may_be_text _ = false

-- `map::find`, for a map from texts and one from numbers.
unfoldable pub find_name : List (String × ℕ) → String → Option ℕ
find_name [] name = none
find_name ((key, i) ∷ entries) name =
    let rest = find_name entries name in if str_eq key name then some i else rest

unfoldable pub find_index : List (ℕ × ℕ) → ℕ → Option ℕ
find_index [] index = none
find_index ((key, i) ∷ entries) index =
    let rest = find_index entries index in if key == index then some i else rest

module _ (o : Outside) where
  open o use {Double}

  -- The free disk space in GB: the version 1.6.0 of the interface counts in KB, the others in bytes.
  unfoldable pub in_unit : String → Double → Double
  in_unit asyn_name value =
      if str_eq asyn_name "FW_FREE"
      then (if o.is_1_6_0 then o.from_kb value else o.from_bytes value)
      else value

module _ {o : Outside} where
  open o use {Double}

  unfoldable pub fetch_double : ℕ → Method o Double
  fetch_double i = do
    p ← this i
    if p.remote && not (is_command p.type)
        then (do
          require (may_be_double p.type)
          raw ← base_fetch i ""
          value ← or_fail (o.scan_double raw)
          set_double_param p (in_unit o p.asyn_name value))
        else pure tt
    get_double i

  unfoldable pub fetch_string : ℕ → String → Method o String
  fetch_string i value = do
    p ← this i
    if p.remote && not (is_command p.type)
        then (do
          require (may_be_text p.type)
          raw ← base_fetch i value
          set_string_param p raw
          pure raw)
        else get_string i

  -- `fetch` without a value
  unfoldable pub fetch_type : AsynType → ℕ → Method o (Unit {0})
  fetch_type int32 i = do value ← fetch_int i; pure tt
  fetch_type float64 i = do value ← fetch_double i; pure tt
  fetch_type octet i = do value ← fetch_string i ""; pure tt
  fetch_type other_type i = pure tt

  unfoldable pub fetch : ℕ → Method o (Unit {0})
  fetch i = do p ← this i; fetch_type p.asyn_type i

  -- `status |= ...`: what follows a failure is done too, and the failure is reported at the end.
  abbrev pub and_then : Result (Unit {0}) → Method o (Unit {0}) → Method o (Unit {0})
  and_then (ok _) m s = m s
  and_then undefined m s = (undefined, s)
  and_then failure m s =
      let r = m s in (elim r.0 [ ok _ ↦ failure | failure ↦ failure | undefined ↦ undefined ], r.1)

  unfoldable pub both : Method o (Unit {0}) → Method o (Unit {0}) → Method o (Unit {0})
  both m k s = let r = m s in and_then r.0 k r.1

  unfoldable pub fetch_entries : List (ℕ × ℕ) → Method o (Unit {0})
  fetch_entries [] = pure tt
  fetch_entries ((key, i) ∷ entries) = both (fetch i) (fetch_entries entries)

  unfoldable pub fetch_all : Method o (Unit {0})
  fetch_all s = fetch_entries s.asyn_map s

  unfoldable pub get_by_name : String → System o → Option ℕ
  get_by_name name s = find_name s.det_config_map name

  unfoldable pub get_by_index : ℕ → System o → Option ℕ
  get_by_index index s = find_index s.asyn_map index

  -- A name that is not known is passed over.
  unfoldable pub fetch_named : String → Method o (Unit {0})
  fetch_named name s = elim (get_by_name name s) [ none ↦ (ok tt, s) | some i ↦ fetch i s ]

  unfoldable pub fetch_params : List String → Method o (Unit {0})
  fetch_params [] = pure tt
  fetch_params (name ∷ names) = both (fetch_named name) (fetch_params names)
