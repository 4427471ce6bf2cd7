-- ===== src/Param/Types.antt =====
-- The state of eigerApp/src/eigerParam.h, and the shape of its methods: they read and write the
-- detector, the asyn parameters and the parameter objects, and return, fail or run into behaviour
-- that C++ leaves undefined.
use adeiger.Base.{ℕ, String, Bool, false, Option, none, some, List, [], get_or, set, if◌then◌else◌}
use adeiger.Base.Int.{ℤ, pos}
use adeiger.Param.Outside.{Sys, AsynType, other_type, Outside}

-- `eiger_param_type_t`
pub data ParamType : Type 0 where
  uninit bool_type int_type uint_type double_type string_type enum_type command_type : ParamType

-- `eiger_access_mode_t`
pub data AccessMode : Type 0 where
  read_only read_write write_only : AccessMode

-- The union of `eiger_min_max_t`.
pub data Limit (D : Type 0) : Type 0 where
  int_limit : ℤ → Limit D
  double_limit : D → Limit D

pub record MinMax (D : Type 0) : Type 0 where
  pub exists : Bool
  pub limit : Limit D

pub record Param (D : Type 0) : Type 0 where
  pub asyn_name : String
  pub asyn_type : AsynType
  pub sub_system : Sys
  pub name : String
  pub remote : Bool
  pub asyn_index : ℕ
  pub type : ParamType
  pub access_mode : AccessMode
  pub min : MinMax D
  pub max : MinMax D
  pub enum_values : List String
  pub critical_values : List String
  pub epsilon : D
  pub custom_enum : Bool

pub data Result (A : Type 0) : Type 0 where
  ok : A → Result A
  -- `EXIT_FAILURE`
  failure : Result A
  -- an element of a vector behind its end, or before its start
  undefined : Result A

module _ (o : Outside) where
  open o use {Double, Server, Asyn}

  -- A `Param` is known by its place in the list of all; the two maps of `EigerParamSet` lead from a
  -- name, and from an asyn index in ascending order, to a place.
  pub record System : Type 0 where
    pub server : Server
    pub asyn : Asyn
    pub params : List (Param Double)
    pub det_config_map : List (String × ℕ)
    pub asyn_map : List (ℕ × ℕ)

abbrev pub Method : Outside → Type 0 → Type 0
Method o A = System o → Result A × System o

abbrev pub blank_param : (o : Outside) → Param o.Double
blank_param o = record {
  asyn_name = "";
  asyn_type = other_type;
  sub_system = Sys.api_version;
  name = "";
  remote = false;
  asyn_index = 0;
  type = uninit;
  access_mode = read_only;
  min = record { exists = false; limit = int_limit (pos 0) };
  max = record { exists = false; limit = int_limit (pos 0) };
  enum_values = [];
  critical_values = [];
  epsilon = o.zero_double;
  custom_enum = false;
}

module _ {o : Outside} where
  unfoldable pub pure : {A : Type 0} → A → Method o A
  pure a s = (ok a, s)

  unfoldable pub fail : {A : Type 0} → Method o A
  fail s = (failure, s)

  unfoldable pub undef : {A : Type 0} → Method o A
  undef s = (undefined, s)

  abbrev pub continue : {A B : Type 0} → Result A → (A → Method o B) → Method o B
  continue (ok a) f s = f a s
  continue failure f s = (failure, s)
  continue undefined f s = (undefined, s)

  infixl 5 ◌>>=◌ ◌>>◌
  unfoldable pub ◌>>=◌ : {A B : Type 0} → Method o A → (A → Method o B) → Method o B
  ◌>>=◌ m f s = let (r, s') = m s in continue r f s'

  abbrev pub ◌>>◌ : {A B : Type 0} → Method o A → Method o B → Method o B
  m >> k = m >>= λ _. k

  unfoldable pub require : Bool → Method o (Unit {0})
  require b = if b then pure tt else fail

  unfoldable pub or_fail : {A : Type 0} → Option A → Method o A
  or_fail none = fail
  or_fail (some a) = pure a

  -- The object `this`, number `i`.
  unfoldable pub this : ℕ → Method o (Param o.Double)
  this i s = (ok (get_or s.params i (blank_param o)), s)

  unfoldable pub store : ℕ → Param o.Double → Method o (Unit {0})
  store i p s = (ok tt, record s { params = set s.params i p })
