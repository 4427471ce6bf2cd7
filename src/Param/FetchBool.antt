-- ===== src/Param/FetchBool.antt =====
-- `fetch` of a `bool` in eigerApp/src/eigerParam.cpp, for a boolean parameter of the detector.
use adeiger.Base.{
  ℕ, String, ◌≡◌, refl, ap, ◌∙◌, Bool, true, false, not, Option, none, some, get_or, ◌&&◌,
  if◌then◌else◌,
}
use adeiger.Base.Int.{ℤ}
use adeiger.Param.Outside.{int32, Outside}
use adeiger.Param.Types.{
  Param, bool_type, Result, ok, failure, undefined, System, Method, pure, fail, require, or_fail,
  this, blank_param, continue, ◌>>=◌,
}
use adeiger.Param.Json.{parse_bool_value, parse_raw_value}
use adeiger.Param.Get.{is_int32, nonzero_int, get_integer_param, get_bool}
use adeiger.Param.Fetch.{
  is_uninit, is_write_only, is_command, api_get, describe, set_limits, base_fetch, accept_bool,
  fetch_bool,
}
use adeiger.Param.Guards.{object}

abbrev Any : {A : Type 0} → A → Type 0
Any a = Unit {0}

module _ {o : Outside} where
  -- No parameter object and no asyn parameter has changed.
  abbrev pub Kept : System o → System o → Type 0
  Kept s s' = (s'.asyn ≡ s.asyn) × (s'.params ≡ s.params)

  -- Nothing but the detector has changed, and a result satisfies `Q`.
  abbrev pub Post : {A : Type 0} → System o → (A → Type 0) → Result A × System o → Type 0
  Post s Q (ok a, s') = Kept s s' × Q a
  Post s Q (failure, s') = Kept s s'
  Post s Q (undefined, s') = Kept s s'

  continue-Post :
      {A B : Type 0} (s : System o) (P : A → Type 0) (Q : B → Type 0) (r : Result A) (s' : System o)
      (f : A → Method o B)
      → Post s P (r, s')
      → ((a : A) (t : System o) → Kept s t → P a → Post s Q (f a t))
      → Post s Q (continue r f s')
  continue-Post s P Q (ok a) s' f h k = k a s' h.0 h.1
  continue-Post s P Q failure s' f h k = h
  continue-Post s P Q undefined s' f h k = h

  bind-Post :
      {A B : Type 0} (s s' : System o) (P : A → Type 0) (Q : B → Type 0) (m : Method o A)
      (f : A → Method o B)
      → Post s P (m s')
      → ((a : A) (t : System o) → Kept s t → P a → Post s Q (f a t))
      → Post s Q ((m >>= f) s')
  unfolding ◌>>=◌
  bind-Post s s' P Q m f h k = continue-Post s P Q (m s').0 (m s').1 f h k

  this-Post : (s s' : System o) (i : ℕ) → Kept s s' → Post s (λ p. p ≡ object s i) (this i s')
  unfolding this
  this-Post s s' i k = (k, ap (λ params. get_or params i (blank_param o)) k.1)

  require-Post : (s s' : System o) (b : Bool) → Kept s s' → Post s Any (require b s')
  unfolding require pure fail
  require-Post s s' true k = (k, tt)
  require-Post s s' false k = k

  or_fail-Post :
      {A : Type 0} (s s' : System o) (a : Option A) → Kept s s' → Post s Any (or_fail a s')
  unfolding or_fail pure fail
  or_fail-Post s s' none k = k
  or_fail-Post s s' (some a) k = (k, tt)

  pure-Post : {A : Type 0} (s s' : System o) (a : A) → Kept s s' → Post s Any (pure a s')
  unfolding pure
  pure-Post s s' a k = (k, tt)

  api_get-Post :
      (s s' : System o) (p : Param o.Double)
      → Kept s s'
      → Post s Any (api_get p.sub_system p.name s')
  unfolding api_get
  api_get-Post s s' p k = (k, tt)

  -- `baseFetch` of a boolean parameter whose type is known changes nothing but the detector.
  fetched :
      (s t : System o) (i : ℕ) (p : Param o.Double) (tokens : o.Json)
      → p ≡ object s i
      → (object s i).type ≡ bool_type
      → Kept s t
      → Post s Any ((if is_uninit p.type then describe i tokens else pure tt) t)
  fetched s t i p tokens same is k =
      rw (ap (λ q. is_uninit q.type) same ∙ ap is_uninit is) (pure-Post s t tt k)

  no_limits :
      (s t : System o) (i : ℕ) (p : Param o.Double) (tokens : o.Json)
      → p ≡ object s i
      → (object s i).type ≡ bool_type
      → Kept s t
      → Post s Any (set_limits p.type i tokens t)
  unfolding set_limits
  no_limits s t i p tokens same is k = rw (ap (λ q. q.type) same ∙ is) (pure-Post s t tt k)

  if-Post :
      {A : Type 0} (s t : System o) (Q : A → Type 0) (b : Bool) (m k : Method o A)
      → Post s Q (m t)
      → Post s Q (k t)
      → Post s Q ((if b then m else k) t)
  if-Post s t Q true m k x y = x
  if-Post s t Q false m k x y = y

  base_fetch-Post :
      (s t : System o) (i : ℕ) (raw : String)
      → (object s i).type ≡ bool_type
      → Kept s t
      → Post s Any (base_fetch i raw t)
  unfolding base_fetch
  base_fetch-Post s t i raw is k = bind-Post s t _ _ _ _ (this-Post s t i k) λ p t k same.
      bind-Post s t _ _ _ _ (require-Post s t p.remote k) λ u t k x.
        if-Post s t _ (is_write_only p.access_mode) _ _ (pure-Post s t raw k) (
          bind-Post s t _ _ _ _ (api_get-Post s t p k) λ buffer t k x.
            bind-Post s t _ _ _ _ (or_fail-Post s t (o.parse_json buffer) k) λ tokens t k x.
              bind-Post s t _ _ _ _ (fetched s t i p tokens same is k) λ u t k x.
                bind-Post s t _ _ _ _ (this-Post s t i k) λ p t k same.
                  bind-Post s t _ _ _ _ (no_limits s t i p tokens same is k)
                    λ u t k x. or_fail-Post s t (parse_raw_value o tokens) k)

  accept_bool-Post :
      (s t : System o) (i : ℕ) (p : Param o.Double) (raw : String)
      → p ≡ object s i
      → (object s i).type ≡ bool_type
      → Kept s t
      → Post s Any (accept_bool p.type i raw t)
  unfolding accept_bool
  accept_bool-Post s t i p raw same is k = rw (ap (λ q. q.type) same ∙ is) (
      bind-Post s t _ _ _ _ (or_fail-Post s t (parse_bool_value raw) k)
        λ v t k x. pure-Post s t tt k)

  -- What `get` reads for the object `i`.
  abbrev pub IsPresent : System o → ℕ → Bool → Type 0
  IsPresent s i value = value ≡ nonzero_int (o.get_integer (object s i).asyn_index s.asyn)

  get_integer_param-Post :
      (s t : System o) (i : ℕ) (p : Param o.Double)
      → p ≡ object s i
      → Kept s t
      → Post s (λ n. n ≡ o.get_integer (object s i).asyn_index s.asyn) (get_integer_param p t)
  unfolding get_integer_param
  get_integer_param-Post s t i p same k = (
    k,
    ap (λ q. o.get_integer q.asyn_index t.asyn) same
        ∙ ap (λ asyn. o.get_integer (object s i).asyn_index asyn) k.0,
  )

  truth_value :
      (s t : System o) (i : ℕ) (n : ℤ)
      → n ≡ o.get_integer (object s i).asyn_index s.asyn
      → Kept s t
      → Post s (IsPresent s i) (pure (nonzero_int n) t)
  unfolding pure
  truth_value s t i n same k = (k, ap nonzero_int same)

  get_bool-Post :
      (s t : System o) (i : ℕ)
      → (object s i).asyn_type ≡ int32
      → Kept s t
      → Post s (IsPresent s i) (get_bool i t)
  unfolding get_bool
  get_bool-Post s t i is k = bind-Post s t _ _ _ _ (this-Post s t i k) λ p t k same.
      rw (ap (λ q. is_int32 q.asyn_type) same ∙ ap is_int32 is) (
        bind-Post s t _ _ _ _ (get_integer_param-Post s t i p same k)
          λ n t k x. truth_value s t i n x k)

  -- For a boolean parameter of the detector with an integer in asyn, whose type is known, `fetch` of a
  -- `bool` changes no parameter object and no asyn parameter, and its result is what asyn held
  -- before, whatever the detector answers.
  pub fetch_bool-Post :
      (s : System o) (i : ℕ)
      → (object s i).type ≡ bool_type
      → (object s i).asyn_type ≡ int32
      → Post s (IsPresent s i) (fetch_bool i s)
  unfolding fetch_bool
  fetch_bool-Post s i is integer =
      bind-Post s s _ _ _ _ (this-Post s s i (refl, refl)) λ p t k same.
        bind-Post s t Any _ _ _
          (if-Post s t Any (p.remote && not (is_command p.type)) _ _
            (bind-Post s t _ _ _ _ (base_fetch-Post s t i "" is k) λ raw t k x.
              bind-Post s t _ _ _ _ (this-Post s t i k)
                λ p t k same. accept_bool-Post s t i p raw same is k)
            (pure-Post s t tt k))
          (λ u t k x. get_bool-Post s t i integer k)
