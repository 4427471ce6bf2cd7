-- ===== src/Param/Guards.antt =====
-- What `put` of eigerApp/src/eigerParam.cpp refuses: parameters that can only be read, and texts that
-- are not allowed. Nothing is sent or stored then.
use mathlib.Core.Option.{none-ne-some}
use adeiger.Base.{
  subst, sym, ap, ℕ, String, ◌≡◌, refl, Bool, true, false, Option, none, some, get_or,
}
use adeiger.Base.Int.{ℤ}
use adeiger.Param.Outside.{Outside}
use adeiger.Param.Types.{
  Param, Result, ok, failure, undefined, System, Method, pure, fail, require, or_fail, this,
  blank_param, ◌>>=◌, continue, enum_type,
}
use adeiger.Param.Text.{is_enum, get_enum_index}
use adeiger.Param.Get.{lift}
use adeiger.Param.Fetch.{is_uninit}
use adeiger.Param.Put.{
  is_read_only, takes_int, base_put, know_type, put_bool, send_int, put_int, put_string,
}

module _ {o : Outside} where
  -- A call that does not succeed and leaves the system as it was.
  abbrev pub Refused : {A : Type 0} → System o → Result A × System o → Type 0
  Refused s (ok a, s') = ⊥
  Refused s (failure, s') = s' ≡ s
  Refused s (undefined, s') = s' ≡ s

  abbrev pub object : System o → ℕ → Param o.Double
  object s i = get_or s.params i (blank_param o)

  know_type_known :
      (s : System o) (i : ℕ) → is_uninit (object s i).type ≡ false → know_type i s ≡ (ok tt, s)
  unfolding know_type ◌>>=◌ this pure
  know_type_known s i h = rw h refl

  base_put_read_only :
      (s : System o) (i : ℕ) (raw : String)
      → is_read_only (object s i).access_mode ≡ true
      → base_put i raw s ≡ (failure, s)
  unfolding base_put ◌>>=◌ this require fail
  base_put_read_only s i raw h = rw h refl

  continue-Refused :
      {A B : Type 0} (s : System o) (r : Result A) (s' : System o) (f : A → Method o B)
      → Refused s (r, s')
      → Refused s (continue r f s')
  continue-Refused s (ok a) s' f h = elim h [ ]
  continue-Refused s failure s' f h = h
  continue-Refused s undefined s' f h = h

  bind-Refused :
      {A B : Type 0} (m : Method o A) (f : A → Method o B) (s : System o)
      → Refused s (m s)
      → Refused s ((m >>= f) s)
  unfolding ◌>>=◌
  bind-Refused m f s h = continue-Refused s (m s).0 (m s).1 f h

  after-Refused :
      {A B : Type 0} (m : Method o A) (f : A → Method o B) (s : System o) (a : A)
      → m s ≡ (ok a, s)
      → Refused s (f a s)
      → Refused s ((m >>= f) s)
  unfolding ◌>>=◌
  after-Refused m f s a e h = subst (λ r. Refused s (continue r.0 f r.1)) (sym e) h

  require-Refused :
      {A : Type 0} (b : Bool) (f : Unit {0} → Method o A) (s : System o)
      → Refused s (f tt s)
      → Refused s ((require b >>= f) s)
  unfolding ◌>>=◌ require pure fail
  require-Refused true f s h = h
  require-Refused false f s h = refl

  lift-Refused :
      {A B : Type 0} (r : Result A) (f : A → Method o B) (s : System o)
      → ((a : A) → Refused s (f a s))
      → Refused s ((lift r >>= f) s)
  unfolding ◌>>=◌ lift
  lift-Refused (ok a) f s h = h a
  lift-Refused failure f s h = refl
  lift-Refused undefined f s h = refl

  base_put-Refused :
      {A : Type 0} (s : System o) (i : ℕ) (raw : String) (f : Unit {0} → Method o A)
      → is_read_only (object s i).access_mode ≡ true
      → Refused s ((base_put i raw >>= f) s)
  base_put-Refused s i raw f h =
      bind-Refused (base_put i raw) f s
        (subst (Refused s) (sym (base_put_read_only s i raw h)) refl)

  send_int-Refused :
      (s : System o) (i : ℕ) (value : ℤ)
      → is_uninit (object s i).type ≡ false
      → is_read_only (object s i).access_mode ≡ true
      → Refused s (send_int i value s)
  unfolding send_int this
  send_int-Refused s i value known read_only =
      after-Refused (know_type i) _ s tt (know_type_known s i known) (
        after-Refused (this i) _ s (object s i) refl (
          require-Refused (takes_int (object s i).type) _ s
            (lift-Refused _ _ s (λ text. base_put-Refused s i text _ read_only))))

  -- `put` of an `int` to a parameter of the detector whose type is known and that can only be read
  -- does not succeed, and changes neither the detector nor any parameter.
  pub put_int-Refused :
      (s : System o) (i : ℕ) (value : ℤ)
      → (object s i).remote ≡ true
      → is_uninit (object s i).type ≡ false
      → is_read_only (object s i).access_mode ≡ true
      → Refused s (put_int i value s)
  unfolding put_int this
  put_int-Refused s i value remote known read_only =
      after-Refused (this i) _ s (object s i) refl (
        rw remote
          (bind-Refused (send_int i value) _ s (send_int-Refused s i value known read_only)))

  -- `put` of a `bool` to a parameter of the detector whose type is known and that can only be read
  -- does not succeed, and changes neither the detector nor any parameter.
  put_bool-Refused :
      (s : System o) (i : ℕ) (value : Bool)
      → (object s i).remote ≡ true
      → is_uninit (object s i).type ≡ false
      → is_read_only (object s i).access_mode ≡ true
      → Refused s (put_bool i value s)
  unfolding put_bool this
  put_bool-Refused s i value remote known read_only = after-Refused (this i) _ s (object s i) refl (
      rw remote (
        after-Refused (know_type i) _ s tt (know_type_known s i known) (
          after-Refused (this i) _ s (object s i) refl (
            require-Refused _ _ s
              (lift-Refused _ _ s (λ text. base_put-Refused s i text _ read_only))))))

  or_fail-Refused :
      {A B : Type 0} (a : Option A) (f : A → Method o B) (s : System o)
      → a ≡ none
      → Refused s ((or_fail a >>= f) s)
  unfolding or_fail fail ◌>>=◌
  or_fail-Refused none f s h = refl
  or_fail-Refused (some a) f s h = elim (none-ne-some a (sym h)) [ ]

  -- `put` of a text to an enumeration of the detector whose type is known, and of which the text is no
  -- value, does not succeed, and changes neither the detector nor any parameter.
  pub put_string-Refused :
      (s : System o) (i : ℕ) (value : String)
      → (object s i).remote ≡ true
      → (object s i).type ≡ enum_type
      → get_enum_index (object s i).enum_values value ≡ none
      → Refused s (put_string i value s)
  unfolding put_string this
  put_string-Refused s i value remote is absent = after-Refused (this i) _ s (object s i) refl (
      rw remote (
        after-Refused (know_type i) _ s tt (know_type_known s i (ap is_uninit is)) (
          after-Refused (this i) _ s (object s i) refl (
            require-Refused _ _ s
              (bind-Refused _ _ s (rw (ap is_enum is) (or_fail-Refused _ _ s absent)))))))
