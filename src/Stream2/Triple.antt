-- ===== src/Stream2/Triple.antt =====
-- Partial correctness of the functions of eigerApp/src/stream2.c: what holds of the variable that a
-- call fills, if it ends with `STREAM2_OK`. That every call ends is proved in `Stream2/Sound`.
pub mod Arrays
pub mod Messages
pub mod Images
use adeiger.Base.{ℕ, ◌≡◌, refl, Bool, true, false, if◌then◌else◌, subst, sym}
use adeiger.Cbor.{Reply, done, failed}
use adeiger.Stream2.Memory.{Heap}
use adeiger.Stream2.Types.{Stream2Error}
use adeiger.Stream2.Monad.{
  M, Outcome, ok, err, out_of_fuel, pure, fail, reply, require, get, modify, continue, ◌>>=◌, Field,
  at,
}

abbrev pub Holds : {T A : Type 0} → (A → T → Type 0) → Outcome A → T → Type 0
Holds Q (ok a) t = Q a t
Holds Q (err e) t = Unit
Holds Q out_of_fuel t = Unit

pub record Triple {T A : Type 0} (P : T → Type 0) (m : M T A) (Q : A → T → Type 0) : Type 0 where
  pub run : (h : Heap) (t : T) → P t → Holds Q (m h t).0 (m h t).2

ok_injective : {A : Type 0} (a b : A) → ok a ≡ ok b → a ≡ b
ok_injective a b e = cc

abbrev pub Any : {T : Type 0} → T → Type 0
Any t = Unit

holds_any : {T A : Type 0} (r : Outcome A) (t : T) → Holds (λ _ _. Unit {0}) r t
holds_any (ok a) t = tt
holds_any (err _) t = tt
holds_any out_of_fuel t = tt

module _ {T A : Type 0} {P : T → Type 0} where
  pub any-Triple : (m : M T A) → Triple P m (λ _ _. Unit {0})
  any-Triple m = record { run = λ h t p. holds_any (m h t).0 (m h t).2 }

  pub pure-Triple : {Q : A → T → Type 0} (a : A) → ((t : T) → P t → Q a t) → Triple P (pure a) Q
  unfolding pure
  pure-Triple a f = record { run = λ h t p. f t p }

  pub fail-Triple : {Q : A → T → Type 0} (e : Stream2Error) → Triple P (fail e) Q
  unfolding fail
  fail-Triple e = record { run = λ h t p. tt }

  -- A call that has no out-parameter leaves the variable alone.
  pub reply-Triple : (r : Reply A) → Triple P (reply r) (λ _. P)
  unfolding reply
  reply-Triple (done a) = pure-Triple a (λ t p. p)
  reply-Triple (failed e) = fail-Triple _

  pub if-Triple :
      {Q : A → T → Type 0} (b : Bool) {m n : M T A}
      → (b ≡ true → Triple P m Q)
      → (b ≡ false → Triple P n Q)
      → Triple P (if b then m else n) Q
  if-Triple true s t = s refl
  if-Triple false s t = t refl

weaken_holds :
    {T A : Type 0} (Q R : A → T → Type 0)
    → ((a : A) (t : T) → Q a t → R a t)
    → (r : Outcome A) (t : T) → Holds Q r t
    → Holds R r t
weaken_holds Q R f (ok a) t x = f a t x
weaken_holds Q R f (err _) t x = tt
weaken_holds Q R f out_of_fuel t x = tt

module _ {T A : Type 0} {P : T → Type 0} {Q R : A → T → Type 0} where
  pub weaken-Triple : {m : M T A} → Triple P m Q → ((a : A) (t : T) → Q a t → R a t) → Triple P m R
  weaken-Triple {m} s f = record {
    run = λ h t p. weaken_holds Q R f (m h t).0 (m h t).2 (s.run h t p);
  }

module _ {T : Type 0} {P : T → Type 0} where
  pub require-Triple :
      (b : Bool) (e : Stream2Error) → Triple P (require b e) (λ _ t. P t × (b ≡ true))
  unfolding require
  require-Triple true e = pure-Triple tt (λ t p. (p, refl))
  require-Triple false e = fail-Triple e

  pub get-Triple : Triple P get (λ a t. P t × (a ≡ t))
  unfolding get
  get-Triple = record { run = λ h t p. (p, refl) }

  pub modify-Triple :
      {Q : T → Type 0} (f : T → T) → ((t : T) → P t → Q (f t)) → Triple P (modify f) (λ _. Q)
  unfolding modify
  modify-Triple f x = record { run = λ h t p. x t p }

module _ {T A B : Type 0} {Q : A → T → Type 0} (R : B → T → Type 0) where
  continue-Holds :
      (f : A → M T B)
      → ((a : A) → Triple (Q a) (f a) R)
      → (r : Outcome A) (h : Heap) (t : T) → Holds Q r t
      → Holds R (continue r f h t).0 (continue r f h t).2
  continue-Holds f s (ok a) h t x = (s a).run h t x
  continue-Holds f s (err _) h t x = tt
  continue-Holds f s out_of_fuel h t x = tt

module _ {T A B : Type 0} {P : T → Type 0} {Q : A → T → Type 0} {R : B → T → Type 0} where
  pub bind-Triple :
      {m : M T A} {f : A → M T B}
      → Triple P m Q
      → ((a : A) → Triple (Q a) (f a) R)
      → Triple P (m >>= f) R
  unfolding ◌>>=◌
  bind-Triple {m} {f} s rest = record {
    run = λ h t p. continue-Holds R f rest (m h t).0 (m h t).1 (m h t).2 (s.run h t p);
  }

module _ {T S A : Type 0} (Q : A → S → Type 0) where
  holds_at :
      (f : Field T S)
      → ((s : S) (t : T) → f.view (f.update s t) ≡ s)
      → (r : Outcome A) (s : S) (t : T) → Holds Q r s
      → Holds (λ a t. Q a (f.view t)) r (f.update s t)
  holds_at f law (ok a) s t x = subst (Q a) (sym (law s t)) x
  holds_at f law (err _) s t x = tt
  holds_at f law out_of_fuel s t x = tt

module _ {T S A : Type 0} {P : T → Type 0} {Q : A → S → Type 0} where
  -- What a call makes of a member holds of the member afterwards.
  pub at-Triple :
      (f : Field T S) {m : M S A}
      → ((s : S) (t : T) → f.view (f.update s t) ≡ s)
      → Triple Any m Q
      → Triple P (at f m) (λ a t. Q a (f.view t))
  unfolding at
  at-Triple f {m} law s = record {
    run = λ h t p. holds_at Q f law (m h (f.view t)).0 (m h (f.view t)).2 t (s.run h (f.view t) tt);
  }

module _ {T S A : Type 0} {P : T → Type 0} (Q : A → S → Type 0) (R : A → T → Type 0) where
  holds_update :
      (f : Field T S)
      → ((a : A) (s : S) (t : T) → P t → Q a s → R a (f.update s t))
      → (r : Outcome A) (s : S) (t : T) → P t
      → Holds Q r s
      → Holds R r (f.update s t)
  holds_update f k (ok a) s t p x = k a s t p x
  holds_update f k (err _) s t p x = tt
  holds_update f k out_of_fuel s t p x = tt

  -- What a call makes of a member, and what held before, say what holds afterwards.
  pub update-Triple :
      (f : Field T S) {m : M S A}
      → Triple Any m Q
      → ((a : A) (s : S) (t : T) → P t → Q a s → R a (f.update s t))
      → Triple P (at f m) R
  unfolding at
  update-Triple f {m} s k = record {
    run =
        λ h t p. holds_update f k (m h (f.view t)).0 (m h (f.view t)).2 t p (s.run h (f.view t) tt);
  }

holds_both :
    {T A : Type 0} (Q R : A → T → Type 0) (r : Outcome A) (t : T)
    → Holds Q r t
    → Holds R r t
    → Holds (λ a t. Q a t × R a t) r t
holds_both Q R (ok a) t x y = (x, y)
holds_both Q R (err _) t x y = tt
holds_both Q R out_of_fuel t x y = tt

pub both-Triple :
    {T A : Type 0} {P : T → Type 0} {Q R : A → T → Type 0} (m : M T A)
    → Triple P m Q
    → Triple P m R
    → Triple P m (λ a t. Q a t × R a t)
both-Triple {Q} {R} m s k = record {
  run = λ h t p. holds_both Q R (m h t).0 (m h t).2 (s.run h t p) (k.run h t p);
}

-- The postcondition of a call that has ended well.
pub of_holds :
    {T A : Type 0} (Q : A → T → Type 0) (r : Outcome A) (t : T) (a : A)
    → r ≡ ok a
    → Holds Q r t
    → Q a t
of_holds Q (ok b) t a e x = subst (λ c. Q c t) (ok_injective b a e) x
of_holds Q (err _) t a e x = cc
of_holds Q out_of_fuel t a e x = cc
