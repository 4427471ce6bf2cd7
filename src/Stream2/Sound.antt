-- ===== src/Stream2/Sound.antt =====
-- The proof rules for the functions of eigerApp/src/stream2.c: what a structure owns on the heap is
-- allocated, whether a call ends well or not, and no loop runs out of its fuel.
pub mod Scalars
pub mod Arrays
pub mod ValueParts
pub mod Values
pub mod StartParts
pub mod MessageParts
pub mod Messages
pub mod Free
pub mod Parse
use adeiger.Base.{
  ℕ, zero, suc, ◌+◌, ◌-◌, ◌≤◌, ◌≡◌, refl, Bool, true, false, arith, count, if◌then◌else◌,
}
use adeiger.Cbor.{Reply, done, failed}
use adeiger.Stream2.Memory.{Heap}
use adeiger.Stream2.Types.{Stream2Error}
use adeiger.Stream2.Monad.{
  M, Outcome, ok, err, out_of_fuel, pure, fail, reply, require, get, modify, continue, ◌>>=◌, Field,
  at, with_variable, local,
}
use adeiger.Stream2.Scalars.{for_each}

-- How often a structure owns each block, and when it can be freed: `NULL` with a length above 0 can
-- not.
pub record Owner (T : Type 0) : Type 1 where
  pub blocks : T → ℕ → ℕ
  pub Fit : T → Type 0

abbrev pub no_blocks : {T : Type 0} → Owner T
no_blocks = record { blocks = λ t p. 0; Fit = λ t. Unit }

abbrev pub Ends : {A : Type 0} → (A → Type 0) → Outcome A → Type 0
Ends Q (ok a) = Q a
Ends Q (err e) = Unit
Ends Q out_of_fuel = ⊥

abbrev pub Fits : {T A : Type 0} → (T → Type 0) → Outcome A → T → Type 0
Fits F (ok a) t = F t
Fits F (err e) t = Unit
Fits F out_of_fuel t = Unit

-- Every block that the structure owns, and every further one of `b` copies, is still allocated
-- when `m` is over; `m` is over, with a result as `Q` says or with an error; and in the first case
-- the structure is fit to be freed if it was before.
pub record Sound {T A : Type 0} (o : Owner T) (Q : A → Type 0) (m : M T A) : Type 0 where
  pub keeps :
      (h : Heap) (t : T) (p b : ℕ)
      → o.blocks t p + b ≤ count p h.live
      → o.blocks (m h t).2 p + b ≤ count p (m h t).1.live
  pub ends : (h : Heap) (t : T) → Ends Q (m h t).0
  pub fits : (h : Heap) (t : T) → o.Fit t → Fits o.Fit (m h t).0 (m h t).2

module _ {T A : Type 0} {o : Owner T} where
  pub pure-Sound : {Q : A → Type 0} (a : A) → Q a → Sound o Q (pure a)
  unfolding pure
  pure-Sound a q = record { keeps = λ h t p b k. k; ends = λ h t. q; fits = λ h t f. f }

  pub fail-Sound : {Q : A → Type 0} (e : Stream2Error) → Sound o Q (fail e)
  unfolding fail
  fail-Sound e = record { keeps = λ h t p b k. k; ends = λ h t. tt; fits = λ h t f. tt }

  pub reply-Sound :
      {Q : A → Type 0} (r : Reply A) → ((a : A) → r ≡ done a → Q a) → Sound o Q (reply r)
  unfolding reply
  reply-Sound (done a) q = pure-Sound a (q a refl)
  reply-Sound (failed e) q = fail-Sound _

  pub any-Sound : (r : Reply A) → Sound o (λ _. Unit {0}) (reply r)
  any-Sound r = reply-Sound r (λ a e. tt)

  pub weaken-Sound :
      {P Q : A → Type 0} {m : M T A} → Sound o P m → ((a : A) → P a → Q a) → Sound o Q m
  weaken-Sound {P} {Q} {m} s f = record {
    keeps = s.keeps;
    ends = λ h t. go (m h t).0 (s.ends h t);
    fits = s.fits;
  }
    where
      go : (r : Outcome A) → Ends P r → Ends Q r
      go (ok a) e = f a e
      go (err _) e = tt
      go out_of_fuel e = e

module _ {T : Type 0} {o : Owner T} where
  pub require-Sound : (b : Bool) (e : Stream2Error) → Sound o (λ _. Unit {0}) (require b e)
  unfolding require
  require-Sound true e = pure-Sound tt tt
  require-Sound false e = fail-Sound e

  pub get-Sound : Sound o (λ _. Unit {0}) get
  unfolding get
  get-Sound = record { keeps = λ h t p b k. k; ends = λ h t. tt; fits = λ h t f. f }

  pub modify-Sound :
      (f : T → T)
      → ((t : T) (p : ℕ) → o.blocks (f t) p ≤ o.blocks t p)
      → ((t : T) → o.Fit t → o.Fit (f t))
      → Sound o (λ _. Unit {0}) (modify f)
  unfolding modify
  modify-Sound f le fit = record {
    keeps = λ h t p b k. omega (arith, le t p);
    ends = λ h t. tt;
    fits = λ h t x. fit t x;
  }

  module _ {A B : Type 0} {P : A → Type 0} {Q : B → Type 0} (f : A → M T B)
      (rest : (a : A) → P a → Sound o Q (f a)) where
    continue-keeps :
        (r : Outcome A) (h : Heap) (t : T) (p b : ℕ)
        → Ends P r
        → o.blocks t p + b ≤ count p h.live
        → o.blocks (continue r f h t).2 p + b ≤ count p (continue r f h t).1.live
    continue-keeps (ok a) h t p b e k = (rest a e).keeps h t p b k
    continue-keeps (err _) h t p b e k = k
    continue-keeps out_of_fuel h t p b e k = k

    continue-Ends : (r : Outcome A) (h : Heap) (t : T) → Ends P r → Ends Q (continue r f h t).0
    continue-Ends (ok a) h t e = (rest a e).ends h t
    continue-Ends (err _) h t e = tt
    continue-Ends out_of_fuel h t e = e

    continue-Fits :
        (r : Outcome A) (h : Heap) (t : T)
        → Ends P r
        → Fits o.Fit r t
        → Fits o.Fit (continue r f h t).0 (continue r f h t).2
    continue-Fits (ok a) h t e x = (rest a e).fits h t x
    continue-Fits (err _) h t e x = tt
    continue-Fits out_of_fuel h t e x = tt

  pub bind-Sound :
      {A B : Type 0} {P : A → Type 0} {Q : B → Type 0} {m : M T A} {f : A → M T B}
      → Sound o P m
      → ((a : A) → P a → Sound o Q (f a))
      → Sound o Q (m >>= f)
  unfolding ◌>>=◌
  bind-Sound {m} {f} s rest = record {
    keeps = λ h t p b k.
        continue-keeps f rest (m h t).0 (m h t).1 (m h t).2 p b (s.ends h t) (s.keeps h t p b k);
    ends = λ h t. continue-Ends f rest (m h t).0 (m h t).1 (m h t).2 (s.ends h t);
    fits = λ h t x. continue-Fits f rest (m h t).0 (m h t).1 (m h t).2 (s.ends h t) (s.fits h t x);
  }

  pub if-Sound :
      {A : Type 0} {Q : A → Type 0} (b : Bool) {m n : M T A}
      → Sound o Q m
      → Sound o Q n
      → Sound o Q (if b then m else n)
  if-Sound true s t = s
  if-Sound false s t = t

-- A member owns a part of its structure's blocks, and a new value of it brings no others.
pub record IsPart {T S : Type 0} (o : Owner T) (o' : Owner S) (f : Field T S) : Type 0 where
  pub within : (t : T) (p : ℕ) → o'.blocks (f.view t) p ≤ o.blocks t p
  pub swap :
      (t : T) (s : S) (p : ℕ)
      → o.blocks (f.update s t) p + o'.blocks (f.view t) p ≤ o.blocks t p + o'.blocks s p
  pub fit_view : (t : T) → o.Fit t → o'.Fit (f.view t)
  pub fit_update : (t : T) (s : S) → o.Fit t → o'.Fit s → o.Fit (f.update s t)

keep_at :
    (old new whole whole' live live' b : ℕ)
    → old ≤ whole
    → whole' + old ≤ whole + new
    → ((c : ℕ) → old + c ≤ live → new + c ≤ live')
    → whole + b ≤ live
    → whole' + b ≤ live'
keep_at old new whole whole' live live' b w sw kp k =
    omega (arith, kp (whole + b - old) (omega arith))

Fits-at :
    {T S A : Type 0} (F : S → Type 0) (G : T → Type 0) (s : S) (t : T)
    → (F s → G t)
    → (r : Outcome A) → Fits F r s
    → Fits G r t
Fits-at F G s t f (ok a) x = f x
Fits-at F G s t f (err _) x = tt
Fits-at F G s t f out_of_fuel x = tt

Fits-with :
    {T S A : Type 0} (F : T → Type 0) (r : Outcome A) (s : S) (t : T)
    → F t
    → Fits F (with_variable r s) t
Fits-with F (ok a) s t x = x
Fits-with F (err _) s t x = tt
Fits-with F out_of_fuel s t x = tt

Ends-with :
    {S A : Type 0} (Q : A → Type 0) (r : Outcome A) (s : S)
    → Ends Q r
    → Ends (λ (r : A × S). Q r.0) (with_variable r s)
Ends-with Q (ok a) s e = e
Ends-with Q (err _) s e = e
Ends-with Q out_of_fuel s e = e

module _ {T S A : Type 0} {o : Owner T} {Q : A → Type 0} where
  pub at-Sound :
      {o' : Owner S} {f : Field T S} {m : M S A} → IsPart o o' f → Sound o' Q m → Sound o Q (at f m)
  unfolding at
  at-Sound {o'} {f} {m} part s = record {
    keeps = λ h t p b k.
        keep_at (o'.blocks (f.view t) p) (o'.blocks (m h (f.view t)).2 p) (o.blocks t p)
          (o.blocks (f.update (m h (f.view t)).2 t) p) (count p h.live)
          (count p (m h (f.view t)).1.live) b (part.within t p) (part.swap t (m h (f.view t)).2 p)
          (s.keeps h (f.view t) p) k;
    ends = λ h t. s.ends h (f.view t);
    fits = λ h t x.
        Fits-at o'.Fit o.Fit (m h (f.view t)).2 (f.update (m h (f.view t)).2 t)
          (part.fit_update t (m h (f.view t)).2 x) (m h (f.view t)).0
          (s.fits h (f.view t) (part.fit_view t x));
  }

  pub local-Sound :
      (init : S) {m : M S A} → Sound no_blocks Q m → Sound o (λ (r : A × S). Q r.0) (local init m)
  unfolding local
  local-Sound init {m} s = record {
    keeps = λ h t p b k. omega (arith, s.keeps h init p (o.blocks t p + b) (omega arith));
    ends = λ h t. Ends-with Q (m h init).0 (m h init).2 (s.ends h init);
    fits = λ h t x. Fits-with o.Fit (m h init).0 (m h init).2 t x;
  }

-- The body of a `for` loop may rely on the bound `n` on the iterator that it is given.
pub for_each-Sound :
    {T V : Type 0} {o : Owner T} (Good : V → Type 0) (body : ℕ → V → M T V)
    → ((i : ℕ) (it : V) → Good it → Sound o Good (body i it))
    → (len i : ℕ) (it : V) → Good it
    → Sound o Good (for_each len i body it)
unfolding for_each
for_each-Sound Good body step zero i it g = pure-Sound it g
for_each-Sound Good body step (suc len) i it g =
    bind-Sound (step i it g) (λ it' g'. for_each-Sound Good body step len (suc i) it' g')
