-- ===== src/Stream2Api/Owns.antt =====
-- The proof rules for the methods of eigerApp/src/stream2Api.cpp: what the receiver owns on the heap is
-- allocated, so that no call of `free` goes wrong.
pub mod Messages
pub mod Frame
pub mod Calls
use adeiger.Base.{
  ℕ, suc, ◌+◌, ◌≤◌, ◌≡◌, refl, Bool, true, false, Option, none, some, String, List, ◌∷◌, ◌==◌,
  if◌then◌else◌, count, arith, inl,
}
use adeiger.Stream2.Memory.{Heap, CharPtr, Freed, freed, fault, Fault, null_deref, bad_free}
use adeiger.Stream2.Types.{ImageMsg}
use adeiger.Stream2.Sound.Scalars.{text_count}
use adeiger.Stream2.Sound.ValueParts.{sum_blocks, threshold_blocks}
use adeiger.Stream2.Sound.MessageParts.{image_blocks}
use adeiger.Stream2.Sound.Free.{Released, Frees}
use adeiger.Stream2Api.Monad.{
  Crash, heap_fault, overflow, out_of_range, division, unset, Result, ok, crash, out_of_fuel,
  Receiver, M, pure, fail, get, modify, continue, ◌>>=◌, value_or, require, system, after,
  give_back, str_dup,
}

abbrev pub image_count : Option (ℕ × ImageMsg) → ℕ → ℕ
image_count none p = 0
image_count (some (q, m)) p = (if p == q then 1 else 0) + image_blocks.blocks m p

-- How often the receiver owns each block.
abbrev pub owned : {D N : Type 0} → Receiver D N → ℕ → ℕ
owned s p =
    text_count s.image_dtype p
    + sum_blocks threshold_blocks.blocks s.thresholds p
    + image_count s.image p

-- `C` is what the message's parser has checked.
abbrev pub ImageFits : (ImageMsg → Type 0) → Option (ℕ × ImageMsg) → Type 0
ImageFits C none = Unit
ImageFits C (some (q, m)) = image_blocks.Fit m × C m

-- What the receiver owns, and `c` besides, is allocated; and its image is fit to be
-- freed, and as its parser has checked it.
abbrev pub Owns : {D N : Type 0} → (ImageMsg → Type 0) → (ℕ → ℕ) → Receiver D N → Type 0
Owns C c s = ((p : ℕ) → owned s p + c p ≤ count p s.heap.live) × ImageFits C s.image

abbrev pub nothing : ℕ → ℕ
nothing p = 0

-- Not a `free` of what is not allocated.
abbrev pub IsOther : Crash → Type 0
IsOther (heap_fault null_deref) = Unit
IsOther (heap_fault (bad_free p)) = ⊥
IsOther overflow = Unit
IsOther out_of_range = Unit
IsOther division = Unit
IsOther unset = Unit

abbrev pub Good : {S A : Type 0} → (A → S → Type 0) → Result A → S → Type 0
Good Q (ok a) s = Q a s
Good Q (crash c) s = IsOther c
Good Q out_of_fuel s = ⊥

-- From a state that satisfies `P`, `m` comes to an end as `Q` says, or with a crash that is no wrong
-- call of `free`.
pub record Safe {S A : Type 0} (P : S → Type 0) (m : M S A) (Q : A → S → Type 0) : Type 0 where
  pub run : (s : S) → P s → Good Q (m s).0 (m s).1

module _ {S A : Type 0} {P : S → Type 0} {Q : A → S → Type 0} where
  pub pure-Safe : (a : A) → ((s : S) → P s → Q a s) → Safe P (pure a) Q
  unfolding pure
  pure-Safe a f = record { run = f }

  pub fail-Safe : (c : Crash) → IsOther c → Safe P (fail c) Q
  unfolding fail
  fail-Safe c x = record { run = λ s p. x }

  pub if-Safe : (b : Bool) {m n : M S A} → Safe P m Q → Safe P n Q → Safe P (if b then m else n) Q
  if-Safe true s t = s
  if-Safe false s t = t

good_weaken :
    {S A : Type 0} (R Q : A → S → Type 0)
    → ((a : A) (s : S) → R a s → Q a s)
    → (r : Result A) (s : S) → Good R r s
    → Good Q r s
good_weaken R Q f (ok a) s x = f a s x
good_weaken R Q f (crash c) s x = x
good_weaken R Q f out_of_fuel s x = x

pub weaken-Safe :
    {S A : Type 0} {P : S → Type 0} {R Q : A → S → Type 0} {m : M S A}
    → Safe P m R
    → ((a : A) (s : S) → R a s → Q a s)
    → Safe P m Q
weaken-Safe {R} {Q} {m} k f = record { run = λ s p. good_weaken R Q f (m s).0 (m s).1 (k.run s p) }

module _ {S : Type 0} {P : S → Type 0} where
  pub get-Safe : Safe P get (λ a s. P s × (a ≡ s))
  unfolding get
  get-Safe = record { run = λ s p. (p, refl) }

  pub modify-Safe :
      {Q : S → Type 0} (f : S → S) → ((s : S) → P s → Q (f s)) → Safe P (modify f) (λ _. Q)
  unfolding modify
  modify-Safe f x = record { run = x }

  pub value-Safe :
      {A : Type 0} (c : Crash) → IsOther c → (v : Option A) → Safe P (value_or c v) (λ _. P)
  unfolding value_or
  value-Safe c x none = fail-Safe c x
  value-Safe c x (some a) = pure-Safe a (λ s p. p)

  pub require-Safe : (b : Bool) (c : Crash) → IsOther c → Safe P (require b c) (λ _. P)
  unfolding require
  require-Safe b c x = if-Safe b (pure-Safe tt (λ s p. p)) (fail-Safe c x)

module _ {S A B : Type 0} {Q : A → S → Type 0} {R : B → S → Type 0} where
  continue-Good :
      {f : A → M S B}
      → ((a : A) → Safe (Q a) (f a) R)
      → (r : Result A) (s : S) → Good Q r s
      → Good R (continue r f s).0 (continue r f s).1
  continue-Good k (ok a) s x = (k a).run s x
  continue-Good k (crash c) s x = x
  continue-Good k out_of_fuel s x = x

  pub bind-Safe :
      {P : S → Type 0} {m : M S A} {f : A → M S B}
      → Safe P m Q
      → ((a : A) → Safe (Q a) (f a) R)
      → Safe P (m >>= f) R
  unfolding ◌>>=◌
  bind-Safe {P} {m} k rest = record { run = λ s p. continue-Good rest (m s).0 (m s).1 (k.run s p) }

module _ {D N : Type 0} where
  -- A call of the network or of the pool keeps what is owned.
  pub system-Safe :
      {A : Type 0} (C : ImageMsg → Type 0) (c : ℕ → ℕ) (f : N → A × N)
      → Safe {S = Receiver D N} (Owns C c) (system f) (λ _. Owns C c)
  unfolding system
  system-Safe C c f = record { run = λ s x. x }

  module _ {P : Receiver D N → Type 0} (Q : Receiver D N → Type 0) (c : ℕ → ℕ)
      (allocated : (s : Receiver D N) → P s → (p : ℕ) → c p ≤ count p s.heap.live)
      (kept : (s : Receiver D N) (h : Heap)
        → P s
        → ((p : ℕ) → count p h.live + c p ≡ count p s.heap.live)
        → Q (record s { heap = h })) where
    after-Good :
        (s : Receiver D N)
        → P s
        → (r : Freed) → Released Unit c s.heap r
        → Good (λ (_ : Unit {0}). Q) (after r s).0 (after r s).1
    after-Good s x (freed h) y = kept s h x y
    after-Good s x (fault null_deref) y = tt
    after-Good s x (fault (bad_free p)) y = y

    pub give_back-Safe :
        (f : Heap → Freed) → Frees Unit c f → Safe P (give_back f) (λ (_ : Unit {0}). Q)
    unfolding give_back
    give_back-Safe f frees = record {
      run = λ s x. after-Good s x (f s.heap) (frees.run s.heap (allocated s x));
    }

  -- A copy of a text is a block of its own.
  pub str_dup-Safe :
      (C : ImageMsg → Type 0) (c : ℕ → ℕ) (t : CharPtr)
      → Safe {S = Receiver D N} (Owns C c) (str_dup t) (λ t'. Owns C (λ p. c p + text_count t' p))
  unfolding str_dup
  str_dup-Safe C c none = record { run = λ s x. tt }
  str_dup-Safe C c (some (q, text)) = record { run = λ s x. (λ p. omega (arith, x.0 p), x.1) }
