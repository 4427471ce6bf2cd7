-- ===== src/Stream2/Sound/ValueParts.antt =====
-- Which blocks the arrays, channels and thresholds of eigerApp/src/stream2.c own, and that the members
-- of goniometers, channels and thresholds are parts of them.
use adeiger.Base.{
  ℕ, zero, suc, ◌+◌, ◌≤◌, ◌≡◌, refl, Option, none, some, List, [], ◌∷◌, arith, get_or, set,
  replicate, ◌==◌, if◌then◌else◌,
}
use adeiger.Stream2.Memory.{Ptr}
use adeiger.Stream2.Types.{HeapArray, ChannelArray, ThresholdEnergy}
use adeiger.Stream2.Values.{
  item, coordinate, axis_increment, axis_start, gonio_chi, gonio_kappa, gonio_omega_axis, gonio_phi,
  gonio_two_theta, entry_channel, entry_array, threshold_channel, threshold_energy,
}
use adeiger.Stream2.Sound.{Owner, no_blocks, IsPart}
use adeiger.Stream2.Sound.Scalars.{text_count, text_blocks}
use adeiger.Stream2.Sound.Arrays.{multidim_blocks}

abbrev pub sum_blocks : {A : Type 0} → (A → ℕ → ℕ) → List A → ℕ → ℕ
sum_blocks o [] p = 0
sum_blocks o (a ∷ items) p = o a p + sum_blocks o items p

-- The array's own block and those of its elements, which `NULL` does not reach.
abbrev pub array_count : {A : Type 0} → (A → ℕ → ℕ) → Ptr → List A → ℕ → ℕ
array_count o none items p = 0
array_count o (some q) items p = (if p == q then 1 else 0) + sum_blocks o items p

abbrev pub ArrayFits : {A : Type 0} → Ptr → List A → Type 0
ArrayFits (some q) items = Unit
ArrayFits none [] = Unit
ArrayFits none (a ∷ items) = ⊥

abbrev pub array_blocks : {A : Type 0} → Owner A → Owner (HeapArray A)
array_blocks o = record {
  blocks = λ a p. array_count o.blocks a.ptr a.items p;
  Fit = λ a. ArrayFits a.ptr a.items;
}

abbrev pub channel_blocks : Owner ChannelArray
channel_blocks = record {
  blocks = λ c p. text_count c.channel p + multidim_blocks.blocks c.array p;
  Fit = λ c. Unit;
}

abbrev pub threshold_blocks : {D : Type 0} → Owner (ThresholdEnergy D)
threshold_blocks = record { blocks = λ t. text_count t.channel; Fit = λ t. Unit }

module _ {A : Type 0} (o : Owner A) (blank : A) (empty : (p : ℕ) → o.blocks blank p ≡ 0)
    (fit : (a : A) → o.Fit a) where
  get_or-le :
      (items : List A) (i p : ℕ) → o.blocks (get_or items i blank) p ≤ sum_blocks o.blocks items p
  get_or-le [] i p = omega (arith, empty p)
  get_or-le (a ∷ items) zero p = omega arith
  get_or-le (a ∷ items) (suc i) p = omega (arith, get_or-le items i p)

  set-le :
      (items : List A) (i : ℕ) (a : A) (p : ℕ)
      → sum_blocks o.blocks (set items i a) p + o.blocks (get_or items i blank) p
        ≤ sum_blocks o.blocks items p + o.blocks a p
  set-le [] i a p = omega (arith, empty p)
  set-le (b ∷ items) zero a p = omega arith
  set-le (b ∷ items) (suc i) a p = omega (arith, set-le items i a p)

  pub replicate-blocks : (n p : ℕ) → sum_blocks o.blocks (replicate n blank) p ≡ 0
  replicate-blocks zero p = refl
  replicate-blocks (suc n) p = omega (arith, empty p, replicate-blocks n p)

  item_within :
      (ptr : Option ℕ) (items : List A) (i p : ℕ)
      → o.blocks ((item blank i).view (record { ptr = ptr; items = items })) p
        ≤ array_count o.blocks ptr items p
  item_within none items i p = omega (arith, empty p)
  item_within (some q) items i p = omega (arith, get_or-le items i p)

  item_swap :
      (ptr : Option ℕ) (items : List A) (i : ℕ) (a : A) (p : ℕ)
      → array_count o.blocks ptr (set items i a) p
          + o.blocks ((item blank i).view (record { ptr = ptr; items = items })) p
        ≤ array_count o.blocks ptr items p + o.blocks a p
  item_swap none items i a p = omega (arith, empty p)
  item_swap (some q) items i a p = omega (arith, set-le items i a p)

  item_fits :
      (ptr : Ptr) (items : List A) (i : ℕ) (a : A)
      → ArrayFits ptr items
      → ArrayFits ptr (set items i a)
  item_fits (some q) items i a x = tt
  item_fits none [] i a x = tt
  item_fits none (b ∷ items) i a x = absurd x

  pub item-IsPart : (i : ℕ) → IsPart (array_blocks o) o (item blank i)
  item-IsPart i = record {
    within = λ t p. item_within t.ptr t.items i p;
    swap = λ t s p. item_swap t.ptr t.items i s p;
    fit_view = λ t x. fit _;
    fit_update = λ t s x y. item_fits t.ptr t.items i s x;
  }

pub coordinate-IsPart : {D : Type 0} (d : D) (i : ℕ) → IsPart no_blocks no_blocks (coordinate d i)
coordinate-IsPart d i = record {
  within = λ t p. omega arith;
  swap = λ t s p. omega arith;
  fit_view = λ t x. tt;
  fit_update = λ t s x y. x;
}

pub axis_increment-IsPart : {D : Type 0} → IsPart no_blocks no_blocks (axis_increment {D = D})
axis_increment-IsPart = record {
  within = λ t p. omega arith;
  swap = λ t s p. omega arith;
  fit_view = λ t x. tt;
  fit_update = λ t s x y. x;
}

pub axis_start-IsPart : {D : Type 0} → IsPart no_blocks no_blocks (axis_start {D = D})
axis_start-IsPart = record {
  within = λ t p. omega arith;
  swap = λ t s p. omega arith;
  fit_view = λ t x. tt;
  fit_update = λ t s x y. x;
}

pub chi-IsPart : {D : Type 0} → IsPart no_blocks no_blocks (gonio_chi {D = D})
chi-IsPart = record {
  within = λ t p. omega arith;
  swap = λ t s p. omega arith;
  fit_view = λ t x. tt;
  fit_update = λ t s x y. x;
}

pub kappa-IsPart : {D : Type 0} → IsPart no_blocks no_blocks (gonio_kappa {D = D})
kappa-IsPart = record {
  within = λ t p. omega arith;
  swap = λ t s p. omega arith;
  fit_view = λ t x. tt;
  fit_update = λ t s x y. x;
}

pub omega_axis-IsPart : {D : Type 0} → IsPart no_blocks no_blocks (gonio_omega_axis {D = D})
omega_axis-IsPart = record {
  within = λ t p. omega arith;
  swap = λ t s p. omega arith;
  fit_view = λ t x. tt;
  fit_update = λ t s x y. x;
}

pub phi-IsPart : {D : Type 0} → IsPart no_blocks no_blocks (gonio_phi {D = D})
phi-IsPart = record {
  within = λ t p. omega arith;
  swap = λ t s p. omega arith;
  fit_view = λ t x. tt;
  fit_update = λ t s x y. x;
}

pub two_theta-IsPart : {D : Type 0} → IsPart no_blocks no_blocks (gonio_two_theta {D = D})
two_theta-IsPart = record {
  within = λ t p. omega arith;
  swap = λ t s p. omega arith;
  fit_view = λ t x. tt;
  fit_update = λ t s x y. x;
}

pub entry_channel-IsPart : IsPart channel_blocks text_blocks entry_channel
entry_channel-IsPart = record {
  within = λ t p. omega arith;
  swap = λ t s p. omega arith;
  fit_view = λ t x. tt;
  fit_update = λ t s x y. x;
}

pub entry_array-IsPart : IsPart channel_blocks multidim_blocks entry_array
entry_array-IsPart = record {
  within = λ t p. omega arith;
  swap = λ t s p. omega arith;
  fit_view = λ t x. tt;
  fit_update = λ t s x y. x;
}

pub threshold_channel-IsPart :
    {D : Type 0} → IsPart threshold_blocks text_blocks (threshold_channel {D = D})
threshold_channel-IsPart = record {
  within = λ t p. omega arith;
  swap = λ t s p. omega arith;
  fit_view = λ t x. tt;
  fit_update = λ t s x y. x;
}

pub threshold_energy-IsPart :
    {D : Type 0} → IsPart threshold_blocks no_blocks (threshold_energy {D = D})
threshold_energy-IsPart = record {
  within = λ t p. omega arith;
  swap = λ t s p. omega arith;
  fit_view = λ t x. tt;
  fit_update = λ t s x y. x;
}
