-- ===== src/Stream2/Memory.antt =====
-- The C heap as far as eigerApp/src/stream2.c uses it: `malloc`, `calloc` and `free`. A block is
-- known by its serial number, so no number is handed out twice.
use adeiger.Base.{
  ℕ, suc, Bool, true, false, Option, none, some, String, List, [], ◌∷◌, ◌==◌, if◌then◌else◌,
}

pub record Heap : Type 0 where
  pub next : ℕ
  pub live : List ℕ

-- A pointer to a block, or `NULL`.
abbrev pub Ptr : Type 0
Ptr = Option ℕ

-- A `char *` with the text in its block.
abbrev pub CharPtr : Type 0
CharPtr = Option (ℕ × String)

abbrev pub block : CharPtr → Ptr
block none = none
block (some (p, _)) = some p

-- `malloc` and `calloc`: the environment decides whether the allocation is granted.
unfoldable pub malloc : (ℕ → Bool) → Heap → Ptr × Heap
malloc grants h =
    if grants h.next
    then (some h.next, record { next = suc h.next; live = h.next ∷ h.live })
    else (none, record { next = suc h.next; live = h.live })

pub data Fault : Type 0 where
  -- `free` of a block that is not allocated
  bad_free : ℕ → Fault
  -- a read through `NULL`
  null_deref : Fault

pub data Freed : Type 0 where
  freed : Heap → Freed
  fault : Fault → Freed

abbrev pub remove : ℕ → List ℕ → List ℕ
remove p [] = []
remove p (q ∷ ps) = if p == q then ps else q ∷ remove p ps

abbrev pub contains : ℕ → List ℕ → Bool
contains p [] = false
contains p (q ∷ ps) = if p == q then true else contains p ps

-- `free`, which ignores `NULL`.
unfoldable pub free : Ptr → Heap → Freed
free none h = freed h
free (some p) h =
    if contains p h.live then freed (record h { live = remove p h.live }) else fault (bad_free p)

infixl 5 ◌>>◌
-- One call of `free` after the other.
unfoldable pub ◌>>◌ : (Heap → Freed) → (Heap → Freed) → Heap → Freed
◌>>◌ m k h = elim (m h) [ freed h' ↦ k h' | fault f ↦ fault f ]
