-- ===== src/Stream2/Sound/Free.antt =====
-- `stream2_free_msg` of eigerApp/src/stream2.c gives back exactly what the message owns.
use adeiger.Base.{
  ℕ, suc, ◌+◌, ◌≤◌, ◌≡◌, ◌⊎◌, inl, inr, true, none, some, List, [], ◌∷◌, arith, count, ◌==◌,
  if◌then◌else◌,
}
use adeiger.Stream2.Memory.{
  Ptr, CharPtr, block, Heap, Freed, freed, fault, null_deref, bad_free, remove, contains, free,
  ◌>>◌,
}
use adeiger.Stream2.Types.{HeapArray, ChannelArray, StartMsg, ImageMsg, Msg}
use adeiger.Stream2.Free.{
  free_each, free_items, free_channel_array, free_start_msg, free_image_msg, stream2_free_msg,
}
use adeiger.Stream2.Sound.{Owner}
use adeiger.Stream2.Sound.Scalars.{text_count}
use adeiger.Stream2.Sound.ValueParts.{
  sum_blocks, array_count, ArrayFits, channel_blocks, threshold_blocks,
}
use adeiger.Stream2.Sound.StartParts.{start_blocks}
use adeiger.Stream2.Sound.MessageParts.{image_blocks, end_blocks}

-- The blocks `c` have been given back and no others. `N` says whether a read through `NULL` is
-- allowed for.
abbrev pub Released : Type 0 → (ℕ → ℕ) → Heap → Freed → Type 0
Released N c h (freed h') = (p : ℕ) → count p h'.live + c p ≡ count p h.live
Released N c h (fault null_deref) = N
Released N c h (fault (bad_free p)) = ⊥

-- `m` gives back the blocks `c`, where they are allocated.
pub record Frees (N : Type 0) (c : ℕ → ℕ) (m : Heap → Freed) : Type 0 where
  pub run : (h : Heap) → ((p : ℕ) → c p ≤ count p h.live) → Released N c h (m h)

contains_of_count : (p : ℕ) (l : List ℕ) → 1 ≤ count p l → contains p l ≡ true
contains_of_count p [] h = absurd (omega arith)
contains_of_count p (q ∷ l) h = ground (arith, contains_of_count p l)

count-remove :
    (p q : ℕ) (l : List ℕ)
    → contains q l ≡ true
    → count p (remove q l) + (if p == q then 1 else 0) ≡ count p l
count-remove p q [] h = cc
count-remove p q (r ∷ l) h = ground (arith, count-remove p q l)

count_self : (p : ℕ) → (if p == p then 1 else 0) ≡ suc 0
count_self p = ground arith

shift_released :
    (N : Type 0) (c d : ℕ → ℕ) (h h' : Heap)
    → ((p : ℕ) → count p h'.live + c p ≡ count p h.live)
    → (r : Freed) → Released N d h' r
    → Released N (λ p. c p + d p) h r
shift_released N c d h h' x (freed h'') y = λ p. omega (arith, x p, y p)
shift_released N c d h h' x (fault null_deref) y = y
shift_released N c d h h' x (fault (bad_free p)) y = y

then_released :
    (N : Type 0) (c d : ℕ → ℕ) (k : Heap → Freed) (h : Heap)
    → Frees N d k
    → ((p : ℕ) → c p + d p ≤ count p h.live)
    → (r : Freed) → Released N c h r
    → Released N (λ p. c p + d p) h (elim r [ freed h' ↦ k h' | fault f ↦ fault f ])
then_released N c d k h g le (freed h') x =
    shift_released N c d h h' x (k h') (g.run h' (λ p. omega (arith, x p, le p)))
then_released N c d k h g le (fault null_deref) x = x
then_released N c d k h g le (fault (bad_free p)) x = x

module _ {N : Type 0} where
  pub freed-Frees : Frees N (λ p. 0) freed
  freed-Frees = record { run = λ h k p. omega arith }

  pub free_block-Frees : (q : ℕ) → Frees N (λ p. if p == q then 1 else 0) (free (some q))
  unfolding free
  free_block-Frees q = record {
    run = λ h k.
        let found = contains_of_count q h.live (omega (arith, k q, count_self q)) in
        rw found (λ p. count-remove p q h.live found);
  }

  pub free_text-Frees : (t : CharPtr) → Frees N (text_count t) (free (block t))
  unfolding free
  free_text-Frees none = freed-Frees
  free_text-Frees (some (q, s)) = free_block-Frees q

  pub same-Frees :
      {c d : ℕ → ℕ} {m : Heap → Freed} → ((p : ℕ) → c p ≡ d p) → Frees N c m → Frees N d m
  same-Frees {c} {d} {m} e f = record {
    run = λ h k. go h (m h) (f.run h (λ p. omega (arith, k p, e p)));
  }
    where
      go : (h : Heap) (r : Freed) → Released N c h r → Released N d h r
      go h (freed h') x = λ p. omega (arith, x p, e p)
      go h (fault null_deref) x = x
      go h (fault (bad_free p)) x = x

  pub then-Frees :
      {c d : ℕ → ℕ} {m k : Heap → Freed}
      → Frees N c m
      → Frees N d k
      → Frees N (λ p. c p + d p) (m >> k)
  unfolding ◌>>◌
  then-Frees {c} {d} {m} {k} f g = record {
    run = λ h le. then_released N c d k h g le (m h) (f.run h (λ p. omega (arith, le p)));
  }

  pub free_each-Frees :
      {A : Type 0} (o : A → ℕ → ℕ) (free_item : A → Heap → Freed)
      → ((a : A) → Frees N (o a) (free_item a))
      → (items : List A) → Frees N (sum_blocks o items) (free_each free_item items)
  unfolding free_each
  free_each-Frees o free_item f [] = freed-Frees
  free_each-Frees o free_item f (a ∷ items) = then-Frees (f a) (free_each-Frees o free_item f items)

  pub free_items-Frees :
      {A : Type 0} (o : A → ℕ → ℕ) (free_item : A → Heap → Freed)
      → ((a : A) → Frees N (o a) (free_item a))
      → (ptr : Ptr) (items : List A) → ArrayFits ptr items ⊎ N
      → Frees N
          (array_count o ptr items)
          (free_items free_item (record { ptr = ptr; items = items }))
  unfolding free_items
  free_items-Frees o free_item f (some q) items x =
      same-Frees (λ p. omega arith)
        (then-Frees (free_each-Frees o free_item f items) (free_block-Frees q))
  free_items-Frees o free_item f none [] x = freed-Frees
  free_items-Frees o free_item f none (a ∷ items) (inl x) = absurd x
  free_items-Frees o free_item f none (a ∷ items) (inr n) = record { run = λ h k. n }

  free_channel_array-Frees :
      (c : ChannelArray) → Frees N (channel_blocks.blocks c) (free_channel_array c)
  free_channel_array-Frees c = then-Frees (free_text-Frees c.channel) (free_text-Frees _)

  weaken_fit : {A B : Type 0} → (A → B) → A ⊎ N → B ⊎ N
  weaken_fit f (inl a) = inl (f a)
  weaken_fit f (inr n) = inr n

  free_start_msg-Frees :
      {D : Type 0} (m : StartMsg D)
      → start_blocks.Fit m ⊎ N
      → Frees N (λ p. start_blocks.blocks m p) (free_start_msg m >> free (block m.series_unique_id))
  unfolding free_start_msg
  free_start_msg-Frees m fit =
      let array = λ (a : HeapArray ChannelArray) (x : ArrayFits a.ptr a.items ⊎ N).
        free_items-Frees channel_blocks.blocks free_channel_array free_channel_array-Frees a.ptr
          a.items x in
      same-Frees (λ p. omega arith)
        (then-Frees
          (then-Frees
            (then-Frees
              (then-Frees
                (then-Frees
                  (then-Frees
                    (then-Frees
                      (then-Frees
                        (then-Frees
                          (then-Frees (free_text-Frees m.arm_date) (
                            free_items-Frees text_count _ free_text-Frees m.channels.ptr
                              m.channels.items (weaken_fit (λ x. x.0) fit)))
                          (free_text-Frees _))
                        (free_text-Frees m.detector_description))
                      (free_text-Frees m.detector_serial_number))
                    (array m.flatfield (weaken_fit (λ x. x.1) fit)))
                  (free_text-Frees m.image_dtype))
                (array m.pixel_mask (weaken_fit (λ x. x.2) fit)))
              (free_text-Frees m.sensor_material))
            (free_items-Frees threshold_blocks.blocks _ (λ t. free_text-Frees t.channel)
              m.threshold_energy.ptr m.threshold_energy.items (weaken_fit (λ x. x.3) fit)))
          (free_text-Frees m.series_unique_id))

  free_image_msg-Frees :
      (m : ImageMsg)
      → image_blocks.Fit m ⊎ N
      → Frees N (λ p. image_blocks.blocks m p) (free_image_msg m >> free (block m.series_unique_id))
  unfolding free_image_msg
  free_image_msg-Frees m fit =
      same-Frees (λ p. omega arith)
        (then-Frees
          (then-Frees (free_text-Frees m.series_date) (
            free_items-Frees channel_blocks.blocks free_channel_array free_channel_array-Frees
              m.channel_data.ptr m.channel_data.items fit))
          (free_text-Frees m.series_unique_id))

-- What a message owns, its own block first.
abbrev pub msg_count : {D : Type 0} → Msg D → ℕ → ℕ
msg_count Msg.null p = 0
msg_count (Msg.start q m) p = (if p == q then 1 else 0) + start_blocks.blocks m p
msg_count (Msg.image q m) p = (if p == q then 1 else 0) + image_blocks.blocks m p
msg_count (Msg.end q m) p = (if p == q then 1 else 0) + end_blocks.blocks m p

-- No array of the message is `NULL` with a length above 0.
abbrev pub MsgFits : {D : Type 0} → Msg D → Type 0
MsgFits Msg.null = Unit
MsgFits (Msg.start q m) = start_blocks.Fit m
MsgFits (Msg.image q m) = image_blocks.Fit m
MsgFits (Msg.end q m) = Unit

abbrev pub msg_blocks : {D : Type 0} → Owner (Msg D)
msg_blocks = record { blocks = msg_count; Fit = MsgFits }

pub stream2_free_msg-Frees :
    {N D : Type 0} (msg : Msg D) → MsgFits msg ⊎ N → Frees N (msg_count msg) (stream2_free_msg msg)
unfolding stream2_free_msg
stream2_free_msg-Frees Msg.null fit = freed-Frees
stream2_free_msg-Frees (Msg.start q m) fit =
    same-Frees (λ p. omega arith) (then-Frees (free_start_msg-Frees m fit) (free_block-Frees q))
stream2_free_msg-Frees (Msg.image q m) fit =
    same-Frees (λ p. omega arith) (then-Frees (free_image_msg-Frees m fit) (free_block-Frees q))
stream2_free_msg-Frees (Msg.end q m) fit =
    same-Frees (λ p. omega arith)
      (then-Frees (free_text-Frees m.series_unique_id) (free_block-Frees q))
