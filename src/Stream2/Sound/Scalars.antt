-- ===== src/Stream2/Sound/Scalars.antt =====
-- The parsers of single items in eigerApp/src/stream2.c keep what is owned and move forward.
use adeiger.Base.{
  ℕ, zero, suc, ◌≤◌, ◌<◌, String, Bool, Option, none, some, inl, inr, arith, ◌==◌, if◌then◌else◌,
}
use adeiger.Cbor.{CborError, Reply, Reply-cases, Copied, Env, MovesForward}
use adeiger.Stream2.Memory.{CharPtr, malloc}
use adeiger.Stream2.Types.{Stream2Error, Bytes}
use adeiger.Stream2.Monad.{
  M, Outcome, ok, err, out_of_fuel, fail, reply, require, modify, ◌>>=◌, ◌>>◌,
}
use adeiger.Stream2.Scalars.{
  parse_copied, parse_key, parse_tag, parse_bool, read_double, parse_double, parse_uint64,
  store_text, dup_text, parse_text_string, consume_byte_string_nocopy, each_field,
}
use adeiger.Stream2.Sound.{
  Owner, no_blocks, Fits, Sound, pure-Sound, fail-Sound, reply-Sound, any-Sound, weaken-Sound,
  require-Sound, modify-Sound, bind-Sound, if-Sound,
}

-- The block of a text.
abbrev pub text_count : CharPtr → ℕ → ℕ
text_count none p = 0
text_count (some (q, _)) p = if p == q then 1 else 0

abbrev pub text_blocks : Owner CharPtr
text_blocks = record { blocks = text_count; Fit = λ t. Unit }

abbrev pub bytes_blocks : Owner Bytes
bytes_blocks = record { blocks = λ b. text_count b.compression.algorithm; Fit = λ b. Unit }

-- One result for `CborNoError`, another for an error code.
by_error :
    {T A : Type 0} {o : Owner T} {Q : A → Type 0} {m : M T A} {f : CborError → M T A}
    → ((c : CborError) → Sound o Q (f c))
    → Sound o Q m
    → (error : Option CborError) → Sound o Q (elim error [ none ↦ m | some c ↦ f c ])
by_error s t none = t
by_error s t (some c) = s c

module _ (e : Env) (forward : MovesForward e) where
  open e use {Value, Double}
  open forward use {remaining}

  -- The iterator has moved past at least one byte of the `n` that were left.
  abbrev pub Past : ℕ → Value → Type 0
  Past n v = remaining v < n

  module _ {T : Type 0} {o : Owner T} where
    pub fixed-Sound : (it : Value) → Sound o (Past (remaining it)) (reply (e.advance_fixed it))
    fixed-Sound it = reply-Sound _ (forward.advance_fixed it)

    pub advance-Sound : (it : Value) → Sound o (Past (remaining it)) (reply (e.advance it))
    advance-Sound it = reply-Sound _ (forward.advance it)

    -- The end of a container whose inner iterator has moved on.
    pub leave-Sound :
        (it elt : Value) {n : ℕ}
        → remaining elt < n
        → Sound o (Past n) (reply (e.leave_container it elt))
    leave-Sound it elt h = reply-Sound _ (λ v q. omega (arith, forward.leave it elt v q))

    pub enter-Sound : (it : Value) → Sound o (Past (remaining it)) (reply (e.enter_container it))
    enter-Sound it = reply-Sound _ (forward.enter it)

    pub skip_tag-Sound :
        (it : Value) → Sound o (λ v. remaining v ≤ remaining it) (reply (e.skip_tag it))
    skip_tag-Sound it = reply-Sound _ (forward.skip_tag it)

    parse_copied-Sound :
        (c : Copied Value) {n : ℕ}
        → remaining c.next ≤ n
        → Sound o (λ (r : String × Value). remaining r.1 ≤ n) (parse_copied e c)
    unfolding parse_copied
    parse_copied-Sound c h =
        if-Sound _ (pure-Sound _ h) (by_error (λ error. fail-Sound _) (pure-Sound _ h) c.error)

    pub parse_key-Sound :
        (it : Value)
        → Sound o (λ (r : String × Value). remaining r.1 ≤ remaining it) (parse_key e it)
    unfolding parse_key
    parse_key-Sound it =
        bind-Sound (require-Sound _ _) (λ _ _. parse_copied-Sound _ (forward.copy it))

  -- `if (!cbor_value_is_...) ...; get; advance_fixed`
  number_Sound :
      {S : Type 0} (it : Value) (b : Bool) (error : Stream2Error) (r : Reply S)
      → Sound no_blocks
          (Past (remaining it))
          (require b error >> (reply r >>= λ v. modify (λ _. v) >> reply (e.advance_fixed it)))
  number_Sound it b error r = bind-Sound (require-Sound _ _) (λ _ _.
      bind-Sound (any-Sound _) (λ _ _.
        bind-Sound (modify-Sound _ (λ t p. omega arith) (λ t x. x)) (λ _ _. fixed-Sound it)))

  pub parse_tag-Sound : (it : Value) → Sound no_blocks (Past (remaining it)) (parse_tag e it)
  unfolding parse_tag
  parse_tag-Sound it = number_Sound it _ _ _

  pub parse_bool-Sound : (it : Value) → Sound no_blocks (Past (remaining it)) (parse_bool e it)
  unfolding parse_bool
  parse_bool-Sound it = number_Sound it _ _ _

  pub parse_uint64-Sound : (it : Value) → Sound no_blocks (Past (remaining it)) (parse_uint64 e it)
  unfolding parse_uint64
  parse_uint64-Sound it = number_Sound it _ _ _

  stored_Sound :
      {R : Type 0} (r : Reply R) (f : R → Double)
      → Sound no_blocks (λ _. Unit {0}) (reply r >>= λ v. modify (λ _. f v))
  stored_Sound r f =
      bind-Sound (any-Sound _) (λ _ _. modify-Sound _ (λ t p. omega arith) (λ t x. x))

  read_double-Sound : (it : Value) → Sound no_blocks (λ _. Unit {0}) (read_double e it)
  unfolding read_double
  read_double-Sound it = if-Sound (e.is_half_float it) (stored_Sound _ _) (
      if-Sound (e.is_float it) (stored_Sound _ _)
        (if-Sound (e.is_double it) (stored_Sound _ _) (fail-Sound _)))

  pub parse_double-Sound : (it : Value) → Sound no_blocks (Past (remaining it)) (parse_double e it)
  unfolding parse_double
  parse_double-Sound it = bind-Sound (read_double-Sound it) (λ _ _. fixed-Sound it)

  Fits-always : {T A : Type 0} (r : Outcome A) (t : T) → Fits (λ _. Unit {0}) r t
  Fits-always (ok a) t = tt
  Fits-always (err _) t = tt
  Fits-always out_of_fuel t = tt

  dup_text-Sound : (it : Value) → Sound text_blocks (Past (remaining it)) (dup_text e it)
  unfolding dup_text store_text malloc fail
  dup_text-Sound it = record {
    keeps = λ h t p b k. ground arith;
    ends = λ h t. elim (Reply-cases (e.dup_text_string it)) [
      | inl ((s, v), q) ↦ ground (arith, forward.dup it v s q)
      | inr (c, q) ↦ ground arith
    ];
    fits = λ h t x. Fits-always (dup_text e it h t).0 (dup_text e it h t).2;
  }

  pub parse_text_string-Sound :
      (it : Value) → Sound text_blocks (Past (remaining it)) (parse_text_string e it)
  unfolding parse_text_string
  parse_text_string-Sound it = bind-Sound (require-Sound _ _) (λ _ _. dup_text-Sound it)

  pub consume_byte_string_nocopy-Sound :
      (it : Value) → Sound bytes_blocks (Past (remaining it)) (consume_byte_string_nocopy e it)
  unfolding consume_byte_string_nocopy
  consume_byte_string_nocopy-Sound it = bind-Sound (any-Sound _) (λ _ _.
      bind-Sound (modify-Sound _ (λ t p. omega arith) (λ t x. x)) (λ _ _.
        bind-Sound (modify-Sound _ (λ t p. omega arith) (λ t x. x)) (λ _ _. advance-Sound it)))

  -- With more fuel than bytes, the loop over a map ends by its test.
  pub each_field-Sound :
      {T : Type 0} {o : Owner T} (handler : String → Value → M T Value) (bound : ℕ)
      → ((key : String) (it : Value)
          → remaining it < bound
          → Sound o (Past (remaining it)) (handler key it))
      → (fuel : ℕ) (it : Value) → remaining it < fuel
      → remaining it < bound
      → Sound o (λ v. remaining v ≤ remaining it) (each_field e handler fuel it)
  unfolding each_field
  each_field-Sound handler bound step zero it h k = absurd (omega arith)
  each_field-Sound handler bound step (suc fuel) it h k =
      if-Sound _
        (bind-Sound (parse_key-Sound it) (λ r le. bind-Sound (step r.0 r.1 (omega arith)) (λ v lt.
          weaken-Sound (each_field-Sound handler bound step fuel v (omega arith) (omega arith))
            (λ w q. omega arith))))
        (pure-Sound _ (omega arith))
