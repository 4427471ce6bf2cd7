-- ===== src/Rest/Locks/Used.antt =====
-- What the attempts of `doRequest` and `getBlob` in eigerApp/src/restApi.cpp leave of the sockets.
use adeiger.Base.{
  ℕ, zero, suc, ◌+◌, ◌≤◌, ◌<◌, ◌≡◌, refl, ap, ◌∙◌, subst, true, false, List, [], ◌∷◌, ◌⊎◌, inl, inr,
  get_or, set, length, drop, arith, get_or-set_same, length-set,
}
use adeiger.Rest.Outside.{Outside}
use adeiger.Rest.Monad.{
  free, Socket, Turn, Result, ok, failure, undefined, out_of_fuel, Api, no_socket,
}
use adeiger.Rest.Sockets.{is_free, member}
use adeiger.Rest.Locks.Taken.{after, Tried, after-quiet}

-- What so many attempts leave of the sockets, with the turns of other threads. Each attempt uses the first
-- socket that it could lock, and changes no other. The last leaves its socket unlocked with no retries
-- counted; each one before has closed its socket, and has left it unlocked with a retry counted, so that
-- other threads may take it before the next attempt.
pub data Used : List Turn → List Socket → ℕ → List Socket → Type 0 where
  last :
      {turns : List Turn} {sockets left : List Socket} (i : ℕ) (x : Socket)
      → Tried turns sockets i
      → left ≡ set (after (suc i) turns sockets) i x
      → x.lock ≡ free
      → x.retries ≡ 0
      → Used turns sockets 1 left
  again :
      {turns : List Turn} {sockets left : List Socket} {n : ℕ} (i : ℕ) (x : Socket)
      → Tried turns sockets i
      → x.lock ≡ free
      → x.closed ≡ true
      → 1 ≤ x.retries
      → Used (drop (suc i) turns) (set (after (suc i) turns sockets) i x) n left
      → Used turns sockets (suc n) left

module _ {o : Outside} where
  -- What a request leaves that starts in `s` and makes `n` attempts at most, however it ends.
  abbrev pub Left : {A : Type 0} → ℕ → Api o → Result A × Api o → Type 0
  Left n s (ok a, t) = (k : ℕ) × (k ≤ n) × Used s.turns s.sockets k t.sockets
  Left n s (failure, t) = (k : ℕ) × (k ≤ n) × Used s.turns s.sockets k t.sockets
  Left n s (undefined, t) = Unit
  Left n s (out_of_fuel, t) = ⊥

  -- The next attempt is the last: the others are quiet, and the socket that it takes has been retried.
  pub record Retried (s : Api o) : Type 0 where
    pub quiet : s.turns ≡ []
    pub index : ℕ
    pub tried : Tried [] s.sockets index
    pub retries : 1 ≤ (member s index).retries

  -- As many attempts as are needed.
  abbrev pub Enough : ℕ → Api o → Type 0
  Enough n s = (length s.turns + 2 ≤ n) ⊎ ((1 ≤ n) × Retried s)

-- Without other threads, the loop over the sockets finds the same socket again.
quiet_free :
    {sockets : List Socket} {i : ℕ}
    → Tried [] sockets i
    → is_free (get_or sockets i no_socket).lock ≡ true
quiet_free {sockets} {i} h =
    subst (λ l. is_free (get_or l i no_socket).lock ≡ true) (after-quiet (suc i) sockets) h.free

quiet_busy :
    {sockets : List Socket} {i : ℕ}
    → Tried [] sockets i
    → (k : ℕ) → k < i
    → is_free (get_or sockets k no_socket).lock ≡ false
quiet_busy {sockets} {i} h k lt =
    subst (λ l. is_free (get_or l k no_socket).lock ≡ false) (after-quiet (suc k) sockets)
      (h.busy k lt)

not_before : (sockets : List Socket) (i j : ℕ) → Tried [] sockets i → Tried [] sockets j → ¬ (i < j)
not_before sockets i j h k lt = cc (quiet_free h, quiet_busy k i lt)

pub same_socket :
    (sockets : List Socket) (i j : ℕ) → Tried [] sockets i → Tried [] sockets j → i ≡ j
same_socket sockets i j h k = omega (arith, not_before sockets i j h k, not_before sockets j i k h)

get_or-set_other :
    (xs : List Socket) (i k : ℕ) (x d : Socket) → k < i → get_or (set xs i x) k d ≡ get_or xs k d
get_or-set_other [] i k x d h = refl
get_or-set_other (y ∷ xs) zero k x d h = absurd (omega (arith, h))
get_or-set_other (y ∷ xs) (suc i) zero x d h = refl
get_or-set_other (y ∷ xs) (suc i) (suc k) x d h = get_or-set_other xs i k x d (omega (arith, h))

-- A socket that has been unlocked is the first that can be locked, if it was before.
pub freed :
    (sockets : List Socket) (i : ℕ) (x : Socket)
    → Tried [] sockets i
    → x.lock ≡ free
    → Tried [] (set sockets i x) i
freed sockets i x h e = record {
  inside = omega (arith, h.inside, length-set sockets i x);
  free =
      ap (λ l. is_free (get_or l i no_socket).lock) (after-quiet (suc i) (set sockets i x))
      ∙ ap (λ y. is_free y.lock) (get_or-set_same sockets i x no_socket h.inside)
      ∙ ap is_free e;
  busy = λ k lt.
      ap (λ l. is_free (get_or l k no_socket).lock) (after-quiet (suc k) (set sockets i x))
      ∙ ap (λ y. is_free y.lock) (get_or-set_other sockets i k x no_socket lt)
      ∙ quiet_busy h k lt;
}

pub no_more : (turns : List Turn) → (turns ≡ []) ⊎ (1 ≤ length turns)
no_more [] = inl refl
no_more (turn ∷ turns) = inr (omega arith)
