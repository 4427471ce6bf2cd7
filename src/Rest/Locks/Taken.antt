-- ===== src/Rest/Locks/Taken.antt =====
-- The loop over the sockets in `doRequest` and `getBlob` of eigerApp/src/restApi.cpp, while other threads lock
-- and unlock them.
use adeiger.Base.{
  ℕ, zero, suc, ◌+◌, ◌<◌, ◌≡◌, refl, ap, ◌∙◌, subst, true, false, List, [], ◌∷◌, Bool-cases, inl,
  inr, get_or, set, length, drop, length-set, arith,
}
use adeiger.Rest.Outside.{Outside}
use adeiger.Rest.Monad.{
  mine, Socket, Turn, Result, ok, failure, undefined, out_of_fuel, Api, no_socket,
}
use adeiger.Rest.Sockets.{is_free, changed_by, member, turned, lock_socket, take_from, take_socket}

-- The sockets after so many of the turns of other threads.
unfoldable pub after : ℕ → List Turn → List Socket → List Socket
after zero turns sockets = sockets
after (suc n) [] sockets = sockets
after (suc n) (turn ∷ turns) sockets = after n turns (changed_by turn sockets)

-- `tryLock` locks the socket `i` after it has failed for each socket before it.
pub record Tried (turns : List Turn) (sockets : List Socket) (i : ℕ) : Type 0 where
  pub inside : i < length sockets
  pub free : is_free (get_or (after (suc i) turns sockets) i no_socket).lock ≡ true
  pub busy :
      (k : ℕ) → k < i → is_free (get_or (after (suc k) turns sockets) k no_socket).lock ≡ false

changed_by-length :
    (turn : Turn) (sockets : List Socket) → length (changed_by turn sockets) ≡ length sockets
unfolding changed_by
changed_by-length [] sockets = refl
changed_by-length (x ∷ turn) sockets =
    changed_by-length turn (set sockets x.0 x.1) ∙ length-set sockets x.0 x.1

pub after-length :
    (n : ℕ) (turns : List Turn) (sockets : List Socket)
    → length (after n turns sockets) ≡ length sockets
unfolding after
after-length zero turns sockets = refl
after-length (suc n) [] sockets = refl
after-length (suc n) (turn ∷ turns) sockets =
    after-length n turns (changed_by turn sockets) ∙ changed_by-length turn sockets

pub after-quiet : (n : ℕ) (sockets : List Socket) → after n [] sockets ≡ sockets
unfolding after
after-quiet zero sockets = refl
after-quiet (suc n) sockets = refl

drop-none : (n : ℕ) → drop {A = Turn} n [] ≡ []
drop-none zero = refl
drop-none (suc n) = refl

drop-suc : (n : ℕ) (turns : List Turn) → drop n (drop 1 turns) ≡ drop (suc n) turns
drop-suc n [] = drop-none n
drop-suc n (turn ∷ turns) = refl

after-suc :
    (n : ℕ) (turns : List Turn) (sockets : List Socket)
    → after n (drop 1 turns) (after 1 turns sockets) ≡ after (suc n) turns sockets
unfolding after
after-suc n [] sockets = after-quiet n sockets
after-suc n (turn ∷ turns) sockets = refl

module _ {o : Outside} where
  -- The loop from the socket `k` on locks the socket `i`, which is `d` places behind it.
  record TakenFrom (k i d : ℕ) (turns : List Turn) (sockets : List Socket) (u : Api o)
      : Type 0 where
    place : i ≡ d + k
    inside : i < length sockets
    free : is_free (get_or (after (suc d) turns sockets) i no_socket).lock ≡ true
    busy :
        (e j : ℕ)
        → e < d
        → j ≡ e + k
        → is_free (get_or (after (suc e) turns sockets) j no_socket).lock ≡ false
    left :
        u.sockets
        ≡ set
            (after (suc d) turns sockets)
            i
            (record (get_or (after (suc d) turns sockets) i no_socket) { lock = mine })
    rest : u.turns ≡ drop (suc d) turns

  abbrev TakesFrom : ℕ → List Turn → List Socket → Result ℕ × Api o → Type 0
  TakesFrom k turns sockets (ok i, u) = (d : ℕ) × TakenFrom k i d turns sockets u
  TakesFrom k turns sockets (failure, u) = ⊥
  TakesFrom k turns sockets (undefined, u) = Unit
  TakesFrom k turns sockets (out_of_fuel, u) = ⊥

  turned-after :
      (turns : List Turn) (s : Api o)
      → s.turns ≡ turns
      → ((turned turns s).sockets ≡ after 1 turns s.sockets)
        × ((turned turns s).turns ≡ drop 1 turns)
  unfolding turned after
  turned-after [] s e = (refl, e)
  turned-after (turn ∷ turns) s e = (refl, refl)

  -- A socket that is not free is passed over.
  passed :
      (k : ℕ) (turns : List Turn) (sockets : List Socket) (r : Result ℕ × Api o)
      → is_free (get_or (after 1 turns sockets) k no_socket).lock ≡ false
      → TakesFrom (suc k) (drop 1 turns) (after 1 turns sockets) r
      → TakesFrom k turns sockets r
  passed k turns sockets (ok i, u) b (d, h) = (
    suc d,
    record {
      place = omega (arith, h.place);
      inside = subst (λ n. i < n) (after-length 1 turns sockets) h.inside;
      free =
          subst (λ l. is_free (get_or l i no_socket).lock ≡ true) (after-suc (suc d) turns sockets)
            h.free;
      busy = λ e j lt p. earlier e j lt p;
      left =
          subst (λ l. u.sockets ≡ set l i (record (get_or l i no_socket) { lock = mine }))
            (after-suc (suc d) turns sockets) h.left;
      rest = h.rest ∙ drop-suc (suc d) turns;
    },
  )
    where
      earlier :
          (e j : ℕ)
          → e < suc d
          → j ≡ e + k
          → is_free (get_or (after (suc e) turns sockets) j no_socket).lock ≡ false
      earlier zero j lt p =
          subst (λ m. is_free (get_or (after 1 turns sockets) m no_socket).lock ≡ false)
            (omega (arith, p)) b
      earlier (suc e) j lt p =
          subst (λ l. is_free (get_or l j no_socket).lock ≡ false) (after-suc (suc e) turns sockets)
            (h.busy e j (omega (arith, lt)) (omega (arith, p)))
  passed k turns sockets (failure, u) b h = h
  passed k turns sockets (undefined, u) b h = tt
  passed k turns sockets (out_of_fuel, u) b h = h

  locked :
      (k : ℕ) (turns : List Turn) (sockets : List Socket) (t : Api o)
      → k < length sockets
      → t.sockets ≡ after 1 turns sockets
      → t.turns ≡ drop 1 turns
      → is_free (get_or (after 1 turns sockets) k no_socket).lock ≡ true
      → TakesFrom k turns sockets (lock_socket k t)
  unfolding lock_socket
  locked k turns sockets t lt e f h = (
    0,
    record {
      place = omega arith;
      inside = lt;
      free = h;
      busy = λ i j below. absurd (omega (arith, below));
      left = rw e refl;
      rest = f;
    },
  )

  take_from-TakesFrom :
      (n k : ℕ) (s : Api o)
      → n + k ≡ length s.sockets
      → TakesFrom k s.turns s.sockets (take_from n k s)
  unfolding take_from
  take_from-TakesFrom zero k s e = tt
  take_from-TakesFrom (suc n) k s e =
      let (p, q) = turned-after s.turns s refl in
      elim (Bool-cases (is_free (member (turned s.turns s) k).lock)) [
        | inl b ↦ rw b (
            locked k s.turns s.sockets (turned s.turns s) (omega (arith, e)) p q
              (subst (λ l. is_free (get_or l k no_socket).lock ≡ true) p b))
        | inr b ↦ rw b (
            passed k s.turns s.sockets _
              (subst (λ l. is_free (get_or l k no_socket).lock ≡ false) p b)
              (subst
                (λ x.
                  TakesFrom (suc k) x (after 1 s.turns s.sockets)
                    (take_from n (suc k) (turned s.turns s)))
                q
                (subst
                  (λ x.
                    TakesFrom (suc k) (turned s.turns s).turns x
                      (take_from n (suc k) (turned s.turns s)))
                  p
                  (take_from-TakesFrom n (suc k) (turned s.turns s)
                    (omega (arith, e, after-length 1 s.turns s.sockets, ap length p))))))
      ]

  -- What `take_socket` leaves.
  pub record Taken (s : Api o) (i : ℕ) (u : Api o) : Type 0 where
    pub tried : Tried s.turns s.sockets i
    pub left :
        u.sockets
        ≡ set
            (after (suc i) s.turns s.sockets)
            i
            (record (get_or (after (suc i) s.turns s.sockets) i no_socket) { lock = mine })
    pub rest : u.turns ≡ drop (suc i) s.turns

  abbrev pub Takes : Api o → Result ℕ × Api o → Type 0
  Takes s (ok i, u) = Taken s i u
  Takes s (failure, u) = ⊥
  Takes s (undefined, u) = Unit
  Takes s (out_of_fuel, u) = ⊥

  from_start : (s : Api o) (r : Result ℕ × Api o) → TakesFrom 0 s.turns s.sockets r → Takes s r
  from_start s (ok i, u) (d, h) = record {
    tried = record {
      inside = h.inside;
      free =
          subst (λ x. is_free (get_or (after (suc x) s.turns s.sockets) i no_socket).lock ≡ true)
            same h.free;
      busy = λ k lt. h.busy k k (omega (arith, lt, h.place)) (omega arith);
    };
    left =
        subst
          (λ x.
            u.sockets
            ≡ set (after (suc x) s.turns s.sockets) i
                (record (get_or (after (suc x) s.turns s.sockets) i no_socket) { lock = mine }))
          same h.left;
    rest = subst (λ x. u.turns ≡ drop (suc x) s.turns) same h.rest;
  }
    where
      same : d ≡ i
      same = omega (arith, h.place)
  from_start s (failure, u) h = h
  from_start s (undefined, u) h = tt
  from_start s (out_of_fuel, u) h = h

  pub take_socket-Takes : (s : Api o) → Takes s (take_socket s)
  unfolding take_socket
  take_socket-Takes s = from_start s _ (take_from-TakesFrom (length s.sockets) 0 s (omega arith))
