-- ===== src/Rest/Locks/Attempt.antt =====
-- One attempt of `doRequest` or `getBlob` in eigerApp/src/restApi.cpp, and what it leaves for the next.
use adeiger.Base.{
  ℕ, suc, ◌≤◌, ◌<◌, ◌≡◌, refl, sym, ap, ◌∙◌, subst, List, [], inl, inr, get_or, set, length, drop,
  arith, set-set, set-get_or, get_or-set_same, length-set, length-drop,
}
use adeiger.Rest.Outside.{Outside}
use adeiger.Rest.Monad.{mine, Socket, Result, ok, failure, undefined, out_of_fuel, Api, no_socket}
use adeiger.Rest.Sockets.{released, dropped, member, release, drop_socket}
use adeiger.Rest.Locks.{Held, Hold, Keep}
use adeiger.Rest.Locks.Taken.{after, Tried, after-length, after-quiet, Taken}
use adeiger.Rest.Locks.Used.{Used, last, again, Left, Retried, Enough, same_socket, freed, no_more}

-- One attempt, which has locked the socket `i`.
module _ {o : Outside} (s u : Api o) (i : ℕ) (taken : Taken s i u) where
  others : List Socket
  others = after (suc i) s.turns s.sockets

  inside_others : i < length others
  unfolding others
  inside_others = omega (arith, taken.tried.inside, after-length (suc i) s.turns s.sockets)

  pub inside_taken : i < length u.sockets
  unfolding others
  inside_taken = omega (
    arith,
    inside_others,
    ap length taken.left,
    length-set others i (record (get_or others i no_socket) { lock = mine }),
  )

  taken_socket : member u i ≡ record (get_or others i no_socket) { lock = mine }
  unfolding others
  taken_socket =
      ap (λ l. get_or l i no_socket) taken.left ∙ get_or-set_same others i _ no_socket inside_others

  pub start : Keep u i (member u i).retries u
  start = (
    member u i,
    record {
      sockets = sym (set-get_or u.sockets i no_socket);
      lock = ap (λ x. x.lock) taken_socket;
      turns = refl;
    },
    refl,
  )

  -- The socket that is held is the only one that the attempt has changed.
  over :
      (t : Api o) (x : Socket) (f : Socket → Socket)
      → Held u i t x
      → set t.sockets i (f (member t i)) ≡ set others i (f x)
  unfolding others
  over t x f h =
      ap (λ l. set l i (f (get_or l i no_socket))) h.sockets
      ∙ ap (λ y. set (set u.sockets i x) i (f y))
          (get_or-set_same u.sockets i x no_socket inside_taken)
      ∙ set-set u.sockets i x (f x)
      ∙ ap (λ l. set l i (f x)) taken.left
      ∙ set-set others i _ (f x)

  pub released-Used : (t : Api o) → Hold u i t → Used s.turns s.sockets 1 (release i t).sockets
  unfolding release others
  released-Used t h = last i (released h.0) taken.tried (over t h.0 released h.1) refl refl

  dropped_turns :
      (t : Api o) (x : Socket) → Held u i t x → (drop_socket i t).turns ≡ drop (suc i) s.turns
  unfolding drop_socket
  dropped_turns t x h = h.turns ∙ taken.rest

  dropped_sockets :
      (t : Api o) (x : Socket) → Held u i t x → (drop_socket i t).sockets ≡ set others i (dropped x)
  unfolding drop_socket
  dropped_sockets t x h = over t x dropped h

  dropped-Used :
      (t : Api o) (x : Socket) (k : ℕ) (left : List Socket)
      → Held u i t x
      → 1 ≤ x.retries
      → Used (drop_socket i t).turns (drop_socket i t).sockets k left
      → Used s.turns s.sockets (suc k) left
  unfolding others
  dropped-Used t x k left h retried used = again i (dropped x) taken.tried refl refl retried (
      subst (λ l. Used (drop (suc i) s.turns) l k left) (dropped_sockets t x h)
        (subst (λ m. Used m (drop_socket i t).sockets k left) (dropped_turns t x h) used))

  pub dropped-Left :
      {A : Type 0} (t : Api o) (x : Socket) (n : ℕ) (r : Result A × Api o)
      → Held u i t x
      → 1 ≤ x.retries
      → Left n (drop_socket i t) r
      → Left (suc n) s r
  dropped-Left t x n (ok a, v) h retried (k, le, used) =
      (suc k, omega (arith, le), dropped-Used t x k v.sockets h retried used)
  dropped-Left t x n (failure, v) h retried (k, le, used) =
      (suc k, omega (arith, le), dropped-Used t x k v.sockets h retried used)
  dropped-Left t x n (undefined, v) h retried used = tt
  dropped-Left t x n (out_of_fuel, v) h retried used = used

  quiet_tried : s.turns ≡ [] → Tried [] s.sockets i
  quiet_tried quiet = subst (λ m. Tried m s.sockets i) quiet taken.tried

  quiet_others : s.turns ≡ [] → others ≡ s.sockets
  unfolding others
  quiet_others quiet = ap (λ m. after (suc i) m s.sockets) quiet ∙ after-quiet (suc i) s.sockets

  -- With the others quiet, the next attempt takes the socket that has just been dropped.
  dropped-Retried :
      (t : Api o) (x : Socket)
      → Held u i t x
      → 1 ≤ x.retries
      → s.turns ≡ []
      → Retried (drop_socket i t)
  dropped-Retried t x h retried quiet = record {
    quiet = dropped_turns t x h ∙ ap (drop (suc i)) quiet;
    index = i;
    tried =
        subst (λ l. Tried [] l i) (sym left)
          (freed s.sockets i (dropped x) (quiet_tried quiet) refl);
    retries =
        subst (λ y. 1 ≤ y.retries)
          (sym (
            ap (λ l. get_or l i no_socket) left
            ∙ get_or-set_same s.sockets i (dropped x) no_socket taken.tried.inside))
          retried;
  }
    where
      left : (drop_socket i t).sockets ≡ set s.sockets i (dropped x)
      left = dropped_sockets t x h ∙ ap (λ l. set l i (dropped x)) (quiet_others quiet)

  -- A socket that has been retried is not retried again.
  not_again : Retried s → ¬ ((member u i).retries < 1)
  not_again h first =
      let r =
        subst (λ j. 1 ≤ (member s j).retries)
          (sym (same_socket s.sockets i h.index (quiet_tried h.quiet) h.tried)) h.retries in
      omega (
        arith,
        first,
        r,
        ap (λ x. x.retries) taken_socket,
        ap (λ l. (get_or l i no_socket).retries) (quiet_others h.quiet),
      )

  pub drop-Enough :
      (n : ℕ) (t : Api o) (x : Socket)
      → Held u i t x
      → 1 ≤ x.retries
      → (member u i).retries < 1
      → Enough (suc n) s
      → Enough n (drop_socket i t)
  drop-Enough n t x h retried first (inr e) = absurd (not_again e.1 first)
  drop-Enough n t x h retried first (inl e) = elim (no_more s.turns) [
    | inl q ↦ inr (omega (arith, e), dropped-Retried t x h retried q)
    | inr q ↦
        inl (omega (arith, e, q, ap length (dropped_turns t x h), length-drop (suc i) s.turns))
  ]
