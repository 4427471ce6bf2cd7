-- ===== src/Rest/Locks.antt =====
-- Requests of eigerApp/src/restApi.cpp and the sockets they use: what holds while a request has a socket,
-- step by step.
pub mod Exchange
pub mod Taken
pub mod Used
pub mod Attempt
pub mod Attempts
use adeiger.Base.{
  ℕ, zero, suc, ◌+◌, ◌-◌, ◌≤◌, ◌<◌, ◌≡◌, refl, sym, ap, ◌∙◌, subst, Bool, true, false, Option, none,
  some, List, [], ◌∷◌, ◌++◌, ◌==◌, Bool-cases, ◌⊎◌, inl, inr, get_or, set, length, ltb, arith,
  get_or-set_same, set-set, if◌then◌else◌,
}
use adeiger.Rest.Outside.{Connected, connected, in_progress, refused, Outside}
use adeiger.Rest.Monad.{
  Lock, free, mine, other, Socket, Result, ok, failure, undefined, out_of_fuel, Api, M, IsFinal,
  no_socket, continue, pure, fail, lift, require, system, system_do, socket, store, ◌>>=◌, ◌>>◌,
}
use adeiger.Rest.Request.{retry_or}
use adeiger.Rest.Sockets.{
  member, max_http_retries, set_closed, set_fd, may_retry, close_socket, await, connect_new,
  connect,
}

module _ {o : Outside} (s : Api o) (i : ℕ) where
  -- The socket `i` is held, with the others as they are in `s`.
  pub record Held (t : Api o) (x : Socket) : Type 0 where
    pub sockets : t.sockets ≡ set s.sockets i x
    pub lock : x.lock ≡ mine
    pub turns : t.turns ≡ s.turns

  abbrev pub Hold : Api o → Type 0
  Hold t = (x : Socket) × Held t x

  -- It has been retried `n` times.
  abbrev pub Keep : ℕ → Api o → Type 0
  Keep n t = (x : Socket) × Held t x × (x.retries ≡ n)

  -- What a step leaves: the result and the state satisfy `Q`, and a failure leaves the socket held.
  abbrev pub Post : {A : Type 0} → (A → Api o → Type 0) → Result A × Api o → Type 0
  Post Q (ok a, t) = Q a t
  Post Q (failure, t) = Hold t
  Post Q (undefined, t) = Unit
  Post Q (out_of_fuel, t) = ⊥

  -- A request that wants to be made again has been made for the first time.
  abbrev pub Done : {A : Type 0} → ℕ → Option A → Api o → Type 0
  Done n none t = (x : Socket) × Held t x × (1 ≤ x.retries) × (n < 1)
  Done n (some a) t = Hold t

  abbrev pub Keeps : {A : Type 0} → M o A → Type 0
  Keeps m = (n : ℕ) (t : Api o) → Keep n t → Post (λ _. Keep n) (m t)

  abbrev pub Ends : {A : Type 0} → M o (Option A) → Type 0
  Ends m = (n : ℕ) (t : Api o) → Keep n t → Post (Done n) (m t)

  continue-Post :
      {A B : Type 0} (Q : A → Api o → Type 0) (R : B → Api o → Type 0) (r : Result A) (t : Api o)
      (f : A → M o B)
      → Post Q (r, t)
      → ((a : A) (u : Api o) → Q a u → Post R (f a u))
      → Post R (continue r f t)
  continue-Post Q R (ok a) t f h k = k a t h
  continue-Post Q R failure t f h k = h
  continue-Post Q R undefined t f h k = tt
  continue-Post Q R out_of_fuel t f h k = elim h [ ]

  pub bind-Post :
      {A B : Type 0} (Q : A → Api o → Type 0) (R : B → Api o → Type 0) (m : M o A) (f : A → M o B)
      (t : Api o)
      → Post Q (m t)
      → ((a : A) (u : Api o) → Q a u → Post R (f a u))
      → Post R ((m >>= f) t)
  unfolding ◌>>=◌
  bind-Post Q R m f t h k = continue-Post Q R (m t).0 (m t).1 f h k

  pub bind-Keeps :
      {A B : Type 0} (m : M o A) (f : A → M o B)
      → Keeps m
      → ((a : A) → Keeps (f a))
      → Keeps (m >>= f)
  bind-Keeps m f h k = λ n t x. bind-Post _ _ m f t (h n t x) (λ a u. k a n u)

  pub bind-Ends :
      {A B : Type 0} (m : M o A) (f : A → M o (Option B))
      → Keeps m
      → ((a : A) → Ends (f a))
      → Ends (m >>= f)
  bind-Ends m f h k = λ n t x. bind-Post _ _ m f t (h n t x) (λ a u. k a n u)

  pub if-Keeps :
      {A : Type 0} (b : Bool) (m k : M o A) → Keeps m → Keeps k → Keeps (if b then m else k)
  if-Keeps true m k x y = x
  if-Keeps false m k x y = y

  pub if-Ends :
      {A : Type 0} (b : Bool) (m k : M o (Option A)) → Ends m → Ends k → Ends (if b then m else k)
  if-Ends true m k x y = x
  if-Ends false m k x y = y

  pub pure-Keeps : {A : Type 0} (a : A) → Keeps (pure a)
  unfolding pure
  pure-Keeps a = λ n t x. x

  pub some-Ends : {A : Type 0} (a : A) → Ends (pure (some a))
  unfolding pure
  some-Ends a = λ n t x. (x.0, x.1)

  pub fail-Keeps : (A : Type 0) → Keeps (fail {A = A})
  unfolding fail
  fail-Keeps A = λ n t x. (x.0, x.1)

  pub fail-Ends : (A : Type 0) → Ends (fail {A = Option A})
  unfolding fail
  fail-Ends A = λ n t x. (x.0, x.1)

  pub lift-Keeps : {A : Type 0} (r : Result A) → IsFinal r → Keeps (lift r)
  unfolding lift
  lift-Keeps (ok a) h = λ n t x. x
  lift-Keeps failure h = λ n t x. (x.0, x.1)
  lift-Keeps undefined h = λ n t x. tt
  lift-Keeps out_of_fuel h = elim h [ ]

  pub require-Keeps : (b : Bool) → Keeps (require b)
  unfolding require
  require-Keeps b = if-Keeps b (pure tt) fail (pure-Keeps tt) (fail-Keeps _)

  pub system-Keeps : {A : Type 0} (f : o.Net → A × o.Net) → Keeps (system f)
  unfolding system
  system-Keeps f =
      λ n t x. (x.0, record { sockets = x.1.sockets; lock = x.1.lock; turns = x.1.turns }, x.2)

  pub system_do-Keeps : (f : o.Net → o.Net) → Keeps (system_do f)
  unfolding system_do
  system_do-Keeps f =
      λ n t x. (x.0, record { sockets = x.1.sockets; lock = x.1.lock; turns = x.1.turns }, x.2)

  pub socket-Keeps : Keeps (socket i)
  unfolding socket
  socket-Keeps = λ n t x. x

module _ {o : Outside} (s : Api o) (i : ℕ) (inside : i < length s.sockets) where
  -- The socket that is held is the one that the state has.
  member-Held : (t : Api o) (x : Socket) → Held s i t x → member t i ≡ x
  member-Held t x h =
      ap (λ l. get_or l i no_socket) h.sockets ∙ get_or-set_same s.sockets i x no_socket inside

  changed :
      (t : Api o) (x : Socket) (f : Socket → Socket)
      → Held s i t x
      → set t.sockets i (f (member t i)) ≡ set s.sockets i (f x)
  changed t x f h =
      ap (λ y. set t.sockets i (f y)) (member-Held t x h)
      ∙ ap (λ l. set l i (f x)) h.sockets
      ∙ set-set s.sockets i x (f x)

  pub set_closed-Keeps : (closed : Bool) → Keeps s i (set_closed i closed)
  unfolding set_closed store
  set_closed-Keeps closed = λ n t x. (
    record (x.0) { closed = closed },
    record {
      sockets = changed t x.0 (λ y. record y { closed = closed }) x.1;
      lock = x.1.lock;
      turns = x.1.turns;
    },
    x.2,
  )

  pub set_fd-Keeps : (fd : ℕ) → Keeps s i (set_fd i fd)
  unfolding set_fd store
  set_fd-Keeps fd = λ n t x. (
    record (x.0) { fd = fd },
    record {
      sockets = changed t x.0 (λ y. record y { fd = fd }) x.1;
      lock = x.1.lock;
      turns = x.1.turns;
    },
    x.2,
  )

  pub close_socket-Keeps : Keeps s i (close_socket i)
  unfolding close_socket
  close_socket-Keeps =
      bind-Keeps s i _ _ (socket-Keeps s i)
        λ y. bind-Keeps s i _ _ (system_do-Keeps s i (o.close y.fd)) λ u. set_closed-Keeps true

  await-Keeps : (fd : ℕ) (c : Connected) → Keeps s i (await fd c)
  unfolding await
  await-Keeps fd connected = pure-Keeps s i true
  await-Keeps fd in_progress = system-Keeps s i (o.wait_writable fd)
  await-Keeps fd refused = pure-Keeps s i false

  connect_new-Keeps : (fd : ℕ) → Keeps s i (connect_new i fd)
  unfolding connect_new
  connect_new-Keeps fd = bind-Keeps s i _ _ (set_fd-Keeps fd) λ u.
      bind-Keeps s i _ _ (system_do-Keeps s i (o.set_blocking fd false)) λ u.
        bind-Keeps s i _ _ (system-Keeps s i (o.connect fd)) λ answer.
          bind-Keeps s i _ _ (await-Keeps fd answer) λ done.
            if-Keeps s i done _ _
              (bind-Keeps s i _ _ (system_do-Keeps s i (o.set_blocking fd true))
                λ u. set_closed-Keeps false)
              (bind-Keeps s i _ _ (system_do-Keeps s i (o.destroy fd)) λ u. fail-Keeps s i _)

  created :
      (fd : Option ℕ)
      → Keeps s i {A = Unit {0}} (elim fd [ none ↦ fail | some fd ↦ connect_new i fd ])
  created none = fail-Keeps s i _
  created (some fd) = connect_new-Keeps fd

  pub connect-Keeps : Keeps s i (connect i)
  unfolding connect
  connect-Keeps = bind-Keeps s i _ _ (socket-Keeps s i) λ y.
      if-Keeps s i y.closed _ _ (bind-Keeps s i _ _ (system-Keeps s i o.create) λ fd. created fd)
        (pure-Keeps s i tt)

  set_closed-Hold : (t : Api o) → Hold s i t → Post s i (λ _ u. Hold s i u) (set_closed i true t)
  unfolding set_closed store
  set_closed-Hold t x = (
    record (x.0) { closed = true },
    record {
      sockets = changed t x.0 (λ y. record y { closed = true }) x.1;
      lock = x.1.lock;
      turns = x.1.turns;
    },
  )

  -- A call that always fails.
  abbrev pub Stops : {A : Type 0} → M o A → Type 0
  Stops m = (t : Api o) → Hold s i t → Post s i (λ _ _. ⊥) (m t)

  stopped :
      {A : Type 0} (Q : A → Api o → Type 0) (r : Result A) (t : Api o)
      → Post s i (λ _ _. ⊥) (r, t)
      → Post s i Q (r, t)
  stopped Q (ok a) t h = elim h [ ]
  stopped Q failure t h = h
  stopped Q undefined t h = h
  stopped Q out_of_fuel t h = h

  retried :
      {A : Type 0} (e : M o (Option A)) (n : ℕ) (t : Api o) (x : Socket) (again : Bool)
      → Stops e
      → Held s i t x
      → x.retries ≡ n + 1
      → (again ≡ true → n < 1)
      → Post s i (Done s i n) ((if again then pure none else e) t)
  unfolding pure
  retried e n t x true h k count first = (x, k, omega (arith, count), first refl)
  retried e n t x false h k count first = stopped (Done s i n) (e t).0 (e t).1 (h t (x, k))

  counted : (t : Api o) (x : Socket) → Held s i t x → (member t i).retries ≡ x.retries
  counted t x h = ap (λ y. y.retries) (member-Held t x h)

  below_one : (n m : ℕ) → m ≡ n → ltb m max_http_retries ≡ true → n < 1
  below_one n m e h = ground arith

  -- `may_retry` counts, and a request is made again only if it was the first time.
  pub retry_or-Ends : {A : Type 0} (e : M o (Option A)) → Stops e → Ends s i (retry_or i e)
  unfolding retry_or may_retry ◌>>=◌
  retry_or-Ends e h = λ n t x.
      retried e n _ (record (x.0) { retries = x.0.retries + 1 })
        (ltb (member t i).retries max_http_retries) h
        (record {
          sockets = changed t x.0 (λ y. record y { retries = y.retries + 1 }) x.1;
          lock = x.1.lock;
          turns = x.1.turns;
        })
        (ap (λ m. m + 1) x.2) (below_one n (member t i).retries (counted t x.0 x.1 ∙ x.2))

  pub fail-Stops : (A : Type 0) → Stops (fail {A = A})
  unfolding fail
  fail-Stops A = λ t x. x

  pub closed-Stops : (A : Type 0) → Stops {A = A} (set_closed i true >> fail)
  closed-Stops A = λ t x.
      bind-Post s i (λ _ u. Hold s i u) (λ _ _. ⊥) (set_closed i true) _ t (set_closed-Hold t x)
        (λ u v y. fail-Stops A v y)
