-- ===== src/Rest/Locks/Attempts.antt =====
-- `doRequest` and `getBlob` of eigerApp/src/restApi.cpp come to an end, however often other threads take a socket
-- that a retry has unlocked, and give back each socket that they have taken.
use adeiger.Base.{ℕ, zero, suc, ◌+◌, ◌<◌, Option, none, some, List, inl, inr, length, arith}
use adeiger.Rest.Outside.{Outside}
use adeiger.Rest.Monad.{Result, ok, failure, undefined, out_of_fuel, Api, M}
use adeiger.Rest.Sockets.{member, take_socket}
use adeiger.Rest.Request.{ended, with_socket, attempts, enough_attempts, exchange, do_request}
use adeiger.Rest.Blob.{exchange_blob, request_blob}
use adeiger.Rest.Locks.{Post, Done, Ends}
use adeiger.Rest.Locks.Exchange.{exchange-Ends, exchange_blob-Ends}
use adeiger.Rest.Locks.Taken.{Taken, Takes, take_socket-Takes}
use adeiger.Rest.Locks.Used.{Left, Enough}
use adeiger.Rest.Locks.Attempt.{inside_taken, start, released-Used, dropped-Left, drop-Enough}

module _ {o : Outside} {A : Type 0} (body : ℕ → M o (Option A))
    (ends : (s : Api o) (i : ℕ) → i < length s.sockets → Ends s i (body i)) where
  ended-Left :
      (n : ℕ) (s u : Api o) (i : ℕ)
      → Taken s i u
      → Enough (suc n) s
      → ((v : Api o) → Enough n v → Left n v (attempts n body v))
      → (r : Result (Option A)) (t : Api o) → Post u i (Done u i (member u i).retries) (r, t)
      → Left (suc n) s (ended i (attempts n body) r t)
  unfolding ended
  ended-Left n s u i k e h (ok none) t x =
      dropped-Left s u i k t x.0 n _ x.1 x.2 (h _ (drop-Enough s u i k n t x.0 x.1 x.2 x.3 e))
  ended-Left n s u i k e h (ok (some a)) t x = (1, omega arith, released-Used s u i k t x)
  ended-Left n s u i k e h failure t x = (1, omega arith, released-Used s u i k t x)
  ended-Left n s u i k e h undefined t x = tt
  ended-Left n s u i k e h out_of_fuel t x = elim x [ ]

  with_socket-Left :
      (n : ℕ) (s : Api o)
      → Enough (suc n) s
      → ((v : Api o) → Enough n v → Left n v (attempts n body v))
      → (r : Result ℕ) (u : Api o) → Takes s (r, u)
      → Left (suc n) s (with_socket body (attempts n body) r u)
  unfolding with_socket
  with_socket-Left n s e h (ok i) u k =
      ended-Left n s u i k e h (body i u).0 (body i u).1
        (ends u i (inside_taken s u i k) (member u i).retries u (start s u i k))
  with_socket-Left n s e h failure u k = elim k [ ]
  with_socket-Left n s e h undefined u k = tt
  with_socket-Left n s e h out_of_fuel u k = elim k [ ]

  attempts-Left : (n : ℕ) (s : Api o) → Enough n s → Left n s (attempts n body s)
  unfolding attempts
  attempts-Left zero s (inl e) = absurd (omega (arith, e))
  attempts-Left zero s (inr e) = absurd (omega (arith, e.0))
  attempts-Left (suc n) s e =
      with_socket-Left n s e (attempts-Left n) (take_socket s).0 (take_socket s).1
        (take_socket-Takes s)

module _ {o : Outside} where
  -- A request comes to an end, whatever other threads do with the sockets before each `tryLock`, with two
  -- attempts more at most than they have turns. Whether it succeeds or fails, each attempt has used the
  -- first socket that it could lock, and has changed no other; it has left this socket unlocked, closed
  -- and with a retry counted if another attempt was made, and with no retries counted if not. Nothing is
  -- said where the behaviour is undefined.
  pub do_request-Left :
      (request : List ℕ) (timeout : Option ℕ) (s : Api o)
      → Left (length s.turns + 2) s (do_request request timeout s)
  unfolding do_request
  do_request-Left request timeout s =
      attempts-Left (λ i. exchange i request timeout)
        (λ s i inside. exchange-Ends s i inside request timeout) (enough_attempts s) s
        (inl (omega arith))

  -- The request of `getBlob`, its loop over the parts of the content included, comes to an end too, whatever
  -- other threads do with the sockets before each `tryLock`, with two attempts more at most than they have
  -- turns. Whether it succeeds or fails, its attempts leave the sockets as `Used` says, like those of
  -- `doRequest`. Nothing is said where the behaviour is undefined.
  pub request_blob-Left :
      (request : List ℕ) (s : Api o) → Left (length s.turns + 2) s (request_blob request s)
  unfolding request_blob
  request_blob-Left request s =
      attempts-Left (λ i. exchange_blob i request)
        (λ s i inside. exchange_blob-Ends s i inside request) (enough_attempts s) s
        (inl (omega arith))
