-- ===== src/Rest/Locks/Exchange.antt =====
-- The exchanges of eigerApp/src/restApi.cpp keep the socket that they hold, and want to be made again
-- only if they were made for the first time.
use adeiger.Base.{
  ℕ, zero, suc, ◌-◌, ◌≤◌, ◌<◌, ◌≡◌, refl, Bool, true, false, Option, none, some, List, [], ◌∷◌,
  ◌++◌, ◌==◌, length, arith, leb, ◌&&◌, if◌then◌else◌,
}
use adeiger.Rest.Outside.{Outside}
use adeiger.Rest.Monad.{Result, ok, failure, undefined, out_of_fuel, Api, M, IsFinal, pure, fail}
use adeiger.Rest.Header.{Header, parse_header}
use adeiger.Rest.Header.Bounds.{Parsed, parse_header-Parsed}
use adeiger.Rest.Request.{
  max_message_size, received, retry_or, if_closed, await_reply, response_array, close_if,
  take_reply, receive, exchange,
}
use adeiger.Rest.Blob.{
  is_code, first_part, receive_rest, unless_done, add_part, close_after, after_header, take_blob,
  receive_blob, exchange_blob,
}
use adeiger.Rest.Locks.{
  Keep, Keeps, Ends, bind-Keeps, bind-Ends, if-Keeps, if-Ends, pure-Keeps, some-Ends, lift-Keeps,
  require-Keeps, system-Keeps, socket-Keeps, close_socket-Keeps, connect-Keeps, retry_or-Ends,
  fail-Stops, closed-Stops, Post, Done, bind-Post, Hold,
}

final : (n : ℕ) (r : Result Header) → Parsed n r → IsFinal r
final n (ok h) x = tt
final n failure x = tt
final n undefined x = tt
final n out_of_fuel x = x

if-IsFinal : {A : Type 0} (b : Bool) (a : A) → IsFinal (if b then ok a else undefined)
if-IsFinal true a = tt
if-IsFinal false a = tt

first_part-IsFinal : (h : Header) (len : ℕ) → IsFinal (first_part h len)
unfolding first_part
first_part-IsFinal h len =
    if-IsFinal (leb h.header_len len && leb (len - h.header_len) h.content_length) _

module _ {o : Outside} (s : Api o) (i : ℕ) (inside : i < length s.sockets) where
  if_closed-Keeps : Keeps s i (if_closed i)
  unfolding if_closed
  if_closed-Keeps =
      bind-Keeps s i _ _ (socket-Keeps s i)
        λ y. if-Keeps s i y.closed _ _ (connect-Keeps s i inside) (pure-Keeps s i tt)

  await_reply-Keeps : (fd : ℕ) (timeout : Option ℕ) → Keeps s i (await_reply fd timeout)
  unfolding await_reply
  await_reply-Keeps fd none = lift-Keeps s i undefined tt
  await_reply-Keeps fd (some timeout) = system-Keeps s i (o.wait_readable fd timeout)

  response_array-Keeps : (size : ℕ) → Keeps s i (response_array size)
  unfolding response_array
  response_array-Keeps size = λ n t x. x

  close_if-Keeps : (b : Bool) → Keeps s i (close_if i b)
  unfolding close_if
  close_if-Keeps b = if-Keeps s i b _ _ (close_socket-Keeps s i inside) (pure-Keeps s i tt)

  fails : (A : Type 0) → Ends s i {A = A} (retry_or i fail)
  fails A = retry_or-Ends s i inside fail (fail-Stops s i inside _)

  take_reply-Ends : (bytes old : List ℕ) → Ends s i (take_reply i bytes old)
  unfolding take_reply
  take_reply-Ends [] old = fails _
  take_reply-Ends (b ∷ bytes) old =
      let buffer = received (b ∷ bytes) old in
      bind-Ends s i _ _
        (lift-Keeps s i (parse_header o buffer)
          (final _ (parse_header o buffer) (parse_header-Parsed o buffer)))
        λ header. bind-Ends s i _ _ (close_if-Keeps header.reconnect) λ u. some-Ends s i header

  receive-Ends : (timeout : Option ℕ) → Ends s i (receive i timeout)
  unfolding receive
  receive-Ends timeout = bind-Ends s i _ _ (socket-Keeps s i) λ y.
      bind-Ends s i _ _ (await_reply-Keeps y.fd timeout) λ ready.
        bind-Ends s i _ _ (require-Keeps s i ready) λ u.
          bind-Ends s i _ _ (response_array-Keeps max_message_size) λ old.
            bind-Ends s i _ _ (system-Keeps s i (o.recv y.fd max_message_size))
              λ bytes. take_reply-Ends bytes old

  pub exchange-Ends :
      (request : List ℕ) (timeout : Option ℕ) → Ends s i (exchange i request timeout)
  unfolding exchange
  exchange-Ends request timeout = bind-Ends s i _ _ if_closed-Keeps λ u.
      bind-Ends s i _ _ (socket-Keeps s i) λ y.
        bind-Ends s i _ _ (system-Keeps s i (o.send y.fd request)) λ sent.
          if-Ends s i sent _ _ (receive-Ends timeout)
            (retry_or-Ends s i inside _ (closed-Stops s i inside _))

  nonzero : (n : ℕ) → (n == 0) ≡ false → 1 ≤ n
  nonzero n h = ground arith

  add_part-Ends :
      (more : List ℕ → M o (Option (List ℕ))) (part : List ℕ)
      → ((b : ℕ) (bytes : List ℕ) → Ends s i (more (b ∷ bytes)))
      → Ends s i (add_part more i part)
  unfolding add_part
  add_part-Ends more [] h = fails _
  add_part-Ends more (b ∷ bytes) h = h b bytes

  unless_done-Ends :
      (done : Bool) (bytes : List ℕ) (m : M o (Option (List ℕ)))
      → (done ≡ false → Ends s i m)
      → Ends s i (unless_done done bytes m)
  unfolding unless_done
  unless_done-Ends true bytes m h = some-Ends s i bytes
  unless_done-Ends false bytes m h = h refl

  receive_rest-Ends :
      (fuel remaining : ℕ) (bytes : List ℕ)
      → remaining < fuel
      → Ends s i (receive_rest fuel i remaining bytes)
  unfolding receive_rest
  receive_rest-Ends zero remaining bytes h = absurd (omega arith)
  receive_rest-Ends (suc fuel) remaining bytes h = unless_done-Ends (remaining == 0) bytes _ λ more.
      bind-Ends s i _ _ (socket-Keeps s i) λ y.
        bind-Ends s i _ _ (system-Keeps s i (o.recv y.fd remaining)) λ part.
          add_part-Ends _ part λ b rest.
            receive_rest-Ends fuel (remaining - length (b ∷ rest)) (bytes ++ (b ∷ rest))
              (omega (arith, nonzero remaining more))

  close_after-Ends :
      (reconnect : Bool) (blob : Option (List ℕ))
      → (n : ℕ) (t : Api o) → Done s i n blob t
      → Post s i (Done s i n) (close_after i reconnect blob t)
  unfolding close_after pure
  close_after-Ends reconnect none n t x = x
  close_after-Ends reconnect (some bytes) n t x =
      bind-Post s i (λ _ u. Hold s i u) (Done s i n) (close_if i reconnect) _ t
        (released_after (close_if i reconnect t).0 (close_if i reconnect t).1
          (close_if-Keeps reconnect (x.0.retries) t (x.0, x.1, refl)))
        (λ u v y. y)
    where
      released_after :
          (r : Result (Unit {0})) (u : Api o)
          → Post s i (λ _. Keep s i (x.0.retries)) (r, u)
          → Post s i (λ _ v. Hold s i v) (r, u)
      released_after (ok a) u h = (h.0, h.1)
      released_after failure u h = h
      released_after undefined u h = tt
      released_after out_of_fuel u h = h

  take_blob-Ends : (bytes old : List ℕ) → Ends s i (take_blob i bytes old)
  unfolding take_blob after_header
  take_blob-Ends [] old = fails _
  take_blob-Ends (b ∷ bytes) old =
      let buffer = received (b ∷ bytes) old in
      bind-Ends s i _ _
        (lift-Keeps s i (parse_header o buffer)
          (final _ (parse_header o buffer) (parse_header-Parsed o buffer)))
        λ header. bind-Ends s i _ _ (require-Keeps s i (is_code 200 header.code)) λ u.
          bind-Ends s i _ _ (system-Keeps s i (o.malloc header.content_length)) λ granted.
            bind-Ends s i _ _ (require-Keeps s i granted) λ u.
              bind-Ends s i _ _
                (lift-Keeps s i (first_part header (length (b ∷ bytes)))
                  (first_part-IsFinal header (length (b ∷ bytes))))
                λ part. λ n t x.
                  bind-Post s i (Done s i n) (Done s i n) _ _ t
                    (receive_rest-Ends (suc (header.content_length - length part))
                      (header.content_length - length part) part (omega arith) n t x)
                    (λ blob u y. close_after-Ends header.reconnect blob n u y)

  pub exchange_blob-Ends : (request : List ℕ) → Ends s i (exchange_blob i request)
  unfolding exchange_blob receive_blob
  exchange_blob-Ends request = bind-Ends s i _ _ if_closed-Keeps λ u.
      bind-Ends s i _ _ (socket-Keeps s i) λ y.
        bind-Ends s i _ _ (system-Keeps s i (o.send y.fd request)) λ sent.
          if-Ends s i sent _ _
            (bind-Ends s i _ _ (socket-Keeps s i) λ y.
              bind-Ends s i _ _ (response_array-Keeps max_message_size) λ old.
                bind-Ends s i _ _ (system-Keeps s i (o.recv y.fd max_message_size))
                  λ bytes. take_blob-Ends bytes old)
            (fails _)
