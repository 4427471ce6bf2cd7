-- ===== src/Rest/Request.antt =====
-- `doRequest` of eigerApp/src/restApi.cpp.
use adeiger.Base.{
  ℕ, zero, suc, ◌+◌, ◌-◌, Bool, true, Option, none, some, List, [], ◌∷◌, ◌++◌, leb, length, take,
  drop, if◌then◌else◌,
}
use adeiger.Rest.Outside.{Outside}
use adeiger.Rest.Monad.{
  Result, ok, failure, undefined, out_of_fuel, Api, M, pure, fail, lift, require, system, socket,
  ◌>>=◌, ◌>>◌,
}
use adeiger.Rest.Header.{Header, parse_header}
use adeiger.Rest.Sockets.{
  take_socket, set_closed, may_retry, close_socket, release, drop_socket, connect,
}

-- `MAX_MESSAGE_SIZE`
abbrev pub max_message_size : ℕ
max_message_size = 512

-- The first bytes of an array, in which the text that `snprintf` printed may be cut off.
unfoldable pub printed : ℕ → List ℕ → Result (List ℕ)
printed size text =
    if leb (length text) size
    then ok (take (length text) (take (size - 1) text ++ (0 ∷ [])))
    else undefined

-- What `recv` leaves of an array.
abbrev pub received : List ℕ → List ℕ → List ℕ
received bytes old = bytes ++ drop (length bytes) old

-- `string(response.content, response.contentLength)`
unfoldable pub content_text : Header → Result (List ℕ)
content_text h =
    if leb h.content_length (length h.content)
    then ok (take h.content_length h.content)
    else undefined

module _ {o : Outside} where
  -- `goto retry` or, with `e`, an error.
  unfoldable pub retry_or : {A : Type 0} → ℕ → M o (Option A) → M o (Option A)
  retry_or i e = do again ← may_retry i; if again then pure none else e

  unfoldable pub if_closed : ℕ → M o (Unit {0})
  if_closed i = do s ← socket i; if s.closed then connect i else pure tt

  -- `select` on a set of sockets that is only written when there is a timeout.
  unfoldable pub await_reply : ℕ → Option ℕ → M o Bool
  await_reply fd none = lift undefined
  await_reply fd (some timeout) = system (o.wait_readable fd timeout)

  -- An array on the stack, with what it holds before it is written.
  unfoldable pub response_array : ℕ → M o (List ℕ)
  response_array size s = (ok (take size (o.garbage s.net)), s)

  unfoldable pub close_if : ℕ → Bool → M o (Unit {0})
  close_if i reconnect = if reconnect then close_socket i else pure tt

  unfoldable pub take_reply : ℕ → List ℕ → List ℕ → M o (Option Header)
  take_reply i [] old = retry_or i fail
  take_reply i (b ∷ bytes) old = do
    header ← lift (parse_header o (received (b ∷ bytes) old))
    close_if i header.reconnect
    pure (some header)

  -- With the request sent: the reply.
  unfoldable pub receive : ℕ → Option ℕ → M o (Option Header)
  receive i timeout = do
    s ← socket i
    ready ← await_reply s.fd timeout
    require ready
    old ← response_array max_message_size
    bytes ← system (o.recv s.fd max_message_size)
    take_reply i bytes old

  -- From the connection to the label `end`; `none` for `goto retry`.
  unfoldable pub exchange : ℕ → List ℕ → Option ℕ → M o (Option Header)
  exchange i request timeout = do
    if_closed i
    s ← socket i
    sent ← system (o.send s.fd request)
    if sent then receive i timeout else retry_or i (do set_closed i true; fail)

  -- What follows the exchange over socket `i`; `again` is the call at the label `retry`.
  unfoldable pub ended : {A : Type 0} → ℕ → M o A → Result (Option A) → M o A
  ended i again (ok none) s = again (drop_socket i s)
  ended i again (ok (some a)) s = (ok a, release i s)
  ended i again failure s = (failure, release i s)
  ended i again undefined s = (undefined, s)
  ended i again out_of_fuel s = (out_of_fuel, s)

  -- What follows the loop over the sockets.
  unfoldable pub with_socket : {A : Type 0} → (ℕ → M o (Option A)) → M o A → Result ℕ → M o A
  with_socket body again (ok i) s = let r = body i s in ended i again r.0 r.1
  with_socket body again failure s = (failure, s)
  with_socket body again undefined s = (undefined, s)
  with_socket body again out_of_fuel s = (out_of_fuel, s)

  -- A request that calls itself again after `goto retry`, by when the socket is unlocked and other threads may
  -- take it.
  unfoldable pub attempts : {A : Type 0} → ℕ → (ℕ → M o (Option A)) → M o A
  attempts zero body s = (out_of_fuel, s)
  attempts (suc fuel) body s =
      let r = take_socket s in with_socket body (attempts fuel body) r.0 r.1

  -- Each attempt lets other threads have a turn, as long as they want one; there are two after that.
  abbrev pub enough_attempts : Api o → ℕ
  enough_attempts s = length s.turns + 2

  unfoldable pub do_request : List ℕ → Option ℕ → M o Header
  do_request request timeout s = attempts (enough_attempts s) (λ i. exchange i request timeout) s
