-- ===== src/Rest/Blob.antt =====
-- `getBlob` of eigerApp/src/restApi.cpp, after its request has been printed: the reply is received in
-- parts, into an array of the length that the header says.
pub mod Length
use adeiger.Base.{
  ℕ, zero, suc, ◌+◌, ◌-◌, Bool, true, false, Option, none, some, List, [], ◌∷◌, ◌++◌, leb, ◌==◌,
  length, take, ◌&&◌, if◌then◌else◌,
}
use adeiger.Base.Int.{ℤ, pos}
use adeiger.Rest.Outside.{Outside}
use adeiger.Rest.Monad.{
  Result, ok, undefined, out_of_fuel, M, pure, fail, lift, require, system, socket, ◌>>=◌, ◌>>◌,
}
use adeiger.Rest.Header.{Header, parse_header}
use adeiger.Rest.Request.{
  max_message_size, enough_attempts, received, retry_or, if_closed, response_array, close_if,
  attempts,
}

abbrev pub is_code : ℕ → ℤ → Bool
is_code n (pos m) = m == n
is_code n (ℤ.negsuc m) = false

-- The content behind the header in what was received at first. `memcpy` copies it into the array of
-- `content_length` bytes.
unfoldable pub first_part : Header → ℕ → Result (List ℕ)
first_part h len =
    if leb h.header_len len && leb (len - h.header_len) h.content_length
    then ok (take (len - h.header_len) h.content)
    else undefined

module _ {o : Outside} where
  -- `while(remaining)`
  unfoldable pub unless_done : Bool → List ℕ → M o (Option (List ℕ)) → M o (Option (List ℕ))
  unless_done true bytes m = pure (some bytes)
  unless_done false bytes m = m

  unfoldable pub add_part : (List ℕ → M o (Option (List ℕ))) → ℕ → List ℕ → M o (Option (List ℕ))
  add_part more i [] = retry_or i fail
  add_part more i (b ∷ bytes) = more (b ∷ bytes)

  -- The loop over the rest of the content.
  unfoldable pub receive_rest : ℕ → ℕ → ℕ → List ℕ → M o (Option (List ℕ))
  receive_rest zero i remaining bytes = lift out_of_fuel
  receive_rest (suc fuel) i remaining bytes = unless_done (remaining == 0) bytes (do
    s ← socket i
    part ← system (o.recv s.fd remaining)
    add_part (λ part. receive_rest fuel i (remaining - length part) (bytes ++ part)) i part)

  unfoldable pub close_after : ℕ → Bool → Option (List ℕ) → M o (Option (List ℕ))
  close_after i reconnect none = pure none
  close_after i reconnect (some bytes) = do close_if i reconnect; pure (some bytes)

  -- With the header of a reply of which `len` bytes have been received.
  unfoldable pub after_header : ℕ → Header → ℕ → M o (Option (List ℕ))
  after_header i header len = do
    require (is_code 200 header.code)
    granted ← system (o.malloc header.content_length)
    require granted
    part ← lift (first_part header len)
    blob ←
        receive_rest (suc (header.content_length - length part)) i
          (header.content_length - length part) part
    close_after i header.reconnect blob

  unfoldable pub take_blob : ℕ → List ℕ → List ℕ → M o (Option (List ℕ))
  take_blob i [] old = retry_or i fail
  take_blob i (b ∷ bytes) old = do
    header ← lift (parse_header o (received (b ∷ bytes) old))
    after_header i header (length (b ∷ bytes))

  unfoldable pub receive_blob : ℕ → M o (Option (List ℕ))
  receive_blob i = do
    s ← socket i
    old ← response_array max_message_size
    bytes ← system (o.recv s.fd max_message_size)
    take_blob i bytes old

  unfoldable pub exchange_blob : ℕ → List ℕ → M o (Option (List ℕ))
  exchange_blob i request = do
    if_closed i
    s ← socket i
    sent ← system (o.send s.fd request)
    if sent then receive_blob i else retry_or i fail

  unfoldable pub request_blob : List ℕ → M o (List ℕ)
  request_blob request s = attempts (enough_attempts s) (λ i. exchange_blob i request) s
