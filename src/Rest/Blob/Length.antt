-- ===== src/Rest/Blob/Length.antt =====
-- The length of what `getBlob` of eigerApp/src/restApi.cpp hands out.
use adeiger.Base.{
  ℕ, zero, suc, ◌+◌, ◌-◌, ◌≤◌, ◌≡◌, refl, sym, subst, Bool, true, false, Option, none, some, List,
  [], ◌∷◌, ◌++◌, ◌==◌, Bool-cases, inl, inr, length, drop, leb, ◌&&◌, length-append, length-take,
  arith, if◌then◌else◌,
}
use adeiger.Rest.Outside.{Outside}
use adeiger.Rest.Monad.{
  Result, ok, failure, undefined, out_of_fuel, Api, M, continue, pure, fail, lift, require, system,
  socket, ◌>>=◌,
}
use adeiger.Rest.Header.{Header, parse_header}
use adeiger.Rest.Header.Bounds.{Parsed, parse_header-Parsed}
use adeiger.Rest.Sockets.{may_retry}
use adeiger.Rest.Request.{received, retry_or, close_if}
use adeiger.Rest.Blob.{
  is_code, first_part, receive_rest, unless_done, add_part, close_after, after_header, take_blob,
}

-- `recv` writes no more bytes than it is asked for.
abbrev pub IsBounded : Outside → Type 0
IsBounded o = (fd n : ℕ) (net : o.Net) → length (o.recv fd n net).0 ≤ n

-- A file of `n` bytes, or no file yet.
abbrev pub HasLength : ℕ → Option (List ℕ) → Type 0
HasLength n none = Unit
HasLength n (some bytes) = length bytes ≡ n

eq_zero : (n : ℕ) → (n == 0) ≡ true → n ≡ 0
eq_zero n h = ground arith

within : (a b c : ℕ) → (leb a b && leb (b - a) c) ≡ true → b - a ≤ c
within a b c h = ground arith

module _ (o : Outside) where
  inside :
      (bytes old : List ℕ) (h : Header)
      → parse_header o (received bytes old) ≡ ok h
      → length bytes ≤ h.header_len + length h.content
  inside bytes old h is =
      let k : h.header_len + length h.content ≡ length (received bytes old) =
        subst (Parsed (length (received bytes old))) is
          (parse_header-Parsed o (received bytes old)) in
      omega (arith, k, length-append bytes (drop (length bytes) old))

module _ {o : Outside} where
  -- What holds of a result, if there is one.
  abbrev pub Gives : {A : Type 0} → (A → Type 0) → Result A × Api o → Type 0
  Gives Q (ok a, t) = Q a
  Gives Q (failure, t) = Unit
  Gives Q (undefined, t) = Unit
  Gives Q (out_of_fuel, t) = Unit

  Gives-any : {A : Type 0} (r : Result A × Api o) → Gives (λ _. Unit {0}) r
  Gives-any (ok a, t) = tt
  Gives-any (failure, t) = tt
  Gives-any (undefined, t) = tt
  Gives-any (out_of_fuel, t) = tt

  continue-Gives :
      {A B : Type 0} (P : A → Type 0) (Q : B → Type 0) (r : Result A) (t : Api o) (f : A → M o B)
      → Gives P (r, t)
      → ((a : A) (u : Api o) → P a → Gives Q (f a u))
      → Gives Q (continue r f t)
  continue-Gives P Q (ok a) t f h k = k a t h
  continue-Gives P Q failure t f h k = tt
  continue-Gives P Q undefined t f h k = tt
  continue-Gives P Q out_of_fuel t f h k = tt

  bind-Gives :
      {A B : Type 0} (P : A → Type 0) (Q : B → Type 0) (m : M o A) (f : A → M o B) (t : Api o)
      → Gives P (m t)
      → ((a : A) (u : Api o) → P a → Gives Q (f a u))
      → Gives Q ((m >>= f) t)
  unfolding ◌>>=◌
  bind-Gives P Q m f t h k = continue-Gives P Q (m t).0 (m t).1 f h k

  if-Gives :
      {A : Type 0} (Q : A → Type 0) (b : Bool) (m k : M o A) (t : Api o)
      → Gives Q (m t)
      → Gives Q (k t)
      → Gives Q ((if b then m else k) t)
  if-Gives Q true m k t x y = x
  if-Gives Q false m k t x y = y

  fails-Gives : (n i : ℕ) (t : Api o) → Gives (HasLength n) (retry_or i fail t)
  unfolding retry_or pure fail
  fails-Gives n i t =
      bind-Gives (λ _. Unit {0}) (HasLength n) (may_retry i) _ t (Gives-any (may_retry i t))
        λ again u x. if-Gives (HasLength n) again _ _ u tt tt

  unless_done-Gives :
      (n remaining : ℕ) (bytes : List ℕ) (done : Bool) (m : M o (Option (List ℕ))) (t : Api o)
      → (done ≡ true → length bytes ≡ n)
      → Gives (HasLength n) (m t)
      → Gives (HasLength n) (unless_done done bytes m t)
  unfolding unless_done pure
  unless_done-Gives n remaining bytes true m t h k = h refl
  unless_done-Gives n remaining bytes false m t h k = k

  add_part-Gives :
      (n i : ℕ) (more : List ℕ → M o (Option (List ℕ))) (part : List ℕ) (t : Api o)
      → Gives (HasLength n) (more part t)
      → Gives (HasLength n) (add_part more i part t)
  unfolding add_part
  add_part-Gives n i more [] t h = fails-Gives n i t
  add_part-Gives n i more (b ∷ part) t h = h

  module _ (bounded : IsBounded o) where
    -- A part of the content that `recv` hands over.
    part-Gives :
        (fd n : ℕ) (t : Api o) → Gives (λ (part : List ℕ). length part ≤ n) (system (o.recv fd n) t)
    unfolding system
    part-Gives fd n t = bounded fd n t.net

    receive_rest-Gives :
        (fuel i remaining : ℕ) (bytes : List ℕ) (t : Api o)
        → Gives (HasLength (length bytes + remaining)) (receive_rest fuel i remaining bytes t)
    unfolding receive_rest lift
    receive_rest-Gives zero i remaining bytes t = tt
    receive_rest-Gives (suc fuel) i remaining bytes t =
        let n = length bytes + remaining in
        unless_done-Gives n remaining bytes (remaining == 0) _ t
          (λ e. omega (arith, eq_zero remaining e))
          (bind-Gives (λ _. Unit {0}) (HasLength n) (socket i) _ t (Gives-any (socket i t))
            λ y u x.
              bind-Gives _ (HasLength n) (system (o.recv y.fd remaining)) _ u
                (part-Gives y.fd remaining u)
                λ part v le. add_part-Gives n i _ part v (
                  subst
                    (λ k.
                      Gives (HasLength k)
                        (receive_rest fuel i (remaining - length part) (bytes ++ part) v))
                    (omega (arith, length-append bytes part))
                    (receive_rest-Gives fuel i (remaining - length part) (bytes ++ part) v)))

    close_after-Gives :
        (n : ℕ) (i : ℕ) (b : Bool) (blob : Option (List ℕ)) (t : Api o)
        → HasLength n blob
        → Gives (HasLength n) (close_after i b blob t)
    unfolding close_after pure
    close_after-Gives n i b none t h = tt
    close_after-Gives n i b (some bytes) t h =
        bind-Gives (λ _. Unit {0}) (HasLength n) (close_if i b) _ t (Gives-any (close_if i b t))
          λ u v x. h

    first_part-Gives :
        (h : Header) (len : ℕ) (t : Api o)
        → len ≤ h.header_len + length h.content
        → Gives (λ (part : List ℕ). length part ≤ h.content_length) (lift (first_part h len) t)
    unfolding lift first_part
    first_part-Gives h len t inside =
        elim (Bool-cases (leb h.header_len len && leb (len - h.header_len) h.content_length)) [
          | inl e ↦ rw e (
              omega (
                arith,
                length-take (len - h.header_len) h.content,
                within h.header_len len h.content_length e,
              ))
          | inr e ↦ rw e tt
        ]

    after_header-Gives :
        (i : ℕ) (h : Header) (len : ℕ) (t : Api o)
        → len ≤ h.header_len + length h.content
        → Gives (HasLength h.content_length) (after_header i h len t)
    unfolding after_header
    after_header-Gives i h len t inside =
        let n = h.content_length in
        bind-Gives (λ _. Unit {0}) (HasLength n) (require (is_code 200 h.code)) _ t
          (Gives-any (require (is_code 200 h.code) t))
          λ u t x.
            bind-Gives (λ _. Unit {0}) (HasLength n) (system (o.malloc n)) _ t
              (Gives-any (system (o.malloc n) t))
              λ granted t x.
                bind-Gives (λ _. Unit {0}) (HasLength n) (require granted) _ t
                  (Gives-any (require granted t))
                  λ u t x.
                    bind-Gives _ (HasLength n) (lift (first_part h len)) _ t
                      (first_part-Gives h len t inside)
                      λ part t le.
                        bind-Gives (HasLength n) (HasLength n)
                          (receive_rest _ i (n - length part) part) _ t
                          (subst
                            (λ k.
                              Gives (HasLength k)
                                (receive_rest (suc (n - length part)) i (n - length part) part t))
                            (omega arith)
                            (receive_rest-Gives (suc (n - length part)) i (n - length part) part t))
                          λ blob t y. close_after-Gives n i h.reconnect blob t y

    lift-Gives :
        {A : Type 0} (r : Result A) (a : A) (t : Api o) → r ≡ ok a → Gives (λ b. b ≡ a) (lift r t)
    unfolding lift
    lift-Gives r a t e = subst (λ q. Gives (λ b. b ≡ a) (q, t)) (sym e) refl

    -- If `getBlob` has received the first bytes of a reply, and hands out a file, then the file has just
    -- the length that the header of the reply says; where `recv` writes no more bytes than it is asked
    -- for.
    pub take_blob-HasLength :
        (i b : ℕ) (bytes old : List ℕ) (h : Header) (t : Api o)
        → parse_header o (received (b ∷ bytes) old) ≡ ok h
        → Gives (HasLength h.content_length) (take_blob i (b ∷ bytes) old t)
    unfolding take_blob
    take_blob-HasLength i b bytes old h t is =
        let n = h.content_length in
        bind-Gives (λ a. a ≡ h) (HasLength n) (lift (parse_header o (received (b ∷ bytes) old))) _ t
          (lift-Gives (parse_header o (received (b ∷ bytes) old)) h t is)
          λ a u e.
            subst
              (λ k. Gives (HasLength k.content_length) (after_header i a (length (b ∷ bytes)) u)) e
              (after_header-Gives i a (length (b ∷ bytes)) u (
                subst (λ k. length (b ∷ bytes) ≤ k.header_len + length k.content) (sym e)
                  (inside o (b ∷ bytes) old h is)))
