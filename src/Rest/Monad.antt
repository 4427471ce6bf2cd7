-- ===== src/Rest/Monad.antt =====
-- The state of a `RestAPI` of eigerApp/src/restApi.cpp, and the shape of its methods.
use adeiger.Base.{ℕ, Bool, true, List, get_or, set, if◌then◌else◌}
use adeiger.Rest.Outside.{Outside}

-- Who holds the mutex of a socket: this call, another thread, or nobody.
pub data Lock : Type 0 where
  free mine other : Lock

-- `socket_t`
pub record Socket : Type 0 where
  pub fd : ℕ
  pub lock : Lock
  pub closed : Bool
  pub retries : ℕ

pub data Result (A : Type 0) : Type 0 where
  ok : A → Result A
  -- `EXIT_FAILURE`
  failure : Result A
  -- a read or write outside an object, an object that was never written, a foreign mutex
  undefined : Result A
  out_of_fuel : Result A

-- The end of a loop's fuel is not reached.
abbrev pub IsFinal : {A : Type 0} → Result A → Type 0
IsFinal (ok a) = Unit
IsFinal failure = Unit
IsFinal undefined = Unit
IsFinal out_of_fuel = ⊥

-- What other threads do with the sockets between two steps of this call: which of them they change, in
-- order, and what they make of each.
abbrev pub Turn : Type 0
Turn = List (ℕ × Socket)

-- `turns` are those that come before the next calls of `tryLock`, one for each; the other threads are quiet
-- after the last.
module _ (o : Outside) where
  pub record Api : Type 0 where
    pub net : o.Net
    pub sockets : List Socket
    pub turns : List Turn

abbrev pub M : Outside → Type 0 → Type 0
M o A = Api o → Result A × Api o

abbrev pub no_socket : Socket
no_socket = record { fd = 0; lock = free; closed = true; retries = 0 }

module _ {o : Outside} where
  unfoldable pub pure : {A : Type 0} → A → M o A
  pure a s = (ok a, s)

  unfoldable pub fail : {A : Type 0} → M o A
  fail s = (failure, s)

  unfoldable pub lift : {A : Type 0} → Result A → M o A
  lift r s = (r, s)

  abbrev pub continue : {A B : Type 0} → Result A → (A → M o B) → M o B
  continue (ok a) f s = f a s
  continue failure f s = (failure, s)
  continue undefined f s = (undefined, s)
  continue out_of_fuel f s = (out_of_fuel, s)

  infixl 5 ◌>>=◌ ◌>>◌
  unfoldable pub ◌>>=◌ : {A B : Type 0} → M o A → (A → M o B) → M o B
  ◌>>=◌ m f s = let (r, s') = m s in continue r f s'

  abbrev pub ◌>>◌ : {A B : Type 0} → M o A → M o B → M o B
  m >> k = m >>= λ _. k

  unfoldable pub require : Bool → M o (Unit {0})
  require b = if b then pure tt else fail

  -- A call of the operating system.
  unfoldable pub system : {A : Type 0} → (o.Net → A × o.Net) → M o A
  system f s = let (a, net) = f s.net in (ok a, record s { net = net })

  unfoldable pub system_do : (o.Net → o.Net) → M o (Unit {0})
  system_do f s = (ok tt, record s { net = f s.net })

  unfoldable pub socket : ℕ → M o Socket
  socket i s = (ok (get_or s.sockets i no_socket), s)

  unfoldable pub store : ℕ → Socket → M o (Unit {0})
  store i socket s = (ok tt, record s { sockets = set s.sockets i socket })
