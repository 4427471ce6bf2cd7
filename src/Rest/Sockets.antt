-- ===== src/Rest/Sockets.antt =====
-- The sockets of a `RestAPI` in eigerApp/src/restApi.cpp: which one a request takes, how it is
-- connected, and how a request leaves it.
use adeiger.Base.{
  ℕ, zero, suc, ◌+◌, Bool, true, false, none, some, List, [], ◌∷◌, get_or, set, length, ltb,
  if◌then◌else◌,
}
use adeiger.Rest.Outside.{Connected, connected, in_progress, refused, Outside}
use adeiger.Rest.Monad.{
  Lock, free, mine, other, Socket, Turn, ok, undefined, Api, M, no_socket, pure, fail, system,
  system_do, socket, store, ◌>>=◌, ◌>>◌,
}

-- `MAX_HTTP_RETRIES`
abbrev pub max_http_retries : ℕ
max_http_retries = 1

abbrev pub is_free : Lock → Bool
is_free free = true
is_free mine = false
is_free other = false

-- What is left of the sockets by other threads.
unfoldable pub changed_by : Turn → List Socket → List Socket
changed_by [] sockets = sockets
changed_by ((i, x) ∷ turn) sockets = changed_by turn (set sockets i x)

-- What the end of a request does to the socket that it holds, and what a retry does.
abbrev pub released : Socket → Socket
released s = record s { lock = free; retries = 0 }

abbrev pub dropped : Socket → Socket
dropped s = record s { lock = free; closed = true }

module _ {o : Outside} where
  abbrev pub member : Api o → ℕ → Socket
  member s i = get_or s.sockets i no_socket

  -- Other threads may do something before each `tryLock`.
  unfoldable pub turned : List Turn → Api o → Api o
  turned [] s = s
  turned (turn ∷ turns) s = record s { sockets = changed_by turn s.sockets; turns = turns }

  unfoldable pub lock_socket : ℕ → M o ℕ
  lock_socket i s =
      (ok i, record s { sockets = set s.sockets i (record (member s i) { lock = mine }) })

  -- The loop over the sockets, with so many to go. With no mutex that can be locked, the code goes on to
  -- unlock that of the last socket, which another thread holds, or of one that is not there.
  unfoldable pub take_from : ℕ → ℕ → M o ℕ
  take_from zero i s = (undefined, s)
  take_from (suc n) i s =
      let t = turned s.turns s in
      let rest = take_from n (suc i) t in
      if is_free (member t i).lock then lock_socket i t else rest

  unfoldable pub take_socket : M o ℕ
  take_socket s = take_from (length s.sockets) 0 s

  unfoldable pub set_closed : ℕ → Bool → M o (Unit {0})
  set_closed i closed s = store i (record (member s i) { closed = closed }) s

  unfoldable pub set_fd : ℕ → ℕ → M o (Unit {0})
  set_fd i fd s = store i (record (member s i) { fd = fd }) s

  -- `s->retries++ < MAX_HTTP_RETRIES`
  unfoldable pub may_retry : ℕ → M o Bool
  may_retry i s = (
    ok (ltb (member s i).retries max_http_retries),
    record s {
      sockets = set s.sockets i (record (member s i) { retries = (member s i).retries + 1 });
    },
  )

  unfoldable pub close_socket : ℕ → M o (Unit {0})
  close_socket i = do s ← socket i; system_do (o.close s.fd); set_closed i true

  -- The label `end`.
  unfoldable pub release : ℕ → Api o → Api o
  release i s = record s { sockets = set s.sockets i (released (member s i)) }

  -- The label `retry`, up to the call.
  unfoldable pub drop_socket : ℕ → Api o → Api o
  drop_socket i s = record s {
    net = o.close (member s i).fd s.net;
    sockets = set s.sockets i (dropped (member s i));
  }

  -- After `::connect`: the server may take a second to answer.
  unfoldable pub await : ℕ → Connected → M o Bool
  await fd connected = pure true
  await fd in_progress = system (o.wait_writable fd)
  await fd refused = pure false

  unfoldable pub connect_new : ℕ → ℕ → M o (Unit {0})
  connect_new i fd = do
    set_fd i fd
    system_do (o.set_blocking fd false)
    answer ← system (o.connect fd)
    done ← await fd answer
    if done
        then (do system_do (o.set_blocking fd true); set_closed i false)
        else (do system_do (o.destroy fd); fail)

  unfoldable pub connect : ℕ → M o (Unit {0})
  connect i = do
    s ← socket i
    if s.closed
        then (do fd ← system o.create; elim fd [ none ↦ fail | some fd ↦ connect_new i fd ])
        else pure tt
