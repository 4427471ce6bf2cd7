-- ===== src/StreamApi/Monad.antt =====
-- The state of a `StreamAPI` of eigerApp/src/streamApi.cpp.
use adeiger.Base.{ℕ, suc, ◌-◌}
use adeiger.Stream2Api.Monad.{ok, M, modify}

-- `enum stream_err`
pub data Status : Type 0 where
  success timeout wrong_htype error : Status

-- `open_messages` is the number of messages that are initialised and not closed.
pub record Receiver (N : Type 0) : Type 0 where
  pub net : N
  pub open_messages : ℕ
  pub series : ℕ
  pub frame : ℕ

module _ {N : Type 0} where
  unfoldable pub system : {A : Type 0} → (N → A × N) → M (Receiver N) A
  system f s = let (a, net) = f s.net in (ok a, record s { net = net })

  -- `zmq_msg_init` and `zmq_msg_close`
  unfoldable pub msg_init : M (Receiver N) (Unit {0})
  msg_init = modify (λ s. record s { open_messages = suc s.open_messages })

  unfoldable pub msg_close : M (Receiver N) (Unit {0})
  msg_close = modify (λ s. record s { open_messages = s.open_messages - 1 })
