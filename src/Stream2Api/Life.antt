-- ===== src/Stream2Api/Life.antt =====
-- The constructor and the destructor of `Stream2API` in eigerApp/src/stream2Api.cpp.
use adeiger.Base.{ℕ, false, none, []}
use adeiger.Cbor.{Env}
use adeiger.Stream2.Memory.{Heap, block, free}
use adeiger.Stream2Api.Outside.{Outside}
use adeiger.Stream2Api.Monad.{Receiver, M, ◌>>◌, modify, give_back}
use adeiger.Stream2Api.Messages.{free_thresholds}

module _ (e : Env) (o : Outside) where
  open e use {Double}
  open o use {Net}

  -- What the constructor leaves, where ZeroMQ grants the context and the socket.
  unfoldable pub new_receiver : Net → Heap → ℕ × ℕ → Receiver Double Net
  new_receiver net heap unset_ts = record {
    net = net;
    heap = heap;
    msg_open = false;
    image = none;
    num_thresholds = 0;
    series_id = 0;
    image_dtype = none;
    image_size = (0, 0);
    number_of_images = 0;
    thresholds = [];
    cached_ts = ("", unset_ts);
  }

  -- The image that is still held is not freed.
  unfoldable pub destroy : M (Receiver Double Net) (Unit {0})
  destroy = do
    λ s. give_back (free (block s.image_dtype)) s
    modify (λ s. record s { image_dtype = none })
    λ s. free_thresholds e o s.thresholds s
    modify (λ s. record s { thresholds = [] })
