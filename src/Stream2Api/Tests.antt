-- ===== src/Stream2Api/Tests.antt =====
-- A receiver of eigerApp/src/stream2Api.cpp that reads the image message of `Stream2.Tests`.
use adeiger.Base.{ℕ, ◌≡◌, refl, subst, sym, true, false, none, some, [], arith}
use adeiger.Stream2.Tests.{empty_heap, image_env, image_forward, image_run, image_contents}
use adeiger.Stream2Api.Outside.{ready, Outside}
use adeiger.Stream2Api.Monad.{ok, success, Receiver, pure, modify, ◌>>=◌, system}
use adeiger.Stream2Api.Messages.{
  Waited, poll_first, set_open, take_parsed, receive, keep_image, read_frame, frame_after,
  wait_frame,
}
use adeiger.Stream2Api.Frame.{get_frame}
use adeiger.Stream2Api.Life.{new_receiver}
use adeiger.Stream2Api.Owns.Calls.{Calls, none_yet, then_call, wait, IsSafe, Calls-IsSafe}
use adeiger.Stream2Api.Bounds.{NoOverflow, AnyOf, SmallImage, get_frame-NoOverflow}

-- Every message that is received lies at address 0 and has 60 bytes.
abbrev zmq : Outside
zmq = record {
  Net = Unit;
  poll = λ seconds net. (ready, net);
  recv = λ net. ((0, 60), net);
  alloc = λ dims t net. (true, net);
  lz4 = λ ptr size. (true, []);
  bshuf = λ ptr elements size. (true, []);
  scan_threshold = λ text. none;
  parse_date = λ text. (0, 0);
}

abbrev start : Receiver ℕ (Unit {0})
start = new_receiver image_env zmq tt empty_heap (0, 0)

abbrev image_waits : Waited
image_waits = record { status = success; end = false; num_thresholds = some 1 }

abbrev with_image : Receiver ℕ (Unit {0})
with_image = (wait_frame image_env zmq 0 start).1

wait_frame_returns : (wait_frame image_env zmq 0 start).0 ≡ ok image_waits
unfolding wait_frame frame_after poll_first receive set_open take_parsed read_frame keep_image pure
    modify ◌>>=◌ system new_receiver
wait_frame_returns = rw image_run refl

one_call : Calls image_env zmq start with_image
one_call = then_call none_yet (wait 0 start image_waits wait_frame_returns)

holds_image : with_image.image ≡ some (0, image_contents)
unfolding wait_frame frame_after poll_first receive set_open take_parsed read_frame keep_image pure
    modify ◌>>=◌ system new_receiver
holds_image = rw (with_image, image_run) refl

image_small : SmallImage image_env zmq with_image.image
image_small = subst (SmallImage image_env zmq) (sym holds_image) ((omega arith, omega arith), tt)

Calls-IsSafe_example : IsSafe image_env zmq image_forward with_image
Calls-IsSafe_example =
    Calls-IsSafe image_env zmq image_forward tt empty_heap (0, 0) with_image one_call

get_frame-NoOverflow_example : NoOverflow AnyOf (get_frame image_env zmq 0 true false with_image).0
get_frame-NoOverflow_example =
    get_frame-NoOverflow image_env zmq image_forward tt empty_heap (0, 0) with_image one_call
      image_small 0 false
