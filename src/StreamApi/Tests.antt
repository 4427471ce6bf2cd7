-- ===== src/StreamApi/Tests.antt =====
-- A receiver of eigerApp/src/streamApi.cpp whose messages are tokens that are already split.
use adeiger.Base.{
  ℕ, ◌≡◌, refl, true, Option, some, String, List, [], ◌∷◌, str_eq, codes, if◌then◌else◌,
}
use adeiger.Stream2Api.Outside.{ready}
use adeiger.Stream2Api.Monad.{crash, overflow, pure, fail, ◌>>=◌, modify}
use adeiger.StreamApi.Outside.{Token, Outside}
use adeiger.StreamApi.Monad.{Receiver, system, msg_init, msg_close}
use adeiger.StreamApi.Tokens.{read_size, read_chars, read_shape, read_below, scan_all}
use adeiger.StreamApi.Messages.{get_header, wait_frame}
use adeiger.StreamApi.Frame.{shaped_frame, json_frame, get_frame}
use adeiger.StreamApi.Balance.{OpenAfter, calls-Balanced}

abbrev of_text : List ℕ → Token
of_text text = record { text = text; onwards = text; below = [] }

-- A shape with three numbers.
abbrev shape_token : Token
shape_token = record {
  text = codes "[2,2,2]";
  onwards = codes "[2,2,2]";
  below = codes "2" ∷ codes "2" ∷ codes "2" ∷ [];
}

abbrev token : String → Option Token
token name =
    if str_eq name "shape"
    then some shape_token
    else if str_eq name "type"
    then some (of_text (codes "uint16"))
    else if str_eq name "encoding"
    then some (of_text (codes "<"))
    else if str_eq name "htype"
    then some (of_text (codes "dheader-1.0"))
    else some (of_text (codes "2"))

abbrev zmq : Outside
zmq = record {
  Net = Unit;
  poll = λ seconds net. (ready, net);
  recv = λ net. (codes "{}", net);
  Json = Unit;
  parse_json = λ bytes. some tt;
  find = λ json name. token name;
  scan_size = λ text. some 2;
  malloc = λ size net. (some [], net);
  alloc = λ dims t net. (true, net);
  lz4 = λ input size. [];
  bshuf = λ input elements size. [];
}

abbrev start : Receiver (Unit {0})
start = record { net = tt; open_messages = 0; series = 0; frame = 0 }

-- The third number of a shape is written behind the array of two.
long_shape : (get_frame zmq true start).0 ≡ crash overflow
unfolding get_frame json_frame shaped_frame read_shape read_below scan_all read_chars read_size pure
    fail ◌>>=◌ modify system msg_init msg_close
long_shape = refl

calls-Balanced_example :
    OpenAfter 0 (get_header zmq 1 start).0 (get_header zmq 1 start).1
    × OpenAfter 0 (wait_frame zmq 1 start).0 (wait_frame zmq 1 start).1
    × OpenAfter 0 (get_frame zmq true start).0 (get_frame zmq true start).1
calls-Balanced_example = calls-Balanced zmq 1 true start
