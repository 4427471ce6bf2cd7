-- ===== src/Rest/Tests.antt =====
-- Requests of eigerApp/src/restApi.cpp to a small server, and the theorems at concrete values.
use adeiger.Base.{
  ℕ, ◌+◌, ◌*◌, ◌-◌, ◌≡◌, refl, Bool, true, false, Option, none, some, List, [], ◌∷◌, ◌++◌, ◌==◌,
  leb, ◌&&◌, length, take, drop, length-take-le, codes, arith, if◌then◌else◌, ◌≤◌, inl, inr,
}
use adeiger.Base.Int.{ℤ, pos}
use adeiger.Rest.Outside.{connected, Outside}
use adeiger.Rest.Monad.{
  free, other, ok, Socket, Api, socket, system, system_do, require, pure, fail, lift, store, ◌>>=◌,
}
use adeiger.Rest.Sockets.{
  take_socket, take_from, turned, changed_by, lock_socket, may_retry, connect, connect_new, await,
  set_fd, set_closed, release, drop_socket,
}
use adeiger.Rest.Header.{
  Header, parse_header, with_code, after_status, read_fields, read_line, read_field, length_value,
  find_eol, find_colon, same_word,
}
use adeiger.Rest.Header.Bounds.{Parsed, parse_header-Parsed}
use adeiger.Rest.Header.Roundtrip.{
  read_all, print_fields, print_reply, blank_header, parse_header-print_reply,
}
use adeiger.Rest.Header.Content.{content_text-print_reply}
use adeiger.Rest.Request.{
  do_request, content_text, attempts, with_socket, ended, exchange, if_closed, receive, await_reply,
  response_array, take_reply, retry_or, close_if,
}
use adeiger.Rest.Blob.{take_blob, request_blob}
use adeiger.Rest.Blob.Length.{IsBounded, Gives, HasLength, take_blob-HasLength}
use adeiger.Rest.Locks.Used.{Left}
use adeiger.Rest.Locks.Attempts.{do_request-Left, request_blob-Left}
use adeiger.Rest.FileNames.{find_id, put_id}
use adeiger.Rest.FileNames.PutId.{put_id-first}

abbrev is_digit : ℕ → Bool
is_digit c = leb 48 c && leb c 57

abbrev read_digits : ℕ → List ℕ → ℕ
read_digits n [] = n
read_digits n (c ∷ text) =
    let rest = read_digits (10 * n + (c - 48)) text in if is_digit c then rest else n

abbrev read_number : List ℕ → Option ℕ
read_number [] = none
read_number (c ∷ text) =
    let rest = read_number text in
    if c == 32 then rest else if is_digit c then some (read_digits 0 (c ∷ text)) else none

abbrev second_word : List ℕ → List ℕ
second_word [] = []
second_word (c ∷ text) = let rest = second_word text in if c == 32 then text else rest

abbrev read_code : List ℕ → Option ℤ
read_code text = elim (read_number (second_word text)) [ none ↦ none | some n ↦ some (pos n) ]

abbrev read_word : List ℕ → List ℕ
read_word [] = []
read_word (c ∷ text) = let rest = c ∷ read_word text in if leb c 32 then [] else rest

abbrev skip_blanks : List ℕ → List ℕ
skip_blanks [] = []
skip_blanks (c ∷ text) = let rest = skip_blanks text in if c == 32 then rest else c ∷ text

-- The network is the list of what `recv` will hand over.
abbrev next_part : ℕ → List (List ℕ) → List ℕ × List (List ℕ)
next_part n [] = ([], [])
next_part n (part ∷ parts) = (take n part, parts)

abbrev pub server : Outside
server = record {
  Net = List (List ℕ);
  create = λ net. (some 7, net);
  set_blocking = λ fd b net. net;
  connect = λ fd net. (connected, net);
  wait_writable = λ fd net. (true, net);
  destroy = λ fd net. net;
  send = λ fd bytes net. (true, net);
  wait_readable = λ fd timeout net. (true, net);
  recv = λ fd n net. next_part n net;
  close = λ fd net. net;
  malloc = λ n net. (true, net);
  garbage = λ net. 0 ∷ 0 ∷ [];
  Seconds = ℕ;
  zero_seconds = 0;
  clock = λ net. (0, net);
  within = λ start now timeout. false;
  sleep_rest = λ start end exposure net. net;
  is_zero = λ x. x == 0;
  scan_code = read_code;
  scan_length = read_number;
  scan_int = λ text. none;
  scan_word = λ text. some (read_word (skip_blanks text));
  show_int = λ n. codes "7";
  show_six = λ n. codes "000001";
  show_length = λ n. codes "0";
  show_seconds = λ n. codes "1.5";
  Json = List ℕ;
  parse_json = λ text. some text;
  is_object = λ json. true;
  find = λ json name. none;
}

abbrev next_part-le : (n : ℕ) (net : List (List ℕ)) → length (next_part n net).0 ≤ n
next_part-le n [] = omega arith
next_part-le n (part ∷ parts) = length-take-le n part

server-IsBounded : IsBounded server
server-IsBounded = λ fd n net. next_part-le n net

abbrev status : List ℕ
status = codes "HTTP/1.1 200 OK"

abbrev key : List ℕ
key = codes "Content-Length"

abbrev reply : List ℕ
reply = print_reply status ((key, codes " 5") ∷ []) (codes "hello" ++ (0 ∷ []))

parse_header-Parsed_example : Parsed (length reply) (parse_header server reply)
parse_header-Parsed_example = parse_header-Parsed server reply

parse_header-print_reply_example :
    parse_header server reply
    ≡ read_all server 17
        ((key, codes " 5") ∷ [])
        (codes "hello" ++ (0 ∷ []))
        (blank_header (pos 200))
parse_header-print_reply_example =
    parse_header-print_reply server status ((key, codes " 5") ∷ []) (codes "hello" ++ (0 ∷ []))
      (pos 200) (omega arith) (omega arith) refl

-- A reply with other fields around the length.
abbrev before : List (List ℕ × List ℕ)
before = (codes "Server", codes " Eiger") ∷ []

abbrev behind : List (List ℕ × List ℕ)
behind = (codes "Connection", codes " close") ∷ []

abbrev long_reply : List ℕ
long_reply = print_reply status (before ++ ((key, codes " 5") ∷ behind)) (codes "hello" ++ (0 ∷ []))

content_text-print_reply_example :
    (h : Header) × (parse_header server long_reply ≡ ok h)
    × (h.code ≡ pos 200)
    × (content_text h ≡ ok (codes "hello"))
unfolding same_word print_fields
content_text-print_reply_example =
    content_text-print_reply server status key (codes " 5") (codes "hello") (0 ∷ []) before behind
      (pos 200) (omega arith) (omega arith) ((refl, inl refl), tt)
      ((refl, inr (codes "close", refl, omega arith)), tt) refl refl refl

-- The first socket is in use by another thread, and the second was left open by the detector's last
-- reply.
abbrev two_sockets : Api server
two_sockets = record {
  net = [] ∷ reply ∷ [];
  sockets =
      record { fd = 3; lock = other; closed = false; retries = 0 }
      ∷ record { fd = 4; lock = free; closed = false; retries = 0 }
      ∷ [];
  turns = [];
}

-- The first socket breaks the connection, and another thread takes it before the second attempt; the second
-- socket breaks the connection once.
abbrev taken_socket : Socket
taken_socket = record { fd = 3; lock = other; closed = true; retries = 1 }

abbrev contended : Api server
contended = record {
  net = [] ∷ [] ∷ reply ∷ [];
  sockets =
      record { fd = 3; lock = free; closed = false; retries = 0 }
      ∷ record { fd = 4; lock = free; closed = false; retries = 0 }
      ∷ [];
  turns = [] ∷ ((0, taken_socket) ∷ []) ∷ [];
}

-- Three attempts are made, and the third works.
three_attempts :
    let r = do_request (codes "GET") (some 20) contended in
    (r.1.net ≡ [])
    × (r.1.sockets
        ≡ taken_socket ∷ record { fd = 7; lock = free; closed = false; retries = 0 } ∷ [])
unfolding do_request attempts with_socket ended take_socket take_from turned changed_by lock_socket
    exchange if_closed socket receive await_reply system system_do require pure fail response_array
    take_reply retry_or may_retry close_if connect connect_new await set_fd set_closed store release
    drop_socket ◌>>=◌ lift parse_header with_code after_status read_fields read_line read_field
    length_value find_eol find_colon same_word print_fields
three_attempts = (refl, refl)

do_request-Left_example : Left 4 contended (do_request (codes "GET") (some 20) contended)
do_request-Left_example = do_request-Left (codes "GET") (some 20) contended

request_blob-Left_example : Left 4 contended (request_blob (codes "GET") contended)
request_blob-Left_example = request_blob-Left (codes "GET") contended

abbrev reply_header : Header
reply_header = record {
  code = pos 200;
  content_length = 5;
  reconnect = false;
  header_len = 38;
  content = codes "hello" ++ (0 ∷ []);
}

take_blob-HasLength_example : Gives (HasLength 5) (take_blob 1 (72 ∷ drop 1 reply) [] two_sockets)
unfolding parse_header with_code after_status read_fields read_line read_field length_value find_eol
    find_colon same_word print_fields
take_blob-HasLength_example =
    take_blob-HasLength server-IsBounded 1 72 (drop 1 reply) [] reply_header two_sockets refl

put_id-first_example : put_id (codes "run_$id_x") (codes "12") ≡ codes "run_12_x"
unfolding find_id
put_id-first_example = put_id-first (codes "run_") (codes "_x") (codes "12") refl
