-- ===== src/Rest/Commands.antt =====
-- The requests of eigerApp/src/restApi.cpp: their texts, and what their replies mean.
use adeiger.Base.{
  ℕ, zero, suc, true, false, Option, none, some, List, [], ◌∷◌, ◌++◌, leb, length, take, codes,
  if◌then◌else◌,
}
use adeiger.Base.Int.{ℤ, pos}
use adeiger.Param.Outside.{
  Sys, api_version, det_config, det_status, fw_config, fw_status, fw_command, command, data_files,
  mon_config, mon_status, mon_images, stream_config, stream_status, sys_command,
}
use adeiger.Rest.Outside.{Outside}
use adeiger.Rest.Monad.{out_of_fuel, M, pure, fail, lift, require, system, system_do, ◌>>=◌, ◌>>◌}
use adeiger.Rest.Header.{Header}
use adeiger.Rest.Request.{max_message_size, printed, content_text, do_request}
use adeiger.Rest.Header.{max_buf_size}
use adeiger.Rest.Blob.{is_code, request_blob}

-- Where the detector is, and the version of its interface, of which the addresses are made.
pub record Address : Type 0 where
  pub hostname : List ℕ
  pub api : List ℕ

-- `mSysStr`
unfoldable pub sys_path : List ℕ → Sys → List ℕ
sys_path api api_version = codes "/detector/api/version"
sys_path api det_config = codes "/detector/api/" ++ api ++ codes "/config/"
sys_path api det_status = codes "/detector/api/" ++ api ++ codes "/status/"
sys_path api fw_config = codes "/filewriter/api/" ++ api ++ codes "/config/"
sys_path api fw_status = codes "/filewriter/api/" ++ api ++ codes "/status/"
sys_path api fw_command = codes "/filewriter/api/" ++ api ++ codes "/command/"
sys_path api command = codes "/detector/api/" ++ api ++ codes "/command/"
sys_path api data_files = codes "/data/"
sys_path api mon_config = codes "/monitor/api/" ++ api ++ codes "/config/"
sys_path api mon_status = codes "/monitor/api/" ++ api ++ codes "/status/"
sys_path api mon_images = codes "/monitor/api/" ++ api ++ codes "/images/"
sys_path api stream_config = codes "/stream/api/" ++ api ++ codes "/config/"
sys_path api stream_status = codes "/stream/api/" ++ api ++ codes "/status/"
sys_path api sys_command = codes "/system/api/" ++ api ++ codes "/command/"

abbrev pub eol : List ℕ
eol = 13 ∷ 10 ∷ []

abbrev pub native : List ℕ
native = codes "application/json; charset=utf-8"

-- The first line, and the line of the host.
abbrev pub request_line : List ℕ → Address → Sys → List ℕ → List ℕ
request_line method a sys name =
    method
    ++ codes " "
    ++ sys_path a.api sys
    ++ name
    ++ codes " HTTP/1.1"
    ++ eol
    ++ codes "Host: "
    ++ a.hostname
    ++ eol

unfoldable pub request_get : Address → Sys → List ℕ → List ℕ → List ℕ
request_get a sys name accept =
    request_line (codes "GET") a sys name
    ++ codes "Content-Length: 0"
    ++ eol
    ++ codes "Accept: "
    ++ accept
    ++ eol
    ++ eol

unfoldable pub request_put : Address → Sys → List ℕ → List ℕ → List ℕ
request_put a sys name content_length =
    request_line (codes "PUT") a sys name
    ++ codes "Accept-Encoding: identity"
    ++ eol
    ++ codes "Content-Type: "
    ++ native
    ++ eol
    ++ codes "Content-Length: "
    ++ content_length
    ++ eol
    ++ eol

unfoldable pub request_head : Address → Sys → List ℕ → List ℕ
request_head a sys name = request_line (codes "HEAD") a sys name ++ eol

unfoldable pub request_delete : Address → Sys → List ℕ → List ℕ
request_delete a sys name = request_line (codes "DELETE") a sys name ++ eol

abbrev pub default_timeout : Option ℕ
default_timeout = some 20

abbrev pub timeout_init : Option ℕ
timeout_init = some 240

abbrev pub timeout_arm : Option ℕ
timeout_arm = some 120

-- `{"value": ...}`, or nothing for an empty value.
unfoldable pub put_value : List ℕ → List ℕ
put_value [] = []
put_value (c ∷ value) = codes "{\"value\": " ++ (c ∷ value) ++ codes "}"

unfoldable pub series_token : (o : Outside) → o.Json → Option (List ℕ)
series_token o json = elim (o.find json (codes "sequence id")) [
  | none ↦ o.find json (codes "series id")
  | some token ↦ some token
]

-- A text printed into an array of `MAX_BUF_SIZE` characters, where it may be cut off.
abbrev pub cut : List ℕ → List ℕ
cut text = take 255 text

-- One second more, as a timeout: none if it is below 0.
unfoldable pub seconds_after : ℤ → Option ℕ
seconds_after (pos n) = some (suc n)
seconds_after (ℤ.negsuc zero) = some 0
seconds_after (ℤ.negsuc (suc n)) = none

module _ {o : Outside} where
  unfoldable pub get : Address → Sys → List ℕ → Option ℕ → M o (List ℕ)
  get a sys param timeout = do
    request ← lift (printed max_message_size (request_get a sys param native))
    header ← do_request request timeout
    require (is_code 200 header.code)
    lift (content_text header)

  -- `put` up to the test of the code.
  unfoldable pub put_request : Address → Sys → List ℕ → List ℕ → Option ℕ → M o Header
  put_request a sys param value timeout = do
    text ← lift (printed max_buf_size (put_value value))
    head ← lift (printed max_buf_size (request_put a sys param (o.show_length (length text))))
    header ← do_request (head ++ text) timeout
    require (is_code 200 header.code)
    pure header

  unfoldable pub put : Address → Sys → List ℕ → List ℕ → Option ℕ → M o (Unit {0})
  put a sys param value timeout = do header ← put_request a sys param value timeout; pure tt

  unfoldable pub put_reply : Address → Sys → List ℕ → List ℕ → Option ℕ → M o (List ℕ)
  put_reply a sys param value timeout = do
    header ← put_request a sys param value timeout
    lift (content_text header)

  unfoldable pub or_fail : {A : Type 0} → Option A → M o A
  or_fail none = fail
  or_fail (some a) = pure a

  unfoldable pub parse_sequence_id : Header → M o ℤ
  parse_sequence_id header = do
    require (leb 1 header.content_length)
    text ← lift (content_text header)
    json ← or_fail (o.parse_json text)
    require (o.is_object json)
    token ← or_fail (series_token o json)
    or_fail (o.scan_int token)

  unfoldable pub arm : Address → M o ℤ
  arm a = do
    request ←
        lift (printed max_message_size (request_put a command (codes "arm") (o.show_length 0)))
    header ← do_request request timeout_arm
    require (is_code 200 header.code)
    parse_sequence_id header

  unfoldable pub restart : Address → M o (Unit {0})
  restart a = put a sys_command (codes "restart") [] timeout_init

  unfoldable pub initialize : Address → M o (Unit {0})
  initialize a = put a command (codes "initialize") [] timeout_init

  -- In the mode with an exposure, the call waits until it is over.
  unfoldable pub trigger : Address → Option ℕ → o.Seconds → M o (Unit {0})
  trigger a timeout exposure =
      if o.is_zero exposure then put a command (codes "trigger") [] timeout else (do
        start ← system o.clock
        put a command (codes "trigger") (cut (o.show_seconds exposure)) timeout
        end ← system o.clock
        system_do (o.sleep_rest start end exposure))

  unfoldable pub disarm : Address → M o (Unit {0})
  disarm a = put a command (codes "disarm") [] default_timeout

  unfoldable pub cancel : Address → M o (Unit {0})
  cancel a = put a command (codes "cancel") [] default_timeout

  unfoldable pub abort : Address → M o (Unit {0})
  abort a = put a command (codes "abort") [] default_timeout

  -- A timeout below 0.
  unfoldable pub wait : Address → M o (Unit {0})
  wait a = put a command (codes "wait") [] none

  unfoldable pub hv_reset : Address → ℤ → M o (Unit {0})
  hv_reset a reset_time =
      put a command (codes "hv_reset") (cut (o.show_int reset_time)) (seconds_after reset_time)

  unfoldable pub status_update : Address → M o (Unit {0})
  status_update a = put a command (codes "status_update") [] default_timeout

  unfoldable pub head_file : Address → List ℕ → M o Header
  head_file a filename = do
    request ← lift (printed max_message_size (request_head a data_files filename))
    do_request request default_timeout

  unfoldable pub get_file_size : Address → List ℕ → M o ℕ
  get_file_size a filename = do
    header ← head_file a filename
    require (is_code 200 header.code)
    pure header.content_length

  -- The file is asked for until it is there, another error comes, or the time is over.
  unfoldable pub poll_file : ℕ → Address → List ℕ → o.Seconds → o.Seconds → M o (Unit {0})
  poll_file zero a filename start timeout = lift out_of_fuel
  poll_file (suc fuel) a filename start timeout = do
    header ← head_file a filename
    elim (is_code 200 header.code) [
      | true ↦ pure tt
      | false ↦ do
        require (is_code 404 header.code)
        now ← system o.clock
        elim (o.within start now timeout) [
          | true ↦ poll_file fuel a filename start timeout
          | false ↦ fail
        ]
    ]

  unfoldable pub wait_file : ℕ → Address → List ℕ → o.Seconds → M o (Unit {0})
  wait_file fuel a filename timeout = do
    start ← system o.clock
    poll_file fuel a filename start timeout

  unfoldable pub get_blob : Address → Sys → List ℕ → List ℕ → M o (List ℕ)
  get_blob a sys name accept = do
    request ← lift (printed max_message_size (request_get a sys name accept))
    request_blob request

  unfoldable pub get_file : Address → List ℕ → M o (List ℕ)
  get_file a filename = get_blob a data_files filename (codes "application/hdf5")

  unfoldable pub delete_file : Address → List ℕ → M o (Unit {0})
  delete_file a filename = do
    request ← lift (printed max_message_size (request_delete a data_files filename))
    header ← do_request request default_timeout
    require (is_code 204 header.code)

  unfoldable pub get_monitor_image : Address → ℕ → M o (List ℕ)
  get_monitor_image a timeout =
      get_blob a mon_images (cut (codes "monitor?timeout=" ++ o.show_length timeout))
        (codes "application/tiff")
