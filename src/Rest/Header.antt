-- ===== src/Rest/Header.antt =====
-- `parseHeader` of eigerApp/src/restApi.cpp. The buffer is a list of bytes; a search in it ends at the
-- byte 0, and is undefined where there is none.
pub mod Bounds
pub mod Roundtrip
pub mod Content
use adeiger.Base.{
  ℕ, zero, suc, ◌+◌, Bool, true, false, Option, none, some, List, [], ◌∷◌, ◌==◌, leb, ltb, ◌&&◌,
  if◌then◌else◌, length, take, drop, set, codes,
}
use adeiger.Base.Int.{ℤ}
use adeiger.Rest.Outside.{Outside}
use adeiger.Rest.Monad.{Result, ok, failure, undefined, out_of_fuel}

abbrev pub cr : ℕ
cr = 13

abbrev pub lf : ℕ
lf = 10

abbrev pub colon : ℕ
colon = 58

-- The result of `strstr` and `strchr`.
pub data Found : Type 0 where
  at : ℕ → Found
  absent : Found
  off_end : Found

abbrev pub later : Found → Found
later (at n) = at (suc n)
later absent = absent
later off_end = off_end

abbrev pub starts_lf : List ℕ → Bool
starts_lf [] = false
starts_lf (c ∷ bytes) = c == lf

-- `strstr(data, EOL)`. A line's end is not looked for beyond a single carriage return at the end of
-- the buffer.
unfoldable pub find_eol : List ℕ → Found
find_eol [] = off_end
find_eol (c ∷ bytes) =
    let rest = later (find_eol bytes) in
    if c == 0 then absent else if (c == cr) && starts_lf bytes then at 0 else rest

-- `strchr(data, ':')`
unfoldable pub find_colon : List ℕ → Found
find_colon [] = off_end
find_colon (c ∷ bytes) =
    let rest = later (find_colon bytes) in
    if c == colon then at 0 else if c == 0 then absent else rest

abbrev pub to_lower : ℕ → ℕ
to_lower c = if leb 65 c && leb c 90 then c + 32 else c

-- `!strcasecmp(...)`
unfoldable pub same_word : List ℕ → List ℕ → Bool
same_word [] [] = true
same_word (a ∷ l) (b ∷ m) =
    let rest = same_word l m in if to_lower a == to_lower b then rest else false
same_word _ _ = false

unfoldable pub same_text : List ℕ → List ℕ → Bool
same_text [] [] = true
same_text (a ∷ l) (b ∷ m) = let rest = same_text l m in if a == b then rest else false
same_text _ _ = false

-- The members of a `response_t` that the header gives. `content` has the bytes from that pointer to the
-- end of the array.
pub record Header : Type 0 where
  pub code : ℤ
  pub content_length : ℕ
  pub reconnect : Bool
  pub header_len : ℕ
  pub content : List ℕ

-- `MAX_BUF_SIZE`
abbrev pub max_buf_size : ℕ
max_buf_size = 256

-- The value of a line "connection", in an array of 256 characters. Where `sscanf` finds no word the
-- array is read without having been written.
unfoldable pub connection_value : Option (List ℕ) → Header → Result Header
connection_value none h = undefined
connection_value (some word) h =
    if ltb (length word) max_buf_size
    then ok (record h { reconnect = same_word word (codes "close") })
    else undefined

unfoldable pub length_value : Option ℕ → Header → Header
length_value none h = h
length_value (some n) h = record h { content_length = n }

module _ (o : Outside) where
  -- A line: its key, and what stands behind the colon, up to the end of the text.
  unfoldable pub read_field : List ℕ → List ℕ → Header → Result Header
  read_field key rest h =
      if same_word key (codes "content-length")
      then ok (length_value (o.scan_length rest) h)
      else if same_word key (codes "connection")
      then connection_value (o.scan_word rest) h
      else ok h

  abbrev pub continue_with : Result Header → (Header → Result Header) → Result Header
  continue_with (ok h) f = f h
  continue_with failure f = failure
  continue_with undefined f = undefined
  continue_with out_of_fuel f = out_of_fuel

  -- A line, with the place of its end and of the colon; `more` goes on with the next. `offset` is that
  -- of `bytes` in the buffer. The colon is overwritten by 0, also where it stands in a later line.
  unfoldable pub read_line :
      (ℕ → List ℕ → Header → Result Header) → ℕ → List ℕ → Header → Found → Found → Result Header
  read_line more offset bytes h off_end _ = undefined
  read_line more offset bytes h absent _ = failure
  read_line more offset bytes h (at zero) _ =
      ok (record h { header_len = offset + 2; content = drop 2 bytes })
  read_line more offset bytes h (at (suc e)) off_end = undefined
  read_line more offset bytes h (at (suc e)) absent = failure
  read_line more offset bytes h (at (suc e)) (at c) =
      continue_with (read_field (take c bytes) (drop (suc c) bytes) h)
        (more (offset + (suc e + 2)) (drop (suc e + 2) (set bytes c 0)))

  -- The loop over the lines.
  unfoldable pub read_fields : ℕ → ℕ → List ℕ → Header → Result Header
  read_fields zero offset bytes h = out_of_fuel
  read_fields (suc fuel) offset bytes h =
      read_line (read_fields fuel) offset bytes h (find_eol bytes) (find_colon bytes)

  -- What follows the status line. Each turn of the loop takes two bytes at least.
  unfoldable pub after_status : List ℕ → ℤ → Found → Result Header
  after_status buffer code off_end = undefined
  after_status buffer code absent = failure
  after_status buffer code (at e) =
      read_fields (suc (length buffer)) (e + 2) (drop (e + 2) buffer) (record {
        code = code;
        content_length = 0;
        reconnect = false;
        header_len = 0;
        content = [];
      })

  unfoldable pub with_code : List ℕ → Option ℤ → Result Header
  with_code buffer none = failure
  with_code buffer (some code) = after_status buffer code (find_eol buffer)

  unfoldable pub parse_header : List ℕ → Result Header
  parse_header buffer = with_code buffer (o.scan_code buffer)
