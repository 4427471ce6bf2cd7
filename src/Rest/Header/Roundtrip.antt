-- ===== src/Rest/Header/Roundtrip.antt =====
-- `parseHeader` of eigerApp/src/restApi.cpp on the headers that a server prints.
use mathlib.Core.List.{append_assoc}
use adeiger.Base.{
  ℕ, zero, suc, ◌+◌, ◌<◌, ◌≡◌, ◌≢◌, refl, sym, ap, ◌∙◌, false, some, List, [], ◌∷◌, ◌++◌, ◌==◌,
  length, drop, set, length-append, take-append, arith,
}
use adeiger.Base.Int.{ℤ}
use adeiger.Rest.Outside.{Outside}
use adeiger.Rest.Monad.{Result, ok, failure, undefined, out_of_fuel}
use adeiger.Rest.Header.{
  later, at, find_eol, find_colon, Header, read_field, continue_with, read_line, read_fields,
  after_status, with_code, parse_header,
}

-- A text without the byte 0 and without a carriage return, and one without colons too.
abbrev pub IsLine : List ℕ → Type 0
IsLine [] = Unit
IsLine (c ∷ l) = (c ≢ 0) × (c ≢ 13) × IsLine l

abbrev pub IsKey : List ℕ → Type 0
IsKey [] = Unit
IsKey (c ∷ l) = (c ≢ 0) × (c ≢ 13) × (c ≢ 58) × IsKey l

abbrev pub AreFields : List (List ℕ × List ℕ) → Type 0
AreFields [] = Unit
AreFields (f ∷ fields) = IsKey f.0 × IsLine f.1 × AreFields fields

-- The lines of a header, the empty line, and what follows.
unfoldable pub print_fields : List (List ℕ × List ℕ) → List ℕ → List ℕ
print_fields [] body = 13 ∷ 10 ∷ body
print_fields (f ∷ fields) body = f.0 ++ (58 ∷ (f.1 ++ (13 ∷ 10 ∷ print_fields fields body)))

differ : (a b : ℕ) → a ≢ b → (a == b) ≡ false
differ a b h = ground arith

pub find_eol-line :
    (line rest : List ℕ) → IsLine line → find_eol (line ++ (13 ∷ 10 ∷ rest)) ≡ at (length line)
unfolding find_eol
find_eol-line [] rest h = refl
find_eol-line (c ∷ line) rest h =
    rw (differ c 0 h.0, differ c 13 h.1) (ap later (find_eol-line line rest h.2))

find_colon-key : (key rest : List ℕ) → IsKey key → find_colon (key ++ (58 ∷ rest)) ≡ at (length key)
unfolding find_colon
find_colon-key [] rest h = refl
find_colon-key (c ∷ key) rest h =
    rw (differ c 58 h.2, differ c 0 h.0) (ap later (find_colon-key key rest h.3))

field-IsLine : (key value : List ℕ) → IsKey key → IsLine value → IsLine (key ++ (58 ∷ value))
field-IsLine [] value h k = (omega arith, omega arith, k)
field-IsLine (c ∷ key) value h k = (h.0, h.1, field-IsLine key value h.3 k)

find_eol-field :
    (key value rest : List ℕ)
    → IsKey key
    → IsLine value
    → find_eol (key ++ (58 ∷ (value ++ (13 ∷ 10 ∷ rest)))) ≡ at (suc (length key + length value))
find_eol-field key value rest h k =
    ap find_eol (sym (append_assoc key (58 ∷ value) (13 ∷ 10 ∷ rest)))
    ∙ find_eol-line (key ++ (58 ∷ value)) rest (field-IsLine key value h k)
    ∙ ap at (omega (arith, length-append key (58 ∷ value)))

set-colon : (key rest : List ℕ) → set (key ++ (58 ∷ rest)) (length key) 0 ≡ key ++ (0 ∷ rest)
set-colon [] rest = refl
set-colon (c ∷ key) rest = ap (λ l. c ∷ l) (set-colon key rest)

drop-value :
    (n : ℕ) (value rest : List ℕ) → n ≡ length value + 2 → drop n (value ++ (13 ∷ 10 ∷ rest)) ≡ rest
drop-value zero value rest h = absurd (omega arith)
drop-value (suc zero) value rest h = absurd (omega arith)
drop-value (suc (suc zero)) [] rest h = refl
drop-value (suc (suc (suc n))) [] rest h = absurd (omega arith)
drop-value (suc (suc n)) (c ∷ value) rest h = drop-value (suc n) value rest (omega arith)

drop-field :
    (n : ℕ) (key value rest : List ℕ)
    → n ≡ length key + length value + 3
    → drop n (key ++ (0 ∷ (value ++ (13 ∷ 10 ∷ rest)))) ≡ rest
drop-field zero key value rest h = absurd (omega arith)
drop-field (suc n) [] value rest h = drop-value n value rest (omega arith)
drop-field (suc n) (c ∷ key) value rest h = drop-field n key value rest (omega arith)

drop-key : (key rest : List ℕ) → drop (suc (length key)) (key ++ (58 ∷ rest)) ≡ rest
drop-key [] rest = refl
drop-key (c ∷ key) rest = drop-key key rest

-- A status line and the fields of a header, as a server prints them.
abbrev pub print_reply : List ℕ → List (List ℕ × List ℕ) → List ℕ → List ℕ
print_reply status fields body = status ++ (13 ∷ 10 ∷ print_fields fields body)

abbrev pub blank_header : ℤ → Header
blank_header code = record {
  code = code;
  content_length = 0;
  reconnect = false;
  header_len = 0;
  content = [];
}

module _ (o : Outside) where
  -- Reading the fields one by one, each with its value and all that follows it.
  unfoldable pub read_all : ℕ → List (List ℕ × List ℕ) → List ℕ → Header → Result Header
  read_all offset [] body h = ok (record h { header_len = offset + 2; content = body })
  read_all offset (f ∷ fields) body h =
      continue_with o (read_field o f.0 (f.1 ++ (13 ∷ 10 ∷ print_fields fields body)) h)
        (read_all (offset + (suc (length f.0 + length f.1) + 2)) fields body)

  continue_ext :
      (r : Result Header) (f g : Header → Result Header)
      → ((h : Header) → f h ≡ g h)
      → continue_with o r f ≡ continue_with o r g
  continue_ext (ok h) f g e = e h
  continue_ext failure f g e = refl
  continue_ext undefined f g e = refl
  continue_ext out_of_fuel f g e = refl

  read_fields-print_fields :
      (fuel offset : ℕ) (fields : List (List ℕ × List ℕ)) (body : List ℕ) (h : Header)
      → AreFields fields
      → length (print_fields fields body) < fuel
      → read_fields o fuel offset (print_fields fields body) h ≡ read_all offset fields body h
  unfolding read_fields read_line print_fields read_all find_eol
  read_fields-print_fields zero offset fields body h are enough = absurd (omega arith)
  read_fields-print_fields (suc fuel) offset [] body h are enough = refl
  read_fields-print_fields (suc fuel) offset (f ∷ fields) body h are enough =
      let rest = print_fields fields body in
      let behind = f.1 ++ (13 ∷ 10 ∷ rest) in
      rw
        (
          find_eol-field f.0 f.1 rest are.0 are.1,
          find_colon-key f.0 behind are.0,
          take-append f.0 (58 ∷ behind),
          drop-key f.0 behind,
          set-colon f.0 behind,
          drop-field (suc (length f.0 + length f.1) + 2) f.0 f.1 rest (omega arith),
        )
        (continue_ext (read_field o f.0 behind h) _ _ λ h'.
          read_fields-print_fields fuel (offset + (suc (length f.0 + length f.1) + 2)) fields body
            h' are.2
            (omega (arith, length-append f.0 (58 ∷ behind), length-append f.1 (13 ∷ 10 ∷ rest))))

  -- `parseHeader` reads from a reply that a server has printed just its fields, one after the other,
  -- and finds the body behind them, where the status line has a code, no line has the byte 0 or a
  -- carriage return in it, and no key has a colon.
  pub parse_header-print_reply :
      (status : List ℕ) (fields : List (List ℕ × List ℕ)) (body : List ℕ) (code : ℤ)
      → IsLine status
      → AreFields fields
      → o.scan_code (print_reply status fields body) ≡ some code
      → parse_header o (print_reply status fields body)
        ≡ read_all (length status + 2) fields body (blank_header code)
  unfolding parse_header with_code after_status
  parse_header-print_reply status fields body code is are has_code =
      let rest = print_fields fields body in
      rw
        (
          has_code,
          find_eol-line status rest is,
          drop-value (length status + 2) status rest (omega arith),
        )
        (read_fields-print_fields (suc (length (print_reply status fields body)))
          (length status + 2) fields body (blank_header code) are
          (omega (arith, length-append status (13 ∷ 10 ∷ rest))))
