-- ===== src/Rest/Header/Bounds.antt =====
-- `parseHeader` of eigerApp/src/restApi.cpp comes to an end, and finds the content inside the buffer.
use adeiger.Base.{
  ℕ, zero, suc, ◌+◌, ◌≤◌, ◌<◌, ◌≡◌, Bool, true, false, Option, none, some, List, [], ◌∷◌, ◌==◌,
  ◌&&◌, Bool-cases, inl, inr, length, take, drop, set, length-drop, length-set, arith, codes, ltb,
  if◌then◌else◌,
}
use adeiger.Base.Int.{ℤ}
use adeiger.Rest.Outside.{Outside}
use adeiger.Rest.Monad.{Result, ok, failure, undefined, out_of_fuel, IsFinal}
use adeiger.Rest.Header.{
  cr, starts_lf, later, Found, at, absent, off_end, find_eol, find_colon, Header, connection_value,
  read_field, continue_with, read_line, read_fields, after_status, with_code, parse_header,
  same_word, max_buf_size,
}

-- A line's end that is found stands in the text.
abbrev pub EolInside : ℕ → Found → Type 0
EolInside n (at e) = e + 2 ≤ n
EolInside n absent = Unit
EolInside n off_end = Unit

later-EolInside : (n : ℕ) (f : Found) → EolInside n f → EolInside (suc n) (later f)
later-EolInside n (at e) h = omega arith
later-EolInside n absent h = tt
later-EolInside n off_end h = tt

starts_lf-length : (bytes : List ℕ) → starts_lf bytes ≡ true → 1 ≤ length bytes
starts_lf-length [] h = cc
starts_lf-length (c ∷ bytes) h = omega arith

second : (a b : Bool) → (a && b) ≡ true → b ≡ true
second true b h = h
second false b h = cc

pub find_eol-EolInside : (bytes : List ℕ) → EolInside (length bytes) (find_eol bytes)
unfolding find_eol
find_eol-EolInside [] = tt
find_eol-EolInside (c ∷ bytes) = elim (Bool-cases (c == 0)) [
  | inl e ↦ rw e tt
  | inr e ↦ rw e (elim (Bool-cases ((c == cr) && starts_lf bytes)) [
    | inl f ↦ rw f (omega (arith, starts_lf-length bytes (second _ _ f)))
    | inr f ↦ rw f (later-EolInside (length bytes) (find_eol bytes) (find_eol-EolInside bytes))
  ])
]

-- A header that is parsed from a buffer of `n` bytes ends inside it, and the content is what is left.
abbrev pub Parsed : ℕ → Result Header → Type 0
Parsed n (ok h) = h.header_len + length h.content ≡ n
Parsed n failure = Unit
Parsed n undefined = Unit
Parsed n out_of_fuel = ⊥

if-IsFinal : (b : Bool) (r q : Result Header) → IsFinal r → IsFinal q → IsFinal (if b then r else q)
if-IsFinal true r q h k = h
if-IsFinal false r q h k = k

connection_value-IsFinal : (word : Option (List ℕ)) (h : Header) → IsFinal (connection_value word h)
unfolding connection_value
connection_value-IsFinal none h = tt
connection_value-IsFinal (some word) h = if-IsFinal (ltb (length word) max_buf_size) _ _ tt tt

module _ (o : Outside) where
  read_field-IsFinal : (key rest : List ℕ) (h : Header) → IsFinal (read_field o key rest h)
  unfolding read_field
  read_field-IsFinal key rest h = if-IsFinal (same_word key (codes "content-length")) _ _ tt (
      if-IsFinal (same_word key (codes "connection")) _ _
        (connection_value-IsFinal (o.scan_word rest) h) tt)

  continued :
      (n : ℕ) (r : Result Header) (f : Header → Result Header)
      → IsFinal r
      → ((h : Header) → Parsed n (f h))
      → Parsed n (continue_with o r f)
  continued n (ok h) f x k = k h
  continued n failure f x k = tt
  continued n undefined f x k = tt
  continued n out_of_fuel f x k = elim x [ ]

  read_line-Parsed :
      (n : ℕ) (more : ℕ → List ℕ → Header → Result Header) (offset : ℕ) (bytes : List ℕ)
      (h : Header) (e c : Found)
      → ((offset' : ℕ) (bytes' : List ℕ) (h : Header)
          → length bytes' + 2 ≤ length bytes
          → offset' + length bytes' ≡ n
          → Parsed n (more offset' bytes' h))
      → EolInside (length bytes) e
      → offset + length bytes ≡ n
      → Parsed n (read_line o more offset bytes h e c)
  unfolding read_line
  read_line-Parsed n more offset bytes h off_end c k inside total = tt
  read_line-Parsed n more offset bytes h absent c k inside total = tt
  read_line-Parsed n more offset bytes h (at zero) c k inside total =
      omega (arith, length-drop 2 bytes)
  read_line-Parsed n more offset bytes h (at (suc e)) off_end k inside total = tt
  read_line-Parsed n more offset bytes h (at (suc e)) absent k inside total = tt
  read_line-Parsed n more offset bytes h (at (suc e)) (at c) k inside total =
      continued n _ _ (read_field-IsFinal (take c bytes) (drop (suc c) bytes) h) (λ h'.
        k (offset + (suc e + 2)) (drop (suc e + 2) (set bytes c 0)) h'
          (omega (arith, length-drop (suc e + 2) (set bytes c 0), length-set bytes c 0))
          (omega (arith, length-drop (suc e + 2) (set bytes c 0), length-set bytes c 0)))

  read_fields-Parsed :
      (n fuel offset : ℕ) (bytes : List ℕ) (h : Header)
      → length bytes < fuel
      → offset + length bytes ≡ n
      → Parsed n (read_fields o fuel offset bytes h)
  unfolding read_fields
  read_fields-Parsed n zero offset bytes h enough total = absurd (omega arith)
  read_fields-Parsed n (suc fuel) offset bytes h enough total =
      read_line-Parsed n (read_fields o fuel) offset bytes h (find_eol bytes) (find_colon bytes)
        (λ offset' bytes' h' less total'.
          read_fields-Parsed n fuel offset' bytes' h' (omega arith) total')
        (find_eol-EolInside bytes) total

  after_status-Parsed :
      (buffer : List ℕ) (code : ℤ) (e : Found)
      → EolInside (length buffer) e
      → Parsed (length buffer) (after_status o buffer code e)
  unfolding after_status
  after_status-Parsed buffer code off_end h = tt
  after_status-Parsed buffer code absent h = tt
  after_status-Parsed buffer code (at e) h =
      read_fields-Parsed (length buffer) (suc (length buffer)) (e + 2) (drop (e + 2) buffer) _
        (omega (arith, length-drop (e + 2) buffer)) (omega (arith, length-drop (e + 2) buffer))

  with_code-Parsed :
      (buffer : List ℕ) (code : Option ℤ) → Parsed (length buffer) (with_code o buffer code)
  unfolding with_code
  with_code-Parsed buffer none = tt
  with_code-Parsed buffer (some code) =
      after_status-Parsed buffer code (find_eol buffer) (find_eol-EolInside buffer)

  -- `parseHeader` comes to an end for every buffer. If it succeeds, the header ends inside the buffer,
  -- and the content is what stands behind it: the two lengths add up to that of the buffer.
  pub parse_header-Parsed : (buffer : List ℕ) → Parsed (length buffer) (parse_header o buffer)
  unfolding parse_header
  parse_header-Parsed buffer = with_code-Parsed buffer (o.scan_code buffer)
