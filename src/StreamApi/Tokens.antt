-- ===== src/StreamApi/Tokens.antt =====
-- `readToken` of eigerApp/src/streamApi.cpp, for its four types of values. `none` stands for
-- `STREAM_ERROR`.
use adeiger.Base.{ℕ, Option, none, some, String, List, [], ◌∷◌, length, leb, if◌then◌else◌}
use adeiger.StreamApi.Outside.{Outside}

-- What `readToken` leaves of an array of two numbers that it takes to have three.
pub data ShapeRead : Type 0 where
  dims : ℕ → ℕ → ShapeRead
  -- fewer than two numbers are written
  partial : ShapeRead
  -- a third number is written, behind the array
  behind : ShapeRead
  refused : ShapeRead

module _ (o : Outside) where
  open o use {Json}

  unfoldable pub read_size : Json → String → Option ℕ
  read_size json name = elim (o.find json name) [ none ↦ none | some t ↦ o.scan_size t.onwards ]

  -- Into an array of `size` characters that are 0.
  unfoldable pub read_chars : Json → String → ℕ → Option (List ℕ)
  read_chars json name size = elim (o.find json name) [
    | none ↦ none
    | some t ↦ if leb (length t.text) size then some t.text else none
  ]

  unfoldable pub read_text : Json → String → Option (List ℕ)
  read_text json name = elim (o.find json name) [ none ↦ none | some t ↦ some t.text ]

  unfoldable pub scan_all : List (List ℕ) → Option (List ℕ)
  scan_all [] = some []
  scan_all (x ∷ xs) =
      let rest = scan_all xs in
      elim (o.scan_size x) as (λ _. Option (List ℕ)) [
        | none ↦ none
        | some n ↦ elim rest [ none ↦ none | some l ↦ some (n ∷ l) ]
      ]

  abbrev shape_of : List ℕ → ShapeRead
  shape_of [] = partial
  shape_of (x ∷ []) = partial
  shape_of (x ∷ y ∷ []) = dims x y
  shape_of (x ∷ y ∷ z ∷ l) = behind

  -- The third number is written when it is scanned.
  unfoldable pub read_below : List (List ℕ) → ShapeRead
  read_below texts =
      if leb (length texts) 3
      then elim (scan_all texts) [ none ↦ refused | some numbers ↦ shape_of numbers ]
      else refused

  unfoldable pub read_shape : Json → String → ShapeRead
  read_shape json name = elim (o.find json name) [ none ↦ refused | some t ↦ read_below t.below ]
