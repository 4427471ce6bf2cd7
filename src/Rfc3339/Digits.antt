-- ===== src/Rfc3339/Digits.antt =====
-- The digits of a text, as the patterns in eigerApp/rfc3339Src/rfc3339.h match them and `std::stoi` reads
-- them. A text is a list of bytes.
use adeiger.Base.{
  ℕ, ◌+◌, ◌-◌, ◌*◌, Bool, Option, none, some, List, [], ◌∷◌, leb, ◌==◌, ◌&&◌, if◌then◌else◌,
}

abbrev pub is_digit : ℕ → Bool
is_digit c = leb 48 c && leb c 57

-- "\\d\\d"
unfoldable pub two_digits : List ℕ → Option (ℕ × List ℕ)
two_digits [] = none
two_digits (a ∷ []) = none
two_digits (a ∷ b ∷ l) =
    if is_digit a && is_digit b then some ((a - 48) * 10 + (b - 48), l) else none

-- "\\d\\d\\d\\d"
unfoldable pub four_digits : List ℕ → Option (ℕ × List ℕ)
four_digits [] = none
four_digits (a ∷ []) = none
four_digits (a ∷ b ∷ []) = none
four_digits (a ∷ b ∷ c ∷ []) = none
four_digits (a ∷ b ∷ c ∷ d ∷ l) =
    if is_digit a && is_digit b && is_digit c && is_digit d
    then some ((a - 48) * 1000 + (b - 48) * 100 + (c - 48) * 10 + (d - 48), l)
    else none

-- The digits at the start of a text, as numbers, and what follows them.
unfoldable pub span_digits : List ℕ → List ℕ × List ℕ
span_digits [] = ([], [])
span_digits (c ∷ l) =
    let rest = span_digits l in if is_digit c then ((c - 48) ∷ rest.0, rest.1) else ([], c ∷ l)

unfoldable pub skip_byte : ℕ → List ℕ → Option (List ℕ)
skip_byte c [] = none
skip_byte c (a ∷ l) = if a == c then some l else none
