-- ===== src/Rfc3339/Print.antt =====
-- A time stamp that is printed is read back by the pattern of eigerApp/rfc3339Src/rfc3339.h.
use adeiger.Base.{
  ℕ, suc, ◌+◌, ◌-◌, ◌/◌, ◌%◌, ◌≤◌, ◌<◌, ◌≡◌, refl, true, false, some, List, [], ◌∷◌, length, leb,
  ◌==◌, ◌&&◌, arith,
}
use adeiger.Rfc3339.Digits.{is_digit, two_digits, four_digits, span_digits, skip_byte}
use adeiger.Rfc3339.Parse.{
  Offset, no_offset, z, plus, minus, Written, skip_separator, hours_minutes, match_offset,
  match_digits, match_fraction, part, match_time, match_date, match_pattern,
}

abbrev pub print_two : ℕ → List ℕ → List ℕ
print_two n l = (48 + n / 10) ∷ (48 + n % 10) ∷ l

abbrev pub print_four : ℕ → List ℕ → List ℕ
print_four n l = (48 + n / 1000) ∷ (48 + n / 100 % 10) ∷ (48 + n / 10 % 10) ∷ (48 + n % 10) ∷ l

abbrev pub print_offset : Offset → List ℕ
print_offset no_offset = []
print_offset z = 90 ∷ []
print_offset (plus h m) = 43 ∷ print_two h (58 ∷ print_two m [])
print_offset (minus h m) = 45 ∷ print_two h (58 ∷ print_two m [])

abbrev pub print_digits : List ℕ → List ℕ → List ℕ
print_digits [] l = l
print_digits (d ∷ ds) l = (48 + d) ∷ print_digits ds l

abbrev pub print_fraction : List ℕ → List ℕ → List ℕ
print_fraction [] l = l
print_fraction (d ∷ ds) l = 46 ∷ print_digits (d ∷ ds) l

abbrev pub print_written : Written → List ℕ
print_written w = print_four w.year (
    45
    ∷ print_two w.month (
        45
        ∷ print_two w.day (
            84
            ∷ print_two w.hour (
                58
                ∷ print_two w.minute (
                    58 ∷ print_two w.second (print_fraction w.fraction (print_offset w.offset)))))))

abbrev pub AreDigits : List ℕ → Type 0
AreDigits [] = Unit
AreDigits (d ∷ ds) = (d < 10) × AreDigits ds

abbrev pub OffsetFits : Offset → Type 0
OffsetFits no_offset = Unit
OffsetFits z = Unit
OffsetFits (plus h m) = (h < 100) × (m < 100)
OffsetFits (minus h m) = (h < 100) × (m < 100)

-- Each number has as many digits as its place.
abbrev pub WrittenFits : Written → Type 0
WrittenFits w =
    (w.year < 10000)
    × (w.month < 100)
    × (w.day < 100)
    × (w.hour < 100)
    × (w.minute < 100)
    × (w.second < 100)
    × AreDigits w.fraction
    × (length w.fraction ≤ 9)
    × OffsetFits w.offset

two_digits-print_two : (n : ℕ) (l : List ℕ) → n < 100 → two_digits (print_two n l) ≡ some (n, l)
unfolding two_digits
two_digits-print_two n l h = ground arith

four_digits-print_four :
    (n : ℕ) (l : List ℕ) → n < 10000 → four_digits (print_four n l) ≡ some (n, l)
unfolding four_digits
four_digits-print_four n l h = ground arith

-- What stands behind the fraction does not begin with a digit.
abbrev NoDigit : List ℕ → Type 0
NoDigit [] = Unit
NoDigit (c ∷ l) = is_digit c ≡ false

print_offset-NoDigit : (o : Offset) → NoDigit (print_offset o)
print_offset-NoDigit no_offset = tt
print_offset-NoDigit z = refl
print_offset-NoDigit (plus h m) = refl
print_offset-NoDigit (minus h m) = refl

digit_back : (d : ℕ) → d < 10 → is_digit (48 + d) ≡ true
digit_back d h = ground arith

span_none : (l : List ℕ) → NoDigit l → span_digits l ≡ ([], l)
unfolding span_digits
span_none [] h = refl
span_none (c ∷ l) h = rw h refl

span_digits-print_digits :
    (ds l : List ℕ) → AreDigits ds → NoDigit l → span_digits (print_digits ds l) ≡ (ds, l)
unfolding span_digits
span_digits-print_digits [] l h n = span_none l n
span_digits-print_digits (d ∷ ds) l h n =
    let back : 48 + d - 48 ≡ d = omega arith in
    rw (digit_back d h.0, span_digits-print_digits ds l h.1 n, back) refl

match_offset-print_offset : (o : Offset) → OffsetFits o → match_offset (print_offset o) ≡ some o
unfolding match_offset hours_minutes skip_byte
match_offset-print_offset no_offset h = refl
match_offset-print_offset z h = refl
match_offset-print_offset (plus a b) h =
    rw (two_digits-print_two a (58 ∷ print_two b []) h.0, two_digits-print_two b [] h.1) refl
match_offset-print_offset (minus a b) h =
    rw (two_digits-print_two a (58 ∷ print_two b []) h.0, two_digits-print_two b [] h.1) refl

no_fraction : (o : Offset) → OffsetFits o → match_fraction (print_offset o) ≡ some ([], o)
unfolding match_fraction
no_fraction no_offset h = refl
no_fraction z h = rw (match_offset-print_offset z h) refl
no_fraction (plus a b) h = rw (match_offset-print_offset (plus a b) h) refl
no_fraction (minus a b) h = rw (match_offset-print_offset (minus a b) h) refl

length_tests : (n : ℕ) → n < 9 → (leb 1 (suc n) && leb (suc n) 9) ≡ true
length_tests n h = ground arith

match_fraction-print_fraction :
    (ds : List ℕ) (o : Offset)
    → AreDigits ds
    → length ds ≤ 9
    → OffsetFits o
    → match_fraction (print_fraction ds (print_offset o)) ≡ some (ds, o)
unfolding match_fraction match_digits
match_fraction-print_fraction [] o h le fit = no_fraction o fit
match_fraction-print_fraction (d ∷ ds) o h le fit =
    rw
      (
        span_digits-print_digits (d ∷ ds) (print_offset o) h (print_offset-NoDigit o),
        length_tests (length ds) (omega arith),
        match_offset-print_offset o fit,
      )
      refl

part-print_two :
    (c n : ℕ) (l : List ℕ) → (c == c) ≡ true → n < 100 → part c (c ∷ print_two n l) ≡ some (n, l)
unfolding part skip_byte
part-print_two c n l same h = rw (same, two_digits-print_two n l h) refl

-- A time stamp whose numbers have as many digits as their places, with up to nine digits of a fraction, is
-- read back from its text.
pub match_pattern-print_written :
    (w : Written) → WrittenFits w → match_pattern (print_written w) ≡ some w
unfolding match_pattern match_date match_time skip_separator
match_pattern-print_written w fit =
    let rest = print_fraction w.fraction (print_offset w.offset) in
    let seconds = print_two w.second rest in
    let minutes = print_two w.minute (58 ∷ seconds) in
    let hours = print_two w.hour (58 ∷ minutes) in
    let days = print_two w.day (84 ∷ hours) in
    rw
      (
        four_digits-print_four w.year (45 ∷ print_two w.month (45 ∷ days)) fit.0,
        part-print_two 45 w.month (45 ∷ days) refl fit.1,
        part-print_two 45 w.day (84 ∷ hours) refl fit.2,
        two_digits-print_two w.hour (58 ∷ minutes) fit.3,
        part-print_two 58 w.minute (58 ∷ seconds) refl fit.4,
        part-print_two 58 w.second rest refl fit.5,
        match_fraction-print_fraction w.fraction w.offset fit.6 fit.7 fit.8,
      )
      refl
