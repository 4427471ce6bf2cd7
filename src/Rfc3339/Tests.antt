-- ===== src/Rfc3339/Tests.antt =====
-- Time stamps of the comment in eigerApp/rfc3339Src/rfc3339.h, and the theorem at one of them.
use adeiger.Base.{ℕ, ◌≡◌, refl, none, some, List, [], ◌∷◌, arith, codes}
use adeiger.Rfc3339.Digits.{two_digits, four_digits, span_digits, skip_byte}
use adeiger.Rfc3339.Parse.{
  minus, Written, skip_separator, hours_minutes, match_offset, match_digits, match_fraction, part,
  match_time, match_date, match_pattern, value, nanoseconds,
}
use adeiger.Rfc3339.Print.{print_written, match_pattern-print_written}

abbrev december : Written
december = record {
  year = 2025;
  month = 12;
  day = 5;
  hour = 12;
  minute = 34;
  second = 56;
  fraction = 7 ∷ 8 ∷ 9 ∷ [];
  offset = minus 4 0;
}

abbrev december_text : List ℕ
december_text = codes "2025-12-05T12:34:56.789-04:00"

printed : print_written december ≡ december_text
printed = refl

milliseconds : nanoseconds (7 ∷ 8 ∷ 9 ∷ []) ≡ 789000000
unfolding nanoseconds value
milliseconds = refl

-- Ten digits of a fraction are too many.
too_long : match_pattern (codes "2025-12-05T12:34:56.0123456789") ≡ none
unfolding two_digits four_digits span_digits skip_byte skip_separator hours_minutes match_offset
    match_digits match_fraction part match_time match_date match_pattern
too_long = refl

match_pattern-print_written_example : match_pattern december_text ≡ some december
match_pattern-print_written_example = match_pattern-print_written december (
  omega arith,
  omega arith,
  omega arith,
  omega arith,
  omega arith,
  omega arith,
  (omega arith, (omega arith, (omega arith, tt))),
  omega arith,
  (omega arith, omega arith),
)
