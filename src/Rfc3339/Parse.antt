-- ===== src/Rfc3339/Parse.antt =====
-- `parseRfc3339Timestamp` of eigerApp/rfc3339Src/rfc3339.h. Each part of the pattern is a function: no
-- choice of it needs to be undone.
use adeiger.Base.{
  ℕ, ◌+◌, ◌-◌, ◌*◌, ◌^◌, Bool, true, false, Option, none, some, List, [], ◌∷◌, length, leb, ◌==◌,
  ◌&&◌, ◌||◌, if◌then◌else◌,
}
use adeiger.Base.Int.{ℤ, pos}
use adeiger.Rfc3339.Digits.{two_digits, four_digits, span_digits, skip_byte}

-- The offset from GMT: none, "Z", or hours and minutes with their sign.
pub data Offset : Type 0 where
  no_offset z : Offset
  plus minus : ℕ → ℕ → Offset

-- The matches of the pattern.
pub record Written : Type 0 where
  pub year : ℕ
  pub month : ℕ
  pub day : ℕ
  pub hour : ℕ
  pub minute : ℕ
  pub second : ℕ
  -- the digits behind the period
  pub fraction : List ℕ
  pub offset : Offset

abbrev pub and_then : {A B : Type 0} → Option A → (A → Option B) → Option B
and_then none f = none
and_then (some a) f = f a

abbrev pub separator : ℕ → Bool
separator c = c == 84 || c == 116 || c == 32

unfoldable pub skip_separator : List ℕ → Option (List ℕ)
skip_separator [] = none
skip_separator (c ∷ l) = if separator c then some l else none

abbrev pub at_end : {A : Type 0} → A → List ℕ → Option A
at_end a [] = some a
at_end a (c ∷ l) = none

-- "\\d\\d:\\d\\d", and the end.
unfoldable pub hours_minutes : (ℕ → ℕ → Offset) → List ℕ → Option Offset
hours_minutes make l =
    and_then (two_digits l)
      λ h. and_then (skip_byte 58 h.1) λ l. and_then (two_digits l) λ m. at_end (make h.0 m.0) m.1

-- "(Z|[+-]\\d\\d:\\d\\d)?", and the end.
unfoldable pub match_offset : List ℕ → Option Offset
match_offset [] = some no_offset
match_offset (c ∷ l) =
    if c == 90
    then at_end z l
    else if c == 43
    then hours_minutes plus l
    else if c == 45
    then hours_minutes minus l
    else none

-- The digits of the fraction are between 1 and 9.
unfoldable pub match_digits : List ℕ × List ℕ → Option (List ℕ × Offset)
match_digits (fraction, l) =
    if leb 1 (length fraction) && leb (length fraction) 9
    then and_then (match_offset l) (λ offset. some (fraction, offset))
    else none

-- "(\\.\\d{1,9})?" and what follows.
unfoldable pub match_fraction : List ℕ → Option (List ℕ × Offset)
match_fraction [] = some ([], no_offset)
match_fraction (c ∷ l) =
    if c == 46
    then match_digits (span_digits l)
    else and_then (match_offset (c ∷ l)) λ offset. some ([], offset)

-- Two digits behind a byte.
unfoldable pub part : ℕ → List ℕ → Option (ℕ × List ℕ)
part c l = and_then (skip_byte c l) two_digits

unfoldable pub match_time : List ℕ → Option ((ℕ × ℕ × ℕ) × (List ℕ × Offset))
match_time l = and_then (two_digits l) λ hour. and_then (part 58 hour.1) λ minute.
    and_then (part 58 minute.1)
      λ second. and_then (match_fraction second.1) λ r. some ((hour.0, minute.0, second.0), r)

unfoldable pub match_date : List ℕ → Option ((ℕ × ℕ × ℕ) × List ℕ)
match_date l = and_then (four_digits l) λ year.
    and_then (part 45 year.1)
      λ month. and_then (part 45 month.1) λ day. some ((year.0, month.0, day.0), day.1)

-- `std::regex_match` with the pattern.
unfoldable pub match_pattern : List ℕ → Option Written
match_pattern l = and_then (match_date l) λ d. and_then (skip_separator d.1) λ l.
    and_then (match_time l) λ t. some (record {
      year = d.0.0;
      month = d.0.1;
      day = d.0.2;
      hour = t.0.0;
      minute = t.0.1;
      second = t.0.2;
      fraction = t.1.0;
      offset = t.1.1;
    })

unfoldable pub value : ℕ → List ℕ → ℕ
value n [] = n
value n (d ∷ l) = value (n * 10 + d) l

-- The fraction of a second in nanoseconds; `SCALE[0]` is 0.
unfoldable pub nanoseconds : List ℕ → ℕ
nanoseconds [] = 0
nanoseconds (d ∷ l) = value 0 (d ∷ l) * 10 ^ (9 - length (d ∷ l))

-- The sign of the offset, and the offset in seconds.
unfoldable pub offset_seconds : Offset → Bool × ℕ
offset_seconds no_offset = (true, 0)
offset_seconds z = (true, 0)
offset_seconds (plus h m) = (true, h * 3600 + m * 60)
offset_seconds (minus h m) = (false, h * 3600 + m * 60)

-- `a - b`
unfoldable pub difference : ℕ → ℕ → ℤ
difference a b = if leb b a then pos (a - b) else ℤ.negsuc (b - a - 1)

-- The C library: `timegm` of the years since 1900, the months since January, the day, hour, minute and
-- second; a time less an offset; and `gmtime`.
pub record Clock : Type 1 where
  pub Time : Type 0
  pub Tm : Type 0
  pub timegm : ℤ → ℤ → ℕ → ℕ → ℕ → ℕ → Time
  pub less : Time → Bool × ℕ → Time
  pub gmtime : Time → Option Tm

module _ (c : Clock) where
  open c use {Tm}

  -- `none` stands for `ZERO`.
  unfoldable pub parse_timestamp : List ℕ → Option (Tm × ℕ)
  parse_timestamp text = and_then (match_pattern text) λ w.
      and_then
        (c.gmtime (
          c.less
            (c.timegm (difference w.year 1900) (difference w.month 1) w.day w.hour w.minute
              w.second)
            (offset_seconds w.offset)))
        λ tm. some (tm, nanoseconds w.fraction)
