-- ===== src/Rest/Duration.antt =====
-- pkg/rest/jsonduration.go: durations as texts `[-][<days>.]<hh>:<mm>:<ss>[.<frac>]`. A duration is
-- an int64 of nanoseconds.
pub mod Digits
pub mod RoundTrip
use brickstor_csi_driver.Base.{
  ℕ, zero, suc, ◌+◌, ◌-◌, ◌*◌, ◌/◌, ◌%◌, ◌^◌, ℤ, pos, negsuc, neg64, to_int64, is_positive, is_zero,
  ltb_int, Bool, true, false, ◌||◌, List, [], ◌∷◌, ◌++◌, Text, codes, Option, none, some, Outcome,
  ok, err, Error, plain, if◌then◌else◌, ltb, leb, ◌==◌, is_empty, length, split, cut_first,
  has_byte,
}
use brickstor_csi_driver.Strconv
use brickstor_csi_driver.Strconv.{parse_uint, format_int, negate, is_digit}

abbrev pub second : ℕ
second = 10 ^ 9

abbrev pub minute : ℕ
minute = 60 * second

abbrev pub hour : ℕ
hour = 60 * minute

abbrev pub day : ℕ
day = 24 * hour

-- `d / m` and `d % m` for a positive `m`: Go rounds to zero.
unfoldable pub quot : ℤ → ℕ → ℤ
quot (pos n) m = pos (n / m)
quot (negsuc n) m = negate ((n + 1) / m)

unfoldable pub rem : ℤ → ℕ → ℤ
rem (pos n) m = pos (n % m)
rem (negsuc n) m = negate ((n + 1) % m)

-- `d.Round(time.Microsecond)` of package time: half away from zero, and the largest or smallest
-- duration where this is out of range.
unfoldable pub round_microsecond : ℤ → ℤ
round_microsecond (pos n) =
    let r = n % 1000 in
    let up = n + 1000 - r in
    if ltb (r + r) 1000 then pos (n - r) else if ltb up (2 ^ 63) then pos up else pos (2 ^ 63 - 1)
round_microsecond (negsuc n) =
    let r = (n + 1) % 1000 in
    let down = n + 1 + 1000 - r in
    if ltb (r + r) 1000
    then negate (n + 1 - r)
    else if leb down (2 ^ 63)
    then negate down
    else negate (2 ^ 63)

-- `%02d`
unfoldable pub two_digits : ℤ → Text
unfolding format_int
two_digits i = let t = format_int i in if ltb (length t) 2 then b'0' ∷ t else t

-- The decimals of what is left below a second: `k` more of them at most, the first of which counts
-- intervals of 10 ^ (k + 2) nanoseconds.
unfoldable pub decimals : ℕ → ℤ → Text
unfolding quot rem format_int
decimals zero dur = []
decimals (suc k) dur =
    let more = format_int (quot dur (10 ^ (k + 3))) ++ decimals k (rem dur (10 ^ (k + 3))) in
    if is_positive dur then more else []

-- The days, if there are any, with their point.
unfoldable pub days_text : ℤ → Text
unfolding quot format_int
days_text dur = if is_positive (quot dur day) then format_int (quot dur day) ++ codes "." else []

unfoldable pub without_days : ℤ → ℤ
unfolding quot rem
without_days dur = if is_positive (quot dur day) then rem dur day else dur

unfoldable pub fraction_text : ℤ → Text
unfolding decimals
fraction_text dur = if is_zero dur then [] else b'.' ∷ decimals 6 dur

-- Hours, minutes, seconds and decimals.
unfoldable pub time_text : ℤ → Text
unfolding two_digits quot rem fraction_text
time_text time =
    let in_hour = rem time hour in
    let in_minute = rem in_hour minute in
    two_digits (quot time hour)
    ++ b':'
      ∷ (two_digits (quot in_hour minute)
          ++ b':' ∷ (two_digits (quot in_minute second) ++ fraction_text (rem in_minute second)))

-- `marshal` behind the sign
unfoldable pub clock_text : ℤ → Text
unfolding days_text without_days time_text
clock_text dur = days_text dur ++ time_text (without_days dur)

-- `marshal`; `String` and `MarshalText` give its text.
unfoldable pub marshal : ℤ → Text
unfolding clock_text round_microsecond neg64
marshal dur =
    if ltb_int dur (pos 0)
    then b'-' ∷ clock_text (round_microsecond (neg64 dur))
    else clock_text (round_microsecond dur)

abbrev pub quoted : Text → Text
quoted s = b'"' ∷ (s ++ b'"' ∷ [])

-- `MarshalJSON`
unfoldable pub marshal_json : ℤ → Text
unfolding marshal
marshal_json dur = quoted (marshal dur)

-- A text that ends in a quote, without it.
without_quote : Text → Option Text
without_quote [] = none
without_quote (c ∷ []) = if c == b'"' then some [] else none
without_quote (c ∷ d ∷ s) = elim (without_quote (d ∷ s)) [ none ↦ none | some t ↦ some (c ∷ t) ]

-- A text between two quotes, without them.
unfoldable pub unquote : Text → Option Text
unfolding without_quote
unquote [] = none
unquote (c ∷ s) = let rest = without_quote s in if c == b'"' then rest else none

-- What `parse` computes in float64: whether 1.0, after so many divisions by ten, is below
-- 0.000000001, and the nanoseconds that digits behind the point come to.
pub record Floats : Type 0 where
  pub is_too_small : ℕ → Bool
  pub nanoseconds : Text → ℕ

abbrev pub invalid_duration : Error
invalid_duration = plain (codes "invalid duration")

-- `get2digits`
unfoldable pub get_two_digits : Text → Option ℕ
get_two_digits (a ∷ b ∷ []) =
    if ltb a b'0' || (ltb b'9' a || (ltb b b'0' || ltb b'9' b))
    then none
    else some ((a - b'0') * 10 + (b - b'0'))
get_two_digits _ = none

-- `strconv.ParseUint(s, 10, 64)` without its error's text
unfoldable pub parse_uint64 : Text → Option ℕ
unfolding parse_uint
parse_uint64 s = elim (parse_uint 10 (2 ^ 64 - 1) s) [
  | Strconv.value n ↦ some n
  | Strconv.syntax ↦ none
  | Strconv.range ↦ none
]

-- Days and hours.
unfoldable pub parse_hours : Text → Option (ℕ × ℕ)
unfolding parse_uint64
parse_hours s = elim (cut_first b'.' s) [
  | some (d, h) ↦ elim (parse_uint64 d) [
    | none ↦ none
    | some days ↦ elim (parse_uint64 h) [ none ↦ none | some hours ↦ some (days, hours) ]
  ]
  | none ↦ elim (parse_uint64 s) [ none ↦ none | some hours ↦ some (0, hours) ]
]

module _ (f : Floats) where
  -- Whether a digit behind the point is refused: by itself, or for standing too far behind.
  unfoldable pub has_bad_digit : ℕ → Text → Bool
  has_bad_digit n [] = false
  has_bad_digit n (c ∷ s) =
      (ltb c b'0' || (ltb b'9' c || f.is_too_small (n + 1))) || has_bad_digit (n + 1) s

  -- Seconds and nanoseconds.
  unfoldable pub parse_seconds : Text → Option (ℕ × ℕ)
  unfolding has_bad_digit get_two_digits
  parse_seconds s = elim (cut_first b'.' s) [
    | some (whole, fraction) ↦ elim (get_two_digits whole) [
      | none ↦ none
      | some secs ↦ if has_bad_digit 0 fraction then none else some (secs, f.nanoseconds fraction)
    ]
    | none ↦ elim (get_two_digits s) [ none ↦ none | some secs ↦ some (secs, 0) ]
  ]

  -- The sum of the parts: every step of it wraps around at 64 bits, and so does this one.
  abbrev pub total : ℕ → ℕ → ℕ → ℕ → ℕ → ℤ
  total days hours mins secs nsecs =
      to_int64 ((days * 24 + hours) * hour + mins * minute + secs * second + nsecs)

  unfoldable pub parse_fields : List Text → Option ℤ
  unfolding parse_hours get_two_digits parse_seconds to_int64
  parse_fields (h ∷ m ∷ s ∷ []) = elim (parse_hours h) [
    | none ↦ none
    | some (days, hours) ↦ elim (get_two_digits m) [
      | none ↦ none
      | some mins ↦ elim (parse_seconds s) [
        | none ↦ none
        | some (secs, nsecs) ↦ some (total days hours mins secs nsecs)
      ]
    ]
  ]
  parse_fields _ = none

  -- A lone number is nanoseconds from 1e9 on, and days below.
  unfoldable pub parse_number : Text → Option ℤ
  unfolding parse_uint to_int64
  parse_number s = elim (parse_uint 10 (2 ^ 63 - 1) s) [
    | Strconv.value n ↦ some (if leb (10 ^ 9) n then pos n else to_int64 (day * n))
    | Strconv.syntax ↦ none
    | Strconv.range ↦ none
  ]

  unfoldable pub parse_unsigned : Text → Option ℤ
  unfolding parse_number parse_fields
  parse_unsigned s = if has_byte b':' s then parse_fields (split b':' s) else parse_number s

  abbrev pub or_invalid : Option ℤ → Outcome ℤ
  or_invalid none = err invalid_duration
  or_invalid (some d) = ok d

  abbrev pub negated : Option ℤ → Option ℤ
  negated none = none
  negated (some d) = some (neg64 d)

  -- `parse`, which `UnmarshalText` and `UnmarshalParam` call
  unfoldable pub parse : Text → Outcome ℤ
  unfolding parse_unsigned neg64
  parse [] = err invalid_duration
  parse (c ∷ s) =
      if c == b'-'
      then (if is_empty s then err invalid_duration else or_invalid (negated (parse_unsigned s)))
      else or_invalid (parse_unsigned (c ∷ s))

  -- `UnmarshalJSON`
  unfoldable pub unmarshal_json : Text → Outcome ℤ
  unfolding unquote parse
  unmarshal_json j = elim (unquote j) [ none ↦ err invalid_duration | some s ↦ parse s ]
