-- ===== src/Strconv.antt =====
-- Package strconv as the driver calls it: ParseUint, ParseInt and FormatInt in a base up to ten.
pub mod RoundTrip
use brickstor_csi_driver.Base.{
  ℕ, zero, suc, ◌+◌, ◌-◌, ◌*◌, ◌/◌, ◌%◌, ◌^◌, Bool, true, false, ◌&&◌, List, [], ◌∷◌, ◌++◌, Text,
  ltb, leb, if◌then◌else◌, ◌==◌, Option, none, some, ℤ, pos, negsuc,
}

-- The value and the error of a parse: a syntax error comes with 0, a range error with the maximum.
pub data Parsed : Type 0 where
  value : ℕ → Parsed
  syntax : Parsed
  range : Parsed

abbrev pub is_digit : ℕ → ℕ → Bool
is_digit base c = leb b'0' c && ltb c (b'0' + base)

unfoldable pub scan : ℕ → ℕ → Text → ℕ → Parsed
scan base max [] n = value n
scan base max (c ∷ s) n =
    let m = n * base + (c - b'0') in
    let rest = scan base max s m in
    let fits = if leb m max then rest else range in if is_digit base c then fits else syntax

-- `strconv.ParseUint(s, base, bits)` where `max` is the largest value of that many bits.
unfoldable pub parse_uint : ℕ → ℕ → Text → Parsed
unfolding scan
parse_uint base max [] = syntax
parse_uint base max (c ∷ s) = scan base max (c ∷ s) 0

-- `val, _ := strconv.ParseUint(s, 10, 64)`: the error is dropped.
unfoldable pub parse_uint64_or_default : Text → ℕ
unfolding parse_uint
parse_uint64_or_default s = elim (parse_uint 10 (2 ^ 64 - 1) s) [
  | value n ↦ n
  | syntax ↦ 0
  | range ↦ 2 ^ 64 - 1
]

abbrev positive : ℕ → Parsed → Option ℤ
positive half (value n) = if ltb n half then some (pos n) else none
positive half syntax = none
positive half range = none

-- `-n` as an integer.
abbrev pub negate : ℕ → ℤ
negate zero = pos 0
negate (suc n) = negsuc n

abbrev negative : ℕ → Parsed → Option ℤ
negative half (value n) = if leb n half then some (negate n) else none
negative half syntax = none
negative half range = none

-- `strconv.ParseInt(s, base, bits)` where `half` is 2 ^ (bits - 1); `none` is an error.
unfoldable pub parse_int : ℕ → ℕ → Text → Option ℤ
unfolding parse_uint
parse_int base half [] = none
parse_int base half (c ∷ s) =
    if c == b'-'
    then negative half (parse_uint base (half + half - 1) s)
    else if c == b'+'
    then positive half (parse_uint base (half + half - 1) s)
    else positive half (parse_uint base (half + half - 1) (c ∷ s))

-- The decimal digits; the fuel is one more than the number.
unfoldable pub digits : ℕ → ℕ → Text
digits zero n = []
digits (suc fuel) n =
    let more = digits fuel (n / 10) ++ (b'0' + n % 10) ∷ [] in
    if ltb n 10 then (b'0' + n) ∷ [] else more

unfoldable pub format_uint : ℕ → Text
unfolding digits
format_uint n = digits (n + 1) n

-- `strconv.FormatInt(i, 10)`, which `%d` prints too
unfoldable pub format_int : ℤ → Text
unfolding format_uint
format_int (pos n) = format_uint n
format_int (negsuc n) = b'-' ∷ format_uint (n + 1)
