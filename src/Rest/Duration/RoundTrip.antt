-- ===== src/Rest/Duration/RoundTrip.antt =====
-- Printing a duration of whole seconds and parsing what was printed.
use brickstor_csi_driver.Base.{
  ℕ, ◌+◌, ◌*◌, ◌/◌, ◌%◌, ◌^◌, ◌<◌, ◌≡◌, ◌∙◌, refl, ap, sym, arith, ℤ, pos, negsuc, neg64, to_int64,
  to_int64_small, InInt64, false, [], ◌∷◌, ◌++◌, append_assoc, append-nil, Text, codes, some, ok,
  ltb, if◌then◌else◌, split-append, split-Lacks,
}
use brickstor_csi_driver.Rest.Duration.Digits.{
  get_two_digits-two_digits, two_digits-Lacks, cut_first-Lacks, has_byte-append, hours_text,
  parse_hours-hours_text, hours_text-Lacks, hours_text_head,
}
use brickstor_csi_driver.Strconv.{format_int, format_uint}
use brickstor_csi_driver.Rest.Duration.{
  second, minute, hour, day, quot, rem, round_microsecond, two_digits, days_text, without_days,
  fraction_text, time_text, clock_text, marshal, marshal_json, unmarshal_json, unquote, quoted,
  without_quote, Floats, parse_seconds, parse_fields, parse_unsigned, parse, total,
}

module _ (n : ℕ) where
  abbrev clock_days : ℕ
  clock_days = n / day

  abbrev clock_hours : ℕ
  clock_hours = (n % day) / hour

  abbrev clock_minutes : ℕ
  clock_minutes = ((n % day) % hour) / minute

  abbrev clock_seconds : ℕ
  clock_seconds = (((n % day) % hour) % minute) / second

  without_days_lem : without_days (pos n) ≡ pos (n % day)
  unfolding without_days quot rem
  without_days_lem = ground arith

  abbrev clock_rest : Text
  clock_rest = two_digits (pos clock_minutes) ++ b':' ∷ two_digits (pos clock_seconds)

  time_text_lem :
      n % second ≡ 0 → time_text (pos (n % day)) ≡ two_digits (pos clock_hours) ++ b':' ∷ clock_rest
  unfolding time_text quot rem fraction_text
  time_text_lem whole =
      let r = ((n % day) % hour) % minute % second in
      let none_left : r ≡ 0 = omega arith in
      ap
        (λ x.
          two_digits (pos clock_hours)
          ++ b':'
            ∷ (two_digits (pos clock_minutes)
                ++ b':' ∷ (two_digits (pos clock_seconds) ++ fraction_text (pos x))))
        none_left
      ∙ ap
          (λ x. two_digits (pos clock_hours) ++ b':' ∷ (two_digits (pos clock_minutes) ++ b':' ∷ x))
          (append-nil (two_digits (pos clock_seconds)))

  days_text_lem :
      days_text (pos n) ≡ (if ltb 0 clock_days then format_uint clock_days ++ codes "." else [])
  unfolding days_text quot format_int
  days_text_lem = refl

  clock_text_lem :
      n % second ≡ 0 → clock_text (pos n) ≡ hours_text clock_days clock_hours ++ b':' ∷ clock_rest
  unfolding clock_text
  clock_text_lem whole =
      ap (λ x. days_text (pos n) ++ time_text x) without_days_lem
      ∙ ap (λ x. days_text (pos n) ++ x) (time_text_lem whole)
      ∙ ap (λ x. x ++ (two_digits (pos clock_hours) ++ b':' ∷ clock_rest)) days_text_lem
      ∙ sym (append_assoc _ (two_digits (pos clock_hours)) (b':' ∷ clock_rest))

module _ (f : Floats) (n : ℕ) (fits : n < 2 ^ 63) (whole : n % second ≡ 0) where
  total_lem : total f (clock_days n) (clock_hours n) (clock_minutes n) (clock_seconds n) 0 ≡ pos n
  total_lem =
      let sum : (clock_days n * 24 + clock_hours n) * hour
            + clock_minutes n * minute
            + clock_seconds n * second
            + 0
          ≡ n =
        omega arith in
      rw sum (to_int64_small n fits)

  minutes_small : clock_minutes n < 100
  minutes_small = omega arith

  seconds_small : clock_seconds n < 100
  seconds_small = omega arith

  parse_seconds_lem :
      parse_seconds f (two_digits (pos (clock_seconds n))) ≡ some (clock_seconds n, 0)
  unfolding parse_seconds
  parse_seconds_lem =
      rw
        (
          cut_first-Lacks b'.' _ (two_digits-Lacks b'.' (clock_seconds n) refl seconds_small),
          get_two_digits-two_digits (clock_seconds n) seconds_small,
          parse_seconds,
        )
        refl

  parse_fields_lem :
      parse_fields f (
        hours_text (clock_days n) (clock_hours n)
        ∷ two_digits (pos (clock_minutes n))
        ∷ two_digits (pos (clock_seconds n))
        ∷ [])
      ≡ some (pos n)
  unfolding parse_fields
  parse_fields_lem =
      rw
        (
          parse_hours-hours_text (clock_days n) (clock_hours n) (omega arith) (omega arith),
          get_two_digits-two_digits (clock_minutes n) minutes_small,
          parse_seconds_lem,
          parse_fields,
        )
        (ap some total_lem)

  parse_unsigned-clock_text : parse_unsigned f (clock_text (pos n)) ≡ some (pos n)
  unfolding parse_unsigned
  parse_unsigned-clock_text =
      let hours = hours_text (clock_days n) (clock_hours n) in
      let lacking =
        hours_text-Lacks (clock_days n) (clock_hours n) (omega arith) (omega arith) b':' refl
          (omega arith) (omega arith) in
      rw
        (
          clock_text_lem n whole,
          has_byte-append b':' hours (clock_rest n),
          split-append b':' hours (clock_rest n) lacking,
          split-append b':' (two_digits (pos (clock_minutes n)))
              (two_digits (pos (clock_seconds n)))
              (two_digits-Lacks b':' (clock_minutes n) refl minutes_small),
          split-Lacks b':' (two_digits (pos (clock_seconds n)))
              (two_digits-Lacks b':' (clock_seconds n) refl seconds_small),
        )
        parse_fields_lem

  -- The printed clock begins with a digit.
  parse-clock_text : parse f (clock_text (pos n)) ≡ ok (pos n)
  unfolding parse
  parse-clock_text =
      let (c, s, e, d) =
        hours_text_head (clock_days n) (clock_hours n) (omega arith) (omega arith) in
      let text : clock_text (pos n) ≡ c ∷ (s ++ b':' ∷ clock_rest n) =
        rw (clock_text_lem n whole, e) refl in
      let back : parse_unsigned f (c ∷ (s ++ b':' ∷ clock_rest n)) ≡ some (pos n) =
        rw text at parse_unsigned-clock_text in
      rw text (ground (arith, back))

  parse-minus : parse f (b'-' ∷ clock_text (pos n)) ≡ ok (neg64 (pos n))
  unfolding parse
  parse-minus =
      let (c, s, e, d) =
        hours_text_head (clock_days n) (clock_hours n) (omega arith) (omega arith) in
      let text : clock_text (pos n) ≡ c ∷ (s ++ b':' ∷ clock_rest n) =
        rw (clock_text_lem n whole, e) refl in
      let back : parse_unsigned f (c ∷ (s ++ b':' ∷ clock_rest n)) ≡ some (pos n) =
        rw text at parse_unsigned-clock_text in
      rw text (rw back refl)

round_whole : (n : ℕ) → n % second ≡ 0 → round_microsecond (pos n) ≡ pos n
unfolding round_microsecond
round_whole n h = ground arith

marshal_positive : (n : ℕ) → marshal (pos n) ≡ clock_text (round_microsecond (pos n))
unfolding marshal
marshal_positive n =
    let e : ltb n 0 ≡ false = ground arith in
    ap
      (λ b.
        if b
        then b'-' ∷ clock_text (round_microsecond (neg64 (pos n)))
        else clock_text (round_microsecond (pos n)))
      e

marshal_negative :
    (n : ℕ) → marshal (negsuc n) ≡ b'-' ∷ clock_text (round_microsecond (neg64 (negsuc n)))
unfolding marshal
marshal_negative n = refl

-- A duration of whole seconds.
abbrev pub IsWhole : ℤ → Type 0
IsWhole (pos n) = n % second ≡ 0
IsWhole (negsuc n) = (n + 1) % second ≡ 0

without_quote-append : (s : Text) → without_quote (s ++ b'"' ∷ []) ≡ some s
unfolding without_quote
without_quote-append [] = refl
without_quote-append (c ∷ []) = refl
without_quote-append (c ∷ d ∷ s) = rw (without_quote-append (d ∷ s), without_quote) refl

parse-text : (f : Floats) (dur : ℤ) → InInt64 dur → IsWhole dur → parse f (marshal dur) ≡ ok dur
parse-text f (pos n) fits whole =
    ap (parse f) (marshal_positive n ∙ ap clock_text (round_whole n whole))
    ∙ parse-clock_text f n fits whole
parse-text f (negsuc n) fits whole =
    let flip : neg64 (negsuc n) ≡ pos (n + 1) = unfold neg64 to_int64 in ground arith in
    let back : neg64 (pos (n + 1)) ≡ negsuc n = unfold neg64 to_int64 in ground arith in
    ap (parse f) (
      marshal_negative n
      ∙ ap (λ d. b'-' ∷ clock_text d) (ap round_microsecond flip ∙ round_whole (n + 1) whole))
    ∙ parse-minus f (n + 1) (omega arith) whole
    ∙ ap ok back

unquote-quoted : (s : Text) → unquote (quoted s) ≡ some s
unfolding unquote
unquote-quoted s = without_quote-append s

unmarshal_json_unquoted :
    (f : Floats) (j s : Text) → unquote j ≡ some s → unmarshal_json f j ≡ parse f s
unfolding unmarshal_json
unmarshal_json_unquoted f j s e = rw (e, unmarshal_json) refl

-- A duration of whole seconds, of either sign and of any length that int64 holds, is read back from
-- its text and from its JSON, whatever float64 does.
pub parse-marshal :
    (f : Floats) (dur : ℤ)
    → InInt64 dur
    → IsWhole dur
    → (parse f (marshal dur) ≡ ok dur) × (unmarshal_json f (marshal_json dur) ≡ ok dur)
unfolding marshal_json
parse-marshal f dur fits whole =
    let same = parse-text f dur fits whole in
    (same, unmarshal_json_unquoted f _ (marshal dur) (unquote-quoted (marshal dur)) ∙ same)
