-- ===== src/Rest/Duration/Digits.antt =====
-- The numbers of a printed duration, and how they are read back.
use brickstor_csi_driver.Base.{
  ℕ, zero, suc, ◌+◌, ◌-◌, ◌/◌, ◌%◌, ◌^◌, ◌<◌, ◌≡◌, ◌≢◌, refl, sym, arith, pos, true, false, [], ◌∷◌,
  ◌++◌, append_assoc, Text, codes, none, some, ltb, inl, inr, Bool-cases, cut_first, has_byte,
  if◌then◌else◌, Lacks,
}
use brickstor_csi_driver.Strconv
use brickstor_csi_driver.Strconv.{parse_uint, format_int, format_uint, is_digit, digits}
use brickstor_csi_driver.Strconv.RoundTrip.{
  parse_uint-format_uint, format_int-Lacks, Lacks-append, format_uint_head,
}
use brickstor_csi_driver.Rest.Duration.{two_digits, get_two_digits, parse_uint64, parse_hours}

digits_small : (fuel n : ℕ) → n < fuel → n < 10 → digits fuel n ≡ (b'0' + n) ∷ []
unfolding digits
digits_small zero n h small = elim h [ ]
digits_small (suc fuel) n h small = ground arith

digits_two :
    (fuel n : ℕ)
    → n < fuel
    → ltb n 10 ≡ false
    → n < 100
    → digits fuel n ≡ (b'0' + n / 10) ∷ (b'0' + n % 10) ∷ []
unfolding digits
digits_two zero n h large small = elim h [ ]
digits_two (suc fuel) n h large small =
    rw large (rw (digits_small fuel (n / 10) (ground arith) (ground arith)) refl)

-- A number below 100 is printed as its two digits.
two_digits_lem : (n : ℕ) → n < 100 → two_digits (pos n) ≡ (b'0' + n / 10) ∷ (b'0' + n % 10) ∷ []
unfolding two_digits format_int format_uint
two_digits_lem n h = elim (Bool-cases (ltb n 10)) [
  | inl small ↦ rw (digits_small (n + 1) n (omega arith) (ground arith)) (ground arith)
  | inr large ↦ rw (digits_two (n + 1) n (omega arith) large h) refl
]

pub get_two_digits-two_digits : (n : ℕ) → n < 100 → get_two_digits (two_digits (pos n)) ≡ some n
unfolding get_two_digits
get_two_digits-two_digits n h = rw (two_digits_lem n h) (ground arith)

parse_uint64-two_digits : (n : ℕ) → n < 100 → parse_uint64 (two_digits (pos n)) ≡ some n
unfolding parse_uint64 parse_uint Strconv.scan
parse_uint64-two_digits n h = rw (two_digits_lem n h) (ground arith)

pub two_digits-Lacks : (b n : ℕ) → is_digit 10 b ≡ false → n < 100 → Lacks b (two_digits (pos n))
two_digits-Lacks b n h small = rw (two_digits_lem n small) (ground arith, (ground arith, tt))

parse_uint64-format_uint : (n : ℕ) → n < 2 ^ 64 → parse_uint64 (format_uint n) ≡ some n
unfolding parse_uint64
parse_uint64-format_uint n h =
    rw (parse_uint-format_uint (2 ^ 64 - 1) n (omega arith), parse_uint64) refl

cut_first-append : (sep : ℕ) (p s : Text) → Lacks sep p → cut_first sep (p ++ sep ∷ s) ≡ some (p, s)
unfolding cut_first
cut_first-append sep [] s h = ground arith
cut_first-append sep (c ∷ p) s (hc, hp) = ground (arith, cut_first-append sep p s hp)

pub cut_first-Lacks : (sep : ℕ) (s : Text) → Lacks sep s → cut_first sep s ≡ none
unfolding cut_first
cut_first-Lacks sep [] h = refl
cut_first-Lacks sep (c ∷ s) (hc, hs) = ground (arith, cut_first-Lacks sep s hs)

pub has_byte-append : (b : ℕ) (p s : Text) → has_byte b (p ++ b ∷ s) ≡ true
unfolding has_byte
has_byte-append b [] s = ground arith
has_byte-append b (c ∷ p) s = ground (arith, has_byte-append b p s)

format_uint-Lacks : (b n : ℕ) → is_digit 10 b ≡ false → b ≢ b'-' → Lacks b (format_uint n)
format_uint-Lacks b n h m = unfold format_int in format_int-Lacks b (pos n) h m

-- The days and the hours, as they are printed.
abbrev pub hours_text : ℕ → ℕ → Text
hours_text days hours =
    (if ltb 0 days then format_uint days ++ codes "." else []) ++ two_digits (pos hours)

parse_hours_days :
    (s d h : Text) (days hours : ℕ)
    → cut_first b'.' s ≡ some (d, h)
    → parse_uint64 d ≡ some days
    → parse_uint64 h ≡ some hours
    → parse_hours s ≡ some (days, hours)
unfolding parse_hours
parse_hours_days s d h days hours cut ed eh = rw (cut, ed, eh, parse_hours) refl

parse_hours_alone :
    (s : Text) (hours : ℕ)
    → cut_first b'.' s ≡ none
    → parse_uint64 s ≡ some hours
    → parse_hours s ≡ some (0, hours)
unfolding parse_hours
parse_hours_alone s hours cut eh = rw (cut, eh, parse_hours) refl

module _ (days hours : ℕ) (fits : days < 2 ^ 64) (small : hours < 24) where
  pub parse_hours-hours_text : parse_hours (hours_text days hours) ≡ some (days, hours)
  parse_hours-hours_text = elim (Bool-cases (ltb 0 days)) [
    | inl some_days ↦
        rw (some_days, append_assoc (format_uint days) (codes ".") (two_digits (pos hours)))
          (parse_hours_days _ (format_uint days) (two_digits (pos hours)) days hours
            (cut_first-append b'.' (format_uint days) (two_digits (pos hours))
              (format_uint-Lacks b'.' days refl (omega arith)))
            (parse_uint64-format_uint days fits) (parse_uint64-two_digits hours (omega arith)))
    | inr no_days ↦
        let none_left : days ≡ 0 = ground arith in
        rw (no_days, none_left)
          (parse_hours_alone _ hours
            (cut_first-Lacks b'.' _ (two_digits-Lacks b'.' hours refl (omega arith)))
            (parse_uint64-two_digits hours (omega arith)))
  ]

  pub hours_text-Lacks :
      (b : ℕ) → is_digit 10 b ≡ false → b ≢ b'-' → b ≢ b'.' → Lacks b (hours_text days hours)
  hours_text-Lacks b digit minus point = elim (Bool-cases (ltb 0 days)) [
    | inl some_days ↦ rw some_days (
        Lacks-append b _ _
          (Lacks-append b (format_uint days) (codes ".") (format_uint-Lacks b days digit minus)
            (λ e. point (sym e), tt))
          (two_digits-Lacks b hours digit (omega arith)))
    | inr no_days ↦ rw no_days (two_digits-Lacks b hours digit (omega arith))
  ]

  pub hours_text_head :
      (c : ℕ) × (s : Text) × (hours_text days hours ≡ c ∷ s) × (is_digit 10 c ≡ true)
  hours_text_head = elim (Bool-cases (ltb 0 days)) [
    | inl some_days ↦
        let (c, s, e, d) = format_uint_head days in
        (c, (s ++ codes ".") ++ two_digits (pos hours), rw (some_days, e) refl, d)
    | inr no_days ↦ (
      b'0' + hours / 10,
      (b'0' + hours % 10) ∷ [],
      rw (no_days, two_digits_lem hours (omega arith)) refl,
      ground arith,
    )
  ]
