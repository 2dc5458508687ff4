-- ===== src/Strconv/RoundTrip.antt =====
-- Printing numbers in base 10 and parsing what was printed.
use brickstor_csi_driver.Base.{
  ℕ, zero, suc, ◌+◌, ◌-◌, ◌/◌, ◌%◌, ◌≤◌, ◌<◌, ◌≡◌, refl, ◌≢◌, ◌∙◌, true, false, [], ◌∷◌, ◌++◌,
  append_assoc, append-nil, Text, ltb, some, ℤ, pos, negsuc, arith, Bool-cases, inl, inr, Lacks,
}
use brickstor_csi_driver.Strconv.{
  value, scan, parse_uint, parse_int, digits, format_uint, format_int, is_digit,
}

digits_step :
    (fuel n : ℕ)
    → ltb n 10 ≡ false
    → digits (suc fuel) n ≡ digits fuel (n / 10) ++ (b'0' + n % 10) ∷ []
unfolding digits
digits_step fuel n h = rw h refl

-- Reading the last digit of `n` after the digits before it gives `n`.
scan_last :
    (max n : ℕ) (rest : Text)
    → n ≤ max
    → scan 10 max ((b'0' + n % 10) ∷ rest) (n / 10) ≡ scan 10 max rest n
unfolding scan
scan_last max n rest fits = ground arith

-- A value of the signed width whose largest power is `half`.
abbrev pub Fits : ℕ → ℤ → Type 0
Fits half (pos n) = n < half
Fits half (negsuc n) = n < half

scan-digits :
    (max fuel n : ℕ) (rest : Text)
    → n < fuel
    → n ≤ max
    → scan 10 max (digits fuel n ++ rest) 0 ≡ scan 10 max rest n
scan-digits max zero n rest h fits = elim h [ ]
scan-digits max (suc fuel) n rest h fits = elim (Bool-cases (ltb n 10)) [
  | inl small ↦ unfold digits scan in rw small (ground arith)
  | inr large ↦
      rw (digits_step fuel n large, append_assoc)
        (scan-digits max fuel (n / 10) ((b'0' + n % 10) ∷ rest) (ground arith) (omega arith)
          ∙ scan_last max n rest fits)
]

digits-ne-nil : (fuel n : ℕ) → n < fuel → digits fuel n ≢ []
unfolding digits
digits-ne-nil zero n h = elim h [ ]
digits-ne-nil (suc fuel) n h = ground (arith, digits-ne-nil fuel (n / 10))

-- The first byte is a digit.
head_digit :
    (fuel n : ℕ)
    → n < fuel
    → (c : ℕ) × (s : Text) × (digits fuel n ≡ c ∷ s) × (is_digit 10 c ≡ true)
unfolding digits
head_digit zero n h = elim h [ ]
head_digit (suc fuel) n h = elim (Bool-cases (ltb n 10)) [
  | inl small ↦ (b'0' + n, [], rw small refl, ground arith)
  | inr large ↦
      let (c, s, e, d) = head_digit fuel (n / 10) (ground arith) in
      (c, s ++ (b'0' + n % 10) ∷ [], rw (large, e) refl, d)
]

parse_uint-scan : (max : ℕ) (s : Text) → s ≢ [] → parse_uint 10 max s ≡ scan 10 max s 0
unfolding parse_uint
parse_uint-scan max [] h = absurd (h refl)
parse_uint-scan max (c ∷ s) h = refl

pub parse_uint-format_uint : (max n : ℕ) → n ≤ max → parse_uint 10 max (format_uint n) ≡ value n
unfolding format_uint
parse_uint-format_uint max n fits =
    parse_uint-scan max _ (digits-ne-nil (n + 1) n (omega arith))
    ∙ rw (← append-nil (digits (n + 1) n))
        (scan-digits max (n + 1) n [] (omega arith) fits ∙ unfold scan in refl)

-- The printed number has a first byte, and it is a digit.
pub format_uint_head :
    (n : ℕ) → (c : ℕ) × (s : Text) × (format_uint n ≡ c ∷ s) × (is_digit 10 c ≡ true)
unfolding format_uint
format_uint_head n = head_digit (n + 1) n (omega arith)

-- A value of the width is read back from its print, whatever its sign.
pub parse_int-format_int :
    (half : ℕ) (i : ℤ) → Fits half i → parse_int 10 half (format_int i) ≡ some i
unfolding parse_int format_int
parse_int-format_int half (pos n) h =
    let (c, s, e, d) = format_uint_head n in
    let back : parse_uint 10 (half + half - 1) (c ∷ s) ≡ value n =
      rw e at (parse_uint-format_uint (half + half - 1) n (omega arith)) in
    rw e (ground (arith, back))
parse_int-format_int half (negsuc n) h =
    rw (parse_uint-format_uint (half + half - 1) (n + 1) (omega arith)) (ground arith)

pub Lacks-append : (b : ℕ) (s t : Text) → Lacks b s → Lacks b t → Lacks b (s ++ t)
Lacks-append b [] t hs ht = ht
Lacks-append b (c ∷ s) t (hc, hs) ht = (hc, Lacks-append b s t hs ht)

digits-Lacks : (b fuel n : ℕ) → is_digit 10 b ≡ false → Lacks b (digits fuel n)
unfolding digits
digits-Lacks b zero n h = tt
digits-Lacks b (suc fuel) n h = elim (Bool-cases (ltb n 10)) [
  | inl small ↦ rw small (ground arith, tt)
  | inr large ↦
      rw large (
        Lacks-append b (digits fuel (n / 10)) _ (digits-Lacks b fuel (n / 10) h) (ground arith, tt))
]

-- A printed integer holds no byte but digits and the minus sign.
pub format_int-Lacks : (b : ℕ) (i : ℤ) → is_digit 10 b ≡ false → b ≢ b'-' → Lacks b (format_int i)
unfolding format_int format_uint
format_int-Lacks b (pos n) h m = digits-Lacks b (n + 1) n h
format_int-Lacks b (negsuc n) h m = (ground arith, digits-Lacks b (n + 1 + 1) (n + 1) h)
