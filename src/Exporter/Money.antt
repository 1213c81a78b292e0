-- ===== src/Exporter/Money.antt =====
-- apps/drupal-exporter/src/decimal-money.mjs: prices with five decimals. A text is the list of its code
-- points; the argument of `parseDecimal` is a text or, as `none`, null or undefined.
use babypark_integration.Base.{
  ℕ, zero, suc, ◌+◌, ◌-◌, ◌*◌, ◌/◌, ◌%◌, ◌^◌, Bool, true, false, ◌&&◌, not, Option, none, some,
  List, [], ◌∷◌, ◌++◌, reverse, ltb, ◌==◌, if◌then◌else◌, every, length, ℤ, pos, negsuc, is_digit,
  is_space, Result, ok, err, ◌>>=◌, ◌>>◌, fail_if,
}

pub data Error : Type 0 where
  money_invalid money_precision price_negative price_not_minor_aligned : Error

abbrev pub scale : ℕ
scale = 5

abbrev pub scale_factor : ℕ
scale_factor = 100000

abbrev pub minor_factor : ℕ
minor_factor = 100

abbrev pub minor_scale : ℕ
minor_scale = 2

-- `text.trim()`.
unfoldable pub trim_start : List ℕ → List ℕ
trim_start [] = []
trim_start (c ∷ cs) = if is_space c then trim_start cs else c ∷ cs

abbrev pub trim : List ℕ → List ℕ
trim cs = reverse (trim_start (reverse (trim_start cs)))

-- `unsigned.split('.')`, whose first two parts are used: there is at most one dot after the test.
unfoldable pub split_dot : List ℕ → List ℕ × Option (List ℕ)
split_dot [] = ([], none)
split_dot (c ∷ cs) =
    let (whole, fraction) = split_dot cs in
    if c == b'.' then ([], some cs) else (c ∷ whole, fraction)

-- `\d+`.
abbrev pub is_digits : List ℕ → Bool
is_digits [] = false
is_digits (c ∷ cs) = every is_digit (c ∷ cs)

abbrev pub is_fraction : Option (List ℕ) → Bool
is_fraction none = true
is_fraction (some cs) = is_digits cs

-- `BigInt` of a text of digits, and of one that follows the digits of a number.
abbrev pub big_int_from : ℕ → List ℕ → ℕ
big_int_from n [] = n
big_int_from n (c ∷ cs) = big_int_from (n * 10 + (c - b'0')) cs

abbrev pub or_empty : Option (List ℕ) → List ℕ
or_empty none = []
or_empty (some cs) = cs

-- `padEnd(n, '0')` and `padStart(n, '0')`.
abbrev pub zeros : ℕ → List ℕ
zeros zero = []
zeros (suc n) = b'0' ∷ zeros n

abbrev pub pad_end : ℕ → List ℕ → List ℕ
pad_end n cs = cs ++ zeros (n - length cs)

abbrev pub pad_start : ℕ → List ℕ → List ℕ
pad_start n cs = zeros (n - length cs) ++ cs

abbrev pub negate : ℕ → ℤ
negate zero = pos 0
negate (suc n) = negsuc n

-- The digits of `parseDecimal`, after the sign.
unfoldable pub parse_unsigned : List ℕ → Result Error ℕ
unfolding split_dot
parse_unsigned cs =
    let (whole, fraction) = split_dot cs in
    fail_if (not (is_digits whole && is_fraction fraction)) money_invalid
    >> (fail_if (ltb scale (length (or_empty fraction))) money_precision
        >> ok (big_int_from 0 (whole ++ pad_end scale (or_empty fraction))))

unfoldable pub parse_signed : List ℕ → Result Error ℤ
unfolding parse_unsigned
parse_signed [] = err money_invalid
parse_signed (c ∷ cs) =
    if c == b'-'
    then parse_unsigned cs >>= (λ n. ok (negate n))
    else parse_unsigned (c ∷ cs) >>= (λ n. ok (pos n))

unfoldable pub parse_decimal : Option (List ℕ) → Result Error ℤ
unfolding trim_start parse_signed
parse_decimal none = err money_invalid
parse_decimal (some text) = parse_signed (trim text)

unfoldable pub to_minor_units : ℤ → Result Error ℕ
to_minor_units (negsuc n) = err price_negative
to_minor_units (pos n) =
    fail_if (not (n % (scale_factor / minor_factor) == 0)) price_not_minor_aligned
    >> ok (n / (scale_factor / minor_factor))

-- `10n ** BigInt(SCALE - precision)`.
abbrev pub factor : ℕ → ℕ
factor precision = 10 ^ (scale - precision)

unfoldable pub round_php_number_format : ℤ → ℤ → Result Error ℕ
round_php_number_format v (negsuc p) = err money_precision
round_php_number_format v (pos p) = fail_if (ltb scale p) money_precision >> elim v [
  | negsuc n ↦ err price_negative
  | pos n ↦ ok ((n + factor p / 2) / factor p * factor p)
]

abbrev pub exceeds_minor_scale : ℤ → Bool
exceeds_minor_scale (negsuc p) = false
exceeds_minor_scale (pos p) = ltb minor_scale p

unfoldable pub to_minor_units_with_display_precision : ℤ → ℤ → Result Error ℕ
unfolding round_php_number_format
to_minor_units_with_display_precision v p = do
  rounded ← round_php_number_format v p
  fail_if (exceeds_minor_scale p) money_precision
  fail_if (not (rounded % (scale_factor / minor_factor) == 0)) price_not_minor_aligned
  ok (rounded / (scale_factor / minor_factor))

-- `toString` of a number, on fuel that its own size exceeds.
unfoldable pub digits_from : ℕ → ℕ → List ℕ
digits_from zero n = []
digits_from (suc fuel) n =
    let front = digits_from fuel (n / 10) in
    if ltb n 10 then (b'0' + n) ∷ [] else front ++ (b'0' + n % 10) ∷ []

unfoldable pub to_string : ℕ → List ℕ
unfolding digits_from
to_string n = digits_from (suc n) n

unfoldable pub format_unsigned : ℕ → List ℕ
unfolding to_string
format_unsigned n =
    to_string (n / scale_factor) ++ b'.' ∷ pad_start scale (to_string (n % scale_factor))

unfoldable pub format_decimal : ℤ → List ℕ
unfolding format_unsigned
format_decimal (pos n) = format_unsigned n
format_decimal (negsuc n) = b'-' ∷ format_unsigned (suc n)
