-- ===== src/Exporter/Decimals.antt =====
-- apps/drupal-exporter/src/decimal-money.mjs, lines 17 to 34 and 85 to 92: a price that is printed and read.
use mathlib.Core.List.{append-nil}
use babypark_integration.Base.{
  ℕ, suc, ◌+◌, ◌-◌, ◌*◌, ◌/◌, ◌%◌, ◌≤◌, ◌<◌, ◌≡◌, refl, ap, ◌∙◌, true, false, List, [], ◌∷◌, ◌++◌,
  some, every, length, length-append, ◌==◌, is_digit, ℤ, pos, negsuc, ok, ◌>>=◌, ◌>>◌, fail_if,
  arith, &&-eq-true,
}
use babypark_integration.Exporter.Money.{
  scale_factor, big_int_from, zeros, pad_start, to_string, is_digits, parse_unsigned, parse_signed,
  parse_decimal, format_unsigned, format_decimal,
}
use babypark_integration.Exporter.Digits.{
  big_int_from-append, big_int_from-zeros, big_int_from-shift, big_int_from-digits_from,
  length-digits_from, every-append, every-digits_from, every-zeros, length-zeros, is_digits-every,
  length-to_string, split_dot-append, is_solid, trim-solid, every-solid,
}

-- Five digits after the point.
record IsFraction (n : ℕ) (xs : List ℕ) : Type 0 where
  digits : every is_digit xs ≡ true
  five : length xs ≡ 5
  value : big_int_from 0 xs ≡ n

every-to_string : (n : ℕ) → every is_digit (to_string n) ≡ true
unfolding to_string
every-to_string n = every-digits_from (suc n) n

value-to_string : (n : ℕ) → big_int_from 0 (to_string n) ≡ n
unfolding to_string
value-to_string n = big_int_from-digits_from (suc n) n (omega arith)

at_most_five : (n : ℕ) → n < scale_factor → length (to_string n) ≤ 5
unfolding to_string
at_most_five n h = length-digits_from 4 (suc n) n h

pad_start-IsFraction : (n : ℕ) → n < scale_factor → IsFraction n (pad_start 5 (to_string n))
pad_start-IsFraction n h = record {
  digits =
      every-append is_digit (zeros (5 - length (to_string n))) (to_string n)
        (every-zeros (5 - length (to_string n))) (every-to_string n);
  five = omega (
    arith,
    length-append (zeros (5 - length (to_string n))) (to_string n),
    length-zeros (5 - length (to_string n)),
    at_most_five n h,
  );
  value = big_int_from-zeros (5 - length (to_string n)) (to_string n) ∙ value-to_string n;
}

value-append :
    (w n : ℕ) (xs ys : List ℕ)
    → big_int_from 0 xs ≡ w
    → IsFraction n ys
    → big_int_from 0 (xs ++ ys) ≡ w * scale_factor + n
value-append w n xs ys v f =
    big_int_from-append 0 xs ys
    ∙ big_int_from-shift (big_int_from 0 xs) ys
    ∙ rw (f.five, v, f.value) (omega arith)

-- A whole part and five digits are read as the number that they spell.
parse_unsigned-append :
    (w n : ℕ) (xs ys : List ℕ)
    → is_digits xs ≡ true
    → every is_digit xs ≡ true
    → big_int_from 0 xs ≡ w
    → IsFraction n ys
    → parse_unsigned (xs ++ b'.' ∷ ys) ≡ ok (w * scale_factor + n)
unfolding parse_unsigned ◌>>=◌ ◌>>◌ fail_if
parse_unsigned-append w n xs ys h d v f =
    let a = is_digits-every ys f.digits (omega (arith, f.five)) in
    rw (split_dot-append xs ys d, h, a, f.five, append-nil ys) (ap ok (value-append w n xs ys v f))

is_digits-to_string : (n : ℕ) → is_digits (to_string n) ≡ true
is_digits-to_string n = is_digits-every (to_string n) (every-to_string n) (length-to_string n)

parse_unsigned-format_unsigned : (n : ℕ) → parse_unsigned (format_unsigned n) ≡ ok n
unfolding format_unsigned
parse_unsigned-format_unsigned n =
    let w = n / scale_factor in
    let r = n % scale_factor in
    parse_unsigned-append w r (to_string w) (pad_start 5 (to_string r)) (is_digits-to_string w)
      (every-to_string w) (value-to_string w) (pad_start-IsFraction r (omega arith))
    ∙ ap ok (omega arith)

format_unsigned-solid : (n : ℕ) → every is_solid (format_unsigned n) ≡ true
unfolding format_unsigned
format_unsigned-solid n =
    let w = n / scale_factor in
    let r = n % scale_factor in
    let f = pad_start-IsFraction r (omega arith) in
    every-append is_solid (to_string w) (b'.' ∷ pad_start 5 (to_string r))
      (every-solid (to_string w) (every-to_string w))
      (every-solid (pad_start 5 (to_string r)) f.digits)

-- A text that begins with a digit has no sign.
parse_signed-digits :
    (xs ys : List ℕ) {n : ℕ}
    → is_digits xs ≡ true
    → parse_unsigned (xs ++ ys) ≡ ok n
    → parse_signed (xs ++ ys) ≡ ok (pos n)
unfolding parse_signed ◌>>=◌
parse_signed-digits [] ys h k = absurd (ground (arith, h))
parse_signed-digits (x ∷ xs) ys h k =
    let (a, b) = &&-eq-true (is_digit x) (every is_digit xs) h in
    let c : (x == b'-') ≡ false = ground (arith, a) in rw (c, k) refl

parse_signed-format_decimal : (z : ℤ) → parse_signed (format_decimal z) ≡ ok z
unfolding format_decimal format_unsigned parse_signed ◌>>=◌
parse_signed-format_decimal (pos n) =
    parse_signed-digits (to_string (n / scale_factor)) _ (is_digits-to_string (n / scale_factor))
      (parse_unsigned-format_unsigned n)
parse_signed-format_decimal (negsuc n) = rw (parse_unsigned-format_unsigned (suc n)) refl

format_decimal-solid : (z : ℤ) → every is_solid (format_decimal z) ≡ true
unfolding format_decimal
format_decimal-solid (pos n) = format_unsigned-solid n
format_decimal-solid (negsuc n) = format_unsigned-solid (suc n)

-- A price that is printed with five decimals is read back as itself, whatever its sign.
pub parse_decimal-format_decimal : (z : ℤ) → parse_decimal (some (format_decimal z)) ≡ ok z
unfolding parse_decimal
parse_decimal-format_decimal z =
    rw (trim-solid (format_decimal z) (format_decimal-solid z)) (parse_signed-format_decimal z)
