-- ===== src/Exporter/Tests.antt =====
-- apps/drupal-exporter/src/decimal-money.mjs and php-combination.mjs: the theorems at concrete prices and
-- combinations.
use babypark_integration.Base.{
  List, [], ◌∷◌, ℕ, ◌*◌, ◌≡◌, refl, some, codes, pos, negsuc, ok, err, ◌>>=◌, ◌>>◌, fail_if, arith,
}
use babypark_integration.Exporter.Money.{
  money_precision, split_dot, trim_start, parse_unsigned, parse_signed, parse_decimal,
  round_php_number_format, to_minor_units, to_minor_units_with_display_precision, format_decimal,
  format_unsigned, digits_from, to_string,
}
use babypark_integration.Exporter.Rounding.{
  IsNearest, round_php_number_format-IsNearest,
  to_minor_units_with_display_precision-round_php_number_format,
}
use babypark_integration.Exporter.Combination.{
  Pair, consume, read_int, span_digits, read_option, read_quoted_string, until_quote, set_pair,
  read_pairs, parse_php_combination, duplicate_attribute_id, encode, combination_to_canonical_id,
}
use babypark_integration.Exporter.Serialized.{php_serialize, parse_php_combination-php_serialize}
use babypark_integration.Exporter.Accepted.{IsCombination, parse_php_combination-IsCombination}
use babypark_integration.Exporter.Decimals.{parse_decimal-format_decimal}

parse_price : parse_decimal (some (codes " -12.5 ")) ≡ ok (negsuc 1249999)
unfolding parse_decimal trim_start parse_signed parse_unsigned split_dot ◌>>=◌ ◌>>◌ fail_if
parse_price = refl

parse_precise : parse_decimal (some (codes "1.123456")) ≡ err money_precision
unfolding parse_decimal trim_start parse_signed parse_unsigned split_dot ◌>>=◌ ◌>>◌ fail_if
parse_precise = refl

format_price : format_decimal (negsuc 1249999) ≡ codes "-12.50000"
unfolding format_decimal format_unsigned to_string digits_from
format_price = refl

parse_decimal-format_decimal_example :
    parse_decimal (some (format_decimal (negsuc 1249999))) ≡ ok (negsuc 1249999)
parse_decimal-format_decimal_example = parse_decimal-format_decimal (negsuc 1249999)

round_php_number_format-IsNearest_example :
    (r : ℕ) × (round_php_number_format (pos 1234500) (pos 2) ≡ ok r) × IsNearest 1000 1234500 r
round_php_number_format-IsNearest_example =
    round_php_number_format-IsNearest 1234500 2 1000 (omega arith) refl

to_minor_units_with_display_precision-round_php_number_format_example :
    (r : ℕ) × (m : ℕ) × (round_php_number_format (pos 1234500) (pos 2) ≡ ok r)
    × (to_minor_units_with_display_precision (pos 1234500) (pos 2) ≡ ok m)
    × (to_minor_units (pos r) ≡ ok m)
    × (r ≡ m * 1000)
to_minor_units_with_display_precision-round_php_number_format_example =
    to_minor_units_with_display_precision-round_php_number_format 1234500 2 (omega arith)

abbrev two_options : List Pair
two_options = (7, codes "12") ∷ (3, codes "45") ∷ []

serialized_options : parse_php_combination (codes "a:2:{i:7;s:2:\"12\";i:3;i:45;}") ≡ ok two_options
unfolding parse_php_combination consume read_int span_digits read_pairs read_option
    read_quoted_string until_quote set_pair to_string digits_from ◌>>=◌ ◌>>◌ fail_if
serialized_options = refl

repeated_option :
    parse_php_combination (codes "a:2:{i:7;s:2:\"12\";i:7;i:45;}") ≡ err duplicate_attribute_id
unfolding parse_php_combination consume read_int span_digits read_pairs read_option
    read_quoted_string until_quote set_pair to_string digits_from ◌>>=◌ ◌>>◌ fail_if
repeated_option = refl

canonical_options : combination_to_canonical_id 9 two_options ≡ codes "9|opts:3=45,7=12"
unfolding combination_to_canonical_id encode to_string digits_from
canonical_options = refl

parse_php_combination-php_serialize_example :
    parse_php_combination (php_serialize two_options) ≡ ok two_options
parse_php_combination-php_serialize_example =
    parse_php_combination-php_serialize two_options (omega arith)
      (refl, (omega arith, omega arith, refl), (refl, (omega arith, omega arith, refl), tt))

parse_php_combination-IsCombination_example : IsCombination two_options
parse_php_combination-IsCombination_example =
    parse_php_combination-IsCombination (codes "a:2:{i:7;s:2:\"12\";i:3;i:45;}") two_options
      serialized_options
