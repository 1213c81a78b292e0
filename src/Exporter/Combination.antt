-- ===== src/Exporter/Combination.antt =====
-- apps/drupal-exporter/src/php-combination.mjs, lines 6 to 110: the combination of options of a product,
-- as PHP serializes it. A text is the list of its UTF-16 units; the position in it is what is left of
-- it. The Map is the list of its entries in their order.
use babypark_integration.Base.{
  ℕ, zero, suc, Bool, true, false, not, List, [], ◌∷◌, ◌++◌, ltb, ◌==◌, if◌then◌else◌, any, length,
  is_digit, max_safe_integer, order_by, Result, ok, err, ◌>>=◌, ◌>>◌, fail_if,
}
use babypark_integration.Exporter.Money.{is_digits, big_int_from, to_string}

pub data Error : Type 0 where
  empty_combination expected expected_integer integer_out_of_range unterminated_string : Error
  string_length_mismatch unsupported_value_type trailing_bytes duplicate_attribute_id : Error
  option_id_not_numeric : Error

abbrev pub Pair : Type 0
Pair = ℕ × List ℕ

unfoldable pub consume : List ℕ → List ℕ → Result Error (List ℕ)
consume [] cs = ok cs
consume (p ∷ ps) [] = err expected
consume (p ∷ ps) (c ∷ cs) = if p == c then consume ps cs else err expected

-- The digits at the position, and what follows them.
unfoldable pub span_digits : List ℕ → List ℕ × List ℕ
span_digits [] = ([], [])
span_digits (c ∷ cs) =
    let (ds, rest) = span_digits cs in if is_digit c then (c ∷ ds, rest) else ([], c ∷ cs)

-- `Number` of digits is a safe integer where their number is one.
unfoldable pub read_int : List ℕ → Result Error (ℕ × List ℕ)
unfolding span_digits
read_int cs =
    let (ds, rest) = span_digits cs in
    fail_if (length ds == 0) expected_integer
    >> (fail_if (ltb max_safe_integer (big_int_from 0 ds)) integer_out_of_range
        >> ok (big_int_from 0 ds, rest))

-- The text up to the next quote, and what follows the quote.
unfoldable pub until_quote : List ℕ → Result Error (List ℕ × List ℕ)
until_quote [] = err unterminated_string
until_quote (c ∷ cs) =
    let rest = until_quote cs in
    if c == b'"' then ok ([], cs) else (rest >>= λ r. ok (c ∷ r.0, r.1))

unfoldable pub read_quoted_string : List ℕ → Result Error (List ℕ × List ℕ)
unfolding consume until_quote
read_quoted_string cs = consume (b'"' ∷ []) cs >>= until_quote

-- An attribute id that was read is a safe integer and not negative.
unfoldable pub set_pair : List Pair → ℕ → List ℕ → Result Error (List Pair)
set_pair pairs id option = do
  fail_if (any (λ p. p.0 == id) pairs) duplicate_attribute_id
  fail_if (not (is_digits option)) option_id_not_numeric
  ok (pairs ++ (id, option) ∷ [])

-- The value of an entry, from its type.
unfoldable pub read_option : List ℕ → Result Error (List ℕ × List ℕ)
unfolding consume read_int read_quoted_string
read_option [] = err unsupported_value_type
read_option (c ∷ cs) =
    if c == b'i'
    then (do
      rest ← consume (b'i' ∷ b':' ∷ []) (c ∷ cs)
      (id, rest) ← read_int rest
      rest ← consume (b';' ∷ []) rest
      ok (to_string id, rest))
    else if c == b's'
    then (do
      rest ← consume (b's' ∷ b':' ∷ []) (c ∷ cs)
      (len, rest) ← read_int rest
      rest ← consume (b':' ∷ []) rest
      (option, rest) ← read_quoted_string rest
      rest ← consume (b';' ∷ []) rest
      fail_if (not (length option == len)) string_length_mismatch
      ok (option, rest))
    else err unsupported_value_type

-- The loop over the `count` entries.
unfoldable pub read_pairs : ℕ → List Pair → List ℕ → Result Error (List Pair × List ℕ)
unfolding consume read_int read_option set_pair
read_pairs zero pairs cs = ok (pairs, cs)
read_pairs (suc count) pairs cs = do
  rest ← consume (b'i' ∷ b':' ∷ []) cs
  (id, rest) ← read_int rest
  rest ← consume (b';' ∷ []) rest
  (option, rest) ← read_option rest
  pairs' ← set_pair pairs id option
  read_pairs count pairs' rest

abbrev pub is_end : List ℕ → Bool
is_end [] = true
is_end (c ∷ cs) = false

unfoldable pub parse_php_combination : List ℕ → Result Error (List Pair)
unfolding consume read_int read_pairs
parse_php_combination serialized = do
  fail_if (is_end serialized) empty_combination
  rest ← consume (b'a' ∷ b':' ∷ []) serialized
  (count, rest) ← read_int rest
  rest ← consume (b':' ∷ []) rest
  rest ← consume (b'{' ∷ []) rest
  (pairs, rest) ← read_pairs count [] rest
  rest ← consume (b'}' ∷ []) rest
  fail_if (not (is_end rest)) trailing_bytes
  ok pairs

-- `encoded`.
unfoldable pub encode : List Pair → List ℕ
unfolding to_string
encode [] = []
encode (p ∷ []) = to_string p.0 ++ b'=' ∷ p.1
encode (p ∷ q ∷ ps) = to_string p.0 ++ b'=' ∷ p.1 ++ b',' ∷ encode (q ∷ ps)

unfoldable pub combination_to_canonical_id : ℕ → List Pair → List ℕ
unfolding encode
combination_to_canonical_id product [] = to_string product ++ b'|' ∷ b'b' ∷ b'a' ∷ b's' ∷ b'e' ∷ []
combination_to_canonical_id product (p ∷ ps) =
    to_string product
    ++ b'|' ∷ b'o' ∷ b'p' ∷ b't' ∷ b's' ∷ b':' ∷ encode (order_by (λ x. x.0) (p ∷ ps))
