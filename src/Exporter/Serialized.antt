-- ===== src/Exporter/Serialized.antt =====
-- apps/drupal-exporter/src/php-combination.mjs: the parser against PHP's serialization.
use mathlib.Core.List.{append-nil, append_assoc}
use babypark_integration.Base.{
  ℕ, suc, ◌≤◌, ◌≡◌, refl, true, false, List, [], ◌∷◌, ◌++◌, every, any, length, ◌==◌, ==_refl,
  is_digit, max_safe_integer, ok, ◌>>=◌, ◌>>◌, fail_if, arith, le→ltb, &&-eq-true,
}
use babypark_integration.Exporter.Money.{is_digits, big_int_from, to_string}
use babypark_integration.Exporter.Digits.{
  every-digits_from, big_int_from-digits_from, length-to_string,
}
use babypark_integration.Exporter.Combination.{
  Pair, consume, span_digits, read_int, until_quote, read_quoted_string, set_pair, read_option,
  read_pairs, parse_php_combination,
}

-- An entry as PHP writes it, `i:<id>;s:<length>:"<option>";`, before the rest of the text.
abbrev pub write_pair : Pair → List ℕ → List ℕ
write_pair p rest =
    b'i'
    ∷ b':'
    ∷ (to_string p.0
        ++ b';'
          ∷ b's'
          ∷ b':'
          ∷ (to_string (length p.1) ++ b':' ∷ b'"' ∷ (p.1 ++ b'"' ∷ b';' ∷ rest)))

abbrev pub write_pairs : List Pair → List ℕ → List ℕ
write_pairs [] rest = rest
write_pairs (p ∷ ps) rest = write_pair p (write_pairs ps rest)

-- `a:<count>:{…}`.
abbrev pub php_serialize : List Pair → List ℕ
php_serialize ps = b'a' ∷ b':' ∷ (to_string (length ps) ++ b':' ∷ b'{' ∷ write_pairs ps (b'}' ∷ []))

-- Safe integers, and a numeric option.
abbrev pub IsPair : Pair → Type 0
IsPair p = (p.0 ≤ max_safe_integer) × (length p.1 ≤ max_safe_integer) × (is_digits p.1 ≡ true)

-- The entries after some others: valid, and each with an id that none before it has.
abbrev pub Follow : List Pair → List Pair → Type 0
Follow before [] = Unit
Follow before (p ∷ ps) =
    (any (λ q. q.0 == p.0) before ≡ false) × IsPair p × Follow (before ++ p ∷ []) ps

span_digits-append :
    (xs : List ℕ) (c : ℕ) (cs : List ℕ)
    → every is_digit xs ≡ true
    → is_digit c ≡ false
    → span_digits (xs ++ c ∷ cs) ≡ (xs, c ∷ cs)
unfolding span_digits
span_digits-append [] c cs h k = rw k refl
span_digits-append (x ∷ xs) c cs h k =
    let (a, b) = &&-eq-true (is_digit x) (every is_digit xs) h in
    rw (span_digits-append xs c cs b k, a) refl

length-not-zero : (n : ℕ) → (length (to_string n) == 0) ≡ false
length-not-zero n = let h = length-to_string n in ground (arith, h)

value-to_string : (n : ℕ) → big_int_from 0 (to_string n) ≡ n
unfolding to_string
value-to_string n = big_int_from-digits_from (suc n) n (omega arith)

every-to_string : (n : ℕ) → every is_digit (to_string n) ≡ true
unfolding to_string
every-to_string n = every-digits_from (suc n) n

read_int-to_string :
    (n c : ℕ) (cs : List ℕ)
    → n ≤ max_safe_integer
    → is_digit c ≡ false
    → read_int (to_string n ++ c ∷ cs) ≡ ok (n, c ∷ cs)
unfolding read_int ◌>>=◌ ◌>>◌ fail_if
read_int-to_string n c cs h k =
    rw
      (
        span_digits-append (to_string n) c cs (every-to_string n) k,
        length-not-zero n,
        value-to_string n,
        le→ltb n max_safe_integer h,
      )
      refl

digit-not-quote : (c : ℕ) → is_digit c ≡ true → (c == b'"') ≡ false
digit-not-quote c h = ground (arith, h)

until_quote-append :
    (xs cs : List ℕ) → every is_digit xs ≡ true → until_quote (xs ++ b'"' ∷ cs) ≡ ok (xs, cs)
unfolding until_quote ◌>>=◌
until_quote-append [] cs h = refl
until_quote-append (x ∷ xs) cs h =
    let (a, b) = &&-eq-true (is_digit x) (every is_digit xs) h in
    rw (until_quote-append xs cs b, digit-not-quote x a) refl

every-is_digits : (xs : List ℕ) → is_digits xs ≡ true → every is_digit xs ≡ true
every-is_digits [] h = refl
every-is_digits (x ∷ xs) h = h

read_option-write :
    (xs rest : List ℕ)
    → length xs ≤ max_safe_integer
    → is_digits xs ≡ true
    → read_option
        (b's' ∷ b':' ∷ (to_string (length xs) ++ b':' ∷ b'"' ∷ (xs ++ b'"' ∷ b';' ∷ rest)))
      ≡ ok (xs, rest)
unfolding read_option consume read_quoted_string ◌>>=◌ ◌>>◌ fail_if
read_option-write xs rest h d =
    rw
      (
        read_int-to_string (length xs) b':' (b'"' ∷ (xs ++ b'"' ∷ b';' ∷ rest)) h refl,
        until_quote-append xs (b';' ∷ rest) (every-is_digits xs d),
        ==_refl (length xs),
      )
      refl

set_pair-fresh :
    (before : List Pair) (p : Pair)
    → any (λ q. q.0 == p.0) before ≡ false
    → is_digits p.1 ≡ true
    → set_pair before p.0 p.1 ≡ ok (before ++ p ∷ [])
unfolding set_pair ◌>>=◌ ◌>>◌ fail_if
set_pair-fresh before p h d = rw (h, d) refl

read_pairs-write_pairs :
    (before ps : List Pair) (rest : List ℕ)
    → Follow before ps
    → read_pairs (length ps) before (write_pairs ps rest) ≡ ok (before ++ ps, rest)
unfolding read_pairs consume ◌>>=◌
read_pairs-write_pairs before [] rest h = rw (append-nil before) refl
read_pairs-write_pairs before (p ∷ ps) rest (fresh, (safe, short, numeric), follow) =
    rw
      (
        read_int-to_string p.0 b';' _ safe refl,
        read_option-write p.1 (write_pairs ps rest) short numeric,
        set_pair-fresh before p fresh numeric,
        read_pairs-write_pairs (before ++ p ∷ []) ps rest follow,
        append_assoc before (p ∷ []) ps,
      )
      refl

-- What PHP writes for entries with different ids and numeric options, all within the safe integers, is
-- parsed as those entries in their order.
pub parse_php_combination-php_serialize :
    (ps : List Pair)
    → length ps ≤ max_safe_integer
    → Follow [] ps
    → parse_php_combination (php_serialize ps) ≡ ok ps
unfolding parse_php_combination consume ◌>>=◌ ◌>>◌ fail_if
parse_php_combination-php_serialize ps h f =
    rw
      (
        read_int-to_string (length ps) b':' (b'{' ∷ write_pairs ps (b'}' ∷ [])) h refl,
        read_pairs-write_pairs [] ps (b'}' ∷ []) f,
      )
      refl
