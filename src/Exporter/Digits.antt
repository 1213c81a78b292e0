-- ===== src/Exporter/Digits.antt =====
-- apps/drupal-exporter/src/decimal-money.mjs: the digits of a number, and the number of some digits.
use mathlib.Core.List.{reverse-cons, reverse-reverse}
use babypark_integration.Base.{
  ℕ, zero, suc, ◌+◌, ◌-◌, ◌*◌, ◌/◌, ◌%◌, ◌≤◌, ◌<◌, ◌≡◌, refl, ap, ◌∙◌, inl, inr, Bool, true, false,
  not, List, [], ◌∷◌, ◌++◌, reverse, ltb, ◌==◌, every, length, length-append, is_digit, is_space,
  arith, &&-eq-true, Bool-cases, lt→ltb, ltb→lt, some,
}
use babypark_integration.Exporter.Money.{
  big_int_from, zeros, digits_from, to_string, is_digits, split_dot, trim_start, trim,
}

pub big_int_from-append :
    (n : ℕ) (xs ys : List ℕ) → big_int_from n (xs ++ ys) ≡ big_int_from (big_int_from n xs) ys
big_int_from-append n [] ys = refl
big_int_from-append n (c ∷ xs) ys = big_int_from-append (n * 10 + (c - b'0')) xs ys

pub big_int_from-zeros : (k : ℕ) (xs : List ℕ) → big_int_from 0 (zeros k ++ xs) ≡ big_int_from 0 xs
big_int_from-zeros zero xs = refl
big_int_from-zeros (suc k) xs = big_int_from-zeros k xs

-- `n` before `k` more digits.
abbrev pub shift : ℕ → ℕ → ℕ
shift zero n = n
shift (suc k) n = shift k (n * 10)

shift-add : (k a b : ℕ) → shift k (a + b) ≡ shift k a + shift k b
shift-add zero a b = refl
shift-add (suc k) a b = ap (shift k) (omega arith) ∙ shift-add k (a * 10) (b * 10)

split-shift : (k a d d' b e : ℕ) → d' ≡ d → b ≡ shift k d' + e → shift k (a + d) + e ≡ shift k a + b
split-shift k a d d' b e p h = omega (arith, shift-add k a d, ap (shift k) p, h)

pub big_int_from-shift :
    (n : ℕ) (xs : List ℕ) → big_int_from n xs ≡ shift (length xs) n + big_int_from 0 xs
big_int_from-shift n [] = omega arith
big_int_from-shift n (c ∷ xs) =
    big_int_from-shift (n * 10 + (c - b'0')) xs
    ∙ split-shift (length xs) (n * 10) (c - b'0') (0 + (c - b'0')) _ _ (omega arith)
        (big_int_from-shift (0 + (c - b'0')) xs)

pub big_int_from-digits_from : (fuel n : ℕ) → n < fuel → big_int_from 0 (digits_from fuel n) ≡ n
unfolding digits_from
big_int_from-digits_from zero n h = absurd (omega (arith, h))
big_int_from-digits_from (suc fuel) n h = elim (Bool-cases (ltb n 10)) [
  | inl b ↦ rw b (omega arith)
  | inr b ↦
      let front = digits_from fuel (n / 10) in
      let least : (ltb n 10 ≡ false → 10 ≤ n) = λ k. ground (arith, k) in
      let rest = big_int_from-digits_from fuel (n / 10) (omega (arith, h, least b)) in
      rw b (big_int_from-append 0 front _ ∙ omega (arith, rest))
]

-- The bound of the numbers with at most `k + 1` digits.
abbrev bound : ℕ → ℕ
bound zero = 10
bound (suc k) = bound k * 10

pub length-digits_from : (k fuel n : ℕ) → n < bound k → length (digits_from fuel n) ≤ suc k
unfolding digits_from
length-digits_from k zero n h = omega arith
length-digits_from zero (suc fuel) n h = rw (lt→ltb n 10 h) (omega arith)
length-digits_from (suc k) (suc fuel) n h = elim (Bool-cases (ltb n 10)) [
  | inl b ↦ rw b (omega arith)
  | inr b ↦ rw b (
      omega (
        arith,
        length-append (digits_from fuel (n / 10)) ((b'0' + n % 10) ∷ []),
        length-digits_from k fuel (n / 10) (omega (arith, h)),
      ))
]

pub every-append :
    (p : ℕ → Bool) (xs ys : List ℕ)
    → every p xs ≡ true
    → every p ys ≡ true
    → every p (xs ++ ys) ≡ true
every-append p [] ys h k = k
every-append p (x ∷ xs) ys h k =
    let (a, b) = &&-eq-true (p x) (every p xs) h in rw (a, every-append p xs ys b k) refl

pub every-reverse : (p : ℕ → Bool) (xs : List ℕ) → every p xs ≡ true → every p (reverse xs) ≡ true
every-reverse p [] h = refl
every-reverse p (x ∷ xs) h =
    let (a, b) = &&-eq-true (p x) (every p xs) h in
    rw (reverse-cons x xs) (every-append p (reverse xs) (x ∷ []) (every-reverse p xs b) (rw a refl))

digit-is_digit : (n : ℕ) → n < 10 → is_digit (b'0' + n) ≡ true
digit-is_digit n h = ground (arith, h)

pub every-digits_from : (fuel n : ℕ) → every is_digit (digits_from fuel n) ≡ true
unfolding digits_from
every-digits_from zero n = refl
every-digits_from (suc fuel) n = elim (Bool-cases (ltb n 10)) [
  | inl b ↦ rw (b, digit-is_digit n (ltb→lt n 10 b)) refl
  | inr b ↦ rw b (
      every-append is_digit (digits_from fuel (n / 10)) _ (every-digits_from fuel (n / 10))
        (rw (digit-is_digit (n % 10) (omega arith)) refl))
]

pub every-zeros : (k : ℕ) → every is_digit (zeros k) ≡ true
every-zeros zero = refl
every-zeros (suc k) = every-zeros k

pub length-zeros : (k : ℕ) → length (zeros k) ≡ k
length-zeros zero = refl
length-zeros (suc k) = ap suc (length-zeros k)

pub is_digits-every : (xs : List ℕ) → every is_digit xs ≡ true → 1 ≤ length xs → is_digits xs ≡ true
is_digits-every [] h k = absurd (omega (arith, k))
is_digits-every (x ∷ xs) h k = h

pub length-to_string : (n : ℕ) → 1 ≤ length (to_string n)
unfolding to_string digits_from
length-to_string n = elim (Bool-cases (ltb n 10)) [
  | inl b ↦ rw b (omega arith)
  | inr b ↦ rw b (omega (arith, length-append (digits_from n (n / 10)) ((b'0' + n % 10) ∷ [])))
]

digit-not-dot : (c : ℕ) → is_digit c ≡ true → (c == b'.') ≡ false
digit-not-dot c h = ground (arith, h)

pub split_dot-append :
    (xs ys : List ℕ) → every is_digit xs ≡ true → split_dot (xs ++ b'.' ∷ ys) ≡ (xs, some ys)
unfolding split_dot
split_dot-append [] ys h = refl
split_dot-append (x ∷ xs) ys h =
    let (a, b) = &&-eq-true (is_digit x) (every is_digit xs) h in
    rw (split_dot-append xs ys b, digit-not-dot x a) refl

-- A text without white space is its own trimming.
abbrev pub is_solid : ℕ → Bool
is_solid c = not (is_space c)

not-true : (b : Bool) → not b ≡ true → b ≡ false
not-true b h = ground arith

trim_start-solid : (xs : List ℕ) → every is_solid xs ≡ true → trim_start xs ≡ xs
unfolding trim_start
trim_start-solid [] h = refl
trim_start-solid (x ∷ xs) h =
    let (a, b) = &&-eq-true (is_solid x) (every is_solid xs) h in
    let c : is_space x ≡ false = not-true (is_space x) a in rw c refl

pub trim-solid : (xs : List ℕ) → every is_solid xs ≡ true → trim xs ≡ xs
trim-solid xs h =
    rw (trim_start-solid xs h, trim_start-solid (reverse xs) (every-reverse is_solid xs h))
      (reverse-reverse xs)

digit-solid : (c : ℕ) → is_digit c ≡ true → is_solid c ≡ true
digit-solid c h = ground (arith, h)

pub every-solid : (xs : List ℕ) → every is_digit xs ≡ true → every is_solid xs ≡ true
every-solid [] h = refl
every-solid (x ∷ xs) h =
    let (a, b) = &&-eq-true (is_digit x) (every is_digit xs) h in
    rw (digit-solid x a, every-solid xs b) refl
