-- ===== src/Exporter/Rounding.antt =====
-- apps/drupal-exporter/src/decimal-money.mjs, lines 40 to 83: rounding and minor units.
use babypark_integration.Base.{
  ℕ, zero, suc, ◌+◌, ◌-◌, ◌*◌, ◌/◌, ◌%◌, ◌^◌, subst, ◌≤◌, ◌<◌, ◌≡◌, refl, true, false, ltb, ◌==◌,
  pos, ok, ◌>>=◌, ◌>>◌, fail_if, arith,
}
use babypark_integration.Exporter.Money.{
  factor, round_php_number_format, to_minor_units, to_minor_units_with_display_precision,
}

-- Each precision that is supported.
by_precision : (P : ℕ → Type 0) → P 0 → P 1 → P 2 → P 3 → P 4 → P 5 → (p : ℕ) → p ≤ 5 → P p
by_precision P a b c d e f zero h = a
by_precision P a b c d e f (suc zero) h = b
by_precision P a b c d e f (suc (suc zero)) h = c
by_precision P a b c d e f (suc (suc (suc zero))) h = d
by_precision P a b c d e f (suc (suc (suc (suc zero)))) h = e
by_precision P a b c d e f (suc (suc (suc (suc (suc zero))))) h = f
by_precision P a b c d e f (suc (suc (suc (suc (suc (suc n)))))) h = absurd (omega (arith, h))

-- `r` is the multiple of the unit `f` that is nearest to `n`, the upper one of two.
abbrev pub IsNearest : ℕ → ℕ → ℕ → Type 0
IsNearest f n r = (r % f ≡ 0) × (r ≤ n + f / 2) × (n < r + (f - f / 2))

-- The factor of a precision is the only number with that many decimal places in one.
unit_eq : (p u : ℕ) → p ≤ 5 → u * 10 ^ p ≡ 100000 → factor p ≡ u
unit_eq p u h =
    by_precision (λ p. u * 10 ^ p ≡ 100000 → factor p ≡ u) (λ e. omega (arith, e))
      (λ e. omega (arith, e)) (λ e. omega (arith, e)) (λ e. omega (arith, e))
      (λ e. omega (arith, e)) (λ e. omega (arith, e)) p h

factor-IsNearest :
    (n p : ℕ)
    → p ≤ 5
    → (r : ℕ) × (round_php_number_format (pos n) (pos p) ≡ ok r) × IsNearest (factor p) n r
unfolding round_php_number_format ◌>>=◌ ◌>>◌ fail_if
factor-IsNearest n p h =
    by_precision
      (λ p. (r : ℕ) × (round_php_number_format (pos n) (pos p) ≡ ok r) × IsNearest (factor p) n r)
      (_, refl, (omega arith, omega arith, omega arith))
      (_, refl, (omega arith, omega arith, omega arith))
      (_, refl, (omega arith, omega arith, omega arith))
      (_, refl, (omega arith, omega arith, omega arith))
      (_, refl, (omega arith, omega arith, omega arith))
      (_, refl, (omega arith, omega arith, omega arith)) p h

-- A price counts hundred-thousandths. Rounding one that is not negative at a precision of at most five
-- returns the multiple of `u` that is nearest to it, the upper one of two, where `u` is the last decimal
-- place that the precision keeps: `u` times 10 to the power of the precision is 100000.
pub round_php_number_format-IsNearest :
    (n p u : ℕ)
    → p ≤ 5
    → u * 10 ^ p ≡ 100000
    → (r : ℕ) × (round_php_number_format (pos n) (pos p) ≡ ok r) × IsNearest u n r
round_php_number_format-IsNearest n p u h e =
    subst (λ f. (r : ℕ) × (round_php_number_format (pos n) (pos p) ≡ ok r) × IsNearest f n r)
      (unit_eq p u h e) (factor-IsNearest n p h)

-- A rounded price that is a whole number of minor units.
aligned :
    (n p r m : ℕ)
    → round_php_number_format (pos n) (pos p) ≡ ok r
    → ltb 2 p ≡ false
    → r ≡ m * 1000
    → (to_minor_units_with_display_precision (pos n) (pos p) ≡ ok m)
      × (to_minor_units (pos r) ≡ ok m)
unfolding to_minor_units_with_display_precision to_minor_units ◌>>=◌ ◌>>◌ fail_if
aligned n p r m h q a =
    let b : (r % 1000 == 0) ≡ true = ground (arith, a) in
    let c : r / 1000 ≡ m = omega (arith, a) in (rw (h, q, b, c) refl, rw (b, c) refl)

-- At a display precision of at most two, a price that is not negative always has minor units: they are
-- those of its rounding, which has no smaller part.
pub to_minor_units_with_display_precision-round_php_number_format :
    (n p : ℕ)
    → p ≤ 2
    → (r : ℕ) × (m : ℕ) × (round_php_number_format (pos n) (pos p) ≡ ok r)
      × (to_minor_units_with_display_precision (pos n) (pos p) ≡ ok m)
      × (to_minor_units (pos r) ≡ ok m)
      × (r ≡ m * 1000)
unfolding round_php_number_format to_minor_units_with_display_precision to_minor_units ◌>>=◌ ◌>>◌
    fail_if
to_minor_units_with_display_precision-round_php_number_format n zero h =
    let m = (n + 50000) / 100000 * 100 in
    let (a, b) = aligned n 0 ((n + 50000) / 100000 * 100000) m refl refl (omega arith) in
    (_, m, refl, a, b, omega arith)
to_minor_units_with_display_precision-round_php_number_format n (suc zero) h =
    let m = (n + 5000) / 10000 * 10 in
    let (a, b) = aligned n 1 ((n + 5000) / 10000 * 10000) m refl refl (omega arith) in
    (_, m, refl, a, b, omega arith)
to_minor_units_with_display_precision-round_php_number_format n (suc (suc zero)) h =
    let m = (n + 500) / 1000 in
    let (a, b) = aligned n 2 ((n + 500) / 1000 * 1000) m refl refl (omega arith) in
    (_, m, refl, a, b, omega arith)
to_minor_units_with_display_precision-round_php_number_format n (suc (suc (suc p))) h =
    absurd (omega (arith, h))
