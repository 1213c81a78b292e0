-- ===== src/Exporter.antt =====
-- apps/drupal-exporter/src: the arithmetic of prices, and the combinations of options. `Money` has the
-- functions of decimal-money.mjs, `Rounding`, `Digits` and `Decimals` what holds of them; `Combination` has
-- those of php-combination.mjs, `Serialized` and `Accepted` what holds of
-- its parser.
pub mod Money
pub mod Rounding
pub mod Combination
pub mod Serialized
pub mod Accepted
pub mod Digits
pub mod Decimals
pub mod Tests
