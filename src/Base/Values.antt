-- ===== src/Base/Values.antt =====
-- The values that the program takes from callers before it has validated them, the texts in them,
-- and the outcome of a function that may throw.
use Prim.Native.Nat.{ℕ}
use Prim.Native.Char.{code}
use Prim.Native.String.{String}
use mathlib.Core.Path.{◌≡◌, refl}
use mathlib.Core.Logic.{◌⊎◌, inl, inr}
use mathlib.Core.Bool.{Bool, true, false, ◌&&◌, ◌||◌}
use mathlib.Core.List.{List, [], ◌∷◌}
use babypark_integration.Base.Tests.{leb, ◌==◌}

-- An integral number; `negsuc n` is -(n + 1).
pub data ℤ : Type 0 where
  pos : ℕ → ℤ
  negsuc : ℕ → ℤ

-- A JavaScript value. `other` stands for what is none of the rest: a function, a symbol, a number
-- that is not integral. Objects list their own enumerable properties.
mutual
  pub data Value : Type 0 where
    undefined null other : Value
    bool : Bool → Value
    num : ℤ → Value
    str : String → Value
    arr : Items → Value
    obj : Fields → Value

  pub data Items : Type 0 where
    nil : Items
    item : Value → Items → Items

  pub data Fields : Type 0 where
    end : Fields
    field : String → Value → Fields → Fields

abbrev pub max_safe_integer : ℕ
max_safe_integer = 9007199254740991

-- The code points of a text.
abbrev pub codes : String → List ℕ
codes String.[] = []
codes (String.◌∷◌ c s) = code c ∷ codes s

-- `/[0-9]/`, `/[a-z]/` and `/[A-Z]/` on a code point.
abbrev pub is_digit : ℕ → Bool
is_digit c = leb b'0' c && leb c b'9'

abbrev pub is_lower : ℕ → Bool
is_lower c = leb b'a' c && leb c b'z'

abbrev pub is_upper : ℕ → Bool
is_upper c = leb b'A' c && leb c b'Z'

-- The white space that `trim` removes.
abbrev pub is_space : ℕ → Bool
is_space c =
    (leb 9 c && leb c 13)
    || c == 32
    || c == 160
    || c == 5760
    || (leb 8192 c && leb c 8202)
    || c == 8232
    || c == 8233
    || c == 8239
    || c == 8287
    || c == 12288
    || c == 65279

-- A value, or the code of the error that was thrown.
pub data Result {ℓ κ} (E : Type ℓ) (A : Type κ) : Type (ℓ ⊔ κ) where
  ok : A → Result E A
  err : E → Result E A

module _ {ℓ} {E : Type ℓ} where
  infixl 5 ◌>>=◌ ◌>>◌
  unfoldable pub ◌>>=◌ {κ ι} :
      {A : Type κ} {B : Type ι} → Result E A → (A → Result E B) → Result E B
  ok a >>= f = f a
  err e >>= f = err e

  unfoldable pub ◌>>◌ {κ} : {B : Type κ} → Result E (Unit {0}) → Result E B → Result E B
  m >> k = m >>= λ _. k

  -- `if (b) fail(e)`.
  unfoldable pub fail_if : Bool → E → Result E (Unit {0})
  fail_if true e = err e
  fail_if false e = ok tt

  pub >>=-eq-ok {κ ι} :
      {A : Type κ} {B : Type ι} (m : Result E A) (f : A → Result E B) {b : B}
      → (m >>= f) ≡ ok b
      → (a : A) × (m ≡ ok a) × (f a ≡ ok b)
  unfolding ◌>>=◌
  >>=-eq-ok (ok a) f h = (a, refl, h)
  >>=-eq-ok (err e) f h = cc

  pub Result-cases {κ} :
      {A : Type κ} (r : Result E A) → ((e : E) × (r ≡ err e)) ⊎ ((a : A) × (r ≡ ok a))
  Result-cases (err e) = inl (e, refl)
  Result-cases (ok a) = inr (a, refl)

  pub guard-eq-ok {κ} :
      {A : Type κ} (b : Bool) (e : E) (k : Result E A) {a : A}
      → (fail_if b e >> k) ≡ ok a
      → (b ≡ false) × (k ≡ ok a)
  unfolding ◌>>=◌ ◌>>◌ fail_if
  guard-eq-ok true e k h = cc
  guard-eq-ok false e k h = (refl, h)

  pub ok-injective {κ} : {A : Type κ} {a b : A} → ◌≡◌ {A = Result E A} (ok a) (ok b) → a ≡ b
  ok-injective h = cc

  pub >>-eq-ok {κ} :
      {A : Type κ} (m : Result E (Unit {0})) (k : Result E A) {a : A} → (m >> k) ≡ ok a → k ≡ ok a
  unfolding ◌>>=◌ ◌>>◌
  >>-eq-ok (ok x) k h = h
  >>-eq-ok (err e) k h = cc
