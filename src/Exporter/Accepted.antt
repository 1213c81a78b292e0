-- ===== src/Exporter/Accepted.antt =====
-- apps/drupal-exporter/src/php-combination.mjs: what the parser accepts.
use babypark_integration.Base.{
  ℕ, zero, suc, ◌+◌, ◌≡◌, refl, subst, true, false, Bool, ◌||◌, not, List, [], ◌∷◌, ◌++◌, any,
  length, length-append, ◌==◌, Result, ok, ◌>>=◌, ◌>>◌, fail_if, >>=-eq-ok, arith, All, All-append,
}
use babypark_integration.Exporter.Money.{is_digits}
use babypark_integration.Exporter.Combination.{
  Error, Pair, set_pair, read_pairs, parse_php_combination,
}

-- No id occurs twice.
abbrev pub UniqueIds : List Pair → Type 0
UniqueIds [] = Unit
UniqueIds (p ∷ ps) = (any (λ q. q.0 == p.0) ps ≡ false) × UniqueIds ps

-- Numeric options under ids that are all different.
abbrev pub IsCombination : List Pair → Type 0
IsCombination ps = UniqueIds ps × All (λ (p : Pair). is_digits p.1 ≡ true) ps

or-false : (a b : Bool) → (a || b) ≡ false → (a ≡ false) × (b ≡ false)
or-false a b h = ground arith

not-false : (b : Bool) → not b ≡ false → b ≡ true
not-false b h = ground arith

any-snoc :
    (id : ℕ) (ps : List Pair) (p : Pair)
    → any (λ q. q.0 == id) ps ≡ false
    → (p.0 == id) ≡ false
    → any (λ q. q.0 == id) (ps ++ p ∷ []) ≡ false
any-snoc id [] p h k = rw k refl
any-snoc id (q ∷ ps) p h k =
    let (a, b) = or-false (q.0 == id) (any (λ q. q.0 == id) ps) h in
    rw (a, any-snoc id ps p b k) refl

==-sym : (a b : ℕ) → (a == b) ≡ false → (b == a) ≡ false
==-sym a b h = ground (arith, h)

UniqueIds-snoc :
    (ps : List Pair) (p : Pair)
    → any (λ q. q.0 == p.0) ps ≡ false
    → UniqueIds ps
    → UniqueIds (ps ++ p ∷ [])
UniqueIds-snoc [] p h u = (refl, tt)
UniqueIds-snoc (q ∷ ps) p h (v, u) =
    let (a, b) = or-false (q.0 == p.0) (any (λ q. q.0 == p.0) ps) h in
    (any-snoc q.0 ps p v (==-sym q.0 p.0 a), UniqueIds-snoc ps p b u)

guard-ok {ℓ} :
    {A : Type ℓ} (b : Bool) (e : Error) (k : Result Error A) {a : A}
    → (fail_if b e >> k) ≡ ok a
    → (b ≡ false) × (k ≡ ok a)
unfolding ◌>>=◌ ◌>>◌ fail_if
guard-ok true e k h = absurd (ground arith)
guard-ok false e k h = (refl, h)

result-eq : {a b : List Pair} → ◌≡◌ {A = Result Error (List Pair)} (ok a) (ok b) → a ≡ b
result-eq h = ground arith

-- An entry that is set keeps the list a combination, and adds one to it.
set_pair-IsCombination :
    (ps qs : List Pair) (id : ℕ) (option : List ℕ)
    → set_pair ps id option ≡ ok qs
    → IsCombination ps
    → IsCombination qs × (length qs ≡ length ps + 1)
unfolding set_pair
set_pair-IsCombination ps qs id option h (u, d) =
    let (fresh, h₁) = guard-ok _ _ _ h in
    let (numeric, h₂) = guard-ok _ _ _ h₁ in
    let digits : is_digits option ≡ true = not-false (is_digits option) numeric in
    subst (λ xs. IsCombination xs × (length xs ≡ length ps + 1)) (result-eq h₂)
      (
        (
          UniqueIds-snoc ps (id, option) fresh u,
          All-append _ ps ((id, option) ∷ []) d (digits, tt),
        ),
        length-append ps ((id, option) ∷ []),
      )

pair-eq :
    {a b : List Pair} {r s : List ℕ}
    → ◌≡◌ {A = Result Error (List Pair × List ℕ)} (ok (a, r)) (ok (b, s))
    → a ≡ b
pair-eq h = ground arith

read_pairs-IsCombination :
    (n : ℕ) (before ps : List Pair) (cs rest : List ℕ)
    → read_pairs n before cs ≡ ok (ps, rest)
    → IsCombination before
    → IsCombination ps × (length ps ≡ length before + n)
unfolding read_pairs
read_pairs-IsCombination zero before ps cs rest h c =
    subst (λ xs. IsCombination xs × (length xs ≡ length before + 0)) (pair-eq h) (c, omega arith)
read_pairs-IsCombination (suc n) before ps cs rest h c =
    let (_, _, h₁) = >>=-eq-ok _ _ h in
    let (i, _, h₂) = >>=-eq-ok _ _ h₁ in
    let (_, _, h₃) = >>=-eq-ok _ _ h₂ in
    let (o, _, h₄) = >>=-eq-ok _ _ h₃ in
    let (qs, k, h₅) = >>=-eq-ok _ _ h₄ in
    let (d, m) = set_pair-IsCombination before qs i.0 o.0 k c in
    let (e, l) = read_pairs-IsCombination n qs ps o.1 rest h₅ d in (e, omega (arith, l, m))

-- Whatever text is accepted, its entries have different ids and numeric options.
pub parse_php_combination-IsCombination :
    (cs : List ℕ) (ps : List Pair) → parse_php_combination cs ≡ ok ps → IsCombination ps
unfolding parse_php_combination
parse_php_combination-IsCombination cs ps h =
    let (_, h₁) = guard-ok _ _ _ h in
    let (_, _, h₂) = >>=-eq-ok _ _ h₁ in
    let (n, _, h₃) = >>=-eq-ok _ _ h₂ in
    let (_, _, h₄) = >>=-eq-ok _ _ h₃ in
    let (_, _, h₅) = >>=-eq-ok _ _ h₄ in
    let (r, k, h₆) = >>=-eq-ok _ _ h₅ in
    let (_, _, h₇) = >>=-eq-ok _ _ h₆ in
    let (_, h₈) = guard-ok _ _ _ h₇ in
    subst IsCombination (result-eq h₈) (read_pairs-IsCombination n.0 [] r.0 _ r.1 k (tt, tt)).0
