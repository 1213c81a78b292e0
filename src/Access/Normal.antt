-- ===== src/Access/Normal.antt =====
-- src/copilot/knowledge-control/rbac.mjs, `normalizeGrant` and `normalizeActorGrants`: the normal form of a grant
-- says what the grant says.
use babypark_integration.Base.{
  ◌≡◌, refl, ap, sym, subst, ◌∙◌, Bool, true, false, ◌||◌, Option, none, some, List, [], ◌∷◌,
  String, str_eq, eq_iff, any, arith, if◌then◌else◌, Result, ok, err, >>=-eq-ok, ok-injective,
  Bool-cases, Option-cases, inl, inr,
}
use babypark_integration.Access.Rbac.{
  Role, Action, Error, RawGrant, Grant, named, role_name, action_name, role_of, action_of,
  actions_of, is_same_action, distinct, granted_actions, or_invalid, required, invalid_argument,
  normalize_grant, normalize_all,
}
use babypark_integration.Access.Allowed.{is_text, names}

pub or_invalid-eq-ok {ℓ} : {A : Type ℓ} (o : Option A) {a : A} → or_invalid o ≡ ok a → o ≡ some a
or_invalid-eq-ok none h = absurd (ground (arith, h))
or_invalid-eq-ok (some x) h = ap some (ok-injective h)

if-required :
    (b : Bool) (s : String) {t : String}
    → ◌≡◌ {A = Result Error String} (if b then err invalid_argument else ok s) (ok t)
    → s ≡ t
if-required true s h = absurd (ground (arith, h))
if-required false s h = ok-injective h

pub required-eq-ok : (o : Option String) {s : String} → required o ≡ ok s → o ≡ some s
unfolding required
required-eq-ok none h = absurd (ground (arith, h))
required-eq-ok (some t) h = ap some (if-required (str_eq t "") t h)

-- A member that was found by its name has that name.
named-eq-some {ℓ} :
    {A : Type ℓ} (f : A → String) (s : String) (xs : List A) {x : A}
    → named f s xs ≡ some x
    → s ≡ f x
unfolding named
named-eq-some f s [] h = absurd (ground (arith, h))
named-eq-some f s (y ∷ ys) {x} h = elim (Bool-cases (str_eq (f y) s)) [
  | inl b ↦ let same : y ≡ x = ground (arith, h, b) in sym ((eq_iff (f y) s).0 b) ∙ ap f same
  | inr b ↦ named-eq-some f s ys (ground (arith, h, b))
]

pub role_of-eq-some : (o : Option String) {r : Role} → role_of o ≡ some r → o ≡ some (role_name r)
role_of-eq-some none h = absurd (ground (arith, h))
role_of-eq-some (some s) h = ap some (named-eq-some role_name s _ h)

pub action_of-eq-some :
    (o : Option String) {a : Action} → action_of o ≡ some a → o ≡ some (action_name a)
action_of-eq-some none h = absurd (ground (arith, h))
action_of-eq-some (some s) h = ap some (named-eq-some action_name s _ h)

-- The actions of the normal form are those that the grant names.
actions_of-any :
    (a : Action) (ss : List (Option String)) (xs : List Action)
    → actions_of ss ≡ some xs
    → any (λ b. is_same_action b a) xs ≡ any (is_text (action_name a)) ss
unfolding actions_of
actions_of-any a [] xs h = let same : [] ≡ xs = ground (arith, h) in rw (← same) refl
actions_of-any a (s ∷ ss) xs h = elim (Option-cases (action_of s)) [
  | inl e ↦ absurd (ground (arith, h, e))
  | inr (x, e) ↦ elim (Option-cases (actions_of ss)) [
    | inl f ↦ absurd (ground (arith, h, e, f))
    | inr (ys, f) ↦
        let same : x ∷ ys ≡ xs = ground (arith, h, e, f) in
        rw (← same, role_text s x e, actions_of-any a ss ys f) refl
  ]
]
  where
    role_text : (s : Option String) (x : Action) → action_of s ≡ some x → s ≡ some (action_name x)
    role_text s x e = action_of-eq-some s e

seen_same :
    (a x : Action) (seen : List Action)
    → any (is_same_action x) seen ≡ true
    → is_same_action x a ≡ true
    → any (λ b. is_same_action b a) seen ≡ true
seen_same a x [] h k = absurd (ground (arith, h))
seen_same a x (y ∷ ys) h k = elim (Bool-cases (is_same_action x y)) [
  | inl b ↦
      let named : action_name x ≡ action_name y = (eq_iff (action_name x) (action_name y)).0 b in
      let there : is_same_action y a ≡ true = rw (← named) k in ground (arith, there)
  | inr b ↦ ground (arith, seen_same a x ys (ground (arith, h, b)) k)
]

distinct-any :
    (a : Action) (seen xs : List Action)
    → (any (λ b. is_same_action b a) seen || any (λ b. is_same_action b a) (distinct seen xs))
      ≡ (any (λ b. is_same_action b a) seen || any (λ b. is_same_action b a) xs)
unfolding distinct
distinct-any a seen [] = refl
distinct-any a seen (x ∷ xs) = elim (Bool-cases (any (is_same_action x) seen)) [
  | inl b ↦ elim (Bool-cases (is_same_action x a)) [
    | inl k ↦ ground (arith, b, k, seen_same a x seen b k)
    | inr k ↦ ground (arith, b, k, distinct-any a seen xs)
  ]
  | inr b ↦ ground (arith, b, distinct-any a (x ∷ seen) xs)
]

granted_actions-eq-ok :
    (a : Action) (o : Option (List (Option String))) {xs : List Action}
    → granted_actions o ≡ ok xs
    → any (λ b. is_same_action b a) (distinct [] xs) ≡ any (is_text (action_name a)) (names o)
granted_actions-eq-ok a none h = absurd (ground (arith, h))
granted_actions-eq-ok a (some []) h = absurd (ground (arith, h))
granted_actions-eq-ok a (some (s ∷ ss)) {xs} h =
    distinct-any a [] xs ∙ actions_of-any a (s ∷ ss) xs (or_invalid-eq-ok (actions_of (s ∷ ss)) h)

-- The normal form of a grant: the texts of the role and of the scopes are its own, and it has exactly the
-- actions that the grant names.
abbrev pub IsNormal : Option RawGrant → Grant → Type 0
IsNormal none g = ⊥
IsNormal (some raw) g =
    (raw.role ≡ some (role_name g.role))
    × (raw.namespace ≡ some g.namespace)
    × (raw.subject_type ≡ some g.subject_type)
    × (raw.subject_id ≡ some g.subject_id)
    × ((a : Action)
        → any (λ b. is_same_action b a) g.actions
          ≡ any (is_text (action_name a)) (names raw.actions))

normalize_grant-IsNormal :
    (o : Option RawGrant) (g : Grant) → normalize_grant o ≡ ok g → IsNormal o g
unfolding normalize_grant
normalize_grant-IsNormal none g h = absurd (ground (arith, h))
normalize_grant-IsNormal (some raw) g h =
    let (r, with_role, h1) = >>=-eq-ok _ _ h in
    let (xs, acts, h2) = >>=-eq-ok _ _ h1 in
    let (ns, in_space, h3) = >>=-eq-ok _ _ h2 in
    let (st, of_type, h4) = >>=-eq-ok _ _ h3 in
    let (si, of_id, h5) = >>=-eq-ok _ _ h4 in
    subst (IsNormal (some raw)) (ok-injective h5) (
      role_of-eq-some raw.role (or_invalid-eq-ok _ with_role),
      required-eq-ok raw.namespace in_space,
      required-eq-ok raw.subject_type of_type,
      required-eq-ok raw.subject_id of_id,
      λ a. granted_actions-eq-ok a raw.actions acts,
    )

-- The normal forms of grants, one for each, in order.
abbrev pub AreNormal : List (Option RawGrant) → List Grant → Type 0
AreNormal [] [] = Unit {0}
AreNormal [] (g ∷ gs) = ⊥
AreNormal (o ∷ os) [] = ⊥
AreNormal (o ∷ os) (g ∷ gs) = IsNormal o g × AreNormal os gs

pub normalize_all-AreNormal :
    (os : List (Option RawGrant)) (gs : List Grant) → normalize_all os ≡ ok gs → AreNormal os gs
unfolding normalize_all
normalize_all-AreNormal [] gs h = subst (AreNormal []) (ok-injective h) tt
normalize_all-AreNormal (o ∷ os) gs h =
    let (g, first, h1) = >>=-eq-ok _ _ h in
    let (rest, others, h2) = >>=-eq-ok _ _ h1 in
    subst (AreNormal (o ∷ os)) (ok-injective h2)
      (normalize_grant-IsNormal o g first, normalize_all-AreNormal os rest others)
