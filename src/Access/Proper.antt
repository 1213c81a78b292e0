-- ===== src/Access/Proper.antt =====
-- src/copilot/knowledge-control/rbac.mjs, `normalizeGrant` and `normalizeActorGrants`: proper grants have a normal
-- form.
use babypark_integration.Base.{
  ◌≡◌, refl, ap, true, Option, none, some, List, [], ◌∷◌, String, str_eq, any, every, arith, ok,
  ◌>>=◌, Bool-cases, inl, inr, map, &&-eq-true,
}
use babypark_integration.Access.Rbac.{
  Role, Action, RawGrant, Grant, named, role_name, action_name, role_of, action_of, actions_of,
  distinct, granted_actions, or_invalid, required, normalize_grant, normalize_all,
}
use babypark_integration.Access.Allowed.{
  is_known, is_filled, are_known, is_proper, action_texts, role_texts,
}

named-any {ℓ} :
    {A : Type ℓ} (f : A → String) (s : String) (xs : List A)
    → any (λ t. str_eq t s) (map f xs) ≡ true
    → (x : A) × (named f s xs ≡ some x)
unfolding named
named-any f s [] h = absurd (ground (arith, h))
named-any f s (y ∷ ys) h = elim (Bool-cases (str_eq (f y) s)) [
  | inl b ↦ (y, rw b refl)
  | inr b ↦ let (x, e) = named-any f s ys (ground (arith, h, b)) in (x, rw b e)
]

pub action_of-known :
    (o : Option String) → is_known action_texts o ≡ true → (a : Action) × (action_of o ≡ some a)
action_of-known none h = absurd (ground (arith, h))
action_of-known (some s) h = named-any action_name s _ h

-- Proper grants have a normal form.
actions_of-known :
    (ss : List (Option String))
    → every (is_known action_texts) ss ≡ true
    → (xs : List Action) × (actions_of ss ≡ some xs)
unfolding actions_of
actions_of-known [] h = ([], refl)
actions_of-known (s ∷ ss) h =
    let (k, ks) = &&-eq-true (is_known action_texts s) _ h in
    let (a, e) = action_of-known s k in
    let (xs, f) = actions_of-known ss ks in (a ∷ xs, rw (actions_of, e, f) refl)

granted_actions-known :
    (o : Option (List (Option String)))
    → are_known o ≡ true
    → (xs : List Action) × (granted_actions o ≡ ok xs)
granted_actions-known none h = absurd (ground (arith, h))
granted_actions-known (some []) h = absurd (ground (arith, h))
granted_actions-known (some (s ∷ ss)) h =
    let (xs, e) = actions_of-known (s ∷ ss) h in (xs, ap or_invalid e)

pub required-filled : (s : String) → is_filled (some s) ≡ true → required (some s) ≡ ok s
unfolding required
required-filled s h = ground (arith, h)

required_of-filled : (o : Option String) → is_filled o ≡ true → (s : String) × (required o ≡ ok s)
required_of-filled none h = absurd (ground (arith, h))
required_of-filled (some s) h = (s, required-filled s h)

role_of-known :
    (o : Option String) → is_known role_texts o ≡ true → (r : Role) × (role_of o ≡ some r)
role_of-known none h = absurd (ground (arith, h))
role_of-known (some s) h = named-any role_name s _ h

normalize_grant-proper :
    (o : Option RawGrant) → is_proper o ≡ true → (g : Grant) × (normalize_grant o ≡ ok g)
unfolding normalize_grant ◌>>=◌
normalize_grant-proper none h = absurd (ground (arith, h))
normalize_grant-proper (some raw) h =
    let (h1, d) = &&-eq-true _ (is_filled raw.subject_id) h in
    let (h2, c) = &&-eq-true _ (is_filled raw.subject_type) h1 in
    let (h3, b) = &&-eq-true _ (is_filled raw.namespace) h2 in
    let (r, a) = &&-eq-true (is_known role_texts raw.role) (are_known raw.actions) h3 in
    let (role, er) = role_of-known raw.role r in
    let (xs, ea) = granted_actions-known raw.actions a in
    let (ns, en) = required_of-filled raw.namespace b in
    let (st, et) = required_of-filled raw.subject_type c in
    let (si, ei) = required_of-filled raw.subject_id d in
    (
      record {
        role = role;
        actions = distinct [] xs;
        namespace = ns;
        subject_type = st;
        subject_id = si;
      },
      rw (er, ea, en, et, ei) refl,
    )

pub normalize_all-proper :
    (os : List (Option RawGrant))
    → every is_proper os ≡ true
    → (gs : List Grant) × (normalize_all os ≡ ok gs)
unfolding normalize_all ◌>>=◌
normalize_all-proper [] h = ([], refl)
normalize_all-proper (o ∷ os) h =
    let (p, ps) = &&-eq-true (is_proper o) _ h in
    let (g, e) = normalize_grant-proper o p in
    let (gs, f) = normalize_all-proper os ps in (g ∷ gs, rw (e, f) refl)
