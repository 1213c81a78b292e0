-- ===== src/Access/Decision.antt =====
-- src/copilot/knowledge-control/rbac.mjs: how a request that was read is decided.
use babypark_integration.Base.{
  ◌≡◌, refl, Bool, true, false, ◌||◌, not, Option, none, some, List, [], ◌∷◌, String, str_eq, any,
  arith, if◌then◌else◌, Result, ok, err, ◌>>=◌, ◌>>◌, fail_if, ok-injective, Bool-cases, inl, inr,
}
use babypark_integration.Access.Rbac.{
  Role, operational_editor, Action, Error, RawGrant, Grant, Revision, action_name, role_name,
  has_role, is_matching, keep, normalize_all, normalize_actor_grants, authorize_knowledge_action,
  authorize_revision_action, is_blank, knowledge_forbidden, required, required_role, is_empty,
  action_of, named,
}
use babypark_integration.Access.Allowed.{needs_editor, allows, allowing}
use babypark_integration.Access.Normal.{IsNormal, AreNormal, normalize_all-AreNormal}

-- The role that an action needs.
abbrev pub editor_if : Bool → Option Role
editor_if b = if b then some operational_editor else none

has_role-editor_if :
    (b : Bool) (g : Grant)
    → has_role (editor_if b) g ≡ (not b || str_eq (role_name g.role) "OPERATIONAL_EDITOR")
has_role-editor_if true g = refl
has_role-editor_if false g = refl

required_role-editor_if :
    (b : Bool) → required_role (if b then some "OPERATIONAL_EDITOR" else none) ≡ ok (editor_if b)
unfolding named
required_role-editor_if true = refl
required_role-editor_if false = refl

-- The normal form of a grant matches where the texts of the grant allow the action.
is_matching-allows :
    (a : Action) (ns st si : String) (o : Option RawGrant) (g : Grant)
    → IsNormal o g
    → is_matching a ns st si (editor_if (needs_editor (action_name a) ns)) g
      ≡ allows (action_name a) ns st si o
is_matching-allows a ns st si none g h = absurd h
is_matching-allows a ns st si (some raw) g (role, space, type, subject, acts) =
    rw
      (space, type, subject, role, ← acts a, has_role-editor_if (needs_editor (action_name a) ns) g)
      refl

-- The filter keeps the normal forms of the grants that allow the action.
pub keep-AreNormal :
    (a : Action) (ns st si : String) (os : List (Option RawGrant)) (gs : List Grant)
    → AreNormal os gs
    → AreNormal
        (allowing (action_name a) ns st si os)
        (keep (is_matching a ns st si (editor_if (needs_editor (action_name a) ns))) gs)
      × (is_empty (keep (is_matching a ns st si (editor_if (needs_editor (action_name a) ns))) gs)
          ≡ not (any (allows (action_name a) ns st si) os))
unfolding keep
keep-AreNormal a ns st si [] [] h = (tt, refl)
keep-AreNormal a ns st si [] (g ∷ gs) h = absurd h
keep-AreNormal a ns st si (o ∷ os) [] h = absurd h
keep-AreNormal a ns st si (o ∷ os) (g ∷ gs) (n, rest) =
    let (kept, left) = keep-AreNormal a ns st si os gs rest in
    let same = is_matching-allows a ns st si o g n in
    elim (Bool-cases (allows (action_name a) ns st si o)) [
      | inl t ↦ rw (same, t) ((n, kept), refl)
      | inr f ↦ rw (same, f) (kept, left)
    ]

guard_if :
    (b c : Bool) (gs : List Grant)
    → c ≡ not b
    → (fail_if c knowledge_forbidden >> ok gs) ≡ (if b then ok gs else err knowledge_forbidden)
unfolding ◌>>=◌ ◌>>◌ fail_if
guard_if true c gs h = rw h refl
guard_if false c gs h = rw h refl

pub guard_if-eq-ok :
    (b : Bool) (xs gs : List Grant)
    → ◌≡◌ {A = Result Error (List Grant)} (if b then ok xs else err knowledge_forbidden) (ok gs)
    → (b ≡ true) × (xs ≡ gs)
guard_if-eq-ok true xs gs h = (refl, ok-injective h)
guard_if-eq-ok false xs gs h = absurd (ground (arith, h))

-- The grants that are returned, out of the normal forms of all.
abbrev pub authority : Action → String → String → String → List Grant → List Grant
authority a ns st si gs =
    keep (is_matching a ns st si (editor_if (needs_editor (action_name a) ns))) gs

abbrev pub revision : String → String → String → Revision
revision ns st si = record { namespace = some ns; subject_type = some st; subject_id = some si }

-- `authorizeRevisionAction` after its arguments were read.
pub decided :
    (actor_id : Option String) (given : List (Option RawGrant)) (ns st si : String) (a : Action)
    (normalized : List Grant)
    → is_blank actor_id ≡ false
    → action_of (some (action_name a)) ≡ some a
    → required (some ns) ≡ ok ns
    → required (some st) ≡ ok st
    → required (some si) ≡ ok si
    → normalize_all given ≡ ok normalized
    → authorize_revision_action actor_id
        (some given)
        (some (action_name a))
        (some (revision ns st si))
      ≡ (if any (allows (action_name a) ns st si) given
          then ok (authority a ns st si normalized)
          else err knowledge_forbidden)
unfolding authorize_revision_action authorize_knowledge_action normalize_actor_grants ◌>>=◌ ◌>>◌
    fail_if
decided actor_id given ns st si a normalized b c d e f n =
    let (_, left) =
      keep-AreNormal a ns st si given normalized (normalize_all-AreNormal given normalized n) in
    rw (b, c, d, e, f, required_role-editor_if (needs_editor (action_name a) ns), n)
      (guard_if (any (allows (action_name a) ns st si) given)
        (is_empty (authority a ns st si normalized)) (authority a ns st si normalized) left)
