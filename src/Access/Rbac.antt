-- ===== src/Access/Rbac.antt =====
-- src/copilot/knowledge-control/rbac.mjs. A value from outside is an option: none where it is not of the type that
-- is asked for (a text, an array, an object).
use babypark_integration.Base.{
  Bool, true, false, ◌&&◌, ◌||◌, Option, none, some, List, [], ◌∷◌, String, str_eq, any, every,
  codes, is_space, if◌then◌else◌, Result, ok, err, ◌>>=◌, ◌>>◌, fail_if,
}

pub data Role : Type 0 where
  viewer operational_editor commerce_drafter commerce_approver knowledge_admin : Role

pub data Action : Type 0 where
  view resolve draft_create approve publish withdraw revoke supersede : Action

pub data Error : Type 0 where
  -- A TypeError.
  invalid_argument : Error
  knowledge_forbidden knowledge_revision_not_found : Error

abbrev pub role_name : Role → String
role_name viewer = "VIEWER"
role_name operational_editor = "OPERATIONAL_EDITOR"
role_name commerce_drafter = "COMMERCE_DRAFTER"
role_name commerce_approver = "COMMERCE_APPROVER"
role_name knowledge_admin = "KNOWLEDGE_ADMIN"

abbrev knowledge_roles : List Role
knowledge_roles =
    viewer ∷ operational_editor ∷ commerce_drafter ∷ commerce_approver ∷ knowledge_admin ∷ []

abbrev pub action_name : Action → String
action_name view = "VIEW"
action_name resolve = "RESOLVE"
action_name draft_create = "DRAFT_CREATE"
action_name approve = "APPROVE"
action_name publish = "PUBLISH"
action_name withdraw = "WITHDRAW"
action_name revoke = "REVOKE"
action_name supersede = "SUPERSEDE"

abbrev knowledge_actions : List Action
knowledge_actions =
    view ∷ resolve ∷ draft_create ∷ approve ∷ publish ∷ withdraw ∷ revoke ∷ supersede ∷ []

-- The member of a set with that name.
unfoldable pub named {ℓ} : {A : Type ℓ} → (A → String) → String → List A → Option A
named f s [] = none
named f s (x ∷ xs) = if str_eq (f x) s then some x else named f s xs

abbrev pub role_of : Option String → Option Role
role_of none = none
role_of (some s) = named role_name s knowledge_roles

abbrev pub action_of : Option String → Option Action
action_of none = none
action_of (some s) = named action_name s knowledge_actions

pub record RawGrant : Type 0 where
  pub role : Option String
  pub actions : Option (List (Option String))
  pub namespace : Option String
  pub subject_type : Option String
  pub subject_id : Option String

pub record Grant : Type 0 where
  pub role : Role
  pub actions : List Action
  pub namespace : String
  pub subject_type : String
  pub subject_id : String

abbrev pub or_invalid {ℓ} : {A : Type ℓ} → Option A → Result Error A
or_invalid none = err invalid_argument
or_invalid (some a) = ok a

-- A text that is not empty.
unfoldable pub required : Option String → Result Error String
required none = err invalid_argument
required (some s) = if str_eq s "" then err invalid_argument else ok s

unfoldable pub actions_of : List (Option String) → Option (List Action)
unfolding named
actions_of [] = some []
actions_of (s ∷ ss) =
    let rest = actions_of ss in
    elim (action_of s) [
      | none ↦ none
      | some a ↦ (elim rest [ none ↦ none | some as' ↦ some (a ∷ as') ])
    ]

abbrev pub is_same_action : Action → Action → Bool
is_same_action a b = str_eq (action_name a) (action_name b)

abbrev pub is_same_role : Role → Role → Bool
is_same_role a b = str_eq (role_name a) (role_name b)

-- `[...new Set(actions)]`, with those that are seen already.
unfoldable pub distinct : List Action → List Action → List Action
distinct seen [] = []
distinct seen (a ∷ rest) =
    if any (is_same_action a) seen then distinct seen rest else a ∷ distinct (a ∷ seen) rest

abbrev pub granted_actions : Option (List (Option String)) → Result Error (List Action)
granted_actions none = err invalid_argument
granted_actions (some []) = err invalid_argument
granted_actions (some (s ∷ ss)) = or_invalid (actions_of (s ∷ ss))

-- `normalizeGrant`.
unfoldable pub normalize_grant : Option RawGrant → Result Error Grant
unfolding required actions_of distinct named
normalize_grant none = err invalid_argument
normalize_grant (some g) = do
  role ← or_invalid (role_of g.role)
  actions ← granted_actions g.actions
  namespace ← required g.namespace
  subject_type ← required g.subject_type
  subject_id ← required g.subject_id
  ok (record {
    role = role;
    actions = distinct [] actions;
    namespace = namespace;
    subject_type = subject_type;
    subject_id = subject_id;
  })

unfoldable pub normalize_all : List (Option RawGrant) → Result Error (List Grant)
unfolding normalize_grant
normalize_all [] = ok []
normalize_all (g ∷ gs) = do grant ← normalize_grant g; rest ← normalize_all gs; ok (grant ∷ rest)

-- `normalizeActorGrants`.
unfoldable pub normalize_actor_grants : Option (List (Option RawGrant)) → Result Error (List Grant)
unfolding normalize_all
normalize_actor_grants none = err invalid_argument
normalize_actor_grants (some gs) = normalize_all gs

abbrev pub match_scope : String → String → Bool
match_scope expected actual = str_eq expected "*" || str_eq expected actual

abbrev pub has_role : Option Role → Grant → Bool
has_role none g = true
has_role (some r) g = is_same_role g.role r

-- The filter of `authorizeKnowledgeAction`.
abbrev pub is_matching : Action → String → String → String → Option Role → Grant → Bool
is_matching a ns st si r g =
    any (λ b. is_same_action b a) g.actions
    && match_scope g.namespace ns
    && match_scope g.subject_type st
    && match_scope g.subject_id si
    && has_role r g

unfoldable pub keep {ℓ} : {A : Type ℓ} → (A → Bool) → List A → List A
keep p [] = []
keep p (x ∷ xs) = let rest = keep p xs in if p x then x ∷ rest else rest

abbrev pub is_blank : Option String → Bool
is_blank none = true
is_blank (some s) = every is_space (codes s)

abbrev pub required_role : Option String → Result Error (Option Role)
required_role none = ok none
required_role (some s) = elim (role_of (some s)) [
  | none ↦ err invalid_argument
  | some r ↦ ok (some r)
]

abbrev pub is_empty : List Grant → Bool
is_empty [] = true
is_empty (g ∷ gs) = false

-- `authorizeKnowledgeAction`: the grants that authorize the action.
unfoldable pub authorize_knowledge_action :
    Option String
    → Option (List (Option RawGrant))
    → Option String
    → Option String
    → Option String
    → Option String
    → Option String
    → Result Error (List Grant)
unfolding required normalize_actor_grants keep named
authorize_knowledge_action actor_id grants action namespace subject_type subject_id require_role =
    do
      fail_if (is_blank actor_id) invalid_argument
      a ← or_invalid (action_of action)
      ns ← required namespace
      st ← required subject_type
      si ← required subject_id
      r ← required_role require_role
      normalized ← normalize_actor_grants grants
      fail_if (is_empty (keep (is_matching a ns st si r) normalized)) knowledge_forbidden
      ok (keep (is_matching a ns st si r) normalized)

pub record Revision : Type 0 where
  pub namespace : Option String
  pub subject_type : Option String
  pub subject_id : Option String

abbrev pub is_direct_temporary : Option String → Bool
is_direct_temporary none = false
is_direct_temporary (some s) =
    str_eq s "store.status_override"
    || str_eq s "store.special_hours"
    || str_eq s "store.temporary_closure"

abbrev pub is_publish : Option String → Bool
is_publish none = false
is_publish (some s) = str_eq s "PUBLISH"

-- `authorizeRevisionAction`.
unfoldable pub authorize_revision_action :
    Option String
    → Option (List (Option RawGrant))
    → Option String
    → Option Revision
    → Result Error (List Grant)
unfolding authorize_knowledge_action
authorize_revision_action actor_id grants action none = err knowledge_revision_not_found
authorize_revision_action actor_id grants action (some v) =
    authorize_knowledge_action actor_id grants action v.namespace v.subject_type v.subject_id (
      if is_publish action && is_direct_temporary v.namespace
      then some "OPERATIONAL_EDITOR"
      else none)
