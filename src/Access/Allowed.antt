-- ===== src/Access/Allowed.antt =====
-- src/copilot/knowledge-control/rbac.mjs: what a grant says, read off its texts as they are given.
use babypark_integration.Base.{
  Bool, false, ◌&&◌, ◌||◌, not, Option, none, some, List, [], ◌∷◌, String, str_eq, any, every,
  if◌then◌else◌,
}
use babypark_integration.Access.Rbac.{RawGrant}

abbrev pub is_text : String → Option String → Bool
is_text s none = false
is_text s (some t) = str_eq t s

abbrev pub names : Option (List (Option String)) → List (Option String)
names none = []
names (some ss) = ss

abbrev pub in_scope : String → Option String → Bool
in_scope s o = is_text "*" o || is_text s o

-- A publication in one of the three namespaces of temporary changes to a store.
abbrev pub needs_editor : String → String → Bool
needs_editor name ns =
    str_eq name "PUBLISH"
    && (str_eq ns "store.status_override"
        || str_eq ns "store.special_hours"
        || str_eq ns "store.temporary_closure")

-- The grant names the action, each of its scopes is `*` or the one asked for, and its role is that of an
-- operational editor where that is needed.
abbrev pub allows : String → String → String → String → Option RawGrant → Bool
allows name ns st si none = false
allows name ns st si (some raw) =
    any (is_text name) (names raw.actions)
    && in_scope ns raw.namespace
    && in_scope st raw.subject_type
    && in_scope si raw.subject_id
    && (not (needs_editor name ns) || is_text "OPERATIONAL_EDITOR" raw.role)

-- The grants given that allow the action, in order.
abbrev pub allowing :
    String → String → String → String → List (Option RawGrant) → List (Option RawGrant)
allowing name ns st si [] = []
allowing name ns st si (o ∷ os) =
    if allows name ns st si o then o ∷ allowing name ns st si os else allowing name ns st si os

abbrev pub role_texts : List String
role_texts =
    "VIEWER" ∷ "OPERATIONAL_EDITOR" ∷ "COMMERCE_DRAFTER" ∷ "COMMERCE_APPROVER" ∷ "KNOWLEDGE_ADMIN"
    ∷ []

abbrev pub action_texts : List String
action_texts =
    "VIEW" ∷ "RESOLVE" ∷ "DRAFT_CREATE" ∷ "APPROVE" ∷ "PUBLISH" ∷ "WITHDRAW" ∷ "REVOKE"
    ∷ "SUPERSEDE" ∷ []

abbrev pub is_known : List String → Option String → Bool
is_known texts none = false
is_known texts (some s) = any (λ t. str_eq t s) texts

abbrev pub is_filled : Option String → Bool
is_filled none = false
is_filled (some s) = not (str_eq s "")

abbrev pub are_known : Option (List (Option String)) → Bool
are_known none = false
are_known (some []) = false
are_known (some (s ∷ ss)) = every (is_known action_texts) (s ∷ ss)

-- A grant that has a known role, at least one action, known ones only, and three scopes.
abbrev pub is_proper : Option RawGrant → Bool
is_proper none = false
is_proper (some raw) =
    is_known role_texts raw.role
    && are_known raw.actions
    && is_filled raw.namespace
    && is_filled raw.subject_type
    && is_filled raw.subject_id
