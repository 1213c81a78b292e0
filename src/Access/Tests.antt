-- ===== src/Access/Tests.antt =====
-- src/copilot/knowledge-control/rbac.mjs: the theorems for an editor who publishes a temporary change.
use babypark_integration.Base.{
  Option, List, if◌then◌else◌, ◌≡◌, refl, true, false, some, [], ◌∷◌, any, ok, err, ◌>>=◌, ◌>>◌,
  fail_if,
}
use babypark_integration.Access.Rbac.{
  operational_editor, publish, view, RawGrant, Grant, Revision, named, required, actions_of,
  distinct, normalize_grant, normalize_all, normalize_actor_grants, keep,
  authorize_knowledge_action, authorize_revision_action, knowledge_forbidden,
}
use babypark_integration.Access.Allowed.{allows, allowing}
use babypark_integration.Access.Normal.{AreNormal}
use babypark_integration.Access.Decision.{revision}
use babypark_integration.Access.Authority.{RestsOn, authorized_by_grants, authorized_where_allowed}

abbrev raw : RawGrant
raw = record {
  role = some "OPERATIONAL_EDITOR";
  actions = some (some "PUBLISH" ∷ some "VIEW" ∷ some "PUBLISH" ∷ []);
  namespace = some "store.special_hours";
  subject_type = some "store";
  subject_id = some "*";
}

abbrev grant : Grant
grant = record {
  role = operational_editor;
  actions = publish ∷ view ∷ [];
  namespace = "store.special_hours";
  subject_type = "store";
  subject_id = "*";
}

abbrev hours : Revision
hours = record {
  namespace = some "store.special_hours";
  subject_type = some "store";
  subject_id = some "kyiv";
}

may_publish :
    authorize_revision_action (some "olena") (some (some raw ∷ [])) (some "PUBLISH") (some hours)
    ≡ ok (grant ∷ [])
unfolding authorize_revision_action authorize_knowledge_action normalize_actor_grants normalize_all
    normalize_grant required actions_of distinct named keep ◌>>=◌ ◌>>◌ fail_if
may_publish = refl

authorized_by_grants_example :
    (given : List (Option RawGrant)) × (some (some raw ∷ []) ≡ some given)
    × RestsOn given (some "PUBLISH") hours (grant ∷ [])
authorized_by_grants_example =
    authorized_by_grants (some "olena") (some (some raw ∷ [])) (some "PUBLISH") hours (grant ∷ [])
      may_publish

-- A grant that does not name the action.
abbrev reader : RawGrant
reader = record raw { actions = some (some "VIEW" ∷ []) }

authorized_where_allowed_example :
    (gs : List Grant) × AreNormal
      (allowing "PUBLISH" "store.special_hours" "store" "kyiv" (some reader ∷ some raw ∷ []))
      gs
    × (authorize_revision_action
          (some "olena")
          (some (some reader ∷ some raw ∷ []))
          (some "PUBLISH")
          (some (revision "store.special_hours" "store" "kyiv"))
        ≡ (if any
              (allows "PUBLISH" "store.special_hours" "store" "kyiv")
              (some reader ∷ some raw ∷ [])
            then ok gs
            else err knowledge_forbidden))
authorized_where_allowed_example =
    authorized_where_allowed (some "olena") (some reader ∷ some raw ∷ []) "PUBLISH"
      "store.special_hours" "store" "kyiv" refl refl refl refl refl refl

allowed :
    any (allows "PUBLISH" "store.special_hours" "store" "kyiv") (some reader ∷ some raw ∷ []) ≡ true
allowed = refl

not_allowed : any (allows "APPROVE" "store.special_hours" "store" "kyiv") (some raw ∷ []) ≡ false
not_allowed = refl
