-- ===== src/Knowledge/Policy.antt =====
-- src/copilot/knowledge/publication-policy.mjs, lines 1 to 7 and 56 to 120.
use babypark_integration.Base.{
  Bool, true, false, ◌&&◌, ◌||◌, not, none, some, List, [], ◌∷◌, String, str_eq, any, Result, ok,
  err, fail_if, if◌then◌else◌,
}
use babypark_integration.Knowledge.Records.{
  RecordType, commerce_policy, Revision, Error, temporary_expiry_required,
  special_hours_civil_day_required, supersession_boundary_mismatch, Services,
}

abbrev direct_publish_namespaces : List String
direct_publish_namespaces =
    "store.status_override" ∷ "store.special_hours" ∷ "store.temporary_closure" ∷ []

unfoldable pub is_direct : Revision → Bool
is_direct r = any (str_eq r.namespace) direct_publish_namespaces

abbrev pub is_commerce : RecordType → Bool
is_commerce commerce_policy = true
is_commerce _ = false

unfoldable pub knowledge_requires_approval : Revision → Bool
knowledge_requires_approval r = is_commerce r.record_type || not (is_direct r)

-- The last check concerns special hours alone: both ends are midnights of Kyiv, one civil day apart.
unfoldable pub validate_knowledge_publish_envelope : Services → Revision → Result Error (Unit {0})
validate_knowledge_publish_envelope s r =
    if not (is_direct r) then ok tt else elim r.expires_at_utc [
      | none ↦ err temporary_expiry_required
      | some t ↦
          if not (str_eq r.namespace "store.special_hours")
          then ok tt
          else fail_if (not (s.is_civil_day r)) special_hours_civil_day_required
    ]

unfoldable pub assert_supersession_compatible : Revision → Revision → Result Error (Unit {0})
assert_supersession_compatible p q =
    fail_if
      (not (
        str_eq p.namespace q.namespace
        && str_eq p.subject_type q.subject_type
        && str_eq p.subject_id q.subject_id
        && str_eq p.effect_family q.effect_family))
      supersession_boundary_mismatch
