-- ===== src/Access/Authority.antt =====
-- src/copilot/knowledge-control/rbac.mjs: what an authorization rests on.
use babypark_integration.Base.{
  ◌≡◌, refl, sym, subst, ◌∙◌, true, false, ◌&&◌, Option, none, some, List, String, any, every,
  arith, if◌then◌else◌, ok, err, >>=-eq-ok, guard-eq-ok,
}
use babypark_integration.Access.Rbac.{
  Action, RawGrant, Grant, Revision, action_name, normalize_all, normalize_actor_grants,
  authorize_knowledge_action, authorize_revision_action, is_blank, knowledge_forbidden, required,
  action_of, named, is_publish, is_direct_temporary,
}
use babypark_integration.Access.Allowed.{
  allows, allowing, is_known, action_texts, is_filled, is_proper,
}
use babypark_integration.Access.Normal.{
  AreNormal, or_invalid-eq-ok, required-eq-ok, action_of-eq-some, normalize_all-AreNormal,
}
use babypark_integration.Access.Proper.{action_of-known, required-filled, normalize_all-proper}
use babypark_integration.Access.Decision.{
  keep-AreNormal, guard_if-eq-ok, authority, revision, decided,
}

-- What was read of the arguments of an authorization that succeeds.
authorize-read :
    (actor_id : Option String) (grants : Option (List (Option RawGrant)))
    (action namespace subject_type subject_id role : Option String) (gs : List Grant)
    → authorize_knowledge_action actor_id grants action namespace subject_type subject_id role
      ≡ ok gs
    → (a : Action) × (ns st si : String) × (normalized : List Grant) × (is_blank actor_id ≡ false)
      × (action_of action ≡ some a)
      × (required namespace ≡ ok ns)
      × (required subject_type ≡ ok st)
      × (required subject_id ≡ ok si)
      × (normalize_actor_grants grants ≡ ok normalized)
unfolding authorize_knowledge_action
authorize-read actor_id grants action namespace subject_type subject_id role gs h =
    let (named, h1) = guard-eq-ok _ _ _ h in
    let (a, acts, h2) = >>=-eq-ok _ _ h1 in
    let (ns, in_space, h3) = >>=-eq-ok _ _ h2 in
    let (st, of_type, h4) = >>=-eq-ok _ _ h3 in
    let (si, of_id, h5) = >>=-eq-ok _ _ h4 in
    let (_, _, h6) = >>=-eq-ok _ _ h5 in
    let (normalized, normal, _) = >>=-eq-ok _ _ h6 in
    (a, ns, st, si, normalized, named, or_invalid-eq-ok _ acts, in_space, of_type, of_id, normal)

normalize_actor_grants-eq-ok :
    (grants : Option (List (Option RawGrant))) {gs : List Grant}
    → normalize_actor_grants grants ≡ ok gs
    → (given : List (Option RawGrant)) × (grants ≡ some given) × (normalize_all given ≡ ok gs)
unfolding normalize_actor_grants
normalize_actor_grants-eq-ok none h = absurd (ground (arith, h))
normalize_actor_grants-eq-ok (some given) h = (given, refl, h)

-- The request, once its texts are known.
authorize-texts :
    (actor_id : Option String) (grants : Option (List (Option RawGrant))) (action : Option String)
    (v : Revision) (gs : List Grant) (given : List (Option RawGrant)) (name ns st si : String)
    → grants ≡ some given
    → action ≡ some name
    → v.namespace ≡ some ns
    → v.subject_type ≡ some st
    → v.subject_id ≡ some si
    → authorize_revision_action actor_id grants action (some v) ≡ ok gs
    → authorize_revision_action actor_id (some given) (some name) (some (revision ns st si)) ≡ ok gs
unfolding authorize_revision_action
authorize-texts actor_id grants action v gs given name ns st si a b c d e h =
    rw (a, b, c, d, e) at h

-- What the texts of a request and the grants given say of an authorization that has succeeded.
pub record RestsOn (given : List (Option RawGrant)) (action : Option String) (v : Revision)
    (gs : List Grant) : Type 0 where
  pub name : String
  pub namespace : String
  pub subject_type : String
  pub subject_id : String
  pub of_action : action ≡ some name
  pub of_namespace : v.namespace ≡ some namespace
  pub of_type : v.subject_type ≡ some subject_type
  pub of_subject : v.subject_id ≡ some subject_id
  pub allowed : any (allows name namespace subject_type subject_id) given ≡ true
  pub granted : AreNormal (allowing name namespace subject_type subject_id given) gs

-- An action on a revision is authorized only by the grants given, at least one: the grants returned are
-- the normal forms of exactly those given, in order, that allow the action. A grant allows it if it names
-- the action, if each of its scopes is `*` or the revision's own and, for a publication in one of the
-- three namespaces of temporary changes to a store, if its role is that of an operational editor.
pub authorized_by_grants :
    (actor_id : Option String) (grants : Option (List (Option RawGrant))) (action : Option String)
    (v : Revision) (gs : List Grant)
    → authorize_revision_action actor_id grants action (some v) ≡ ok gs
    → (given : List (Option RawGrant)) × (grants ≡ some given) × RestsOn given action v gs
unfolding authorize_revision_action
authorized_by_grants actor_id grants action v gs h =
    let (a, ns, st, si, normalized, named, acts, space, type, subject, normal) =
      authorize-read actor_id grants action v.namespace v.subject_type v.subject_id
        (if is_publish action && is_direct_temporary v.namespace
          then some "OPERATIONAL_EDITOR"
          else none)
        gs h in
    let (given, there, all) = normalize_actor_grants-eq-ok grants normal in
    let of_action = action_of-eq-some action acts in
    let in_space = required-eq-ok v.namespace space in
    let of_type = required-eq-ok v.subject_type type in
    let of_subject = required-eq-ok v.subject_id subject in
    let (kept, _) =
      keep-AreNormal a ns st si given normalized (normalize_all-AreNormal given normalized all) in
    let same =
      authorize-texts actor_id grants action v gs given (action_name a) ns st si there of_action
        in_space of_type of_subject h in
    let answer =
      decided actor_id given ns st si a normalized named
        (subst (λ o. action_of o ≡ some a) of_action acts)
        (subst (λ o. required o ≡ ok ns) in_space space)
        (subst (λ o. required o ≡ ok st) of_type type)
        (subst (λ o. required o ≡ ok si) of_subject subject) all in
    let (allowed, equal) = guard_if-eq-ok _ _ _ (sym answer ∙ same) in
    (
      given,
      there,
      record {
        name = action_name a;
        namespace = ns;
        subject_type = st;
        subject_id = si;
        of_action = of_action;
        of_namespace = in_space;
        of_type = of_type;
        of_subject = of_subject;
        allowed = allowed;
        granted = subst (AreNormal (allowing (action_name a) ns st si given)) equal kept;
      },
    )

-- A request with a known action, an actor that is not blank, three scopes and proper grants only is
-- decided by the texts of the grants: if one of them allows the action, the result is the normal forms of
-- exactly those that do, in order, and if none does, the action is forbidden. A grant allows it if it
-- names the action, if each of its scopes is `*` or the one asked for and, for a publication in one of the
-- three namespaces of temporary changes to a store, if its role is that of an operational editor.
pub authorized_where_allowed :
    (actor_id : Option String) (given : List (Option RawGrant)) (name ns st si : String)
    → is_blank actor_id ≡ false
    → is_known action_texts (some name) ≡ true
    → is_filled (some ns) ≡ true
    → is_filled (some st) ≡ true
    → is_filled (some si) ≡ true
    → every is_proper given ≡ true
    → (gs : List Grant) × AreNormal (allowing name ns st si given) gs
      × (authorize_revision_action actor_id (some given) (some name) (some (revision ns st si))
          ≡ (if any (allows name ns st si) given then ok gs else err knowledge_forbidden))
authorized_where_allowed actor_id given name ns st si b k space type subject p =
    let (a, acts) = action_of-known (some name) k in
    let (normalized, all) = normalize_all-proper given p in
    let same = action_of-eq-some (some name) acts in
    let (kept, _) =
      keep-AreNormal a ns st si given normalized (normalize_all-AreNormal given normalized all) in
    let called : name ≡ action_name a = ground (arith, same) in
    subst
      (λ n.
        (gs : List Grant) × AreNormal (allowing n ns st si given) gs
        × (authorize_revision_action actor_id (some given) (some n) (some (revision ns st si))
            ≡ (if any (allows n ns st si) given then ok gs else err knowledge_forbidden)))
      (sym called)
      (
        authority a ns st si normalized,
        kept,
        decided actor_id given ns st si a normalized b (subst (λ o. action_of o ≡ some a) same acts)
            (required-filled ns space) (required-filled st type) (required-filled si subject) all,
      )
