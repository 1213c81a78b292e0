-- ===== src/Knowledge/Tests.antt =====
-- src/copilot/knowledge/store.mjs: the theorems at a concrete ledger, and runs of the methods.
use babypark_integration.Base.{
  List, map, All, ◌≡◌, refl, ℕ, true, false, Option, none, some, [], ◌∷◌, String, obj, end, null,
  ok, err, ◌>>=◌, ◌>>◌, fail_if, any, if◌then◌else◌, ◌==◌,
}
use babypark_integration.Knowledge.Records.{
  commerce_policy, EventType, draft_created, approved, published, State, Revision, Event, Ledger,
  Services, is_text, is_hash, self_approval_forbidden,
}
use babypark_integration.Knowledge.Policy.{
  knowledge_requires_approval, validate_knowledge_publish_envelope, is_direct,
}
use babypark_integration.Knowledge.Ledger.{
  find, events_of, is_event, check_revisions, check_chain, check_histories, revision_history_state,
  after_draft, after_approval, after_publication, verify_ledger,
}
use babypark_integration.Knowledge.Transitions.{
  Draw, Order, current_state, head_seq, head_hash, new_event, insert_event, append_event,
  require_revision, verified, tx, approve_body, publish_body, approve_revision, withdraw_revision,
  revoke_revision, publish_revision,
}
use babypark_integration.Knowledge.Sealed.{Sealed, methods-Sealed}
use babypark_integration.Knowledge.Approval.{approves, published_was_approved}
use babypark_integration.Knowledge.Authority.{AuthorityRow, authority_snapshot}
use babypark_integration.Knowledge.Replay.{IsReplayed, authority_snapshot-IsReplayed}
use babypark_integration.Knowledge.States.{current_state-revision_history_state}

abbrev hash_1 : String
hash_1 = "1111111111111111111111111111111111111111111111111111111111111111"

abbrev hash_2 : String
hash_2 = "2222222222222222222222222222222222222222222222222222222222222222"

abbrev hash_3 : String
hash_3 = "3333333333333333333333333333333333333333333333333333333333333333"

abbrev services : Services
services = record {
  sha = λ b. if b.event_seq == 1 then hash_1 else if b.event_seq == 2 then hash_2 else hash_3;
  canonical_timestamp = some;
  is_canonical = λ v. true;
  canonical_metadata = some;
  revision_sha = λ r. some hash_1;
  exceptions = λ rs. ok tt;
  is_civil_day = λ r. true;
}

-- A commerce policy by the author "ann".
abbrev policy : Revision
policy = record {
  revision_id = "kr_1";
  record_type = commerce_policy;
  namespace = "commerce.delivery";
  effect_family = "delivery";
  subject_type = "store";
  subject_id = "main";
  effective_from_utc = "2026-01-01T00:00:00.000Z";
  expires_at_utc = none;
  author_actor_id = "ann";
  rest = null;
  revision_hash = hash_1;
}

abbrev event : String → ℕ → EventType → String → Option String → String → Event
event id n t actor previous hash = record {
  body = record {
    event_id = id;
    event_seq = n;
    revision_id = "kr_1";
    event_type = t;
    actor_id = actor;
    occurred_at_utc = "2026-01-02T00:00:00.000Z";
    reason = none;
    metadata = obj end;
    previous_event_hash = previous;
  };
  event_hash = hash;
}

abbrev creation : Event
creation = event "ke_1" 1 draft_created "ann" none hash_1

abbrev approval : Event
approval = event "ke_2" 2 approved "bob" (some hash_1) hash_2

abbrev publication : Event
publication = event "ke_3" 3 published "ann" (some hash_2) hash_3

abbrev drafted : Ledger
drafted = record { revisions = policy ∷ []; events = creation ∷ [] }

abbrev approved_ledger : Ledger
approved_ledger = record { revisions = policy ∷ []; events = creation ∷ approval ∷ [] }

abbrev published_ledger : Ledger
published_ledger = record {
  revisions = policy ∷ [];
  events = creation ∷ approval ∷ publication ∷ [];
}

abbrev order : String → Order
order actor = record { revision_id = "kr_1"; actor_id = actor; reason = none; metadata = obj end }

abbrev draw : String → Draw
draw id = record { now = "2026-01-02T00:00:00.000Z"; id = id }

published_ledger_verified : verify_ledger services published_ledger ≡ ok tt
unfolding verify_ledger check_revisions check_chain check_histories find is_event is_text is_hash
    ◌>>=◌ ◌>>◌ fail_if revision_history_state events_of after_draft after_approval after_publication
    knowledge_requires_approval validate_knowledge_publish_envelope is_direct
published_ledger_verified = refl

approve_by_other :
    approve_revision services false (order "bob") (draw "ke_2") drafted ≡ ok approved_ledger
unfolding approve_revision tx verified approve_body append_event new_event insert_event head_seq
    head_hash require_revision current_state verify_ledger check_revisions check_chain
    check_histories find is_event is_text is_hash ◌>>=◌ ◌>>◌ fail_if revision_history_state
    events_of after_draft after_approval after_publication knowledge_requires_approval
    validate_knowledge_publish_envelope is_direct
approve_by_other = refl

approve_by_author :
    approve_revision services false (order "ann") (draw "ke_2") drafted
    ≡ err self_approval_forbidden
unfolding approve_revision tx verified approve_body append_event new_event insert_event head_seq
    head_hash require_revision current_state verify_ledger check_revisions check_chain
    check_histories find is_event is_text is_hash ◌>>=◌ ◌>>◌ fail_if revision_history_state
    events_of after_draft after_approval after_publication knowledge_requires_approval
    validate_knowledge_publish_envelope is_direct
approve_by_author = refl

publish_approved :
    publish_revision services false (order "ann") none (draw "ke_3") (draw "ke_4") approved_ledger
    ≡ ok published_ledger
unfolding publish_revision tx verified publish_body append_event new_event insert_event head_seq
    head_hash require_revision current_state verify_ledger check_revisions check_chain
    check_histories find is_event is_text is_hash ◌>>=◌ ◌>>◌ fail_if revision_history_state
    events_of after_draft after_approval after_publication knowledge_requires_approval
    validate_knowledge_publish_envelope is_direct
publish_approved = refl

published_was_approved_example :
    any (approves policy) (events_of "kr_1" published_ledger.events) ≡ true
unfolding find knowledge_requires_approval is_direct events_of
published_was_approved_example =
    published_was_approved services published_ledger "kr_1" policy published_ledger_verified refl
      refl refl

current_state-revision_history_state_example :
    (st : State) × (revision_history_state services published_ledger policy
        (events_of "kr_1" published_ledger.events)
      ≡ ok st)
    × (current_state "kr_1" published_ledger.events ≡ some st)
unfolding find
current_state-revision_history_state_example =
    current_state-revision_history_state services published_ledger "kr_1" policy
      published_ledger_verified refl

methods-Sealed_example :
    Sealed services drafted (approve_revision services false (order "bob") (draw "ke_2") drafted)
    × Sealed services drafted (withdraw_revision services false (order "bob") (draw "ke_2") drafted)
    × Sealed services drafted (revoke_revision services false (order "bob") (draw "ke_2") drafted)
    × Sealed services drafted
        (publish_revision services false (order "bob") none (draw "ke_2") (draw "ke_3") drafted)
methods-Sealed_example =
    methods-Sealed services false (order "bob") none (draw "ke_2") (draw "ke_3") drafted

authority_snapshot-IsReplayed_example :
    (rows : List AuthorityRow) × (authority_snapshot services published_ledger ≡ ok rows)
    × (map (λ (row : AuthorityRow). row.revision) rows ≡ policy ∷ [])
    × All (IsReplayed services published_ledger) rows
authority_snapshot-IsReplayed_example =
    authority_snapshot-IsReplayed services published_ledger published_ledger_verified
