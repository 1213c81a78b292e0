-- ===== src/Knowledge/Transitions.antt =====
-- src/copilot/knowledge/store.mjs, lines 111 to 121, 443 to 450 and 660 to 913: the methods that move a
-- revision through its states. Their arguments are of the declared types; `Draw` has what `now` and
-- `idFactory.event` return to one call of `appendEvent`. A refused method leaves the ledger as it was,
-- the transaction being rolled back.
use babypark_integration.Base.{
  ℕ, ◌+◌, Bool, true, false, ◌&&◌, ◌||◌, not, Option, none, some, List, [], ◌∷◌, ◌++◌, String,
  str_eq, if◌then◌else◌, any, Value, str, obj, field, end, Result, ok, err, ◌>>=◌, ◌>>◌, fail_if,
}
use babypark_integration.Knowledge.Records.{
  EventType, draft_created, approved, published, revoked, superseded, withdrawn, State, draft,
  is_approved, is_published, is_revoked, is_superseded, is_withdrawn, Revision, EventBody, Event,
  Ledger, Error, type_error, read_only, revision_not_found, state_transition_invalid,
  approval_not_required, approval_required, self_approval_forbidden, supersession_self,
  supersession_predecessor_not_published, constraint, Services, is_text, is_optional_text,
}
use babypark_integration.Knowledge.Policy.{
  is_commerce, knowledge_requires_approval, validate_knowledge_publish_envelope,
  assert_supersession_compatible,
}
use babypark_integration.Knowledge.Ledger.{is_draft_created, find, verify_ledger}

pub record Draw : Type 0 where
  pub now : String
  pub id : String

-- The arguments that the methods share.
pub record Order : Type 0 where
  pub revision_id : String
  pub actor_id : String
  pub reason : Option String
  pub metadata : Value

abbrev pub state_after : EventType → State
state_after draft_created = draft
state_after approved = is_approved
state_after published = is_published
state_after withdrawn = is_withdrawn
state_after revoked = is_revoked
state_after superseded = is_superseded

-- `currentState`: the state after the last event of the revision.
unfoldable pub current_state : String → List Event → Option State
current_state id [] = none
current_state id (e ∷ es) =
    let rest = current_state id es in
    elim rest [
      | none ↦ if str_eq e.revision_id id then some (state_after e.event_type) else none
      | some st ↦ some st
    ]

abbrev is_draft : Option State → Bool
is_draft (some draft) = true
is_draft _ = false

abbrev is_approved_state : Option State → Bool
is_approved_state (some is_approved) = true
is_approved_state _ = false

abbrev is_published_state : Option State → Bool
is_published_state (some is_published) = true
is_published_state _ = false

-- The number and the hash of the last event.
unfoldable pub head_seq : List Event → ℕ
head_seq [] = 0
head_seq (e ∷ []) = e.event_seq
head_seq (e ∷ f ∷ es) = head_seq (f ∷ es)

unfoldable pub head_hash : List Event → Option String
head_hash [] = none
head_hash (e ∷ []) = some e.event_hash
head_hash (e ∷ f ∷ es) = head_hash (f ∷ es)

-- `eventType === 'DRAFT_CREATED'` is refused, and no string but the six reaches it.
module _ (s : Services) where
  unfoldable pub new_event : Order → EventType → String → String → Value → List Event → Event
  unfolding head_seq head_hash
  new_event o t at id metadata es =
      let body : EventBody = record {
        event_id = id;
        event_seq = head_seq es + 1;
        revision_id = o.revision_id;
        event_type = t;
        actor_id = o.actor_id;
        occurred_at_utc = at;
        reason = o.reason;
        metadata = metadata;
        previous_event_hash = head_hash es;
      } in
      record { body = body; event_hash = s.sha body }

  -- The UNIQUE columns `event_id` and `event_hash`, and the foreign key.
  unfoldable pub insert_event : Event → Ledger → Result Error Ledger
  insert_event e l =
      fail_if (any (λ x. str_eq x.event_id e.event_id || str_eq x.event_hash e.event_hash) l.events)
        constraint
      >> ok (record { revisions = l.revisions; events = l.events ++ e ∷ [] })

  unfoldable pub append_event : Order → EventType → Draw → Ledger → Result Error Ledger
  unfolding new_event insert_event
  append_event o t d l = do
    fail_if (not (is_text o.revision_id)) type_error
    fail_if (is_draft_created t) type_error
    fail_if (not (is_text o.actor_id)) type_error
    fail_if (not (is_optional_text o.reason)) type_error
    elim (s.canonical_metadata o.metadata) [
      | none ↦ err type_error
      | some metadata ↦ elim (s.canonical_timestamp d.now) [
        | none ↦ err type_error
        | some at ↦
            fail_if (not (is_text d.id)) type_error
            >> insert_event (new_event o t at d.id metadata l.events) l
      ]
    ]

  unfoldable pub require_revision : String → Ledger → Result Error Revision
  unfolding find
  require_revision id l =
      fail_if (not (is_text id)) type_error
      >> elim (find id l.revisions) [ none ↦ err revision_not_found | some r ↦ ok r ]

  -- The last `verifyLedger` of a method, before the transaction is committed.
  unfoldable pub verified : Ledger → Result Error Ledger
  verified l = verify_ledger s l >> ok l

  -- `tx` with the first `verifyLedger`, behind `assertWritable`.
  unfoldable pub tx : Bool → Ledger → (Ledger → Result Error Ledger) → Result Error Ledger
  tx is_read_only l body =
      fail_if is_read_only read_only >> (verify_ledger s l >> (body l >>= verified))

  unfoldable pub approve_body : Order → Draw → Ledger → Result Error Ledger
  unfolding require_revision append_event current_state
  approve_body o d l = do
    r ← require_revision o.revision_id l
    fail_if (not (knowledge_requires_approval r)) approval_not_required
    fail_if (not (is_draft (current_state o.revision_id l.events))) state_transition_invalid
    fail_if (is_commerce r.record_type && str_eq o.actor_id r.author_actor_id)
        self_approval_forbidden
    append_event o approved d l

  unfoldable pub withdraw_body : Order → Draw → Ledger → Result Error Ledger
  unfolding require_revision append_event current_state
  withdraw_body o d l = do
    r ← require_revision o.revision_id l
    fail_if
        (not (
          is_draft (current_state o.revision_id l.events)
          || is_approved_state (current_state o.revision_id l.events)))
        state_transition_invalid
    append_event o withdrawn d l

  unfoldable pub revoke_body : Order → Draw → Ledger → Result Error Ledger
  unfolding require_revision append_event current_state
  revoke_body o d l = do
    r ← require_revision o.revision_id l
    fail_if (not (is_published_state (current_state o.revision_id l.events)))
        state_transition_invalid
    append_event o revoked d l

  abbrev publishable : Revision → Option State → Bool
  publishable r st = if knowledge_requires_approval r then is_approved_state st else is_draft st

  -- The checks of the predecessor.
  unfoldable pub predecessor_of : Revision → Order → String → Ledger → Result Error Revision
  unfolding require_revision current_state
  predecessor_of r o id l = do
    fail_if (not (is_text id)) type_error
    fail_if (str_eq id o.revision_id) supersession_self
    p ← require_revision id l
    fail_if (not (is_published_state (current_state id l.events)))
        supersession_predecessor_not_published
    assert_supersession_compatible p r >> ok p

  abbrev superseding : Revision → Order → Order
  superseding p o = record {
    revision_id = p.revision_id;
    actor_id = o.actor_id;
    reason = o.reason;
    metadata = obj (field "successor_revision_id" (str o.revision_id) end);
  }

  unfoldable pub publish_body : Order → Option String → Draw → Draw → Ledger → Result Error Ledger
  unfolding require_revision append_event current_state predecessor_of
  publish_body o id d d' l = do
    r ← require_revision o.revision_id l
    fail_if (not (publishable r (current_state o.revision_id l.events)))
        (if knowledge_requires_approval r then approval_required else state_transition_invalid)
    validate_knowledge_publish_envelope s r
    elim id [
      | none ↦ append_event o published d l
      | some id ↦ predecessor_of r o id l >>= λ p.
          append_event o published d l >>= append_event (superseding p o) superseded d'
    ]

  unfoldable pub approve_revision : Bool → Order → Draw → Ledger → Result Error Ledger
  unfolding tx approve_body
  approve_revision is_read_only o d l = tx is_read_only l (approve_body o d)

  unfoldable pub withdraw_revision : Bool → Order → Draw → Ledger → Result Error Ledger
  unfolding tx withdraw_body
  withdraw_revision is_read_only o d l = tx is_read_only l (withdraw_body o d)

  unfoldable pub revoke_revision : Bool → Order → Draw → Ledger → Result Error Ledger
  unfolding tx revoke_body
  revoke_revision is_read_only o d l = tx is_read_only l (revoke_body o d)

  unfoldable pub publish_revision :
      Bool → Order → Option String → Draw → Draw → Ledger → Result Error Ledger
  unfolding tx publish_body
  publish_revision is_read_only o id d d' l = tx is_read_only l (publish_body o id d d')
