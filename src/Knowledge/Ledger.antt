-- ===== src/Knowledge/Ledger.antt =====
-- src/copilot/knowledge/store.mjs, lines 138 to 166, 189 to 322 and 968 to 1066: the verification of
-- the ledger. The rows are given in the order of their ORDER BY.
use babypark_integration.Base.{
  ℕ, ◌+◌, Bool, true, false, ◌&&◌, not, Option, none, some, is_none, List, [], ◌∷◌, String, str_eq,
  ltb, leb, ◌==◌, if◌then◌else◌, any, max_safe_integer, Value, str, Result, ok, err, ◌>>=◌, ◌>>◌,
  fail_if,
}
use babypark_integration.Knowledge.Records.{
  EventType, draft_created, approved, published, revoked, superseded, withdrawn, State, draft,
  is_approved, is_published, is_revoked, is_superseded, is_withdrawn, Revision, Event, Ledger,
  Error, type_error, state_transition_invalid, approval_not_required, approval_required,
  self_approval_forbidden, supersession_successor_missing, supersession_successor_not_published,
  draft_event_invalid, draft_author_mismatch, terminal_state_violation, revision_invalid,
  revision_hash_mismatch, event_sequence_invalid, event_chain_invalid, event_revision_missing,
  event_invalid, event_hash_mismatch, Services, is_text, is_optional_text, is_optional_hash,
  successor_id,
}
use babypark_integration.Knowledge.Policy.{
  is_commerce, knowledge_requires_approval, validate_knowledge_publish_envelope,
  assert_supersession_compatible,
}

abbrev pub is_draft_created : EventType → Bool
is_draft_created draft_created = true
is_draft_created _ = false

-- `getRevision`, and `revisionsById.get`.
unfoldable pub find : String → List Revision → Option Revision
find id [] = none
find id (r ∷ rs) = if str_eq r.revision_id id then some r else find id rs

-- `eventsByRevision.get(id) ?? []`.
unfoldable pub events_of : String → List Event → List Event
events_of id [] = []
events_of id (e ∷ es) = if str_eq e.revision_id id then e ∷ events_of id es else events_of id es

abbrev pub is_publication : EventType → Bool
is_publication published = true
is_publication _ = false

-- `publishedSeqByRevision.get(id)`: the number of the first PUBLISHED event.
unfoldable pub published_seq : String → List Event → Option ℕ
published_seq id [] = none
published_seq id (e ∷ es) =
    if is_publication e.event_type && str_eq e.revision_id id
    then some e.event_seq
    else published_seq id es

abbrev pub is_before : Option ℕ → ℕ → Bool
is_before none n = false
is_before (some k) n = ltb k n

-- The type at an index, where there is an event.
abbrev pub first_type : List Event → EventType
first_type [] = draft_created
first_type (e ∷ es) = e.event_type

module _ (s : Services) (l : Ledger) where
  -- The checks of a SUPERSEDED event, from the value of `successor_revision_id`.
  unfoldable pub check_successor : Revision → Event → Value → Result Error State
  unfolding find
  check_successor r e (str id) = do
    fail_if (not (is_text id)) type_error
    elim (find id l.revisions) [
      | none ↦ err supersession_successor_missing
      | some successor ↦
          assert_supersession_compatible r successor
          >> (fail_if (not (is_before (published_seq id l.events) e.event_seq))
                supersession_successor_not_published
              >> ok is_superseded)
    ]
  check_successor r e _ = err type_error

  -- The event after PUBLISHED.
  unfoldable pub terminal : Revision → Event → EventType → Result Error State
  unfolding check_successor
  terminal r e revoked = ok is_revoked
  terminal r e superseded = check_successor r e (successor_id e.metadata)
  terminal r e _ = err state_transition_invalid

  unfoldable pub after_publication : Revision → List Event → Result Error State
  unfolding terminal
  after_publication r [] = ok is_published
  after_publication r (e ∷ []) = terminal r e e.event_type
  after_publication r (e ∷ f ∷ es) = err terminal_state_violation

  -- From the index after DRAFT_CREATED and, with the flag, APPROVED.
  unfoldable pub after_approval : Revision → Bool → List Event → EventType → Result Error State
  unfolding after_publication
  after_approval r ready [] t = ok (if ready then is_approved else draft)
  after_approval r ready (e ∷ []) withdrawn = ok is_withdrawn
  after_approval r ready (e ∷ f ∷ es) withdrawn = err terminal_state_violation
  after_approval r ready (e ∷ es) published = do
    fail_if (knowledge_requires_approval r && not ready) approval_required
    validate_knowledge_publish_envelope s r
    after_publication r es
  after_approval r ready (e ∷ es) _ = err state_transition_invalid

  unfoldable pub after_draft : Revision → List Event → EventType → Result Error State
  unfolding after_approval
  after_draft r (e ∷ es) approved = do
    fail_if (not (knowledge_requires_approval r)) approval_not_required
    fail_if (is_commerce r.record_type && str_eq e.actor_id r.author_actor_id)
        self_approval_forbidden
    after_approval r true es (first_type es)
  after_draft r es t = after_approval r false es t

  -- `revisionHistoryState`.
  unfoldable pub revision_history_state : Revision → List Event → Result Error State
  unfolding after_draft
  revision_history_state r [] = err draft_event_invalid
  revision_history_state r (e ∷ es) = do
    fail_if (not (is_draft_created e.event_type)) draft_event_invalid
    fail_if (any (λ x. is_draft_created x.event_type) es) draft_event_invalid
    fail_if (not (str_eq e.actor_id r.author_actor_id)) draft_author_mismatch
    after_draft r es (first_type es)

  -- The loop over the revisions at the end of `verifyLedger`.
  unfoldable pub check_histories : List Revision → Result Error (Unit {0})
  unfolding revision_history_state events_of
  check_histories [] = ok tt
  check_histories (r ∷ rs) =
      revision_history_state r (events_of r.revision_id l.events) >>= λ _. check_histories rs

-- `storedTimestamp`.
abbrev pub is_stored : Services → String → Bool
is_stored s t = elim (s.canonical_timestamp t) [ none ↦ false | some u ↦ str_eq u t ]

-- `eventBody` throws for no such row.
unfoldable pub is_event : Services → Event → Bool
is_event s e =
    is_text e.event_id
    && leb 1 e.event_seq
    && leb e.event_seq max_safe_integer
    && is_text e.revision_id
    && is_text e.actor_id
    && is_optional_text e.reason
    && is_optional_hash e.previous_event_hash
    && is_stored s e.occurred_at_utc
    && s.is_canonical e.metadata

abbrev pub same_hash : Option String → Option String → Bool
same_hash none none = true
same_hash (some a) (some b) = str_eq a b
same_hash none (some b) = false
same_hash (some a) none = false

-- The loop over the events of `verifyLedger`, from the sequence number and hash before them.
unfoldable pub check_chain :
    Services → List Revision → ℕ → Option String → List Event → Result Error (Unit {0})
unfolding find is_event
check_chain s rs n previous [] = ok tt
check_chain s rs n previous (e ∷ es) = do
  fail_if (not (e.event_seq == n + 1)) event_sequence_invalid
  fail_if (not (same_hash e.previous_event_hash previous)) event_chain_invalid
  fail_if (is_none (find e.revision_id rs)) event_revision_missing
  fail_if (not (is_event s e)) event_invalid
  fail_if (not (str_eq (s.sha e.body) e.event_hash)) event_hash_mismatch
  check_chain s rs (n + 1) (some e.event_hash) es

-- The loop over the revisions at the start of `verifyLedger`.
unfoldable pub check_revisions : Services → List Revision → Result Error (Unit {0})
check_revisions s [] = ok tt
check_revisions s (r ∷ rs) = elim (s.revision_sha r) [
  | none ↦ err revision_invalid
  | some h ↦ fail_if (not (str_eq h r.revision_hash)) revision_hash_mismatch >> check_revisions s rs
]

unfoldable pub verify_ledger : Services → Ledger → Result Error (Unit {0})
unfolding check_revisions check_chain check_histories
verify_ledger s l = do
  check_revisions s l.revisions
  s.exceptions l.revisions
  check_chain s l.revisions 0 none l.events
  check_histories s l l.revisions
