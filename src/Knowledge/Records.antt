-- ===== src/Knowledge/Records.antt =====
-- src/copilot/knowledge/store.mjs and schema.mjs: the rows of the ledger, the errors, and what the
-- store takes from elsewhere. Columns with JSON hold the value itself. The columns of a revision that
-- only its own validation reads are one field, `rest`.
use babypark_integration.Base.{
  ℕ, Bool, true, ◌&&◌, ◌||◌, not, Option, none, some, List, String, Value, obj, Fields, end, field,
  codes, every, length, leb, ◌==◌, str_eq, if◌then◌else◌, is_digit, is_space, undefined, Result,
}

pub data RecordType : Type 0 where
  operational_fact commerce_policy vocabulary_entry : RecordType

pub data EventType : Type 0 where
  draft_created approved published revoked superseded withdrawn : EventType

pub data State : Type 0 where
  draft is_approved is_published is_revoked is_superseded is_withdrawn : State

pub record Revision : Type 0 where
  pub revision_id : String
  pub record_type : RecordType
  pub namespace : String
  pub effect_family : String
  pub subject_type : String
  pub subject_id : String
  pub effective_from_utc : String
  pub expires_at_utc : Option String
  pub author_actor_id : String
  pub rest : Value
  pub revision_hash : String

-- What `knowledgeSha256` is applied to.
pub record EventBody : Type 0 where
  pub event_id : String
  pub event_seq : ℕ
  pub revision_id : String
  pub event_type : EventType
  pub actor_id : String
  pub occurred_at_utc : String
  pub reason : Option String
  pub metadata : Value
  pub previous_event_hash : Option String

pub record Event : Type 0 where
  pub body : EventBody
  pub open body use *
  pub event_hash : String

pub record Ledger : Type 0 where
  pub revisions : List Revision
  pub events : List Event

pub data Error : Type 0 where
  type_error read_only revision_not_found state_transition_invalid : Error
  approval_not_required approval_required self_approval_forbidden : Error
  temporary_expiry_required special_hours_civil_day_required : Error
  supersession_self supersession_predecessor_not_published supersession_boundary_mismatch : Error
  supersession_successor_missing supersession_successor_not_published : Error
  draft_event_invalid draft_author_mismatch terminal_state_violation : Error
  revision_invalid revision_hash_mismatch event_sequence_invalid event_chain_invalid : Error
  event_revision_missing event_invalid event_hash_mismatch : Error
  -- A UNIQUE violation that SQLite raises.
  constraint : Error

-- What the store calls and this part does not define: the hash of an event, the canonical forms of
-- canonical.mjs, the validation of a revision's row and hash, the exception graph of
-- commerce-policy.mjs, and the civil days of a time zone.
pub record Services : Type 0 where
  pub sha : EventBody → String
  pub canonical_timestamp : String → Option String
  pub is_canonical : Value → Bool
  pub canonical_metadata : Value → Option Value
  -- The hash of a valid row.
  pub revision_sha : Revision → Option String
  pub exceptions : List Revision → Result Error (Unit {0})
  pub is_civil_day : Revision → Bool

-- `text`: neither blank nor with a NUL.
unfoldable pub is_text : String → Bool
is_text s = not (every is_space (codes s)) && every (λ c. not (c == 0)) (codes s)

abbrev pub is_optional_text : Option String → Bool
is_optional_text none = true
is_optional_text (some s) = is_text s

-- `/^[a-f0-9]{64}$/`.
unfoldable pub is_hash : String → Bool
is_hash s =
    length (codes s) == 64 && every (λ c. is_digit c || (leb b'a' c && leb c b'f')) (codes s)

abbrev pub is_optional_hash : Option String → Bool
is_optional_hash none = true
is_optional_hash (some s) = is_hash s

-- `metadata?.successor_revision_id`.
abbrev property : String → Fields → Value
property k end = undefined
property k (field j v fs) = if str_eq j k then v else property k fs

unfoldable pub successor_id : Value → Value
successor_id (obj fs) = property "successor_revision_id" fs
successor_id _ = undefined
