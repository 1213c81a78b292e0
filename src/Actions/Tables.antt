-- ===== src/Actions/Tables.antt =====
-- src/copilot/first-line-state-store.mjs, lines 90 to 118, 354 to 444, 482 to 493 and 1498 to 1608: the
-- tables that the lifecycle of a public action reads. Columns with JSON hold the value itself; a nullable
-- column is an option. Events, candidates, slots, provenance, legacy markers and acknowledgements are
-- left out where no statement of this part reads them.
use babypark_integration.Base.{ℕ, Bool, Option, List, String}

pub record Stream : Type 0 where
  pub stream_id : String
  pub source_provider : String
  pub source_conversation_id : ℕ
  pub stream_revision : ℕ
  pub last_event_seq : ℕ
  pub scan_highwater : Option ℕ
  pub created_at : ℕ
  pub updated_at : ℕ

pub data EventKind : Type 0 where
  customer_message babypark_public_reply human_public_reply other_bot_public_reply : EventKind
  system_template automation_public unknown_public : EventKind

-- The columns of an event that no trigger reads.
pub record Body : Type 0 where
  pub message_type : String
  pub sender_class : String
  pub sender_id : Option ℕ
  pub content_type : Option String
  pub deleted : Bool
  pub unsupported : Bool
  pub has_attachments : Bool

pub record Event : Type 0 where
  pub stream_id : String
  pub event_seq : ℕ
  pub source_message_id : ℕ
  pub event_kind : EventKind
  pub source_id : Option String
  pub accepted_at : ℕ
  pub body : Body

pub data EpisodeState : Type 0 where
  active closed : EpisodeState

pub record Episode : Type 0 where
  pub episode_id : String
  pub stream_id : String
  pub state : EpisodeState
  pub version : ℕ
  pub clarification_prompts_sent : ℕ
  pub requested_slot : Option String
  pub clarification_action_id : Option String
  pub created_at : ℕ
  pub updated_at : ℕ
  pub closed_at : Option ℕ
  pub close_reason : Option String

pub data ActionType : Type 0 where
  answer clarify : ActionType

pub data State : Type 0 where
  prepared gating sending confirmed stale cancelled uncertain handoff_done not_sent : State

pub record Action : Type 0 where
  pub action_id : String
  pub stream_id : String
  pub episode_id : Option String
  pub episode_version : Option ℕ
  pub prepared_stream_revision : ℕ
  pub action_type : ActionType
  pub state : State
  pub basis_event_seqs : List ℕ
  pub requested_slot : Option String
  pub lease_token : Option String
  pub lease_expires_at : Option ℕ
  pub attempts : ℕ
  pub deadline_at : ℕ
  pub confirmed_source_message_id : Option ℕ
  pub terminal_reason : Option String
  pub created_at : ℕ
  pub updated_at : ℕ
  pub send_started_at : Option ℕ
  pub confirmed_at : Option ℕ

pub data OriginKind : Type 0 where
  public_action direct_human non_actionable_ack : OriginKind

pub record Origin : Type 0 where
  pub stream_id : String
  pub stream_revision : ℕ
  pub origin_kind : OriginKind
  pub action_id : Option String

pub data OwnerKind : Type 0 where
  by_action by_human : OwnerKind

pub data Outcome : Type 0 where
  was_confirmed superseded human_takeover ownership_lost legacy_v3_terminal : Outcome

pub record Owner : Type 0 where
  pub stream_id : String
  pub stream_revision : ℕ
  pub owner_kind : OwnerKind
  pub action_id : Option String
  pub episode_id : Option String
  pub episode_version : Option ℕ
  pub human_reason : Option String
  pub terminal_outcome : Option Outcome
  pub updated_at : ℕ
  pub terminal_at : Option ℕ

-- public_action_descriptors, of which only the existence is read here.
pub record Descriptor : Type 0 where
  pub action_id : String
  pub stream_id : String

pub record Latch : Type 0 where
  pub episode_id : String
  pub latch_class : String

pub record ConfirmationCut : Type 0 where
  pub action_id : String
  pub stream_id : String
  pub confirmed_through_event_seq : ℕ
  pub created_at : ℕ

-- public_action_human_cuts, of which only the existence is read here.
pub record TakeoverCut : Type 0 where
  pub action_id : String
  pub stream_id : String

pub record HumanCut : Type 0 where
  pub stream_id : String
  pub stream_revision : ℕ
  pub terminal_outcome : Outcome

pub record DeferredParent : Type 0 where
  pub stream_id : String
  pub event_seq : ℕ
  pub action_id : String
  pub created_at : ℕ

pub record Barrier : Type 0 where
  pub recovery_epoch : ℕ
  pub reason : String
  pub entered_at : ℕ
  pub completed_at : Option ℕ

pub record Db : Type 0 where
  pub streams : List Stream
  pub events : List Event
  pub episodes : List Episode
  pub actions : List Action
  pub origins : List Origin
  pub owners : List Owner
  pub descriptors : List Descriptor
  pub latches : List Latch
  pub cuts : List ConfirmationCut
  pub takeover_cuts : List TakeoverCut
  pub human_cuts : List HumanCut
  pub deferred : List DeferredParent
  pub barriers : List Barrier
