-- ===== src/Routing/Snapshot.antt =====
-- src/copilot/first-line-routing-planner.mjs: what a routing snapshot holds, and what a projection
-- returns. Numbers are natural numbers here; the tests for `undefined`, arrays and other types are
-- the types of the fields. A text that the planner only compares with constants is a data type.
use babypark_integration.Base.{ℕ, Bool, Option, List, String}

pub data EventKind : Type 0 where
  customer_message system_template babypark_public_reply human_public_reply : EventKind
  other_bot_public_reply automation_public unknown_public : EventKind
  other_kind : String → EventKind

pub data MessageType : Type 0 where
  incoming outgoing template : MessageType
  other_type : String → MessageType

pub data SenderClass : Type 0 where
  contact no_sender configured_agent_bot : SenderClass
  other_sender : String → SenderClass

pub data ContentType : Type 0 where
  text input_email input_csat input_select : ContentType
  other_content : String → ContentType

pub record Event : Type 0 where
  pub event_seq : ℕ
  pub source_message_id : ℕ
  pub event_kind : EventKind
  pub message_type : MessageType
  pub sender_class : SenderClass
  pub sender_id : Option ℕ
  pub deleted : Bool
  pub unsupported : Bool
  pub has_attachments : Bool
  pub content_type : ContentType
  pub source_id : Option String

pub data ActionType : Type 0 where
  answer clarify : ActionType
  other_action : String → ActionType

pub data ActionState : Type 0 where
  confirmed : ActionState
  other_state : String → ActionState

pub record Action : Type 0 where
  pub action_id : String
  pub action_type : ActionType
  pub state : ActionState
  pub prepared_stream_revision : ℕ
  pub stream_id : String
  pub episode_id : String
  pub basis_event_seqs : List ℕ

pub record Entry : Type 0 where
  pub event : Event
  pub confirmed_babypark_action : Option Action

pub record Stream : Type 0 where
  pub stream_id : String
  pub source_conversation_id : ℕ
  pub stream_revision : ℕ
  pub last_event_seq : ℕ
  pub source_provider : String

pub record ActiveEpisode : Type 0 where
  pub episode_id : String
  pub version : ℕ
  pub is_active : Bool
  pub clarification_prompts_sent : ℕ

-- `certified` is membership in the set of the snapshots that the state store has made.
pub record Snapshot : Type 0 where
  pub certified : Bool
  pub schema : String
  pub stream : Stream
  pub event_suffix : List Entry
  pub routing_ledger_fingerprint : String
  pub suffix_truncated : Bool
  pub max_open_turn_events : ℕ
  pub active_episode : Option ActiveEpisode
  pub live_public_action : Option Action
  pub clarification_action : Option Action
  pub confirmed_clarification_action : Option Action

pub data Error : Type 0 where
  input_invalid basis_unavailable : Error

pub data Code : Type 0 where
  topology_unprovable no_open_turn open_turn : Code

pub data Reason : Type 0 where
  routing_suffix_limit no_accepted_events unsupported_system_template : Reason
  unsupported_customer_event open_turn_event_limit unconfirmed_babypark_reply : Reason
  unsupported_confirmed_babypark_reply after_confirmed_babypark_reply : Reason
  confirmed_babypark_reply_last ownership_blocker unknown_event_kind : Reason
  no_customer_event from_stream_start confirmed_clarification_original_basis : Reason

pub record PlanToken : Type 0 where
  pub stream_id : String
  pub stream_revision : ℕ
  pub through_event_seq : ℕ
  pub routing_ledger_fingerprint : String
  pub episode_id : Option String
  pub episode_version : Option ℕ
  pub live_action_id : Option String
  pub live_action_state : Option ActionState

pub record Boundary : Type 0 where
  pub event_seq : ℕ
  pub source_message_id : ℕ
  pub event_kind : EventKind
  pub confirmed_action_id : Option String
  pub confirmed_action_type : Option ActionType

pub record OpenTurn : Type 0 where
  pub event_seqs : List ℕ
  pub source_message_ids : List ℕ
  pub first_event_seq : ℕ
  pub last_event_seq : ℕ
  pub message_count : ℕ

-- The planner registers each projection that it returns as certified.
pub record Projection : Type 0 where
  pub stream_id : String
  pub source_conversation_id : ℕ
  pub stream_revision : ℕ
  pub through_event_seq : ℕ
  pub plan_token : PlanToken
  pub active_episode : Option ActiveEpisode
  pub live_public_action : Option Action
  pub clarification_action : Option Action
  pub confirmed_clarification_action : Option Action
  pub code : Code
  pub reason : Reason
  pub turn : Option OpenTurn
  pub boundary : Option Boundary
