-- ===== src/Actions/Samples.antt =====
-- src/copilot/first-line-state-store.mjs: a database in which an action is claimed, sent and answered, and runs on it.
use babypark_integration.Base.{
  ◌+◌, ℕ, ◌≡◌, refl, Bool, true, false, Option, none, some, [], ◌∷◌, String, ok, ◌>>=◌, ◌>>◌,
  fail_if,
}
use babypark_integration.Actions.Tables.{
  Body, Stream, Event, customer_message, babypark_public_reply, Episode, active, Action, answer,
  prepared, stale, public_action, Owner, by_action, superseded, Db,
}
use babypark_integration.Actions.Queries.{
  find_origin, has_owner, has_descriptor, has_origin, find_stream, find_owner, find_episode,
  find_action,
}
use babypark_integration.Actions.Triggers.{
  admits_claim, is_current, has_episode, is_admitted, admits_sending, is_at_revision,
  admits_withdrawal, admits_handoff, admits, admits_event,
}
use babypark_integration.Actions.Lifecycle.{
  Connection, keeps_semantics, may_follow, has_cut, has_shape, is_monotonic,
}
use babypark_integration.Actions.Owners.{
  is_owner_row, keeps_owner, admits_escalation, admits_supersession, replies_of,
  admits_confirmation, admits_resolution, admits_owner,
}
use babypark_integration.Actions.Writes.{
  update_owners, is_past_revision, active_version, release_owners, settle, settle_owner,
  replace_action, write_action, in_flight, parents_of, all_parents, admits_parent, insert_parents,
  defer_to, defer_customer, advance_stream, with_streams_of, insert_event,
}
use babypark_integration.Actions.Sending.{
  check_send, check_episode, active_episode, claimed, sent, require_stream, read_action,
  mark_action_sending,
}
use babypark_integration.Actions.Withdrawal.{
  withdrawn, attach_human_to_unsent_action, supersede_unsent_action, release_clarification,
  finish_at, finish_action_before_send,
}
use babypark_integration.Actions.Confirmation.{
  concluded, confirm_public_action_from_ledger, confirm_from, confirm_with, confirm_owned,
  insert_cut, admits_cut, conclude_owner, arrived_at,
}
use babypark_integration.Actions.Steps.{Steps, none_left, next}
use babypark_integration.Actions.Ingest.{ingest_conversation_event}
use babypark_integration.Actions.Gate.{
  Snapshot, ready_to_send, last_by_source, basis_flaw, find_seq, basis_events, ingest_all,
  after_send, try_send, decide, gate_after,
}

abbrev pub stream : Stream
stream = record {
  stream_id = "stream";
  source_provider = "chatwoot";
  source_conversation_id = 7;
  stream_revision = 1;
  last_event_seq = 1;
  scan_highwater = none;
  created_at = 10;
  updated_at = 20;
}

abbrev pub plain : Body
plain = record {
  message_type = "incoming";
  sender_class = "contact";
  sender_id = some 9;
  content_type = some "text";
  deleted = false;
  unsupported = false;
  has_attachments = false;
}

abbrev pub question : Event
question = record {
  stream_id = "stream";
  event_seq = 1;
  source_message_id = 501;
  event_kind = customer_message;
  source_id = none;
  accepted_at = 20;
  body = plain;
}

abbrev pub follow_up : Event
follow_up = record question { event_seq = 2; source_message_id = 502; accepted_at = 105 }

abbrev pub reply : Event
reply = record {
  stream_id = "stream";
  event_seq = 2;
  source_message_id = 503;
  event_kind = babypark_public_reply;
  source_id = some "action";
  accepted_at = 120;
  body = plain;
}

abbrev pub episode : Episode
episode = record {
  episode_id = "episode";
  stream_id = "stream";
  state = active;
  version = 1;
  clarification_prompts_sent = 0;
  requested_slot = none;
  clarification_action_id = none;
  created_at = 20;
  updated_at = 20;
  closed_at = none;
  close_reason = none;
}

abbrev pub fresh : Action
fresh = record {
  action_id = "action";
  stream_id = "stream";
  episode_id = some "episode";
  episode_version = some 1;
  prepared_stream_revision = 1;
  action_type = answer;
  state = prepared;
  basis_event_seqs = 1 ∷ [];
  requested_slot = none;
  lease_token = none;
  lease_expires_at = none;
  attempts = 0;
  deadline_at = 1000;
  confirmed_source_message_id = none;
  terminal_reason = none;
  created_at = 30;
  updated_at = 30;
  send_started_at = none;
  confirmed_at = none;
}

abbrev pub owner : Owner
owner = record {
  stream_id = "stream";
  stream_revision = 1;
  owner_kind = by_action;
  action_id = some "action";
  episode_id = some "episode";
  episode_version = some 1;
  human_reason = none;
  terminal_outcome = none;
  updated_at = 30;
  terminal_at = none;
}

abbrev pub start : Db
start = record {
  streams = stream ∷ [];
  events = question ∷ [];
  episodes = episode ∷ [];
  actions = fresh ∷ [];
  origins =
      record {
        stream_id = "stream";
        stream_revision = 1;
        origin_kind = public_action;
        action_id = some "action";
      }
      ∷ [];
  owners = owner ∷ [];
  descriptors = record { action_id = "action"; stream_id = "stream" } ∷ [];
  latches = [];
  cuts = [];
  takeover_cuts = [];
  human_cuts = [];
  deferred = [];
  barriers = [];
}

abbrev pub in_lease : Action
in_lease = claimed 100 50 "token" fresh

abbrev pub on_the_way : Action
on_the_way = sent 110 in_lease

abbrev pub arrived : Action
arrived = arrived_at 130 reply on_the_way

-- The database with the cut of the confirmation.
abbrev pub cut : Db
cut = record start {
  cuts =
      record {
        action_id = "action";
        stream_id = "stream";
        confirmed_through_event_seq = 2;
        created_at = 130;
      }
      ∷ [];
}

abbrev pub all_intact : Db → String → Bool
all_intact db id = true

abbrev pub connection : ℕ → Option String → Connection
connection t token = record { now = t; token = token }

-- The database while the lease runs, and after another question has arrived.
abbrev pub held : Db
held = record start { actions = in_lease ∷ [] }

abbrev pub moved : Db
moved = record held {
  events = question ∷ follow_up ∷ [];
  streams = record stream { stream_revision = 2; last_event_seq = 2; updated_at = 105 } ∷ [];
}

pub arriving : insert_event follow_up held ≡ ok moved
unfolding insert_event admits_event defer_customer defer_to in_flight all_parents parents_of
    admits_parent insert_parents advance_stream with_streams_of ◌>>=◌ ◌>>◌ fail_if
arriving = refl

abbrev pub overtaken : Action
overtaken = withdrawn stale "overtaken" 120 in_lease

pub overtaking : admits (connection 120 none) moved in_lease overtaken ≡ true
unfolding keeps_semantics may_follow has_cut has_shape is_monotonic admits_claim has_owner
    has_descriptor has_origin is_current has_episode is_admitted admits_sending is_at_revision
    admits_withdrawal admits_handoff admits
overtaking = refl

abbrev pub touched : Action
touched = record arrived { updated_at = 140 }

pub touching : admits (connection 140 none) cut arrived touched ≡ true
unfolding keeps_semantics may_follow has_cut has_shape is_monotonic admits_claim has_owner
    has_descriptor has_origin is_current has_episode is_admitted admits_sending is_at_revision
    admits_withdrawal admits_handoff admits
touching = refl

abbrev pub superseded_owner : Owner
superseded_owner = record owner {
  terminal_outcome = some superseded;
  terminal_at = some 120;
  updated_at = 120;
}

abbrev pub after : Db
after = record moved { actions = overtaken ∷ []; owners = superseded_owner ∷ [] }

pub finishing :
    finish_action_before_send all_intact 120 120 "action" stale "overtaken" none moved ≡ ok after
unfolding finish_action_before_send finish_at supersede_unsent_action attach_human_to_unsent_action
    read_action require_stream find_stream find_owner find_episode find_action release_clarification
    write_action settle_owner settle release_owners update_owners is_past_revision active_version
    replace_action admits_owner is_owner_row keeps_owner admits_escalation admits_supersession
    admits_confirmation admits_resolution replies_of keeps_semantics may_follow has_cut has_shape
    is_monotonic admits_claim has_owner has_descriptor has_origin is_current has_episode is_admitted
    admits_sending is_at_revision admits_withdrawal admits_handoff admits ◌>>=◌ ◌>>◌ fail_if
finishing = refl

pub delivery : Steps fresh arrived 1
unfolding keeps_semantics may_follow has_cut has_shape is_monotonic admits_claim has_owner
    has_descriptor has_origin is_current has_episode is_admitted admits_sending is_at_revision
    admits_withdrawal admits_handoff admits
delivery = next {b = in_lease} (connection 100 (some "token")) start refl (
    next {b = on_the_way} (connection 110 (some "token")) start refl
      (next (connection 130 none) cut refl none_left))

abbrev pub sends : ℕ
sends = 1

abbrev pub history : Snapshot
history = record {
  complete = true;
  code = "COMPLETE";
  row_count = 1;
  events =
      record {
        source_message_id = 501;
        event_kind = customer_message;
        source_id = none;
        body = plain;
      }
      ∷ [];
}

abbrev pub clock : ℕ → ℕ
clock n = 110 + n

abbrev pub let_go : Db
let_go = record held { actions = sent 111 in_lease ∷ [] }

pub going :
    gate_after all_intact all_intact clock "stream" "action" "token" history held
    ≡ ok (let_go, ready_to_send 0)
unfolding gate_after ingest_all ingest_conversation_event require_stream find_stream decide
    read_action find_action basis_events find_seq basis_flaw last_by_source try_send after_send
    mark_action_sending check_send find_origin find_owner active_episode check_episode write_action
    settle_owner replace_action keeps_semantics may_follow has_cut has_shape is_monotonic
    admits_claim has_owner has_descriptor has_origin is_current has_episode is_admitted
    admits_sending is_at_revision admits_withdrawal admits_handoff admits ◌>>=◌ ◌>>◌ fail_if
going = refl

-- The reply has arrived in the ledger, and is confirmed.
abbrev pub answered : Db
answered = record start {
  actions = on_the_way ∷ [];
  events = question ∷ reply ∷ [];
  streams = record stream { stream_revision = 2; last_event_seq = 2; updated_at = 120 } ∷ [];
}

abbrev pub closed : Db
closed = record answered {
  actions = arrived ∷ [];
  owners = concluded 130 owner ∷ [];
  cuts =
      record {
        action_id = "action";
        stream_id = "stream";
        confirmed_through_event_seq = 2;
        created_at = 130;
      }
      ∷ [];
}

pub confirming :
    confirm_public_action_from_ledger all_intact 130 130 "action" answered ≡ ok (closed, true)
unfolding confirm_public_action_from_ledger read_action find_action confirm_from confirm_with
    confirm_owned find_stream insert_cut admits_cut conclude_owner update_owners admits_owner
    is_owner_row keeps_owner admits_escalation admits_supersession admits_confirmation
    admits_resolution replies_of find_origin find_owner write_action settle_owner replace_action
    keeps_semantics may_follow has_cut has_shape is_monotonic admits_claim has_owner has_descriptor
    has_origin is_current has_episode is_admitted admits_sending is_at_revision admits_withdrawal
    admits_handoff admits ◌>>=◌ ◌>>◌ fail_if
confirming = refl
