-- ===== src/Routing/Tests.antt =====
-- src/copilot/first-line-routing-planner.mjs: the theorems at concrete snapshots.
use babypark_integration.Base.{
  ℕ, ◌≡◌, refl, inl, true, false, none, some, List, [], ◌∷◌, ok, ◌>>=◌, arith,
}
use babypark_integration.Routing.Snapshot.{
  customer_message, babypark_public_reply, human_public_reply, incoming, outgoing, contact,
  configured_agent_bot, other_sender, text, input_select, clarify, confirmed, Action, Entry,
  ActiveEpisode, Snapshot, open_turn, after_confirmed_babypark_reply, ownership_blocker,
  confirmed_clarification_original_basis,
}
use babypark_integration.Routing.Planner.{
  supported_customer_event, supported_neutral_template, supported_confirmed_reply, is_snapshot,
  is_suffix, turn_of, result, unprovable, open_turn_of, project_open_turn,
  project_confirmed_clarification_basis, walk, stop, stop_reply,
}
use babypark_integration.Routing.Walk.{customers}
use babypark_integration.Routing.OpenTurn.{
  IsOpenTurn, open_turn_sound, open_turn_after_reply, blocked_after,
}
use babypark_integration.Routing.Clarified.{IsClarified}
use babypark_integration.Routing.Basis.{IsBasisTurn, basis_turn}

abbrev message : ℕ → Entry
message n = record {
  event = record {
    event_seq = n;
    source_message_id = 100;
    event_kind = customer_message;
    message_type = incoming;
    sender_class = contact;
    sender_id = some 5;
    deleted = false;
    unsupported = false;
    has_attachments = false;
    content_type = text;
    source_id = none;
  };
  confirmed_babypark_action = none;
}

abbrev sent : Action
sent = record {
  action_id = "a1";
  action_type = clarify;
  state = confirmed;
  prepared_stream_revision = 3;
  stream_id = "s1";
  episode_id = "e1";
  basis_event_seqs = 1 ∷ [];
}

abbrev reply : ℕ → Entry
reply n = record {
  event = record (message n).event {
    event_kind = babypark_public_reply;
    message_type = outgoing;
    sender_class = configured_agent_bot;
    content_type = input_select;
    source_id = some "a1";
  };
  confirmed_babypark_action = some sent;
}

abbrev from_human : ℕ → Entry
from_human n = record (message n) {
  event = record (message n).event {
    event_kind = human_public_reply;
    message_type = outgoing;
    sender_class = other_sender "user";
  };
}

abbrev conversation : List Entry → Snapshot
conversation es = record {
  certified = true;
  schema = "bp.first-line.routing-snapshot/1";
  stream = record {
    stream_id = "s1";
    source_conversation_id = 7;
    stream_revision = 3;
    last_event_seq = 3;
    source_provider = "chatwoot";
  };
  event_suffix = es;
  routing_ledger_fingerprint =
      "sha256:0123456789abcdef0123456789abcdef0123456789abcdef0123456789abcdef";
  suffix_truncated = false;
  max_open_turn_events = 999;
  active_episode =
      some (record {
        episode_id = "e1";
        version = 2;
        is_active = true;
        clarification_prompts_sent = 1;
      });
  live_public_action = none;
  clarification_action = none;
  confirmed_clarification_action = some sent;
}

abbrev answered : Snapshot
answered = conversation (message 1 ∷ reply 2 ∷ message 3 ∷ [])

open_turn_after_reply_example :
    project_open_turn answered
    ≡ ok (
        result answered open_turn after_confirmed_babypark_reply
          (some (turn_of (customers (message 3 ∷ []))))
          (some (reply 2)))
unfolding is_snapshot is_suffix supported_customer_event supported_neutral_template
    supported_confirmed_reply customers
open_turn_after_reply_example =
    open_turn_after_reply answered (message 1 ∷ []) (message 3 ∷ []) (reply 2) sent refl refl refl
      (refl, tt) (omega arith) (omega arith) refl refl refl

open_turn_sound_example : IsOpenTurn answered (
    result answered open_turn after_confirmed_babypark_reply
      (some (turn_of (message 3 ∷ [])))
      (some (reply 2)))
unfolding project_open_turn walk stop stop_reply open_turn_of result supported_customer_event
    supported_neutral_template supported_confirmed_reply
open_turn_sound_example =
    open_turn_sound answered
      (result answered open_turn after_confirmed_babypark_reply (some (turn_of (message 3 ∷ [])))
        (some (reply 2)))
      refl refl

abbrev taken_over : Snapshot
taken_over = conversation (message 1 ∷ from_human 2 ∷ message 3 ∷ [])

blocked_after_example :
    project_open_turn taken_over
    ≡ ok (unprovable taken_over ownership_blocker (some (from_human 2)))
unfolding is_snapshot is_suffix supported_customer_event supported_neutral_template customers
blocked_after_example =
    blocked_after taken_over (message 1 ∷ []) (message 3 ∷ []) (from_human 2) refl refl refl
      (refl, tt) (omega arith) (inl refl)

basis_turn_example :
    (episode : ActiveEpisode) × (a : Action) × (answered.active_episode ≡ some episode)
    × (answered.confirmed_clarification_action ≡ some a)
    × IsClarified answered episode a
    × IsBasisTurn answered.event_suffix
        (result answered open_turn confirmed_clarification_original_basis
          (some (turn_of (message 1 ∷ [])))
          none)
        a.basis_event_seqs
unfolding project_confirmed_clarification_basis ◌>>=◌
basis_turn_example =
    basis_turn answered
      (result answered open_turn confirmed_clarification_original_basis
        (some (turn_of (message 1 ∷ []))) none)
      refl
