-- ===== src/Actions/Writes.antt =====
-- src/copilot/first-line-state-store.mjs: the statements that write public_actions and conversation_events,
-- with the triggers that they fire (lines 520 to 580 and 653 to 892).
use babypark_integration.Base.{
  ℕ, ◌+◌, Bool, true, false, ◌&&◌, ◌||◌, not, Option, none, some, List, [], ◌∷◌, ◌++◌, String,
  str_eq, ltb, ◌==◌, if◌then◌else◌, any, is_none, is_some, length, Result, ok, err, ◌>>=◌, ◌>>◌,
  fail_if,
}
use babypark_integration.Actions.Tables.{
  Stream, Event, Episode, Action, Owner, by_human, superseded, DeferredParent, Db,
}
use babypark_integration.Actions.Queries.{
  equals_text, is_active, is_by_action, is_customer, is_unsent, is_withdrawn, is_in_flight, is_open,
  owns,
}
use babypark_integration.Actions.Owners.{admits_owner}
use babypark_integration.Actions.Triggers.{admits, admits_event, is_at_revision}
use babypark_integration.Actions.Lifecycle.{Connection}

pub data Error : Type 0 where
  value_invalid action_not_found stream_not_found action_state_invalid claim_invalid : Error
  claim_expired deadline_expired stale_revision stale_episode descriptor_missing stale_write : Error
  recovery_barrier_active recovery_barrier_stale source_id_ambiguous confirmation_invalid : Error
  human_continuation_active db_corrupt : Error
  -- What a trigger or a constraint raises.
  abort : Error

-- `UPDATE continuation_owners SET … WHERE …`, with the triggers and constraints of each row that it hits;
-- they read the other tables only.
unfoldable pub update_owners :
    Connection → Db → (Owner → Bool) → (Owner → Owner) → List Owner → Result Error (List Owner)
unfolding admits_owner
update_owners c db p f [] = ok []
update_owners c db p f (o ∷ os) = do
  fail_if (p o && not (admits_owner c db o (f o))) abort
  rest ← update_owners c db p f os
  ok ((if p o then f o else o) ∷ rest)

-- The stream has moved past the revision of the action.
unfoldable pub is_past_revision : Db → Action → Bool
is_past_revision db a =
    any
      (λ (s : Stream).
        str_eq s.stream_id a.stream_id && ltb a.prepared_stream_revision s.stream_revision)
      db.streams

abbrev pub supersede : ℕ → Owner → Owner
supersede at o = record o {
  terminal_outcome = some superseded;
  terminal_at = some at;
  updated_at = at;
}

-- The version of the active episode of an owner.
unfoldable pub active_version : Owner → List Episode → Option ℕ
active_version o [] = none
active_version o (e ∷ es) =
    if equals_text o.episode_id e.episode_id && str_eq e.stream_id o.stream_id && is_active e.state
    then some e.version
    else active_version o es

abbrev pub attach_human : Db → Action → Owner → Owner
attach_human db new o = record o {
  owner_kind = by_human;
  human_reason = new.terminal_reason;
  episode_version = elim o.episode_id [ none ↦ none | some id ↦ active_version o db.episodes ];
  updated_at = new.updated_at;
}

-- The owner of the action, by its key.
abbrev pub is_owner_of : Action → Owner → Bool
is_owner_of a o =
    str_eq o.stream_id a.stream_id
    && o.stream_revision == a.prepared_stream_revision
    && equals_text o.action_id a.action_id

abbrev pub is_settled : Owner → Bool
is_settled o =
    if is_by_action o.owner_kind
    then (elim o.terminal_outcome [ some superseded ↦ true | _ ↦ false ])
    else is_open o.terminal_outcome

-- The two updates of `public_actions_terminal_owner_transition_v4`.
unfoldable pub release_owners : Connection → Db → Action → Result Error (List Owner)
unfolding update_owners is_past_revision active_version
release_owners c db new = do
  released ←
      update_owners c db (λ o. owns new o && is_past_revision db new) (supersede new.updated_at)
        db.owners
  update_owners c db (λ o. owns new o && is_at_revision db new) (attach_human db new) released

-- The body of `public_actions_terminal_owner_transition_v4`.
unfoldable pub settle : Connection → Action → Db → Result Error Db
unfolding release_owners
settle c new db = do
  fail_if (is_none new.terminal_reason) abort
  owners ← release_owners c db new
  fail_if (not (any (λ o. is_owner_of new o && is_settled o) owners)) abort
  ok (record db { owners = owners })

-- `public_actions_terminal_owner_transition_v4`, after an unsent action has become terminal.
unfoldable pub settle_owner : Connection → Action → Action → Db → Result Error Db
unfolding settle
settle_owner c old new db =
    if is_unsent old.state && is_withdrawn new.state then settle c new db else ok db

unfoldable pub replace_action : String → Action → List Action → List Action
replace_action id new [] = []
replace_action id new (a ∷ rest) =
    if str_eq a.action_id id then new ∷ rest else a ∷ replace_action id new rest

-- `UPDATE public_actions SET … WHERE action_id=?`, of the row that `old` is.
unfoldable pub write_action : Connection → Action → Action → Db → Result Error Db
unfolding admits settle_owner replace_action
write_action c old new db =
    fail_if (not (admits c db old new)) abort
    >> settle_owner c old new (record db { actions = replace_action old.action_id new db.actions })

-- The SENDING and UNCERTAIN actions of a stream.
unfoldable pub in_flight : String → List Action → List Action
in_flight id [] = []
in_flight id (a ∷ rest) =
    if str_eq a.stream_id id && is_in_flight a.state
    then a ∷ in_flight id rest
    else in_flight id rest

abbrev pub owned : Db → Action → Bool
owned db a = any (λ o. is_owner_of a o && is_open o.terminal_outcome) db.owners

abbrev parent_of : Event → Action → DeferredParent
parent_of e a = record {
  stream_id = e.stream_id;
  event_seq = e.event_seq;
  action_id = a.action_id;
  created_at = e.accepted_at;
}

-- The parents that `conversation_events_defer_customer_v4` inserts: one for each action whose send began
-- and each owner of its continuation.
unfoldable pub parents_of : Event → Action → List Owner → List DeferredParent
parents_of e a [] = []
parents_of e a (o ∷ os) =
    if is_some a.send_started_at && owns a o
    then parent_of e a ∷ parents_of e a os
    else parents_of e a os

unfoldable pub all_parents : Db → Event → List Action → List DeferredParent
unfolding parents_of
all_parents db e [] = []
all_parents db e (a ∷ rest) = parents_of e a db.owners ++ all_parents db e rest

-- `deferred_event_parents_validate_insert`, and the key of the table.
unfoldable pub admits_parent : Db → DeferredParent → Bool
admits_parent db d =
    any
      (λ (e : Event).
        str_eq e.stream_id d.stream_id && e.event_seq == d.event_seq && is_customer e.event_kind)
      db.events
    && any
        (λ (a : Action).
          str_eq a.action_id d.action_id
          && str_eq a.stream_id d.stream_id
          && is_in_flight a.state
          && is_some a.send_started_at
          && ltb a.prepared_stream_revision d.event_seq)
        db.actions
    && not (
        any (λ (p : DeferredParent). str_eq p.stream_id d.stream_id && p.event_seq == d.event_seq)
          db.deferred)

unfoldable pub insert_parents : List DeferredParent → Db → Result Error Db
unfolding admits_parent
insert_parents [] db = ok db
insert_parents (d ∷ ds) db =
    fail_if (not (admits_parent db d)) abort
    >> insert_parents ds (record db { deferred = db.deferred ++ d ∷ [] })

-- The body of `conversation_events_defer_customer_v4`.
unfoldable pub defer_to : Event → List Action → Db → Result Error Db
unfolding all_parents insert_parents
defer_to e sent db = do
  fail_if (ltb 1 (length sent)) abort
  fail_if (ltb 0 (length sent) && not (any (owned db) sent)) abort
  insert_parents (all_parents db e sent) db

-- `conversation_events_defer_customer_v4`.
unfoldable pub defer_customer : Event → Db → Result Error Db
unfolding in_flight defer_to
defer_customer e db =
    if is_customer e.event_kind then defer_to e (in_flight e.stream_id db.actions) db else ok db

unfoldable pub advance_stream : Event → List Stream → Option (List Stream)
advance_stream e [] = none
advance_stream e (s ∷ ss) =
    let rest = advance_stream e ss in
    if str_eq s.stream_id e.stream_id
    then (if s.last_event_seq + 1 == e.event_seq && s.stream_revision + 1 == e.event_seq
        then some (
            record s {
              last_event_seq = e.event_seq;
              stream_revision = s.stream_revision + 1;
              updated_at = e.accepted_at;
            }
            ∷ ss)
        else none)
    else (elim rest [ none ↦ none | some ss' ↦ some (s ∷ ss') ])

abbrev pub event_clash : Event → Event → Bool
event_clash a b =
    str_eq a.stream_id b.stream_id
    && (a.event_seq == b.event_seq || a.source_message_id == b.source_message_id)

-- The database with the streams, where the trigger found the row to update.
unfoldable pub with_streams_of : Option (List Stream) → Db → Result Error Db
with_streams_of none db = err abort
with_streams_of (some streams) db = ok (record db { streams = streams })

-- `INSERT INTO conversation_events`, with the keys of the table and its triggers. The guard on the
-- update of the stream holds of the update that `conversation_events_advance_stream_v4` makes.
unfoldable pub insert_event : Event → Db → Result Error Db
unfolding admits_event defer_customer advance_stream with_streams_of
insert_event e db = do
  fail_if (not (admits_event db e)) abort
  fail_if (any (event_clash e) db.events) abort
  db' ← defer_customer e (record db { events = db.events ++ e ∷ [] })
  with_streams_of (advance_stream e db'.streams) db'
