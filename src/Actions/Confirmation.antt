-- ===== src/Actions/Confirmation.antt =====
-- src/copilot/first-line-state-store.mjs, lines 119 to 146, 3364 to 3489 and 4908 to 4956: a message that has
-- arrived, and the recovery barrier.
use babypark_integration.Base.{
  ℕ, ◌+◌, Bool, true, false, ◌&&◌, ◌||◌, not, Option, none, some, List, [], ◌∷◌, ◌++◌, String,
  str_eq, ltb, leb, ◌==◌, if◌then◌else◌, any, is_none, is_some, length, Result, ok, err, ◌>>=◌,
  ◌>>◌, fail_if,
}
use babypark_integration.Actions.Tables.{
  Stream, Event, State, confirmed, Action, Owner, was_confirmed, ConfirmationCut, Barrier, Db,
  Origin,
}
use babypark_integration.Actions.Queries.{
  equals_text, is_by_action, is_confirmed, is_handoff, is_withdrawn, is_in_flight, is_own_reply,
  is_public_action, is_open, owns, find_stream, find_origin, find_owner,
}
use babypark_integration.Actions.Owners.{replies_of}
use babypark_integration.Actions.Lifecycle.{Connection}
use babypark_integration.Actions.Writes.{
  Error, action_state_invalid, source_id_ambiguous, confirmation_invalid, recovery_barrier_stale,
  stale_write, db_corrupt, abort, update_owners, write_action,
}
use babypark_integration.Actions.Sending.{read_action}

-- The reply of the action in the events of its stream, up to that number.
abbrev is_reply : ConfirmationCut → Action → Event → Bool
is_reply c a e =
    str_eq e.stream_id c.stream_id
    && equals_text e.source_id c.action_id
    && is_own_reply e.event_kind
    && ltb a.prepared_stream_revision e.event_seq
    && leb e.event_seq c.confirmed_through_event_seq

-- `public_action_confirmation_cuts_validate_insert_v4`.
unfoldable pub admits_cut : Db → ConfirmationCut → Bool
unfolding replies_of
admits_cut db c =
    any
      (λ (a : Action).
        str_eq a.action_id c.action_id
        && str_eq a.stream_id c.stream_id
        && is_in_flight a.state
        && is_some a.send_started_at
        && any
            (λ (s : Stream).
              str_eq s.stream_id a.stream_id
              && s.last_event_seq == c.confirmed_through_event_seq
              && s.stream_revision == s.last_event_seq)
            db.streams
        && any (owns a) db.owners
        && length (replies_of c.stream_id c.action_id db.events) == 1
        && any (is_reply c a) db.events)
      db.actions

-- `INSERT INTO public_action_confirmation_cuts`, with the key of the table.
unfoldable pub insert_cut : ConfirmationCut → Db → Result Error Db
unfolding admits_cut
insert_cut c db = do
  fail_if (not (admits_cut db c)) abort
  fail_if (any (λ (k : ConfirmationCut). str_eq k.action_id c.action_id) db.cuts) abort
  ok (record db { cuts = db.cuts ++ c ∷ [] })

-- The row with the proof of arrival only, and the row of a confirmed action.
abbrev pub proved : ℕ → Event → Action → Action
proved at e a = record a {
  confirmed_source_message_id = some e.source_message_id;
  confirmed_at = some at;
  updated_at = at;
}

abbrev pub arrived_at : ℕ → Event → Action → Action
arrived_at at e a = record a {
  state = confirmed;
  confirmed_source_message_id = some e.source_message_id;
  confirmed_at = some at;
  lease_token = none;
  lease_expires_at = none;
  updated_at = at;
}

abbrev pub concluded : ℕ → Owner → Owner
concluded at o = record o {
  terminal_outcome = some was_confirmed;
  terminal_at = some at;
  updated_at = at;
}

-- `UPDATE continuation_owners SET terminal_outcome='CONFIRMED'`.
unfoldable pub conclude_owner : Connection → ℕ → Action → Db → Result Error Db
unfolding update_owners
conclude_owner c at a db = do
  owners ← update_owners c db (owns a) (concluded at) db.owners
  fail_if (not (any (owns a) db.owners)) stale_write
  ok (record db { owners = owners })

abbrev stream_or_corrupt : Option Stream → Result Error Stream
stream_or_corrupt none = err db_corrupt
stream_or_corrupt (some s) = ok s

-- The normal confirmation: the cut, the action and its owner.
unfoldable pub confirm_owned : Connection → ℕ → Event → Action → Db → Result Error Db
unfolding insert_cut conclude_owner write_action find_stream
confirm_owned c at e a db = do
  stream ← stream_or_corrupt (find_stream a.stream_id db.streams)
  d ←
      insert_cut
        (record {
          action_id = a.action_id;
          stream_id = a.stream_id;
          confirmed_through_event_seq = stream.last_event_seq;
          created_at = at;
        })
        db
  fail_if (not (is_in_flight a.state)) stale_write
  g ← write_action c a (arrived_at at e a) d
  conclude_owner c at a g

abbrev may_accept : State → Bool
may_accept s = is_in_flight s || is_handoff s || is_withdrawn s

abbrev is_origin_action : Action → Option Origin → Bool
is_origin_action a none = false
is_origin_action a (some o) = is_public_action o.origin_kind && equals_text o.action_id a.action_id

abbrev owner_of : Action → Option Owner → Result Error Owner
owner_of a none = err db_corrupt
owner_of a (some o) = if equals_text o.action_id a.action_id then ok o else err db_corrupt

-- What is checked of the one event that has the action as its source, and of the action, and what is
-- written then.
unfoldable pub confirm_with : ℕ → ℕ → Event → Action → Db → Result Error Db
unfolding confirm_owned find_origin find_owner write_action
confirm_with at now e a db = do
  fail_if (not (is_own_reply e.event_kind)) confirmation_invalid
  fail_if (leb e.event_seq a.prepared_stream_revision) confirmation_invalid
  fail_if (not (is_origin_action a (find_origin a.stream_id a.prepared_stream_revision db.origins)))
      db_corrupt
  o ← owner_of a (find_owner a.stream_id a.prepared_stream_revision db.owners)
  fail_if (is_none a.send_started_at) confirmation_invalid
  fail_if (is_by_action o.owner_kind && not (is_in_flight a.state)) action_state_invalid
  if not (is_by_action o.owner_kind)
      then write_action (record { now = now; token = none }) a (proved at e a) db
      else (do
        fail_if (not (is_open o.terminal_outcome)) action_state_invalid
        confirm_owned (record { now = now; token = none }) at e a db)

-- The outcome: nothing is written where there is no such event.
unfoldable pub confirm_from : ℕ → ℕ → Action → List Event → Db → Result Error (Db × Bool)
unfolding confirm_with
confirm_from at now a [] db = ok (db, false)
confirm_from at now a (e ∷ []) db = do d ← confirm_with at now e a db; ok (d, true)
confirm_from at now a (e ∷ f ∷ es) db = err source_id_ambiguous

module _ (is_intact : Db → String → Bool) where
  -- `confirmPublicActionFromLedger`.
  unfoldable pub confirm_public_action_from_ledger : ℕ → ℕ → String → Db → Result Error (Db × Bool)
  unfolding read_action confirm_from replies_of
  confirm_public_action_from_ledger at now id db = do
    a ← read_action is_intact id db
    if is_confirmed a.state then ok (db, true) else (do
      fail_if (not (may_accept a.state)) action_state_invalid
      r ← confirm_from at now a (replies_of a.stream_id id db.events) db
      _ ← if r.1 then read_action is_intact id r.0 else ok a
      ok r)

abbrev is_pending : Barrier → Bool
is_pending b = is_none b.completed_at

-- `SELECT * FROM recovery_barriers WHERE completed_at IS NULL`, at most one row by its index.
unfoldable pub active_barrier : List Barrier → Option Barrier
active_barrier [] = none
active_barrier (b ∷ bs) = if is_pending b then some b else active_barrier bs

abbrev pub max_epoch : List Barrier → ℕ
max_epoch [] = 0
max_epoch (b ∷ bs) = if ltb (max_epoch bs) b.recovery_epoch then b.recovery_epoch else max_epoch bs

-- `enterRecoveryBarrier`.
unfoldable pub enter_recovery_barrier : ℕ → String → Db → Db
unfolding active_barrier
enter_recovery_barrier at why db = elim (active_barrier db.barriers) [
  | some b ↦ db
  | none ↦ record db {
    barriers =
        db.barriers
        ++ record {
          recovery_epoch = max_epoch db.barriers + 1;
          reason = why;
          entered_at = at;
          completed_at = none;
        }
          ∷ [];
  }
]

unfoldable pub complete_epoch : ℕ → ℕ → List Barrier → List Barrier
complete_epoch at epoch [] = []
complete_epoch at epoch (b ∷ bs) =
    (if b.recovery_epoch == epoch && is_pending b then record b { completed_at = some at } else b)
    ∷ complete_epoch at epoch bs

-- `completeRecoveryBarrier`.
unfoldable pub complete_recovery_barrier : ℕ → ℕ → Db → Result Error Db
unfolding active_barrier complete_epoch
complete_recovery_barrier at epoch db =
    fail_if
      (elim (active_barrier db.barriers) [ none ↦ true | some b ↦ not (b.recovery_epoch == epoch) ])
      recovery_barrier_stale
    >> ok (record db { barriers = complete_epoch at epoch db.barriers })
