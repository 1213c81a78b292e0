-- ===== src/Actions/Ingest.antt =====
-- src/copilot/first-line-state-store.mjs, lines 3126 to 3221 and 6222 to 6236: the arrival of a message in the
-- ledger. The event is one that `normalizeEvent` has let through.
use babypark_integration.Base.{
  ℕ, ◌+◌, Bool, true, false, ◌&&◌, not, Option, none, some, List, [], ◌∷◌, String, str_eq, ◌==◌,
  if◌then◌else◌, Result, ok, err, ◌>>=◌, ◌>>◌, fail_if, any,
}
use babypark_integration.Actions.Tables.{
  Stream, EventKind, Body, Event, Action, Owner, DeferredParent, Db,
}
use babypark_integration.Actions.Queries.{
  equals_text, is_by_action, is_customer, is_open, find_stream,
}
use babypark_integration.Actions.Writes.{Error, db_corrupt, in_flight, insert_event}
use babypark_integration.Actions.Sending.{assert_autonomous_allowed, require_stream}

pub record Input : Type 0 where
  pub source_message_id : ℕ
  pub event_kind : EventKind
  pub source_id : Option String
  pub body : Body

-- `SELECT * FROM conversation_events WHERE stream_id=? AND source_message_id=?`.
abbrev pub has_source : String → ℕ → Event → Bool
has_source id m e = str_eq e.stream_id id && e.source_message_id == m

-- The row of the event.
abbrev pub row_of : String → ℕ → ℕ → Input → Event
row_of id seq at i = record {
  stream_id = id;
  event_seq = seq;
  source_message_id = i.source_message_id;
  event_kind = i.event_kind;
  source_id = i.source_id;
  accepted_at = at;
  body = i.body;
}

unfoldable pub open_owners : String → List Owner → List Owner
open_owners id [] = []
open_owners id (o ∷ os) =
    if str_eq o.stream_id id && is_open o.terminal_outcome
    then o ∷ open_owners id os
    else open_owners id os

abbrev is_owner_for : Action → Option Owner → Bool
is_owner_for a none = false
is_owner_for a (some o) =
    is_by_action o.owner_kind
    && equals_text o.action_id a.action_id
    && o.stream_revision == a.prepared_stream_revision

abbrev is_human_owner : Option Owner → Bool
is_human_owner none = false
is_human_owner (some o) = not (is_by_action o.owner_kind)

-- `#readUnresolvedOwner`.
abbrev sole_owner : List Owner → Result Error (Option Owner)
sole_owner [] = ok none
sole_owner (o ∷ []) = ok (some o)
sole_owner (o ∷ p ∷ os) = err db_corrupt

abbrev sole_sending : Option Owner → List Action → Result Error (Option String)
sole_sending o [] = ok none
sole_sending o (a ∷ []) = if is_owner_for a o then ok (some a.action_id) else err db_corrupt
sole_sending o (a ∷ b ∷ rest) = err db_corrupt

-- The action that a message of the customer has to wait for.
unfoldable pub deferred_action : String → EventKind → Db → Result Error (Option String)
unfolding open_owners in_flight
deferred_action id k db =
    if is_customer k
    then (do
      o ← sole_owner (open_owners id db.owners)
      if is_human_owner o then ok none else sole_sending o (in_flight id db.actions))
    else ok none

unfoldable pub find_parent : String → ℕ → List DeferredParent → Option String
find_parent id seq [] = none
find_parent id seq (p ∷ ps) =
    if str_eq p.stream_id id && p.event_seq == seq then some p.action_id else find_parent id seq ps

abbrev is_expected : Option String → Option String → Bool
is_expected none none = true
is_expected none (some b) = false
is_expected (some a) none = false
is_expected (some a) (some b) = str_eq b a

abbrev is_advanced : ℕ → Stream → Option Stream → Bool
is_advanced seq old none = false
is_advanced seq old (some s) =
    s.last_event_seq == seq && s.stream_revision == old.stream_revision + 1

-- The part of `ingestConversationEvent` for an event that is new.
unfoldable pub accept_event : ℕ → String → Input → Stream → Db → Result Error Db
unfolding deferred_action insert_event find_parent find_stream
accept_event at id i stream db = do
  waits ← deferred_action id i.event_kind db
  d ← insert_event (row_of id (stream.last_event_seq + 1) at i) db
  fail_if (not (is_advanced (stream.last_event_seq + 1) stream (find_stream id d.streams)))
      db_corrupt
  fail_if (not (is_expected waits (find_parent id (stream.last_event_seq + 1) d.deferred)))
      db_corrupt
  ok d

module _ (is_whole : Db → String → Bool) where
  -- `ingestConversationEvent`; `is_whole` is what the checks of the stored rows of a stream say. The
  -- result says whether a row was inserted.
  unfoldable pub ingest_conversation_event : ℕ → String → Input → Db → Result Error (Db × Bool)
  unfolding require_stream accept_event
  ingest_conversation_event at id i db = do
    stream ← require_stream id db
    if any (has_source id i.source_message_id) db.events
        then (do fail_if (not (is_whole db id)) db_corrupt; ok (db, false))
        else (do
          assert_autonomous_allowed db
          fail_if (not (is_whole db id)) db_corrupt
          d ← accept_event at id i stream db
          ok (d, true))
