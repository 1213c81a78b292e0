-- ===== src/Actions/Gate.antt =====
-- src/copilot/first-line-public-action-gate.mjs: the last checks before a public reply is sent, over the methods
-- of the store. What the conversation's source answers is an argument; the database may have changed
-- since the caller asked it. `time` is the clock at each of its readings.
use babypark_integration.Base.{
  ℕ, suc, ◌+◌, Bool, true, false, ◌&&◌, not, Option, none, some, List, [], ◌∷◌, String, str_eq,
  ◌==◌, if◌then◌else◌, length, order_by, Result, ok, err, ◌>>=◌, ◌>>◌, fail_if,
}
use babypark_integration.Actions.Tables.{EventKind, Event, Stream, Db}
use babypark_integration.Actions.Queries.{
  is_same_text, is_same_number, is_gating, find_stream, find_action, equals_text,
}
use babypark_integration.Actions.Writes.{Error, stale_revision, stale_episode, deadline_expired}
use babypark_integration.Actions.Sending.{mark_action_sending, read_action, require_stream}
use babypark_integration.Actions.Withdrawal.{mark_action_stale_before_send}
use babypark_integration.Actions.Ingest.{Input, ingest_conversation_event}

pub record Snapshot : Type 0 where
  pub complete : Bool
  pub code : String
  pub row_count : ℕ
  pub events : List Input

pub data Reason : Type 0 where
  covered_source_missing covered_source_deleted covered_source_reclassified : Reason
  stream_revision_changed episode_changed_before_sending deadline_expired_before_sending : Reason
  stream_revision_changed_before_sending : Reason

abbrev reason_text : Reason → String
reason_text covered_source_missing = "covered_source_missing"
reason_text covered_source_deleted = "covered_source_deleted"
reason_text covered_source_reclassified = "covered_source_reclassified"
reason_text stream_revision_changed = "stream_revision_changed"
reason_text episode_changed_before_sending = "episode_changed_before_sending"
reason_text deadline_expired_before_sending = "deadline_expired_before_sending"
reason_text stream_revision_changed_before_sending = "stream_revision_changed_before_sending"

pub data Answer : Type 0 where
  history_unprovable : Answer
  went_stale : ℕ → Reason → Answer
  ready_to_send : ℕ → Answer

-- The errors of the gate itself, and those of the store.
pub data GateError : Type 0 where
  not_found not_gating not_held not_bound basis_missing : GateError
  from_store : Error → GateError

abbrev pub kind_name : EventKind → String
kind_name EventKind.customer_message = "CUSTOMER_MESSAGE"
kind_name EventKind.babypark_public_reply = "BABYPARK_PUBLIC_REPLY"
kind_name EventKind.human_public_reply = "HUMAN_PUBLIC_REPLY"
kind_name EventKind.other_bot_public_reply = "OTHER_BOT_PUBLIC_REPLY"
kind_name EventKind.system_template = "SYSTEM_TEMPLATE"
kind_name EventKind.automation_public = "AUTOMATION_PUBLIC"
kind_name EventKind.unknown_public = "UNKNOWN_PUBLIC"

abbrev is_same_flag : Bool → Bool → Bool
is_same_flag true b = b
is_same_flag false b = not b

-- Where the source still says of the message what the ledger has.
abbrev pub is_unchanged : Event → Input → Bool
is_unchanged e i =
    str_eq (kind_name i.event_kind) (kind_name e.event_kind)
    && str_eq i.body.message_type e.body.message_type
    && str_eq i.body.sender_class e.body.sender_class
    && is_same_number i.body.sender_id e.body.sender_id
    && is_same_text i.body.content_type e.body.content_type
    && is_same_flag i.body.unsupported e.body.unsupported
    && is_same_flag i.body.has_attachments e.body.has_attachments
    && is_same_text i.source_id e.source_id

-- `snapshotBySource.get`, of a map in which the last of two events with one id stands.
unfoldable pub last_by_source : ℕ → List Input → Option Input
last_by_source m [] = none
last_by_source m (i ∷ is) =
    let later = last_by_source m is in
    elim later [ some j ↦ some j | none ↦ if i.source_message_id == m then some i else none ]

-- `basisStillValid`: nothing, or why the basis is not valid.
unfoldable pub basis_flaw : List Input → List Event → Option Reason
unfolding last_by_source
basis_flaw is [] = none
basis_flaw is (e ∷ es) =
    let later = basis_flaw is es in
    elim (last_by_source e.source_message_id is) [
      | none ↦ some covered_source_missing
      | some i ↦
          if i.body.deleted
          then some covered_source_deleted
          else if not (is_unchanged e i)
          then some covered_source_reclassified
          else later
    ]

unfoldable pub find_seq : String → ℕ → List Event → Option Event
find_seq id n [] = none
find_seq id n (e ∷ es) =
    if str_eq e.stream_id id && e.event_seq == n then some e else find_seq id n es

-- `basisEvents`.
unfoldable pub basis_events : String → List ℕ → List Event → Result GateError (List Event)
unfolding find_seq
basis_events id [] es = ok []
basis_events id (n ∷ ns) es = elim (find_seq id n es) [
  | none ↦ err basis_missing
  | some e ↦ basis_events id ns es >>= λ rest. ok (e ∷ rest)
]

abbrev pub lift {ℓ} : {A : Type ℓ} → Result Error A → Result GateError A
lift (ok a) = ok a
lift (err e) = err (from_store e)

-- What a refused send is made of: the reason under which the action goes stale, or the error.
abbrev stale_reason : Error → Option Reason
stale_reason stale_episode = some episode_changed_before_sending
stale_reason deadline_expired = some deadline_expired_before_sending
stale_reason stale_revision = some stream_revision_changed_before_sending
stale_reason _ = none

module _ (is_whole : Db → String → Bool) (time : ℕ → ℕ) where
  -- The loop over the events, with the number of those that were inserted.
  unfoldable pub ingest_all : ℕ → String → List Input → Db → Result Error (Db × ℕ)
  unfolding ingest_conversation_event
  ingest_all n id [] db = ok (db, 0)
  ingest_all n id (i ∷ is) db = do
    r ← ingest_conversation_event is_whole (time n) id i db
    s ← ingest_all (suc n) id is r.0
    ok (s.0, if r.1 then s.1 + 1 else s.1)

module _ (is_intact : Db → String → Bool) where
  -- The checks before the source is asked; the result is the stream that it is asked about.
  unfoldable pub gate_before : String → String → Db → Result GateError Stream
  unfolding read_action find_stream
  gate_before id token db = elim (find_action id db.actions) [
    | none ↦ err not_found
    | some _ ↦ lift (read_action is_intact id db) >>= λ a.
        fail_if (not (is_gating a.state)) not_gating
        >> (fail_if (not (equals_text a.lease_token token)) not_held
            >> (elim (find_stream a.stream_id db.streams) [
              | none ↦ err not_bound
              | some s ↦ fail_if (not (str_eq s.source_provider "chatwoot")) not_bound >> ok s
            ]))
  ]

module _ (is_intact : Db → String → Bool) (time : ℕ → ℕ) where
  unfoldable pub go_stale : ℕ → String → String → ℕ → Reason → Db → Result GateError (Db × Answer)
  unfolding mark_action_stale_before_send
  go_stale n id token k reason db = do
    d ← lift (
        mark_action_stale_before_send is_intact (time n) (time (n + 1)) id (reason_text reason)
          (some token) db)
    ok (d, went_stale k reason)

  -- What follows a send that was refused; the refused transaction has left no trace.
  unfoldable pub after_refusal :
      ℕ → String → String → ℕ → Error → Option Reason → Db → Result GateError (Db × Answer)
  unfolding go_stale read_action
  after_refusal n id token k e none db = err (from_store e)
  after_refusal n id token k e (some reason) db = elim (find_action id db.actions) [
    | none ↦ err (from_store e)
    | some _ ↦ lift (read_action is_intact id db) >>= λ a.
        if is_gating a.state then go_stale n id token k reason db else err (from_store e)
  ]

  unfoldable pub after_send :
      ℕ → String → String → ℕ → Db → Result Error Db → Result GateError (Db × Answer)
  unfolding after_refusal
  after_send n id token k db (ok d) = ok (d, ready_to_send k)
  after_send n id token k db (err e) = after_refusal n id token k e (stale_reason e) db

  unfoldable pub try_send : ℕ → String → String → ℕ → Db → Result GateError (Db × Answer)
  unfolding after_send mark_action_sending
  try_send n id token k db =
      after_send (n + 2) id token k db
        (mark_action_sending is_intact (time n) (time (n + 1)) id token db)

  -- The checks after the events are ingested.
  unfoldable pub decide :
      ℕ → String → String → String → Snapshot → ℕ → Db → Result GateError (Db × Answer)
  unfolding read_action require_stream basis_events basis_flaw go_stale try_send
  decide n stream id token snapshot k db = do
    current ← lift (read_action is_intact id db)
    s ← lift (require_stream stream db)
    if not (s.stream_revision == current.prepared_stream_revision)
        then go_stale n id token k stream_revision_changed db
        else (do
          basis ← basis_events current.stream_id current.basis_event_seqs db.events
          elim (basis_flaw snapshot.events basis) [
            | some reason ↦ go_stale n id token k reason db
            | none ↦ try_send n id token k db
          ])

-- `gatePublicActionToSending`, from the answer of the source on.
unfoldable pub gate_after :
    (Db → String → Bool)
    → (Db → String → Bool)
    → (ℕ → ℕ)
    → String
    → String
    → String
    → Snapshot
    → Db
    → Result GateError (Db × Answer)
unfolding ingest_all decide
gate_after is_intact is_whole time stream id token snapshot db =
    if not (snapshot.complete && str_eq snapshot.code "COMPLETE")
    then ok (db, history_unprovable)
    else (do
      r ← lift (
          ingest_all is_whole time 0 stream
            (order_by (λ (i : Input). i.source_message_id) snapshot.events) db)
      decide is_intact time (length snapshot.events) stream id token snapshot r.1 r.0)
