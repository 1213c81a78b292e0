-- ===== src/Actions/Withdrawal.antt =====
-- src/copilot/first-line-state-store.mjs, lines 898 to 918, 972 to 993, 4807 to 4829 and 5667 to 5863: an action
-- that is cancelled or goes stale before its send, with the release of its clarification.
use babypark_integration.Base.{
  ℕ, ◌+◌, Bool, true, false, ◌&&◌, ◌||◌, not, Option, none, some, List, [], ◌∷◌, String, str_eq,
  ltb, leb, ◌==◌, if◌then◌else◌, any, is_none, is_some, Result, ok, err, ◌>>=◌, ◌>>◌, fail_if,
}
use babypark_integration.Actions.Tables.{
  Stream, Episode, State, stale, cancelled, Action, Owner, by_human, Outcome, superseded, Db,
}
use babypark_integration.Actions.Queries.{
  equals_text, is_active, is_by_action, is_clarify, is_gating, is_unsent, is_withdrawn, is_open,
  owns, find_owner, find_episode,
}
use babypark_integration.Actions.Lifecycle.{Connection}
use babypark_integration.Actions.Writes.{
  Error, action_state_invalid, claim_invalid, claim_expired, stale_revision, stale_write,
  human_continuation_active, db_corrupt, abort, update_owners, write_action,
}
use babypark_integration.Actions.Sending.{is_due, require_stream, read_action}

-- The row that a withdrawal writes.
abbrev pub withdrawn : State → String → ℕ → Action → Action
withdrawn s reason at a = record a {
  state = s;
  terminal_reason = some reason;
  lease_token = none;
  lease_expires_at = none;
  updated_at = at;
}

-- The owner that an action needs before it is superseded.
abbrev is_own : Action → Option Owner → Bool
is_own a none = false
is_own a (some o) =
    is_by_action o.owner_kind && equals_text o.action_id a.action_id && is_open o.terminal_outcome

abbrev is_superseded : Option Outcome → Bool
is_superseded (some superseded) = true
is_superseded _ = false

abbrev is_own_superseded : Action → Option Owner → Bool
is_own_superseded a none = false
is_own_superseded a (some o) =
    is_by_action o.owner_kind
    && equals_text o.action_id a.action_id
    && is_superseded o.terminal_outcome

-- The episode without its reservation.
abbrev pub released : ℕ → Episode → Episode
released at e = record e {
  clarification_prompts_sent = 0;
  requested_slot = none;
  clarification_action_id = none;
  version = e.version + 1;
  updated_at = at;
}

-- `episodes_identity_state_guard_v4`, for a row that stays active.
unfoldable pub keeps_episode : Episode → Episode → Bool
keeps_episode old new =
    str_eq new.episode_id old.episode_id
    && str_eq new.stream_id old.stream_id
    && new.created_at == old.created_at
    && is_active old.state
    && new.version == old.version + 1
    && is_none new.closed_at
    && is_none new.close_reason
    && (not (new.clarification_prompts_sent == 0)
        || (is_none new.requested_slot && is_none new.clarification_action_id))
    && (is_some new.clarification_action_id || is_none new.requested_slot)

-- `episodes_clarification_release_guard_v4`.
unfoldable pub admits_release : Db → Episode → Episode → Bool
admits_release db old new =
    not (old.clarification_prompts_sent == 1 && new.clarification_prompts_sent == 0)
    || any
        (λ (a : Action).
          equals_text old.clarification_action_id a.action_id
          && str_eq a.stream_id old.stream_id
          && equals_text a.episode_id old.episode_id
          && is_clarify a.action_type
          && is_withdrawn a.state
          && is_none a.send_started_at
          && any
              (λ (s : Stream).
                str_eq s.stream_id a.stream_id && ltb a.prepared_stream_revision s.stream_revision)
              db.streams
          && any
              (λ (o : Owner).
                str_eq o.stream_id a.stream_id
                && o.stream_revision == a.prepared_stream_revision
                && equals_text o.action_id a.action_id
                && is_by_action o.owner_kind
                && is_superseded o.terminal_outcome)
              db.owners)
        db.actions

unfoldable pub replace_episode : String → Episode → List Episode → List Episode
replace_episode id new [] = []
replace_episode id new (e ∷ es) =
    if str_eq e.episode_id id then new ∷ es else e ∷ replace_episode id new es

-- `UPDATE episodes`, for an update that releases the reservation and leaves the state alone; the guards
-- of the other updates do not fire on it.
unfoldable pub write_release : Episode → ℕ → Db → Result Error Db
unfolding keeps_episode admits_release replace_episode
write_release e at db =
    fail_if (not (keeps_episode e (released at e) && admits_release db e (released at e))) abort
    >> ok (record db { episodes = replace_episode e.episode_id (released at e) db.episodes })

-- The release at the end of `#supersedeUnsentAction`.
unfoldable pub release_clarification : ℕ → Action → Option Episode → Db → Result Error Db
unfolding write_release
release_clarification at a none db = ok db
release_clarification at a (some e) db =
    if is_clarify a.action_type
      && is_active e.state
      && equals_text e.clarification_action_id a.action_id
    then write_release e at db
    else ok db

abbrev episode_of : Action → Db → Option Episode
episode_of a db = elim a.episode_id [ none ↦ none | some id ↦ find_episode id db.episodes ]

-- `#supersedeUnsentAction`.
unfoldable pub supersede_unsent_action :
    Connection → ℕ → Action → String → State → Db → Result Error Db
unfolding require_stream find_owner find_episode write_action release_clarification
supersede_unsent_action c at a reason s db = do
  fail_if (not (is_unsent a.state)) action_state_invalid
  stream ← require_stream a.stream_id db
  fail_if (leb stream.stream_revision a.prepared_stream_revision) stale_revision
  fail_if (not (is_own a (find_owner a.stream_id a.prepared_stream_revision db.owners)))
      human_continuation_active
  d ← write_action c a (withdrawn s reason at a) db
  fail_if (not (is_own_superseded a (find_owner a.stream_id a.prepared_stream_revision d.owners)))
      db_corrupt
  release_clarification at a (episode_of a d) d

-- The version of the episode that the human takes over.
unfoldable pub human_episode_version : Action → Owner → Option Episode → Option ℕ
human_episode_version a o none = o.episode_version
human_episode_version a o (some e) =
    if is_active e.state
      && str_eq e.stream_id a.stream_id
      && (elim o.episode_version [ none ↦ true | some v ↦ leb v e.version ])
    then some e.version
    else o.episode_version

abbrev pub escalated : Option ℕ → String → ℕ → Owner → Owner
escalated version reason at o = record o {
  owner_kind = by_human;
  human_reason = some reason;
  episode_version = version;
  updated_at = at;
}

abbrev owner_episode : Owner → Db → Option Episode
owner_episode o db = elim o.episode_id [ none ↦ none | some id ↦ find_episode id db.episodes ]

-- The owner's part of `#attachHumanToUnsentAction`.
unfoldable pub escalate_owner : Connection → ℕ → Action → String → Owner → Db → Result Error Db
unfolding find_episode human_episode_version update_owners
escalate_owner c at a reason o db =
    if is_by_action o.owner_kind
    then (do
      owners ←
          update_owners c db (owns a)
            (escalated (human_episode_version a o (owner_episode o db)) reason at) db.owners
      fail_if (not (any (owns a) db.owners)) stale_write
      ok (record db { owners = owners }))
    else ok db

abbrev owner_or_corrupt : Action → Option Owner → Result Error Owner
owner_or_corrupt a none = err db_corrupt
owner_or_corrupt a (some o) =
    if equals_text o.action_id a.action_id && is_open o.terminal_outcome
    then ok o
    else err db_corrupt

-- `#attachHumanToUnsentAction`.
unfoldable pub attach_human_to_unsent_action :
    Connection → ℕ → Action → String → State → Db → Result Error Db
unfolding find_owner escalate_owner write_action
attach_human_to_unsent_action c at a reason s db = do
  o ← owner_or_corrupt a (find_owner a.stream_id a.prepared_stream_revision db.owners)
  d ← escalate_owner c at a reason o db
  write_action c a (withdrawn s reason at a) d

abbrev pub is_held_by : Option String → Action → Bool
is_held_by none a = false
is_held_by (some t) a = equals_text a.lease_token t

-- The three cases of `#finishActionBeforeSend`.
unfoldable pub finish_at :
    ℕ → ℕ → Option String → Stream → Action → String → State → Db → Result Error Db
unfolding supersede_unsent_action attach_human_to_unsent_action
finish_at at now lease stream a reason s db =
    if ltb a.prepared_stream_revision stream.stream_revision
    then supersede_unsent_action (record { now = now; token = none }) at a reason s db
    else if is_gating a.state
    then (do
      fail_if (not (is_held_by lease a)) claim_invalid
      fail_if (is_due at a) claim_expired
      attach_human_to_unsent_action (record { now = now; token = lease }) at a reason s db)
    else (do
      fail_if (is_some lease) claim_invalid
      attach_human_to_unsent_action (record { now = now; token = none }) at a reason s db)

module _ (is_intact : Db → String → Bool) where
  -- `#finishActionBeforeSend`.
  unfoldable pub finish_action_before_send :
      ℕ → ℕ → String → State → String → Option String → Db → Result Error Db
  unfolding read_action require_stream finish_at
  finish_action_before_send at now id s reason lease db = do
    fail_if (not (is_withdrawn s)) action_state_invalid
    a ← read_action is_intact id db
    fail_if (not (is_unsent a.state)) action_state_invalid
    stream ← require_stream a.stream_id db
    fail_if (ltb stream.stream_revision a.prepared_stream_revision) db_corrupt
    d ← finish_at at now lease stream a reason s db
    _ ← read_action is_intact id d
    ok d

  unfoldable pub cancel_action_before_send :
      ℕ → ℕ → String → String → Option String → Db → Result Error Db
  unfolding finish_action_before_send
  cancel_action_before_send at now id reason lease db =
      finish_action_before_send at now id cancelled reason lease db

  unfoldable pub mark_action_stale_before_send :
      ℕ → ℕ → String → String → Option String → Db → Result Error Db
  unfolding finish_action_before_send
  mark_action_stale_before_send at now id reason lease db =
      finish_action_before_send at now id stale reason lease db
