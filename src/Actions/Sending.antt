-- ===== src/Actions/Sending.antt =====
-- src/copilot/first-line-state-store.mjs, lines 4638 to 4805 and 6677 to 6736: the methods that take an action
-- from prepared to its send. A method runs in a transaction, so that an error leaves the database as it
-- was. `at` is the time that the method has read, `now` the one that the triggers read. The texts of the
-- arguments are tokens, as `safeToken` has them. `is_intact` is what the checks of a stored row and of
-- the rows that it refers to say of an action (#readAction and #assertDeferredRelationsValid, lines 6326
-- to 6519 and 6970 to 7371), of which nothing is assumed.
use babypark_integration.Base.{
  ℕ, ◌+◌, Bool, true, false, ◌&&◌, ◌||◌, not, Option, none, some, List, [], ◌∷◌, String, str_eq,
  ltb, leb, ◌==◌, if◌then◌else◌, any, is_some, codes, Result, ok, err, ◌>>=◌, ◌>>◌, fail_if,
}
use babypark_integration.Actions.Tables.{
  Stream, Episode, gating, sending, uncertain, Action, Origin, Owner, Descriptor, Db,
}
use babypark_integration.Actions.Queries.{
  equals_text, equals_number, is_active, is_by_action, is_public_action, is_clarify, is_gating,
  is_sending, is_unsent, is_in_flight, is_open, has_barrier, find_stream, find_origin, find_owner,
  find_action,
}
use babypark_integration.Actions.Triggers.{has_latch}
use babypark_integration.Actions.Writes.{
  Error, action_not_found, stream_not_found, action_state_invalid, claim_invalid, claim_expired,
  deadline_expired, stale_revision, stale_episode, descriptor_missing, recovery_barrier_active,
  db_corrupt, write_action,
}

-- `lease_expires_at IS NULL OR lease_expires_at<=?`.
abbrev pub is_due : ℕ → Action → Bool
is_due at a = elim a.lease_expires_at [ none ↦ true | some t ↦ leb t at ]

abbrev text_le : List ℕ → List ℕ → Bool
text_le [] ys = true
text_le (x ∷ xs) [] = false
text_le (x ∷ xs) (y ∷ ys) = ltb x y || (x == y && text_le xs ys)

-- `ORDER BY created_at,action_id`.
abbrev is_before : Action → Action → Bool
is_before a b =
    ltb a.created_at b.created_at
    || (a.created_at == b.created_at && text_le (codes a.action_id) (codes b.action_id))

unfoldable pub insert_row : Action → List Action → List Action
insert_row a [] = a ∷ []
insert_row a (b ∷ bs) = if is_before a b then a ∷ b ∷ bs else b ∷ insert_row a bs

-- The rows that may be claimed, in the order of the query.
unfoldable pub candidates : ℕ → List Action → List Action
unfolding insert_row
candidates at [] = []
candidates at (a ∷ rest) =
    if is_unsent a.state && is_due at a
    then insert_row a (candidates at rest)
    else candidates at rest

-- An owner that is the public action itself, and unresolved.
abbrev pub is_autonomous : Option Owner → Bool
is_autonomous none = false
is_autonomous (some o) = is_by_action o.owner_kind && is_open o.terminal_outcome

abbrev is_described : Db → Action → Bool
is_described db a = any (λ (d : Descriptor). str_eq d.action_id a.action_id) db.descriptors

-- The row that a claim writes.
abbrev pub claimed : ℕ → ℕ → String → Action → Action
claimed at lease claim a = record a {
  state = gating;
  lease_token = some claim;
  lease_expires_at = some (at + lease);
  attempts = a.attempts + 1;
  updated_at = at;
}

-- The row that the start of a send writes.
abbrev pub sent : ℕ → Action → Action
sent at a = record a { state = sending; send_started_at = some at; updated_at = at }

abbrev pub lost : ℕ → String → Action → Action
lost at reason a = record a {
  state = uncertain;
  terminal_reason = some reason;
  lease_token = none;
  lease_expires_at = none;
  updated_at = at;
}

-- `#assertAutonomousAllowed`.
abbrev pub assert_autonomous_allowed : Db → Result Error (Unit {0})
assert_autonomous_allowed db = fail_if (has_barrier db) recovery_barrier_active

-- `#requireStream`.
unfoldable pub require_stream : String → Db → Result Error Stream
unfolding find_stream
require_stream id db = elim (find_stream id db.streams) [
  | none ↦ err stream_not_found
  | some s ↦ ok s
]

unfoldable pub active_episode : String → List Episode → Option Episode
active_episode id [] = none
active_episode id (e ∷ es) =
    if str_eq e.stream_id id && is_active e.state then some e else active_episode id es

-- The origin and the owner that a send needs.
abbrev is_origin_of : Action → Option Origin → Bool
is_origin_of a none = false
is_origin_of a (some o) = is_public_action o.origin_kind && equals_text o.action_id a.action_id

abbrev is_action_owner : Action → Option Owner → Bool
is_action_owner a none = false
is_action_owner a (some o) =
    is_by_action o.owner_kind && equals_text o.action_id a.action_id && is_open o.terminal_outcome

-- The checks of the episode before a send.
unfoldable pub check_episode : Db → Action → Option Episode → Result Error (Unit {0})
check_episode db a none = fail_if (is_some a.episode_id) stale_episode
check_episode db a (some e) = do
  fail_if (not (equals_text a.episode_id e.episode_id && equals_number a.episode_version e.version))
      stale_episode
  fail_if (has_latch db e.episode_id) stale_episode
  fail_if
      (is_clarify a.action_type
        && not (
            e.clarification_prompts_sent == 1 && equals_text e.clarification_action_id a.action_id))
      stale_episode

-- The checks of a send, in the order of the method.
unfoldable pub check_send : ℕ → String → Action → Db → Result Error (Unit {0})
unfolding require_stream active_episode check_episode find_origin find_owner
check_send at token a db = do
  fail_if (not (is_gating a.state && equals_text a.lease_token token)) claim_invalid
  fail_if
      (not (
        is_origin_of a (find_origin a.stream_id a.prepared_stream_revision db.origins)
        && is_action_owner a (find_owner a.stream_id a.prepared_stream_revision db.owners)))
      claim_invalid
  fail_if (not (is_described db a)) descriptor_missing
  fail_if (is_due at a) claim_expired
  fail_if (leb a.deadline_at at) deadline_expired
  stream ← require_stream a.stream_id db
  fail_if (not (stream.stream_revision == a.prepared_stream_revision)) stale_revision
  check_episode db a (active_episode a.stream_id db.episodes)

module _ (is_intact : Db → String → Bool) where
  -- `#requireReadableAction`.
  unfoldable pub read_action : String → Db → Result Error Action
  unfolding find_action
  read_action id db = elim (find_action id db.actions) [
    | none ↦ err action_not_found
    | some a ↦ if is_intact db id then ok a else err db_corrupt
  ]

  -- The loop of `claimNextPublicAction` over the rows. The update hits the row that was read, since the
  -- query has chosen it by the same conditions.
  unfoldable pub claim_first :
      ℕ → ℕ → ℕ → String → List Action → Db → Result Error (Db × Option String)
  unfolding write_action find_owner read_action
  claim_first at now lease claim [] db = ok (db, none)
  claim_first at now lease claim (a ∷ rest) db =
      let later = claim_first at now lease claim rest db in
      if not (is_intact db a.action_id)
      then err db_corrupt
      else if not (is_autonomous (find_owner a.stream_id a.prepared_stream_revision db.owners))
      then later
      else if not (is_described db a)
      then err db_corrupt
      else (do
        d ← write_action (record { now = now; token = some claim }) a (claimed at lease claim a) db
        _ ← read_action a.action_id d
        ok (d, some a.action_id))

  unfoldable pub claim_next_public_action :
      ℕ → ℕ → ℕ → String → Db → Result Error (Db × Option String)
  unfolding claim_first candidates
  claim_next_public_action at now lease claim db =
      assert_autonomous_allowed db >> claim_first at now lease claim (candidates at db.actions) db

  unfoldable pub mark_action_sending : ℕ → ℕ → String → String → Db → Result Error Db
  unfolding read_action check_send write_action
  mark_action_sending at now id token db = do
    assert_autonomous_allowed db
    a ← read_action id db
    check_send at token a db
    d ← write_action (record { now = now; token = some token }) a (sent at a) db
    _ ← read_action id d
    ok d

  unfoldable pub mark_action_uncertain : ℕ → ℕ → String → String → Db → Result Error Db
  unfolding read_action write_action
  mark_action_uncertain at now id reason db = do
    a ← read_action id db
    fail_if (not (is_in_flight a.state)) action_state_invalid
    d ←
        if is_sending a.state
        then write_action (record { now = now; token = none }) a (lost at reason a) db
        else ok db
    _ ← read_action id d
    ok d
