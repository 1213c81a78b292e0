-- ===== src/Actions/Owners.antt =====
-- src/copilot/first-line-state-store.mjs, lines 372 to 405 and 1320 to 1475: the constraints of an owner row and
-- the BEFORE triggers of its updates, as tests that hold where the update is let through.
use babypark_integration.Base.{
  ℕ, ◌+◌, Bool, true, false, ◌&&◌, ◌||◌, not, Option, none, some, List, [], ◌∷◌, String, str_eq,
  ltb, leb, ◌==◌, if◌then◌else◌, any, is_none, is_some, length, codes,
}
use babypark_integration.Actions.Tables.{
  Stream, Event, Episode, Action, OwnerKind, by_action, by_human, Owner, Outcome, was_confirmed,
  superseded, human_takeover, ownership_lost, legacy_v3_terminal, Descriptor, ConfirmationCut,
  TakeoverCut, HumanCut, Db,
}
use babypark_integration.Actions.Queries.{
  is_same_text, is_same_number, equals_text, equals_number, is_active, is_by_action, is_gating,
  is_confirmed, is_handoff, is_unsent, is_withdrawn, is_own_reply,
}
use babypark_integration.Actions.Triggers.{is_handoff_reason}
use babypark_integration.Actions.Lifecycle.{Connection, or_blank, is_same_bool}

abbrev pub outcome_name : Outcome → String
outcome_name was_confirmed = "CONFIRMED"
outcome_name superseded = "SUPERSEDED"
outcome_name human_takeover = "HUMAN_TAKEOVER"
outcome_name ownership_lost = "OWNERSHIP_LOST"
outcome_name legacy_v3_terminal = "LEGACY_V3_TERMINAL"

abbrev outcome_text : Option Outcome → Option String
outcome_text none = none
outcome_text (some o) = some (outcome_name o)

abbrev is_outcome : Outcome → Option Outcome → Bool
is_outcome o p = equals_text (outcome_text p) (outcome_name o)

-- The outcomes that each kind of owner may have.
abbrev may_end : OwnerKind → Option Outcome → Bool
may_end k none = true
may_end k (some legacy_v3_terminal) = true
may_end by_action (some was_confirmed) = true
may_end by_action (some superseded) = true
may_end by_human (some human_takeover) = true
may_end by_human (some ownership_lost) = true
may_end _ (some _) = false

-- `human_reason IS NULL OR length(human_reason) BETWEEN 1 AND 160`.
abbrev is_reason : Option String → Bool
is_reason none = true
is_reason (some s) = leb 1 (length (codes s)) && leb (length (codes s)) 160

-- The CHECK constraints of the table.
unfoldable pub is_owner_row : Owner → Bool
is_owner_row o =
    leb 1 o.stream_revision
    && (elim o.episode_version [ none ↦ true | some v ↦ leb 1 v ])
    && is_reason o.human_reason
    && is_same_bool (is_none o.episode_id) (is_none o.episode_version)
    && (if is_by_action o.owner_kind
        then is_some o.action_id && is_none o.human_reason
        else is_some o.human_reason)
    && is_same_bool (is_none o.terminal_outcome) (is_none o.terminal_at)
    && may_end o.owner_kind o.terminal_outcome

-- An update that makes a public action's continuation a human's.
abbrev pub escalates : Owner → Owner → Bool
escalates old new = is_by_action old.owner_kind && not (is_by_action new.owner_kind)

-- `NEW.episode_version >= OLD.episode_version`, which a NULL does not make false.
abbrev is_not_below : Option ℕ → Option ℕ → Bool
is_not_below none old = true
is_not_below (some n) none = true
is_not_below (some n) (some m) = leb m n

abbrev may_move_version : Db → Owner → Owner → Bool
may_move_version db old new =
    escalates old new
    && is_some old.episode_id
    && is_not_below new.episode_version old.episode_version
    && any
        (λ (e : Episode).
          equals_text old.episode_id e.episode_id
          && str_eq e.stream_id old.stream_id
          && is_active e.state
          && equals_number new.episode_version e.version)
        db.episodes

-- The action of the owner, with a descriptor and a send that has begun.
abbrev is_sent_owner : Db → Owner → Bool
is_sent_owner db o =
    any
      (λ (a : Action).
        equals_text o.action_id a.action_id
        && str_eq a.stream_id o.stream_id
        && is_some a.send_started_at
        && any (λ (d : Descriptor). str_eq d.action_id a.action_id) db.descriptors)
      db.actions

abbrev has_takeover_cut : Db → Owner → Bool
has_takeover_cut db o =
    any (λ (c : TakeoverCut). equals_text o.action_id c.action_id && str_eq c.stream_id o.stream_id)
      db.takeover_cuts

-- `COALESCE(NEW.terminal_at,-1) <> OLD.terminal_at` is not true.
abbrev keeps_time : Option ℕ → Option ℕ → Bool
keeps_time none new = true
keeps_time (some t) new = equals_number new t

-- `COALESCE(NEW.human_reason,'') <> OLD.human_reason` is not true.
abbrev keeps_reason : Option String → Option String → Bool
keeps_reason none new = true
keeps_reason (some r) new = str_eq (or_blank new) r

-- `continuation_owners_monotonic_update`.
unfoldable pub keeps_owner : Db → Owner → Owner → Bool
keeps_owner db old new =
    str_eq new.stream_id old.stream_id
    && new.stream_revision == old.stream_revision
    && str_eq (or_blank new.action_id) (or_blank old.action_id)
    && str_eq (or_blank new.episode_id) (or_blank old.episode_id)
    && (is_same_number new.episode_version old.episode_version || may_move_version db old new)
    && (is_by_action old.owner_kind || not (is_by_action new.owner_kind))
    && (not (escalates old new) || not (is_sent_owner db old) || has_takeover_cut db old)
    && (not (escalates old new) || is_none new.terminal_outcome)
    && (is_some old.terminal_outcome || not (is_outcome legacy_v3_terminal new.terminal_outcome))
    && (is_none old.terminal_outcome
        || (is_same_text (outcome_text new.terminal_outcome) (outcome_text old.terminal_outcome)
            && keeps_time old.terminal_at new.terminal_at
            && is_same_bool (is_by_action new.owner_kind) (is_by_action old.owner_kind)
            && str_eq (or_blank new.human_reason) (or_blank old.human_reason)))
    && (is_by_action old.owner_kind || keeps_reason old.human_reason new.human_reason)
    && (not (is_by_action old.owner_kind && is_by_action new.owner_kind)
        || is_none new.human_reason)

-- A gating action whose lease has run out or that the connection does not hold.
abbrev is_unheld : Connection → Action → Bool
is_unheld c a =
    is_gating a.state
    && not (
        is_some a.lease_token
        && (elim a.lease_expires_at [ none ↦ false | some t ↦ ltb c.now t ])
        && is_same_text c.token a.lease_token)

-- `continuation_owners_human_escalation_claim_guard_v4`.
unfoldable pub admits_escalation : Connection → Db → Owner → Owner → Bool
admits_escalation c db old new =
    not (escalates old new)
    || not (
        any
          (λ (a : Action).
            equals_text old.action_id a.action_id
            && str_eq a.stream_id old.stream_id
            && a.prepared_stream_revision == old.stream_revision
            && is_unsent a.state)
          db.actions)
    || (any
          (λ (s : Stream).
            str_eq s.stream_id old.stream_id && s.stream_revision == old.stream_revision)
          db.streams
        && not (
            any (λ (a : Action). equals_text old.action_id a.action_id && is_unheld c a)
              db.actions))

-- `continuation_owners_superseded_guard_v4`.
unfoldable pub admits_supersession : Db → Owner → Owner → Bool
admits_supersession db old new =
    not (is_none old.terminal_outcome && is_outcome superseded new.terminal_outcome)
    || (is_by_action old.owner_kind
        && any
            (λ (a : Action).
              equals_text old.action_id a.action_id
              && str_eq a.stream_id old.stream_id
              && a.prepared_stream_revision == old.stream_revision
              && is_withdrawn a.state
              && any
                  (λ (s : Stream).
                    str_eq s.stream_id a.stream_id && ltb old.stream_revision s.stream_revision)
                  db.streams)
            db.actions)

-- The events of a stream that have the action as their source.
unfoldable pub replies_of : String → String → List Event → List Event
replies_of stream id [] = []
replies_of stream id (e ∷ es) =
    if str_eq e.stream_id stream && equals_text e.source_id id
    then e ∷ replies_of stream id es
    else replies_of stream id es

abbrev is_proved : Db → Owner → Action → Bool
is_proved db o a =
    equals_text o.action_id a.action_id
    && str_eq a.stream_id o.stream_id
    && a.prepared_stream_revision == o.stream_revision
    && is_confirmed a.state
    && is_some a.confirmed_at
    && any
        (λ (e : Event).
          str_eq e.stream_id a.stream_id
          && equals_number a.confirmed_source_message_id e.source_message_id
          && equals_text e.source_id a.action_id
          && is_own_reply e.event_kind)
        db.events

abbrev replies_to : Db → Owner → List Event
replies_to db o = elim o.action_id [ none ↦ [] | some id ↦ replies_of o.stream_id id db.events ]

-- `continuation_owners_confirmed_guard_v4`.
unfoldable pub admits_confirmation : Db → Owner → Owner → Bool
unfolding replies_of
admits_confirmation db old new =
    not (is_none old.terminal_outcome && is_outcome was_confirmed new.terminal_outcome)
    || (is_by_action old.owner_kind
        && any
            (λ (c : ConfirmationCut).
              equals_text old.action_id c.action_id && str_eq c.stream_id old.stream_id)
            db.cuts
        && any (is_proved db old) db.actions
        && length (replies_to db old) == 1
        && any (λ (e : Event). is_own_reply e.event_kind) (replies_to db old))

abbrev is_taken : Option Outcome → Bool
is_taken (some human_takeover) = true
is_taken (some ownership_lost) = true
is_taken _ = false

-- The reason of a human's terminal matches its outcome.
abbrev is_reason_of : Option String → Option Outcome → Bool
is_reason_of r none = false
is_reason_of r (some o) = is_handoff_reason r o

-- `continuation_owners_terminal_episode_v4`.
unfoldable pub admits_resolution : Db → Owner → Owner → Bool
admits_resolution db old new =
    not (
      not (is_by_action old.owner_kind)
      && is_none old.terminal_outcome
      && is_taken new.terminal_outcome)
    || (any
          (λ (h : HumanCut).
            str_eq h.stream_id new.stream_id
            && h.stream_revision == new.stream_revision
            && equals_text (outcome_text new.terminal_outcome) (outcome_name h.terminal_outcome))
          db.human_cuts
        && (is_none new.episode_id
            || any
                (λ (e : Episode).
                  equals_text new.episode_id e.episode_id
                  && str_eq e.stream_id new.stream_id
                  && not (is_active e.state)
                  && (elim old.episode_version [ none ↦ false | some v ↦ e.version == v + 1 ])
                  && is_reason_of e.close_reason new.terminal_outcome)
                db.episodes)
        && (is_none new.action_id
            || any
                (λ (a : Action).
                  equals_text new.action_id a.action_id
                  && str_eq a.stream_id new.stream_id
                  && a.prepared_stream_revision == new.stream_revision
                  && (is_withdrawn a.state
                      || (is_handoff a.state
                          && is_reason_of a.terminal_reason new.terminal_outcome)))
                db.actions))

-- All the BEFORE triggers and the constraints of an UPDATE of continuation_owners.
unfoldable pub admits_owner : Connection → Db → Owner → Owner → Bool
unfolding is_owner_row keeps_owner admits_escalation admits_supersession admits_confirmation
    admits_resolution
admits_owner c db old new =
    is_owner_row new
    && keeps_owner db old new
    && admits_escalation c db old new
    && admits_supersession db old new
    && admits_confirmation db old new
    && admits_resolution db old new
