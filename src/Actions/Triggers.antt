-- ===== src/Actions/Triggers.antt =====
-- src/copilot/first-line-state-store.mjs, lines 520 to 532 and 710 to 841: the other BEFORE triggers of actions
-- and events, as tests that hold where the trigger lets the statement through. Each is the negation of the
-- WHEN of its trigger; a comparison with NULL there fires nothing.
use babypark_integration.Base.{
  ℕ, ◌+◌, Bool, true, false, ◌&&◌, ◌||◌, not, Option, none, some, String, str_eq, ltb, leb, ◌==◌,
  any, is_none, is_some,
}
use babypark_integration.Actions.Tables.{
  Stream, Event, Episode, State, prepared, gating, Action, ActionType, answer, clarify, Owner,
  Outcome, human_takeover, ownership_lost, Latch, HumanCut, Db,
}
use babypark_integration.Actions.Queries.{
  is_same_text, is_same_number, equals_text, equals_number, is_active, is_by_action, is_gating,
  is_sending, is_handoff, is_withdrawn, is_open, has_barrier, has_owner, has_descriptor, has_origin,
}
use babypark_integration.Actions.Lifecycle.{Connection, is_monotonic, keeps_semantics}

-- The lease before a claim: none, or one that has run out.
abbrev pub is_claimable : ℕ → Action → State → Bool
is_claimable now old prepared = is_none old.lease_token && is_none old.lease_expires_at
is_claimable now old gating =
    is_some old.lease_token && (elim old.lease_expires_at [ none ↦ false | some t ↦ leb t now ])
is_claimable now old _ = false

-- `public_actions_claim_cas_guard_v4`.
unfoldable pub admits_claim : Connection → Db → Action → Action → Bool
unfolding has_owner has_descriptor
admits_claim c db old new =
    not (is_gating new.state)
    || (not (has_barrier db)
        && leb old.updated_at new.updated_at
        && leb new.updated_at c.now
        && is_same_text c.token new.lease_token
        && is_none new.terminal_reason
        && (elim new.lease_expires_at [ none ↦ false | some t ↦ ltb c.now t ])
        && has_owner db new
        && has_descriptor db new
        && is_claimable c.now old old.state
        && new.attempts == old.attempts + 1)

-- The stream is at the revision that the action was prepared for, which is its last event.
unfoldable pub is_current : Db → Action → Bool
is_current db a =
    any
      (λ (s : Stream).
        str_eq s.stream_id a.stream_id
        && s.stream_revision == a.prepared_stream_revision
        && s.stream_revision == s.last_event_seq)
      db.streams

-- The reservation of a clarification, on the episode of the action.
abbrev pub is_reserved : Episode → Action → ActionType → Bool
is_reserved e a answer = true
is_reserved e a clarify =
    e.clarification_prompts_sent == 1
    && equals_text e.clarification_action_id a.action_id
    && is_same_text e.requested_slot a.requested_slot

abbrev pub has_latch : Db → String → Bool
has_latch db id = any (λ (l : Latch). str_eq l.episode_id id) db.latches

unfoldable pub has_episode : Db → Action → Bool
has_episode db a =
    any
      (λ (e : Episode).
        equals_text a.episode_id e.episode_id
        && str_eq e.stream_id a.stream_id
        && is_active e.state
        && equals_number a.episode_version e.version
        && not (has_latch db e.episode_id)
        && is_reserved e a a.action_type)
      db.episodes

-- `x > bp_now_ms()`, which is not false of NULL.
abbrev pub is_after : Option ℕ → ℕ → Bool
is_after none now = true
is_after (some t) now = ltb now t

abbrev pub is_stamped : Option ℕ → ℕ → Bool
is_stamped none t = true
is_stamped (some u) t = u == t

unfoldable pub is_admitted : Connection → Db → Action → Action → Bool
unfolding is_current has_origin has_owner has_descriptor has_episode
is_admitted c db old new =
    is_same_text new.lease_token old.lease_token
    && is_same_number new.lease_expires_at old.lease_expires_at
    && new.attempts == old.attempts
    && is_same_text c.token old.lease_token
    && leb old.updated_at new.updated_at
    && leb new.updated_at c.now
    && is_stamped new.send_started_at new.updated_at
    && is_same_text new.terminal_reason old.terminal_reason
    && is_after old.lease_expires_at c.now
    && ltb c.now new.deadline_at
    && not (has_barrier db)
    && is_current db new
    && has_origin db new
    && has_owner db new
    && has_descriptor db new
    && has_episode db new

-- `public_actions_sending_admission_guard_v4`.
unfoldable pub admits_sending : Connection → Db → Action → Action → Bool
unfolding is_admitted
admits_sending c db old new =
    not (is_gating old.state && is_sending new.state) || is_admitted c db old new

-- The stream is at the revision of the action.
unfoldable pub is_at_revision : Db → Action → Bool
is_at_revision db a =
    any
      (λ (s : Stream).
        str_eq s.stream_id a.stream_id && s.stream_revision == a.prepared_stream_revision)
      db.streams

-- `public_actions_gating_terminal_claim_guard_v4`.
unfoldable pub admits_withdrawal : Connection → Db → Action → Action → Bool
unfolding is_at_revision
admits_withdrawal c db old new =
    not (is_gating old.state && is_withdrawn new.state && is_at_revision db old)
    || (is_some old.lease_token
        && (elim old.lease_expires_at [ none ↦ false | some t ↦ ltb c.now t ])
        && is_same_text c.token old.lease_token)

-- The outcome that a reason of a human's terminal stands for.
abbrev pub is_handoff_reason : Option String → Outcome → Bool
is_handoff_reason none o = false
is_handoff_reason (some r) human_takeover = str_eq r "human_takeover"
is_handoff_reason (some r) ownership_lost = str_eq r "ownership_lost"
is_handoff_reason (some r) _ = false

-- The closed episode and the cut of the human who owns the continuation.
abbrev pub is_handed_off : Db → Action → Owner → Bool
is_handed_off db new co =
    str_eq co.stream_id new.stream_id
    && co.stream_revision == new.prepared_stream_revision
    && equals_text co.action_id new.action_id
    && not (is_by_action co.owner_kind)
    && is_open co.terminal_outcome
    && any
        (λ (e : Episode).
          equals_text co.episode_id e.episode_id
          && str_eq e.stream_id co.stream_id
          && not (is_active e.state)
          && (elim co.episode_version [ none ↦ false | some v ↦ e.version == v + 1 ])
          && (elim new.terminal_reason [ none ↦ false | some r ↦ equals_text e.close_reason r ]))
        db.episodes
    && any
        (λ (h : HumanCut).
          str_eq h.stream_id co.stream_id
          && h.stream_revision == co.stream_revision
          && is_handoff_reason new.terminal_reason h.terminal_outcome)
        db.human_cuts

-- `public_actions_handoff_guard_v4`.
unfoldable pub admits_handoff : Db → Action → Action → Bool
admits_handoff db old new =
    not (not (is_handoff old.state) && is_handoff new.state) || any (is_handed_off db new) db.owners

-- All the BEFORE triggers of an UPDATE of public_actions.
unfoldable pub admits : Connection → Db → Action → Action → Bool
unfolding keeps_semantics is_monotonic admits_claim admits_sending admits_withdrawal admits_handoff
admits c db old new =
    keeps_semantics old new
    && is_monotonic db old new
    && admits_claim c db old new
    && admits_sending c db old new
    && admits_withdrawal c db old new
    && admits_handoff db old new

-- `conversation_events_validate_insert_v4`.
unfoldable pub admits_event : Db → Event → Bool
admits_event db e =
    not (has_barrier db)
    && any
        (λ (s : Stream).
          str_eq s.stream_id e.stream_id
          && s.stream_revision == s.last_event_seq
          && e.event_seq == s.last_event_seq + 1)
        db.streams
