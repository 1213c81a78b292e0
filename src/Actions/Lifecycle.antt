-- ===== src/Actions/Lifecycle.antt =====
-- src/copilot/first-line-state-store.mjs, lines 653 to 709: the triggers that keep what an action means and
-- let its state go forward only.
use babypark_integration.Base.{
  ℕ, Bool, true, false, ◌&&◌, ◌||◌, not, Option, none, some, List, [], ◌∷◌, String, str_eq, ltb,
  leb, ◌==◌, any, is_none, is_some,
}
use babypark_integration.Actions.Tables.{
  State, prepared, gating, sending, confirmed, stale, cancelled, uncertain, handoff_done, not_sent,
  Action, ActionType, answer, clarify, ConfirmationCut, Db,
}
use babypark_integration.Actions.Queries.{is_same_number, equals_number, is_gating, is_sending}

-- What the triggers read of the connection: the lease token of the mutation and the clock. All
-- readings of the clock in one statement give one value here; the source reads it at each
-- `bp_now_ms()`.
pub record Connection : Type 0 where
  pub now : ℕ
  pub token : Option String

abbrev pub is_action_type : ActionType → ActionType → Bool
is_action_type answer answer = true
is_action_type clarify clarify = true
is_action_type _ _ = false

abbrev pub is_basis : List ℕ → List ℕ → Bool
is_basis [] [] = true
is_basis [] (y ∷ ys) = false
is_basis (x ∷ xs) [] = false
is_basis (x ∷ xs) (y ∷ ys) = x == y && is_basis xs ys

-- `COALESCE(a,'')=COALESCE(b,'')`.
abbrev pub or_blank : Option String → String
or_blank none = ""
or_blank (some a) = a

-- `public_actions_immutable_semantics_v4`.
unfoldable pub keeps_semantics : Action → Action → Bool
keeps_semantics old new =
    str_eq new.action_id old.action_id
    && str_eq new.stream_id old.stream_id
    && str_eq (or_blank new.episode_id) (or_blank old.episode_id)
    && is_same_number new.episode_version old.episode_version
    && new.prepared_stream_revision == old.prepared_stream_revision
    && is_action_type new.action_type old.action_type
    && is_basis new.basis_event_seqs old.basis_event_seqs
    && str_eq (or_blank new.requested_slot) (or_blank old.requested_slot)
    && new.deadline_at == old.deadline_at
    && new.created_at == old.created_at

-- The states that may follow a state.
unfoldable pub may_follow : State → State → Bool
may_follow prepared prepared = true
may_follow prepared gating = true
may_follow prepared stale = true
may_follow prepared cancelled = true
may_follow prepared handoff_done = true
may_follow gating gating = true
may_follow gating sending = true
may_follow gating stale = true
may_follow gating cancelled = true
may_follow gating handoff_done = true
may_follow sending sending = true
may_follow sending uncertain = true
may_follow sending confirmed = true
may_follow sending handoff_done = true
may_follow uncertain uncertain = true
may_follow uncertain confirmed = true
may_follow uncertain handoff_done = true
may_follow confirmed confirmed = true
may_follow stale stale = true
may_follow cancelled cancelled = true
may_follow handoff_done handoff_done = true
may_follow not_sent not_sent = true
may_follow _ _ = false

-- A lease that ends after the time of the update.
abbrev pub is_leased : Action → Bool
is_leased a =
    is_some a.lease_token
    && (elim a.lease_expires_at [ none ↦ false | some t ↦ ltb a.updated_at t ])
    && leb 1 a.attempts

abbrev pub is_unleased : Action → Bool
is_unleased a = is_none a.lease_token && is_none a.lease_expires_at

unfoldable pub has_cut : Db → Action → Bool
has_cut db a =
    any (λ (c : ConfirmationCut). str_eq c.action_id a.action_id && str_eq c.stream_id a.stream_id)
      db.cuts

-- The shape that a row must have in its state.
unfoldable pub has_shape : Db → Action → State → Bool
unfolding has_cut
has_shape db a prepared = is_unleased a && a.attempts == 0 && is_none a.send_started_at
has_shape db a gating = is_leased a && is_none a.send_started_at
has_shape db a sending = is_leased a && is_some a.send_started_at
has_shape db a uncertain = is_unleased a && leb 1 a.attempts && is_some a.send_started_at
has_shape db a confirmed =
    is_some a.send_started_at
    && is_some a.confirmed_source_message_id
    && is_some a.confirmed_at
    && has_cut db a
has_shape db a stale = is_none a.send_started_at
has_shape db a cancelled = is_none a.send_started_at
has_shape db a not_sent = is_none a.send_started_at
has_shape db a handoff_done = true

-- A value that is set stays as it is.
abbrev pub keeps : Option ℕ → Option ℕ → Bool
keeps none new = true
keeps (some a) new = equals_number new a

-- Where a value is set that was not.
abbrev pub sets : Option ℕ → Option ℕ → Bool
sets old new = is_none old && is_some new

abbrev pub may_have_evidence : State → Bool
may_have_evidence sending = true
may_have_evidence uncertain = true
may_have_evidence confirmed = true
may_have_evidence handoff_done = true
may_have_evidence _ = false

abbrev pub is_same_bool : Bool → Bool → Bool
is_same_bool true b = b
is_same_bool false b = not b

-- `public_actions_monotonic_lifecycle_v4`.
unfoldable pub is_monotonic : Db → Action → Action → Bool
unfolding may_follow has_shape
is_monotonic db old new =
    may_follow old.state new.state
    && has_shape db new new.state
    && keeps old.send_started_at new.send_started_at
    && (not (sets old.send_started_at new.send_started_at)
        || (is_gating old.state && is_sending new.state))
    && is_same_bool (is_none new.confirmed_source_message_id) (is_none new.confirmed_at)
    && (not (sets old.confirmed_source_message_id new.confirmed_source_message_id)
        || (is_some new.send_started_at && may_have_evidence new.state))
    && keeps old.confirmed_source_message_id new.confirmed_source_message_id
    && keeps old.confirmed_at new.confirmed_at
