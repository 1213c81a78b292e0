-- ===== src/Actions/Queries.antt =====
-- src/copilot/first-line-state-store.mjs: the comparisons of SQL and the subqueries that more than one
-- statement has, on the rows of Tables.
use babypark_integration.Base.{
  ℕ, Bool, true, false, ◌&&◌, Option, none, some, List, [], ◌∷◌, String, str_eq, ◌==◌,
  if◌then◌else◌, any,
}
use babypark_integration.Actions.Tables.{
  Action, ActionType, Barrier, Db, Descriptor, Episode, EpisodeState, EventKind, Origin, OriginKind,
  Outcome, Owner, OwnerKind, State, Stream, active, answer, babypark_public_reply, by_action,
  by_human, cancelled, clarify, closed, confirmed, customer_message, gating, handoff_done, prepared,
  public_action, sending, stale, uncertain,
}

-- `IS`, under which NULL is equal to NULL.
abbrev pub is_same_text : Option String → Option String → Bool
is_same_text none none = true
is_same_text none (some b) = false
is_same_text (some a) none = false
is_same_text (some a) (some b) = str_eq a b

abbrev pub is_same_number : Option ℕ → Option ℕ → Bool
is_same_number none none = true
is_same_number none (some b) = false
is_same_number (some a) none = false
is_same_number (some a) (some b) = a == b

-- `=` in a WHERE clause, where NULL is equal to nothing.
abbrev pub equals_text : Option String → String → Bool
equals_text none b = false
equals_text (some a) b = str_eq a b

abbrev pub equals_number : Option ℕ → ℕ → Bool
equals_number none b = false
equals_number (some a) b = a == b

abbrev pub is_active : EpisodeState → Bool
is_active active = true
is_active closed = false

abbrev pub is_by_action : OwnerKind → Bool
is_by_action by_action = true
is_by_action by_human = false

abbrev pub is_public_action : OriginKind → Bool
is_public_action public_action = true
is_public_action _ = false

abbrev pub is_clarify : ActionType → Bool
is_clarify clarify = true
is_clarify answer = false

abbrev pub is_customer : EventKind → Bool
is_customer customer_message = true
is_customer _ = false

abbrev pub is_own_reply : EventKind → Bool
is_own_reply babypark_public_reply = true
is_own_reply _ = false

abbrev pub is_gating : State → Bool
is_gating gating = true
is_gating _ = false

abbrev pub is_sending : State → Bool
is_sending sending = true
is_sending _ = false

abbrev pub is_confirmed : State → Bool
is_confirmed confirmed = true
is_confirmed _ = false

abbrev pub is_handoff : State → Bool
is_handoff handoff_done = true
is_handoff _ = false

-- `state IN ('PREPARED','GATING')`, and the other lists of states.
abbrev pub is_unsent : State → Bool
is_unsent prepared = true
is_unsent gating = true
is_unsent _ = false

abbrev pub is_withdrawn : State → Bool
is_withdrawn stale = true
is_withdrawn cancelled = true
is_withdrawn _ = false

abbrev pub is_in_flight : State → Bool
is_in_flight sending = true
is_in_flight uncertain = true
is_in_flight _ = false

-- A recovery barrier that is not completed.
abbrev pub has_barrier : Db → Bool
has_barrier db =
    any (λ (b : Barrier). elim b.completed_at [ none ↦ true | some t ↦ false ]) db.barriers

abbrev pub is_open : Option Outcome → Bool
is_open none = true
is_open (some o) = false

-- The continuation owner of an action, unresolved and not a human.
abbrev pub owns : Action → Owner → Bool
owns a o =
    str_eq o.stream_id a.stream_id
    && o.stream_revision == a.prepared_stream_revision
    && equals_text o.action_id a.action_id
    && is_by_action o.owner_kind
    && is_open o.terminal_outcome

unfoldable pub has_owner : Db → Action → Bool
has_owner db a = any (owns a) db.owners

unfoldable pub has_descriptor : Db → Action → Bool
has_descriptor db a =
    any (λ (d : Descriptor). str_eq d.action_id a.action_id && str_eq d.stream_id a.stream_id)
      db.descriptors

unfoldable pub has_origin : Db → Action → Bool
has_origin db a =
    any
      (λ (o : Origin).
        str_eq o.stream_id a.stream_id
        && o.stream_revision == a.prepared_stream_revision
        && is_public_action o.origin_kind
        && equals_text o.action_id a.action_id)
      db.origins

unfoldable pub find_stream : String → List Stream → Option Stream
find_stream id [] = none
find_stream id (s ∷ ss) = if str_eq s.stream_id id then some s else find_stream id ss

-- A row of semantic_origins or continuation_owners, by its key.
unfoldable pub find_origin : String → ℕ → List Origin → Option Origin
find_origin id r [] = none
find_origin id r (o ∷ os) =
    if str_eq o.stream_id id && o.stream_revision == r then some o else find_origin id r os

unfoldable pub find_owner : String → ℕ → List Owner → Option Owner
find_owner id r [] = none
find_owner id r (o ∷ os) =
    if str_eq o.stream_id id && o.stream_revision == r then some o else find_owner id r os

unfoldable pub find_episode : String → List Episode → Option Episode
find_episode id [] = none
find_episode id (e ∷ es) = if str_eq e.episode_id id then some e else find_episode id es

unfoldable pub find_action : String → List Action → Option Action
find_action id [] = none
find_action id (a ∷ rest) = if str_eq a.action_id id then some a else find_action id rest
