-- ===== src/Routing/Planner.antt =====
-- src/copilot/first-line-routing-planner.mjs, lines 34 to 341: the checks of a snapshot and the two
-- projections.
use mathlib.Core.Option
use babypark_integration.Base.{
  ℕ, ◌+◌, Bool, true, false, ◌&&◌, ◌||◌, not, Option, none, some, is_none, List, [], ◌∷◌, ◌++◌, map,
  reverse, String, str_eq, ltb, leb, ◌==◌, if◌then◌else◌, length, every, last_or, order_by,
  max_safe_integer, codes, is_digit, Result, ok, err, ◌>>=◌,
}
use babypark_integration.Routing.Snapshot.{
  EventKind, customer_message, system_template, babypark_public_reply, human_public_reply,
  other_bot_public_reply, automation_public, unknown_public, MessageType, incoming, outgoing,
  template, SenderClass, contact, no_sender, configured_agent_bot, ContentType, text, input_email,
  input_csat, input_select, Event, ActionType, answer, clarify, ActionState, confirmed, Action,
  Entry, ActiveEpisode, Snapshot, Error, input_invalid, basis_unavailable, Code,
  topology_unprovable, no_open_turn, open_turn, Reason, routing_suffix_limit, no_accepted_events,
  unsupported_system_template, unsupported_customer_event, open_turn_event_limit,
  unconfirmed_babypark_reply, unsupported_confirmed_babypark_reply, after_confirmed_babypark_reply,
  confirmed_babypark_reply_last, ownership_blocker, unknown_event_kind, no_customer_event,
  from_stream_start, confirmed_clarification_original_basis, PlanToken, Boundary, OpenTurn,
  Projection,
}

-- The constants of first-line-state-store.mjs, lines 20 to 22.
abbrev pub max_open_turn_events : ℕ
max_open_turn_events = 999

abbrev routing_snapshot_schema : String
routing_snapshot_schema = "bp.first-line.routing-snapshot/1"

abbrev positive_integer : ℕ → Bool
positive_integer n = ltb 0 n && leb n max_safe_integer

abbrev non_negative_integer : ℕ → Bool
non_negative_integer n = leb n max_safe_integer

abbrev is_hex : ℕ → Bool
is_hex c = is_digit c || (leb b'a' c && leb c b'f')

-- `s` after the prefix `p`.
abbrev strip : List ℕ → List ℕ → Option (List ℕ)
strip [] s = some s
strip (c ∷ p) [] = none
strip (c ∷ p) (d ∷ s) = if c == d then strip p s else none

-- `/^sha256:[0-9a-f]{64}$/`.
is_fingerprint : String → Bool
is_fingerprint s = elim (strip (codes "sha256:") (codes s)) [
  | none ↦ false
  | some digits ↦ length digits == 64 && every is_hex digits
]

-- `requireSnapshot`.
unfoldable pub is_snapshot : Snapshot → Bool
unfolding is_fingerprint
is_snapshot s =
    s.certified
    && str_eq s.schema routing_snapshot_schema
    && is_fingerprint s.routing_ledger_fingerprint
    && s.max_open_turn_events == max_open_turn_events
    && positive_integer s.stream.source_conversation_id
    && non_negative_integer s.stream.stream_revision
    && non_negative_integer s.stream.last_event_seq
    && str_eq s.stream.source_provider "chatwoot"

unfoldable pub plan_token : Snapshot → PlanToken
plan_token s = record {
  stream_id = s.stream.stream_id;
  stream_revision = s.stream.stream_revision;
  through_event_seq = s.stream.last_event_seq;
  routing_ledger_fingerprint = s.routing_ledger_fingerprint;
  episode_id = Option.map (λ e. ActiveEpisode.episode_id e) s.active_episode;
  episode_version = Option.map (λ e. ActiveEpisode.version e) s.active_episode;
  live_action_id = Option.map (λ a. Action.action_id a) s.live_public_action;
  live_action_state = Option.map (λ a. Action.state a) s.live_public_action;
}

unfoldable pub boundary_dto : Entry → Boundary
boundary_dto e = record {
  event_seq = e.event.event_seq;
  source_message_id = e.event.source_message_id;
  event_kind = e.event.event_kind;
  confirmed_action_id = Option.map (λ a. Action.action_id a) e.confirmed_babypark_action;
  confirmed_action_type = Option.map (λ a. Action.action_type a) e.confirmed_babypark_action;
}

-- `resultBase` with what each result adds.
unfoldable pub result : Snapshot → Code → Reason → Option OpenTurn → Option Entry → Projection
result s code reason turn boundary = record {
  stream_id = s.stream.stream_id;
  source_conversation_id = s.stream.source_conversation_id;
  stream_revision = s.stream.stream_revision;
  through_event_seq = s.stream.last_event_seq;
  plan_token = plan_token s;
  active_episode = s.active_episode;
  live_public_action = s.live_public_action;
  clarification_action = s.clarification_action;
  confirmed_clarification_action = s.confirmed_clarification_action;
  code = code;
  reason = reason;
  turn = turn;
  boundary = Option.map boundary_dto boundary;
}

abbrev pub unprovable : Snapshot → Reason → Option Entry → Projection
unprovable s reason blocker = result s topology_unprovable reason none blocker

abbrev pub no_turn : Snapshot → Reason → Option Entry → Projection
no_turn s reason boundary = result s no_open_turn reason none boundary

abbrev pub seq : Entry → ℕ
seq e = e.event.event_seq

-- The DTO of entries in order. The planner makes it of no empty list.
unfoldable pub turn_of : List Entry → OpenTurn
turn_of es = record {
  event_seqs = map seq es;
  source_message_ids = map (λ e. e.event.source_message_id) es;
  first_event_seq = (elim es [ [] ↦ 0 | e ∷ rest ↦ seq e ]);
  last_event_seq = last_or 0 (map seq es);
  message_count = length es;
}

-- `openTurn`: the entries were collected from the newest to the oldest.
unfoldable pub open_turn_of : Snapshot → List Entry → Reason → Option Entry → Projection
open_turn_of s customers reason boundary =
    result s open_turn reason (some (turn_of (reverse customers))) boundary

abbrev pub is_incoming : MessageType → Bool
is_incoming incoming = true
is_incoming _ = false

abbrev is_outgoing : MessageType → Bool
is_outgoing outgoing = true
is_outgoing _ = false

abbrev is_template : MessageType → Bool
is_template template = true
is_template _ = false

abbrev pub is_contact : SenderClass → Bool
is_contact contact = true
is_contact _ = false

abbrev is_no_sender : SenderClass → Bool
is_no_sender no_sender = true
is_no_sender _ = false

abbrev is_agent_bot : SenderClass → Bool
is_agent_bot configured_agent_bot = true
is_agent_bot _ = false

abbrev is_text : ContentType → Bool
is_text text = true
is_text _ = false

abbrev is_template_content : ContentType → Bool
is_template_content text = true
is_template_content input_email = true
is_template_content input_csat = true
is_template_content _ = false

abbrev is_clarify_content : ContentType → Bool
is_clarify_content text = true
is_clarify_content input_select = true
is_clarify_content _ = false

abbrev is_plain : Event → Bool
is_plain e = not e.deleted && not e.unsupported && not e.has_attachments

abbrev pub is_customer : EventKind → Bool
is_customer customer_message = true
is_customer _ = false

abbrev pub is_system_template : EventKind → Bool
is_system_template system_template = true
is_system_template _ = false

abbrev pub is_babypark_reply : EventKind → Bool
is_babypark_reply babypark_public_reply = true
is_babypark_reply _ = false

unfoldable pub supported_customer_event : Event → Bool
supported_customer_event e =
    is_customer e.event_kind
    && is_incoming e.message_type
    && is_contact e.sender_class
    && is_plain e
    && is_text e.content_type

unfoldable pub supported_neutral_template : Event → Bool
supported_neutral_template e =
    is_system_template e.event_kind
    && is_template e.message_type
    && is_no_sender e.sender_class
    && is_none e.sender_id
    && is_plain e
    && is_template_content e.content_type

-- The content that a confirmed action may have sent; no other action is supported.
abbrev supported_content : ActionType → ContentType → Bool
supported_content answer c = is_text c
supported_content clarify c = is_clarify_content c
supported_content _ c = false

abbrev is_source : Option String → String → Bool
is_source none id = false
is_source (some s) id = str_eq id s

unfoldable pub supported_confirmed_reply : Event → Action → Bool
supported_confirmed_reply e a =
    is_babypark_reply e.event_kind
    && is_outgoing e.message_type
    && is_agent_bot e.sender_class
    && is_plain e
    && supported_content a.action_type e.content_type
    && is_source e.source_id a.action_id
    && positive_integer a.prepared_stream_revision

-- `customerEntries` is not empty.
abbrev pub is_filled {ℓ} : {A : Type ℓ} → List A → Bool
is_filled [] = false
is_filled (x ∷ xs) = true

-- A reply of the bot, with the confirmed action of its entry.
unfoldable pub stop_reply : Snapshot → List Entry → Entry → Option Action → Projection
stop_reply s customers e none = unprovable s unconfirmed_babypark_reply (some e)
stop_reply s customers e (some a) =
    if supported_confirmed_reply e.event a
    then (if is_filled customers
        then open_turn_of s customers after_confirmed_babypark_reply (some e)
        else no_turn s confirmed_babypark_reply_last (some e))
    else unprovable s unsupported_confirmed_babypark_reply (some e)

-- What stops the walk at an entry that is neither a customer's message nor a template.
unfoldable pub stop : Snapshot → List Entry → Entry → EventKind → Projection
stop s customers e babypark_public_reply = stop_reply s customers e e.confirmed_babypark_action
stop s customers e human_public_reply = unprovable s ownership_blocker (some e)
stop s customers e other_bot_public_reply = unprovable s ownership_blocker (some e)
stop s customers e automation_public = unprovable s ownership_blocker (some e)
stop s customers e unknown_public = unprovable s ownership_blocker (some e)
stop s customers e kind = unprovable s unknown_event_kind (some e)

-- After the whole suffix was walked.
unfoldable pub finish : Snapshot → List Entry → Projection
finish s customers =
    if s.suffix_truncated
    then unprovable s routing_suffix_limit none
    else if is_filled customers
    then open_turn_of s customers from_stream_start none
    else no_turn s no_customer_event none

-- The loop of `projectOpenTurn` over the suffix from its end, with `customerEntries`.
unfoldable pub walk : Snapshot → List Entry → List Entry → Projection
walk s [] customers = finish s customers
walk s (e ∷ es) customers =
    let skipped = walk s es customers in
    let collected = walk s es (customers ++ e ∷ []) in
    if is_system_template e.event.event_kind
    then (if supported_neutral_template e.event
        then skipped
        else unprovable s unsupported_system_template (some e))
    else if is_customer e.event.event_kind
    then (if supported_customer_event e.event
        then (if ltb max_open_turn_events (length (customers ++ e ∷ []))
            then unprovable s open_turn_event_limit none
            else collected)
        else unprovable s unsupported_customer_event (some e))
    else stop s customers e e.event.event_kind

-- The events count up by one from `expected`.
unfoldable pub is_contiguous : ℕ → List Entry → Bool
is_contiguous expected [] = true
is_contiguous expected (e ∷ es) = seq e == expected && is_contiguous (expected + 1) es

-- `projectOpenTurn` of a suffix that has a first entry.
unfoldable pub is_suffix : Snapshot → Entry → List Entry → Bool
unfolding is_contiguous
is_suffix s e es =
    positive_integer (seq e)
    && is_contiguous (seq e) (e ∷ es)
    && last_or 0 (map seq (e ∷ es)) == s.stream.last_event_seq

unfoldable pub project_suffix : Snapshot → List Entry → Result Error Projection
unfolding is_suffix walk
project_suffix s [] = ok (
    if s.suffix_truncated
    then unprovable s routing_suffix_limit none
    else no_turn s no_accepted_events none)
project_suffix s (e ∷ es) =
    if is_suffix s e es then ok (walk s (reverse (e ∷ es)) []) else err input_invalid

unfoldable pub project_open_turn : Snapshot → Result Error Projection
unfolding is_snapshot project_suffix
project_open_turn s = if is_snapshot s then project_suffix s s.event_suffix else err input_invalid

abbrev pub is_clarify : ActionType → Bool
is_clarify clarify = true
is_clarify _ = false

abbrev pub is_confirmed : ActionState → Bool
is_confirmed confirmed = true
is_confirmed _ = false

-- The guard of `projectConfirmedClarificationBasis`.
unfoldable pub is_basis : Snapshot → ActiveEpisode → Action → Bool
is_basis s episode a =
    episode.is_active
    && episode.clarification_prompts_sent == 1
    && is_clarify a.action_type
    && is_confirmed a.state
    && str_eq a.stream_id s.stream.stream_id
    && str_eq a.episode_id episode.episode_id
    && is_filled a.basis_event_seqs

-- `bySeq.get`: of two entries with one number the map holds the later.
unfoldable pub by_seq : ℕ → List Entry → Option Entry
by_seq n [] = none
by_seq n (e ∷ es) = elim (by_seq n es) [
  | some found ↦ some found
  | none ↦ if seq e == n then some e else none
]

unfoldable pub is_basis_event : Event → Bool
is_basis_event e =
    is_customer e.event_kind && is_incoming e.message_type && is_contact e.sender_class

-- The check of the entry that the map holds.
unfoldable pub basis_entry : Option Entry → Result Error Entry
unfolding is_basis_event
basis_entry none = err basis_unavailable
basis_entry (some e) = if is_basis_event e.event then ok e else err basis_unavailable

-- The loop over `basis_event_seqs`.
unfoldable pub basis_entries : List Entry → List ℕ → Result Error (List Entry)
unfolding by_seq basis_entry
basis_entries suffix [] = ok []
basis_entries suffix (n ∷ ns) = do
  e ← basis_entry (by_seq n suffix)
  es ← basis_entries suffix ns
  ok (e ∷ es)

abbrev pub basis_of : Snapshot → Option ActiveEpisode → Option Action → Result Error (List ℕ)
basis_of s none a = err input_invalid
basis_of s (some episode) none = err input_invalid
basis_of s (some episode) (some a) =
    if is_basis s episode a then ok a.basis_event_seqs else err input_invalid

unfoldable pub project_confirmed_clarification_basis : Snapshot → Result Error Projection
unfolding is_snapshot is_basis basis_entries
project_confirmed_clarification_basis s =
    if is_snapshot s
    then (do
      basis ← basis_of s s.active_episode s.confirmed_clarification_action
      entries ← basis_entries s.event_suffix basis
      ok (
          result s open_turn confirmed_clarification_original_basis
            (some (turn_of (order_by seq entries))) none))
    else err input_invalid
