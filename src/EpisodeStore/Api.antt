-- ===== src/EpisodeStore/Api.antt =====
-- src/copilot/episode-store.mjs, lines 283 to 469: the public methods, which validate their
-- arguments and then open a transaction, and a history of calls.
use babypark_integration.Base.{
  ℕ, Bool, Option, none, some, List, [], ◌∷◌, String, ltb, Value, undefined, arr, obj, Items, nil,
  item, end, Result, ok, err, ◌>>=◌, ◌>>◌, fail_if, is_none, ◌&&◌, suc,
}
use babypark_integration.EpisodeStore.Input.{
  Error, candidate_invalid, candidate_limit_exceeded, clarification_invalid, Slot, SlotValue,
  positive_integer, safe_token, normalize_slot_patch, normalize_requested_slot,
  normalize_close_reason, normalize_candidates,
}
use babypark_integration.EpisodeStore.Tables.{Db, find_active}
use babypark_integration.EpisodeStore.Operations.{
  View, Body, tx, read_episode, begin_body, append_body, slots_body, clarify_body, clear_body,
  close_body,
}

abbrev pub Outcome : Type 0
Outcome = Result Error (Option View)

-- A method that throws before its transaction has not touched the database.
abbrev pub checked {ℓ} : {A : Type ℓ} → Db → Result Error A → (A → Db → Body) → Db × Outcome
checked db (err e) body = (db, err e)
checked db (ok a) body = tx db (body a)

-- A default value in a parameter list.
abbrev or_default : Value → Value → Value
or_default undefined d = d
or_default v d = v

unfoldable pub begin_input :
    Value → Value → Value → Result Error (ℕ × ℕ × List (Slot × Option SlotValue))
begin_input conversation_id source_message_id stable_slots = do
  c ← positive_integer conversation_id
  m ← positive_integer source_message_id
  patch ← normalize_slot_patch (or_default stable_slots (obj end))
  ok (c, m, patch)

unfoldable pub begin_episode : Value → Value → Value → ℕ → Value → Db → Db × Outcome
unfolding begin_input
begin_episode conversation_id source_message_id stable_slots now fresh db =
    checked db (begin_input conversation_id source_message_id stable_slots)
      (λ a. begin_body a.0 a.1 a.2 now fresh)

unfoldable pub append_input : Value → Value → Result Error (String × ℕ)
append_input episode_id source_message_id = do
  id ← safe_token episode_id
  m ← positive_integer source_message_id
  ok (id, m)

unfoldable pub append_source_message : Value → Value → Value → ℕ → Db → Db × Outcome
unfolding append_input
append_source_message episode_id source_message_id expected_version now db =
    checked db (append_input episode_id source_message_id)
      (λ a. append_body a.0 a.1 expected_version now)

unfoldable pub slots_input : Value → Value → Result Error (String × List (Slot × Option SlotValue))
slots_input episode_id patch = do
  id ← safe_token episode_id
  ps ← normalize_slot_patch patch
  ok (id, ps)

unfoldable pub set_stable_slots : Value → Value → Value → ℕ → Db → Db × Outcome
unfolding slots_input
set_stable_slots episode_id patch expected_version now db =
    checked db (slots_input episode_id patch) (λ a. slots_body a.0 a.1 expected_version now)

abbrev items : Value → Result Error Items
items (arr vs) = ok vs
items _ = err candidate_invalid

abbrev pub max_presented_candidates : ℕ
max_presented_candidates = 20

abbrev pub count : Items → ℕ
count nil = 0
count (item v vs) = suc (count vs)

abbrev is_empty {ℓ} : {A : Type ℓ} → List A → Bool
is_empty [] = Bool.true
is_empty (x ∷ xs) = Bool.false

-- The arguments of `recordClarificationPrompt`, validated.
unfoldable pub clarification_input :
    Value → Value → Value → Result Error (String × Option String × List (Slot × SlotValue))
clarification_input episode_id requested_slot presented = do
  id ← safe_token episode_id
  requested ← normalize_requested_slot requested_slot
  vs ← items (or_default presented (arr nil))
  fail_if (ltb max_presented_candidates (count vs)) candidate_limit_exceeded
  candidates ← normalize_candidates vs
  fail_if (is_none requested && is_empty candidates) clarification_invalid
  ok (id, requested, candidates)

unfoldable pub record_clarification_prompt : Value → Value → Value → Value → ℕ → Db → Db × Outcome
unfolding clarification_input
record_clarification_prompt episode_id requested_slot presented expected_version now db =
    checked db (clarification_input episode_id requested_slot presented)
      (λ a. clarify_body a.0 a.1 a.2 expected_version now)

unfoldable pub clear_clarification_context : Value → Value → ℕ → Db → Db × Outcome
clear_clarification_context episode_id expected_version now db =
    checked db (safe_token episode_id) (λ id. clear_body id expected_version now)

unfoldable pub close_input : Value → Value → Result Error (String × String)
close_input episode_id reason = do
  id ← safe_token episode_id
  r ← normalize_close_reason reason
  ok (id, r)

unfoldable pub close_episode : Value → Value → Value → ℕ → Db → Db × Outcome
unfolding close_input
close_episode episode_id reason expected_version now db =
    checked db (close_input episode_id reason) (λ a. close_body a.0 a.1 expected_version now)

-- The reads `loadActive` and `getEpisode`.
unfoldable pub load_active : Value → Db → Outcome
load_active conversation_id db = do
  c ← positive_integer conversation_id
  ok (elim (find_active c db.episodes) [ none ↦ none | some e ↦ read_episode e.episode_id db ])

unfoldable pub get_episode : Value → Db → Outcome
get_episode episode_id db = do id ← safe_token episode_id; ok (read_episode id db)

pub data Request : Type 0 where
  begins : Value → Value → Value → Value → Request
  appends : Value → Value → Value → Request
  sets : Value → Value → Value → Request
  clarifies : Value → Value → Value → Value → Request
  clears : Value → Value → Request
  closes : Value → Value → Value → Request

-- One call, at the time that the clock shows.
unfoldable pub call : ℕ × Request → Db → Db × Outcome
call (now, begins c m slots fresh) db = begin_episode c m slots now fresh db
call (now, appends id m v) db = append_source_message id m v now db
call (now, sets id patch v) db = set_stable_slots id patch v now db
call (now, clarifies id slot presented v) db =
    record_clarification_prompt id slot presented v now db
call (now, clears id v) db = clear_clarification_context id v now db
call (now, closes id reason v) db = close_episode id reason v now db

unfoldable pub run : List (ℕ × Request) → Db → Db
run [] db = db
run (c ∷ cs) db = run cs (call c db).0

abbrev pub empty : Db
empty = record { episodes = []; messages = []; watermarks = []; slots = []; candidates = [] }
