-- ===== src/EpisodeStore/Operations.antt =====
-- src/copilot/episode-store.mjs, lines 111 to 133 and 283 to 528: the methods of `EpisodeStore`.
-- `now` is what `this.now()` returns during the call, and `fresh` what `this.idFactory()` does.
use babypark_integration.Base.{
  ℕ, ◌+◌, Bool, true, false, ◌&&◌, not, Option, none, some, is_none, is_some, List, [], ◌∷◌, map,
  String, str_eq, leb, ◌==◌, if◌then◌else◌, length, order_by, pos, Value, num, max_safe_integer,
  Result, ok, err, ◌>>=◌, ◌>>◌, fail_if,
}
use babypark_integration.EpisodeStore.Input.{
  Error, active_exists, message_already_consumed, message_out_of_order, clarification_limit_reached,
  stale_write, expected_version_required, episode_not_found, episode_closed, Slot, SlotValue, rank,
  safe_token,
}
use babypark_integration.EpisodeStore.Tables.{
  active, closed, Episode, Message, SlotRow, Candidate, Db, is_active, value_eq, insert,
  episode_clash, message_clash, slot_clash, candidate_clash, find, find_active, hit, update,
  changes, max_message_id, advance_watermark, is_consumed, has_message, last_message, find_slot,
  delete_slot, upsert_slot, delete_candidates, select,
}

-- What `#readEpisode` returns.
pub record View : Type 0 where
  pub row : Episode
  pub source_message_ids : List ℕ
  pub stable_slots : List (Slot × SlotValue)
  pub presented_candidates : List (Slot × SlotValue)

abbrev read_row : String → Db → Episode → View
read_row id db row = record {
  row = row;
  source_message_ids =
      map (λ r. r.message_id)
        (order_by (λ r. r.ordinal) (select (λ r. str_eq r.episode_id id) db.messages));
  stable_slots =
      map (λ r. (r.slot_name, r.value_json))
        (order_by (λ r. rank r.slot_name) (select (λ r. str_eq r.episode_id id) db.slots));
  presented_candidates =
      map (λ r. (r.slot_name, r.value_json))
        (order_by (λ r. r.ordinal) (select (λ r. str_eq r.episode_id id) db.candidates));
}

unfoldable pub read_episode : String → Db → Option View
unfolding find select
read_episode id db = elim (find id db.episodes) [
  | none ↦ none
  | some row ↦ some (read_row id db row)
]

-- The body of a transaction: the database that it has written, and its result.
abbrev pub Body : Type 0
Body = Result Error (Db × Option View)

abbrev pub done : String → Db → Body
done id db = ok (db, read_episode id db)

-- `tx`: the writes of a body that throws are rolled back.
abbrev pub commit : Db → Body → Db × Result Error (Option View)
commit db (ok (db', a)) = (db', ok a)
commit db (err e) = (db, err e)

unfoldable pub tx : Db → (Db → Body) → Db × Result Error (Option View)
tx db body = commit db (body db)

unfoldable pub expected : Value → Result Error ℕ
expected (num (pos n)) =
    if leb 1 n && leb n max_safe_integer then ok n else err expected_version_required
expected _ = err expected_version_required

abbrev pub found : Option Episode → Result Error Episode
found none = err episode_not_found
found (some row) = ok row

unfoldable pub require_active : String → Value → Db → Result Error Episode
unfolding expected find
require_active id expected_version db = do
  v ← expected expected_version
  row ← found (find id db.episodes)
  fail_if (not (is_active row.state)) episode_closed
  fail_if (not (row.version == v)) stale_write
  ok row

-- `#bump`. A version is a number without a bound here; the driver of the source refuses to read one of
-- 2^53 or more.
unfoldable pub bump : String → ℕ → ℕ → Db → Result Error Db
unfolding update changes
bump id v now db = do
  fail_if (not (changes (hit id v) db.episodes == 1)) stale_write
  ok (record db {
    episodes =
        update (hit id v) (λ e. record e { version = e.version + 1; updated_at = now }) db.episodes;
  })

-- The loop over the slots of a new episode; `null` entries are skipped.
unfoldable pub insert_slots :
    String → List (Slot × Option SlotValue) → List SlotRow → Result Error (List SlotRow)
insert_slots id [] rows = ok rows
insert_slots id ((s, none) ∷ ps) rows = insert_slots id ps rows
insert_slots id ((s, some v) ∷ ps) rows =
    insert slot_clash (record { episode_id = id; slot_name = s; value_json = v }) rows
    >>= insert_slots id ps

abbrev pub new_episode : String → ℕ → ℕ → Episode
new_episode id c now = record {
  episode_id = id;
  conversation_id = c;
  state = active;
  version = 1;
  clarification_prompts_sent = 0;
  requested_slot = none;
  created_at = now;
  updated_at = now;
  closed_at = none;
  close_reason = none;
}

unfoldable pub begin_body : ℕ → ℕ → List (Slot × Option SlotValue) → ℕ → Value → Db → Body
unfolding find_active max_message_id insert_slots advance_watermark insert
begin_body c m patch now fresh db = do
  fail_if (is_some (find_active c db.episodes)) active_exists
  fail_if (is_consumed (max_message_id c db.watermarks) m) message_already_consumed
  id ← safe_token fresh
  episodes ← insert episode_clash (new_episode id c now) db.episodes
  messages ←
      insert message_clash (record { episode_id = id; message_id = m; ordinal = 1 }) db.messages
  slots ← insert_slots id patch db.slots
  done id (record db {
    episodes = episodes;
    messages = messages;
    slots = slots;
    watermarks = advance_watermark c m db.watermarks;
  })

abbrev out_of_order : Option Message → ℕ → Bool
out_of_order none m = false
out_of_order (some last) m = leb m last.message_id

-- `(last?.ordinal ?? 0) + 1`.
abbrev next_ordinal : Option Message → ℕ
next_ordinal none = 1
next_ordinal (some last) = last.ordinal + 1

unfoldable pub append_new : String → ℕ → ℕ → Episode → Db → Body
unfolding last_message max_message_id advance_watermark insert bump
append_new id m now e db = do
  fail_if (out_of_order (last_message id db.messages) m) message_out_of_order
  fail_if (is_consumed (max_message_id e.conversation_id db.watermarks) m) message_already_consumed
  messages ←
      insert message_clash
        (record {
          episode_id = id;
          message_id = m;
          ordinal = next_ordinal (last_message id db.messages);
        })
        db.messages
  db' ← bump id e.version now (record db {
    messages = messages;
    watermarks = advance_watermark e.conversation_id m db.watermarks;
  })
  done id db'

unfoldable pub append_body : String → ℕ → Value → ℕ → Db → Body
unfolding require_active has_message append_new
append_body id m expected_version now db = do
  e ← require_active id expected_version db
  if has_message id m db.messages then done id db else append_new id m now e db

-- The loop of `setStableSlots`, with its flag `changed`.
unfoldable pub set_slots :
    String → List (Slot × Option SlotValue) → Bool → List SlotRow → Bool × List SlotRow
set_slots id [] changed rows = (changed, rows)
set_slots id ((s, none) ∷ ps) changed rows =
    let removed = set_slots id ps true (delete_slot id s rows) in
    if is_some (find_slot id s rows) then removed else set_slots id ps changed rows
set_slots id ((s, some v) ∷ ps) changed rows =
    let written = set_slots id ps true (upsert_slot id s v rows) in
    let kept = set_slots id ps changed rows in
    elim (find_slot id s rows) [ none ↦ written | some w ↦ if value_eq w v then kept else written ]

unfoldable pub slots_body : String → List (Slot × Option SlotValue) → Value → ℕ → Db → Body
unfolding require_active set_slots bump
slots_body id patch expected_version now db = do
  e ← require_active id expected_version db
  let (changed, rows) = set_slots id patch false db.slots
  let db' = record db { slots = rows }
  db'' ← (if changed then bump id e.version now db' else ok db')
  done id db''

-- The loop over `candidates.entries()`, from index `i`.
unfoldable pub insert_candidates :
    String → ℕ → List (Slot × SlotValue) → List Candidate → Result Error (List Candidate)
insert_candidates id i [] rows = ok rows
insert_candidates id i ((s, v) ∷ cs) rows =
    insert candidate_clash
      (record { episode_id = id; slot_name = s; ordinal = i + 1; value_json = v }) rows
    >>= insert_candidates id (i + 1) cs

unfoldable pub clarify_body :
    String → Option String → List (Slot × SlotValue) → Value → ℕ → Db → Body
unfolding require_active update changes delete_candidates insert_candidates insert
clarify_body id requested candidates expected_version now db = do
  e ← require_active id expected_version db
  fail_if (not (e.clarification_prompts_sent == 0)) clarification_limit_reached
  fail_if (not (changes (hit id e.version) db.episodes == 1)) stale_write
  rows ← insert_candidates id 0 candidates (delete_candidates id db.candidates)
  done id (record db {
    episodes =
        update (hit id e.version)
          (λ r. record r {
            clarification_prompts_sent = 1;
            requested_slot = requested;
            version = r.version + 1;
            updated_at = now;
          })
          db.episodes;
    candidates = rows;
  })

-- `SELECT COUNT(*) … WHERE episode_id=?`.
abbrev count_candidates : String → Db → ℕ
count_candidates id db = length (select (λ r. str_eq r.episode_id id) db.candidates)

unfoldable pub clear_body : String → Value → ℕ → Db → Body
unfolding require_active update delete_candidates select
clear_body id expected_version now db = do
  e ← require_active id expected_version db
  if is_none e.requested_slot && count_candidates id db == 0
      then done id db
      else done id (record db {
        candidates = delete_candidates id db.candidates;
        episodes =
            update (hit id e.version)
              (λ r. record r { requested_slot = none; version = r.version + 1; updated_at = now })
              db.episodes;
      })

unfoldable pub close_body : String → String → Value → ℕ → Db → Body
unfolding require_active update changes
close_body id reason expected_version now db = do
  e ← require_active id expected_version db
  fail_if (not (changes (hit id e.version) db.episodes == 1)) stale_write
  done id (record db {
    episodes =
        update (hit id e.version)
          (λ r. record r {
            state = closed;
            version = r.version + 1;
            updated_at = now;
            closed_at = some now;
            close_reason = some reason;
          })
          db.episodes;
  })
