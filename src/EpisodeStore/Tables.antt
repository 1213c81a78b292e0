-- ===== src/EpisodeStore/Tables.antt =====
-- src/copilot/episode-store.mjs, lines 10 to 56 and the SQL statements of the methods: the tables
-- as lists of rows, and the queries and updates on them. The column `value_json` holds the value
-- itself. A query without `ORDER BY` reads the rows in the order of their insertion. The CHECK
-- clauses and the foreign keys are not tested by the operations.
use babypark_integration.Base.{
  ℕ, ◌+◌, Bool, true, false, ◌&&◌, ◌||◌, Option, none, some, List, [], ◌∷◌, ◌++◌, String, str_eq,
  ltb, leb, ◌==◌, if◌then◌else◌, any, Result, ok, err,
}
use babypark_integration.EpisodeStore.Input.{Error, constraint, Slot, rank, SlotValue, text, minor}

pub data State : Type 0 where
  active closed : State

pub record Episode : Type 0 where
  pub episode_id : String
  pub conversation_id : ℕ
  pub state : State
  pub version : ℕ
  pub clarification_prompts_sent : ℕ
  pub requested_slot : Option String
  pub created_at : ℕ
  pub updated_at : ℕ
  pub closed_at : Option ℕ
  pub close_reason : Option String

pub record Message : Type 0 where
  pub episode_id : String
  pub message_id : ℕ
  pub ordinal : ℕ

pub record Watermark : Type 0 where
  pub conversation_id : ℕ
  pub max_message_id : ℕ

pub record SlotRow : Type 0 where
  pub episode_id : String
  pub slot_name : Slot
  pub value_json : SlotValue

pub record Candidate : Type 0 where
  pub episode_id : String
  pub slot_name : Slot
  pub ordinal : ℕ
  pub value_json : SlotValue

pub record Db : Type 0 where
  pub episodes : List Episode
  pub messages : List Message
  pub watermarks : List Watermark
  pub slots : List SlotRow
  pub candidates : List Candidate

abbrev pub is_active : State → Bool
is_active active = true
is_active closed = false

unfoldable pub slot_eq : Slot → Slot → Bool
slot_eq a b = rank a == rank b

unfoldable pub value_eq : SlotValue → SlotValue → Bool
value_eq (text a) (text b) = str_eq a b
value_eq (minor a) (minor b) = a == b
value_eq (text a) (minor b) = false
value_eq (minor a) (text b) = false

-- `INSERT`: refused if the new row clashes with a row of the table on a unique key.
unfoldable pub insert {ℓ} : {A : Type ℓ} → (A → A → Bool) → A → List A → Result Error (List A)
insert clash a rows = if any (clash a) rows then err constraint else ok (rows ++ a ∷ [])

-- PRIMARY KEY(episode_id), and the index `one_active_episode_per_conversation`.
abbrev pub episode_clash : Episode → Episode → Bool
episode_clash a b =
    str_eq a.episode_id b.episode_id
    || (is_active a.state && is_active b.state && a.conversation_id == b.conversation_id)

-- PRIMARY KEY(episode_id, message_id) and UNIQUE(episode_id, ordinal).
abbrev pub message_clash : Message → Message → Bool
message_clash a b =
    str_eq a.episode_id b.episode_id && (a.message_id == b.message_id || a.ordinal == b.ordinal)

abbrev pub slot_clash : SlotRow → SlotRow → Bool
slot_clash a b = str_eq a.episode_id b.episode_id && slot_eq a.slot_name b.slot_name

abbrev pub candidate_clash : Candidate → Candidate → Bool
candidate_clash a b =
    str_eq a.episode_id b.episode_id && slot_eq a.slot_name b.slot_name && a.ordinal == b.ordinal

-- `SELECT … FROM episodes WHERE episode_id=?`.
unfoldable pub find : String → List Episode → Option Episode
find id [] = none
find id (e ∷ es) = if str_eq e.episode_id id then some e else find id es

-- `SELECT … FROM episodes WHERE conversation_id=? AND state='active'`.
unfoldable pub find_active : ℕ → List Episode → Option Episode
find_active c [] = none
find_active c (e ∷ es) =
    if e.conversation_id == c && is_active e.state then some e else find_active c es

-- `WHERE episode_id=? AND state='active' AND version=?`.
abbrev pub hit : String → ℕ → Episode → Bool
hit id v e = str_eq e.episode_id id && is_active e.state && e.version == v

-- `UPDATE`: the table after it, and the number of rows that it changed.
unfoldable pub update : (Episode → Bool) → (Episode → Episode) → List Episode → List Episode
update where? f [] = []
update where? f (e ∷ es) = (if where? e then f e else e) ∷ update where? f es

unfoldable pub changes : (Episode → Bool) → List Episode → ℕ
changes where? [] = 0
changes where? (e ∷ es) = (if where? e then 1 else 0) + changes where? es

unfoldable pub max_message_id : ℕ → List Watermark → Option ℕ
max_message_id c [] = none
max_message_id c (w ∷ ws) =
    if w.conversation_id == c then some w.max_message_id else max_message_id c ws

-- `#advanceWatermark`: an upsert that only ever raises the mark.
unfoldable pub advance_watermark : ℕ → ℕ → List Watermark → List Watermark
advance_watermark c m [] = record { conversation_id = c; max_message_id = m } ∷ []
advance_watermark c m (w ∷ ws) =
    if w.conversation_id == c
    then (record w { max_message_id = if ltb w.max_message_id m then m else w.max_message_id } ∷ ws)
    else w ∷ advance_watermark c m ws

-- `watermark && message <= watermark.max_message_id`.
abbrev pub is_consumed : Option ℕ → ℕ → Bool
is_consumed none m = false
is_consumed (some w) m = leb m w

-- `SELECT ordinal FROM episode_messages WHERE episode_id=? AND message_id=?`.
unfoldable pub has_message : String → ℕ → List Message → Bool
has_message id m rows = any (λ r. str_eq r.episode_id id && r.message_id == m) rows

abbrev later : Message → Option Message → Message
later r none = r
later r (some s) = if ltb r.ordinal s.ordinal then s else r

-- `… WHERE episode_id=? ORDER BY ordinal DESC LIMIT 1`.
unfoldable pub last_message : String → List Message → Option Message
last_message id [] = none
last_message id (r ∷ rs) =
    if str_eq r.episode_id id then some (later r (last_message id rs)) else last_message id rs

unfoldable pub find_slot : String → Slot → List SlotRow → Option SlotValue
find_slot id s [] = none
find_slot id s (r ∷ rs) =
    if str_eq r.episode_id id && slot_eq r.slot_name s then some r.value_json else find_slot id s rs

unfoldable pub delete_slot : String → Slot → List SlotRow → List SlotRow
delete_slot id s [] = []
delete_slot id s (r ∷ rs) =
    if str_eq r.episode_id id && slot_eq r.slot_name s
    then delete_slot id s rs
    else r ∷ delete_slot id s rs

-- `INSERT … ON CONFLICT(episode_id,slot_name) DO UPDATE`.
unfoldable pub upsert_slot : String → Slot → SlotValue → List SlotRow → List SlotRow
upsert_slot id s v [] = record { episode_id = id; slot_name = s; value_json = v } ∷ []
upsert_slot id s v (r ∷ rs) =
    if str_eq r.episode_id id && slot_eq r.slot_name s
    then (record r { value_json = v } ∷ rs)
    else r ∷ upsert_slot id s v rs

-- `DELETE FROM episode_candidates WHERE episode_id=?`.
unfoldable pub delete_candidates : String → List Candidate → List Candidate
delete_candidates id [] = []
delete_candidates id (r ∷ rs) =
    if str_eq r.episode_id id then delete_candidates id rs else r ∷ delete_candidates id rs

unfoldable pub select {ℓ} : {A : Type ℓ} → (A → Bool) → List A → List A
select where? [] = []
select where? (r ∷ rs) = if where? r then r ∷ select where? rs else select where? rs
