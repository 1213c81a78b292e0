-- ===== src/EpisodeStore/Changes.antt =====
-- src/copilot/episode-store.mjs: what a transaction can do to the tables. It adds a new active row,
-- or advances the row that an update's WHERE clause hits, and it adds messages and watermarks.
use babypark_integration.Base.{
  ℕ, ◌+◌, ◌≡◌, sym, ◌∙◌, ◌⊎◌, true, false, List, [], ◌∷◌, ◌++◌, String, any, arith,
}
use mathlib.Core.List.{append-nil}
use babypark_integration.EpisodeStore.Tables.{
  Episode, active, closed, Db, hit, update, episode_clash, Message, Watermark, is_consumed,
  max_message_id, advance_watermark,
}

-- How an update may change a row.
pub record Advances (f : Episode → Episode) : Type 0 where
  pub same_id : (e : Episode) → (f e).episode_id ≡ e.episode_id
  pub same_conversation : (e : Episode) → (f e).conversation_id ≡ e.conversation_id
  pub same_creation : (e : Episode) → (f e).created_at ≡ e.created_at
  pub next_version : (e : Episode) → (f e).version ≡ e.version + 1
  pub prompts :
      (e : Episode)
      → ((f e).clarification_prompts_sent ≡ e.clarification_prompts_sent)
        ⊎ ((f e).clarification_prompts_sent ≡ 1)
  pub stays_open : (e : Episode) → ((f e).state ≡ e.state) ⊎ ((f e).state ≡ closed)

pub record IsNew (e : Episode) (es : List Episode) : Type 0 where
  pub opened : e.state ≡ active
  pub first_version : e.version ≡ 1
  pub unprompted : e.clarification_prompts_sent ≡ 0
  pub no_clash : any (episode_clash e) es ≡ false

pub data Write (es : List Episode) : List Episode → Type 0 where
  keep : Write es es
  add : (e : Episode) → IsNew e es → Write es (es ++ e ∷ [])
  advance :
      (id : String) (v : ℕ) (f : Episode → Episode) → Advances f → Write es (update (hit id v) f es)

-- Every message that a watermark covers is still covered.
abbrev pub MarksGrow : List Watermark → List Watermark → Type 0
MarksGrow ws ws' =
    (c m : ℕ)
    → is_consumed (max_message_id c ws) m ≡ true
    → is_consumed (max_message_id c ws') m ≡ true

-- What one call can do to the database; it adds messages at the end and deletes none.
pub record Change (db db' : Db) : Type 0 where
  pub rows : Write db.episodes db'.episodes
  pub marks : MarksGrow db.watermarks db'.watermarks
  pub added : List Message
  pub messages : db'.messages ≡ db.messages ++ added

pub advance_watermark-MarksGrow :
    (c m : ℕ) (ws : List Watermark) → MarksGrow ws (advance_watermark c m ws)
unfolding max_message_id advance_watermark
advance_watermark-MarksGrow c m [] d n h = cc
advance_watermark-MarksGrow c m (w ∷ ws) d n h =
    ground (arith, advance_watermark-MarksGrow c m ws d n)

pub advance_watermark-covers :
    (c m : ℕ) (ws : List Watermark)
    → is_consumed (max_message_id c (advance_watermark c m ws)) m ≡ true
unfolding max_message_id advance_watermark
advance_watermark-covers c m [] = ground arith
advance_watermark-covers c m (w ∷ ws) = ground (arith, advance_watermark-covers c m ws)

-- A change of the episodes table alone.
pub rows-Change :
    (db db' : Db)
    → Write db.episodes db'.episodes
    → db'.watermarks ≡ db.watermarks
    → db'.messages ≡ db.messages
    → Change db db'
rows-Change db db' w marks messages = record {
  rows = w;
  marks = λ c m h. rw marks h;
  added = [];
  messages = messages ∙ sym (append-nil db.messages);
}
