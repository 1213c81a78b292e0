-- ===== src/EpisodeStore/Writes.antt =====
-- src/copilot/episode-store.mjs: every method of the class makes only the changes of `Changes`.
use babypark_integration.Base.{
  ℕ, ◌+◌, ◌≡◌, refl, sym, ap, ◌∙◌, subst, fail_if, inl, inr, Bool, true, false, Option, List, [],
  ◌∷◌, ◌++◌, String, any, arith, Value, Result, ok, err, ◌>>=◌, ◌>>◌, if◌then◌else◌,
}
use babypark_integration.EpisodeStore.Input.{Error, Slot, SlotValue}
use babypark_integration.EpisodeStore.Tables.{
  Episode, Db, hit, update, changes, episode_clash, insert, SlotRow, is_consumed, max_message_id,
  message_clash,
}
use babypark_integration.EpisodeStore.Operations.{
  View, Body, commit, tx, bump, begin_body, append_body, append_new, slots_body, clarify_body,
  clear_body, close_body, set_slots, new_episode,
}
use babypark_integration.EpisodeStore.Api.{
  Request, begins, appends, sets, clarifies, clears, closes, call, checked, begin_episode,
  append_source_message, set_stable_slots, record_clarification_prompt, clear_clarification_context,
  close_episode,
}
use babypark_integration.EpisodeStore.Changes.{
  Advances, Write, keep, add, advance, Change, advance_watermark-MarksGrow, rows-Change,
}

-- What a body has written, if it does not throw.
data Writes (db : Db) : Body → Type 0 where
  wrote : (db' : Db) (a : Option View) → Change db db' → Writes db (ok (db', a))
  threw : (e : Error) → Writes db (err e)

commit-Change : (db : Db) (r : Body) → Writes db r → Change db (commit db r).0
commit-Change db r (wrote db' a w) = w
commit-Change db r (threw e) = rows-Change db db keep refl refl

checked-Change {ℓ} :
    {A : Type ℓ} (db : Db) (input : Result Error A) (body : A → Db → Body)
    → ((a : A) → Writes db (body a db))
    → Change db (checked db input body).0
unfolding tx
checked-Change db (err e) body h = rows-Change db db keep refl refl
checked-Change db (ok a) body h = commit-Change db (body a db) (h a)

-- A body that goes on after a step which may throw.
bind-Writes {ℓ} :
    {A : Type ℓ} (db : Db) (m : Result Error A) (k : A → Body)
    → ((a : A) → m ≡ ok a → Writes db (k a))
    → Writes db (m >>= k)
unfolding ◌>>=◌
bind-Writes db (ok a) k h = h a refl
bind-Writes db (err e) k h = threw e

guard-Writes :
    (db : Db) (b : Bool) (e : Error) (k : Body)
    → (b ≡ false → Writes db k)
    → Writes db (fail_if b e >> k)
unfolding ◌>>=◌ ◌>>◌ fail_if
guard-Writes db true e k h = threw e
guard-Writes db false e k h = h refl

pub insert-eq-ok {ℓ} :
    {A : Type ℓ} (clash : A → A → Bool) (a : A) (rows : List A) {rows' : List A}
    → insert clash a rows ≡ ok rows'
    → (any (clash a) rows ≡ false) × (rows ++ a ∷ [] ≡ rows')
unfolding insert
insert-eq-ok clash a rows h = ground arith

begin_body-Writes :
    (c m : ℕ) (patch : List (Slot × Option SlotValue)) (now : ℕ) (fresh : Value) (db : Db)
    → Writes db (begin_body c m patch now fresh db)
unfolding begin_body
begin_body-Writes c m patch now fresh db = guard-Writes db _ _ _ λ _. guard-Writes db _ _ _ λ _.
    bind-Writes db _ _ λ id _. bind-Writes db _ _ λ es inserted. bind-Writes db _ _ λ ms sent.
      bind-Writes db _ _ λ slots _.
        let (free, same) = insert-eq-ok episode_clash (new_episode id c now) db.episodes inserted in
        wrote _ _ (record {
          rows = subst (Write db.episodes) same (
              add (new_episode id c now) (record {
                opened = refl;
                first_version = refl;
                unprompted = refl;
                no_clash = free;
              }));
          marks = advance_watermark-MarksGrow c m db.watermarks;
          added = _;
          messages = sym (insert-eq-ok message_clash _ db.messages sent).1;
        })

if-Writes :
    (db : Db) (b : Bool) (x y : Body) → Writes db x → Writes db y → Writes db (if b then x else y)
if-Writes db true x y h k = h
if-Writes db false x y h k = k

pub bump-eq-ok :
    (id : String) (v now : ℕ) (db db' : Db)
    → bump id v now db ≡ ok db'
    → (changes (hit id v) db.episodes ≡ 1)
      × (record db {
        episodes =
            update
              (hit id v)
              (λ e. record e { version = e.version + 1; updated_at = now })
              db.episodes;
      }
          ≡ db')
unfolding bump ◌>>=◌ ◌>>◌ fail_if
bump-eq-ok id v now db db' h = ground arith

bump-Advances : (now : ℕ) → Advances (λ e. record e { version = e.version + 1; updated_at = now })
bump-Advances now = record {
  same_id = λ e. refl;
  same_conversation = λ e. refl;
  same_creation = λ e. refl;
  next_version = λ e. refl;
  prompts = λ e. inl refl;
  stays_open = λ e. inl refl;
}

bump-Write :
    (id : String) (v now : ℕ) (db db' : Db)
    → bump id v now db ≡ ok db'
    → Write db.episodes db'.episodes
bump-Write id v now db db' h =
    subst (λ d. Write db.episodes d.episodes) (bump-eq-ok id v now db db' h).1
      (advance id v _ (bump-Advances now))

pub bump-same :
    (id : String) (v now : ℕ) (db db' : Db)
    → bump id v now db ≡ ok db'
    → (db'.watermarks ≡ db.watermarks) × (db'.messages ≡ db.messages)
bump-same id v now db db' h =
    let e = (bump-eq-ok id v now db db' h).1 in
    (sym (ap (λ d. Db.watermarks d) e), sym (ap (λ d. Db.messages d) e))

append_body-Writes :
    (id : String) (m : ℕ) (expected : Value) (now : ℕ) (db : Db)
    → Writes db (append_body id m expected now db)
unfolding append_body append_new
append_body-Writes id m expected now db = bind-Writes db _ _ λ (e : Episode) _.
    if-Writes db _ _ _ (wrote _ _ (rows-Change db db keep refl refl)) (
      guard-Writes db _ _ _ λ _. guard-Writes db _ _ _ λ _. bind-Writes db _ _ λ ms sent.
        bind-Writes db _ _ λ db' bumped. wrote _ _ (record {
          rows = bump-Write id e.version now _ db' bumped;
          marks = λ c n h.
              subst (λ ws. is_consumed (max_message_id c ws) n ≡ true)
                (sym (bump-same id e.version now _ db' bumped).0)
                (advance_watermark-MarksGrow e.conversation_id m db.watermarks c n h);
          added = _;
          messages =
              (bump-same id e.version now _ db' bumped).1
              ∙ sym (insert-eq-ok message_clash _ db.messages sent).1;
        }))

slots_body-Writes :
    (id : String) (patch : List (Slot × Option SlotValue)) (expected : Value) (now : ℕ) (db : Db)
    → Writes db (slots_body id patch expected now db)
unfolding slots_body
slots_body-Writes id patch expected now db = bind-Writes db _ _ λ e _.
    bind-Writes db _ _
      λ db' stored. wrote _ _ (finish e (set_slots id patch false db.slots).0 _ db' stored)
  where
    finish :
        (e : Episode) (changed : Bool) (rows : List SlotRow) (db' : Db)
        → (if changed
            then bump id e.version now (record db { slots = rows })
            else ok (record db { slots = rows }))
          ≡ ok db'
        → Change db db'
    finish e true rows db' h =
        let d : Db = record db { slots = rows } in
        let same = bump-same id e.version now d db' h in
        rows-Change db db' (bump-Write id e.version now d db' h) same.0 same.1
    finish e false rows db' h =
        subst (Change db) {x = record db { slots = rows }} {y = db'} (ground arith)
          (rows-Change db (record db { slots = rows }) keep refl refl)

clarify_body-Writes :
    (id : String) (requested : Option String) (candidates : List (Slot × SlotValue))
    (expected : Value) (now : ℕ) (db : Db)
    → Writes db (clarify_body id requested candidates expected now db)
unfolding clarify_body
clarify_body-Writes id requested candidates expected now db = bind-Writes db _ _ λ e _.
    guard-Writes db _ _ _ λ _. guard-Writes db _ _ _ λ _. bind-Writes db _ _ λ rows _. wrote _ _ (
      rows-Change db _
        (advance id e.version _ (record {
          same_id = λ r. refl;
          same_conversation = λ r. refl;
          same_creation = λ r. refl;
          next_version = λ r. refl;
          prompts = λ r. inr refl;
          stays_open = λ r. inl refl;
        }))
        refl refl)

clear_body-Writes :
    (id : String) (expected : Value) (now : ℕ) (db : Db) → Writes db (clear_body id expected now db)
unfolding clear_body
clear_body-Writes id expected now db = bind-Writes db _ _ λ e _.
    if-Writes db _ _ _ (wrote _ _ (rows-Change db db keep refl refl)) (
      wrote _ _ (
        rows-Change db _
          (advance id e.version _ (record {
            same_id = λ r. refl;
            same_conversation = λ r. refl;
            same_creation = λ r. refl;
            next_version = λ r. refl;
            prompts = λ r. inl refl;
            stays_open = λ r. inl refl;
          }))
          refl refl))

close_body-Writes :
    (id reason : String) (expected : Value) (now : ℕ) (db : Db)
    → Writes db (close_body id reason expected now db)
unfolding close_body
close_body-Writes id reason expected now db = bind-Writes db _ _ λ e _. guard-Writes db _ _ _ λ _.
    wrote _ _ (
      rows-Change db _
        (advance id e.version _ (record {
          same_id = λ r. refl;
          same_conversation = λ r. refl;
          same_creation = λ r. refl;
          next_version = λ r. refl;
          prompts = λ r. inl refl;
          stays_open = λ r. inr refl;
        }))
        refl refl)

pub call-Change : (now : ℕ) (r : Request) (db : Db) → Change db (call (now, r) db).0
unfolding call begin_episode append_source_message set_stable_slots record_clarification_prompt
    clear_clarification_context close_episode
call-Change now (begins c m slots fresh) db =
    checked-Change db _ _ λ a. begin_body-Writes a.0 a.1 a.2 now fresh db
call-Change now (appends id m v) db = checked-Change db _ _ λ a. append_body-Writes a.0 a.1 v now db
call-Change now (sets id patch v) db = checked-Change db _ _ λ a. slots_body-Writes a.0 a.1 v now db
call-Change now (clarifies id slot presented v) db =
    checked-Change db _ _ λ a. clarify_body-Writes a.0 a.1 a.2 v now db
call-Change now (clears id v) db = checked-Change db _ _ λ id'. clear_body-Writes id' v now db
call-Change now (closes id reason v) db =
    checked-Change db _ _ λ a. close_body-Writes a.0 a.1 v now db
