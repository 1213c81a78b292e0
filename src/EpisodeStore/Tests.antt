-- ===== src/EpisodeStore/Tests.antt =====
-- src/copilot/episode-store.mjs: the theorems at concrete stores, and runs of the methods.
use babypark_integration.Base.{
  ℕ, ap, ◌≡◌, refl, Option, none, some, List, [], ◌∷◌, Value, undefined, num, str, pos, ok, ◌>>=◌,
  ◌>>◌, fail_if, str_eq, arith, if◌then◌else◌,
}
use babypark_integration.EpisodeStore.Input.{
  Slot, SlotValue, min_price_minor, currency, minor, positive_integer, safe_token,
  normalize_slot_patch, normalize_requested_slot, normalize_candidates,
}
use babypark_integration.EpisodeStore.Tables.{
  Episode, Db, find, find_slot, upsert_slot, value_eq, slot_eq,
}
use babypark_integration.EpisodeStore.Operations.{
  expected, begin_body, append_body, slots_body, clarify_body, close_body, read_episode, tx, done,
  new_episode,
}
use babypark_integration.EpisodeStore.Api.{
  load_active, Request, begins, appends, closes, call, run, empty, begin_episode, begin_input,
  append_source_message, append_input, record_clarification_prompt, clarification_input,
}
use babypark_integration.EpisodeStore.Reads.{begin_episode-load_active}
use babypark_integration.EpisodeStore.History.{Follows, run-Follows}
use babypark_integration.EpisodeStore.Valid.{IsValid, run-IsValid}
use babypark_integration.EpisodeStore.Bodies.{Throws}
use babypark_integration.EpisodeStore.Promises.{clarify_once}
use babypark_integration.EpisodeStore.Messages.{begin_once}
use babypark_integration.EpisodeStore.Appends.{append_once}
use babypark_integration.EpisodeStore.Locking.{close_succeeds, closed_row}
use babypark_integration.EpisodeStore.Stale.{stale_refused}
use babypark_integration.EpisodeStore.Slots.{slots_body-stores, patched}

-- One active episode of conversation 7, opened by message 10.
abbrev first_row : Episode
first_row = new_episode "e1" 7 100

abbrev one_episode : Db
one_episode = record {
  episodes = first_row ∷ [];
  messages = record { episode_id = "e1"; message_id = 10; ordinal = 1 } ∷ [];
  watermarks = record { conversation_id = 7; max_message_id = 10 } ∷ [];
  slots = [];
  candidates = [];
}

abbrev number : ℕ → Value
number n = num (pos n)

abbrev history : List (ℕ × Request)
history =
    (101, appends (str "e1") (number 12) (number 1))
    ∷ (102, closes (str "e1") (str "completed") (number 2))
    ∷ (103, begins (number 7) (number 13) undefined (str "e2"))
    ∷ []

begin_opens :
    begin_episode (number 7) (number 10) undefined 100 (str "e1") empty
    ≡ (one_episode, ok (read_episode "e1" one_episode))
unfolding begin_episode begin_input begin_body tx positive_integer normalize_slot_patch safe_token
    ◌>>=◌ ◌>>◌ fail_if
begin_opens = refl

begin_episode-load_active_example :
    load_active (number 7) one_episode ≡ ok (read_episode "e1" one_episode)
begin_episode-load_active_example =
    begin_episode-load_active (number 7) (number 10) undefined (str "e1") 100 empty one_episode
      (read_episode "e1" one_episode) begin_opens

run-IsValid_example :
    IsValid
      (run ((100, begins (number 7) (number 10) undefined (str "e1")) ∷ history) empty).episodes
run-IsValid_example =
    run-IsValid ((100, begins (number 7) (number 10) undefined (str "e1")) ∷ history)

run-Follows_example :
    (s : Episode) × (find "e1" (run history one_episode).episodes ≡ some s) × Follows first_row s
unfolding find
run-Follows_example = run-Follows history one_episode "e1" first_row refl

-- The store after a prompt for a lowest price.
abbrev prompted_store : Db
prompted_store = record one_episode {
  episodes =
      record first_row {
        clarification_prompts_sent = 1;
        requested_slot = some "money";
        version = 2;
        updated_at = 101;
      }
      ∷ [];
}

clarify_once_example : Throws (run history prompted_store) (
    record_clarification_prompt
      (str "e1")
      (str "store_id")
      undefined
      (number 2)
      104
      (run history prompted_store))
unfolding record_clarification_prompt clarification_input clarify_body tx safe_token
    normalize_requested_slot normalize_candidates ◌>>=◌ ◌>>◌ fail_if
clarify_once_example =
    clarify_once (str "e1") (str "money") (str "store_id") undefined undefined (number 1) (number 2)
      101 104 one_episode prompted_store (read_episode "e1" prompted_store) history refl

begin_once_example :
    Throws
      (run history one_episode)
      (begin_episode (number 7) (number 9) undefined 104 (str "e3") (run history one_episode))
unfolding begin_episode begin_input begin_body tx positive_integer normalize_slot_patch safe_token
    ◌>>=◌ ◌>>◌ fail_if
begin_once_example =
    begin_once (number 7) (number 10) (number 9) undefined undefined (str "e1") (str "e3") 10 9 100
      104 empty one_episode (read_episode "e1" one_episode) history refl refl refl (omega arith)

-- The store after message 12 was appended.
abbrev appended_store : Db
appended_store = record {
  episodes = record first_row { version = 2; updated_at = 101 } ∷ [];
  messages =
      record { episode_id = "e1"; message_id = 10; ordinal = 1 }
      ∷ record { episode_id = "e1"; message_id = 12; ordinal = 2 }
      ∷ [];
  watermarks = record { conversation_id = 7; max_message_id = 12 } ∷ [];
  slots = [];
  candidates = [];
}

append_once_example :
    (append_source_message (str "e1") (number 12) (number 2) 104 (run history appended_store)).0
    ≡ run history appended_store
unfolding append_source_message append_input append_body tx positive_integer safe_token ◌>>=◌ ◌>>◌
    fail_if
append_once_example =
    append_once (str "e1") (number 12) (number 1) (number 2) 101 104 one_episode appended_store
      (read_episode "e1" appended_store) history refl

abbrev one_append : List (ℕ × Request)
one_append = (101, appends (str "e1") (number 12) (number 1)) ∷ []

stale_refused_example :
    Throws
      (run one_append one_episode)
      (call (104, closes (str "e1") (str "expired") (number 1)) (run one_append one_episode))
unfolding call run append_source_message append_input append_body tx positive_integer safe_token
    find expected ◌>>=◌ ◌>>◌ fail_if
stale_refused_example =
    stale_refused 104 (closes (str "e1") (str "expired") (number 1)) one_episode "e1" first_row
      (record first_row { version = 2; updated_at = 101 }) one_append refl refl
      (λ e. absurd (omega (arith, ap (λ x. Episode.version x) e))) (refl, refl)

close_succeeds_example :
    (es : List Episode) × (close_body "e1" "expired" (number 1) 104 one_episode
      ≡ done "e1" (record one_episode { episodes = es }))
    × (find "e1" es ≡ some (closed_row "expired" 104 first_row))
unfolding find expected
close_succeeds_example =
    close_succeeds "e1" "expired" (number 1) 104 one_episode first_row (refl, tt) refl refl refl

abbrev price_patch : List (Slot × Option SlotValue)
price_patch = (min_price_minor, some (minor 500)) ∷ (currency, none) ∷ []

abbrev priced_store : Db
priced_store = record one_episode {
  episodes = record first_row { version = 2; updated_at = 104 } ∷ [];
  slots = record { episode_id = "e1"; slot_name = min_price_minor; value_json = minor 500 } ∷ [];
}

slots_body-stores_example : find_slot "e1" min_price_minor priced_store.slots ≡ (
    if str_eq "e1" "e1"
    then patched min_price_minor price_patch none
    else find_slot "e1" min_price_minor [])
unfolding slots_body find_slot ◌>>=◌ ◌>>◌ fail_if value_eq slot_eq upsert_slot
slots_body-stores_example =
    slots_body-stores "e1" "e1" min_price_minor price_patch (number 1) 104 one_episode priced_store
      (read_episode "e1" priced_store) refl
