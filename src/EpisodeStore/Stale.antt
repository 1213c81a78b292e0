-- ===== src/EpisodeStore/Stale.antt =====
-- src/copilot/episode-store.mjs: optimistic locking by `expectedVersion`, seen by a caller who has read a row
-- that other calls change afterwards.
use babypark_integration.Base.{
  ℕ, ◌≡◌, ◌≢◌, refl, sym, ◌∙◌, subst, Option, some, List, String, arith, Value, ok, err, Result,
  ◌>>=◌, >>=-eq-ok, ok-injective,
}
use babypark_integration.EpisodeStore.Input.{Error, safe_token, Slot, SlotValue}
use babypark_integration.EpisodeStore.Tables.{Episode, Db, find}
use babypark_integration.EpisodeStore.Operations.{
  Body, tx, expected, require_active, append_body, slots_body, clarify_body, clear_body, close_body,
}
use babypark_integration.EpisodeStore.Api.{
  Request, begins, appends, sets, clarifies, clears, closes, call, run, checked, append_input,
  slots_input, close_input, clarification_input, append_source_message, set_stable_slots,
  record_clarification_prompt, clear_clarification_context, close_episode,
}
use babypark_integration.EpisodeStore.Bodies.{Throws, commit-Throws, require_active-eq-ok}
use babypark_integration.EpisodeStore.History.{run-Follows}
use babypark_integration.EpisodeStore.Promises.{clarification_input-id}

-- The call is a mutation of the episode `i` and expects its version to be `n`.
abbrev pub Expects : String → ℕ → Request → Type 0
Expects i n (begins c m slots fresh) = ⊥
Expects i n (appends id m v) = (safe_token id ≡ ok i) × (expected v ≡ ok n)
Expects i n (sets id patch v) = (safe_token id ≡ ok i) × (expected v ≡ ok n)
Expects i n (clarifies id slot presented v) = (safe_token id ≡ ok i) × (expected v ≡ ok n)
Expects i n (clears id v) = (safe_token id ≡ ok i) × (expected v ≡ ok n)
Expects i n (closes id reason v) = (safe_token id ≡ ok i) × (expected v ≡ ok n)

require_active-moved :
    (id : String) (v : Value) (n : ℕ) (db : Db) (s : Episode)
    → find id db.episodes ≡ some s
    → expected v ≡ ok n
    → n ≢ s.version
    → (e : Error) × (require_active id v db ≡ err e)
require_active-moved id v n db s h he ne = refused (require_active id v db) refl
  where
    refused :
        (r : Result Error Episode)
        → require_active id v db ≡ r
        → (e : Error) × (require_active id v db ≡ err e)
    refused (err e) h1 = (e, h1)
    refused (ok t) h1 =
        let (there, _, version) = require_active-eq-ok id v db t h1 in
        absurd (ground (arith, there, version, h, he, ne))

-- A body that begins with `#requireActive`.
moved-refused :
    (i : String) (n : ℕ) (db : Db) (s : Episode) (v : Value) (k : Episode → Body)
    → find i db.episodes ≡ some s
    → n ≢ s.version
    → expected v ≡ ok n
    → (id : String) → id ≡ i
    → (e : Error) × ((require_active id v db >>= k) ≡ err e)
unfolding ◌>>=◌
moved-refused i n db s v k h ne version id same =
    let here = subst (λ j. find j db.episodes ≡ some s) (sym same) h in
    let (e, he) = require_active-moved id v n db s here version ne in (e, rw he refl)

-- A method whose input names the episode `i` throws if each body for that episode does.
checked-Throws {ℓ} :
    {A : Type ℓ} (db : Db) (input : Result Error A) (body : A → Db → Body) (id : Value) (i : String)
    (of : A → String)
    → safe_token id ≡ ok i
    → ((x : A) → input ≡ ok x → safe_token id ≡ ok (of x))
    → ((x : A) → of x ≡ i → (e : Error) × (body x db ≡ err e))
    → Throws db (checked db input body)
unfolding tx
checked-Throws db (err e) body id i of h reads refuses = (e, refl)
checked-Throws db (ok x) body id i of h reads refuses =
    commit-Throws db (body x db) (refuses x (ok-injective (sym (reads x refl) ∙ h)))

append_input-id :
    (id m : Value) (x : String × ℕ) → append_input id m ≡ ok x → safe_token id ≡ ok x.0
unfolding append_input
append_input-id id m x h =
    let (i, hi, h1) = >>=-eq-ok _ _ h in let (_, _, h2) = >>=-eq-ok _ _ h1 in ground arith

slots_input-id :
    (id patch : Value) (x : String × List (Slot × Option SlotValue))
    → slots_input id patch ≡ ok x
    → safe_token id ≡ ok x.0
unfolding slots_input
slots_input-id id patch x h =
    let (i, hi, h1) = >>=-eq-ok _ _ h in let (_, _, h2) = >>=-eq-ok _ _ h1 in ground arith

close_input-id :
    (id reason : Value) (x : String × String)
    → close_input id reason ≡ ok x
    → safe_token id ≡ ok x.0
unfolding close_input
close_input-id id reason x h =
    let (i, hi, h1) = >>=-eq-ok _ _ h in let (_, _, h2) = >>=-eq-ok _ _ h1 in ground arith

-- A mutation that expects another version than the row has throws.
other_version-Throws :
    (now n : ℕ) (q : Request) (db : Db) (i : String) (s : Episode)
    → find i db.episodes ≡ some s
    → n ≢ s.version
    → Expects i n q
    → Throws db (call (now, q) db)
unfolding call append_source_message set_stable_slots record_clarification_prompt
    clear_clarification_context close_episode append_body slots_body clarify_body clear_body
    close_body
other_version-Throws now n (begins c m slots fresh) db i s h ne x = absurd x
other_version-Throws now n (appends id m v) db i s h ne (token, version) =
    checked-Throws db (append_input id m) _ id i (λ x. x.0) token (append_input-id id m)
      (λ x. moved-refused i n db s v _ h ne version x.0)
other_version-Throws now n (sets id patch v) db i s h ne (token, version) =
    checked-Throws db (slots_input id patch) _ id i (λ x. x.0) token (slots_input-id id patch)
      (λ x. moved-refused i n db s v _ h ne version x.0)
other_version-Throws now n (clarifies id slot presented v) db i s h ne (token, version) =
    checked-Throws db (clarification_input id slot presented) _ id i (λ x. x.0) token
      (clarification_input-id id slot presented) (λ x. moved-refused i n db s v _ h ne version x.0)
other_version-Throws now n (clears id v) db i s h ne (token, version) =
    checked-Throws db (safe_token id) _ id i (λ x. x) token (λ x e. e)
      (λ x. moved-refused i n db s v _ h ne version x)
other_version-Throws now n (closes id reason v) db i s h ne (token, version) =
    checked-Throws db (close_input id reason) _ id i (λ x. x.0) token (close_input-id id reason)
      (λ x. moved-refused i n db s v _ h ne version x.0)

-- No lost update: a caller has read the row `r` of an episode, and then some calls have changed the row in
-- any way. Whichever of the five mutating methods the caller then calls for that episode with the version
-- that it has read, the call throws and leaves the store as it is.
pub stale_refused :
    (now : ℕ) (q : Request) (db : Db) (i : String) (r s : Episode) (cs : List (ℕ × Request))
    → find i db.episodes ≡ some r
    → find i (run cs db).episodes ≡ some s
    → s ≢ r
    → Expects i r.version q
    → Throws (run cs db) (call (now, q) (run cs db))
stale_refused now q db i r s cs h hs changed x =
    let (t, ht, f) = run-Follows cs db i r h in
    let same : t ≡ s = ground (arith, ht, hs) in
    other_version-Throws now r.version q (run cs db) i s hs
      (λ v. changed (sym same ∙ f.stamped (ground (arith, v, same)))) x
