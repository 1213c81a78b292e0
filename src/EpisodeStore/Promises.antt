-- ===== src/EpisodeStore/Promises.antt =====
-- src/copilot/episode-store.mjs: one prompt for an episode.
use babypark_integration.Base.{
  guard-eq-ok, ℕ, ◌+◌, ◌≡◌, refl, ap, subst, inl, inr, Option, some, List, String, arith, Value, ok,
  err, Result, ◌>>=◌, ◌>>◌, fail_if, >>=-eq-ok, Result-cases,
}
use babypark_integration.EpisodeStore.Input.{
  Error, Slot, SlotValue, clarification_limit_reached, safe_token,
}
use babypark_integration.EpisodeStore.Tables.{Episode, Db, find}
use babypark_integration.EpisodeStore.History.{run-Follows}
use babypark_integration.EpisodeStore.Operations.{View, tx, require_active, clarify_body}
use babypark_integration.EpisodeStore.Api.{
  Request, run, checked, clarification_input, record_clarification_prompt,
}
use babypark_integration.EpisodeStore.Bodies.{
  Throws, checked-eq-ok, require_active-eq-ok, update-found, commit-Throws, ok-injective,
}

-- The row after `recordClarificationPrompt`.
abbrev prompted : Option String → ℕ → Episode → Episode
prompted requested now r = record r {
  clarification_prompts_sent = 1;
  requested_slot = requested;
  version = r.version + 1;
  updated_at = now;
}

clarify_body-prompts :
    (id : String) (requested : Option String) (cs : List (Slot × SlotValue)) (v : Value) (now : ℕ)
    (db db' : Db) (a : Option View)
    → clarify_body id requested cs v now db ≡ ok (db', a)
    → (r : Episode) × (find id db'.episodes ≡ some r) × (r.clarification_prompts_sent ≡ 1)
unfolding clarify_body
clarify_body-prompts id requested cs v now db db' a h =
    let (e, he, h1) = >>=-eq-ok _ _ h in
    let (unsent, h2) = guard-eq-ok _ _ _ h1 in
    let (one, h3) = guard-eq-ok _ _ _ h2 in
    let (rows, _, h4) = >>=-eq-ok _ _ h3 in
    let (there, open_row, _) = require_active-eq-ok id v db e he in
    let same : _ ≡ db'.episodes = ap (λ d. Db.episodes d) (ok-injective h4) in
    (
      prompted requested now e,
      subst (λ es. find id es ≡ some (prompted requested now e)) same
          (update-found id (prompted requested now) db.episodes e (λ _. refl) there open_row),
      refl,
    )

clarify_body-refused :
    (id : String) (requested : Option String) (cs : List (Slot × SlotValue)) (v : Value) (now : ℕ)
    (db : Db) (r : Episode)
    → find id db.episodes ≡ some r
    → r.clarification_prompts_sent ≡ 1
    → (e : Error) × (clarify_body id requested cs v now db ≡ err e)
unfolding clarify_body
clarify_body-refused id requested cs v now db r h p = elim (Result-cases (require_active id v db)) [
  | inl (e, he) ↦ (e, rw he (unfold ◌>>=◌ in refl))
  | inr (e, he) ↦
      let (there, _, _) = require_active-eq-ok id v db e he in
      let sent : e.clarification_prompts_sent ≡ 1 = ground arith in
      (clarification_limit_reached, rw he (unfold ◌>>=◌ ◌>>◌ fail_if in rw sent refl))
]

pub clarification_input-id :
    (id slot presented : Value) (x : String × Option String × List (Slot × SlotValue))
    → clarification_input id slot presented ≡ ok x
    → safe_token id ≡ ok x.0
unfolding clarification_input
clarification_input-id id slot presented x h =
    let (i, hi, h1) = >>=-eq-ok _ _ h in
    let (_, _, h2) = >>=-eq-ok _ _ h1 in
    let (_, _, h3) = >>=-eq-ok _ _ h2 in
    let (_, h4) = guard-eq-ok _ _ _ h3 in
    let (_, _, h5) = >>=-eq-ok _ _ h4 in let (_, h6) = guard-eq-ok _ _ _ h5 in ground arith

-- Once a prompt was recorded for an episode, no later call records another one, whatever calls were
-- made in between and whatever version it expects: it throws and leaves the store as it is.
pub clarify_once :
    (id : Value) (slot slot' presented presented' v v' : Value) (now now' : ℕ) (db db' : Db)
    (a : Option View) (cs : List (ℕ × Request))
    → record_clarification_prompt id slot presented v now db ≡ (db', ok a)
    → Throws (run cs db') (record_clarification_prompt id slot' presented' v' now' (run cs db'))
unfolding record_clarification_prompt tx
clarify_once id slot slot' presented presented' v v' now now' db db' a cs h =
    let (x, hx, hb) = checked-eq-ok db _ _ h in
    let (r, hr, p) = clarify_body-prompts x.0 x.1 x.2 v now db db' a hb in
    let (s, hs, f) = run-Follows cs db' x.0 r hr in
    refused x.0 s (clarification_input-id id slot presented x hx) hs (f.prompted p)
      (clarification_input id slot' presented') refl
  where
    refused :
        (i : String) (s : Episode)
        → safe_token id ≡ ok i
        → find i (run cs db').episodes ≡ some s
        → s.clarification_prompts_sent ≡ 1
        → (input : Result Error (String × Option String × List (Slot × SlotValue)))
        → clarification_input id slot' presented' ≡ input
        → Throws (run cs db') (checked (run cs db') input (λ y. clarify_body y.0 y.1 y.2 v' now'))
    refused i s hi hs p (err e) hy = (e, refl)
    refused i s hi hs p (ok y) hy =
        let same : i ≡ y.0 = ground (arith, clarification_input-id id slot' presented' y hy) in
        commit-Throws (run cs db') _ (
          clarify_body-refused y.0 y.1 y.2 v' now' (run cs db') s
            (subst (λ j. find j (run cs db').episodes ≡ some s) same hs) p)
