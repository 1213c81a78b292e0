-- ===== src/EpisodeStore/History.antt =====
-- src/copilot/episode-store.mjs: what the store promises of an episode, a message and a prompt over
-- any history of calls.
use mathlib.Core.Option
use babypark_integration.Base.{
  ℕ, ◌≤◌, ◌≡◌, refl, ap, ◌∙◌, inl, inr, some, List, [], ◌∷◌, String, arith, Bool-cases,
  if◌then◌else◌,
}
use babypark_integration.EpisodeStore.Tables.{Episode, closed, Db, hit, find}
use babypark_integration.EpisodeStore.Rows.{find-update, find-append, or_else}
use babypark_integration.EpisodeStore.Changes.{Advances, Write, keep, add, advance, MarksGrow}
use babypark_integration.EpisodeStore.Writes.{call-Change}
use babypark_integration.EpisodeStore.Api.{Request, call, run}

-- The row of one episode at two moments of a history.
pub record Follows (r s : Episode) : Type 0 where
  pub same_id : s.episode_id ≡ r.episode_id
  pub same_conversation : s.conversation_id ≡ r.conversation_id
  pub same_creation : s.created_at ≡ r.created_at
  pub older : r.version ≤ s.version
  pub stamped : r.version ≡ s.version → s ≡ r
  pub frozen : r.state ≡ closed → s ≡ r
  pub prompted : r.clarification_prompts_sent ≡ 1 → s.clarification_prompts_sent ≡ 1

Follows-refl : (r : Episode) → Follows r r
Follows-refl r = record {
  same_id = refl;
  same_conversation = refl;
  same_creation = refl;
  older = omega arith;
  stamped = λ _. refl;
  frozen = λ _. refl;
  prompted = λ h. h;
}

Follows-trans : (r s t : Episode) → Follows r s → Follows s t → Follows r t
Follows-trans r s t f g = record {
  same_id = g.same_id ∙ f.same_id;
  same_conversation = g.same_conversation ∙ f.same_conversation;
  same_creation = g.same_creation ∙ f.same_creation;
  older = omega (arith, f.older, g.older);
  stamped = λ e.
      g.stamped (omega (arith, e, f.older, g.older))
      ∙ f.stamped (omega (arith, e, f.older, g.older));
  frozen = λ e. g.frozen (ap (λ x. Episode.state x) (f.frozen e) ∙ e) ∙ f.frozen e;
  prompted = λ e. g.prompted (f.prompted e);
}

-- An update's WHERE clause hits active rows only.
update-Follows :
    (id : String) (v : ℕ) (f : Episode → Episode) (r : Episode)
    → Advances f
    → Follows r (if hit id v r then f r else r)
update-Follows id v f r a = elim (Bool-cases (hit id v r)) [
  | inl h ↦ rw h (record {
    same_id = a.same_id r;
    same_conversation = a.same_conversation r;
    same_creation = a.same_creation r;
    older = omega (arith, a.next_version r);
    stamped = λ e. absurd (omega (arith, a.next_version r, e));
    frozen = λ e. absurd (ground arith);
    prompted = λ e. ground (arith, a.prompts r);
  })
  | inr h ↦ rw h (Follows-refl r)
]

Write-Follows :
    {es es' : List Episode} (j : String) (r : Episode)
    → Write es es'
    → find j es ≡ some r
    → (s : Episode) × (find j es' ≡ some s) × Follows r s
Write-Follows j r keep h = (r, h, Follows-refl r)
Write-Follows {es} j r (add e n) h =
    (r, find-append j es (e ∷ []) ∙ ap (λ o. or_else o (find j (e ∷ []))) h, Follows-refl r)
Write-Follows {es} j r (advance id v f a) h = (
  _,
  find-update (hit id v) f j es a.same_id ∙ ap (Option.map (λ e. if hit id v e then f e else e)) h,
  update-Follows id v f r a,
)

-- Whatever calls are made, an episode stays in the store under its id and conversation, its version
-- never falls, two moments with one version show one row, a closed row never changes, and a prompt
-- that was sent stays counted.
pub run-Follows :
    (cs : List (ℕ × Request)) (db : Db) (j : String) (r : Episode)
    → find j db.episodes ≡ some r
    → (s : Episode) × (find j (run cs db).episodes ≡ some s) × Follows r s
unfolding run
run-Follows [] db j r h = (r, h, Follows-refl r)
run-Follows ((now, q) ∷ cs) db j r h =
    let (s, hs, f) = Write-Follows j r (call-Change now q db).rows h in
    let (t, ht, g) = run-Follows cs (call (now, q) db).0 j s hs in (t, ht, Follows-trans r s t f g)

pub run-MarksGrow :
    (cs : List (ℕ × Request)) (db : Db) → MarksGrow db.watermarks (run cs db).watermarks
unfolding run
run-MarksGrow [] db c m h = h
run-MarksGrow ((now, q) ∷ cs) db c m h =
    run-MarksGrow cs (call (now, q) db).0 c m ((call-Change now q db).marks c m h)
