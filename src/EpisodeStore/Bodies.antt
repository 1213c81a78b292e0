-- ===== src/EpisodeStore/Bodies.antt =====
-- src/copilot/episode-store.mjs: what follows from the outcome of a transaction's body.
use mathlib.Core.Option
use babypark_integration.Base.{
  ◌≡◌, refl, ap, ◌∙◌, Option, some, List, String, arith, if◌then◌else◌, Value, ok, err, eq_iff,
  Result, ◌>>=◌, ◌>>◌, fail_if,
}
use babypark_integration.EpisodeStore.Input.{Error}
use babypark_integration.EpisodeStore.Tables.{Episode, active, Db, hit, update, find}
use babypark_integration.EpisodeStore.Rows.{find-update, find-eq_id, KeepsId}
use babypark_integration.EpisodeStore.Operations.{View, Body, tx, commit, expected, require_active}
use babypark_integration.EpisodeStore.Api.{Outcome, checked}

-- The call threw, and the store is as it was.
abbrev pub Throws : Db → Db × Outcome → Type 0
Throws db r = (e : Error) × (r ≡ (db, err e))

pub ok-injective {ℓ} :
    {A : Type ℓ} {d d' : Db} {a a' : A}
    → ◌≡◌ {A = Result Error (Db × A)} (ok (d, a)) (ok (d', a'))
    → d ≡ d'
ok-injective h = ground arith

pub commit-eq-ok :
    (db : Db) (r : Body) {db' : Db} {a : Option View} → commit db r ≡ (db', ok a) → r ≡ ok (db', a)
commit-eq-ok db (ok (d, b)) h = ground arith
commit-eq-ok db (err e) h = absurd (ground arith)

pub checked-eq-ok {ℓ} :
    {A : Type ℓ} (db : Db) (input : Result Error A) (body : A → Db → Body) {db' : Db}
    {a : Option View}
    → checked db input body ≡ (db', ok a)
    → (x : A) × (input ≡ ok x) × (body x db ≡ ok (db', a))
unfolding tx
checked-eq-ok db (err e) body h = absurd (ground arith)
checked-eq-ok db (ok x) body h = (x, refl, commit-eq-ok db (body x db) h)

pub require_active-eq-ok :
    (id : String) (v : Value) (db : Db) (e : Episode)
    → require_active id v db ≡ ok e
    → (find id db.episodes ≡ some e) × (e.state ≡ active) × (expected v ≡ ok e.version)
unfolding require_active ◌>>=◌ ◌>>◌ fail_if
require_active-eq-ok id v db e h = ground arith

-- The row that `#requireActive` has found is the one that an update with its version hits.
pub update-found :
    (id : String) (f : Episode → Episode) (es : List Episode) (e : Episode)
    → KeepsId f
    → find id es ≡ some e
    → e.state ≡ active
    → find id (update (hit id e.version) f es) ≡ some (f e)
update-found id f es e k h o =
    find-update (hit id e.version) f id es k
    ∙ ap (Option.map (λ x. if hit id e.version x then f x else x)) h
    ∙ ground (arith, eq_iff e.episode_id id, find-eq_id id es e h)

pub commit-Throws : (db : Db) (r : Body) → (e : Error) × (r ≡ err e) → Throws db (commit db r)
commit-Throws db r (e, h) = (e, ap (commit db) h)
