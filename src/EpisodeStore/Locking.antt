-- ===== src/EpisodeStore/Locking.antt =====
-- src/copilot/episode-store.mjs: optimistic locking by `expectedVersion`.
use babypark_integration.Base.{
  ℕ, ◌+◌, ◌≡◌, refl, subst, inl, inr, none, some, List, [], ◌∷◌, String, arith, Bool-cases, str_eq,
  Value, ok, eq_iff, ◌>>=◌, ◌>>◌, fail_if,
}
use babypark_integration.EpisodeStore.Tables.{
  Episode, active, closed, Db, hit, update, find, changes,
}
use babypark_integration.EpisodeStore.Operations.{expected, require_active, done, close_body}
use babypark_integration.EpisodeStore.Bodies.{update-found}
use babypark_integration.EpisodeStore.Valid.{UniqueIds}

changes-absent :
    (id : String) (v : ℕ) (es : List Episode) → find id es ≡ none → changes (hit id v) es ≡ 0
unfolding find changes
changes-absent id v [] h = refl
changes-absent id v (e ∷ es) h = ground (arith, changes-absent id v es)

-- In a table without repeated ids an update of an active row at its version changes one row.
pub changes-one :
    (id : String) (es : List Episode) (e : Episode)
    → UniqueIds es
    → find id es ≡ some e
    → e.state ≡ active
    → changes (hit id e.version) es ≡ 1
unfolding find changes
changes-one id [] e u h o = cc
changes-one id (r ∷ rs) e (u, us) h o = elim (Bool-cases (str_eq r.episode_id id)) [
  | inl b ↦
      let same : r.episode_id ≡ id = (eq_iff r.episode_id id).0 b in
      ground (arith, changes-absent id e.version rs (subst (λ j. find j rs ≡ none) same u))
  | inr b ↦ ground (arith, changes-one id rs e us)
]

abbrev pub closed_row : String → ℕ → Episode → Episode
closed_row reason now r = record r {
  state = closed;
  version = r.version + 1;
  updated_at = now;
  closed_at = some now;
  close_reason = some reason;
}

require_active-current :
    (id : String) (v : Value) (db : Db) (r : Episode)
    → find id db.episodes ≡ some r
    → r.state ≡ active
    → expected v ≡ ok r.version
    → require_active id v db ≡ ok r
unfolding require_active ◌>>=◌ ◌>>◌ fail_if
require_active-current id v db r h o he = ground arith

-- In a table without repeated ids, closing an active episode at its current version succeeds: the
-- row becomes closed with the next version, the reason and the time, and the messages, slots,
-- candidates and watermarks stay.
pub close_succeeds :
    (id reason : String) (v : Value) (now : ℕ) (db : Db) (r : Episode)
    → UniqueIds db.episodes
    → find id db.episodes ≡ some r
    → r.state ≡ active
    → expected v ≡ ok r.version
    → (es : List Episode) × (close_body id reason v now db ≡ done id (record db { episodes = es }))
      × (find id es ≡ some (closed_row reason now r))
unfolding close_body
close_succeeds id reason v now db r u h o he = (
  update (hit id r.version) (closed_row reason now) db.episodes,
  rw (require_active-current id v db r h o he)
      (unfold ◌>>=◌ ◌>>◌ fail_if in rw (changes-one id db.episodes r u h o) refl),
  update-found id (closed_row reason now) db.episodes r (λ _. refl) h o,
)
