-- ===== src/EpisodeStore/Rows.antt =====
-- Laws of the queries and updates on the episodes table.
use babypark_integration.Base.{
  ◌≡◌, refl, Bool, false, Option, none, some, List, [], ◌∷◌, ◌++◌, String, eq_iff, if◌then◌else◌,
  any, arith,
}
use mathlib.Core.Option
use babypark_integration.EpisodeStore.Tables.{
  Episode, active, find, find_active, update, episode_clash,
}

-- `f` leaves the key of every row as it is.
abbrev pub KeepsId : (Episode → Episode) → Type 0
KeepsId f = (e : Episode) → (f e).episode_id ≡ e.episode_id

pub find-update :
    (p : Episode → Bool) (f : Episode → Episode) (j : String) (es : List Episode)
    → KeepsId f
    → find j (update p f es) ≡ Option.map (λ e. if p e then f e else e) (find j es)
unfolding find update
find-update p f j [] k = refl
find-update p f j (e ∷ es) k = ground (arith, find-update p f j es k, k e)

abbrev pub or_else {ℓ} : {A : Type ℓ} → Option A → Option A → Option A
or_else none o = o
or_else (some a) o = some a

pub find-append :
    (j : String) (es fs : List Episode) → find j (es ++ fs) ≡ or_else (find j es) (find j fs)
unfolding find
find-append j [] fs = refl
find-append j (e ∷ es) fs = ground (arith, find-append j es fs)

pub find-eq_id :
    (j : String) (es : List Episode) (e : Episode) → find j es ≡ some e → e.episode_id ≡ j
unfolding find
find-eq_id j [] e h = cc
find-eq_id j (x ∷ es) e h = ground (arith, find-eq_id j es e, eq_iff x.episode_id j)

-- A new row clashes with no row: its id is new, and its conversation has no active row.
pub clash-find :
    (a : Episode) (es : List Episode)
    → any (episode_clash a) es ≡ false
    → find a.episode_id es ≡ none
unfolding find
clash-find a [] h = refl
clash-find a (e ∷ es) h =
    ground
      (arith, clash-find a es, eq_iff a.episode_id e.episode_id, eq_iff e.episode_id a.episode_id)

pub clash-find_active :
    (a : Episode) (es : List Episode)
    → a.state ≡ active
    → any (episode_clash a) es ≡ false
    → find_active a.conversation_id es ≡ none
unfolding find_active
clash-find_active a [] s h = refl
clash-find_active a (e ∷ es) s h = ground (arith, clash-find_active a es s)
