-- ===== src/EpisodeStore/Valid.antt =====
-- src/copilot/episode-store.mjs: the invariant of the episodes table. It is what the schema declares
-- (lines 18 to 31: PRIMARY KEY, the unique index and the CHECK clauses).
use babypark_integration.Base.{
  ℕ, ◌≤◌, ◌≡◌, ◌≢◌, ◌⊎◌, refl, inl, inr, none, List, [], ◌∷◌, ◌++◌, String, arith, All, eq_iff,
  All-append,
}
use babypark_integration.EpisodeStore.Tables.{
  Episode, State, active, closed, Db, hit, update, find, find_active,
}
use babypark_integration.EpisodeStore.Rows.{find-update, clash-find, clash-find_active}
use babypark_integration.EpisodeStore.Changes.{Advances, Write, keep, add, advance}
use babypark_integration.EpisodeStore.Writes.{call-Change}
use babypark_integration.EpisodeStore.Api.{Request, call, run, empty}

-- No id stands twice.
abbrev pub UniqueIds : List Episode → Type 0
UniqueIds [] = Unit {0}
UniqueIds (r ∷ rs) = (find r.episode_id rs ≡ none) × UniqueIds rs

-- No conversation has two active episodes.
abbrev pub OneActive : List Episode → Type 0
OneActive [] = Unit {0}
OneActive (r ∷ rs) = ((r.state ≡ closed) ⊎ (find_active r.conversation_id rs ≡ none)) × OneActive rs

abbrev pub InBounds : Episode → Type 0
InBounds r = (1 ≤ r.version) × (r.clarification_prompts_sent ≤ 1)

pub record IsValid (es : List Episode) : Type 0 where
  pub unique : UniqueIds es
  pub single : OneActive es
  pub bounds : All InBounds es

find-append_none :
    (j : String) (e : Episode) (es : List Episode)
    → e.episode_id ≢ j
    → find j es ≡ none
    → find j (es ++ e ∷ []) ≡ none
unfolding find
find-append_none j e [] n h = ground (arith, eq_iff e.episode_id j)
find-append_none j e (r ∷ rs) n h = ground (arith, find-append_none j e rs n)

UniqueIds-add :
    (e : Episode) (es : List Episode)
    → find e.episode_id es ≡ none
    → UniqueIds es
    → UniqueIds (es ++ e ∷ [])
unfolding find
UniqueIds-add e [] h u = (refl, tt)
UniqueIds-add e (r ∷ rs) h (u, us) = (
  find-append_none r.episode_id e rs (λ p. ground (arith, eq_iff r.episode_id e.episode_id)) u,
  UniqueIds-add e rs (ground arith) us,
)

find_active-append_none :
    (c : ℕ) (e : Episode) (es : List Episode)
    → e.conversation_id ≢ c
    → find_active c es ≡ none
    → find_active c (es ++ e ∷ []) ≡ none
unfolding find_active
find_active-append_none c e [] n h = ground arith
find_active-append_none c e (r ∷ rs) n h = ground (arith, find_active-append_none c e rs n)

OneActive-add :
    (e : Episode) (es : List Episode)
    → find_active e.conversation_id es ≡ none
    → OneActive es
    → OneActive (es ++ e ∷ [])
unfolding find_active
OneActive-add e [] h u = (inr refl, tt)
OneActive-add e (r ∷ rs) h (inl c, us) = (inl c, OneActive-add e rs (ground arith) us)
OneActive-add e (r ∷ rs) h (inr u, us) = (
  elim (State-cases r.state) [
    | inl o ↦ inr (find_active-append_none r.conversation_id e rs (λ p. ground arith) u)
    | inr c ↦ inl c
  ],
  OneActive-add e rs (ground arith) us,
)
  where
    State-cases : (s : State) → (s ≡ active) ⊎ (s ≡ closed)
    State-cases active = inl refl
    State-cases closed = inr refl

module _ (id : String) (v : ℕ) (f : Episode → Episode) (a : Advances f) where
  find-update-none :
      (j : String) (es : List Episode) → find j es ≡ none → find j (update (hit id v) f es) ≡ none
  find-update-none j es h = rw (find-update (hit id v) f j es a.same_id, h)

  UniqueIds-update : (es : List Episode) → UniqueIds es → UniqueIds (update (hit id v) f es)
  unfolding update
  UniqueIds-update [] u = tt
  UniqueIds-update (r ∷ rs) (u, us) =
      (ground (arith, find-update-none r.episode_id rs u, a.same_id r), UniqueIds-update rs us)

  find_active-update-none :
      (c : ℕ) (es : List Episode)
      → find_active c es ≡ none
      → find_active c (update (hit id v) f es) ≡ none
  unfolding find_active update
  find_active-update-none c [] h = refl
  find_active-update-none c (r ∷ rs) h =
      ground (arith, find_active-update-none c rs, a.same_conversation r, a.stays_open r)

  OneActive-update : (es : List Episode) → OneActive es → OneActive (update (hit id v) f es)
  unfolding update
  OneActive-update [] u = tt
  OneActive-update (r ∷ rs) (u, us) = (
    ground (
      arith,
      find_active-update-none r.conversation_id rs,
      a.same_conversation r,
      a.stays_open r,
    ),
    OneActive-update rs us,
  )

  InBounds-update : (es : List Episode) → All InBounds es → All InBounds (update (hit id v) f es)
  unfolding update
  InBounds-update [] u = tt
  InBounds-update (r ∷ rs) (u, us) =
      (ground (arith, a.next_version r, a.prompts r), InBounds-update rs us)

Write-IsValid : {es es' : List Episode} → Write es es' → IsValid es → IsValid es'
Write-IsValid keep h = h
Write-IsValid {es} (add e n) h = record {
  unique = UniqueIds-add e es (clash-find e es n.no_clash) h.unique;
  single = OneActive-add e es (clash-find_active e es n.opened n.no_clash) h.single;
  bounds = All-append InBounds es (e ∷ []) h.bounds (ground (arith, n.first_version, n.unprompted));
}
Write-IsValid {es} (advance id v f a) h = record {
  unique = UniqueIds-update id v f a es h.unique;
  single = OneActive-update id v f a es h.single;
  bounds = InBounds-update id v f a es h.bounds;
}

pub call-IsValid :
    (now : ℕ) (q : Request) (db : Db) → IsValid db.episodes → IsValid (call (now, q) db).0.episodes
call-IsValid now q db h = Write-IsValid (call-Change now q db).rows h

run-IsValid_from :
    (cs : List (ℕ × Request)) (db : Db) → IsValid db.episodes → IsValid (run cs db).episodes
unfolding run
run-IsValid_from [] db h = h
run-IsValid_from ((now, q) ∷ cs) db h =
    run-IsValid_from cs (call (now, q) db).0 (call-IsValid now q db h)

-- After any history of calls on an empty store no two episodes share an id, no conversation has two
-- active episodes, every version is at least 1, and no episode has sent more than one prompt.
pub run-IsValid : (cs : List (ℕ × Request)) → IsValid (run cs empty).episodes
run-IsValid cs = run-IsValid_from cs empty (record { unique = tt; single = tt; bounds = tt })
