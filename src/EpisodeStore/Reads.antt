-- ===== src/EpisodeStore/Reads.antt =====
-- src/copilot/episode-store.mjs, lines 323 to 336: the reads after an episode was opened.
use babypark_integration.Base.{
  guard-eq-ok, ℕ, ◌≡◌, refl, ap, sym, subst, ◌∙◌, false, none, some, Option, is_some, List, [], ◌∷◌,
  ◌++◌, String, arith, Value, Result, ok, ◌>>=◌, >>=-eq-ok,
}
use babypark_integration.EpisodeStore.Input.{Error, Slot, SlotValue, positive_integer}
use babypark_integration.EpisodeStore.Tables.{
  Episode, active, Db, find_active, insert, episode_clash,
}
use babypark_integration.EpisodeStore.Operations.{
  View, Body, begin_body, done, new_episode, read_episode,
}
use babypark_integration.EpisodeStore.Api.{load_active, begin_episode, begin_input}
use babypark_integration.EpisodeStore.Bodies.{checked-eq-ok}

find_active-append :
    (c : ℕ) (e : Episode) (es : List Episode)
    → find_active c es ≡ none
    → e.conversation_id ≡ c
    → e.state ≡ active
    → find_active c (es ++ e ∷ []) ≡ some e
unfolding find_active
find_active-append c e [] h p q = ground (arith, h, p, q)
find_active-append c e (r ∷ rs) h p q = ground (arith, find_active-append c e rs)

is_some-none : (o : Option Episode) → is_some o ≡ false → o ≡ none
is_some-none none h = refl
is_some-none (some e) h = absurd (ground arith)

insert-eq-ok :
    (e : Episode) (es es' : List Episode) → insert episode_clash e es ≡ ok es' → es' ≡ es ++ e ∷ []
unfolding insert
insert-eq-ok e es es' h = ground arith

result-eq : {x y : Db × Option View} → ◌≡◌ {A = Body} (ok x) (ok y) → x ≡ y
result-eq h = ground arith

done-active :
    (id : String) (c : ℕ) (d : Db) (r : Db × Option View) (e : Episode)
    → done id d ≡ ok r
    → find_active c d.episodes ≡ some e
    → e.episode_id ≡ id
    → (e : Episode) × (find_active c r.0.episodes ≡ some e) × (r.1 ≡ read_episode e.episode_id r.0)
done-active id c d r e h f p =
    subst
      (λ (x : Db × Option View).
        (e : Episode) × (find_active c x.0.episodes ≡ some e)
        × (x.1 ≡ read_episode e.episode_id x.0))
      (result-eq h) (e, f, ap (λ i. read_episode i d) (sym p))

first-eq :
    {c n : ℕ} {m m' : ℕ} {ps ps' : List (Slot × Option SlotValue)}
    → ◌≡◌ {A = Result Error (ℕ × ℕ × List (Slot × Option SlotValue))}
        (ok (n, m, ps))
        (ok (c, m', ps'))
    → n ≡ c
first-eq h = ground arith

load_active-found :
    (v : Value) (c : ℕ) (db : Db) (e : Episode) (a : Option View)
    → positive_integer v ≡ ok c
    → find_active c db.episodes ≡ some e
    → a ≡ read_episode e.episode_id db
    → load_active v db ≡ ok a
unfolding load_active ◌>>=◌
load_active-found v c db e a h f q = rw (h, f, q) refl

-- A transaction that opens an episode leaves it as the active one of its conversation, and returns what
-- is then read of it.
begin_body-active :
    (c m now : ℕ) (patch : List (Slot × Option SlotValue)) (fresh : Value) (db db' : Db)
    (a : Option View)
    → begin_body c m patch now fresh db ≡ ok (db', a)
    → (e : Episode) × (find_active c db'.episodes ≡ some e) × (a ≡ read_episode e.episode_id db')
unfolding begin_body
begin_body-active c m now patch fresh db db' a h =
    let (free, h₁) = guard-eq-ok _ _ _ h in
    let (_, h₂) = guard-eq-ok _ _ _ h₁ in
    let (id, _, h₃) = >>=-eq-ok _ _ h₂ in
    let (es, i, h₄) = >>=-eq-ok _ _ h₃ in
    let (ms, _, h₅) = >>=-eq-ok _ _ h₄ in
    let (ss, _, h₆) = >>=-eq-ok _ _ h₅ in
    let added = insert-eq-ok (new_episode id c now) db.episodes es i in
    done-active id c _ (db', a) (new_episode id c now) h₆
      (rw added
        (find_active-append c (new_episode id c now) db.episodes (is_some-none _ free) refl refl))
      refl

-- What `beginEpisode` returns is what `loadActive` then reads of the conversation.
pub begin_episode-load_active :
    (conversation_id source_message_id stable_slots fresh : Value) (now : ℕ) (db db' : Db)
    (a : Option View)
    → begin_episode conversation_id source_message_id stable_slots now fresh db ≡ (db', ok a)
    → load_active conversation_id db' ≡ ok a
unfolding begin_episode begin_input load_active
begin_episode-load_active conversation_id source_message_id stable_slots fresh now db db' a h =
    let ((c, m, patch), k, body) =
      checked-eq-ok db (begin_input conversation_id source_message_id stable_slots) _ h in
    let (n, p, rest) = >>=-eq-ok _ _ k in
    let (_, _, rest') = >>=-eq-ok _ _ rest in
    let (_, _, rest'') = >>=-eq-ok _ _ rest' in
    let (e, f, q) = begin_body-active c m now patch fresh db db' a body in
    load_active-found conversation_id c db' e a (p ∙ ap ok (first-eq rest'')) f q
