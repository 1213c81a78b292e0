-- ===== src/EpisodeStore/Appends.antt =====
-- src/copilot/episode-store.mjs: a source message is appended to an episode at most once.
use babypark_integration.Base.{
  guard-eq-ok, ℕ, ◌≡◌, refl, sym, subst, inl, inr, Bool, true, false, Option, List, [], ◌∷◌, ◌++◌,
  String, arith, if◌then◌else◌, Value, ok, eq_iff, ◌>>=◌, >>=-eq-ok, Result-cases,
}
use babypark_integration.EpisodeStore.Tables.{Episode, Db, Message, message_clash, has_message}
use babypark_integration.EpisodeStore.Operations.{
  View, tx, commit, require_active, append_new, commit, done, append_body,
}
use babypark_integration.EpisodeStore.Api.{Request, call, run, append_source_message, append_input}
use babypark_integration.EpisodeStore.Bodies.{checked-eq-ok, ok-injective}
use babypark_integration.EpisodeStore.Writes.{call-Change, bump-same, insert-eq-ok}

has_message-append :
    (id : String) (m : ℕ) (xs ys : List Message)
    → has_message id m xs ≡ true
    → has_message id m (xs ++ ys) ≡ true
unfolding has_message
has_message-append id m [] ys h = cc
has_message-append id m (x ∷ xs) ys h = ground (arith, has_message-append id m xs ys)

has_message-last :
    (id : String) (m : ℕ) (r : Message) (xs : List Message)
    → r.episode_id ≡ id
    → r.message_id ≡ m
    → has_message id m (xs ++ r ∷ []) ≡ true
unfolding has_message
has_message-last id m r [] e f = ground (arith, eq_iff r.episode_id id)
has_message-last id m r (x ∷ xs) e f = ground (arith, has_message-last id m r xs e f)

run-has_message :
    (cs : List (ℕ × Request)) (db : Db) (id : String) (m : ℕ)
    → has_message id m db.messages ≡ true
    → has_message id m (run cs db).messages ≡ true
unfolding run
run-has_message [] db id m h = h
run-has_message ((now, q) ∷ cs) db id m h =
    let change = call-Change now q db in
    run-has_message cs (call (now, q) db).0 id m
      (rw change.messages (has_message-append id m db.messages change.added h))

append_new-has_message :
    (id : String) (m now : ℕ) (e : Episode) (db db' : Db) (a : Option View)
    → append_new id m now e db ≡ ok (db', a)
    → has_message id m db'.messages ≡ true
unfolding append_new
append_new-has_message id m now e db db' a h =
    let (_, h1) = guard-eq-ok _ _ _ h in
    let (_, h2) = guard-eq-ok _ _ _ h1 in
    let (ms, sent, h3) = >>=-eq-ok _ _ h2 in
    let (d, bumped, h4) = >>=-eq-ok _ _ h3 in
    let stored = (bump-same id e.version now _ d bumped).1 in
    subst (λ x. has_message id m (Db.messages x) ≡ true) (ok-injective h4)
      (subst (λ xs. has_message id m xs ≡ true) (sym stored)
        (subst (λ xs. has_message id m xs ≡ true) (insert-eq-ok message_clash _ db.messages sent).1
          (has_message-last id m _ db.messages refl refl)))

append-has_message :
    (id : String) (m now : ℕ) (e : Episode) (db db' : Db) (a : Option View) (b : Bool)
    → has_message id m db.messages ≡ b
    → (if b then done id db else append_new id m now e db) ≡ ok (db', a)
    → has_message id m db'.messages ≡ true
append-has_message id m now e db db' a true there h =
    subst (λ d. has_message id m (Db.messages d) ≡ true) (ok-injective h) there
append-has_message id m now e db db' a false absent h = append_new-has_message id m now e db db' a h

append_body-has_message :
    (id : String) (m : ℕ) (v : Value) (now : ℕ) (db db' : Db) (a : Option View)
    → append_body id m v now db ≡ ok (db', a)
    → has_message id m db'.messages ≡ true
unfolding append_body
append_body-has_message id m v now db db' a h =
    let (e, _, h1) = >>=-eq-ok _ _ h in
    append-has_message id m now e db db' a (has_message id m db.messages) refl h1

-- A message that the episode already has changes nothing, whether the call throws or not.
append_body-kept :
    (id : String) (m : ℕ) (v : Value) (now : ℕ) (db : Db)
    → has_message id m db.messages ≡ true
    → (commit db (append_body id m v now db)).0 ≡ db
unfolding append_body ◌>>=◌
append_body-kept id m v now db h = elim (Result-cases (require_active id v db)) [
  | inl (e, he) ↦ rw he refl
  | inr (e, he) ↦ rw (he, h) refl
]

-- Once a message was appended to an episode, appending it again changes nothing in the store,
-- whatever calls are made in between and whatever version is expected.
pub append_once :
    (id mv v v' : Value) (now now' : ℕ) (db db' : Db) (a : Option View) (cs : List (ℕ × Request))
    → append_source_message id mv v now db ≡ (db', ok a)
    → (append_source_message id mv v' now' (run cs db')).0 ≡ run cs db'
unfolding append_source_message tx
append_once id mv v v' now now' db db' a cs h =
    let (x, hx, hb) = checked-eq-ok db (append_input id mv) _ h in
    rw hx (
      append_body-kept x.0 x.1 v' now' (run cs db')
        (run-has_message cs db' x.0 x.1 (append_body-has_message x.0 x.1 v now db db' a hb)))
