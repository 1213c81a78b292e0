-- ===== src/EpisodeStore/Messages.antt =====
-- src/copilot/episode-store.mjs: a source message opens at most one episode.
use babypark_integration.Base.{
  guard-eq-ok, ℕ, ◌≤◌, ◌≡◌, refl, subst, inl, inr, true, Option, none, some, List, arith,
  Bool-cases, is_some, Value, ok, err, Result, ◌>>=◌, ◌>>◌, fail_if, >>=-eq-ok,
}
use babypark_integration.EpisodeStore.Input.{
  Error, Slot, SlotValue, active_exists, message_already_consumed, positive_integer,
}
use babypark_integration.EpisodeStore.Tables.{Db, is_consumed, max_message_id, find_active}
use babypark_integration.EpisodeStore.History.{run-MarksGrow}
use babypark_integration.EpisodeStore.Operations.{View, tx, begin_body}
use babypark_integration.EpisodeStore.Api.{Request, run, checked, begin_episode, begin_input}
use babypark_integration.EpisodeStore.Bodies.{Throws, checked-eq-ok, commit-Throws, ok-injective}
use babypark_integration.EpisodeStore.Changes.{advance_watermark-covers}

is_consumed_mono :
    (o : Option ℕ) (m n : ℕ) → n ≤ m → is_consumed o m ≡ true → is_consumed o n ≡ true
is_consumed_mono none m n l h = cc
is_consumed_mono (some w) m n l h = ground arith

begin_body-covers :
    (c m : ℕ) (patch : List (Slot × Option SlotValue)) (now : ℕ) (fresh : Value) (db db' : Db)
    (a : Option View)
    → begin_body c m patch now fresh db ≡ ok (db', a)
    → is_consumed (max_message_id c db'.watermarks) m ≡ true
unfolding begin_body
begin_body-covers c m patch now fresh db db' a h =
    let (_, h1) = guard-eq-ok _ _ _ h in
    let (_, h2) = guard-eq-ok _ _ _ h1 in
    let (_, _, h3) = >>=-eq-ok _ _ h2 in
    let (_, _, h4) = >>=-eq-ok _ _ h3 in
    let (_, _, h5) = >>=-eq-ok _ _ h4 in
    let (_, _, h6) = >>=-eq-ok _ _ h5 in
    subst (λ d. is_consumed (max_message_id c (Db.watermarks d)) m ≡ true) (ok-injective h6)
      (advance_watermark-covers c m db.watermarks)

-- An active episode or a consumed message stops `beginEpisode`.
begin_body-refused :
    (c m : ℕ) (patch : List (Slot × Option SlotValue)) (now : ℕ) (fresh : Value) (db : Db)
    → is_consumed (max_message_id c db.watermarks) m ≡ true
    → (e : Error) × (begin_body c m patch now fresh db ≡ err e)
unfolding begin_body ◌>>=◌ ◌>>◌ fail_if
begin_body-refused c m patch now fresh db h =
    elim (Bool-cases (is_some (find_active c db.episodes))) [
      | inl b ↦ (active_exists, rw b)
      | inr b ↦ (message_already_consumed, rw (b, h))
    ]

begin_input-parts :
    (c m slots : Value) (x : ℕ × ℕ × List (Slot × Option SlotValue))
    → begin_input c m slots ≡ ok x
    → (positive_integer c ≡ ok x.0) × (positive_integer m ≡ ok x.1)
unfolding begin_input
begin_input-parts c m slots x h =
    let (i, hi, h1) = >>=-eq-ok _ _ h in
    let (j, hj, h2) = >>=-eq-ok _ _ h1 in
    let (_, _, h3) = >>=-eq-ok _ _ h2 in (ground arith, ground arith)

-- Once a message has opened an episode, neither it nor an older message of the conversation opens
-- another, whatever calls are made in between: `beginEpisode` throws and leaves the store as it is.
pub begin_once :
    (c mv mv' slots slots' fresh fresh' : Value) (m m' now now' : ℕ) (db db' : Db) (a : Option View)
    (cs : List (ℕ × Request))
    → begin_episode c mv slots now fresh db ≡ (db', ok a)
    → positive_integer mv ≡ ok m
    → positive_integer mv' ≡ ok m'
    → m' ≤ m
    → Throws (run cs db') (begin_episode c mv' slots' now' fresh' (run cs db'))
unfolding begin_episode tx
begin_once c mv mv' slots slots' fresh fresh' m m' now now' db db' a cs h hm hm' l =
    let (x, hx, hb) = checked-eq-ok db _ _ h in
    let (hc, hm0) = begin_input-parts c mv slots x hx in
    let covered = begin_body-covers x.0 x.1 x.2 now fresh db db' a hb in
    refused x.0 hc
      (is_consumed_mono _ m m' l (
        run-MarksGrow cs db' x.0 m (
          subst (λ n. is_consumed (max_message_id x.0 db'.watermarks) n ≡ true) (ground arith)
            covered)))
      (begin_input c mv' slots') refl
  where
    refused :
        (i : ℕ)
        → positive_integer c ≡ ok i
        → is_consumed (max_message_id i (run cs db').watermarks) m' ≡ true
        → (input : Result Error (ℕ × ℕ × List (Slot × Option SlotValue)))
        → begin_input c mv' slots' ≡ input
        → Throws (run cs db') (checked (run cs db') input (λ y. begin_body y.0 y.1 y.2 now' fresh'))
    refused i hi k (err e) hy = (e, refl)
    refused i hi k (ok y) hy =
        let (hc, hm0) = begin_input-parts c mv' slots' y hy in
        let same_c : i ≡ y.0 = ground arith in
        let same_m : m' ≡ y.1 = ground arith in
        commit-Throws (run cs db') _
          (begin_body-refused y.0 y.1 y.2 now' fresh' (run cs db') (rw (← same_c, ← same_m) k))
