-- ===== src/Actions/Settled.antt =====
-- src/copilot/first-line-state-store.mjs, lines 842 to 892 and 5667 to 5863: the continuation of an action that is
-- withdrawn before its send.
use babypark_integration.Base.{
  ℕ, ◌≡◌, refl, sym, ap, Bool, true, false, ◌&&◌, ◌||◌, not, Option, none, some, String, any, arith,
  Result, ok, err, ◌⊎◌, inl, inr, if◌then◌else◌, ltb, >>=-eq-ok, guard-eq-ok, ok-injective, subst,
}
use babypark_integration.Actions.Tables.{Stream, Episode, State, Action, Db}
use babypark_integration.Actions.Queries.{
  is_withdrawn, is_unsent, is_gating, find_stream, find_action,
}
use babypark_integration.Actions.Lifecycle.{Connection}
use babypark_integration.Actions.Writes.{
  Error, action_not_found, stream_not_found, db_corrupt, is_owner_of, is_settled, settle,
  settle_owner, write_action,
}
use babypark_integration.Actions.Sending.{require_stream, read_action, is_due}
use babypark_integration.Actions.Withdrawal.{
  is_held_by, withdrawn, write_release, release_clarification, supersede_unsent_action,
  attach_human_to_unsent_action, finish_at, finish_action_before_send,
}

-- The continuation of the action is superseded, or a human owns it.
abbrev pub has_settled : Action → Db → Bool
has_settled a db = any (λ o. is_owner_of a o && is_settled o) db.owners

settle-settled :
    (c : Connection) (new : Action) (db d : Db) → settle c new db ≡ ok d → has_settled new d ≡ true
unfolding settle
settle-settled c new db d h =
    let (_, h1) = guard-eq-ok _ _ _ h in
    let (owners, _, h2) = >>=-eq-ok _ _ h1 in
    let (q, h3) = guard-eq-ok _ _ _ h2 in
    subst (λ x. has_settled new x ≡ true) (ok-injective h3) (ground (arith, q))

if-settled :
    (b : Bool) (c : Connection) (new : Action) (db d : Db)
    → b ≡ true
    → (if b then settle c new db else ok db) ≡ ok d
    → has_settled new d ≡ true
if-settled true c new db d e h = settle-settled c new db d h
if-settled false c new db d e h = absurd (ground (arith, e))

write_action-settled :
    (c : Connection) (a : Action) (reason : String) (s : State) (at : ℕ) (db d : Db)
    → is_unsent a.state ≡ true
    → is_withdrawn s ≡ true
    → write_action c a (withdrawn s reason at a) db ≡ ok d
    → has_settled a d ≡ true
unfolding write_action settle_owner
write_action-settled c a reason s at db d u w h =
    let (_, h1) = guard-eq-ok _ _ _ h in
    if-settled (is_unsent a.state && is_withdrawn s) c (withdrawn s reason at a) _ d
      (ground (arith, u, w)) h1

if-owners :
    (b : Bool) (e : Episode) (at : ℕ) (db d : Db)
    → (if b then write_release e at db else ok db) ≡ ok d
    → d.owners ≡ db.owners
unfolding write_release
if-owners true e at db d h =
    let (_, h1) = guard-eq-ok _ _ _ h in ap Db.owners (sym (ok-injective h1))
if-owners false e at db d h = ap Db.owners (sym (ok-injective h))

release_clarification-owners :
    (at : ℕ) (a : Action) (o : Option Episode) (db d : Db)
    → release_clarification at a o db ≡ ok d
    → d.owners ≡ db.owners
unfolding release_clarification
release_clarification-owners at a none db d h = ap Db.owners (sym (ok-injective h))
release_clarification-owners at a (some e) db d h = if-owners _ e at db d h

supersede-settled :
    (c : Connection) (at : ℕ) (a : Action) (reason : String) (s : State) (db d : Db)
    → is_withdrawn s ≡ true
    → supersede_unsent_action c at a reason s db ≡ ok d
    → has_settled a d ≡ true
unfolding supersede_unsent_action
supersede-settled c at a reason s db d w h =
    let (unsent, h1) = guard-eq-ok _ _ _ h in
    let (stream, _, h2) = >>=-eq-ok _ _ h1 in
    let (_, h3) = guard-eq-ok _ _ _ h2 in
    let (_, h4) = guard-eq-ok _ _ _ h3 in
    let (g, written, h5) = >>=-eq-ok _ _ h4 in
    let (_, h6) = guard-eq-ok _ _ _ h5 in
    subst (λ os. any (λ o. is_owner_of a o && is_settled o) os ≡ true)
      (sym (release_clarification-owners at a _ g d h6))
      (write_action-settled c a reason s at db g (ground (arith, unsent)) w written)

attach-settled :
    (c : Connection) (at : ℕ) (a : Action) (reason : String) (s : State) (db d : Db)
    → is_unsent a.state ≡ true
    → is_withdrawn s ≡ true
    → attach_human_to_unsent_action c at a reason s db ≡ ok d
    → has_settled a d ≡ true
unfolding attach_human_to_unsent_action
attach-settled c at a reason s db d u w h =
    let (o, _, h1) = >>=-eq-ok _ _ h in
    let (g, _, h2) = >>=-eq-ok _ _ h1 in write_action-settled c a reason s at g d u w h2

-- The stream has moved on, or the action is not claimed, or the caller holds its lease.
abbrev pub is_entitled : ℕ → Option String → Stream → Action → Bool
is_entitled at lease stream a =
    ltb a.prepared_stream_revision stream.stream_revision
    || not (is_gating a.state)
    || (is_held_by lease a && not (is_due at a))

if-cases {ℓ} :
    {A : Type ℓ} (m g : Bool) (x y z : A) {w : A}
    → (if m then x else if g then y else z) ≡ w
    → ((m ≡ true) × (x ≡ w)) ⊎ ((y ≡ w) ⊎ ((g ≡ false) × (z ≡ w)))
if-cases true g x y z h = inl (refl, h)
if-cases false true x y z h = inr (inl h)
if-cases false false x y z h = inr (inr (refl, h))

read-cases :
    (o : Option Action) (b : Bool) (a : Action)
    → ◌≡◌ {A = Result Error Action}
        (elim o [ none ↦ err action_not_found | some x ↦ if b then ok x else err db_corrupt ])
        (ok a)
    → o ≡ some a
read-cases none b a h = absurd (ground (arith, h))
read-cases (some x) true a h = ap some (ok-injective h)
read-cases (some x) false a h = absurd (ground (arith, h))

pub stream-cases :
    (o : Option Stream) (s : Stream)
    → ◌≡◌ {A = Result Error Stream} (elim o [ none ↦ err stream_not_found | some x ↦ ok x ]) (ok s)
    → o ≡ some s
stream-cases none s h = absurd (ground (arith, h))
stream-cases (some x) s h = ap some (ok-injective h)

finish_at-settled :
    (at now : ℕ) (lease : Option String) (stream : Stream) (a : Action) (reason : String)
    (s : State) (db d : Db)
    → is_unsent a.state ≡ true
    → is_withdrawn s ≡ true
    → finish_at at now lease stream a reason s db ≡ ok d
    → (is_entitled at lease stream a ≡ true) × (has_settled a d ≡ true)
unfolding finish_at
finish_at-settled at now lease stream a reason s db d u w h =
    elim (if-cases (ltb a.prepared_stream_revision stream.stream_revision) (is_gating a.state) _ _ _
      h) [
        | inl (m, k) ↦ (
          ground (arith, m),
          supersede-settled (record { now = now; token = none }) at a reason s db d w k,
        )
        | inr (inl k) ↦
            let (held, k1) = guard-eq-ok _ _ _ k in
            let (live, k2) = guard-eq-ok _ _ _ k1 in
            (
              ground (arith, held, live),
              attach-settled (record { now = now; token = lease }) at a reason s db d u w k2,
            )
        | inr (inr (g, k)) ↦
            let (_, k1) = guard-eq-ok _ _ _ k in
            (
              ground (arith, g),
              attach-settled (record { now = now; token = none }) at a reason s db d u w k1,
            )
      ]

pub read_action-eq-ok :
    (is_intact : Db → String → Bool) (id : String) (db : Db) (a : Action)
    → read_action is_intact id db ≡ ok a
    → find_action id db.actions ≡ some a
unfolding read_action
read_action-eq-ok is_intact id db a h = read-cases (find_action id db.actions) (is_intact db id) a h

-- Where an action is cancelled or marked stale before its send, it was prepared or gating. The caller
-- was entitled to it: the stream had moved past its revision, or nobody had claimed it, or the caller
-- holds its lease, which had not run out. And its continuation is not lost: it is superseded, or a human
-- owns it and it is open.
pub finish-settled :
    (is_intact : Db → String → Bool) (at now : ℕ) (id : String) (s : State) (reason : String)
    (lease : Option String) (db d : Db)
    → finish_action_before_send is_intact at now id s reason lease db ≡ ok d
    → (a : Action) × (stream : Stream) × (find_action id db.actions ≡ some a)
      × (find_stream a.stream_id db.streams ≡ some stream)
      × (is_unsent a.state ≡ true)
      × (is_entitled at lease stream a ≡ true)
      × (has_settled a d ≡ true)
unfolding finish_action_before_send require_stream
finish-settled is_intact at now id s reason lease db d h =
    let (w, h1) = guard-eq-ok _ _ _ h in
    let (a, found, h2) = >>=-eq-ok _ _ h1 in
    let (unsent, h3) = guard-eq-ok _ _ _ h2 in
    let (stream, here, h4) = >>=-eq-ok _ _ h3 in
    let (_, h5) = guard-eq-ok _ _ _ h4 in
    let (g, finished, h6) = >>=-eq-ok _ _ h5 in
    let (_, _, h7) = >>=-eq-ok _ _ h6 in
    let u : is_unsent a.state ≡ true = ground (arith, unsent) in
    let (entitled, settled) =
      finish_at-settled at now lease stream a reason s db g u (ground (arith, w)) finished in
    (
      a,
      stream,
      read_action-eq-ok is_intact id db a found,
      stream-cases (find_stream a.stream_id db.streams) stream here,
      u,
      entitled,
      subst (λ x. has_settled a x ≡ true) (ok-injective h7) settled,
    )
