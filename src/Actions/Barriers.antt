-- ===== src/Actions/Barriers.antt =====
-- src/copilot/first-line-state-store.mjs, lines 520 to 532, 4638 to 4787, 4908 to 4956 and 6677 to 6686: what the
-- recovery barrier stops.
use babypark_integration.Base.{
  ℕ, ◌≡◌, refl, Bool, true, false, ◌&&◌, Option, none, some, List, [], ◌∷◌, ◌++◌, String, any,
  arith, err, ◌>>=◌, ◌>>◌, fail_if, Bool-cases, is_none, inl, inr,
}
use babypark_integration.Actions.Tables.{Event, Barrier, Action, Db}
use babypark_integration.Actions.Queries.{has_barrier, is_gating, is_sending}
use babypark_integration.Actions.Triggers.{
  admits, admits_claim, admits_sending, is_admitted, admits_event,
}
use babypark_integration.Actions.Lifecycle.{Connection}
use babypark_integration.Actions.Writes.{abort, recovery_barrier_active, insert_event}
use babypark_integration.Actions.Sending.{claim_next_public_action, mark_action_sending}
use babypark_integration.Actions.Confirmation.{active_barrier, enter_recovery_barrier}
use babypark_integration.Actions.Steps.{admits-parts}

abbrev is_barring : Barrier → Bool
is_barring b = elim b.completed_at [ none ↦ true | some t ↦ false ]

any-last :
    (bs : List Barrier) (b : Barrier) → is_barring b ≡ true → any is_barring (bs ++ b ∷ []) ≡ true
any-last [] b h = ground (arith, h)
any-last (x ∷ xs) b h = ground (arith, any-last xs b h)

active_barrier-any :
    (bs : List Barrier) (b : Barrier) → active_barrier bs ≡ some b → any is_barring bs ≡ true
unfolding active_barrier
active_barrier-any [] b h = absurd (ground (arith, h))
active_barrier-any (x ∷ xs) b h = elim (Bool-cases (is_none x.completed_at)) [
  | inl p ↦ ground (arith, p)
  | inr p ↦ ground (arith, active_barrier-any xs b (ground (arith, h, p)))
]

-- After the barrier is entered there is one.
entered :
    (at : ℕ) (why : String) (db : Db) (o : Option Barrier)
    → active_barrier db.barriers ≡ o
    → has_barrier (enter_recovery_barrier at why db) ≡ true
unfolding enter_recovery_barrier
entered at why db none h = rw (h, enter_recovery_barrier) (any-last db.barriers _ refl)
entered at why db (some b) h = rw (h, enter_recovery_barrier) (active_barrier-any db.barriers b h)

barrier_stops_updates :
    (c : Connection) (db : Db) (a b : Action)
    → has_barrier db ≡ true
    → admits_claim c db a b ≡ true
    → admits_sending c db a b ≡ true
    → (is_gating b.state ≡ false) × ((is_gating a.state && is_sending b.state) ≡ false)
unfolding admits_claim admits_sending is_admitted
barrier_stops_updates c db a b h i j = (ground (arith, h, i), ground (arith, h, j))

claim_stops :
    (intact : Db → String → Bool) (at now lease : ℕ) (claim : String) (db : Db)
    → has_barrier db ≡ true
    → claim_next_public_action intact at now lease claim db ≡ err recovery_barrier_active
unfolding claim_next_public_action ◌>>=◌ ◌>>◌ fail_if
claim_stops intact at now lease claim db h = rw h refl

send_stops :
    (intact : Db → String → Bool) (at now : ℕ) (id token : String) (db : Db)
    → has_barrier db ≡ true
    → mark_action_sending intact at now id token db ≡ err recovery_barrier_active
unfolding mark_action_sending ◌>>=◌ ◌>>◌ fail_if
send_stops intact at now id token db h = rw h refl

event_stops : (e : Event) (db : Db) → has_barrier db ≡ true → insert_event e db ≡ err abort
unfolding insert_event admits_event ◌>>=◌ ◌>>◌ fail_if
event_stops e db h = rw h refl

-- Once the recovery barrier is entered, whether or not one was active before, a claim, the start of a
-- send and the arrival of an event all fail, and the triggers of any update that another statement makes
-- let neither a claim nor the start of a send through.
pub barrier_stops :
    (intact : Db → String → Bool) (at now lease : ℕ) (why claim id token : String) (e : Event)
    (db : Db) (c : Connection) (a b : Action)
    → (claim_next_public_action intact at now lease claim (enter_recovery_barrier at why db)
        ≡ err recovery_barrier_active)
      × (mark_action_sending intact at now id token (enter_recovery_barrier at why db)
          ≡ err recovery_barrier_active)
      × (insert_event e (enter_recovery_barrier at why db) ≡ err abort)
      × (admits c (enter_recovery_barrier at why db) a b ≡ true
          → (is_gating b.state ≡ false) × ((is_gating a.state && is_sending b.state) ≡ false))
barrier_stops intact at now lease why claim id token e db c a b =
    let h = entered at why db (active_barrier db.barriers) refl in
    (
      claim_stops intact at now lease claim _ h,
      send_stops intact at now id token _ h,
      event_stops e _ h,
      λ through.
          let (_, _, claiming, starting, _, _) = admits-parts c _ a b through in
          barrier_stops_updates c _ a b h claiming starting,
    )
