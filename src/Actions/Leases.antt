-- ===== src/Actions/Leases.antt =====
-- src/copilot/first-line-state-store.mjs, lines 710 to 819: what the lease of a gating action excludes.
use babypark_integration.Base.{ℕ, ◌<◌, ◌≡◌, Bool, true, false, ◌&&◌, ◌||◌, not, some, arith}
use babypark_integration.Actions.Tables.{State, Action, Db}
use babypark_integration.Actions.Queries.{
  is_gating, is_sending, is_withdrawn, is_same_text, is_handoff,
}
use babypark_integration.Actions.Triggers.{
  is_admitted, is_at_revision, is_claimable, admits, admits_claim, admits_sending,
  admits_withdrawal,
}
use babypark_integration.Actions.Lifecycle.{Connection, may_follow}
use babypark_integration.Actions.Steps.{admits-parts, is_monotonic-parts}

-- Another connection, which does not hold the lease that the row has at that time.
abbrev pub IsExcluded : Connection → Action → Type 0
IsExcluded c a =
    (is_gating a.state ≡ true)
    × (is_same_text c.token a.lease_token ≡ false)
    × ((t : ℕ) × (a.lease_expires_at ≡ some t) × (c.now < t))

is_claimable-leased :
    (now t : ℕ) (a : Action)
    → is_gating a.state ≡ true
    → a.lease_expires_at ≡ some t
    → now < t
    → is_claimable now a a.state ≡ false
is_claimable-leased now t a g e l = ground (arith, g, e, l)

claim_needs_expiry :
    (c : Connection) (db : Db) (a b : Action)
    → IsExcluded c a
    → admits_claim c db a b ≡ true
    → is_gating b.state ≡ false
unfolding admits_claim
claim_needs_expiry c db a b (g, _, (t, e, l)) h =
    ground (arith, h, is_claimable-leased c.now t a g e l)

sending_needs_token :
    (c : Connection) (db : Db) (a b : Action)
    → IsExcluded c a
    → admits_sending c db a b ≡ true
    → is_sending b.state ≡ false
unfolding admits_sending is_admitted
sending_needs_token c db a b (g, n, _) h = ground (arith, g, n, h)

withdrawal_needs_token :
    (c : Connection) (db : Db) (a b : Action)
    → IsExcluded c a
    → admits_withdrawal c db a b ≡ true
    → (is_withdrawn b.state && is_at_revision db a) ≡ false
unfolding admits_withdrawal
withdrawal_needs_token c db a b (g, n, _) h = ground (arith, g, n, h)

excluded_outcome :
    (s t : State) (at : Bool)
    → is_gating s ≡ true
    → may_follow s t ≡ true
    → is_gating t ≡ false
    → is_sending t ≡ false
    → (is_withdrawn t && at) ≡ false
    → (is_handoff t || (is_withdrawn t && not at)) ≡ true
unfolding may_follow
excluded_outcome s t at g f h j k = ground (arith, g, f, h, j, k)

-- While the lease of a gating action has not run out, the triggers let no update of it through for a
-- connection with another token, or with none, but two: a human takes the action over, or it is withdrawn
-- where the stream is not at its revision any more. So nobody else claims or sends it.
pub lease_excludes :
    (c : Connection) (db : Db) (a b : Action)
    → IsExcluded c a
    → admits c db a b ≡ true
    → (is_handoff b.state || (is_withdrawn b.state && not (is_at_revision db a))) ≡ true
lease_excludes c db a b x h =
    let (_, mono, claim, send, withdraw, _) = admits-parts c db a b h in
    let (follow, _, _, _) = is_monotonic-parts c db a b mono in
    excluded_outcome a.state b.state (is_at_revision db a) x.0 follow
      (claim_needs_expiry c db a b x claim) (sending_needs_token c db a b x send)
      (withdrawal_needs_token c db a b x withdraw)
