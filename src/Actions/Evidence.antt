-- ===== src/Actions/Evidence.antt =====
-- src/copilot/first-line-state-store.mjs, lines 3364 to 3489: what a confirmation rests on.
use babypark_integration.Base.{
  ℕ, ◌<◌, ◌≡◌, refl, ap, sym, subst, ◌⊎◌, inl, inr, Bool, true, false, some, List, [], ◌∷◌, String,
  is_some, arith, ok, >>=-eq-ok, guard-eq-ok, ok-injective,
}
use babypark_integration.Actions.Tables.{Event, Action, Db}
use babypark_integration.Actions.Queries.{is_confirmed, is_own_reply, find_action}
use babypark_integration.Actions.Owners.{replies_of}
use babypark_integration.Actions.Confirmation.{
  confirm_with, confirm_from, confirm_public_action_from_ledger,
}
use babypark_integration.Actions.Settled.{read_action-eq-ok}
use babypark_integration.Actions.Decision.{if-split}

confirm_with-reply :
    (at now : ℕ) (e : Event) (a : Action) (db d : Db)
    → confirm_with at now e a db ≡ ok d
    → (is_own_reply e.event_kind ≡ true)
      × (a.prepared_stream_revision < e.event_seq)
      × (is_some a.send_started_at ≡ true)
unfolding confirm_with
confirm_with-reply at now e a db d h =
    let (own, h1) = guard-eq-ok _ _ _ h in
    let (late, h2) = guard-eq-ok _ _ _ h1 in
    let (_, h3) = guard-eq-ok _ _ _ h2 in
    let (o, _, h4) = >>=-eq-ok _ _ h3 in
    let (sent, _) = guard-eq-ok _ _ _ h4 in
    (ground (arith, own), ground (arith, late), ground (arith, sent))

confirm_from-reply :
    (at now : ℕ) (a : Action) (es : List Event) (db : Db) (r : Db × Bool)
    → confirm_from at now a es db ≡ ok r
    → ((r.0 ≡ db) × (es ≡ []))
      ⊎ ((e : Event) × (es ≡ e ∷ [])
          × (is_own_reply e.event_kind ≡ true)
          × (a.prepared_stream_revision < e.event_seq)
          × (is_some a.send_started_at ≡ true))
unfolding confirm_from
confirm_from-reply at now a [] db r h =
    inl (ap (λ (x : Db × Bool). x.0) (sym (ok-injective h)), refl)
confirm_from-reply at now a (e ∷ []) db r h =
    let (d, confirmed, _) = >>=-eq-ok _ _ h in
    let (own, late, sent) = confirm_with-reply at now e a db d confirmed in
    inr (e, refl, own, late, sent)
confirm_from-reply at now a (e ∷ f ∷ es) db r h = absurd (ground (arith, h))

abbrev RestsOn : String → Db → Action → Db × Bool → Type 0
RestsOn id db a r =
    ((r.0 ≡ db) × (replies_of a.stream_id id db.events ≡ []))
    ⊎ ((e : Event) × (replies_of a.stream_id id db.events ≡ e ∷ [])
        × (is_own_reply e.event_kind ≡ true)
        × (a.prepared_stream_revision < e.event_seq)
        × (is_some a.send_started_at ≡ true))

-- A confirmation that succeeds of an action that is not confirmed yet: either the ledger has no event
-- with the action as its source, and nothing is written; or it has exactly one, which is a reply of the
-- shop itself with a number after the revision that the action was prepared for, and the send of the
-- action had begun.
pub confirm_rests_on_reply :
    (is_intact : Db → String → Bool) (at now : ℕ) (id : String) (db : Db) (a : Action)
    (r : Db × Bool)
    → find_action id db.actions ≡ some a
    → is_confirmed a.state ≡ false
    → confirm_public_action_from_ledger is_intact at now id db ≡ ok r
    → ((r.0 ≡ db) × (replies_of a.stream_id id db.events ≡ []))
      ⊎ ((e : Event) × (replies_of a.stream_id id db.events ≡ e ∷ [])
          × (is_own_reply e.event_kind ≡ true)
          × (a.prepared_stream_revision < e.event_seq)
          × (is_some a.send_started_at ≡ true))
unfolding confirm_public_action_from_ledger
confirm_rests_on_reply is_intact at now id db a r found fresh h =
    let (b, read, h1) = >>=-eq-ok _ _ h in
    let same : b ≡ a = cc (read_action-eq-ok is_intact id db b read, found) in
    elim (if-split (is_confirmed b.state) _ _ h1) [
      | inl (closed, _) ↦
          absurd (ground (arith, closed, fresh, ap (λ (x : Action). is_confirmed x.state) same))
      | inr (_, h2) ↦
          let (_, h3) = guard-eq-ok _ _ _ h2 in
          let (q, from, h4) = >>=-eq-ok _ _ h3 in
          let (_, _, h5) = >>=-eq-ok _ _ h4 in
          let back : q ≡ r = ok-injective h5 in
          subst (λ x. RestsOn id db x r) same
            (subst (λ x. RestsOn id db b x) back
              (confirm_from-reply at now b (replies_of b.stream_id id db.events) db q from))
    ]
