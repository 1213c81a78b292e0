-- ===== src/Actions/Ready.antt =====
-- src/copilot/first-line-public-action-gate.mjs with src/copilot/first-line-state-store.mjs: what holds of a reply
-- that the gate lets go.
use babypark_integration.Base.{
  ℕ, ◌≡◌, refl, ap, sym, subst, ◌∙◌, inl, inr, Bool, true, ◌&&◌, not, Option, none, some, List, [],
  ◌∷◌, String, str_eq, eq_iff, arith, any, All, if◌then◌else◌, length, order_by, ok, >>-eq-ok,
  >>=-eq-ok, guard-eq-ok, ok-injective, Bool-cases,
}
use babypark_integration.Actions.Tables.{Event, Action, Db}
use babypark_integration.Actions.Queries.{find_stream, find_action, is_unsent}
use babypark_integration.Actions.Writes.{write_action, settle_owner, replace_action}
use babypark_integration.Actions.Sending.{mark_action_sending, read_action, require_stream, sent}
use babypark_integration.Actions.Arrivals.{write_action-events}
use babypark_integration.Actions.Sequence.{IsOrdered}
use babypark_integration.Actions.Ingest.{Input, has_source}
use babypark_integration.Actions.Gate.{
  Snapshot, Answer, ready_to_send, basis_flaw, basis_events, gate_after,
}
use babypark_integration.Actions.Claims.{if-and_false, find_action-replace_action}
use babypark_integration.Actions.Settled.{read_action-eq-ok, stream-cases}
use babypark_integration.Actions.Lifecycle.{Connection}
use babypark_integration.Actions.Ingested.{ingest_all-Ingested}
use babypark_integration.Actions.Known.{is_known_at, All-order_by, All-weaken, known_at_revision}
use babypark_integration.Actions.Decision.{is_ready, if-split, lift-eq-ok, decide-ready}

mark_action_sending-events :
    (is_intact : Db → String → Bool) (at now : ℕ) (id token : String) (db d : Db)
    → mark_action_sending is_intact at now id token db ≡ ok d
    → d.events ≡ db.events
unfolding mark_action_sending
mark_action_sending-events is_intact at now id token db d h =
    let (_, h1) = guard-eq-ok _ _ _ h in
    let (a, _, h2) = >>=-eq-ok _ _ h1 in
    let h3 = >>-eq-ok _ _ h2 in
    let (g, written, h4) = >>=-eq-ok _ _ h3 in
    let (_, _, h5) = >>=-eq-ok _ _ h4 in
    ap Db.events (sym (ok-injective h5))
    ∙ write_action-events (record { now = now; token = some token }) a (sent at a) db g written

find_action-id :
    (id : String) (xs : List Action) (a : Action) → find_action id xs ≡ some a → a.action_id ≡ id
unfolding find_action
find_action-id id [] a h = absurd (ground (arith, h))
find_action-id id (x ∷ xs) a h = elim (Bool-cases (str_eq x.action_id id)) [
  | inl t ↦
      let same : x ≡ a = cc (
        subst (λ b. ◌≡◌ {A = Option Action} (if b then some x else find_action id xs) (some a)) t
          h) in
      ap Action.action_id (sym same) ∙ (eq_iff x.action_id id).0 t
  | inr f ↦ find_action-id id xs a (ground (arith, f, h))
]

sent-write_action :
    (c : Connection) (at : ℕ) (a : Action) (db d : Db)
    → write_action c a (sent at a) db ≡ ok d
    → d.actions ≡ replace_action a.action_id (sent at a) db.actions
unfolding write_action settle_owner
sent-write_action c at a db d h =
    let (_, h1) = guard-eq-ok _ _ _ h in
    ap Db.actions (sym (ok-injective (sym (if-and_false (is_unsent a.state) _ _) ∙ h1)))

-- The action that the send has found is the one that is sending then.
mark_action_sending-sends :
    (is_intact : Db → String → Bool) (at now : ℕ) (id token : String) (db d : Db)
    → mark_action_sending is_intact at now id token db ≡ ok d
    → (a : Action) × (read_action is_intact id db ≡ ok a)
      × (find_action id d.actions ≡ some (sent at a))
unfolding mark_action_sending
mark_action_sending-sends is_intact at now id token db d h =
    let (_, h1) = guard-eq-ok _ _ _ h in
    let (a, read, h2) = >>=-eq-ok _ _ h1 in
    let h3 = >>-eq-ok _ _ h2 in
    let (g, written, h4) = >>=-eq-ok _ _ h3 in
    let (_, _, h5) = >>=-eq-ok _ _ h4 in
    let found = read_action-eq-ok is_intact id db a read in
    let key = find_action-id id db.actions a found in
    (
      a,
      read,
      ap (λ (x : Db). find_action id x.actions) (sym (ok-injective h5))
          ∙ ap (find_action id)
              (sent-write_action (record { now = now; token = some token }) at a db g written)
          ∙ subst (λ x. find_action id (replace_action x (sent at a) db.actions) ≡ some (sent at a))
              (sym key) (find_action-replace_action id (sent at a) a db.actions key found),
    )

-- When the gate lets a reply go, the source has answered with its complete history, and every message of
-- that history was in the ledger already at the revision for which the reply was prepared: nobody has
-- said anything that the reply does not know of. Every event that the reply rests on is still there,
-- and the source says of it what the ledger has. And the action is sending. (The events of each stream
-- were numbered in order; whatever the stored rows are found to be, and whatever the clock shows.)
pub ready_is_covered :
    (is_intact is_whole : Db → String → Bool) (time : ℕ → ℕ) (stream id token : String)
    (snapshot : Snapshot) (db g : Db) (k : ℕ)
    → IsOrdered db
    → gate_after is_intact is_whole time stream id token snapshot db ≡ ok (g, ready_to_send k)
    → (a : Action) × (basis : List Event) × ((snapshot.complete && str_eq snapshot.code "COMPLETE")
        ≡ true)
      × All
          (λ (i : Input).
            any (is_known_at stream i.source_message_id a.prepared_stream_revision) g.events ≡ true)
          snapshot.events
      × (basis_events a.stream_id a.basis_event_seqs g.events ≡ ok basis)
      × (basis_flaw snapshot.events basis ≡ none)
      × (find_action id g.actions ≡ some (sent (time (length snapshot.events)) a))
unfolding gate_after require_stream
ready_is_covered is_intact is_whole time stream id token snapshot db g k o h =
    elim (if-split (not (snapshot.complete && str_eq snapshot.code "COMPLETE")) _ _ h) [
      | inl (_, n) ↦
          absurd (ground (arith, ap (λ (x : Db × Answer). is_ready x.1) (ok-injective n)))
      | inr (complete, h1) ↦
          let (r, ingested, h2) = >>=-eq-ok _ _ h1 in
          let sorted = order_by (λ (i : Input). i.source_message_id) snapshot.events in
          let (all, _, ordering) =
            ingest_all-Ingested is_whole time 0 stream sorted db r (lift-eq-ok _ ingested) in
          let (a, s, basis, read, here, same, based, sound, went) =
            decide-ready is_intact time (length snapshot.events) stream id token snapshot r.1 r.0
              (g, ready_to_send k) h2 refl in
          let kept = mark_action_sending-events is_intact _ _ id token r.0 g went in
          let (b, reread, sending) = mark_action_sending-sends is_intact _ _ id token r.0 g went in
          let known : (i : Input)
              → any (has_source stream i.source_message_id) (Db.events r.0) ≡ true
              → any (is_known_at stream i.source_message_id a.prepared_stream_revision) g.events
                ≡ true =
            λ i there.
              subst
                (λ es.
                  any (is_known_at stream i.source_message_id a.prepared_stream_revision) es ≡ true)
                (sym kept)
                (subst (λ n. any (is_known_at stream i.source_message_id n) (Db.events r.0) ≡ true)
                  same
                  (known_at_revision stream i.source_message_id r.0 s (ordering o)
                    (stream-cases (find_stream stream (Db.streams r.0)) s here) there)) in
          (
            a,
            basis,
            ground (arith, complete),
            All-weaken _ _ snapshot.events known
                (All-order_by _ (λ (i : Input). i.source_message_id) snapshot.events all),
            ap (basis_events a.stream_id a.basis_event_seqs) kept ∙ based,
            sound,
            subst (λ x. find_action id g.actions ≡ some (sent (time (length snapshot.events)) x))
                (ok-injective (sym reread ∙ read)) sending,
          )
    ]
