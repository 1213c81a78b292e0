-- ===== src/Actions/Tests.antt =====
-- src/copilot/first-line-state-store.mjs and first-line-public-action-gate.mjs: the theorems at a concrete database.
use babypark_integration.Base.{
  ◌∷◌, ◌⊎◌, ◌<◌, All, any, str_eq, List, ℕ, ◌≡◌, ◌≤◌, refl, true, false, ◌&&◌, ◌||◌, not, is_some,
  none, some, [], arith, ok, err,
}
use babypark_integration.Actions.Tables.{Stream, Event, Action, stale, Db}
use babypark_integration.Actions.Queries.{
  is_own_reply, has_owner, has_descriptor, find_stream, find_owner, find_action, is_confirmed,
  is_in_flight, is_withdrawn, is_sending, is_gating, is_handoff, is_unsent,
}
use babypark_integration.Actions.Triggers.{is_at_revision, admits}
use babypark_integration.Actions.Writes.{abort, recovery_barrier_active, insert_event}
use babypark_integration.Actions.Sending.{
  candidates, sent, claim_next_public_action, mark_action_sending,
}
use babypark_integration.Actions.Confirmation.{enter_recovery_barrier}
use babypark_integration.Actions.Steps.{none_left, next, at_most_one_send}
use babypark_integration.Actions.Delivery.{Run, view, IsSound, phase, Steps-Run, final_stays}
use babypark_integration.Actions.Leases.{lease_excludes}
use babypark_integration.Actions.Overtaken.{now, event, late_event_blocks_send}
use babypark_integration.Actions.Sequence.{IsOrdered, History-IsOrdered}
use babypark_integration.Actions.Barriers.{barrier_stops}
use babypark_integration.Actions.Claims.{after_claim, claim_makes_progress}
use babypark_integration.Actions.Ingest.{Input}
use babypark_integration.Actions.Gate.{Snapshot, basis_flaw, basis_events}
use babypark_integration.Actions.Known.{is_known_at}
use babypark_integration.Actions.Ready.{ready_is_covered}
use babypark_integration.Actions.Settled.{is_entitled, has_settled, finish-settled}
use babypark_integration.Actions.Owners.{replies_of}
use babypark_integration.Actions.Evidence.{confirm_rests_on_reply}
use babypark_integration.Actions.Samples.{
  answered, closed, confirming, on_the_way, follow_up, fresh, start, in_lease, arrived, cut,
  all_intact, connection, held, moved, arriving, overtaken, overtaking, touched, touching, after,
  finishing, delivery, sends, history, clock, let_go, going,
}

at_most_one_send_example :
    (sends ≤ 1)
    × (is_confirmed arrived.state ≡ true → sends ≡ 1)
    × (is_in_flight arrived.state ≡ true → sends ≡ 1)
    × (is_withdrawn arrived.state ≡ true → sends ≡ 0)
at_most_one_send_example = at_most_one_send fresh arrived 1 (refl, refl) delivery

Steps-Run_example : Run (view fresh) (view arrived) × IsSound arrived
Steps-Run_example = Steps-Run refl delivery

final_stays_example :
    (phase (Action.state arrived) ≡ phase (Action.state arrived))
    × (is_some (Action.send_started_at arrived) ≡ is_some (Action.send_started_at arrived))
    × ((m : ℕ)
        → Action.confirmed_source_message_id arrived ≡ some m
        → Action.confirmed_source_message_id touched ≡ some m)
final_stays_example = final_stays refl refl (next (connection 140 none) cut touching none_left)

lease_excludes_example :
    (is_handoff (Action.state overtaken)
      || (is_withdrawn (Action.state overtaken) && not (is_at_revision moved in_lease)))
    ≡ true
lease_excludes_example =
    lease_excludes (connection 120 none) moved in_lease overtaken
      (refl, refl, (150, refl, omega arith)) overtaking

late_event_blocks_send_example : is_sending (Action.state overtaken) ≡ false
late_event_blocks_send_example =
    late_event_blocks_send follow_up held moved moved (connection 120 none) in_lease overtaken refl
      (λ _. omega arith, tt) refl arriving now refl overtaking

History-IsOrdered_example : IsOrdered moved
History-IsOrdered_example =
    History-IsOrdered (event follow_up arriving now) (refl, ((refl, refl), tt))

barrier_stops_example :
    (claim_next_public_action all_intact 100 100 50 "token"
        (enter_recovery_barrier 100 "restore" start)
      ≡ err recovery_barrier_active)
    × (mark_action_sending all_intact 100 100 "action" "token"
          (enter_recovery_barrier 100 "restore" start)
        ≡ err recovery_barrier_active)
    × (insert_event follow_up (enter_recovery_barrier 100 "restore" start) ≡ err abort)
    × (admits
            (connection 100 (some "token"))
            (enter_recovery_barrier 100 "restore" start)
            fresh
            in_lease
          ≡ true
        → (is_gating (Action.state in_lease) ≡ false)
          × ((is_gating (Action.state fresh) && is_sending (Action.state in_lease)) ≡ false))
barrier_stops_example =
    barrier_stops all_intact 100 100 50 "restore" "token" "action" "token" follow_up start
      (connection 100 (some "token")) fresh in_lease

claim_makes_progress_example :
    claim_next_public_action all_intact 100 100 50 "token" start
    ≡ ok (after_claim 100 50 "token" fresh start, some "action")
unfolding candidates find_action find_owner has_owner has_descriptor
claim_makes_progress_example =
    claim_makes_progress all_intact 100 100 50 "token" start fresh [] [] refl refl refl refl refl
      refl refl

finish-settled_example :
    (a : Action) × (s : Stream) × (find_action "action" (Db.actions moved) ≡ some a)
    × (find_stream a.stream_id (Db.streams moved) ≡ some s)
    × (is_unsent a.state ≡ true)
    × (is_entitled 120 none s a ≡ true)
    × (has_settled a after ≡ true)
finish-settled_example =
    finish-settled all_intact 120 120 "action" stale "overtaken" none moved after finishing

ready_is_covered_example :
    (a : Action) × (basis : List Event) × ((Snapshot.complete history
        && str_eq (Snapshot.code history) "COMPLETE")
      ≡ true)
    × All
        (λ (i : Input).
          any
            (is_known_at "stream" i.source_message_id a.prepared_stream_revision)
            (Db.events let_go)
          ≡ true)
        (Snapshot.events history)
    × (basis_events a.stream_id a.basis_event_seqs (Db.events let_go) ≡ ok basis)
    × (basis_flaw (Snapshot.events history) basis ≡ none)
    × (find_action "action" (Db.actions let_go) ≡ some (sent 111 a))
ready_is_covered_example =
    ready_is_covered all_intact all_intact clock "stream" "action" "token" history held let_go 0
      (refl, ((refl, refl), tt)) going

confirm_rests_on_reply_example :
    ((closed ≡ answered) × (replies_of "stream" "action" (Db.events answered) ≡ []))
    ⊎ ((e : Event) × (replies_of "stream" "action" (Db.events answered) ≡ e ∷ [])
        × (is_own_reply e.event_kind ≡ true)
        × (Action.prepared_stream_revision on_the_way < e.event_seq)
        × (is_some (Action.send_started_at on_the_way) ≡ true))
unfolding find_action
confirm_rests_on_reply_example =
    confirm_rests_on_reply all_intact 130 130 "action" answered on_the_way (closed, true) refl refl
      confirming
