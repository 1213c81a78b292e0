-- ===== src/Knowledge/Replay.antt =====
-- src/copilot/knowledge/store.mjs, lines 915 to 966: the snapshot against the replay of the histories.
use mathlib.Core.Option
use babypark_integration.Base.{
  ◌≡◌, refl, ap, ◌∙◌, Bool, true, false, Option, none, some, List, [], ◌∷◌, String, str_eq, map,
  if◌then◌else◌, ok, ◌>>=◌, ◌>>◌, >>=-eq-ok, All,
}
use babypark_integration.Knowledge.Records.{State, Revision, Event, Ledger, Services}
use babypark_integration.Knowledge.Ledger.{
  events_of, revision_history_state, check_histories, verify_ledger,
}
use babypark_integration.Knowledge.Transitions.{state_after, current_state}
use babypark_integration.Knowledge.Outcomes.{verified-histories}
use babypark_integration.Knowledge.States.{history-current_state}
use babypark_integration.Knowledge.Authority.{
  AuthorityRow, last_event, authority_row, authority_snapshot,
}

step :
    (e : Event) (o : Option Event) (b : Bool) {c : Option State}
    → Option.map (λ (x : Event). state_after x.event_type) o ≡ c
    → Option.map
        (λ (x : Event). state_after x.event_type)
        (elim o [ some last ↦ some last | none ↦ if b then some e else none ])
      ≡ elim c [ none ↦ if b then some (state_after e.event_type) else none | some st ↦ some st ]
step e none true h = rw (← h) refl
step e none false h = rw (← h) refl
step e (some x) b h = rw (← h) refl

last_event-current_state :
    (id : String) (es : List Event)
    → Option.map (λ (e : Event). state_after e.event_type) (last_event id es) ≡ current_state id es
unfolding last_event current_state
last_event-current_state id [] = refl
last_event-current_state id (e ∷ es) =
    step e (last_event id es) (str_eq e.revision_id id) (last_event-current_state id es)

module _ (s : Services) (l : Ledger) where
  -- The row has the state that the replay of its revision's history ends in.
  abbrev pub IsReplayed : AuthorityRow → Type 0
  IsReplayed row =
      (st : State) × (revision_history_state s l row.revision
          (events_of row.revision.revision_id l.events)
        ≡ ok st)
      × (row.state ≡ some st)

  rows-IsReplayed :
      (rs : List Revision)
      → check_histories s l rs ≡ ok tt
      → All IsReplayed (map (authority_row l.events) rs)
  unfolding check_histories authority_row
  rows-IsReplayed [] h = tt
  rows-IsReplayed (r ∷ rs) h =
      let (st, k, m) = >>=-eq-ok _ _ h in
      (
        (st, k, last_event-current_state r.revision_id l.events ∙ history-current_state s l r k),
        rows-IsReplayed rs m,
      )

  map-revision :
      (rs : List Revision)
      → map (λ row. AuthorityRow.revision row) (map (authority_row l.events) rs) ≡ rs
  unfolding authority_row
  map-revision [] = refl
  map-revision (r ∷ rs) = ap (λ xs. r ∷ xs) (map-revision rs)

  -- The snapshot of a verified ledger has one row for each revision, in their order, with the state that
  -- the replay of its history ends in.
  pub authority_snapshot-IsReplayed :
      verify_ledger s l ≡ ok tt
      → (rows : List AuthorityRow) × (authority_snapshot s l ≡ ok rows)
        × (map (λ row. AuthorityRow.revision row) rows ≡ l.revisions)
        × All IsReplayed rows
  unfolding authority_snapshot ◌>>=◌ ◌>>◌
  authority_snapshot-IsReplayed h = (
    map (authority_row l.events) l.revisions,
    rw h refl,
    map-revision l.revisions,
    rows-IsReplayed l.revisions (verified-histories s l h),
  )
