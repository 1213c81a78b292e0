-- ===== src/Knowledge/States.antt =====
-- src/copilot/knowledge/store.mjs, lines 673 to 685: the state of a revision, read from its last event.
use babypark_integration.Base.{
  ◌≡◌, refl, ap, ◌∙◌, Bool, true, false, List, [], ◌∷◌, Option, none, some, String, ok, err, Result,
  str_eq, not, if◌then◌else◌, arith, Value, undefined, null, other, bool, num, str, arr, obj,
}
use babypark_integration.Knowledge.Records.{
  EventType, draft_created, approved, published, revoked, superseded, withdrawn, State, draft,
  is_approved, Revision, Event, Ledger, Error, Services, is_superseded,
}
use babypark_integration.Knowledge.Ledger.{
  find, events_of, first_type, check_successor, terminal, after_publication, after_approval,
  after_draft, revision_history_state, verify_ledger, is_draft_created,
}
use babypark_integration.Knowledge.Transitions.{state_after, current_state}
use babypark_integration.Knowledge.Outcomes.{guard-ok, then-ok, verified-history}

ok-injective : {a b : State} → ◌≡◌ {A = Result Error State} (ok a) (ok b) → a ≡ b
ok-injective h = ground arith

abbrev last_state : Event → List Event → State
last_state e [] = state_after e.event_type
last_state e (f ∷ es) = last_state f es

-- The state that the events of one revision end in.
abbrev end_state : List Event → Option State
end_state [] = none
end_state (e ∷ es) = some (last_state e es)

state-step :
    (e : Event) (b : Bool) (o : Option State) (es : List Event)
    → o ≡ end_state es
    → elim o [ none ↦ if b then some (state_after e.event_type) else none | some st ↦ some st ]
      ≡ end_state (if b then e ∷ es else es)
state-step e true o [] h = rw h refl
state-step e false o [] h = rw h refl
state-step e true o (f ∷ es) h = rw h refl
state-step e false o (f ∷ es) h = rw h refl

current_state-events_of :
    (id : String) (es : List Event) → current_state id es ≡ end_state (events_of id es)
unfolding current_state events_of
current_state-events_of id [] = refl
current_state-events_of id (e ∷ es) =
    state-step e (str_eq e.revision_id id) (current_state id es) (events_of id es)
      (current_state-events_of id es)

found-state :
    (o : Option Revision) (e : Error) (f : Revision → Result Error State) {a st : State}
    → ((q : Revision) → f q ≡ ok st → a ≡ st)
    → elim o [ none ↦ err e | some q ↦ f q ] ≡ ok st
    → a ≡ st
found-state none e f k h = absurd (ground arith)
found-state (some q) e f k h = k q h

module _ (s : Services) (l : Ledger) where
  successor-state :
      (r : Revision) (e : Event) (v : Value) {st : State}
      → check_successor s l r e v ≡ ok st
      → is_superseded ≡ st
  unfolding check_successor
  successor-state r e (str id) h =
      found-state (find id l.revisions) _ _ (λ q k. ok-injective (then-ok _ _ (then-ok _ _ k)))
        (guard-ok _ _ _ h).1
  successor-state r e undefined h = absurd (ground arith)
  successor-state r e null h = absurd (ground arith)
  successor-state r e other h = absurd (ground arith)
  successor-state r e (bool b) h = absurd (ground arith)
  successor-state r e (num n) h = absurd (ground arith)
  successor-state r e (arr xs) h = absurd (ground arith)
  successor-state r e (obj fs) h = absurd (ground arith)

  terminal-state :
      (r : Revision) (e : Event) (t : EventType) {st : State}
      → terminal s l r e t ≡ ok st
      → state_after t ≡ st
  unfolding terminal
  terminal-state r e revoked h = ground arith
  terminal-state r e superseded h = successor-state r e _ h
  terminal-state r e draft_created h = absurd (ground arith)
  terminal-state r e approved h = absurd (ground arith)
  terminal-state r e published h = absurd (ground arith)
  terminal-state r e withdrawn h = absurd (ground arith)

  publication-state :
      (r : Revision) (e : Event) (es : List Event) {st : State}
      → e.event_type ≡ published
      → after_publication s l r es ≡ ok st
      → last_state e es ≡ st
  unfolding after_publication
  publication-state r e [] p h = ap state_after p ∙ ok-injective h
  publication-state r e (f ∷ []) p h = terminal-state r f f.event_type h
  publication-state r e (f ∷ g ∷ es) p h = absurd (ground arith)

  approval-state :
      (r : Revision) (ready : Bool) (e : Event) (es : List Event) (t : EventType) {st : State}
      → state_after e.event_type ≡ (if ready then is_approved else draft)
      → first_type es ≡ t
      → after_approval s l r ready es t ≡ ok st
      → last_state e es ≡ st
  unfolding after_approval
  approval-state r ready e [] t q p h = q ∙ ok-injective h
  approval-state r ready e (f ∷ []) withdrawn q p h = ap state_after p ∙ ok-injective h
  approval-state r ready e (f ∷ g ∷ es) withdrawn q p h = absurd (ground arith)
  approval-state r ready e (f ∷ []) published q p h =
      publication-state r f [] p (then-ok _ _ (guard-ok _ _ _ h).1)
  approval-state r ready e (f ∷ g ∷ es) published q p h =
      publication-state r f (g ∷ es) p (then-ok _ _ (guard-ok _ _ _ h).1)
  approval-state r ready e (f ∷ es) draft_created q p h = absurd (ground arith)
  approval-state r ready e (f ∷ es) approved q p h = absurd (ground arith)
  approval-state r ready e (f ∷ es) revoked q p h = absurd (ground arith)
  approval-state r ready e (f ∷ es) superseded q p h = absurd (ground arith)

  draft-state :
      (r : Revision) (e : Event) (es : List Event) (t : EventType) {st : State}
      → e.event_type ≡ draft_created
      → first_type es ≡ t
      → after_draft s l r es t ≡ ok st
      → last_state e es ≡ st
  unfolding after_draft
  draft-state r e (f ∷ es) approved q p h =
      approval-state r true f es (first_type es) (ap state_after p) refl
        (guard-ok _ _ _ (guard-ok _ _ _ h).1).1
  draft-state r e [] t q p h = approval-state r false e [] t (ap state_after q) p h
  draft-state r e (f ∷ es) draft_created q p h =
      approval-state r false e (f ∷ es) draft_created (ap state_after q) p h
  draft-state r e (f ∷ es) published q p h =
      approval-state r false e (f ∷ es) published (ap state_after q) p h
  draft-state r e (f ∷ es) withdrawn q p h =
      approval-state r false e (f ∷ es) withdrawn (ap state_after q) p h
  draft-state r e (f ∷ es) revoked q p h =
      approval-state r false e (f ∷ es) revoked (ap state_after q) p h
  draft-state r e (f ∷ es) superseded q p h =
      approval-state r false e (f ∷ es) superseded (ap state_after q) p h

  created : (t : EventType) → not (is_draft_created t) ≡ false → t ≡ draft_created
  created t h = ground arith

  history-state :
      (r : Revision) (es : List Event) {st : State}
      → revision_history_state s l r es ≡ ok st
      → end_state es ≡ some st
  unfolding revision_history_state
  history-state r [] h = absurd (ground arith)
  history-state r (e ∷ es) h =
      let (a, h₁) = guard-ok _ _ _ h in
      let h₂ = (guard-ok _ _ _ (guard-ok _ _ _ h₁).1).1 in
      ap some (draft-state r e es (first_type es) (created e.event_type a) refl h₂)

  pub history-current_state :
      (r : Revision) {st : State}
      → revision_history_state s l r (events_of r.revision_id l.events) ≡ ok st
      → current_state r.revision_id l.events ≡ some st
  history-current_state r h =
      current_state-events_of r.revision_id l.events
      ∙ history-state r (events_of r.revision_id l.events) h

  -- In a verified ledger the state that is read from the last event of a revision is the one that the
  -- replay of its whole history ends in, and there is one.
  pub current_state-revision_history_state :
      (id : String) (r : Revision)
      → verify_ledger s l ≡ ok tt
      → find id l.revisions ≡ some r
      → (st : State) × (revision_history_state s l r (events_of id l.events) ≡ ok st)
        × (current_state id l.events ≡ some st)
  current_state-revision_history_state id r h f =
      let (st, m) = verified-history s l id r h f in
      (st, m, current_state-events_of id l.events ∙ history-state r (events_of id l.events) m)
