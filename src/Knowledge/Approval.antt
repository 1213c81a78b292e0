-- ===== src/Knowledge/Approval.antt =====
-- src/copilot/knowledge/store.mjs, lines 189 to 322: what a verified ledger says of a publication.
use babypark_integration.Base.{
  ◌≡◌, refl, ap, Bool, true, false, ◌&&◌, ◌||◌, not, List, [], ◌∷◌, some, String, ok, str_eq, any,
  arith,
}
use babypark_integration.Knowledge.Records.{
  EventType, draft_created, approved, published, revoked, superseded, withdrawn, State, Revision,
  Event, Ledger, Services,
}
use babypark_integration.Knowledge.Outcomes.{guard-ok, verified-history}
use babypark_integration.Knowledge.Policy.{is_commerce, knowledge_requires_approval}
use babypark_integration.Knowledge.Ledger.{
  is_publication, is_draft_created, find, events_of, first_type, after_approval, after_draft,
  revision_history_state, verify_ledger,
}

abbrev is_approval : EventType → Bool
is_approval approved = true
is_approval _ = false

-- An approval of a revision: of a commerce policy, not by its author.
abbrev pub approves : Revision → Event → Bool
approves r e =
    is_approval e.event_type
    && not (is_commerce r.record_type && str_eq e.actor_id r.author_actor_id)

abbrev pub publishes : Event → Bool
publishes e = is_publication e.event_type

clash : {b : Bool} → b ≡ true → b ≡ false → ⊥
clash h k = ground (arith, h, k)

or-right : (a : Bool) {b : Bool} → b ≡ true → (a || b) ≡ true
or-right true h = refl
or-right false h = h

created-published :
    (t : EventType) {b : Bool}
    → not (is_draft_created t) ≡ false
    → (is_publication t || b) ≡ true
    → b ≡ true
created-published t h k = ground (arith, h, k)

approves-head :
    (r : Revision) (e : Event) (es : List Event)
    → e.event_type ≡ approved
    → (is_commerce r.record_type && str_eq e.actor_id r.author_actor_id) ≡ false
    → any (approves r) (e ∷ es) ≡ true
approves-head r e es p b = rw p (rw b refl)

module _ (s : Services) (l : Ledger) where
  -- Without an approval, a revision that requires one has no publication.
  unapproved :
      (r : Revision) (es : List Event) (t : EventType) {st : State}
      → first_type es ≡ t
      → after_approval s l r false es t ≡ ok st
      → knowledge_requires_approval r ≡ true
      → any publishes es ≡ false
  unfolding after_approval
  unapproved r [] t p h q = refl
  unapproved r (e ∷ []) withdrawn p h q = rw p refl
  unapproved r (e ∷ f ∷ es) withdrawn p h q = absurd (ground arith)
  unapproved r (e ∷ []) published p h q =
      absurd (clash (ap (λ x. x && true) q) (guard-ok _ _ _ h).0)
  unapproved r (e ∷ f ∷ es) published p h q =
      absurd (clash (ap (λ x. x && true) q) (guard-ok _ _ _ h).0)
  unapproved r (e ∷ es) draft_created p h q = absurd (ground arith)
  unapproved r (e ∷ es) approved p h q = absurd (ground arith)
  unapproved r (e ∷ es) revoked p h q = absurd (ground arith)
  unapproved r (e ∷ es) superseded p h q = absurd (ground arith)

  after_draft-approves :
      (r : Revision) (es : List Event) (t : EventType) {st : State}
      → first_type es ≡ t
      → after_draft s l r es t ≡ ok st
      → knowledge_requires_approval r ≡ true
      → any publishes es ≡ true
      → any (approves r) es ≡ true
  unfolding after_draft
  after_draft-approves r [] t p h q k = k
  after_draft-approves r (e ∷ es) approved p h q k =
      let (a, h₁) = guard-ok _ _ _ h in let (b, h₂) = guard-ok _ _ _ h₁ in approves-head r e es p b
  after_draft-approves r (e ∷ es) draft_created p h q k =
      absurd (clash k (unapproved r (e ∷ es) draft_created p h q))
  after_draft-approves r (e ∷ es) published p h q k =
      absurd (clash k (unapproved r (e ∷ es) published p h q))
  after_draft-approves r (e ∷ es) revoked p h q k =
      absurd (clash k (unapproved r (e ∷ es) revoked p h q))
  after_draft-approves r (e ∷ es) superseded p h q k =
      absurd (clash k (unapproved r (e ∷ es) superseded p h q))
  after_draft-approves r (e ∷ es) withdrawn p h q k =
      absurd (clash k (unapproved r (e ∷ es) withdrawn p h q))

  history-approves :
      (r : Revision) (es : List Event) {st : State}
      → revision_history_state s l r es ≡ ok st
      → knowledge_requires_approval r ≡ true
      → any publishes es ≡ true
      → any (approves r) es ≡ true
  unfolding revision_history_state
  history-approves r [] h q k = k
  history-approves r (e ∷ es) h q k =
      let (a, h₁) = guard-ok _ _ _ h in
      let (b, h₂) = guard-ok _ _ _ h₁ in
      let (c, h₃) = guard-ok _ _ _ h₂ in
      or-right (approves r e)
        (after_draft-approves r es (first_type es) refl h₃ q (created-published e.event_type a k))

  -- In a verified ledger a revision that requires approval and has been published has been approved;
  -- a commerce policy, by another actor than its author.
  pub published_was_approved :
      (id : String) (r : Revision)
      → verify_ledger s l ≡ ok tt
      → find id l.revisions ≡ some r
      → knowledge_requires_approval r ≡ true
      → any publishes (events_of id l.events) ≡ true
      → any (approves r) (events_of id l.events) ≡ true
  published_was_approved id r h f q k =
      let (st, m) = verified-history s l id r h f in
      history-approves r (events_of id l.events) m q k
