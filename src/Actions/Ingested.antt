-- ===== src/Actions/Ingested.antt =====
-- src/copilot/first-line-state-store.mjs, lines 3126 to 3221: what an ingestion leaves in the ledger, and what the loop
-- of src/copilot/first-line-public-action-gate.mjs over ingestions leaves.
use babypark_integration.Base.{
  ℕ, suc, ◌+◌, ◌≡◌, refl, ap, sym, subst, ◌∙◌, inl, inr, ◌⊎◌, Bool, true, false, List, [], ◌∷◌,
  ◌++◌, String, eq_iff, ==_refl, arith, any, All, if◌then◌else◌, ok, >>=-eq-ok, guard-eq-ok,
  ok-injective, Bool-cases,
}
use babypark_integration.Actions.Tables.{Event, Stream, Db}
use babypark_integration.Actions.Writes.{insert_event}
use babypark_integration.Actions.Arrivals.{insert_event-parts}
use babypark_integration.Actions.Sequence.{IsOrdered, insert_event-IsOrdered}
use babypark_integration.Actions.Ingest.{
  Input, has_source, row_of, accept_event, ingest_conversation_event,
}
use babypark_integration.Actions.Gate.{ingest_all}

if-split {ℓ} :
    {A : Type ℓ} (b : Bool) (x y : A) {w : A}
    → (if b then x else y) ≡ w
    → ((b ≡ true) × (x ≡ w)) ⊎ (y ≡ w)
if-split true x y h = inl (refl, h)
if-split false x y h = inr h

accept_event-inserts :
    (at : ℕ) (id : String) (i : Input) (s : Stream) (db d : Db)
    → accept_event at id i s db ≡ ok d
    → insert_event (row_of id (s.last_event_seq + 1) at i) db ≡ ok d
unfolding accept_event
accept_event-inserts at id i s db d h =
    let (_, _, h1) = >>=-eq-ok _ _ h in
    let (g, inserted, h2) = >>=-eq-ok _ _ h1 in
    let (_, h3) = guard-eq-ok _ _ _ h2 in let (_, h4) = guard-eq-ok _ _ _ h3 in inserted ∙ h4

module _ (is_whole : Db → String → Bool) (at : ℕ) (id : String) (i : Input) (db : Db) where
  -- The event was there, or it is inserted.
  ingest-cases :
      (r : Db × Bool)
      → ingest_conversation_event is_whole at id i db ≡ ok r
      → ((r.0 ≡ db) × (any (has_source id i.source_message_id) db.events ≡ true))
        ⊎ ((n : ℕ) × (insert_event (row_of id n at i) db ≡ ok r.0))
  unfolding ingest_conversation_event
  ingest-cases r h =
      let (s, _, h1) = >>=-eq-ok _ _ h in
      elim (if-split (any (has_source id i.source_message_id) db.events) _ _ h1) [
        | inl (known, k) ↦
            let (_, k1) = guard-eq-ok _ _ _ k in
            inl (ap (λ (x : Db × Bool). x.0) (sym (ok-injective k1)), known)
        | inr k ↦
            let (_, k1) = guard-eq-ok _ _ _ k in
            let (_, k2) = guard-eq-ok _ _ _ k1 in
            let (d, accepted, k3) = >>=-eq-ok _ _ k2 in
            inr (
              s.last_event_seq + 1,
              subst (λ (x : Db). insert_event (row_of id (s.last_event_seq + 1) at i) db ≡ ok x)
                  (ap (λ (x : Db × Bool). x.0) (ok-injective k3))
                  (accept_event-inserts at id i s db d accepted),
            )
      ]

any-append : (p : Event → Bool) (es fs : List Event) → any p es ≡ true → any p (es ++ fs) ≡ true
any-append p [] fs h = absurd (ground (arith, h))
any-append p (e ∷ es) fs h = elim (Bool-cases (p e)) [
  | inl t ↦ ground (arith, t)
  | inr f ↦ ground (arith, f, any-append p es fs (ground (arith, f, h)))
]

any-last :
    (p : Event → Bool) (es : List Event) (e : Event) → p e ≡ true → any p (es ++ e ∷ []) ≡ true
any-last p [] e h = ground (arith, h)
any-last p (x ∷ xs) e h = ground (arith, any-last p xs e h)

-- No event goes away.
insert_event-keeps :
    (e : Event) (db d : Db) (p : Event → Bool)
    → insert_event e db ≡ ok d
    → any p db.events ≡ true
    → any p d.events ≡ true
insert_event-keeps e db d p h k =
    let (_, events, _) = insert_event-parts e db d h in
    rw events (any-append p db.events (e ∷ []) k)

insert_event-has :
    (e : Event) (db d : Db) (p : Event → Bool)
    → insert_event e db ≡ ok d
    → p e ≡ true
    → any p d.events ≡ true
insert_event-has e db d p h k =
    let (_, events, _) = insert_event-parts e db d h in rw events (any-last p db.events e k)

-- What an ingestion leaves: the event is there, the others stay, and so does the order.
abbrev Ingested : String → ℕ → Db → Db → Type 0
Ingested id m db d =
    (any (has_source id m) d.events ≡ true)
    × ((p : Event → Bool) → any p db.events ≡ true → any p d.events ≡ true)
    × (IsOrdered db → IsOrdered d)

ingest-Ingested :
    (is_whole : Db → String → Bool) (at : ℕ) (id : String) (i : Input) (db : Db) (r : Db × Bool)
    → ingest_conversation_event is_whole at id i db ≡ ok r
    → Ingested id i.source_message_id db r.0
ingest-Ingested is_whole at id i db r h = elim (ingest-cases is_whole at id i db r h) [
  | inl (same, known) ↦
      subst (λ d. Ingested id i.source_message_id db d) (sym same) (known, λ p k. k, λ o. o)
  | inr (n, inserted) ↦ (
    insert_event-has (row_of id n at i) db r.0 (has_source id i.source_message_id) inserted
        (rw ((eq_iff id id).1 refl) (==_refl i.source_message_id)),
    λ p k. insert_event-keeps (row_of id n at i) db r.0 p inserted k,
    λ o. insert_event-IsOrdered (row_of id n at i) db r.0 o inserted,
  )
]

pub ingest_all-Ingested :
    (is_whole : Db → String → Bool) (time : ℕ → ℕ) (n : ℕ) (id : String) (is : List Input) (db : Db)
    (r : Db × ℕ)
    → ingest_all is_whole time n id is db ≡ ok r
    → All (λ (i : Input). any (has_source id i.source_message_id) (Db.events r.0) ≡ true) is
      × ((p : Event → Bool) → any p db.events ≡ true → any p (Db.events r.0) ≡ true)
      × (IsOrdered db → IsOrdered r.0)
unfolding ingest_all
ingest_all-Ingested is_whole time n id [] db r h =
    let same : db ≡ r.0 = ap (λ (x : Db × ℕ). x.0) (ok-injective h) in
    (tt, λ p k. subst (λ (x : Db). any p x.events ≡ true) same k, λ o. subst IsOrdered same o)
ingest_all-Ingested is_whole time n id (i ∷ is) db r h =
    let (a, first, h1) = >>=-eq-ok _ _ h in
    let (b, others, h2) = >>=-eq-ok _ _ h1 in
    let same : b.0 ≡ r.0 = ap (λ (x : Db × ℕ). x.0) (ok-injective h2) in
    let (has, kept, ordered) = ingest-Ingested is_whole (time n) id i db a first in
    let (all, keeping, ordering) = ingest_all-Ingested is_whole time (suc n) id is a.0 b others in
    subst
      (λ (d : Db).
        All (λ (i : Input). any (has_source id i.source_message_id) d.events ≡ true) (i ∷ is)
        × ((p : Event → Bool) → any p db.events ≡ true → any p d.events ≡ true)
        × (IsOrdered db → IsOrdered d))
      same
      (
        (keeping (has_source id i.source_message_id) has, all),
        λ p k. keeping p (kept p k),
        λ o. ordering (ordered o),
      )
