-- ===== src/Knowledge/Sealed.antt =====
-- src/copilot/knowledge/store.mjs, lines 687 to 913: what a method leaves behind.
use mathlib.Core.List.{append_assoc}
use babypark_integration.Base.{
  ◌≡◌, ◌⊎◌, inl, inr, Result-cases, refl, ap, ◌∙◌, Bool, List, [], ◌∷◌, ◌++◌, Option, none, some,
  String, ok, err, Result, ◌>>=◌, ◌>>◌,
}
use babypark_integration.Knowledge.Records.{
  Event, Ledger, Error, Services, EventType, approved, published, withdrawn, revoked, superseded,
}
use babypark_integration.Knowledge.Ledger.{verify_ledger}
use babypark_integration.Knowledge.Transitions.{
  Draw, Order, insert_event, new_event, append_event, verified, tx, approve_revision, approve_body,
  withdraw_revision, withdraw_body, revoke_revision, revoke_body, publish_revision, publish_body,
}

-- The revisions are the same, and the events are followed by new ones.
abbrev pub Extends : Ledger → Ledger → Type 0
Extends l l' = (l'.revisions ≡ l.revisions) × ((es : List Event) × (l'.events ≡ l.events ++ es))

-- The error of a refused method, or a ledger that extends the first one.
data Grows : Ledger → Result Error Ledger → Type 0 where
  throws : {l : Ledger} → (e : Error) → Grows l (err e)
  grown : {l : Ledger} → (l' : Ledger) → Extends l l' → Grows l (ok l')

-- A method throws, or else the new ledger has the same revisions, the old events and then its own,
-- and passes the verification.
abbrev pub Sealed : Services → Ledger → Result Error Ledger → Type 0
Sealed s l r =
    ((e : Error) × (r ≡ err e))
    ⊎ ((l' : Ledger) × (r ≡ ok l') × Extends l l' × (verify_ledger s l' ≡ ok tt))

Grows-after {ℓ} :
    {A : Type ℓ} {l : Ledger} (m : Result Error A) (f : A → Result Error Ledger)
    → ((a : A) → Grows l (f a))
    → Grows l (m >>= f)
unfolding ◌>>=◌
Grows-after (ok a) f h = h a
Grows-after (err e) f h = throws e

Grows-guard :
    {l : Ledger} (m : Result Error (Unit {0})) (k : Result Error Ledger)
    → Grows l k
    → Grows l (m >> k)
unfolding ◌>>◌
Grows-guard m k h = Grows-after m (λ _. k) (λ _. h)

Grows-option {ℓ} :
    {A : Type ℓ} {l : Ledger} (o : Option A) (e : Error) (f : A → Result Error Ledger)
    → ((a : A) → Grows l (f a))
    → Grows l (elim o [ none ↦ err e | some a ↦ f a ])
Grows-option none e f h = throws e
Grows-option (some a) e f h = h a

Sealed-guard :
    (s : Services) (l : Ledger) (m : Result Error (Unit {0})) (k : Result Error Ledger)
    → Sealed s l k
    → Sealed s l (m >> k)
unfolding ◌>>=◌ ◌>>◌
Sealed-guard s l (ok u) k h = h
Sealed-guard s l (err e) k h = inl (e, refl)

Sealed-verified :
    (s : Services) (l : Ledger) (r : Result Error Ledger)
    → Grows l r
    → Sealed s l (r >>= verified s)
unfolding verified ◌>>=◌ ◌>>◌
Sealed-verified s l r (throws e) = inl (e, refl)
Sealed-verified s l r (grown l' x) = elim (Result-cases (verify_ledger s l')) [
  | inl (e, p) ↦ inl (e, rw p refl)
  | inr (u, p) ↦ inr (l', rw p refl, x, p)
]

Grows-Extends :
    {l : Ledger} (l' : Ledger) (m : Result Error Ledger) → Extends l l' → Grows l' m → Grows l m
Grows-Extends l' m x (throws e) = throws e
Grows-Extends {l} l' m (r, (es, p)) (grown l'' (r', (es', p'))) =
    grown l'' (r' ∙ r, (es ++ es', p' ∙ ap (λ xs. xs ++ es') p ∙ append_assoc l.events es es'))

Grows-then :
    {l : Ledger} (m : Result Error Ledger) (f : Ledger → Result Error Ledger)
    → Grows l m
    → ((l' : Ledger) → Grows l' (f l'))
    → Grows l (m >>= f)
unfolding ◌>>=◌
Grows-then m f (throws e) h = throws e
Grows-then m f (grown l' x) h = Grows-Extends l' (f l') x (h l')

module _ (s : Services) where
  insert-Grows : (e : Event) (l : Ledger) → Grows l (insert_event s e l)
  unfolding insert_event
  insert-Grows e l = Grows-guard _ _ (grown _ (refl, (e ∷ [], refl)))

  append-Grows :
      (o : Order) (t : EventType) (d : Draw) (l : Ledger) → Grows l (append_event s o t d l)
  unfolding append_event
  append-Grows o t d l = Grows-guard _ _ (
      Grows-guard _ _ (
        Grows-guard _ _ (
          Grows-guard _ _ (
            Grows-option (s.canonical_metadata o.metadata) _ _ (λ m.
              Grows-option (s.canonical_timestamp d.now) _ _
                (λ at. Grows-guard _ _ (insert-Grows (new_event s o t at d.id m l.events) l)))))))

  tx-Sealed :
      (b : Bool) (l : Ledger) (body : Ledger → Result Error Ledger)
      → Grows l (body l)
      → Sealed s l (tx s b l body)
  unfolding tx
  tx-Sealed b l body g =
      Sealed-guard s l _ _ (Sealed-guard s l _ _ (Sealed-verified s l (body l) g))

  approve-Grows : (o : Order) (d : Draw) (l : Ledger) → Grows l (approve_body s o d l)
  unfolding approve_body
  approve-Grows o d l =
      Grows-after _ _
        (λ r. Grows-guard _ _ (Grows-guard _ _ (Grows-guard _ _ (append-Grows o approved d l))))

  withdraw-Grows : (o : Order) (d : Draw) (l : Ledger) → Grows l (withdraw_body s o d l)
  unfolding withdraw_body
  withdraw-Grows o d l = Grows-after _ _ (λ r. Grows-guard _ _ (append-Grows o withdrawn d l))

  revoke-Grows : (o : Order) (d : Draw) (l : Ledger) → Grows l (revoke_body s o d l)
  unfolding revoke_body
  revoke-Grows o d l = Grows-after _ _ (λ r. Grows-guard _ _ (append-Grows o revoked d l))

  publish-Grows :
      (o : Order) (id : Option String) (d d' : Draw) (l : Ledger)
      → Grows l (publish_body s o id d d' l)
  unfolding publish_body
  publish-Grows o none d d' l =
      Grows-after _ _ (λ r. Grows-guard _ _ (Grows-guard _ _ (append-Grows o published d l)))
  publish-Grows o (some id) d d' l = Grows-after _ _ (λ r. Grows-guard _ _ (
      Grows-guard _ _ (
        Grows-after _ _
          (λ p. Grows-then _ _ (append-Grows o published d l) (append-Grows _ superseded d')))))

  -- Each of the four methods throws, or else leaves a ledger that passes the verification, with the
  -- revisions unchanged and the old events before the new ones.
  pub methods-Sealed :
      (b : Bool) (o : Order) (id : Option String) (d d' : Draw) (l : Ledger)
      → Sealed s l (approve_revision s b o d l)
        × Sealed s l (withdraw_revision s b o d l)
        × Sealed s l (revoke_revision s b o d l)
        × Sealed s l (publish_revision s b o id d d' l)
  unfolding approve_revision withdraw_revision revoke_revision publish_revision
  methods-Sealed b o id d d' l = (
    tx-Sealed b l (approve_body s o d) (approve-Grows o d l),
    tx-Sealed b l (withdraw_body s o d) (withdraw-Grows o d l),
    tx-Sealed b l (revoke_body s o d) (revoke-Grows o d l),
    tx-Sealed b l (publish_body s o id d d') (publish-Grows o id d d' l),
  )
