-- ===== src/Actions/Decision.antt =====
-- src/copilot/first-line-public-action-gate.mjs, lines 89 to 134: what the gate has found when it lets an action go.
use babypark_integration.Base.{
  ℕ, ◌+◌, ◌≡◌, refl, ap, sym, inl, inr, ◌⊎◌, Bool, true, false, not, Option, none, some, List,
  String, ◌==◌, arith, if◌then◌else◌, Result, ok, err, >>=-eq-ok, ok-injective,
}
use babypark_integration.Actions.Tables.{Event, Action, Stream, Db}
use babypark_integration.Actions.Queries.{find_action, is_gating}
use babypark_integration.Actions.Writes.{Error}
use babypark_integration.Actions.Sending.{mark_action_sending, read_action, require_stream}
use babypark_integration.Actions.Gate.{
  Snapshot, Reason, Answer, ready_to_send, went_stale, history_unprovable, GateError, basis_flaw,
  basis_events, lift, go_stale, after_refusal, after_send, try_send, decide,
}

abbrev pub is_ready : Answer → Bool
is_ready (ready_to_send k) = true
is_ready (went_stale k r) = false
is_ready history_unprovable = false

some-eq-ok :
    (o : Option Action) (m : Result GateError (Db × Answer)) (x : GateError) {r : Db × Answer}
    → ◌≡◌ {A = Result GateError (Db × Answer)} (elim o [ none ↦ err x | some _ ↦ m ]) (ok r)
    → m ≡ ok r
some-eq-ok none m x h = absurd (ground (arith, h))
some-eq-ok (some a) m x h = h

pub if-split {ℓ} :
    {A : Type ℓ} (b : Bool) (x y : A) {w : A}
    → (if b then x else y) ≡ w
    → ((b ≡ true) × (x ≡ w)) ⊎ ((b ≡ false) × (y ≡ w))
if-split true x y h = inl (refl, h)
if-split false x y h = inr (refl, h)

module _ (is_intact : Db → String → Bool) (time : ℕ → ℕ) (n : ℕ) (id token : String) (k : ℕ)
    (db : Db) where
  go_stale-not-ready :
      (reason : Reason) (r : Db × Answer)
      → go_stale is_intact time n id token k reason db ≡ ok r
      → is_ready r.1 ≡ false
  unfolding go_stale
  go_stale-not-ready reason r h =
      let (d, _, h1) = >>=-eq-ok _ _ h in
      ap (λ (x : Db × Answer). is_ready x.1) (sym (ok-injective h1))

  after_refusal-not-ready :
      (e : Error) (o : Option Reason) (r : Db × Answer)
      → after_refusal is_intact time n id token k e o db ≡ ok r
      → is_ready r.1 ≡ false
  unfolding after_refusal
  after_refusal-not-ready e none r h = absurd (ground (arith, h))
  after_refusal-not-ready e (some reason) r h =
      let (a, _, h1) = >>=-eq-ok _ _ (some-eq-ok (find_action id db.actions) _ _ h) in
      elim (if-split (is_gating a.state) _ _ h1) [
        | inl (_, k) ↦ go_stale-not-ready reason r k
        | inr (_, k) ↦ absurd (ground (arith, k))
      ]

  after_send-ready :
      (m : Result Error Db) (r : Db × Answer)
      → after_send is_intact time n id token k db m ≡ ok r
      → is_ready r.1 ≡ true
      → m ≡ ok r.0
  unfolding after_send
  after_send-ready (ok d) r h ready = ap (λ (x : Db × Answer). ok x.0) (ok-injective h)
  after_send-ready (err e) r h ready =
      absurd (ground (arith, ready, after_refusal-not-ready e _ r h))

  flaw-ready :
      (o : Option Reason) (r : Db × Answer)
      → ◌≡◌ {A = Result GateError (Db × Answer)}
          (elim o [
            | some reason ↦ go_stale is_intact time n id token k reason db
            | none ↦ try_send is_intact time n id token k db
          ])
          (ok r)
      → is_ready r.1 ≡ true
      → (o ≡ none) × (try_send is_intact time n id token k db ≡ ok r)
  flaw-ready none r h ready = (refl, h)
  flaw-ready (some reason) r h ready = absurd (ground (arith, ready, go_stale-not-ready reason r h))

try_send-ready :
    (is_intact : Db → String → Bool) (time : ℕ → ℕ) (n : ℕ) (id token : String) (k : ℕ) (db : Db)
    (r : Db × Answer)
    → try_send is_intact time n id token k db ≡ ok r
    → is_ready r.1 ≡ true
    → mark_action_sending is_intact (time n) (time (n + 1)) id token db ≡ ok r.0
unfolding try_send
try_send-ready is_intact time n id token k db r h ready =
    after_send-ready is_intact time (n + 2) id token k db
      (mark_action_sending is_intact (time n) (time (n + 1)) id token db) r h ready

pub lift-eq-ok {ℓ} : {A : Type ℓ} (m : Result Error A) {a : A} → lift m ≡ ok a → m ≡ ok a
lift-eq-ok (ok x) h = ap ok (ok-injective h)
lift-eq-ok (err e) h = absurd (ground (arith, h))

-- What the gate has found of the action, its stream and its basis when it lets the action go.
pub decide-ready :
    (is_intact : Db → String → Bool) (time : ℕ → ℕ) (n : ℕ) (stream id token : String)
    (snapshot : Snapshot) (k : ℕ) (db : Db) (r : Db × Answer)
    → decide is_intact time n stream id token snapshot k db ≡ ok r
    → is_ready r.1 ≡ true
    → (a : Action) × (s : Stream) × (basis : List Event) × (read_action is_intact id db ≡ ok a)
      × (require_stream stream db ≡ ok s)
      × (s.stream_revision ≡ a.prepared_stream_revision)
      × (basis_events a.stream_id a.basis_event_seqs db.events ≡ ok basis)
      × (basis_flaw snapshot.events basis ≡ none)
      × (mark_action_sending is_intact (time n) (time (n + 1)) id token db ≡ ok r.0)
unfolding decide
decide-ready is_intact time n stream id token snapshot k db r h ready =
    let (a, read, h1) = >>=-eq-ok _ _ h in
    let (s, here, h2) = >>=-eq-ok _ _ h1 in
    elim (if-split (not (s.stream_revision == a.prepared_stream_revision)) _ _ h2) [
      | inl (_, g) ↦
          absurd (ground (arith, ready, go_stale-not-ready is_intact time n id token k db _ r g))
      | inr (same, h3) ↦
          let (basis, based, h4) = >>=-eq-ok _ _ h3 in
          let (sound, h5) =
            flaw-ready is_intact time n id token k db (basis_flaw snapshot.events basis) r h4
              ready in
          (
            a,
            s,
            basis,
            lift-eq-ok _ read,
            lift-eq-ok _ here,
            ground (arith, same),
            based,
            sound,
            try_send-ready is_intact time n id token k db r h5 ready,
          )
    ]
