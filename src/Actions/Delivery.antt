-- ===== src/Actions/Delivery.antt =====
-- src/copilot/first-line-state-store.mjs, lines 653 to 743: what the lifecycle of a public action promises,
-- without leases, states of the send and times, and how the rows keep the promise.
use babypark_integration.Base.{
  ℕ, ◌≡◌, refl, ap, ◌∙◌, Bool, true, false, ◌&&◌, ◌||◌, not, Option, some, is_none, is_some, arith,
}
use babypark_integration.Actions.Tables.{
  State, prepared, gating, sending, confirmed, stale, cancelled, uncertain, handoff_done, not_sent,
  Action, Db,
}
use babypark_integration.Actions.Queries.{is_gating, is_sending, is_confirmed}
use babypark_integration.Actions.Triggers.{admits}
use babypark_integration.Actions.Lifecycle.{
  Connection, may_follow, has_shape, keeps, sets, is_same_bool, may_have_evidence,
}
use babypark_integration.Actions.Steps.{
  admits-parts, is_monotonic-parts, is_monotonic-evidence, Steps, none_left, next, fits,
}

-- The promise: a message waits, is on its way, has arrived, is dropped, or a human has taken over.
pub data Phase : Type 0 where
  waiting on_its_way arrived dropped taken_over : Phase

abbrev pub phase : State → Phase
phase prepared = waiting
phase gating = waiting
phase sending = on_its_way
phase uncertain = on_its_way
phase confirmed = arrived
phase stale = dropped
phase cancelled = dropped
phase not_sent = dropped
phase handoff_done = taken_over

-- What the client of the ledger sees of a row: whether the message was sent, and its proof of arrival.
pub record View : Type 0 where
  pub phase : Phase
  pub sent : Bool
  pub evidence : Option ℕ

abbrev pub view : Action → View
view a = record {
  phase = phase a.state;
  sent = is_some a.send_started_at;
  evidence = a.confirmed_source_message_id;
}

-- The phases that may follow a phase.
abbrev pub turns : Phase → Phase → Bool
turns waiting waiting = true
turns waiting on_its_way = true
turns waiting dropped = true
turns waiting taken_over = true
turns on_its_way on_its_way = true
turns on_its_way arrived = true
turns on_its_way taken_over = true
turns arrived arrived = true
turns dropped dropped = true
turns taken_over taken_over = true
turns _ _ = false

abbrev is_waiting : Phase → Bool
is_waiting waiting = true
is_waiting _ = false

abbrev is_on_its_way : Phase → Bool
is_on_its_way on_its_way = true
is_on_its_way _ = false

-- A step of the promise: the message is sent only when it stops waiting to be on its way, and a proof of
-- arrival comes only for a message that is sent, and stays.
abbrev pub allows : View → View → Bool
allows d e =
    turns d.phase e.phase
    && is_same_bool (d.sent || (is_waiting d.phase && is_on_its_way e.phase)) e.sent
    && keeps d.evidence e.evidence
    && (not (sets d.evidence e.evidence) || e.sent)

-- What holds in each phase of the mark of the send and the proof of arrival.
abbrev pub is_sound : Phase → Bool → Option ℕ → Bool
is_sound waiting b x = not b && is_none x
is_sound dropped b x = not b && is_none x
is_sound on_its_way b x = b
is_sound arrived b x = b && is_some x
is_sound taken_over b x = b || is_none x

-- Some steps of the promise, each to a view that is sound.
pub data Run : View → View → Type 0 where
  here : {d : View} → Run d d
  turn :
      {d e g : View}
      → allows d e ≡ true
      → is_sound e.phase e.sent e.evidence ≡ true
      → Run e g
      → Run d g

-- A row whose view is sound.
abbrev pub IsSound : Action → Type 0
IsSound a =
    is_sound (phase a.state) (is_some a.send_started_at) a.confirmed_source_message_id ≡ true

has_shape-arrived :
    (db : Db) (a : Action) (s : State)
    → has_shape db a s ≡ true
    → (fits s a.send_started_at && (not (is_confirmed s) || is_some a.confirmed_source_message_id))
      ≡ true
unfolding has_shape
has_shape-arrived db a s h = ground (arith, h)

follow-allows :
    (s t : State) (x y m k : Option ℕ)
    → is_sound (phase s) (is_some x) m ≡ true
    → may_follow s t ≡ true
    → (fits t y && (not (is_confirmed t) || is_some k)) ≡ true
    → keeps x y ≡ true
    → (not (sets x y) || (is_gating s && is_sending t)) ≡ true
    → (not (sets m k) || (is_some y && may_have_evidence t)) ≡ true
    → keeps m k ≡ true
    → (allows
          (record { phase = phase s; sent = is_some x; evidence = m })
          (record { phase = phase t; sent = is_some y; evidence = k })
        ≡ true)
      × (is_sound (phase t) (is_some y) k ≡ true)
unfolding may_follow
follow-allows s t x y m k i f g h j l n = ground arith

-- An update that is let through is a step of the promise, and its row is sound.
update-allows :
    (c : Connection) (db : Db) (a b : Action)
    → IsSound a
    → admits c db a b ≡ true
    → (allows (view a) (view b) ≡ true) × IsSound b
update-allows c db a b i h =
    let (_, mono, _, _, _, _) = admits-parts c db a b h in
    let (follow, shape, keep, sent) = is_monotonic-parts c db a b mono in
    let (proof, kept) = is_monotonic-evidence c db a b mono in
    follow-allows a.state b.state a.send_started_at b.send_started_at a.confirmed_source_message_id
      b.confirmed_source_message_id i follow (has_shape-arrived db b b.state shape) keep sent proof
      kept

-- The rows keep the promise: whatever sequence of updates the triggers let through from a row that is
-- sound, each with its own connection and database, what the client sees of it is a path of the promise,
-- and the last row is sound.
pub Steps-Run : {a b : Action} {n : ℕ} → IsSound a → Steps a b n → Run (view a) (view b) × IsSound b
Steps-Run i none_left = (here, i)
Steps-Run {a} i (next {b = m} c db h s) =
    let (step, j) = update-allows c db a m i h in
    let (path, l) = Steps-Run j s in (turn step j path, l)

abbrev pub is_final : Phase → Bool
is_final waiting = false
is_final on_its_way = false
is_final arrived = true
is_final dropped = true
is_final taken_over = true

turn-final :
    (p q : Phase) (x y : Option ℕ) (a b : Bool)
    → is_final p ≡ true
    → (turns p q
        && is_same_bool (a || (is_waiting p && is_on_its_way q)) b
        && keeps x y
        && (not (sets x y) || b))
      ≡ true
    → (q ≡ p) × (b ≡ a) × (keeps x y ≡ true)
turn-final p q x y a b f h = (ground arith, ground arith, ground arith)

keeps-some : (x y : Option ℕ) (m : ℕ) → keeps x y ≡ true → x ≡ some m → y ≡ some m
keeps-some x y m k e = ground arith

-- What has arrived, was dropped or was taken over stays so in the promise, whatever steps follow: the
-- phase and the mark of the send do not change, and a proof of arrival stays as it is.
pub Run-final :
    {d e : View}
    → Run d e
    → is_final d.phase ≡ true
    → (e.phase ≡ d.phase)
      × (e.sent ≡ d.sent)
      × ((m : ℕ) → d.evidence ≡ some m → e.evidence ≡ some m)
Run-final here f = (refl, refl, λ m h. h)
Run-final {d} (turn {e = g} h i path) f =
    let (p, s, k) = turn-final d.phase g.phase d.evidence g.evidence d.sent g.sent f h in
    let (q, t, l) = Run-final path (ap is_final p ∙ f) in
    (q ∙ p, t ∙ s, λ m x. l m (keeps-some d.evidence g.evidence m k x))

-- An action that is confirmed, stale, cancelled, not sent or handed over ends there: whatever sequence of
-- updates the triggers let through from a sound row, its phase and whether it was sent stay, and so does
-- its proof of arrival where it has one.
pub final_stays :
    {a b : Action} {n : ℕ}
    → IsSound a
    → is_final (phase a.state) ≡ true
    → Steps a b n
    → (phase b.state ≡ phase a.state)
      × (is_some b.send_started_at ≡ is_some a.send_started_at)
      × ((m : ℕ) → a.confirmed_source_message_id ≡ some m → b.confirmed_source_message_id ≡ some m)
final_stays i f s = Run-final (Steps-Run i s).0 f
