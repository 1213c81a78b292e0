-- ===== src/Actions/Arrivals.antt =====
-- src/copilot/first-line-state-store.mjs, lines 520 to 580 and 744 to 804: what the arrival of an event does
-- to its stream, and to the actions that were prepared before it.
use babypark_integration.Base.{
  ℕ, ◌+◌, ◌≤◌, ◌≡◌, refl, ap, sym, subst, ◌∙◌, inl, inr, Bool, true, false, ◌&&◌, ◌||◌, not, Option,
  none, some, List, ltb, [], ◌∷◌, ◌++◌, String, if◌then◌else◌, arith, str_eq, eq_iff, any, every,
  All, ◌==◌, ok, >>=-eq-ok, guard-eq-ok, ok-injective, Bool-cases, Option-cases,
}
use babypark_integration.Actions.Tables.{Stream, Event, Action, DeferredParent, Db}
use babypark_integration.Actions.Queries.{is_unsent, is_withdrawn, is_customer}
use babypark_integration.Actions.Triggers.{admits_event}
use babypark_integration.Actions.Lifecycle.{Connection}
use babypark_integration.Actions.Writes.{
  write_action, settle_owner, settle, all_parents, insert_parents, advance_stream, defer_customer,
  defer_to, in_flight, with_streams_of, insert_event,
}

-- No two streams have the same id, as the primary key has it.
abbrev pub is_keyed : List Stream → Bool
is_keyed [] = true
is_keyed (s ∷ ss) = not (any (λ (t : Stream). str_eq t.stream_id s.stream_id) ss) && is_keyed ss

-- No stream of that id is behind the revision.
abbrev pub Reaches : String → ℕ → List Stream → Type 0
Reaches id revision ss =
    All (λ (s : Stream). str_eq s.stream_id id ≡ true → revision ≤ s.stream_revision) ss

-- The stream is past the revision, where it is the stream of that id.
abbrev pub is_past : String → ℕ → Stream → Bool
is_past id r s = not (str_eq s.stream_id id) || ltb r s.stream_revision

absent_past :
    (id : String) (r : ℕ) (ss : List Stream)
    → any (λ (t : Stream). str_eq t.stream_id id) ss ≡ false
    → every (is_past id r) ss ≡ true
absent_past id r [] h = refl
absent_past id r (s ∷ ss) h = ground (arith, h, absent_past id r ss)

pub absent_after_key :
    (s : Stream) (id : String) (ss : List Stream)
    → s.stream_id ≡ id
    → is_keyed (s ∷ ss) ≡ true
    → any (λ (t : Stream). str_eq t.stream_id id) ss ≡ false
absent_after_key s id ss i k =
    subst (λ x. any (λ (t : Stream). str_eq t.stream_id x) ss ≡ false) i (ground (arith, k))

-- The row of the stream after the event.
abbrev pub advanced : Event → Stream → Stream
advanced e s = record s {
  last_event_seq = e.event_seq;
  stream_revision = s.stream_revision + 1;
  updated_at = e.accepted_at;
}

abbrev pub is_next : Event → Stream → Bool
is_next e s = s.last_event_seq + 1 == e.event_seq && s.stream_revision + 1 == e.event_seq

pub advance-here :
    (e : Event) (s : Stream) (ss rest : List Stream)
    → str_eq s.stream_id e.stream_id ≡ true
    → advance_stream e (s ∷ ss) ≡ some rest
    → (is_next e s ≡ true) × (rest ≡ advanced e s ∷ ss)
unfolding advance_stream
advance-here e s ss rest i h = (ground (arith, i, h), ground (arith, i, h))

pub advance-there :
    (e : Event) (s : Stream) (ss rest : List Stream)
    → str_eq s.stream_id e.stream_id ≡ false
    → advance_stream e (s ∷ ss) ≡ some rest
    → (rest' : List Stream) × (advance_stream e ss ≡ some rest') × (rest ≡ s ∷ rest')
unfolding advance_stream
advance-there e s ss rest i h = elim (Option-cases (advance_stream e ss)) [
  | inl n ↦ absurd (ground (arith, i, h, n))
  | inr (ss', g) ↦ (ss', g, ground (arith, i, h, g))
]

pub advance-past :
    (e : Event) (r : ℕ) (ss rest : List Stream)
    → is_keyed ss ≡ true
    → Reaches e.stream_id r ss
    → advance_stream e ss ≡ some rest
    → every (is_past e.stream_id r) rest ≡ true
unfolding advance_stream
advance-past e r [] rest k q h = absurd (ground (arith, h))
advance-past e r (s ∷ ss) rest k (q, qs) h = elim (Bool-cases (str_eq s.stream_id e.stream_id)) [
  | inl i ↦
      let (n, x) = advance-here e s ss rest i h in
      let others =
        absent_past e.stream_id r ss
          (absent_after_key s e.stream_id ss ((eq_iff s.stream_id e.stream_id).0 i) k) in
      rw x (ground (arith, others, q i))
  | inr i ↦
      let (rest', g, x) = advance-there e s ss rest i h in
      rw x (ground (arith, i, advance-past e r ss rest' (ground (arith, k)) qs g))
]

-- No event takes a stream back.
pub advance_keeps_past :
    (e : Event) (id : String) (r : ℕ) (ss rest : List Stream)
    → every (is_past id r) ss ≡ true
    → advance_stream e ss ≡ some rest
    → every (is_past id r) rest ≡ true
unfolding advance_stream
advance_keeps_past e id r [] rest k h = absurd (ground (arith, h))
advance_keeps_past e id r (s ∷ ss) rest k h = elim (Bool-cases (str_eq s.stream_id e.stream_id)) [
  | inl i ↦ rw (advance-here e s ss rest i h).1 (ground (arith, k))
  | inr i ↦
      let (rest', g, x) = advance-there e s ss rest i h in
      rw x (ground (arith, k, advance_keeps_past e id r ss rest' (ground (arith, k)) g))
]

insert_parents-streams :
    (ps : List DeferredParent) (db d : Db)
    → insert_parents ps db ≡ ok d
    → (d.streams ≡ db.streams) × (d.events ≡ db.events)
unfolding insert_parents
insert_parents-streams [] db d h =
    (ap Db.streams (sym (ok-injective h)), ap Db.events (sym (ok-injective h)))
insert_parents-streams (p ∷ ps) db d h =
    let (_, h1) = guard-eq-ok _ _ _ h in insert_parents-streams ps _ d h1

defer_to-streams :
    (e : Event) (sent : List Action) (db d : Db)
    → defer_to e sent db ≡ ok d
    → (d.streams ≡ db.streams) × (d.events ≡ db.events)
unfolding defer_to
defer_to-streams e sent db d h =
    let (_, h1) = guard-eq-ok _ _ _ h in
    let (_, h2) = guard-eq-ok _ _ _ h1 in insert_parents-streams (all_parents db e sent) db d h2

if-streams :
    (b : Bool) (e : Event) (sent : List Action) (db d : Db)
    → (if b then defer_to e sent db else ok db) ≡ ok d
    → (d.streams ≡ db.streams) × (d.events ≡ db.events)
if-streams true e sent db d h = defer_to-streams e sent db d h
if-streams false e sent db d h =
    (ap Db.streams (sym (ok-injective h)), ap Db.events (sym (ok-injective h)))

defer_customer-streams :
    (e : Event) (db d : Db)
    → defer_customer e db ≡ ok d
    → (d.streams ≡ db.streams) × (d.events ≡ db.events)
unfolding defer_customer
defer_customer-streams e db d h =
    if-streams (is_customer e.event_kind) e (in_flight e.stream_id db.actions) db d h

with_streams :
    (o : Option (List Stream)) (db db' : Db)
    → with_streams_of o db ≡ ok db'
    → (o ≡ some db'.streams) × (db'.events ≡ db.events)
unfolding with_streams_of
with_streams none db db' h = cc
with_streams (some ss) db db' h =
    (ap (λ (d : Db). some d.streams) (ok-injective h), ap Db.events (sym (ok-injective h)))

-- What an insertion that succeeds went through.
pub insert_event-parts :
    (e : Event) (db db' : Db)
    → insert_event e db ≡ ok db'
    → (admits_event db e ≡ true)
      × (db'.events ≡ db.events ++ e ∷ [])
      × (advance_stream e db.streams ≡ some db'.streams)
unfolding insert_event
insert_event-parts e db db' h =
    let (admitted, h1) = guard-eq-ok _ _ _ h in
    let (_, h2) = guard-eq-ok _ _ _ h1 in
    let (d, deferred, h3) = >>=-eq-ok _ _ h2 in
    let (same, kept) = defer_customer-streams e _ d deferred in
    let (streams, events) = with_streams (advance_stream e d.streams) d db' h3 in
    (ground (arith, admitted), events ∙ kept, ap (advance_stream e) (sym same) ∙ streams)

settle-same :
    (c : Connection) (new : Action) (db d : Db)
    → settle c new db ≡ ok d
    → (d.streams ≡ db.streams) × (d.events ≡ db.events)
unfolding settle
settle-same c new db d h =
    let (_, h1) = guard-eq-ok _ _ _ h in
    let (owners, _, h2) = >>=-eq-ok _ _ h1 in
    let (_, h3) = guard-eq-ok _ _ _ h2 in
    (ap Db.streams (sym (ok-injective h3)), ap Db.events (sym (ok-injective h3)))

settled-same :
    (b : Bool) (c : Connection) (new : Action) (db d : Db)
    → (if b then settle c new db else ok db) ≡ ok d
    → (d.streams ≡ db.streams) × (d.events ≡ db.events)
settled-same true c new db d h = settle-same c new db d h
settled-same false c new db d h =
    (ap Db.streams (sym (ok-injective h)), ap Db.events (sym (ok-injective h)))

write_action-same :
    (c : Connection) (old new : Action) (db d : Db)
    → write_action c old new db ≡ ok d
    → (d.streams ≡ db.streams) × (d.events ≡ db.events)
unfolding write_action settle_owner
write_action-same c old new db d h =
    let (_, h1) = guard-eq-ok _ _ _ h in
    settled-same (is_unsent old.state && is_withdrawn new.state) c new _ d h1

pub write_action-streams :
    (c : Connection) (old new : Action) (db d : Db)
    → write_action c old new db ≡ ok d
    → d.streams ≡ db.streams
write_action-streams c old new db d h = (write_action-same c old new db d h).0

pub write_action-events :
    (c : Connection) (old new : Action) (db d : Db)
    → write_action c old new db ≡ ok d
    → d.events ≡ db.events
write_action-events c old new db d h = (write_action-same c old new db d h).1
