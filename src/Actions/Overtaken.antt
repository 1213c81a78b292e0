-- ===== src/Actions/Overtaken.antt =====
-- src/copilot/first-line-state-store.mjs, lines 520 to 580 and 744 to 804: actions that an event overtakes.
use babypark_integration.Base.{
  ℕ, ◌≡◌, refl, sym, true, false, ◌&&◌, List, [], ◌∷◌, String, arith, str_eq, eq_iff, any, every,
  ◌==◌, ok,
}
use babypark_integration.Actions.Tables.{Stream, Event, Action, Db}
use babypark_integration.Actions.Queries.{is_gating, is_sending}
use babypark_integration.Actions.Triggers.{is_admitted, is_current, admits, admits_sending}
use babypark_integration.Actions.Lifecycle.{Connection, keeps_semantics}
use babypark_integration.Actions.Writes.{write_action, insert_event}
use babypark_integration.Actions.Steps.{admits-parts}
use babypark_integration.Actions.Arrivals.{
  is_keyed, Reaches, is_past, advance-past, advance_keeps_past, insert_event-parts,
  write_action-streams,
}

-- What may happen to the database, one statement after the other: an event arrives, an action is updated
-- by some connection, or a statement writes other tables than those of the streams and the events.
pub data History : Db → Db → Type 0 where
  now : {d : Db} → History d d
  event : {d g k : Db} → (e : Event) → insert_event e d ≡ ok g → History g k → History d k
  update :
      {d g k : Db}
      → (c : Connection) → (old new : Action) → write_action c old new d ≡ ok g
      → History g k
      → History d k
  elsewhere : {d g k : Db} → g.streams ≡ d.streams → g.events ≡ d.events → History g k → History d k

History-past :
    {d k : Db} (id : String) (r : ℕ)
    → History d k
    → every (is_past id r) d.streams ≡ true
    → every (is_past id r) k.streams ≡ true
History-past id r now p = p
History-past {d} id r (event {g = g} e h s) p =
    let (_, _, advanced) = insert_event-parts e d g h in
    History-past id r s (advance_keeps_past e id r d.streams g.streams p advanced)
History-past {d} id r (update {g = g} c old new h s) p =
    History-past id r s (rw (write_action-streams c old new d g h) p)
History-past id r (elsewhere same kept s) p = History-past id r s (rw same p)

past_not_at :
    (a : Action) (ss : List Stream)
    → every (is_past a.stream_id a.prepared_stream_revision) ss ≡ true
    → any
        (λ (s : Stream).
          str_eq s.stream_id a.stream_id
          && s.stream_revision == a.prepared_stream_revision
          && s.stream_revision == s.last_event_seq)
        ss
      ≡ false
past_not_at a [] p = refl
past_not_at a (s ∷ ss) p = ground (arith, p, past_not_at a ss)

moved_key :
    (a b : Action)
    → keeps_semantics a b ≡ true
    → (b.stream_id ≡ a.stream_id) × (b.prepared_stream_revision ≡ a.prepared_stream_revision)
unfolding keeps_semantics
moved_key a b h = ((eq_iff b.stream_id a.stream_id).0 (ground (arith, h)), ground (arith, h))

past_blocks :
    (c : Connection) (db : Db) (a b : Action)
    → is_gating a.state ≡ true
    → is_current db b ≡ false
    → admits_sending c db a b ≡ true
    → is_sending b.state ≡ false
unfolding admits_sending is_admitted is_current
past_blocks c db a b g n h = ground (arith, g, n, h)

-- Once an event has arrived in the stream of an action, at whose revision or before it the action was
-- prepared, the action is never sent: whatever events and updates follow, the triggers let no update
-- through that takes it from gating to sending. (The ids of the streams are different, and the stream is
-- not behind the revision of the action.)
pub late_event_blocks_send :
    (e : Event) (d g k : Db) (c : Connection) (a b : Action)
    → is_keyed d.streams ≡ true
    → Reaches a.stream_id a.prepared_stream_revision d.streams
    → e.stream_id ≡ a.stream_id
    → insert_event e d ≡ ok g
    → History g k
    → is_gating a.state ≡ true
    → admits c k a b ≡ true
    → is_sending b.state ≡ false
unfolding is_current
late_event_blocks_send e d g k c a b keyed q same h s gate through =
    let (_, _, advanced) = insert_event-parts e d g h in
    let past =
      History-past e.stream_id a.prepared_stream_revision s (
        advance-past e a.prepared_stream_revision d.streams g.streams keyed (rw same q) advanced) in
    let (semantics, _, _, send, _, _) = admits-parts c k a b through in
    let (id, revision) = moved_key a b semantics in
    past_blocks c k a b gate (past_not_at b k.streams (rw (id, revision, sym same) past)) send
