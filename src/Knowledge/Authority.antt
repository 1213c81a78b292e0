-- ===== src/Knowledge/Authority.antt =====
-- src/copilot/knowledge/store.mjs, lines 915 to 966: what is read of the ledger.
use mathlib.Core.Option
use babypark_integration.Base.{
  ℕ, Option, none, some, List, [], ◌∷◌, String, str_eq, if◌then◌else◌, map, Result, ok, ◌>>◌,
}
use babypark_integration.Knowledge.Records.{State, Revision, Event, Ledger, Error, Services}
use babypark_integration.Knowledge.Ledger.{verify_ledger}
use babypark_integration.Knowledge.Transitions.{state_after}

-- A revision with what its last event says.
pub record AuthorityRow : Type 0 where
  pub revision : Revision
  pub state : Option State
  pub last_event_seq : Option ℕ
  pub last_event_hash : Option String

-- `lastEventByRevision.get(id)`: each event replaces the one before it.
unfoldable pub last_event : String → List Event → Option Event
last_event id [] = none
last_event id (e ∷ es) = elim (last_event id es) [
  | some last ↦ some last
  | none ↦ if str_eq e.revision_id id then some e else none
]

unfoldable pub authority_row : List Event → Revision → AuthorityRow
unfolding last_event
authority_row es r = record {
  revision = r;
  state = Option.map (λ (e : Event). state_after e.event_type) (last_event r.revision_id es);
  last_event_seq = Option.map (λ (e : Event). e.event_seq) (last_event r.revision_id es);
  last_event_hash = Option.map (λ (e : Event). e.event_hash) (last_event r.revision_id es);
}

-- `authoritySnapshot`, of the revisions by their ids.
unfoldable pub authority_snapshot : Services → Ledger → Result Error (List AuthorityRow)
unfolding authority_row
authority_snapshot s l = verify_ledger s l >> ok (map (authority_row l.events) l.revisions)
