-- ===== src/Actions/Steps.antt =====
-- src/copilot/first-line-state-store.mjs, lines 653 to 709: sequences of updates of one row that the
-- triggers let through, whatever statement, connection and database each of them has.
use babypark_integration.Base.{
  ℕ, ◌+◌, ◌≤◌, ◌≡◌, refl, Bool, true, false, ◌&&◌, ◌||◌, not, Option, none, some, is_none, is_some,
  arith,
}
use babypark_integration.Actions.Tables.{
  State, prepared, gating, sending, confirmed, stale, cancelled, uncertain, handoff_done, not_sent,
  Action, Db,
}
use babypark_integration.Actions.Queries.{
  is_gating, is_sending, is_confirmed, is_in_flight, is_withdrawn,
}
use babypark_integration.Actions.Triggers.{
  admits, admits_claim, admits_sending, admits_withdrawal, admits_handoff,
}
use babypark_integration.Actions.Lifecycle.{
  Connection, may_follow, has_shape, keeps, sets, is_monotonic, keeps_semantics, is_same_bool,
  may_have_evidence,
}

and-6 :
    (a b c d e f : Bool)
    → (a && b && c && d && e && f) ≡ true
    → (a ≡ true) × (b ≡ true) × (c ≡ true) × (d ≡ true) × (e ≡ true) × (f ≡ true)
and-6 a b c d e f p = ground (arith, p)

and-8 :
    (a b c d e f g h : Bool)
    → (a && b && c && d && e && f && g && h) ≡ true
    → (a ≡ true)
      × (b ≡ true)
      × (c ≡ true)
      × (d ≡ true)
      × (e ≡ true)
      × (f ≡ true)
      × (g ≡ true)
      × (h ≡ true)
and-8 a b c d e f g h p = ground (arith, p)

module _ (c : Connection) (db : Db) (old new : Action) where
  -- The six triggers of an update that is let through.
  pub admits-parts :
      admits c db old new ≡ true
      → (keeps_semantics old new ≡ true)
        × (is_monotonic db old new ≡ true)
        × (admits_claim c db old new ≡ true)
        × (admits_sending c db old new ≡ true)
        × (admits_withdrawal c db old new ≡ true)
        × (admits_handoff db old new ≡ true)
  unfolding admits
  admits-parts =
      and-6 (keeps_semantics old new) (is_monotonic db old new) (admits_claim c db old new)
        (admits_sending c db old new) (admits_withdrawal c db old new) (admits_handoff db old new)

  pub is_monotonic-parts :
      is_monotonic db old new ≡ true
      → (may_follow old.state new.state ≡ true)
        × (has_shape db new new.state ≡ true)
        × (keeps old.send_started_at new.send_started_at ≡ true)
        × ((not (sets old.send_started_at new.send_started_at)
              || (is_gating old.state && is_sending new.state))
            ≡ true)
  unfolding is_monotonic
  is_monotonic-parts h =
      let (a, b, d, e, _, _, _, _) =
        and-8 (may_follow old.state new.state) (has_shape db new new.state)
          (keeps old.send_started_at new.send_started_at)
          (not (sets old.send_started_at new.send_started_at)
            || (is_gating old.state && is_sending new.state))
          (is_same_bool (is_none new.confirmed_source_message_id) (is_none new.confirmed_at))
          (not (sets old.confirmed_source_message_id new.confirmed_source_message_id)
            || (is_some new.send_started_at && may_have_evidence new.state))
          (keeps old.confirmed_source_message_id new.confirmed_source_message_id)
          (keeps old.confirmed_at new.confirmed_at) h in
      (a, b, d, e)

  pub is_monotonic-evidence :
      is_monotonic db old new ≡ true
      → ((not (sets old.confirmed_source_message_id new.confirmed_source_message_id)
            || (is_some new.send_started_at && may_have_evidence new.state))
          ≡ true)
        × (keeps old.confirmed_source_message_id new.confirmed_source_message_id ≡ true)
  unfolding is_monotonic
  is_monotonic-evidence h =
      let (_, _, _, _, _, f, g, _) =
        and-8 (may_follow old.state new.state) (has_shape db new new.state)
          (keeps old.send_started_at new.send_started_at)
          (not (sets old.send_started_at new.send_started_at)
            || (is_gating old.state && is_sending new.state))
          (is_same_bool (is_none new.confirmed_source_message_id) (is_none new.confirmed_at))
          (not (sets old.confirmed_source_message_id new.confirmed_source_message_id)
            || (is_some new.send_started_at && may_have_evidence new.state))
          (keeps old.confirmed_source_message_id new.confirmed_source_message_id)
          (keeps old.confirmed_at new.confirmed_at) h in
      (f, g)

-- Whether a send has begun, as its state must have it.
abbrev pub fits : State → Option ℕ → Bool
fits prepared t = is_none t
fits gating t = is_none t
fits stale t = is_none t
fits cancelled t = is_none t
fits not_sent t = is_none t
fits sending t = is_some t
fits uncertain t = is_some t
fits confirmed t = is_some t
fits handoff_done t = true

has_shape-fits :
    (db : Db) (a : Action) (s : State) → has_shape db a s ≡ true → fits s a.send_started_at ≡ true
unfolding has_shape
has_shape-fits db a s h = ground (arith, h)

abbrev pub count : Option ℕ → ℕ
count none = 0
count (some t) = 1

-- The update hands the message to the sender.
abbrev pub is_send : Action → Action → Bool
is_send old new = is_gating old.state && is_sending new.state

abbrev pub number : Bool → ℕ
number true = 1
number false = 0

step-count :
    (s t : State) (x y : Option ℕ)
    → may_follow s t ≡ true
    → fits s x ≡ true
    → fits t y ≡ true
    → keeps x y ≡ true
    → (not (sets x y) || (is_gating s && is_sending t)) ≡ true
    → count y ≡ count x + number (is_gating s && is_sending t)
unfolding may_follow
step-count s t x y m f g k e = ground arith

-- Some updates that are let through, one after the other, and how many of them send.
pub data Steps : Action → Action → ℕ → Type 0 where
  none_left : {a : Action} → Steps a a 0
  next :
      {a b d : Action} {n : ℕ}
      → (c : Connection) → (db : Db) → admits c db a b ≡ true
      → Steps b d n
      → Steps a d (number (is_send a b) + n)

-- Whatever statements are let through from a row whose state fits, the sends among them are as many as
-- the marks of a begun send that they set. As the mark is set at most once, so is the message sent.
pub Steps-count :
    {a b : Action} {n : ℕ}
    → Steps a b n
    → fits a.state a.send_started_at ≡ true
    → count b.send_started_at ≡ count a.send_started_at + n
Steps-count none_left f = omega arith
Steps-count {a} (next {b = m} c db h s) f =
    let (_, mono, _, _, _, _) = admits-parts c db a m h in
    let (follow, shape, keep, sent) = is_monotonic-parts c db a m mono in
    let g = has_shape-fits db m m.state shape in
    omega (
      arith,
      step-count a.state m.state a.send_started_at m.send_started_at follow f g keep sent,
      Steps-count s g,
    )

-- From a row whose state fits, a row that fits is reached.
pub Steps-fits :
    {a b : Action} {n : ℕ}
    → Steps a b n
    → fits a.state a.send_started_at ≡ true
    → fits b.state b.send_started_at ≡ true
Steps-fits none_left f = f
Steps-fits {a} (next {b = m} c db h s) f =
    let (_, mono, _, _, _, _) = admits-parts c db a m h in
    let (_, shape, _, _) = is_monotonic-parts c db a m mono in
    Steps-fits s (has_shape-fits db m m.state shape)

-- A row as it is inserted: prepared, and nothing sent.
abbrev pub IsFresh : Action → Type 0
IsFresh a = (a.state ≡ prepared) × (a.send_started_at ≡ none)

IsFresh-fits : (a : Action) → IsFresh a → fits a.state a.send_started_at ≡ true
IsFresh-fits a (s, t) = rw (s, t) refl

sent_once :
    (s : State) (x y : Option ℕ) (n : ℕ)
    → x ≡ none
    → count y ≡ count x + n
    → fits s y ≡ true
    → (n ≤ 1)
      × (is_confirmed s ≡ true → n ≡ 1)
      × (is_in_flight s ≡ true → n ≡ 1)
      × (is_withdrawn s ≡ true → n ≡ 0)
sent_once s x y n = ground arith

-- Whatever updates of a fresh row the triggers let through, one after the other, with whatever
-- connections and databases: at most one of them starts a send. Exactly one does where the row ends
-- confirmed, sending or uncertain, and none does where it ends stale or cancelled.
pub at_most_one_send :
    (a b : Action) (n : ℕ)
    → IsFresh a
    → Steps a b n
    → (n ≤ 1)
      × (is_confirmed b.state ≡ true → n ≡ 1)
      × (is_in_flight b.state ≡ true → n ≡ 1)
      × (is_withdrawn b.state ≡ true → n ≡ 0)
at_most_one_send a b n fresh s =
    let f = IsFresh-fits a fresh in
    sent_once b.state a.send_started_at b.send_started_at n fresh.1 (Steps-count s f)
      (Steps-fits s f)
