-- ===== src/Routing/OpenTurn.antt =====
-- src/copilot/first-line-routing-planner.mjs, lines 207 to 286: what `projectOpenTurn` returns, said
-- of the suffix in its own order.
use babypark_integration.Base.{
  ◌≤◌, ◌≡◌, ◌≢◌, ◌⊎◌, refl, sym, ap, subst, ◌∙◌, Bool, true, false, none, some, List, [], ◌∷◌, ◌++◌,
  reverse, arith, length, length-reverse, All, All-reverse, if◌then◌else◌, ok, err, Result,
}
use mathlib.Core.List.{append_assoc, reverse-cons, reverse-append, reverse-reverse}
use babypark_integration.Routing.Snapshot.{
  Entry, EventKind, human_public_reply, other_bot_public_reply, automation_public, unknown_public,
  babypark_public_reply, Action, Snapshot, open_turn, Projection, from_stream_start,
  after_confirmed_babypark_reply, ownership_blocker, Error, input_invalid, routing_suffix_limit,
  no_accepted_events,
}
use babypark_integration.Routing.Planner.{
  max_open_turn_events, is_customer, is_system_template, supported_confirmed_reply, stop,
  stop_reply, walk, turn_of, boundary_dto, is_filled, result, unprovable, no_turn, open_turn_of,
  is_snapshot, is_suffix, project_open_turn, project_suffix,
}
use babypark_integration.Routing.Walk.{
  IsQuiet, customers, customers-reverse, walk-quiet, End, at_start, at_reply, Opened, walk-Opened,
}

-- The suffix has an entry, its numbers count up by one, and it reaches the head of the stream.
abbrev pub reaches_head : Snapshot → List Entry → Bool
reaches_head s [] = false
reaches_head s (e ∷ es) = is_suffix s e es

project-walk :
    (s : Snapshot)
    → is_snapshot s ≡ true
    → reaches_head s s.event_suffix ≡ true
    → project_open_turn s ≡ ok (walk s (reverse s.event_suffix) [])
unfolding project_open_turn
project-walk s v h = rw v (go s.event_suffix h)
  where
    go :
        (xs : List Entry)
        → reaches_head s xs ≡ true
        → project_suffix s xs ≡ ok (walk s (reverse xs) [])
    go [] h = cc
    go (e ∷ es) h = rw h refl

-- The place where an open turn begins.
pub data Begins (s : Snapshot) (p : Projection) : List Entry → Type 0 where
  from_start :
      s.suffix_truncated ≡ false → p.reason ≡ from_stream_start → p.boundary ≡ none → Begins s p []
  after_reply :
      (older : List Entry) (r : Entry) (a : Action) (before : List Entry)
      → before ≡ older ++ r ∷ []
      → r.confirmed_babypark_action ≡ some a
      → supported_confirmed_reply r.event a ≡ true
      → p.reason ≡ after_confirmed_babypark_reply
      → p.boundary ≡ some (boundary_dto r)
      → Begins s p before

-- The turn is the customer's messages of a part at the end of the suffix in which every entry is
-- quiet, between 1 and 999 of them, in their order.
pub record IsOpenTurn (s : Snapshot) (p : Projection) : Type 0 where
  pub before : List Entry
  pub after : List Entry
  pub parts : s.event_suffix ≡ before ++ after
  pub quiet : All IsQuiet after
  pub turn : p.turn ≡ some (turn_of (customers after))
  pub filled : 1 ≤ length (customers after)
  pub bounded : length (customers after) ≤ max_open_turn_events
  pub begins : Begins s p before

End-Begins :
    (s : Snapshot) (p : Projection) (es : List Entry) → End s p es → Begins s p (reverse es)
End-Begins s p es (at_start w r b) = from_start w r b
End-Begins s p es (at_reply r older a f u rs b) =
    after_reply (reverse older) r a (reverse (r ∷ older)) (reverse-cons r older) f u rs b

length_of_filled : (xs : List Entry) → is_filled xs ≡ true → 1 ≤ length xs
length_of_filled [] h = cc
length_of_filled (x ∷ xs) h = omega arith

Opened-IsOpenTurn :
    (s : Snapshot) (p : Projection) → Opened s p (reverse s.event_suffix) [] → IsOpenTurn s p
Opened-IsOpenTurn s p o = record {
  before = reverse o.rest;
  after = reverse o.after;
  parts = sym (reverse-reverse s.event_suffix) ∙ ap reverse o.parts ∙ reverse-append o.after o.rest;
  quiet = All-reverse IsQuiet o.after o.quiet;
  turn = o.turn ∙ ap (λ xs. some (turn_of xs)) (sym (customers-reverse o.after));
  filled =
      rw (customers-reverse o.after, length-reverse (customers o.after))
        (length_of_filled (customers o.after) o.filled);
  bounded = rw (customers-reverse o.after, length-reverse (customers o.after)) o.bounded;
  begins = End-Begins s p o.rest o.ended;
}

pub if-ok :
    (b : Bool) (r : Result Error Projection) {p : Projection}
    → (if b then r else err input_invalid) ≡ ok p
    → r ≡ ok p
if-ok true r h = h
if-ok false r h = absurd (ground arith)

pub ok-injective : {x p : Projection} → ◌≡◌ {A = Result Error Projection} (ok x) (ok p) → x ≡ p
ok-injective h = ground arith

no_events-code :
    (s : Snapshot) (b : Bool) (p : Projection)
    → (if b then unprovable s routing_suffix_limit none else no_turn s no_accepted_events none) ≡ p
    → p.code ≢ open_turn
unfolding result
no_events-code s true p h o = ground arith
no_events-code s false p h o = ground arith

project-cases :
    (s : Snapshot) (p : Projection)
    → project_open_turn s ≡ ok p
    → p.code ≡ open_turn
    → walk s (reverse s.event_suffix) [] ≡ p
unfolding project_open_turn
project-cases s p h o =
    go s.event_suffix (if-ok (is_snapshot s) (project_suffix s s.event_suffix) h)
  where
    go : (xs : List Entry) → project_suffix s xs ≡ ok p → walk s (reverse xs) [] ≡ p
    go [] k = absurd (no_events-code s s.suffix_truncated p (ok-injective k) o)
    go (e ∷ es) k = ok-injective (if-ok (is_suffix s e es) (ok (walk s (reverse (e ∷ es)) [])) k)

-- A projection that reports an open turn reports an open turn of the suffix.
pub open_turn_sound :
    (s : Snapshot) (p : Projection)
    → project_open_turn s ≡ ok p
    → p.code ≡ open_turn
    → IsOpenTurn s p
open_turn_sound s p h o =
    let w = project-cases s p h o in
    Opened-IsOpenTurn s p (
      subst (λ q. Opened s q (reverse s.event_suffix) []) w
        (walk-Opened s (reverse s.event_suffix) [] (omega arith)
          (subst (λ q. Projection.code q ≡ open_turn) (sym w) o)))

-- The walk of a suffix that ends in quiet entries comes to the entry before them.
walk-to :
    (s : Snapshot) (older after : List Entry) (r : Entry)
    → All IsQuiet after
    → length (customers after) ≤ max_open_turn_events
    → walk s (reverse (older ++ r ∷ after)) []
      ≡ walk s (r ∷ reverse older) (reverse (customers after))
walk-to s older after r q l =
    ap (λ xs. walk s xs [])
      (reverse-append older (r ∷ after)
        ∙ ap (λ xs. xs ++ reverse older) (reverse-cons r after)
        ∙ append_assoc (reverse after) (r ∷ []) (reverse older))
    ∙ walk-quiet s (reverse after) (r ∷ reverse older) [] (All-reverse IsQuiet after q)
        (rw (customers-reverse after, length-reverse (customers after)) (omega arith))
    ∙ ap (walk s (r ∷ reverse older)) (customers-reverse after)

-- An entry that is neither a customer's message nor a template stops the walk.
abbrev IsStop : EventKind → Type 0
IsStop k = (is_system_template k ≡ false) × (is_customer k ≡ false)

project-stop :
    (s : Snapshot) (older after : List Entry) (r : Entry)
    → is_snapshot s ≡ true
    → reaches_head s s.event_suffix ≡ true
    → s.event_suffix ≡ older ++ r ∷ after
    → All IsQuiet after
    → length (customers after) ≤ max_open_turn_events
    → IsStop r.event.event_kind
    → project_open_turn s ≡ ok (stop s (reverse (customers after)) r r.event.event_kind)
unfolding walk
project-stop s older after r v h e q l (t, c) =
    project-walk s v h
    ∙ ap (λ xs. ok (walk s (reverse xs) [])) e
    ∙ ap ok (walk-to s older after r q l)
    ∙ rw (t, c) refl

filled-reverse : (xs : List Entry) → 1 ≤ length xs → is_filled (reverse xs) ≡ true
filled-reverse xs h = go (reverse xs) (rw (length-reverse xs) h)
  where
    go : (ys : List Entry) → 1 ≤ length ys → is_filled ys ≡ true
    go [] k = absurd (omega arith)
    go (y ∷ ys) k = refl

-- Where a confirmed reply that the planner supports is followed by quiet entries alone, with 1 to
-- 999 messages of the customer, these messages are the open turn and the reply is its boundary.
pub open_turn_after_reply :
    (s : Snapshot) (older after : List Entry) (r : Entry) (a : Action)
    → is_snapshot s ≡ true
    → reaches_head s s.event_suffix ≡ true
    → s.event_suffix ≡ older ++ r ∷ after
    → All IsQuiet after
    → 1 ≤ length (customers after)
    → length (customers after) ≤ max_open_turn_events
    → r.event.event_kind ≡ babypark_public_reply
    → r.confirmed_babypark_action ≡ some a
    → supported_confirmed_reply r.event a ≡ true
    → project_open_turn s
      ≡ ok (
          result s open_turn after_confirmed_babypark_reply
            (some (turn_of (customers after)))
            (some r))
unfolding stop stop_reply open_turn_of
open_turn_after_reply s older after r a v h e q f l k c u =
    project-stop s older after r v h e q l (rw k refl, rw k refl)
    ∙ ap (λ x. ok (stop s (reverse (customers after)) r x)) k
    ∙ ap (λ o. ok (stop_reply s (reverse (customers after)) r o)) c
    ∙ rw (u, filled-reverse (customers after) f, reverse-reverse (customers after)) refl

-- The entries that say that a person or another program has taken over the conversation.
abbrev pub IsBlocker : EventKind → Type 0
IsBlocker k =
    (k ≡ human_public_reply)
    ⊎ (k ≡ other_bot_public_reply)
    ⊎ (k ≡ automation_public)
    ⊎ (k ≡ unknown_public)

-- In a valid snapshot whose suffix is numbered without a gap up to the last event of the stream: where
-- the last entry that is not quiet is a public reply of a person, of another bot, of an automation or
-- of an unknown sender, and at most 999 messages of the customer stand after it, there is no open turn,
-- whatever stands before it. The topology is not provable and the entry is named as the blocker.
pub blocked_after :
    (s : Snapshot) (older after : List Entry) (r : Entry)
    → is_snapshot s ≡ true
    → reaches_head s s.event_suffix ≡ true
    → s.event_suffix ≡ older ++ r ∷ after
    → All IsQuiet after
    → length (customers after) ≤ max_open_turn_events
    → IsBlocker r.event.event_kind
    → project_open_turn s ≡ ok (unprovable s ownership_blocker (some r))
unfolding stop
blocked_after s older after r v h e q l b =
    project-stop s older after r v h e q l (ground arith) ∙ ap ok (go r.event.event_kind b)
  where
    go :
        (k : EventKind)
        → IsBlocker k
        → stop s (reverse (customers after)) r k ≡ unprovable s ownership_blocker (some r)
    go k b = ground arith
