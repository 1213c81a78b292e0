-- ===== src/Routing/Walk.antt =====
-- src/copilot/first-line-routing-planner.mjs, lines 234 to 285: the walk from the end of the suffix.
use babypark_integration.Base.{
  suc, ◌+◌, ◌≤◌, ◌≡◌, ◌⊎◌, refl, sym, ap, ◌∙◌, inl, inr, Bool, true, false, ◌||◌, Option, none,
  some, List, [], ◌∷◌, ◌++◌, reverse, arith, length, length-append, All, Bool-cases, if◌then◌else◌,
  ltb, le→ltb,
}
use mathlib.Core.List.{append-nil, append_assoc, reverse-cons}
use babypark_integration.Routing.Snapshot.{
  Entry, EventKind, babypark_public_reply, human_public_reply, Action, Snapshot, open_turn,
  Projection, from_stream_start, after_confirmed_babypark_reply,
}
use babypark_integration.Routing.Planner.{
  max_open_turn_events, is_customer, is_system_template, supported_customer_event,
  supported_neutral_template, supported_confirmed_reply, stop, stop_reply, finish, walk, turn_of,
  boundary_dto, is_filled, result, open_turn_of,
}

-- An entry that the walk passes: a neutral template, or a message of the customer that it collects.
abbrev pub IsQuiet : Entry → Type 0
IsQuiet e = (supported_neutral_template e.event || supported_customer_event e.event) ≡ true

-- The customer's messages of a list.
unfoldable pub customers : List Entry → List Entry
customers [] = []
customers (e ∷ es) = if is_customer e.event.event_kind then e ∷ customers es else customers es

-- A confirmed reply of the bot that the walk accepts as the boundary of an open turn.
abbrev pub is_reply : Entry → Option Action → Bool
is_reply e none = false
is_reply e (some a) = supported_confirmed_reply e.event a

pub customers-append : (xs ys : List Entry) → customers (xs ++ ys) ≡ customers xs ++ customers ys
unfolding customers
customers-append [] ys = refl
customers-append (x ∷ xs) ys = ground (arith, customers-append xs ys)

pub customers-reverse : (xs : List Entry) → customers (reverse xs) ≡ reverse (customers xs)
unfolding customers
customers-reverse [] = refl
customers-reverse (x ∷ xs) =
    ap customers (reverse-cons x xs)
    ∙ customers-append (reverse xs) (x ∷ [])
    ∙ ground (
      arith,
      customers-reverse xs,
      reverse-cons x (customers xs),
      append-nil (customers (reverse xs)),
    )

abbrev IsTemplate : Entry → Type 0
IsTemplate e =
    (is_system_template e.event.event_kind ≡ true)
    × (supported_neutral_template e.event ≡ true)
    × (is_customer e.event.event_kind ≡ false)

abbrev IsMessage : Entry → Type 0
IsMessage e =
    (is_system_template e.event.event_kind ≡ false)
    × (is_customer e.event.event_kind ≡ true)
    × (supported_customer_event e.event ≡ true)

IsQuiet-cases : (e : Entry) → IsQuiet e → IsTemplate e ⊎ IsMessage e
unfolding supported_customer_event supported_neutral_template
IsQuiet-cases e q = elim (Bool-cases (supported_neutral_template e.event)) [
  | inl t ↦ inl (ground arith)
  | inr f ↦ inr (ground arith)
]

-- The walk passes quiet entries, and collects the customer's messages of them, up to the limit.
pub walk-quiet :
    (s : Snapshot) (es rest cs : List Entry)
    → All IsQuiet es
    → length cs + length (customers es) ≤ max_open_turn_events
    → walk s (es ++ rest) cs ≡ walk s rest (cs ++ customers es)
unfolding walk customers
walk-quiet s [] rest cs q l = ap (walk s rest) (sym (append-nil cs))
walk-quiet s (e ∷ es) rest cs (q, qs) l = elim (IsQuiet-cases e q) [
  | inl (t, n, c) ↦ rw (t, n, c) (walk-quiet s es rest cs qs (rw c at l))
  | inr (t, c, m) ↦
      let more : length cs + suc (length (customers es)) ≤ max_open_turn_events = rw c at l in
      let room : length (cs ++ e ∷ []) + length (customers es) ≤ max_open_turn_events =
        omega (arith, length-append cs (e ∷ [])) in
      rw (t, c, m, le→ltb (length (cs ++ e ∷ [])) max_open_turn_events (omega arith))
        (walk-quiet s es rest (cs ++ e ∷ []) qs room
          ∙ ap (walk s rest) (append_assoc cs (e ∷ []) (customers es)))
]

-- Where the walk of the rest, newest entry first, has ended: at the start of the stream, or at a
-- confirmed reply.
pub data End (s : Snapshot) (p : Projection) : List Entry → Type 0 where
  at_start :
      s.suffix_truncated ≡ false → p.reason ≡ from_stream_start → p.boundary ≡ none → End s p []
  at_reply :
      (r : Entry) (older : List Entry) (a : Action)
      → r.confirmed_babypark_action ≡ some a
      → supported_confirmed_reply r.event a ≡ true
      → p.reason ≡ after_confirmed_babypark_reply
      → p.boundary ≡ some (boundary_dto r)
      → End s p (r ∷ older)

-- An open turn holds what was collected before, and the customer's messages of the quiet entries
-- that the walk has passed.
pub record Opened (s : Snapshot) (p : Projection) (es cs : List Entry) : Type 0 where
  pub after : List Entry
  pub rest : List Entry
  pub parts : es ≡ after ++ rest
  pub quiet : All IsQuiet after
  pub turn : p.turn ≡ some (turn_of (reverse (cs ++ customers after)))
  pub filled : is_filled (cs ++ customers after) ≡ true
  pub bounded : length (cs ++ customers after) ≤ max_open_turn_events
  pub ended : End s p rest

-- What holds of each branch that ends in an open turn holds of the whole.
if-opened :
    (Q : Projection → Type 0) (b : Bool) (x y : Projection)
    → (b ≡ true → x.code ≡ open_turn → Q x)
    → (b ≡ false → y.code ≡ open_turn → Q y)
    → (if b then x else y).code ≡ open_turn
    → Q (if b then x else y)
if-opened Q true x y f g h = f refl h
if-opened Q false x y f g h = g refl h

-- Nothing is passed any more.
Opened-here :
    (s : Snapshot) (p : Projection) (es cs : List Entry)
    → p.turn ≡ some (turn_of (reverse cs))
    → is_filled cs ≡ true
    → length cs ≤ max_open_turn_events
    → End s p es
    → Opened s p es cs
unfolding customers
Opened-here s p es cs t f l e = record {
  after = [];
  rest = es;
  parts = refl;
  quiet = tt;
  turn = rw (append-nil cs) t;
  filled = rw (append-nil cs) f;
  bounded = rw (append-nil cs) l;
  ended = e;
}

reply-Opened :
    (s : Snapshot) (cs es : List Entry) (e : Entry) (o : Option Action)
    → e.confirmed_babypark_action ≡ o
    → length cs ≤ max_open_turn_events
    → (stop_reply s cs e o).code ≡ open_turn
    → Opened s (stop_reply s cs e o) (e ∷ es) cs
unfolding stop_reply result open_turn_of
reply-Opened s cs es e none ho l h = absurd (ground arith)
reply-Opened s cs es e (some a) ho l h =
    if-opened (λ p. Opened s p (e ∷ es) cs) (supported_confirmed_reply e.event a) _ _
      (λ supported.
        if-opened (λ p. Opened s p (e ∷ es) cs) (is_filled cs) _ _
          (λ full _.
            Opened-here s _ (e ∷ es) cs refl full l (at_reply e es a ho supported refl refl))
          (λ _ h'. absurd (ground arith)))
      (λ _ h'. absurd (ground arith)) h

stop-Opened :
    (s : Snapshot) (cs es : List Entry) (e : Entry) (k : EventKind)
    → length cs ≤ max_open_turn_events
    → (stop s cs e k).code ≡ open_turn
    → Opened s (stop s cs e k) (e ∷ es) cs
unfolding stop result
stop-Opened s cs es e babypark_public_reply l h =
    reply-Opened s cs es e e.confirmed_babypark_action refl l h
stop-Opened s cs es e human_public_reply l h = absurd (ground arith)
stop-Opened s cs es e _ l h = absurd (ground arith)

finish-Opened :
    (s : Snapshot) (cs : List Entry)
    → length cs ≤ max_open_turn_events
    → (finish s cs).code ≡ open_turn
    → Opened s (finish s cs) [] cs
unfolding finish result open_turn_of
finish-Opened s cs l h =
    if-opened (λ p. Opened s p [] cs) s.suffix_truncated _ _ (λ _ h'. absurd (ground arith))
      (λ whole.
        if-opened (λ p. Opened s p [] cs) (is_filled cs) _ _
          (λ full _. Opened-here s _ [] cs refl full l (at_start whole refl refl))
          (λ _ h'. absurd (ground arith)))
      h

skip-Opened :
    (s : Snapshot) (p : Projection) (e : Entry) (es cs : List Entry)
    → IsTemplate e
    → Opened s p es cs
    → Opened s p (e ∷ es) cs
unfolding customers
skip-Opened s p e es cs (t, n, c) o = record {
  after = e ∷ o.after;
  rest = o.rest;
  parts = ap (◌∷◌ e) o.parts;
  quiet = (ground arith, o.quiet);
  turn = rw c o.turn;
  filled = rw c o.filled;
  bounded = rw c o.bounded;
  ended = o.ended;
}

collect-Opened :
    (s : Snapshot) (p : Projection) (e : Entry) (es cs : List Entry)
    → IsMessage e
    → Opened s p es (cs ++ e ∷ [])
    → Opened s p (e ∷ es) cs
unfolding customers
collect-Opened s p e es cs (t, c, m) o = record {
  after = e ∷ o.after;
  rest = o.rest;
  parts = ap (◌∷◌ e) o.parts;
  quiet = (ground arith, o.quiet);
  turn = rw (c, ← append_assoc cs (e ∷ []) (customers o.after)) o.turn;
  filled = rw (c, ← append_assoc cs (e ∷ []) (customers o.after)) o.filled;
  bounded = rw (c, ← append_assoc cs (e ∷ []) (customers o.after)) o.bounded;
  ended = o.ended;
}

template-not_customer : (k : EventKind) → is_system_template k ≡ true → is_customer k ≡ false
template-not_customer k h = ground arith

pub walk-Opened :
    (s : Snapshot) (es cs : List Entry)
    → length cs ≤ max_open_turn_events
    → (walk s es cs).code ≡ open_turn
    → Opened s (walk s es cs) es cs
unfolding walk result
walk-Opened s [] cs l h = finish-Opened s cs l h
walk-Opened s (e ∷ es) cs l h =
    if-opened (λ p. Opened s p (e ∷ es) cs) (is_system_template e.event.event_kind) _ _
      (λ t.
        if-opened (λ p. Opened s p (e ∷ es) cs) (supported_neutral_template e.event) _ _
          (λ n h'.
            skip-Opened s _ e es cs (t, n, template-not_customer e.event.event_kind t)
              (walk-Opened s es cs l h'))
          (λ _ h'. absurd (ground arith)))
      (λ t.
        if-opened (λ p. Opened s p (e ∷ es) cs) (is_customer e.event.event_kind) _ _
          (λ c.
            if-opened (λ p. Opened s p (e ∷ es) cs) (supported_customer_event e.event) _ _
              (λ m.
                if-opened (λ p. Opened s p (e ∷ es) cs)
                  (ltb max_open_turn_events (length (cs ++ e ∷ []))) _ _
                  (λ _ h'. absurd (ground arith))
                  (λ room h'.
                    collect-Opened s _ e es cs (t, c, m)
                      (walk-Opened s es (cs ++ e ∷ []) (ground arith) h')))
              (λ _ h'. absurd (ground arith)))
          (λ c h'. stop-Opened s cs es e e.event.event_kind l h'))
      h
