-- ===== src/Actions/Sequence.antt =====
-- src/copilot/first-line-state-store.mjs, lines 520 to 580: the numbers of the events of a stream.
use babypark_integration.Base.{
  ℕ, zero, suc, ◌≡◌, refl, ap, sym, subst, ◌∙◌, inl, inr, Bool, true, false, ◌||◌, some, List, [],
  ◌∷◌, ◌++◌, String, if◌then◌else◌, arith, str_eq, eq_iff, any, All, ok, Bool-cases,
}
use babypark_integration.Actions.Tables.{Stream, Event, Db}
use babypark_integration.Actions.Writes.{advance_stream, insert_event}
use babypark_integration.Actions.Arrivals.{
  is_keyed, absent_after_key, advanced, is_next, advance-here, advance-there, insert_event-parts,
  write_action-streams, write_action-events,
}
use babypark_integration.Actions.Overtaken.{History, now, event, update, elsewhere}

-- The numbers of the events of a stream, in the order of the table.
abbrev pub seqs : String → List Event → List ℕ
seqs id [] = []
seqs id (e ∷ es) = if str_eq e.stream_id id then e.event_seq ∷ seqs id es else seqs id es

-- 1, 2, …, n.
abbrev pub upto : ℕ → List ℕ
upto zero = []
upto (suc n) = upto n ++ suc n ∷ []

abbrev pub IsCounted : List Event → Stream → Type 0
IsCounted es s =
    (seqs s.stream_id es ≡ upto s.last_event_seq) × (s.stream_revision ≡ s.last_event_seq)

-- Each stream is at its last event, and its events are numbered 1, 2, … without a gap.
abbrev pub IsOrdered : Db → Type 0
IsOrdered d = (is_keyed d.streams ≡ true) × All (IsCounted d.events) d.streams

seqs-other :
    (id : String) (e : Event) (es : List Event)
    → str_eq e.stream_id id ≡ false
    → seqs id (es ++ e ∷ []) ≡ seqs id es
seqs-other id e [] h = ground (arith, h)
seqs-other id e (x ∷ xs) h =
    ap (λ l. if str_eq x.stream_id id then x.event_seq ∷ l else l) (seqs-other id e xs h)

if-append :
    (b : Bool) (n : ℕ) (xs ys : List ℕ)
    → (if b then n ∷ xs ++ ys else xs ++ ys) ≡ (if b then n ∷ xs else xs) ++ ys
if-append true n xs ys = refl
if-append false n xs ys = refl

seqs-same :
    (id : String) (e : Event) (es : List Event)
    → str_eq e.stream_id id ≡ true
    → seqs id (es ++ e ∷ []) ≡ seqs id es ++ e.event_seq ∷ []
seqs-same id e [] h = ground (arith, h)
seqs-same id e (x ∷ xs) h =
    ap (λ l. if str_eq x.stream_id id then x.event_seq ∷ l else l) (seqs-same id e xs h)
    ∙ if-append (str_eq x.stream_id id) x.event_seq (seqs id xs) (e.event_seq ∷ [])

str_eq-sym : (a b : String) → str_eq a b ≡ true → str_eq b a ≡ true
str_eq-sym a b h = (eq_iff b a).1 (sym ((eq_iff a b).0 h))

str_eq-flip : (a b : String) → str_eq a b ≡ false → str_eq b a ≡ false
str_eq-flip a b h = elim (Bool-cases (str_eq b a)) [
  | inl t ↦ absurd (ground (arith, h, str_eq-sym b a t))
  | inr f ↦ f
]

-- A stream of another id has the events it had.
IsCounted-other :
    (e : Event) (es : List Event) (s : Stream)
    → str_eq s.stream_id e.stream_id ≡ false
    → IsCounted es s
    → IsCounted (es ++ e ∷ []) s
IsCounted-other e es s h (q, r) =
    (seqs-other s.stream_id e es (str_eq-flip s.stream_id e.stream_id h) ∙ q, r)

IsCounted-others :
    (e : Event) (es : List Event) (ss : List Stream)
    → any (λ (t : Stream). str_eq t.stream_id e.stream_id) ss ≡ false
    → All (IsCounted es) ss
    → All (IsCounted (es ++ e ∷ [])) ss
IsCounted-others e es [] h q = tt
IsCounted-others e es (s ∷ ss) h (q, qs) =
    (IsCounted-other e es s (ground (arith, h)) q, IsCounted-others e es ss (ground (arith, h)) qs)

upto-next : (n m : ℕ) → suc n ≡ m → upto n ++ m ∷ [] ≡ upto m
upto-next n m h = rw (sym h) refl

IsCounted-advanced :
    (e : Event) (es : List Event) (s : Stream)
    → str_eq s.stream_id e.stream_id ≡ true
    → is_next e s ≡ true
    → IsCounted es s
    → IsCounted (es ++ e ∷ []) (advanced e s)
IsCounted-advanced e es s i n (q, r) = (
  seqs-same s.stream_id e es (str_eq-sym s.stream_id e.stream_id i)
      ∙ ap (λ l. l ++ e.event_seq ∷ []) q
      ∙ upto-next s.last_event_seq e.event_seq (ground (arith, n)),
  ground (arith, n),
)

advance-IsCounted :
    (e : Event) (es : List Event) (ss rest : List Stream)
    → is_keyed ss ≡ true
    → All (IsCounted es) ss
    → advance_stream e ss ≡ some rest
    → All (IsCounted (es ++ e ∷ [])) rest
unfolding advance_stream
advance-IsCounted e es [] rest k q h = absurd (ground (arith, h))
advance-IsCounted e es (s ∷ ss) rest k (q, qs) h =
    elim (Bool-cases (str_eq s.stream_id e.stream_id)) [
      | inl i ↦
          let (n, x) = advance-here e s ss rest i h in
          let others =
            IsCounted-others e es ss
              (absent_after_key s e.stream_id ss ((eq_iff s.stream_id e.stream_id).0 i) k) qs in
          subst (All (IsCounted (es ++ e ∷ []))) (sym x) (IsCounted-advanced e es s i n q, others)
      | inr i ↦
          let (rest', g, x) = advance-there e s ss rest i h in
          subst (All (IsCounted (es ++ e ∷ []))) (sym x)
            (IsCounted-other e es s i q, advance-IsCounted e es ss rest' (ground (arith, k)) qs g)
    ]

-- The ids stay, so they stay different.
advance-ids :
    (e : Event) (id : String) (ss rest : List Stream)
    → advance_stream e ss ≡ some rest
    → any (λ (t : Stream). str_eq t.stream_id id) rest
      ≡ any (λ (t : Stream). str_eq t.stream_id id) ss
unfolding advance_stream
advance-ids e id [] rest h = absurd (ground (arith, h))
advance-ids e id (s ∷ ss) rest h = elim (Bool-cases (str_eq s.stream_id e.stream_id)) [
  | inl i ↦ rw (advance-here e s ss rest i h).1 refl
  | inr i ↦
      let (rest', g, x) = advance-there e s ss rest i h in
      rw x (ap (λ b. str_eq s.stream_id id || b) (advance-ids e id ss rest' g))
]

advance-keyed :
    (e : Event) (ss rest : List Stream)
    → is_keyed ss ≡ true
    → advance_stream e ss ≡ some rest
    → is_keyed rest ≡ true
unfolding advance_stream
advance-keyed e [] rest k h = absurd (ground (arith, h))
advance-keyed e (s ∷ ss) rest k h = elim (Bool-cases (str_eq s.stream_id e.stream_id)) [
  | inl i ↦ rw (advance-here e s ss rest i h).1 k
  | inr i ↦
      let (rest', g, x) = advance-there e s ss rest i h in
      rw x (
        ground (
          arith,
          k,
          advance-ids e s.stream_id ss rest' g,
          advance-keyed e ss rest' (ground (arith, k)) g,
        ))
]

pub insert_event-IsOrdered :
    (e : Event) (d g : Db) → IsOrdered d → insert_event e d ≡ ok g → IsOrdered g
insert_event-IsOrdered e d g (k, q) h =
    let (_, events, advanced) = insert_event-parts e d g h in
    (
      advance-keyed e d.streams g.streams k advanced,
      subst (λ es. All (IsCounted es) g.streams) (sym events)
          (advance-IsCounted e d.events d.streams g.streams k q advanced),
    )

keep-IsOrdered :
    (d g : Db) → g.streams ≡ d.streams → g.events ≡ d.events → IsOrdered d → IsOrdered g
keep-IsOrdered d g same kept (k, q) = (
  rw same k,
  subst (λ es. All (IsCounted es) g.streams) (sym kept)
      (subst (All (IsCounted d.events)) (sym same) q),
)

-- Whatever events arrive, whatever actions are updated, and whatever is written to other tables: where
-- each stream was at its last event and its events were numbered 1, 2, … without a gap, it still is and
-- they still are. (The ids of the streams are different, and stay so.)
pub History-IsOrdered : {d k : Db} → History d k → IsOrdered d → IsOrdered k
History-IsOrdered now o = o
History-IsOrdered {d} (event {g = g} e h s) o =
    History-IsOrdered s (insert_event-IsOrdered e d g o h)
History-IsOrdered {d} (update {g = g} c old new h s) o = History-IsOrdered s (
    keep-IsOrdered d g (write_action-streams c old new d g h) (write_action-events c old new d g h)
      o)
History-IsOrdered {d} (elsewhere {g = g} same kept s) o =
    History-IsOrdered s (keep-IsOrdered d g same kept o)
