-- ===== src/Actions/Known.antt =====
-- src/copilot/first-line-state-store.mjs: the events of a stream are those up to its revision, and the loops
-- of the gate over lists of events.
use babypark_integration.Base.{
  ℕ, zero, suc, ◌≤◌, ◌≡◌, sym, subst, inl, inr, Bool, true, ◌&&◌, Option, some, List, [], ◌∷◌, ◌++◌,
  String, str_eq, eq_iff, leb, arith, any, All, if◌then◌else◌, insert_by, order_by, Bool-cases,
}
use babypark_integration.Actions.Tables.{Event, Stream, Db}
use babypark_integration.Actions.Queries.{find_stream}
use babypark_integration.Actions.Sequence.{IsOrdered}
use babypark_integration.Actions.Ingest.{Input, has_source}
use babypark_integration.Actions.Sequence.{seqs, upto, IsCounted}

All-insert_by :
    (P : Input → Type 0) (key : Input → ℕ) (x : Input) (xs : List Input)
    → All P (insert_by key x xs)
    → P x × All P xs
All-insert_by P key x [] h = h
All-insert_by P key x (y ∷ ys) h = elim (Bool-cases (leb (key x) (key y))) [
  | inl t ↦ subst (λ b. All P (if b then x ∷ y ∷ ys else y ∷ insert_by key x ys)) t h
  | inr f ↦
      let (p, q) = subst (λ b. All P (if b then x ∷ y ∷ ys else y ∷ insert_by key x ys)) f h in
      let (r, s) = All-insert_by P key x ys q in (r, (p, s))
]

pub All-order_by :
    (P : Input → Type 0) (key : Input → ℕ) (xs : List Input) → All P (order_by key xs) → All P xs
All-order_by P key [] h = tt
All-order_by P key (x ∷ xs) h =
    let (p, q) = All-insert_by P key x (order_by key xs) h in (p, All-order_by P key xs q)

pub All-weaken {ℓ} :
    {A : Type ℓ} (P Q : A → Type 0) (xs : List A) → ((n : A) → P n → Q n) → All P xs → All Q xs
All-weaken P Q [] f h = tt
All-weaken P Q (x ∷ xs) f (p, h) = (f x p, All-weaken P Q xs f h)

All-last : (P : ℕ → Type 0) (xs : List ℕ) (n : ℕ) → All P xs → P n → All P (xs ++ n ∷ [])
All-last P [] n h p = (p, tt)
All-last P (x ∷ xs) n (q, h) p = (q, All-last P xs n h p)

upto_bounded : (n : ℕ) → All (λ m. m ≤ n) (upto n)
upto_bounded zero = tt
upto_bounded (suc n) =
    All-last (λ m. m ≤ suc n) (upto n) (suc n)
      (All-weaken (λ m. m ≤ n) (λ m. m ≤ suc n) (upto n) (λ m h. omega (arith, h)) (upto_bounded n))
      (omega arith)

-- The event of that message, up to that number.
abbrev pub is_known_at : String → ℕ → ℕ → Event → Bool
is_known_at id m n e = has_source id m e && leb e.event_seq n

bounded_known :
    (id : String) (m n : ℕ) (es : List Event)
    → All (λ k. k ≤ n) (seqs id es)
    → any (has_source id m) es ≡ true
    → any (is_known_at id m n) es ≡ true
bounded_known id m n [] b h = h
bounded_known id m n (e ∷ es) b h = elim (Bool-cases (str_eq e.stream_id id)) [
  | inl t ↦
      let (p, bs) =
        subst (λ c. All (λ k. k ≤ n) (if c then e.event_seq ∷ seqs id es else seqs id es)) t b in
      elim (Bool-cases (any (has_source id m) es)) [
        | inl k ↦ ground (arith, bounded_known id m n es bs k)
        | inr k ↦ ground (arith, t, h, k, p)
      ]
  | inr f ↦
      let bs =
        subst (λ c. All (λ k. k ≤ n) (if c then e.event_seq ∷ seqs id es else seqs id es)) f b in
      ground (arith, f, h, bounded_known id m n es bs (ground (arith, f, h)))
]

some-injective : {x s : Stream} → ◌≡◌ {A = Option Stream} (some x) (some s) → x ≡ s
some-injective h = cc

IsCounted-stream :
    (id : String) (es : List Event) (ss : List Stream) (s : Stream)
    → All (IsCounted es) ss
    → find_stream id ss ≡ some s
    → (s.stream_id ≡ id) × IsCounted es s
unfolding find_stream
IsCounted-stream id es [] s c h = absurd (ground (arith, h))
IsCounted-stream id es (x ∷ xs) s (p, c) h = elim (Bool-cases (str_eq x.stream_id id)) [
  | inl t ↦
      let same : x ≡ s = some-injective (
        subst (λ b. ◌≡◌ {A = Option Stream} (if b then some x else find_stream id xs) (some s)) t
          h) in
      subst (λ y. (Stream.stream_id y ≡ id) × IsCounted es y) same ((eq_iff x.stream_id id).0 t, p)
  | inr f ↦ IsCounted-stream id es xs s c (ground (arith, f, h))
]

-- Every event of a stream that is there is at most at its revision.
pub known_at_revision :
    (id : String) (m : ℕ) (d : Db) (s : Stream)
    → IsOrdered d
    → find_stream id d.streams ≡ some s
    → any (has_source id m) d.events ≡ true
    → any (is_known_at id m s.stream_revision) d.events ≡ true
known_at_revision id m d s (_, counted) found h =
    let (same, c) = IsCounted-stream id d.events d.streams s counted found in
    let bounded : All (λ k. k ≤ s.last_event_seq) (seqs id d.events) =
      subst (λ x. All (λ k. k ≤ s.last_event_seq) (seqs x d.events)) same
        (subst (All (λ k. k ≤ s.last_event_seq)) (sym c.0) (upto_bounded s.last_event_seq)) in
    rw c.1 (bounded_known id m s.last_event_seq d.events bounded h)
