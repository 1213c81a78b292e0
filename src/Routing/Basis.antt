-- ===== src/Routing/Basis.antt =====
-- src/copilot/first-line-routing-planner.mjs, lines 289 to 341: the basis of a confirmed
-- clarification.
use mathlib.Core.Option
use mathlib.Core.List.{Perm}
use mathlib.Core.List.Perm
use babypark_integration.Base.{
  ℕ, ◌≤◌, ◌≡◌, ◌≢◌, ◌++◌, &&-eq-true, ◌&&◌, length, ok-injective, refl, sym, ap, ap₂, subst, ◌∙◌,
  inl, inr, true, Option, none, some, List, [], ◌∷◌, map, arith, All, Bool-cases, ok, err, Result,
  insert_by, order_by, leb, >>=-eq-ok, Option-cases,
}
use babypark_integration.Routing.Snapshot.{
  Entry, Snapshot, Projection, Error, basis_unavailable, EventKind, customer_message, MessageType,
  incoming, SenderClass, contact, Action, ActiveEpisode, OpenTurn,
}
use babypark_integration.Routing.Planner.{
  turn_of, result, is_snapshot, is_basis_event, is_customer, is_incoming, is_contact, by_seq,
  basis_entries, seq, project_confirmed_clarification_basis, basis_entry,
}
use babypark_integration.Routing.Clarified.{IsClarified, basis_of-eq-ok}
use babypark_integration.Routing.OpenTurn.{if-ok}

-- Numbers in order, each at least `n`.
abbrev pub Rises : ℕ → List ℕ → Type 0
Rises n [] = Unit {0}
Rises n (k ∷ ks) = (n ≤ k) × Rises k ks

insert_by-Rises :
    (n : ℕ) (e : Entry) (es : List Entry)
    → n ≤ seq e
    → Rises n (map seq es)
    → Rises n (map seq (insert_by seq e es))
insert_by-Rises n e [] l r = (l, tt)
insert_by-Rises n e (x ∷ xs) l (m, r) = ground (arith, insert_by-Rises (seq x) e xs)

order_by-Rises : (es : List Entry) → Rises 0 (map seq (order_by seq es))
order_by-Rises [] = tt
order_by-Rises (e ∷ es) = insert_by-Rises 0 e (order_by seq es) (omega arith) (order_by-Rises es)

insert_by-perm : (e : Entry) (es : List Entry) → Perm (insert_by seq e es) (e ∷ es)
insert_by-perm e [] = Perm.refl (e ∷ [])
insert_by-perm e (x ∷ xs) = elim (Bool-cases (leb (seq e) (seq x))) [
  | inl b ↦ rw b (Perm.refl (e ∷ x ∷ xs))
  | inr b ↦ rw b (Perm.trans (Perm.cons x (insert_by-perm e xs)) (Perm.swap e x xs))
]

order_by-perm : (es : List Entry) → Perm (order_by seq es) es
order_by-perm [] = Perm.nil
order_by-perm (e ∷ es) =
    Perm.trans (insert_by-perm e (order_by seq es)) (Perm.cons e (order_by-perm es))

by_seq-seq : (n : ℕ) (es : List Entry) (e : Entry) → by_seq n es ≡ some e → seq e ≡ n
unfolding by_seq
by_seq-seq n [] e h = cc
by_seq-seq n (x ∷ xs) e h = elim (Option-cases (by_seq n xs)) [
  | inl a ↦ ground arith
  | inr (y, there) ↦ by_seq-seq n xs e (there ∙ ground arith)
]

-- A message of the customer that came in from a contact.
abbrev pub IsCustomerMessage : Entry → Type 0
IsCustomerMessage e =
    (e.event.event_kind ≡ customer_message)
    × (e.event.message_type ≡ incoming)
    × (e.event.sender_class ≡ contact)

-- The last entry of the suffix that has its number.
abbrev pub IsLatest : List Entry → Entry → Type 0
IsLatest suffix e =
    (older after : List Entry) × (suffix ≡ older ++ e ∷ after) × All (λ x. seq x ≢ seq e) after

-- What the turn may hold of the suffix.
abbrev pub IsBasisEntry : List Entry → Entry → Type 0
IsBasisEntry suffix e = IsLatest suffix e × IsCustomerMessage e

by_seq-absent : (n : ℕ) (es : List Entry) → by_seq n es ≡ none → All (λ x. seq x ≢ n) es
unfolding by_seq
by_seq-absent n [] h = tt
by_seq-absent n (x ∷ xs) h = elim (Option-cases (by_seq n xs)) [
  | inl a ↦ (λ same. ground (arith, h, a, same), by_seq-absent n xs a)
  | inr (y, there) ↦ absurd (ground (arith, h, there))
]

by_seq-IsLatest :
    (n : ℕ) (es : List Entry) (e : Entry)
    → by_seq n es ≡ some e
    → (older after : List Entry) × (es ≡ older ++ e ∷ after) × All (λ x. seq x ≢ n) after
unfolding by_seq
by_seq-IsLatest n [] e h = absurd (ground (arith, h))
by_seq-IsLatest n (x ∷ xs) e h = elim (Option-cases (by_seq n xs)) [
  | inl a ↦
      let same : x ≡ e = ground (arith, h, a) in
      ([], xs, ap (λ y. y ∷ xs) same, by_seq-absent n xs a)
  | inr (y, there) ↦
      let (older, after, split, rest) = by_seq-IsLatest n xs e (there ∙ ground (arith, h, there)) in
      (x ∷ older, after, ap (λ ys. x ∷ ys) split, rest)
]

-- The check of the planner, without its order.
customer_eq : (k : EventKind) → is_customer k ≡ true → k ≡ customer_message
customer_eq customer_message h = refl
customer_eq k h = absurd (ground (arith, h))

incoming_eq : (m : MessageType) → is_incoming m ≡ true → m ≡ incoming
incoming_eq incoming h = refl
incoming_eq m h = absurd (ground (arith, h))

contact_eq : (c : SenderClass) → is_contact c ≡ true → c ≡ contact
contact_eq contact h = refl
contact_eq c h = absurd (ground (arith, h))

is_basis_event-IsCustomerMessage : (e : Entry) → is_basis_event e.event ≡ true → IsCustomerMessage e
unfolding is_basis_event
is_basis_event-IsCustomerMessage e h =
    let came = is_customer e.event.event_kind && is_incoming e.event.message_type in
    let (h1, c) = &&-eq-true came (is_contact e.event.sender_class) h in
    let (k, m) =
      &&-eq-true (is_customer e.event.event_kind) (is_incoming e.event.message_type) h1 in
    (customer_eq _ k, incoming_eq _ m, contact_eq _ c)

insert_by-All :
    (P : Entry → Type 0) (e : Entry) (es : List Entry) → P e → All P es → All P (insert_by seq e es)
insert_by-All P e [] h k = (h, tt)
insert_by-All P e (x ∷ xs) h (k, ks) = elim (Bool-cases (leb (seq e) (seq x))) [
  | inl b ↦ rw b (h, (k, ks))
  | inr b ↦ rw b (k, insert_by-All P e xs h ks)
]

order_by-All : (P : Entry → Type 0) (es : List Entry) → All P es → All P (order_by seq es)
order_by-All P [] h = tt
order_by-All P (e ∷ es) (h, hs) = insert_by-All P e (order_by seq es) h (order_by-All P es hs)

basis_entry-eq-ok :
    (o : Option Entry) (e : Entry) → basis_entry o ≡ ok e → (o ≡ some e) × IsCustomerMessage e
unfolding basis_entry
basis_entry-eq-ok none e h = absurd (ground arith)
basis_entry-eq-ok (some x) e h = elim (Bool-cases (is_basis_event x.event)) [
  | inl b ↦
      let same : x ≡ e = ok-injective (rw b at h) in
      (ap some same, subst IsCustomerMessage same (is_basis_event-IsCustomerMessage x b))
  | inr b ↦ absurd (err-ne-ok (rw b at h))
]
  where
    err-ne-ok : ◌≡◌ {A = Result Error Entry} (err basis_unavailable) (ok e) → ⊥
    err-ne-ok k = ground arith

-- Each number of the basis has a customer's message in the suffix.
basis_entries-seqs :
    (suffix : List Entry) (ns : List ℕ) (es : List Entry)
    → basis_entries suffix ns ≡ ok es
    → (map seq es ≡ ns) × All (IsBasisEntry suffix) es
unfolding basis_entries
basis_entries-seqs suffix [] es h =
    let same : [] ≡ es = ground arith in
    subst (λ xs. (map seq xs ≡ []) × All (IsBasisEntry suffix) xs) same (refl, tt)
basis_entries-seqs suffix (n ∷ ns) es h =
    let (e, he, h1) = >>=-eq-ok _ _ h in
    let (rest, hr, h2) = >>=-eq-ok _ _ h1 in
    let (found, message) = basis_entry-eq-ok (by_seq n suffix) e he in
    let numbered : n ≡ seq e = sym (by_seq-seq n suffix e found) in
    let latest =
      by_seq-IsLatest (seq e) suffix e (subst (λ k. by_seq k suffix ≡ some e) numbered found) in
    let (seqs, messages) = basis_entries-seqs suffix ns rest hr in
    let same : e ∷ rest ≡ es = ground arith in
    subst (λ xs. (map seq xs ≡ n ∷ ns) × All (IsBasisEntry suffix) xs) same
      (ap₂ ◌∷◌ (sym numbered) seqs, ((latest, message), messages))

-- The turn that was clarified: its entries stand in the suffix, each as the last one with its number;
-- they are messages of the customer, their numbers are those of the action's basis, each as often, and
-- they stand in order; the turn has their numbers, the ids of their messages and their count.
pub record IsBasisTurn (suffix : List Entry) (p : Projection) (basis : List ℕ) : Type 0 where
  pub entries : List Entry
  pub messages : All (IsBasisEntry suffix) entries
  pub numbers : Perm (map seq entries) basis
  pub rises : Rises 0 (map seq entries)
  pub turn : p.turn ≡ some (turn_of entries)
  pub event_seqs : Option.map (λ t. OpenTurn.event_seqs t) p.turn ≡ some (map seq entries)
  pub source_message_ids :
      Option.map (λ t. OpenTurn.source_message_ids t) p.turn
      ≡ some (map (λ e. e.event.source_message_id) entries)
  pub message_count : Option.map (λ t. OpenTurn.message_count t) p.turn ≡ some (length entries)

-- A successful projection of a confirmed clarification returns the turn of the action's basis: the
-- episode is active and was prompted once, the action is a confirmed clarification for that episode and
-- the stream, its basis is not empty, and the turn is made of the customer's messages that the suffix has
-- under the numbers of the basis, the last one for each number, in order and each as often as the basis
-- names it, with the ids of those messages.
pub basis_turn :
    (s : Snapshot) (p : Projection)
    → project_confirmed_clarification_basis s ≡ ok p
    → (episode : ActiveEpisode) × (a : Action) × (s.active_episode ≡ some episode)
      × (s.confirmed_clarification_action ≡ some a)
      × IsClarified s episode a
      × IsBasisTurn s.event_suffix p a.basis_event_seqs
unfolding project_confirmed_clarification_basis result turn_of
basis_turn s p h =
    let (basis, hb, h1) = >>=-eq-ok _ _ (if-ok (is_snapshot s) _ h) in
    let (es, he, h2) = >>=-eq-ok _ _ h1 in
    let (episode, a, there, clarified, guard, named) = basis_of-eq-ok s _ _ hb in
    let (seqs, messages) = basis_entries-seqs s.event_suffix basis es he in
    let made = sym (ap (λ q. Projection.turn q) (ok-injective h2)) in
    (
      episode,
      a,
      there,
      clarified,
      guard,
      record {
        entries = order_by seq es;
        messages = order_by-All (IsBasisEntry s.event_suffix) es messages;
        numbers =
            subst (Perm (map seq (order_by seq es))) (seqs ∙ sym named)
              (Perm.map seq (order_by-perm es));
        rises = order_by-Rises es;
        turn = made;
        event_seqs = ap (Option.map (λ t. OpenTurn.event_seqs t)) made;
        source_message_ids = ap (Option.map (λ t. OpenTurn.source_message_ids t)) made;
        message_count = ap (Option.map (λ t. OpenTurn.message_count t)) made;
      },
    )
