-- ===== src/Actions/Claims.antt =====
-- src/copilot/first-line-state-store.mjs, lines 710 to 743 and 4638 to 4687: which action a claim takes.
use babypark_integration.Base.{
  ℕ, ◌+◌, ◌≡◌, refl, ◌∙◌, Bool, true, false, ◌&&◌, not, Option, none, some, List, [], ◌∷◌, ◌++◌,
  every, String, any, arith, str_eq, eq_iff, eq_refl, ==_refl, leb, ltb, ok, ◌>>=◌, ◌>>◌, fail_if,
  Bool-cases, is_none, inl, inr, if◌then◌else◌,
}
use babypark_integration.Actions.Tables.{Action, Descriptor, Db}
use babypark_integration.Actions.Queries.{
  has_barrier, has_owner, has_descriptor, find_owner, is_same_text, is_same_number, find_action,
  is_unsent,
}
use babypark_integration.Actions.Triggers.{
  admits, admits_claim, admits_sending, admits_withdrawal, admits_handoff, is_claimable,
}
use babypark_integration.Actions.Lifecycle.{
  keeps_semantics, is_monotonic, may_follow, has_shape, is_basis, or_blank,
}
use babypark_integration.Actions.Writes.{write_action, settle_owner, replace_action}
use babypark_integration.Actions.Sending.{
  claimed, claim_first, claim_next_public_action, candidates, read_action, is_autonomous,
}

-- What the claim of an action needs at that time, for that long.
abbrev pub is_ready : ℕ → ℕ → ℕ → Db → Action → Bool
is_ready at now lease db a =
    is_claimable now a a.state
    && is_none a.send_started_at
    && is_none a.confirmed_source_message_id
    && is_none a.confirmed_at
    && is_none a.terminal_reason
    && leb a.updated_at at
    && leb at now
    && ltb now (at + lease)
    && not (has_barrier db)
    && has_owner db a
    && has_descriptor db a

is_same_text_refl : (o : Option String) → is_same_text o o ≡ true
is_same_text_refl none = refl
is_same_text_refl (some x) = eq_refl x

is_same_number_refl : (o : Option ℕ) → is_same_number o o ≡ true
is_same_number_refl none = refl
is_same_number_refl (some x) = ==_refl x

is_basis_refl : (xs : List ℕ) → is_basis xs xs ≡ true
is_basis_refl [] = refl
is_basis_refl (x ∷ xs) = ground (arith, is_basis_refl xs)

claimed-keeps_semantics :
    (at lease : ℕ) (claim : String) (a : Action)
    → keeps_semantics a (claimed at lease claim a) ≡ true
unfolding keeps_semantics
claimed-keeps_semantics at lease claim a = ground (
  arith,
  eq_refl a.action_id,
  eq_refl a.stream_id,
  eq_refl (or_blank a.episode_id),
  is_same_number_refl a.episode_version,
  is_basis_refl a.basis_event_seqs,
  eq_refl (or_blank a.requested_slot),
)

claimed-is_monotonic :
    (at now lease : ℕ) (claim : String) (db : Db) (a : Action)
    → is_ready at now lease db a ≡ true
    → is_monotonic db a (claimed at lease claim a) ≡ true
unfolding is_monotonic may_follow has_shape
claimed-is_monotonic at now lease claim db a h = ground (arith, h)

claimed-admits_claim :
    (at now lease : ℕ) (claim : String) (db : Db) (a : Action)
    → is_ready at now lease db a ≡ true
    → admits_claim (record { now = now; token = some claim }) db a (claimed at lease claim a) ≡ true
unfolding admits_claim has_owner has_descriptor
claimed-admits_claim at now lease claim db a h = ground (arith, h, eq_refl claim)

claimed-admits :
    (at now lease : ℕ) (claim : String) (db : Db) (a : Action)
    → is_ready at now lease db a ≡ true
    → admits (record { now = now; token = some claim }) db a (claimed at lease claim a) ≡ true
unfolding admits admits_sending admits_withdrawal admits_handoff
claimed-admits at now lease claim db a h = ground (
  arith,
  claimed-keeps_semantics at lease claim a,
  claimed-is_monotonic at now lease claim db a h,
  claimed-admits_claim at now lease claim db a h,
)

pub if-and_false {ℓ} : {A : Type ℓ} (b : Bool) (x y : A) → (if b && false then x else y) ≡ y
if-and_false true x y = refl
if-and_false false x y = refl

-- A claim writes the row and nothing else.
claimed-write_action :
    (at now lease : ℕ) (claim : String) (db : Db) (a : Action)
    → is_ready at now lease db a ≡ true
    → write_action (record { now = now; token = some claim }) a (claimed at lease claim a) db
      ≡ ok
          (record db { actions = replace_action a.action_id (claimed at lease claim a) db.actions })
unfolding write_action settle_owner ◌>>=◌ ◌>>◌ fail_if
claimed-write_action at now lease claim db a h =
    rw (claimed-admits at now lease claim db a h) (if-and_false (is_unsent a.state) _ _)

pub find_action-replace_action :
    (id : String) (new a : Action) (xs : List Action)
    → new.action_id ≡ id
    → find_action id xs ≡ some a
    → find_action id (replace_action id new xs) ≡ some new
unfolding find_action replace_action
find_action-replace_action id new a [] e h = absurd (ground (arith, h))
find_action-replace_action id new a (x ∷ xs) e h = elim (Bool-cases (str_eq x.action_id id)) [
  | inl t ↦ ground (arith, t, (eq_iff new.action_id id).1 e)
  | inr f ↦ ground (arith, f, find_action-replace_action id new a xs e (ground (arith, f, h)))
]

-- The database after the claim of the action.
abbrev pub after_claim : ℕ → ℕ → String → Action → Db → Db
after_claim at lease claim a db = record db {
  actions = replace_action a.action_id (claimed at lease claim a) db.actions;
}

described :
    (id stream : String) (ds : List Descriptor)
    → any (λ (d : Descriptor). str_eq d.action_id id && str_eq d.stream_id stream) ds ≡ true
    → any (λ (d : Descriptor). str_eq d.action_id id) ds ≡ true
described id stream [] h = h
described id stream (d ∷ ds) h = elim (Bool-cases (str_eq d.action_id id)) [
  | inl t ↦ ground (arith, t)
  | inr f ↦ ground (arith, f, described id stream ds (ground (arith, f, h)))
]

has_descriptor-described :
    (db : Db) (a : Action)
    → has_descriptor db a ≡ true
    → any (λ (d : Descriptor). str_eq d.action_id a.action_id) db.descriptors ≡ true
unfolding has_descriptor
has_descriptor-described db a h = described a.action_id a.stream_id db.descriptors h

-- A row that the loop passes over, since its continuation is not its own.
abbrev pub is_passed : (Db → String → Bool) → Db → Action → Bool
is_passed is_intact db a =
    is_intact db a.action_id
    && not (is_autonomous (find_owner a.stream_id a.prepared_stream_revision db.owners))

module _ (is_intact : Db → String → Bool) (at now lease : ℕ) (claim : String) (db : Db) where
  claim_first-here :
      (a : Action) (rest : List Action)
      → is_intact db a.action_id ≡ true
      → is_autonomous (find_owner a.stream_id a.prepared_stream_revision db.owners) ≡ true
      → is_ready at now lease db a ≡ true
      → read_action is_intact a.action_id (after_claim at lease claim a db)
        ≡ ok (claimed at lease claim a)
      → claim_first is_intact at now lease claim (a ∷ rest) db
        ≡ ok (after_claim at lease claim a db, some a.action_id)
  unfolding claim_first ◌>>=◌ ◌>>◌ fail_if
  claim_first-here a rest i o r k =
      rw
        (
          i,
          o,
          has_descriptor-described db a (ground (arith, r)),
          claimed-write_action at now lease claim db a r,
          k,
        )
        refl

  claim_first-passes :
      (a : Action) (pre rest : List Action)
      → every (is_passed is_intact db) pre ≡ true
      → claim_first is_intact at now lease claim (pre ++ a ∷ rest) db
        ≡ claim_first is_intact at now lease claim (a ∷ rest) db
  unfolding claim_first
  claim_first-passes a [] rest h = refl
  claim_first-passes a (x ∷ xs) rest h =
      let i : is_intact db x.action_id ≡ true = ground (arith, h) in
      let o : is_autonomous (find_owner x.stream_id x.prepared_stream_revision db.owners) ≡ false =
        ground (arith, h) in
      rw (i, o) (claim_first-passes a xs rest (ground (arith, h)))

read_action-found :
    (is_intact : Db → String → Bool) (id : String) (d : Db) (a : Action)
    → find_action id d.actions ≡ some a
    → is_intact d id ≡ true
    → read_action is_intact id d ≡ ok a
unfolding read_action
read_action-found is_intact id d a h i = rw (h, i, read_action) refl

-- A claim makes progress: where the rows that are due are, in the order of the query, some whose
-- continuation is not their own any more and then one that is its own and ready (unsent, unleased or with a
-- lease that has run out, with its owner and descriptor, no barrier, and clocks in order), the claim
-- takes that one, and the database differs in its row only. (The stored rows pass their checks.)
pub claim_makes_progress :
    (is_intact : Db → String → Bool) (at now lease : ℕ) (claim : String) (db : Db) (a : Action)
    (pre rest : List Action)
    → candidates at db.actions ≡ pre ++ a ∷ rest
    → every (is_passed is_intact db) pre ≡ true
    → is_intact db a.action_id ≡ true
    → is_intact (after_claim at lease claim a db) a.action_id ≡ true
    → find_action a.action_id db.actions ≡ some a
    → is_autonomous (find_owner a.stream_id a.prepared_stream_revision db.owners) ≡ true
    → is_ready at now lease db a ≡ true
    → claim_next_public_action is_intact at now lease claim db
      ≡ ok (after_claim at lease claim a db, some a.action_id)
unfolding claim_next_public_action ◌>>=◌ ◌>>◌ fail_if
claim_makes_progress is_intact at now lease claim db a pre rest order passed i j found o r =
    let free : has_barrier db ≡ false = ground (arith, r) in
    let read =
      find_action-replace_action a.action_id (claimed at lease claim a) a db.actions refl found in
    rw (free, order)
      (claim_first-passes is_intact at now lease claim db a pre rest passed
        ∙ claim_first-here is_intact at now lease claim db a rest i o r
            (read_action-found is_intact a.action_id _ _ read j))
