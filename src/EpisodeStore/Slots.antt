-- ===== src/EpisodeStore/Slots.antt =====
-- src/copilot/episode-store.mjs, lines 372 to 401: what a slot patch does to the stored slots.
use babypark_integration.Base.{
  ℕ, ◌≡◌, ◌↔◌, refl, Bool, true, false, ◌&&◌, Option, none, some, List, [], ◌∷◌, String, str_eq,
  eq_iff, ◌==◌, ==_iff, if◌then◌else◌, arith, Option-cases, inl, inr, ap, sym, ◌∙◌, Value, ok,
  >>=-eq-ok,
}
use babypark_integration.EpisodeStore.Input.{Slot, SlotValue, text, minor, rank}
use babypark_integration.EpisodeStore.Tables.{
  Db, SlotRow, slot_eq, value_eq, find_slot, delete_slot, upsert_slot,
}
use babypark_integration.EpisodeStore.Writes.{bump-eq-ok}
use babypark_integration.EpisodeStore.Bodies.{ok-injective}
use babypark_integration.EpisodeStore.Operations.{View, set_slots, bump, slots_body}

slot_of_rank : ℕ → Slot
slot_of_rank n =
    if n == 0
    then Slot.brand_id
    else if n == 1
    then Slot.category_id
    else if n == 2
    then Slot.currency
    else if n == 3
    then Slot.max_price_minor
    else if n == 4
    then Slot.min_price_minor
    else if n == 5
    then Slot.product_id
    else if n == 6
    then Slot.store_id
    else Slot.variant_id

slot_of_rank-rank : (s : Slot) → slot_of_rank (rank s) ≡ s
unfolding slot_of_rank
slot_of_rank-rank Slot.brand_id = refl
slot_of_rank-rank _ = refl

slot_eq_iff : (a b : Slot) → (slot_eq a b ≡ true) ↔ (a ≡ b)
unfolding slot_eq
slot_eq_iff a b = (
  λ h.
      sym (slot_of_rank-rank a)
      ∙ ap slot_of_rank ((==_iff (rank a) (rank b)).0 h)
      ∙ slot_of_rank-rank b,
  λ e. (==_iff (rank a) (rank b)).1 (ap rank e),
)

value_eq_sound : (a b : SlotValue) → value_eq a b ≡ true → a ≡ b
unfolding value_eq
value_eq_sound (text a) (text b) h = ap text ((eq_iff a b).0 h)
value_eq_sound (minor a) (minor b) h = ground arith
value_eq_sound (text a) (minor b) h = cc
value_eq_sound (minor a) (text b) h = cc

find_slot-upsert :
    (i j : String) (s t : Slot) (v : SlotValue) (rows : List SlotRow)
    → find_slot j t (upsert_slot i s v rows)
      ≡ (if str_eq i j && slot_eq s t then some v else find_slot j t rows)
unfolding find_slot upsert_slot
find_slot-upsert i j s t v [] = refl
find_slot-upsert i j s t v (r ∷ rs) = ground (
  arith,
  eq_iff i j,
  eq_iff r.episode_id i,
  eq_iff r.episode_id j,
  slot_eq_iff s t,
  slot_eq_iff r.slot_name s,
  slot_eq_iff r.slot_name t,
  find_slot-upsert i j s t v rs,
)

find_slot-delete :
    (i j : String) (s t : Slot) (rows : List SlotRow)
    → find_slot j t (delete_slot i s rows)
      ≡ (if str_eq i j && slot_eq s t then none else find_slot j t rows)
unfolding find_slot delete_slot
find_slot-delete i j s t [] = ground arith
find_slot-delete i j s t (r ∷ rs) = ground (
  arith,
  eq_iff i j,
  eq_iff r.episode_id i,
  eq_iff r.episode_id j,
  slot_eq_iff s t,
  slot_eq_iff r.slot_name s,
  slot_eq_iff r.slot_name t,
  find_slot-delete i j s t rs,
)

-- The value of slot `t` after a patch, from its value before.
abbrev pub patched : Slot → List (Slot × Option SlotValue) → Option SlotValue → Option SlotValue
patched t [] o = o
patched t ((s, w) ∷ ps) o = patched t ps (if slot_eq s t then w else o)

-- What the loop of `setStableSlots` stores for the patched episode, and for every other one.
abbrev stored :
    String → String → Slot → List (Slot × Option SlotValue) → Option SlotValue → Option SlotValue
stored id j t ps o = if str_eq id j then patched t ps o else o

set_slots-find :
    (id j : String) (t : Slot) (ps : List (Slot × Option SlotValue)) (b : Bool)
    (rows : List SlotRow)
    → find_slot j t (set_slots id ps b rows).1 ≡ stored id j t ps (find_slot j t rows)
unfolding set_slots
set_slots-find id j t [] b rows = ground arith
set_slots-find id j t ((s, none) ∷ ps) b rows = ground (
  arith,
  set_slots-find id j t ps true (delete_slot id s rows),
  set_slots-find id j t ps b rows,
  find_slot-delete id j s t rows,
  eq_iff id j,
  slot_eq_iff s t,
)
set_slots-find id j t ((s, some v) ∷ ps) b rows = elim (Option-cases (find_slot id s rows)) [
  | inl absent ↦ ground (
    arith,
    set_slots-find id j t ps true (upsert_slot id s v rows),
    find_slot-upsert id j s t v rows,
    eq_iff id j,
    slot_eq_iff s t,
  )
  | inr (w, there) ↦ ground (
    arith,
    set_slots-find id j t ps true (upsert_slot id s v rows),
    set_slots-find id j t ps b rows,
    find_slot-upsert id j s t v rows,
    eq_iff id j,
    slot_eq_iff s t,
    value_eq_sound w v,
  )
]

-- The flag `changed`, once up, stays up.
set_slots-flag_up :
    (id : String) (ps : List (Slot × Option SlotValue)) (rows : List SlotRow)
    → (set_slots id ps true rows).0 ≡ true
unfolding set_slots
set_slots-flag_up id [] rows = refl
set_slots-flag_up id ((s, none) ∷ ps) rows =
    ground (arith, set_slots-flag_up id ps rows, set_slots-flag_up id ps (delete_slot id s rows))
set_slots-flag_up id ((s, some v) ∷ ps) rows =
    ground (arith, set_slots-flag_up id ps rows, set_slots-flag_up id ps (upsert_slot id s v rows))

-- A patch that raises no flag stores nothing.
set_slots-unchanged :
    (id : String) (ps : List (Slot × Option SlotValue)) (rows : List SlotRow)
    → (set_slots id ps false rows).0 ≡ false
    → (set_slots id ps false rows).1 ≡ rows
unfolding set_slots
set_slots-unchanged id [] rows h = refl
set_slots-unchanged id ((s, none) ∷ ps) rows h =
    ground (arith, set_slots-unchanged id ps rows, set_slots-flag_up id ps (delete_slot id s rows))
set_slots-unchanged id ((s, some v) ∷ ps) rows h =
    ground
      (arith, set_slots-unchanged id ps rows, set_slots-flag_up id ps (upsert_slot id s v rows))

stored_rows :
    (id : String) (v now : ℕ) (changed : Bool) (d db' : Db)
    → (if changed then bump id v now d else ok d) ≡ ok db'
    → db'.slots ≡ d.slots
stored_rows id v now true d db' h = sym (ap (λ x. Db.slots x) (bump-eq-ok id v now d db' h).1)
stored_rows id v now false d db' h = ground arith

-- After a successful `setStableSlots` a slot of the episode holds the last value that the patch gives
-- it, is absent if that is null, and holds its old value if the patch does not name it; every slot
-- of another episode holds its old value.
pub slots_body-stores :
    (id j : String) (t : Slot) (ps : List (Slot × Option SlotValue)) (v : Value) (now : ℕ)
    (db db' : Db) (a : Option View)
    → slots_body id ps v now db ≡ ok (db', a)
    → find_slot j t db'.slots
      ≡ (if str_eq id j then patched t ps (find_slot j t db.slots) else find_slot j t db.slots)
unfolding slots_body
slots_body-stores id j t ps v now db db' a h =
    let (e, _, h1) = >>=-eq-ok _ _ h in
    let (d, stored, h2) = >>=-eq-ok _ _ h1 in
    let rows = stored_rows id e.version now _ _ d stored in
    ap (find_slot j t) (sym (ap (λ x. Db.slots x) (ok-injective h2)) ∙ rows)
    ∙ set_slots-find id j t ps false db.slots
