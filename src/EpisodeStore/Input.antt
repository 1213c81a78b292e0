-- ===== src/EpisodeStore/Input.antt =====
-- src/copilot/episode-store.mjs, lines 58 to 229: the validation of a caller's values.
-- An error is its code; the message and the details are left out.
use babypark_integration.Base.{
  ℕ, Bool, true, false, ◌&&◌, ◌||◌, Option, none, some, List, [], ◌∷◌, ◌++◌, map, String, str_eq,
  ltb, leb, ◌==◌, if◌then◌else◌, length, every, any, order_by, pos, Value, null, num, str, obj,
  Items, nil, item, Fields, end, field, max_safe_integer, codes, is_digit, is_lower, is_upper,
  Result, ok, err, ◌>>=◌,
}

pub data Error : Type 0 where
  value_invalid slot_unsupported requested_slot_unsupported close_reason_invalid : Error
  candidate_invalid slot_patch_invalid candidate_limit_exceeded clarification_invalid : Error
  active_exists message_already_consumed message_out_of_order : Error
  clarification_limit_reached stale_write expected_version_required : Error
  episode_not_found episode_closed : Error
  -- A UNIQUE or PRIMARY KEY violation that SQLite raises.
  constraint : Error

-- The keys of `SLOT_SPECS`.
pub data Slot : Type 0 where
  product_id variant_id category_id brand_id store_id : Slot
  min_price_minor max_price_minor currency : Slot

pub data SlotValue : Type 0 where
  text : String → SlotValue
  minor : ℕ → SlotValue

-- The place of a slot's name in the order of `localeCompare`.
abbrev pub rank : Slot → ℕ
rank brand_id = 0
rank category_id = 1
rank currency = 2
rank max_price_minor = 3
rank min_price_minor = 4
rank product_id = 5
rank store_id = 6
rank variant_id = 7

-- `Object.hasOwn(SLOT_SPECS, name)`, with the key that it finds.
unfoldable pub slot_named : String → Option Slot
slot_named name =
    if str_eq name "product_id"
    then some product_id
    else if str_eq name "variant_id"
    then some variant_id
    else if str_eq name "category_id"
    then some category_id
    else if str_eq name "brand_id"
    then some brand_id
    else if str_eq name "store_id"
    then some store_id
    else if str_eq name "min_price_minor"
    then some min_price_minor
    else if str_eq name "max_price_minor"
    then some max_price_minor
    else if str_eq name "currency"
    then some currency
    else none

unfoldable pub positive_integer : Value → Result Error ℕ
positive_integer (num (pos n)) =
    if ltb 0 n && leb n max_safe_integer then ok n else err value_invalid
positive_integer _ = err value_invalid

abbrev is_alphanumeric : ℕ → Bool
is_alphanumeric c = is_upper c || is_lower c || is_digit c

abbrev is_token_code : ℕ → Bool
is_token_code c = is_alphanumeric c || c == b'.' || c == b'_' || c == b':' || c == b'/' || c == b'-'

-- The regular expression of `safeToken`; it admits no empty text.
abbrev is_token : List ℕ → Bool
is_token [] = false
is_token (c ∷ cs) = is_alphanumeric c && every is_token_code cs

unfoldable pub safe_token : Value → Result Error String
safe_token (str s) =
    if leb (length (codes s)) 128 && is_token (codes s) then ok s else err value_invalid
safe_token _ = err value_invalid

-- A regular expression without repetition: one class for each code point.
pub data Class : Type 0 where
  one : ℕ → Class
  hex : Class

abbrev in_class : Class → ℕ → Bool
in_class (one k) c = c == k
in_class hex c = is_digit c || (leb b'a' c && leb c b'f')

abbrev pub matches : List Class → List ℕ → Bool
matches [] [] = true
matches [] (c ∷ cs) = false
matches (p ∷ ps) [] = false
matches (p ∷ ps) (c ∷ cs) = in_class p c && matches ps cs

abbrev hexes : ℕ → List Class
hexes = elim [ ℕ.zero ↦ [] | ℕ.suc (n → ih) ↦ hex ∷ ih ]

abbrev uuid_shape : List Class
uuid_shape =
    hexes 8
    ++ one b'-' ∷ (hexes 4 ++ one b'-' ∷ (hexes 4 ++ one b'-' ∷ (hexes 4 ++ one b'-' ∷ hexes 12)))

abbrev literal : String → List Class
literal s = map one (codes s)

-- `CANONICAL_ID_PATTERNS`; the other slots have no pattern.
abbrev id_pattern : Slot → Option (List Class)
id_pattern product_id = some (literal "prod_" ++ uuid_shape)
id_pattern variant_id = some (literal "var_" ++ uuid_shape)
id_pattern store_id = some (literal "store_" ++ uuid_shape)
id_pattern brand_id = some (literal "brand_" ++ hexes 32)
id_pattern category_id = some (literal "cat_" ++ hexes 32)
id_pattern _ = none

unfoldable pub normalize_id : Value → Slot → Result Error SlotValue
normalize_id (str s) slot = elim (id_pattern slot) [
  | none ↦ err value_invalid
  | some p ↦ if matches p (codes s) then ok (text s) else err value_invalid
]
normalize_id _ slot = err value_invalid

normalize_money : Value → Result Error SlotValue
normalize_money (num (pos n)) = if leb n max_safe_integer then ok (minor n) else err value_invalid
normalize_money _ = err value_invalid

normalize_currency : Value → Result Error SlotValue
normalize_currency (str s) =
    if every is_upper (codes s) && length (codes s) == 3 then ok (text s) else err value_invalid
normalize_currency _ = err value_invalid

-- `normalizeSlotValue`, for a slot that `SLOT_SPECS` has.
unfoldable pub normalize_slot_value : Slot → Value → Result Error SlotValue
unfolding normalize_money normalize_currency
normalize_slot_value min_price_minor v = normalize_money v
normalize_slot_value max_price_minor v = normalize_money v
normalize_slot_value currency v = normalize_currency v
normalize_slot_value slot v = normalize_id v slot

abbrev pub has : List String → String → Bool
has xs s = any (str_eq s) xs

abbrev requested_slots : List String
requested_slots =
    "product_id" ∷ "variant_id" ∷ "category_id" ∷ "brand_id" ∷ "store_id" ∷ "money"
    ∷ "shortlist_anchor" ∷ []

abbrev close_reasons : List String
close_reasons =
    "completed" ∷ "replaced" ∷ "human" ∷ "human_takeover" ∷ "non_actionable_ack" ∷ "superseded"
    ∷ "expired" ∷ []

unfoldable pub normalize_requested_slot : Value → Result Error (Option String)
normalize_requested_slot null = ok none
normalize_requested_slot (str s) =
    if has requested_slots s then ok (some s) else err requested_slot_unsupported
normalize_requested_slot _ = err requested_slot_unsupported

unfoldable pub normalize_close_reason : Value → Result Error String
normalize_close_reason (str s) = if has close_reasons s then ok s else err close_reason_invalid
normalize_close_reason _ = err close_reason_invalid

-- The values under `slot` and `value` of an object that has these two keys and no other.
abbrev candidate_fields : Fields → Option (Value × Value)
candidate_fields (field j v (field k w end)) =
    if str_eq j "slot" && str_eq k "value"
    then some (v, w)
    else if str_eq j "value" && str_eq k "slot"
    then some (w, v)
    else none
candidate_fields _ = none

candidate_of : Value → Value → Result Error (Slot × SlotValue)
candidate_of (str s) v = elim (slot_named s) [
  | none ↦ err candidate_invalid
  | some slot ↦ normalize_slot_value slot v >>= λ w. ok (slot, w)
]
candidate_of _ v = err candidate_invalid

unfoldable pub normalize_candidate : Value → Result Error (Slot × SlotValue)
unfolding candidate_of slot_named normalize_slot_value
normalize_candidate (obj fs) = elim (candidate_fields fs) [
  | none ↦ err candidate_invalid
  | some (s, v) ↦ candidate_of s v
]
normalize_candidate _ = err candidate_invalid

-- `value === null ? null : normalizeSlotValue(name, value)`.
abbrev or_null : Slot → Value → Result Error (Option SlotValue)
or_null slot null = ok none
or_null slot v = normalize_slot_value slot v >>= λ w. ok (some w)

patch_entries : Fields → Result Error (List (Slot × Option SlotValue))
patch_entries end = ok []
patch_entries (field k v fs) = elim (slot_named k) [
  | none ↦ err slot_unsupported
  | some slot ↦ do w ← or_null slot v; rest ← patch_entries fs; ok ((slot, w) ∷ rest)
]

-- A patch that the caller leaves out is `{}`.
unfoldable pub normalize_slot_patch : Value → Result Error (List (Slot × Option SlotValue))
unfolding patch_entries slot_named normalize_slot_value
normalize_slot_patch (obj fs) = patch_entries fs >>= λ ps. ok (order_by (λ p. rank p.0) ps)
normalize_slot_patch _ = err slot_patch_invalid

unfoldable pub normalize_candidates : Items → Result Error (List (Slot × SlotValue))
unfolding normalize_candidate
normalize_candidates nil = ok []
normalize_candidates (item v vs) = do
  c ← normalize_candidate v
  rest ← normalize_candidates vs
  ok (c ∷ rest)
