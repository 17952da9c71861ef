-- ===== src/KeyFormat.antt =====
-- src/karapace/core/key_format.py. A key is a JSON object, so a dictionary with its keys in order; the
-- encoding of the ordered object as bytes is left out.
pub mod Canonical
use karapace.Prelude.{
  ℕ, zero, suc, ◌≡◌, Bool, true, false, ◌&&◌, Option, none, some, List, [], ◌∷◌, ◌++◌, map, String,
  ◌==◌, string_eq, list_eq, nat_eq, elem, all_of, length, leb, is_some, if◌then◌else◌,
}
use karapace.Dict.{Dict, get, set, keys, contains}
use karapace.Outcome.{Result, ok, err, ◌>>=◌, or_raise, key_error}
use karapace.Messages.{Json, JsonObject}

-- `SCHEMA_KEY_ORDER`, `CONFIG_KEY_ORDER`, `NOOP_KEY_ORDER` and `CANONICAL_KEY_ORDERS`
abbrev pub schema_key_order : List String
schema_key_order = "keytype" ∷ "subject" ∷ "version" ∷ "magic" ∷ []

abbrev pub config_key_order : List String
config_key_order = "keytype" ∷ "subject" ∷ "magic" ∷ []

abbrev pub noop_key_order : List String
noop_key_order = "keytype" ∷ "magic" ∷ []

abbrev pub canonical_key_orders : List (List String)
canonical_key_orders = schema_key_order ∷ config_key_order ∷ noop_key_order ∷ []

-- `KeyMode`
pub data KeyMode : Type 0 where
  canonical deprecated_karapace : KeyMode

-- `is_key_in_canonical_format`
unfoldable pub is_key_in_canonical_format : JsonObject → Bool
is_key_in_canonical_format key = elem (keys key) canonical_key_orders

-- Two lists of distinct keys are equal once sorted.
abbrev same_keys : List String → List String → Bool
same_keys ks ls = all_of (λ k. elem k ls) ks && all_of (λ l. elem l ks) ls

-- `KEY_ORDER[tuple(sorted(ks))]`
abbrev order_among : List String → List (List String) → Option (List String)
order_among ks [] = none
order_among ks (order ∷ orders) = if same_keys ks order then some order else order_among ks orders

unfoldable pub key_order : List String → Result (List String)
key_order ks = or_raise (order_among ks canonical_key_orders) key_error

-- `fixed_order.index(k)`
abbrev index_of : String → List String → ℕ
index_of k [] = 0
index_of k (l ∷ ls) = if l == k then 0 else suc (index_of k ls)

abbrev insert_by : List String → String × Json → JsonObject → JsonObject
insert_by order e [] = e ∷ []
insert_by order e (f ∷ rest) =
    let later = f ∷ insert_by order e rest in
    if leb (index_of e.0 order) (index_of f.0 order) then e ∷ f ∷ rest else later

-- `sorted(items, key=lambda t: fixed_order.index(t[0]))`
abbrev sort_by : List String → JsonObject → JsonObject
sort_by order [] = []
sort_by order (e ∷ rest) = insert_by order e (sort_by order rest)

-- `if k in key: corrected_key[k] = key[k]`
abbrev entry_if_there : String → Option Json → JsonObject
entry_if_there k none = []
entry_if_there k (some v) = (k, v) ∷ []

-- the object `corrected_key`, whose entries are written in this order
abbrev corrected_key : Json → Option Json → Option Json → Json → JsonObject
corrected_key keytype subject version magic =
    ("keytype", keytype)
    ∷ (entry_if_there "subject" subject
        ++ (entry_if_there "version" version ++ (("magic", magic) ∷ [])))

-- the ordering of that object
unfoldable pub format_entries : Json → Option Json → Option Json → Json → Result JsonObject
unfolding key_order
format_entries keytype subject version magic = do
  let corrected = corrected_key keytype subject version magic
  order ← key_order (keys corrected)
  ok (sort_by order corrected)

-- `format_key`, with the mode that it works in
unfoldable pub format_key : KeyMode → JsonObject → Result JsonObject
format_key deprecated_karapace key = ok key
format_key canonical key = do
  keytype ← or_raise (get "keytype" key) key_error
  magic ← or_raise (get "magic" key) key_error
  format_entries keytype (get "subject" key) (get "version" key) magic
