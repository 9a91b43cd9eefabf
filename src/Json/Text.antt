-- ===== src/Json/Text.antt =====
-- `json.dumps` and `json.loads` of the standard library, on the values that the code stores.
-- A text is the value that it denotes. An object that is read has an identity of its own, here its
-- depth, since identities are only compared along a path.
pub mod Loading
use rpacore.Base.{ℕ, suc, Bool, true, codes, text_before, Option, none, some, if◌then◌else◌}
use rpacore.Json.{
  Key, Value, Items, Fields, text, other_key, none_value, bool, int, float, str, list, dict, object,
  nil, item, end, field,
}

-- A stored text: the value that `json.loads` reads from it, if it reads one.
pub data JsonText : Type 0 where
  json : Value → JsonText
  not_json : JsonText

-- The value in new objects, from the given depth on.
unfoldable mutual
  pub fresh_value : ℕ → Value → Value
  fresh_value n none_value = none_value
  fresh_value n (bool b) = bool b
  fresh_value n (int i) = int i
  fresh_value n (float finite) = float finite
  fresh_value n (str s) = str s
  fresh_value n (list i items) = list n (fresh_items (suc n) items)
  fresh_value n (dict i fields) = dict n (fresh_fields (suc n) fields)
  fresh_value n object = object

  pub fresh_items : ℕ → Items → Items
  fresh_items n nil = nil
  fresh_items n (item v rest) = item (fresh_value n v) (fresh_items n rest)

  pub fresh_fields : ℕ → Fields → Fields
  fresh_fields n end = end
  fresh_fields n (field k v rest) = field k (fresh_value n v) (fresh_fields n rest)

-- Python's order of keys, which are all text here.
abbrev pub key_before : Key → Key → Bool
key_before (text a) (text b) = text_before (codes a) (codes b)
key_before _ _ = true

unfoldable pub insert_field : Key → Value → Fields → Fields
insert_field k v end = field k v end
insert_field k v (field l w rest) =
    let rest' = insert_field k v rest in
    if key_before k l then field k v (field l w rest) else field l w rest'

-- `sort_keys=True`, at every level.
unfoldable mutual
  pub sort_keys : Value → Value
  sort_keys none_value = none_value
  sort_keys (bool b) = bool b
  sort_keys (int i) = int i
  sort_keys (float finite) = float finite
  sort_keys (str s) = str s
  sort_keys (list i items) = list i (sort_items items)
  sort_keys (dict i fields) = dict i (sort_fields fields)
  sort_keys object = object

  pub sort_items : Items → Items
  sort_items nil = nil
  sort_items (item v rest) = item (sort_keys v) (sort_items rest)

  pub sort_fields : Fields → Fields
  sort_fields end = end
  sort_fields (field k v rest) = insert_field k (sort_keys v) (sort_fields rest)

-- `json.dumps(value)`
unfoldable pub dumps : Value → JsonText
unfolding fresh_value
dumps v = json (fresh_value 0 v)

-- `_canonical_json`
unfoldable pub canonical_json : Value → JsonText
unfolding fresh_value sort_keys
canonical_json v = json (fresh_value 0 (sort_keys v))

-- `json.loads`, at a depth; nothing for a `JSONDecodeError`.
unfoldable pub loads : ℕ → JsonText → Option Value
unfolding fresh_value
loads n (json v) = some (fresh_value n v)
loads n not_json = none
