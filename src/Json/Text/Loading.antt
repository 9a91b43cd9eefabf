-- ===== src/Json/Text/Loading.antt =====
-- A durable value that is written and read is durable again.
use rpacore.Base.{ℕ, suc, ◌<◌, ◌≡◌, refl, ap, false, List, [], ◌∷◌, arith, All, some}
use rpacore.Exec.{ok}
use rpacore.Json.{
  Key, Value, Items, Fields, text, other_key, none_value, bool, int, float, str, list, dict, object,
  nil, item, end, field, contains_id, is_dict, validate_value, validate_items, validate_fields,
  validate_json_object,
}
use rpacore.Json.Text.{
  fresh_value, fresh_items, fresh_fields, insert_field, sort_keys, sort_items, sort_fields, dumps,
  canonical_json, loads,
}

mutual
  unfolding fresh_value

  pub fresh_value_twice : (n m : ℕ) (v : Value) → fresh_value n (fresh_value m v) ≡ fresh_value n v
  fresh_value_twice n m none_value = refl
  fresh_value_twice n m (bool b) = refl
  fresh_value_twice n m (int i) = refl
  fresh_value_twice n m (float finite) = refl
  fresh_value_twice n m (str s) = refl
  fresh_value_twice n m (list i items) = ap (list n) (fresh_items_twice (suc n) (suc m) items)
  fresh_value_twice n m (dict i fields) = ap (dict n) (fresh_fields_twice (suc n) (suc m) fields)
  fresh_value_twice n m object = refl

  fresh_items_twice : (n m : ℕ) (xs : Items) → fresh_items n (fresh_items m xs) ≡ fresh_items n xs
  fresh_items_twice n m nil = refl
  fresh_items_twice n m (item v rest) =
      rw (fresh_value_twice n m v, fresh_items_twice n m rest) refl

  fresh_fields_twice :
      (n m : ℕ) (fs : Fields) → fresh_fields n (fresh_fields m fs) ≡ fresh_fields n fs
  fresh_fields_twice n m end = refl
  fresh_fields_twice n m (field k v rest) =
      rw (fresh_value_twice n m v, fresh_fields_twice n m rest) refl

-- The identities in use are those above.
abbrev pub Below : ℕ → List ℕ → Type 0
Below n active = All (λ j. j < n) active

Below-suc : (n : ℕ) (active : List ℕ) → Below n active → Below (suc n) active
Below-suc n [] h = tt
Below-suc n (j ∷ js) h = (omega (arith, h.0), Below-suc n js h.1)

contains_id-Below : (n : ℕ) (active : List ℕ) → Below n active → contains_id n active ≡ false
contains_id-Below n [] h = refl
contains_id-Below n (j ∷ js) h = ground (arith, contains_id-Below n js h.1)

enter_Below : (n : ℕ) (active : List ℕ) → Below n active → Below (suc n) (n ∷ active)
enter_Below n active h = (omega arith, Below-suc n active h)

mutual
  unfolding validate_value fresh_value

  pub fresh_value-valid :
      (n : ℕ) (v : Value) (active below : List ℕ)
      → Below n below
      → validate_value v active ≡ ok tt
      → validate_value (fresh_value n v) below ≡ ok tt
  fresh_value-valid n none_value active below b h = refl
  fresh_value-valid n (bool x) active below b h = refl
  fresh_value-valid n (int i) active below b h = refl
  fresh_value-valid n (float finite) active below b h = h
  fresh_value-valid n (str s) active below b h = refl
  fresh_value-valid n (list i items) active below b h = ground (
    arith,
    h,
    contains_id-Below n below b,
    fresh_items-valid (suc n) items (i ∷ active) (n ∷ below) (enter_Below n below b),
  )
  fresh_value-valid n (dict i fields) active below b h = ground (
    arith,
    h,
    contains_id-Below n below b,
    fresh_fields-valid (suc n) fields (i ∷ active) (n ∷ below) (enter_Below n below b),
  )
  fresh_value-valid n object active below b h = cc

  fresh_items-valid :
      (n : ℕ) (xs : Items) (active below : List ℕ)
      → Below n below
      → validate_items xs active ≡ ok tt
      → validate_items (fresh_items n xs) below ≡ ok tt
  fresh_items-valid n nil active below b h = refl
  fresh_items-valid n (item v rest) active below b h =
      ground
        (arith, h, fresh_value-valid n v active below b, fresh_items-valid n rest active below b)

  pub fresh_fields-valid :
      (n : ℕ) (fs : Fields) (active below : List ℕ)
      → Below n below
      → validate_fields fs active ≡ ok tt
      → validate_fields (fresh_fields n fs) below ≡ ok tt
  fresh_fields-valid n end active below b h = refl
  fresh_fields-valid n (field other_key v rest) active below b h = cc
  fresh_fields-valid n (field (text k) v rest) active below b h =
      ground
        (arith, h, fresh_value-valid n v active below b, fresh_fields-valid n rest active below b)

-- A text written by `dumps` is read as the value in new objects, and as a durable one.
pub loads-dumps : (n : ℕ) (v : Value) → loads n (dumps v) ≡ some (fresh_value n v)
unfolding loads dumps
loads-dumps n v = ap some (fresh_value_twice n 0 v)

pub loads-canonical_json :
    (n : ℕ) (v : Value) → loads n (canonical_json v) ≡ some (fresh_value n (sort_keys v))
unfolding loads canonical_json
loads-canonical_json n v = ap some (fresh_value_twice n 0 (sort_keys v))

pub fresh_value-IsDict : (n : ℕ) (v : Value) → is_dict (fresh_value n v) ≡ is_dict v
unfolding fresh_value
fresh_value-IsDict n none_value = refl
fresh_value-IsDict n (bool b) = refl
fresh_value-IsDict n (int i) = refl
fresh_value-IsDict n (float finite) = refl
fresh_value-IsDict n (str s) = refl
fresh_value-IsDict n (list i items) = refl
fresh_value-IsDict n (dict i fields) = refl
fresh_value-IsDict n object = refl

-- A durable object in new objects is a durable object.
pub fresh_value-durable :
    (n : ℕ) (v : Value)
    → validate_json_object v ≡ ok tt
    → validate_json_object (fresh_value n v) ≡ ok tt
unfolding validate_json_object
fresh_value-durable n v h =
    ground (arith, h, fresh_value-IsDict n v, fresh_value-valid n v [] [] tt)

insert_field-valid :
    (k : Key) (v : Value) (fs : Fields) (active : List ℕ)
    → validate_fields (field k v fs) active ≡ ok tt
    → validate_fields (insert_field k v fs) active ≡ ok tt
unfolding validate_value insert_field
insert_field-valid k v end active h = h
insert_field-valid k v (field l w rest) active h =
    ground (arith, h, insert_field-valid k v rest active)

mutual
  unfolding validate_value sort_keys

  pub sort_keys-valid :
      (v : Value) (active : List ℕ)
      → validate_value v active ≡ ok tt
      → validate_value (sort_keys v) active ≡ ok tt
  sort_keys-valid none_value active h = refl
  sort_keys-valid (bool x) active h = refl
  sort_keys-valid (int i) active h = refl
  sort_keys-valid (float finite) active h = h
  sort_keys-valid (str s) active h = refl
  sort_keys-valid (list i items) active h = ground (arith, h, sort_items-valid items (i ∷ active))
  sort_keys-valid (dict i fields) active h =
      ground (arith, h, sort_fields-valid fields (i ∷ active))
  sort_keys-valid object active h = cc

  sort_items-valid :
      (xs : Items) (active : List ℕ)
      → validate_items xs active ≡ ok tt
      → validate_items (sort_items xs) active ≡ ok tt
  sort_items-valid nil active h = refl
  sort_items-valid (item v rest) active h =
      ground (arith, h, sort_keys-valid v active, sort_items-valid rest active)

  pub sort_fields-valid :
      (fs : Fields) (active : List ℕ)
      → validate_fields fs active ≡ ok tt
      → validate_fields (sort_fields fs) active ≡ ok tt
  sort_fields-valid end active h = refl
  sort_fields-valid (field k v rest) active h =
      insert_field-valid k (sort_keys v) (sort_fields rest) active
        (ground (arith, h, sort_keys-valid v active, sort_fields-valid rest active))

pub sort_keys-IsDict : (v : Value) → is_dict (sort_keys v) ≡ is_dict v
unfolding sort_keys
sort_keys-IsDict none_value = refl
sort_keys-IsDict (bool b) = refl
sort_keys-IsDict (int i) = refl
sort_keys-IsDict (float finite) = refl
sort_keys-IsDict (str s) = refl
sort_keys-IsDict (list i items) = refl
sort_keys-IsDict (dict i fields) = refl
sort_keys-IsDict object = refl

pub sort_keys-durable :
    (v : Value) → validate_json_object v ≡ ok tt → validate_json_object (sort_keys v) ≡ ok tt
unfolding validate_json_object
sort_keys-durable v h = ground (arith, h, sort_keys-IsDict v, sort_keys-valid v [])
