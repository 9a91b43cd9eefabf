-- ===== src/Json.antt =====
-- _json_state.py: which values may be stored as JSON.
-- A container carries the identity of its object, as `id()` gives it. A cyclic value is written
-- down to the first node that repeats one above it, which is as far as the code looks.
pub mod Sound
pub mod Text
mod Tests
use rpacore.Base.{ℕ, ℤ, String, Bool, true, false, not, List, [], ◌∷◌, any, ◌==◌}
use rpacore.Exceptions.{json_state}
use rpacore.Exec.{Result, ok, err, and_then, require}

pub data Key : Type 0 where
  text : String → Key
  other_key : Key

mutual
  pub data Value : Type 0 where
    none_value : Value
    bool : Bool → Value
    int : ℤ → Value
    float : Bool → Value  -- whether it is finite
    str : String → Value
    list : ℕ → Items → Value
    dict : ℕ → Fields → Value
    object : Value  -- anything else

  pub data Items : Type 0 where
    nil : Items
    item : Value → Items → Items

  pub data Fields : Type 0 where
    end : Fields
    field : Key → Value → Fields → Fields

abbrev pub is_text : Key → Bool
is_text (text _) = true
is_text other_key = false

-- `value_id in active`
abbrev pub contains_id : ℕ → List ℕ → Bool
contains_id i active = any (λ j. i == j) active

-- `_validate_json_safe` with `_enter_container`
unfoldable mutual
  pub validate_value : Value → List ℕ → Result (Unit {0})
  validate_value none_value active = ok tt
  validate_value (bool b) active = ok tt
  validate_value (int n) active = ok tt
  validate_value (float finite) active = require finite json_state
  validate_value (str s) active = ok tt
  validate_value (list i items) active =
      and_then (require (not (contains_id i active)) json_state) (validate_items items (i ∷ active))
  validate_value (dict i fields) active =
      and_then (require (not (contains_id i active)) json_state)
        (validate_fields fields (i ∷ active))
  validate_value object active = err json_state

  pub validate_items : Items → List ℕ → Result (Unit {0})
  validate_items nil active = ok tt
  validate_items (item v rest) active =
      and_then (validate_value v active) (validate_items rest active)

  pub validate_fields : Fields → List ℕ → Result (Unit {0})
  validate_fields end active = ok tt
  validate_fields (field k v rest) active =
      and_then (require (is_text k) json_state)
        (and_then (validate_value v active) (validate_fields rest active))

abbrev pub is_dict : Value → Bool
is_dict (dict _ _) = true
is_dict _ = false

unfoldable pub validate_json_safe : Value → Result (Unit {0})
unfolding validate_value
validate_json_safe v = validate_value v []

unfoldable pub validate_json_object : Value → Result (Unit {0})
unfolding validate_value
validate_json_object v = and_then (require (is_dict v) json_state) (validate_value v [])
