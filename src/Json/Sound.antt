-- ===== src/Json/Sound.antt =====
-- The validator against a description in two parts: the leaves and keys, and the absence of cycles.
use rpacore.Base.{ℕ, ◌≡◌, refl, ◌↔◌, true, false, List, [], ◌∷◌, arith}
use rpacore.Exceptions.{json_state}
use rpacore.Exec.{ok, and_then, require}
use rpacore.Json.{
  Value, Items, Fields, text, other_key, none_value, bool, int, float, str, list, dict, object, nil,
  item, end, field, contains_id, is_dict, validate_value, validate_items, validate_fields,
  validate_json_object,
}

-- Every leaf has a JSON form and every key is text.
mutual
  pub HasJsonLeaves : Value → Type 0
  HasJsonLeaves none_value = Unit
  HasJsonLeaves (bool b) = Unit
  HasJsonLeaves (int n) = Unit
  HasJsonLeaves (float finite) = finite ≡ true
  HasJsonLeaves (str s) = Unit
  HasJsonLeaves (list i items) = HasJsonItems items
  HasJsonLeaves (dict i fields) = HasJsonFields fields
  HasJsonLeaves object = ⊥

  pub HasJsonItems : Items → Type 0
  HasJsonItems nil = Unit
  HasJsonItems (item v rest) = HasJsonLeaves v × HasJsonItems rest

  pub HasJsonFields : Fields → Type 0
  HasJsonFields end = Unit
  HasJsonFields (field other_key v rest) = ⊥
  HasJsonFields (field (text k) v rest) = HasJsonLeaves v × HasJsonFields rest

-- No container stands inside itself, nor inside one of `active`.
mutual
  pub IsAcyclic : List ℕ → Value → Type 0
  IsAcyclic active none_value = Unit
  IsAcyclic active (bool b) = Unit
  IsAcyclic active (int n) = Unit
  IsAcyclic active (float finite) = Unit
  IsAcyclic active (str s) = Unit
  IsAcyclic active (list i items) =
      (contains_id i active ≡ false) × IsAcyclicItems (i ∷ active) items
  IsAcyclic active (dict i fields) =
      (contains_id i active ≡ false) × IsAcyclicFields (i ∷ active) fields
  IsAcyclic active object = Unit

  pub IsAcyclicItems : List ℕ → Items → Type 0
  IsAcyclicItems active nil = Unit
  IsAcyclicItems active (item v rest) = IsAcyclic active v × IsAcyclicItems active rest

  pub IsAcyclicFields : List ℕ → Fields → Type 0
  IsAcyclicFields active end = Unit
  IsAcyclicFields active (field k v rest) = IsAcyclic active v × IsAcyclicFields active rest

mutual
  unfolding validate_value HasJsonLeaves IsAcyclic

  validate_value_sound :
      (v : Value) (active : List ℕ)
      → validate_value v active ≡ ok tt
      → HasJsonLeaves v × IsAcyclic active v
  validate_value_sound none_value active h = (tt, tt)
  validate_value_sound (bool b) active h = (tt, tt)
  validate_value_sound (int b) active h = (tt, tt)
  validate_value_sound (float finite) active h = ground arith
  validate_value_sound (str s) active h = (tt, tt)
  validate_value_sound (list i items) active h =
      ground (arith, validate_items_sound items (i ∷ active))
  validate_value_sound (dict i fields) active h =
      ground (arith, validate_fields_sound fields (i ∷ active))
  validate_value_sound object active h = cc

  validate_items_sound :
      (xs : Items) (active : List ℕ)
      → validate_items xs active ≡ ok tt
      → HasJsonItems xs × IsAcyclicItems active xs
  validate_items_sound nil active h = (tt, tt)
  validate_items_sound (item v rest) active h =
      ground (arith, validate_value_sound v active, validate_items_sound rest active)

  validate_fields_sound :
      (fs : Fields) (active : List ℕ)
      → validate_fields fs active ≡ ok tt
      → HasJsonFields fs × IsAcyclicFields active fs
  validate_fields_sound end active h = (tt, tt)
  validate_fields_sound (field other_key v rest) active h = cc
  validate_fields_sound (field (text k) v rest) active h =
      ground (arith, validate_value_sound v active, validate_fields_sound rest active)

mutual
  unfolding validate_value HasJsonLeaves IsAcyclic

  validate_value_complete :
      (v : Value) (active : List ℕ)
      → HasJsonLeaves v
      → IsAcyclic active v
      → validate_value v active ≡ ok tt
  validate_value_complete none_value active h c = refl
  validate_value_complete (bool b) active h c = refl
  validate_value_complete (int n) active h c = refl
  validate_value_complete (float finite) active h c = ground arith
  validate_value_complete (str s) active h c = refl
  validate_value_complete (list i items) active h c =
      ground (arith, validate_items_complete items (i ∷ active) h c.1)
  validate_value_complete (dict i fields) active h c =
      ground (arith, validate_fields_complete fields (i ∷ active) h c.1)
  validate_value_complete object active h c = absurd h

  validate_items_complete :
      (xs : Items) (active : List ℕ)
      → HasJsonItems xs
      → IsAcyclicItems active xs
      → validate_items xs active ≡ ok tt
  validate_items_complete nil active h c = refl
  validate_items_complete (item v rest) active h c =
      ground (
        arith,
        validate_value_complete v active h.0 c.0,
        validate_items_complete rest active h.1 c.1,
      )

  validate_fields_complete :
      (fs : Fields) (active : List ℕ)
      → HasJsonFields fs
      → IsAcyclicFields active fs
      → validate_fields fs active ≡ ok tt
  validate_fields_complete end active h c = refl
  validate_fields_complete (field other_key v rest) active h c = absurd h
  validate_fields_complete (field (text k) v rest) active h c = ground (
    arith,
    validate_value_complete v active h.0 c.0,
    validate_fields_complete rest active h.1 c.1,
  )

-- A value is accepted as a durable JSON object exactly when it is a mapping, its leaves have a JSON
-- form, its keys are text, and no container in it stands inside itself.
pub validate_json_object_iff :
    (v : Value)
    → (validate_json_object v ≡ ok tt) ↔ ((is_dict v ≡ true) × HasJsonLeaves v × IsAcyclic [] v)
unfolding validate_json_object
validate_json_object_iff v = (
  λ h.
      let (mapping, valid) = split h in
      let (leaves, acyclic) = validate_value_sound v [] valid in (mapping, leaves, acyclic),
  λ h. join h.0 (validate_value_complete v [] h.1 h.2),
)
  where
    split :
        and_then (require (is_dict v) json_state) (validate_value v []) ≡ ok tt
        → (is_dict v ≡ true) × (validate_value v [] ≡ ok tt)
    split h = ground arith

    join :
        is_dict v ≡ true
        → validate_value v [] ≡ ok tt
        → and_then (require (is_dict v) json_state) (validate_value v []) ≡ ok tt
    join m h = ground arith
