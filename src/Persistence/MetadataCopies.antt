-- ===== src/Persistence/MetadataCopies.antt =====
-- Metadata that is written row by row and read by its keys is the mapping with sorted keys.
use rpacore.Base.{
  ℕ, ◌≡◌, refl, sym, ap, ◌∙◌, inl, inr, String, List, [], ◌∷◌, map, arith, Bool-cases, codes,
  text_before, sort_by, insert_by,
}
use rpacore.Exec.{ok}
use rpacore.Json.{
  Value, Fields, text, other_key, none_value, bool, int, float, str, list, dict, object, end, field,
  validate_value, validate_fields, validate_json_object,
}
use rpacore.Json.Text.{
  JsonText, json, fresh_value, fresh_fields, insert_field, sort_keys, sort_fields, canonical_json,
  loads, key_before,
}
use rpacore.Json.Text.Loading.{fresh_value-valid, fresh_value_twice, sort_fields-valid}
use rpacore.Persistence.Rows.{MetadataRow, canonical_entries, metadata_to_storage}
use rpacore.Persistence.Save.{metadata_row}
use rpacore.Persistence.Load.{key_row_before, load_entry, load_fields, load_metadata}

-- The rows of a mapping's fields, as they are.
rows_of : String → Fields → List MetadataRow
unfolding fresh_value
rows_of i end = []
rows_of i (field (text k) v rest) = metadata_row i (k, json (fresh_value 0 v)) ∷ rows_of i rest
rows_of i (field other_key v rest) = rows_of i rest

abbrev HasTextKeys : Fields → Type 0
HasTextKeys end = Unit
HasTextKeys (field (text k) v rest) = HasTextKeys rest
HasTextKeys (field other_key v rest) = ⊥

valid-HasTextKeys :
    (fs : Fields) (active : List ℕ) → validate_fields fs active ≡ ok tt → HasTextKeys fs
unfolding validate_value
valid-HasTextKeys end active h = tt
valid-HasTextKeys (field (text k) v rest) active h =
    (valid-HasTextKeys rest active (ground (arith, h)))
valid-HasTextKeys (field other_key v rest) active h = cc

insert_field-HasTextKeys :
    (k : String) (v : Value) (fs : Fields)
    → HasTextKeys fs
    → HasTextKeys (insert_field (text k) v fs)
unfolding insert_field
insert_field-HasTextKeys k v end h = tt
insert_field-HasTextKeys k v (field (text l) w rest) h =
    elim (Bool-cases (key_before (text k) (text l))) [
      | inl e ↦ rw e h
      | inr e ↦ rw e ((insert_field-HasTextKeys k v rest h))
    ]
insert_field-HasTextKeys k v (field other_key w rest) h = absurd h

sort_fields-HasTextKeys : (fs : Fields) → HasTextKeys fs → HasTextKeys (sort_fields fs)
unfolding sort_keys
sort_fields-HasTextKeys end h = tt
sort_fields-HasTextKeys (field (text k) v rest) h =
    insert_field-HasTextKeys k (sort_keys v) (sort_fields rest) (sort_fields-HasTextKeys rest h)
sort_fields-HasTextKeys (field other_key v rest) h = absurd h

rows_of-insert_field :
    (i k : String) (v : Value) (fs : Fields)
    → HasTextKeys fs
    → insert_by key_row_before (metadata_row i (k, json (fresh_value 0 v))) (rows_of i fs)
      ≡ rows_of i (insert_field (text k) v fs)
unfolding rows_of insert_field
rows_of-insert_field i k v end h = refl
rows_of-insert_field i k v (field (text l) w rest) h =
    elim (Bool-cases (text_before (codes k) (codes l))) [
      | inl e ↦ rw e refl
      | inr e ↦ rw (e, rows_of-insert_field i k v rest h) refl
    ]
rows_of-insert_field i k v (field other_key w rest) h = absurd h

-- Sorted by their keys, the rows are those of the mapping with sorted keys.
sort_by-rows_of :
    (i : String) (fs : Fields)
    → HasTextKeys fs
    → sort_by key_row_before (map (metadata_row i) (canonical_entries fs))
      ≡ rows_of i (sort_fields fs)
unfolding rows_of canonical_entries canonical_json sort_keys
sort_by-rows_of i end h = refl
sort_by-rows_of i (field (text k) v rest) h =
    rw (sort_by-rows_of i rest h)
      (rows_of-insert_field i k (sort_keys v) (sort_fields rest) (sort_fields-HasTextKeys rest h))
sort_by-rows_of i (field other_key v rest) h = absurd h

load_entry-row :
    (i k : String) (v : Value) (active : List ℕ)
    → validate_value v active ≡ ok tt
    → load_entry (metadata_row i (k, json (fresh_value 0 v))) ≡ ok (fresh_value 1 v)
unfolding load_entry loads validate_json_object validate_value
load_entry-row i k v active h =
    ground
      (arith, fresh_value_twice 1 0 v, fresh_value-valid 1 v active (0 ∷ []) (omega arith, tt) h)

load_fields-rows_of :
    (i : String) (fs : Fields) (active : List ℕ)
    → validate_fields fs active ≡ ok tt
    → load_fields (rows_of i fs) ≡ ok (fresh_fields 1 fs)
unfolding load_fields rows_of validate_value fresh_value
load_fields-rows_of i end active h = refl
load_fields-rows_of i (field (text k) v rest) active h =
    rw
      (
        load_entry-row i k v active (ground (arith, h)),
        load_fields-rows_of i rest active (ground (arith, h)),
      )
      refl
load_fields-rows_of i (field other_key v rest) active h = cc

-- Written by `_metadata_to_storage` and read by `_load_metadata`.
pub load_metadata-sorted :
    (i : String) (m : Value) {entries : List (String × JsonText)}
    → metadata_to_storage m ≡ ok entries
    → load_metadata (sort_by key_row_before (map (metadata_row i) entries))
      ≡ ok (fresh_value 0 (sort_keys m))
unfolding metadata_to_storage validate_json_object validate_value load_metadata fresh_value
load_metadata-sorted i (dict j fs) {entries} h =
    ap (λ es. load_metadata (sort_by key_row_before (map (metadata_row i) es))) (sym same)
    ∙ rw
        (
          sort_by-rows_of i fs (valid-HasTextKeys fs (j ∷ []) fields_valid),
          load_fields-rows_of i (sort_fields fs) (j ∷ []) sorted_valid,
        )
        refl
  where
    fields_valid : validate_fields fs (j ∷ []) ≡ ok tt
    fields_valid = ground (arith, h)

    same : canonical_entries fs ≡ entries
    same = ground (arith, h)

    sorted_valid : validate_fields (sort_fields fs) (j ∷ []) ≡ ok tt
    sorted_valid = sort_fields-valid fs (j ∷ []) fields_valid
load_metadata-sorted i none_value h = cc
load_metadata-sorted i (bool b) h = cc
load_metadata-sorted i (int n) h = cc
load_metadata-sorted i (float finite) h = cc
load_metadata-sorted i (str s) h = cc
load_metadata-sorted i (list j items) h = cc
load_metadata-sorted i object h = cc
