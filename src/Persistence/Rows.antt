-- ===== src/Persistence/Rows.antt =====
-- persistence.py: the tables, and the rows that a transaction is written as.
-- The rows of `exceptions` stand in the row of their step, which deletes them with it. Times are
-- aware ones in microseconds, none for an empty or missing text, and counts fit SQLite's integers.
use rpacore.Base.{
  ℕ, zero, suc, ◌+◌, ◌/◌, ◌%◌, ℤ, pos, negsuc, String, Bool, ◌&&◌, ◌||◌, List, [], ◌∷◌, ◌++◌, map,
  Option, ◌==◌, eq_ℤ, ltb, str_eq, codes, if◌then◌else◌,
}
use rpacore.Status.{Status, OutcomeCategory, RetryDisposition}
use rpacore.Exceptions.{StepException, halts_remaining_steps}
use rpacore.Exec.{Result, ok, err}
use rpacore.Definition.{same_codes}
use rpacore.Json.{Key, Value, Fields, text, other_key, dict, end, field, validate_json_object}
use rpacore.Json.Text.{JsonText, dumps, canonical_json}
use rpacore.Transaction.{Step, HistoryEntry, Artifact, Transaction, validate_for_execution}

pub record HeaderRow : Type 0 where
  pub id : String
  pub reference : String
  pub status : Status
  pub retry_count : ℕ
  pub outcome_category : OutcomeCategory
  pub retry_disposition : RetryDisposition
  pub failure_code : String
  pub created_at : Option ℕ
  pub created_at_utc : Option ℕ
  pub started_at : Option ℕ
  pub finished_at : Option ℕ
  pub state : JsonText
  pub definition_identity : String
  pub revision : ℕ
  pub queue_item_id : String
  pub claim_token : String

pub record StepRow : Type 0 where
  pub id : List ℕ  -- the characters of the text
  pub transaction_id : String
  pub name : String
  pub execution_order : ℤ
  pub status : Status
  pub arguments : JsonText
  pub exceptions : List StepException  -- `halts_flag` is the column `halts_remaining_steps`

pub record HistoryRow : Type 0 where
  pub transaction_id : String
  pub entry : HistoryEntry

pub record MetadataRow : Type 0 where
  pub transaction_id : String
  pub key : String
  pub value_json : JsonText

pub record ArtifactRow : Type 0 where
  pub transaction_id : String
  pub sequence : ℕ
  pub id : String
  pub name : String
  pub path : String
  pub kind : String
  pub created_at : ℕ
  pub metadata : JsonText

pub record Database : Type 0 where
  pub transactions : List HeaderRow
  pub steps : List StepRow
  pub history : List HistoryRow
  pub metadata : List MetadataRow
  pub artifacts : List ArtifactRow

-- The decimal digits of a number; a number has no more digits than one more than itself.
unfoldable pub digits : ℕ → ℕ → List ℕ
digits zero n = []
digits (suc fuel) n =
    let rest = digits fuel (n / 10) in
    if ltb n 10 then (48 + n) ∷ [] else rest ++ ((48 + n % 10) ∷ [])

-- The text of an integer.
unfoldable pub decimal : ℤ → List ℕ
unfolding digits
decimal (pos n) = digits (n + 1) n
decimal (negsuc n) = 45 ∷ digits (n + 2) (n + 1)

-- `_step_id`
unfoldable pub step_id : String → Step → List ℕ
unfolding decimal
step_id transaction_id s =
    codes transaction_id ++ (58 ∷ (codes s.name ++ (58 ∷ decimal s.execution_order)))

abbrev pub exception_row : StepException → StepException
exception_row e = record e { halts_flag = halts_remaining_steps e }

unfoldable pub step_row : String → Step → StepRow
unfolding step_id dumps
step_row transaction_id s = record {
  id = step_id transaction_id s;
  transaction_id = transaction_id;
  name = s.name;
  execution_order = s.execution_order;
  status = s.status;
  arguments = dumps s.arguments;
  exceptions = map exception_row s.exceptions;
}

abbrev pub history_row : String → HistoryEntry → HistoryRow
history_row transaction_id e = record { transaction_id = transaction_id; entry = e }

abbrev pub cons_entry : Key → JsonText → List (String × JsonText) → List (String × JsonText)
cons_entry (text k) v rest = (k, v) ∷ rest
cons_entry other_key v rest = rest

-- `{key: _canonical_json(value) for key, value in metadata.items()}`
unfoldable pub canonical_entries : Fields → List (String × JsonText)
unfolding canonical_json
canonical_entries end = []
canonical_entries (field k v rest) = cons_entry k (canonical_json v) (canonical_entries rest)

abbrev pub fields_of : Value → Fields
fields_of (dict i fields) = fields
fields_of _ = end

abbrev pub then_ok {ℓ κ} : {A : Type ℓ} {B : Type κ} → Result A → (A → Result B) → Result B
then_ok (ok a) f = f a
then_ok (err e) f = err e

-- `_metadata_to_storage`
unfoldable pub metadata_to_storage : Value → Result (List (String × JsonText))
unfolding canonical_entries validate_json_object
metadata_to_storage metadata =
    then_ok (validate_json_object metadata) (λ _. ok (canonical_entries (fields_of metadata)))

-- `_artifact_metadata_to_storage`
unfoldable pub artifact_metadata_to_storage : Artifact → Result JsonText
unfolding canonical_json validate_json_object
artifact_metadata_to_storage a =
    then_ok (validate_json_object a.metadata) (λ _. ok (canonical_json a.metadata))

abbrev pub artifact_row : String → ℕ → Artifact → JsonText → ArtifactRow
artifact_row transaction_id sequence a metadata = record {
  transaction_id = transaction_id;
  sequence = sequence;
  id = a.id;
  name = a.name;
  path = a.path;
  kind = a.kind;
  created_at = a.created_at;
  metadata = metadata;
}

-- The rows of the artifacts, numbered from one more than the given number.
unfoldable pub artifact_rows : String → ℕ → List Artifact → Result (List ArtifactRow)
unfolding artifact_metadata_to_storage
artifact_rows transaction_id index [] = ok []
artifact_rows transaction_id index (a ∷ as') =
    let rest = artifact_rows transaction_id (index + 1) as' in
    then_ok (artifact_metadata_to_storage a) (λ metadata.
      then_ok rest (λ rows. ok (artifact_row transaction_id (index + 1) a metadata ∷ rows)))

pub record Serialized : Type 0 where
  pub state_json : JsonText
  pub metadata_json : List (String × JsonText)
  pub rows : List ArtifactRow

-- `_serialized_transaction`
unfoldable pub serialized_transaction : Transaction → Result Serialized
unfolding validate_for_execution dumps metadata_to_storage artifact_rows
serialized_transaction tx = then_ok (validate_for_execution tx) (λ _.
    then_ok (metadata_to_storage tx.metadata) (λ metadata.
      then_ok (artifact_rows tx.id 0 tx.artifacts) (λ rows.
        ok (record { state_json = dumps tx.state; metadata_json = metadata; rows = rows }))))

-- The keys of the tables.
abbrev pub is_header : String → HeaderRow → Bool
is_header i r = str_eq r.id i

abbrev pub same_header : HeaderRow → HeaderRow → Bool
same_header a b = str_eq b.id a.id

abbrev pub step_clash : StepRow → StepRow → Bool
step_clash a b =
    same_codes b.id a.id
    || (str_eq b.transaction_id a.transaction_id
        && str_eq b.name a.name
        && eq_ℤ b.execution_order a.execution_order)

abbrev pub history_clash : HistoryRow → HistoryRow → Bool
history_clash a b = str_eq b.transaction_id a.transaction_id && a.entry.sequence == b.entry.sequence

abbrev pub metadata_clash : MetadataRow → MetadataRow → Bool
metadata_clash a b = str_eq b.transaction_id a.transaction_id && str_eq b.key a.key

abbrev pub artifact_clash : ArtifactRow → ArtifactRow → Bool
artifact_clash a b =
    str_eq b.transaction_id a.transaction_id && (str_eq b.id a.id || a.sequence == b.sequence)

-- `WHERE transaction_id = ?`
abbrev pub step_of : String → StepRow → Bool
step_of i r = str_eq r.transaction_id i

abbrev pub history_of : String → HistoryRow → Bool
history_of i r = str_eq r.transaction_id i

abbrev pub metadata_of : String → MetadataRow → Bool
metadata_of i r = str_eq r.transaction_id i

abbrev pub artifact_of : String → ArtifactRow → Bool
artifact_of i r = str_eq r.transaction_id i
