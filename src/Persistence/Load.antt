-- ===== src/Persistence/Load.antt =====
-- _transaction_read.py and `load_transaction`: a transaction is captured as rows, and then decoded.
-- The steps that a load makes are new objects, numbered from a given identity.
use rpacore.Base.{
  ℕ, ◌+◌, String, Bool, false, List, [], ◌∷◌, map, none, some, leb, leb_ℤ, codes, text_before,
  filter, find, sort_by,
}
use rpacore.Exceptions.{StepException, halts_of, key_error, system_exception}
use rpacore.Exec.{Result, ok, err}
use rpacore.FailureCode.{validate_failure_code}
use rpacore.Definition.{validate_definition_identity}
use rpacore.Json.{Value, Fields, text, dict, end, field, validate_json_object}
use rpacore.Json.Text.{JsonText, loads}
use rpacore.Transaction.{Step, HistoryEntry, Artifact, Transaction}
use rpacore.Persistence.Rows.{
  HeaderRow, StepRow, HistoryRow, MetadataRow, ArtifactRow, Database, then_ok, is_header, step_of,
  history_of, metadata_of, artifact_of,
}

-- `_TransactionRows`
pub record TransactionRows : Type 0 where
  pub header : HeaderRow
  pub steps : List StepRow
  pub history : List HistoryRow
  pub metadata : List MetadataRow
  pub artifacts : List ArtifactRow

abbrev pub order_before : StepRow → StepRow → Bool
order_before a b = leb_ℤ a.execution_order b.execution_order

abbrev pub sequence_before : HistoryRow → HistoryRow → Bool
sequence_before a b = leb a.entry.sequence b.entry.sequence

abbrev pub key_row_before : MetadataRow → MetadataRow → Bool
key_row_before a b = text_before (codes a.key) (codes b.key)

abbrev pub artifact_before : ArtifactRow → ArtifactRow → Bool
artifact_before a b = leb a.sequence b.sequence

-- `_read_transaction_rows`
unfoldable pub read_transaction_rows : String → Database → Result TransactionRows
unfolding text_before
read_transaction_rows i db = elim (find (is_header i) db.transactions) [
  | none ↦ err key_error
  | some header ↦ ok (record {
    header = header;
    steps = sort_by order_before (filter (step_of i) db.steps);
    history = sort_by sequence_before (filter (history_of i) db.history);
    metadata = sort_by key_row_before (filter (metadata_of i) db.metadata);
    artifacts = sort_by artifact_before (filter (artifact_of i) db.artifacts);
  })
]

-- `json.loads` and `validate_json_object`, both with `SystemException` for what they raise.
unfoldable pub load_object : JsonText → Result Value
unfolding loads validate_json_object
load_object t = elim (loads 0 t) [
  | none ↦ err system_exception
  | some v ↦ elim (validate_json_object v) [ ok _ ↦ ok v | err _ ↦ err system_exception ]
]

-- An exception object behind its row; its constructor checks the code.
unfoldable pub load_exception : StepException → Result StepException
unfolding validate_failure_code
load_exception e =
    then_ok (validate_failure_code e.code)
      (λ _. ok (record e { halts_flag = halts_of e.kind e.halts_flag }))

unfoldable pub load_exceptions : List StepException → Result (List StepException)
unfolding load_exception
load_exceptions [] = ok []
load_exceptions (e ∷ es) =
    let rest = load_exceptions es in
    then_ok (load_exception e) (λ x. then_ok rest (λ xs. ok (x ∷ xs)))

-- `_load_step_arguments`, and the step behind its row.
unfoldable pub load_step : ℕ → StepRow → Result Step
unfolding load_object load_exceptions
load_step ident r = then_ok (load_object r.arguments) (λ arguments.
    then_ok (load_exceptions r.exceptions) (λ exceptions. ok (record {
      ident = ident;
      name = r.name;
      execution_order = r.execution_order;
      status = r.status;
      arguments = arguments;
      exceptions = exceptions;
    })))

unfoldable pub load_steps : ℕ → List StepRow → Result (List Step)
unfolding load_step
load_steps ident [] = ok []
load_steps ident (r ∷ rs) =
    let rest = load_steps (ident + 1) rs in
    then_ok (load_step ident r) (λ s. then_ok rest (λ ss. ok (s ∷ ss)))

-- `_load_history`
abbrev pub load_history : List HistoryRow → List HistoryEntry
load_history rows = map (λ (r : HistoryRow). r.entry) rows

-- One value of `_load_metadata`, checked in a mapping of its own.
unfoldable pub load_entry : MetadataRow → Result Value
unfolding loads validate_json_object
load_entry r = elim (loads 1 r.value_json) [
  | none ↦ err system_exception
  | some v ↦ elim (validate_json_object (dict 0 (field (text r.key) v end))) [
    | ok _ ↦ ok v
    | err _ ↦ err system_exception
  ]
]

unfoldable pub load_fields : List MetadataRow → Result Fields
unfolding load_entry
load_fields [] = ok end
load_fields (r ∷ rs) =
    let rest = load_fields rs in
    then_ok (load_entry r) (λ v. then_ok rest (λ fields. ok (field (text r.key) v fields)))

-- `_load_metadata`
unfoldable pub load_metadata : List MetadataRow → Result Value
unfolding load_fields
load_metadata rows = then_ok (load_fields rows) (λ fields. ok (dict 0 fields))

-- `_load_artifacts` with `_load_artifact_metadata`
unfoldable pub load_artifact : ArtifactRow → Result Artifact
unfolding load_object
load_artifact r = then_ok (load_object r.metadata) (λ metadata. ok (record {
  name = r.name;
  path = r.path;
  kind = r.kind;
  id = r.id;
  created_at = r.created_at;
  metadata = metadata;
}))

unfoldable pub load_artifacts : List ArtifactRow → Result (List Artifact)
unfolding load_artifact
load_artifacts [] = ok []
load_artifacts (r ∷ rs) =
    let rest = load_artifacts rs in
    then_ok (load_artifact r) (λ a. then_ok rest (λ as'. ok (a ∷ as')))

-- `_transaction_from_rows`, with the checks of the constructor of `Transaction`.
unfoldable pub transaction_from_rows : ℕ → TransactionRows → Result Transaction
unfolding load_object load_steps load_metadata load_artifacts validate_definition_identity
transaction_from_rows ident rows = then_ok (load_object rows.header.state) (λ state.
    then_ok (load_steps ident rows.steps) (λ steps.
      then_ok (load_metadata rows.metadata) (λ metadata.
        then_ok (load_artifacts rows.artifacts) (λ artifacts.
          then_ok (validate_failure_code rows.header.failure_code) (λ _.
            then_ok (validate_definition_identity (some rows.header.definition_identity) false)
              (λ _. ok (record {
                reference = rows.header.reference;
                id = rows.header.id;
                status = rows.header.status;
                retry_count = rows.header.retry_count;
                created_at = rows.header.created_at;
                started_at = rows.header.started_at;
                finished_at = rows.header.finished_at;
                state = state;
                metadata = metadata;
                artifacts = artifacts;
                steps = steps;
                history = load_history rows.history;
                outcome_category = rows.header.outcome_category;
                retry_disposition = rows.header.retry_disposition;
                failure_code = rows.header.failure_code;
                definition_identity = rows.header.definition_identity;
              })))))))

abbrev pub with_revision : ℕ → Result Transaction → Result (Transaction × ℕ)
with_revision revision (ok tx) = ok (tx, revision)
with_revision revision (err e) = err e

-- `_load_transaction_with_revision`
unfoldable pub load_transaction_with_revision : ℕ → String → Database → Result (Transaction × ℕ)
unfolding read_transaction_rows transaction_from_rows
load_transaction_with_revision ident i db =
    then_ok (read_transaction_rows i db)
      (λ rows. with_revision rows.header.revision (transaction_from_rows ident rows))

-- `load_transaction`
unfoldable pub load_transaction : ℕ → String → Database → Result Transaction
unfolding load_transaction_with_revision
load_transaction ident i db =
    then_ok (load_transaction_with_revision ident i db) (λ found. ok (found.0))
