-- ===== src/Persistence/Save.antt =====
-- persistence.py: how one snapshot of a transaction is written.
use rpacore.Base.{
  ℕ, ◌+◌, String, Bool, true, false, List, map, Option, none, some, ◌==◌, str_eq, find,
  update_where, if◌then◌else◌,
}
use rpacore.Exceptions.{definition_identity, transaction_fence, runtime_error}
use rpacore.Exec.{Result, ok, err, Exec, pure, lift, gets, modify, require, ◌>>=◌, ◌>>◌}
use rpacore.Json.Text.{JsonText}
use rpacore.Transaction.{Transaction}
use rpacore.Persistence.Tables.{insert_all, insert_ignore, insert_ignore_all, delete_where}
use rpacore.Persistence.Rows.{
  HeaderRow, StepRow, HistoryRow, MetadataRow, ArtifactRow, Database, Serialized, step_row,
  history_row, serialized_transaction, is_header, same_header, step_clash, history_clash,
  metadata_clash, artifact_clash, step_of, metadata_of, artifact_of,
}

-- The arguments of a fenced save.
pub record Fence : Type 0 where
  pub expected_revision : ℕ
  pub queue_item_id : String
  pub claim_token : String

abbrev pub same_identity : String → Option HeaderRow → Bool
same_identity identity none = true
same_identity identity (some r) = str_eq r.definition_identity identity

abbrev pub or_else : Option ℕ → Option ℕ → Option ℕ
or_else none d = d
or_else (some t) d = some t

-- The row of `INSERT OR IGNORE INTO transactions`, with the defaults of the other columns.
unfoldable pub header_row : Transaction → JsonText → HeaderRow
header_row tx state = record {
  id = tx.id;
  reference = tx.reference;
  status = tx.status;
  retry_count = tx.retry_count;
  outcome_category = tx.outcome_category;
  retry_disposition = tx.retry_disposition;
  failure_code = tx.failure_code;
  created_at = tx.created_at;
  created_at_utc = tx.created_at;
  started_at = tx.started_at;
  finished_at = tx.finished_at;
  state = state;
  definition_identity = tx.definition_identity;
  revision = 0;
  queue_item_id = "";
  claim_token = "";
}

-- The columns that both `UPDATE` statements set.
unfoldable pub set_columns : Transaction → JsonText → HeaderRow → HeaderRow
set_columns tx state r = record r {
  reference = tx.reference;
  status = tx.status;
  retry_count = tx.retry_count;
  outcome_category = tx.outcome_category;
  retry_disposition = tx.retry_disposition;
  failure_code = tx.failure_code;
  created_at = or_else r.created_at tx.created_at;
  created_at_utc = or_else r.created_at_utc tx.created_at;
  started_at = tx.started_at;
  finished_at = tx.finished_at;
  state = state;
  revision = r.revision + 1;
}

abbrev pub set_fence : Fence → HeaderRow → HeaderRow
set_fence f r = record r { queue_item_id = f.queue_item_id; claim_token = f.claim_token }

-- The condition of `WHERE id = ? AND revision = ?`, on the row with the key.
abbrev pub at_revision : ℕ → Option HeaderRow → Bool
at_revision n none = false
at_revision n (some r) = n == r.revision

-- The `UPDATE` statements; the fenced one must change a row.
unfoldable pub update_header :
    Transaction → JsonText → Option Fence → List HeaderRow → Result (List HeaderRow)
unfolding set_columns
update_header tx state none rows = ok (update_where (is_header tx.id) (set_columns tx state) rows)
update_header tx state (some f) rows =
    if at_revision f.expected_revision (find (is_header tx.id) rows)
    then ok (update_where (is_header tx.id) (λ r. set_fence f (set_columns tx state r)) rows)
    else err transaction_fence

abbrev pub revision_of : Option HeaderRow → Result ℕ
revision_of none = err runtime_error
revision_of (some r) = ok r.revision

-- Statements on one table.
abbrev pub on_headers : (List HeaderRow → Result (List HeaderRow)) → Exec Database (Unit {0})
on_headers f db = elim (f db.transactions) [
  | ok rows ↦ (ok tt, record db { transactions = rows })
  | err e ↦ (err e, db)
]

abbrev pub on_steps : (List StepRow → Result (List StepRow)) → Exec Database (Unit {0})
on_steps f db = elim (f db.steps) [
  | ok rows ↦ (ok tt, record db { steps = rows })
  | err e ↦ (err e, db)
]

abbrev pub on_metadata : (List MetadataRow → Result (List MetadataRow)) → Exec Database (Unit {0})
on_metadata f db = elim (f db.metadata) [
  | ok rows ↦ (ok tt, record db { metadata = rows })
  | err e ↦ (err e, db)
]

abbrev pub on_artifacts : (List ArtifactRow → Result (List ArtifactRow)) → Exec Database (Unit {0})
on_artifacts f db = elim (f db.artifacts) [
  | ok rows ↦ (ok tt, record db { artifacts = rows })
  | err e ↦ (err e, db)
]

abbrev pub metadata_row : String → (String × JsonText) → MetadataRow
metadata_row i kv = record { transaction_id = i; key = kv.0; value_json = kv.1 }

-- `DELETE` and then `INSERT`, for each of three tables; history is only added to.
unfoldable pub write_steps : Transaction → List StepRow → Result (List StepRow)
unfolding insert_all step_row
write_steps tx rows =
    insert_all step_clash (map (step_row tx.id) tx.steps) (delete_where (step_of tx.id) rows)

unfoldable pub write_history : Transaction → List HistoryRow → List HistoryRow
unfolding insert_ignore_all
write_history tx rows = insert_ignore_all history_clash (map (history_row tx.id) tx.history) rows

unfoldable pub write_metadata :
    Transaction → List (String × JsonText) → List MetadataRow → Result (List MetadataRow)
unfolding insert_all
write_metadata tx entries rows =
    insert_all metadata_clash (map (metadata_row tx.id) entries)
      (delete_where (metadata_of tx.id) rows)

unfoldable pub write_artifacts :
    Transaction → List ArtifactRow → List ArtifactRow → Result (List ArtifactRow)
unfolding insert_all
write_artifacts tx new rows = insert_all artifact_clash new (delete_where (artifact_of tx.id) rows)

-- `_write_transaction_rows`
unfoldable pub write_transaction_rows : Transaction → Serialized → Option Fence → Exec Database ℕ
unfolding header_row update_header write_steps write_history write_metadata write_artifacts
write_transaction_rows tx s fence = do
  stored ← gets (λ (db : Database). find (is_header tx.id) db.transactions)
  lift (require (same_identity tx.definition_identity stored) definition_identity)
  modify (λ db. record db {
    transactions = insert_ignore same_header (header_row tx s.state_json) db.transactions;
  })
  on_headers (update_header tx s.state_json fence)
  on_steps (write_steps tx)
  modify (λ db. record db { history = write_history tx db.history })
  on_metadata (write_metadata tx s.metadata_json)
  on_artifacts (write_artifacts tx s.rows)
  row ← gets (λ (db : Database). find (is_header tx.id) db.transactions)
  lift (revision_of row)

-- `with conn:`, which takes everything back when the body raises.
abbrev pub atomic {ℓ} : {A : Type ℓ} → Exec Database A → Exec Database A
atomic m db = let (r, db') = m db in elim r [ ok a ↦ (ok a, db') | err e ↦ (err e, db) ]

-- A save with or without a fence, which returns the new revision.
unfoldable pub save_rows : Transaction → Option Fence → Exec Database ℕ
unfolding serialized_transaction write_transaction_rows
save_rows tx fence db = elim (serialized_transaction tx) [
  | ok s ↦ atomic (write_transaction_rows tx s fence) db
  | err e ↦ (err e, db)
]

-- `save_transaction`
unfoldable pub save_transaction : Transaction → Exec Database (Unit {0})
unfolding save_rows
save_transaction tx = do save_rows tx none; pure tt
