-- ===== src/Persistence/Written.antt =====
-- What a save that returned has written, table by table.
use rpacore.Base.{ℕ, ◌≡◌, true, Option, arith, find}
use rpacore.Exec.{ok}
use rpacore.Transaction.{Transaction}
use rpacore.Persistence.Tables.{insert_ignore}
use rpacore.Persistence.Rows.{Database, Serialized, is_header, same_header}
use rpacore.Persistence.Save.{
  Fence, header_row, update_header, write_steps, write_history, write_metadata, write_artifacts,
  write_transaction_rows, revision_of, same_identity,
}

-- The rows behind a save, which each statement has returned.
pub record IsWritten (tx : Transaction) (s : Serialized) (fence : Option Fence) (db out : Database)
    (n : ℕ) : Type 0 where
  pub identity_same :
      same_identity tx.definition_identity (find (is_header tx.id) db.transactions) ≡ true
  pub headers :
      update_header tx s.state_json fence
        (insert_ignore same_header (header_row tx s.state_json) db.transactions)
      ≡ ok out.transactions
  pub steps : write_steps tx db.steps ≡ ok out.steps
  pub history : out.history ≡ write_history tx db.history
  pub metadata : write_metadata tx s.metadata_json db.metadata ≡ ok out.metadata
  pub artifacts : write_artifacts tx s.rows db.artifacts ≡ ok out.artifacts
  pub revision : revision_of (find (is_header tx.id) out.transactions) ≡ ok n

module _ (tx : Transaction) (s : Serialized) (fence : Option Fence) (db : Database) {n : ℕ} where
  pub write_transaction_rows-IsWritten :
      (write_transaction_rows tx s fence db).0 ≡ ok n
      → IsWritten tx s fence db (write_transaction_rows tx s fence db).1 n
  unfolding write_transaction_rows
  write_transaction_rows-IsWritten h = record {
    identity_same = ground arith;
    headers = ground arith;
    steps = ground arith;
    history = ground arith;
    metadata = ground arith;
    artifacts = ground arith;
    revision = ground arith;
  }
