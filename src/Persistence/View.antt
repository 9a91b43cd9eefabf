-- ===== src/Persistence/View.antt =====
-- The database as a map from transactions to their rows, and what a save does to one of them.
use rpacore.Base.{
  ◌≡◌, refl, String, List, map, Option, none, some, str_eq, filter, find, sort_by, if◌then◌else◌,
}
use rpacore.Exec.{Result, ok, err}
use rpacore.Exceptions.{key_error}
use rpacore.Json.Text.{JsonText}
use rpacore.Transaction.{Transaction}
use rpacore.Persistence.Tables.{insert_ignore_all, or_new}
use rpacore.Persistence.Rows.{
  HeaderRow, StepRow, HistoryRow, MetadataRow, ArtifactRow, Database, Serialized, step_row,
  history_row, is_header, history_clash, step_of, history_of, metadata_of, artifact_of,
}
use rpacore.Persistence.Save.{Fence, header_row, set_columns, set_fence, metadata_row}
use rpacore.Persistence.Load.{
  TransactionRows, read_transaction_rows, order_before, sequence_before, key_row_before,
  artifact_before,
}

-- The rows of one transaction, in the order of their tables.
pub record View : Type 0 where
  pub header : Option HeaderRow
  pub steps : List StepRow
  pub history : List HistoryRow
  pub metadata : List MetadataRow
  pub artifacts : List ArtifactRow

unfoldable pub view : Database → String → View
view db i = record {
  header = find (is_header i) db.transactions;
  steps = filter (step_of i) db.steps;
  history = filter (history_of i) db.history;
  metadata = filter (metadata_of i) db.metadata;
  artifacts = filter (artifact_of i) db.artifacts;
}

abbrev pub stamp : Option Fence → HeaderRow → HeaderRow
stamp none r = r
stamp (some f) r = set_fence f r

-- The header behind a save: the new columns and the next revision, over the old row or a new one.
unfoldable pub saved_header : Transaction → JsonText → Option Fence → Option HeaderRow → HeaderRow
unfolding header_row set_columns
saved_header tx state fence old =
    stamp fence (set_columns tx state (or_new (header_row tx state) old))

-- The rows behind a save: those of the snapshot, and the history that was there with what is new.
unfoldable pub saved : Transaction → Serialized → Option Fence → View → View
unfolding saved_header step_row insert_ignore_all
saved tx s fence old = record {
  header = some (saved_header tx s.state_json fence old.header);
  steps = map (step_row tx.id) tx.steps;
  history = insert_ignore_all history_clash (map (history_row tx.id) tx.history) old.history;
  metadata = map (metadata_row tx.id) s.metadata_json;
  artifacts = s.rows;
}

-- A map, changed at one key.
abbrev pub change : (String → View) → String → View → String → View
change f i v j = if str_eq i j then v else f j

sorted_with : Option HeaderRow → View → Result TransactionRows
sorted_with none v = err key_error
sorted_with (some header) v = ok (record {
  header = header;
  steps = sort_by order_before v.steps;
  history = sort_by sequence_before v.history;
  metadata = sort_by key_row_before v.metadata;
  artifacts = sort_by artifact_before v.artifacts;
})

-- The rows that a load captures.
unfoldable pub sorted : View → Result TransactionRows
unfolding sorted_with
sorted v = sorted_with v.header v

pub read_transaction_rows-view :
    (i : String) (db : Database) → read_transaction_rows i db ≡ sorted (view db i)
unfolding read_transaction_rows sorted view sorted_with
read_transaction_rows-view i db = go (find (is_header i) db.transactions)
  where
    go :
        (o : Option HeaderRow)
        → elim o [
          | none ↦ err key_error
          | some header ↦ ok (record {
            header = header;
            steps = sort_by order_before (filter (step_of i) db.steps);
            history = sort_by sequence_before (filter (history_of i) db.history);
            metadata = sort_by key_row_before (filter (metadata_of i) db.metadata);
            artifacts = sort_by artifact_before (filter (artifact_of i) db.artifacts);
          })
        ]
          ≡ sorted_with o (view db i)
    go none = refl
    go (some header) = refl
