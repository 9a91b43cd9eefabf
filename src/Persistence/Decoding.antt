-- ===== src/Persistence/Decoding.antt =====
-- The rows behind a save are decoded as the copy of the transaction.
use rpacore.Base.{
  ℕ, ◌≡◌, refl, sym, ap, ◌∙◌, subst, false, List, ◌++◌, map, Option, none, some, arith, sort_by,
}
use rpacore.Exec.{ok}
use rpacore.FailureCode.{validate_failure_code}
use rpacore.Definition.{validate_definition_identity}
use rpacore.Json.{validate_json_object}
use rpacore.Json.Text.{dumps}
use rpacore.Transaction.{
  HistoryEntry, Transaction, validate_arguments, validate_durable_data, validate_for_execution,
}
use rpacore.Engine.Audit.{IsNumbered}
use rpacore.Persistence.Tables.{insert_ignore_all}
use rpacore.Persistence.Rows.{
  HeaderRow, Serialized, step_row, history_row, history_clash, artifact_rows, metadata_to_storage,
  serialized_transaction,
}
use rpacore.Persistence.Save.{Fence, set_columns, or_else, metadata_row}
use rpacore.Persistence.Load.{
  TransactionRows, transaction_from_rows, load_history, order_before, sequence_before,
  key_row_before, artifact_before,
}
use rpacore.Persistence.View.{View, stamp}
use rpacore.Persistence.Copies.{copied}
use rpacore.Persistence.MetadataCopies.{load_metadata-sorted}
use rpacore.Persistence.ArtifactCopies.{load_artifacts-sorted}
use rpacore.Persistence.StepCopies.{HaveCodes, load_object-dumps, load_steps-sorted}
use rpacore.Persistence.HistoryCopies.{load_history-sorted}

abbrev pub created_of : Option HeaderRow → Option ℕ
created_of none = none
created_of (some r) = r.created_at

-- What is stored of the transaction, if anything, is an earlier state of it: its creation time is
-- the same, and the history goes on from the stored one.
pub record IsEarlier (tx : Transaction) (v : View) : Type 0 where
  pub created : or_else (created_of v.header) tx.created_at ≡ tx.created_at
  pub old : List HistoryEntry
  pub new : List HistoryEntry
  pub stored : v.history ≡ map (history_row tx.id) old
  pub goes_on : tx.history ≡ old ++ new
  pub numbered : IsNumbered 1 tx.history

-- The parts of a serialized transaction.
pub record IsSerialized (tx : Transaction) (s : Serialized) : Type 0 where
  pub state_json : s.state_json ≡ dumps tx.state
  pub metadata_json : metadata_to_storage tx.metadata ≡ ok s.metadata_json
  pub rows : artifact_rows tx.id 0 tx.artifacts ≡ ok s.rows
  pub durable : validate_durable_data tx ≡ ok tt

pub serialized_transaction-IsSerialized :
    (tx : Transaction) {s : Serialized} → serialized_transaction tx ≡ ok s → IsSerialized tx s
unfolding serialized_transaction validate_for_execution
serialized_transaction-IsSerialized tx h = record {
  state_json = ground arith;
  metadata_json = ground arith;
  rows = ground arith;
  durable = ground arith;
}

pub record IsDurable (tx : Transaction) : Type 0 where
  pub code : validate_failure_code tx.failure_code ≡ ok tt
  pub identity : validate_definition_identity (some tx.definition_identity) false ≡ ok tt
  pub state : validate_json_object tx.state ≡ ok tt
  pub arguments : validate_arguments tx.steps ≡ ok tt

pub validate_durable_data-IsDurable :
    (tx : Transaction) → validate_durable_data tx ≡ ok tt → IsDurable tx
unfolding validate_durable_data
validate_durable_data-IsDurable tx h = record {
  code = ground arith;
  identity = ground arith;
  state = ground arith;
  arguments = ground arith;
}

module _ (tx : Transaction) (s : Serialized) (v : View) (ident : ℕ) (parts : IsSerialized tx s)
    (durable : IsDurable tx) (codes_hold : HaveCodes tx.steps) (earlier : IsEarlier tx v) where
  -- The header behind the save, where its immutable columns are those of the transaction.
  unfoldable pub header_for : Option Fence → HeaderRow → HeaderRow
  unfolding set_columns
  header_for fence r = stamp fence (record (set_columns tx s.state_json r) {
    id = tx.id;
    definition_identity = tx.definition_identity;
    created_at = tx.created_at;
  })

  unfoldable pub rows_for : HeaderRow → TransactionRows
  unfolding step_row insert_ignore_all
  rows_for header = record {
    header = header;
    steps = sort_by order_before (map (step_row tx.id) tx.steps);
    history =
        sort_by sequence_before
          (insert_ignore_all history_clash (map (history_row tx.id) tx.history) v.history);
    metadata = sort_by key_row_before (map (metadata_row tx.id) s.metadata_json);
    artifacts = sort_by artifact_before s.rows;
  }

  history_back :
      load_history (
        sort_by sequence_before
          (insert_ignore_all history_clash (map (history_row tx.id) tx.history) v.history))
      ≡ tx.history
  history_back =
      ap both earlier.goes_on
      ∙ ap
          (λ rows. load_history (
            sort_by sequence_before (
              insert_ignore_all history_clash (map (history_row tx.id) (earlier.old ++ earlier.new))
                rows)))
          earlier.stored
      ∙ load_history-sorted tx.id earlier.old earlier.new
          (subst (IsNumbered 1) earlier.goes_on earlier.numbered)
      ∙ sym earlier.goes_on
    where
      both : List HistoryEntry → List HistoryEntry
      both es = load_history (
          sort_by sequence_before
            (insert_ignore_all history_clash (map (history_row tx.id) es) v.history))

  pub decoded :
      (fence : Option Fence) (r : HeaderRow)
      → transaction_from_rows ident (rows_for (header_for fence r)) ≡ ok (copied ident tx)
  unfolding transaction_from_rows rows_for header_for set_columns copied
  decoded none r =
      rw
        (
          parts.state_json,
          load_object-dumps tx.state durable.state,
          load_steps-sorted tx.id ident tx durable.arguments codes_hold,
          load_metadata-sorted tx.id tx.metadata parts.metadata_json,
          load_artifacts-sorted tx.id tx.artifacts parts.rows,
          durable.code,
          durable.identity,
          history_back,
        )
        refl
  decoded (some f) r =
      rw
        (
          parts.state_json,
          load_object-dumps tx.state durable.state,
          load_steps-sorted tx.id ident tx durable.arguments codes_hold,
          load_metadata-sorted tx.id tx.metadata parts.metadata_json,
          load_artifacts-sorted tx.id tx.artifacts parts.rows,
          durable.code,
          durable.identity,
          history_back,
        )
        refl
