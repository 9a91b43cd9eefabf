-- ===== src/Persistence/QueryTests.antt =====
-- Examples: three stored transactions, read in two pages.
use rpacore.Base.{
  ℕ, ◌+◌, pos, ◌≡◌, refl, arith, String, Bool, true, false, [], ◌∷◌, List, Option, none, some,
}
use rpacore.Status.{Status, OutcomeCategory, RetryDisposition}
use rpacore.Exceptions.{value_error}
use rpacore.Exec.{ok, err}
use rpacore.Json.{dict, end}
use rpacore.Json.Text.{JsonText, json}
use rpacore.Persistence.Rows.{HeaderRow, Database}
use rpacore.Persistence.Samples.{empty}
use rpacore.Persistence.Query.{
  Cursor, cursor, Query, Filters, TransactionPage, TransactionSummary, query_transactions,
}
use rpacore.Persistence.RowOrder.{IsDistinct}
use rpacore.Persistence.Pages.{joined, query_transactions-pages}

abbrev header_of : String → Status → Option ℕ → HeaderRow
header_of id status created_at_utc = record {
  id = id;
  reference = "INV-1";
  status = status;
  retry_count = 0;
  outcome_category = OutcomeCategory.unknown;
  retry_disposition = RetryDisposition.unknown;
  failure_code = "";
  created_at = created_at_utc;
  created_at_utc = created_at_utc;
  started_at = none;
  finished_at = none;
  state = json (dict 0 end);
  definition_identity = "v1";
  revision = 1;
  queue_item_id = "";
  claim_token = "";
}

abbrev stored : Database
stored = record empty {
  transactions =
      header_of "c" Status.pending none
      ∷ header_of "b" Status.pending (some 4)
      ∷ header_of "d" Status.failed (some 9)
      ∷ header_of "a" Status.pending (some 4)
      ∷ [];
}

abbrev pending_ones : Query
pending_ones = record {
  statuses = some (Status.pending ∷ []);
  since = none;
  until = none;
  reference = some "INV-1";
  metadata_filter = none;
  start = none;
  limit = pos 1;
}

abbrev same : JsonText → JsonText → Bool
same _ _ = true

abbrev digest : Filters → String
digest f = "f"

abbrev summary : String → Option ℕ → TransactionSummary
summary id created_at = record {
  id = id;
  reference = "INV-1";
  status = Status.pending;
  retry_count = 0;
  created_at = created_at;
}

abbrev first_page : TransactionPage
first_page = record {
  transactions = summary "a" (some 4) ∷ [];
  has_more = true;
  next_cursor = some (cursor 1 "f" (some 4) "a");
  format_version = 1;
}

abbrev second_page : TransactionPage
second_page = record {
  transactions = summary "b" (some 4) ∷ summary "c" none ∷ [];
  has_more = false;
  next_cursor = none;
  format_version = 1;
}

reads_pages :
    (query_transactions same digest pending_ones stored ≡ ok first_page)
    × (query_transactions same digest
          (record pending_ones { limit = pos 2; start = first_page.next_cursor })
          stored
        ≡ ok second_page)
    × (query_transactions same digest
          (record pending_ones { start = some (cursor 1 "g" (some 4) "a") })
          stored
        ≡ err value_error)
    × (query_transactions same digest (record pending_ones { limit = pos 0 }) stored
        ≡ err value_error)
unfolding rpacore.Base.is_space rpacore.Base.is_blank rpacore.Base.text_before
    rpacore.Json.validate_value rpacore.Json.validate_items rpacore.Json.validate_fields
    rpacore.Json.validate_json_safe rpacore.Json.validate_json_object rpacore.Json.Text.fresh_value
    rpacore.Json.Text.fresh_items rpacore.Json.Text.fresh_fields rpacore.Json.Text.insert_field
    rpacore.Json.Text.sort_keys rpacore.Json.Text.sort_items rpacore.Json.Text.sort_fields
    rpacore.Json.Text.dumps rpacore.Json.Text.canonical_json rpacore.Json.Text.loads
    rpacore.Persistence.Rows.digits rpacore.Persistence.Rows.decimal
    rpacore.Persistence.Rows.step_id rpacore.Persistence.Rows.step_row
    rpacore.Persistence.Rows.canonical_entries rpacore.Persistence.Rows.metadata_to_storage
    rpacore.Persistence.Rows.artifact_metadata_to_storage rpacore.Persistence.Rows.artifact_rows
    rpacore.Persistence.Rows.serialized_transaction rpacore.Persistence.Query.query_statuses
    rpacore.Persistence.Query.filter_metadata rpacore.Persistence.Query.query_filters
    rpacore.Persistence.Query.row_before rpacore.Persistence.Query.is_behind
    rpacore.Persistence.Query.is_match rpacore.Persistence.Query.decode_query_cursor
    rpacore.Persistence.Query.select_rows rpacore.Persistence.Query.query_transactions
reads_pages = (refl, refl, refl, refl)

all_differ : IsDistinct stored.transactions
unfolding rpacore.Definition.same_codes
all_differ = ((refl, (refl, (refl, tt))), ((refl, (refl, tt)), ((refl, tt), (tt, tt))))

query_transactions-pages_example :
    query_transactions same digest (record pending_ones { limit = pos 3 }) stored
    ≡ ok (joined same digest first_page second_page)
query_transactions-pages_example =
    query_transactions-pages same digest pending_ones 1 2 stored all_differ refl reads_pages.0 refl
      reads_pages.1
