-- ===== src/Checkpoint/Tests.antt =====
-- Examples: a first checkpoint of a claimed item, and the checkpoint of a worker that lost it.
use rpacore.Base.{ℕ, ◌≡◌, refl, pos, String, true, false, [], ◌∷◌, none, some}
use rpacore.Exceptions.{Error}
use rpacore.Exec.{ok, err}
use rpacore.Json.{dict, end}
use rpacore.Queue.Rows.{QueueStatus, QueueItem, Store, json, matches}
use rpacore.Queue.Fencing.{Lacks}
use rpacore.Queue.Retry.{QueuePolicy}
use rpacore.Queue.Steps.{here}
use rpacore.Checkpoint.{Stores, Claim, save_queue_transaction_fenced}
use rpacore.Checkpoint.Guarded.{IsGuardedOr, save_queue_transaction_fenced-IsGuardedOr, run-Refused}
use rpacore.Persistence.Samples.{invoice, empty}

abbrev claimed_item : QueueItem
claimed_item = record {
  reference = "a";
  payload = json (dict 0 end);
  id = "a";
  status = QueueStatus.in_progress;
  retry_count = 0;
  created_at = "2026-01-01";
  claimed_by = "w";
  claimed_at = some 5;
  claim_token = "t1";
  transaction_id = "";
  available_at = none;
}

abbrev queue : Store
queue = record { items = claimed_item ∷ []; attempts = []; admin_events = []; poison_events = [] }

abbrev stores : Stores
stores = record { queue = queue; database = empty }

abbrev claim_with : String → Claim
claim_with token = record { queue_item_id = "a"; claimed_by = "w"; claim_token = token }

first_checkpoint :
    (save_queue_transaction_fenced invoice (claim_with "t1") (pos 0) true stores).0 ≡ ok 1
unfolding rpacore.Base.is_space rpacore.Base.is_blank rpacore.Base.text_before
    rpacore.Definition.lstrip rpacore.Definition.strip rpacore.Definition.same_codes
    rpacore.Definition.validate_identity_codes rpacore.Definition.validate_definition_identity
    rpacore.FailureCode.matches_from rpacore.FailureCode.matches_failure_code
    rpacore.FailureCode.validate_failure_code rpacore.Json.validate_value
    rpacore.Json.validate_items rpacore.Json.validate_fields rpacore.Json.validate_json_safe
    rpacore.Json.validate_json_object rpacore.Json.Text.fresh_value rpacore.Json.Text.fresh_items
    rpacore.Json.Text.fresh_fields rpacore.Json.Text.insert_field rpacore.Json.Text.sort_keys
    rpacore.Json.Text.sort_items rpacore.Json.Text.sort_fields rpacore.Json.Text.dumps
    rpacore.Json.Text.canonical_json rpacore.Json.Text.loads rpacore.Transaction.insert_step
    rpacore.Transaction.sort_steps rpacore.Transaction.ordered_steps
    rpacore.Transaction.failed_steps rpacore.Transaction.new_entry
    rpacore.Transaction.append_history rpacore.Transaction.validate_steps
    rpacore.Transaction.validate_artifacts rpacore.Transaction.validate_arguments
    rpacore.Transaction.validate_durable_data rpacore.Transaction.validate_for_execution
    rpacore.Queue.Rows.matches rpacore.Queue.Rows.set_row rpacore.Queue.Rows.close_attempt
    rpacore.Queue.Rows.open_attempt rpacore.Persistence.Tables.insert_all
    rpacore.Persistence.Tables.insert_ignore_all rpacore.Persistence.Rows.digits
    rpacore.Persistence.Rows.decimal rpacore.Persistence.Rows.step_id
    rpacore.Persistence.Rows.step_row rpacore.Persistence.Rows.canonical_entries
    rpacore.Persistence.Rows.metadata_to_storage
    rpacore.Persistence.Rows.artifact_metadata_to_storage rpacore.Persistence.Rows.artifact_rows
    rpacore.Persistence.Rows.serialized_transaction rpacore.Persistence.Save.header_row
    rpacore.Persistence.Save.set_columns rpacore.Persistence.Save.update_header
    rpacore.Persistence.Save.write_steps rpacore.Persistence.Save.write_history
    rpacore.Persistence.Save.write_metadata rpacore.Persistence.Save.write_artifacts
    rpacore.Persistence.Save.write_transaction_rows rpacore.Persistence.Save.save_rows
    rpacore.Persistence.Save.save_transaction rpacore.Checkpoint.check_arguments
    rpacore.Checkpoint.bind_item rpacore.Checkpoint.checkpoint_rows
    rpacore.Checkpoint.save_queue_transaction_fenced
first_checkpoint = refl

save_queue_transaction_fenced-IsGuardedOr_example :
    IsGuardedOr invoice
      (claim_with "t1")
      (pos 0)
      true
      stores
      (save_queue_transaction_fenced invoice (claim_with "t1") (pos 0) true stores)
save_queue_transaction_fenced-IsGuardedOr_example =
    save_queue_transaction_fenced-IsGuardedOr invoice (claim_with "t1") (pos 0) true stores

abbrev policy : QueuePolicy
policy = record {
  lease_timeout = 30;
  max_retries = 1;
  retry_delay = record { num = 1; den = 1 };
  retry_backoff = record { num = 2; den = 1 };
}

lacks : Lacks "a" "t0" queue.items
unfolding Lacks matches
lacks = refl

run-Refused_example :
    (e : Error) × (save_queue_transaction_fenced invoice (claim_with "t0") (pos 0) true stores
      ≡ (err e, stores))
run-Refused_example =
    run-Refused policy invoice (claim_with "t0") (pos 0) true stores {a = queue} refl lacks here
