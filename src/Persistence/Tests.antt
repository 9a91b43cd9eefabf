-- ===== src/Persistence/Tests.antt =====
-- Examples: a transaction of two steps, saved twice, with a save of a late worker.
use rpacore.Base.{
  ℕ, ◌+◌, ◌≡◌, refl, pos, arith, String, Bool, true, false, [], ◌∷◌, List, none, some, str_eq,
}
use rpacore.Exceptions.{Error}
use rpacore.Exec.{ok, err}
use rpacore.Json.{dict, field, end, text, int, str}
use rpacore.Transaction.{Step, HistoryEntry, Artifact, Transaction}
use rpacore.Persistence.Rows.{Database}
use rpacore.Persistence.Save.{Fence, save_rows}
use rpacore.Persistence.Load.{load_transaction_with_revision}
use rpacore.Persistence.Samples.{invoice, started, empty, fence_at}
use rpacore.Persistence.View.{view}
use rpacore.Persistence.Refined.{IsSavedOr, save_rows-IsSavedOr}
use rpacore.Persistence.Revisions.{save_all, save_rows-IsAt}
use rpacore.Persistence.Copies.{copied}
use rpacore.Persistence.StepCopies.{HaveCodes}
use rpacore.Persistence.Roundtrip.{load-save_rows}
use rpacore.Persistence.Decoding.{IsEarlier}

saved_once : (save_rows invoice (some (fence_at 0 "t1")) empty).0 ≡ ok 1
unfolding rpacore.Base.is_space rpacore.Base.is_blank rpacore.Base.text_before
    rpacore.Definition.lstrip rpacore.Definition.strip rpacore.Definition.same_codes
    rpacore.Definition.validate_identity_codes rpacore.Definition.validate_definition_identity
    rpacore.FailureCode.matches_from rpacore.FailureCode.matches_failure_code
    rpacore.FailureCode.validate_failure_code rpacore.Json.validate_value
    rpacore.Json.validate_items rpacore.Json.validate_fields rpacore.Json.validate_json_safe
    rpacore.Json.validate_json_object rpacore.Json.Text.fresh_value rpacore.Json.Text.fresh_items
    rpacore.Json.Text.fresh_fields rpacore.Json.Text.insert_field rpacore.Json.Text.sort_keys
    rpacore.Json.Text.sort_items rpacore.Json.Text.sort_fields rpacore.Json.Text.dumps
    rpacore.Json.Text.canonical_json rpacore.Json.Text.loads rpacore.Transaction.insert_step
    rpacore.Transaction.sort_steps rpacore.Transaction.ordered_steps
    rpacore.Transaction.failed_steps rpacore.Transaction.new_entry
    rpacore.Transaction.append_history rpacore.Transaction.validate_steps
    rpacore.Transaction.validate_artifacts rpacore.Transaction.validate_arguments
    rpacore.Transaction.validate_durable_data rpacore.Transaction.validate_for_execution
    rpacore.Persistence.Tables.insert_all rpacore.Persistence.Tables.insert_ignore_all
    rpacore.Persistence.Rows.digits rpacore.Persistence.Rows.decimal
    rpacore.Persistence.Rows.step_id rpacore.Persistence.Rows.step_row
    rpacore.Persistence.Rows.canonical_entries rpacore.Persistence.Rows.metadata_to_storage
    rpacore.Persistence.Rows.artifact_metadata_to_storage rpacore.Persistence.Rows.artifact_rows
    rpacore.Persistence.Rows.serialized_transaction rpacore.Persistence.Save.header_row
    rpacore.Persistence.Save.set_columns rpacore.Persistence.Save.update_header
    rpacore.Persistence.Save.write_steps rpacore.Persistence.Save.write_history
    rpacore.Persistence.Save.write_metadata rpacore.Persistence.Save.write_artifacts
    rpacore.Persistence.Save.write_transaction_rows rpacore.Persistence.Save.save_rows
    rpacore.Persistence.Save.save_transaction
saved_once = refl

save_rows-IsSavedOr_example :
    IsSavedOr invoice
      (some (fence_at 0 "t1"))
      empty
      (save_rows invoice (some (fence_at 0 "t1")) empty)
save_rows-IsSavedOr_example = save_rows-IsSavedOr invoice (some (fence_at 0 "t1")) empty

save_rows-IsAt_example :
    (1 ≡ 0 + 1)
    × ((e : Error) × (save_rows invoice
            (some (fence_at 0 "t2"))
            (save_all ((invoice, none) ∷ []) (save_rows invoice (some (fence_at 0 "t1")) empty).1)
          ≡ (
            err e,
            save_all ((invoice, none) ∷ []) (save_rows invoice (some (fence_at 0 "t1")) empty).1,
          )))
save_rows-IsAt_example =
    save_rows-IsAt invoice invoice (fence_at 0 "t1") (fence_at 0 "t2") ((invoice, none) ∷ []) empty
      saved_once refl (omega arith)

codes_hold : HaveCodes invoice.steps
unfolding rpacore.FailureCode.matches_from rpacore.FailureCode.matches_failure_code
    rpacore.FailureCode.validate_failure_code
codes_hold = (tt, ((refl, tt), tt))

nothing_stored : IsEarlier invoice (view empty "7")
unfolding view
nothing_stored = record {
  created = refl;
  old = [];
  new = started ∷ [];
  stored = refl;
  goes_on = refl;
  numbered = (refl, tt);
}

load-save_rows_example :
    load_transaction_with_revision 20 "7" (save_rows invoice (some (fence_at 0 "t1")) empty).1
    ≡ ok (copied 20 invoice, 1)
load-save_rows_example =
    load-save_rows invoice (some (fence_at 0 "t1")) empty 20 codes_hold nothing_stored saved_once
