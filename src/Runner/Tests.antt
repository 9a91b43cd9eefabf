-- ===== src/Runner/Tests.antt =====
-- Examples: a worker that drains a queue of one item, whose builder fails for another one.
use rpacore.Base.{
  ℕ, suc, ◌+◌, ◌≤◌, pos, ◌≡◌, refl, inl, inr, ◌⊎◌, String, Bool, true, false, [], ◌∷◌, List, Option,
  none, some, str_eq, if◌then◌else◌,
}
use rpacore.Status.{Status, OutcomeCategory, RetryDisposition}
use rpacore.Exceptions.{key_error, keyboard_interrupt}
use rpacore.Exec.{Result, ok, err}
use rpacore.Json.{dict, end}
use rpacore.Transaction.{Step, Transaction}
use rpacore.Engine.World.{Environment, Engine, StepEffect, returned}
use rpacore.Queue.Rows.{QueueStatus, QueueItem, Store, json}
use rpacore.Queue.Retry.{QueuePolicy}
use rpacore.Queue.Steps.{here}
use rpacore.Queue.Fenced.{IsFenced}
use rpacore.Persistence.Samples.{invoice, empty}
use rpacore.Runner.State.{Outside, WorkerState, Calls}
use rpacore.Runner.Binding.{strict_checkpoint}
use rpacore.Runner.Item.{run_claimed_item}
use rpacore.Runner.Loop.{start_state, round}
use rpacore.Runner.Lifecycle.{Lifecycle, start_queue}
use rpacore.Runner.Released.{run_claimed_item-IsFenced}
use rpacore.Runner.Checkpoints.{IsCheckpointed, strict_checkpoint-IsCheckpointed}

abbrev waiting : QueueItem
waiting = record {
  reference = "a";
  payload = json (dict 0 end);
  id = "a";
  status = QueueStatus.pending;
  retry_count = 0;
  created_at = "2026-01-01";
  claimed_by = "";
  claimed_at = none;
  claim_token = "";
  transaction_id = "";
  available_at = none;
}

abbrev claimed : QueueItem
claimed = record waiting {
  status = QueueStatus.in_progress;
  claimed_by = "w";
  claimed_at = some 0;
  claim_token = "t";
}

abbrev store_of : QueueItem → Store
store_of item = record { items = item ∷ []; attempts = []; admin_events = []; poison_events = [] }

abbrev task : Transaction
task = record {
  reference = "INV-1";
  id = "7";
  status = Status.pending;
  retry_count = 0;
  created_at = none;
  started_at = none;
  finished_at = none;
  state = dict 1 end;
  metadata = dict 2 end;
  artifacts = [];
  steps =
      record {
        ident = 1;
        name = "open";
        execution_order = pos 1;
        status = Status.pending;
        arguments = dict 3 end;
        exceptions = [];
      }
      ∷ [];
  history = [];
  outcome_category = OutcomeCategory.unknown;
  retry_disposition = RetryDisposition.unknown;
  failure_code = "";
  definition_identity = "v1";
}

-- The rest of the outside world is the clock.
abbrev office : Environment (Outside ℕ)
office = record {
  execute = λ s tx o. (
    record {
      state = tx.state;
      artifacts = tx.artifacts;
      marks_skipped = false;
      outcome = returned;
    },
    o,
  );
  now = λ o. (o.world, record o { world = suc o.world });
  sleep = λ n o. o;
  capture = λ o. (ok "", o);
  new_id = λ o. ("n", o);
  checkpoint = none;
  sink = none;
  state_fields = [];
}

abbrev calls_of : Bool → Result Transaction → Calls ℕ
calls_of persists built = record {
  environment = office;
  engine = record { max_retries = 0; delays_retries = false; takes_screenshots = false };
  policy = record {
    lease_timeout = 30;
    max_retries = 1;
    retry_delay = record { num = 1; den = 1 };
    retry_backoff = record { num = 2; den = 1 };
  };
  worker_id = "w";
  persists = persists;
  retry_business_failures = false;
  build_transaction = λ item o. (built, o);
  generate_report = λ tx o. (ok tt, o);
  dispatch = λ tx o. (0, o);
  after_item = none;
  is_stopped = λ o. (false, o);
  new_token = λ o. ("t", o);
  interrupted = λ o. (none, o);
  pause = λ o. (tt, o);
}

abbrev calls : Calls ℕ
calls = calls_of false (ok task)

abbrev outside_of : QueueItem → Outside ℕ
outside_of item = record { queue = store_of item; database = empty; heartbeat = none; world = 1 }

abbrev begun : WorkerState ℕ
begun = start_state (outside_of waiting)

abbrev held : WorkerState ℕ
held = start_state (outside_of claimed)

abbrev stopped : Calls ℕ
stopped = calls_of false (err keyboard_interrupt)

abbrev persisting : Calls ℕ
persisting = calls_of true (ok task)

-- A scope that suppresses every error, and a callback that fails.
abbrev life : Lifecycle ℕ
life = record {
  prepare = λ o. (ok tt, o);
  resource_scope = some (record { enter = λ o. (ok true, o); exit = λ e o. (ok true, o) });
  on_finish = some (λ s o. (err key_error, o));
}

-- What seven runs give.
runs :
    ((round calls begun).0 ≡ ok true)
    × ((round calls (round calls begun).1).0 ≡ ok false)
    × ((run_claimed_item calls claimed held).0 ≡ ok true)
    × ((run_claimed_item stopped claimed held).0 ≡ err keyboard_interrupt)
    × ((round stopped begun).0 ≡ err keyboard_interrupt)
    × (start_queue stopped life begun ≡ (ok true, begun))
    × ((strict_checkpoint persisting claimed invoice held.run).0 ≡ ok tt)
unfolding rpacore.Base.is_space rpacore.Base.is_blank rpacore.Base.text_before
    rpacore.Definition.lstrip rpacore.Definition.strip rpacore.Definition.same_codes
    rpacore.Definition.validate_identity_codes rpacore.Definition.validate_definition_identity
    rpacore.FailureCode.matches_from rpacore.FailureCode.matches_failure_code
    rpacore.FailureCode.validate_failure_code rpacore.Json.validate_value
    rpacore.Json.validate_items rpacore.Json.validate_fields rpacore.Json.validate_json_safe
    rpacore.Json.validate_json_object rpacore.Json.Text.fresh_value rpacore.Json.Text.fresh_items
    rpacore.Json.Text.fresh_fields rpacore.Json.Text.insert_field rpacore.Json.Text.sort_keys
    rpacore.Json.Text.sort_items rpacore.Json.Text.sort_fields rpacore.Json.Text.dumps
    rpacore.Json.Text.canonical_json rpacore.Json.Text.loads rpacore.Transaction.insert_step
    rpacore.Transaction.sort_steps rpacore.Transaction.ordered_steps
    rpacore.Transaction.failed_steps rpacore.Transaction.new_entry
    rpacore.Transaction.append_history rpacore.Transaction.validate_steps
    rpacore.Transaction.validate_artifacts rpacore.Transaction.validate_arguments
    rpacore.Transaction.validate_durable_data rpacore.Transaction.validate_for_execution
    rpacore.Engine.World.current_step rpacore.Engine.World.change_step
    rpacore.Engine.Transitions.check_emitter rpacore.Engine.Transitions.lookup_field
    rpacore.Engine.Transitions.pick_fields rpacore.Engine.Transitions.checkpoint_state
    rpacore.Engine.Transitions.build_transition rpacore.Engine.Transitions.publish
    rpacore.Engine.Transitions.append rpacore.Engine.Failures.just_resumed
    rpacore.Engine.Failures.retryable_failed_steps rpacore.Engine.Failures.business_failed_step_ids
    rpacore.Engine.Failures.initial_blocked_step_ids rpacore.Engine.Failures.reset_skipped_steps
    rpacore.Engine.Failures.exception_of_pass rpacore.Engine.Failures.step_of_entry
    rpacore.Engine.Failures.last_failed_from rpacore.Engine.Failures.last_failed_exception
    rpacore.Engine.Failures.save_with rpacore.Engine.Failures.checkpoint
    rpacore.Engine.Failures.register_screenshot rpacore.Engine.Failures.take_screenshot
    rpacore.Engine.Failures.record_failure rpacore.Engine.Pass.apply_effect
    rpacore.Engine.Pass.execute_step rpacore.Engine.Pass.skip_if_pending
    rpacore.Engine.Pass.skip_downstream_from rpacore.Engine.Pass.skip_downstream
    rpacore.Engine.Pass.finish_step rpacore.Engine.Pass.halt_or_continue rpacore.Engine.Pass.handle
    rpacore.Engine.Pass.start_step rpacore.Engine.Pass.run_step rpacore.Engine.Pass.run_steps
    rpacore.Engine.Pass.execute_pass rpacore.Engine.Run.reset_to_pending rpacore.Engine.Run.conclude
    rpacore.Engine.Run.sleep_before_retry rpacore.Engine.Run.pass_again rpacore.Engine.Run.run_again
    rpacore.Engine.Run.retry_pass rpacore.Engine.Run.retry_loop rpacore.Engine.Run.run_passes
    rpacore.Engine.Run.last_checkpoint rpacore.Engine.Run.fill_time rpacore.Engine.Run.interrupt
    rpacore.Engine.Run.reject rpacore.Engine.Run.start_run rpacore.Engine.Run.finish_run
    rpacore.Engine.Run.run_valid rpacore.Engine.Run.validate_run rpacore.Engine.Run.run
    rpacore.Queue.Rows.matches rpacore.Queue.Rows.set_row rpacore.Queue.Rows.close_attempt
    rpacore.Queue.Rows.open_attempt rpacore.Queue.Retry.retry_policy rpacore.Queue.Retry.retry_wait
    rpacore.Queue.Retry.retry_available_at rpacore.Queue.Claims.update_owned
    rpacore.Queue.Claims.bind_transaction rpacore.Queue.Claims.renew_lease
    rpacore.Queue.Claims.complete rpacore.Queue.Claims.retry_count_of rpacore.Queue.Claims.fail
    rpacore.Queue.Claims.force_row rpacore.Queue.Claims.force_transition
    rpacore.Queue.Claims.force_complete rpacore.Queue.Claims.force_fail
    rpacore.Queue.Delivery.payload_error rpacore.Queue.Delivery.insert_item
    rpacore.Queue.Delivery.add rpacore.Queue.Delivery.has_reference rpacore.Queue.Delivery.add_once
    rpacore.Queue.Delivery.reclaim_row rpacore.Queue.Delivery.reclaim_rows
    rpacore.Queue.Delivery.reclaim rpacore.Queue.Delivery.item_before
    rpacore.Queue.Delivery.select_item rpacore.Queue.Delivery.quarantine
    rpacore.Queue.Delivery.claim rpacore.Queue.Delivery.next_from rpacore.Queue.Delivery.next_item
    rpacore.Persistence.Tables.insert_all rpacore.Persistence.Tables.insert_ignore_all
    rpacore.Persistence.Rows.digits rpacore.Persistence.Rows.decimal
    rpacore.Persistence.Rows.step_id rpacore.Persistence.Rows.step_row
    rpacore.Persistence.Rows.canonical_entries rpacore.Persistence.Rows.metadata_to_storage
    rpacore.Persistence.Rows.artifact_metadata_to_storage rpacore.Persistence.Rows.artifact_rows
    rpacore.Persistence.Rows.serialized_transaction rpacore.Persistence.Save.header_row
    rpacore.Persistence.Save.set_columns rpacore.Persistence.Save.update_header
    rpacore.Persistence.Save.write_steps rpacore.Persistence.Save.write_history
    rpacore.Persistence.Save.write_metadata rpacore.Persistence.Save.write_artifacts
    rpacore.Persistence.Save.write_transaction_rows rpacore.Persistence.Save.save_rows
    rpacore.Persistence.Save.save_transaction rpacore.Persistence.Load.read_transaction_rows
    rpacore.Persistence.Load.load_object rpacore.Persistence.Load.load_exception
    rpacore.Persistence.Load.load_exceptions rpacore.Persistence.Load.load_step
    rpacore.Persistence.Load.load_steps rpacore.Persistence.Load.load_entry
    rpacore.Persistence.Load.load_fields rpacore.Persistence.Load.load_metadata
    rpacore.Persistence.Load.load_artifact rpacore.Persistence.Load.load_artifacts
    rpacore.Persistence.Load.transaction_from_rows
    rpacore.Persistence.Load.load_transaction_with_revision
    rpacore.Persistence.Load.load_transaction rpacore.Checkpoint.check_arguments
    rpacore.Checkpoint.bind_item rpacore.Checkpoint.checkpoint_rows
    rpacore.Checkpoint.save_queue_transaction_fenced rpacore.Recovery.check_identity
    rpacore.Recovery.is_interrupted rpacore.Recovery.resumed_step_status
    rpacore.Recovery.is_halt_propagated rpacore.Recovery.is_preserved rpacore.Recovery.restore
    rpacore.Recovery.prepare_resumed rpacore.Runner.Retries.with_retries
    rpacore.Runner.Retries.complete_with_retries rpacore.Runner.Retries.fail_with_retries
    rpacore.Runner.Retries.save_with_retries rpacore.Runner.Retries.heartbeat_round
    rpacore.Runner.Retries.next_item_with_retries rpacore.Runner.Policy.same_history
    rpacore.Runner.Policy.has_business_failed_step rpacore.Runner.Policy.has_only_business_failures
    rpacore.Runner.Policy.in_memory_allows_retry rpacore.Runner.Policy.history_allows_retry
    rpacore.Runner.Policy.checkpoint_allows_retry rpacore.Runner.Policy.wants_retry
    rpacore.Runner.Binding.set_field rpacore.Runner.Binding.merge_fields
    rpacore.Runner.Binding.seed_state rpacore.Runner.Binding.validate_initial
    rpacore.Runner.Binding.build_seeded rpacore.Runner.Binding.resume
    rpacore.Runner.Binding.transaction_for_queue_item rpacore.Runner.Binding.durable_snapshot
    rpacore.Runner.Binding.checkpoint_error rpacore.Runner.Binding.checkpoint_result
    rpacore.Runner.Binding.strict_checkpoint rpacore.Runner.Binding.lease_checked_checkpoint
    rpacore.Runner.Settle.settle rpacore.Runner.Item.checkpoint_of rpacore.Runner.Item.engine_calls
    rpacore.Runner.Item.run_engine rpacore.Runner.Item.after_engine
    rpacore.Runner.Item.after_binding rpacore.Runner.Item.process
    rpacore.Runner.Item.check_heartbeat rpacore.Runner.Item.report
    rpacore.Runner.Item.call_after_item rpacore.Runner.Item.run_claimed_item
    rpacore.Runner.Loop.start_item rpacore.Runner.Loop.round_of rpacore.Runner.Loop.round
    rpacore.Runner.Lifecycle.start_queue
runs = (refl, refl, refl, refl, refl, refl, refl)

goes_through : (run_claimed_item calls claimed held).0 ≡ ok true
goes_through = runs.2

run_claimed_item-IsFenced_example :
    IsFenced calls.policy "a" "t" refl "w" (run_claimed_item calls claimed held).1.run.outside.queue
run_claimed_item-IsFenced_example =
    run_claimed_item-IsFenced calls claimed held "w" refl goes_through here

saves_it : (strict_checkpoint persisting claimed invoice held.run).0 ≡ ok tt
saves_it = runs.6

strict_checkpoint-IsCheckpointed_example :
    IsCheckpointed persisting claimed invoice 0
      (strict_checkpoint persisting claimed invoice held.run).1
strict_checkpoint-IsCheckpointed_example =
    strict_checkpoint-IsCheckpointed persisting claimed invoice held.run saves_it
