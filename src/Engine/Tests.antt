-- ===== src/Engine/Tests.antt =====
-- Examples: a transaction of two steps, the second of which fails once and then succeeds.
use rpacore.Base.{
  ℕ, suc, ◌+◌, ℤ, pos, ◌≡◌, refl, inl, inr, arith, String, Bool, true, false, List, [], ◌∷◌, Option,
  none, some, if◌then◌else◌, ◌==◌, ◌≤◌, ◌⊎◌,
}
use rpacore.Status.{Status, OutcomeCategory, RetryDisposition}
use rpacore.Exceptions.{StepException, ExceptionKind}
use rpacore.Exec.{ok}
use rpacore.Json.{dict, end}
use rpacore.Transaction.{Step, Transaction, validate_for_execution}
use rpacore.Engine.World.{
  Environment, Engine, World, StepEffect, returned, raised_system, raised_business,
}
use rpacore.Engine.Transitions.{check_emitter}
use rpacore.Engine.Failures.{retryable_failed_steps}
use rpacore.Engine.Pass.{execute_pass}
use rpacore.Engine.Run.{retry_loop, run_valid, run}
use rpacore.Engine.Outcome.{IsConcluded, run-IsConcluded}
use rpacore.Engine.Audit.{Extends, run-Extends}
use rpacore.Engine.Settled.{Still, execute_pass-Still}
use rpacore.Engine.Reruns.{run-Still, retry_loop-Still}
use rpacore.Engine.Retrying.{IsExhausted}
use rpacore.Engine.Exhausted.{run-IsExhausted, run-valid}

abbrev step_of : ℕ → String → Status → List StepException → Step
step_of n name status exceptions = record {
  ident = n;
  name = name;
  execution_order = pos n;
  status = status;
  arguments = dict 10 end;
  exceptions = exceptions;
}

abbrev failure_of : ExceptionKind → StepException
failure_of kind = record {
  kind = kind;
  message = "no answer";
  action = "";
  retry_number = 0;
  occurred_at = 0;
  screenshot_path = "";
  halts_flag = false;
  code = "";
}

abbrev transaction_of : List Step → Transaction
transaction_of steps = record {
  reference = "INV-1";
  id = "7";
  status = Status.pending;
  retry_count = 0;
  created_at = none;
  started_at = none;
  finished_at = none;
  state = dict 1 end;
  metadata = dict 2 end;
  artifacts = [];
  steps = steps;
  history = [];
  outcome_category = OutcomeCategory.unknown;
  retry_disposition = RetryDisposition.unknown;
  failure_code = "";
  definition_identity = "";
}

-- The second step fails in the first pass.
abbrev perform : Step → Transaction → ℕ → StepEffect × ℕ
perform s tx w = (
  record {
    state = tx.state;
    artifacts = tx.artifacts;
    marks_skipped = false;
    outcome =
        if s.ident == 2
        then (if tx.retry_count == 0
            then raised_system (failure_of ExceptionKind.system)
            else returned)
        else returned;
  },
  w,
)

-- The outside world is the clock.
abbrev office : Environment ℕ
office = record {
  execute = perform;
  now = λ w. (w, suc w);
  sleep = λ passes w. w;
  capture = λ w. (ok "", w);
  new_id = λ w. ("a", w);
  checkpoint = some (λ tx w. (ok tt, w));
  sink = none;
  state_fields = [];
}

abbrev engine : Engine
engine = record { max_retries = 2; delays_retries = false; takes_screenshots = false }

abbrev fresh : World ℕ
fresh = record {
  transaction =
      transaction_of (step_of 1 "open" Status.pending [] ∷ step_of 2 "send" Status.pending [] ∷ []);
  outside = 0;
}

run_returns : (run office engine fresh).0 ≡ ok tt
unfolding rpacore.Base.is_space rpacore.Base.is_blank rpacore.Definition.lstrip
    rpacore.Definition.strip rpacore.Definition.same_codes
    rpacore.Definition.validate_identity_codes rpacore.Definition.validate_definition_identity
    rpacore.FailureCode.matches_from rpacore.FailureCode.matches_failure_code
    rpacore.FailureCode.validate_failure_code rpacore.Transaction.insert_step
    rpacore.Transaction.sort_steps rpacore.Transaction.ordered_steps
    rpacore.Transaction.failed_steps rpacore.Transaction.new_entry
    rpacore.Transaction.append_history rpacore.Transaction.validate_steps
    rpacore.Transaction.validate_artifacts rpacore.Transaction.validate_arguments
    rpacore.Transaction.validate_durable_data rpacore.Transaction.validate_for_execution
    rpacore.Engine.World.current_step rpacore.Engine.World.change_step
    rpacore.Engine.Transitions.check_emitter rpacore.Engine.Transitions.lookup_field
    rpacore.Engine.Transitions.pick_fields rpacore.Engine.Transitions.checkpoint_state
    rpacore.Engine.Transitions.build_transition rpacore.Engine.Transitions.publish
    rpacore.Engine.Transitions.append rpacore.Engine.Failures.just_resumed
    rpacore.Engine.Failures.retryable_failed_steps rpacore.Engine.Failures.business_failed_step_ids
    rpacore.Engine.Failures.initial_blocked_step_ids rpacore.Engine.Failures.reset_skipped_steps
    rpacore.Engine.Failures.exception_of_pass rpacore.Engine.Failures.step_of_entry
    rpacore.Engine.Failures.last_failed_from rpacore.Engine.Failures.last_failed_exception
    rpacore.Engine.Failures.save_with rpacore.Engine.Failures.checkpoint
    rpacore.Engine.Failures.register_screenshot rpacore.Engine.Failures.take_screenshot
    rpacore.Engine.Failures.record_failure rpacore.Engine.Pass.apply_effect
    rpacore.Engine.Pass.execute_step rpacore.Engine.Pass.skip_if_pending
    rpacore.Engine.Pass.skip_downstream_from rpacore.Engine.Pass.skip_downstream
    rpacore.Engine.Pass.finish_step rpacore.Engine.Pass.halt_or_continue rpacore.Engine.Pass.handle
    rpacore.Engine.Pass.start_step rpacore.Engine.Pass.run_step rpacore.Engine.Pass.run_steps
    rpacore.Engine.Pass.execute_pass rpacore.Engine.Run.reset_to_pending rpacore.Engine.Run.conclude
    rpacore.Engine.Run.sleep_before_retry rpacore.Engine.Run.pass_again rpacore.Engine.Run.run_again
    rpacore.Engine.Run.retry_pass rpacore.Engine.Run.retry_loop rpacore.Engine.Run.run_passes
    rpacore.Engine.Run.last_checkpoint rpacore.Engine.Run.fill_time rpacore.Engine.Run.interrupt
    rpacore.Engine.Run.reject rpacore.Engine.Run.start_run rpacore.Engine.Run.finish_run
    rpacore.Engine.Run.run_valid rpacore.Engine.Run.validate_run rpacore.Engine.Run.run
    rpacore.Json.validate_json_safe rpacore.Json.validate_json_object rpacore.Json.validate_value
    rpacore.Json.validate_items rpacore.Json.validate_fields
run_returns = refl

run-IsConcluded_example : IsConcluded (run office engine fresh).1.transaction
run-IsConcluded_example = run-IsConcluded office engine fresh run_returns

run-Extends_example : Extends fresh.transaction (run office engine fresh).1.transaction
run-Extends_example = run-Extends office engine fresh

run-IsExhausted_example :
    ((run office engine fresh).1.transaction.retry_count ≤ 2)
    × IsExhausted office engine (run office engine fresh).1.transaction
run-IsExhausted_example = run-IsExhausted office engine fresh (omega arith) run_returns

run-valid_example :
    (check_emitter office ≡ ok tt)
    × (validate_for_execution fresh.transaction ≡ ok tt)
    × (run office engine fresh ≡ run_valid office engine fresh)
run-valid_example = run-valid office engine fresh run_returns

-- A transaction with one step done.
abbrev done : Step
done = step_of 1 "open" Status.successful []

abbrev resumed : World ℕ
resumed = record {
  transaction = transaction_of (done ∷ step_of 2 "send" Status.pending [] ∷ []);
  outside = 0;
}

done-Still : Still 1 done resumed.transaction
done-Still = record { found = refl; only = (λ _. refl, (λ e. absurd (omega (arith, e)), tt)) }

run-Still_example : Still 1 done (run office engine resumed).1.transaction
run-Still_example = run-Still office engine 1 done resumed refl done-Still

execute_pass-Still_example : Still 1 done (execute_pass office engine none resumed).1.transaction
execute_pass-Still_example =
    execute_pass-Still 1 done office engine none resumed refl refl done-Still

-- A transaction with one step that failed for good, and one to retry.
abbrev refused : Step
refused = step_of 1 "open" Status.failed (failure_of ExceptionKind.business ∷ [])

abbrev half_failed : World ℕ
half_failed = record {
  transaction =
      transaction_of
        (refused ∷ step_of 2 "send" Status.failed (failure_of ExceptionKind.system ∷ []) ∷ []);
  outside = 0;
}

refused-Still : Still 1 refused half_failed.transaction
refused-Still = record { found = refl; only = (λ _. refl, (λ e. absurd (omega (arith, e)), tt)) }

retry_loop-Still_example : Still 1 refused (retry_loop office engine 2 half_failed).1.transaction
retry_loop-Still_example =
    retry_loop-Still office engine 1 refused 2 half_failed refl refl refused-Still
