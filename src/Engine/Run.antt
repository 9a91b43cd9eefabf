-- ===== src/Engine/Run.antt =====
-- engine.py, `Engine.run`: validation, the first pass, the retry passes, and the final outcome.
use rpacore.Base.{
  ℕ, zero, suc, ◌+◌, ◌-◌, String, Bool, true, false, not, ◌&&◌, ◌||◌, List, [], ◌∷◌, Option, none,
  some, ltb, all, if◌then◌else◌,
}
use rpacore.Status.{Status, OutcomeCategory, RetryDisposition, HistoryEvent, is_complete}
use rpacore.Exceptions.{
  StepException, Error, memory_error, is_memory_error, is_execution_validation, is_exception,
  is_business,
}
use rpacore.Exec.{Exec, pure, raise, lift, ◌>>=◌, ◌>>◌, try_except}
use rpacore.Transaction.{Step, Transaction, validate_for_execution}
use rpacore.Engine.World.{
  Environment, World, Engine, get_transaction, modify_transaction, ask, change_step,
}
use rpacore.Engine.Transitions.{append, check_emitter}
use rpacore.Engine.Failures.{
  checkpoint, retryable_failed_steps, business_failed_step_ids, initial_blocked_step_ids,
  reset_skipped_steps, last_failed_exception,
}
use rpacore.Engine.Pass.{execute_pass}

abbrev pub is_nil {ℓ} : {A : Type ℓ} → List A → Bool
is_nil [] = true
is_nil (_ ∷ _) = false

-- `for step in retryable: step.status = Status.PENDING`
unfoldable pub reset_to_pending : List Step → Transaction → Transaction
reset_to_pending [] tx = tx
reset_to_pending (s ∷ ss) tx =
    reset_to_pending ss (change_step s (λ t. record t { status = Status.pending }) tx)

-- The fields that `_run` writes when it starts, but for the time.
abbrev pub begin : Transaction → Transaction
begin tx = record tx {
  status = Status.in_progress;
  outcome_category = OutcomeCategory.unknown;
  retry_disposition = RetryDisposition.unknown;
  failure_code = "";
}

-- `all(s.status in (SUCCESSFUL, SKIPPED) for s in transaction.steps)`
abbrev pub all_complete : Transaction → Bool
all_complete tx = all (λ s. is_complete s.status) tx.steps

abbrev pub is_business_failure : Option StepException → Bool
is_business_failure none = false
is_business_failure (some e) = is_business e

abbrev pub code_of : Option StepException → String
code_of none = ""
code_of (some e) = e.code

-- The status, the category, the disposition and the code of a failed transaction.
abbrev pub failed_outcome : Option StepException → Transaction → Transaction
failed_outcome terminal tx =
    if is_business_failure terminal
    then record tx {
      status = Status.failed;
      outcome_category = OutcomeCategory.business_failed;
      retry_disposition = RetryDisposition.not_requested;
      failure_code = code_of terminal;
    }
    else record tx {
      status = Status.failed;
      outcome_category = OutcomeCategory.system_failed;
      retry_disposition = RetryDisposition.retry_exhausted;
      failure_code = code_of terminal;
    }

-- The last assignments of `_run`, but for the time.
unfoldable pub conclude : Transaction → Transaction
conclude tx =
    if all_complete tx
    then record tx {
      status = Status.successful;
      outcome_category = OutcomeCategory.successful;
      retry_disposition = RetryDisposition.not_applicable;
      failure_code = "";
    }
    else failed_outcome (last_failed_exception tx) tx

abbrev pub validation_outcome : ℕ → Transaction → Transaction
validation_outcome now tx = record tx {
  status = Status.failed;
  outcome_category = OutcomeCategory.validation_failed;
  retry_disposition = RetryDisposition.not_requested;
  failure_code = "rpacore.validation.execution";
  finished_at = some now;
}

abbrev pub interrupted_outcome : Transaction → Transaction
interrupted_outcome tx = record tx {
  status = Status.failed;
  outcome_category = OutcomeCategory.interrupted;
  retry_disposition = RetryDisposition.unknown;
  failure_code = "";
}

module _ {W : Type 0} (env : Environment W) (engine : Engine) where
  -- `_sleep_before_retry`
  unfoldable pub sleep_before_retry : ℕ → Exec (World W) (Unit {0})
  sleep_before_retry passes =
      if not engine.delays_retries then pure tt else ask (λ o. (tt, env.sleep passes o))

  -- The pass of a retry, which blocks only business-failed steps; pending steps that never ran are
  -- executed too.
  unfoldable pub pass_again : Exec (World W) (Unit {0})
  pass_again = do tx ← get_transaction; execute_pass env engine (some (business_failed_step_ids tx))

  -- The body of the retry loop, behind the reset of the failed steps.
  unfoldable pub run_again : ℕ → Exec (World W) (Unit {0})
  unfolding sleep_before_retry pass_again
  run_again passes = do
    sleep_before_retry passes
    modify_transaction (λ t. record t { retry_count = t.retry_count + 1 })
    append env HistoryEvent.retry_scheduled none true
    pass_again
    checkpoint env

  -- The body of the retry loop, for the failed steps that may be retried.
  unfoldable pub retry_pass : List Step → Exec (World W) (Unit {0})
  unfolding run_again
  retry_pass retryable = do
    tx ← get_transaction
    modify_transaction (reset_to_pending retryable)
    run_again tx.retry_count

  -- `while transaction.retry_count < self.max_retries`, for as many rounds as the fuel allows.
  unfoldable pub retry_loop : ℕ → Exec (World W) (Unit {0})
  retry_loop zero = pure tt
  retry_loop (suc fuel) =
      let rest = retry_loop fuel in
      do
        tx ← get_transaction
        let retryable = retryable_failed_steps tx
        let stops = not (ltb tx.retry_count engine.max_retries) || is_nil retryable
        if stops then pure tt else do retry_pass retryable; rest

  -- The `try` block of `_run`: the first pass and the retry passes.
  unfoldable pub run_passes : Option (List ℕ) → Exec (World W) (Unit {0})
  unfolding retry_loop retry_pass
  run_passes blocked = do
    execute_pass env engine blocked
    tx ← get_transaction
    retry_loop (engine.max_retries - tx.retry_count)

  -- The checkpoint whose ordinary failure is dropped.
  unfoldable pub last_checkpoint : Exec (World W) (Unit {0})
  last_checkpoint =
      try_except (checkpoint env) (λ e. is_exception e && not (is_memory_error e)) (λ e. pure tt)

  -- `if field is None: field = datetime.now(timezone.utc)`, where the clock is read only then.
  unfoldable pub fill_time : Option ℕ → (ℕ → Transaction → Transaction) → Exec (World W) (Unit {0})
  fill_time (some t) put = pure tt
  fill_time none put = do now ← ask env.now; modify_transaction (put now)

  -- `except MemoryError` of `_run`
  unfoldable pub interrupt : Exec (World W) (Unit {0})
  unfolding last_checkpoint fill_time
  interrupt = do
    modify_transaction interrupted_outcome
    tx ← get_transaction
    fill_time tx.finished_at (λ now t. record t { finished_at = some now })
    append env HistoryEvent.transaction_completed none true
    last_checkpoint
    raise memory_error

  -- `except ExecutionValidationError` of `_run`
  unfoldable pub reject : Error → Exec (World W) (Unit {0})
  reject e = do
    now ← ask env.now
    modify_transaction (validation_outcome now)
    append env HistoryEvent.transaction_completed none false
    raise e

  -- From the reset of skipped steps to the first checkpoint.
  unfoldable pub start_run : Exec (World W) (Unit {0})
  unfolding fill_time
  start_run = do
    modify_transaction reset_skipped_steps
    modify_transaction begin
    tx ← get_transaction
    fill_time tx.started_at (λ now t. record t { started_at = some now })
    modify_transaction (λ t. record t { finished_at = none })
    append env HistoryEvent.transaction_started none true
    checkpoint env

  -- The end of `_run`, after the `try` block.
  unfoldable pub finish_run : Exec (World W) (Unit {0})
  unfolding conclude
  finish_run = do
    modify_transaction conclude
    now ← ask env.now
    modify_transaction (λ t. record t { finished_at = some now })
    append env HistoryEvent.transaction_completed none true
    checkpoint env

  -- What `_run` does with a valid transaction.
  unfoldable pub run_valid : Exec (World W) (Unit {0})
  unfolding start_run run_passes interrupt finish_run
  run_valid = do
    tx ← get_transaction
    let blocked = initial_blocked_step_ids tx
    start_run
    try_except (run_passes blocked) is_memory_error (λ e. interrupt)
    finish_run

  -- `validate_for_execution` under its `try`: an `ExecutionValidationError` is recorded and raised
  -- again, any other error just escapes.
  unfoldable pub validate_run : Exec (World W) (Unit {0})
  unfolding reject
  validate_run = do
    tx ← get_transaction
    try_except (lift (validate_for_execution tx)) is_execution_validation reject

  -- `Engine.run`
  unfoldable pub run : Exec (World W) (Unit {0})
  unfolding validate_run run_valid
  run = do lift (check_emitter env); validate_run; run_valid
