-- ===== src/Engine/Pass.antt =====
-- engine.py, `_execute_pass`: one pass over the steps in their order.
use rpacore.Base.{
  ℕ, String, Bool, true, false, not, ◌||◌, List, [], ◌∷◌, Option, none, some, any, ◌==◌,
  if◌then◌else◌,
}
use rpacore.Status.{Status, HistoryEvent, is_complete, is_skipped, is_pending}
use rpacore.Exceptions.{StepException, ExceptionKind, memory_error, halts_remaining_steps}
use rpacore.Exec.{Exec, ok, pure, raise, ◌>>=◌, ◌>>◌}
use rpacore.Transaction.{Step, Transaction, ordered_steps}
use rpacore.Engine.World.{
  Environment, World, Engine, StepEffect, StepOutcome, returned, raised_business, raised_system,
  raised_memory_error, raised_exception, raised_base, get_transaction, ask, current_step,
  change_step, set_status,
}
use rpacore.Engine.Transitions.{append}
use rpacore.Engine.Failures.{checkpoint, record_failure}

abbrev pub is_blocked : Option (List ℕ) → Step → Bool
is_blocked none s = false
is_blocked (some blocked) s = any (λ i. s.ident == i) blocked

-- The writes of a step to its transaction.
unfoldable pub apply_effect : Step → StepEffect → Transaction → Transaction
apply_effect s e tx =
    let tx' = record tx { state = e.state; artifacts = e.artifacts } in
    if e.marks_skipped then change_step s (λ t. record t { status = Status.skipped }) tx' else tx'

-- `SystemException(str(exc), action=step.name, retry_number=…, code="rpacore.system.unexpected")`
abbrev pub wrap : Step → String → ℕ → StepException
wrap s message now = record {
  kind = ExceptionKind.system;
  message = message;
  action = s.name;
  retry_number = 0;
  occurred_at = now;
  screenshot_path = "";
  halts_flag = true;
  code = "rpacore.system.unexpected";
}

module _ {W : Type 0} (env : Environment W) (engine : Engine) where
  -- `step.execute(ctx)`
  unfoldable pub execute_step : Step → Exec (World W) StepOutcome
  unfolding apply_effect current_step
  execute_step s w =
      let (effect, outside) = env.execute (current_step s w.transaction) w.transaction w.outside in
      (
        ok effect.outcome,
        record { transaction = apply_effect s effect w.transaction; outside = outside },
      )

  -- The body of the loop of `_skip_downstream_pending_steps`, behind the failed step.
  unfoldable pub skip_if_pending : Step → Status → Exec (World W) (Unit {0})
  skip_if_pending s status =
      if not (is_pending status)
      then pure tt
      else do set_status s Status.skipped; append env HistoryEvent.step_skipped (some s) true

  -- The loop of `_skip_downstream_pending_steps`; the flag is `should_skip`.
  unfoldable pub skip_downstream_from : Step → Bool → List Step → Exec (World W) (Unit {0})
  unfolding skip_if_pending
  skip_downstream_from failed should_skip [] = pure tt
  skip_downstream_from failed should_skip (s ∷ ss) =
      let rest = skip_downstream_from failed (should_skip || s.ident == failed.ident) ss in
      if s.ident == failed.ident || not should_skip
      then rest
      else do tx ← get_transaction; skip_if_pending s (current_step s tx).status; rest

  -- `_skip_downstream_pending_steps`
  unfoldable pub skip_downstream : Step → Exec (World W) (Unit {0})
  unfolding skip_downstream_from ordered_steps
  skip_downstream failed = do
    tx ← get_transaction
    skip_downstream_from failed false (ordered_steps tx)
    checkpoint env

  -- The `else` clause of the `try`, for a step that returned.
  unfoldable pub finish_step : Step → Status → Exec (World W) (Unit {0})
  finish_step s status =
      if is_skipped status
      then append env HistoryEvent.step_skipped (some s) true
      else do set_status s Status.successful; append env HistoryEvent.step_succeeded (some s) true

  -- The business-failed step may end the pass.
  unfoldable pub halt_or_continue : Step → StepException → Exec (World W) Bool
  halt_or_continue s e =
      if not (halts_remaining_steps e) then pure true else do skip_downstream s; pure false

  -- The handlers of `step.execute(ctx)`; the result is false at a `break`.
  unfoldable pub handle : Step → StepOutcome → Exec (World W) Bool
  unfolding finish_step halt_or_continue
  handle s returned = do
    tx ← get_transaction
    finish_step s (current_step s tx).status
    checkpoint env
    pure true
  handle s (raised_business e) = do record_failure env engine s e; halt_or_continue s e
  handle s (raised_system e) = do record_failure env engine s e; pure false
  handle s raised_memory_error = do
    set_status s Status.failed
    append env HistoryEvent.step_interrupted (some s) true
    checkpoint env
    raise memory_error
  handle s (raised_exception message) = do
    now ← ask env.now
    record_failure env engine s (wrap s message now)
    pure false
  handle s (raised_base e) = raise e

  -- A step that is neither complete nor blocked.
  unfoldable pub start_step : Step → Exec (World W) Bool
  unfolding execute_step handle
  start_step s = do
    set_status s Status.in_progress
    append env HistoryEvent.step_started (some s) true
    checkpoint env
    outcome ← execute_step s
    handle s outcome

  -- One round of the loop of `_execute_pass`.
  unfoldable pub run_step : Option (List ℕ) → Step → Exec (World W) Bool
  unfolding start_step
  run_step blocked s = do
    tx ← get_transaction
    if is_complete (current_step s tx).status || is_blocked blocked s
        then pure true
        else start_step s

  unfoldable pub run_steps : Option (List ℕ) → List Step → Exec (World W) (Unit {0})
  unfolding run_step
  run_steps blocked [] = pure tt
  run_steps blocked (s ∷ ss) =
      let rest = run_steps blocked ss in
      do continues ← run_step blocked s; if continues then rest else pure tt

  -- `_execute_pass`
  unfoldable pub execute_pass : Option (List ℕ) → Exec (World W) (Unit {0})
  unfolding run_steps ordered_steps
  execute_pass blocked = do tx ← get_transaction; run_steps blocked (ordered_steps tx)
