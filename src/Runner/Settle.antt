-- ===== src/Runner/Settle.antt =====
-- runner.py: the final transition of an item, and the counters of the summary.
use rpacore.Base.{◌+◌, Bool, true, false, if◌then◌else◌}
use rpacore.Exceptions.{Error}
use rpacore.Exec.{Exec, Result, ok, err, pure, raise, ◌>>=◌, ◌>>◌}
use rpacore.Queue.Rows.{QueueItem, QueueAttemptOutcome}
use rpacore.Runner.State.{QueueRunSummary, Calls, is_lease_lost, count, WorkerState, on_run}
use rpacore.Runner.Retries.{complete_with_retries, fail_with_retries}
use rpacore.Runner.Policy.{wants_retry}
use rpacore.Runner.Progress.{Progress}

abbrev pub add_lease_lost : QueueRunSummary → QueueRunSummary
add_lease_lost s = record s { failed = s.failed + 1; lease_lost = s.lease_lost + 1 }

abbrev pub add_completed : Bool → QueueRunSummary → QueueRunSummary
add_completed callback_failed s = record s {
  completed = s.completed + 1;
  callback_errors = if callback_failed then s.callback_errors + 1 else s.callback_errors;
}

abbrev pub add_failed : QueueAttemptOutcome → QueueRunSummary → QueueRunSummary
add_failed QueueAttemptOutcome.retry_scheduled s = record s {
  failed = s.failed + 1;
  retry_scheduled = s.retry_scheduled + 1;
}
add_failed QueueAttemptOutcome.failed s = record s {
  failed = s.failed + 1;
  terminal_failed = s.terminal_failed + 1;
}
add_failed _ s = record s { failed = s.failed + 1; transition_unknown = s.transition_unknown + 1 }

module _ {W : Type 0} (calls : Calls W) where
  -- The rest behind a transition that was refused.
  abbrev pub refused : Error → Exec (WorkerState W) Bool
  refused e = if is_lease_lost e then (count add_lease_lost >> pure false) else raise e

  abbrev pub complete_result : Bool → Result (Unit {0}) → Exec (WorkerState W) Bool
  complete_result callback_failed (ok _) = count (add_completed callback_failed) >> pure true
  complete_result callback_failed (err e) = refused e

  abbrev pub fail_result : Result QueueAttemptOutcome → Exec (WorkerState W) Bool
  fail_result (ok outcome) = count (add_failed outcome) >> pure true
  fail_result (err e) = refused e

  -- The final transition of the item; whether the loop goes on. It reads the claim of the item, which
  -- the processing has not changed.
  unfoldable pub settle : QueueItem → Progress → Exec (WorkerState W) Bool
  unfolding complete_with_retries fail_with_retries wants_retry
  settle item p =
      if p.lease_lost
      then (count add_lease_lost >> pure false)
      else if p.intended_complete
      then (on_run (complete_with_retries calls item) >>= complete_result p.callback_failed)
      else (on_run (
            fail_with_retries calls item
              (wants_retry calls.retry_business_failures p.transaction p.outcome_error))
          >>= fail_result)
