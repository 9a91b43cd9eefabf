-- ===== src/Runner/Loop.antt =====
-- runner.py: `_run_items`, the rounds of a worker.
use rpacore.Base.{◌+◌, ◌≡◌, Bool, true, false, Option, none, some}
use rpacore.Exceptions.{Error}
use rpacore.Exec.{Exec, Result, ok, err}
use rpacore.Queue.Rows.{QueueItem}
use rpacore.Runner.State.{QueueRunSummary, Outside, WorkerState, Calls, on_run}
use rpacore.Runner.Retries.{attempts, next_item_with_retries}
use rpacore.Runner.Item.{run_claimed_item}

abbrev no_counts : QueueRunSummary
no_counts = record {
  processed = 0;
  completed = 0;
  failed = 0;
  callback_errors = 0;
  lifecycle_errors = 0;
  notification_errors = 0;
  retry_scheduled = 0;
  terminal_failed = 0;
  lease_lost = 0;
  transition_unknown = 0;
}

-- The state that a queue run starts in.
abbrev pub start_state : {W : Type 0} → Outside W → WorkerState W
start_state o = record {
  run = record { outside = o; revision = 0; persistence_errors = 0 };
  summary = no_counts;
}

module _ {W : Type 0} (calls : Calls W) where
  -- The item is counted and gets a heartbeat of its own, which has not failed.
  unfoldable pub start_item : WorkerState W → WorkerState W
  start_item st = record st {
    summary = record st.summary { processed = st.summary.processed + 1 };
    run = record st.run { outside = record st.run.outside { heartbeat = none } };
  }

  -- One round: no item is there, or one is claimed and run.
  unfoldable pub round_of : Result (Option QueueItem) × WorkerState W → Result Bool × WorkerState W
  unfolding start_item run_claimed_item
  round_of (err e, st) = (err e, st)
  round_of (ok none, st) = (ok false, st)
  round_of (ok (some item), st) = run_claimed_item calls item (start_item st)

  -- A round, and whether there is another one.
  unfoldable pub round : Exec (WorkerState W) Bool
  unfolding next_item_with_retries round_of
  round st = round_of (on_run (next_item_with_retries calls attempts) st)

  -- The loop, which goes on while items are there: how it ends, and in which state.
  pub data Runs : WorkerState W → Result (Unit {0}) → WorkerState W → Type 0 where
    ends : {s t : WorkerState W} → round s ≡ (ok false, t) → Runs s (ok tt) t
    raises : {s t : WorkerState W} {e : Error} → round s ≡ (err e, t) → Runs s (err e) t
    goes_on :
        {s t u : WorkerState W} {r : Result (Unit {0})}
        → round s ≡ (ok true, t)
        → Runs t r u
        → Runs s r u
