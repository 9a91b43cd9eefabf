-- ===== src/Runner/Item.antt =====
-- runner.py: `_run_claimed_item`, from the claim to the final transition of the item.
-- The callback sees the transaction and the error, and changes neither.
use rpacore.Base.{ℕ, ◌+◌, Bool, true, ◌&&◌, Option, none, some, if◌then◌else◌}
use rpacore.Exceptions.{Error}
use rpacore.Exec.{Exec, Result, ok, err, pure, raise, gets, lift, ◌>>=◌, ◌>>◌}
use rpacore.Json.{validate_json_object}
use rpacore.Transaction.{Transaction}
use rpacore.Recovery.{is_successful}
use rpacore.Engine.World.{Environment, World}
use rpacore.Engine.Run.{run}
use rpacore.Queue.Rows.{QueueItem}
use rpacore.Runner.State.{
  QueueRunSummary, Outside, RunState, Calls, is_fatal, ask, raise_if_failed, count, WorkerState,
  on_run,
}
use rpacore.Runner.Binding.{Bound, transaction_for_queue_item, lease_checked_checkpoint}
use rpacore.Runner.Progress.{Progress, failed_with, processed_as, later_error, heartbeat_failed}
use rpacore.Runner.Settle.{settle}

module _ {W : Type 0} (calls : Calls W) where
  abbrev pub inside {κ} : {A : Type κ} → (Outside W → A × Outside W) → RunState W → A × RunState W
  inside f st = let (a, o) = f st.outside in (a, record st { outside = o })

  abbrev pub inside_unit : (Outside W → Outside W) → RunState W → RunState W
  inside_unit f st = record st { outside = f st.outside }

  -- The checkpoint that the engine gets.
  unfoldable pub checkpoint_of : QueueItem → Transaction → Exec (RunState W) (Unit {0})
  unfolding lease_checked_checkpoint
  checkpoint_of item tx =
      if calls.persists then lease_checked_checkpoint calls item tx else raise_if_failed

  -- The engine's calls, on the state of the runner.
  unfoldable pub engine_calls : QueueItem → Environment (RunState W)
  unfolding checkpoint_of
  engine_calls item = record {
    execute = λ s tx. inside (calls.environment.execute s tx);
    now = inside calls.environment.now;
    sleep = λ n. inside_unit (calls.environment.sleep n);
    capture = inside calls.environment.capture;
    new_id = inside calls.environment.new_id;
    checkpoint = some (checkpoint_of item);
    sink = elim calls.environment.sink [ none ↦ none | some f ↦ some (λ t. inside (f t)) ];
    state_fields = calls.environment.state_fields;
  }

  -- `engine.run(ctx, checkpoint=checkpoint)`, but for a stored transaction that is successful.
  unfoldable pub run_engine : Bound → RunState W → Result (Unit {0}) × World (RunState W)
  unfolding engine_calls run
  run_engine b st =
      let w : World (RunState W) = record {
        transaction = b.transaction;
        outside = record st { revision = b.revision };
      } in
      if calls.persists && is_successful b.transaction.status
      then (ok tt, w)
      else run (engine_calls b.item) calls.engine w

  -- What an `except` of the processing makes of an error.
  abbrev pub caught : QueueItem → Option Transaction → Error → Exec (RunState W) Progress
  caught item tx e st = if is_fatal e then (err e, st) else (ok (failed_with item tx e), st)

  abbrev pub checked_result :
      QueueItem → World (RunState W) → Result (Unit {0}) → Result Progress × RunState W
  checked_result item w (ok _) = (ok (processed_as item w.transaction), w.outside)
  checked_result item w (err e) = caught item (some w.transaction) e w.outside

  -- After the engine: the lease, and the durable state.
  unfoldable pub after_engine :
      QueueItem → Result (Unit {0}) × World (RunState W) → Result Progress × RunState W
  unfolding validate_json_object
  after_engine item (err e, w) = caught item (some w.transaction) e w.outside
  after_engine item (ok _, w) =
      checked_result item w
        ((raise_if_failed >> lift (validate_json_object w.transaction.state)) w.outside).0

  unfoldable pub after_binding :
      QueueItem → Result Bound × RunState W → Result Progress × RunState W
  unfolding run_engine after_engine
  after_binding item (ok b, st) = after_engine b.item (run_engine b st)
  after_binding item (err e, st) = caught item none e st

  -- The first `try` block.
  unfoldable pub process : QueueItem → Exec (RunState W) Progress
  unfolding transaction_for_queue_item after_binding
  process item st = after_binding item (transaction_for_queue_item calls item st)

  abbrev pub heartbeat_result : Progress → Option Error → Exec (RunState W) Progress
  heartbeat_result p none = pure p
  heartbeat_result p (some e) = if is_fatal e then raise e else pure (heartbeat_failed e p)

  -- `heartbeat.raise_if_failed()` after the processing, where the lease is not lost already.
  unfoldable pub check_heartbeat : Progress → Exec (RunState W) Progress
  check_heartbeat p =
      if p.lease_lost
      then pure p
      else gets (λ (st : RunState W). st.outside.heartbeat) >>= heartbeat_result p

  abbrev pub count_notifications : ℕ → QueueRunSummary → QueueRunSummary
  count_notifications n s = record s { notification_errors = s.notification_errors + n }

  abbrev pub report_result :
      Progress → Transaction → Result (Unit {0}) → Exec (WorkerState W) Progress
  report_result p tx (ok _) = do
    n ← on_run (ask (calls.dispatch tx))
    count (count_notifications n)
    pure p
  report_result p tx (err e) = if is_fatal e then raise e else pure (later_error e p)

  abbrev pub report_of : Progress → Option Transaction → Exec (WorkerState W) Progress
  report_of p none = pure p
  report_of p (some tx) = on_run (ask (calls.generate_report tx)) >>= report_result p tx

  -- The report and its notifications.
  unfoldable pub report : Progress → Exec (WorkerState W) Progress
  report p = if p.lease_lost then pure p else report_of p p.transaction

  abbrev pub callback_result : Progress → Result (Unit {0}) → Exec (RunState W) Progress
  callback_result p (ok _) = pure p
  callback_result p (err e) =
      if is_fatal e then raise e else pure (record p { callback_failed = true })

  -- `after_item(item, transaction, error)`
  unfoldable pub call_after_item : Progress → Exec (RunState W) Progress
  call_after_item p = if p.lease_lost then pure p else elim calls.after_item [
    | none ↦ pure p
    | some f ↦ ask (f p.item p.transaction p.error) >>= callback_result p
  ]

  -- `_run_claimed_item_with_context`
  unfoldable pub run_claimed_item : QueueItem → Exec (WorkerState W) Bool
  unfolding process check_heartbeat report call_after_item settle
  run_claimed_item item = do
    p ← on_run (process item)
    p1 ← on_run (check_heartbeat p)
    p2 ← report p1
    p3 ← on_run (call_after_item p2)
    p4 ← on_run (check_heartbeat p3)
    settle calls item p4
