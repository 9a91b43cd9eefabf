-- ===== src/Runner/Progress.antt =====
-- runner.py: the variables of `_run_claimed_item_with_context`.
use rpacore.Base.{Bool, true, false, ◌||◌, Option, none, some, if◌then◌else◌}
use rpacore.Exceptions.{Error}
use rpacore.Transaction.{Transaction}
use rpacore.Recovery.{is_successful}
use rpacore.Queue.Rows.{QueueItem}
use rpacore.Runner.State.{is_lease_lost, is_fence_error}

-- The variables of `_run_claimed_item_with_context`.
pub record Progress : Type 0 where
  pub item : QueueItem
  pub transaction : Option Transaction
  pub error : Option Error
  pub outcome_error : Option Error
  pub intended_complete : Bool
  pub callback_failed : Bool
  pub lease_lost : Bool

abbrev pub or_error : Option Error → Error → Option Error
or_error none e = some e
or_error (some d) e = some d

-- The item after its processing has raised.
abbrev pub failed_with : QueueItem → Option Transaction → Error → Progress
failed_with item tx e = record {
  item = item;
  transaction = tx;
  error = some e;
  outcome_error = some e;
  intended_complete = false;
  callback_failed = false;
  lease_lost = is_lease_lost e || is_fence_error e;
}

abbrev pub processed_as : QueueItem → Transaction → Progress
processed_as item tx = record {
  item = item;
  transaction = some tx;
  error = none;
  outcome_error = none;
  intended_complete = is_successful tx.status;
  callback_failed = false;
  lease_lost = false;
}

abbrev pub later_error : Error → Progress → Progress
later_error e p = record p { error = or_error p.error e }

abbrev pub heartbeat_failed : Error → Progress → Progress
heartbeat_failed e p =
    if is_lease_lost e
    then record p { error = some e; outcome_error = some e; lease_lost = true }
    else record p { error = or_error p.error e; outcome_error = or_error p.outcome_error e }
