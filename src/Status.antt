-- ===== src/Status.antt =====
-- The closed vocabularies of status.py and outcome.py, and the history events of transaction.py.
use rpacore.Base.{Bool, true, false}

-- `Status`
pub data Status : Type 0 where
  pending in_progress successful failed skipped : Status

-- `OutcomeCategory`
pub data OutcomeCategory : Type 0 where
  successful business_failed system_failed validation_failed interrupted lease_lost unknown :
      OutcomeCategory

-- `RetryDisposition`
pub data RetryDisposition : Type 0 where
  not_applicable not_requested retry_scheduled retry_exhausted unknown : RetryDisposition

-- `HistoryEvent`
pub data HistoryEvent : Type 0 where
  transaction_started step_started step_succeeded step_failed step_skipped : HistoryEvent
  step_interrupted retry_scheduled transaction_resumed transaction_completed : HistoryEvent

abbrev pub is_failed : Status → Bool
is_failed Status.failed = true
is_failed _ = false

abbrev pub is_pending : Status → Bool
is_pending Status.pending = true
is_pending _ = false

abbrev pub is_skipped : Status → Bool
is_skipped Status.skipped = true
is_skipped _ = false

-- `status in (Status.SUCCESSFUL, Status.SKIPPED)`
abbrev pub is_complete : Status → Bool
is_complete Status.successful = true
is_complete Status.skipped = true
is_complete _ = false

abbrev pub is_step_failed : HistoryEvent → Bool
is_step_failed HistoryEvent.step_failed = true
is_step_failed _ = false

abbrev pub is_resumed : HistoryEvent → Bool
is_resumed HistoryEvent.transaction_resumed = true
is_resumed _ = false

abbrev pub is_completed : HistoryEvent → Bool
is_completed HistoryEvent.transaction_completed = true
is_completed _ = false
