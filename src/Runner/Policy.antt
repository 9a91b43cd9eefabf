-- ===== src/Runner/Policy.antt =====
-- runner.py: when a failed item is tried again.
use rpacore.Base.{
  ℕ, ℤ, Bool, true, false, not, ◌&&◌, ◌||◌, List, [], ◌∷◌, Option, none, some, ◌==◌, eq_ℤ, all, any,
  str_eq, if◌then◌else◌,
}
use rpacore.Status.{Status, HistoryEvent, is_step_failed}
use rpacore.Exceptions.{
  Error, is_business, last_is, checkpoint_failed, durable_binding, lease_renewal,
}
use rpacore.Transaction.{Step, HistoryEntry, Transaction, failed_steps}
use rpacore.Runner.State.{is_invalid}

abbrev status_code : Status → ℕ
status_code Status.pending = 0
status_code Status.in_progress = 1
status_code Status.successful = 2
status_code Status.failed = 3
status_code Status.skipped = 4

abbrev event_code : HistoryEvent → ℕ
event_code HistoryEvent.transaction_started = 0
event_code HistoryEvent.step_started = 1
event_code HistoryEvent.step_succeeded = 2
event_code HistoryEvent.step_failed = 3
event_code HistoryEvent.step_skipped = 4
event_code HistoryEvent.step_interrupted = 5
event_code HistoryEvent.retry_scheduled = 6
event_code HistoryEvent.transaction_resumed = 7
event_code HistoryEvent.transaction_completed = 8

abbrev same_order : Option ℤ → Option ℤ → Bool
same_order none none = true
same_order (some a) (some b) = eq_ℤ a b
same_order _ _ = false

-- `==` of two entries, a dataclass.
abbrev pub same_entry : HistoryEntry → HistoryEntry → Bool
same_entry a b =
    a.sequence == b.sequence
    && a.timestamp == b.timestamp
    && event_code a.event == event_code b.event
    && status_code a.status == status_code b.status
    && a.retry_number == b.retry_number
    && str_eq a.step_name b.step_name
    && same_order a.step_execution_order b.step_execution_order

unfoldable pub same_history : List HistoryEntry → List HistoryEntry → Bool
same_history [] [] = true
same_history (a ∷ as') (b ∷ bs) = same_entry a b && same_history as' bs
same_history _ _ = false

abbrev pub ends_in_business : Step → Bool
ends_in_business s = last_is is_business s.exceptions

-- `_has_business_failed_step`
unfoldable pub has_business_failed_step : Transaction → Bool
unfolding failed_steps
has_business_failed_step tx = any ends_in_business (failed_steps tx)

abbrev is_nonempty : List Step → Bool
is_nonempty [] = false
is_nonempty (_ ∷ _) = true

-- `_transaction_has_only_business_failures`
unfoldable pub has_only_business_failures : Option Transaction → Bool
unfolding failed_steps
has_only_business_failures none = false
has_only_business_failures (some tx) =
    is_nonempty (failed_steps tx) && all ends_in_business (failed_steps tx)

abbrev pub is_step_succeeded : HistoryEvent → Bool
is_step_succeeded HistoryEvent.step_succeeded = true
is_step_succeeded _ = false

abbrev pub last_is_event : (HistoryEvent → Bool) → List HistoryEntry → Bool
last_is_event p [] = false
last_is_event p (e ∷ []) = p e.event
last_is_event p (_ ∷ e ∷ es) = last_is_event p (e ∷ es)

-- `_in_memory_checkpoint_failure_allows_queue_retry`
unfoldable pub in_memory_allows_retry : Transaction → Bool
unfolding has_business_failed_step
in_memory_allows_retry tx =
    if last_is_event is_step_failed tx.history then not (has_business_failed_step tx) else true

-- `_transaction_history_allows_queue_retry`
unfoldable pub history_allows_retry : Transaction → Bool
unfolding has_business_failed_step
history_allows_retry tx =
    if last_is_event is_step_succeeded tx.history
    then false
    else if last_is_event is_step_failed tx.history
    then not (has_business_failed_step tx)
    else true

-- `_checkpoint_failure_allows_queue_retry`, for the snapshot that was loaded, if one was.
unfoldable pub checkpoint_allows_retry : Transaction → Option Transaction → Bool
unfolding same_history in_memory_allows_retry history_allows_retry
checkpoint_allows_retry tx none = in_memory_allows_retry tx
checkpoint_allows_retry tx (some durable) =
    if same_history durable.history tx.history
    then history_allows_retry durable
    else in_memory_allows_retry tx

abbrev retry_on_error : Bool → Error → Bool
retry_on_error invalid (checkpoint_failed retry) = retry
retry_on_error invalid durable_binding = false
retry_on_error invalid lease_renewal = true
retry_on_error invalid e = not invalid

-- Whether `queue.fail` is asked for a retry, at the end of `_run_claimed_item_with_context`.
unfoldable pub wants_retry : Bool → Option Transaction → Option Error → Bool
unfolding has_only_business_failures
wants_retry retry_business_failures tx (some e) = retry_on_error (is_invalid e) e
wants_retry retry_business_failures tx none =
    retry_business_failures || not (has_only_business_failures tx)
