-- ===== src/Queue/Claims.antt =====
-- queue.py: the operations of the worker that holds a claim, and the administrator's.
use rpacore.Base.{
  ℕ, ◌+◌, String, Bool, true, false, ◌&&◌, List, [], ◌∷◌, ◌++◌, Option, none, some, leb, find,
  is_blank, codes, if◌then◌else◌,
}
use rpacore.Exceptions.{value_error, key_error, queue_lease_lost}
use rpacore.Exec.{Exec, ok, err, pure, gets, modify, ◌>>=◌, ◌>>◌}
use rpacore.Definition.{strip}
use rpacore.Queue.Rows.{
  QueueStatus, QueueAttemptOutcome, QueueItem, QueueAdminEvent, Store, is_pending, is_failed,
  is_empty, has_id, matches, owned_by, close_attempt, update_item,
}
use rpacore.Queue.Retry.{QueuePolicy, retry_available_at}

-- The guarded update of a claimed item, and the error when no row changed.
unfoldable pub update_owned :
    String → String → String → (QueueItem → QueueItem) → Exec Store (Unit {0})
unfolding matches
update_owned i worker token f db =
    if matches i (owned_by worker token) db.items
    then (ok tt, update_item i f db)
    else (err queue_lease_lost, db)

-- `SqliteQueue.bind_transaction`
unfoldable pub bind_transaction : String → String → String → String → Exec Store (Unit {0})
unfolding update_owned
bind_transaction i transaction_id worker token =
    update_owned i worker token (λ r. record r { transaction_id = transaction_id })

-- `SqliteQueue.renew_lease`
unfoldable pub renew_lease : ℕ → String → String → String → Exec Store (Unit {0})
unfolding update_owned
renew_lease now i worker token =
    update_owned i worker token (λ r. record r { claimed_at = some now })

abbrev pub completed : QueueItem → QueueItem
completed r = record r {
  status = QueueStatus.successful;
  claimed_at = none;
  claim_token = "";
  available_at = none;
}

-- `SqliteQueue.complete`
unfoldable pub complete : ℕ → String → String → String → Exec Store (Unit {0})
unfolding update_owned
complete now i worker token = do
  update_owned i worker token completed
  modify (close_attempt i token QueueAttemptOutcome.successful now)

-- The row behind a failure: pending again with a new delivery time, or failed.
abbrev pub released : QueueStatus → ℕ → String → Option ℕ → QueueItem → QueueItem
released status retry_count worker due r = record r {
  status = status;
  retry_count = retry_count;
  claimed_by = worker;
  claimed_at = none;
  claim_token = "";
  available_at = due;
}

abbrev pub retry_status : Bool → QueueStatus
retry_status true = QueueStatus.pending
retry_status false = QueueStatus.failed

abbrev pub retry_outcome : Bool → QueueAttemptOutcome
retry_outcome true = QueueAttemptOutcome.retry_scheduled
retry_outcome false = QueueAttemptOutcome.failed

abbrev pub due_if : Bool → ℕ → ℕ → QueuePolicy → Option ℕ
due_if true now retry_count policy = retry_available_at now retry_count policy
due_if false now retry_count policy = none

abbrev pub count_of : Option QueueItem → ℕ
count_of none = 0
count_of (some r) = r.retry_count

-- `SELECT retry_count FROM queue_items WHERE id = ?`
unfoldable pub retry_count_of : String → Store → ℕ
retry_count_of i db = count_of (find (has_id i) db.items)

-- `SqliteQueue.fail`, whose `SELECT` and `UPDATE` have the same guard.
unfoldable pub fail :
    QueuePolicy → ℕ → String → Bool → String → String → Exec Store QueueAttemptOutcome
unfolding update_owned retry_count_of
fail policy now i retry worker token = do
  count ← gets (retry_count_of i)
  let again = retry && leb (count + 1) policy.max_retries
  let due = due_if again now (count + 1) policy
  update_owned i worker token
      (released (retry_status again) (count + 1) (if again then "" else worker) due)
  modify (close_attempt i token (retry_outcome again) now)
  pure (retry_outcome again)

-- The claim that an override closes, if the row has one.
abbrev pub close_claim : String → String → QueueAttemptOutcome → ℕ → Store → Store
close_claim i token outcome now db =
    if is_empty token then db else close_attempt i token outcome now db

abbrev action_of : QueueStatus → String
action_of QueueStatus.successful = "force_complete"
action_of _ = "force_fail"

abbrev add_admin_event : QueueAdminEvent → Store → Store
add_admin_event e db = record db { admin_events = db.admin_events ++ (e ∷ []) }

-- The rest of `_force_transition`, for the row that it has read.
unfoldable pub force_row : QueuePolicy → ℕ → QueueStatus → List ℕ → Bool → QueueItem → Store → Store
unfolding close_attempt
force_row policy now requested reason retry r db =
    let fails = is_failed requested in
    let count = if fails then r.retry_count + 1 else r.retry_count in
    let again = fails && retry && leb count policy.max_retries in
    let status = if again then QueueStatus.pending else requested in
    let due = due_if (is_pending status) now count policy in
    add_admin_event
      (record {
        item_id = r.id;
        action = action_of requested;
        reason = reason;
        previous_status = r.status;
        new_status = status;
        created_at = now;
      })
      (close_claim r.id r.claim_token QueueAttemptOutcome.admin_override now
        (update_item r.id (released status count "" due) db))

-- `_force_transition`
unfoldable pub force_transition :
    QueuePolicy → ℕ → String → QueueStatus → String → Bool → Exec Store (Unit {0})
unfolding force_row strip
force_transition policy now i requested reason retry db =
    if is_blank reason then (err value_error, db) else elim (find (has_id i) db.items) [
      | none ↦ (err key_error, db)
      | some r ↦ (ok tt, force_row policy now requested (strip (codes reason)) retry r db)
    ]

-- `SqliteQueue.force_complete`
unfoldable pub force_complete : QueuePolicy → ℕ → String → String → Exec Store (Unit {0})
unfolding force_transition
force_complete policy now i reason =
    force_transition policy now i QueueStatus.successful reason false

-- `SqliteQueue.force_fail`
unfoldable pub force_fail : QueuePolicy → ℕ → String → String → Bool → Exec Store (Unit {0})
unfolding force_transition
force_fail policy now i reason retry = force_transition policy now i QueueStatus.failed reason retry
