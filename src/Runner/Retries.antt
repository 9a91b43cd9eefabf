-- ===== src/Runner/Retries.antt =====
-- runner.py: the statements that are tried again on a locked database.
use rpacore.Base.{ℕ, zero, suc, pos, Bool, not, ◌&&◌, Option, none, some, ◌==◌, if◌then◌else◌}
use rpacore.Exceptions.{Error, runtime_error, queue_lease_lost, memory_error, lease_renewal}
use rpacore.Exec.{Exec, Result, ok, err, pure, ◌>>=◌, ◌>>◌}
use rpacore.Transaction.{Transaction}
use rpacore.Queue.Rows.{QueueItem, QueueAttemptOutcome}
use rpacore.Queue.Claims.{complete, fail, renew_lease}
use rpacore.Queue.Delivery.{next_item}
use rpacore.Checkpoint.{Claim, save_queue_transaction_fenced}
use rpacore.Runner.State.{
  RunState, Calls, is_fatal, is_transient_lock, ask, raise_if, on_queue, on_stores,
}

-- `_LEASE_RENEW_ATTEMPTS`, `_PERSISTENCE_SAVE_ATTEMPTS` and `_CLAIM_ATTEMPTS`
abbrev pub attempts : ℕ
attempts = 3

module _ {W : Type 0} (calls : Calls W) where
  -- One attempt at a statement: others come first, or SQLite refuses it.
  abbrev pub attempt {κ} : {A : Type κ} → Exec (RunState W) A → Exec (RunState W) A
  attempt m = ask calls.interrupted >>= raise_if >> m

  abbrev pub again : Error → ℕ → Bool
  again e left = is_transient_lock e && not (left == 0)

  -- The loop of the four functions below over the attempts that are left; an error that is not fatal
  -- is a value.
  unfoldable pub with_retries {κ} :
      {A : Type κ} → ℕ → Exec (RunState W) A → Exec (RunState W) (Result A)
  with_retries zero m st = (ok (err runtime_error), st)
  with_retries (suc left) m st =
      let (r, st') = m st in
      let rest = with_retries left m (ask calls.pause st').1 in
      elim r [
        | ok a ↦ (ok (ok a), st')
        | err e ↦
            (if again e left then rest else if is_fatal e then (err e, st') else (ok (err e), st'))
      ]

  -- `queue.complete(item.id, …)`
  abbrev pub complete_item : QueueItem → Exec (RunState W) (Unit {0})
  complete_item item = ask calls.environment.now >>= λ now.
      on_queue (complete now item.id item.claimed_by item.claim_token)

  -- `_complete_queue_item_with_retries`
  unfoldable pub complete_with_retries : QueueItem → Exec (RunState W) (Result (Unit {0}))
  unfolding with_retries complete
  complete_with_retries item = with_retries attempts (attempt (complete_item item))

  abbrev pub fail_item : QueueItem → Bool → Exec (RunState W) QueueAttemptOutcome
  fail_item item retry = ask calls.environment.now >>= λ now.
      on_queue (fail calls.policy now item.id retry item.claimed_by item.claim_token)

  -- `QueueProvider.fail() must return …`
  abbrev pub attested : Result QueueAttemptOutcome → Result QueueAttemptOutcome
  attested (ok QueueAttemptOutcome.retry_scheduled) = ok QueueAttemptOutcome.retry_scheduled
  attested (ok QueueAttemptOutcome.failed) = ok QueueAttemptOutcome.failed
  attested (ok _) = err runtime_error
  attested (err e) = err e

  -- `_fail_queue_item_with_retries`
  unfoldable pub fail_with_retries :
      QueueItem → Bool → Exec (RunState W) (Result QueueAttemptOutcome)
  unfolding with_retries fail
  fail_with_retries item retry = do
    r ← with_retries attempts (attempt (fail_item item retry))
    pure (attested r)

  abbrev pub claim_of : QueueItem → Claim
  claim_of item = record {
    queue_item_id = item.id;
    claimed_by = item.claimed_by;
    claim_token = item.claim_token;
  }

  -- `_save_queue_transaction_with_retries`
  unfoldable pub save_with_retries :
      QueueItem → Transaction → ℕ → Bool → Exec (RunState W) (Result ℕ)
  unfolding with_retries save_queue_transaction_fenced
  save_with_retries item tx expected_revision initial = with_retries attempts (
      attempt (
        on_stores
          (save_queue_transaction_fenced tx (claim_of item) (pos expected_revision) initial)))

  -- The error that the heartbeat keeps, of a renewal that failed.
  abbrev pub kept_error : Error → Error
  kept_error queue_lease_lost = queue_lease_lost
  kept_error memory_error = memory_error
  kept_error e = if is_fatal e then e else lease_renewal

  abbrev pub set_heartbeat : Option Error → RunState W → RunState W
  set_heartbeat e st = record st { outside = record st.outside { heartbeat = e } }

  -- One round of the heartbeat's thread: `_renew_lease_with_retries`, and what becomes of its error.
  unfoldable pub heartbeat_round : QueueItem → Exec (RunState W) (Unit {0})
  unfolding with_retries renew_lease
  heartbeat_round item st =
      let (r, st') =
        with_retries attempts
          (attempt (
            ask calls.environment.now >>= λ now.
            on_queue (renew_lease now item.id item.claimed_by item.claim_token)))
          st in
      elim r [
        | ok (ok _) ↦ (ok tt, st')
        | ok (err e) ↦ (ok tt, set_heartbeat (some (kept_error e)) st')
        | err e ↦ (ok tt, set_heartbeat (some (kept_error e)) st')
      ]

  -- `queue.next_item(worker_id)`
  abbrev pub claim_item : Exec (RunState W) (Option QueueItem)
  claim_item = ask calls.environment.now >>= λ now. ask calls.new_token >>= λ token. on_queue (λ db.
      let (item, db') = next_item calls.policy now calls.worker_id token db in (ok item, db'))

  -- `_next_item_with_retries`
  unfoldable pub next_item_with_retries : ℕ → Exec (RunState W) (Option QueueItem)
  unfolding next_item
  next_item_with_retries zero st = (err runtime_error, st)
  next_item_with_retries (suc left) st =
      let (stopped, o) = calls.is_stopped st.outside in
      let st0 = record st { outside = o } in
      let (r, st') = attempt claim_item st0 in
      let rest = next_item_with_retries left (ask calls.pause st').1 in
      if stopped
      then (ok none, st0)
      else elim r [ ok a ↦ (ok a, st') | err e ↦ (if again e left then rest else (err e, st')) ]
