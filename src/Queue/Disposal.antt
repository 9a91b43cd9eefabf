-- ===== src/Queue/Disposal.antt =====
-- What becomes of an item whose worker reports a failure.
use rpacore.Base.{ℕ, ◌+◌, ◌≡◌, String, Bool, some, find, if◌then◌else◌}
use rpacore.Exec.{Exec, ok, pure, modify, ◌>>=◌}
use rpacore.Queue.Rows.{QueueAttemptOutcome, QueueItem, Store, has_id, close_attempt}
use rpacore.Queue.Retry.{QueuePolicy}
use rpacore.Queue.Claims.{update_owned, released, retry_status, retry_outcome, due_if, fail}

module _ (policy : QueuePolicy) (now : ℕ) (i : String) (retry : Bool) (worker token : String) where
  -- The row after a failure, if a retry follows or not.
  abbrev pub after_fail : Bool → QueueItem → QueueItem
  after_fail again r =
      released (retry_status again) (r.retry_count + 1) (if again then "" else worker)
        (due_if again now (r.retry_count + 1) policy) r

  -- The end of a failure report: its result, and the row that it leaves.
  abbrev pub Disposes : Bool → QueueItem → Store → Type 0
  Disposes again r db =
      ((fail policy now i retry worker token db).0 ≡ ok (retry_outcome again))
      × (find (has_id i) (fail policy now i retry worker token db).1.items
          ≡ some (after_fail again r))

  reported : ℕ → Bool → Exec Store QueueAttemptOutcome
  reported count again =
      update_owned i worker token (
        released (retry_status again) count (if again then "" else worker)
          (due_if again now count policy))
      >>= λ _. modify (close_attempt i token (retry_outcome again) now) >>= λ _.
          pure (retry_outcome again)
