-- ===== src/Checkpoint.antt =====
-- _queue_checkpoint.py: a snapshot is saved while its worker holds the claim of the queue item.
-- The checks of schema versions and journal modes are not modelled.
pub mod Guarded
mod Tests
use rpacore.Base.{
  ℕ, ℤ, pos, negsuc, String, Bool, true, false, not, ◌&&◌, ◌||◌, List, Option, none, some, ◌==◌,
  is_blank, str_eq, find, if◌then◌else◌,
}
use rpacore.Exceptions.{Error, value_error, execution_validation, transaction_fence}
use rpacore.Exec.{Result, ok, err, Exec, pure, lift, gets, modify, require, and_then, ◌>>=◌, ◌>>◌}
use rpacore.Transaction.{Transaction}
use rpacore.Queue.Rows.{QueueItem, Store, is_empty, has_id, matches, owned_by, update_item}
use rpacore.Persistence.Rows.{HeaderRow, Database, Serialized, serialized_transaction, is_header}
use rpacore.Persistence.Save.{Fence, write_transaction_rows}

-- The two databases, attached to one connection.
pub record Stores : Type 0 where
  pub queue : Store
  pub database : Database

-- The claim of a worker.
pub record Claim : Type 0 where
  pub queue_item_id : String
  pub claimed_by : String
  pub claim_token : String

-- `… AND (transaction_id = '' OR transaction_id = ?)`
abbrev pub claimed_for : Claim → String → QueueItem → Bool
claimed_for c transaction_id r =
    owned_by c.claimed_by c.claim_token r
    && (is_empty r.transaction_id || str_eq r.transaction_id transaction_id)

abbrev pub is_negative : ℤ → Bool
is_negative (pos _) = false
is_negative (negsuc _) = true

abbrev pub is_zero : ℤ → Bool
is_zero (pos n) = n == 0
is_zero (negsuc _) = false

abbrev pub to_ℕ : ℤ → ℕ
to_ℕ (pos n) = n
to_ℕ (negsuc _) = 0

-- The checks of the arguments.
unfoldable pub check_arguments : Transaction → Claim → ℤ → Bool → Result (Unit {0})
check_arguments tx c expected_revision initial =
    and_then (require (not (is_empty c.claim_token)) transaction_fence) (
      and_then (require (not (is_negative expected_revision)) value_error) (
        and_then (require (not initial || is_zero expected_revision) value_error)
          (require (not initial || not (is_blank tx.id)) execution_validation)))

abbrev pub is_stored : Option HeaderRow → Bool
is_stored none = false
is_stored (some _) = true

abbrev on_database {ℓ} : {A : Type ℓ} → Exec Database A → Exec Stores A
on_database m st = let (r, db) = m st.database in (r, record st { database = db })

abbrev pub bound : String → QueueItem → QueueItem
bound transaction_id r = record r { transaction_id = transaction_id }

-- `UPDATE queue_items SET transaction_id = ?`, of a row that is claimed for the transaction.
unfoldable pub bind_item : Claim → String → Exec Stores (Unit {0})
unfolding matches
bind_item c transaction_id st =
    if matches c.queue_item_id (claimed_for c transaction_id) st.queue.items
    then (ok tt, record st { queue = update_item c.queue_item_id (bound transaction_id) st.queue })
    else (err transaction_fence, st)

-- The fence that the written row carries.
abbrev pub fence_of : Claim → ℤ → Fence
fence_of c expected_revision = record {
  expected_revision = to_ℕ expected_revision;
  queue_item_id = c.queue_item_id;
  claim_token = c.claim_token;
}

-- From `BEGIN IMMEDIATE` to `COMMIT`.
unfoldable pub checkpoint_rows : Transaction → Claim → ℤ → Bool → Serialized → Exec Stores ℕ
unfolding matches write_transaction_rows bind_item
checkpoint_rows tx c expected_revision initial s = do
  claimed ← gets (λ (st : Stores). matches c.queue_item_id (claimed_for c tx.id) st.queue.items)
  lift (require claimed transaction_fence)
  stored ← gets (λ (st : Stores). is_stored (find (is_header tx.id) st.database.transactions))
  lift (require (not (initial && stored)) execution_validation)
  new_revision ← on_database (write_transaction_rows tx s (some (fence_of c expected_revision)))
  (if initial then bind_item c tx.id else pure tt)
  pure new_revision

-- What an exception makes undone: `ROLLBACK`, over both databases.
abbrev pub rollback {ℓ} : {A : Type ℓ} → Exec Stores A → Exec Stores A
rollback m st = let (r, st') = m st in elim r [ ok a ↦ (ok a, st') | err e ↦ (err e, st) ]

abbrev pub checked_then {ℓ} : {A : Type ℓ} → Result A → (A → Exec Stores ℕ) → Exec Stores ℕ
checked_then (ok a) f = f a
checked_then (err e) f = λ st. (err e, st)

-- `_save_queue_transaction_fenced`
unfoldable pub save_queue_transaction_fenced : Transaction → Claim → ℤ → Bool → Exec Stores ℕ
unfolding check_arguments serialized_transaction checkpoint_rows
save_queue_transaction_fenced tx c expected_revision initial =
    checked_then (check_arguments tx c expected_revision initial) (λ _.
      checked_then (serialized_transaction tx)
        (λ s. rollback (checkpoint_rows tx c expected_revision initial s)))
