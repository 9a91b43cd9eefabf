-- ===== src/Runner/Binding.antt =====
-- runner.py: the transaction of a claimed item, and its checkpoints.
use rpacore.Base.{
  ℕ, Bool, true, false, not, List, [], ◌∷◌, Option, none, some, str_eq, if◌then◌else◌,
}
use rpacore.Status.{is_pending}
use rpacore.Exceptions.{
  Error, json_state, key_error, value_error, execution_validation, definition_identity,
  sqlite_locked, sqlite_error, system_exception, durable_binding, checkpoint_failed, is_exception,
}
use rpacore.Exec.{
  Exec, Result, ok, err, pure, raise, gets, lift, modify, require, and_then, ◌>>=◌, ◌>>◌,
  try_except,
}
use rpacore.Json.{Key, Value, Fields, text, dict, end, field, validate_json_object}
use rpacore.Definition.{validate_definition_identity}
use rpacore.Transaction.{HistoryEntry, Transaction, validate_for_execution}
use rpacore.Queue.Rows.{QueueItem, Payload, json, is_empty}
use rpacore.Queue.Delivery.{check_payload}
use rpacore.Persistence.Load.{load_transaction, load_transaction_with_revision}
use rpacore.Recovery.{prepare_resumed}
use rpacore.Runner.State.{
  RunState, Calls, is_fence_error, is_invalid, ask, call, raise_if_failed, count_persistence_error,
}
use rpacore.Runner.Retries.{attempt, save_with_retries}
use rpacore.Runner.Policy.{checkpoint_allows_retry}

abbrev pub same_key : Key → Key → Bool
same_key (text a) (text b) = str_eq a b
same_key _ _ = false

unfoldable pub set_field : Key → Value → Fields → Fields
set_field k v end = field k v end
set_field k v (field l w rest) =
    let rest' = set_field k v rest in if same_key l k then field l v rest else field l w rest'

-- `{**state, **payload}`
unfoldable pub merge_fields : Fields → Fields → Fields
unfolding set_field
merge_fields state end = state
merge_fields state (field k v rest) = merge_fields (set_field k v state) rest

-- The merged mapping stands in place of the transaction's old one, with its identity.
abbrev pub merged : Value → Payload → Value
merged (dict i state) (json (dict j payload)) = dict i (merge_fields state payload)
merged state _ = state

-- `_seed_transaction_state_from_payload`
unfoldable pub seed_state : Transaction → QueueItem → Result Transaction
unfolding merge_fields validate_json_object
seed_state tx item = elim (check_payload item.payload) [
  | ok _ ↦ ok (record tx { state = merged tx.state item.payload })
  | err e ↦ err e
]

abbrev pub no_history : List HistoryEntry → Bool
no_history [] = true
no_history (_ ∷ _) = false

-- `_validate_initial_queue_transaction`
unfoldable pub validate_initial : Transaction → Result (Unit {0})
unfolding validate_definition_identity
validate_initial tx = and_then (validate_definition_identity (some tx.definition_identity) true) (
    and_then (require (is_pending tx.status) execution_validation)
      (require (no_history tx.history) execution_validation))

-- The errors that make a bound transaction unusable: `KeyError`, `sqlite3.Error`, `SystemException`,
-- `ValueError` with its subclasses, and `JsonStateError`.
abbrev pub is_unusable : Error → Bool
is_unusable key_error = true
is_unusable sqlite_locked = true
is_unusable sqlite_error = true
is_unusable system_exception = true
is_unusable value_error = true
is_unusable execution_validation = true
is_unusable definition_identity = true
is_unusable json_state = true
is_unusable _ = false

-- What the item is bound to: its transaction, the revision, and the item itself.
pub record Bound : Type 0 where
  pub transaction : Transaction
  pub revision : ℕ
  pub item : QueueItem

module _ {W : Type 0} (calls : Calls W) where
  abbrev pub initial_result : Transaction → QueueItem → Result ℕ → Exec (RunState W) Bound
  initial_result tx item (ok revision) = pure (record {
    transaction = tx;
    revision = revision;
    item = record item { transaction_id = tx.id };
  })
  initial_result tx item (err e) =
      if is_fence_error e
      then raise e
      else count_persistence_error >> raise (checkpoint_failed (not (is_invalid e)))

  unfoldable pub build_seeded : QueueItem → Exec (RunState W) Transaction
  unfolding seed_state validate_for_execution
  build_seeded item = do
    tx ← call (calls.build_transaction item)
    seeded ← lift (seed_state tx item)
    lift (validate_for_execution seeded)
    pure seeded

  unfoldable pub resume : QueueItem → Exec (RunState W) Bound
  unfolding load_transaction_with_revision prepare_resumed
  resume item = do
    candidate ← call (calls.build_transaction item)
    loaded ←
        attempt calls
          (λ st. (load_transaction_with_revision 0 item.transaction_id st.outside.database, st))
    now ← ask calls.environment.now
    tx ← lift (
        prepare_resumed now calls.retry_business_failures (some candidate.definition_identity)
          candidate.steps (loaded.0))
    pure (record { transaction = tx; revision = loaded.1; item = item })

  -- `_transaction_for_queue_item`
  unfoldable pub transaction_for_queue_item : QueueItem → Exec (RunState W) Bound
  unfolding build_seeded resume validate_initial save_with_retries
  transaction_for_queue_item item =
      if not calls.persists
      then (do
        tx ← build_seeded item
        pure (record { transaction = tx; revision = 0; item = item }))
      else if not (is_empty item.transaction_id)
      then try_except (resume item) is_unusable (λ _. raise durable_binding)
      else (do
        tx ← build_seeded item
        lift (validate_initial tx)
        saved ← save_with_retries calls item tx 0 true
        initial_result tx item saved)

  -- The snapshot that `load_transaction` gives, or none where it raises an `Exception`.
  unfoldable pub durable_snapshot : Transaction → Exec (RunState W) (Option Transaction)
  unfolding load_transaction
  durable_snapshot tx =
      try_except
        (attempt calls (λ st. (load_transaction 0 tx.id st.outside.database, st)) >>= λ durable.
          pure (some durable))
        is_exception (λ _. pure none)

  unfoldable pub checkpoint_error : Transaction → Error → Exec (RunState W) (Unit {0})
  unfolding durable_snapshot checkpoint_allows_retry
  checkpoint_error tx e = do
    count_persistence_error
    (if is_invalid e
        then raise (checkpoint_failed false)
        else (durable_snapshot tx >>= λ durable.
            raise (checkpoint_failed (checkpoint_allows_retry tx durable))))

  unfoldable pub checkpoint_result : Transaction → Result ℕ → Exec (RunState W) (Unit {0})
  unfolding checkpoint_error
  checkpoint_result tx (ok revision) = modify (λ st. record st { revision = revision })
  checkpoint_result tx (err e) = if is_fence_error e then raise e else checkpoint_error tx e

  -- `_strict_transaction_checkpoint`
  unfoldable pub strict_checkpoint : QueueItem → Transaction → Exec (RunState W) (Unit {0})
  unfolding save_with_retries checkpoint_result
  strict_checkpoint item tx = do
    revision ← gets (λ (st : RunState W). st.revision)
    saved ← save_with_retries calls item tx revision false
    checkpoint_result tx saved

  -- `_lease_checked_checkpoint`
  unfoldable pub lease_checked_checkpoint : QueueItem → Transaction → Exec (RunState W) (Unit {0})
  unfolding strict_checkpoint
  lease_checked_checkpoint item tx = do raise_if_failed; strict_checkpoint item tx; raise_if_failed
