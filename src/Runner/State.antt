-- ===== src/Runner/State.antt =====
-- The state of a runner, and what it calls.
-- Threads and processes besides the runner act whenever it calls them: the queue, the stored
-- transactions and the heartbeat's error may be others after any call of `Calls`.
use rpacore.Base.{ℕ, ◌+◌, String, Bool, true, false, Option, none, some}
use rpacore.Exceptions.{
  Error, memory_error, keyboard_interrupt, system_exit, queue_lease_lost, transaction_fence,
  sqlite_locked, json_state, is_execution_validation,
}
use rpacore.Exec.{Exec, Result, ok, pure, raise, gets, modify, ◌>>=◌}
use rpacore.Transaction.{Transaction}
use rpacore.Engine.World.{Environment, Engine}
use rpacore.Queue.Rows.{QueueItem, Store}
use rpacore.Queue.Retry.{QueuePolicy}
use rpacore.Persistence.Rows.{Database}
use rpacore.Checkpoint.{Stores}

-- The counters of `QueueRunSummary`, but for `persistence_errors`.
pub record QueueRunSummary : Type 0 where
  pub processed : ℕ
  pub completed : ℕ
  pub failed : ℕ
  pub callback_errors : ℕ
  pub lifecycle_errors : ℕ
  pub notification_errors : ℕ
  pub retry_scheduled : ℕ
  pub terminal_failed : ℕ
  pub lease_lost : ℕ
  pub transition_unknown : ℕ

-- What the runner shares with others.
pub record Outside (W : Type 0) : Type 0 where
  pub queue : Store
  pub database : Database
  pub heartbeat : Option Error  -- `_LeaseHeartbeat.error`
  pub world : W

-- What a checkpoint reaches: `revision` is the variable of its closure, and `persistence_errors` the
-- counter of the summary that it adds to.
pub record RunState (W : Type 0) : Type 0 where
  pub outside : Outside W
  pub revision : ℕ
  pub persistence_errors : ℕ

pub record WorkerState (W : Type 0) : Type 0 where
  pub run : RunState W
  pub summary : QueueRunSummary

-- The arguments of `run_queue_loop` and what it calls. `interrupted` is what others do before a
-- statement on a database, and the error that SQLite raises there, if it raises one; `pause` is the
-- wait before a further attempt. Reports and notifiers are calls: the number is that of the
-- notifiers that failed.
pub record Calls (W : Type 0) : Type 0 where
  pub environment : Environment (Outside W)
  pub engine : Engine
  pub policy : QueuePolicy
  pub worker_id : String
  pub persists : Bool  -- whether there is a `transaction_db_path`
  pub retry_business_failures : Bool
  pub build_transaction : QueueItem → Outside W → Result Transaction × Outside W
  pub generate_report : Transaction → Outside W → Result (Unit {0}) × Outside W
  pub dispatch : Transaction → Outside W → ℕ × Outside W
  pub after_item :
      Option
        (QueueItem → Option Transaction → Option Error → Outside W → Result (Unit {0}) × Outside W)
  pub is_stopped : Outside W → Bool × Outside W  -- `stop_event.is_set()`
  pub new_token : Outside W → String × Outside W
  pub interrupted : Outside W → Option Error × Outside W
  pub pause : Outside W → Unit {0} × Outside W

-- `_FATAL_SIGNALS`
abbrev pub is_fatal : Error → Bool
is_fatal memory_error = true
is_fatal keyboard_interrupt = true
is_fatal system_exit = true
is_fatal _ = false

-- `is_transient_sqlite_lock`
abbrev pub is_transient_lock : Error → Bool
is_transient_lock sqlite_locked = true
is_transient_lock _ = false

abbrev pub is_lease_lost : Error → Bool
is_lease_lost queue_lease_lost = true
is_lease_lost _ = false

abbrev pub is_fence_error : Error → Bool
is_fence_error transaction_fence = true
is_fence_error _ = false

-- `isinstance(error, (ExecutionValidationError, JsonStateError))`
abbrev pub is_invalid : Error → Bool
is_invalid json_state = true
is_invalid e = is_execution_validation e

module _ {W : Type 0} where
  -- A call that raises nothing.
  abbrev pub ask {κ} : {A : Type κ} → (Outside W → A × Outside W) → Exec (RunState W) A
  ask f st = let (a, o) = f st.outside in (ok a, record st { outside = o })

  -- A call that may raise.
  abbrev pub call {κ} : {A : Type κ} → (Outside W → Result A × Outside W) → Exec (RunState W) A
  call f st = let (r, o) = f st.outside in (r, record st { outside = o })

  abbrev pub raise_if : Option Error → Exec (RunState W) (Unit {0})
  raise_if none = pure tt
  raise_if (some e) = raise e

  -- `heartbeat.raise_if_failed()`
  abbrev pub raise_if_failed : Exec (RunState W) (Unit {0})
  raise_if_failed = gets (λ (st : RunState W). st.outside.heartbeat) >>= raise_if

  abbrev pub on_queue {κ} : {A : Type κ} → Exec Store A → Exec (RunState W) A
  on_queue m st =
      let (r, db) = m st.outside.queue in
      (r, record st { outside = record st.outside { queue = db } })

  abbrev pub stores_of : RunState W → Stores
  stores_of st = record { queue = st.outside.queue; database = st.outside.database }

  abbrev pub put_stores : Stores → RunState W → RunState W
  put_stores s st = record st {
    outside = record st.outside { queue = s.queue; database = s.database };
  }

  abbrev pub on_stores {κ} : {A : Type κ} → Exec Stores A → Exec (RunState W) A
  on_stores m st = let (r, s) = m (stores_of st) in (r, put_stores s st)

  -- `summary.persistence_errors += 1`
  abbrev pub count_persistence_error : Exec (RunState W) (Unit {0})
  count_persistence_error =
      modify (λ st. record st { persistence_errors = st.persistence_errors + 1 })

  abbrev pub on_run {κ} : {A : Type κ} → Exec (RunState W) A → Exec (WorkerState W) A
  on_run m st = let (r, run) = m st.run in (r, record st { run = run })

  abbrev pub count : (QueueRunSummary → QueueRunSummary) → Exec (WorkerState W) (Unit {0})
  count f = modify (λ st. record st { summary = f st.summary })
