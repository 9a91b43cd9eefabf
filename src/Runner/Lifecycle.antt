-- ===== src/Runner/Lifecycle.antt =====
-- runner.py: `run_queue_loop`, with its resource scope and its finishing callback around the rounds.
use rpacore.Base.{◌+◌, ◌≡◌, Bool, true, false, Option, none, some, if◌then◌else◌}
use rpacore.Exceptions.{Error, type_error}
use rpacore.Exec.{Exec, Result, ok, err, pure, ◌>>◌}
use rpacore.Runner.State.{QueueRunSummary, Outside, WorkerState, Calls, is_fatal, call, on_run}
use rpacore.Runner.Loop.{start_state, Runs}

-- A context manager: entering says whether it yields a mapping or nothing, and leaving gets the error
-- in flight and says whether to suppress it.
pub record ResourceScope (W : Type 0) : Type 0 where
  pub enter : Outside W → Result Bool × Outside W
  pub exit : Option Error → Outside W → Result Bool × Outside W

pub record Lifecycle (W : Type 0) : Type 0 where
  pub prepare : Outside W → Result (Unit {0}) × Outside W  -- `_prepare_transaction_database`
  pub resource_scope : Option (ResourceScope W)
  pub on_finish : Option (QueueRunSummary → Outside W → Result (Unit {0}) × Outside W)

abbrev run_error_of : {W : Type 0} → Result (Unit {0}) × WorkerState W → Option Error
run_error_of (ok _, st) = none
run_error_of (err e, st) = some e

abbrev add_lifecycle_error : QueueRunSummary → QueueRunSummary
add_lifecycle_error s = record s { lifecycle_errors = s.lifecycle_errors + 1 }

module _ {W : Type 0} (calls : Calls W) (life : Lifecycle W) where
  abbrev prepare_database : Exec (WorkerState W) (Unit {0})
  prepare_database = if calls.persists then on_run (call life.prepare) else pure tt

  -- What `__exit__` makes of an error of the rounds.
  abbrev after_exit : Error → Result Bool × WorkerState W → Result (Unit {0}) × WorkerState W
  after_exit e (r, st) =
      if is_fatal e
      then (err e, st)
      else elim r [ ok suppress ↦ ((if suppress then ok tt else err e), st) | err f ↦ (err f, st) ]

  abbrev after_return : Result Bool × WorkerState W → Result (Unit {0}) × WorkerState W
  after_return (ok _, st) = (ok tt, st)
  after_return (err f, st) = (err f, st)

  -- The scope is left behind the rounds, which have returned or raised.
  unfoldable pub leave_scope :
      Option (ResourceScope W)
      → Result (Unit {0}) × WorkerState W
      → Result (Unit {0}) × WorkerState W
  leave_scope none out = out
  leave_scope (some scope) (ok _, st) = after_return (on_run (call (scope.exit none)) st)
  leave_scope (some scope) (err e, st) = after_exit e (on_run (call (scope.exit (some e))) st)

  abbrev is_fatal_run : Option Error → Bool
  is_fatal_run none = false
  is_fatal_run (some e) = is_fatal e

  -- What an error of `on_finish` makes of the result.
  abbrev after_callback :
      Result (Unit {0})
      → Option Error
      → Result (Unit {0}) × WorkerState W
      → Result (Unit {0}) × WorkerState W
  after_callback r run_error (ok _, st) = (r, st)
  after_callback r run_error (err f, st) =
      if is_fatal f
      then ((if is_fatal_run run_error then r else err f), st)
      else (r, record st { summary = add_lifecycle_error st.summary })

  abbrev callback_run :
      Option (QueueRunSummary → Outside W → Result (Unit {0}) × Outside W)
      → Result (Unit {0}) × WorkerState W
      → Result (Unit {0}) × WorkerState W
  callback_run none out = out
  callback_run (some f) (r, st) =
      after_callback r (run_error_of (r, st)) (on_run (call (f st.summary)) st)

  -- The `finally` block.
  unfoldable pub finish : Result (Unit {0}) × WorkerState W → Result (Unit {0}) × WorkerState W
  finish out = callback_run life.on_finish out

  abbrev enter_scope : Option (ResourceScope W) → Exec (WorkerState W) Bool
  enter_scope none = pure true
  enter_scope (some scope) = on_run (call scope.enter)

  -- Up to the rounds: whether what the scope yields can be used.
  unfoldable pub start_queue : Exec (WorkerState W) Bool
  start_queue = prepare_database >> enter_scope life.resource_scope

  -- `run_queue_loop`: how it ends, and in which state. The scope that yields something else is left
  -- with the error of that.
  pub data QueueRuns (o : Outside W) : Result (Unit {0}) × WorkerState W → Type 0 where
    not_started :
        {e : Error} {st : WorkerState W}
        → start_queue (start_state o) ≡ (err e, st)
        → QueueRuns o (finish (err e, st))
    wrong_yield :
        {st : WorkerState W}
        → start_queue (start_state o) ≡ (ok false, st)
        → QueueRuns o (finish (leave_scope life.resource_scope (err type_error, st)))
    rounds :
        {st t : WorkerState W} {r : Result (Unit {0})}
        → start_queue (start_state o) ≡ (ok true, st)
        → Runs calls st r t
        → QueueRuns o (finish (leave_scope life.resource_scope (r, t)))
