-- ===== src/Lib.antt =====
-- A verification library for rpacore, a Python framework that runs business transactions in steps,
-- with retries, checkpoints and a durable work queue.
--
-- The parts and how they interact. A worker claims an item of the queue (rpacore/queue.py), builds a
-- transaction (rpacore/transaction.py) of steps (rpacore/step.py) and hands it to the engine
-- (rpacore/engine.py). The engine validates it, runs its steps in order, records every change in the
-- history (rpacore/_kernel.py), saves checkpoints, retries what failed with a system exception, and
-- sets the outcome (rpacore/outcome.py). The worker then completes or fails the item under its claim
-- token. Durable values are checked by rpacore/_json_state.py.
--
-- The files.
--   Base: numbers, lists, texts, integers, sorting and pages of rows that the components share.
--   Exec: methods that change an object and may raise (`Exec S A`), with Exec.Keeps, the rules for
--     what an action does to its state on every path.
--   Status, Exceptions: the enumerations of rpacore/status.py, rpacore/outcome.py and
--     rpacore/transaction.py, and the exceptions of rpacore/exceptions.py. `StepException` is an
--     object of either recorded class, `Error` what code raises.
--   Json: `validate_json_object` of rpacore/_json_state.py; Json.Sound has its meaning.
--   FailureCode, Definition: `validate_failure_code` of rpacore/outcome.py and
--     `validate_definition_identity` of rpacore/_definition.py.
--   Transaction: the records, `ordered_steps`, `append_history` and `validate_for_execution`.
--   Engine: World has the state (the transaction and the outside world) and the parameters;
--     Transitions is `_TransitionEmitter`; Failures, Pass and Run are the methods of `Engine` under
--     their names (`execute_pass` is `_execute_pass`, `run` is `run` with `_run`, cut into the
--     functions that its blocks are). Effects, Rounds, Passes, Retries and Runs say what each action
--     does to a transaction, for every relation that tolerates its writes; Audit, Settled, Untouched,
--     Reruns, Outcome, Retrying and Exhausted apply them.
--   Queue: Rows has the tables, Claims the methods of a claim's owner and of an administrator,
--     Delivery those that add and deliver items, Reading those that list them, and Retry
--     `retry_available_at` of rpacore/_queue_retry.py. Each method is one write transaction of the
--     database: it returns the new store, or raises and leaves the store. Agreement, Consistency
--     and DeliveryConsistency treat items and attempts, Steps every interleaving, Attempts and
--     Audit what becomes of attempts, Fencing, Leases and Fenced the claim tokens, Keys,
--     Reclaiming, Serving and Fifo the delivery, Disposal the failures, Pages the listings and
--     Waits the delays.
--   Persistence: Rows has the tables of rpacore/persistence.py and how a transaction is serialized,
--     Tables their statements, Save `_write_transaction_rows` and `save_transaction`, Load the readers
--     of rpacore/_transaction_read.py. View, Written, Headers and Refined see a save as a change of a
--     map from ids to rows; Revisions treats the fence; Copies, MetadataCopies, ArtifactCopies,
--     StepCopies, HistoryCopies, Decoding and Roundtrip treat loading. Query is `query_transactions` with its
--     cursors, RowOrder, Slices and Pages treat its order and its pages. Json.Text is `json.dumps` and
--     `json.loads`, as the value that a text denotes.
--   Checkpoint: `_save_queue_transaction_fenced` of rpacore/_queue_checkpoint.py, one transaction over
--     the queue and the stored transactions; Checkpoint.Guarded says who may save.
--   Recovery: `_prepare_resumed_transaction` of rpacore/recovery.py, which gives a stored transaction
--     the caller's steps; Recovery.Restored says what comes back.
--   Runner: rpacore/runner.py over the engine, the queue, persistence and recovery. State has what the
--     runner shares with other threads and processes, Retries the statements that are tried again,
--     Binding the transaction of an item and its checkpoints, Policy the decision on a retry, Progress,
--     Item and Settle the way of one item, Loop the rounds as a relation, Lifecycle the resource scope
--     and the finishing callback around them. Balance treats the counters, Attempts and Released
--     the final transitions, Transitions and Contained the errors, Checkpoints the checkpoints.
--
-- Parameters. An `Environment` holds what the engine calls: the code of a step, the clock, sleeping,
-- screen capture, new ids, the checkpoint callback and the transition sink. Each is a function on the
-- state of the outside world. The clock readings, the tokens and the worker names of the queue's
-- methods are arguments. A step changes the transaction through its context: the durable state, the
-- artifacts, and its own status where it marks itself as skipped. The checkpoint and the sink see the
-- transaction and do not change it.
--
-- The runner's `Calls` are the builder of transactions, reports, notifiers and the callback, and what
-- others do: any of them may change the queue, the stored transactions and the heartbeat's error. The
-- queries have the digest of their filters and the test of equal texts of JSON as parameters, and a
-- cursor is what its text decodes to.
--
-- Bounds. The retry loop has as fuel the difference of `max_retries` and the retry count at its
-- start, since each round counts one retry. The delivery loop has as fuel the number of items and
-- one more, since each round but the last takes one item out of the queue. A statement of the runner has
-- three attempts, as in the code; the rounds of a worker are a relation and need no fuel.
--
-- What is not modelled. Log calls. The guards on types, since a field holds a value of its annotated
-- type. Object identity is a number, for steps and for containers; each raise records an exception
-- object of its own. A cyclic value is written down to its first repetition. Delays are exact
-- fractions in place of floats. Times are microseconds, but for the text of `created_at`. Numbers in
-- the database are natural. The sequence numbers of attempts and events are their places. A claim
-- token repeats no earlier one of its item. Legacy timestamps without a zone. Counts and execution
-- orders fit SQLite's integers. A text of JSON is the value that it denotes, and an object read from
-- it has its depth as identity. What `list_transactions` and
-- `iter_transactions` select, the schema of the databases, their connections and migrations,
-- `execute_transaction`, configuration, reports and the command line.
pub mod Base
pub mod Status
pub mod Exceptions
pub mod Exec
pub mod Json
pub mod FailureCode
pub mod Definition
pub mod Transaction
pub mod Engine
pub mod Queue
pub mod Persistence
pub mod Checkpoint
pub mod Recovery
pub mod Runner
