-- ===== src/Engine/Runs.antt =====
-- Whole runs, for any relation that tolerates what they do to a transaction.
use rpacore.Base.{
  ℕ, ◌-◌, ◌≤◌, ◌≡◌, refl, Bool, true, false, not, ◌&&◌, List, Option, none, some, arith,
}
use rpacore.Status.{HistoryEvent}
use rpacore.Exceptions.{Error, memory_error, is_memory_error, is_execution_validation, is_exception}
use rpacore.Exec.{Exec, pure, raise, ◌>>=◌}
use rpacore.Exec.Keeps.{Moves, Moves-pure, Moves-raise, Moves-bind, Moves-try}
use rpacore.Transaction.{Transaction, validate_for_execution}
use rpacore.Engine.World.{Environment, World, Engine, get_transaction, modify_transaction}
use rpacore.Engine.Transitions.{append, check_emitter}
use rpacore.Engine.Failures.{checkpoint, initial_blocked_step_ids, reset_skipped_steps}
use rpacore.Engine.Pass.{execute_pass}
use rpacore.Engine.Run.{
  begin, conclude, validation_outcome, interrupted_outcome, run_passes, last_checkpoint, fill_time,
  interrupt, reject, start_run, finish_run, run_valid, validate_run, run,
}
use rpacore.Engine.Effects.{
  OnWorld, world_pre, ask-Moves, get_transaction-Moves, lift-Moves, checkpoint-Moves, modify-Moves,
  append-Moves,
}
use rpacore.Engine.Retries.{
  KeepsRecords, ToleratesRetry, plain, finished-KeepsRecords, started-KeepsRecords,
  retry_loop-Moves,
}

-- `T` holds of every write that a run makes.
pub record ToleratesRun {W : Type 0} (env : Environment W) (engine : Engine)
    (T : Transaction → Transaction → Type 0) : Type 0 where
  pub retry : ToleratesRetry env engine T
  pub reset_skipped : (tx : Transaction) → T tx (reset_skipped_steps tx)
  pub pass : (blocked : Option (List ℕ)) → Moves (OnWorld T) (execute_pass env engine blocked)

pub KeepsRecords-conclude : KeepsRecords conclude
unfolding conclude
KeepsRecords-conclude = record {
  steps = λ tx. ground arith;
  history = λ tx. ground arith;
  id = λ tx. ground arith;
  reference = λ tx. ground arith;
  definition_identity = λ tx. ground arith;
  retry_count = λ tx. ground arith;
}

module _ {W : Type 0} {T : Transaction → Transaction → Type 0} (env : Environment W)
    (engine : Engine) (ok_for : ToleratesRun env engine T) where
  then_ {κ ν} :
      {A : Type κ} {B : Type ν} (m : Exec (World W) A) (f : A → Exec (World W) B)
      → Moves (OnWorld T) m
      → ((a : A) → Moves (OnWorld T) (f a))
      → Moves (OnWorld T) (m >>= f)
  then_ m f = Moves-bind (world_pre ok_for.retry.pre) m f

  return {κ} : {A : Type κ} (a : A) → Moves (OnWorld {W = W} T) (pure a)
  return a = Moves-pure (world_pre ok_for.retry.pre) a

  read : Moves (OnWorld T) (get_transaction {W = W})
  read = get_transaction-Moves ok_for.retry.pre

  log : (event : HistoryEvent) (include : Bool) → Moves (OnWorld T) (append env event none include)
  log event include =
      append-Moves ok_for.retry.pre env event none include
        (λ st now tx. ok_for.retry.add_history event st now tx)

  save : Moves (OnWorld T) (checkpoint env)
  save = checkpoint-Moves ok_for.retry.pre env

  fail {κ} : {A : Type κ} (e : Error) → Moves (OnWorld {W = W} T) (raise {A = A} e)
  fail e = Moves-raise (world_pre ok_for.retry.pre) e

  write :
      (f : Transaction → Transaction)
      → KeepsRecords f
      → Moves (OnWorld {W = W} T) (modify_transaction f)
  write f k = modify-Moves ok_for.retry.pre f (λ tx. ok_for.retry.write f tx k)

  write_plain :
      (f : Transaction → Transaction)
      → ((tx : Transaction) → (f tx).steps ≡ tx.steps)
      → ((tx : Transaction) → (f tx).history ≡ tx.history)
      → ((tx : Transaction) → (f tx).id ≡ tx.id)
      → ((tx : Transaction) → (f tx).reference ≡ tx.reference)
      → ((tx : Transaction) → (f tx).definition_identity ≡ tx.definition_identity)
      → ((tx : Transaction) → tx.retry_count ≤ (f tx).retry_count)
      → Moves (OnWorld {W = W} T) (modify_transaction f)
  write_plain f a b c d e g = write f (plain f a b c d e g)

  fill_time-Moves :
      (field : Option ℕ) (put : ℕ → Transaction → Transaction)
      → ((now : ℕ) → KeepsRecords (put now))
      → Moves (OnWorld T) (fill_time env engine field put)
  unfolding fill_time
  fill_time-Moves (some t) put h = return tt
  fill_time-Moves none put h =
      then_ _ _ (ask-Moves ok_for.retry.pre env.now) (λ now. write (put now) (h now))

  run_passes-Moves : (blocked : Option (List ℕ)) → Moves (OnWorld T) (run_passes env engine blocked)
  unfolding run_passes
  run_passes-Moves blocked = then_ _ _ (ok_for.pass blocked) (λ _.
      then_ _ _ read
        (λ tx. retry_loop-Moves env engine ok_for.retry (engine.max_retries - tx.retry_count)))

  interrupt-Moves : Moves (OnWorld T) (interrupt env engine)
  unfolding interrupt last_checkpoint
  interrupt-Moves =
      then_ _ _
        (write_plain interrupted_outcome (λ t. refl) (λ t. refl) (λ t. refl) (λ t. refl) (λ t. refl)
          (λ t. omega arith))
        (λ _. then_ _ _ read (λ tx.
          then_ _ _ (fill_time-Moves tx.finished_at _ (λ now. finished-KeepsRecords now)) (λ _.
            then_ _ _ (log HistoryEvent.transaction_completed true) (λ _.
              then_ _ _
                (Moves-try (world_pre ok_for.retry.pre) (checkpoint env)
                  (λ e. is_exception e && not (is_memory_error e)) (λ e. pure tt) save
                  (λ e. return tt))
                (λ _. fail memory_error)))))

  reject-Moves : (e : Error) → Moves (OnWorld T) (reject env engine e)
  unfolding reject
  reject-Moves e = then_ _ _ (ask-Moves ok_for.retry.pre env.now) (λ now.
      then_ _ _
        (write_plain (validation_outcome now) (λ t. refl) (λ t. refl) (λ t. refl) (λ t. refl)
          (λ t. refl) (λ t. omega arith))
        (λ _. then_ _ _ (log HistoryEvent.transaction_completed false) (λ _. fail e)))

  start_run-Moves : Moves (OnWorld T) (start_run env engine)
  unfolding start_run
  start_run-Moves =
      then_ _ _ (modify-Moves ok_for.retry.pre reset_skipped_steps ok_for.reset_skipped) (λ _.
        then_ _ _
          (write_plain begin (λ t. refl) (λ t. refl) (λ t. refl) (λ t. refl) (λ t. refl)
            (λ t. omega arith))
          (λ _. then_ _ _ read (λ tx.
            then_ _ _ (fill_time-Moves tx.started_at _ (λ now. started-KeepsRecords now)) (λ _.
              then_ _ _
                (write_plain (λ t. record t { finished_at = none }) (λ t. refl) (λ t. refl)
                  (λ t. refl) (λ t. refl) (λ t. refl) (λ t. omega arith))
                (λ _. then_ _ _ (log HistoryEvent.transaction_started true) (λ _. save))))))

  finish_run-Moves : Moves (OnWorld T) (finish_run env engine)
  unfolding finish_run
  finish_run-Moves = then_ _ _ (write conclude KeepsRecords-conclude) (λ _.
      then_ _ _ (ask-Moves ok_for.retry.pre env.now) (λ now.
        then_ _ _ (write (λ t. record t { finished_at = some now }) (finished-KeepsRecords now))
          (λ _. then_ _ _ (log HistoryEvent.transaction_completed true) (λ _. save))))

  run_valid-Moves : Moves (OnWorld T) (run_valid env engine)
  unfolding run_valid
  run_valid-Moves = then_ _ _ read (λ tx. then_ _ _ start_run-Moves (λ _.
      then_ _ _
        (Moves-try (world_pre ok_for.retry.pre) _ is_memory_error _
          (run_passes-Moves (initial_blocked_step_ids tx)) (λ e. interrupt-Moves))
        (λ _. finish_run-Moves)))

  -- All that a run does to its transaction, on every path, a raise included.
  pub run-Moves : Moves (OnWorld T) (run env engine)
  unfolding run validate_run
  run-Moves = then_ _ _ (lift-Moves ok_for.retry.pre (check_emitter env)) (λ _.
      then_ _ _
        (then_ _ _ read (λ tx.
          Moves-try (world_pre ok_for.retry.pre) _ is_execution_validation _
            (lift-Moves ok_for.retry.pre (validate_for_execution tx)) reject-Moves))
        (λ _. run_valid-Moves))
