-- ===== src/Engine/Retries.antt =====
-- Retry passes, for any relation that tolerates what they do to a transaction.
use rpacore.Base.{
  ℕ, zero, suc, ◌+◌, ◌≤◌, ◌≡◌, refl, Bool, true, false, not, ◌||◌, Option, none, some,
  if◌then◌else◌, ltb, arith,
}
use rpacore.Status.{HistoryEvent}
use rpacore.Exceptions.{Error}
use rpacore.Exec.{Exec, pure, raise, ◌>>=◌}
use rpacore.Exec.Keeps.{
  Moves, Preorder, Moves-pure, Moves-raise, Moves-bind, Moves-if, bind-at_state,
}
use rpacore.Transaction.{Step, Transaction, append_history}
use rpacore.Engine.World.{Environment, World, Engine, get_transaction, modify_transaction}
use rpacore.Engine.Transitions.{append}
use rpacore.Engine.Failures.{checkpoint, retryable_failed_steps}
use rpacore.Engine.Run.{
  is_nil, reset_to_pending, sleep_before_retry, pass_again, run_again, retry_pass, retry_loop,
}
use rpacore.Engine.Effects.{
  OnWorld, world_pre, ask-Moves, get_transaction-Moves, checkpoint-Moves, modify-Moves,
  append-Moves,
}

-- A write to a transaction's own fields, which leaves the records of its execution alone.
pub record KeepsRecords (f : Transaction → Transaction) : Type 0 where
  pub steps : (tx : Transaction) → (f tx).steps ≡ tx.steps
  pub history : (tx : Transaction) → (f tx).history ≡ tx.history
  pub id : (tx : Transaction) → (f tx).id ≡ tx.id
  pub reference : (tx : Transaction) → (f tx).reference ≡ tx.reference
  pub definition_identity : (tx : Transaction) → (f tx).definition_identity ≡ tx.definition_identity
  pub retry_count : (tx : Transaction) → tx.retry_count ≤ (f tx).retry_count

-- `T` holds of every write that the retry loop makes.
pub record ToleratesRetry {W : Type 0} (env : Environment W) (engine : Engine)
    (T : Transaction → Transaction → Type 0) : Type 0 where
  pub pre : Preorder T
  pub add_history :
      (event : HistoryEvent) (step : Option Step) (now : ℕ) (tx : Transaction)
      → T tx (append_history event step now tx)
  pub write : (f : Transaction → Transaction) (tx : Transaction) → KeepsRecords f → T tx (f tx)
  pub reset : (tx : Transaction) → T tx (reset_to_pending (retryable_failed_steps tx) tx)
  pub again : Moves (OnWorld T) (pass_again env engine)

pub plain :
    (f : Transaction → Transaction)
    → ((tx : Transaction) → (f tx).steps ≡ tx.steps)
    → ((tx : Transaction) → (f tx).history ≡ tx.history)
    → ((tx : Transaction) → (f tx).id ≡ tx.id)
    → ((tx : Transaction) → (f tx).reference ≡ tx.reference)
    → ((tx : Transaction) → (f tx).definition_identity ≡ tx.definition_identity)
    → ((tx : Transaction) → tx.retry_count ≤ (f tx).retry_count)
    → KeepsRecords f
plain f a b c d e g = record {
  steps = a;
  history = b;
  id = c;
  reference = d;
  definition_identity = e;
  retry_count = g;
}

pub finished-KeepsRecords : (now : ℕ) → KeepsRecords (λ t. record t { finished_at = some now })
finished-KeepsRecords now =
    plain (λ t. record t { finished_at = some now }) (λ t. refl) (λ t. refl) (λ t. refl) (λ t. refl)
      (λ t. refl) (λ t. omega arith)

pub started-KeepsRecords : (now : ℕ) → KeepsRecords (λ t. record t { started_at = some now })
started-KeepsRecords now =
    plain (λ t. record t { started_at = some now }) (λ t. refl) (λ t. refl) (λ t. refl) (λ t. refl)
      (λ t. refl) (λ t. omega arith)

module _ {W : Type 0} {T : Transaction → Transaction → Type 0} (env : Environment W)
    (engine : Engine) (ok_for : ToleratesRetry env engine T) where
  then_ {κ ν} :
      {A : Type κ} {B : Type ν} (m : Exec (World W) A) (f : A → Exec (World W) B)
      → Moves (OnWorld T) m
      → ((a : A) → Moves (OnWorld T) (f a))
      → Moves (OnWorld T) (m >>= f)
  then_ m f = Moves-bind (world_pre ok_for.pre) m f

  return {κ} : {A : Type κ} (a : A) → Moves (OnWorld {W = W} T) (pure a)
  return a = Moves-pure (world_pre ok_for.pre) a

  read : Moves (OnWorld T) (get_transaction {W = W})
  read = get_transaction-Moves ok_for.pre

  log : (event : HistoryEvent) (include : Bool) → Moves (OnWorld T) (append env event none include)
  log event include =
      append-Moves ok_for.pre env event none include
        (λ st now tx. ok_for.add_history event st now tx)

  save : Moves (OnWorld T) (checkpoint env)
  save = checkpoint-Moves ok_for.pre env

  fail {κ} : {A : Type κ} (e : Error) → Moves (OnWorld {W = W} T) (raise {A = A} e)
  fail e = Moves-raise (world_pre ok_for.pre) e

  write :
      (f : Transaction → Transaction)
      → KeepsRecords f
      → Moves (OnWorld {W = W} T) (modify_transaction f)
  write f k = modify-Moves ok_for.pre f (λ tx. ok_for.write f tx k)

  write_plain :
      (f : Transaction → Transaction)
      → ((tx : Transaction) → (f tx).steps ≡ tx.steps)
      → ((tx : Transaction) → (f tx).history ≡ tx.history)
      → ((tx : Transaction) → (f tx).id ≡ tx.id)
      → ((tx : Transaction) → (f tx).reference ≡ tx.reference)
      → ((tx : Transaction) → (f tx).definition_identity ≡ tx.definition_identity)
      → ((tx : Transaction) → tx.retry_count ≤ (f tx).retry_count)
      → Moves (OnWorld {W = W} T) (modify_transaction f)
  write_plain f a b c d e g = write f (plain f a b c d e g)

  run_again-Moves : (passes : ℕ) → Moves (OnWorld T) (run_again env engine passes)
  unfolding run_again sleep_before_retry
  run_again-Moves passes =
      then_ _ _ (Moves-if (not engine.delays_retries) _ _ (return tt) (ask-Moves ok_for.pre _))
        (λ _.
          then_ _ _
            (write_plain (λ t. record t { retry_count = t.retry_count + 1 }) (λ t. refl) (λ t. refl)
              (λ t. refl) (λ t. refl) (λ t. refl) (λ t. omega arith))
            (λ _.
              then_ _ _ (log HistoryEvent.retry_scheduled true)
                (λ _. then_ _ _ ok_for.again (λ _. save))))

  -- A retry pass over the steps that are retryable where it starts.
  retry_pass-at :
      (w : World W)
      → T w.transaction
          (retry_pass env engine (retryable_failed_steps w.transaction) w).1.transaction
  unfolding retry_pass
  retry_pass-at w =
      let retryable = retryable_failed_steps w.transaction in
      ok_for.pre.compose w.transaction (reset_to_pending retryable w.transaction) _
        (ok_for.reset w.transaction)
        ((run_again-Moves w.transaction.retry_count).at
          (record w { transaction = reset_to_pending retryable w.transaction }))

  again_or_stop :
      (stops : Bool) (fuel : ℕ) (w : World W)
      → Moves (OnWorld T) (retry_loop env engine fuel)
      → T w.transaction
          ((if stops
              then pure tt
              else retry_pass env engine (retryable_failed_steps w.transaction) >>= λ _.
                  retry_loop env engine fuel)
            w).1.transaction
  again_or_stop true fuel w rest = ok_for.pre.same w.transaction
  again_or_stop false fuel w rest =
      bind-at_state (world_pre ok_for.pre)
        (retry_pass env engine (retryable_failed_steps w.transaction))
        (λ _. retry_loop env engine fuel) w (retry_pass-at w) (λ _. rest)

  pub retry_loop-Moves : (fuel : ℕ) → Moves (OnWorld T) (retry_loop env engine fuel)
  unfolding retry_loop
  retry_loop-Moves zero = return tt
  retry_loop-Moves (suc fuel) =
      let rest = retry_loop-Moves fuel in
      record {
        at = λ w.
            again_or_stop
              (not (ltb w.transaction.retry_count engine.max_retries)
                || is_nil (retryable_failed_steps w.transaction))
              fuel w rest;
      }
