-- ===== src/Engine/Reruns.antt =====
-- Which steps a run and its retry passes never touch.
use rpacore.Base.{ℕ, ◌≡◌, true, false, List, Option, some}
use rpacore.Status.{Status}
use rpacore.Exceptions.{last_is, is_business}
use rpacore.Exec.Keeps.{Moves}
use rpacore.Transaction.{Step}
use rpacore.Engine.World.{Environment, World, Engine}
use rpacore.Engine.Failures.{business_failed_step_ids}
use rpacore.Engine.Pass.{execute_pass}
use rpacore.Engine.Run.{pass_again, retry_loop, run}
use rpacore.Engine.Effects.{OnWorld}
use rpacore.Engine.Passes.{execute_pass-Moves}
use rpacore.Engine.Retries.{ToleratesRetry, retry_loop-Moves}
use rpacore.Engine.Runs.{ToleratesRun, run-Moves}
use rpacore.Engine.Settled.{Still, Keeps, Keeps-pre, Keeps-append, Keeps-round, execute_pass-Still}
use rpacore.Engine.Untouched.{
  is_retryable, Still-reset_retryable, Still-reset_skipped, Still-steps, last_is_one, blocked_now,
}

module _ {W : Type 0} (env : Environment W) (engine : Engine) (i : ℕ) (t : Step) where
  -- The retry loop, for a step that its passes do not touch.
  untouched-ToleratesRetry :
      is_retryable t ≡ false
      → Moves (OnWorld (Keeps i t)) (pass_again env engine)
      → ToleratesRetry env engine (Keeps i t)
  unfolding Keeps
  untouched-ToleratesRetry h again = record {
    pre = Keeps-pre i t;
    add_history = Keeps-append i t;
    write = λ f tx k still. Still-steps i t tx (f tx) (k.steps tx) still;
    reset = λ tx still. Still-reset_retryable i t tx h still;
    again = again;
  }

  successful_pass :
      t.status ≡ Status.successful
      → (blocked : Option (List ℕ)) → Moves (OnWorld (Keeps i t)) (execute_pass env engine blocked)
  successful_pass done blocked =
      execute_pass-Moves env engine blocked (Keeps-pre i t)
        (Keeps-round i t env engine blocked (rw done) (rw done))

  successful-ToleratesRun : t.status ≡ Status.successful → ToleratesRun env engine (Keeps i t)
  unfolding Keeps
  successful-ToleratesRun done = record {
    retry = untouched-ToleratesRetry (rw done) (
        unfold pass_again in
        record {
          at = λ w. (successful_pass done (some (business_failed_step_ids w.transaction))).at w;
        });
    reset_skipped = λ tx still. Still-reset_skipped i t tx (rw done) still;
    pass = successful_pass done;
  }

  -- A step that is successful before a run is the same afterwards, whatever the other steps and
  -- the callbacks do and however many retry passes there are, whether the run returns or raises.
  pub run-Still :
      (w : World W)
      → t.status ≡ Status.successful
      → Still i t w.transaction
      → Still i t (run env engine w).1.transaction
  unfolding Keeps
  run-Still w done still = (run-Moves env engine (successful-ToleratesRun done)).at w still

  one_kind :
      t.status ≡ Status.failed → last_is is_business t.exceptions ≡ true → is_retryable t ≡ false
  one_kind failed business = rw failed (last_is_one t.exceptions business)

  business_again :
      t.status ≡ Status.failed
      → last_is is_business t.exceptions ≡ true
      → Moves (OnWorld (Keeps i t)) (pass_again env engine)
  unfolding pass_again Keeps
  business_again failed business = record {
    at = λ w still.
        execute_pass-Still i t env engine (some (business_failed_step_ids w.transaction)) w
          (rw failed) (rw failed (blocked_now i t w.transaction failed business still)) still;
  }

  -- A step that failed with a business exception is not run again by the retry passes: the retry
  -- loop leaves it exactly as it is, whatever the other steps and the callbacks do, whether the loop
  -- returns or raises.
  pub retry_loop-Still :
      (fuel : ℕ) (w : World W)
      → t.status ≡ Status.failed
      → last_is is_business t.exceptions ≡ true
      → Still i t w.transaction
      → Still i t (retry_loop env engine fuel w).1.transaction
  unfolding Keeps
  retry_loop-Still fuel w failed business still =
      (retry_loop-Moves env engine
          (untouched-ToleratesRetry (one_kind failed business) (business_again failed business))
          fuel).at
        w still
