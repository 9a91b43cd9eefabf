-- ===== src/Engine/Outcome.antt =====
-- How a run ends: the status, the outcome and the last history entry that it leaves.
use mathlib.Core.List.{reverse, reverse-append}
use rpacore.Base.{
  ℕ, ◌≡◌, refl, sym, ap, ◌∙◌, subst, all, String, Bool, true, false, List, [], ◌∷◌, ◌++◌, Option,
  none, some, arith, if◌then◌else◌,
}
use rpacore.Status.{
  Status, OutcomeCategory, RetryDisposition, HistoryEvent, is_completed, is_complete,
}
use rpacore.Exceptions.{StepException, is_business, is_memory_error}
use rpacore.Exec.{Exec, Result, ok, err, lift, ◌>>=◌, try_except}
use rpacore.Exec.Keeps.{Preorder, bind_ends}
use rpacore.Transaction.{Step, Transaction, HistoryEntry, new_entry, append_history}
use rpacore.Engine.World.{Environment, World, Engine}
use rpacore.Engine.Transitions.{live, append, check_emitter}
use rpacore.Engine.Failures.{
  last_event_is, last_failed_from, last_failed_exception, checkpoint, initial_blocked_step_ids,
}
use rpacore.Engine.Run.{
  all_complete, failed_outcome, conclude, finish_run, run_valid, run, validate_run, start_run,
  run_passes, interrupt,
}
use rpacore.Engine.Effects.{checkpoint-Moves, publish-Moves}
use rpacore.Engine.Runs.{KeepsRecords-conclude}
use mathlib.Core.Path.{ap₂}

-- The four fields that report how a transaction ended.
pub record Verdict : Type 0 where
  pub status : Status
  pub category : OutcomeCategory
  pub disposition : RetryDisposition
  pub code : String

abbrev pub verdict_of : Transaction → Verdict
verdict_of tx = record {
  status = tx.status;
  category = tx.outcome_category;
  disposition = tx.retry_disposition;
  code = tx.failure_code;
}

abbrev success : Verdict
success = record {
  status = Status.successful;
  category = OutcomeCategory.successful;
  disposition = RetryDisposition.not_applicable;
  code = "";
}

abbrev business_failure : StepException → Verdict
business_failure e = record {
  status = Status.failed;
  category = OutcomeCategory.business_failed;
  disposition = RetryDisposition.not_requested;
  code = e.code;
}

abbrev system_failure : String → Verdict
system_failure code = record {
  status = Status.failed;
  category = OutcomeCategory.system_failed;
  disposition = RetryDisposition.retry_exhausted;
  code = code;
}

abbrev failure : Option StepException → Verdict
failure none = system_failure ""
failure (some e) = if is_business e then business_failure e else system_failure e.code

-- What the steps and the history of a finished transaction call for.
abbrev pub verdict : Transaction → Verdict
verdict tx = if all_complete tx then success else failure (last_failed_exception tx)

abbrev is_some {ℓ} : {A : Type ℓ} → Option A → Bool
is_some none = false
is_some (some _) = true

-- The state after a run that returned.
pub record IsConcluded (tx : Transaction) : Type 0 where
  pub decided : verdict_of tx ≡ verdict tx
  pub finished : is_some tx.finished_at ≡ true
  pub closed : last_event_is is_completed tx.history ≡ true

SameTransaction : Preorder (λ (tx tx' : Transaction). tx' ≡ tx)
SameTransaction = record { same = λ tx. refl; compose = λ tx tx' tx'' a b. b ∙ a }

module _ {W : Type 0} (env : Environment W) where
  -- The history grows by the entry, whether the sink raises or not.
  pub append-transaction :
      (event : HistoryEvent) (step : Option Step) (include : Bool) (w : World W)
      → (append env event step include w).1.transaction
        ≡ append_history event (live step w.transaction) (env.now w.outside).0 w.transaction
  unfolding append
  append-transaction event step include w =
      (publish-Moves SameTransaction env.sink env.state_fields step include
          (new_entry event (live step w.transaction) (env.now w.outside).0 w.transaction)).at
        (record {
          transaction =
              append_history event (live step w.transaction) (env.now w.outside).0 w.transaction;
          outside = (env.now w.outside).1;
        })

  -- The world in which the last history entry is made.
  abbrev pub concluded : World W → Transaction
  concluded w = record (conclude w.transaction) { finished_at = some (env.now w.outside).0 }

  -- What follows an action is a checkpoint, which changes nothing.
  then_checkpoint :
      (m : Exec (World W) (Unit {0})) (w : World W)
      → ((m >>= λ _. checkpoint env) w).1.transaction ≡ (m w).1.transaction
  then_checkpoint m w = go (m w).0 (m w).1
    where
      go :
          (r : Result (Unit {0})) (v : World W)
          → (◌>>=◌ (λ (u : World W). (r, v)) (λ _. checkpoint env) w).1.transaction ≡ v.transaction
      go (ok a) v = (checkpoint-Moves SameTransaction env).at v
      go (err e) v = refl

  pub finish_run-transaction :
      (engine : Engine) (w : World W)
      → (finish_run env engine w).1.transaction
        ≡ append_history HistoryEvent.transaction_completed none
            (env.now (env.now w.outside).1).0
            (concluded w)
  unfolding finish_run
  finish_run-transaction engine w =
      let v : World W = record { transaction = concluded w; outside = (env.now w.outside).1 } in
      then_checkpoint (append env HistoryEvent.transaction_completed none true) v
      ∙ append-transaction HistoryEvent.transaction_completed none true v

-- An entry that reports no failed step does not change which exception failed the transaction.
last_failed_exception-append :
    (tx : Transaction) (now : ℕ)
    → last_failed_exception (append_history HistoryEvent.transaction_completed none now tx)
      ≡ last_failed_exception tx
unfolding last_failed_exception append_history last_failed_from new_entry
last_failed_exception-append tx now =
    ap (last_failed_from tx.steps)
      (reverse-append tx.history (new_entry HistoryEvent.transaction_completed none now tx ∷ []))

pub last_event-append :
    (p : HistoryEvent → Bool) (es : List HistoryEntry) (e : HistoryEntry)
    → last_event_is p (es ++ (e ∷ [])) ≡ p e.event
last_event-append p [] e = refl
last_event-append p (x ∷ []) e = refl
last_event-append p (x ∷ y ∷ es) e = last_event-append p (y ∷ es) e

conclude-verdict : (tx : Transaction) → verdict_of (conclude tx) ≡ verdict tx
unfolding conclude
conclude-verdict tx = go (all_complete tx) (last_failed_exception tx)
  where
    go :
        (done : Bool) (e : Option StepException)
        → verdict_of (
            if done
            then record tx {
              status = Status.successful;
              outcome_category = OutcomeCategory.successful;
              retry_disposition = RetryDisposition.not_applicable;
              failure_code = "";
            }
            else failed_outcome e tx)
          ≡ (if done then success else failure e)
    go true e = refl
    go false none = refl
    go false (some e) = ground arith

-- The transaction behind `conclude`, `finished_at` and the last history entry.
abbrev pub closed : Transaction → ℕ → ℕ → Transaction
closed tx finished last =
    append_history HistoryEvent.transaction_completed none last
      (record (conclude tx) { finished_at = some finished })

closed-verdict :
    (tx : Transaction) (finished last : ℕ) → verdict (closed tx finished last) ≡ verdict tx
unfolding append_history last_failed_exception last_failed_from
closed-verdict tx finished last =
    ap₂ (λ (done : Bool) (e : Option StepException). if done then success else failure e)
      (ap (λ ss. all (λ s. is_complete s.status) ss) (KeepsRecords-conclude.steps tx))
      (last_failed_exception-append (record (conclude tx) { finished_at = some finished }) last
        ∙ ap₂ last_failed_from (KeepsRecords-conclude.steps tx)
            (ap reverse (KeepsRecords-conclude.history tx)))

closed-IsConcluded : (tx : Transaction) (finished last : ℕ) → IsConcluded (closed tx finished last)
unfolding append_history new_entry
closed-IsConcluded tx finished last = record {
  decided = conclude-verdict tx ∙ sym (closed-verdict tx finished last);
  finished = refl;
  closed = last_event-append is_completed (conclude tx).history (
      new_entry HistoryEvent.transaction_completed none last
        (record (conclude tx) { finished_at = some finished }));
}

module _ {W : Type 0} (env : Environment W) (engine : Engine) where
  finish_run-IsConcluded : (w : World W) → IsConcluded (finish_run env engine w).1.transaction
  finish_run-IsConcluded w =
      subst IsConcluded (sym (finish_run-transaction env engine w))
        (closed-IsConcluded w.transaction (env.now w.outside).0 (env.now (env.now w.outside).1).0)

  abbrev Done : World W → Type 0
  Done w = IsConcluded w.transaction

  -- The passes of a run, with what ends it.
  passes_then_finish : Transaction → Exec (World W) (Unit {0})
  passes_then_finish tx =
      try_except (run_passes env engine (initial_blocked_step_ids tx)) is_memory_error
        (λ e. interrupt env engine)
      >>= λ _. finish_run env engine

  passes_then_finish-IsConcluded :
      (tx : Transaction) (w : World W)
      → (passes_then_finish tx w).0 ≡ ok tt
      → Done (passes_then_finish tx w).1
  unfolding passes_then_finish
  passes_then_finish-IsConcluded tx w h =
      bind_ends Done
        (try_except (run_passes env engine (initial_blocked_step_ids tx)) is_memory_error
          (λ e. interrupt env engine))
        (λ _. finish_run env engine) w h (λ _ w h. finish_run-IsConcluded w)

  run_valid-IsConcluded :
      (w : World W) → (run_valid env engine w).0 ≡ ok tt → Done (run_valid env engine w).1
  unfolding run_valid passes_then_finish
  run_valid-IsConcluded w h =
      bind_ends Done (start_run env engine) (λ _. passes_then_finish w.transaction) w h
        (λ _ v h. passes_then_finish-IsConcluded w.transaction v h)

  -- A run that returns leaves a transaction whose status, outcome category, retry disposition and
  -- failure code are those that its steps and its history call for: success if every step is
  -- successful or skipped, else the business or the system failure of the last failed step, with
  -- that exception's code. It has a finishing time, and `transaction_completed` is its last entry.
  pub run-IsConcluded :
      (w : World W) → (run env engine w).0 ≡ ok tt → IsConcluded (run env engine w).1.transaction
  unfolding run
  run-IsConcluded w h =
      bind_ends Done (lift (check_emitter env))
        (λ _. validate_run env engine >>= λ _. run_valid env engine) w h
        (λ _ w h.
          bind_ends Done (validate_run env engine) (λ _. run_valid env engine) w h
            (λ _ w h. run_valid-IsConcluded w h))
