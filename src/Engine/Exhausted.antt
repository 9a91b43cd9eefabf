-- ===== src/Engine/Exhausted.antt =====
-- When a run that returns has stopped to retry.
use rpacore.Base.{
  ℕ, ◌≤◌, ◌≡◌, refl, sym, ap, ◌∙◌, ◌⊎◌, Bool, true, false, List, [], Option, none, some, arith,
  if◌then◌else◌, subst, filter,
}
use rpacore.Status.{HistoryEvent, is_failed}
use rpacore.Exceptions.{
  Error, is_memory_error, is_system, last_is, memory_error, is_execution_validation,
}
use rpacore.Exec.{Exec, Result, ok, err, lift, raise, ◌>>=◌, try_except}
use rpacore.Exec.Keeps.{Moves, Moves-bind, Moves-pure, bind_ends, bind_ok}
use rpacore.Transaction.{Step, Transaction, append_history, failed_steps, validate_for_execution}
use rpacore.Engine.World.{Environment, World, Engine, modify_transaction, ask}
use rpacore.Engine.Transitions.{append, check_emitter}
use rpacore.Engine.Failures.{
  checkpoint, retryable_failed_steps, initial_blocked_step_ids, reset_skipped_steps,
}
use rpacore.Engine.Run.{
  begin, conclude, interrupted_outcome, validation_outcome, last_checkpoint, run_passes, fill_time,
  start_run, interrupt, reject, finish_run, run_valid, validate_run, run,
}
use rpacore.Engine.Effects.{OnWorld, world_pre, modify-Moves, ask-Moves}
use rpacore.Engine.Runs.{KeepsRecords-conclude}
use rpacore.Engine.Outcome.{finish_run-transaction}
use rpacore.Engine.Retrying.{
  SameCount, SameCount-pre, reset_skipped-count, log-count, save-count, then_, count, IsExhausted,
  Stopped, Ends, run_passes-Ends,
}

conclude-count : (tx : Transaction) → SameCount tx (conclude tx)
unfolding conclude
conclude-count tx = ground arith

module _ {W : Type 0} (env : Environment W) (engine : Engine) where
  write-count :
      (f : Transaction → Transaction)
      → ((tx : Transaction) → SameCount tx (f tx))
      → Moves (OnWorld {W = W} SameCount) (modify_transaction f)
  write-count f h = modify-Moves SameCount-pre f h

  fill_time-count :
      (field : Option ℕ) (put : ℕ → Transaction → Transaction)
      → ((now : ℕ) (tx : Transaction) → SameCount tx (put now tx))
      → Moves (OnWorld SameCount) (fill_time env engine field put)
  unfolding fill_time
  fill_time-count (some t) put h = Moves-pure (world_pre SameCount-pre) tt
  fill_time-count none put h =
      Moves-bind (world_pre SameCount-pre) (ask env.now) (λ now. modify_transaction (put now))
        (ask-Moves SameCount-pre env.now) (λ now. write-count (put now) (h now))

  start_run-count : Moves (OnWorld SameCount) (start_run env engine)
  unfolding start_run
  start_run-count = record {
    at = λ w.
        let log : Exec (World W) (Unit {0}) =
          append env HistoryEvent.transaction_started none true in
        let clear : Exec (World W) (Unit {0}) =
          modify_transaction (λ t. record t { finished_at = none }) in
        let begun = begin (reset_skipped_steps w.transaction) in
        let put : ℕ → Transaction → Transaction = λ now t. record t { started_at = some now } in
        ((then_ env engine (fill_time env engine begun.started_at put)
            (λ _. clear >>= λ _. log >>= λ _. checkpoint env)
            (fill_time-count begun.started_at put (λ now t. refl))
            (λ _.
              then_ env engine clear (λ _. log >>= λ _. checkpoint env)
                (write-count (λ t. record t { finished_at = none }) (λ t. refl))
                (λ _.
                  then_ env engine log (λ _. checkpoint env)
                    (log-count env engine HistoryEvent.transaction_started)
                    (λ _. save-count env engine)))).at
          (record w { transaction = begun }))
        ∙ reset_skipped-count w.transaction;
  }

  -- `except MemoryError` raises the error again.
  interrupt-raises : (w : World W) → (interrupt env engine w).0 ≡ ok tt → ⊥
  unfolding interrupt
  interrupt-raises w h =
      let tx = interrupted_outcome w.transaction in
      let v : World W = record w { transaction = tx } in
      let again : Exec (World W) (Unit {0}) =
        last_checkpoint env engine >>= λ _. raise memory_error in
      let log : Exec (World W) (Unit {0}) =
        append env HistoryEvent.transaction_completed none true in
      let fill : Exec (World W) (Unit {0}) =
        fill_time env engine tx.finished_at (λ now t. record t { finished_at = some now }) in
      bind_ends (λ _. ⊥) fill (λ _. log >>= λ _. again) v h
        (λ _ v h.
          bind_ends (λ _. ⊥) log (λ _. again) v h
            (λ _ v h.
              bind_ends (λ _. ⊥) (last_checkpoint env engine) (λ _. raise memory_error) v h
                (λ _ v h. cc)))

  -- The passes of a run, under the handler of `MemoryError`.
  guarded-Stopped :
      (blocked : Option (List ℕ)) (w : World W)
      → count env engine w ≤ engine.max_retries
      → (try_except (run_passes env engine blocked) is_memory_error (λ e. interrupt env engine) w).0
        ≡ ok tt
      → Stopped env engine
          (try_except
            (run_passes env engine blocked)
            is_memory_error
            (λ e. interrupt env engine)
            w).1
  guarded-Stopped blocked w bound h =
      go (run_passes env engine blocked w).0 (run_passes env engine blocked w).1
        (unfold Ends in run_passes-Ends env engine blocked w bound) h
    where
      handler : Error → Exec (World W) (Unit {0})
      handler e = interrupt env engine

      go :
          (r : Result (Unit {0})) (v : World W)
          → (r ≡ ok tt → Stopped env engine v)
          → (try_except (λ (u : World W). (r, v)) is_memory_error handler w).0 ≡ ok tt
          → Stopped env engine (try_except (λ (u : World W). (r, v)) is_memory_error handler w).1
      go (ok a) v stopped h = stopped refl
      go (err e) v stopped h = handled (is_memory_error e) h
        where
          handled :
              (b : Bool)
              → (if b then interrupt env engine v else (err e, v)).0 ≡ ok tt
              → Stopped env engine (if b then interrupt env engine v else (err e, v)).1
          handled true h = absurd (interrupt-raises v h)
          handled false h = cc

  finish_run-Stopped :
      (w : World W) → Stopped env engine w → Stopped env engine (finish_run env engine w).1
  unfolding Stopped retryable_failed_steps failed_steps append_history
  finish_run-Stopped w s =
      let Parts : ℕ → List Step → Type 0 = λ n ss.
        (n ≤ engine.max_retries)
        × ((engine.max_retries ≤ n)
            ⊎ (filter (λ t. last_is is_system t.exceptions) (filter (λ t. is_failed t.status) ss)
                ≡ [])) in
      let tx = w.transaction in
      subst (λ tx. (tx.retry_count ≤ engine.max_retries) × IsExhausted env engine tx)
        (sym (finish_run-transaction env engine w))
        (subst (λ n. Parts n (conclude tx).steps) (sym (conclude-count tx))
          (subst (λ ss. Parts tx.retry_count ss) (sym (KeepsRecords-conclude.steps tx)) s))

  -- The passes of a run, with what ends it, after the start.
  later : Option (List ℕ) → Unit {0} → Exec (World W) (Unit {0})
  later blocked _ =
      try_except (run_passes env engine blocked) is_memory_error (λ e. interrupt env engine)
      >>= λ _. finish_run env engine

  later-Stopped :
      (blocked : Option (List ℕ)) (w : World W)
      → count env engine w ≤ engine.max_retries
      → (later blocked tt w).0 ≡ ok tt
      → Stopped env engine (later blocked tt w).1
  unfolding later
  later-Stopped blocked w bound h =
      let guarded : Exec (World W) (Unit {0}) =
        try_except (run_passes env engine blocked) is_memory_error (λ e. interrupt env engine) in
      let (_, returned, e) = bind_ok guarded (λ _. finish_run env engine) w h in
      subst (λ (p : Result (Unit {0}) × World W). Stopped env engine p.1) (sym e)
        (finish_run-Stopped (guarded w).1 (guarded-Stopped blocked w bound returned))

  run_valid-Stopped :
      (w : World W)
      → count env engine w ≤ engine.max_retries
      → (run_valid env engine w).0 ≡ ok tt
      → Stopped env engine (run_valid env engine w).1
  unfolding run_valid later
  run_valid-Stopped w bound h =
      let blocked = initial_blocked_step_ids w.transaction in
      let (_, _, e) = bind_ok (start_run env engine) (later blocked) w h in
      let same = start_run-count.at w in
      subst (λ (p : Result (Unit {0}) × World W). Stopped env engine p.1) (sym e)
        (later-Stopped blocked (start_run env engine w).1 (omega (arith, same, bound))
          (sym (ap (λ (p : Result (Unit {0}) × World W). p.0) e) ∙ h))

  reject-raises : (e : Error) (w : World W) → (reject env engine e w).0 ≡ ok tt → ⊥
  unfolding reject
  reject-raises e w h =
      let v : World W = record {
        transaction = validation_outcome (env.now w.outside).0 w.transaction;
        outside = (env.now w.outside).1;
      } in
      bind_ends (λ _. ⊥) (append env HistoryEvent.transaction_completed none false) (λ _. raise e) v
        h (λ _ v h. cc)

  -- Where validation returns, the transaction is valid and nothing has changed.
  validate_run-same :
      (w : World W)
      → (validate_run env engine w).0 ≡ ok tt
      → (validate_for_execution w.transaction ≡ ok tt) × ((validate_run env engine w).1 ≡ w)
  unfolding validate_run
  validate_run-same w h = go (validate_for_execution w.transaction) h
    where
      check : Result (Unit {0}) → Exec (World W) (Unit {0})
      check r = try_except (lift r) is_execution_validation (reject env engine)

      go : (r : Result (Unit {0})) → (check r w).0 ≡ ok tt → (r ≡ ok tt) × ((check r w).1 ≡ w)
      go (ok a) h = (refl, refl)
      go (err e) h = absurd (handled (is_execution_validation e) h)
        where
          handled : (b : Bool) → (if b then reject env engine e w else (err e, w)).0 ≡ ok tt → ⊥
          handled true h = reject-raises e w h
          handled false h = cc

  -- A run that returns has checked what it was given, and is the run of a valid transaction.
  pub run-valid :
      (w : World W)
      → (run env engine w).0 ≡ ok tt
      → (check_emitter env ≡ ok tt)
        × (validate_for_execution w.transaction ≡ ok tt)
        × (run env engine w ≡ run_valid env engine w)
  unfolding run
  run-valid w h =
      let valid : Unit {0} → Exec (World W) (Unit {0}) = λ _. run_valid env engine in
      let (_, checked, e) =
        bind_ok (lift (check_emitter env)) (λ _. validate_run env engine >>= valid) w h in
      let h' = sym (ap (λ (p : Result (Unit {0}) × World W). p.0) e) ∙ h in
      let (_, validated, e') = bind_ok (validate_run env engine) valid w h' in
      let (is_valid, same) = validate_run-same w validated in
      (checked, is_valid, e ∙ e' ∙ ap (run_valid env engine) same)

  -- A run that returns, of a transaction that has not used more than its retries, has not retried
  -- more often than `max_retries` allows, and has stopped for a reason: the retries are used up, or
  -- no failed step has a system exception as its last.
  pub run-IsExhausted :
      (w : World W)
      → w.transaction.retry_count ≤ engine.max_retries
      → (run env engine w).0 ≡ ok tt
      → ((run env engine w).1.transaction.retry_count ≤ engine.max_retries)
        × IsExhausted env engine (run env engine w).1.transaction
  unfolding Stopped
  run-IsExhausted w bound h =
      let (_, _, e) = run-valid w h in
      subst (λ (p : Result (Unit {0}) × World W). Stopped env engine p.1) (sym e)
        (run_valid-Stopped w bound (sym (ap (λ (p : Result (Unit {0}) × World W). p.0) e) ∙ h))
