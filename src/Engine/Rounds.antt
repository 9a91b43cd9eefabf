-- ===== src/Engine/Rounds.antt =====
-- The round of one step in `_execute_pass`, for any relation that tolerates the step's writes.
use rpacore.Base.{
  ◌≡◌, refl, Bool, true, false, not, ◌||◌, List, [], ◌∷◌, ◌++◌, Option, some, ◌==◌, String,
  if◌then◌else◌,
}
use rpacore.Status.{Status, HistoryEvent, is_pending, is_skipped}
use rpacore.Exceptions.{StepException, memory_error, halts_remaining_steps}
use rpacore.Exec.{Exec, pure, ◌>>=◌}
use rpacore.Exec.Keeps.{Moves, Moves-pure, Moves-raise, Moves-bind, Moves-if}
use rpacore.Transaction.{Step, Transaction, ordered_steps}
use rpacore.Engine.World.{
  Environment, World, Engine, StepEffect, StepOutcome, returned, raised_business, raised_system,
  raised_memory_error, raised_exception, raised_base, get_transaction, modify_transaction,
  current_step, change_step, set_status,
}
use rpacore.Engine.Transitions.{append}
use rpacore.Engine.Failures.{
  is_empty_path, screenshot_artifact, add_artifact, with_failure, checkpoint, register_screenshot,
  record_failure, take_screenshot,
}
use rpacore.Engine.Pass.{
  wrap, apply_effect, finish_step, halt_or_continue, skip_if_pending, execute_step, handle,
  start_step, skip_downstream, skip_downstream_from,
}
use rpacore.Engine.Effects.{
  OnWorld, KeepsWiring, KeepsWiring-status, Tolerates, world_pre, ask-Moves, call-Moves,
  get_transaction-Moves, checkpoint-Moves, modify-Moves, append-Moves,
}

module _ {W : Type 0} {T : Transaction → Transaction → Type 0} (env : Environment W)
    (engine : Engine) (s : Step) (ok_for : Tolerates T s) where
  then_ {κ ν} :
      {A : Type κ} {B : Type ν} (m : Exec (World W) A) (f : A → Exec (World W) B)
      → Moves (OnWorld T) m
      → ((a : A) → Moves (OnWorld T) (f a))
      → Moves (OnWorld T) (m >>= f)
  then_ m f = Moves-bind (world_pre ok_for.pre) m f

  return {κ} : {A : Type κ} (a : A) → Moves (OnWorld {W = W} T) (pure a)
  return a = Moves-pure (world_pre ok_for.pre) a

  read : Moves (OnWorld T) (get_transaction {W = W})
  read = get_transaction-Moves ok_for.pre

  log :
      (event : HistoryEvent) (step : Option Step) (include : Bool)
      → Moves (OnWorld T) (append env event step include)
  log event step include =
      append-Moves ok_for.pre env event step include
        (λ st now tx. ok_for.add_history event st now tx)

  save : Moves (OnWorld T) (checkpoint env)
  save = checkpoint-Moves ok_for.pre env

  own_change :
      (f : Step → Step)
      → KeepsWiring f
      → Moves (OnWorld {W = W} T) (modify_transaction (change_step s f))
  own_change f k = modify-Moves ok_for.pre _ (λ tx. ok_for.change_own f tx k)

  register-Moves : (path : String) → Moves (OnWorld T) (register_screenshot env s path)
  unfolding register_screenshot
  register-Moves path = Moves-if (is_empty_path path) _ _ (return tt) (
      then_ _ _ (ask-Moves ok_for.pre env.new_id) (λ id.
        then_ _ _ (ask-Moves ok_for.pre env.now) (λ now.
          modify-Moves ok_for.pre (add_artifact (screenshot_artifact s path id now)) (λ tx.
            ok_for.set_data tx.state (tx.artifacts ++ (screenshot_artifact s path id now ∷ []))
              tx))))

  take_screenshot-Moves : Moves (OnWorld T) (take_screenshot env engine s)
  unfolding take_screenshot
  take_screenshot-Moves = Moves-if (not engine.takes_screenshots) _ _ (return tt) (
      then_ _ _ (call-Moves ok_for.pre env.capture) (λ path.
        then_ _ _
          (own_change _
            (record { ident = λ t. refl; name = λ t. refl; execution_order = λ t. refl }))
          (λ _. register-Moves path)))

  record_failure-Moves : (e : StepException) → Moves (OnWorld T) (record_failure env engine s e)
  unfolding record_failure
  record_failure-Moves e = then_ _ _ read (λ tx.
      then_ _ _
        (own_change (with_failure e tx.retry_count)
          (record { ident = λ t. refl; name = λ t. refl; execution_order = λ t. refl }))
        (λ _.
          then_ _ _ (log HistoryEvent.step_failed (some s) true)
            (λ _. then_ _ _ take_screenshot-Moves (λ _. save))))

  skip_if_pending-Moves :
      (u : Step) (w : World W)
      → T w.transaction
          (skip_if_pending env engine u (current_step u w.transaction).status w).1.transaction
  unfolding skip_if_pending
  skip_if_pending-Moves u w = go (is_pending (current_step u w.transaction).status) refl
    where
      skip : Exec (World W) (Unit {0})
      skip = set_status u Status.skipped >>= λ _. append env HistoryEvent.step_skipped (some u) true

      go :
          (b : Bool)
          → is_pending (current_step u w.transaction).status ≡ b
          → T w.transaction ((if not b then pure tt else skip) w).1.transaction
      go false e = ok_for.pre.same w.transaction
      go true e =
          ok_for.pre.compose w.transaction _ _ (ok_for.skip_pending u w.transaction e)
            ((log HistoryEvent.step_skipped (some u) true).at (set_status u Status.skipped w).1)

  -- One step of the loop that is behind the failed step.
  skip_round-Moves :
      (u : Step)
      → Moves
          (OnWorld T)
          (get_transaction >>= λ tx. skip_if_pending env engine u (current_step u tx).status)
  skip_round-Moves u = record { at = λ w. skip_if_pending-Moves u w }

  skip_downstream_from-Moves :
      (failed : Step) (should_skip : Bool) (us : List Step)
      → Moves (OnWorld T) (skip_downstream_from env engine failed should_skip us)
  unfolding skip_downstream_from
  skip_downstream_from-Moves failed should_skip [] = return tt
  skip_downstream_from-Moves failed should_skip (u ∷ us) =
      let rest = skip_downstream_from-Moves failed (should_skip || u.ident == failed.ident) us in
      Moves-if (u.ident == failed.ident || not should_skip) _ _ rest (record {
        at = λ w.
            (then_
                (get_transaction >>= λ tx. skip_if_pending env engine u (current_step u tx).status)
                (λ _.
                  skip_downstream_from env engine failed (should_skip || u.ident == failed.ident)
                    us)
                (skip_round-Moves u) (λ _. rest)).at
              w;
      })

  skip_downstream-Moves : (failed : Step) → Moves (OnWorld T) (skip_downstream env engine failed)
  unfolding skip_downstream
  skip_downstream-Moves failed =
      then_ _ _ read
        (λ tx. then_ _ _ (skip_downstream_from-Moves failed false (ordered_steps tx)) (λ _. save))

  finish_step-Moves : (status : Status) → Moves (OnWorld T) (finish_step env engine s status)
  unfolding finish_step
  finish_step-Moves status =
      Moves-if (is_skipped status) _ _ (log HistoryEvent.step_skipped (some s) true) (
        then_ _ _ (own_change _ (KeepsWiring-status Status.successful))
          (λ _. log HistoryEvent.step_succeeded (some s) true))

  halt_or_continue-Moves : (e : StepException) → Moves (OnWorld T) (halt_or_continue env engine s e)
  unfolding halt_or_continue
  halt_or_continue-Moves e =
      Moves-if (not (halts_remaining_steps e)) _ _ (return true)
        (then_ _ _ (skip_downstream-Moves s) (λ _. return false))

  handle-Moves : (outcome : StepOutcome) → Moves (OnWorld T) (handle env engine s outcome)
  unfolding handle
  handle-Moves returned = then_ _ _ read (λ tx.
      then_ _ _ (finish_step-Moves (current_step s tx).status)
        (λ _. then_ _ _ save (λ _. return true)))
  handle-Moves (raised_business e) =
      then_ _ _ (record_failure-Moves e) (λ _. halt_or_continue-Moves e)
  handle-Moves (raised_system e) = then_ _ _ (record_failure-Moves e) (λ _. return false)
  handle-Moves raised_memory_error =
      then_ _ _ (own_change _ (KeepsWiring-status Status.failed)) (λ _.
        then_ _ _ (log HistoryEvent.step_interrupted (some s) true)
          (λ _. then_ _ _ save (λ _. Moves-raise (world_pre ok_for.pre) memory_error)))
  handle-Moves (raised_exception message) =
      then_ _ _ (ask-Moves ok_for.pre env.now)
        (λ now. then_ _ _ (record_failure-Moves (wrap s message now)) (λ _. return false))
  handle-Moves (raised_base e) = Moves-raise (world_pre ok_for.pre) e

  effect_ok : (e : StepEffect) (tx : Transaction) → T tx (apply_effect s e tx)
  unfolding apply_effect
  effect_ok e tx = go e.marks_skipped
    where
      tx' : Transaction
      tx' = record tx { state = e.state; artifacts = e.artifacts }

      skip : Step → Step
      skip t = record t { status = Status.skipped }

      go : (b : Bool) → T tx (if b then change_step s skip tx' else tx')
      go false = ok_for.set_data e.state e.artifacts tx
      go true =
          ok_for.pre.compose tx tx' _ (ok_for.set_data e.state e.artifacts tx)
            (ok_for.change_own skip tx' (KeepsWiring-status Status.skipped))

  execute_step-Moves : Moves (OnWorld T) (execute_step env engine s)
  unfolding execute_step
  execute_step-Moves = record {
    at = λ w.
        effect_ok (env.execute (current_step s w.transaction) w.transaction w.outside).0
          w.transaction;
  }

  -- All that happens in the round of `s`, for a relation that tolerates its writes.
  pub start_step-Moves : Moves (OnWorld T) (start_step env engine s)
  unfolding start_step
  start_step-Moves = then_ _ _ (own_change _ (KeepsWiring-status Status.in_progress)) (λ _.
      then_ _ _ (log HistoryEvent.step_started (some s) true)
        (λ _. then_ _ _ save (λ _. then_ _ _ execute_step-Moves (λ o. handle-Moves o))))
