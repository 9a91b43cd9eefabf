-- ===== src/Engine/Passes.antt =====
-- Passes and whole runs, for any relation that tolerates what they do to a transaction.
use rpacore.Base.{ℕ, ◌≡◌, refl, Bool, true, false, ◌||◌, List, [], ◌∷◌, Option, if◌then◌else◌}
use rpacore.Status.{is_complete}
use rpacore.Exec.{pure}
use rpacore.Exec.Keeps.{Moves, Preorder, Moves-pure, Moves-bind, Moves-if}
use rpacore.Transaction.{Step, Transaction, ordered_steps}
use rpacore.Engine.World.{Environment, World, Engine, current_step}
use rpacore.Engine.Pass.{is_blocked, start_step, run_step, run_steps, execute_pass}
use rpacore.Engine.Effects.{OnWorld, world_pre, get_transaction-Moves}

module _ {W : Type 0} {T : Transaction → Transaction → Type 0} (env : Environment W)
    (engine : Engine) (blocked : Option (List ℕ)) (pre : Preorder T)
    (round : (s : Step) (w : World W)
      → is_complete (current_step s w.transaction).status ≡ false
      → is_blocked blocked s ≡ false
      → T w.transaction (start_step env engine s w).1.transaction) where
  pub run_step-Moves : (s : Step) → Moves (OnWorld T) (run_step env engine blocked s)
  unfolding run_step
  run_step-Moves s = record {
    at = λ w.
        go w (is_complete (current_step s w.transaction).status) (is_blocked blocked s) refl refl;
  }
    where
      go :
          (w : World W) (complete blocks : Bool)
          → is_complete (current_step s w.transaction).status ≡ complete
          → is_blocked blocked s ≡ blocks
          → T w.transaction
              ((if complete || blocks then pure true else start_step env engine s) w).1.transaction
      go w true blocks e f = pre.same w.transaction
      go w false true e f = pre.same w.transaction
      go w false false e f = round s w e f

  run_steps-Moves : (ss : List Step) → Moves (OnWorld T) (run_steps env engine blocked ss)
  unfolding run_steps
  run_steps-Moves [] = Moves-pure (world_pre pre) tt
  run_steps-Moves (s ∷ ss) =
      Moves-bind (world_pre pre) _ _ (run_step-Moves s)
        (λ b. Moves-if b _ _ (run_steps-Moves ss) (Moves-pure (world_pre pre) tt))

  pub execute_pass-Moves : Moves (OnWorld T) (execute_pass env engine blocked)
  unfolding execute_pass
  execute_pass-Moves =
      Moves-bind (world_pre pre) _ _ (get_transaction-Moves pre)
        (λ tx. run_steps-Moves (ordered_steps tx))
