-- ===== src/Engine/Effects.antt =====
-- What the engine's actions do to a transaction, for any relation that tolerates their writes.
use rpacore.Base.{ℕ, ◌≡◌, refl, String, Bool, true, List, Option, none, some}
use rpacore.Status.{Status, HistoryEvent, is_pending}
use rpacore.Exec.{Result, lift}
use rpacore.Exec.Keeps.{Moves, Preorder, Moves-bind}
use rpacore.Json.{Value, validate_json_object}
use rpacore.Transaction.{Step, Transaction, Artifact, HistoryEntry, new_entry, append_history}
use rpacore.Engine.World.{
  Environment, World, ExecutionTransition, get_transaction, modify_transaction, ask, call,
  current_step, change_step,
}
use rpacore.Engine.Transitions.{live, publish, append}
use rpacore.Engine.Failures.{save_with, checkpoint}

-- The same relation between two worlds.
abbrev pub OnWorld :
    {W : Type 0} → (Transaction → Transaction → Type 0) → World W → World W → Type 0
OnWorld T w w' = T w.transaction w'.transaction

-- A change of a step that leaves alone what identifies it.
pub record KeepsWiring (f : Step → Step) : Type 0 where
  pub ident : (s : Step) → (f s).ident ≡ s.ident
  pub name : (s : Step) → (f s).name ≡ s.name
  pub execution_order : (s : Step) → (f s).execution_order ≡ s.execution_order

pub KeepsWiring-status : (status : Status) → KeepsWiring (λ t. record t { status = status })
KeepsWiring-status status = record {
  ident = λ s. refl;
  name = λ s. refl;
  execution_order = λ s. refl;
}

-- `T` holds of every write that a pass makes while `s` is the step that runs.
pub record Tolerates (T : Transaction → Transaction → Type 0) (s : Step) : Type 0 where
  pub pre : Preorder T
  pub add_history :
      (event : HistoryEvent) (step : Option Step) (now : ℕ) (tx : Transaction)
      → T tx (append_history event step now tx)
  pub set_data :
      (state : Value) (artifacts : List Artifact) (tx : Transaction)
      → T tx (record tx { state = state; artifacts = artifacts })
  pub change_own : (f : Step → Step) (tx : Transaction) → KeepsWiring f → T tx (change_step s f tx)
  pub skip_pending :
      (u : Step) (tx : Transaction)
      → is_pending (current_step u tx).status ≡ true
      → T tx (change_step u (λ t. record t { status = Status.skipped }) tx)

module _ {W : Type 0} {T : Transaction → Transaction → Type 0} (pre : Preorder T) where
  pub world_pre : Preorder (OnWorld {W = W} T)
  world_pre = record {
    same = λ w. pre.same w.transaction;
    compose = λ u v w. pre.compose u.transaction v.transaction w.transaction;
  }

  pub ask-Moves {κ} : {A : Type κ} (f : W → A × W) → Moves (OnWorld T) (ask f)
  ask-Moves f = record { at = λ w. pre.same w.transaction }

  pub call-Moves {κ} : {A : Type κ} (f : W → Result A × W) → Moves (OnWorld T) (call f)
  call-Moves f = record { at = λ w. pre.same w.transaction }

  pub get_transaction-Moves : Moves (OnWorld T) (get_transaction {W = W})
  get_transaction-Moves = record { at = λ w. pre.same w.transaction }

  pub lift-Moves {κ} : {A : Type κ} (r : Result A) → Moves (OnWorld {W = W} T) (lift r)
  lift-Moves r = record { at = λ w. pre.same w.transaction }

  save_with-Moves :
      (save : Option (Transaction → W → Result (Unit {0}) × W)) → Moves (OnWorld T) (save_with save)
  unfolding save_with
  save_with-Moves none = record { at = λ w. pre.same w.transaction }
  save_with-Moves (some save) = Moves-bind world_pre _ _ get_transaction-Moves (λ tx.
      Moves-bind world_pre _ _ (lift-Moves (validate_json_object tx.state))
        (λ _. call-Moves (save tx)))

  -- A checkpoint changes nothing.
  pub checkpoint-Moves : (env : Environment W) → Moves (OnWorld T) (checkpoint env)
  unfolding checkpoint
  checkpoint-Moves env = save_with-Moves env.checkpoint

  pub publish-Moves :
      (sink : Option (ExecutionTransition → W → Result (Unit {0}) × W)) (names : List String)
      (step : Option Step) (include : Bool) (entry : HistoryEntry)
      → Moves (OnWorld T) (publish sink names step include entry)
  unfolding publish
  publish-Moves none names step include entry = record { at = λ w. pre.same w.transaction }
  publish-Moves (some sink) names step include entry =
      Moves-bind world_pre _ _ get_transaction-Moves
        (λ tx. Moves-bind world_pre _ _ (lift-Moves _) (λ fact. call-Moves (sink fact)))

  pub modify-Moves :
      (f : Transaction → Transaction)
      → ((tx : Transaction) → T tx (f tx))
      → Moves (OnWorld {W = W} T) (modify_transaction f)
  modify-Moves f h = record { at = λ w. h w.transaction }

  pub append-Moves :
      (env : Environment W) (event : HistoryEvent) (step : Option Step) (include : Bool)
      → ((step : Option Step) (now : ℕ) (tx : Transaction)
          → T tx (append_history event step now tx))
      → Moves (OnWorld T) (append env event step include)
  unfolding append
  append-Moves env event step include h = Moves-bind world_pre _ _ (ask-Moves env.now) (λ now.
      Moves-bind world_pre _ _ get_transaction-Moves (λ tx.
        Moves-bind world_pre _ _ (modify-Moves _ (λ t. h (live step tx) now t)) (λ _.
          publish-Moves env.sink env.state_fields step include
            (new_entry event (live step tx) now tx))))
