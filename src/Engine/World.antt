-- ===== src/Engine/World.antt =====
-- The world that the engine runs in, and its access to the transaction's steps.
use rpacore.Base.{ℕ, ℤ, String, Bool, List, Option, none, some, ◌==◌, find, update_where}
use rpacore.Status.{Status, HistoryEvent, OutcomeCategory}
use rpacore.Exceptions.{StepException, Error}
use rpacore.Exec.{Exec, Result, ok, gets, modify}
use rpacore.Json.{Value, Fields}
use rpacore.Transaction.{Step, Artifact, Transaction}

-- How `step.execute(ctx)` ends. `raised_exception` is any `Exception` of another class, with its
-- text; `raised_base` is an exception outside `Exception`.
pub data StepOutcome : Type 0 where
  returned : StepOutcome
  raised_business raised_system : StepException → StepOutcome
  raised_memory_error : StepOutcome
  raised_exception : String → StepOutcome
  raised_base : Error → StepOutcome

-- What a step does to the transaction through its context: the durable state and the artifacts
-- that it leaves, and whether it marks itself as skipped.
pub record StepEffect : Type 0 where
  pub state : Value
  pub artifacts : List Artifact
  pub marks_skipped : Bool
  pub outcome : StepOutcome

-- `ExecutionTransition`, the fact handed to the transition sink. `transition_id` is the
-- transaction's id and the sequence number.
pub record ExecutionTransition : Type 0 where
  pub transition_id : String × ℕ
  pub sequence : ℕ
  pub occurred_at : ℕ
  pub event : HistoryEvent
  pub transaction_reference : String
  pub definition_identity : String
  pub transaction_status : Status
  pub execution_pass : ℕ
  pub step_name : String
  pub step_execution_order : Option ℤ
  pub step_status : Option Status
  pub outcome_category : OutcomeCategory
  pub failure_code : String
  pub retry_recommended : Option Bool
  pub checkpoint_state : Fields

pub record Environment (W : Type 0) : Type 0 where
  pub execute : Step → Transaction → W → StepEffect × W
  pub now : W → ℕ × W
  pub sleep : ℕ → W → W  -- before the retry pass after so many completed ones
  pub capture : W → Result String × W  -- `capture_screenshot`
  pub new_id : W → String × W  -- `uuid.uuid4()`
  pub checkpoint : Option (Transaction → W → Result (Unit {0}) × W)
  pub sink : Option (ExecutionTransition → W → Result (Unit {0}) × W)
  pub state_fields : List String  -- `transition_state_fields`

-- The options of `Engine.__init__`: whether `retry_delay` is not zero, and whether there is a
-- `screenshot_dir`.
pub record Engine : Type 0 where
  pub max_retries : ℕ
  pub delays_retries : Bool
  pub takes_screenshots : Bool

pub record World (W : Type 0) : Type 0 where
  pub transaction : Transaction
  pub outside : W

-- `id(step) == ident`
abbrev pub has_ident : ℕ → Step → Bool
has_ident i s = s.ident == i

-- The object as it is now; a step that the transaction has lost keeps what it was.
abbrev pub or_step : Option Step → Step → Step
or_step none s = s
or_step (some t) s = t

unfoldable pub current_step : Step → Transaction → Step
current_step s tx = or_step (find (has_ident s.ident) tx.steps) s

-- A write through a reference to the step.
unfoldable pub change_step : Step → (Step → Step) → Transaction → Transaction
change_step s f tx = record tx { steps = update_where (has_ident s.ident) f tx.steps }

module _ {W : Type 0} where
  abbrev pub get_transaction : Exec (World W) Transaction
  get_transaction = gets (λ w. w.transaction)

  abbrev pub modify_transaction : (Transaction → Transaction) → Exec (World W) (Unit {0})
  modify_transaction f = modify (λ w. record w { transaction = f w.transaction })

  -- An action of the outside world that raises nothing.
  abbrev pub ask {κ} : {A : Type κ} → (W → A × W) → Exec (World W) A
  ask f w = let (a, o) = f w.outside in (ok a, record w { outside = o })

  -- An action of the outside world that may raise.
  abbrev pub call {κ} : {A : Type κ} → (W → Result A × W) → Exec (World W) A
  call f w = let (r, o) = f w.outside in (r, record w { outside = o })

  abbrev pub set_status : Step → Status → Exec (World W) (Unit {0})
  set_status s status = modify_transaction (change_step s (λ t. record t { status = status }))
