-- ===== src/Engine/Failures.antt =====
-- engine.py: checkpoints, the record of a failed step, and the queries on failed steps.
use Prim.Native.String.{◌++◌ as append_text}
use rpacore.Base.{
  ℕ, String, Bool, true, false, not, ◌&&◌, List, [], ◌∷◌, ◌++◌, Option, none, some, filter, ◌==◌,
  eq_ℤ, str_eq, if◌then◌else◌,
}
use mathlib.Core.List.{reverse, map}
use rpacore.Status.{Status, HistoryEvent, is_step_failed, is_skipped, is_resumed}
use rpacore.Exceptions.{StepException, is_system, is_business, last_is}
use rpacore.Exec.{Exec, Result, pure, lift, ◌>>=◌, ◌>>◌}
use rpacore.Json.{text, str, int, dict, end, field, validate_json_object}
use rpacore.Transaction.{Step, Transaction, Artifact, HistoryEntry, failed_steps}
use rpacore.Engine.World.{
  Environment, World, Engine, get_transaction, modify_transaction, ask, call, change_step,
}
use rpacore.Engine.Transitions.{append}

abbrev pub last_event_is : (HistoryEvent → Bool) → List HistoryEntry → Bool
last_event_is p [] = false
last_event_is p (e ∷ []) = p e.event
last_event_is p (_ ∷ e ∷ es) = last_event_is p (e ∷ es)

-- `transaction.history and transaction.history[-1].event is HistoryEvent.TRANSACTION_RESUMED`
unfoldable pub just_resumed : Transaction → Bool
just_resumed tx = last_event_is is_resumed tx.history

-- `_retryable_failed_steps`
unfoldable pub retryable_failed_steps : Transaction → List Step
unfolding failed_steps
retryable_failed_steps tx = filter (λ s. last_is is_system s.exceptions) (failed_steps tx)

-- `_business_failed_step_ids`
unfoldable pub business_failed_step_ids : Transaction → List ℕ
unfolding failed_steps
business_failed_step_ids tx =
    map (λ s. s.ident) (filter (λ s. last_is is_business s.exceptions) (failed_steps tx))

-- `_initial_blocked_step_ids`
unfoldable pub initial_blocked_step_ids : Transaction → Option (List ℕ)
unfolding just_resumed business_failed_step_ids
initial_blocked_step_ids tx = if just_resumed tx then some (business_failed_step_ids tx) else none

abbrev pub reset_if_skipped : Step → Step
reset_if_skipped s = if is_skipped s.status then record s { status = Status.pending } else s

-- `_reset_skipped_steps`
unfoldable pub reset_skipped_steps : Transaction → Transaction
unfolding just_resumed
reset_skipped_steps tx =
    if just_resumed tx then tx else record tx { steps = map reset_if_skipped tx.steps }

abbrev same_key : HistoryEntry → Step → Bool
same_key e s = elim e.step_execution_order [
  | none ↦ false
  | some order ↦ str_eq s.name e.step_name && eq_ℤ s.execution_order order
]

-- The first exception with the retry number.
unfoldable pub exception_of_pass : ℕ → List StepException → Option StepException
exception_of_pass n [] = none
exception_of_pass n (e ∷ es) = if e.retry_number == n then some e else exception_of_pass n es

abbrev or_else {ℓ} : {A : Type ℓ} → Option A → Option A → Option A
or_else none b = b
or_else (some a) b = some a

-- The step under the entry's name and order: the last one that has them, as in a `dict`.
unfoldable pub step_of_entry : HistoryEntry → List Step → Option Step
step_of_entry e [] = none
step_of_entry e (s ∷ ss) = or_else (step_of_entry e ss) (if same_key e s then some s else none)

abbrev exception_of_step : ℕ → Option Step → Option StepException
exception_of_step n none = none
exception_of_step n (some s) = exception_of_pass n (reverse s.exceptions)

-- The loop of `_last_failed_exception`, over the reversed history.
unfoldable pub last_failed_from : List Step → List HistoryEntry → Option StepException
unfolding step_of_entry exception_of_pass
last_failed_from steps [] = none
last_failed_from steps (e ∷ es) =
    let rest = last_failed_from steps es in
    if is_step_failed e.event
    then or_else (exception_of_step e.retry_number (step_of_entry e steps)) rest
    else rest

unfoldable pub last_failed_exception : Transaction → Option StepException
unfolding last_failed_from
last_failed_exception tx = last_failed_from tx.steps (reverse tx.history)

abbrev set_last_path : String → List StepException → List StepException
set_last_path path [] = []
set_last_path path (e ∷ []) = record e { screenshot_path = path } ∷ []
set_last_path path (d ∷ e ∷ es) = d ∷ set_last_path path (e ∷ es)

abbrev pub is_empty_path : String → Bool
is_empty_path path = str_eq path ""

abbrev SaveCall : Type 0 → Type 0
SaveCall W = Transaction → W → Result (Unit {0}) × W

-- The body of `_checkpoint`.
unfoldable pub save_with : {W : Type 0} → Option (SaveCall W) → Exec (World W) (Unit {0})
save_with none = pure tt
save_with (some save) = do
  tx ← get_transaction
  lift (validate_json_object tx.state)
  call (save tx)

-- The artifact of `_register_screenshot_artifact`; a fresh mapping holds its metadata, so the
-- identity of that is of no account.
abbrev pub screenshot_artifact : Step → String → String → ℕ → Artifact
screenshot_artifact s path id now = record {
  name = append_text s.name " screenshot";
  path = path;
  kind = "screenshot";
  id = id;
  created_at = now;
  metadata = dict 0 (
      field (text "step_name") (str s.name)
        (field (text "step_execution_order") (int s.execution_order) end));
}

-- `ProcessContext.add_artifact`
abbrev pub add_artifact : Artifact → Transaction → Transaction
add_artifact a tx = record tx { artifacts = tx.artifacts ++ (a ∷ []) }

-- `step.status = Status.FAILED` and `step.exceptions.append(exc)`, with the retry number.
abbrev pub with_failure : StepException → ℕ → Step → Step
with_failure e pass t = record t {
  status = Status.failed;
  exceptions = t.exceptions ++ (record e { retry_number = pass } ∷ []);
}

module _ {W : Type 0} (env : Environment W) where
  -- `_checkpoint`
  unfoldable pub checkpoint : Exec (World W) (Unit {0})
  unfolding save_with
  checkpoint = save_with env.checkpoint

  -- `_register_screenshot_artifact`
  unfoldable pub register_screenshot : Step → String → Exec (World W) (Unit {0})
  register_screenshot s path = if is_empty_path path then pure tt else do
    id ← ask env.new_id
    now ← ask env.now
    modify_transaction (add_artifact (screenshot_artifact s path id now))

  -- The screenshot of a failed step, if the engine takes them.
  unfoldable pub take_screenshot : Engine → Step → Exec (World W) (Unit {0})
  unfolding register_screenshot
  take_screenshot engine s = if not engine.takes_screenshots then pure tt else do
    path ← call env.capture
    modify_transaction
        (change_step s (λ t. record t { exceptions = set_last_path path t.exceptions }))
    register_screenshot s path

  -- What the handlers of `_execute_pass` do with an exception that the step records.
  unfoldable pub record_failure : Engine → Step → StepException → Exec (World W) (Unit {0})
  record_failure engine s e = do
    tx ← get_transaction
    modify_transaction (change_step s (with_failure e tx.retry_count))
    append env HistoryEvent.step_failed (some s) true
    take_screenshot engine s
    checkpoint
