-- ===== src/Recovery.antt =====
-- recovery.py: how a stored transaction gets its executable steps again.
-- The steps that the caller hands over are objects of their own; what an error leaves written in
-- them is not modelled.
pub mod Restored
mod Tests
use rpacore.Base.{
  ℕ, String, Bool, true, false, not, ◌&&◌, ◌||◌, List, [], ◌∷◌, Option, none, some, ◌==◌, ℤ, leb_ℤ,
  eq_ℤ, any, find, str_eq, if◌then◌else◌,
}
use rpacore.Status.{Status, HistoryEvent, is_failed, is_skipped}
use rpacore.Exceptions.{
  StepException, is_business, halts_remaining_steps, last_is, definition_identity, value_error,
  key_error,
}
use rpacore.Exec.{Result, ok, err, and_then, require}
use rpacore.Definition.{validate_definition_identity}
use rpacore.Transaction.{
  Step, HistoryEntry, Transaction, ordered_steps, append_history, validate_for_execution,
}
use rpacore.Engine.Failures.{just_resumed}

abbrev pub is_in_progress : Status → Bool
is_in_progress Status.in_progress = true
is_in_progress _ = false

abbrev is_step_skipped : HistoryEvent → Bool
is_step_skipped HistoryEvent.step_skipped = true
is_step_skipped _ = false

-- The keys `(name, execution_order)` are the same.
abbrev pub same_step : Step → Step → Bool
same_step s t = str_eq t.name s.name && eq_ℤ t.execution_order s.execution_order

abbrev or_empty : Option String → String
or_empty none = ""
or_empty (some s) = s

-- The checks of the definition identity.
unfoldable pub check_identity : Option String → Transaction → Result (Unit {0})
unfolding validate_definition_identity
check_identity identity tx = and_then (validate_definition_identity identity true) (
    and_then (require (not (str_eq tx.definition_identity "")) definition_identity)
      (require (str_eq tx.definition_identity (or_empty identity)) definition_identity))

-- `_is_interrupted`
unfoldable pub is_interrupted : Transaction → Bool
is_interrupted tx = is_in_progress tx.status || any (λ s. is_in_progress s.status) tx.steps

-- `_resumed_step_status`
unfoldable pub resumed_step_status : Status → List StepException → Bool → Bool → Status
resumed_step_status Status.successful exceptions preserve retry = Status.successful
resumed_step_status Status.skipped exceptions preserve retry =
    if preserve then Status.skipped else Status.pending
resumed_step_status Status.failed exceptions preserve retry =
    if last_is is_business exceptions && not retry then Status.failed else Status.pending
resumed_step_status Status.pending exceptions preserve retry = Status.pending
resumed_step_status Status.in_progress exceptions preserve retry = Status.pending

-- A step whose business failure, in the pass of the entry, halted the steps behind it.
abbrev is_halting : ℕ → StepException → Bool
is_halting pass e = is_business e && halts_remaining_steps e && e.retry_number == pass

abbrev halts_entry : HistoryEntry → ℤ → Step → Bool
halts_entry e order s =
    is_failed s.status
    && last_is (is_halting e.retry_number) s.exceptions
    && not (leb_ℤ order s.execution_order)

abbrev skips_step : Transaction → Step → HistoryEntry → Bool
skips_step tx s e = elim e.step_execution_order [
  | none ↦ false
  | some order ↦
      is_step_skipped e.event
      && str_eq e.step_name s.name
      && eq_ℤ order s.execution_order
      && any (halts_entry e order) tx.steps
]

-- The step's key is in `_halt_propagated_skipped_step_keys`.
unfoldable pub is_halt_propagated : Transaction → Step → Bool
is_halt_propagated tx s = any (skips_step tx s) tx.history

-- The step's key is in `preserved_skips`.
unfoldable pub is_preserved : Bool → Transaction → Step → Bool
unfolding is_interrupted just_resumed is_halt_propagated
is_preserved retry tx s =
    let halted = is_halt_propagated tx s in
    let kept =
      if is_interrupted tx || just_resumed tx
      then any (λ t. same_step s t && is_skipped t.status) tx.steps
      else halted in
    if retry then kept && not halted else kept

abbrev pub has_duplicates : List Step → Bool
has_duplicates [] = false
has_duplicates (s ∷ ss) = if any (same_step s) ss then true else has_duplicates ss

-- `provided.pop(key)`, for a key that is there once.
abbrev pub remove : Step → List Step → List Step
remove s [] = []
remove s (t ∷ ts) = let rest = remove s ts in if same_step s t then ts else t ∷ rest

-- What the caller's step takes over from the stored one.
abbrev pub restored : Bool → Transaction → Step → Step → Step
restored retry tx loaded concrete = record concrete {
  arguments = loaded.arguments;
  exceptions = loaded.exceptions;
  status = resumed_step_status loaded.status loaded.exceptions (is_preserved retry tx loaded) retry;
}

abbrev pub add_restored : Step → Result (List Step) → Result (List Step)
add_restored s (ok ss) = ok (s ∷ ss)
add_restored s (err e) = err e

-- The loop over the stored steps, with the provided steps that are left; none may be left over.
unfoldable pub restore : Bool → Transaction → List Step → List Step → Result (List Step)
unfolding resumed_step_status is_preserved
restore retry tx [] [] = ok []
restore retry tx [] (_ ∷ _) = err key_error
restore retry tx (s ∷ ss) provided =
    let rest = restore retry tx ss (remove s provided) in
    elim (find (same_step s) provided) [
      | none ↦ err key_error
      | some concrete ↦ add_restored (restored retry tx s concrete) rest
    ]

abbrev pub resumed : ℕ → List Step → Transaction → Transaction
resumed now steps tx =
    let tx' = record tx {
      steps = steps;
      status = Status.pending;
      retry_count = 0;
      started_at = none;
      finished_at = none;
    } in
    if just_resumed tx then tx' else append_history HistoryEvent.transaction_resumed none now tx'

abbrev pub is_successful : Status → Bool
is_successful Status.successful = true
is_successful _ = false

abbrev pub finish_resume : ℕ → Transaction → Result (List Step) → Result Transaction
finish_resume now tx (ok ss) = ok (resumed now ss tx)
finish_resume now tx (err e) = err e

abbrev pub checked : Result (Unit {0}) → Result Transaction → Result Transaction
checked (ok _) next = next
checked (err e) next = err e

-- `_prepare_resumed_transaction`
unfoldable pub prepare_resumed :
    ℕ → Bool → Option String → List Step → Transaction → Result Transaction
unfolding check_identity restore ordered_steps validate_for_execution
prepare_resumed now retry identity steps tx =
    if is_successful tx.status
    then ok tx
    else checked
        (and_then (check_identity identity tx)
          (and_then (validate_for_execution tx) (require (not (has_duplicates steps)) value_error)))
        (finish_resume now tx (restore retry tx (ordered_steps tx) steps))
