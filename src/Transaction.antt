-- ===== src/Transaction.antt =====
-- step.py and transaction.py: the steps, the transaction, its history and its validation.
-- A step is an object: `ident` is what `id(step)` tells apart.
pub mod Order
pub mod Wiring
mod Tests
use rpacore.Base.{
  ℕ, suc, ◌+◌, ℤ, pos, leb_ℤ, eq_ℤ, String, Bool, true, false, not, List, [], ◌∷◌, ◌++◌, Option,
  none, some, ◌==◌, length, any, filter, find, update_where, str_eq, is_blank, if◌then◌else◌,
}
use rpacore.Status.{Status, OutcomeCategory, RetryDisposition, HistoryEvent, is_failed}
use rpacore.Exceptions.{StepException, Error, execution_validation}
use rpacore.Exec.{Result, ok, err, and_then, require}
use rpacore.Json.{Value, validate_json_object}
use rpacore.FailureCode.{validate_failure_code}
use rpacore.Definition.{validate_definition_identity}

pub record Step : Type 0 where
  pub ident : ℕ
  pub name : String
  pub execution_order : ℤ
  pub status : Status
  pub arguments : Value
  pub exceptions : List StepException

pub record HistoryEntry : Type 0 where
  pub sequence : ℕ
  pub timestamp : ℕ
  pub event : HistoryEvent
  pub status : Status
  pub retry_number : ℕ
  pub step_name : String
  pub step_execution_order : Option ℤ

pub record Artifact : Type 0 where
  pub name : String
  pub path : String
  pub kind : String
  pub id : String
  pub created_at : ℕ
  pub metadata : Value

pub record Transaction : Type 0 where
  pub reference : String
  pub id : String
  pub status : Status
  pub retry_count : ℕ
  pub created_at : Option ℕ
  pub started_at : Option ℕ
  pub finished_at : Option ℕ
  pub state : Value
  pub metadata : Value
  pub artifacts : List Artifact
  pub steps : List Step
  pub history : List HistoryEntry
  pub outcome_category : OutcomeCategory
  pub retry_disposition : RetryDisposition
  pub failure_code : String
  pub definition_identity : String

-- `sorted` keeps the order of steps that compare equal, so a step goes before those.
unfoldable pub insert_step : Step → List Step → List Step
insert_step s [] = s ∷ []
insert_step s (t ∷ ts) =
    let rest = insert_step s ts in
    if leb_ℤ s.execution_order t.execution_order then s ∷ t ∷ ts else t ∷ rest

unfoldable pub sort_steps : List Step → List Step
unfolding insert_step
sort_steps [] = []
sort_steps (s ∷ ss) = insert_step s (sort_steps ss)

unfoldable pub ordered_steps : Transaction → List Step
unfolding sort_steps
ordered_steps tx = sort_steps tx.steps

unfoldable pub failed_steps : Transaction → List Step
failed_steps tx = filter (λ s. is_failed s.status) tx.steps

-- `"" if step is None else step.name`, and the order likewise.
abbrev pub entry_name : Option Step → String
entry_name none = ""
entry_name (some s) = s.name

abbrev pub entry_order : Option Step → Option ℤ
entry_order none = none
entry_order (some s) = some s.execution_order

-- The entry that `append_history` makes, with the transaction's own status and retry number.
unfoldable pub new_entry : HistoryEvent → Option Step → ℕ → Transaction → HistoryEntry
new_entry event step now tx = record {
  sequence = length tx.history + 1;
  timestamp = now;
  event = event;
  status = tx.status;
  retry_number = tx.retry_count;
  step_name = entry_name step;
  step_execution_order = entry_order step;
}

unfoldable pub append_history : HistoryEvent → Option Step → ℕ → Transaction → Transaction
unfolding new_entry
append_history event step now tx = record tx {
  history = tx.history ++ (new_entry event step now tx ∷ []);
}

-- `step.name in names` and `order in orders`
abbrev pub contains_name : String → List String → Bool
contains_name n names = any (λ m. str_eq n m) names

abbrev pub contains_order : ℤ → List ℤ → Bool
contains_order o orders = any (λ p. eq_ℤ o p) orders

-- The loop of `validate_for_execution` over the steps, with the names and orders seen so far.
unfoldable pub validate_steps : List Step → List String → List ℤ → Result (Unit {0})
validate_steps [] names orders = ok tt
validate_steps (s ∷ ss) names orders =
    and_then (require (not (is_blank s.name)) execution_validation) (
      and_then (require (not (contains_name s.name names)) execution_validation) (
        and_then (require (leb_ℤ (pos 1) s.execution_order) execution_validation) (
          and_then (require (not (contains_order s.execution_order orders)) execution_validation)
            (validate_steps ss (s.name ∷ names) (s.execution_order ∷ orders)))))

unfoldable pub validate_artifacts : List Artifact → Result (Unit {0})
validate_artifacts [] = ok tt
validate_artifacts (a ∷ as') = and_then (validate_json_object a.metadata) (validate_artifacts as')

unfoldable pub validate_arguments : List Step → Result (Unit {0})
validate_arguments [] = ok tt
validate_arguments (s ∷ ss) = and_then (validate_json_object s.arguments) (validate_arguments ss)

unfoldable pub validate_durable_data : Transaction → Result (Unit {0})
unfolding validate_artifacts validate_arguments
validate_durable_data tx = and_then (validate_failure_code tx.failure_code) (
    and_then (validate_definition_identity (some tx.definition_identity) false) (
      and_then (validate_json_object tx.state) (
        and_then (validate_json_object tx.metadata)
          (and_then (validate_artifacts tx.artifacts) (validate_arguments tx.steps)))))

unfoldable pub validate_for_execution : Transaction → Result (Unit {0})
unfolding validate_steps validate_durable_data
validate_for_execution tx =
    and_then (require (not (is_blank tx.reference)) execution_validation)
      (and_then (validate_steps tx.steps [] []) (validate_durable_data tx))
