-- ===== src/Transaction/Tests.antt =====
-- Examples: a transaction whose steps are not listed in their order.
use mathlib.Core.List.{Perm}
use rpacore.Base.{ℕ, pos, ◌≡◌, ◌↔◌, String, false, [], ◌∷◌, none, is_blank, All}
use rpacore.Status.{Status, OutcomeCategory, RetryDisposition}
use rpacore.Exec.{ok}
use rpacore.Json.{dict, end}
use rpacore.Transaction.{
  Step, Transaction, ordered_steps, validate_for_execution, validate_durable_data,
}
use rpacore.Transaction.Order.{IsOrdered, ordered_steps_lem}
use rpacore.Transaction.Wiring.{IsUsable, AreDistinct, validate_for_execution_iff}

abbrev step_of : ℕ → String → Step
step_of n name = record {
  ident = n;
  name = name;
  execution_order = pos n;
  status = Status.pending;
  arguments = dict 10 end;
  exceptions = [];
}

abbrev invoice : Transaction
invoice = record {
  reference = "INV-1";
  id = "7";
  status = Status.pending;
  retry_count = 0;
  created_at = none;
  started_at = none;
  finished_at = none;
  state = dict 1 end;
  metadata = dict 2 end;
  artifacts = [];
  steps = step_of 2 "send" ∷ step_of 1 "open" ∷ [];
  history = [];
  outcome_category = OutcomeCategory.unknown;
  retry_disposition = RetryDisposition.unknown;
  failure_code = "";
  definition_identity = "";
}

ordered_steps_lem_example :
    IsOrdered (ordered_steps invoice) × Perm (ordered_steps invoice) invoice.steps
ordered_steps_lem_example = ordered_steps_lem invoice

validate_for_execution_iff_example : (validate_for_execution invoice ≡ ok tt) ↔ (
    (is_blank invoice.reference ≡ false)
    × All IsUsable invoice.steps
    × AreDistinct invoice.steps
    × (validate_durable_data invoice ≡ ok tt))
validate_for_execution_iff_example = validate_for_execution_iff invoice
