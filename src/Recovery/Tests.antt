-- ===== src/Recovery/Tests.antt =====
-- Examples: a stored transaction with a successful step and one that was in progress.
use rpacore.Base.{ℕ, ℤ, pos, String, Bool, List, [], ◌∷◌, Option, none, some}
use rpacore.Status.{Status, OutcomeCategory, RetryDisposition}
use rpacore.Json.{dict, end}
use rpacore.Transaction.{Step, Transaction}

abbrev step_of : ℕ → ℤ → String → Status → Step
step_of n order name status = record {
  ident = n;
  name = name;
  execution_order = order;
  status = status;
  arguments = dict 10 end;
  exceptions = [];
}

abbrev stored : Transaction
stored = record {
  reference = "INV-1";
  id = "7";
  status = Status.in_progress;
  retry_count = 1;
  created_at = none;
  started_at = some 1;
  finished_at = none;
  state = dict 1 end;
  metadata = dict 2 end;
  artifacts = [];
  steps =
      step_of 1 (pos 1) "open" Status.successful ∷ step_of 2 (pos 2) "send" Status.in_progress ∷ [];
  history = [];
  outcome_category = OutcomeCategory.unknown;
  retry_disposition = RetryDisposition.unknown;
  failure_code = "";
  definition_identity = "v1";
}

-- The caller's steps, in another order.
abbrev provided : List Step
provided = step_of 4 (pos 2) "send" Status.pending ∷ step_of 3 (pos 1) "open" Status.pending ∷ []

abbrev expected : List Step
expected = step_of 3 (pos 1) "open" Status.successful ∷ step_of 4 (pos 2) "send" Status.pending ∷ []
