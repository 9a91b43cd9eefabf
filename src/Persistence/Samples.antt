-- ===== src/Persistence/Samples.antt =====
-- A transaction of two steps, an empty database and a fence, for the examples.
use rpacore.Base.{ℕ, String, false, pos, [], ◌∷◌, List, none, some}
use rpacore.Status.{Status, OutcomeCategory, RetryDisposition, HistoryEvent}
use rpacore.Exceptions.{StepException, ExceptionKind}
use rpacore.Json.{dict, field, end, text, int, str}
use rpacore.Transaction.{Step, HistoryEntry, Artifact, Transaction}
use rpacore.Persistence.Rows.{Database}
use rpacore.Persistence.Save.{Fence}

abbrev pub rejected : StepException
rejected = record {
  kind = ExceptionKind.business;
  message = "no total";
  action = "";
  retry_number = 0;
  occurred_at = 6;
  screenshot_path = "";
  halts_flag = false;
  code = "a.b";
}

abbrev pub step_of : ℕ → String → List StepException → Step
step_of n name exceptions = record {
  ident = n;
  name = name;
  execution_order = pos n;
  status = Status.pending;
  arguments = dict 10 end;
  exceptions = exceptions;
}

abbrev pub started : HistoryEntry
started = record {
  sequence = 1;
  timestamp = 5;
  event = HistoryEvent.transaction_started;
  status = Status.in_progress;
  retry_number = 0;
  step_name = "";
  step_execution_order = none;
}

abbrev pub receipt : Artifact
receipt = record {
  name = "receipt";
  path = "r.pdf";
  kind = "pdf";
  id = "r1";
  created_at = 6;
  metadata = dict 4 end;
}

abbrev pub invoice : Transaction
invoice = record {
  reference = "INV-1";
  id = "7";
  status = Status.in_progress;
  retry_count = 0;
  created_at = some 4;
  started_at = some 5;
  finished_at = none;
  state = dict 1 (field (text "total") (int (pos 3)) end);
  metadata = dict 2 (field (text "b") (str "x") (field (text "a") (int (pos 1)) end));
  artifacts = receipt ∷ [];
  steps = step_of 2 "send" [] ∷ step_of 1 "open" (rejected ∷ []) ∷ [];
  history = started ∷ [];
  outcome_category = OutcomeCategory.unknown;
  retry_disposition = RetryDisposition.unknown;
  failure_code = "";
  definition_identity = "v1";
}

abbrev pub empty : Database
empty = record { transactions = []; steps = []; history = []; metadata = []; artifacts = [] }

abbrev pub fence_at : ℕ → String → Fence
fence_at n token = record { expected_revision = n; queue_item_id = "q"; claim_token = token }
