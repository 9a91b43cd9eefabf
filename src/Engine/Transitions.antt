-- ===== src/Engine/Transitions.antt =====
-- _kernel.py and transition.py: the history entry of a transition, and the fact for the sink.
use rpacore.Base.{
  String, Bool, true, false, not, ◌||◌, List, [], ◌∷◌, Option, none, some, any, str_eq,
  if◌then◌else◌,
}
use rpacore.Status.{Status, HistoryEvent, OutcomeCategory}
use rpacore.Exceptions.{value_error}
use rpacore.Exec.{Exec, Result, ok, err, pure, lift, ◌>>=◌, ◌>>◌, and_then, require}
use rpacore.Json.{Key, Value, Fields, text, other_key, dict, end, field, validate_fields}
use rpacore.Transaction.{Step, Transaction, HistoryEntry, new_entry, append_history, contains_name}
use rpacore.Engine.World.{
  ExecutionTransition, Environment, World, get_transaction, modify_transaction, ask, call,
  current_step,
}

abbrev is_empty_text : String → Bool
is_empty_text s = str_eq s ""

abbrev has_duplicates : List String → Bool
has_duplicates [] = false
has_duplicates (n ∷ ns) = if contains_name n ns then true else has_duplicates ns

abbrev is_some {ℓ} : {A : Type ℓ} → Option A → Bool
is_some none = false
is_some (some _) = true

abbrev is_nil {ℓ} : {A : Type ℓ} → List A → Bool
is_nil [] = true
is_nil (_ ∷ _) = false

-- `_TransitionEmitter.__init__`
unfoldable pub check_emitter : {W : Type 0} → Environment W → Result (Unit {0})
check_emitter env = and_then (require (not (any is_empty_text env.state_fields)) value_error) (
    and_then (require (not (has_duplicates env.state_fields)) value_error)
      (require (is_nil env.state_fields || is_some env.sink) value_error))

-- `transaction.state[name]`, if it is there.
abbrev key_is : String → Key → Bool
key_is n (text k) = str_eq n k
key_is n other_key = false

unfoldable pub lookup_field : String → Fields → Option Value
lookup_field n end = none
lookup_field n (field k v rest) = if key_is n k then some v else lookup_field n rest

abbrev add_field : String → Option Value → Fields → Fields
add_field n none rest = rest
add_field n (some v) rest = field (text n) v rest

unfoldable pub pick_fields : List String → Fields → Fields
unfolding lookup_field
pick_fields [] fields = end
pick_fields (n ∷ ns) fields = add_field n (lookup_field n fields) (pick_fields ns fields)

abbrev fields_of : Value → Fields
fields_of (dict _ fields) = fields
fields_of _ = end

-- `retry_recommended`: true after a system failure, false after the other decided outcomes.
abbrev pub recommends : OutcomeCategory → Option Bool
recommends OutcomeCategory.system_failed = some true
recommends OutcomeCategory.successful = some false
recommends OutcomeCategory.business_failed = some false
recommends OutcomeCategory.validation_failed = some false
recommends _ = none

abbrev retry_recommended : HistoryEvent → OutcomeCategory → Option Bool
retry_recommended HistoryEvent.transaction_completed category = recommends category
retry_recommended _ category = none

abbrev status_of : Option Step → Option Status
status_of none = none
status_of (some s) = some s.status

unfoldable pub checkpoint_state : List String → Bool → Value → Fields
unfolding pick_fields
checkpoint_state names include state = if include then pick_fields names (fields_of state) else end

-- `_build_transition`. A fresh mapping cannot stand inside itself, so only its fields are
-- validated.
unfoldable pub build_transition :
    List String → Transaction → HistoryEntry → Option Step → Bool → Result ExecutionTransition
unfolding checkpoint_state
build_transition names tx entry step include =
    let picked = checkpoint_state names include tx.state in
    elim (validate_fields picked []) [
      | err e ↦ err e
      | ok _ ↦ ok (record {
        transition_id = (tx.id, entry.sequence);
        sequence = entry.sequence;
        occurred_at = entry.timestamp;
        event = entry.event;
        transaction_reference = tx.reference;
        definition_identity = tx.definition_identity;
        transaction_status = tx.status;
        execution_pass = entry.retry_number;
        step_name = entry.step_name;
        step_execution_order = entry.step_execution_order;
        step_status = status_of step;
        outcome_category = tx.outcome_category;
        failure_code = tx.failure_code;
        retry_recommended = retry_recommended entry.event tx.outcome_category;
        checkpoint_state = picked;
      })
    ]

abbrev pub live : Option Step → Transaction → Option Step
live none tx = none
live (some s) tx = some (current_step s tx)

abbrev SinkCall : Type 0 → Type 0
SinkCall W = ExecutionTransition → W → Result (Unit {0}) × W

-- The call of the sink, if there is one.
unfoldable pub publish :
    {W : Type 0}
    → Option (SinkCall W)
    → List String
    → Option Step
    → Bool
    → HistoryEntry
    → Exec (World W) (Unit {0})
publish none names step include entry = pure tt
publish (some sink) names step include entry = do
  tx ← get_transaction
  fact ← lift (build_transition names tx entry (live step tx) include)
  call (sink fact)

module _ {W : Type 0} (env : Environment W) where
  -- `_TransitionEmitter.append`
  unfoldable pub append : HistoryEvent → Option Step → Bool → Exec (World W) (Unit {0})
  unfolding publish
  append event step include = do
    now ← ask env.now
    tx ← get_transaction
    let entry = new_entry event (live step tx) now tx
    modify_transaction (append_history event (live step tx) now)
    publish env.sink env.state_fields step include entry
