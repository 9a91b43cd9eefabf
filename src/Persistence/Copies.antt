-- ===== src/Persistence/Copies.antt =====
-- What a load gives back of a saved transaction: the same data in new objects, with the steps in
-- their order and the keys of the metadata sorted.
use rpacore.Base.{ℕ, ◌+◌, List, [], ◌∷◌, map}
use rpacore.Exceptions.{StepException, halts_remaining_steps}
use rpacore.Json.Text.{fresh_value, sort_keys}
use rpacore.Transaction.{Step, Artifact, Transaction, ordered_steps}

-- The flag of a `SystemException`, which it does not have, reads as true.
abbrev pub copied_exception : StepException → StepException
copied_exception e = record e { halts_flag = halts_remaining_steps e }

unfoldable pub copied_steps : ℕ → List Step → List Step
unfolding fresh_value
copied_steps ident [] = []
copied_steps ident (s ∷ ss) =
    record s {
      ident = ident;
      arguments = fresh_value 0 s.arguments;
      exceptions = map copied_exception s.exceptions;
    }
    ∷ copied_steps (ident + 1) ss

unfoldable pub copied_artifact : Artifact → Artifact
unfolding fresh_value sort_keys
copied_artifact a = record a { metadata = fresh_value 0 (sort_keys a.metadata) }

unfoldable pub copied : ℕ → Transaction → Transaction
unfolding copied_steps copied_artifact ordered_steps
copied ident tx = record tx {
  state = fresh_value 0 tx.state;
  metadata = fresh_value 0 (sort_keys tx.metadata);
  artifacts = map copied_artifact tx.artifacts;
  steps = copied_steps ident (ordered_steps tx);
}
