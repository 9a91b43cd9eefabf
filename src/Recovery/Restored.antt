-- ===== src/Recovery/Restored.antt =====
-- What a resumed transaction is made of.
use rpacore.Base.{◌≡◌, Bool, true, false, List, [], ◌∷◌}
use rpacore.Status.{Status, is_failed}
use rpacore.Exceptions.{is_business, last_is}
use rpacore.Exec.{ok}
use rpacore.Transaction.{Step, Transaction, ordered_steps, validate_for_execution}
use rpacore.Engine.Failures.{just_resumed}
use rpacore.Recovery.{is_in_progress, is_successful}

-- A provided step in the place of a stored one.
pub record Matched (retry : Bool) (loaded r : Step) : Type 0 where
  pub name : r.name ≡ loaded.name
  pub execution_order : r.execution_order ≡ loaded.execution_order
  pub arguments : r.arguments ≡ loaded.arguments
  pub exceptions : r.exceptions ≡ loaded.exceptions
  pub done : is_successful loaded.status ≡ true → is_successful r.status ≡ true
  pub idle : is_in_progress r.status ≡ false
  pub refused :
      retry ≡ false
      → is_failed loaded.status ≡ true
      → last_is is_business loaded.exceptions ≡ true
      → is_failed r.status ≡ true

abbrev pub AllMatched : Bool → List Step → List Step → Type 0
AllMatched retry [] [] = Unit
AllMatched retry (l ∷ ls) (r ∷ rs) = Matched retry l r × AllMatched retry ls rs
AllMatched retry _ _ = ⊥

-- A resumed transaction: pending, with no retries yet, with the caller's steps in the places of the
-- stored ones, and with the resumption as its last history entry.
pub record IsResumed (retry : Bool) (tx tx' : Transaction) : Type 0 where
  pub valid : validate_for_execution tx ≡ ok tt
  pub matched : AllMatched retry (ordered_steps tx) tx'.steps
  pub status : tx'.status ≡ Status.pending
  pub retry_count : tx'.retry_count ≡ 0
  pub marked : just_resumed tx' ≡ true
