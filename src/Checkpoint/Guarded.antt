-- ===== src/Checkpoint/Guarded.antt =====
-- A checkpoint goes through only for the holder of the claim, and at the current revision.
use rpacore.Base.{
  ℕ, ℤ, ◌≡◌, refl, sym, ap, ◌∙◌, subst, String, Bool, true, false, List, Option, none, some, arith,
  str_eq, find, if◌then◌else◌,
}
use rpacore.Exceptions.{Error}
use rpacore.Exec.{Result, ok, err}
use rpacore.Transaction.{Transaction}
use rpacore.Queue.Rows.{QueueItem, Store, is_empty, has_id, passes, matches, update_item}
use rpacore.Queue.Retry.{QueuePolicy}
use rpacore.Queue.Steps.{Reaches}
use rpacore.Queue.Fencing.{Lacks}
use rpacore.Queue.Fenced.{Others, run-Gone}
use rpacore.Persistence.Rows.{Database, Serialized, serialized_transaction, is_header}
use rpacore.Persistence.Save.{atomic, write_transaction_rows, save_rows}
use rpacore.Persistence.Refined.{IsSaved, IsSavedOr, save_rows-IsSavedOr}
use rpacore.Checkpoint.{
  Stores, Claim, claimed_for, is_negative, is_zero, check_arguments, is_stored, bound, bind_item,
  fence_of, checkpoint_rows, rollback, checked_then, save_queue_transaction_fenced,
}

-- What a checkpoint that returned has found, and what it has written.
pub record IsGuarded (tx : Transaction) (c : Claim) (expected_revision : ℤ) (initial : Bool)
    (st out : Stores) (n : ℕ) : Type 0 where
  pub claimed : matches c.queue_item_id (claimed_for c tx.id) st.queue.items ≡ true
  pub not_negative : is_negative expected_revision ≡ false
  pub unused :
      initial ≡ true
      → (is_zero expected_revision ≡ true)
        × (is_stored (find (is_header tx.id) st.database.transactions) ≡ false)
  pub saved : IsSaved tx (some (fence_of c expected_revision)) st.database out.database n
  pub queue :
      out.queue ≡ (if initial then update_item c.queue_item_id (bound tx.id) st.queue else st.queue)

abbrev pub IsGuardedOr : Transaction → Claim → ℤ → Bool → Stores → Result ℕ × Stores → Type 0
IsGuardedOr tx c expected_revision initial st (ok n, out) =
    IsGuarded tx c expected_revision initial st out n
IsGuardedOr tx c expected_revision initial st (err e, out) = out ≡ st

module _ (tx : Transaction) (c : Claim) (expected_revision : ℤ) (initial : Bool) (st : Stores) where
  -- The parts of a checkpoint that returned.
  record IsRun (s : Serialized) (out : Stores) (n : ℕ) : Type 0 where
    claimed : matches c.queue_item_id (claimed_for c tx.id) st.queue.items ≡ true
    unused : initial ≡ true → is_stored (find (is_header tx.id) st.database.transactions) ≡ false
    written :
        write_transaction_rows tx s (some (fence_of c expected_revision)) st.database
        ≡ (ok n, out.database)
    queue :
        out.queue
        ≡ (if initial then update_item c.queue_item_id (bound tx.id) st.queue else st.queue)

  checkpoint_rows-IsRun :
      (s : Serialized) {n : ℕ}
      → (checkpoint_rows tx c expected_revision initial s st).0 ≡ ok n
      → IsRun s (checkpoint_rows tx c expected_revision initial s st).1 n
  unfolding checkpoint_rows bind_item
  checkpoint_rows-IsRun s h = record {
    claimed = ground arith;
    unused = λ i. ground (arith, h, i);
    written = ground (arith, h);
    queue = ground (arith, h);
  }

  saved_as :
      (s : Serialized) (out : Database) {n : ℕ}
      → serialized_transaction tx ≡ ok s
      → write_transaction_rows tx s (some (fence_of c expected_revision)) st.database ≡ (ok n, out)
      → save_rows tx (some (fence_of c expected_revision)) st.database ≡ (ok n, out)
  unfolding save_rows
  saved_as s out {n} e w = ap choose e ∙ ap kept w
    where
      kept : Result ℕ × Database → Result ℕ × Database
      kept p = atomic (λ (d : Database). p) st.database

      choose : Result Serialized → Result ℕ × Database
      choose r = elim r [
        | ok t ↦
            atomic (write_transaction_rows tx t (some (fence_of c expected_revision))) st.database
        | err x ↦ (err x, st.database)
      ]

  record ArePassed : Type 0 where
    not_negative : is_negative expected_revision ≡ false
    first : initial ≡ true → is_zero expected_revision ≡ true

  check_arguments-ArePassed : check_arguments tx c expected_revision initial ≡ ok tt → ArePassed
  unfolding check_arguments
  check_arguments-ArePassed h = record {
    not_negative = ground (arith, h);
    first = λ i. ground (arith, h, i);
  }

  -- A checkpoint that returns was made by the holder of the claim, of an item that is unbound or
  -- bound to this transaction; where it was the first one the transaction was not stored. It writes
  -- the snapshot at the expected revision, as a fenced save does, and binds the item where it is the
  -- first. A checkpoint that raises leaves the queue and the transactions as they were.
  pub save_queue_transaction_fenced-IsGuardedOr :
      IsGuardedOr tx c expected_revision initial st
        (save_queue_transaction_fenced tx c expected_revision initial st)
  unfolding save_queue_transaction_fenced
  save_queue_transaction_fenced-IsGuardedOr =
      go (check_arguments tx c expected_revision initial) (serialized_transaction tx)
        (λ e. check_arguments-ArePassed e) (λ s e. e)
    where
      finish :
          (s : Serialized) (r : Result ℕ × Stores)
          → ArePassed
          → serialized_transaction tx ≡ ok s
          → ((n : ℕ) → r.0 ≡ ok n → IsRun s r.1 n)
          → IsGuardedOr tx c expected_revision initial st (rollback (λ (t : Stores). r) st)
      finish s (ok n, out) p e run =
          let w = run n refl in
          record {
            claimed = w.claimed;
            not_negative = p.not_negative;
            unused = λ i. (p.first i, w.unused i);
            saved =
                subst (IsSavedOr tx (some (fence_of c expected_revision)) st.database)
                  (saved_as s out.database e w.written)
                  (save_rows-IsSavedOr tx (some (fence_of c expected_revision)) st.database);
            queue = w.queue;
          }
      finish s (err x, out) p e run = refl

      go :
          (checks : Result (Unit {0})) (r : Result Serialized)
          → (checks ≡ ok tt → ArePassed)
          → ((s : Serialized) → r ≡ ok s → serialized_transaction tx ≡ ok s)
          → IsGuardedOr tx c expected_revision initial st (
              checked_then checks
                (λ _.
                  checked_then r (λ s. rollback (checkpoint_rows tx c expected_revision initial s)))
                st)
      go (ok tt) (ok s) passed is =
          finish s (checkpoint_rows tx c expected_revision initial s st) (passed refl) (is s refl)
            (λ n e. checkpoint_rows-IsRun s e)
      go (ok tt) (err x) passed is = refl
      go (err x) r passed is = refl

-- An item without the token is not claimed with it.
Lacks-unclaimed :
    (c : Claim) (transaction_id : String) (items : List QueueItem)
    → Lacks c.queue_item_id c.claim_token items
    → matches c.queue_item_id (claimed_for c transaction_id) items ≡ false
unfolding Lacks matches
Lacks-unclaimed c transaction_id items h = go (find (has_id c.queue_item_id) items) h
  where
    go :
        (o : Option QueueItem)
        → passes (λ r. str_eq r.claim_token c.claim_token) o ≡ false
        → passes (claimed_for c transaction_id) o ≡ false
    go none e = refl
    go (some r) e = ground (arith, e)

-- A worker whose claim token no longer stands in its item saves no checkpoint, whatever it saves
-- and whatever the others have done to the queue since: the checkpoint raises, and neither the queue
-- nor the transactions change. The token is not empty, and nobody draws it again.
pub run-Refused :
    (policy : QueuePolicy) (tx : Transaction) (c : Claim) (expected_revision : ℤ) (initial : Bool)
    (st : Stores) {a : Store}
    → is_empty c.claim_token ≡ false
    → Lacks c.queue_item_id c.claim_token a.items
    → Reaches policy (Others c.claim_token) a st.queue
    → (e : Error) × (save_queue_transaction_fenced tx c expected_revision initial st ≡ (err e, st))
run-Refused policy tx c expected_revision initial st set lacks run =
    go (save_queue_transaction_fenced tx c expected_revision initial st)
      (save_queue_transaction_fenced-IsGuardedOr tx c expected_revision initial st)
  where
    unclaimed : matches c.queue_item_id (claimed_for c tx.id) st.queue.items ≡ false
    unclaimed =
        Lacks-unclaimed c tx.id st.queue.items
          (run-Gone policy c.queue_item_id c.claim_token set run lacks)

    pair : Error → Stores → Result ℕ × Stores
    pair e t = (err e, t)

    go :
        (r : Result ℕ × Stores)
        → IsGuardedOr tx c expected_revision initial st r
        → (e : Error) × (r ≡ (err e, st))
    go (err e, out) h = (e, ap (pair e) h)
    go (ok n, out) h = absurd (clash (sym unclaimed ∙ h.claimed))
      where
        clash : false ≡ true → ⊥
        clash e = cc
