-- ===== src/Queue/Audit.antt =====
-- The audit of attempts along every interleaving of the queue's transactions.
use rpacore.Base.{
  ℕ, ◌+◌, sym, subst, inl, inr, String, Bool, true, false, ◌&&◌, List, [], ◌∷◌, ◌++◌, Option, none,
  some, leb, Bool-cases, str_eq, filter, find, is_blank, codes, if◌then◌else◌,
}
use rpacore.Definition.{strip}
use rpacore.Exceptions.{value_error, key_error, sqlite_error}
use rpacore.Exec.{Result, ok, err, pure, modify, ◌>>=◌}
use rpacore.Queue.Rows.{
  QueueStatus, QueueAttemptOutcome, QueueItem, QueueAttempt, Store, PoisonError, is_in_progress,
  is_empty, has_id, matches, close_attempt, open_attempt, update_item,
}
use rpacore.Queue.Retry.{QueuePolicy}
use rpacore.Queue.Claims.{
  update_owned, bind_transaction, renew_lease, completed, complete, released, retry_status,
  retry_outcome, due_if, close_claim, fail, retry_count_of, force_row, force_transition,
  force_complete, force_fail,
}
use rpacore.Queue.Delivery.{
  insert_item, check_payload, is_some, add, is_stale, reclaim_row, reclaim_rows, reclaim,
  quarantine, claim, claimed, still_eligible,
}
use rpacore.Queue.Consistency.{update_owned-cases}
use rpacore.Queue.Steps.{
  Writes, Reaches, adds, reclaims, claims, quarantines, binds, renews, completes, fails,
  forces_complete, forces_fail, here, after,
}
use rpacore.Queue.Attempts.{Grows, Grows-same, Grows-append, Grows-close}

-- The attempts of a store are earlier ones grown on.
module _ (as' : List QueueAttempt) where
  abbrev Later : Store → Type 0
  Later db = Grows as' db.attempts

  close_attempt-Later :
      (i t : String) (outcome : QueueAttemptOutcome) (now : ℕ) (db : Store)
      → Later db
      → Later (close_attempt i t outcome now db)
  unfolding close_attempt
  close_attempt-Later i t outcome now db h = Grows-close i t outcome now as' db.attempts h

  close_claim-Later :
      (i t : String) (outcome : QueueAttemptOutcome) (now : ℕ) (db : Store)
      → Later db
      → Later (close_claim i t outcome now db)
  close_claim-Later i t outcome now db h = elim (Bool-cases (is_empty t)) [
    | inl e ↦ rw e h
    | inr e ↦ rw e (close_attempt-Later i t outcome now db h)
  ]

  update_owned-Later :
      (i worker t : String) (f : QueueItem → QueueItem) (db : Store)
      → Later db
      → Later (update_owned i worker t f db).1
  update_owned-Later i worker t f db h = elim (update_owned-cases i worker t f db) [
    | inl (r, _, _, e) ↦ subst (λ (p : Result (Unit {0}) × Store). Later p.1) (sym e) h
    | inr (_, e) ↦ subst (λ (p : Result (Unit {0}) × Store). Later p.1) (sym e) h
  ]

  release-Later :
      {A : Type 0} (i worker t : String) (f : QueueItem → QueueItem) (outcome : QueueAttemptOutcome)
      (now : ℕ) (a : A) (db : Store)
      → Later db
      → Later
          ((update_owned i worker t f >>= λ _.
              modify (close_attempt i t outcome now) >>= λ _. pure a)
            db).1
  release-Later {A = A} i worker t f outcome now a db h =
      elim (update_owned-cases i worker t f db) [
        | inl (r, _, _, e) ↦
            subst Ends (sym e) (close_attempt-Later i t outcome now (update_item i f db) h)
        | inr (_, e) ↦ subst Ends (sym e) h
      ]
    where
      Ends : Result (Unit {0}) × Store → Type 0
      Ends p =
          Later
            (((λ (u : Store). p) >>= λ _. modify (close_attempt i t outcome now) >>= λ _. pure a)
              db).1

  insert_item-Later : (item : QueueItem) (db : Store) → Later db → Later (insert_item item db).1
  unfolding insert_item
  insert_item-Later item db h =
      go (check_payload item.payload) (is_some (find (has_id item.id) db.items))
    where
      ending : Result (Unit {0}) → Bool → Result (Unit {0}) × Store
      ending r taken = elim r [
        | err e ↦ (err e, db)
        | ok _ ↦
            if taken
            then (err sqlite_error, db)
            else (ok tt, record db { items = db.items ++ (item ∷ []) })
      ]

      go : (r : Result (Unit {0})) (taken : Bool) → Later (ending r taken).1
      go (err e) taken = h
      go (ok a) true = h
      go (ok a) false = h

  reclaim_row-Later :
      (policy : QueuePolicy) (now : ℕ) (stale : QueueItem) (db : Store)
      → Later db
      → Later (reclaim_row policy now stale db)
  unfolding reclaim_row
  reclaim_row-Later policy now stale db h =
      elim (Bool-cases (
        matches stale.id (λ r. is_in_progress r.status && str_eq r.claim_token stale.claim_token)
          db.items)) [
            | inl e ↦ rw e (
                close_claim-Later stale.id stale.claim_token QueueAttemptOutcome.lease_expired now _
                  h)
            | inr e ↦ rw e h
          ]

  reclaim_rows-Later :
      (policy : QueuePolicy) (now : ℕ) (rows : List QueueItem) (db : Store)
      → Later db
      → Later (reclaim_rows policy now rows db)
  unfolding reclaim_rows
  reclaim_rows-Later policy now [] db h = h
  reclaim_rows-Later policy now (r ∷ rs) db h =
      reclaim_rows-Later policy now rs (reclaim_row policy now r db)
        (reclaim_row-Later policy now r db h)

  quarantine-Later :
      (now : ℕ) (seen : QueueItem) (error : PoisonError) (db : Store)
      → Later db
      → Later (quarantine now seen error db)
  unfolding quarantine
  quarantine-Later now seen error db h =
      elim (Bool-cases (matches seen.id (still_eligible seen now) db.items)) [
        | inl e ↦ rw e h
        | inr e ↦ rw e h
      ]

  claim-Later :
      (now : ℕ) (worker t : String) (seen : QueueItem) (db : Store)
      → Later db
      → Later (claim now worker t seen db).1
  unfolding claim open_attempt
  claim-Later now worker t seen db h = go (find (has_id seen.id) db.items)
    where
      ending : Option QueueItem → Option QueueItem × Store
      ending o = elim o [
        | none ↦ (none, db)
        | some r ↦
            if still_eligible seen now r
            then (
              some (claimed worker t now r),
              open_attempt seen.id t worker now (update_item seen.id (claimed worker t now) db),
            )
            else (none, db)
      ]

      go : (o : Option QueueItem) → Later (ending o).1
      go none = h
      go (some r) = elim (Bool-cases (still_eligible seen now r)) [
        | inl e ↦ rw e (Grows-append as' db.attempts _ h)
        | inr e ↦ rw e h
      ]

  force_transition-Later :
      (policy : QueuePolicy) (now : ℕ) (i : String) (requested : QueueStatus) (reason : String)
      (retry : Bool) (db : Store)
      → Later db
      → Later (force_transition policy now i requested reason retry db).1
  unfolding force_transition force_row
  force_transition-Later policy now i requested reason retry db h =
      go (is_blank reason) (find (has_id i) db.items)
    where
      ending : Bool → Option QueueItem → Result (Unit {0}) × Store
      ending blank o = if blank then (err value_error, db) else elim o [
        | none ↦ (err key_error, db)
        | some r ↦ (ok tt, force_row policy now requested (strip (codes reason)) retry r db)
      ]

      go : (blank : Bool) (o : Option QueueItem) → Later (ending blank o).1
      go true o = h
      go false none = h
      go false (some r) =
          close_claim-Later r.id r.claim_token QueueAttemptOutcome.admin_override now _ h

module _ (policy : QueuePolicy) (Draws : String → Type 0) (as' : List QueueAttempt) where
  step-Later : {a b : Store} → Writes policy Draws a b → Grows as' a.attempts → Grows as' b.attempts
  unfolding add reclaim complete fail bind_transaction renew_lease force_complete force_fail
  step-Later (adds {db = db} item new) h = insert_item-Later as' item db h
  step-Later (reclaims {db = db} now) h =
      reclaim_rows-Later as' policy now (filter (is_stale policy.lease_timeout now) db.items) db h
  step-Later (claims {db = db} now worker t seen d) h = claim-Later as' now worker t seen db h
  step-Later (quarantines {db = db} now seen error) h = quarantine-Later as' now seen error db h
  step-Later (binds {db = db} j transaction_id worker t) h =
      update_owned-Later as' j worker t _ db h
  step-Later (renews {db = db} now j worker t) h = update_owned-Later as' j worker t _ db h
  step-Later (completes {db = db} now j worker t) h =
      release-Later as' j worker t completed QueueAttemptOutcome.successful now tt db h
  step-Later (fails {db = db} now j retry worker t) h =
      let count = retry_count_of j db + 1 in
      let again = retry && leb count policy.max_retries in
      release-Later as' j worker t
        (released (retry_status again) count (if again then "" else worker)
          (due_if again now count policy))
        (retry_outcome again) now (retry_outcome again) db h
  step-Later (forces_complete {db = db} now j reason) h =
      force_transition-Later as' policy now j QueueStatus.successful reason false db h
  step-Later (forces_fail {db = db} now j reason retry) h =
      force_transition-Later as' policy now j QueueStatus.failed reason retry db h

  run-Later : {a b : Store} → Reaches policy Draws a b → Grows as' a.attempts → Grows as' b.attempts
  run-Later here h = h
  run-Later (after s ss) h = run-Later ss (step-Later s h)

-- Whatever the workers, producers and administrators do, in any order: every attempt stays in its
-- place with its item, its token, its worker and its starting time, and an attempt that is closed
-- keeps its outcome and its finishing time for good. New attempts stand behind the old ones.
pub run-Grows :
    (policy : QueuePolicy) (Draws : String → Type 0) {a b : Store}
    → Reaches policy Draws a b
    → Grows a.attempts b.attempts
run-Grows policy Draws {a} run = run-Later policy Draws a.attempts run (Grows-same a.attempts)
