-- ===== src/Queue/Fenced.antt =====
-- Fencing along every interleaving of the queue's transactions.
use rpacore.Base.{
  ℕ, ◌+◌, ◌≡◌, refl, sym, ap, ◌∙◌, subst, inl, inr, String, Bool, true, false, ◌&&◌, List, Option,
  none, some, leb, str_eq, filter, find, is_blank, codes, if◌then◌else◌,
}
use rpacore.Definition.{strip}
use rpacore.Exceptions.{queue_lease_lost, value_error, key_error}
use rpacore.Exec.{Exec, Result, ok, err, pure, modify, ◌>>=◌}
use rpacore.Queue.Rows.{
  QueueStatus, QueueAttemptOutcome, QueueItem, Store, is_pending, is_failed, is_empty, has_id,
  close_attempt, update_item,
}
use rpacore.Queue.Retry.{QueuePolicy}
use rpacore.Queue.Claims.{
  update_owned, bind_transaction, renew_lease, completed, complete, released, retry_status,
  retry_outcome, due_if, fail, retry_count_of, force_row, force_transition, force_complete,
  force_fail,
}
use rpacore.Queue.Delivery.{add, is_stale, reclaim}
use rpacore.Queue.Consistency.{update_owned-cases}
use rpacore.Queue.Steps.{
  Writes, Reaches, adds, reclaims, claims, quarantines, binds, renews, completes, fails,
  forces_complete, forces_fail, here, after,
}
use rpacore.Queue.Leases.{
  Gone, close_claim-Gone, update_owned-Gone, release-Gone, update_item-Gone, insert_item-Gone,
  reclaim_rows-Gone, quarantine-Gone, claim-Gone,
}
use rpacore.Queue.Fencing.{Lacks, Lacks-cleared, Lacks-owned}

-- The tokens that others draw: not empty, and not the given one.
pub record Others (token t : String) : Type 0 where
  pub set : is_empty t ≡ false
  pub other : str_eq t token ≡ false

module _ (policy : QueuePolicy) (i token : String) (set : is_empty token ≡ false) where
  force_row-Gone :
      (now : ℕ) (requested : QueueStatus) (reason : List ℕ) (retry : Bool) (r : QueueItem)
      (db : Store)
      → Gone i token set db
      → Gone i token set (force_row policy now requested reason retry r db)
  unfolding force_row
  force_row-Gone now requested reason retry r db gone =
      let fails = is_failed requested in
      let count = if fails then r.retry_count + 1 else r.retry_count in
      let status =
        if fails && retry && leb count policy.max_retries then QueueStatus.pending else requested in
      let change = released status count "" (due_if (is_pending status) now count policy) in
      close_claim-Gone i token set r.id r.claim_token QueueAttemptOutcome.admin_override now
        (update_item r.id change db)
        (update_item-Gone i token set r.id change db (λ r. refl) (λ r. refl) gone)

  force_transition-Gone :
      (now : ℕ) (j : String) (requested : QueueStatus) (reason : String) (retry : Bool) (db : Store)
      → Gone i token set db
      → Gone i token set (force_transition policy now j requested reason retry db).1
  unfolding force_transition
  force_transition-Gone now j requested reason retry db gone =
      go (is_blank reason) (find (has_id j) db.items)
    where
      ending : Bool → Option QueueItem → Result (Unit {0}) × Store
      ending blank o = if blank then (err value_error, db) else elim o [
        | none ↦ (err key_error, db)
        | some r ↦ (ok tt, force_row policy now requested (strip (codes reason)) retry r db)
      ]

      go : (blank : Bool) (o : Option QueueItem) → Gone i token set (ending blank o).1
      go true o = gone
      go false none = gone
      go false (some r) = force_row-Gone now requested (strip (codes reason)) retry r db gone

  step-Gone :
      {a b : Store} → Writes policy (Others token) a b → Gone i token set a → Gone i token set b
  unfolding add reclaim complete fail bind_transaction renew_lease force_complete force_fail
  step-Gone (adds {db = db} item new) gone = insert_item-Gone i token set item db new gone
  step-Gone (reclaims {db = db} now) gone =
      reclaim_rows-Gone i token set policy now (filter (is_stale policy.lease_timeout now) db.items)
        db gone
  step-Gone (claims {db = db} now worker t seen d) gone =
      claim-Gone i token set now worker t seen db d.other gone
  step-Gone (quarantines {db = db} now seen error) gone =
      quarantine-Gone i token set now seen error db gone
  step-Gone (binds {db = db} j transaction_id worker t) gone =
      update_owned-Gone i token set j worker t (λ r. record r { transaction_id = transaction_id })
        db (λ r. refl) (λ r. refl) gone
  step-Gone (renews {db = db} now j worker t) gone =
      update_owned-Gone i token set j worker t (λ r. record r { claimed_at = some now }) db
        (λ r. refl) (λ r. refl) gone
  step-Gone (completes {db = db} now j worker t) gone =
      release-Gone i token set j worker t completed QueueAttemptOutcome.successful now tt db
        (λ r. refl) (λ r. refl) gone
  step-Gone (fails {db = db} now j retry worker t) gone =
      let count = retry_count_of j db + 1 in
      let again = retry && leb count policy.max_retries in
      release-Gone i token set j worker t
        (released (retry_status again) count (if again then "" else worker)
          (due_if again now count policy))
        (retry_outcome again) now (retry_outcome again) db (λ r. refl) (λ r. refl) gone
  step-Gone (forces_complete {db = db} now j reason) gone =
      force_transition-Gone now j QueueStatus.successful reason false db gone
  step-Gone (forces_fail {db = db} now j reason retry) gone =
      force_transition-Gone now j QueueStatus.failed reason retry db gone

  pub run-Gone :
      {a b : Store} → Reaches policy (Others token) a b → Gone i token set a → Gone i token set b
  run-Gone here gone = gone
  run-Gone (after s ss) gone = run-Gone ss (step-Gone s gone)

  -- What a worker without a valid token gets from each of its operations.
  pub record IsFenced (worker : String) (db : Store) : Type 0 where
    pub completing : (now : ℕ) → complete now i worker token db ≡ (err queue_lease_lost, db)
    pub failing :
        (now : ℕ) (retry : Bool)
        → fail policy now i retry worker token db ≡ (err queue_lease_lost, db)
    pub renewing : (now : ℕ) → renew_lease now i worker token db ≡ (err queue_lease_lost, db)
    pub binding :
        (transaction_id : String)
        → bind_transaction i transaction_id worker token db ≡ (err queue_lease_lost, db)

  refused :
      (worker : String) (f : QueueItem → QueueItem) (db : Store)
      → Gone i token set db
      → update_owned i worker token f db ≡ (err queue_lease_lost, db)
  unfolding update_owned
  refused worker f db gone = rw (Lacks-owned i token worker db.items gone) refl

  refused_then :
      {A : Type 0} (worker : String) (f : QueueItem → QueueItem) (k : Unit {0} → Exec Store A)
      (db : Store)
      → Gone i token set db
      → (update_owned i worker token f >>= k) db ≡ (err queue_lease_lost, db)
  refused_then worker f k db gone =
      ap (λ (p : Result (Unit {0}) × Store). ((λ (u : Store). p) >>= k) db)
        (refused worker f db gone)

  Gone-IsFenced : (worker : String) (db : Store) → Gone i token set db → IsFenced worker db
  unfolding complete fail renew_lease bind_transaction
  Gone-IsFenced worker db gone = record {
    completing = λ now.
        refused_then worker completed
          (λ _. modify (close_attempt i token QueueAttemptOutcome.successful now)) db gone;
    failing = λ now retry.
        let count = retry_count_of i db + 1 in
        let again = retry && leb count policy.max_retries in
        refused_then worker
          (released (retry_status again) count (if again then "" else worker)
            (due_if again now count policy))
          (λ _. modify (close_attempt i token (retry_outcome again) now) >>= λ _.
            pure (retry_outcome again))
          db gone;
    renewing = λ now. refused worker (λ r. record r { claimed_at = some now }) db gone;
    binding = λ transaction_id.
        refused worker (λ r. record r { transaction_id = transaction_id }) db gone;
  }

  -- A token that does not stand in the item gives no worker any access to it, now or after whatever
  -- the others do: to complete, to fail, to renew and to bind all raise `QueueLeaseLostError` and
  -- leave the queue as it is. The token is not empty, and nobody draws it again.
  pub run-IsFenced :
      {a b : Store} (worker : String)
      → Lacks i token a.items
      → Reaches policy (Others token) a b
      → IsFenced worker b
  run-IsFenced {b = b} worker lacks run = Gone-IsFenced worker b (run-Gone run lacks)

  cleared-Gone :
      {A : Type 0} (worker : String) (f : QueueItem → QueueItem) (k : Unit {0} → Exec Store A)
      (db : Store)
      → ((r : QueueItem) → (f r).id ≡ r.id)
      → ((r : QueueItem) → (f r).claim_token ≡ "")
      → ((v : Store) → (k tt v).1.items ≡ v.items)
      → {a : A} → ((update_owned i worker token f >>= k) db).0 ≡ ok a
      → Gone i token set ((update_owned i worker token f >>= k) db).1
  cleared-Gone {A = A} worker f k db keeps cleared same {a} h =
      elim (update_owned-cases i worker token f db) [
        | inl (r, found, _, e) ↦ subst Ends (sym e) (
            subst (Lacks i token) (sym (same (update_item i f db)))
              (Lacks-cleared i token f db.items set keeps cleared found))
        | inr (_, e) ↦ absurd (contradiction (sym (ap (λ p. (after p).0) e) ∙ h))
      ]
    where
      after : Result (Unit {0}) × Store → Result A × Store
      after p = ((λ (u : Store). p) >>= k) db

      Ends : Result (Unit {0}) × Store → Type 0
      Ends p = Gone i token set (after p).1

      contradiction : err queue_lease_lost ≡ ok a → ⊥
      contradiction e = cc

  -- A completion that returned takes the token out of its item.
  pub complete-Gone :
      (now : ℕ) (worker : String) (db : Store)
      → (complete now i worker token db).0 ≡ ok tt
      → Gone i token set (complete now i worker token db).1
  unfolding complete close_attempt
  complete-Gone now worker db done =
      cleared-Gone worker completed
        (λ _. modify (close_attempt i token QueueAttemptOutcome.successful now)) db (λ r. refl)
        (λ r. refl) (λ v. refl) done

  -- So does a failure that returned.
  pub fail-Gone :
      (now : ℕ) (retry : Bool) (worker : String) (db : Store) {outcome : QueueAttemptOutcome}
      → (fail policy now i retry worker token db).0 ≡ ok outcome
      → Gone i token set (fail policy now i retry worker token db).1
  unfolding fail close_attempt
  fail-Gone now retry worker db done =
      let count = retry_count_of i db + 1 in
      let again = retry && leb count policy.max_retries in
      cleared-Gone worker
        (released (retry_status again) count (if again then "" else worker)
          (due_if again now count policy))
        (λ _. modify (close_attempt i token (retry_outcome again) now) >>= λ _.
          pure (retry_outcome again))
        db (λ r. refl) (λ r. refl) (λ v. refl) done

  -- A worker completes an item at most once, and has no access to it after that, whatever happens
  -- next: the completion that returned takes the token away for good.
  pub complete-IsFenced :
      (now : ℕ) (worker : String) (db : Store) {b : Store} (later : String)
      → (complete now i worker token db).0 ≡ ok tt
      → Reaches policy (Others token) (complete now i worker token db).1 b
      → IsFenced later b
  complete-IsFenced now worker db {b} later done run =
      run-IsFenced later (complete-Gone now worker db done) run

  -- A failure that returned takes the token away too, whether a retry is scheduled or not.
  pub fail-IsFenced :
      (now : ℕ) (retry : Bool) (worker : String) (db : Store) {b : Store} (later : String)
      {outcome : QueueAttemptOutcome}
      → (fail policy now i retry worker token db).0 ≡ ok outcome
      → Reaches policy (Others token) (fail policy now i retry worker token db).1 b
      → IsFenced later b
  fail-IsFenced now retry worker db {b} later done run =
      run-IsFenced later (fail-Gone now retry worker db done) run
