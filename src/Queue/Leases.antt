-- ===== src/Queue/Leases.antt =====
-- Fencing: a worker whose token has left its item can do nothing to the queue any more, whatever the
-- others do.
use rpacore.Base.{
  ℕ, ◌+◌, ◌≡◌, refl, sym, ap, ◌∙◌, subst, inl, inr, String, Bool, true, false, ◌&&◌, List, [], ◌∷◌,
  ◌++◌, Option, none, some, arith, leb, Bool-cases, str_eq, find, if◌then◌else◌,
}
use rpacore.Exceptions.{sqlite_error}
use rpacore.Exec.{Result, ok, err, pure, modify, ◌>>=◌}
use rpacore.Queue.Rows.{
  QueueAttemptOutcome, QueueItem, Store, PoisonError, is_in_progress, is_empty, has_id, matches,
  close_attempt, open_attempt, update_item,
}
use rpacore.Queue.Retry.{QueuePolicy}
use rpacore.Queue.Claims.{update_owned, released, retry_status, due_if, close_claim}
use rpacore.Queue.Delivery.{
  insert_item, check_payload, is_some, reclaim_row, reclaim_rows, quarantine, poisoned, claim,
  claimed, still_eligible,
}
use rpacore.Queue.Consistency.{update_owned-cases}
use rpacore.Queue.DeliveryConsistency.{IsNew}
use rpacore.Queue.Fencing.{Lacks, Lacks-set_row, Lacks-clear, Lacks-append}

module _ (i token : String) (set : is_empty token ≡ false) where
  abbrev pub Gone : Store → Type 0
  Gone db = Lacks i token db.items

  pub close_claim-Gone :
      (j t : String) (outcome : QueueAttemptOutcome) (now : ℕ) (db : Store)
      → Gone db
      → Gone (close_claim j t outcome now db)
  unfolding close_attempt
  close_claim-Gone j t outcome now db gone = ground (arith, gone)

  pub update_owned-Gone :
      (j worker t : String) (f : QueueItem → QueueItem) (db : Store)
      → ((r : QueueItem) → (f r).id ≡ r.id)
      → ((r : QueueItem) → (f r).claim_token ≡ r.claim_token)
      → Gone db
      → Gone (update_owned j worker t f db).1
  update_owned-Gone j worker t f db keeps same gone = elim (update_owned-cases j worker t f db) [
    | inl (r, _, _, e) ↦
        subst (λ (p : Result (Unit {0}) × Store). Gone p.1) (sym e)
          (Lacks-set_row i token j f db.items keeps
            (λ r h. ap (λ (s : String). str_eq s token) (same r) ∙ h) gone)
    | inr (_, e) ↦ subst (λ (p : Result (Unit {0}) × Store). Gone p.1) (sym e) gone
  ]

  -- A release of any item.
  pub release-Gone :
      {A : Type 0} (j worker t : String) (f : QueueItem → QueueItem) (outcome : QueueAttemptOutcome)
      (now : ℕ) (a : A) (db : Store)
      → ((r : QueueItem) → (f r).id ≡ r.id)
      → ((r : QueueItem) → (f r).claim_token ≡ "")
      → Gone db
      → Gone
          ((update_owned j worker t f >>= λ _.
              modify (close_attempt j t outcome now) >>= λ _. pure a)
            db).1
  unfolding close_attempt
  release-Gone {A = A} j worker t f outcome now a db keeps cleared gone =
      elim (update_owned-cases j worker t f db) [
        | inl (r, _, _, e) ↦
            subst Ends (sym e) (Lacks-clear i token j f db.items set keeps cleared gone)
        | inr (_, e) ↦ subst Ends (sym e) gone
      ]
    where
      Ends : Result (Unit {0}) × Store → Type 0
      Ends p =
          Gone
            (((λ (u : Store). p) >>= λ _. modify (close_attempt j t outcome now) >>= λ _. pure a)
              db).1

  pub update_item-Gone :
      (j : String) (f : QueueItem → QueueItem) (db : Store)
      → ((r : QueueItem) → (f r).id ≡ r.id)
      → ((r : QueueItem) → (f r).claim_token ≡ "")
      → Gone db
      → Gone (update_item j f db)
  update_item-Gone j f db keeps cleared gone =
      Lacks-clear i token j f db.items set keeps cleared gone

  pub insert_item-Gone :
      (item : QueueItem) (db : Store) → IsNew item → Gone db → Gone (insert_item item db).1
  unfolding insert_item
  insert_item-Gone item db new gone =
      go (check_payload item.payload) (is_some (find (has_id item.id) db.items))
    where
      ending : Result (Unit {0}) → Bool → Result (Unit {0}) × Store
      ending r taken = elim r [
        | err e ↦ (err e, db)
        | ok _ ↦
            if taken
            then (err sqlite_error, db)
            else (ok tt, record db { items = db.items ++ (item ∷ []) })
      ]

      go : (r : Result (Unit {0})) (taken : Bool) → Gone (ending r taken).1
      go (err e) taken = gone
      go (ok a) true = gone
      go (ok a) false = Lacks-append i token db.items item set new.no_token gone

  reclaim_row-Gone :
      (policy : QueuePolicy) (now : ℕ) (stale : QueueItem) (db : Store)
      → Gone db
      → Gone (reclaim_row policy now stale db)
  unfolding reclaim_row
  reclaim_row-Gone policy now stale db gone = go (matches stale.id guard db.items)
    where
      guard : QueueItem → Bool
      guard r = is_in_progress r.status && str_eq r.claim_token stale.claim_token

      again : Bool
      again = leb (stale.retry_count + 1) policy.max_retries

      change : QueueItem → QueueItem
      change =
          released (retry_status again) (stale.retry_count + 1)
            (if again then "" else stale.claimed_by)
            (due_if again now (stale.retry_count + 1) policy)

      go :
          (b : Bool)
          → Gone (
              if b
              then close_claim stale.id stale.claim_token QueueAttemptOutcome.lease_expired now
                  (update_item stale.id change db)
              else db)
      go true =
          close_claim-Gone stale.id stale.claim_token QueueAttemptOutcome.lease_expired now
            (update_item stale.id change db)
            (update_item-Gone stale.id change db (λ r. refl) (λ r. refl) gone)
      go false = gone

  pub reclaim_rows-Gone :
      (policy : QueuePolicy) (now : ℕ) (rows : List QueueItem) (db : Store)
      → Gone db
      → Gone (reclaim_rows policy now rows db)
  unfolding reclaim_rows
  reclaim_rows-Gone policy now [] db gone = gone
  reclaim_rows-Gone policy now (r ∷ rs) db gone =
      reclaim_rows-Gone policy now rs (reclaim_row policy now r db)
        (reclaim_row-Gone policy now r db gone)

  pub quarantine-Gone :
      (now : ℕ) (seen : QueueItem) (error : PoisonError) (db : Store)
      → Gone db
      → Gone (quarantine now seen error db)
  unfolding quarantine
  quarantine-Gone now seen error db gone =
      elim (Bool-cases (matches seen.id (still_eligible seen now) db.items)) [
        | inl e ↦ rw e (update_item-Gone seen.id poisoned db (λ r. refl) (λ r. refl) gone)
        | inr e ↦ rw e gone
      ]

  pub claim-Gone :
      (now : ℕ) (worker t : String) (seen : QueueItem) (db : Store)
      → str_eq t token ≡ false
      → Gone db
      → Gone (claim now worker t seen db).1
  unfolding claim open_attempt
  claim-Gone now worker t seen db other gone = go (find (has_id seen.id) db.items)
    where
      took : Gone (update_item seen.id (claimed worker t now) db)
      took =
          Lacks-set_row i token seen.id (claimed worker t now) db.items (λ r. refl) (λ r _. other)
            gone

      ending : Option QueueItem → Option QueueItem × Store
      ending o = elim o [
        | none ↦ (none, db)
        | some r ↦
            if still_eligible seen now r
            then (
              some (claimed worker t now r),
              open_attempt seen.id t worker now (update_item seen.id (claimed worker t now) db),
            )
            else (none, db)
      ]

      go : (o : Option QueueItem) → Gone (ending o).1
      go none = gone
      go (some r) = elim (Bool-cases (still_eligible seen now r)) [
        | inl h ↦ rw h took
        | inr h ↦ rw h gone
      ]
