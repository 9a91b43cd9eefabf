-- ===== src/Queue/Consistency.antt =====
-- Every write transaction of the queue keeps items and attempts in agreement.
use rpacore.Base.{
  ℕ, ◌+◌, ◌≡◌, refl, sym, subst, ◌⊎◌, inl, inr, String, Bool, true, false, ◌&&◌, List, Option, none,
  some, arith, leb, Bool-cases, str_eq_iff, filter, find, find_sound, is_blank, codes,
  if◌then◌else◌,
}
use rpacore.Exceptions.{queue_lease_lost, value_error, key_error}
use rpacore.Definition.{strip}
use rpacore.Exec.{Result, ok, err, pure, modify, ◌>>=◌}
use rpacore.Queue.Rows.{
  QueueStatus, QueueAttemptOutcome, QueueItem, QueueAttempt, Store, is_in_progress, is_pending,
  is_failed, is_empty, has_id, matches, owned_by, passes, close_attempt, update_item,
}
use rpacore.Queue.Retry.{QueuePolicy}
use rpacore.Queue.Claims.{
  update_owned, bind_transaction, renew_lease, completed, complete, released, retry_status,
  retry_outcome, due_if, close_claim, fail, retry_count_of, force_row, force_transition,
}
use rpacore.Queue.Agreement.{
  open_of, AgreeItem, IsConsistent, agree-at, change-Consistent, release-Consistent,
}

-- What a guard that holds says of the row.
pub matches_sound :
    (i : String) (p : QueueItem → Bool) (items : List QueueItem)
    → matches i p items ≡ true
    → (r : QueueItem) × (find (has_id i) items ≡ some r) × (p r ≡ true)
unfolding matches
matches_sound i p items h = go (find (has_id i) items) refl h
  where
    go :
        (o : Option QueueItem)
        → find (has_id i) items ≡ o
        → passes p o ≡ true
        → (r : QueueItem) × (find (has_id i) items ≡ some r) × (p r ≡ true)
    go none e h = cc
    go (some r) e h = (r, e, h)

-- A change of an item that leaves its status and its token.
touch-Consistent :
    (i : String) (f : QueueItem → QueueItem) (db : Store) {r : QueueItem}
    → ((r : QueueItem) → (f r).id ≡ r.id)
    → ((as' : List QueueAttempt) → AgreeItem r as' → AgreeItem (f r) as')
    → find (has_id i) db.items ≡ some r
    → IsConsistent db
    → IsConsistent (update_item i f db)
touch-Consistent i f db keeps same e con =
    change-Consistent i f db.items db.attempts db.attempts keeps e
      (same (filter (open_of i) db.attempts) (agree-at i db.items db.attempts con e)) (λ j h. refl)
      con

update_owned-touch :
    (i worker token : String) (f : QueueItem → QueueItem) (db : Store)
    → ((r : QueueItem) → (f r).id ≡ r.id)
    → ((r : QueueItem) (as' : List QueueAttempt) → AgreeItem r as' → AgreeItem (f r) as')
    → IsConsistent db
    → IsConsistent (update_owned i worker token f db).1
unfolding update_owned
update_owned-touch i worker token f db keeps same con =
    elim (Bool-cases (matches i (owned_by worker token) db.items)) [
      | inl e ↦
          let (r, found, _) = matches_sound i (owned_by worker token) db.items e in
          rw e (touch-Consistent i f db keeps (same r) found con)
      | inr e ↦ rw e con
    ]

pub bind_transaction-Consistent :
    (i transaction_id worker token : String) (db : Store)
    → IsConsistent db
    → IsConsistent (bind_transaction i transaction_id worker token db).1
unfolding bind_transaction
bind_transaction-Consistent i transaction_id worker token db con =
    update_owned-touch i worker token (λ r. record r { transaction_id = transaction_id }) db
      (λ r. refl) (λ r as' h. h) con

pub renew_lease-Consistent :
    (now : ℕ) (i worker token : String) (db : Store)
    → IsConsistent db
    → IsConsistent (renew_lease now i worker token db).1
unfolding renew_lease
renew_lease-Consistent now i worker token db con =
    update_owned-touch i worker token (λ r. record r { claimed_at = some now }) db (λ r. refl)
      (λ r as' h. h) con

-- An owned item has the token that it is owned by.
pub owned-token :
    (worker token : String) (r : QueueItem)
    → owned_by worker token r ≡ true
    → (r.claim_token ≡ token) × (is_empty token ≡ false)
owned-token worker token r h =
    let same : r.claim_token ≡ token = (str_eq_iff r.claim_token token).0 (ground (arith, h)) in
    let set : is_empty r.claim_token ≡ false = ground (arith, h) in
    (same, subst (λ t. is_empty t ≡ false) same set)

-- The two ends of the guarded update, and what follows it.
pub update_owned-cases :
    (i worker token : String) (f : QueueItem → QueueItem) (db : Store)
    → ((r : QueueItem) × (find (has_id i) db.items ≡ some r)
        × (owned_by worker token r ≡ true)
        × (update_owned i worker token f db ≡ (ok tt, update_item i f db)))
      ⊎ ((matches i (owned_by worker token) db.items ≡ false)
          × (update_owned i worker token f db ≡ (err queue_lease_lost, db)))
unfolding update_owned
update_owned-cases i worker token f db =
    elim (Bool-cases (matches i (owned_by worker token) db.items)) [
      | inl e ↦
          let (r, found, owned) = matches_sound i (owned_by worker token) db.items e in
          inl (r, found, owned, rw e refl)
      | inr e ↦ inr (e, rw e refl)
    ]

-- The release of an owned item and the closing of its attempt.
owned-release :
    {A : Type 0} (i worker token : String) (f : QueueItem → QueueItem)
    (outcome : QueueAttemptOutcome) (now : ℕ) (a : A) (db : Store)
    → ((r : QueueItem) → (f r).id ≡ r.id)
    → ((r : QueueItem) → is_in_progress (f r).status ≡ false)
    → ((r : QueueItem) → (f r).claim_token ≡ "")
    → IsConsistent db
    → IsConsistent
        ((update_owned i worker token f >>= λ _.
            modify (close_attempt i token outcome now) >>= λ _. pure a)
          db).1
owned-release {A = A} i worker token f outcome now a db keeps idle empty con =
    elim (update_owned-cases i worker token f db) [
      | inl (r, found, owned, e) ↦
          let (same, set) = owned-token worker token r owned in
          let closed : IsConsistent (close_claim i token outcome now (update_item i f db)) =
            subst (λ t. IsConsistent (close_claim i t outcome now (update_item i f db))) same
              (release-Consistent f db outcome now i keeps (idle r) (empty r) found con) in
          subst Ends (sym e) (
            subst
              (λ b. IsConsistent (
                if b
                then update_item i f db
                else close_attempt i token outcome now (update_item i f db)))
              set closed)
      | inr (_, e) ↦ subst Ends (sym e) con
    ]
  where
    Ends : Result (Unit {0}) × Store → Type 0
    Ends p =
        IsConsistent
          (((λ (u : Store). p) >>= λ _. modify (close_attempt i token outcome now) >>= λ _. pure a)
            db).1

pub complete-Consistent :
    (now : ℕ) (i worker token : String) (db : Store)
    → IsConsistent db
    → IsConsistent (complete now i worker token db).1
unfolding complete
complete-Consistent now i worker token db con =
    owned-release i worker token completed QueueAttemptOutcome.successful now tt db (λ r. refl)
      (λ r. refl) (λ r. refl) con

pub released-idle : (again : Bool) → is_in_progress (retry_status again) ≡ false
released-idle true = refl
released-idle false = refl

pub fail-Consistent :
    (policy : QueuePolicy) (now : ℕ) (i : String) (retry : Bool) (worker token : String)
    (db : Store)
    → IsConsistent db
    → IsConsistent (fail policy now i retry worker token db).1
unfolding fail
fail-Consistent policy now i retry worker token db con =
    let count = retry_count_of i db + 1 in
    let again = retry && leb count policy.max_retries in
    owned-release i worker token
      (released (retry_status again) count (if again then "" else worker)
        (due_if again now count policy))
      (retry_outcome again) now (retry_outcome again) db (λ r. refl) (λ r. released-idle again)
      (λ r. refl) con

-- A found row is found under its own id.
pub found_self :
    (i : String) (items : List QueueItem) {r : QueueItem}
    → find (has_id i) items ≡ some r
    → find (has_id r.id) items ≡ some r
found_self i items {r} e =
    let same : i ≡ r.id = sym ((str_eq_iff r.id i).0 (find_sound (has_id i) items e)) in
    subst (λ j. find (has_id j) items ≡ some r) same e

-- `_force_transition` for a row of the queue.
force_row-Consistent :
    (policy : QueuePolicy) (now : ℕ) (requested : QueueStatus) (reason : List ℕ) (retry : Bool)
    (i : String) (r : QueueItem) (db : Store)
    → find (has_id i) db.items ≡ some r
    → is_in_progress requested ≡ false
    → IsConsistent db
    → IsConsistent (force_row policy now requested reason retry r db)
unfolding force_row
force_row-Consistent policy now requested reason retry i r db found idle con =
    let fails = is_failed requested in
    let count = if fails then r.retry_count + 1 else r.retry_count in
    let again = fails && retry && leb count policy.max_retries in
    let status = if again then QueueStatus.pending else requested in
    let due = due_if (is_pending status) now count policy in
    release-Consistent (released status count "" due) db QueueAttemptOutcome.admin_override now r.id
      (λ r. refl) (chosen again) refl (found_self i db.items found) con
  where
    chosen : (b : Bool) → is_in_progress (if b then QueueStatus.pending else requested) ≡ false
    chosen true = refl
    chosen false = idle

pub force_transition-Consistent :
    (policy : QueuePolicy) (now : ℕ) (i : String) (requested : QueueStatus) (reason : String)
    (retry : Bool) (db : Store)
    → is_in_progress requested ≡ false
    → IsConsistent db
    → IsConsistent (force_transition policy now i requested reason retry db).1
unfolding force_transition
force_transition-Consistent policy now i requested reason retry db idle con =
    go (is_blank reason) (find (has_id i) db.items) refl
  where
    ending : Bool → Option QueueItem → Result (Unit {0}) × Store
    ending blank o = if blank then (err value_error, db) else elim o [
      | none ↦ (err key_error, db)
      | some r ↦ (ok tt, force_row policy now requested (strip (codes reason)) retry r db)
    ]

    go :
        (blank : Bool) (o : Option QueueItem)
        → find (has_id i) db.items ≡ o
        → IsConsistent (ending blank o).1
    go true o e = con
    go false none e = con
    go false (some r) e =
        force_row-Consistent policy now requested (strip (codes reason)) retry i r db e idle con
