-- ===== src/Queue/DeliveryConsistency.antt =====
-- The transactions that bring items in and deliver them keep items and attempts in agreement.
use mathlib.Core.List.{append-nil}
use rpacore.Base.{
  ℕ, ◌+◌, ◌≡◌, refl, sym, ap, ◌∙◌, subst, inl, inr, String, Bool, true, false, ◌&&◌, List, [], ◌∷◌,
  ◌++◌, Option, none, some, arith, leb, Bool-cases, str_eq, str_eq_iff, filter, find, if◌then◌else◌,
}
use rpacore.Exceptions.{sqlite_error}
use rpacore.Exec.{Result, ok, err}
use rpacore.Queue.Rows.{
  QueueStatus, QueueAttemptOutcome, QueueItem, QueueAttempt, Store, PoisonError, is_in_progress,
  is_pending, is_empty, has_id, matches, open_attempt, update_item,
}
use rpacore.Queue.Retry.{QueuePolicy}
use rpacore.Queue.Claims.{released, retry_status, due_if, close_claim}
use rpacore.Queue.Delivery.{
  insert_item, check_payload, is_some, is_stale, reclaim_row, reclaim_rows, reclaim, quarantine,
  poisoned, claim, claimed, still_eligible,
}
use rpacore.Queue.Agreement.{
  open_of, Agree, Consistent, IsConsistent, agree-at, change-Consistent, AgreeItem-IsFree,
  free-AgreeItem, release-Consistent,
}
use rpacore.Queue.Consistency.{matches_sound, released-idle}

reclaim_row-Consistent :
    (policy : QueuePolicy) (now : ℕ) (stale : QueueItem) (db : Store)
    → IsConsistent db
    → IsConsistent (reclaim_row policy now stale db)
unfolding reclaim_row
reclaim_row-Consistent policy now stale db con =
    elim (Bool-cases (matches stale.id guard db.items)) [
      | inl e ↦
          let (r, found, held) = matches_sound stale.id guard db.items e in
          let same : r.claim_token ≡ stale.claim_token =
            (str_eq_iff r.claim_token stale.claim_token).0 (ground (arith, held)) in
          rw e (
            subst
              (λ t. IsConsistent (
                close_claim stale.id t QueueAttemptOutcome.lease_expired now
                  (update_item stale.id change db)))
              same
              (release-Consistent change db QueueAttemptOutcome.lease_expired now stale.id
                (λ r. refl) (released-idle again) refl found con))
      | inr e ↦ rw e con
    ]
  where
    guard : QueueItem → Bool
    guard r = is_in_progress r.status && str_eq r.claim_token stale.claim_token

    again : Bool
    again = leb (stale.retry_count + 1) policy.max_retries

    change : QueueItem → QueueItem
    change =
        released (retry_status again) (stale.retry_count + 1)
          (if again then "" else stale.claimed_by) (due_if again now (stale.retry_count + 1) policy)

reclaim_rows-Consistent :
    (policy : QueuePolicy) (now : ℕ) (rows : List QueueItem) (db : Store)
    → IsConsistent db
    → IsConsistent (reclaim_rows policy now rows db)
unfolding reclaim_rows
reclaim_rows-Consistent policy now [] db con = con
reclaim_rows-Consistent policy now (r ∷ rs) db con =
    reclaim_rows-Consistent policy now rs (reclaim_row policy now r db)
      (reclaim_row-Consistent policy now r db con)

pub reclaim-Consistent :
    (policy : QueuePolicy) (now : ℕ) (db : Store)
    → IsConsistent db
    → IsConsistent (reclaim policy now db)
unfolding reclaim
reclaim-Consistent policy now db con =
    reclaim_rows-Consistent policy now (filter (is_stale policy.lease_timeout now) db.items) db con

pending-idle : (s : QueueStatus) → is_pending s ≡ true → is_in_progress s ≡ false
pending-idle QueueStatus.pending h = refl
pending-idle QueueStatus.in_progress h = cc
pending-idle QueueStatus.successful h = cc
pending-idle QueueStatus.failed h = cc

eligible-idle :
    (seen : QueueItem) (now : ℕ) (r : QueueItem)
    → still_eligible seen now r ≡ true
    → is_in_progress r.status ≡ false
eligible-idle seen now r h = pending-idle r.status (ground (arith, h))

pub quarantine-Consistent :
    (now : ℕ) (seen : QueueItem) (error : PoisonError) (db : Store)
    → IsConsistent db
    → IsConsistent (quarantine now seen error db)
unfolding quarantine
quarantine-Consistent now seen error db con =
    elim (Bool-cases (matches seen.id (still_eligible seen now) db.items)) [
      | inl e ↦
          let (r, found, held) = matches_sound seen.id (still_eligible seen now) db.items e in
          let open_ones = filter (open_of seen.id) db.attempts in
          let free =
            AgreeItem-IsFree r open_ones (eligible-idle seen now r held)
              (agree-at seen.id db.items db.attempts con found) in
          rw e (
            change-Consistent seen.id poisoned db.items db.attempts db.attempts (λ r. refl) found
              (free-AgreeItem (poisoned r) open_ones refl refl free.none_open) (λ j h. refl) con)
      | inr e ↦ rw e con
    ]

filter-append :
    {A : Type 0} (p : A → Bool) (xs ys : List A) → filter p (xs ++ ys) ≡ filter p xs ++ filter p ys
filter-append p [] ys = refl
filter-append p (x ∷ xs) ys = ground (arith, filter-append p xs ys)

dropped : (j : String) (a : QueueAttempt) → open_of j a ≡ false → filter (open_of j) (a ∷ []) ≡ []
dropped j a h = rw h refl

-- The claim of an item under a token that is not empty.
claim-row :
    (now : ℕ) (worker token : String) (i : String) (db : Store) {r : QueueItem}
    → is_empty token ≡ false
    → find (has_id i) db.items ≡ some r
    → is_in_progress r.status ≡ false
    → IsConsistent db
    → IsConsistent (open_attempt i token worker now (update_item i (claimed worker token now) db))
unfolding open_attempt
claim-row now worker token i db {r} set found idle con =
    let a : QueueAttempt = record {
      item_id = i;
      claim_token = token;
      claimed_by = worker;
      started_at = now;
      finished_at = none;
      outcome = none;
    } in
    let open_ones = filter (open_of i) db.attempts in
    let free = AgreeItem-IsFree r open_ones idle (agree-at i db.items db.attempts con found) in
    let own : open_of i a ≡ true = rw ((str_eq_iff i i).1 refl) refl in
    let only : filter (open_of i) (db.attempts ++ (a ∷ [])) ≡ a ∷ [] =
      filter-append (open_of i) db.attempts (a ∷ [])
      ∙ ap (λ os. os ++ filter (open_of i) (a ∷ [])) free.none_open
      ∙ rw own refl in
    change-Consistent i (claimed worker token now) db.items db.attempts (db.attempts ++ (a ∷ []))
      (λ r. refl) found (record { attempt = a; only = only; token_same = refl; token_set = set })
      (λ j h.
        let miss : open_of j a ≡ false = rw h refl in
        filter-append (open_of j) db.attempts (a ∷ [])
        ∙ ap (λ os. filter (open_of j) db.attempts ++ os) (dropped j a miss)
        ∙ append-nil (filter (open_of j) db.attempts))
      con

pub claim-Consistent :
    (now : ℕ) (worker token : String) (seen : QueueItem) (db : Store)
    → is_empty token ≡ false
    → IsConsistent db
    → IsConsistent (claim now worker token seen db).1
unfolding claim
claim-Consistent now worker token seen db set con = go (find (has_id seen.id) db.items) refl
  where
    success : QueueItem → Option QueueItem × Store
    success r = (
      some (claimed worker token now r),
      open_attempt seen.id token worker now (update_item seen.id (claimed worker token now) db),
    )

    ending : Option QueueItem → Option QueueItem × Store
    ending o = elim o [
      | none ↦ (none, db)
      | some r ↦ if still_eligible seen now r then success r else (none, db)
    ]

    go : (o : Option QueueItem) → find (has_id seen.id) db.items ≡ o → IsConsistent (ending o).1
    go none e = con
    go (some r) e = elim (Bool-cases (still_eligible seen now r)) [
      | inl h ↦ rw h (claim-row now worker token seen.id db set e (eligible-idle seen now r h) con)
      | inr h ↦ rw h con
    ]

-- An item as a producer makes it: not in progress, and without a token.
pub record IsNew (item : QueueItem) : Type 0 where
  pub idle : is_in_progress item.status ≡ false
  pub no_token : item.claim_token ≡ ""

find-append :
    (j : String) (items : List QueueItem) (item : QueueItem)
    → has_id j item ≡ false
    → find (has_id j) (items ++ (item ∷ [])) ≡ find (has_id j) items
find-append j [] item h = rw h refl
find-append j (x ∷ xs) item h = ground (arith, find-append j xs item h)

find-append_self :
    (items : List QueueItem) (item : QueueItem)
    → find (has_id item.id) items ≡ none
    → find (has_id item.id) (items ++ (item ∷ [])) ≡ some item
find-append_self [] item h = rw ((str_eq_iff item.id item.id).1 refl) refl
find-append_self (x ∷ xs) item h = ground (arith, find-append_self xs item)

insert-Consistent :
    (item : QueueItem) (db : Store)
    → IsNew item
    → find (has_id item.id) db.items ≡ none
    → IsConsistent db
    → IsConsistent (record db { items = db.items ++ (item ∷ []) })
unfolding Consistent
insert-Consistent item db new absent con j = elim (Bool-cases (has_id j item)) [
  | inl e ↦
      let same : item.id ≡ j = (str_eq_iff item.id j).0 e in
      let none_open : filter (open_of item.id) db.attempts ≡ [] =
        subst (λ o. Agree o (filter (open_of item.id) db.attempts)) absent (con item.id) in
      subst
        (λ k. Agree (find (has_id k) (db.items ++ (item ∷ []))) (filter (open_of k) db.attempts))
        same
        (subst (λ o. Agree o (filter (open_of item.id) db.attempts))
          (sym (find-append_self db.items item absent))
          (free-AgreeItem item (filter (open_of item.id) db.attempts) new.idle new.no_token
            none_open))
  | inr e ↦
      subst (λ o. Agree o (filter (open_of j) db.attempts)) (sym (find-append j db.items item e))
        (con j)
]

pub insert_item-Consistent :
    (item : QueueItem) (db : Store)
    → IsNew item
    → IsConsistent db
    → IsConsistent (insert_item item db).1
unfolding insert_item
insert_item-Consistent item db new con =
    go (check_payload item.payload) (find (has_id item.id) db.items) refl
  where
    ending : Result (Unit {0}) → Option QueueItem → Result (Unit {0}) × Store
    ending r o = elim r [
      | err e ↦ (err e, db)
      | ok _ ↦
          if is_some o
          then (err sqlite_error, db)
          else (ok tt, record db { items = db.items ++ (item ∷ []) })
    ]

    go :
        (r : Result (Unit {0})) (o : Option QueueItem)
        → find (has_id item.id) db.items ≡ o
        → IsConsistent (ending r o).1
    go (err e) o h = con
    go (ok a) none h = insert-Consistent item db new h con
    go (ok a) (some x) h = con
