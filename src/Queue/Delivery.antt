-- ===== src/Queue/Delivery.antt =====
-- queue.py: how items enter the queue, and how a worker claims the next one.
use rpacore.Base.{
  text_before, ℕ, zero, suc, ◌+◌, ◌/◌, String, Bool, true, false, ◌&&◌, List, [], ◌∷◌, ◌++◌, Option,
  none, some, ltb, leb, ◌==◌, any, filter, find, length, codes, str_eq, if◌then◌else◌,
}
use rpacore.Exceptions.{json_state, sqlite_error}
use rpacore.Exec.{Exec, Result, ok, err, pure, gets, lift, ◌>>=◌, ◌>>◌}
use rpacore.Json.{validate_json_object}
use rpacore.Queue.Rows.{
  QueueStatus, QueueAttemptOutcome, QueueItem, Payload, PoisonError, QueuePoisonEvent, Store, json,
  not_json, is_in_progress, is_pending, same_status, has_id, matches, close_attempt, open_attempt,
  update_item,
}
use rpacore.Queue.Retry.{QueuePolicy}
use rpacore.Queue.Claims.{released, retry_status, due_if, close_claim}

abbrev pub is_some {ℓ} : {A : Type ℓ} → Option A → Bool
is_some none = false
is_some (some _) = true

-- `load_payload`: what is wrong with a stored payload, if something is.
unfoldable pub payload_error : Payload → Option PoisonError
payload_error not_json = some PoisonError.json_decode_error
payload_error (json v) = elim (validate_json_object v) [
  | ok _ ↦ none
  | err _ ↦ some PoisonError.json_state_error
]

-- `validate_json_object(item.payload)`
abbrev pub check_payload : Payload → Result (Unit {0})
check_payload not_json = err json_state
check_payload (json v) = validate_json_object v

-- `_insert_item`; the primary key refuses an id that is taken.
unfoldable pub insert_item : QueueItem → Exec Store (Unit {0})
insert_item item = do
  lift (check_payload item.payload)
  λ db.
      if is_some (find (has_id item.id) db.items)
      then (err sqlite_error, db)
      else (ok tt, record db { items = db.items ++ (item ∷ []) })

-- `SqliteQueue.add`
unfoldable pub add : QueueItem → Exec Store (Unit {0})
unfolding insert_item
add item = insert_item item

-- `status IN (…)`, where no list stands for every status.
abbrev pub in_statuses : Option (List QueueStatus) → QueueStatus → Bool
in_statuses none s = true
in_statuses (some ss) s = any (λ t. same_status s t) ss

-- `SqliteQueue.has_reference`
unfoldable pub has_reference : String → Option (List QueueStatus) → Store → Bool
has_reference reference statuses db =
    any (λ r. str_eq r.reference reference && in_statuses statuses r.status) db.items

-- `SqliteQueue.add_once`
unfoldable pub add_once : QueueItem → Option (List QueueStatus) → Exec Store Bool
unfolding has_reference insert_item
add_once item active = do
  duplicate ← gets (has_reference item.reference active)
  if duplicate then pure false else do insert_item item; pure true

-- Claimed longer ago than the lease allows, in whole seconds as `strftime('%s', …)` counts them.
abbrev pub expired_since : ℕ → ℕ → Option ℕ → Bool
expired_since timeout now none = false
expired_since timeout now (some claimed) = ltb (claimed / 1000000 + timeout) (now / 1000000)

abbrev pub is_stale : ℕ → ℕ → QueueItem → Bool
is_stale timeout now r = is_in_progress r.status && expired_since timeout now r.claimed_at

-- The round of the reclaiming loop for one stale row.
unfoldable pub reclaim_row : QueuePolicy → ℕ → QueueItem → Store → Store
unfolding matches close_attempt
reclaim_row policy now stale db =
    let count = stale.retry_count + 1 in
    let again = leb count policy.max_retries in
    let due = due_if again now count policy in
    let worker = if again then "" else stale.claimed_by in
    if matches stale.id (λ r. is_in_progress r.status && str_eq r.claim_token stale.claim_token)
      db.items
    then close_claim stale.id stale.claim_token QueueAttemptOutcome.lease_expired now
        (update_item stale.id (released (retry_status again) count worker due) db)
    else db

unfoldable pub reclaim_rows : QueuePolicy → ℕ → List QueueItem → Store → Store
unfolding reclaim_row
reclaim_rows policy now [] db = db
reclaim_rows policy now (r ∷ rs) db = reclaim_rows policy now rs (reclaim_row policy now r db)

-- The first transaction of `next_item`.
unfoldable pub reclaim : QueuePolicy → ℕ → Store → Store
unfolding reclaim_rows
reclaim policy now db =
    reclaim_rows policy now (filter (is_stale policy.lease_timeout now) db.items) db

-- `available_at IS NULL OR available_at <= ?`
abbrev pub is_due : ℕ → Option ℕ → Bool
is_due now none = true
is_due now (some t) = leb t now

abbrev pub is_eligible : ℕ → QueueItem → Bool
is_eligible now r = is_pending r.status && is_due now r.available_at

-- `ORDER BY created_at ASC, id ASC`: the ids decide where neither time is before the other.
unfoldable pub item_before : QueueItem → QueueItem → Bool
unfolding text_before
item_before a b =
    let before = text_before (codes a.created_at) (codes b.created_at) in
    if before && text_before (codes b.created_at) (codes a.created_at)
    then text_before (codes a.id) (codes b.id)
    else before

abbrev pub first_of : QueueItem → Option QueueItem → QueueItem
first_of r none = r
first_of r (some s) = if item_before r s then r else s

-- The `SELECT` of `next_item`: the first eligible row.
unfoldable pub select_item : ℕ → List QueueItem → Option QueueItem
unfolding item_before
select_item now [] = none
select_item now (r ∷ rs) =
    let rest = select_item now rs in if is_eligible now r then some (first_of r rest) else rest

abbrev pub same_time : Option ℕ → Option ℕ → Bool
same_time none none = true
same_time (some a) (some b) = a == b
same_time _ _ = false

-- The guard of the updates behind the `SELECT`, which may come after another worker's.
abbrev pub still_eligible : QueueItem → ℕ → QueueItem → Bool
still_eligible seen now r =
    is_pending r.status && same_time r.available_at seen.available_at && is_due now r.available_at

abbrev pub poisoned : QueueItem → QueueItem
poisoned r = record r {
  status = QueueStatus.failed;
  claimed_by = "";
  claimed_at = none;
  claim_token = "";
  available_at = none;
}

abbrev add_poison_event : QueuePoisonEvent → Store → Store
add_poison_event e db = record db { poison_events = db.poison_events ++ (e ∷ []) }

-- The transaction that takes a malformed item out of the queue.
unfoldable pub quarantine : ℕ → QueueItem → PoisonError → Store → Store
unfolding matches
quarantine now seen error db =
    if matches seen.id (still_eligible seen now) db.items
    then add_poison_event (record { item_id = seen.id; error_type = error; created_at = now })
        (update_item seen.id poisoned db)
    else db

abbrev pub claimed : String → String → ℕ → QueueItem → QueueItem
claimed worker token now r = record r {
  status = QueueStatus.in_progress;
  claimed_by = worker;
  claimed_at = some now;
  claim_token = token;
  available_at = none;
}

-- The transaction that claims an item; the result is the claimed row, if the guard held.
unfoldable pub claim : ℕ → String → String → QueueItem → Store → Option QueueItem × Store
unfolding open_attempt
claim now worker token seen db = elim (find (has_id seen.id) db.items) [
  | none ↦ (none, db)
  | some r ↦
      if still_eligible seen now r
      then (
        some (claimed worker token now r),
        open_attempt seen.id token worker now (update_item seen.id (claimed worker token now) db),
      )
      else (none, db)
]

-- The loop of `next_item` when no other connection writes meanwhile, for as many rounds as the fuel
-- allows, at one reading of the clock.
unfoldable pub next_from : ℕ → ℕ → String → String → Store → Option QueueItem × Store
unfolding select_item payload_error quarantine claim
next_from zero now worker token db = (none, db)
next_from (suc fuel) now worker token db = elim (select_item now db.items) [
  | none ↦ (none, db)
  | some r ↦ elim (payload_error r.payload) [
    | some e ↦ next_from fuel now worker token (quarantine now r e db)
    | none ↦ claim now worker token r db
  ]
]

-- `SqliteQueue.next_item` when no other connection writes meanwhile.
unfoldable pub next_item : QueuePolicy → ℕ → String → String → Store → Option QueueItem × Store
unfolding reclaim next_from
next_item policy now worker token db =
    next_from (length db.items + 1) now worker token (reclaim policy now db)
