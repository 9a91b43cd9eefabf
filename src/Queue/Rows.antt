-- ===== src/Queue/Rows.antt =====
-- queue.py: the tables of the queue, and the statements on them that its methods share.
-- A row of `queue_items` is found by its primary key, so at most one row has an id.
use rpacore.Base.{
  ℕ, String, Bool, true, false, not, ◌&&◌, List, [], ◌∷◌, ◌++◌, Option, none, some, str_eq, find,
  update_where, if◌then◌else◌,
}
use rpacore.Json.{Value}

pub data QueueStatus : Type 0 where
  pending in_progress successful failed : QueueStatus

pub data QueueAttemptOutcome : Type 0 where
  successful retry_scheduled failed lease_expired admin_override : QueueAttemptOutcome

-- The stored text of a payload: the value that `json.loads` reads from it, if it reads one.
pub data Payload : Type 0 where
  json : Value → Payload
  not_json : Payload

-- Times are microseconds, but for `created_at`, the text that the queue is sorted by.
pub record QueueItem : Type 0 where
  pub reference : String
  pub payload : Payload
  pub id : String
  pub status : QueueStatus
  pub retry_count : ℕ
  pub created_at : String
  pub claimed_by : String
  pub claimed_at : Option ℕ
  pub claim_token : String
  pub transaction_id : String
  pub available_at : Option ℕ

-- The sequence numbers are those of the rows' places.
pub record QueueAttempt : Type 0 where
  pub item_id : String
  pub claim_token : String
  pub claimed_by : String
  pub started_at : ℕ
  pub finished_at : Option ℕ
  pub outcome : Option QueueAttemptOutcome

pub record QueueAdminEvent : Type 0 where
  pub item_id : String
  pub action : String
  pub reason : List ℕ  -- the characters of the stripped text
  pub previous_status : QueueStatus
  pub new_status : QueueStatus
  pub created_at : ℕ

pub data PoisonError : Type 0 where
  json_decode_error json_state_error : PoisonError

pub record QueuePoisonEvent : Type 0 where
  pub item_id : String
  pub error_type : PoisonError
  pub created_at : ℕ

pub record Store : Type 0 where
  pub items : List QueueItem
  pub attempts : List QueueAttempt
  pub admin_events : List QueueAdminEvent
  pub poison_events : List QueuePoisonEvent

abbrev pub is_in_progress : QueueStatus → Bool
is_in_progress QueueStatus.in_progress = true
is_in_progress _ = false

abbrev pub is_pending : QueueStatus → Bool
is_pending QueueStatus.pending = true
is_pending _ = false

abbrev pub is_failed : QueueStatus → Bool
is_failed QueueStatus.failed = true
is_failed _ = false

abbrev pub same_status : QueueStatus → QueueStatus → Bool
same_status QueueStatus.pending QueueStatus.pending = true
same_status QueueStatus.in_progress QueueStatus.in_progress = true
same_status QueueStatus.successful QueueStatus.successful = true
same_status QueueStatus.failed QueueStatus.failed = true
same_status _ _ = false

-- `claim_token = ''`
abbrev pub is_empty : String → Bool
is_empty t = str_eq t ""

abbrev pub is_open : QueueAttempt → Bool
is_open a = elim a.outcome [ none ↦ true | some _ ↦ false ]

abbrev pub has_id : String → QueueItem → Bool
has_id i r = str_eq r.id i

abbrev pub passes : (QueueItem → Bool) → Option QueueItem → Bool
passes p none = false
passes p (some r) = p r

-- Whether the row with the key passes: then `UPDATE … WHERE id = ? AND p` changes one row, else none.
unfoldable pub matches : String → (QueueItem → Bool) → List QueueItem → Bool
matches i p items = passes p (find (has_id i) items)

-- The change of the row with the key.
unfoldable pub set_row : String → (QueueItem → QueueItem) → List QueueItem → List QueueItem
set_row i f [] = []
set_row i f (r ∷ rs) = let rest = set_row i f rs in if has_id i r then f r ∷ rs else r ∷ rest

-- `status = 'in_progress' AND claimed_by = ? AND claim_token = ? AND claim_token != ''`
abbrev pub owned_by : String → String → QueueItem → Bool
owned_by worker token r =
    is_in_progress r.status
    && str_eq r.claimed_by worker
    && str_eq r.claim_token token
    && not (is_empty r.claim_token)

abbrev pub attempt_of : String → String → QueueAttempt → Bool
attempt_of i token a = str_eq a.item_id i && str_eq a.claim_token token && is_open a

-- `_close_attempt`
unfoldable pub close_attempt : String → String → QueueAttemptOutcome → ℕ → Store → Store
close_attempt i token outcome now db = record db {
  attempts =
      update_where (attempt_of i token)
        (λ a. record a { outcome = some outcome; finished_at = some now }) db.attempts;
}

-- `_open_attempt`
unfoldable pub open_attempt : String → String → String → ℕ → Store → Store
open_attempt i token worker now db =
    let a : QueueAttempt = record {
      item_id = i;
      claim_token = token;
      claimed_by = worker;
      started_at = now;
      finished_at = none;
      outcome = none;
    } in
    record db { attempts = db.attempts ++ (a ∷ []) }

abbrev pub update_item : String → (QueueItem → QueueItem) → Store → Store
update_item i f db = record db { items = set_row i f db.items }
