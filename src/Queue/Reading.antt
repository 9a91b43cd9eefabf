-- ===== src/Queue/Reading.antt =====
-- queue.py: what the queue shows of its tables.
use rpacore.Base.{
  ℤ, pos, negsuc, String, Bool, true, List, [], ◌∷◌, Option, none, some, filter, find, first_rows,
  later_rows, sort_by, str_eq,
}
use rpacore.Exceptions.{Error, value_error, json_state}
use rpacore.Exec.{Result, ok, err}
use rpacore.Queue.Rows.{
  QueueStatus, QueueItem, QueueAttempt, QueueAdminEvent, QueuePoisonEvent, PoisonError, Store,
  has_id,
}
use rpacore.Queue.Delivery.{payload_error, in_statuses, item_before}

abbrev pub error_of : PoisonError → Error
error_of PoisonError.json_decode_error = value_error
error_of PoisonError.json_state_error = json_state

abbrev pub prepend : QueueItem → Result (List QueueItem) → Result (List QueueItem)
prepend r (ok rs) = ok (r ∷ rs)
prepend r (err e) = err e

-- `[row_to_item(row) for row in rows]`, which raises at the first malformed payload.
unfoldable pub read_rows : List QueueItem → Result (List QueueItem)
unfolding payload_error
read_rows [] = ok []
read_rows (r ∷ rs) =
    let rest = read_rows rs in
    elim (payload_error r.payload) [ none ↦ prepend r rest | some e ↦ err (error_of e) ]

abbrev pub read_one : Option QueueItem → Result (Option QueueItem)
read_one none = ok none
read_one (some r) = elim (payload_error r.payload) [
  | none ↦ ok (some r)
  | some e ↦ err (error_of e)
]

-- `SqliteQueue.get_item`
unfoldable pub get_item : String → Store → Result (Option QueueItem)
unfolding payload_error
get_item i db = read_one (find (has_id i) db.items)

-- `_limit_offset_clause`, on the selected rows.
unfoldable pub page : Option ℤ → ℤ → List QueueItem → Result (List QueueItem)
page (some (negsuc _)) _ rs = err value_error
page none (negsuc _) rs = err value_error
page (some (pos _)) (negsuc _) rs = err value_error
page none (pos offset) rs = ok (later_rows offset rs)
page (some (pos limit)) (pos offset) rs = ok (first_rows limit (later_rows offset rs))

-- `SqliteQueue.list_items`
unfoldable pub list_items :
    Option (List QueueStatus) → Option ℤ → ℤ → Store → Result (List QueueItem)
unfolding read_rows page item_before
list_items statuses limit offset db =
    elim (page limit offset
      (sort_by item_before (filter (λ r. in_statuses statuses r.status) db.items))) [
        | ok rs ↦ read_rows rs
        | err e ↦ err e
      ]

abbrev pub of_item : Option String → String → Bool
of_item none i = true
of_item (some j) i = str_eq i j

-- `SqliteQueue.list_admin_events`
abbrev pub list_admin_events : Option String → Store → List QueueAdminEvent
list_admin_events i db = filter (λ e. of_item i e.item_id) db.admin_events

-- `SqliteQueue.list_attempts`
abbrev pub list_attempts : Option String → Store → List QueueAttempt
list_attempts i db = filter (λ a. of_item i a.item_id) db.attempts

-- `SqliteQueue.list_poison_events`
abbrev pub list_poison_events : Option String → Store → List QueuePoisonEvent
list_poison_events i db = filter (λ e. of_item i e.item_id) db.poison_events
