-- ===== src/Queue/Pages.antt =====
-- Pages of the queue's listing.
use rpacore.Base.{List, ◌++◌}
use rpacore.Exec.{Result, ok, err}
use rpacore.Queue.Rows.{QueueItem}

append_ok : (ys : List QueueItem) → Result (List QueueItem) → Result (List QueueItem)
append_ok ys (ok xs) = ok (xs ++ ys)
append_ok ys (err e) = err e
