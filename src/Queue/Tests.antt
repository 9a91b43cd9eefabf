-- ===== src/Queue/Tests.antt =====
-- Examples: a queue of three items, one in progress, one due and one malformed.
use rpacore.Base.{◌≡◌, refl, String, true, false, [], ◌∷◌, none, some, All}
use rpacore.Exec.{ok}
use rpacore.Json.{dict, end}
use rpacore.Queue.Rows.{
  QueueStatus, QueueAttemptOutcome, QueueItem, QueueAttempt, Payload, Store, json, not_json,
  is_empty, matches,
}
use rpacore.Queue.Retry.{QueuePolicy}
use rpacore.Queue.Claims.{update_owned, complete, retry_count_of, fail}
use rpacore.Queue.Delivery.{item_before, select_item, add, claim, next_item, is_stale, reclaim}
use rpacore.Queue.Agreement.{Consistent, IsConsistent}
use rpacore.Queue.Steps.{Reaches, here, after, adds, claims, completes, run-IsConsistent}
use rpacore.Queue.Fencing.{Lacks}
use rpacore.Queue.Fenced.{Others, IsFenced, run-IsFenced, complete-IsFenced, fail-IsFenced}
use rpacore.Queue.Serving.{Served, next_item-Served}
use rpacore.Queue.Fifo.{IsOldest, select_item-IsOldest}
use rpacore.Queue.Attempts.{Grows}
use rpacore.Queue.Audit.{run-Grows}
use rpacore.Queue.Reclaiming.{reclaim_clears}

abbrev item_of : String → String → Payload → QueueItem
item_of id created payload = record {
  reference = id;
  payload = payload;
  id = id;
  status = QueueStatus.pending;
  retry_count = 0;
  created_at = created;
  claimed_by = "";
  claimed_at = none;
  claim_token = "";
  transaction_id = "";
  available_at = none;
}

abbrev claimed_item : QueueItem
claimed_item = record (item_of "a" "2026-01-01" (json (dict 0 end))) {
  status = QueueStatus.in_progress;
  claimed_by = "w";
  claimed_at = some 5;
  claim_token = "t1";
}

abbrev broken : QueueItem
broken = item_of "b" "2026-01-02" not_json

abbrev waiting : QueueItem
waiting = item_of "c" "2026-01-03" (json (dict 0 end))

abbrev first_attempt : QueueAttempt
first_attempt = record {
  item_id = "a";
  claim_token = "t1";
  claimed_by = "w";
  started_at = 5;
  finished_at = none;
  outcome = none;
}

abbrev queue : Store
queue = record {
  items = claimed_item ∷ broken ∷ waiting ∷ [];
  attempts = first_attempt ∷ [];
  admin_events = [];
  poison_events = [];
}

abbrev policy : QueuePolicy
policy = record {
  lease_timeout = 30;
  max_retries = 3;
  retry_delay = record { num = 1; den = 1 };
  retry_backoff = record { num = 2; den = 1 };
}

next_item-Served_example :
    Served 9 "v" "t2" (next_item policy 9 "v" "t2" queue).1 (next_item policy 9 "v" "t2" queue).0
next_item-Served_example = next_item-Served policy 9 "v" "t2" queue (refl, (refl, (refl, tt)))

-- The queue without its claimed item.
abbrev small : Store
small = record queue { items = broken ∷ waiting ∷ []; attempts = [] }

selects : select_item 9 small.items ≡ some broken
unfolding select_item item_before
selects = refl

select_item-IsOldest_example : IsOldest 9 broken small.items
select_item-IsOldest_example = select_item-IsOldest 9 small.items broken selects

abbrev Set : String → Type 0
Set t = is_empty t ≡ false

abbrev nothing : Store
nothing = record { items = []; attempts = []; admin_events = []; poison_events = [] }

nothing-IsConsistent : IsConsistent nothing
unfolding Consistent
nothing-IsConsistent i = refl

-- An item is added, claimed and completed.
abbrev added : Store
added = (add waiting nothing).1

abbrev taken : Store
taken = (claim 9 "v" "t2" waiting added).1

abbrev finished : Store
finished = (complete 10 "c" "v" "t2" taken).1

a_life : Reaches policy Set nothing finished
a_life =
    after (adds waiting (record { idle = refl; no_token = refl }))
      (after (claims 9 "v" "t2" waiting refl) (after (completes 10 "c" "v" "t2") here))

-- The open attempt of the claimed item is closed.
completion : Reaches policy Set queue (complete 9 "a" "w" "t1" queue).1
completion = after (completes 9 "a" "w" "t1") here

run-Grows_example : Grows (first_attempt ∷ []) (complete 9 "a" "w" "t1" queue).1.attempts
run-Grows_example = run-Grows policy Set completion

run-IsConsistent_example : IsConsistent finished
run-IsConsistent_example = run-IsConsistent policy Set (λ t d. d) a_life nothing-IsConsistent

-- The token of the claimed item is no token of the waiting one, which another worker claims.
lacks : Lacks "c" "t1" small.items
unfolding Lacks matches
lacks = refl

abbrev retaken : Store
retaken = (claim 9 "v" "t2" waiting small).1

second_claim : Reaches policy (Others "t1") small retaken
second_claim = after (claims 9 "v" "t2" waiting (record { set = refl; other = refl })) here

run-IsFenced_example : IsFenced policy "c" "t1" refl "w" retaken
run-IsFenced_example = run-IsFenced policy "c" "t1" refl "w" lacks second_claim

completes_once : (complete 9 "a" "w" "t1" queue).0 ≡ ok tt
unfolding complete update_owned matches
completes_once = refl

complete-IsFenced_example : IsFenced policy "a" "t1" refl "w" (complete 9 "a" "w" "t1" queue).1
complete-IsFenced_example =
    complete-IsFenced policy "a" "t1" refl 9 "w" queue "w" completes_once here

fails_once : (fail policy 9 "a" true "w" "t1" queue).0 ≡ ok QueueAttemptOutcome.retry_scheduled
unfolding fail retry_count_of update_owned matches
fails_once = refl

fail-IsFenced_example : IsFenced policy "a" "t1" refl "w" (fail policy 9 "a" true "w" "t1" queue).1
fail-IsFenced_example = fail-IsFenced policy "a" "t1" refl 9 true "w" queue "w" fails_once here

-- The queue without its malformed item.
abbrev sound : Store
sound = record queue { items = waiting ∷ claimed_item ∷ [] }

-- A thousand seconds later the claim is stale.
reclaim_clears_example :
    All (λ r. is_stale 30 1000000000 r ≡ false) (reclaim policy 1000000000 queue).items
reclaim_clears_example = reclaim_clears policy 1000000000 queue (refl, (refl, (refl, tt)))
