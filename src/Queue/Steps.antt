-- ===== src/Queue/Steps.antt =====
-- Many workers on one queue: every interleaving of its write transactions.
use rpacore.Base.{ℕ, ◌≡◌, refl, String, Bool, false}
use rpacore.Queue.Rows.{QueueStatus, QueueItem, Store, PoisonError, is_empty}
use rpacore.Queue.Retry.{QueuePolicy}
use rpacore.Queue.Claims.{bind_transaction, renew_lease, complete, fail, force_complete, force_fail}
use rpacore.Queue.Delivery.{add, reclaim, quarantine, claim}
use rpacore.Queue.Agreement.{IsConsistent}
use rpacore.Queue.Consistency.{
  bind_transaction-Consistent, renew_lease-Consistent, complete-Consistent, fail-Consistent,
  force_transition-Consistent,
}
use rpacore.Queue.DeliveryConsistency.{
  IsNew, reclaim-Consistent, quarantine-Consistent, claim-Consistent, insert_item-Consistent,
}

-- `Draws` says which tokens the workers draw.
module _ (policy : QueuePolicy) (Draws : String → Type 0) where
  -- One write transaction of any worker, producer or administrator; it may raise.
  pub data Writes : Store → Store → Type 0 where
    adds : {db : Store} (item : QueueItem) → IsNew item → Writes db (add item db).1
    reclaims : {db : Store} (now : ℕ) → Writes db (reclaim policy now db)
    claims :
        {db : Store} (now : ℕ) (worker token : String) (seen : QueueItem)
        → Draws token
        → Writes db (claim now worker token seen db).1
    quarantines :
        {db : Store} (now : ℕ) (seen : QueueItem) (error : PoisonError)
        → Writes db (quarantine now seen error db)
    binds :
        {db : Store} (i transaction_id worker token : String)
        → Writes db (bind_transaction i transaction_id worker token db).1
    renews :
        {db : Store} (now : ℕ) (i worker token : String)
        → Writes db (renew_lease now i worker token db).1
    completes :
        {db : Store} (now : ℕ) (i worker token : String)
        → Writes db (complete now i worker token db).1
    fails :
        {db : Store} (now : ℕ) (i : String) (retry : Bool) (worker token : String)
        → Writes db (fail policy now i retry worker token db).1
    forces_complete :
        {db : Store} (now : ℕ) (i reason : String)
        → Writes db (force_complete policy now i reason db).1
    forces_fail :
        {db : Store} (now : ℕ) (i reason : String) (retry : Bool)
        → Writes db (force_fail policy now i reason retry db).1

  pub data Reaches : Store → Store → Type 0 where
    here : {db : Store} → Reaches db db
    after : {a b c : Store} → Writes a b → Reaches b c → Reaches a c

  step-IsConsistent :
      {a b : Store}
      → ((token : String) → Draws token → is_empty token ≡ false)
      → Writes a b
      → IsConsistent a
      → IsConsistent b
  unfolding add force_complete force_fail
  step-IsConsistent drawn (adds {db = db} item new) con = insert_item-Consistent item db new con
  step-IsConsistent drawn (reclaims {db = db} now) con = reclaim-Consistent policy now db con
  step-IsConsistent drawn (claims {db = db} now worker token seen d) con =
      claim-Consistent now worker token seen db (drawn token d) con
  step-IsConsistent drawn (quarantines {db = db} now seen error) con =
      quarantine-Consistent now seen error db con
  step-IsConsistent drawn (binds {db = db} i transaction_id worker token) con =
      bind_transaction-Consistent i transaction_id worker token db con
  step-IsConsistent drawn (renews {db = db} now i worker token) con =
      renew_lease-Consistent now i worker token db con
  step-IsConsistent drawn (completes {db = db} now i worker token) con =
      complete-Consistent now i worker token db con
  step-IsConsistent drawn (fails {db = db} now i retry worker token) con =
      fail-Consistent policy now i retry worker token db con
  step-IsConsistent drawn (forces_complete {db = db} now i reason) con =
      force_transition-Consistent policy now i QueueStatus.successful reason false db refl con
  step-IsConsistent drawn (forces_fail {db = db} now i reason retry) con =
      force_transition-Consistent policy now i QueueStatus.failed reason retry db refl con

  -- Whatever workers, producers and administrators do to a queue, in any order: if items and
  -- attempts agree before, they do after, so an item in progress has one open attempt, under its own
  -- token, and no other item has an open attempt or a token. Tokens that are drawn are not empty.
  pub run-IsConsistent :
      {a b : Store}
      → ((token : String) → Draws token → is_empty token ≡ false)
      → Reaches a b
      → IsConsistent a
      → IsConsistent b
  run-IsConsistent drawn here con = con
  run-IsConsistent drawn (after s ss) con =
      run-IsConsistent drawn ss (step-IsConsistent drawn s con)
