-- ===== src/Runner/Balance.antt =====
-- The counters of a worker: every item that it has claimed is counted once more, by its outcome.
use rpacore.Base.{ℕ, ◌+◌, ◌≤◌, ◌≡◌, ◌⊎◌, Bool}
use rpacore.Exec.{Result, ok, err}
use rpacore.Transaction.{Transaction}
use rpacore.Runner.State.{QueueRunSummary, WorkerState, Calls}
use rpacore.Runner.Progress.{Progress}

-- `open` items are claimed and have no outcome yet.
pub record HasOpen (open' : ℕ) (s : QueueRunSummary) : Type 0 where
  pub all_counted : s.processed ≡ s.completed + s.failed + open'
  pub failures :
      s.failed ≡ s.retry_scheduled + s.terminal_failed + s.lease_lost + s.transition_unknown
  pub callbacks : s.callback_errors ≤ s.completed

-- Balanced behind a round that returned, or at most one item open behind one that raised.
abbrev pub Counted : {W : Type 0} → Result Bool × WorkerState W → Type 0
Counted (ok b, st) = HasOpen 0 st.summary
Counted (err e, st) = HasOpen 0 st.summary ⊎ HasOpen 1 st.summary

-- The same of a whole queue run.
abbrev pub CountedEnd : {W : Type 0} → Result (Unit {0}) → WorkerState W → Type 0
CountedEnd (ok _) st = HasOpen 0 st.summary
CountedEnd (err e) st = HasOpen 0 st.summary ⊎ HasOpen 1 st.summary

module _ {W : Type 0} (calls : Calls W) where
  abbrev IsOpen : WorkerState W → Type 0
  IsOpen st = HasOpen 1 st.summary
