-- ===== src/Queue/Waits.antt =====
-- How long a retried item waits: the rounding and the bounds of `retry_available_at`.
use rpacore.Base.{ℕ, ◌*◌, ◌≤◌, ◌<◌, ◌⊎◌}
use rpacore.Queue.Retry.{Fraction}

-- A fraction with a denominator.
abbrev pub IsFraction : Fraction → Type 0
IsFraction q = 0 < q.den

-- The wait in microseconds is at least one and at most a day's, and not shorter than the exact
-- product, unless that is a day or more.
pub record IsWait (s : Fraction) (wait : ℕ) : Type 0 where
  pub positive : 1 ≤ wait
  pub at_most_a_day : wait ≤ 86400 * 1000000
  pub covers : (86400 * s.den ≤ s.num) ⊎ (s.num * 1000000 ≤ s.den * wait)
