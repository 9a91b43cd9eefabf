-- ===== src/Queue/Retry.antt =====
-- _queue_retry.py: when a failed item is delivered again.
-- The delay and the factor are exact fractions of seconds, and the products are exact: the rounding
-- of `float`, and the logarithms that keep its exponents in range, are not modelled.
use rpacore.Base.{ℕ, ◌+◌, ◌-◌, ◌*◌, ◌/◌, ◌^◌, Option, none, some, leb, ◌==◌, if◌then◌else◌}
use rpacore.Exceptions.{value_error}
use rpacore.Exec.{Result, and_then, require}

pub record Fraction : Type 0 where
  pub num : ℕ
  pub den : ℕ

-- The keys of a queue's configuration that its operations read.
pub record QueuePolicy : Type 0 where
  pub lease_timeout : ℕ
  pub max_retries : ℕ
  pub retry_delay : Fraction
  pub retry_backoff : Fraction

abbrev pub max_retry_delay : ℕ
max_retry_delay = 86400

-- The range checks of `retry_policy`, for finite numbers.
unfoldable pub retry_policy : Fraction → Fraction → Result (Unit {0})
retry_policy delay backoff =
    and_then (require (leb delay.num (max_retry_delay * delay.den)) value_error)
      (require (leb backoff.den backoff.num) value_error)

abbrev pub ceil_div : ℕ → ℕ → ℕ
ceil_div a b = (a + (b - 1)) / b

abbrev pub at_least_one : ℕ → ℕ
at_least_one n = if leb 1 n then n else 1

-- `delay * backoff ** (retry_count - 1)`
abbrev pub retry_seconds : ℕ → Fraction → Fraction → Fraction
retry_seconds retry_count delay backoff = record {
  num = delay.num * backoff.num ^ (retry_count - 1);
  den = delay.den * backoff.den ^ (retry_count - 1);
}

-- The microseconds of `wait`.
unfoldable pub retry_wait : ℕ → Fraction → Fraction → ℕ
retry_wait retry_count delay backoff =
    let s = retry_seconds retry_count delay backoff in
    if leb (max_retry_delay * s.den) s.num
    then max_retry_delay * 1000000
    else at_least_one (ceil_div (s.num * 1000000) s.den)

unfoldable pub retry_available_at : ℕ → ℕ → QueuePolicy → Option ℕ
unfolding retry_wait
retry_available_at now retry_count policy =
    if policy.retry_delay.num == 0
    then none
    else some (now + retry_wait retry_count policy.retry_delay policy.retry_backoff)
