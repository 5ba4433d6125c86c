-- ===== src/Scheduling/Retry.antt =====
-- core/scheduling_authority/src/retry.ts.
use imip.Base.{ℕ, ◌-◌, ◌*◌, ◌^◌, Bool, false, Option, none, some, leb, if◌then◌else◌}
use imip.Scheduling.Types.{
  RetryPolicy, RetryStrategy, immediate, fixed_interval, exponential_backoff, manual,
}

abbrev pub or_else : Option ℕ → ℕ → ℕ
or_else none n = n
or_else (some m) n = m

-- `attempt >= (policy.maxAttempts ?? Infinity)`.
abbrev pub exhausted : Option ℕ → ℕ → Bool
exhausted none attempt = false
exhausted (some max_attempts) attempt = leb max_attempts attempt

-- Attempts are counted from one. Where the power leaves the numbers of the source, it is infinite there, and
-- the retry is beyond the last date here as there; but a base of 0 then gives no date there, and 0 here.
unfoldable pub delay_of : RetryStrategy → RetryPolicy → ℕ → Option ℕ
delay_of immediate policy attempt = some 0
delay_of fixed_interval policy attempt = some (or_else policy.interval_ms 0)
delay_of exponential_backoff policy attempt =
    some (or_else policy.interval_ms 1000 * or_else policy.backoff_multiplier 2 ^ (attempt - 1))
delay_of manual policy attempt = none

unfoldable pub compute_retry_delay_ms : RetryPolicy → ℕ → Option ℕ
unfolding delay_of
compute_retry_delay_ms policy attempt =
    if exhausted policy.max_attempts attempt then none else delay_of policy.strategy policy attempt
