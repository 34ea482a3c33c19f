-- ===== src/Payments/Retry/Tests.antt =====
-- Runs of the retry times.
use origin_tools.Base.{ℕ, ◌*◌, ◌≤◌, ◌<◌, ◌≡◌, refl, min, none, some, arith}
use origin_tools.Base.Decimal.{codes, from_text}
use origin_tools.Payments.Retry.{
  default_policy, next_backoff_ms, backoff_ms, or_default, extract_retry_after_ms,
}
use origin_tools.Payments.Retry.Hint.{reported, extract_retry_after_ms-reported}
use origin_tools.Payments.Retry.Backoff.{next_backoff_ms_bounds}

next_backoff_ms_bounds_example :
    (ms : ℕ) × (next_backoff_ms default_policy 3 none 7 ≡ some ms)
    × (0 < ms)
    × (ms ≤ 300000)
    × (3 * min (or_default none (backoff_ms default_policy 3)) 300000 ≤ 4 * ms)
next_backoff_ms_bounds_example =
    next_backoff_ms_bounds default_policy 3 none 7 (omega arith) (omega arith)

-- 4 seconds, less 18 percent.
third_attempt : next_backoff_ms default_policy 3 none 7 ≡ some 3280
unfolding next_backoff_ms
third_attempt = refl

-- A cap of zero milliseconds makes the clamp panic.
cap_zero_panics : next_backoff_ms (record default_policy { cap_ms = 0 }) 1 none 7 ≡ none
unfolding next_backoff_ms
cap_zero_panics = refl

hint_read : extract_retry_after_ms (codes "busy (retry-after=9s) retry-after=30s") ≡ some 30000
unfolding extract_retry_after_ms from_text
hint_read = refl

extract_retry_after_ms-reported_example :
    extract_retry_after_ms (reported (codes "rejected: busy") 30)
    ≡ extract_retry_after_ms (codes "rejected: busy")
extract_retry_after_ms-reported_example =
    extract_retry_after_ms-reported (codes "rejected: busy") 30

-- The hint that a facilitator's rejection is reported with stands in parentheses.
hint_missed : extract_retry_after_ms (codes "rejected: busy (retry-after=30s)") ≡ none
unfolding extract_retry_after_ms from_text
hint_missed = refl
