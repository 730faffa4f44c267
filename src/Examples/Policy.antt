-- ===== src/Examples/Policy.antt =====
-- The retry policy and the classification at concrete errors and durations.
use austro_os.Common.{◌*◌, ◌^◌, ◌≤◌, ◌≡◌, min, some, arith}
use austro_os.Execution.Types.{second, retryable}
use austro_os.Execution.Classify.{Cause, sentinel, joined, context_canceled, usage_limit, classify}
use austro_os.Execution.Classify.Laws.{retry-classify}
use austro_os.Execution.Backoff.{retry_delay, attempt_window}
use austro_os.Execution.Backoff.Bounds.{retry_delay_exact, attempt_window_bounds}

retry_delay_exact_example : retry_delay 4 second (60 * second) ≡ min (second * 2 ^ 3) (60 * second)
retry_delay_exact_example = retry_delay_exact 3 second (60 * second) (omega arith) (omega arith)

attempt_window_bounds_example :
    (second ≤ attempt_window (90 * second) 1 3)
    × (attempt_window (90 * second) 1 3 ≤ 90 * second)
    × (attempt_window (90 * second) 3 3 ≤ attempt_window (90 * second) 1 3)
attempt_window_bounds_example =
    attempt_window_bounds (90 * second) 1 3 3 (omega arith) (omega arith) (omega arith)
      (omega arith)

-- a cancellation joined to a rate limit
abbrev cut_short : Cause
cut_short = joined (sentinel usage_limit) (sentinel context_canceled)

retry-classify_example :
    (classify (some cut_short)).retry ≡ retryable (classify (some cut_short)).code
retry-classify_example = retry-classify (some cut_short)
