-- ===== src/Execution/Backoff.antt =====
-- internal/execution/retrypolicy.go. A `time.Duration` is an int64, held as its bit pattern below
-- 2 ^ 64; the counters `attempt` and `maxAttempts` are never negative in the rows that they come from.
pub mod Bounds
use austro_os.Common.{ℕ, zero, suc, ◌+◌, ◌-◌, ◌*◌, ◌/◌, ◌%◌, Bool, ltb, leb, ◌==◌, if◌then◌else◌}
use austro_os.Execution.Types.{second}

abbrev pub two63 : ℕ
two63 = 9_223_372_036_854_775_808

abbrev pub two64 : ℕ
two64 = 18_446_744_073_709_551_616

-- `a >= b` on int64
abbrev pub int64_ge : ℕ → ℕ → Bool
int64_ge a b = leb ((b + two63) % two64) ((a + two63) % two64)

-- `a * b` and `a / b` on int64, the latter for a positive `b`: it truncates towards zero
abbrev pub int64_mul : ℕ → ℕ → ℕ
int64_mul a b = (a * b) % two64

abbrev pub int64_div : ℕ → ℕ → ℕ
int64_div a b = if ltb a two63 then a / b else (two64 - (two64 - a) / b) % two64

-- the loop `for i := 1; i < attempt; i++`, on the rounds that are left
retry_delay_loop : ℕ → ℕ → ℕ → ℕ
retry_delay_loop zero d cap = if int64_ge d cap then cap else d
retry_delay_loop (suc rounds) d cap =
    let doubled = int64_mul d 2 in
    let rest = retry_delay_loop rounds doubled cap in if int64_ge doubled cap then cap else rest

-- `RetryDelay`
unfoldable pub retry_delay : ℕ → ℕ → ℕ → ℕ
unfolding retry_delay_loop
retry_delay attempt base cap =
    retry_delay_loop ((if ltb attempt 1 then 1 else attempt) - 1) base cap

-- `AttemptWindow`, once the counters are clamped
window_of : ℕ → ℕ → ℕ → ℕ
window_of full attempt max_attempts =
    if max_attempts == 1
    then full
    else let window = int64_div (int64_mul full (max_attempts - attempt + 1)) max_attempts in
      if int64_ge window second then window else second

-- `AttemptWindow`
unfoldable pub attempt_window : ℕ → ℕ → ℕ → ℕ
unfolding window_of
attempt_window full attempt max_attempts =
    let m = if ltb max_attempts 1 then 1 else max_attempts in
    let a = if ltb attempt 1 then 1 else attempt in window_of full (if ltb m a then m else a) m
