-- ===== src/Execution/Backoff/Bounds.antt =====
-- The retry delay is the capped exponential of its comment, and the attempt window stays in bounds.
use austro_os.Common.{
  ℕ, zero, suc, ◌+◌, ◌-◌, ◌*◌, ◌/◌, ◌^◌, ◌≤◌, ◌<◌, ◌≡◌, min, max, ltb, ◌==◌, if◌then◌else◌, arith,
}
use native.Mathlib.Nat.{pow-suc, mul-le-mul_left}
use austro_os.Execution.Types.{second}
use austro_os.Execution.Backoff.{two63, retry_delay_loop, retry_delay, window_of, attempt_window}

abbrev two62 : ℕ
two62 = 4_611_686_018_427_387_904

-- base doubled `n` times
abbrev doubled : ℕ → ℕ → ℕ
doubled zero d = d
doubled (suc n) d = doubled n (d * 2)

doubled-ge : (n d : ℕ) → d ≤ doubled n d
doubled-ge zero d = omega arith
doubled-ge (suc n) d = omega (arith, doubled-ge n (d * 2))

retry_delay_loop_lem :
    (n d cap : ℕ) → cap < two62 → d < two62 → retry_delay_loop n d cap ≡ min (doubled n d) cap
unfolding retry_delay_loop
retry_delay_loop_lem zero d cap hc hd = ground arith
retry_delay_loop_lem (suc n) d cap hc hd =
    ground (arith, doubled-ge n (d * 2), retry_delay_loop_lem n (d * 2) cap)

doubled-pow : (n d : ℕ) → doubled n d ≡ d * 2 ^ n
doubled-pow zero d = omega arith
doubled-pow (suc n) d = grind (arith, doubled-pow n (d * 2), pow-suc)

-- With the base and the cap below 2 ^ 62 nanoseconds no doubling wraps, and the delay after failed
-- attempt n, counted from 1, is the smaller of `base * 2 ^ (n - 1)` and the cap.
pub retry_delay_exact :
    (n base cap : ℕ)
    → base < two62
    → cap < two62
    → retry_delay (suc n) base cap ≡ min (base * 2 ^ n) cap
unfolding retry_delay
retry_delay_exact n base cap hb hc =
    ground (arith, retry_delay_loop_lem n base cap, doubled-pow n base)

share-le : (full k m : ℕ) → 0 < m → k ≤ m → full * k / m ≤ full
share-le full k m hm hk = grind arith

share_mono : (full j k m : ℕ) → 0 < m → j ≤ k → full * j / m ≤ full * k / m
share_mono full j k m hm hk = grind arith

-- Nothing wraps: the share of the attempt, and at least a second.
window_lem :
    (full a m : ℕ)
    → full * m < two63
    → 0 < a
    → a ≤ m
    → window_of full a m ≡ (if m == 1 then full else max second (full * (m - a + 1) / m))
unfolding window_of
window_lem full a m hf ha hm = ground (
  arith,
  mul-le-mul_left {m = m - a + 1} {n = m} full (omega arith),
  share-le full (m - a + 1) m (omega arith) (omega arith),
)

window_bounds :
    (full a b m : ℕ)
    → second ≤ full
    → full * m < two63
    → 0 < a
    → a ≤ b
    → b ≤ m
    → (second ≤ window_of full a m)
      × (window_of full a m ≤ full)
      × (window_of full b m ≤ window_of full a m)
window_bounds full a b m hs hf ha hab hb =
    rw (window_lem full a m hf ha (omega arith), window_lem full b m hf (omega arith) hb)
      (ground (
        arith,
        share-le full (m - a + 1) m (omega arith) (omega arith),
        share_mono full (m - b + 1) (m - a + 1) m (omega arith) (omega arith),
      ))

abbrev clamped : ℕ → ℕ → ℕ
clamped a m = let a' = if ltb a 1 then 1 else a in if ltb m a' then m else a'

attempt_window_lem :
    (full a m : ℕ) → 0 < m → attempt_window full a m ≡ window_of full (clamped a m) m
unfolding attempt_window
attempt_window_lem full a zero hm = elim hm [ ]
attempt_window_lem full a (suc m) hm = ground arith

-- For a window of one second at least, whose product with the attempt budget fits an int64, the window
-- of every attempt lies between one second and the full window, and a later attempt never gets more.
pub attempt_window_bounds :
    (full a b m : ℕ)
    → second ≤ full
    → full * m < two63
    → a ≤ b
    → 0 < m
    → (second ≤ attempt_window full a m)
      × (attempt_window full a m ≤ full)
      × (attempt_window full b m ≤ attempt_window full a m)
attempt_window_bounds full a b m hs hf hab hm =
    rw (attempt_window_lem full a m hm, attempt_window_lem full b m hm)
      (window_bounds full (clamped a m) (clamped b m) m hs hf (ground arith) (ground arith)
        (ground arith))
