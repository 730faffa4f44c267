-- ===== src/Security/Throttle.antt =====
-- internal/security/throttle.go. Keys are of any type with a test for equality; a time is a number of
-- nanoseconds, and `last_prune` is `none` at the zero time.
pub mod Window
use austro_os.Common.{
  ℕ, ◌+◌, ◌-◌, Bool, true, false, ◌&&◌, ltb, leb, ◌==◌, if◌then◌else◌, Option, none, some, List, [],
  ◌∷◌, length,
}

pub record Bucket : Type 0 where
  pub count : ℕ
  pub opened : ℕ

abbrev pub prune_threshold : ℕ
prune_threshold = 4096

abbrev pub minute : ℕ
minute = 60_000_000_000

pub record Throttler (K : Type 0) : Type 0 where
  pub window : ℕ
  pub limit : ℕ
  pub buckets : List (K × Bucket)
  pub last_prune : Option ℕ

-- `NewThrottler`, for arguments that are not negative
unfoldable pub new_throttler : {K : Type 0} → ℕ → ℕ → Throttler K
new_throttler window limit = record {
  window = if window == 0 then minute else window;
  limit = if limit == 0 then 1 else limit;
  buckets = [];
  last_prune = none;
}

-- `now.Sub(b.opened) >= t.window`
abbrev pub is_over : ℕ → ℕ → Bucket → Bool
is_over window now b = leb window (now - b.opened)

-- `now.Sub(t.lastPrune) > time.Minute`
abbrev prune_due : ℕ → Option ℕ → Bool
prune_due now none = true
prune_due now (some t) = ltb minute (now - t)

module _ {K : Type 0} (same : K → K → Bool) where
  unfoldable pub get_bucket : K → List (K × Bucket) → Option Bucket
  get_bucket k [] = none
  get_bucket k ((j, b) ∷ m) = let rest = get_bucket k m in if same j k then some b else rest

  -- `t.buckets[key] = b`
  unfoldable pub put_bucket : K → Bucket → List (K × Bucket) → List (K × Bucket)
  put_bucket k b [] = (k, b) ∷ []
  put_bucket k b ((j, c) ∷ m) =
      let rest = put_bucket k b m in if same j k then (j, b) ∷ m else (j, c) ∷ rest

  -- `delete(t.buckets, key)`
  unfoldable pub delete_bucket : K → List (K × Bucket) → List (K × Bucket)
  delete_bucket k [] = []
  delete_bucket k ((j, c) ∷ m) =
      let rest = delete_bucket k m in if same j k then rest else (j, c) ∷ rest

  -- the loop of `pruneLocked`
  unfoldable pub prune : ℕ → ℕ → List (K × Bucket) → List (K × Bucket)
  prune window now [] = []
  prune window now ((j, b) ∷ m) =
      let rest = prune window now m in if is_over window now b then rest else (j, b) ∷ rest

  -- the bucket that a call at `now` starts from
  unfoldable pub current : ℕ → ℕ → Option Bucket → Bucket
  current window now none = record { count = 0; opened = now }
  current window now (some b) =
      if is_over window now b then record { count = 0; opened = now } else b

  -- `Allow`, at the time `now`
  unfoldable pub allow : ℕ → K → Throttler K → Bool × Throttler K
  allow now key t =
      let b = current t.window now (get_bucket key t.buckets) in
      if leb t.limit b.count
      then (false, record t { buckets = put_bucket key b t.buckets })
      else let m = put_bucket key (record b { count = b.count + 1 }) t.buckets in
        if leb prune_threshold (length m) && prune_due now t.last_prune
        then (true, record t { buckets = prune t.window now m; last_prune = some now })
        else (true, record t { buckets = m })

  -- `Reset`
  unfoldable pub reset : K → Throttler K → Throttler K
  reset key t = record t { buckets = delete_bucket key t.buckets }
