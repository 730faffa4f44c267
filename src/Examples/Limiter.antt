-- ===== src/Examples/Limiter.antt =====
-- The limiter with numbers as keys: a window of ten, a limit of two.
use austro_os.Common.{ℕ, ◌+◌, ◌≤◌, refl, Bool, ◌==◌, List, [], ◌∷◌, arith, ==_iff}
use austro_os.Security.Throttle.{
  Throttler, new_throttler, get_bucket, put_bucket, prune, current, allow,
}
use austro_os.Security.Throttle.Window.{grants, grants_within_limit}

abbrev same : ℕ → ℕ → Bool
same a b = a == b

-- one call of the key 7 at time 5
abbrev one_hit : Throttler ℕ
one_hit = (allow same 5 7 (new_throttler 10 2)).1

-- calls that interleave with another key's, and one call beyond the limit
abbrev calls : List (ℕ × ℕ)
calls = (6, 7) ∷ (7, 8) ∷ (9, 7) ∷ []

grants_within_limit_example : grants same 7 calls one_hit + 1 ≤ one_hit.limit
unfolding allow current get_bucket put_bucket prune new_throttler
grants_within_limit_example =
    grants_within_limit same ==_iff 7 calls one_hit (record { count = 1; opened = 5 }) refl
      (omega arith, (omega arith, (omega arith, tt))) (omega arith)
