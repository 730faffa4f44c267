-- ===== src/Execution/Store/Counts.antt =====
-- How the updates of ai_execution_retries change the number of outstanding rows of an execution.
use austro_os.Common.{
  ℕ, ◌+◌, ◌≤◌, ◌≡◌, ◌≢◌, refl, Bool, true, false, ◌&&◌, ◌||◌, Option, none, some, List, [], ◌∷◌,
  ◌++◌, any, count, arith,
}
use austro_os.Common.Text.{Text}
use austro_os.Execution.Types.{Uuid, Time, Retry, RetryState, RetryOutcome}
use austro_os.Execution.Store.Tables.{waiting_of, live_of, finish_where}
use austro_os.Execution.Store.Lease.{claim_retries}
use austro_os.Execution.Store.Unfenced.{mark_dispatched}

unfoldable pub waiting : Uuid → Uuid → List Retry → ℕ
waiting ws id = count (waiting_of ws id)

unfoldable pub live : Uuid → Uuid → List Retry → ℕ
live ws id = count (live_of ws id)

abbrev is_processed : RetryState → Bool
is_processed RetryState.processed = true
is_processed _ = false

abbrev has_worker : Option Text → Bool
has_worker none = false
has_worker (some w) = true

-- processed rows that still name a worker
unfoldable pub uncleared : List Retry → ℕ
uncleared = count (λ r. is_processed r.state && has_worker r.worker_id)

-- The two lists have as many outstanding rows for every execution but `id`.
pub record SameElsewhere (id : Uuid) (rs rs' : List Retry) : Type 0 where
  pub same_waiting : (ws j : Uuid) → j ≢ id → waiting ws j rs' ≡ waiting ws j rs
  pub same_live : (ws j : Uuid) → j ≢ id → live ws j rs' ≡ live ws j rs

module _ (ws id : Uuid) (worker : Text) (g : ℕ) (now : Time) where
  abbrev claimed_list : List Retry → List Retry
  claimed_list rs = claim_retries ws id worker g now rs

  pub waiting-claim : (rs : List Retry) → waiting ws id (claimed_list rs) ≡ 0
  unfolding claim_retries waiting live uncleared
  waiting-claim [] = refl
  waiting-claim (r ∷ rs) = ground (arith, waiting-claim rs)

  pub live-claim :
      (rs : List Retry) → live ws id (claimed_list rs) ≡ live ws id rs + waiting ws id rs
  unfolding claim_retries waiting live uncleared
  live-claim [] = omega arith
  live-claim (r ∷ rs) = ground (arith, live-claim rs)

  pub uncleared-claim : (rs : List Retry) → uncleared (claimed_list rs) ≡ uncleared rs
  unfolding claim_retries waiting live uncleared
  uncleared-claim [] = refl
  uncleared-claim (r ∷ rs) = ground (arith, uncleared-claim rs)

  waiting-claim_ne :
      (w j : Uuid) (rs : List Retry) → j ≢ id → waiting w j (claimed_list rs) ≡ waiting w j rs
  unfolding claim_retries waiting live uncleared
  waiting-claim_ne w j [] h = refl
  waiting-claim_ne w j (r ∷ rs) h = ground (arith, waiting-claim_ne w j rs)

  live-claim_ne : (w j : Uuid) (rs : List Retry) → j ≢ id → live w j (claimed_list rs) ≡ live w j rs
  unfolding claim_retries waiting live uncleared
  live-claim_ne w j [] h = refl
  live-claim_ne w j (r ∷ rs) h = ground (arith, live-claim_ne w j rs)

  pub claim-SameElsewhere : (rs : List Retry) → SameElsewhere id rs (claimed_list rs)
  claim-SameElsewhere rs = record {
    same_waiting = λ w j h. waiting-claim_ne w j rs h;
    same_live = λ w j h. live-claim_ne w j rs h;
  }

module _ (ws id : Uuid) (now : Time) (o : RetryOutcome) where
  -- the outstanding row of a fence is settled
  abbrev settled_list : List Retry → List Retry
  settled_list rs = finish_where (live_of ws id) now o rs

  pub waiting-settle : (rs : List Retry) → waiting ws id (settled_list rs) ≡ waiting ws id rs
  unfolding finish_where waiting live uncleared
  waiting-settle [] = refl
  waiting-settle (r ∷ rs) = ground (arith, waiting-settle rs)

  pub live-settle : (rs : List Retry) → live ws id (settled_list rs) ≡ 0
  unfolding finish_where waiting live uncleared
  live-settle [] = refl
  live-settle (r ∷ rs) = ground (arith, live-settle rs)

  pub uncleared-finish :
      (p : Retry → Bool) (rs : List Retry) → uncleared (finish_where p now o rs) ≤ uncleared rs
  unfolding finish_where waiting live uncleared
  uncleared-finish p [] = omega arith
  uncleared-finish p (r ∷ rs) = ground (arith, uncleared-finish p rs)

  waiting-settle_ne :
      (w j : Uuid) (rs : List Retry) → j ≢ id → waiting w j (settled_list rs) ≡ waiting w j rs
  unfolding finish_where waiting live uncleared
  waiting-settle_ne w j [] h = refl
  waiting-settle_ne w j (r ∷ rs) h = ground (arith, waiting-settle_ne w j rs)

  live-settle_ne :
      (w j : Uuid) (rs : List Retry) → j ≢ id → live w j (settled_list rs) ≡ live w j rs
  unfolding finish_where waiting live uncleared
  live-settle_ne w j [] h = refl
  live-settle_ne w j (r ∷ rs) h = ground (arith, live-settle_ne w j rs)

  pub settle-SameElsewhere : (rs : List Retry) → SameElsewhere id rs (settled_list rs)
  settle-SameElsewhere rs = record {
    same_waiting = λ w j h. waiting-settle_ne w j rs h;
    same_live = λ w j h. live-settle_ne w j rs h;
  }

  -- every outstanding row of the execution is cancelled
  abbrev cancelled_list : List Retry → List Retry
  cancelled_list rs = finish_where (λ r. waiting_of ws id r || live_of ws id r) now o rs

  pub waiting-cancel : (rs : List Retry) → waiting ws id (cancelled_list rs) ≡ 0
  unfolding finish_where waiting live uncleared
  waiting-cancel [] = refl
  waiting-cancel (r ∷ rs) = ground (arith, waiting-cancel rs)

  pub live-cancel : (rs : List Retry) → live ws id (cancelled_list rs) ≡ 0
  unfolding finish_where waiting live uncleared
  live-cancel [] = refl
  live-cancel (r ∷ rs) = ground (arith, live-cancel rs)

  waiting-cancel_ne :
      (w j : Uuid) (rs : List Retry) → j ≢ id → waiting w j (cancelled_list rs) ≡ waiting w j rs
  unfolding finish_where waiting live uncleared
  waiting-cancel_ne w j [] h = refl
  waiting-cancel_ne w j (r ∷ rs) h = ground (arith, waiting-cancel_ne w j rs)

  live-cancel_ne :
      (w j : Uuid) (rs : List Retry) → j ≢ id → live w j (cancelled_list rs) ≡ live w j rs
  unfolding finish_where waiting live uncleared
  live-cancel_ne w j [] h = refl
  live-cancel_ne w j (r ∷ rs) h = ground (arith, live-cancel_ne w j rs)

  pub cancel-SameElsewhere : (rs : List Retry) → SameElsewhere id rs (cancelled_list rs)
  cancel-SameElsewhere rs = record {
    same_waiting = λ w j h. waiting-cancel_ne w j rs h;
    same_live = λ w j h. live-cancel_ne w j rs h;
  }

-- Marking a claimed row as dispatched changes no count.
module _ (p : Retry → Bool) (now : Time) where
  pub waiting-mark :
      (w j : Uuid) (rs : List Retry) → waiting w j (mark_dispatched p now rs) ≡ waiting w j rs
  unfolding mark_dispatched waiting live uncleared
  waiting-mark w j [] = refl
  waiting-mark w j (r ∷ rs) = ground (arith, waiting-mark w j rs)

  pub live-mark : (w j : Uuid) (rs : List Retry) → live w j (mark_dispatched p now rs) ≡ live w j rs
  unfolding mark_dispatched waiting live uncleared
  live-mark w j [] = refl
  live-mark w j (r ∷ rs) = ground (arith, live-mark w j rs)

  pub uncleared-mark : (rs : List Retry) → uncleared (mark_dispatched p now rs) ≡ uncleared rs
  unfolding mark_dispatched waiting live uncleared
  uncleared-mark [] = refl
  uncleared-mark (r ∷ rs) = ground (arith, uncleared-mark rs)

-- One more row at the end.
module _ (r : Retry) where
  pub waiting-append :
      (ws id : Uuid) (rs : List Retry)
      → waiting ws id (rs ++ r ∷ []) ≡ waiting ws id rs + waiting ws id (r ∷ [])
  unfolding waiting
  waiting-append ws id [] = omega arith
  waiting-append ws id (q ∷ rs) = ground (arith, waiting-append ws id rs)

  pub live-append :
      (ws id : Uuid) (rs : List Retry)
      → live ws id (rs ++ r ∷ []) ≡ live ws id rs + live ws id (r ∷ [])
  unfolding live
  live-append ws id [] = omega arith
  live-append ws id (q ∷ rs) = ground (arith, live-append ws id rs)

  pub uncleared-append :
      (rs : List Retry) → uncleared (rs ++ r ∷ []) ≡ uncleared rs + uncleared (r ∷ [])
  unfolding uncleared
  uncleared-append [] = omega arith
  uncleared-append (q ∷ rs) = ground (arith, uncleared-append rs)

-- an execution with no outstanding row passes the partial unique index
pub any-outstanding :
    (ws id : Uuid) (rs : List Retry)
    → waiting ws id rs ≡ 0
    → live ws id rs ≡ 0
    → any (λ q. waiting_of ws id q || live_of ws id q) rs ≡ false
unfolding waiting live
any-outstanding ws id [] h k = refl
any-outstanding ws id (r ∷ rs) h k = ground (arith, any-outstanding ws id rs)
