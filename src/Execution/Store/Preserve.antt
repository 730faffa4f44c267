-- ===== src/Execution/Store/Preserve.antt =====
-- Every lease transaction keeps the executions and their retries in lockstep, whatever its arguments
-- and whether it commits or not.
use austro_os.Common.{
  ℕ, ◌+◌, ◌≤◌, ◌≡◌, refl, Bool, true, ◌==◌, if◌then◌else◌, Option, none, some, List, Result, ◌>>=◌,
  arith,
}
use austro_os.Common.Text.{Text}
use austro_os.Execution.Types.{
  Uuid, Time, Error, Execution, Retry, RetryOutcome, Status, ErrorCode, FencedExecution,
  is_terminal,
}
use austro_os.Execution.Store.Tables.{
  Tables, Supply, commit_or_rollback, lease_until, find_execution, put_execution, holds_lease,
  live_of, finish_where,
}
use austro_os.Execution.Store.Lease.{
  leased, claim, claim_row, claim_retries, is_claimable, reclaim_stale, reclaim_row, is_stale,
}
use austro_os.Execution.Store.Writes.{
  fenced_row, fenced_update, heartbeat, persist_error, complete, fail_and_dlq,
}
use austro_os.Execution.Store.Counts.{
  waiting, live, SameElsewhere, waiting-claim, live-claim, uncleared-claim, claim-SameElsewhere,
  waiting-settle, live-settle, uncleared-finish, settle-SameElsewhere,
}
use austro_os.Execution.Store.Lockstep.{RowInv, IsLockstep, find_execution-eq-some, put-IsLockstep}

claim-RowInv :
    (ws id : Uuid) (worker : Text) (until now : Time) (e : Execution) (rs : List Retry)
    → e.workspace_id ≡ ws
    → is_claimable now e ≡ true
    → RowInv id e rs
    → RowInv id (leased worker until e) (claim_retries ws id worker (e.lease_generation + 1) now rs)
unfolding is_claimable
claim-RowInv ws id worker until now e rs same guard inv = ground (
  arith,
  waiting-claim ws id worker (e.lease_generation + 1) now rs,
  live-claim ws id worker (e.lease_generation + 1) now rs,
)

claim_row-IsLockstep :
    (ws id : Uuid) (worker : Text) (until now : Time) (ts : Tables) (oe : Option Execution)
    (or : Option Retry)
    → find_execution ws id (is_claimable now) ts ≡ oe
    → IsLockstep ts
    → IsLockstep (commit_or_rollback ts (claim_row ws id worker until now ts oe or)).1
unfolding claim_row put_execution
claim_row-IsLockstep ws id worker until now ts none or h inv = inv
claim_row-IsLockstep ws id worker until now ts (some e) none h inv = inv
claim_row-IsLockstep ws id worker until now ts (some e) (some r) h inv =
    let (here, same_ws, guard) = find_execution-eq-some ws id (is_claimable now) ts h in
    put-IsLockstep id _ ts _ inv (λ j. refl)
      (claim-RowInv ws id worker until now e ts.retries same_ws guard (inv.row id e here))
      (claim-SameElsewhere ws id worker (e.lease_generation + 1) now ts.retries)
      (omega (arith, uncleared-claim ws id worker (e.lease_generation + 1) now ts.retries))

-- `Claim`
pub claim-IsLockstep :
    (ws id : Uuid) (worker : Text) (ttl : ℕ) (s : Supply) (ts : Tables)
    → IsLockstep ts
    → IsLockstep (claim ws id worker ttl s ts).1
unfolding claim
claim-IsLockstep ws id worker ttl s ts inv =
    claim_row-IsLockstep ws id worker (lease_until s.now ttl) s.now ts _ _ refl inv

pub SameElsewhere-refl : (id : Uuid) (rs : List Retry) → SameElsewhere id rs rs
SameElsewhere-refl id rs = record { same_waiting = λ w j h. refl; same_live = λ w j h. refl }

reclaim_row-IsLockstep :
    (ws id : Uuid) (worker : Text) (until now : Time) (ts : Tables) (oe : Option Execution)
    → find_execution ws id (is_stale now) ts ≡ oe
    → IsLockstep ts
    → IsLockstep (commit_or_rollback ts (reclaim_row ws id worker until ts oe)).1
unfolding reclaim_row put_execution is_stale
reclaim_row-IsLockstep ws id worker until now ts none h inv = inv
reclaim_row-IsLockstep ws id worker until now ts (some e) h inv =
    let (here, same_ws, guard) = find_execution-eq-some ws id (is_stale now) ts h in
    put-IsLockstep id _ ts _ inv (λ j. refl) (ground (arith, inv.row id e here))
      (SameElsewhere-refl id ts.retries) (omega arith)

-- `ReclaimStale`
pub reclaim_stale-IsLockstep :
    (ws id : Uuid) (worker : Text) (ttl : ℕ) (s : Supply) (ts : Tables)
    → IsLockstep ts
    → IsLockstep (reclaim_stale ws id worker ttl s ts).1
unfolding reclaim_stale
reclaim_stale-IsLockstep ws id worker ttl s ts inv =
    reclaim_row-IsLockstep ws id worker (lease_until s.now ttl) s.now ts _ refl inv

-- The rest of a transaction after its fenced update, which touches nothing if the fence is lost.
module _ {A : Type 0} (f : FencedExecution) (g : Execution → Execution)
    (k : Tables → Result Error (A × Tables)) (ts : Tables) (inv : IsLockstep ts)
    (next : (e : Execution)
      → ts.executions f.execution_id ≡ some e
      → e.workspace_id ≡ f.workspace_id
      → e.status ≡ Status.running
      → IsLockstep (commit_or_rollback ts (k (put_execution f.execution_id (g e) ts))).1) where
  after_row :
      (oe : Option Execution)
      → find_execution f.workspace_id f.execution_id (holds_lease f) ts ≡ oe
      → IsLockstep (commit_or_rollback ts (fenced_row f g ts oe >>= k)).1
  unfolding holds_lease
  after_row none h = inv
  after_row (some e) h =
      let (here, same_ws, held) = find_execution-eq-some _ _ _ ts h in
      next e here same_ws (ground arith)

  pub after_fence : IsLockstep (commit_or_rollback ts (fenced_update f g ts >>= k)).1
  unfolding fenced_update
  after_fence = after_row _ refl

-- `Heartbeat`
pub heartbeat-IsLockstep :
    (f : FencedExecution) (ttl : ℕ) (s : Supply) (ts : Tables)
    → IsLockstep ts
    → IsLockstep (heartbeat f ttl s ts).1
unfolding heartbeat put_execution
heartbeat-IsLockstep f ttl s ts inv = after_fence f _ _ ts inv λ e here same_ws run.
    put-IsLockstep f.execution_id _ ts _ inv (λ j. refl)
      (ground (arith, inv.row f.execution_id e here)) (SameElsewhere-refl f.execution_id ts.retries)
      (omega arith)

-- `PersistError`
pub persist_error-IsLockstep :
    (f : FencedExecution) (code : ErrorCode) (retry : Bool) (detail : Text) (s : Supply)
    (ts : Tables)
    → IsLockstep ts
    → IsLockstep (persist_error f code retry detail s ts).1
unfolding persist_error put_execution
persist_error-IsLockstep f code retry detail s ts inv =
    after_fence f _ _ ts inv λ e here same_ws run.
      put-IsLockstep f.execution_id _ ts _ inv (λ j. refl)
        (ground (arith, inv.row f.execution_id e here))
        (SameElsewhere-refl f.execution_id ts.retries) (omega arith)

-- A running row's retries, settled: none is outstanding.
module _ (f : FencedExecution) (now : Time) (o : RetryOutcome) (ts : Tables) where
  abbrev pub released : List Retry
  released = finish_where (live_of f.workspace_id f.execution_id) now o ts.retries

  pub released-none :
      (inv : IsLockstep ts) (e : Execution)
      → ts.executions f.execution_id ≡ some e
      → e.workspace_id ≡ f.workspace_id
      → e.status ≡ Status.running
      → (waiting f.workspace_id f.execution_id released ≡ 0)
        × (live f.workspace_id f.execution_id released ≡ 0)
  released-none inv e here same_ws run = ground (
    arith,
    inv.row f.execution_id e here,
    waiting-settle f.workspace_id f.execution_id now o ts.retries,
    live-settle f.workspace_id f.execution_id now o ts.retries,
  )

  -- The row `e'` that ends the run holds no lease.
  pub released-IsLockstep :
      (inv : IsLockstep ts) (e e' : Execution) (here : ts.executions f.execution_id ≡ some e)
      → e.workspace_id ≡ f.workspace_id
      → e.status ≡ Status.running
      → e'.workspace_id ≡ e.workspace_id
      → is_terminal e'.status ≡ true
      → e'.lease_owner ≡ none
      → e'.lease_expires_at ≡ none
      → e'.attempt ≤ e'.max_attempts
      → (ts' : Tables)
      → ((j : Uuid) → ts'.executions j ≡ (if j == f.execution_id then some e' else ts.executions j))
      → ts'.retries ≡ released
      → IsLockstep ts'
  released-IsLockstep inv e e' here same_ws run kept final owner expiry budget ts' there rs =
      put-IsLockstep f.execution_id e' ts ts' inv there
        (rw rs (ground (arith, released-none inv e here same_ws run)))
        (rw rs (settle-SameElsewhere f.workspace_id f.execution_id now o ts.retries))
        (rw rs (
          uncleared-finish f.workspace_id f.execution_id now o
            (live_of f.workspace_id f.execution_id) ts.retries))

-- `Complete`
pub complete-IsLockstep :
    (f : FencedExecution) (result : Text) (s : Supply) (ts : Tables)
    → IsLockstep ts
    → IsLockstep (complete f result s ts).1
unfolding complete put_execution
complete-IsLockstep f result s ts inv = after_fence f _ _ ts inv λ e here same_ws run.
    released-IsLockstep f s.now RetryOutcome.success ts inv e _ here same_ws run refl refl refl refl
      (inv.row f.execution_id e here).within_budget _ (λ j. refl) refl

-- `FailAndDLQ`
pub fail_and_dlq-IsLockstep :
    (f : FencedExecution) (code : ErrorCode) (detail snapshot : Text) (s : Supply) (ts : Tables)
    → IsLockstep ts
    → IsLockstep (fail_and_dlq f code detail snapshot s ts).1
unfolding fail_and_dlq put_execution
fail_and_dlq-IsLockstep f code detail snapshot s ts inv =
    after_fence f _ _ ts inv λ e here same_ws run.
      released-IsLockstep f s.now RetryOutcome.failed ts inv e _ here same_ws run refl refl refl
        refl (inv.row f.execution_id e here).within_budget _ (λ j. refl) refl
