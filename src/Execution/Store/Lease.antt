-- ===== src/Execution/Store/Lease.antt =====
-- How an execution gets a lease: Claim and ReclaimStale of infrastructure/postgres/executions.go.
use austro_os.Common.{
  ℕ, ◌+◌, Bool, ◌&&◌, ltb, if◌then◌else◌, Option, none, some, List, [], ◌∷◌, find, Result, ok, err,
}
use austro_os.Common.Text.{Text, is_empty}
use austro_os.Execution.Types.{
  Uuid, nil_uuid, Time, Error, not_found, Status, is_pending, is_running, RetryState, Execution,
  Retry, FencedExecution,
}
use austro_os.Execution.Store.Tables.{
  Tables, Tx, commit_or_rollback, lease_until, null_or_past, before_now, find_execution,
  put_execution, waiting_of,
}

-- `nullableString`
abbrev pub nullable : Text → Option Text
nullable t = if is_empty t then none else some t

-- pending, with attempts left, and due
unfoldable pub is_claimable : Time → Execution → Bool
is_claimable now e =
    is_pending e.status && ltb e.attempt e.max_attempts && null_or_past e.next_retry_at now

-- the `SET` of exec_claim
abbrev pub leased : Text → Time → Execution → Execution
leased worker until e = record e {
  status = Status.running;
  attempt = e.attempt + 1;
  lease_owner = some worker;
  lease_generation = e.lease_generation + 1;
  lease_expires_at = some until;
}

-- retry_claim
unfoldable pub claim_retries : Uuid → Uuid → Text → ℕ → Time → List Retry → List Retry
claim_retries ws id worker generation now [] = []
claim_retries ws id worker generation now (r ∷ rs) =
    (if waiting_of ws id r
      then record r {
        state = RetryState.claimed;
        worker_id = some worker;
        generation = generation;
        claimed_at = some now;
      }
      else r)
    ∷ claim_retries ws id worker generation now rs

-- the row that the claim returns
abbrev pub fenced : Uuid → Text → Time → Uuid → Execution → FencedExecution
fenced id worker until retry_id e = record {
  execution_id = id;
  workspace_id = e.workspace_id;
  lease_owner = worker;
  lease_generation = e.lease_generation;
  lease_expires_at = until;
  attempt = e.attempt;
  max_attempts = e.max_attempts;
  retry_id = retry_id;
  ai_employee_id = e.ai_employee_id;
  last_error_code = none;
  retryable_flag = none;
  next_retry_at = none;
}

-- The join of the two updates is empty if no retry was pending: nothing is committed then.
unfoldable pub claim_row :
    Uuid
    → Uuid
    → Text
    → Time
    → Time
    → Tables
    → Option Execution
    → Option Retry
    → Result Error (FencedExecution × Tables)
claim_row ws id worker until now ts (some e) (some r) =
    let e' = leased worker until e in
    ok (
      fenced id worker until r.id e',
      put_execution id e' (record ts {
        retries = claim_retries ws id worker (e.lease_generation + 1) now ts.retries;
      }),
    )
claim_row ws id worker until now ts _ _ = err not_found

-- `Claim`
unfoldable pub claim : Uuid → Uuid → Text → ℕ → Tx FencedExecution
unfolding claim_row
claim ws id worker ttl s ts = commit_or_rollback ts (
    claim_row ws id worker (lease_until s.now ttl) s.now ts
      (find_execution ws id (is_claimable s.now) ts) (find (waiting_of ws id) ts.retries))

-- running under a lease that expired
unfoldable pub is_stale : Time → Execution → Bool
is_stale now e = is_running e.status && before_now e.lease_expires_at now

-- a NULL is scanned into a `uuid.UUID` as `uuid.Nil`
abbrev retry_id_or_nil : Option Retry → Uuid
retry_id_or_nil none = nil_uuid
retry_id_or_nil (some r) = r.id

unfoldable pub reclaim_row :
    Uuid → Uuid → Text → Time → Tables → Option Execution → Result Error (FencedExecution × Tables)
reclaim_row ws id worker until ts none = err not_found
reclaim_row ws id worker until ts (some e) =
    let e' = record e {
      lease_owner = some worker;
      lease_generation = e.lease_generation + 1;
      lease_expires_at = some until;
    } in
    let f = fenced id worker until (retry_id_or_nil (find (waiting_of ws id) ts.retries)) e' in
    ok (
      record f {
        last_error_code = e.last_error_code;
        retryable_flag = e.retryable_flag;
        next_retry_at = e.next_retry_at;
      },
      put_execution id e' ts,
    )

-- `ReclaimStale`
unfoldable pub reclaim_stale : Uuid → Uuid → Text → ℕ → Tx FencedExecution
unfolding reclaim_row
reclaim_stale ws id worker ttl s ts =
    commit_or_rollback ts (
      reclaim_row ws id worker (lease_until s.now ttl) ts
        (find_execution ws id (is_stale s.now) ts))
