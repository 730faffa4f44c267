-- ===== src/Execution/Store/Writes.antt =====
-- The writes under a fence: Heartbeat, PersistError, Complete, FailAndDLQ and Reschedule of
-- infrastructure/postgres/executions.go.
use austro_os.Common.{ℕ, Bool, false, Option, none, some, [], ◌∷◌, ◌++◌, Result, ok, err, ◌>>=◌}
use austro_os.Common.Text.{Text}
use austro_os.Execution.Types.{
  Uuid, Time, Error, stale_lease, Status, RetryState, RetryOutcome, ErrorCode, Execution, Retry,
  FencedExecution,
}
use austro_os.Execution.Store.Tables.{
  Tables, Tx, commit_or_rollback, lease_until, find_execution, put_execution, holds_lease, live_of,
  finish_where, insert_retry,
}
use austro_os.Execution.Store.Lease.{nullable}

-- An update of the row that the fence `f` still owns; no such row is ErrStaleLease.
abbrev pub fenced_row :
    FencedExecution → (Execution → Execution) → Tables → Option Execution → Result Error Tables
fenced_row f g ts none = err stale_lease
fenced_row f g ts (some e) = ok (put_execution f.execution_id (g e) ts)

unfoldable pub fenced_update :
    FencedExecution → (Execution → Execution) → Tables → Result Error Tables
fenced_update f g ts =
    fenced_row f g ts (find_execution f.workspace_id f.execution_id (holds_lease f) ts)

abbrev pub done : Tables → Result Error (Unit {0} × Tables)
done ts = ok (tt, ts)

-- `Heartbeat`
unfoldable pub heartbeat : FencedExecution → ℕ → Tx (Unit {0})
unfolding fenced_update
heartbeat f ttl s ts = commit_or_rollback ts do
  ts' ← fenced_update f (λ e. record e { lease_expires_at = some (lease_until s.now ttl) }) ts
  done ts'

-- `PersistError`
unfoldable pub persist_error : FencedExecution → ErrorCode → Bool → Text → Tx (Unit {0})
unfolding fenced_update
persist_error f code retry detail s ts = commit_or_rollback ts do
  ts' ←
      fenced_update f
        (λ e. record e {
          last_error_code = some code;
          retryable_flag = some retry;
          error_detail = nullable detail;
        })
        ts
  done ts'

-- the outstanding retry of `f` becomes processed
abbrev pub settle : FencedExecution → Time → RetryOutcome → Tables → Tables
settle f now o ts = record ts {
  retries = finish_where (live_of f.workspace_id f.execution_id) now o ts.retries;
}

-- `Complete`
unfoldable pub complete : FencedExecution → Text → Tx (Unit {0})
unfolding fenced_update
complete f result s ts = commit_or_rollback ts do
  ts' ←
      fenced_update f
        (λ e. record e {
          status = Status.completed;
          result_json = some result;
          completed_at = some s.now;
          lease_owner = none;
          lease_expires_at = none;
        })
        ts
  done (settle f s.now RetryOutcome.success ts')

-- `FailAndDLQ`
unfoldable pub fail_and_dlq : FencedExecution → ErrorCode → Text → Text → Tx (Unit {0})
unfolding fenced_update
fail_and_dlq f code detail snapshot s ts = commit_or_rollback ts do
  ts' ←
      fenced_update f
        (λ e. record e {
          status = Status.failed;
          last_error_code = some code;
          retryable_flag = some false;
          error_detail = nullable detail;
          failed_at = some s.now;
          lease_owner = none;
          lease_expires_at = none;
        })
        ts
  let settled = settle f s.now RetryOutcome.failed ts'
  done (record settled {
    dlq =
        settled.dlq
        ++ record {
          workspace_id = f.workspace_id;
          execution_id = f.execution_id;
          attempt = f.attempt;
          error_code = code;
          error_detail = nullable detail;
          contexts_snapshot = nullable snapshot;
        }
          ∷ [];
  })

abbrev pub back_to_pending : Time → Execution → Execution
back_to_pending next e = record e {
  status = Status.pending;
  lease_owner = none;
  lease_expires_at = none;
  next_retry_at = some next;
}

abbrev pub next_retry : FencedExecution → Time → ℕ → Uuid → Retry
next_retry f next seq id = record {
  id = id;
  execution_id = f.execution_id;
  workspace_id = f.workspace_id;
  retry_seq = seq;
  state = RetryState.pending;
  outcome = none;
  worker_id = none;
  generation = f.lease_generation;
  next_retry_at = some next;
  claimed_at = none;
  dispatched_at = none;
  completed_at = none;
}

-- `Reschedule`
unfoldable pub reschedule : FencedExecution → Time → ℕ → Tx (Unit {0})
unfolding fenced_update
reschedule f next seq s ts = commit_or_rollback ts do
  ts' ← fenced_update f (back_to_pending next) ts
  ts'' ←
      insert_retry (next_retry f next seq s.new_retry_id) (settle f s.now RetryOutcome.failed ts')
  done ts''
