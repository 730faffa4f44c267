-- ===== src/Execution/Store/Unfenced.antt =====
-- The writes without a fence: RecordDispatch and Cancel of infrastructure/postgres/executions.go, and what the deletion of a
-- task does to the executions by a foreign key of infrastructure/database/database.go.
use austro_os.Common.{
  ℕ, Bool, true, false, ◌&&◌, ◌||◌, ◌==◌, if◌then◌else◌, Option, none, some, List, [], ◌∷◌, ◌++◌,
  any, Result, ok, err,
}
use austro_os.Common.Text.{Text}
use austro_os.Execution.Types.{
  Uuid, Time, Error, not_found, Status, is_pending, is_running, RetryState, RetryOutcome, Execution,
  Retry,
}
use austro_os.Execution.Store.Tables.{
  Tables, DispatchEntry, Tx, commit_or_rollback, opt_text_is, find_execution, put_execution,
  is_live, waiting_of, live_of, finish_where,
}
use austro_os.Execution.Store.Writes.{done}

-- the retry still belongs to the worker and generation
unfoldable pub matches_dispatch : Uuid → Uuid → Text → ℕ → Retry → Bool
matches_dispatch ws retry_id worker generation r =
    (r.id == retry_id)
    && (r.workspace_id == ws)
    && opt_text_is r.worker_id worker
    && (r.generation == generation)

abbrev is_claimed : RetryState → Bool
is_claimed RetryState.claimed = true
is_claimed _ = false

unfoldable pub mark_dispatched : (Retry → Bool) → Time → List Retry → List Retry
mark_dispatched p now [] = []
mark_dispatched p now (r ∷ rs) =
    (if p r && is_claimed r.state
      then record r { state = RetryState.dispatched; dispatched_at = some now }
      else r)
    ∷ mark_dispatched p now rs

-- `RecordDispatch`; it has no error of its own
unfoldable pub record_dispatch : Uuid → Uuid → Text → ℕ → Bool → Tx (Unit {0})
record_dispatch ws retry_id worker generation success s ts =
    let mine = matches_dispatch ws retry_id worker generation in
    let rs = if success then mark_dispatched mine s.now ts.retries else ts.retries in
    let entry : DispatchEntry = record {
      workspace_id = ws;
      retry_id = retry_id;
      worker_id = worker;
      generation = generation;
      published = success;
    } in
    (
      ok tt,
      record ts {
        retries = rs;
        dispatch_log =
            if any (λ r. mine r && is_live r.state) rs
            then ts.dispatch_log ++ entry ∷ []
            else ts.dispatch_log;
      },
    )

-- pending or running
abbrev pub is_active : Execution → Bool
is_active e = is_pending e.status || is_running e.status

unfoldable pub cancel_row :
    Uuid
    → Uuid
    → Time
    → Tables
    → Option Execution
    → Option Execution
    → Result Error (Unit {0} × Tables)
cancel_row ws id now ts (some e) _ =
    let e' = record e {
      status = Status.cancelled;
      last_error_code = none;
      retryable_flag = none;
      error_detail = none;
      lease_owner = none;
      lease_expires_at = none;
      cancelled_at = some now;
    } in
    let rs =
      finish_where (λ r. waiting_of ws id r || live_of ws id r) now RetryOutcome.cancelled
        ts.retries in
    done (put_execution id e' (record ts { retries = rs }))
cancel_row ws id now ts none (some _) = done ts
cancel_row ws id now ts none none = err not_found

-- `Cancel`: a row that is terminal already is left as it is
unfoldable pub cancel : Uuid → Uuid → Tx (Unit {0})
unfolding cancel_row
cancel ws id s ts = commit_or_rollback ts (
    cancel_row ws id s.now ts (find_execution ws id is_active ts)
      (find_execution ws id (λ e. true) ts))

abbrev pub has_task : Uuid → Option Uuid → Bool
has_task task none = false
has_task task (some t) = t == task

abbrev pub unlinked : Execution → Execution
unlinked e = record e { task_id = none }

abbrev pub unlink : Uuid → Uuid → Execution → Execution
unlink ws task e = if (e.workspace_id == ws) && has_task task e.task_id then unlinked e else e

abbrev pub unlink_row : Uuid → Uuid → Option Execution → Option Execution
unlink_row ws task none = none
unlink_row ws task (some e) = some (unlink ws task e)

-- `ON DELETE SET NULL (task_id)`: every execution of the deleted task loses it, whatever its status
unfoldable pub delete_task : Uuid → Uuid → Tables → Tables
delete_task ws task ts = record ts { executions = λ j. unlink_row ws task (ts.executions j) }
