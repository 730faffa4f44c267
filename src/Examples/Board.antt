-- ===== src/Examples/Board.antt =====
-- A small board for the examples: one employee, one execution, admitted at time 1 and claimed at time 2.
use austro_os.Common.{ℕ, ◌+◌, ◌*◌, ◌≡◌, refl, ◌==◌, if◌then◌else◌, Option, none, some, ok}
use austro_os.Common.Int.{pos}
use austro_os.Common.Text.{bytes, text_eq}
use austro_os.Execution.Types.{Uuid, second, Execution, FencedExecution, Status}
use austro_os.Execution.Store.Tables.{
  Tables, Supply, Employee, find_execution, put_execution, holds_lease, lease_until, insert_retry,
  retry_conflict,
}
use austro_os.Execution.Store.Lease.{
  claim, claim_row, claim_retries, is_claimable, leased, reclaim_stale, reclaim_row, is_stale,
}
use austro_os.Execution.Store.Writes.{
  heartbeat, persist_error, complete, fail_and_dlq, reschedule, fenced_update,
}
use austro_os.Execution.Store.Admission.{
  AdmitRequest, admission_admit, admit_or_replay, admit_new, insert_execution, new_execution,
  first_retry, insert_snapshot, by_key, visible, capacity, active_count,
}
use austro_os.Execution.Store.Tables.{finish_where}
use austro_os.Execution.Store.Reach.{Reach, start, and_then, admits, claims, empty_tables}

abbrev pub staff : Uuid → Option Employee
staff id =
    if id == 7 then some (record { workspace_id = 1; max_concurrent_executions = 2 }) else none

abbrev pub at : ℕ → Supply
at t = record { now = t; new_execution_id = 100 + t; new_retry_id = 200 + t }

abbrev pub request : AdmitRequest
request = record {
  workspace_id = 1;
  ai_employee_id = 7;
  task_id = none;
  max_attempts = pos 3;
  idempotency_key = bytes "k";
  context = none;
}

-- admitted at time 1, as execution 101, and claimed at time 2
abbrev pub one_admitted : Tables
one_admitted = (admission_admit request (bytes "h") (at 1) (empty_tables staff)).1

abbrev pub one_claimed : Tables
one_claimed = (claim 1 101 (bytes "w") (30 * second) (at 2) one_admitted).1

-- and a second execution, 102, admitted at time 2
abbrev pub two_admitted : Tables
two_admitted =
    (admission_admit (record request { idempotency_key = bytes "k2" }) (bytes "h") (at 2)
      one_admitted).1

pub Reach-one_admitted : Reach staff one_admitted
Reach-one_admitted = and_then start (admits request (bytes "h") (at 1))

pub Reach-one_claimed : Reach staff one_claimed
Reach-one_claimed = and_then Reach-one_admitted (claims 1 101 (bytes "w") (30 * second) (at 2))

-- what opens for a run of the store
unfoldable pub store_runs : Unit {0}
unfolding admission_admit admit_or_replay admit_new insert_execution insert_retry retry_conflict
    insert_snapshot by_key visible capacity active_count empty_tables put_execution new_execution
    first_retry claim claim_row claim_retries is_claimable find_execution holds_lease text_eq
    reclaim_stale reclaim_row is_stale complete fail_and_dlq reschedule heartbeat persist_error
    fenced_update finish_where
store_runs = tt

abbrev pub the_row : Execution
the_row = record {
  id = 101;
  workspace_id = 1;
  ai_employee_id = 7;
  task_id = none;
  status = Status.pending;
  attempt = 0;
  max_attempts = 3;
  idempotency_key = some (bytes "k");
  request_hash = bytes "h";
  lease_owner = none;
  lease_generation = 0;
  lease_expires_at = none;
  next_retry_at = none;
  last_error_code = none;
  retryable_flag = none;
  error_detail = none;
  result_json = none;
  completed_at = none;
  failed_at = none;
  cancelled_at = none;
}

pub admitted_row : one_admitted.executions 101 ≡ some the_row
unfolding store_runs
admitted_row = refl

abbrev pub until : ℕ
until = lease_until 2 (30 * second)

abbrev pub the_claim : FencedExecution
the_claim = record {
  execution_id = 101;
  workspace_id = 1;
  lease_owner = bytes "w";
  lease_generation = 1;
  lease_expires_at = until;
  attempt = 1;
  max_attempts = 3;
  retry_id = 201;
  ai_employee_id = 7;
  last_error_code = none;
  retryable_flag = none;
  next_retry_at = none;
}

abbrev pub running_row : Execution
running_row = leased (bytes "w") until the_row

pub claimed_row_runs :
    claim 1 101 (bytes "w") (30 * second) (at 2) one_admitted ≡ (ok the_claim, one_claimed)
unfolding store_runs
claimed_row_runs = refl

pub held_runs : find_execution 1 101 (holds_lease the_claim) one_claimed ≡ some running_row
unfolding store_runs
held_runs = refl

-- the lease expires, and another dispatcher takes over
abbrev pub late : Supply
late = at (until + 1)

abbrev pub one_taken : Tables
one_taken = (reclaim_stale 1 101 (bytes "v") (30 * second) late one_claimed).1

abbrev pub takeover : FencedExecution
takeover = record the_claim {
  lease_owner = bytes "v";
  lease_generation = 2;
  lease_expires_at = lease_until (until + 1) (30 * second);
  retry_id = 0;
}

pub taken_runs :
    reclaim_stale 1 101 (bytes "v") (30 * second) late one_claimed ≡ (ok takeover, one_taken)
unfolding store_runs
taken_runs = refl

pub running_runs : one_claimed.executions 101 ≡ some running_row
unfolding store_runs
running_runs = refl
