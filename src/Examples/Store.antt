-- ===== src/Examples/Store.antt =====
-- The store's theorems on the board.
use austro_os.Common.{◌*◌, ◌≤◌, ◌≡◌, ◌⊎◌, inl, inr, ap, refl, false, none, some, [], ok, err, arith}
use austro_os.Common.Text.{bytes, text_eq}
use austro_os.Execution.Types.{
  second, stale_lease, not_found, Execution, FencedExecution, Status, MaterializedRequest, unknown,
}
use austro_os.Execution.Store.Tables.{Tables, find_execution, holds_lease, opt_text_is}
use austro_os.Execution.Store.Lease.{claim}
use austro_os.Execution.Store.Unfenced.{delete_task}
use austro_os.Execution.Store.Writes.{heartbeat, persist_error, complete, fail_and_dlq, reschedule}
use austro_os.Execution.Store.Admission.{admission_admit, active_count}
use austro_os.Execution.Store.Lockstep.{IsLockstep}
use austro_os.Execution.Store.Reach.{claims, loses_task, empty_tables, Reach-IsLockstep}
use austro_os.Execution.Store.Lifecycle.{Moves, Step-Moves}
use austro_os.Execution.Store.Fencing.{
  none_left, one_more, Mismatch, final_row_frozen, stale_fence_writes_nothing,
  takeover_fences_old_owner,
}
use austro_os.Execution.Store.Capacity.{active-le-capacity}
use austro_os.Execution.Store.Claiming.{
  claim_due, claim_once, reschedule_succeeds, creates, admission_with_context_creates_nothing,
}
use austro_os.Examples.Board.{
  staff, at, request, one_admitted, one_claimed, Reach-one_admitted, Reach-one_claimed, store_runs,
  the_row, admitted_row, the_claim, running_row, claimed_row_runs, held_runs, late, one_taken,
  takeover, taken_runs, running_runs,
}

Reach-IsLockstep_example : IsLockstep one_claimed
Reach-IsLockstep_example = Reach-IsLockstep staff one_claimed Reach-one_claimed

Step-Moves_example : Moves one_admitted one_claimed
Step-Moves_example = Step-Moves (claims 1 101 (bytes "w") (30 * second) (at 2))

active-le-capacity_example : active_count 1 7 one_claimed ≤ 2
unfolding store_runs
active-le-capacity_example =
    active-le-capacity staff one_claimed 7
      (record { workspace_id = 1; max_concurrent_executions = 2 }) Reach-one_claimed refl

claim_due_example :
    (f : FencedExecution) × (ts' : Tables) × (claim 1 101
        (bytes "w")
        (30 * second)
        (at 2)
        one_admitted
      ≡ (ok f, ts'))
    × (f.attempt ≡ 1)
    × (f.lease_generation ≡ 1)
    × (f.lease_owner ≡ bytes "w")
    × (find_execution 1 101 (holds_lease f) ts' ≡ some running_row)
claim_due_example =
    claim_due staff one_admitted 1 101 (bytes "w") (30 * second) (at 2) the_row Reach-one_admitted
      admitted_row refl refl (omega arith) refl

claim_once_example :
    claim 1 101 (bytes "v") (30 * second) (at 3) one_claimed ≡ (err not_found, one_claimed)
claim_once_example =
    claim_once one_admitted one_claimed 1 101 (bytes "w") (bytes "v") (30 * second) (30 * second)
      (at 2) (at 3) the_claim claimed_row_runs

takeover_fences_old_owner_example :
    (complete the_claim (bytes "{}") late one_taken ≡ (err stale_lease, one_taken))
    × (fail_and_dlq the_claim unknown (bytes "d") [] late one_taken ≡ (err stale_lease, one_taken))
    × (reschedule the_claim 9 2 late one_taken ≡ (err stale_lease, one_taken))
    × (heartbeat the_claim (30 * second) late one_taken ≡ (err stale_lease, one_taken))
takeover_fences_old_owner_example =
    takeover_fences_old_owner 1 101 (bytes "v") (30 * second) late late one_claimed one_taken
      one_taken takeover the_claim running_row (bytes "{}") (bytes "d") [] unknown 9 2 running_runs
      refl (omega arith) taken_runs none_left

abbrev stale_claim : FencedExecution
stale_claim = record the_claim { lease_owner = bytes "x" }

other_owner : Mismatch stale_claim running_row
unfolding text_eq
other_owner = inl (inr (λ e. cc (ap (λ o. opt_text_is o (bytes "w")) e)))

stale_fence_writes_nothing_example :
    (heartbeat stale_claim second late one_claimed ≡ (err stale_lease, one_claimed))
    × (persist_error stale_claim unknown false (bytes "d") late one_claimed
        ≡ (err stale_lease, one_claimed))
    × (complete stale_claim (bytes "{}") late one_claimed ≡ (err stale_lease, one_claimed))
    × (fail_and_dlq stale_claim unknown (bytes "d") [] late one_claimed
        ≡ (err stale_lease, one_claimed))
    × (reschedule stale_claim 9 2 late one_claimed ≡ (err stale_lease, one_claimed))
stale_fence_writes_nothing_example =
    stale_fence_writes_nothing stale_claim late one_claimed running_row second unknown false
      (bytes "d") (bytes "{}") [] 9 2 running_runs other_owner

-- the run completes, and a claim comes after
abbrev one_completed : Tables
one_completed = (complete the_claim (bytes "{}") (at 3) one_claimed).1

abbrev completed_row : Execution
completed_row = record running_row {
  status = Status.completed;
  result_json = some (bytes "{}");
  completed_at = some 3;
  lease_owner = none;
  lease_expires_at = none;
}

completed_runs : one_completed.executions 101 ≡ some completed_row
unfolding store_runs
completed_runs = refl

-- then the task 9 is deleted
abbrev afterwards : Tables
afterwards = delete_task 1 9 (claim 1 101 (bytes "v") second (at 4) one_completed).1

final_row_frozen_example :
    (afterwards.executions 101 ≡ some completed_row)
    ⊎ (afterwards.executions 101 ≡ some (record completed_row { task_id = none }))
final_row_frozen_example =
    final_row_frozen one_completed afterwards 101 completed_row
      (one_more (one_more none_left (claims 1 101 (bytes "v") second (at 4))) (loses_task 1 9))
      completed_runs refl

reschedule_succeeds_example : (reschedule the_claim 9 2 (at 3) one_claimed).0 ≡ ok tt
unfolding store_runs
reschedule_succeeds_example =
    reschedule_succeeds staff one_claimed the_claim 9 2 (at 3) running_row Reach-one_claimed
      held_runs refl (omega arith)

abbrev snapshot : MaterializedRequest
snapshot = record {
  task_title = bytes "t";
  task_description = [];
  ai_employee_name = bytes "n";
  ai_employee_role = bytes "r";
  team_name = [];
  department_name = [];
  capabilities = [];
}

admission_with_context_creates_nothing_example :
    ((admission_admit
        (record request { context = some snapshot })
        (bytes "h")
        (at 1)
        (empty_tables staff)).1
      ≡ empty_tables staff)
    × (creates
          (admission_admit
            (record request { context = some snapshot })
            (bytes "h")
            (at 1)
            (empty_tables staff)).0
        ≡ false)
admission_with_context_creates_nothing_example =
    admission_with_context_creates_nothing (record request { context = some snapshot }) (bytes "h")
      (at 1) (empty_tables staff) snapshot refl
