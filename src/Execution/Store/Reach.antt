-- ===== src/Execution/Store/Reach.antt =====
-- The tables that any interleaving of the store's transactions, by any number of dispatchers, workers
-- and API processes, can reach.
use austro_os.Common.{ℕ, refl, Bool, Option, none, []}
use austro_os.Common.Text.{Text}
use austro_os.Execution.Types.{Uuid, Time, ErrorCode, FencedExecution}
use austro_os.Execution.Store.Tables.{Tables, Employee, Supply}
use austro_os.Execution.Store.Lease.{claim, reclaim_stale}
use austro_os.Execution.Store.Writes.{heartbeat, persist_error, complete, fail_and_dlq, reschedule}
use austro_os.Execution.Store.Unfenced.{record_dispatch, cancel, delete_task}
use austro_os.Execution.Store.Admission.{AdmitRequest, admission_admit}
use austro_os.Execution.Store.Counts.{waiting, live, uncleared}
use austro_os.Execution.Store.Lockstep.{IsLockstep}
use austro_os.Execution.Store.Preserve.{
  claim-IsLockstep, reclaim_stale-IsLockstep, heartbeat-IsLockstep, persist_error-IsLockstep,
  complete-IsLockstep, fail_and_dlq-IsLockstep,
}
use austro_os.Execution.Store.Requeue.{
  reschedule-IsLockstep, record_dispatch-IsLockstep, cancel-IsLockstep, delete_task-IsLockstep,
}
use austro_os.Execution.Store.Admit.{admission_admit-IsLockstep}

-- no execution yet
unfoldable pub empty_tables : (Uuid → Option Employee) → Tables
empty_tables staff = record {
  order = [];
  executions = λ id. none;
  retries = [];
  dlq = [];
  dispatch_log = [];
  contexts = [];
  employees = staff;
}

-- One transaction, with any arguments at any time; the last is the deletion of a task, by its effect on the executions.
pub data Step (ts : Tables) : Tables → Type 0 where
  admits :
      (req : AdmitRequest) (hash : Text) (s : Supply) → Step ts (admission_admit req hash s ts).1
  claims :
      (ws id : Uuid) (worker : Text) (ttl : ℕ) (s : Supply)
      → Step ts (claim ws id worker ttl s ts).1
  reclaims :
      (ws id : Uuid) (worker : Text) (ttl : ℕ) (s : Supply)
      → Step ts (reclaim_stale ws id worker ttl s ts).1
  renews : (f : FencedExecution) (ttl : ℕ) (s : Supply) → Step ts (heartbeat f ttl s ts).1
  notes :
      (f : FencedExecution) (code : ErrorCode) (retry : Bool) (detail : Text) (s : Supply)
      → Step ts (persist_error f code retry detail s ts).1
  completes :
      (f : FencedExecution) (result : Text) (s : Supply) → Step ts (complete f result s ts).1
  fails :
      (f : FencedExecution) (code : ErrorCode) (detail snapshot : Text) (s : Supply)
      → Step ts (fail_and_dlq f code detail snapshot s ts).1
  reschedules :
      (f : FencedExecution) (next : Time) (seq : ℕ) (s : Supply)
      → Step ts (reschedule f next seq s ts).1
  dispatches :
      (ws retry_id : Uuid) (worker : Text) (generation : ℕ) (success : Bool) (s : Supply)
      → Step ts (record_dispatch ws retry_id worker generation success s ts).1
  cancels : (ws id : Uuid) (s : Supply) → Step ts (cancel ws id s ts).1
  loses_task : (ws task : Uuid) → Step ts (delete_task ws task ts)

pub data Reach (staff : Uuid → Option Employee) : Tables → Type 0 where
  start : Reach staff (empty_tables staff)
  and_then : {ts ts' : Tables} → Reach staff ts → Step ts ts' → Reach staff ts'

empty-IsLockstep : (staff : Uuid → Option Employee) → IsLockstep (empty_tables staff)
unfolding empty_tables waiting live uncleared
empty-IsLockstep staff = record {
  row = λ id e h. cc;
  no_orphan = λ ws id h. (refl, refl);
  cleared = refl;
}

Step-IsLockstep : {ts ts' : Tables} → Step ts ts' → IsLockstep ts → IsLockstep ts'
Step-IsLockstep {ts = ts} (admits req hash s) inv = admission_admit-IsLockstep req hash s ts inv
Step-IsLockstep {ts = ts} (claims ws id w ttl s) inv = claim-IsLockstep ws id w ttl s ts inv
Step-IsLockstep {ts = ts} (reclaims ws id w ttl s) inv =
    reclaim_stale-IsLockstep ws id w ttl s ts inv
Step-IsLockstep {ts = ts} (renews f ttl s) inv = heartbeat-IsLockstep f ttl s ts inv
Step-IsLockstep {ts = ts} (notes f c b d s) inv = persist_error-IsLockstep f c b d s ts inv
Step-IsLockstep {ts = ts} (completes f r s) inv = complete-IsLockstep f r s ts inv
Step-IsLockstep {ts = ts} (fails f c d sn s) inv = fail_and_dlq-IsLockstep f c d sn s ts inv
Step-IsLockstep {ts = ts} (reschedules f n q s) inv = reschedule-IsLockstep f n q s ts inv
Step-IsLockstep {ts = ts} (dispatches ws r w g b s) inv =
    record_dispatch-IsLockstep ws r w g b s ts inv
Step-IsLockstep {ts = ts} (cancels ws id s) inv = cancel-IsLockstep ws id s ts inv
Step-IsLockstep {ts = ts} (loses_task ws task) inv = delete_task-IsLockstep ws task ts inv

-- In every reachable state a pending execution has exactly one retry that waits and none that a worker
-- holds, a running one exactly one that a worker holds and none that waits, and a final one neither; the
-- lease columns are set exactly while it runs; no attempt is beyond the budget; no pending, claimed or
-- dispatched retry is without its execution, and no processed retry names a worker.
pub Reach-IsLockstep :
    (staff : Uuid → Option Employee) (ts : Tables) → Reach staff ts → IsLockstep ts
Reach-IsLockstep staff ts start = empty-IsLockstep staff
Reach-IsLockstep staff ts (and_then r st) = Step-IsLockstep st (Reach-IsLockstep staff _ r)
