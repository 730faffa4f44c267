-- ===== src/Execution/Store/Admission.antt =====
-- `AdmissionAdmit` and the reads of infrastructure/postgres/executions.go.
use austro_os.Common.{
  ℕ, zero, suc, Bool, true, false, ◌&&◌, ◌||◌, not, ltb, leb, ◌==◌, if◌then◌else◌, Option, none,
  some, List, [], ◌∷◌, ◌++◌, find, take, length, Result, ok, err, ◌>>=◌, ◌>>◌, reject_if,
}
use austro_os.Common.Int.{ℤ, pos, negsuc}
use austro_os.Common.Text.{Text, is_empty}
use austro_os.Execution.Types.{
  Uuid, Time, Error, not_found, capacity_exceeded, idempotency_key_conflict, internal, Status,
  is_pending, is_running, RetryState, Execution, Retry, MaterializedRequest,
}
use austro_os.Execution.Store.Tables.{
  Tables, Supply, Tx, ContextRow, Employee, commit_or_rollback, opt_text_is, null_or_past,
  before_now, find_execution, put_execution, insert_retry, insert_context,
}
use austro_os.Execution.Store.Lease.{nullable}
use austro_os.Execution.Store.Unfenced.{is_active}

pub record AdmitRequest : Type 0 where
  pub workspace_id : Uuid
  pub ai_employee_id : Uuid
  pub task_id : Option Uuid
  pub max_attempts : ℤ
  pub idempotency_key : Text
  pub context : Option MaterializedRequest

pub record AdmitResult : Type 0 where
  pub execution : Execution
  pub created : Bool
  pub completed : Bool

-- the rows of the workspace, which row-level security lets through, in the order of creation
unfoldable pub visible :
    Uuid → (Execution → Bool) → (Uuid → Option Execution) → List Uuid → List Execution
visible ws p rows [] = []
visible ws p rows (id ∷ ids) =
    let rest = visible ws p rows ids in
    elim (rows id) [ none ↦ rest | some e ↦ if e.workspace_id == ws && p e then e ∷ rest else rest ]

abbrev first_of_list : List Execution → Option Execution
first_of_list [] = none
first_of_list (e ∷ es) = some e

-- `WHERE e.workspace_id = $1 AND e.idempotency_key = $2`; the unique index leaves one row at most
unfoldable pub by_key : Uuid → Text → Tables → Option Execution
by_key ws key ts =
    first_of_list (visible ws (λ e. opt_text_is e.idempotency_key key) ts.executions ts.order)

abbrev pub of_employee : Uuid → Execution → Bool
of_employee emp e = (e.ai_employee_id == emp) && is_active e

-- `SELECT count(*) … WHERE ai_employee_id = $1 AND status IN ('pending', 'running')`
unfoldable pub active_count : Uuid → Uuid → Tables → ℕ
active_count ws emp ts = length (visible ws (of_employee emp) ts.executions ts.order)

-- `SELECT max_concurrent_executions FROM ai_employees WHERE id = $1`, under row-level security
abbrev visible_capacity : Uuid → Option Employee → Result Error ℕ
visible_capacity ws none = err not_found
visible_capacity ws (some e) =
    if e.workspace_id == ws then ok e.max_concurrent_executions else err not_found

-- `Capacity`
unfoldable pub capacity : Uuid → Uuid → Tables → Result Error ℕ
capacity ws emp ts = visible_capacity ws (ts.employees emp)

-- CHECK (max_attempts > 0)
abbrev pub checked_attempts : ℤ → Result Error ℕ
checked_attempts (pos zero) = err internal
checked_attempts (pos (suc n)) = ok (suc n)
checked_attempts (negsuc n) = err internal

abbrev pub is_some : {A : Type 0} → Option A → Bool
is_some none = false
is_some (some a) = true

unfoldable pub new_execution : Uuid → AdmitRequest → Text → ℕ → Execution
new_execution id req hash attempts = record {
  id = id;
  workspace_id = req.workspace_id;
  ai_employee_id = req.ai_employee_id;
  task_id = req.task_id;
  status = Status.pending;
  attempt = 0;
  max_attempts = attempts;
  idempotency_key = nullable req.idempotency_key;
  request_hash = hash;
  lease_owner = none;
  lease_generation = 0;
  lease_expires_at = none;
  next_retry_at = none;
  last_error_code = none;
  retryable_flag = none;
  error_detail = none;
  result_json = none;
  completed_at = none;
  failed_at = none;
  cancelled_at = none;
}

-- The primary key and the unique index over (workspace_id, idempotency_key): a violation is
-- ErrIdempotencyKey.
unfoldable pub insert_execution : Uuid → Execution → Text → Tables → Result Error Tables
insert_execution id e key ts =
    if is_some (ts.executions id) || (not (is_empty key) && is_some (by_key e.workspace_id key ts))
    then err idempotency_key_conflict
    else ok (put_execution id e (record ts { order = ts.order ++ id ∷ [] }))

unfoldable pub first_retry : Uuid → Uuid → Uuid → Retry
first_retry retry_id id ws = record {
  id = retry_id;
  execution_id = id;
  workspace_id = ws;
  retry_seq = 1;
  state = RetryState.pending;
  outcome = none;
  worker_id = none;
  generation = 0;
  next_retry_at = none;
  claimed_at = none;
  dispatched_at = none;
  completed_at = none;
}

-- The columns of the INSERT are execution_id and those of the request.
unfoldable pub insert_snapshot : Uuid → Option MaterializedRequest → Tables → Result Error Tables
insert_snapshot id none ts = ok ts
insert_snapshot id (some m) ts =
    insert_context (record { workspace_id = none; execution_id = id; request = m }) ts

-- capacity check and inserts
unfoldable pub admit_new :
    AdmitRequest → Text → Supply → Tables → Result Error (AdmitResult × Tables)
unfolding insert_snapshot
admit_new req hash s ts = do
  cap ← capacity req.workspace_id req.ai_employee_id ts
  reject_if (leb cap (active_count req.workspace_id req.ai_employee_id ts)) capacity_exceeded
  attempts ← checked_attempts req.max_attempts
  let e = new_execution s.new_execution_id req hash attempts
  ts₁ ← insert_execution s.new_execution_id e req.idempotency_key ts
  ts₂ ← insert_retry (first_retry s.new_retry_id s.new_execution_id req.workspace_id) ts₁
  ts₃ ← insert_snapshot s.new_execution_id req.context ts₂
  ok (record { execution = e; created = true; completed = false }, ts₃)

abbrev pub is_completed : Status → Bool
is_completed Status.completed = true
is_completed _ = false

unfoldable pub admit_or_replay :
    AdmitRequest → Text → Supply → Tables → Option Execution → Result Error (AdmitResult × Tables)
unfolding admit_new
admit_or_replay req hash s ts none = admit_new req hash s ts
admit_or_replay req hash s ts (some e) =
    ok (record { execution = e; created = false; completed = is_completed e.status }, ts)

-- `AdmissionAdmit`
unfoldable pub admission_admit : AdmitRequest → Text → Tx AdmitResult
unfolding admit_or_replay
admission_admit req hash s ts = commit_or_rollback ts (
    admit_or_replay req hash s ts (
      if is_empty req.idempotency_key
      then none
      else by_key req.workspace_id req.idempotency_key ts))

-- the rows' ids
abbrev ids_of : List Execution → List Uuid
ids_of [] = []
ids_of (e ∷ es) = e.id ∷ ids_of es

abbrev is_due : Time → Execution → Bool
is_due now e = is_pending e.status && null_or_past e.next_retry_at now

-- `GetDue`
unfoldable pub get_due : Uuid → ℕ → Time → Tables → List Uuid
get_due ws limit now ts = take limit (ids_of (visible ws (is_due now) ts.executions ts.order))

-- `ORDER BY lease_expires_at ASC`: a stable insertion sort
abbrev expiry : Option Time → Time
expiry none = 0
expiry (some t) = t

unfoldable pub insert_by_expiry : Execution → List Execution → List Execution
insert_by_expiry e [] = e ∷ []
insert_by_expiry e (f ∷ fs) =
    let rest = insert_by_expiry e fs in
    if ltb (expiry f.lease_expires_at) (expiry e.lease_expires_at) then f ∷ rest else e ∷ f ∷ fs

unfoldable pub sort_by_expiry : List Execution → List Execution
sort_by_expiry [] = []
sort_by_expiry (e ∷ es) = insert_by_expiry e (sort_by_expiry es)

abbrev is_expired : Time → Execution → Bool
is_expired now e = is_running e.status && before_now e.lease_expires_at now

-- `GetStale`
unfoldable pub get_stale : Uuid → ℕ → Time → Tables → List Uuid
unfolding sort_by_expiry insert_by_expiry
get_stale ws limit now ts =
    take limit (ids_of (sort_by_expiry (visible ws (is_expired now) ts.executions ts.order)))

abbrev or_not_found : {A : Type 0} → Option A → Result Error A
or_not_found none = err not_found
or_not_found (some a) = ok a

-- `Get` and `GetByIdempotencyKey`
unfoldable pub get : Uuid → Uuid → Tables → Result Error Execution
get ws id ts = or_not_found (find_execution ws id (λ e. true) ts)

unfoldable pub get_by_idempotency_key : Uuid → Text → Tables → Result Error Execution
get_by_idempotency_key ws key ts = or_not_found (by_key ws key ts)

abbrev in_workspace : Uuid → Option Uuid → Bool
in_workspace ws none = false
in_workspace ws (some w) = w == ws

abbrev request_of : ContextRow → MaterializedRequest
request_of c = c.request

-- `Materialize`
unfoldable pub materialize : Uuid → Uuid → Tables → Result Error MaterializedRequest
materialize ws id ts = do
  c ←
      or_not_found
        (find (λ c. (c.execution_id == id) && in_workspace ws c.workspace_id) ts.contexts)
  ok (request_of c)
