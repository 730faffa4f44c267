-- ===== src/Execution/Types.antt =====
-- The types of internal/execution/execution.go, store.go, publisher.go and materializer.go. Ids are
-- numbers with 0 for `uuid.Nil`, times and durations are nanoseconds.
use austro_os.Common.{ℕ, Bool, true, false, Option, List}
use austro_os.Common.Text.{Text}

abbrev pub Uuid : Type 0
Uuid = ℕ

abbrev pub nil_uuid : Uuid
nil_uuid = 0

abbrev pub Time : Type 0
Time = ℕ

abbrev pub second : ℕ
second = 1_000_000_000

pub data Error : Type 0 where
  invalid_input not_found workspace_mismatch bad_status capacity_exceeded : Error
  idempotency_key_conflict stale_lease not_retryable : Error
  -- any error of the database, the transport or the encoder
  internal : Error

pub data Status : Type 0 where
  pending running completed failed cancelled : Status

-- nothing may transition a final status
abbrev pub is_terminal : Status → Bool
is_terminal completed = true
is_terminal failed = true
is_terminal cancelled = true
is_terminal _ = false

abbrev pub is_pending : Status → Bool
is_pending pending = true
is_pending _ = false

abbrev pub is_running : Status → Bool
is_running running = true
is_running _ = false

pub data RetryState : Type 0 where
  pending claimed dispatched processed : RetryState

pub data RetryOutcome : Type 0 where
  success failed cancelled : RetryOutcome

pub data ErrorCode : Type 0 where
  code_none deadline_exceeded provider_timeout rate_limit unavailable canceled : ErrorCode
  code_not_found unknown worker_lease_expired : ErrorCode

-- the numbers of the `iota` block, which the columns store
abbrev pub code_number : ErrorCode → ℕ
code_number code_none = 0
code_number deadline_exceeded = 1
code_number provider_timeout = 2
code_number rate_limit = 3
code_number unavailable = 4
code_number canceled = 5
code_number code_not_found = 6
code_number unknown = 7
code_number worker_lease_expired = 8

-- `ErrorCode.Retryable`
unfoldable pub retryable : ErrorCode → Bool
retryable deadline_exceeded = true
retryable provider_timeout = true
retryable rate_limit = true
retryable unavailable = true
retryable worker_lease_expired = true
retryable _ = false

-- A row of ai_executions; `created_at` is the row's place in the table's order.
pub record Execution : Type 0 where
  pub id : Uuid
  pub workspace_id : Uuid
  pub ai_employee_id : Uuid
  pub task_id : Option Uuid
  pub status : Status
  pub attempt : ℕ
  pub max_attempts : ℕ
  pub idempotency_key : Option Text
  pub request_hash : Text
  pub lease_owner : Option Text
  pub lease_generation : ℕ
  pub lease_expires_at : Option Time
  pub next_retry_at : Option Time
  pub last_error_code : Option ErrorCode
  pub retryable_flag : Option Bool
  pub error_detail : Option Text
  pub result_json : Option Text
  pub completed_at : Option Time
  pub failed_at : Option Time
  pub cancelled_at : Option Time

-- A row of ai_execution_retries.
pub record Retry : Type 0 where
  pub id : Uuid
  pub execution_id : Uuid
  pub workspace_id : Uuid
  pub retry_seq : ℕ
  pub state : RetryState
  pub outcome : Option RetryOutcome
  pub worker_id : Option Text
  pub generation : ℕ
  pub next_retry_at : Option Time
  pub claimed_at : Option Time
  pub dispatched_at : Option Time
  pub completed_at : Option Time

pub record FencedExecution : Type 0 where
  pub execution_id : Uuid
  pub workspace_id : Uuid
  pub lease_owner : Text
  pub lease_generation : ℕ
  pub lease_expires_at : Time
  pub attempt : ℕ
  pub max_attempts : ℕ
  pub retry_id : Uuid
  pub ai_employee_id : Uuid
  pub last_error_code : Option ErrorCode
  pub retryable_flag : Option Bool
  pub next_retry_at : Option Time

pub record MaterializedRequest : Type 0 where
  pub task_title : Text
  pub task_description : Text
  pub ai_employee_name : Text
  pub ai_employee_role : Text
  pub team_name : Text
  pub department_name : Text
  pub capabilities : List Text

pub record PublishMessage : Type 0 where
  pub workspace_id : Uuid
  pub execution_id : Uuid
  pub ai_employee_id : Uuid
  pub task_id : Option Uuid
  pub attempt : ℕ
  pub max_attempts : ℕ
  pub retry_id : Uuid
  pub generation : ℕ
  pub lease_expires_at : Time
  pub lease_owner : Text
