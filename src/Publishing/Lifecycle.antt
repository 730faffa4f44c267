-- ===== src/Publishing/Lifecycle.antt =====
-- internal/publish/publish.go.
use austro_os.Common.{
  Bool, true, false, not, ◌&&◌, ◌||◌, ltb, if◌then◌else◌, Option, none, some, Result, ok, err, [],
  length, take,
}
use austro_os.Common.Text.{Text, text_eq, is_empty, bytes, trim_space}
use austro_os.Execution.Types.{Uuid, nil_uuid, Time}
use austro_os.Common.{◌==◌}

-- the sentinels, and any other error by its message
pub data Error : Type 0 where
  invalid_input not_found workspace_mismatch invalid_transition terminal_state invalid_status :
      Error
  approval_required unauthorized_approver unauthorized_rejecter unauthorized_publisher : Error
  rate_limited empty_content : Error
  other_error : Text → Error

-- `Error()`
unfoldable pub message : Error → Text
message invalid_input = bytes "publish: invalid input"
message not_found = bytes "publish: not found"
message workspace_mismatch = bytes "publish: workspace mismatch"
message invalid_transition = bytes "publish: invalid status transition"
message terminal_state = bytes "publish: publication is in a terminal state"
message invalid_status = bytes "publish: invalid status"
message approval_required = bytes "publish: publication must be approved before publishing"
message unauthorized_approver = bytes "publish: only a human may approve"
message unauthorized_rejecter = bytes "publish: only a human may reject"
message unauthorized_publisher = bytes "publish: only a human may publish"
message rate_limited = bytes "publish: publishing rate limit exceeded"
message empty_content = bytes "publish: title or body is empty"
message (other_error t) = t

-- A status is a string: one of the seven, or another one.
pub data Status : Type 0 where
  queued review approved published failed rejected cancelled : Status
  unknown_status : Text → Status

pub record Publication : Type 0 where
  pub id : Uuid
  pub workspace_id : Uuid
  pub goal_id : Option Uuid
  pub task_id : Option Uuid
  pub title : Text
  pub body : Text
  pub platform : Text
  pub status : Status
  pub content_hash : Text
  pub idempotency_key : Text
  pub approved_by : Option Text
  pub approved_at : Option Time
  pub rejected_by : Option Text
  pub rejected_at : Option Time
  pub published_at : Option Time
  pub published_by : Option Text
  pub external_reference : Text
  pub failure_reason : Text
  pub created_at : Time
  pub updated_at : Time

-- what a request says about a new publication
pub record Draft : Type 0 where
  pub goal_id : Option Uuid
  pub task_id : Option Uuid
  pub title : Text
  pub body : Text
  pub platform : Text

abbrev stub_platform : Text
stub_platform = bytes "stub"

-- `New`, for an id, a time and `ContentDigest`
unfoldable pub new_publication :
    (Text → Text → Text) → Uuid → Time → Uuid → Draft → Result Error Publication
new_publication digest id now ws d =
    if ws == nil_uuid
    then err workspace_mismatch
    else if is_empty (trim_space d.title) || is_empty (trim_space d.body)
    then err empty_content
    else ok (record {
      id = id;
      workspace_id = ws;
      goal_id = d.goal_id;
      task_id = d.task_id;
      title = trim_space d.title;
      body = d.body;
      platform =
          trim_space (if is_empty (trim_space d.platform) then stub_platform else d.platform);
      status = queued;
      content_hash = digest d.title d.body;
      idempotency_key = [];
      approved_by = none;
      approved_at = none;
      rejected_by = none;
      rejected_at = none;
      published_at = none;
      published_by = none;
      external_reference = [];
      failure_reason = [];
      created_at = now;
      updated_at = now;
    })

-- `ValidStatus`
unfoldable pub valid_status : Status → Bool
valid_status (unknown_status t) = false
valid_status s = true

-- `terminal`
unfoldable pub terminal : Status → Bool
terminal published = true
terminal failed = true
terminal rejected = true
terminal cancelled = true
terminal s = false

abbrev pub same_status : Status → Status → Bool
same_status queued queued = true
same_status review review = true
same_status approved approved = true
same_status published published = true
same_status failed failed = true
same_status rejected rejected = true
same_status cancelled cancelled = true
same_status (unknown_status s) (unknown_status t) = text_eq s t
same_status s t = false

-- `allowedTransition`
unfoldable pub allowed_transition : Status → Status → Bool
allowed_transition queued to = same_status to review || same_status to cancelled
allowed_transition review to =
    same_status to approved || same_status to rejected || same_status to cancelled
allowed_transition approved to = same_status to published || same_status to failed
allowed_transition failed to = same_status to published
allowed_transition from to = false

-- `CanTransition`; the error nil is `none`
unfoldable pub can_transition : Status → Status → Option Error
can_transition from to =
    if not (valid_status from) || not (valid_status to)
    then some invalid_status
    else if terminal from
    then some terminal_state
    else if same_status from to
    then some invalid_transition
    else if not (allowed_transition from to)
    then some invalid_transition
    else none

abbrev pub is_there {ℓ} : {A : Type ℓ} → Option A → Bool
is_there none = false
is_there (some a) = true

-- the two columns of an approval are set
abbrev pub approval_recorded : Publication → Bool
approval_recorded p = is_there p.approved_by && is_there p.approved_at

-- `HasApproval`
unfoldable pub has_approval : Publication → Bool
has_approval p = same_status p.status approved && approval_recorded p

-- `failureReason`, of an error that is there
unfoldable pub failure_reason : Error → Text
failure_reason e =
    let t = trim_space (message e) in
    if is_empty t then bytes "delivery_failed" else if ltb 512 (length t) then take 512 t else t
