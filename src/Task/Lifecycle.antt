-- ===== src/Task/Lifecycle.antt =====
-- internal/task/task.go.
use austro_os.Common.{
  Bool, true, false, not, ◌||◌, ◌==◌, if◌then◌else◌, Option, none, some, Result, ok, err, [],
}
use austro_os.Common.Text.{Text, text_eq, is_empty}
use austro_os.Execution.Types.{Uuid, nil_uuid, Time}

-- the sentinels, and any error of the database
pub data Error : Type 0 where
  invalid_input not_found workspace_mismatch invalid_transition terminal_state : Error
  invalid_priority invalid_status invalid_assignee_type internal : Error

-- A status is a string: one of the eight, or another one.
pub data Status : Type 0 where
  backlog planned in_progress in_review completed cancelled rejected failed : Status
  unknown_status : Text → Status

pub data Priority : Type 0 where
  low normal high urgent : Priority
  unknown_priority : Text → Priority

pub data AssigneeType : Type 0 where
  ai_employee human : AssigneeType
  unknown_assignee : Text → AssigneeType

pub record Task : Type 0 where
  pub id : Uuid
  pub workspace_id : Uuid
  pub title : Text
  pub description : Text
  pub status : Status
  pub priority : Priority
  pub assignee_type : AssigneeType
  pub assignee_id : Option Uuid
  pub deadline : Option Time
  pub created_at : Time
  pub updated_at : Time

-- `ValidStatus`
unfoldable pub valid_status : Status → Bool
valid_status (unknown_status t) = false
valid_status s = true

-- `ValidPriority`
unfoldable pub valid_priority : Priority → Bool
valid_priority (unknown_priority t) = false
valid_priority p = true

-- `ValidAssigneeType`
unfoldable pub valid_assignee_type : AssigneeType → Bool
valid_assignee_type (unknown_assignee t) = false
valid_assignee_type a = true

-- `terminal`
unfoldable pub terminal : Status → Bool
terminal completed = true
terminal cancelled = true
terminal failed = true
terminal rejected = true
terminal s = false

-- `New`; an empty type of assignee is the struct's zero value
unfoldable pub new_task : Time → Uuid → Uuid → Text → Priority → Text → Result Error Task
new_task now id ws title priority description =
    if ws == nil_uuid
    then err workspace_mismatch
    else if is_empty title
    then err invalid_input
    else if not (valid_priority priority)
    then err invalid_priority
    else ok (record {
      id = id;
      workspace_id = ws;
      title = title;
      description = description;
      status = backlog;
      priority = priority;
      assignee_type = unknown_assignee [];
      assignee_id = none;
      deadline = none;
      created_at = now;
      updated_at = now;
    })

abbrev pub same_status : Status → Status → Bool
same_status backlog backlog = true
same_status planned planned = true
same_status in_progress in_progress = true
same_status in_review in_review = true
same_status completed completed = true
same_status cancelled cancelled = true
same_status rejected rejected = true
same_status failed failed = true
same_status (unknown_status s) (unknown_status t) = text_eq s t
same_status s t = false

-- `allowedTransition`
unfoldable pub allowed_transition : Status → Status → Bool
allowed_transition backlog to =
    same_status to planned || same_status to cancelled || same_status to failed
allowed_transition planned to =
    same_status to in_progress || same_status to cancelled || same_status to failed
allowed_transition in_progress to =
    same_status to in_review || same_status to cancelled || same_status to failed
allowed_transition in_review to =
    same_status to completed
    || same_status to rejected
    || same_status to cancelled
    || same_status to failed
allowed_transition from to = false

-- `CanTransition`
unfoldable pub can_transition : Status → Status → Option Error
can_transition from to =
    if not (valid_status from) || not (valid_status to)
    then some invalid_status
    else if terminal from
    then some terminal_state
    else if same_status from to
    then some invalid_transition
    else if not (allowed_transition from to)
    then some invalid_transition
    else none
