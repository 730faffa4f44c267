-- ===== src/Orchestration/Pipeline.antt =====
-- internal/orchestration/pipeline.go, with `NextStage` and `EventKind` of handler.go.
pub mod Transitions
use austro_os.Common.{
  ℕ, Bool, true, false, not, ◌&&◌, ◌||◌, ltb, ◌==◌, if◌then◌else◌, Option, none, some, Result, ok,
  err, length, [], ◌∷◌, ◌++◌,
}
use austro_os.Common.Text.{Text, bytes, text_eq, is_empty, trim_space}
use austro_os.Execution.Types.{Uuid, nil_uuid, Time}

-- The sentinels, `errors.Join`, and any other error by its text.
pub data Error : Type 0 where
  invalid_input not_found workspace_mismatch invalid_transition terminal_state invalid_stage : Error
  invalid_status approval_required unauthorized_actor consecutive_advance rate_limited
        concurrent_update :
      Error
  other_error : Text → Error
  joined : Error → Error → Error

-- `err.Error()`
unfoldable pub message : Error → Text
message invalid_input = bytes "orchestration: invalid input"
message not_found = bytes "orchestration: not found"
message workspace_mismatch = bytes "orchestration: workspace mismatch"
message invalid_transition = bytes "orchestration: invalid stage transition"
message terminal_state = bytes "orchestration: pipeline is in a terminal status"
message invalid_stage = bytes "orchestration: invalid stage"
message invalid_status = bytes "orchestration: invalid pipeline status"
message approval_required = bytes "orchestration: publication must be approved before publishing"
message unauthorized_actor = bytes "orchestration: a verified actor is required"
message consecutive_advance = bytes "orchestration: pipeline cannot advance without work"
message rate_limited = bytes "orchestration: pipeline advance rate limit exceeded"
message concurrent_update = bytes "orchestration: pipeline changed concurrently"
message (other_error t) = t
message (joined a b) = message a ++ 10 ∷ message b

-- A stage is a string: one of the five, or another one.
pub data Stage : Type 0 where
  research script review publish complete : Stage
  unknown_stage : Text → Stage

pub data PipelineStatus : Type 0 where
  created active awaiting_approval approved done failed : PipelineStatus
  unknown_status : Text → PipelineStatus

pub record Pipeline : Type 0 where
  pub id : Uuid
  pub workspace_id : Uuid
  pub goal_id : Option Uuid
  pub stage : Stage
  pub status : PipelineStatus
  pub task_id : Option Uuid
  pub publication_id : Option Uuid
  pub research_reference : Text
  pub script_reference : Text
  pub review_reference : Text
  pub published_reference : Text
  pub failure_reason : Text
  pub retry_count : ℕ
  pub idempotency_key : Text
  pub approved_by : Text
  pub approved_at : Option Time
  pub trace_id : Text
  pub created_at : Time
  pub updated_at : Time
  pub version : ℕ

-- `NewWithIdempotency`
unfoldable pub new_with_idempotency :
    Time → Uuid → Uuid → Option Uuid → Text → Text → Result Error Pipeline
new_with_idempotency now id workspace goal trace key =
    if workspace == nil_uuid
    then err workspace_mismatch
    else if ltb 128 (length (trim_space key))
    then err invalid_input
    else ok (record {
      id = id;
      workspace_id = workspace;
      goal_id = goal;
      stage = research;
      status = created;
      task_id = none;
      publication_id = none;
      research_reference = [];
      script_reference = [];
      review_reference = [];
      published_reference = [];
      failure_reason = [];
      retry_count = 0;
      idempotency_key = trim_space key;
      approved_by = [];
      approved_at = none;
      trace_id = trim_space trace;
      created_at = now;
      updated_at = now;
      version = 1;
    })

-- `ValidStage`
unfoldable pub valid_stage : Stage → Bool
valid_stage (unknown_stage t) = false
valid_stage _ = true

-- `ValidStatus`
unfoldable pub valid_status : PipelineStatus → Bool
valid_status (unknown_status t) = false
valid_status _ = true

-- the `switch` of `CanAdvance`, by where the pipeline stands and where it is to go
unfoldable pub allowed_step : Stage → Stage → PipelineStatus → Option Error
allowed_step research script status = none
allowed_step script review status = none
allowed_step review publish approved = none
allowed_step review publish status = some approval_required
allowed_step publish complete status = none
allowed_step research to status = some invalid_transition
allowed_step script to status = some invalid_transition
allowed_step review to status = some invalid_transition
allowed_step publish to status = some invalid_transition
allowed_step from to status = some invalid_stage

abbrev pub is_complete : Stage → Bool
is_complete complete = true
is_complete _ = false

abbrev pub is_done : PipelineStatus → Bool
is_done done = true
is_done _ = false

abbrev pub is_failed : PipelineStatus → Bool
is_failed failed = true
is_failed _ = false

abbrev pub is_approved : PipelineStatus → Bool
is_approved approved = true
is_approved _ = false

-- `CanAdvance`
unfoldable pub can_advance : Stage → Stage → PipelineStatus → Option Error
can_advance to from status =
    if not (valid_stage to) || not (valid_stage from)
    then some invalid_stage
    else if not (valid_status status)
    then some invalid_status
    else if is_done status || is_complete from || is_failed status
    then some terminal_state
    else allowed_step from to status

-- a stage that the map does not hold is looked up as 0
abbrev pub place : Stage → ℕ
place research = 0
place script = 1
place review = 2
place publish = 3
place complete = 4
place (unknown_stage t) = 0

-- `IsAfter`
unfoldable pub is_after : Stage → Stage → Bool
is_after a b = ltb (place b) (place a)

-- the two columns of the approval are set
unfoldable pub has_approval : Pipeline → Bool
has_approval p = not (is_empty p.approved_by) && elim p.approved_at [ none ↦ false | some t ↦ true ]

-- `Approved`, of a pipeline that is there
unfoldable pub is_approved_pipeline : Pipeline → Bool
is_approved_pipeline p = is_approved p.status && has_approval p

-- `NextStage`
unfoldable pub next_stage : Stage → Result Error Stage
next_stage research = ok script
next_stage script = ok review
next_stage review = ok publish
next_stage publish = ok complete
next_stage complete = err terminal_state
next_stage (unknown_stage t) = err invalid_stage

-- `EventKind`
unfoldable pub event_kind : Text → Option Stage
event_kind name =
    let t = trim_space name in
    if text_eq t (bytes "pipeline.research")
    then some research
    else if text_eq t (bytes "pipeline.script")
    then some script
    else if text_eq t (bytes "pipeline.review")
        || text_eq t (bytes "pipeline.review_ready")
        || text_eq t (bytes "pipeline.review_approved")
    then some review
    else if text_eq t (bytes "pipeline.publish")
    then some publish
    else if text_eq t (bytes "pipeline.complete")
    then some complete
    else none
