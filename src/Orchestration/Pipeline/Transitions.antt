-- ===== src/Orchestration/Pipeline/Transitions.antt =====
-- `CanAdvance` against the order of the stages.
use austro_os.Common.{
  ◌≡◌, Bool, true, false, not, ◌&&◌, ◌||◌, Option, none, some, Result, ok, err, arith,
}
use austro_os.Orchestration.Pipeline.{
  Error, Stage, research, script, review, publish, complete, unknown_stage, PipelineStatus, created,
  active, awaiting_approval, approved, can_advance, allowed_step, valid_stage, valid_status,
  next_stage, is_approved,
}
use austro_os.Orchestration.Service.{same_stage}

abbrev pub allows : Option Error → Bool
allows none = true
allows (some e) = false

abbrev pub leads_to : Result Error Stage → Stage → Bool
leads_to (ok s) to = same_stage s to
leads_to (err e) to = false

-- the statuses of a pipeline that is under way
abbrev pub is_open : PipelineStatus → Bool
is_open created = true
is_open active = true
is_open awaiting_approval = true
is_open approved = true
is_open status = false

abbrev pub is_review : Stage → Bool
is_review review = true
is_review stage = false

can_advance_exactly :
    (to from : Stage) (status : PipelineStatus)
    → allows (can_advance to from status) ≡ (
        leads_to (next_stage from) to
        && is_open status
        && (not (is_review from) || is_approved status))
unfolding can_advance allowed_step valid_stage valid_status next_stage
can_advance_exactly to research status = ground arith
can_advance_exactly to script status = ground arith
can_advance_exactly to review status = ground arith
can_advance_exactly to publish status = ground arith
can_advance_exactly to complete status = ground arith
can_advance_exactly to (unknown_stage t) status = ground arith
