-- ===== src/Orchestration/Commands.antt =====
-- `Advance`, `Approve` and `Retry` of internal/orchestration/service.go, and `AdvanceFromEvent` of handler.go.
use austro_os.Common.{
  ◌+◌, Bool, true, false, not, ◌&&◌, ◌||◌, ◌==◌, if◌then◌else◌, Option, none, some, Result, ok, err,
  [],
}
use austro_os.Common.Text.{Text, bytes, is_empty, trim_space}
use austro_os.Execution.Types.{Uuid, nil_uuid, Time}
use austro_os.Security.Throttle.{allow}
use austro_os.Orchestration.Pipeline.{
  Error, workspace_mismatch, invalid_transition, terminal_state, approval_required,
  unauthorized_actor, consecutive_advance, rate_limited, joined, Stage, research, review,
  PipelineStatus, created, active, awaiting_approval, approved, Pipeline, can_advance, is_complete,
  is_failed, is_approved, is_after, has_approval, is_approved_pipeline, next_stage,
}
use austro_os.Orchestration.Store.{
  AuditRecord, PublicationPort, Surroundings, World, Io, store_update,
}
use austro_os.Orchestration.Service.{
  Reply, refuse, or_refuse, same_stage, is_awaiting, uuid_eq, event, send, note, get_owned,
  publish_current_event,
}
use austro_os.Orchestration.Advance.{do_advance}

module _ (env : Surroundings) where
  -- `throttle.Allow(workspaceID.String())`
  abbrev pub spend : Uuid → World → Bool × World
  spend ws w =
      let r = allow uuid_eq (env.clock w.tick) ws w.throttle in (r.0, record w { throttle = r.1 })

  -- what `Advance` does with the pipeline that it found
  unfoldable pub advance_found : Stage → Stage → Pipeline → Io Reply
  advance_found start to p w =
      if same_stage p.stage start
      then elim (can_advance to p.stage p.status) [
        | some e ↦ refuse e w
        | none ↦ do_advance env p to (bytes "system") [] w
      ]
      else refuse consecutive_advance w

  -- `Advance`
  unfoldable pub advance : Uuid → Uuid → Stage → Stage → Io Reply
  advance ws id start to w =
      if ws == nil_uuid
      then refuse workspace_mismatch w
      else let r = spend ws w in
        if r.0
        then or_refuse (get_owned env ws id r.1) (advance_found start to)
        else refuse rate_limited r.1

  abbrev pub with_approval : Time → Text → Pipeline → Pipeline
  with_approval t actor p = record p {
    status = approved;
    approved_by = actor;
    approved_at = some t;
    failure_reason = [];
    updated_at = t;
  }

  abbrev pub approve_record : Text → Pipeline → AuditRecord
  approve_record actor p = record {
    event_type = bytes "pipeline.approve";
    outcome = bytes "success";
    workspace_id = p.workspace_id;
    pipeline_id = p.id;
    actor_type = bytes "human";
    actor_id = actor;
    stage = review;
  }

  unfoldable pub record_approval : Text → Pipeline → Io Reply
  record_approval actor p w =
      or_refuse (store_update env p.workspace_id (with_approval (env.clock w.tick) actor p) w)
        λ q v.
          send env (event env (bytes "pipeline.review_approved") q env.trace) q
            (note env (approve_record actor q) v)

  -- the approval of the publication comes first
  unfoldable pub approve_publication :
      Text → Pipeline → Option PublicationPort → Option Uuid → Io Reply
  approve_publication actor p none id w = record_approval actor p w
  approve_publication actor p (some port) none w = refuse approval_required w
  approve_publication actor p (some port) (some id) w =
      let v = record w { tick = w.tick + 1 } in
      elim (port.approve w.tick id actor) [ some e ↦ refuse e v | none ↦ record_approval actor p v ]

  unfoldable pub approve_found : Text → Pipeline → Io Reply
  approve_found actor p w =
      if not (same_stage p.stage review)
      then refuse approval_required w
      else if is_approved p.status && is_approved_pipeline p
      then publish_current_event env p w
      else if is_awaiting p.status
      then approve_publication actor p env.publication p.publication_id w
      else refuse approval_required w

  -- `Approve`
  unfoldable pub approve : Uuid → Uuid → Text → Io Reply
  approve ws id actor w =
      let a = trim_space actor in
      if is_empty a
      then refuse unauthorized_actor w
      else or_refuse (get_owned env ws id w) (approve_found a)

  -- the status from which a failed stage is tried again
  abbrev pub status_for_retry : Bool → Stage → PipelineStatus
  status_for_retry approval review = if approval then approved else awaiting_approval
  status_for_retry approval research = created
  status_for_retry approval stage = active

  abbrev pub reset : Time → Pipeline → Pipeline
  reset t p = record p {
    status = status_for_retry (has_approval p) p.stage;
    retry_count = p.retry_count + 1;
    failure_reason = [];
    updated_at = t;
  }

  abbrev pub retry_from : Text → Pipeline → Result Error Stage → Io Reply
  retry_from actor p (err e) w = refuse e w
  retry_from actor p (ok to) w = do_advance env p to (bytes "human") actor w

  unfoldable pub retry_found : Text → Pipeline → Io Reply
  retry_found actor p w =
      if not (is_failed p.status)
      then refuse invalid_transition w
      else if is_complete p.stage
      then refuse terminal_state w
      else or_refuse (store_update env p.workspace_id (reset (env.clock w.tick) p) w)
          λ q v. retry_from actor q (next_stage q.stage) v

  -- `Retry`
  unfoldable pub retry : Uuid → Uuid → Text → Io Reply
  retry ws id actor w =
      let a = trim_space actor in
      if is_empty a
      then refuse unauthorized_actor w
      else let r = spend ws w in
        if r.0 then or_refuse (get_owned env ws id r.1) (retry_found a) else refuse rate_limited r.1

-- `errors.Is(err, ErrConsecutiveAdvance)`
abbrev pub is_consecutive : Error → Bool
is_consecutive consecutive_advance = true
is_consecutive (joined a b) = is_consecutive a || is_consecutive b
is_consecutive e = false

abbrev pub needs_look : Option Error → Bool
needs_look none = false
needs_look (some e) = is_consecutive e

-- A delivery that comes again: the event of the pipeline as it stands now, if that is further on.
unfoldable pub look_again : Surroundings → Stage → Reply → Result Error Pipeline → Io Reply
look_again env current reply (err e) w = ((none, reply.1), w)
look_again env current reply (ok p) w =
    if not (is_failed p.status) && is_after p.stage current
    then publish_current_event env p w
    else (reply, w)

-- the context that `WithTrace` makes
abbrev pub with_trace : Text → Surroundings → Surroundings
with_trace trace env = if is_empty trace then env else record env { trace = trace }

unfoldable pub advance_to : Surroundings → Uuid → Uuid → Stage → Stage → Io Reply
advance_to env ws id current next w =
    let r = advance env ws id current next w in
    if needs_look r.0.1
    then (let q = get_owned env ws id r.1 in look_again env current r.0 q.0 q.1)
    else r

-- `AdvanceFromEvent`
unfoldable pub advance_from_event : Surroundings → Uuid → Uuid → Stage → Text → Io Reply
advance_from_event env ws id current trace w = elim (next_stage current) [
  | err e ↦ refuse e w
  | ok next ↦ advance_to (with_trace trace env) ws id current next w
]
