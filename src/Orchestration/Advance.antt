-- ===== src/Orchestration/Advance.antt =====
-- `doAdvance` of internal/orchestration/service.go and what it calls.
use austro_os.Common.{
  ◌+◌, Bool, true, false, if◌then◌else◌, Option, none, some, Result, ok, err, [], ◌∷◌, ◌++◌,
}
use austro_os.Common.Text.{Text, bytes}
use austro_os.Execution.Types.{Uuid, Time}
use austro_os.Orchestration.Pipeline.{
  Error, invalid_stage, approval_required, other_error, joined, Stage, script, review, publish,
  complete, PipelineStatus, active, awaiting_approval, done, failed, Pipeline, is_approved_pipeline,
}
use austro_os.Orchestration.Store.{
  AuditRecord, PublicationPort, Surroundings, World, Io, store_update,
}
use austro_os.Orchestration.Service.{
  Reply, refuse, stage_name, bound_reference, failure_reason, event, send, note,
}

-- what came of a part of the work: the pipeline as it was changed in memory, an error that makes the pipeline fail, or one
-- that leaves it as it is stored
pub data Progress : Type 0 where
  goes_on : Pipeline → Progress
  breaks : Pipeline → Error → Progress
  refuses : Error → Progress

abbrev pub tick : World → World
tick w = record w { tick = w.tick + 1 }

-- a call of a publisher is put on record
abbrev pub hand_out : Pipeline → World → World
hand_out p w = record w { delivered = p ∷ w.delivered; tick = w.tick + 1 }

abbrev pub status_after : Stage → PipelineStatus → PipelineStatus
status_after script status = active
status_after publish status = active
status_after review status = awaiting_approval
status_after complete status = done
status_after stage status = status

module _ (env : Surroundings) where
  -- the script is written from the research
  abbrev pub script_work : Pipeline → Result Error Text → Io Progress
  script_work p (err e) w = (breaks p e, w)
  script_work p (ok text) w =
      let p' = record p { research_reference = bound_reference text } in
      (
        elim (env.script_port w.tick p' p'.research_reference) [
          | err e ↦ breaks p' e
          | ok t ↦ goes_on (record p' { script_reference = bound_reference t })
        ],
        tick w,
      )

  abbrev pub review_work : Pipeline → Result Error Bool → Progress
  review_work p (err e) = breaks p e
  review_work p (ok true) = goes_on (record p { review_reference = bytes "review-ok" })
  review_work p (ok false) =
      breaks p (other_error (bytes "orchestration: review rejected artefact"))

  abbrev pub publish_work : Pipeline → Result Error Text → Progress
  publish_work p (err e) = breaks p e
  publish_work p (ok t) = goes_on p

  -- the deterministic publisher, where no publication port is attached
  abbrev pub publish_alone : Pipeline → Option PublicationPort → Io Progress
  publish_alone p none w =
      (publish_work p (env.publish_port w.tick p p.review_reference), hand_out p w)
  publish_alone p (some port) w = (goes_on p, w)

  -- `stageWork`
  unfoldable pub stage_work : Pipeline → Stage → Io Progress
  stage_work p script w = script_work p (env.research_port w.tick p) (tick w)
  stage_work p review w = (review_work p (env.review_port w.tick p), tick w)
  stage_work p publish w = publish_alone p env.publication w
  stage_work p complete w = (goes_on p, w)
  stage_work p to w = (breaks p invalid_stage, w)

  abbrev pub prepared : Pipeline → Result Error Uuid → Progress
  prepared p (err e) = breaks p e
  prepared p (ok id) = goes_on (record p { publication_id = some id })

  abbrev pub delivered_as : Pipeline → Result Error Text → Progress
  delivered_as p (err e) = breaks p e
  delivered_as p (ok t) = goes_on (record p { published_reference = t })

  -- delivery by the port needs the publication and the approval
  abbrev pub deliver_with : PublicationPort → Pipeline → Option Uuid → Io Progress
  deliver_with port p none w = (refuses approval_required, w)
  deliver_with port p (some id) w =
      if is_approved_pipeline p
      then (delivered_as p (port.deliver w.tick id p.approved_by), hand_out p w)
      else (refuses approval_required, w)

  -- the two calls of the publication port
  unfoldable pub port_work : Option PublicationPort → Pipeline → Stage → Io Progress
  port_work (some port) p review w = (prepared p (port.prepare w.tick p), tick w)
  port_work (some port) p publish w = deliver_with port p p.publication_id w
  port_work port p to w = (goes_on p, w)

  abbrev pub broken : Time → Pipeline → Error → Pipeline
  broken t p e = record p { status = failed; failure_reason = failure_reason e; updated_at = t }

  abbrev pub advance_record : Pipeline → Stage → Text → Text → Text → AuditRecord
  advance_record p to outcome actor_type actor_id = record {
    event_type = bytes "pipeline.advance";
    outcome = outcome;
    workspace_id = p.workspace_id;
    pipeline_id = p.id;
    actor_type = actor_type;
    actor_id = actor_id;
    stage = to;
  }

  abbrev pub join_errors : Error → Result Error Pipeline → Error
  join_errors e (ok p) = e
  join_errors e (err x) = joined e x

  -- the failure of the stage's work is stored
  unfoldable pub stage_failed : Pipeline → Error → Stage → Text → Text → Io Reply
  stage_failed p e to actor_type actor_id w =
      let q = broken (env.clock w.tick) p e in
      let r = store_update env p.workspace_id q w in
      refuse (join_errors e r.0)
        (note env (advance_record q to (bytes "failed") actor_type actor_id) r.1)

  -- the failure of the port is stored; an error of that is dropped
  unfoldable pub port_failed : Pipeline → Error → Io Reply
  port_failed p e w = refuse e (store_update env p.workspace_id (broken (env.clock w.tick) p e) w).1

  abbrev pub advanced : Time → Pipeline → Stage → Pipeline
  advanced t p to = record p {
    stage = to;
    status = status_after to p.status;
    failure_reason = [];
    updated_at = t;
  }

  abbrev pub advance_event : Stage → Text
  advance_event review = bytes "pipeline.review_ready"
  advance_event to = bytes "pipeline." ++ stage_name to

  -- after the update
  unfoldable pub announce : Stage → Text → Text → Result Error Pipeline → Io Reply
  announce to actor_type actor_id (err e) w = refuse e w
  announce to actor_type actor_id (ok p) w =
      send env (event env (advance_event to) p env.trace) p
        (note env (advance_record p to (bytes "success") actor_type actor_id) w)

  unfoldable pub after_port : Stage → Text → Text → Progress × World → Reply × World
  after_port to actor_type actor_id (refuses e, w) = refuse e w
  after_port to actor_type actor_id (breaks p e, w) = port_failed p e w
  after_port to actor_type actor_id (goes_on p, w) =
      let r = store_update env p.workspace_id (advanced (env.clock w.tick) p to) w in
      announce to actor_type actor_id r.0 r.1

  unfoldable pub after_work : Stage → Text → Text → Progress × World → Reply × World
  after_work to actor_type actor_id (refuses e, w) = refuse e w
  after_work to actor_type actor_id (breaks p e, w) = stage_failed p e to actor_type actor_id w
  after_work to actor_type actor_id (goes_on p, w) =
      after_port to actor_type actor_id (port_work env.publication p to w)

  -- `doAdvance`
  unfoldable pub do_advance : Pipeline → Stage → Text → Text → Io Reply
  do_advance p to actor_type actor_id w = after_work to actor_type actor_id (stage_work p to w)
