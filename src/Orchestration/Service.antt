-- ===== src/Orchestration/Service.antt =====
-- internal/orchestration/service.go and `AdvanceFromEvent` of handler.go.
use austro_os.Common.{
  ◌+◌, Bool, true, false, ◌&&◌, ◌||◌, ltb, ◌==◌, if◌then◌else◌, Option, none, some, Result, ok, err,
  ◌∷◌, ◌++◌, length, take,
}
use austro_os.Common.Text.{Text, bytes, text_eq, is_empty, trim_space}
use austro_os.Execution.Types.{Uuid, nil_uuid}
use austro_os.Orchestration.Pipeline.{
  Error, invalid_input, not_found, workspace_mismatch, message, Stage, research, script, review,
  publish, complete, unknown_stage, PipelineStatus, created, awaiting_approval, Pipeline,
  new_with_idempotency, is_approved,
}
use austro_os.Orchestration.Store.{
  Event, AuditRecord, Surroundings, World, Io, store_get, store_get_by_key, store_create,
}

-- a pointer that may be nil, and an error that may be nil
abbrev pub Reply : Type 0
Reply = Option Pipeline × Option Error

abbrev pub refuse : Error → Io Reply
refuse e w = ((none, some e), w)

-- `if err != nil { return nil, err }`
abbrev pub or_refuse : {A : Type 0} → Result Error A × World → (A → Io Reply) → Reply × World
or_refuse (ok a, w) k = k a w
or_refuse (err e, w) k = refuse e w

abbrev pub same_stage : Stage → Stage → Bool
same_stage research research = true
same_stage script script = true
same_stage review review = true
same_stage publish publish = true
same_stage complete complete = true
same_stage (unknown_stage s) (unknown_stage t) = text_eq s t
same_stage _ _ = false

abbrev pub is_created : PipelineStatus → Bool
is_created created = true
is_created _ = false

abbrev pub is_awaiting : PipelineStatus → Bool
is_awaiting awaiting_approval = true
is_awaiting _ = false

abbrev pub stage_name : Stage → Text
stage_name research = bytes "research"
stage_name script = bytes "script"
stage_name review = bytes "review"
stage_name publish = bytes "publish"
stage_name complete = bytes "complete"
stage_name (unknown_stage t) = t

-- `boundReference`
unfoldable pub bound_reference : Text → Text
bound_reference t = let r = trim_space t in if ltb 512 (length r) then take 512 r else r

-- `failureReason`, of an error that is there
unfoldable pub failure_reason : Error → Text
failure_reason e =
    let t = trim_space (message e) in
    if ltb 512 (length t) then take 512 t else if is_empty t then bytes "stage_failed" else t

abbrev pub uuid_eq : Uuid → Uuid → Bool
uuid_eq a b = a == b

module _ (env : Surroundings) where
  abbrev pub event : Text → Pipeline → Text → Event
  event type p trace = record {
    event_type = type;
    pipeline_id = p.id;
    workspace_id = p.workspace_id;
    stage = p.stage;
    trace_id = trace;
  }

  -- `PublishPipeline`: the pipeline is returned together with the sink's error
  unfoldable pub send : Event → Pipeline → Io Reply
  send ev p w =
      ((some p, env.sends w.tick ev), record w { events = ev ∷ w.events; tick = w.tick + 1 })

  -- `audit.Record`
  abbrev pub note : AuditRecord → World → World
  note a w = record w { audit = a ∷ w.audit }

  abbrev actor_type : Text → Text
  actor_type fallback = if is_empty env.actor then fallback else bytes "human"

  -- the name of the event of a pipeline as it stands
  abbrev event_name : Stage → PipelineStatus → Text
  event_name review status =
      if is_approved status then bytes "pipeline.review_approved" else bytes "pipeline.review_ready"
  event_name stage status = bytes "pipeline." ++ stage_name stage

  abbrev pub current_event : Pipeline → Event
  current_event p = event (event_name p.stage p.status) p env.trace

  -- `publishCurrentEvent`
  unfoldable pub publish_current_event : Pipeline → Io Reply
  publish_current_event p = send (current_event p) p

  -- `getOwned`
  unfoldable pub get_owned : Uuid → Uuid → Io (Result Error Pipeline)
  get_owned ws id w =
      if (ws == nil_uuid) || (id == nil_uuid)
      then (err invalid_input, w)
      else let r = store_get env ws id w in
        (
          elim r.0 [
            | err e ↦ err e
            | ok p ↦ if p.workspace_id == ws then ok p else err workspace_mismatch
          ],
          r.1,
        )

  -- a request that was made before: the first event again, if nothing has happened since
  unfoldable pub replay : Pipeline → Io Reply
  replay p w =
      if same_stage p.stage research && is_created p.status
      then send (event (bytes "pipeline.research") p p.trace_id) p w
      else ((some p, none), w)

  abbrev pub created_record : Uuid → Pipeline → AuditRecord
  created_record ws p = record {
    event_type = bytes "pipeline.create";
    outcome = bytes "success";
    workspace_id = ws;
    pipeline_id = p.id;
    actor_type = actor_type (bytes "system");
    actor_id = env.actor;
    stage = p.stage;
  }

  -- what follows the INSERT
  unfoldable pub after_create : Uuid → Text → Text → Result Error Pipeline → Io Reply
  after_create ws trace key (ok p) w =
      send (event (bytes "pipeline.research") p trace) p (note (created_record ws p) w)
  after_create ws trace key (err e) w =
      if is_empty key
      then refuse e w
      else let r = store_get_by_key env ws key w in
        elim r.0 [ ok p ↦ replay p r.1 | err x ↦ refuse e r.1 ]

  unfoldable pub create_new : Uuid → Option Uuid → Text → Text → Io Reply
  create_new ws goal trace key w =
      elim (new_with_idempotency (env.clock w.tick) (env.new_id w.tick) ws goal trace key) [
        | err e ↦ refuse e w
        | ok p ↦ let r = store_create env p w in after_create ws trace key r.0 r.1
      ]

  abbrev pub is_not_found : Error → Bool
  is_not_found not_found = true
  is_not_found _ = false

  unfoldable pub create_keyed : Uuid → Option Uuid → Text → Text → Io Reply
  create_keyed ws goal trace key w =
      let r = store_get_by_key env ws key w in
      elim r.0 [
        | ok p ↦ replay p r.1
        | err e ↦ if is_not_found e then create_new ws goal trace key r.1 else refuse e r.1
      ]

  -- `CreateWithIdempotency`
  unfoldable pub create_with_idempotency : Uuid → Option Uuid → Text → Text → Io Reply
  create_with_idempotency ws goal trace key w =
      let k = trim_space key in
      if ws == nil_uuid
      then refuse workspace_mismatch w
      else if ltb 128 (length k)
      then refuse invalid_input w
      else if is_empty k
      then create_new ws goal trace k w
      else create_keyed ws goal trace k w
