-- ===== src/Orchestration/Approval/Advances.antt =====
-- The stages' work keeps the approval, and delivers approved pipelines only.
use austro_os.Common.{
  ℕ, ◌≡◌, refl, Bool, true, false, not, ◌&&◌, ◌||◌, if◌then◌else◌, Option, none, some, Result, ok,
  err, arith,
}
use austro_os.Common.Text.{Text}
use austro_os.Execution.Types.{Uuid, Time}
use austro_os.Orchestration.Pipeline.{
  Error, approval_required, Stage, research, script, review, publish, complete, unknown_stage,
  PipelineStatus, failed, Pipeline, has_approval, is_approved_pipeline, can_advance, allowed_step,
  valid_stage, valid_status,
}
use austro_os.Orchestration.Store.{Rows, PublicationPort, Surroundings, World, store_update}
use austro_os.Orchestration.Service.{send, bound_reference}
use austro_os.Orchestration.Advance.{
  Progress, goes_on, breaks, refuses, hand_out, tick, script_work, review_work, publish_work,
  publish_alone, stage_work, prepared, delivered_as, deliver_with, port_work, broken, stage_failed,
  port_failed, advanced, announce, after_port, after_work, do_advance,
}
use austro_os.Orchestration.Approval.{
  guarded_at, guarded, SafeRows, IsSafe, update-Updated, Updated-IsSafe,
}

-- the stages that are entered with an approval only
abbrev pub enters : Stage → Bool
enters publish = true
enters complete = true
enters stage = false

-- a pipeline may fail where it stands, and may go to the stage
abbrev pub ready_at : Stage → Stage → Bool → Bool
ready_at from to approval = guarded_at from failed approval && (not (enters to) || approval)

abbrev pub ready : Pipeline → Stage → Bool
ready p to = ready_at p.stage to (has_approval p)

-- Where `CanAdvance` lets a guarded pipeline go, it is ready to go.
pub ready_if_can_advance :
    (from to : Stage) (status : PipelineStatus) (approval : Bool)
    → can_advance to from status ≡ none
    → guarded_at from status approval ≡ true
    → ready_at from to approval ≡ true
unfolding can_advance allowed_step valid_stage valid_status
ready_if_can_advance research to status approval h g = ground arith
ready_if_can_advance script to status approval h g = ground arith
ready_if_can_advance review to status approval h g = ground arith
ready_if_can_advance publish to status approval h g = ground arith
ready_if_can_advance complete to status approval h g = ground arith
ready_if_can_advance (unknown_stage t) to status approval h g = ground arith

-- what a part of the work leaves: a pipeline that is still ready, or that may fail
abbrev Ready : Stage → Progress → Type 0
Ready to (goes_on p) = ready p to ≡ true
Ready to (breaks p e) = guarded_at p.stage failed (has_approval p) ≡ true
Ready to (refuses e) = Unit

abbrev ReadyIn : Stage → Progress × World → Type 0
ReadyIn to x = Ready to x.0 × IsSafe x.1

may_fail :
    (p : Pipeline) (to : Stage)
    → ready p to ≡ true
    → guarded_at p.stage failed (has_approval p) ≡ true
may_fail p to h = ground arith

module _ (env : Surroundings)
    (others : (n : ℕ) (rows : Rows) → SafeRows rows → SafeRows (env.others n rows)) where
  script-Ready :
      (p : Pipeline) (r : Result Error Text) (w : World)
      → ready p script ≡ true
      → IsSafe w
      → ReadyIn script (script_work env p r w)
  script-Ready p (err e) w h s = (may_fail p script h, s)
  script-Ready p (ok t) w h s = (
    written (record p { research_reference = bound_reference t }) (unfold has_approval in h) _,
    s,
  )
    where
      written :
          (q : Pipeline)
          → ready q script ≡ true
          → (r : Result Error Text)
          → Ready script (elim r as (λ x. Progress) [
            | err e ↦ breaks q e
            | ok u ↦ goes_on (record q { script_reference = bound_reference u })
          ])
      written q k (err e) = may_fail q script k
      written q k (ok u) = unfold has_approval in k

  review-Ready :
      (p : Pipeline) (r : Result Error Bool)
      → ready p review ≡ true
      → Ready review (review_work env p r)
  review-Ready p (err e) h = may_fail p review h
  review-Ready p (ok true) h = unfold has_approval in h
  review-Ready p (ok false) h = may_fail p review h

  publish-Ready :
      (p : Pipeline) (r : Result Error Text)
      → ready p publish ≡ true
      → Ready publish (publish_work env p r)
  publish-Ready p (err e) h = may_fail p publish h
  publish-Ready p (ok t) h = h

  approval_if_ready : (p : Pipeline) → ready p publish ≡ true → has_approval p ≡ true
  approval_if_ready p h = ground arith

  alone-Ready :
      (p : Pipeline) (o : Option PublicationPort) (w : World)
      → ready p publish ≡ true
      → IsSafe w
      → ReadyIn publish (publish_alone env p o w)
  alone-Ready p none w h (safe, out) = (publish-Ready p _ h, (safe, (approval_if_ready p h, out)))
  alone-Ready p (some port) w h s = (h, s)

  work-Ready :
      (p : Pipeline) (to : Stage) (w : World)
      → ready p to ≡ true
      → IsSafe w
      → ReadyIn to (stage_work env p to w)
  unfolding stage_work
  work-Ready p script w h s = script-Ready p _ (tick w) h s
  work-Ready p review w h s = (review-Ready p _ h, s)
  work-Ready p publish w h s = alone-Ready p env.publication w h s
  work-Ready p complete w h s = (h, s)
  work-Ready p research w h s = (may_fail p research h, s)
  work-Ready p (unknown_stage t) w h s = (may_fail p (unknown_stage t) h, s)

  prepared-Ready :
      (p : Pipeline) (r : Result Error Uuid)
      → ready p review ≡ true
      → Ready review (prepared env p r)
  prepared-Ready p (err e) h = may_fail p review h
  prepared-Ready p (ok id) h = unfold has_approval in h

  delivered-Ready :
      (p : Pipeline) (r : Result Error Text)
      → ready p publish ≡ true
      → Ready publish (delivered_as env p r)
  delivered-Ready p (err e) h = may_fail p publish h
  delivered-Ready p (ok t) h = unfold has_approval in h

  deliver-Ready :
      (port : PublicationPort) (p : Pipeline) (o : Option Uuid) (w : World)
      → ready p publish ≡ true
      → IsSafe w
      → ReadyIn publish (deliver_with env port p o w)
  deliver-Ready port p none w h s = (tt, s)
  deliver-Ready port p (some id) w h (safe, out) = by_approval (is_approved_pipeline p)
    where
      by_approval :
          (b : Bool)
          → ReadyIn publish (
              if b
              then (delivered_as env p (port.deliver w.tick id p.approved_by), hand_out p w)
              else (refuses approval_required, w))
      by_approval true = (delivered-Ready p _ h, (safe, (approval_if_ready p h, out)))
      by_approval false = (tt, (safe, out))

  port-Ready :
      (o : Option PublicationPort) (p : Pipeline) (to : Stage) (w : World)
      → ready p to ≡ true
      → IsSafe w
      → ReadyIn to (port_work env o p to w)
  unfolding port_work
  port-Ready none p to w h s = (h, s)
  port-Ready (some port) p review w h s = (prepared-Ready p _ h, s)
  port-Ready (some port) p publish w h s = deliver-Ready port p p.publication_id w h s
  port-Ready (some port) p research w h s = (h, s)
  port-Ready (some port) p script w h s = (h, s)
  port-Ready (some port) p complete w h s = (h, s)
  port-Ready (some port) p (unknown_stage t) w h s = (h, s)

  -- where the pipeline may fail, the update that says so keeps the rows safe
  broken-IsSafe :
      (p : Pipeline) (e : Error) (w : World)
      → guarded_at p.stage failed (has_approval p) ≡ true
      → IsSafe w
      → IsSafe (store_update env p.workspace_id (broken env (env.clock w.tick) p e) w).1
  broken-IsSafe p e w h s =
      let q = broken env (env.clock w.tick) p e in
      Updated-IsSafe env others q _
        (update-Updated env others p.workspace_id q w (unfold has_approval in h) s)

  advanced_lem :
      (t : Time) (p : Pipeline) (to : Stage)
      → ready p to ≡ true
      → guarded (advanced env t p to) ≡ true
  unfolding has_approval
  advanced_lem t p research h = refl
  advanced_lem t p script h = refl
  advanced_lem t p review h = refl
  advanced_lem t p publish h = ground arith
  advanced_lem t p complete h = ground arith
  advanced_lem t p (unknown_stage u) h = refl

  announce-IsSafe :
      (to : Stage) (kind who : Text) (r : Result Error Pipeline) (w : World)
      → IsSafe w
      → IsSafe (announce env to kind who r w).1
  unfolding announce send
  announce-IsSafe to kind who (err e) w s = s
  announce-IsSafe to kind who (ok p) w s = s

  after_port-IsSafe :
      (to : Stage) (kind who : Text) (x : Progress × World)
      → ReadyIn to x
      → IsSafe (after_port env to kind who x).1
  unfolding after_port port_failed
  after_port-IsSafe to kind who (refuses e, w) (h, s) = s
  after_port-IsSafe to kind who (breaks p e, w) (h, s) = broken-IsSafe p e w h s
  after_port-IsSafe to kind who (goes_on p, w) (h, s) =
      let q = advanced env (env.clock w.tick) p to in
      announce-IsSafe to kind who _ _ (
        Updated-IsSafe env others q _
          (update-Updated env others p.workspace_id q w (advanced_lem (env.clock w.tick) p to h) s))

  after_work-IsSafe :
      (to : Stage) (kind who : Text) (x : Progress × World)
      → ReadyIn to x
      → IsSafe (after_work env to kind who x).1
  unfolding after_work stage_failed
  after_work-IsSafe to kind who (refuses e, w) (h, s) = s
  after_work-IsSafe to kind who (breaks p e, w) (h, s) = broken-IsSafe p e w h s
  after_work-IsSafe to kind who (goes_on p, w) (h, s) =
      after_port-IsSafe to kind who _ (port-Ready env.publication p to w h s)

  -- `doAdvance` of a pipeline that is ready keeps the rows guarded and delivers nothing without an approval.
  pub do_advance-IsSafe :
      (p : Pipeline) (to : Stage) (kind who : Text) (w : World)
      → ready p to ≡ true
      → IsSafe w
      → IsSafe (do_advance env p to kind who w).1
  unfolding do_advance
  do_advance-IsSafe p to kind who w h s = after_work-IsSafe to kind who _ (work-Ready p to w h s)
