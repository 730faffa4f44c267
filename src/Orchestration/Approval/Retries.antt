-- ===== src/Orchestration/Approval/Retries.antt =====
-- A retry keeps the approval: a stage that failed after it was entered with an approval goes on with it.
use austro_os.Common.{ℕ, ◌≡◌, refl, sym, Bool, true, not, Result, ok, err, arith}
use mathlib.Core.Path.{subst}
use austro_os.Common.Text.{Text, is_empty, trim_space}
use austro_os.Execution.Types.{Uuid}
use austro_os.Orchestration.Pipeline.{
  Error, Stage, research, script, review, publish, complete, unknown_stage, PipelineStatus,
  Pipeline, has_approval, is_failed, is_complete, next_stage,
}
use austro_os.Orchestration.Store.{Rows, Surroundings, World, store_update}
use austro_os.Orchestration.Service.{get_owned}
use austro_os.Orchestration.Commands.{
  spend, status_for_retry, reset, retry_from, retry_found, retry,
}
use austro_os.Orchestration.Approval.{
  guarded_at, guarded, SafeRows, IsSafe, SameButVersion, update-Updated,
}
use austro_os.Orchestration.Approval.Advances.{ready, ready_at, do_advance-IsSafe}
use austro_os.Orchestration.Approval.Histories.{
  or_refuse-IsSafe, if-IsSafe, get_owned-Read, update_then-IsSafe,
}

module _ (env : Surroundings)
    (others : (n : ℕ) (rows : Rows) → SafeRows rows → SafeRows (env.others n rows)) where
  status_for_retry-guarded :
      (st : Stage) (status : PipelineStatus) (a : Bool)
      → is_failed status ≡ true
      → guarded_at st status a ≡ true
      → guarded_at st (status_for_retry env a st) a ≡ true
  status_for_retry-guarded research status a f g = refl
  status_for_retry-guarded script status a f g = refl
  status_for_retry-guarded review status a f g = ground arith
  status_for_retry-guarded publish status a f g = g
  status_for_retry-guarded complete status a f g = g
  status_for_retry-guarded (unknown_stage t) status a f g = refl

  -- a guarded pipeline that failed is ready for the stage after the one where it failed
  ready_after_failure :
      (st to : Stage) (status : PipelineStatus) (a : Bool)
      → is_failed status ≡ true
      → guarded_at st status a ≡ true
      → next_stage st ≡ ok to
      → ready_at st to a ≡ true
  unfolding next_stage
  ready_after_failure research to status a f g n = ground arith
  ready_after_failure script to status a f g n = ground arith
  ready_after_failure review to status a f g n = ground arith
  ready_after_failure publish to status a f g n = ground arith
  ready_after_failure complete to status a f g n = ground arith
  ready_after_failure (unknown_stage t) to status a f g n = ground arith

  retry_from-IsSafe :
      (actor : Text) (q : Pipeline) (r : Result Error Stage) (w : World)
      → ((to : Stage) → r ≡ ok to → ready q to ≡ true)
      → IsSafe w
      → IsSafe (retry_from env actor q r w).1
  retry_from-IsSafe actor q (err e) w h s = s
  retry_from-IsSafe actor q (ok to) w h s = do_advance-IsSafe env others q to _ _ w (h to refl) s

  retry_found-IsSafe :
      (actor : Text) (p : Pipeline) (w : World)
      → guarded p ≡ true
      → IsSafe w
      → IsSafe (retry_found env actor p w).1
  unfolding retry_found
  retry_found-IsSafe actor p w g s =
      if-IsSafe (not (is_failed p.status)) _ _ (λ e. s)
        λ e.
          if-IsSafe (is_complete p.stage) _ _ (λ h. s)
            λ h.
              let f : is_failed p.status ≡ true = ground arith in
              let q = reset env (env.clock w.tick) p in
              let still : guarded q ≡ true =
                unfold has_approval in
                status_for_retry-guarded p.stage p.status (has_approval p) f g in
              update_then-IsSafe env others q (store_update env p.workspace_id q w) _
                (update-Updated env others p.workspace_id q w still s)
                λ r v same safe. again f r v same safe
    where
      again :
          is_failed p.status ≡ true
          → (r : Pipeline) (v : World) → SameButVersion (reset env (env.clock w.tick) p) r
          → IsSafe v
          → IsSafe (retry_from env actor r (next_stage r.stage) v).1
      again f r v (t, n, eq) safe =
          subst (λ (x : Pipeline). IsSafe (retry_from env actor x (next_stage x.stage) v).1)
            (sym eq)
            (retry_from-IsSafe actor
              (record (reset env (env.clock w.tick) p) { updated_at = t; version = n })
              (next_stage p.stage) v
              (λ to k.
                unfold has_approval in
                ready_after_failure p.stage to p.status (has_approval p) f g k)
              safe)

  pub retry-IsSafe :
      (ws id : Uuid) (actor : Text) (w : World) → IsSafe w → IsSafe (retry env ws id actor w).1
  unfolding retry
  retry-IsSafe ws id actor w s =
      if-IsSafe (is_empty (trim_space actor)) _ _ (λ e. s)
        λ e.
          if-IsSafe (spend env ws w).0 _ _
            (λ h.
              or_refuse-IsSafe (get_owned env ws id (spend env ws w).1)
                (retry_found env (trim_space actor)) (get_owned-Read env others ws id _ s)
                (retry_found-IsSafe (trim_space actor)))
            (λ h. s)
