-- ===== src/Publishing/Service.antt =====
-- internal/publish/service.go: the commands on a publication. The audit records, the events, whose errors are dropped, and the
-- log are left out.
use austro_os.Common.{
  ◌+◌, Bool, true, false, not, ◌==◌, if◌then◌else◌, Option, none, some, Result, ok, err, [], ◌∷◌,
}
use austro_os.Common.Text.{Text, is_empty, trim_space}
use austro_os.Execution.Types.{Uuid, Time}
use austro_os.Security.Throttle.{allow}
use austro_os.Publishing.Lifecycle.{
  Error, workspace_mismatch, invalid_transition, invalid_status, approval_required,
  unauthorized_approver, unauthorized_rejecter, unauthorized_publisher, rate_limited, Status,
  review, approved, published, failed, rejected, cancelled, Publication, valid_status, same_status,
  can_transition, approval_recorded, has_approval, failure_reason,
}
use austro_os.Publishing.Store.{Surroundings, World, Io, store_get, store_update}
use austro_os.Publishing.Create.{Reply, refuse, answer, or_refuse}

abbrev pub uuid_eq : Uuid → Uuid → Bool
uuid_eq a b = a == b

module _ (env : Surroundings) where
  -- `getOwned`
  abbrev pub owned : Uuid → Result Error Publication × World → Result Error Publication × World
  owned ws (err e, w) = (err e, w)
  owned ws (ok p, w) = if p.workspace_id == ws then (ok p, w) else (err workspace_mismatch, w)

  unfoldable pub get_owned : Uuid → Uuid → Io (Result Error Publication)
  get_owned ws id w = owned ws (store_get env ws id w)

  abbrev pub apply_allowed : Uuid → Publication → Status → Option Error → Io Reply
  apply_allowed ws p to (some e) w = refuse e w
  apply_allowed ws p to none w = or_refuse (store_update env ws (record p { status = to }) w) answer

  -- `apply`
  unfoldable pub apply : Uuid → Publication → Status → Io Reply
  apply ws p to w = apply_allowed ws p to (can_transition p.status to) w

  -- `transition`
  unfoldable pub transition : Uuid → Uuid → Status → Io Reply
  transition ws id to w =
      if not (valid_status to)
      then refuse invalid_status w
      else or_refuse (get_owned ws id w) λ p v. apply ws p to v

  -- `ToReview`
  unfoldable pub to_review : Uuid → Uuid → Io Reply
  to_review ws id w = transition ws id review w

  -- `Cancel`
  unfoldable pub cancel : Uuid → Uuid → Io Reply
  cancel ws id w = transition ws id cancelled w

  abbrev pub with_approval : Text → Time → Publication → Publication
  with_approval actor now p = record p { approved_by = some actor; approved_at = some now }

  unfoldable pub approve_found : Uuid → Text → Publication → Io Reply
  approve_found ws actor p w =
      if same_status p.status review
      then apply ws (with_approval actor (env.clock w.tick) p) approved w
      else refuse invalid_transition w

  -- `Approve`
  unfoldable pub approve : Uuid → Uuid → Text → Io Reply
  approve ws id actor w =
      if is_empty (trim_space actor)
      then refuse unauthorized_approver w
      else or_refuse (get_owned ws id w) (approve_found ws actor)

  abbrev pub with_rejection : Text → Time → Publication → Publication
  with_rejection actor now p = record p { rejected_by = some actor; rejected_at = some now }

  unfoldable pub reject_found : Uuid → Text → Publication → Io Reply
  reject_found ws actor p w =
      if same_status p.status review
      then apply ws (with_rejection actor (env.clock w.tick) p) rejected w
      else refuse invalid_transition w

  -- `Reject`
  unfoldable pub reject : Uuid → Uuid → Text → Io Reply
  reject ws id actor w =
      if is_empty (trim_space actor)
      then refuse unauthorized_rejecter w
      else or_refuse (get_owned ws id w) (reject_found ws actor)

  -- `throttle.Allow(workspaceID.String())`
  abbrev pub spend : Uuid → World → Bool × World
  spend ws w =
      let r = allow uuid_eq (env.clock w.tick) ws w.throttle in (r.0, record w { throttle = r.1 })

  -- `s.pub.Publish(ctx, p)`
  abbrev pub hand_over : Publication → Io (Result Error Text)
  hand_over p w =
      (env.deliver w.tick p, record w { delivered = p ∷ w.delivered; tick = w.tick + 1 })

  abbrev pub with_delivery : Text → Text → Time → Publication → Publication
  with_delivery ref actor now p = record p {
    published_at = some now;
    published_by = some actor;
    external_reference = ref;
  }

  -- the delivery's own error, where the failure could be stored
  abbrev pub with_error : Error → Reply × World → Reply × World
  with_error e ((p, none), w) = ((p, some e), w)
  with_error e ((p, some f), w) = refuse f w

  unfoldable pub after_delivery : Uuid → Text → Publication → Result Error Text → Io Reply
  after_delivery ws actor p (err e) w =
      with_error e (apply ws (record p { failure_reason = failure_reason e }) failed w)
  after_delivery ws actor p (ok ref) w =
      apply ws (with_delivery ref actor (env.clock w.tick) p) published w

  abbrev pub publish_allowed : Uuid → Text → Publication → Option Error → Io Reply
  publish_allowed ws actor p (some e) w = refuse e w
  publish_allowed ws actor p none w =
      if has_approval p
      then (let r = hand_over p w in after_delivery ws actor p r.0 r.1)
      else refuse approval_required w

  unfoldable pub publish_found : Uuid → Text → Publication → Io Reply
  publish_found ws actor p w = publish_allowed ws actor p (can_transition p.status published) w

  abbrev pub spending : Uuid → (World → Reply × World) → Bool × World → Reply × World
  spending ws k (true, w) = k w
  spending ws k (false, w) = refuse rate_limited w

  -- `Publish`
  unfoldable pub publish : Uuid → Uuid → Text → Io Reply
  publish ws id actor w =
      if is_empty (trim_space actor)
      then refuse unauthorized_publisher w
      else spending ws (λ v. or_refuse (get_owned ws id v) (publish_found ws actor)) (spend ws w)

  -- the failed attempt is stored again, and the delivery's error returned
  abbrev pub retry_failed : Error → Result Error Publication × World → Reply × World
  retry_failed e (ok p, w) = ((some p, some e), w)
  retry_failed e (err f, w) = refuse f w

  abbrev pub again_failed : Error → Publication → Publication
  again_failed e p = record p { status = failed; failure_reason = failure_reason e }

  abbrev pub again_delivered : Text → Text → Time → Publication → Publication
  again_delivered ref actor now p = record (with_delivery ref actor now p) { failure_reason = [] }

  unfoldable pub after_retry : Uuid → Text → Publication → Result Error Text → Io Reply
  after_retry ws actor p (err e) w = retry_failed e (store_update env ws (again_failed e p) w)
  after_retry ws actor p (ok ref) w =
      apply ws (again_delivered ref actor (env.clock w.tick) p) published w

  unfoldable pub retry_found : Uuid → Text → Publication → Io Reply
  retry_found ws actor p w =
      if not (same_status p.status failed)
      then refuse invalid_transition w
      else if not (approval_recorded p)
      then refuse approval_required w
      else let q : Publication = record p { status = approved } in
        let r = hand_over q w in after_retry ws actor q r.0 r.1

  -- `Retry`
  unfoldable pub retry : Uuid → Uuid → Text → Io Reply
  retry ws id actor w =
      if is_empty (trim_space actor)
      then refuse unauthorized_publisher w
      else spending ws (λ v. or_refuse (get_owned ws id v) (retry_found ws actor)) (spend ws w)
