-- ===== src/Publishing/Approval/Commands.antt =====
-- Every command of the publishing service keeps the approval of the publications.
use austro_os.Common.{
  ℕ, Bool, true, false, not, ◌&&◌, ◌||◌, ◌==◌, if◌then◌else◌, Option, none, some, Result, ok, err,
  ◌≡◌, refl, arith,
}
use austro_os.Common.Text.{Text, is_empty, trim_space}
use austro_os.Execution.Types.{Uuid}
use austro_os.Publishing.Lifecycle.{
  Error, workspace_mismatch, Status, review, approved, published, failed, rejected, Publication,
  valid_status, same_status, can_transition, approval_recorded, has_approval,
}
use austro_os.Publishing.Store.{Rows, Surroundings, World, store_get, store_update}
use austro_os.Publishing.Create.{Reply, answer, or_refuse}
use austro_os.Publishing.Service.{
  owned, get_owned, apply_allowed, apply, transition, approve_found, approve, reject_found, reject,
  spend, with_error, after_delivery, publish_allowed, publish_found, spending, publish,
  retry_failed, again_failed, after_retry, retry_found, retry,
}
use austro_os.Publishing.Approval.{
  needs_approval, is_approved, guarded, ApprovedRows, IsApproved, Found, store_get-Found,
  store_update-Found,
}

pub if-IsApproved :
    (b : Bool) (x y : Reply × World)
    → (b ≡ true → IsApproved x.1)
    → (b ≡ false → IsApproved y.1)
    → IsApproved (if b then x else y).1
if-IsApproved true x y f g = f refl
if-IsApproved false x y f g = g refl

or_refuse-IsApproved :
    (r : Result Error Publication × World) (k : Publication → World → Reply × World)
    → Found r
    → ((p : Publication) (w : World) → guarded p ≡ true → IsApproved w → IsApproved (k p w).1)
    → IsApproved (or_refuse r k).1
or_refuse-IsApproved (ok p, w) k f h = h p w f.0 f.1
or_refuse-IsApproved (err e, w) k f h = f

and_left : (a b : Bool) → a && b ≡ true → a ≡ true
and_left true b h = refl
and_left false b h = h

has_approval-status :
    (p : Publication) → has_approval p ≡ true → same_status p.status approved ≡ true
unfolding has_approval
has_approval-status p h = and_left (same_status p.status approved) (approval_recorded p) h

guarded_approved :
    (s : Status) (a : Bool)
    → not (needs_approval s) || a ≡ true
    → same_status s approved ≡ true
    → a ≡ true
guarded_approved approved a g h = g
guarded_approved s a g h = cc

guarded_failed :
    (s : Status) (a : Bool)
    → not (needs_approval s) || a ≡ true
    → same_status s failed ≡ true
    → a ≡ true
guarded_failed failed a g h = g
guarded_failed s a g h = cc

module _ (env : Surroundings)
    (others : (n : ℕ) (rows : Rows) → ApprovedRows rows → ApprovedRows (env.others n rows)) where
  owned-Found :
      (ws : Uuid) (r : Result Error Publication × World) → Found r → Found (owned env ws r)
  owned-Found ws (err e, w) f = f
  owned-Found ws (ok p, w) f = by_test (p.workspace_id == ws)
    where
      by_test : (b : Bool) → Found (if b then (ok p, w) else (err workspace_mismatch, w))
      by_test true = f
      by_test false = f.1

  get_owned-Found : (ws id : Uuid) (w : World) → IsApproved w → Found (get_owned env ws id w)
  unfolding get_owned
  get_owned-Found ws id w a =
      owned-Found ws (store_get env ws id w) (store_get-Found env others ws id w a)

  apply-IsApproved :
      (ws : Uuid) (p : Publication) (to : Status) (w : World)
      → guarded (record p { status = to }) ≡ true
      → IsApproved w
      → IsApproved (apply env ws p to w).1
  unfolding apply
  apply-IsApproved ws p to w g a = allowed (can_transition p.status to)
    where
      allowed : (o : Option Error) → IsApproved (apply_allowed env ws p to o w).1
      allowed (some e) = a
      allowed none =
          or_refuse-IsApproved (store_update env ws (record p { status = to }) w) answer
            (store_update-Found env others ws (record p { status = to }) w g a) λ q v h b. b

  pub transition-IsApproved :
      (ws id : Uuid) (to : Status) (w : World)
      → needs_approval to ≡ false
      → IsApproved w
      → IsApproved (transition env ws id to w).1
  unfolding transition
  transition-IsApproved ws id to w n a =
      if-IsApproved (not (valid_status to)) _ _ (λ _. a)
        λ _.
          or_refuse-IsApproved (get_owned env ws id w) _ (get_owned-Found ws id w a)
            λ p v g b. apply-IsApproved ws p to v (ground arith) b

  pub approve-IsApproved :
      (ws id : Uuid) (actor : Text) (w : World)
      → IsApproved w
      → IsApproved (approve env ws id actor w).1
  unfolding approve approve_found
  approve-IsApproved ws id actor w a =
      if-IsApproved (is_empty (trim_space actor)) _ _ (λ _. a)
        λ named.
          or_refuse-IsApproved (get_owned env ws id w) _ (get_owned-Found ws id w a) λ p v g b.
            if-IsApproved (same_status p.status review) _ _
              (λ _. apply-IsApproved ws _ approved v (ground arith) b) (λ _. b)

  pub reject-IsApproved :
      (ws id : Uuid) (actor : Text) (w : World)
      → IsApproved w
      → IsApproved (reject env ws id actor w).1
  unfolding reject reject_found
  reject-IsApproved ws id actor w a =
      if-IsApproved (is_empty (trim_space actor)) _ _ (λ _. a)
        λ named.
          or_refuse-IsApproved (get_owned env ws id w) _ (get_owned-Found ws id w a) λ p v g b.
            if-IsApproved (same_status p.status review) _ _
              (λ _. apply-IsApproved ws _ rejected v refl b) (λ _. b)

  with_error-IsApproved :
      (e : Error) (r : Reply × World) → IsApproved r.1 → IsApproved (with_error env e r).1
  with_error-IsApproved e ((p, none), w) a = a
  with_error-IsApproved e ((p, some f), w) a = a

  after_delivery-IsApproved :
      (ws : Uuid) (actor : Text) (p : Publication) (r : Result Error Text) (w : World)
      → is_approved p ≡ true
      → IsApproved w
      → IsApproved (after_delivery env ws actor p r w).1
  unfolding after_delivery
  after_delivery-IsApproved ws actor p (err e) w g a =
      with_error-IsApproved e _ (apply-IsApproved ws _ failed w g a)
  after_delivery-IsApproved ws actor p (ok ref) w g a = apply-IsApproved ws _ published w g a

  spent-IsApproved :
      (ws : Uuid) (k : World → Reply × World) (r : Bool × World)
      → ((w : World) → IsApproved w → IsApproved (k w).1)
      → IsApproved r.1
      → IsApproved (spending env ws k r).1
  spent-IsApproved ws k (true, w) h a = h w a
  spent-IsApproved ws k (false, w) h a = a

  publish_found-IsApproved :
      (ws : Uuid) (actor : Text) (p : Publication) (w : World)
      → guarded p ≡ true
      → IsApproved w
      → IsApproved (publish_found env ws actor p w).1
  unfolding publish_found
  publish_found-IsApproved ws actor p w g a = allowed (can_transition p.status published)
    where
      allowed : (o : Option Error) → IsApproved (publish_allowed env ws actor p o w).1
      allowed (some e) = a
      allowed none =
          if-IsApproved (has_approval p) _ _
            (λ h.
              let s = guarded_approved p.status (is_approved p) g (has_approval-status p h) in
              after_delivery-IsApproved ws actor p (env.deliver w.tick p) _ s (a.0, ((s, h), a.1)))
            (λ _. a)

  pub publish-IsApproved :
      (ws id : Uuid) (actor : Text) (w : World)
      → IsApproved w
      → IsApproved (publish env ws id actor w).1
  unfolding publish
  publish-IsApproved ws id actor w a =
      if-IsApproved (is_empty (trim_space actor)) _ _ (λ _. a)
        λ named.
          spent-IsApproved ws _ (spend env ws w)
            (λ v b.
              or_refuse-IsApproved (get_owned env ws id v) _ (get_owned-Found ws id v b)
                λ p u g c. publish_found-IsApproved ws actor p u g c)
            a

  after_retry-IsApproved :
      (ws : Uuid) (actor : Text) (p : Publication) (r : Result Error Text) (w : World)
      → is_approved p ≡ true
      → IsApproved w
      → IsApproved (after_retry env ws actor p r w).1
  unfolding after_retry
  after_retry-IsApproved ws actor p (err e) w g a =
      stored (store_update env ws (again_failed env e p) w)
        (store_update-Found env others ws (again_failed env e p) w g a)
    where
      stored :
          (r : Result Error Publication × World) → Found r → IsApproved (retry_failed env e r).1
      stored (ok q, v) f = f.1
      stored (err f', v) f = f
  after_retry-IsApproved ws actor p (ok ref) w g a = apply-IsApproved ws _ published w g a

  retry_found-IsApproved :
      (ws : Uuid) (actor : Text) (p : Publication) (w : World)
      → guarded p ≡ true
      → IsApproved w
      → IsApproved (retry_found env ws actor p w).1
  unfolding retry_found
  retry_found-IsApproved ws actor p w g a =
      if-IsApproved (not (same_status p.status failed)) _ _ (λ _. a)
        λ failure.
          if-IsApproved (not (approval_recorded p)) _ _ (λ _. a)
            λ recorded.
              let s = guarded_failed p.status (is_approved p) g (ground arith) in
              let h : has_approval (record p { status = approved }) ≡ true =
                unfold has_approval in ground arith in
              after_retry-IsApproved ws actor (record p { status = approved }) _ _ s
                (a.0, ((s, h), a.1))

  pub retry-IsApproved :
      (ws id : Uuid) (actor : Text) (w : World)
      → IsApproved w
      → IsApproved (retry env ws id actor w).1
  unfolding retry
  retry-IsApproved ws id actor w a =
      if-IsApproved (is_empty (trim_space actor)) _ _ (λ _. a)
        λ named.
          spent-IsApproved ws _ (spend env ws w)
            (λ v b.
              or_refuse-IsApproved (get_owned env ws id v) _ (get_owned-Found ws id v b)
                λ p u g c. retry_found-IsApproved ws actor p u g c)
            a
