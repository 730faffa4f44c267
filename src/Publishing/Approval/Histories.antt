-- ===== src/Publishing/Approval/Histories.antt =====
-- No history of commands hands a publication to the publisher without its approval.
use austro_os.Common.{
  ℕ, true, not, ◌||◌, ◌==◌, ltb, Result, ok, err, length, List, [], ◌∷◌, ◌≡◌, refl, sym, arith,
}
use mathlib.Core.Path.{subst}
use austro_os.Common.Text.{Text, is_empty, trim_space}
use austro_os.Execution.Types.{Uuid, nil_uuid, Time}
use austro_os.Security.Throttle.{new_throttler, minute}
use austro_os.Publishing.Lifecycle.{
  Error, not_found, review, cancelled, queued, Publication, Draft, new_publication,
}
use austro_os.Publishing.Store.{Rows, Surroundings, World, store_get_by_key}
use austro_os.Publishing.Create.{
  lost_race, after_insert, create_new, create_keyed, unless_found, create_with_idempotency,
}
use austro_os.Publishing.Service.{to_review, cancel, approve, reject, publish, retry}
use austro_os.Publishing.Approval.{
  needs_approval, is_approved, guarded, ApprovedRows, IsApproved, Found, store_get_by_key-Found,
  store_create-Found,
}
use austro_os.Publishing.Approval.Commands.{
  if-IsApproved, transition-IsApproved, approve-IsApproved, reject-IsApproved, publish-IsApproved,
  retry-IsApproved,
}

-- the commands of the service
pub data Command : Type 0 where
  creates : (ws : Uuid) (draft : Draft) (key : Text) → Command
  submits : (ws id : Uuid) → Command
  cancels : (ws id : Uuid) → Command
  approves : (ws id : Uuid) (actor : Text) → Command
  rejects : (ws id : Uuid) (actor : Text) → Command
  publishes : (ws id : Uuid) (actor : Text) → Command
  retries : (ws id : Uuid) (actor : Text) → Command

unfoldable pub perform : Surroundings → Command → World → World
perform env (creates ws draft key) w = (create_with_idempotency env ws draft key w).1
perform env (submits ws id) w = (to_review env ws id w).1
perform env (cancels ws id) w = (cancel env ws id w).1
perform env (approves ws id actor) w = (approve env ws id actor w).1
perform env (rejects ws id actor) w = (reject env ws id actor w).1
perform env (publishes ws id actor) w = (publish env ws id actor w).1
perform env (retries ws id actor) w = (retry env ws id actor w).1

unfoldable pub history : Surroundings → List Command → World → World
history env [] w = w
history env (c ∷ cs) w = history env cs (perform env c w)

-- no publication yet, and `NewThrottler(time.Minute, 10)`
abbrev pub new_world : World
new_world = record { rows = []; throttle = new_throttler minute 10; delivered = []; tick = 0 }

module _ (env : Surroundings)
    (others : (n : ℕ) (rows : Rows) → ApprovedRows rows → ApprovedRows (env.others n rows)) where
  created-IsApproved :
      (ws : Uuid) (key : Text) (r : Result Error Publication × World)
      → Found r
      → IsApproved (after_insert env ws key r).1
  created-IsApproved ws key (ok p, w) f = f.1
  created-IsApproved ws key (err e, w) f =
      if-IsApproved (is_empty key) _ _ (λ _. f)
        (λ _. raced (store_get_by_key env ws key w) (store_get_by_key-Found env others ws key w f))
    where
      raced : (r : Result Error Publication × World) → Found r → IsApproved (lost_race env e r).1
      raced (ok p, v) g = g.1
      raced (err x, v) g = g

  new-IsApproved :
      (ws : Uuid) (key : Text) (r : Result Error Publication) (w : World)
      → ((p : Publication) → r ≡ ok p → guarded p ≡ true)
      → IsApproved w
      → IsApproved (create_new env ws key r w).1
  new-IsApproved ws key (err e) w g a = a
  new-IsApproved ws key (ok p) w g a =
      created-IsApproved ws key _
        (store_create-Found env others (record p { idempotency_key = key }) w (g p refl) a)

  new_publication-guarded :
      (digest : Text → Text → Text) (id : Uuid) (now : Time) (ws : Uuid) (d : Draft)
      (p : Publication)
      → new_publication digest id now ws d ≡ ok p
      → guarded p ≡ true
  unfolding new_publication
  new_publication-guarded digest id now ws d p h =
      let fresh : p.status ≡ queued = ground arith in
      subst (λ s. not (needs_approval s) || is_approved p ≡ true) (sym fresh) refl

  keyed-IsApproved :
      (ws : Uuid) (d : Draft) (key : Text) (w : World)
      → IsApproved w
      → IsApproved (create_keyed env ws d key w).1
  unfolding create_keyed
  keyed-IsApproved ws d key w a =
      if-IsApproved (ws == nil_uuid) _ _ (λ _. a)
        (λ _.
          new-IsApproved ws key _ w
            (new_publication-guarded env.digest (env.new_id w.tick) (env.clock w.tick) ws d) a)

  unless_found-IsApproved :
      (ws : Uuid) (d : Draft) (key : Text) (r : Result Error Publication × World)
      → Found r
      → IsApproved (unless_found env ws d key r).1
  unless_found-IsApproved ws d key (ok p, w) f = f.1
  unless_found-IsApproved ws d key (err not_found, w) f = keyed-IsApproved ws d key w f
  unless_found-IsApproved ws d key (err e, w) f = f

  perform-IsApproved : (c : Command) (w : World) → IsApproved w → IsApproved (perform env c w)
  unfolding perform create_with_idempotency to_review cancel
  perform-IsApproved (creates ws d key) w a =
      if-IsApproved (is_empty (trim_space key)) _ _ (λ _. keyed-IsApproved ws d [] w a)
        λ _.
          if-IsApproved (ltb 128 (length (trim_space key))) _ _ (λ _. a)
            (λ _.
              unless_found-IsApproved ws d (trim_space key) _
                (store_get_by_key-Found env others ws (trim_space key) w a))
  perform-IsApproved (submits ws id) w a = transition-IsApproved env others ws id review w refl a
  perform-IsApproved (cancels ws id) w a = transition-IsApproved env others ws id cancelled w refl a
  perform-IsApproved (approves ws id actor) w a = approve-IsApproved env others ws id actor w a
  perform-IsApproved (rejects ws id actor) w a = reject-IsApproved env others ws id actor w a
  perform-IsApproved (publishes ws id actor) w a = publish-IsApproved env others ws id actor w a
  perform-IsApproved (retries ws id actor) w a = retry-IsApproved env others ws id actor w a

  commands-IsApproved :
      (cs : List Command) (w : World) → IsApproved w → IsApproved (history env cs w)
  unfolding history
  commands-IsApproved [] w a = a
  commands-IsApproved (c ∷ cs) w a =
      commands-IsApproved cs (perform env c w) (perform-IsApproved c w a)

  -- After any commands, whatever the platform and the store answer, every publication that was handed to the publisher stood as
  -- approved with the name of a human and the time of the approval, and so is the approval recorded on every stored one that is
  -- approved, published or failed. Other processes that write in between are assumed to keep the stored ones so.
  pub history-IsApproved : (cs : List Command) → IsApproved (history env cs new_world)
  history-IsApproved cs = commands-IsApproved cs new_world (tt, tt)
