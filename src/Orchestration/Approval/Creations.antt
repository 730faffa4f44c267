-- ===== src/Orchestration/Approval/Creations.antt =====
-- A creation, and a replay of one, keeps the approval.
use austro_os.Common.{
  ℕ, ◌+◌, ◌≡◌, refl, true, not, ◌&&◌, ◌||◌, ltb, ◌==◌, if◌then◌else◌, Option, none, some, Result,
  ok, err, [], ◌∷◌, ◌++◌, length, arith,
}
use austro_os.Common.Text.{Text, bytes, is_empty, trim_space}
use austro_os.Execution.Types.{Uuid, nil_uuid, Time}
use austro_os.Orchestration.Pipeline.{
  Error, Pipeline, has_approval, new_with_idempotency, research, other_error,
}
use austro_os.Orchestration.Store.{
  Rows, Surroundings, World, store_get_by_key, store_create, is_there, find_key, put, rows_at,
}
use austro_os.Orchestration.Service.{
  Reply, refuse, same_stage, send, replay, after_create, create_new, create_keyed,
  create_with_idempotency, is_not_found, is_created,
}
use austro_os.Orchestration.Approval.{guarded, SafeRows, IsSafe, put-SafeRows}
use austro_os.Orchestration.Approval.Histories.{if-IsSafe, either-IsSafe}

module _ (env : Surroundings)
    (others : (n : ℕ) (rows : Rows) → SafeRows rows → SafeRows (env.others n rows)) where
  key-IsSafe :
      (ws : Uuid) (key : Text) (w : World) → IsSafe w → IsSafe (store_get_by_key env ws key w).1
  unfolding store_get_by_key
  key-IsSafe ws key w (safe, out) = (others w.tick w.rows safe, out)

  replay-IsSafe : (p : Pipeline) (w : World) → IsSafe w → IsSafe (replay env p w).1
  unfolding replay send
  replay-IsSafe p w s =
      if-IsSafe (same_stage p.stage research && is_created p.status) _ _ (λ e. s) (λ e. s)

  -- the INSERT of a guarded pipeline
  create-IsSafe :
      (p : Pipeline) (w : World) → guarded p ≡ true → IsSafe w → IsSafe (store_create env p w).1
  unfolding store_create
  create-IsSafe p w g (safe, out) = by_down (env.down w.tick)
    where
      by_down :
          (o : Option Error)
          → IsSafe
              (elim o as (λ x. Result Error Pipeline × World) [
                | some e ↦ (err e, record w { rows = rows_at env w; tick = w.tick + 1 })
                | none ↦
                    if is_there (rows_at env w (env.new_id w.tick))
                      || (not (is_empty p.idempotency_key)
                          && is_there
                              (find_key p.workspace_id p.idempotency_key (rows_at env w) w.order))
                    then (
                      err (other_error (bytes "duplicate key")),
                      record w { rows = rows_at env w; tick = w.tick + 1 },
                    )
                    else (
                      ok (record p { id = env.new_id w.tick }),
                      record w {
                        rows =
                            put
                              (env.new_id w.tick)
                              (record p { id = env.new_id w.tick })
                              (rows_at env w);
                        order = w.order ++ env.new_id w.tick ∷ [];
                        tick = w.tick + 1;
                      },
                    )
              ]).1
      by_down (some e) = (others w.tick w.rows safe, out)
      by_down none =
          either-IsSafe _ _ _ (others w.tick w.rows safe, out)
            (
              put-SafeRows (env.new_id w.tick) (record p { id = env.new_id w.tick }) (rows_at env w)
                  (unfold has_approval in g) (others w.tick w.rows safe),
              out,
            )

  after_create-IsSafe :
      (ws : Uuid) (trace key : Text) (r : Result Error Pipeline) (w : World)
      → IsSafe w
      → IsSafe (after_create env ws trace key r w).1
  unfolding after_create send
  after_create-IsSafe ws trace key (ok p) w s = s
  after_create-IsSafe ws trace key (err e) w s =
      if-IsSafe (is_empty key) _ _ (λ h. s)
        (λ h. found (store_get_by_key env ws key w) (key-IsSafe ws key w s))
    where
      found :
          (r : Result Error Pipeline × World)
          → IsSafe r.1
          → IsSafe
              (elim r.0 as (λ x. Reply × World) [
                | ok p ↦ replay env p r.1
                | err x ↦ refuse e r.1
              ]).1
      found (ok p, v) h = replay-IsSafe p v h
      found (err x, v) h = h

  new_lem :
      (now : Time) (id ws : Uuid) (goal : Option Uuid) (trace key : Text) (p : Pipeline)
      → new_with_idempotency now id ws goal trace key ≡ ok p
      → guarded p ≡ true
  unfolding new_with_idempotency
  new_lem now id ws goal trace key p h = ground arith

  create_new-IsSafe :
      (ws : Uuid) (goal : Option Uuid) (trace key : Text) (w : World)
      → IsSafe w
      → IsSafe (create_new env ws goal trace key w).1
  unfolding create_new
  create_new-IsSafe ws goal trace key w s = made _ refl
    where
      made :
          (r : Result Error Pipeline)
          → new_with_idempotency (env.clock w.tick) (env.new_id w.tick) ws goal trace key ≡ r
          → IsSafe
              (elim r as (λ x. Reply × World) [
                | err e ↦ refuse e w
                | ok p ↦
                    after_create env ws trace key (store_create env p w).0 (store_create env p w).1
              ]).1
      made (err e) h = s
      made (ok p) h =
          after_create-IsSafe ws trace key _ _
            (create-IsSafe p w (new_lem _ _ ws goal trace key p h) s)

  create_keyed-IsSafe :
      (ws : Uuid) (goal : Option Uuid) (trace key : Text) (w : World)
      → IsSafe w
      → IsSafe (create_keyed env ws goal trace key w).1
  unfolding create_keyed
  create_keyed-IsSafe ws goal trace key w s =
      found (store_get_by_key env ws key w) (key-IsSafe ws key w s)
    where
      found :
          (r : Result Error Pipeline × World)
          → IsSafe r.1
          → IsSafe
              (elim r.0 as (λ x. Reply × World) [
                | ok p ↦ replay env p r.1
                | err e ↦
                    if is_not_found env e
                    then create_new env ws goal trace key r.1
                    else refuse e r.1
              ]).1
      found (ok p, v) h = replay-IsSafe p v h
      found (err e, v) h =
          if-IsSafe (is_not_found env e) _ _ (λ k. create_new-IsSafe ws goal trace key v h) (λ k. h)

  pub create_with_idempotency-IsSafe :
      (ws : Uuid) (goal : Option Uuid) (trace key : Text) (w : World)
      → IsSafe w
      → IsSafe (create_with_idempotency env ws goal trace key w).1
  unfolding create_with_idempotency
  create_with_idempotency-IsSafe ws goal trace key w s =
      let k = trim_space key in
      if-IsSafe (ws == nil_uuid) _ _ (λ e. s)
        λ e.
          if-IsSafe (ltb 128 (length k)) _ _ (λ h. s)
            λ h.
              if-IsSafe (is_empty k) _ _ (λ j. create_new-IsSafe ws goal trace k w s)
                (λ j. create_keyed-IsSafe ws goal trace k w s)
