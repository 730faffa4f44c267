-- ===== src/Task/Overwrites.antt =====
-- What an update does to a change that another process made after the update had read the task.
use austro_os.Common.{
  ℕ, ◌+◌, ◌≡◌, refl, Bool, true, false, ◌==◌, if◌then◌else◌, Option, none, some, Result, ok, err,
  arith,
}
use mathlib.Core.Path.{subst}
use austro_os.Execution.Types.{Uuid}
use austro_os.Task.Lifecycle.{Error, internal, Status, Task}
use austro_os.Task.Service.{
  Rows, Surroundings, World, or_return, put, in_workspace, row_valid, write_found, on_row,
  store_get, updated, checked, or_not_found, store_update, owned, Fields, with_fields, apply_fields,
  bad_priority, bad_assignee, update,
}

-- a status that a run returns, where it returns a task
abbrev pub Returns : Status → Result Error Task × World → Type 0
Returns s (ok t, w) = t.status ≡ s
Returns s (err e, w) = Unit

module _ (env : Surroundings) where
  written-Returns :
      (s : Status) (id : Uuid) (rows : Rows) (n : ℕ) (new : Task → Task) (found : Option Task)
      → ((old : Task) → (new old).status ≡ s)
      → Returns s (write_found (λ old. checked (new old)) id rows n found)
  written-Returns s id rows n new none h = tt
  written-Returns s id rows n new (some old) h = by_test (row_valid (new old))
    where
      good : Result Error (Task × Option Task)
      good = ok (new old, some (new old))

      bad : Result Error (Task × Option Task)
      bad = err internal

      by_test :
          (b : Bool)
          → Returns s (elim (if b then good else bad) as (λ x. Result Error Task × World) [
            | err e ↦ (err e, record { rows = rows; tick = n })
            | ok r ↦ (ok r.0, record { rows = put id r.1 rows; tick = n })
          ])
      by_test true = h old
      by_test false = tt

  if-Returns :
      (s : Status) (b : Bool) (x y : Result Error Task × World)
      → Returns s x
      → Returns s y
      → Returns s (if b then x else y)
  if-Returns s true x y h g = h
  if-Returns s false x y h g = g

  store_update-Returns :
      (ws : Uuid) (t : Task) (w : World) → Returns t.status (store_update env ws t w)
  unfolding store_update on_row
  store_update-Returns ws t w =
      if-Returns t.status (env.down w.tick) _ _ tt
        (written-Returns t.status t.id _ (w.tick + 1) (updated (env.clock w.tick) t) _ λ old. refl)

  -- An update that returns a task returns it in the status that its read found, whatever status another process has
  -- given the row between the read and the write.
  pub update_keeps_read_status :
      (ws id : Uuid) (f : Fields) (w : World) (old : Task)
      → env.others w.tick w.rows id ≡ some old
      → Returns old.status (update env ws id f w)
  unfolding update store_get apply_fields
  update_keeps_read_status ws id f w old here = by_read _ _ λ t q. found _ _ t q here
    where
      found :
          (b : Bool) (o : Option Task) (t : Task)
          → (if b then err internal else or_not_found (in_workspace ws o)) ≡ ok t
          → o ≡ some old
          → t.status ≡ old.status
      found b o t q h = ground arith

      by_read :
          (v : World) (r : Result Error Task)
          → ((t : Task) → r ≡ ok t → t.status ≡ old.status)
          → Returns old.status (or_return (r, v) (owned env ws (apply_fields env ws f)))
      by_read v (err e) h = tt
      by_read v (ok t) h =
          subst (λ s. Returns s (or_return (ok t, v) (owned env ws (apply_fields env ws f))))
            (h t refl)
            (if-Returns t.status (t.workspace_id == ws) _ _
              (if-Returns t.status (bad_priority env f.priority) _ _ tt (
                if-Returns t.status (bad_assignee env f.assignee_type) _ _ tt
                  (store_update-Returns ws (with_fields env f t) v)))
              tt)
