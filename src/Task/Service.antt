-- ===== src/Task/Service.antt =====
-- internal/task/service.go over infrastructure/postgres/tasks.go. The audit records, the events, whose errors are dropped, and
-- the listings are left out.
use austro_os.Common.{
  ℕ, ◌+◌, Bool, true, false, not, ◌&&◌, ◌||◌, ◌==◌, if◌then◌else◌, Option, none, some, Result, ok,
  err, [],
}
use austro_os.Common.Text.{Text, is_empty, trim_space}
use austro_os.Execution.Types.{Uuid, nil_uuid, Time}
use austro_os.Task.Lifecycle.{
  Error, not_found, workspace_mismatch, invalid_priority, invalid_status, invalid_assignee_type,
  internal, Status, Priority, AssigneeType, ai_employee, unknown_assignee, Task, valid_status,
  valid_priority, valid_assignee_type, new_task, can_transition,
}

abbrev pub Rows : Type 0
Rows = Uuid → Option Task

-- By the number of the call of the store: whether it fails, what other processes did to the rows before it, and the id and the
-- time that it takes.
pub record Surroundings : Type 0 where
  pub down : ℕ → Bool
  pub others : ℕ → Rows → Rows
  pub new_id : ℕ → Uuid
  pub clock : ℕ → Time

pub record World : Type 0 where
  pub rows : Rows
  pub tick : ℕ

-- a result and the world after it
abbrev pub Io : Type 0 → Type 0
Io A = World → Result Error A × World

abbrev pub or_return : {A B : Type 0} → Result Error A × World → (A → Io B) → Result Error B × World
or_return (ok a, w) k = k a w
or_return (err e, w) k = (err e, w)

abbrev pub put : Uuid → Option Task → Rows → Rows
put id t rows j = if j == id then t else rows j

-- `WHERE id = … AND workspace_id = …`
abbrev pub in_workspace : Uuid → Option Task → Option Task
in_workspace ws none = none
in_workspace ws (some t) = if t.workspace_id == ws then some t else none

abbrev pub or_not_found : Option Task → Result Error Task
or_not_found none = err not_found
or_not_found (some t) = ok t

-- the CHECK constraints on the status, the priority and the type of assignee
unfoldable pub row_valid : Task → Bool
row_valid t =
    valid_status t.status && valid_priority t.priority && valid_assignee_type t.assignee_type

-- what a write of the store makes of the row that it finds, or the error
abbrev pub write_found :
    {A : Type 0}
    → (Task → Result Error (A × Option Task))
    → Uuid
    → Rows
    → ℕ
    → Option Task
    → Result Error A × World
write_found f id rows n none = (err not_found, record { rows = rows; tick = n })
write_found f id rows n (some t) = elim (f t) [
  | err e ↦ (err e, record { rows = rows; tick = n })
  | ok r ↦ (ok r.0, record { rows = put id r.1 rows; tick = n })
]

-- one call of the store on the row of an id
unfoldable pub on_row :
    {A : Type 0} → Surroundings → Uuid → Uuid → (Task → Result Error (A × Option Task)) → Io A
on_row env ws id f w =
    let rows = env.others w.tick w.rows in
    if env.down w.tick
    then (err internal, record { rows = rows; tick = w.tick + 1 })
    else write_found f id rows (w.tick + 1) (in_workspace ws (rows id))

-- `TaskStore.Get`
unfoldable pub store_get : Surroundings → Uuid → Uuid → Io Task
store_get env ws id w =
    let rows = env.others w.tick w.rows in
    (
      if env.down w.tick then err internal else or_not_found (in_workspace ws (rows id)),
      record { rows = rows; tick = w.tick + 1 },
    )

-- the columns that `TaskStore.Update` writes
abbrev pub updated : Time → Task → Task → Task
updated now t old = record t {
  id = old.id;
  workspace_id = old.workspace_id;
  created_at = old.created_at;
  updated_at = now;
}

-- a row that a CHECK refuses is an error of the database
abbrev pub checked : Task → Result Error (Task × Option Task)
checked new = if row_valid new then ok (new, some new) else err internal

-- `TaskStore.Update`
unfoldable pub store_update : Surroundings → Uuid → Task → Io Task
store_update env ws t w = on_row env ws t.id (λ old. checked (updated (env.clock w.tick) t old)) w

-- `TaskStore.Delete`
unfoldable pub store_delete : Surroundings → Uuid → Uuid → Io (Unit {0})
store_delete env ws id = on_row env ws id λ t. ok (tt, none)

abbrev pub default_assignee : AssigneeType → AssigneeType
default_assignee (unknown_assignee []) = ai_employee
default_assignee a = a

abbrev pub is_there : Option Task → Bool
is_there none = false
is_there (some t) = true

abbrev pub insert_result : Rows → ℕ → Uuid → Task → Bool → Result Error Task × World
insert_result rows n id new true = (err internal, record { rows = rows; tick = n })
insert_result rows n id new false = (ok new, record { rows = put id (some new) rows; tick = n })

-- `TaskStore.Create`: the id is the database's
unfoldable pub store_create : Surroundings → Task → Io Task
store_create env t w =
    let rows = env.others w.tick w.rows in
    let id = env.new_id w.tick in
    let new : Task = record t { id = id; assignee_type = default_assignee t.assignee_type } in
    insert_result rows (w.tick + 1) id new
      (env.down w.tick || is_there (rows id) || not (row_valid new))

-- The fields of an update. A priority or a type of assignee that is empty, and a pointer that is nil, is `none`.
pub record Fields : Type 0 where
  pub title : Text
  pub priority : Option Priority
  pub description : Option Text
  pub assignee_type : Option AssigneeType
  pub assignee_id : Option Uuid
  pub deadline : Option Time

abbrev pub or_keep {ℓ} : {A : Type ℓ} → Option A → A → A
or_keep none a = a
or_keep (some b) a = b

abbrev pub or_keep_some {ℓ} : {A : Type ℓ} → Option A → Option A → Option A
or_keep_some none o = o
or_keep_some (some b) o = some b

module _ (env : Surroundings) where
  abbrev pub create_checked : Result Error Task → Io Task
  create_checked (err e) w = (err e, w)
  create_checked (ok t) w = store_create env t w

  -- `Create`
  unfoldable pub create : Uuid → Text → Priority → Text → Io Task
  create ws title priority description w =
      if ws == nil_uuid
      then (err workspace_mismatch, w)
      else create_checked
          (new_task (env.clock w.tick) nil_uuid ws (trim_space title) priority description) w

  -- the guard on the workspace that follows a read
  abbrev pub owned : {A : Type 0} → Uuid → (Task → Io A) → Task → Io A
  owned ws k t w = if t.workspace_id == ws then k t w else (err workspace_mismatch, w)

  unfoldable pub apply_transition : Uuid → Status → Task → Io Task
  apply_transition ws to t w = elim (can_transition t.status to) [
    | some e ↦ (err e, w)
    | none ↦ store_update env ws (record t { status = to }) w
  ]

  -- `Transition`
  unfoldable pub transition : Uuid → Uuid → Status → Io Task
  transition ws id to w =
      if not (valid_status to)
      then (err invalid_status, w)
      else or_return (store_get env ws id w) (owned ws (apply_transition ws to))

  abbrev pub bad_priority : Option Priority → Bool
  bad_priority none = false
  bad_priority (some p) = not (valid_priority p)

  abbrev pub bad_assignee : Option AssigneeType → Bool
  bad_assignee none = false
  bad_assignee (some a) = not (valid_assignee_type a)

  abbrev pub with_fields : Fields → Task → Task
  with_fields f t = record t {
    title = if is_empty (trim_space f.title) then t.title else trim_space f.title;
    priority = or_keep f.priority t.priority;
    description = or_keep f.description t.description;
    assignee_type = or_keep f.assignee_type t.assignee_type;
    assignee_id = or_keep_some f.assignee_id t.assignee_id;
    deadline = or_keep_some f.deadline t.deadline;
  }

  unfoldable pub apply_fields : Uuid → Fields → Task → Io Task
  apply_fields ws f t w =
      if bad_priority f.priority
      then (err invalid_priority, w)
      else if bad_assignee f.assignee_type
      then (err invalid_assignee_type, w)
      else store_update env ws (with_fields f t) w

  -- `Update`
  unfoldable pub update : Uuid → Uuid → Fields → Io Task
  update ws id f w = or_return (store_get env ws id w) (owned ws (apply_fields ws f))

  -- `Delete`
  unfoldable pub delete : Uuid → Uuid → Io (Unit {0})
  delete ws id = store_delete env ws id
