-- ===== src/Orchestration/Store.antt =====
-- infrastructure/postgres/pipelines.go: the rows and the store's operations, with what surrounds a call of the service.
use austro_os.Common.{
  ℕ, ◌+◌, Bool, true, false, not, ◌&&◌, ◌||◌, ◌==◌, max, if◌then◌else◌, Option, none, some, Result,
  ok, err, List, [], ◌∷◌, ◌++◌,
}
use austro_os.Common.Text.{Text, bytes, text_eq, is_empty}
use austro_os.Execution.Types.{Uuid, Time}
use austro_os.Security.Throttle.{Throttler}
use austro_os.Orchestration.Pipeline.{
  Error, not_found, concurrent_update, other_error, Pipeline, Stage, PipelineStatus, research,
  script, review, publish, complete, created, active, awaiting_approval, approved, done, failed,
  valid_stage,
}

abbrev pub Rows : Type 0
Rows = Uuid → Option Pipeline

-- a message of `EventSink.PublishPipeline`
pub record Event : Type 0 where
  pub event_type : Text
  pub pipeline_id : Uuid
  pub workspace_id : Uuid
  pub stage : Stage
  pub trace_id : Text

-- a record of `AuditSink.Record`, less the fields that the formatting of the others repeats
pub record AuditRecord : Type 0 where
  pub event_type : Text
  pub outcome : Text
  pub workspace_id : Uuid
  pub pipeline_id : Uuid
  pub actor_type : Text
  pub actor_id : Text
  pub stage : Stage

-- `PublicationPort`
pub record PublicationPort : Type 0 where
  pub prepare : ℕ → Pipeline → Result Error Uuid
  pub approve : ℕ → Uuid → Text → Option Error
  pub deliver : ℕ → Uuid → Text → Result Error Text

-- What is outside of the service, by the number of the call: an error of the store, what other processes did to the rows
-- before a call of the store, the ids and times it takes, the ports of the stages, the event sink and the two values of
-- the context.
pub record Surroundings : Type 0 where
  pub down : ℕ → Option Error
  pub others : ℕ → Rows → Rows
  pub new_id : ℕ → Uuid
  pub clock : ℕ → Time
  pub research_port : ℕ → Pipeline → Result Error Text
  pub script_port : ℕ → Pipeline → Text → Result Error Text
  pub review_port : ℕ → Pipeline → Result Error Bool
  pub publish_port : ℕ → Pipeline → Text → Result Error Text
  pub publication : Option PublicationPort
  pub sends : ℕ → Event → Option Error
  pub trace : Text
  pub actor : Text

-- The rows, the ids in the order of creation, the budget of each workspace, what was sent and recorded, the pipelines that
-- were given to a publisher, and the number of the next call.
pub record World : Type 0 where
  pub rows : Rows
  pub order : List Uuid
  pub throttle : Throttler Uuid
  pub events : List Event
  pub audit : List AuditRecord
  pub delivered : List Pipeline
  pub tick : ℕ

abbrev pub Io : Type 0 → Type 0
Io A = World → A × World

-- CHECK pipelines_stage_status_valid and pipelines_stage_valid
unfoldable pub stage_status_valid : Stage → PipelineStatus → Bool
stage_status_valid stage failed = valid_stage stage
stage_status_valid research created = true
stage_status_valid script active = true
stage_status_valid publish active = true
stage_status_valid review awaiting_approval = true
stage_status_valid review approved = true
stage_status_valid complete done = true
stage_status_valid stage status = false

-- the rows at a call of the store
abbrev pub rows_at : Surroundings → World → Rows
rows_at env w = env.others w.tick w.rows

abbrev pub next_tick : World → World
next_tick w = record w { tick = w.tick + 1 }

abbrev pub in_workspace : Uuid → Option Pipeline → Option Pipeline
in_workspace ws none = none
in_workspace ws (some p) = if p.workspace_id == ws then some p else none

abbrev pub or_not_found : Option Pipeline → Result Error Pipeline
or_not_found none = err not_found
or_not_found (some p) = ok p

-- a call of the store that may fail before it does anything
abbrev pub unless_down : {A : Type 0} → Option Error → Result Error A → Result Error A
unless_down (some e) r = err e
unless_down none r = r

-- `Get`
unfoldable pub store_get : Surroundings → Uuid → Uuid → Io (Result Error Pipeline)
store_get env ws id w =
    let rows = rows_at env w in
    (
      unless_down (env.down w.tick) (or_not_found (in_workspace ws (rows id))),
      record w { rows = rows; tick = w.tick + 1 },
    )

-- `WHERE workspace_id = $1 AND idempotency_key = $2`
unfoldable pub find_key : Uuid → Text → Rows → List Uuid → Option Pipeline
find_key ws key rows [] = none
find_key ws key rows (id ∷ ids) =
    let rest = find_key ws key rows ids in
    elim (in_workspace ws (rows id)) [
      | none ↦ rest
      | some p ↦ if text_eq p.idempotency_key key then some p else rest
    ]

-- `GetByIdempotency`
unfoldable pub store_get_by_key : Surroundings → Uuid → Text → Io (Result Error Pipeline)
store_get_by_key env ws key w =
    let rows = rows_at env w in
    (
      unless_down (env.down w.tick) (or_not_found (find_key ws key rows w.order)),
      record w { rows = rows; tick = w.tick + 1 },
    )

abbrev pub put : Uuid → Pipeline → Rows → Rows
put id p rows j = if j == id then some p else rows j

-- what `UPDATE` leaves of the row `old`, and `previousVersion`
abbrev pub updated_row : Time → Pipeline → Pipeline → Pipeline
updated_row now p old = record p {
  id = old.id;
  workspace_id = old.workspace_id;
  goal_id = old.goal_id;
  created_at = old.created_at;
  updated_at = now;
  version = old.version + 1;
}

abbrev pub previous_version : Pipeline → ℕ
previous_version p = max p.version 1

-- the row that the WHERE of the update finds
abbrev pub same_version : Uuid → Pipeline → Option Pipeline → Option Pipeline
same_version ws p none = none
same_version ws p (some old) =
    if (old.workspace_id == ws) && (old.version == previous_version p) then some old else none

-- The update against the row found; a row that the CHECK refuses is an error of the database.
unfoldable pub update_found :
    Surroundings
    → Pipeline
    → World
    → Rows
    → Option Error
    → Option Pipeline
    → Result Error Pipeline × World
update_found env p w rows (some e) found = (err e, record w { rows = rows; tick = w.tick + 1 })
update_found env p w rows none none =
    (err concurrent_update, record w { rows = rows; tick = w.tick + 1 })
update_found env p w rows none (some old) =
    let now = env.clock w.tick in
    if stage_status_valid p.stage p.status
    then (
      ok (record p { updated_at = now; version = previous_version p + 1 }),
      record w { rows = put p.id (updated_row now p old) rows; tick = w.tick + 1 },
    )
    else (
      err (other_error (bytes "pipelines_stage_status_valid")),
      record w { rows = rows; tick = w.tick + 1 },
    )

-- `Update`
unfoldable pub store_update : Surroundings → Uuid → Pipeline → Io (Result Error Pipeline)
store_update env ws p w =
    let rows = rows_at env w in
    update_found env p w rows (env.down w.tick) (same_version ws p (rows p.id))

abbrev pub is_there : Option Pipeline → Bool
is_there none = false
is_there (some p) = true

-- `Create`: the id is the database's, and the primary key and the unique index over (workspace_id, idempotency_key) hold.
unfoldable pub store_create : Surroundings → Pipeline → Io (Result Error Pipeline)
store_create env p w =
    let rows = rows_at env w in
    let id = env.new_id w.tick in
    let taken =
      is_there (rows id)
      || (not (is_empty p.idempotency_key)
          && is_there (find_key p.workspace_id p.idempotency_key rows w.order)) in
    elim (env.down w.tick) [
      | some e ↦ (err e, record w { rows = rows; tick = w.tick + 1 })
      | none ↦
          if taken
          then (
            err (other_error (bytes "duplicate key")),
            record w { rows = rows; tick = w.tick + 1 },
          )
          else (
            ok (record p { id = id }),
            record w {
              rows = put id (record p { id = id }) rows;
              order = w.order ++ id ∷ [];
              tick = w.tick + 1;
            },
          )
    ]
