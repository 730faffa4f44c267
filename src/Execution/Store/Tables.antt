-- ===== src/Execution/Store/Tables.antt =====
-- The tables of infrastructure/database/database.go that the execution store works on, as
-- infrastructure/postgres/executions.go reads and writes them, with the keys and checks that can
-- refuse one of its inserts.
use austro_os.Common.{
  ℕ, ◌+◌, ◌*◌, ◌/◌, Bool, true, false, ◌&&◌, ◌||◌, ltb, leb, ◌==◌, if◌then◌else◌, Option, none,
  some, List, [], ◌∷◌, ◌++◌, any, Result, ok, err,
}
use austro_os.Common.Text.{Text, text_eq}
use austro_os.Execution.Types.{
  Uuid, Time, second, Error, internal, Execution, is_running, Retry, RetryState, RetryOutcome,
  ErrorCode, FencedExecution, MaterializedRequest,
}

pub record DlqEntry : Type 0 where
  pub workspace_id : Uuid
  pub execution_id : Uuid
  pub attempt : ℕ
  pub error_code : ErrorCode
  pub error_detail : Option Text
  pub contexts_snapshot : Option Text

pub record DispatchEntry : Type 0 where
  pub workspace_id : Uuid
  pub retry_id : Uuid
  pub worker_id : Text
  pub generation : ℕ
  pub published : Bool

-- A row of execution_contexts as an INSERT names it: a column that it leaves out is `none`.
pub record ContextRow : Type 0 where
  pub workspace_id : Option Uuid
  pub execution_id : Uuid
  pub request : MaterializedRequest

pub record Employee : Type 0 where
  pub workspace_id : Uuid
  pub max_concurrent_executions : ℕ

-- `order` lists the ids of ai_executions by created_at.
pub record Tables : Type 0 where
  pub order : List Uuid
  pub executions : Uuid → Option Execution
  pub retries : List Retry
  pub dlq : List DlqEntry
  pub dispatch_log : List DispatchEntry
  pub contexts : List ContextRow
  pub employees : Uuid → Option Employee

-- What the surroundings supply to one transaction: NOW() and the values of uuid.New and
-- gen_random_uuid.
pub record Supply : Type 0 where
  pub now : Time
  pub new_execution_id : Uuid
  pub new_retry_id : Uuid

-- A transaction returns its result and the tables; `atomically` is the deferred Rollback.
abbrev pub Tx : Type 0 → Type 0
Tx A = Supply → Tables → Result Error A × Tables

abbrev pub commit_or_rollback :
    {A : Type 0} → Tables → Result Error (A × Tables) → Result Error A × Tables
commit_or_rollback ts (ok (a, ts')) = (ok a, ts')
commit_or_rollback ts (err e) = (err e, ts)

-- `NOW() + make_interval(secs => int(leaseTTL.Seconds()))`
abbrev pub lease_until : Time → ℕ → Time
lease_until now ttl = now + ttl / second * second

abbrev pub opt_text_is : Option Text → Text → Bool
opt_text_is none t = false
opt_text_is (some s) t = text_eq s t

-- `col IS NULL OR col <= NOW()`
abbrev pub null_or_past : Option Time → Time → Bool
null_or_past none now = true
null_or_past (some t) now = leb t now

-- `col < NOW()`, which is not true of NULL
abbrev pub before_now : Option Time → Time → Bool
before_now none now = false
before_now (some t) now = ltb t now

-- `WHERE id = $1 AND workspace_id = $2 AND …`
abbrev pub filter_row : Uuid → (Execution → Bool) → Option Execution → Option Execution
filter_row ws p none = none
filter_row ws p (some e) = if e.workspace_id == ws && p e then some e else none

unfoldable pub find_execution : Uuid → Uuid → (Execution → Bool) → Tables → Option Execution
find_execution ws id p ts = filter_row ws p (ts.executions id)

-- the row `id` becomes `e`
unfoldable pub put_execution : Uuid → Execution → Tables → Tables
put_execution id e ts = record ts { executions = λ j. if j == id then some e else ts.executions j }

-- status = 'running' AND lease_owner = … AND lease_generation = …
unfoldable pub holds_lease : FencedExecution → Execution → Bool
holds_lease f e =
    is_running e.status
    && opt_text_is e.lease_owner f.lease_owner
    && (e.lease_generation == f.lease_generation)

abbrev pub is_live : RetryState → Bool
is_live RetryState.claimed = true
is_live RetryState.dispatched = true
is_live _ = false

abbrev pub is_waiting : RetryState → Bool
is_waiting RetryState.pending = true
is_waiting _ = false

-- the retry belongs to the execution
abbrev pub owned_by : Uuid → Uuid → Retry → Bool
owned_by ws id r = (r.execution_id == id) && (r.workspace_id == ws)

abbrev pub waiting_of : Uuid → Uuid → Retry → Bool
waiting_of ws id r = owned_by ws id r && is_waiting r.state

abbrev pub live_of : Uuid → Uuid → Retry → Bool
live_of ws id r = owned_by ws id r && is_live r.state

abbrev finish : Time → RetryOutcome → Retry → Retry
finish now o r = record r {
  state = RetryState.processed;
  outcome = some o;
  worker_id = none;
  completed_at = some now;
}

-- `UPDATE ai_execution_retries SET state = 'processed', … WHERE …`
unfoldable pub finish_where : (Retry → Bool) → Time → RetryOutcome → List Retry → List Retry
finish_where p now o [] = []
finish_where p now o (r ∷ rs) = (if p r then finish now o r else r) ∷ finish_where p now o rs

-- the primary key, and the partial unique index over the outstanding rows of an execution
unfoldable pub retry_conflict : Retry → List Retry → Bool
retry_conflict r rs =
    any (λ q. q.id == r.id) rs
    || any
        (λ q. waiting_of r.workspace_id r.execution_id q || live_of r.workspace_id r.execution_id q)
        rs

-- `CHECK (retry_seq > 0)`, then the keys
unfoldable pub insert_retry : Retry → Tables → Result Error Tables
insert_retry r ts =
    if (r.retry_seq == 0) || retry_conflict r ts.retries
    then err internal
    else ok (record ts { retries = ts.retries ++ r ∷ [] })

abbrev same_context : Uuid → ContextRow → Bool
same_context id c = c.execution_id == id

-- `workspace_id UUID NOT NULL` has no default, and execution_id is unique.
abbrev pub insert_context : ContextRow → Tables → Result Error Tables
insert_context c ts = elim c.workspace_id [
  | none ↦ err internal
  | some _ ↦
      if any (same_context c.execution_id) ts.contexts
      then err internal
      else ok (record ts { contexts = ts.contexts ++ c ∷ [] })
]
