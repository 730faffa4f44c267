-- ===== src/Execution/Worker.antt =====
-- internal/execution/worker.go: one delivered attempt.
pub mod Keeps
pub mod Outcomes
pub mod Decisions
pub mod Lost
use austro_os.Common.{
  ℕ, zero, suc, ◌+◌, Bool, true, false, not, ◌&&◌, ◌||◌, ltb, ◌==◌, min, if◌then◌else◌, Option,
  none, some, Result, ok, err, List, [], ◌∷◌, ◌++◌,
}
use austro_os.Common.Text.{Text, bytes, is_empty}
use austro_os.Execution.Types.{
  nil_uuid, Time, Error, invalid_input, FencedExecution, MaterializedRequest, PublishMessage,
}
use austro_os.Execution.Classify.{Cause, classify}
use austro_os.Execution.Backoff.{retry_delay}
use austro_os.Execution.Store.Tables.{Tables, Tx}
use austro_os.Execution.Store.Writes.{heartbeat, persist_error, complete, fail_and_dlq, reschedule}
use austro_os.Execution.Store.Admission.{materialize}
use austro_os.Execution.Io.{Surroundings, Io, return, ◌>>=◌, attempt, call}

pub data RunOutcome : Type 0 where
  completed scheduled dead_lettered abandoned : RunOutcome

-- what `Run` returns
abbrev pub Outcome : Type 0
Outcome = RunOutcome × Option Error

pub record Worker : Type 0 where
  pub worker_id : Text
  pub lease_ttl : ℕ
  pub execution_window : ℕ
  pub base_delay : ℕ
  pub max_delay : ℕ

-- The provider's call and what happens in the course of it: its answer to an instruction under a deadline, the JSON of
-- the answer, how often the ticker of the heartbeats fires, whether the deadline passes before anything cancels the run,
-- and whether the caller cancels it. Then the text of an error and the JSON of the request for the DLQ.
pub record Provider : Type 0 where
  pub answer : Text → Time → Result Cause Text
  pub marshal : Text → Result Cause Text
  pub beats : ℕ
  pub expires_first : Bool
  pub caller_cancels : Bool
  pub text_of : Cause → Text
  pub encode : MaterializedRequest → Text

-- `fencedFrom`
unfoldable pub fenced_from : PublishMessage → Text → FencedExecution
fenced_from msg worker = record {
  execution_id = msg.execution_id;
  workspace_id = msg.workspace_id;
  lease_owner = if is_empty msg.lease_owner then worker else msg.lease_owner;
  lease_generation = msg.generation;
  lease_expires_at = msg.lease_expires_at;
  attempt = msg.attempt;
  max_attempts = msg.max_attempts;
  retry_id = msg.retry_id;
  ai_employee_id = msg.ai_employee_id;
  last_error_code = none;
  retryable_flag = none;
  next_retry_at = none;
}

-- `strings.Join(…, ", ")`
abbrev join_comma : List Text → Text
join_comma [] = []
join_comma (t ∷ []) = t
join_comma (t ∷ u ∷ ts) = t ++ bytes ", " ++ join_comma (u ∷ ts)

-- a part that is left out if there is nothing to say
abbrev part : Bool → Text → Text → Text → Text
part true before t end = []
part false before t end = before ++ t ++ end

abbrev no_items : List Text → Bool
no_items [] = true
no_items (t ∷ ts) = false

-- `instruction`
unfoldable pub instruction : MaterializedRequest → Text
instruction m =
    bytes "You are "
    ++ m.ai_employee_name
    ++ bytes ", "
    ++ m.ai_employee_role
    ++ bytes "."
    ++ part (is_empty m.department_name) (bytes " Department: ") m.department_name (bytes ".")
    ++ part (is_empty m.team_name) (bytes " Team: ") m.team_name (bytes ".")
    ++ part (no_items m.capabilities) (bytes " Capabilities: ") (join_comma m.capabilities)
        (bytes ".")
    ++ part (is_empty m.task_title) (10 ∷ bytes "Task: ") m.task_title (bytes ".")
    ++ part (is_empty m.task_description) (10 ∷ []) m.task_description []

-- `if err != nil { return OutcomeAbandoned, err }`
abbrev pub or_else_abandon : {A : Type 0} → Result Error A → (A → Io Outcome) → Io Outcome
or_else_abandon (ok a) k = k a
or_else_abandon (err e) k = return (abandoned, some e)

-- a read of the store
abbrev pub reading : {A : Type 0} → (Tables → Result Error A) → Tx A
reading f s ts = (f ts, ts)

-- `msg.WorkspaceID == uuid.Nil || …`
unfoldable pub is_invalid : PublishMessage → Bool
is_invalid msg =
    (msg.workspace_id == nil_uuid) || (msg.execution_id == nil_uuid) || (msg.retry_id == nil_uuid)

module _ (env : Surroundings) (wk : Worker) (prov : Provider) where
  -- The goroutine of the heartbeats: is the lease lost?
  unfoldable pub beating : FencedExecution → ℕ → Io Bool
  beating f zero = return false
  beating f (suc n) = attempt (call env (heartbeat f wk.lease_ttl)) >>= λ r. elim r [
    | ok u ↦ beating f n
    | err e ↦ return true
  ]

  unfoldable pub give_back : FencedExecution → Io Outcome
  give_back f w =
      (attempt (
            call env (
              reschedule f (env.clock w.tick + retry_delay f.attempt wk.base_delay wk.max_delay)
                (f.attempt + 1)))
          >>= λ r. or_else_abandon r λ u. return (scheduled, none))
        w

  unfoldable pub dead_letter : FencedExecution → MaterializedRequest → Cause → Io Outcome
  dead_letter f m cause =
      attempt (
        call env (fail_and_dlq f (classify (some cause)).code (prov.text_of cause) (prov.encode m)))
      >>= λ r. or_else_abandon r λ u. return (dead_lettered, none)

  -- `finalizeFailure`
  unfoldable pub finalize_failure : FencedExecution → MaterializedRequest → Cause → Io Outcome
  finalize_failure f m cause =
      let cl = classify (some cause) in
      attempt (call env (persist_error f cl.code cl.retry (prov.text_of cause))) >>= λ r.
      or_else_abandon r
        λ u. if cl.retry && ltb f.attempt f.max_attempts then give_back f else dead_letter f m cause

  unfoldable pub finish : FencedExecution → Text → Io Outcome
  finish f payload = attempt (call env (complete f payload)) >>= λ r.
      or_else_abandon r λ u. return (completed, none)

  -- what follows the provider's answer
  unfoldable pub finalize : FencedExecution → MaterializedRequest → Result Cause Text → Io Outcome
  finalize f m (err cause) = finalize_failure f m cause
  finalize f m (ok payload) = finish f payload

  abbrev pub payload_of : Result Cause Text → Result Cause Text
  payload_of (ok a) = prov.marshal a
  payload_of (err cause) = err cause

  -- from the provider's call on; `t` is the time at which the run started
  unfoldable pub run_attempt : PublishMessage → Time → MaterializedRequest → Io Outcome
  run_attempt msg t m =
      let f = fenced_from msg wk.worker_id in
      beating f prov.beats >>= λ lost.
      if not prov.expires_first && (lost || prov.caller_cancels)
      then return (abandoned, none)
      else finalize f m (
          payload_of
            (prov.answer (instruction m) (min msg.lease_expires_at (t + wk.execution_window))))

  -- `Run`
  unfoldable pub run : PublishMessage → Io Outcome
  run msg w =
      if is_invalid msg
      then (ok (dead_lettered, some invalid_input), w)
      else (attempt (call env (reading (materialize msg.workspace_id msg.execution_id))) >>= λ r.
            or_else_abandon r (run_attempt msg (env.clock w.tick)))
          w
