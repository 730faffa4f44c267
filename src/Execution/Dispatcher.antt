-- ===== src/Execution/Dispatcher.antt =====
-- internal/execution/dispatcher.go: one sweep of a workspace, a recovery pass and a dispatch pass.
pub mod Keeps
pub mod Leases
pub mod Rounds
pub mod Termination
use austro_os.Common.{
  ℕ, zero, suc, ◌+◌, Bool, true, false, not, ◌||◌, leb, if◌then◌else◌, Option, none, some, ok, err,
  List, [], ◌∷◌,
}
use austro_os.Common.Text.{Text, bytes}
use austro_os.Execution.Types.{
  Uuid, Time, Error, not_found, worker_lease_expired, FencedExecution, PublishMessage,
}
use austro_os.Execution.Backoff.{retry_delay}
use austro_os.Execution.Store.Tables.{Tables, Tx}
use austro_os.Execution.Store.Lease.{claim, reclaim_stale}
use austro_os.Execution.Store.Writes.{fail_and_dlq, reschedule}
use austro_os.Execution.Store.Unfenced.{record_dispatch}
use austro_os.Execution.Store.Admission.{get_due, get_stale}
use austro_os.Execution.Io.{Surroundings, Io, return, fail, ◌>>=◌, attempt, call, publish}

-- The delays are below 2 ^ 62 nanoseconds, where `time.Time.Add` of a delay does not wrap.
pub record Dispatcher : Type 0 where
  pub worker_id : Text
  pub lease_ttl : ℕ
  pub base_delay : ℕ
  pub max_delay : ℕ
  pub sweep_limit : ℕ

-- `NewDispatcher`
abbrev pub new_dispatcher : Text → ℕ → ℕ → ℕ → Dispatcher
new_dispatcher worker ttl base cap = record {
  worker_id = worker;
  lease_ttl = ttl;
  base_delay = base;
  max_delay = cap;
  sweep_limit = 100;
}

abbrev pub or_else {ℓ} : {A : Type ℓ} → Option A → A → A
or_else none a = a
or_else (some b) a = b

-- `d.now()`, read in the course of the next call
abbrev pub now : Surroundings → Io Time
now env w = (ok (env.clock w.tick), w)

abbrev pub is_not_found : Error → Bool
is_not_found not_found = true
is_not_found _ = false

-- a read does not change the tables
abbrev pub reading : {A : Type 0} → (Time → Tables → A) → Tx A
reading f s ts = (ok (f s.now ts), ts)

module _ (env : Surroundings) (d : Dispatcher) (ws : Uuid) where
  -- does recovery give up?
  unfoldable pub gives_up : FencedExecution → Bool
  gives_up f = not (or_else f.retryable_flag true) || leb f.max_attempts f.attempt

  -- `resolveRecovered`
  unfoldable pub resolve_recovered : FencedExecution → Io (Unit {0})
  resolve_recovered f =
      if gives_up f
      then call env (
          fail_and_dlq f (or_else f.last_error_code worker_lease_expired)
            (bytes "lease expired after non-retryable failure") [])
      else now env >>= λ t.
          call env
            (reschedule f (t + retry_delay f.attempt d.base_delay d.max_delay) (f.attempt + 1))

  -- The loop over the listed ids; the result tells whether one was reclaimed.
  unfoldable pub recover_ids : List Uuid → Bool → Io Bool
  recover_ids [] reclaimed = return reclaimed
  recover_ids (id ∷ ids) reclaimed =
      attempt (call env (reclaim_stale ws id d.worker_id d.lease_ttl)) >>= λ r. elim r [
        | ok f ↦ resolve_recovered f >>= λ u. recover_ids ids true
        | err e ↦ if is_not_found e then recover_ids ids reclaimed else fail e
      ]

  -- one round of `recoverStale`: is another one due?
  unfoldable pub recover_round : Io Bool
  recover_round =
      call env (reading (λ t ts. get_stale ws d.sweep_limit t ts)) >>= λ ids. recover_ids ids false

  -- `recoverStale`: the rounds, as long as one reclaimed a row. `false` when the rounds ran out.
  unfoldable pub recover_stale : ℕ → Io Bool
  recover_stale zero = return false
  recover_stale (suc rounds) =
      recover_round >>= λ again. if again then recover_stale rounds else return true

  abbrev pub message_of : FencedExecution → PublishMessage
  message_of f = record {
    workspace_id = f.workspace_id;
    execution_id = f.execution_id;
    ai_employee_id = f.ai_employee_id;
    task_id = none;
    attempt = f.attempt;
    max_attempts = f.max_attempts;
    retry_id = f.retry_id;
    generation = f.lease_generation;
    lease_expires_at = f.lease_expires_at;
    lease_owner = d.worker_id;
  }

  -- the publish of one claim and its record
  unfoldable pub dispatch_claimed : FencedExecution → Io (Unit {0})
  dispatch_claimed f = publish env (message_of f) >>= λ taken.
      call env (record_dispatch f.workspace_id f.retry_id d.worker_id f.lease_generation taken)

  -- the loop of `dispatchDue`
  unfoldable pub dispatch_ids : List Uuid → Io (Unit {0})
  dispatch_ids [] = return tt
  dispatch_ids (id ∷ ids) = attempt (call env (claim ws id d.worker_id d.lease_ttl)) >>= λ r.
      elim r [
        | ok f ↦ dispatch_claimed f >>= λ u. dispatch_ids ids
        | err e ↦ if is_not_found e then dispatch_ids ids else fail e
      ]

  -- `dispatchDue`
  unfoldable pub dispatch_due : Io (Unit {0})
  dispatch_due =
      call env (reading (λ t ts. get_due ws d.sweep_limit t ts)) >>= λ ids. dispatch_ids ids

  -- `Sweep`; the result tells whether the recovery pass came to its end
  unfoldable pub sweep : ℕ → Io Bool
  sweep rounds = recover_stale rounds >>= λ finished. dispatch_due >>= λ u. return finished
