-- ===== src/Execution/Worker/Outcomes.antt =====
-- What the outcome of a run says of the execution.
use austro_os.Common.{
  ℕ, ◌≡◌, refl, sym, false, Option, none, some, Result, ok, err, ◌>>=◌, List, arith, Option-cases,
  inl, inr,
}
use mathlib.Core.Path.{subst}
use austro_os.Common.Text.{Text}
use austro_os.Execution.Types.{
  Uuid, Time, Error, ErrorCode, Execution, FencedExecution, PublishMessage, Status,
}
use austro_os.Execution.Store.Tables.{
  Tables, Supply, commit_or_rollback, find_execution, put_execution, holds_lease,
}
use austro_os.Execution.Store.Lease.{nullable}
use austro_os.Execution.Store.Writes.{
  complete, fail_and_dlq, reschedule, fenced_update, back_to_pending, done,
}
use austro_os.Execution.Store.Requeue.{insert_retry-eq-ok}
use austro_os.Execution.Io.{Surroundings, World}
use austro_os.Execution.Io.Hoare.{Post, PostTx}
use austro_os.Execution.Worker.{
  RunOutcome, completed, scheduled, dead_lettered, abandoned, Outcome, Worker, Provider,
  fenced_from, run,
}
use austro_os.Execution.Worker.Keeps.{run-Hoare}

-- the status that an outcome without an error promises
abbrev pub promised : RunOutcome → Option Status
promised completed = some Status.completed
promised scheduled = some Status.pending
promised dead_lettered = some Status.failed
promised abandoned = none

-- the row has the status, if one is promised
abbrev pub HasStatus : Uuid → Option Status → Tables → Type 0
HasStatus id none ts = Unit
HasStatus id (some st) ts = (e : Execution) × (ts.executions id ≡ some e) × (e.status ≡ st)

-- what a returned outcome says: nothing where an error comes with it
abbrev pub Truthful : Uuid → Outcome → Tables → Type 0
Truthful id (o, none) ts = HasStatus id (promised o) ts
Truthful id (o, some e) ts = Unit

abbrev Anything : Tables → List PublishMessage → Type 0
Anything ts msgs = Unit

module _ (f : FencedExecution) (s : Supply) (ts : Tables) (msgs : List PublishMessage) where
  abbrev Leaves : Status → Result Error (Unit {0}) × Tables → Type 0
  Leaves st = PostTx Anything (λ u ts' msgs. HasStatus f.execution_id (some st) ts') msgs

  completed_lem : (payload : Text) → Leaves Status.completed (complete f payload s ts)
  unfolding complete fenced_update put_execution
  completed_lem payload =
      elim (Option-cases (find_execution f.workspace_id f.execution_id (holds_lease f) ts)) [
        | inl h ↦ rw h tt
        | inr (e, h) ↦
            let e' : Execution = record e {
              status = Status.completed;
              result_json = some payload;
              completed_at = some s.now;
              lease_owner = none;
              lease_expires_at = none;
            } in
            rw h (e', ground arith, refl)
      ]

  failed_lem :
      (code : ErrorCode) (detail snapshot : Text)
      → Leaves Status.failed (fail_and_dlq f code detail snapshot s ts)
  unfolding fail_and_dlq fenced_update put_execution
  failed_lem code detail snapshot =
      elim (Option-cases (find_execution f.workspace_id f.execution_id (holds_lease f) ts)) [
        | inl h ↦ rw h tt
        | inr (e, h) ↦
            let e' : Execution = record e {
              status = Status.failed;
              last_error_code = some code;
              retryable_flag = some false;
              error_detail = nullable detail;
              failed_at = some s.now;
              lease_owner = none;
              lease_expires_at = none;
            } in
            rw h (e', ground arith, refl)
      ]

  inserted_lem :
      (next : Time) (e : Execution) (r : Result Error Tables) (ts' : Tables)
      → ((ts'' : Tables)
          → r ≡ ok ts''
          → ts''.executions f.execution_id ≡ some (back_to_pending next e))
      → Leaves Status.pending (commit_or_rollback ts (r >>= done))
  inserted_lem next e (err x) ts' h = tt
  inserted_lem next e (ok ts'') ts' h = (back_to_pending next e, h ts'' refl, refl)

  pending_lem : (next : Time) (seq : ℕ) → Leaves Status.pending (reschedule f next seq s ts)
  unfolding reschedule fenced_update put_execution
  pending_lem next seq =
      elim (Option-cases (find_execution f.workspace_id f.execution_id (holds_lease f) ts)) [
        | inl h ↦ rw h tt
        | inr (e, h) ↦ rw h (
            inserted_lem next e _ ts λ ts'' q.
              subst (λ (x : Tables). x.executions f.execution_id ≡ some (back_to_pending next e))
                (sym (insert_retry-eq-ok _ _ q)) (ground arith))
      ]

-- what a run returned
abbrev pub Returned : (Outcome → Tables → Type 0) → Result Error Outcome × World → Type 0
Returned R (ok o, w) = R o w.tables
Returned R (err e, w) = Unit

pub Post-Returned :
    (P : Tables → List PublishMessage → Type 0) (R : Outcome → Tables → Type 0)
    (x : Result Error Outcome × World)
    → Post P (λ o ts msgs. R o ts) x
    → Returned R x
Post-Returned P R (ok o, w) h = h
Post-Returned P R (err e, w) h = tt

module _ (env : Surroundings) (wk : Worker) (prov : Provider) (msg : PublishMessage) where
  -- What a run reports without an error is so when it returns: a completed execution is completed, a scheduled one is
  -- pending again, and a dead-lettered one is failed; whatever the provider answers and other processes do before.
  pub run-Truthful : (w : World) → Returned (Truthful msg.execution_id) (run env wk prov msg w)
  run-Truthful w =
      let f = fenced_from msg wk.worker_id in
      Post-Returned Anything (Truthful msg.execution_id) _ (
        run-Hoare env wk prov msg Anything (λ o ts msgs. Truthful msg.execution_id o ts)
          (λ n ts msgs p. tt) quiet (λ s ts msgs p. any_result _ msgs)
          (λ c r t s ts msgs p. any_result _ msgs)
          (λ payload s ts msgs p. unfold fenced_from in completed_lem f s ts msgs payload)
          (λ next seq s ts msgs p. unfold fenced_from in pending_lem f s ts msgs next seq)
          (λ c t j s ts msgs p. unfold fenced_from in failed_lem f s ts msgs c t j)
          (λ ts msgs h p. tt) w tt)
    where
      quiet :
          (e : Option Error) (ts : Tables) (msgs : List PublishMessage)
          → Unit {0}
          → Truthful msg.execution_id (abandoned, e) ts
      quiet none ts msgs p = tt
      quiet (some e) ts msgs p = tt

      any_result :
          (r : Result Error (Unit {0}) × Tables) (msgs : List PublishMessage)
          → PostTx Anything (λ u. Anything) msgs r
      any_result (ok u, ts) msgs = tt
      any_result (err e, ts) msgs = tt
