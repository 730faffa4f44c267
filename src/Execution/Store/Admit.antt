-- ===== src/Execution/Store/Admit.antt =====
-- AdmissionAdmit keeps the executions and their retries in lockstep.
use austro_os.Common.{
  ℕ, ◌≡◌, refl, sym, ap, ◌∙◌, Bool, false, ◌==◌, leb, if◌then◌else◌, Option, none, some, [], ◌∷◌,
  ◌++◌, ok, reject_if, reject_if-eq-ok, arith,
}
use mathlib.Core.Path.{subst}
use austro_os.Common.Text.{Text}
use austro_os.Execution.Types.{
  Uuid, Execution, Retry, RetryState, Status, capacity_exceeded, MaterializedRequest,
}
use austro_os.Execution.Store.Tables.{
  Tables, Supply, commit_or_rollback, put_execution, insert_retry,
}
use austro_os.Execution.Store.Admission.{
  AdmitRequest, admission_admit, admit_or_replay, admit_new, insert_execution, new_execution,
  first_retry, insert_snapshot, capacity, active_count, checked_attempts,
}
use austro_os.Execution.Store.Counts.{SameElsewhere, waiting-append, live-append, uncleared-append}
use austro_os.Execution.Store.Lockstep.{RowInv, IsLockstep, put-IsLockstep}
use austro_os.Execution.Store.Preserve.{SameElsewhere-refl}
use austro_os.Execution.Store.Requeue.{
  bind_keeps, insert_retry-eq-ok, append-SameElsewhere, waiting-new, live-new, uncleared-new,
}

pub insert_execution-eq-ok :
    (id : Uuid) (e : Execution) (key : Text) (ts : Tables) {ts' : Tables}
    → insert_execution id e key ts ≡ ok ts'
    → (ts.executions id ≡ none)
      × (ts' ≡ put_execution id e (record ts { order = ts.order ++ id ∷ [] }))
unfolding insert_execution
insert_execution-eq-ok id e key ts h = ground arith

-- A snapshot row touches neither executions nor retries: without a context nothing is inserted, and
-- with one the INSERT is refused.
pub insert_snapshot-eq-ok :
    (id : Uuid) (m : Option MaterializedRequest) (ts : Tables) {ts' : Tables}
    → insert_snapshot id m ts ≡ ok ts'
    → ts' ≡ ts
unfolding insert_snapshot
insert_snapshot-eq-ok id none ts h = cc
insert_snapshot-eq-ok id (some m) ts h = cc

-- A pending row with its first retry, where there was no row.
module _ (id : Uuid) (e : Execution) (r : Retry) (ts : Tables) (inv : IsLockstep ts)
    (absent : ts.executions id ≡ none) (is_new : r.state ≡ RetryState.pending)
    (of_ws : r.workspace_id ≡ e.workspace_id) (of_id : r.execution_id ≡ id)
    (idle : e.status ≡ Status.pending) (owner : e.lease_owner ≡ none)
    (expiry : e.lease_expires_at ≡ none) (fresh : e.attempt ≡ 0) where
  admitted-RowInv : RowInv id e (ts.retries ++ r ∷ [])
  admitted-RowInv = ground (
    arith,
    inv.no_orphan e.workspace_id id absent,
    waiting-append r e.workspace_id id ts.retries,
    live-append r e.workspace_id id ts.retries,
    waiting-new r is_new e.workspace_id id of_ws of_id,
    live-new r is_new e.workspace_id id,
  )

  admitted-IsLockstep :
      (ts' : Tables)
      → ((j : Uuid) → ts'.executions j ≡ (if j == id then some e else ts.executions j))
      → ts'.retries ≡ ts.retries ++ r ∷ []
      → IsLockstep ts'
  admitted-IsLockstep ts' there rs =
      put-IsLockstep id e ts ts' inv there (rw rs admitted-RowInv)
        (rw rs (
          subst (λ k. SameElsewhere k ts.retries (ts.retries ++ r ∷ [])) of_id
            (append-SameElsewhere r is_new ts.retries ts.retries
              (SameElsewhere-refl r.execution_id ts.retries))))
        (rw rs (omega (arith, uncleared-append r ts.retries, uncleared-new r is_new)))

-- The tables that an admission commits.
abbrev pub admitted : AdmitRequest → Text → ℕ → Supply → Tables → Tables
admitted req hash attempts s ts =
    record (put_execution s.new_execution_id (new_execution s.new_execution_id req hash attempts)
      (record ts { order = ts.order ++ s.new_execution_id ∷ [] })) {
        retries = ts.retries ++ first_retry s.new_retry_id s.new_execution_id req.workspace_id ∷ [];
      }

-- To show that an admission keeps `P`: it rolls back, replays, or inserts a row below the capacity of
-- the employee, where there was none.
module _ (P : Tables → Type 0) (req : AdmitRequest) (hash : Text) (s : Supply) (ts : Tables)
    (before : P ts)
    (inserted : (cap attempts : ℕ)
      → capacity req.workspace_id req.ai_employee_id ts ≡ ok cap
      → leb cap (active_count req.workspace_id req.ai_employee_id ts) ≡ false
      → ts.executions s.new_execution_id ≡ none
      → P (admitted req hash attempts s ts)) where
  admit_new_keeps : P (commit_or_rollback ts (admit_new req hash s ts)).1
  unfolding admit_new put_execution
  admit_new_keeps =
      let ws = req.workspace_id in
      let id = s.new_execution_id in
      let r = first_retry s.new_retry_id id ws in
      bind_keeps P ts (capacity ws req.ai_employee_id ts) _ before λ ceiling c.
        bind_keeps P ts (reject_if (full ceiling) capacity_exceeded) _ before λ _ room.
          bind_keeps P ts (checked_attempts req.max_attempts) _ before λ attempts _.
            let e = new_execution id req hash attempts in
            bind_keeps P ts (insert_execution id e req.idempotency_key ts) _ before λ ts₁ h₁.
              bind_keeps P ts (insert_retry r ts₁) _ before λ ts₂ h₂.
                bind_keeps P ts (insert_snapshot id req.context ts₂) _ before λ ts₃ h₃.
                  let (absent, e₁) = insert_execution-eq-ok id e req.idempotency_key ts h₁ in
                  let e₃ : ts₃ ≡ record ts₁ { retries = ts₁.retries ++ r ∷ [] } =
                    insert_snapshot-eq-ok id req.context ts₂ h₃ ∙ insert_retry-eq-ok r ts₁ h₂ in
                  let e₄ : ts₃ ≡ admitted req hash attempts s ts =
                    e₃ ∙ ap (λ (t : Tables). record t { retries = t.retries ++ r ∷ [] }) e₁ in
                  subst P (sym e₄) (
                    inserted ceiling attempts c
                      (reject_if-eq-ok (full ceiling) capacity_exceeded room) absent)
    where
      full : ℕ → Bool
      full ceiling = leb ceiling (active_count req.workspace_id req.ai_employee_id ts)

  replay_keeps :
      (o : Option Execution) → P (commit_or_rollback ts (admit_or_replay req hash s ts o)).1
  unfolding admit_or_replay
  replay_keeps none = admit_new_keeps
  replay_keeps (some e) = before

  pub admission_keeps : P (admission_admit req hash s ts).1
  unfolding admission_admit
  admission_keeps = replay_keeps _

-- `AdmissionAdmit`
pub admission_admit-IsLockstep :
    (req : AdmitRequest) (hash : Text) (s : Supply) (ts : Tables)
    → IsLockstep ts
    → IsLockstep (admission_admit req hash s ts).1
unfolding put_execution new_execution first_retry
admission_admit-IsLockstep req hash s ts inv =
    admission_keeps IsLockstep req hash s ts inv λ ceiling attempts c room absent.
      let id = s.new_execution_id in
      admitted-IsLockstep id (new_execution id req hash attempts)
        (first_retry s.new_retry_id id req.workspace_id) ts inv absent refl refl refl refl refl refl
        refl _ (λ j. refl) refl
