-- ===== src/Execution/Store/Evolve.antt =====
-- How one transaction may change a row of ai_executions.
use austro_os.Common.{
  ℕ, ◌≤◌, ◌≡◌, refl, ap, ◌∙◌, Bool, true, false, ◌==◌, if◌then◌else◌, Option, none, some, Result,
  ◌>>=◌, ◌⊎◌, inl, inr, ◌&&◌, arith,
}
use mathlib.Core.Path.{subst}
use native.Mathlib.Decide.{ℕ_discrete}
use austro_os.Common.Text.{Text}
use austro_os.Execution.Types.{
  Uuid, Time, Error, Execution, Retry, ErrorCode, FencedExecution, is_terminal,
}
use austro_os.Execution.Store.Tables.{
  Tables, Supply, commit_or_rollback, lease_until, find_execution, put_execution, holds_lease,
}
use austro_os.Execution.Store.Lease.{
  claim, claim_row, is_claimable, reclaim_stale, reclaim_row, is_stale,
}
use austro_os.Execution.Store.Writes.{
  fenced_row, fenced_update, heartbeat, persist_error, complete, fail_and_dlq,
}
use austro_os.Execution.Store.Unfenced.{
  record_dispatch, cancel, cancel_row, is_active, has_task, unlinked, unlink, delete_task,
}
use austro_os.Execution.Store.Lockstep.{find_execution-eq-some}

-- the same row, up to a task that was deleted
abbrev pub SameButTask : Execution → Execution → Type 0
SameButTask e e' = (e' ≡ e) ⊎ (e' ≡ unlinked e)

-- The identity of the row stays, its generation and its attempts never fall, and a final row stays
-- as it is, but for a deleted task.
pub record RowEvolves (e e' : Execution) : Type 0 where
  pub same_workspace : e'.workspace_id ≡ e.workspace_id
  pub same_employee : e'.ai_employee_id ≡ e.ai_employee_id
  pub same_key : e'.idempotency_key ≡ e.idempotency_key
  pub generation_grows : e.lease_generation ≤ e'.lease_generation
  pub attempt_grows : e.attempt ≤ e'.attempt
  pub frozen : is_terminal e.status ≡ true → SameButTask e e'

pub record Evolves (ts ts' : Tables) : Type 0 where
  pub row :
      (id : Uuid) (e : Execution)
      → ts.executions id ≡ some e
      → (e' : Execution) × (ts'.executions id ≡ some e') × RowEvolves e e'

pub RowEvolves-refl : (e : Execution) → RowEvolves e e
RowEvolves-refl e = record {
  same_workspace = refl;
  same_employee = refl;
  same_key = refl;
  generation_grows = omega arith;
  attempt_grows = omega arith;
  frozen = λ h. inl refl;
}

pub Evolves-refl : (ts : Tables) → Evolves ts ts
Evolves-refl ts = record { row = λ id e h. (e, h, RowEvolves-refl e) }

SameButTask-unlinked : {a b c : Execution} → b ≡ unlinked a → SameButTask b c → SameButTask a c
SameButTask-unlinked p (inl q) = inr (q ∙ p)
SameButTask-unlinked p (inr q) = inr (q ∙ ap unlinked p)

pub RowEvolves-trans : {a b c : Execution} → RowEvolves a b → RowEvolves b c → RowEvolves a c
RowEvolves-trans {a} {b} {c} p q = record {
  same_workspace = q.same_workspace ∙ p.same_workspace;
  same_employee = q.same_employee ∙ p.same_employee;
  same_key = q.same_key ∙ p.same_key;
  generation_grows = omega arith;
  attempt_grows = omega arith;
  frozen = λ h. elim (p.frozen h) [
    | inl same ↦
        subst (λ x. SameButTask x c) same
          (q.frozen (ap (λ (x : Execution). is_terminal x.status) same ∙ h))
    | inr same ↦
        SameButTask-unlinked same (q.frozen (ap (λ (x : Execution). is_terminal x.status) same ∙ h))
  ];
}

pub Evolves-trans : {a b c : Tables} → Evolves a b → Evolves b c → Evolves a c
Evolves-trans p q = record {
  row = λ id e h.
      let (e', h', r) = p.row id e h in
      let (e'', h'', r') = q.row id e' h' in (e'', h'', RowEvolves-trans r r');
}

-- One row is replaced.
pub put-Evolves :
    (id : Uuid) (e e' : Execution) (ts ts' : Tables)
    → ts.executions id ≡ some e
    → ((j : Uuid) → ts'.executions j ≡ (if j == id then some e' else ts.executions j))
    → RowEvolves e e'
    → Evolves ts ts'
put-Evolves id e e' ts ts' here there r = record {
  row = λ j x h. elim (ℕ_discrete j id) [
    | yes p ↦
        let q : e ≡ x = ground arith in
        (e', ground (arith, there j), subst (λ y. RowEvolves y e') q r)
    | no n ↦ (x, ground (arith, there j), RowEvolves-refl x)
  ];
}

-- A row that is not final may change in any way that keeps the first five fields.
pub live_row :
    (e e' : Execution)
    → is_terminal e.status ≡ false
    → e'.workspace_id ≡ e.workspace_id
    → e'.ai_employee_id ≡ e.ai_employee_id
    → e'.idempotency_key ≡ e.idempotency_key
    → e.lease_generation ≤ e'.lease_generation
    → e.attempt ≤ e'.attempt
    → RowEvolves e e'
live_row e e' live a b k c d = record {
  same_workspace = a;
  same_employee = b;
  same_key = k;
  generation_grows = c;
  attempt_grows = d;
  frozen = λ h. cc;
}

claim_row-Evolves :
    (ws id : Uuid) (worker : Text) (until now : Time) (ts : Tables) (oe : Option Execution)
    (or : Option Retry)
    → find_execution ws id (is_claimable now) ts ≡ oe
    → Evolves ts (commit_or_rollback ts (claim_row ws id worker until now ts oe or)).1
unfolding claim_row put_execution is_claimable
claim_row-Evolves ws id worker until now ts none or h = Evolves-refl ts
claim_row-Evolves ws id worker until now ts (some e) none h = Evolves-refl ts
claim_row-Evolves ws id worker until now ts (some e) (some r) h =
    let (here, same_ws, guard) = find_execution-eq-some ws id (is_claimable now) ts h in
    put-Evolves id e _ ts _ here (λ j. refl)
      (live_row e _ (ground arith) refl refl refl (omega arith) (omega arith))

pub claim-Evolves :
    (ws id : Uuid) (worker : Text) (ttl : ℕ) (s : Supply) (ts : Tables)
    → Evolves ts (claim ws id worker ttl s ts).1
unfolding claim
claim-Evolves ws id worker ttl s ts =
    claim_row-Evolves ws id worker (lease_until s.now ttl) s.now ts _ _ refl

reclaim_row-Evolves :
    (ws id : Uuid) (worker : Text) (until now : Time) (ts : Tables) (oe : Option Execution)
    → find_execution ws id (is_stale now) ts ≡ oe
    → Evolves ts (commit_or_rollback ts (reclaim_row ws id worker until ts oe)).1
unfolding reclaim_row put_execution is_stale
reclaim_row-Evolves ws id worker until now ts none h = Evolves-refl ts
reclaim_row-Evolves ws id worker until now ts (some e) h =
    let (here, same_ws, guard) = find_execution-eq-some ws id (is_stale now) ts h in
    put-Evolves id e _ ts _ here (λ j. refl)
      (live_row e _ (ground arith) refl refl refl (omega arith) (omega arith))

pub reclaim_stale-Evolves :
    (ws id : Uuid) (worker : Text) (ttl : ℕ) (s : Supply) (ts : Tables)
    → Evolves ts (reclaim_stale ws id worker ttl s ts).1
unfolding reclaim_stale
reclaim_stale-Evolves ws id worker ttl s ts =
    reclaim_row-Evolves ws id worker (lease_until s.now ttl) s.now ts _ refl

cancel_row-Evolves :
    (ws id : Uuid) (now : Time) (ts : Tables) (oe any_row : Option Execution)
    → find_execution ws id is_active ts ≡ oe
    → Evolves ts (commit_or_rollback ts (cancel_row ws id now ts oe any_row)).1
unfolding cancel_row put_execution
cancel_row-Evolves ws id now ts none none h = Evolves-refl ts
cancel_row-Evolves ws id now ts none (some x) h = Evolves-refl ts
cancel_row-Evolves ws id now ts (some e) x h =
    let (here, same_ws, active) = find_execution-eq-some ws id is_active ts h in
    put-Evolves id e _ ts _ here (λ j. refl)
      (live_row e _ (ground arith) refl refl refl (omega arith) (omega arith))

pub cancel-Evolves : (ws id : Uuid) (s : Supply) (ts : Tables) → Evolves ts (cancel ws id s ts).1
unfolding cancel
cancel-Evolves ws id s ts = cancel_row-Evolves ws id s.now ts _ _ refl

pub record_dispatch-Evolves :
    (ws retry_id : Uuid) (worker : Text) (generation : ℕ) (success : Bool) (s : Supply)
    (ts : Tables)
    → Evolves ts (record_dispatch ws retry_id worker generation success s ts).1
unfolding record_dispatch
record_dispatch-Evolves ws retry_id worker generation success s ts = record {
  row = λ id e h. (e, h, RowEvolves-refl e);
}

unlink-RowEvolves : (ws task : Uuid) (e : Execution) → RowEvolves e (unlink ws task e)
unlink-RowEvolves ws task e = pick ((e.workspace_id == ws) && has_task task e.task_id)
  where
    pick : (b : Bool) → RowEvolves e (if b then unlinked e else e)
    pick false = RowEvolves-refl e
    pick true = record {
      same_workspace = refl;
      same_employee = refl;
      same_key = refl;
      generation_grows = omega arith;
      attempt_grows = omega arith;
      frozen = λ h. inr refl;
    }

pub delete_task-Evolves : (ws task : Uuid) (ts : Tables) → Evolves ts (delete_task ws task ts)
unfolding delete_task
delete_task-Evolves ws task ts = record {
  row = λ id e h. (unlink ws task e, rw h refl, unlink-RowEvolves ws task e);
}

-- A transaction behind a fence: `g` changes the row of a running execution, and the rest of the
-- transaction touches no row.
module _ {A : Type 0} (f : FencedExecution) (g : Execution → Execution)
    (k : Tables → Result Error (A × Tables)) (ts : Tables)
    (next : (e : Execution)
      → ts.executions f.execution_id ≡ some e
      → is_terminal e.status ≡ false
      → Evolves ts (commit_or_rollback ts (k (put_execution f.execution_id (g e) ts))).1) where
  fence_row :
      (oe : Option Execution)
      → find_execution f.workspace_id f.execution_id (holds_lease f) ts ≡ oe
      → Evolves ts (commit_or_rollback ts (fenced_row f g ts oe >>= k)).1
  unfolding holds_lease
  fence_row none h = Evolves-refl ts
  fence_row (some e) h =
      let (here, same_ws, held) = find_execution-eq-some _ _ _ ts h in next e here (ground arith)

  pub fence-Evolves : Evolves ts (commit_or_rollback ts (fenced_update f g ts >>= k)).1
  unfolding fenced_update
  fence-Evolves = fence_row _ refl

module _ (f : FencedExecution) (s : Supply) (ts : Tables) where
  pub heartbeat-Evolves : (ttl : ℕ) → Evolves ts (heartbeat f ttl s ts).1
  unfolding heartbeat put_execution
  heartbeat-Evolves ttl = fence-Evolves f _ _ ts λ e here live.
      put-Evolves f.execution_id e _ ts _ here (λ j. refl)
        (live_row e _ live refl refl refl (omega arith) (omega arith))

  pub persist_error-Evolves :
      (code : ErrorCode) (retry : Bool) (detail : Text)
      → Evolves ts (persist_error f code retry detail s ts).1
  unfolding persist_error put_execution
  persist_error-Evolves code retry detail = fence-Evolves f _ _ ts λ e here live.
      put-Evolves f.execution_id e _ ts _ here (λ j. refl)
        (live_row e _ live refl refl refl (omega arith) (omega arith))

  pub complete-Evolves : (result : Text) → Evolves ts (complete f result s ts).1
  unfolding complete put_execution
  complete-Evolves result = fence-Evolves f _ _ ts λ e here live.
      put-Evolves f.execution_id e _ ts _ here (λ j. refl)
        (live_row e _ live refl refl refl (omega arith) (omega arith))

  pub fail_and_dlq-Evolves :
      (code : ErrorCode) (detail snapshot : Text)
      → Evolves ts (fail_and_dlq f code detail snapshot s ts).1
  unfolding fail_and_dlq put_execution
  fail_and_dlq-Evolves code detail snapshot = fence-Evolves f _ _ ts λ e here live.
      put-Evolves f.execution_id e _ ts _ here (λ j. refl)
        (live_row e _ live refl refl refl (omega arith) (omega arith))
