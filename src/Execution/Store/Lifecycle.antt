-- ===== src/Execution/Store/Lifecycle.antt =====
-- The lifecycle of an execution, without its tables: what the transactions of infrastructure/postgres/executions.go may do to the
-- status, the generation and the attempts of a row.
use austro_os.Common.{
  ℕ, ◌+◌, ◌<◌, ◌≡◌, refl, sym, Bool, true, false, ◌==◌, ◌&&◌, if◌then◌else◌, Option, none, some,
  Result, ◌>>=◌, ◌⊎◌, inl, inr, arith, ==_iff,
}
use mathlib.Core.Path.{subst}
use native.Mathlib.Decide.{ℕ_discrete}
use austro_os.Common.Text.{Text}
use austro_os.Execution.Types.{
  Uuid, Time, Error, Execution, Retry, RetryOutcome, Status, ErrorCode, FencedExecution, is_running,
  is_pending,
}
use austro_os.Execution.Store.Tables.{
  Tables, Supply, commit_or_rollback, lease_until, find_execution, put_execution, holds_lease,
  insert_retry,
}
use austro_os.Execution.Store.Lease.{
  claim, claim_row, is_claimable, reclaim_stale, reclaim_row, is_stale,
}
use austro_os.Execution.Store.Writes.{
  fenced_row, fenced_update, heartbeat, persist_error, complete, fail_and_dlq, reschedule, settle,
  done, back_to_pending, next_retry,
}
use austro_os.Execution.Store.Unfenced.{
  record_dispatch, cancel, cancel_row, is_active, has_task, unlinked, unlink, delete_task,
}
use austro_os.Execution.Store.Admission.{AdmitRequest, admission_admit, new_execution}
use austro_os.Execution.Store.Lockstep.{find_execution-eq-some}
use austro_os.Execution.Store.Requeue.{bind_keeps, insert_retry-eq-ok}
use austro_os.Execution.Store.Admit.{admission_keeps}
use austro_os.Execution.Store.Reach.{
  Step, admits, claims, reclaims, renews, notes, completes, fails, reschedules, dispatches, cancels,
  loses_task,
}

-- where a worker leaves an execution that it ran
abbrev pub is_settled : Status → Bool
is_settled Status.pending = true
is_settled Status.completed = true
is_settled Status.failed = true
is_settled _ = false

-- A move of the lifecycle: nothing; a claim of a pending execution that has attempts left, or a takeover of a running one, under the
-- next generation; the end of an attempt, by the worker; a cancellation of a pending or running execution.
pub data Move (e e' : Execution) : Type 0 where
  stays :
      e'.status ≡ e.status
      → e'.lease_generation ≡ e.lease_generation
      → e'.attempt ≡ e.attempt
      → Move e e'
  starts :
      e.status ≡ Status.pending
      → e.attempt < e.max_attempts
      → e'.status ≡ Status.running
      → e'.lease_generation ≡ e.lease_generation + 1
      → e'.attempt ≡ e.attempt + 1
      → Move e e'
  taken_over :
      e.status ≡ Status.running
      → e'.status ≡ Status.running
      → e'.lease_generation ≡ e.lease_generation + 1
      → e'.attempt ≡ e.attempt
      → Move e e'
  ends :
      e.status ≡ Status.running
      → is_settled e'.status ≡ true
      → e'.lease_generation ≡ e.lease_generation
      → e'.attempt ≡ e.attempt
      → Move e e'
  called_off :
      is_active e ≡ true
      → e'.status ≡ Status.cancelled
      → e'.lease_generation ≡ e.lease_generation
      → e'.attempt ≡ e.attempt
      → Move e e'

-- a row that was not there starts pending, without a lease and an attempt
pub record IsNew (e : Execution) : Type 0 where
  pub waits : e.status ≡ Status.pending
  pub no_lease : e.lease_generation ≡ 0
  pub no_attempt : e.attempt ≡ 0

-- Every row makes a move, and every new one is new.
pub record Moves (ts ts' : Tables) : Type 0 where
  pub row :
      (id : Uuid) (e : Execution)
      → ts.executions id ≡ some e
      → (e' : Execution) × (ts'.executions id ≡ some e') × Move e e'
  pub fresh :
      (id : Uuid)
      → ts.executions id ≡ none
      → (ts'.executions id ≡ none) ⊎ ((e : Execution) × (ts'.executions id ≡ some e) × IsNew e)

Moves-refl : (ts : Tables) → Moves ts ts
Moves-refl ts = record { row = λ id e h. (e, h, stays refl refl refl); fresh = λ id h. inl h }

-- One row is replaced.
put-Moves :
    (id : Uuid) (e e' : Execution) (ts ts' : Tables)
    → ts.executions id ≡ some e
    → ((j : Uuid) → ts'.executions j ≡ (if j == id then some e' else ts.executions j))
    → Move e e'
    → Moves ts ts'
put-Moves id e e' ts ts' here there m = record {
  row = λ j x h. elim (ℕ_discrete j id) [
    | yes p ↦
        let q : e ≡ x = ground arith in (e', ground (arith, there j), subst (λ y. Move y e') q m)
    | no n ↦ (x, ground (arith, there j), stays refl refl refl)
  ];
  fresh = λ j h. elim (ℕ_discrete j id) [
    | yes p ↦ absurd (ground arith)
    | no n ↦ inl (ground (arith, there j))
  ];
}

pending_is : (st : Status) → is_pending st ≡ true → st ≡ Status.pending
pending_is Status.pending h = refl
pending_is Status.running h = cc
pending_is Status.completed h = cc
pending_is Status.failed h = cc
pending_is Status.cancelled h = cc

pub running_is : (st : Status) → is_running st ≡ true → st ≡ Status.running
running_is Status.pending h = cc
running_is Status.running h = refl
running_is Status.completed h = cc
running_is Status.failed h = cc
running_is Status.cancelled h = cc

claim_row-Moves :
    (ws id : Uuid) (worker : Text) (until now : Time) (ts : Tables) (oe : Option Execution)
    (or : Option Retry)
    → find_execution ws id (is_claimable now) ts ≡ oe
    → Moves ts (commit_or_rollback ts (claim_row ws id worker until now ts oe or)).1
unfolding claim_row put_execution is_claimable
claim_row-Moves ws id worker until now ts none or h = Moves-refl ts
claim_row-Moves ws id worker until now ts (some e) none h = Moves-refl ts
claim_row-Moves ws id worker until now ts (some e) (some r) h =
    let (here, same_ws, guard) = find_execution-eq-some ws id (is_claimable now) ts h in
    put-Moves id e _ ts _ here (λ j. refl)
      (starts (pending_is e.status (ground arith)) (ground arith) refl refl refl)

claim-Moves :
    (ws id : Uuid) (worker : Text) (ttl : ℕ) (s : Supply) (ts : Tables)
    → Moves ts (claim ws id worker ttl s ts).1
unfolding claim
claim-Moves ws id worker ttl s ts =
    claim_row-Moves ws id worker (lease_until s.now ttl) s.now ts _ _ refl

reclaim_row-Moves :
    (ws id : Uuid) (worker : Text) (until now : Time) (ts : Tables) (oe : Option Execution)
    → find_execution ws id (is_stale now) ts ≡ oe
    → Moves ts (commit_or_rollback ts (reclaim_row ws id worker until ts oe)).1
unfolding reclaim_row put_execution is_stale
reclaim_row-Moves ws id worker until now ts none h = Moves-refl ts
reclaim_row-Moves ws id worker until now ts (some e) h =
    let (here, same_ws, guard) = find_execution-eq-some ws id (is_stale now) ts h in
    let run : e.status ≡ Status.running = running_is e.status (ground arith) in
    put-Moves id e _ ts _ here (λ j. refl) (taken_over run run refl refl)

reclaim-Moves :
    (ws id : Uuid) (worker : Text) (ttl : ℕ) (s : Supply) (ts : Tables)
    → Moves ts (reclaim_stale ws id worker ttl s ts).1
unfolding reclaim_stale
reclaim-Moves ws id worker ttl s ts =
    reclaim_row-Moves ws id worker (lease_until s.now ttl) s.now ts _ refl

cancel_row-Moves :
    (ws id : Uuid) (now : Time) (ts : Tables) (oe any_row : Option Execution)
    → find_execution ws id is_active ts ≡ oe
    → Moves ts (commit_or_rollback ts (cancel_row ws id now ts oe any_row)).1
unfolding cancel_row put_execution
cancel_row-Moves ws id now ts none none h = Moves-refl ts
cancel_row-Moves ws id now ts none (some x) h = Moves-refl ts
cancel_row-Moves ws id now ts (some e) x h =
    let (here, same_ws, active) = find_execution-eq-some ws id is_active ts h in
    put-Moves id e _ ts _ here (λ j. refl) (called_off active refl refl refl)

cancel-Moves : (ws id : Uuid) (s : Supply) (ts : Tables) → Moves ts (cancel ws id s ts).1
unfolding cancel
cancel-Moves ws id s ts = cancel_row-Moves ws id s.now ts _ _ refl

record_dispatch-Moves :
    (ws retry_id : Uuid) (worker : Text) (generation : ℕ) (success : Bool) (s : Supply)
    (ts : Tables)
    → Moves ts (record_dispatch ws retry_id worker generation success s ts).1
unfolding record_dispatch
record_dispatch-Moves ws retry_id worker generation success s ts = record {
  row = λ id e h. (e, h, stays refl refl refl);
  fresh = λ id h. inl h;
}

delete_task-Moves : (ws task : Uuid) (ts : Tables) → Moves ts (delete_task ws task ts)
unfolding delete_task
delete_task-Moves ws task ts = record {
  row = λ id e h.
      (unlink ws task e, rw h refl, pick e ((e.workspace_id == ws) && has_task task e.task_id));
  fresh = λ id h. inl (rw h refl);
}
  where
    pick : (e : Execution) (b : Bool) → Move e (if b then unlinked e else e)
    pick e true = stays refl refl refl
    pick e false = stays refl refl refl

-- A transaction behind a fence: `g` changes the row of a running execution.
module _ {A : Type 0} (f : FencedExecution) (g : Execution → Execution)
    (k : Tables → Result Error (A × Tables)) (ts : Tables)
    (next : (e : Execution)
      → ts.executions f.execution_id ≡ some e
      → e.status ≡ Status.running
      → Moves ts (commit_or_rollback ts (k (put_execution f.execution_id (g e) ts))).1) where
  fence_row :
      (oe : Option Execution)
      → find_execution f.workspace_id f.execution_id (holds_lease f) ts ≡ oe
      → Moves ts (commit_or_rollback ts (fenced_row f g ts oe >>= k)).1
  unfolding holds_lease
  fence_row none h = Moves-refl ts
  fence_row (some e) h =
      let (here, same_ws, held) = find_execution-eq-some _ _ _ ts h in
      next e here (running_is e.status (ground arith))

  fence-Moves : Moves ts (commit_or_rollback ts (fenced_update f g ts >>= k)).1
  unfolding fenced_update
  fence-Moves = fence_row _ refl

module _ (f : FencedExecution) (s : Supply) (ts : Tables) where
  heartbeat-Moves : (ttl : ℕ) → Moves ts (heartbeat f ttl s ts).1
  unfolding heartbeat put_execution
  heartbeat-Moves ttl =
      fence-Moves f _ _ ts
        λ e here run. put-Moves f.execution_id e _ ts _ here (λ j. refl) (stays refl refl refl)

  persist_error-Moves :
      (code : ErrorCode) (retry : Bool) (detail : Text)
      → Moves ts (persist_error f code retry detail s ts).1
  unfolding persist_error put_execution
  persist_error-Moves code retry detail =
      fence-Moves f _ _ ts
        λ e here run. put-Moves f.execution_id e _ ts _ here (λ j. refl) (stays refl refl refl)

  complete-Moves : (result : Text) → Moves ts (complete f result s ts).1
  unfolding complete put_execution
  complete-Moves result =
      fence-Moves f _ _ ts
        λ e here run. put-Moves f.execution_id e _ ts _ here (λ j. refl) (ends run refl refl refl)

  fail-Moves :
      (code : ErrorCode) (detail snapshot : Text)
      → Moves ts (fail_and_dlq f code detail snapshot s ts).1
  unfolding fail_and_dlq put_execution
  fail-Moves code detail snapshot =
      fence-Moves f _ _ ts
        λ e here run. put-Moves f.execution_id e _ ts _ here (λ j. refl) (ends run refl refl refl)

  reschedule-Moves : (next : Time) (seq : ℕ) → Moves ts (reschedule f next seq s ts).1
  unfolding reschedule put_execution
  reschedule-Moves next seq = fence-Moves f _ _ ts λ e here run.
      bind_keeps (Moves ts) ts
        (insert_retry (next_retry f next seq s.new_retry_id) (
          settle f s.now RetryOutcome.failed
            (put_execution f.execution_id (back_to_pending next e) ts)))
        done (Moves-refl ts)
        λ ts' eq. subst (Moves ts) (sym (insert_retry-eq-ok _ _ eq)) (
          put-Moves f.execution_id e (back_to_pending next e) ts _ here (λ j. refl)
            (ends run refl refl refl))

-- a new row
added-Moves :
    (id : Uuid) (e : Execution) (ts ts' : Tables)
    → ts.executions id ≡ none
    → ((j : Uuid) → ts'.executions j ≡ (if j == id then some e else ts.executions j))
    → IsNew e
    → Moves ts ts'
added-Moves id e ts ts' absent there new = record {
  row = λ j x h. (x, ground (arith, there j, ==_iff j id), stays refl refl refl);
  fresh = λ j h. elim (ℕ_discrete j id) [
    | yes p ↦ inr (e, ground (arith, there j), new)
    | no n ↦ inl (ground (arith, there j))
  ];
}

admission_admit-Moves :
    (req : AdmitRequest) (hash : Text) (s : Supply) (ts : Tables)
    → Moves ts (admission_admit req hash s ts).1
unfolding put_execution new_execution
admission_admit-Moves req hash s ts =
    admission_keeps (Moves ts) req hash s ts (Moves-refl ts) λ cap attempts c room absent.
      added-Moves s.new_execution_id (new_execution s.new_execution_id req hash attempts) ts _
        absent (λ j. refl) (record { waits = refl; no_lease = refl; no_attempt = refl })

-- Every transaction of the store, with any arguments, refines the lifecycle of an execution: each row makes one of its moves, and a
-- row that was not there is pending, at generation 0 and without an attempt.
pub Step-Moves : {ts ts' : Tables} → Step ts ts' → Moves ts ts'
Step-Moves {ts = ts} (admits req hash s) = admission_admit-Moves req hash s ts
Step-Moves {ts = ts} (claims ws id w ttl s) = claim-Moves ws id w ttl s ts
Step-Moves {ts = ts} (reclaims ws id w ttl s) = reclaim-Moves ws id w ttl s ts
Step-Moves {ts = ts} (renews f ttl s) = heartbeat-Moves f s ts ttl
Step-Moves {ts = ts} (notes f c b d s) = persist_error-Moves f s ts c b d
Step-Moves {ts = ts} (completes f r s) = complete-Moves f s ts r
Step-Moves {ts = ts} (fails f c d sn s) = fail-Moves f s ts c d sn
Step-Moves {ts = ts} (reschedules f n q s) = reschedule-Moves f s ts n q
Step-Moves {ts = ts} (dispatches ws r w g b s) = record_dispatch-Moves ws r w g b s ts
Step-Moves {ts = ts} (cancels ws id s) = cancel-Moves ws id s ts
Step-Moves {ts = ts} (loses_task ws task) = delete_task-Moves ws task ts
