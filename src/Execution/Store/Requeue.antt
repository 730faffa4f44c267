-- ===== src/Execution/Store/Requeue.antt =====
-- Reschedule, RecordDispatch and Cancel keep the lockstep too.
use austro_os.Common.{
  ℕ, ◌≤◌, ◌≡◌, ◌≢◌, refl, sym, ap, ◌∙◌, Bool, true, false, Option, none, some, List, [], ◌∷◌, ◌++◌,
  Result, ok, err, ◌>>=◌, arith, inl, inr, Bool-cases, Option-cases, ◌==◌, ◌&&◌, ◌||◌,
  if◌then◌else◌,
}
use mathlib.Core.Path.{subst}
use austro_os.Common.Text.{Text}
use austro_os.Execution.Types.{
  Uuid, Time, Error, Execution, Retry, RetryState, RetryOutcome, Status, FencedExecution,
}
use austro_os.Execution.Store.Tables.{
  Tables, Supply, commit_or_rollback, find_execution, put_execution, live_of, retry_conflict,
  insert_retry,
}
use austro_os.Execution.Store.Writes.{reschedule, settle, done, back_to_pending, next_retry}
use austro_os.Execution.Store.Unfenced.{
  record_dispatch, cancel, cancel_row, is_active, matches_dispatch, has_task, unlinked, unlink,
  unlink_row, delete_task,
}
use austro_os.Execution.Store.Counts.{
  waiting, live, uncleared, SameElsewhere, uncleared-finish, settle-SameElsewhere, waiting-cancel,
  live-cancel, cancel-SameElsewhere, waiting-mark, live-mark, uncleared-mark, waiting-append,
  live-append, uncleared-append,
}
use austro_os.Execution.Store.Lockstep.{RowInv, IsLockstep, find_execution-eq-some, put-IsLockstep}
use austro_os.Execution.Store.Preserve.{after_fence, released, released-none}

-- A pending row for the execution at the end of the list.
module _ (r : Retry) (is_new : r.state ≡ RetryState.pending) where
  pub waiting-new :
      (ws id : Uuid) → r.workspace_id ≡ ws → r.execution_id ≡ id → waiting ws id (r ∷ []) ≡ 1
  unfolding waiting
  waiting-new ws id h k = ground arith

  pub live-new : (ws id : Uuid) → live ws id (r ∷ []) ≡ 0
  unfolding live
  live-new ws id = ground arith

  waiting-new_ne : (ws id : Uuid) → id ≢ r.execution_id → waiting ws id (r ∷ []) ≡ 0
  unfolding waiting
  waiting-new_ne ws id h = ground arith

  pub uncleared-new : uncleared (r ∷ []) ≡ 0
  unfolding uncleared
  uncleared-new = ground arith

  pub append-SameElsewhere :
      (rs rs' : List Retry)
      → SameElsewhere r.execution_id rs rs'
      → SameElsewhere r.execution_id rs (rs' ++ r ∷ [])
  append-SameElsewhere rs rs' same = record {
    same_waiting = λ w j h.
        ground (arith, same.same_waiting w j h, waiting-append r w j rs', waiting-new_ne w j h);
    same_live = λ w j h. ground (arith, same.same_live w j h, live-append r w j rs', live-new w j);
  }

-- A failing step rolls the transaction back: what holds of the tables before it holds after it.
pub bind_keeps :
    {A B : Type 0} (P : Tables → Type 0) (ts : Tables) (m : Result Error A)
    (k : A → Result Error (B × Tables))
    → P ts
    → ((a : A) → m ≡ ok a → P (commit_or_rollback ts (k a)).1)
    → P (commit_or_rollback ts (m >>= k)).1
bind_keeps P ts (ok a) k before next = next a refl
bind_keeps P ts (err e) k before next = before

pub insert_retry-eq-ok :
    (r : Retry) (ts : Tables) {ts' : Tables}
    → insert_retry r ts ≡ ok ts'
    → ts' ≡ record ts { retries = ts.retries ++ r ∷ [] }
unfolding insert_retry
insert_retry-eq-ok r ts h = elim (Bool-cases ((r.retry_seq == 0) || retry_conflict r ts.retries)) [
  | inl c ↦ cc c
  | inr c ↦ cc c
]

-- The row that goes back to pending, with its new retry.
module _ (f : FencedExecution) (e e' : Execution) (r : Retry) (rs : List Retry)
    (same_ws : e.workspace_id ≡ f.workspace_id)
    (settled : (waiting f.workspace_id f.execution_id rs ≡ 0)
      × (live f.workspace_id f.execution_id rs ≡ 0))
    (is_new : r.state ≡ RetryState.pending) (of_ws : r.workspace_id ≡ f.workspace_id)
    (of_id : r.execution_id ≡ f.execution_id) (e_ws : e'.workspace_id ≡ e.workspace_id)
    (idle : e'.status ≡ Status.pending) (owner : e'.lease_owner ≡ none)
    (expiry : e'.lease_expires_at ≡ none) (budget : e'.attempt ≤ e'.max_attempts) where
  requeued : RowInv f.execution_id e' (rs ++ r ∷ [])
  requeued = ground (
    arith,
    waiting-append r f.workspace_id f.execution_id rs,
    live-append r f.workspace_id f.execution_id rs,
    waiting-new r is_new f.workspace_id f.execution_id of_ws of_id,
    live-new r is_new f.workspace_id f.execution_id,
  )

-- `Reschedule`
pub reschedule-IsLockstep :
    (f : FencedExecution) (next : Time) (seq : ℕ) (s : Supply) (ts : Tables)
    → IsLockstep ts
    → IsLockstep (reschedule f next seq s ts).1
unfolding reschedule put_execution
reschedule-IsLockstep f next seq s ts inv = after_fence f _ _ ts inv λ e here same_ws run.
    bind_keeps IsLockstep ts
      (insert_retry (next_retry f next seq s.new_retry_id) (
        settle f s.now RetryOutcome.failed
          (put_execution f.execution_id (back_to_pending next e) ts)))
      done inv
      λ ts' eq.
        let q = insert_retry-eq-ok _ _ eq in
        let r = next_retry f next seq s.new_retry_id in
        let rs = released f s.now RetryOutcome.failed ts in
        let zero_zero = released-none f s.now RetryOutcome.failed ts inv e here same_ws run in
        subst IsLockstep (sym q) (
          put-IsLockstep f.execution_id (back_to_pending next e) ts _ inv (λ j. refl)
            (requeued f e (back_to_pending next e) r rs same_ws zero_zero refl refl refl refl refl
              refl refl (inv.row f.execution_id e here).within_budget)
            (append-SameElsewhere r refl ts.retries rs (
              settle-SameElsewhere f.workspace_id f.execution_id s.now RetryOutcome.failed
                ts.retries))
            (omega (
              arith,
              uncleared-append r rs,
              uncleared-new r refl,
              uncleared-finish f.workspace_id f.execution_id s.now RetryOutcome.failed
                  (live_of f.workspace_id f.execution_id) ts.retries,
            )))

-- `RecordDispatch`
pub record_dispatch-IsLockstep :
    (ws retry_id : Uuid) (worker : Text) (generation : ℕ) (success : Bool) (s : Supply)
    (ts : Tables)
    → IsLockstep ts
    → IsLockstep (record_dispatch ws retry_id worker generation success s ts).1
unfolding record_dispatch
record_dispatch-IsLockstep ws retry_id worker generation false s ts inv = record {
  row = inv.row;
  no_orphan = inv.no_orphan;
  cleared = inv.cleared;
}
record_dispatch-IsLockstep ws retry_id worker generation true s ts inv =
    let p = matches_dispatch ws retry_id worker generation in
    record {
      row = λ id e h. ground (
        arith,
        inv.row id e h,
        waiting-mark p s.now e.workspace_id id ts.retries,
        live-mark p s.now e.workspace_id id ts.retries,
      );
      no_orphan = λ w id h. ground (
        arith,
        inv.no_orphan w id h,
        waiting-mark p s.now w id ts.retries,
        live-mark p s.now w id ts.retries,
      );
      cleared = omega (arith, inv.cleared, uncleared-mark p s.now ts.retries);
    }

cancel_row-IsLockstep :
    (ws id : Uuid) (now : Time) (ts : Tables) (oe any_row : Option Execution)
    → find_execution ws id is_active ts ≡ oe
    → IsLockstep ts
    → IsLockstep (commit_or_rollback ts (cancel_row ws id now ts oe any_row)).1
unfolding cancel_row put_execution
cancel_row-IsLockstep ws id now ts none none h inv = inv
cancel_row-IsLockstep ws id now ts none (some x) h inv = inv
cancel_row-IsLockstep ws id now ts (some e) x h inv =
    let (here, same_ws, active) = find_execution-eq-some ws id is_active ts h in
    put-IsLockstep id _ ts _ inv (λ j. refl)
      (ground (
        arith,
        inv.row id e here,
        waiting-cancel ws id now RetryOutcome.cancelled ts.retries,
        live-cancel ws id now RetryOutcome.cancelled ts.retries,
      ))
      (cancel-SameElsewhere ws id now RetryOutcome.cancelled ts.retries)
      (uncleared-finish ws id now RetryOutcome.cancelled _ ts.retries)

-- `Cancel`
pub cancel-IsLockstep :
    (ws id : Uuid) (s : Supply) (ts : Tables) → IsLockstep ts → IsLockstep (cancel ws id s ts).1
unfolding cancel
cancel-IsLockstep ws id s ts inv = cancel_row-IsLockstep ws id s.now ts _ _ refl inv

-- the deletion of a task
unlink-RowInv :
    (ws task id : Uuid) (e : Execution) (rs : List Retry)
    → RowInv id e rs
    → RowInv id (unlink ws task e) rs
unlink-RowInv ws task id e rs inv = pick ((e.workspace_id == ws) && has_task task e.task_id)
  where
    pick : (b : Bool) → RowInv id (if b then unlinked e else e) rs
    pick false = inv
    pick true = record {
      one_waiting = inv.one_waiting;
      one_live = inv.one_live;
      owner_iff_running = inv.owner_iff_running;
      expiry_iff_running = inv.expiry_iff_running;
      within_budget = inv.within_budget;
    }

some_inj : {a b : Execution} → some a ≡ some b → a ≡ b
some_inj h = ground arith

unlink_row-none : (ws task : Uuid) (o : Option Execution) → unlink_row ws task o ≡ none → o ≡ none
unlink_row-none ws task none h = refl
unlink_row-none ws task (some e) h = cc

pub delete_task-IsLockstep :
    (ws task : Uuid) (ts : Tables) → IsLockstep ts → IsLockstep (delete_task ws task ts)
unfolding delete_task
delete_task-IsLockstep ws task ts inv = record {
  row = λ id x h. elim (Option-cases (ts.executions id)) [
    | inl gone ↦ absurd (ground arith)
    | inr (e, here) ↦
        let same : unlink ws task e ≡ x = some_inj (ap (unlink_row ws task) (sym here) ∙ h) in
        subst (λ y. RowInv id y ts.retries) same
          (unlink-RowInv ws task id e ts.retries (inv.row id e here))
  ];
  no_orphan = λ w id h. inv.no_orphan w id (unlink_row-none ws task (ts.executions id) h);
  cleared = inv.cleared;
}
