-- ===== src/Execution/Store/Fencing.antt =====
-- Fencing: what a worker whose lease moved on can do, and what never changes again.
use austro_os.Common.{
  ℕ, ◌+◌, ◌≤◌, ◌<◌, ◌≡◌, ◌≢◌, refl, sym, ap, ◌∙◌, ◌⊎◌, inl, inr, Bool, true, ◌&&◌, Bool-cases, ◌==◌,
  if◌then◌else◌, ==_iff, Option, none, some, ok, err, arith,
}
use mathlib.Core.Path.{subst}
use austro_os.Common.Text.{Text, eq_of_text_eq}
use austro_os.Execution.Types.{
  Uuid, Time, stale_lease, Execution, Status, RetryOutcome, ErrorCode, FencedExecution, is_terminal,
}
use austro_os.Execution.Store.Tables.{
  Tables, Supply, commit_or_rollback, lease_until, find_execution, put_execution, holds_lease,
  insert_retry, opt_text_is,
}
use austro_os.Execution.Store.Lease.{reclaim_stale, reclaim_row, is_stale}
use austro_os.Execution.Store.Writes.{
  fenced_update, done, heartbeat, persist_error, complete, fail_and_dlq, reschedule, settle,
  back_to_pending, next_retry,
}
use austro_os.Execution.Store.Admission.{AdmitRequest, admission_admit, new_execution}
use austro_os.Execution.Store.Lockstep.{find_execution-eq-some}
use austro_os.Execution.Store.Requeue.{bind_keeps, insert_retry-eq-ok}
use austro_os.Execution.Store.Admit.{admission_keeps}
use austro_os.Execution.Store.Evolve.{
  Evolves, Evolves-refl, Evolves-trans, put-Evolves, live_row, fence-Evolves, RowEvolves-refl,
  claim-Evolves, reclaim_stale-Evolves, heartbeat-Evolves, persist_error-Evolves, complete-Evolves,
  fail_and_dlq-Evolves, record_dispatch-Evolves, cancel-Evolves, delete_task-Evolves,
}
use austro_os.Execution.Store.Lifecycle.{running_is}
use austro_os.Execution.Store.Reach.{
  Step, admits, claims, reclaims, renews, notes, completes, fails, reschedules, dispatches, cancels,
  loses_task,
}

reschedule-Evolves :
    (f : FencedExecution) (next : Time) (seq : ℕ) (s : Supply) (ts : Tables)
    → Evolves ts (reschedule f next seq s ts).1
unfolding reschedule put_execution
reschedule-Evolves f next seq s ts = fence-Evolves f _ _ ts λ e here live.
    bind_keeps (Evolves ts) ts
      (insert_retry (next_retry f next seq s.new_retry_id) (
        settle f s.now RetryOutcome.failed
          (put_execution f.execution_id (back_to_pending next e) ts)))
      done (Evolves-refl ts)
      λ ts' eq. subst (Evolves ts) (sym (insert_retry-eq-ok _ _ eq)) (
        put-Evolves f.execution_id e (back_to_pending next e) ts _ here (λ j. refl)
          (live_row e _ live refl refl refl (omega arith) (omega arith)))

-- The tables after a row was added.
module _ (id : Uuid) (e : Execution) (ts ts' : Tables) (absent : ts.executions id ≡ none) where
  added-Evolves :
      ((j : Uuid) → ts'.executions j ≡ (if j == id then some e else ts.executions j))
      → Evolves ts ts'
  added-Evolves there = record {
    row = λ j x h. (x, ground (arith, there j, ==_iff j id), RowEvolves-refl x);
  }

admission_admit-Evolves :
    (req : AdmitRequest) (hash : Text) (s : Supply) (ts : Tables)
    → Evolves ts (admission_admit req hash s ts).1
unfolding put_execution
admission_admit-Evolves req hash s ts =
    admission_keeps (Evolves ts) req hash s ts (Evolves-refl ts) λ cap attempts c room absent.
      added-Evolves s.new_execution_id (new_execution s.new_execution_id req hash attempts) ts _
        absent (λ j. refl)

pub Step-Evolves : {ts ts' : Tables} → Step ts ts' → Evolves ts ts'
Step-Evolves {ts = ts} (admits req hash s) = admission_admit-Evolves req hash s ts
Step-Evolves {ts = ts} (claims ws id w ttl s) = claim-Evolves ws id w ttl s ts
Step-Evolves {ts = ts} (reclaims ws id w ttl s) = reclaim_stale-Evolves ws id w ttl s ts
Step-Evolves {ts = ts} (renews f ttl s) = heartbeat-Evolves f s ts ttl
Step-Evolves {ts = ts} (notes f c b d s) = persist_error-Evolves f s ts c b d
Step-Evolves {ts = ts} (completes f r s) = complete-Evolves f s ts r
Step-Evolves {ts = ts} (fails f c d sn s) = fail_and_dlq-Evolves f s ts c d sn
Step-Evolves {ts = ts} (reschedules f n q s) = reschedule-Evolves f n q s ts
Step-Evolves {ts = ts} (dispatches ws r w g b s) = record_dispatch-Evolves ws r w g b s ts
Step-Evolves {ts = ts} (cancels ws id s) = cancel-Evolves ws id s ts
Step-Evolves {ts = ts} (loses_task ws task) = delete_task-Evolves ws task ts

-- any number of transactions
pub data Steps (ts : Tables) : Tables → Type 0 where
  none_left : Steps ts ts
  one_more : {ts' ts'' : Tables} → Steps ts ts' → Step ts' ts'' → Steps ts ts''

pub Steps-Evolves : {ts ts' : Tables} → Steps ts ts' → Evolves ts ts'
Steps-Evolves {ts = ts} none_left = Evolves-refl ts
Steps-Evolves (one_more r st) = Evolves-trans (Steps-Evolves r) (Step-Evolves st)

-- Once an execution is completed, failed or cancelled, no sequence of transactions changes any column
-- of its row, except that its task_id becomes NULL if its task is deleted.
pub final_row_frozen :
    (ts ts' : Tables) (id : Uuid) (e : Execution)
    → Steps ts ts'
    → ts.executions id ≡ some e
    → is_terminal e.status ≡ true
    → (ts'.executions id ≡ some e) ⊎ (ts'.executions id ≡ some (record e { task_id = none }))
final_row_frozen ts ts' id e run here final =
    let (e', there, r) = (Steps-Evolves run).row id e here in
    elim (r.frozen final) [
      | inl same ↦ inl (there ∙ ap some same)
      | inr same ↦ inr (there ∙ ap some same)
    ]

pub lost_lease_writes_nothing :
    (f : FencedExecution) (s : Supply) (ts : Tables) (ttl : ℕ) (code : ErrorCode) (retry : Bool)
    (detail result snapshot : Text) (next : Time) (seq : ℕ)
    → find_execution f.workspace_id f.execution_id (holds_lease f) ts ≡ none
    → (heartbeat f ttl s ts ≡ (err stale_lease, ts))
      × (persist_error f code retry detail s ts ≡ (err stale_lease, ts))
      × (complete f result s ts ≡ (err stale_lease, ts))
      × (fail_and_dlq f code detail snapshot s ts ≡ (err stale_lease, ts))
      × (reschedule f next seq s ts ≡ (err stale_lease, ts))
unfolding heartbeat persist_error complete fail_and_dlq reschedule fenced_update
lost_lease_writes_nothing f s ts ttl code retry detail result snapshot next seq h =
    (rw h, rw h, rw h, rw h, rw h)

-- the row is not the one that the fence was given: another generation, owner, status or workspace
abbrev pub Mismatch : FencedExecution → Execution → Type 0
Mismatch f e =
    ((e.lease_generation ≢ f.lease_generation) ⊎ (e.lease_owner ≢ some f.lease_owner))
    ⊎ ((e.status ≢ Status.running) ⊎ (e.workspace_id ≢ f.workspace_id))

owner_is : (o : Option Text) (t : Text) → opt_text_is o t ≡ true → o ≡ some t
owner_is none t h = cc
owner_is (some u) t h = ap some (eq_of_text_eq u t h)

Mismatch-holds_nothing :
    (f : FencedExecution) (e : Execution)
    → ((e.workspace_id == f.workspace_id) && holds_lease f e) ≡ true
    → Mismatch f e
    → ⊥
unfolding holds_lease
Mismatch-holds_nothing f e h (inl (inl g)) =
    g (ground (arith, ==_iff e.lease_generation f.lease_generation))
Mismatch-holds_nothing f e h (inl (inr o)) = o (owner_is e.lease_owner f.lease_owner (ground arith))
Mismatch-holds_nothing f e h (inr (inl r)) = r (running_is e.status (ground arith))
Mismatch-holds_nothing f e h (inr (inr w)) =
    w (ground (arith, ==_iff e.workspace_id f.workspace_id))

Mismatch-finds_nothing :
    (f : FencedExecution) (ts : Tables) (e : Execution)
    → ts.executions f.execution_id ≡ some e
    → Mismatch f e
    → find_execution f.workspace_id f.execution_id (holds_lease f) ts ≡ none
unfolding find_execution
Mismatch-finds_nothing f ts e here m =
    elim (Bool-cases ((e.workspace_id == f.workspace_id) && holds_lease f e)) [
      | inl held ↦ absurd (Mismatch-holds_nothing f e held m)
      | inr lost ↦ rw (here, lost)
    ]

-- Where the row of the fence's execution has another generation, another owner or another workspace than the fence, or is not
-- running, the five writes of a worker return ErrStaleLease and change no table: heartbeat, error, result, failure and reschedule.
pub stale_fence_writes_nothing :
    (f : FencedExecution) (s : Supply) (ts : Tables) (e : Execution) (ttl : ℕ) (code : ErrorCode)
    (retry : Bool) (detail result snapshot : Text) (next : Time) (seq : ℕ)
    → ts.executions f.execution_id ≡ some e
    → Mismatch f e
    → (heartbeat f ttl s ts ≡ (err stale_lease, ts))
      × (persist_error f code retry detail s ts ≡ (err stale_lease, ts))
      × (complete f result s ts ≡ (err stale_lease, ts))
      × (fail_and_dlq f code detail snapshot s ts ≡ (err stale_lease, ts))
      × (reschedule f next seq s ts ≡ (err stale_lease, ts))
stale_fence_writes_nothing f s ts e ttl code retry detail result snapshot next seq here m =
    lost_lease_writes_nothing f s ts ttl code retry detail result snapshot next seq
      (Mismatch-finds_nothing f ts e here m)

-- A fence whose generation the row has passed is never good again, whatever transactions follow.
pub lost_lease_stays_lost :
    (f : FencedExecution) (ts ts' : Tables) (e : Execution)
    → Steps ts ts'
    → ts.executions f.execution_id ≡ some e
    → f.lease_generation < e.lease_generation
    → find_execution f.workspace_id f.execution_id (holds_lease f) ts' ≡ none
unfolding find_execution holds_lease
lost_lease_stays_lost f ts ts' e run here passed =
    let (e', there, r) = (Steps-Evolves run).row f.execution_id e here in rw there (ground arith)

-- The row after a takeover by ReclaimStale.
reclaimed_row :
    (ws id : Uuid) (worker : Text) (until now : Time) (ts ts' : Tables) (oe : Option Execution)
    {g : FencedExecution}
    → find_execution ws id (is_stale now) ts ≡ oe
    → commit_or_rollback ts (reclaim_row ws id worker until ts oe) ≡ (ok g, ts')
    → (e e' : Execution) × (ts.executions id ≡ some e)
      × (ts'.executions id ≡ some e')
      × (e'.lease_generation ≡ e.lease_generation + 1)
      × (e'.workspace_id ≡ ws)
unfolding reclaim_row put_execution
reclaimed_row ws id worker until now ts ts' none h k = absurd (ground arith)
reclaimed_row ws id worker until now ts ts' (some e) h k =
    let (here, same_ws, stale) = find_execution-eq-some ws id (is_stale now) ts h in
    let e' : Execution = record e {
      lease_owner = some worker;
      lease_generation = e.lease_generation + 1;
      lease_expires_at = some until;
    } in
    let q : put_execution id e' ts ≡ ts' = ap (λ p. p.1) k in
    (e, e', here, subst (λ (t : Tables). t.executions id ≡ some e') q (ground arith), refl, same_ws)

-- After a takeover by ReclaimStale, no worker with an earlier claim of the execution can write any
-- more, whatever transactions come in between: its result, its failure, its reschedule and its
-- heartbeat return ErrStaleLease and change nothing.
pub takeover_fences_old_owner :
    (ws id : Uuid) (worker : Text) (ttl : ℕ) (s s' : Supply) (ts ts₁ ts' : Tables)
    (g f : FencedExecution) (e : Execution) (result detail snapshot : Text) (code : ErrorCode)
    (next : Time) (seq : ℕ)
    → ts.executions id ≡ some e
    → f.execution_id ≡ id
    → f.lease_generation ≤ e.lease_generation
    → reclaim_stale ws id worker ttl s ts ≡ (ok g, ts₁)
    → Steps ts₁ ts'
    → (complete f result s' ts' ≡ (err stale_lease, ts'))
      × (fail_and_dlq f code detail snapshot s' ts' ≡ (err stale_lease, ts'))
      × (reschedule f next seq s' ts' ≡ (err stale_lease, ts'))
      × (heartbeat f ttl s' ts' ≡ (err stale_lease, ts'))
unfolding reclaim_stale
takeover_fences_old_owner ws id worker ttl s s' ts ts₁ ts' g f e result detail snapshot code next
      seq here of_id old took run =
    let (x, e', here', there, up, same_ws) =
      reclaimed_row ws id worker (lease_until s.now ttl) s.now ts ts₁ _ refl took in
    let same : x ≡ e = ground arith in
    let lost =
      lost_lease_stays_lost f ts₁ ts' e' run (rw of_id there)
        (ground (arith, ap (λ (y : Execution). y.lease_generation) same)) in
    let (a, b, c, d, r) =
      lost_lease_writes_nothing f s' ts' ttl code true detail result snapshot next seq lost in
    (c, d, r, a)
