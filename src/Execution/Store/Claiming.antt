-- ===== src/Execution/Store/Claiming.antt =====
-- What a claim and a reschedule achieve for the worker that makes them, and what admission refuses.
use austro_os.Common.{
  ℕ, ◌+◌, ◌<◌, ◌≡◌, refl, ap, Bool, true, false, ◌==◌, any, find, ==_iff, Option, none, some, List,
  [], ◌∷◌, Result, ok, err, arith, Bool-cases, inl, inr,
}
use mathlib.Core.Path.{subst}
use austro_os.Common.Text.{Text, text_eq_refl}
use austro_os.Execution.Types.{
  Uuid, Time, Error, not_found, Execution, Retry, FencedExecution, Status, RetryOutcome,
  MaterializedRequest,
}
use austro_os.Execution.Store.Tables.{
  Tables, Supply, Employee, commit_or_rollback, lease_until, find_execution, put_execution,
  holds_lease, waiting_of, insert_retry, retry_conflict, null_or_past,
}
use austro_os.Execution.Store.Lease.{claim, claim_row, is_claimable, leased, fenced, claim_retries}
use austro_os.Execution.Store.Writes.{reschedule, fenced_update}
use austro_os.Execution.Store.Admission.{
  AdmitRequest, AdmitResult, admission_admit, admit_or_replay, admit_new, insert_snapshot,
}
use austro_os.Execution.Store.Counts.{waiting, any-outstanding}
use austro_os.Execution.Store.Preserve.{released, released-none}
use austro_os.Execution.Store.Lockstep.{find_execution-eq-some}
use austro_os.Execution.Store.Reach.{Reach, Reach-IsLockstep}

-- a pending retry is found where one is counted
find-waiting :
    (ws id : Uuid) (rs : List Retry)
    → 0 < waiting ws id rs
    → (r : Retry) × (find (waiting_of ws id) rs ≡ some r)
unfolding waiting
find-waiting ws id [] h = absurd (omega arith)
find-waiting ws id (r ∷ rs) h = elim (Bool-cases (waiting_of ws id r)) [
  | inl y ↦ (r, rw y)
  | inr n ↦ let (q, e) = find-waiting ws id rs (ground arith) in (q, rw n e)
]

-- The tables that a claim commits.
abbrev claimed_tables : Uuid → Uuid → Text → Time → Time → Execution → Tables → Tables
claimed_tables ws id worker until now e ts =
    put_execution id (leased worker until e)
      (record ts { retries = claim_retries ws id worker (e.lease_generation + 1) now ts.retries })

claim_lem :
    (ts : Tables) (ws id : Uuid) (worker : Text) (ttl : ℕ) (s : Supply) (e : Execution) (r : Retry)
    → find_execution ws id (is_claimable s.now) ts ≡ some e
    → find (waiting_of ws id) ts.retries ≡ some r
    → claim ws id worker ttl s ts ≡ (
      ok (fenced id worker (lease_until s.now ttl) r.id (leased worker (lease_until s.now ttl) e)),
      claimed_tables ws id worker (lease_until s.now ttl) s.now e ts,
    )
unfolding claim claim_row
claim_lem ts ws id worker ttl s e r h k = rw (h, k)

-- In every reachable state a claim of a pending execution that is due and has attempts left succeeds:
-- the row is running with one more attempt and the next generation, and the worker that claimed it
-- holds its lease.
pub claim_due :
    (staff : Uuid → Option Employee) (ts : Tables) (ws id : Uuid) (worker : Text) (ttl : ℕ)
    (s : Supply) (e : Execution)
    → Reach staff ts
    → ts.executions id ≡ some e
    → e.workspace_id ≡ ws
    → e.status ≡ Status.pending
    → e.attempt < e.max_attempts
    → null_or_past e.next_retry_at s.now ≡ true
    → (f : FencedExecution) × (ts' : Tables) × (claim ws id worker ttl s ts ≡ (ok f, ts'))
      × (f.attempt ≡ e.attempt + 1)
      × (f.lease_generation ≡ e.lease_generation + 1)
      × (f.lease_owner ≡ worker)
      × (find_execution ws id (holds_lease f) ts' ≡ some (leased worker (lease_until s.now ttl) e))
unfolding is_claimable find_execution put_execution holds_lease
claim_due staff ts ws id worker ttl s e reach here same_ws idle left due =
    let inv = (Reach-IsLockstep staff ts reach).row id e here in
    let until = lease_until s.now ttl in
    let (r, found) = find-waiting ws id ts.retries (ground arith) in
    (
      fenced id worker until r.id (leased worker until e),
      claimed_tables ws id worker until s.now e ts,
      claim_lem ts ws id worker ttl s e r (ground arith) found,
      refl,
      refl,
      refl,
      ground (arith, text_eq_refl worker, ==_iff id id),
    )

claimed_row :
    (ws id : Uuid) (worker : Text) (until now : Time) (ts ts' : Tables) (oe : Option Execution)
    (or : Option Retry) {f : FencedExecution}
    → commit_or_rollback ts (claim_row ws id worker until now ts oe or) ≡ (ok f, ts')
    → (e : Execution) × (ts'.executions id ≡ some e) × (e.status ≡ Status.running)
unfolding claim_row put_execution
claimed_row ws id worker until now ts ts' none or h = absurd (ground arith)
claimed_row ws id worker until now ts ts' (some e) none h = absurd (ground arith)
claimed_row ws id worker until now ts ts' (some e) (some r) h =
    let q : claimed_tables ws id worker until now e ts ≡ ts' = ap (λ p. p.1) h in
    (
      leased worker until e,
      subst (λ (t : Tables). t.executions id ≡ some (leased worker until e)) q (ground arith),
      refl,
    )

-- A claim that succeeded cannot be repeated before another transaction: a second one, by anybody,
-- finds no row.
pub claim_once :
    (ts ts' : Tables) (ws id : Uuid) (worker other : Text) (ttl ttl' : ℕ) (s s' : Supply)
    (f : FencedExecution)
    → claim ws id worker ttl s ts ≡ (ok f, ts')
    → claim ws id other ttl' s' ts' ≡ (err not_found, ts')
unfolding claim claim_row find_execution is_claimable
claim_once ts ts' ws id worker other ttl ttl' s s' f h =
    let (e, there, run) = claimed_row ws id worker (lease_until s.now ttl) s.now ts ts' _ _ h in
    rw there (ground arith)

-- In every reachable state the holder of a lease can return the execution to pending, if the id of the
-- new retry is new and its number positive: the unique index over outstanding retries never refuses it.
pub reschedule_succeeds :
    (staff : Uuid → Option Employee) (ts : Tables) (f : FencedExecution) (next : Time) (seq : ℕ)
    (s : Supply) (e : Execution)
    → Reach staff ts
    → find_execution f.workspace_id f.execution_id (holds_lease f) ts ≡ some e
    → any (λ q. q.id == s.new_retry_id) (released f s.now RetryOutcome.failed ts) ≡ false
    → 0 < seq
    → (reschedule f next seq s ts).0 ≡ ok tt
unfolding reschedule fenced_update insert_retry retry_conflict put_execution
reschedule_succeeds staff ts f next seq s e reach held new numbered =
    let (here, same_ws, holds) =
      find_execution-eq-some f.workspace_id f.execution_id (holds_lease f) ts held in
    let (w, l) =
      released-none f s.now RetryOutcome.failed ts (Reach-IsLockstep staff ts reach) e here same_ws
        (unfold holds_lease in ground arith) in
    let positive : (seq == 0) ≡ false = ground (arith, ==_iff seq 0) in
    rw (
      held,
      positive,
      new,
      any-outstanding f.workspace_id f.execution_id (released f s.now RetryOutcome.failed ts) w l,
    )

-- did an admission create an execution?
abbrev pub creates : Result Error AdmitResult → Bool
creates (ok r) = r.created
creates (err e) = false

-- An admission with a context snapshot never creates an execution, and changes no table: the INSERT
-- into execution_contexts leaves out the workspace_id, which is NOT NULL.
pub admission_with_context_creates_nothing :
    (req : AdmitRequest) (hash : Text) (s : Supply) (ts : Tables) (m : MaterializedRequest)
    → req.context ≡ some m
    → ((admission_admit req hash s ts).1 ≡ ts) × (creates (admission_admit req hash s ts).0 ≡ false)
unfolding admission_admit admit_or_replay admit_new insert_snapshot
admission_with_context_creates_nothing req hash s ts m h = (ground arith, ground arith)
