-- ===== src/Execution/Store/Capacity.antt =====
-- The concurrency ceiling of an AI employee, over every interleaving of transactions.
use austro_os.Common.{
  ℕ, ◌+◌, ◌≤◌, ◌≡◌, refl, sym, ap, ◌∙◌, Bool, true, ◌&&◌, ◌==◌, if◌then◌else◌, ==_iff, Option, none,
  some, List, [], ◌∷◌, ◌++◌, All, length, ok, arith, Bool-cases, Option-cases, inl, inr,
}
use mathlib.Core.Path.{subst}
use austro_os.Common.Text.{Text}
use austro_os.Execution.Types.{Uuid, Time, ErrorCode, Execution, FencedExecution, is_terminal}
use austro_os.Execution.Store.Tables.{Tables, Supply, Employee, put_execution, insert_retry}
use austro_os.Execution.Store.Lease.{claim, claim_row, reclaim_stale, reclaim_row}
use austro_os.Execution.Store.Writes.{
  fenced_update, heartbeat, persist_error, complete, fail_and_dlq, reschedule,
}
use austro_os.Execution.Store.Unfenced.{record_dispatch, cancel, cancel_row, is_active, delete_task}
use austro_os.Execution.Store.Admission.{
  AdmitRequest, admission_admit, new_execution, capacity, active_count, visible, of_employee,
  is_some,
}
use austro_os.Execution.Store.Admit.{admission_keeps}
use austro_os.Execution.Store.Evolve.{RowEvolves, Evolves}
use austro_os.Execution.Store.Reach.{
  Step, admits, claims, reclaims, renews, notes, completes, fails, reschedules, dispatches, cancels,
  loses_task, Reach, start, and_then, empty_tables,
}
use austro_os.Execution.Store.Fencing.{Step-Evolves}

abbrev Rows : Type 0
Rows = Uuid → Option Execution

-- every listed id has a row
abbrev Known : Rows → List Uuid → Type 0
Known rows = All (λ id. is_some (rows id) ≡ true)

pub record IsWithinCapacity (ts : Tables) : Type 0 where
  pub known : Known ts.executions ts.order
  pub capped :
      (emp : Uuid) (w : Employee)
      → ts.employees emp ≡ some w
      → active_count w.workspace_id emp ts ≤ w.max_concurrent_executions

-- A row that evolves does not become active again.
active_before : (e e' : Execution) → RowEvolves e e' → is_active e' ≡ true → is_active e ≡ true
active_before e e' r h = elim (Bool-cases (is_terminal e.status)) [
  | inl t ↦ elim (r.frozen t) [
    | inl same ↦ subst (λ x. is_active x ≡ true) same h
    | inr same ↦ subst (λ x. is_active x ≡ true) same h
  ]
  | inr n ↦ ground arith
]

module _ (ws emp : Uuid) (rows rows' : Rows)
    (step : (id : Uuid) (e : Execution)
      → rows id ≡ some e
      → (e' : Execution) × (rows' id ≡ some e') × RowEvolves e e') where
  evolved-count :
      (ids : List Uuid)
      → Known rows ids
      → (length (visible ws (of_employee emp) rows' ids)
          ≤ length (visible ws (of_employee emp) rows ids))
        × Known rows' ids
  unfolding visible
  evolved-count [] k = (omega arith, tt)
  evolved-count (id ∷ ids) (k, ks) = elim (Option-cases (rows id)) [
    | inl e ↦ absurd (ground arith)
    | inr (e, here) ↦
        let (e', there, r) = step id e here in
        let (le, kn) = evolved-count ids ks in
        (
          ground (arith, r.same_workspace, r.same_employee, active_before e e' r),
          (ground arith, kn),
        )
  ]

-- A transaction that adds no row and hires nobody.
record Quiet (ts ts' : Tables) : Type 0 where
  order : ts'.order ≡ ts.order
  staff : ts'.employees ≡ ts.employees

module _ (ts : Tables) (s : Supply) where
  claim-Quiet : (ws id : Uuid) (w : Text) (ttl : ℕ) → Quiet ts (claim ws id w ttl s ts).1
  unfolding claim claim_row put_execution
  claim-Quiet ws id w ttl = ground arith

  reclaim-Quiet : (ws id : Uuid) (w : Text) (ttl : ℕ) → Quiet ts (reclaim_stale ws id w ttl s ts).1
  unfolding reclaim_stale reclaim_row put_execution
  reclaim-Quiet ws id w ttl = ground arith

  dispatch-Quiet :
      (ws id : Uuid) (w : Text) (g : ℕ) (b : Bool) → Quiet ts (record_dispatch ws id w g b s ts).1
  unfolding record_dispatch
  dispatch-Quiet ws id w g b = record { order = refl; staff = refl }

  cancel-Quiet : (ws id : Uuid) → Quiet ts (cancel ws id s ts).1
  unfolding cancel cancel_row put_execution
  cancel-Quiet ws id = ground arith

delete_task-Quiet : (ts : Tables) (ws task : Uuid) → Quiet ts (delete_task ws task ts)
unfolding delete_task
delete_task-Quiet ts ws task = record { order = refl; staff = refl }

module _ (ts : Tables) (s : Supply) (f : FencedExecution) where
  heartbeat-Quiet : (ttl : ℕ) → Quiet ts (heartbeat f ttl s ts).1
  unfolding heartbeat fenced_update put_execution
  heartbeat-Quiet ttl = ground arith

  persist-Quiet : (c : ErrorCode) (b : Bool) (d : Text) → Quiet ts (persist_error f c b d s ts).1
  unfolding persist_error fenced_update put_execution
  persist-Quiet c b d = ground arith

  complete-Quiet : (r : Text) → Quiet ts (complete f r s ts).1
  unfolding complete fenced_update put_execution
  complete-Quiet r = ground arith

  fail-Quiet : (c : ErrorCode) (d sn : Text) → Quiet ts (fail_and_dlq f c d sn s ts).1
  unfolding fail_and_dlq fenced_update put_execution
  fail-Quiet c d sn = ground arith

  reschedule-Quiet : (n : Time) (q : ℕ) → Quiet ts (reschedule f n q s ts).1
  unfolding reschedule fenced_update put_execution insert_retry
  reschedule-Quiet n q = ground arith

Quiet-IsWithinCapacity :
    (ts ts' : Tables) → Quiet ts ts' → Evolves ts ts' → IsWithinCapacity ts → IsWithinCapacity ts'
unfolding active_count
Quiet-IsWithinCapacity ts ts' q ev inv = record {
  known = rw q.order (evolved-count 0 0 ts.executions ts'.executions ev.row ts.order inv.known).1;
  capped = λ emp w h.
      let hired : ts.employees emp ≡ some w =
        ap (λ (g : Uuid → Option Employee). g emp) (sym q.staff) ∙ h in
      let (le, _) =
        evolved-count w.workspace_id emp ts.executions ts'.executions ev.row ts.order inv.known in
      rw q.order (omega (arith, le, inv.capped emp w hired));
}

-- The rows of an order that one more id ends.
module _ (ws emp id : Uuid) (e : Execution) (rows : Rows) (absent : rows id ≡ none) where
  abbrev with_new : Rows
  with_new j = if j == id then some e else rows j

  added-count :
      (ids : List Uuid)
      → Known rows ids
      → (length (visible ws (of_employee emp) with_new (ids ++ id ∷ []))
          ≡ length (visible ws (of_employee emp) rows ids)
            + (if (e.workspace_id == ws) && of_employee emp e then 1 else 0))
        × Known with_new (ids ++ id ∷ [])
  unfolding visible
  added-count [] k = ground arith
  added-count (j ∷ ids) (k, ks) =
      let (n, kn) = added-count ids ks in
      elim (Option-cases (rows j)) [
        | inl h ↦ absurd (ground arith)
        | inr (x, here) ↦ (ground (arith, ==_iff j id), (ground (arith, ==_iff j id), kn))
      ]

capacity-eq-ok :
    (ws emp cap : ℕ) (ts : Tables) (w : Employee)
    → capacity ws emp ts ≡ ok cap
    → ts.employees emp ≡ some w
    → (w.workspace_id ≡ ws) × (w.max_concurrent_executions ≡ cap)
unfolding capacity
capacity-eq-ok ws emp cap ts w h k = ground arith

admission-IsWithinCapacity :
    (req : AdmitRequest) (hash : Text) (s : Supply) (ts : Tables)
    → IsWithinCapacity ts
    → IsWithinCapacity (admission_admit req hash s ts).1
unfolding put_execution active_count new_execution
admission-IsWithinCapacity req hash s ts inv =
    admission_keeps IsWithinCapacity req hash s ts inv λ cap attempts c room absent.
      let id = s.new_execution_id in
      let e = new_execution id req hash attempts in
      record {
        known = (added-count 0 0 id e ts.executions absent ts.order inv.known).1;
        capped = λ emp w h.
            let (n, _) =
              added-count w.workspace_id emp id e ts.executions absent ts.order inv.known in
            ground (
              arith,
              n,
              inv.capped emp w h,
              capacity-eq-ok req.workspace_id emp cap ts w,
              ==_iff req.ai_employee_id emp,
            );
      }

Step-IsWithinCapacity : {ts ts' : Tables} → Step ts ts' → IsWithinCapacity ts → IsWithinCapacity ts'
Step-IsWithinCapacity {ts = ts} (admits req hash s) inv =
    admission-IsWithinCapacity req hash s ts inv
Step-IsWithinCapacity {ts = ts} (claims ws id w ttl s) inv =
    Quiet-IsWithinCapacity ts _ (claim-Quiet ts s ws id w ttl) (Step-Evolves (claims ws id w ttl s))
      inv
Step-IsWithinCapacity {ts = ts} (reclaims ws id w ttl s) inv =
    Quiet-IsWithinCapacity ts _ (reclaim-Quiet ts s ws id w ttl)
      (Step-Evolves (reclaims ws id w ttl s)) inv
Step-IsWithinCapacity {ts = ts} (renews f ttl s) inv =
    Quiet-IsWithinCapacity ts _ (heartbeat-Quiet ts s f ttl) (Step-Evolves (renews f ttl s)) inv
Step-IsWithinCapacity {ts = ts} (notes f c b d s) inv =
    Quiet-IsWithinCapacity ts _ (persist-Quiet ts s f c b d) (Step-Evolves (notes f c b d s)) inv
Step-IsWithinCapacity {ts = ts} (completes f r s) inv =
    Quiet-IsWithinCapacity ts _ (complete-Quiet ts s f r) (Step-Evolves (completes f r s)) inv
Step-IsWithinCapacity {ts = ts} (fails f c d sn s) inv =
    Quiet-IsWithinCapacity ts _ (fail-Quiet ts s f c d sn) (Step-Evolves (fails f c d sn s)) inv
Step-IsWithinCapacity {ts = ts} (reschedules f n q s) inv =
    Quiet-IsWithinCapacity ts _ (reschedule-Quiet ts s f n q) (Step-Evolves (reschedules f n q s))
      inv
Step-IsWithinCapacity {ts = ts} (dispatches ws r w g b s) inv =
    Quiet-IsWithinCapacity ts _ (dispatch-Quiet ts s ws r w g b)
      (Step-Evolves (dispatches ws r w g b s)) inv
Step-IsWithinCapacity {ts = ts} (cancels ws id s) inv =
    Quiet-IsWithinCapacity ts _ (cancel-Quiet ts s ws id) (Step-Evolves (cancels ws id s)) inv
Step-IsWithinCapacity {ts = ts} (loses_task ws task) inv =
    Quiet-IsWithinCapacity ts _ (delete_task-Quiet ts ws task) (Step-Evolves (loses_task ws task))
      inv

Reach-IsWithinCapacity :
    (staff : Uuid → Option Employee) {ts : Tables} → Reach staff ts → IsWithinCapacity ts
unfolding empty_tables active_count visible
Reach-IsWithinCapacity staff start = record { known = tt; capped = λ emp w h. omega arith }
Reach-IsWithinCapacity staff (and_then r st) =
    Step-IsWithinCapacity st (Reach-IsWithinCapacity staff r)

-- In every reachable state, the executions of an AI employee that are pending or running are no more
-- than its `max_concurrent_executions`.
pub active-le-capacity :
    (staff : Uuid → Option Employee) (ts : Tables) (emp : Uuid) (w : Employee)
    → Reach staff ts
    → ts.employees emp ≡ some w
    → active_count w.workspace_id emp ts ≤ w.max_concurrent_executions
active-le-capacity staff ts emp w r h = (Reach-IsWithinCapacity staff r).capped emp w h
