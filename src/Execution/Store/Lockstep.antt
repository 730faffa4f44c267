-- ===== src/Execution/Store/Lockstep.antt =====
-- The invariant of the tables: executions and their outstanding retries move in lockstep.
use austro_os.Common.{
  ℕ, ◌≤◌, ◌≡◌, ◌≢◌, Bool, true, false, ◌==◌, if◌then◌else◌, Option, none, some, List, arith, sym,
}
use mathlib.Core.Path.{subst}
use native.Mathlib.Decide.{ℕ_discrete}
use austro_os.Execution.Types.{Uuid, Execution, Retry, Status, pending, running, is_running}
use austro_os.Execution.Store.Tables.{Tables, find_execution}
use austro_os.Execution.Store.Counts.{waiting, live, uncleared, SameElsewhere}

-- how many retries wait for a claim, and how many a worker holds
abbrev pub waiting_slots : Status → ℕ
waiting_slots pending = 1
waiting_slots _ = 0

abbrev pub live_slots : Status → ℕ
live_slots running = 1
live_slots _ = 0

abbrev pub is_set {ℓ} : {A : Type ℓ} → Option A → Bool
is_set none = false
is_set (some a) = true

-- One row of ai_executions against the retries.
pub record RowInv (id : Uuid) (e : Execution) (rs : List Retry) : Type 0 where
  pub one_waiting : waiting e.workspace_id id rs ≡ waiting_slots e.status
  pub one_live : live e.workspace_id id rs ≡ live_slots e.status
  pub owner_iff_running : is_set e.lease_owner ≡ is_running e.status
  pub expiry_iff_running : is_set e.lease_expires_at ≡ is_running e.status
  pub within_budget : e.attempt ≤ e.max_attempts

pub record IsLockstep (ts : Tables) : Type 0 where
  pub row : (id : Uuid) (e : Execution) → ts.executions id ≡ some e → RowInv id e ts.retries
  pub no_orphan :
      (ws id : Uuid)
      → ts.executions id ≡ none
      → (waiting ws id ts.retries ≡ 0) × (live ws id ts.retries ≡ 0)
  pub cleared : uncleared ts.retries ≡ 0

-- What a `WHERE id = … AND workspace_id = …` finds.
pub find_execution-eq-some :
    (ws id : Uuid) (p : Execution → Bool) (ts : Tables) {e : Execution}
    → find_execution ws id p ts ≡ some e
    → (ts.executions id ≡ some e) × (e.workspace_id ≡ ws) × (p e ≡ true)
unfolding find_execution
find_execution-eq-some ws id p ts h = ground arith

-- The retries of another execution may change in any way that keeps its counts.
RowInv-elsewhere :
    (id j : Uuid) (e : Execution) (rs rs' : List Retry)
    → j ≢ id
    → SameElsewhere id rs rs'
    → RowInv j e rs
    → RowInv j e rs'
RowInv-elsewhere id j e rs rs' ne same inv =
    ground (arith, same.same_waiting e.workspace_id j ne, same.same_live e.workspace_id j ne)

-- Replacing one row and its retries keeps the invariant, if the new row fits the new retries.
module _ (id : Uuid) (e' : Execution) (ts ts' : Tables) (inv : IsLockstep ts)
    (there : (j : Uuid) → ts'.executions j ≡ (if j == id then some e' else ts.executions j))
    (fits : RowInv id e' ts'.retries) (same : SameElsewhere id ts.retries ts'.retries) where
  put_row : (j : Uuid) (x : Execution) → ts'.executions j ≡ some x → RowInv j x ts'.retries
  put_row j x h = elim (ℕ_discrete j id) [
    | yes p ↦
        let q : x ≡ e' = ground (arith, there j) in
        subst (λ k. RowInv k x ts'.retries) (sym p)
          (subst (λ y. RowInv id y ts'.retries) (sym q) fits)
    | no n ↦
        RowInv-elsewhere id j x ts.retries ts'.retries n same
          (inv.row j x (ground (arith, there j)))
  ]

  put_orphan :
      (ws j : Uuid)
      → ts'.executions j ≡ none
      → (waiting ws j ts'.retries ≡ 0) × (live ws j ts'.retries ≡ 0)
  put_orphan ws j h = elim (ℕ_discrete j id) [
    | yes p ↦ absurd (ground (arith, there j))
    | no n ↦
        ground (arith, there j, inv.no_orphan ws j, same.same_waiting ws j n, same.same_live ws j n)
  ]

  pub put-IsLockstep : uncleared ts'.retries ≤ uncleared ts.retries → IsLockstep ts'
  put-IsLockstep clear = record {
    row = put_row;
    no_orphan = put_orphan;
    cleared = omega (arith, inv.cleared);
  }
