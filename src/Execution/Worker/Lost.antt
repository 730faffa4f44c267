-- ===== src/Execution/Worker/Lost.antt =====
-- A run of internal/execution/worker.go whose lease has moved on.
use austro_os.Common.{ℕ, ◌<◌, ◌≡◌, refl, sym, false, none, some, Result, err, List, [], arith}
use mathlib.Core.Path.{subst}
use austro_os.Execution.Types.{
  Error, stale_lease, ErrorCode, Execution, FencedExecution, PublishMessage,
}
use austro_os.Execution.Store.Tables.{Tables, find_execution, holds_lease}
use austro_os.Execution.Store.Fencing.{
  Steps, Steps-Evolves, none_left, lost_lease_writes_nothing, lost_lease_stays_lost,
}
use austro_os.Execution.Io.{Surroundings, World}
use austro_os.Execution.Io.Hoare.{PostTx}
use austro_os.Execution.Worker.{
  completed, scheduled, abandoned, Outcome, Worker, Provider, dead_lettered, fenced_from,
  is_invalid, run,
}
use austro_os.Execution.Worker.Keeps.{run-Hoare}
use austro_os.Execution.Worker.Outcomes.{Returned, Post-Returned}

-- tables that only other processes have changed
pub data ByOthers (env : Surroundings) (from : Tables) : Tables → Type 0 where
  untouched : ByOthers env from from
  moved : {ts : Tables} → ByOthers env from ts → (n : ℕ) → ByOthers env from (env.others n ts)

module _ (env : Surroundings) (wk : Worker) (prov : Provider) (msg : PublishMessage)
    (w : World) where
  -- the row has passed the message's generation, and this process has written nothing
  abbrev Passed : Tables → List PublishMessage → Type 0
  Passed ts msgs =
      ((e : Execution) × (ts.executions msg.execution_id ≡ some e)
        × (msg.generation < e.lease_generation))
      × ByOthers env w.tables ts

  refused :
      {A : Type 0} (Q : A → Tables → List PublishMessage → Type 0) (r : Result Error A × Tables)
      (ts : Tables) (msgs : List PublishMessage)
      → Passed ts msgs
      → r ≡ (err stale_lease, ts)
      → PostTx Passed Q msgs r
  refused {A} Q r ts msgs p h = subst (PostTx Passed Q msgs) (sym h) p

  abbrev fence : FencedExecution
  fence = fenced_from msg wk.worker_id

  no_row :
      (ts : Tables) (msgs : List PublishMessage)
      → Passed ts msgs
      → find_execution fence.workspace_id fence.execution_id (holds_lease fence) ts ≡ none
  unfolding fenced_from
  no_row ts msgs ((e, here, lt), by) = lost_lease_stays_lost fence ts ts e none_left here lt

  -- A worker whose message carries a generation that the row has passed abandons the run and writes nothing: the tables
  -- are those that other processes made, whatever the provider answers.
  pub run_without_lease :
      ((n : ℕ) (ts : Tables) → Steps ts (env.others n ts))
      → (e : Execution) → is_invalid msg ≡ false
      → w.tables.executions msg.execution_id ≡ some e
      → msg.generation < e.lease_generation
      → Returned (λ o ts. (o.0 ≡ abandoned) × ByOthers env w.tables ts) (run env wk prov msg w)
  run_without_lease others e valid here lt =
      let R : Outcome → Tables → Type 0 = λ o ts. (o.0 ≡ abandoned) × ByOthers env w.tables ts in
      Post-Returned Passed R _ (
        run-Hoare env wk prov msg Passed (λ o ts msgs. R o ts) kept (λ x ts msgs p. (refl, p.1))
          (λ s ts msgs p.
            refused (λ u. Passed) _ ts msgs p
              (lost_lease_writes_nothing fence s ts wk.lease_ttl ErrorCode.unknown false [] [] [] 0
                0 (no_row ts msgs p)).0)
          (λ c r t s ts msgs p.
            refused (λ u. Passed) _ ts msgs p
              (lost_lease_writes_nothing fence s ts 0 c r t [] [] 0 0 (no_row ts msgs p)).1)
          (λ x s ts msgs p.
            refused (λ u ts' msgs'. R (completed, none) ts') _ ts msgs p
              (lost_lease_writes_nothing fence s ts 0 ErrorCode.unknown false [] x [] 0 0
                (no_row ts msgs p)).2)
          (λ n q s ts msgs p.
            refused (λ u ts' msgs'. R (scheduled, none) ts') _ ts msgs p
              (lost_lease_writes_nothing fence s ts 0 ErrorCode.unknown false [] [] [] n q
                (no_row ts msgs p)).4)
          (λ c t x s ts msgs p.
            refused (λ u ts' msgs'. R (dead_lettered, none) ts') _ ts msgs p
              (lost_lease_writes_nothing fence s ts 0 c false t [] x 0 0 (no_row ts msgs p)).3)
          (λ ts msgs h p. absurd (ground arith)) w ((e, here, lt), untouched))
    where
      kept :
          (n : ℕ) (ts : Tables) (msgs : List PublishMessage)
          → Passed ts msgs
          → Passed (env.others n ts) msgs
      kept n ts msgs ((x, there, less), by) =
          let (x', there', r) = (Steps-Evolves (others n ts)).row msg.execution_id x there in
          ((x', there', omega (arith, r.generation_grows)), moved by n)
