-- ===== src/Execution/Dispatcher/Leases.antt =====
-- What the messages of a dispatcher say of the leases.
use austro_os.Common.{
  ℕ, ◌+◌, ◌≤◌, ◌<◌, ◌≡◌, refl, sym, ap, Bool, false, ◌&&◌, ◌==◌, Option, none, some, Result, ok,
  err, List, [], ◌∷◌, All, any, arith,
}
use mathlib.Core.Path.{subst}
use austro_os.Common.Text.{Text}
use austro_os.Execution.Types.{Uuid, Time, Error, Execution, Retry, FencedExecution, PublishMessage}
use austro_os.Execution.Store.Tables.{
  Tables, Supply, commit_or_rollback, find_execution, put_execution,
}
use austro_os.Execution.Store.Lease.{claim, claim_row, leased}
use austro_os.Execution.Store.Lockstep.{find_execution-eq-some}
use austro_os.Execution.Io.Hoare.{Post}
use austro_os.Execution.Store.Evolve.{Evolves}
use austro_os.Execution.Store.Reach.{claims}
use austro_os.Execution.Store.Fencing.{Steps, Step-Evolves, Steps-Evolves}
use austro_os.Execution.Io.{Surroundings, World}
use austro_os.Execution.Dispatcher.{Dispatcher, message_of, sweep}
use austro_os.Execution.Dispatcher.Keeps.{sweep-Hoare}

-- the same attempt under the same lease
abbrev pub same_lease : PublishMessage → PublishMessage → Bool
same_lease m q = (m.execution_id == q.execution_id) && (m.generation == q.generation)

-- no two messages are about the same lease
abbrev pub Distinct : List PublishMessage → Type 0
Distinct [] = Unit
Distinct (m ∷ ms) = (any (same_lease m) ms ≡ false) × Distinct ms

-- the lease of the message was granted
abbrev pub Granted : Tables → PublishMessage → Type 0
Granted ts m =
    (e : Execution) × (ts.executions m.execution_id ≡ some e) × (m.generation ≤ e.lease_generation)

abbrev pub Ledger : Tables → List PublishMessage → Type 0
Ledger ts msgs = All (Granted ts) msgs × Distinct msgs

Granted-Evolves :
    {ts ts' : Tables}
    → Evolves ts ts'
    → (msgs : List PublishMessage) → All (Granted ts) msgs
    → All (Granted ts') msgs
Granted-Evolves ev [] h = tt
Granted-Evolves ev (m ∷ ms) ((e, here, le), h) =
    let (e', there, r) = ev.row m.execution_id e here in
    ((e', there, omega (arith, r.generation_grows)), Granted-Evolves ev ms h)

Ledger-Evolves :
    {ts ts' : Tables}
    → Evolves ts ts'
    → (msgs : List PublishMessage) → Ledger ts msgs
    → Ledger ts' msgs
Ledger-Evolves ev msgs (g, d) = (Granted-Evolves ev msgs g, d)

-- A lease that is newer than the row's is not in the ledger.
newer-any :
    (ts : Tables) (m : PublishMessage) (e : Execution) (msgs : List PublishMessage)
    → ts.executions m.execution_id ≡ some e
    → e.lease_generation < m.generation
    → All (Granted ts) msgs
    → any (same_lease m) msgs ≡ false
newer-any ts m e [] here lt h = refl
newer-any ts m e (q ∷ qs) here lt ((e', there, le), h) =
    ground (arith, newer-any ts m e qs here lt h)

-- What a claim that succeeded found and left.
record Claimed (id : Uuid) (ts ts' : Tables) (f : FencedExecution) : Type 0 where
  before : Execution
  found : ts.executions id ≡ some before
  left : (e : Execution) × (ts'.executions id ≡ some e) × (e.lease_generation ≡ f.lease_generation)
  same_id : f.execution_id ≡ id
  next : f.lease_generation ≡ before.lease_generation + 1

claim_row-Claimed :
    (ws id : Uuid) (worker : Text) (until t : Time) (ts ts' : Tables) (p : Execution → Bool)
    (oe : Option Execution) (or : Option Retry) {f : FencedExecution}
    → find_execution ws id p ts ≡ oe
    → commit_or_rollback ts (claim_row ws id worker until t ts oe or) ≡ (ok f, ts')
    → Claimed id ts ts' f
unfolding claim_row put_execution
claim_row-Claimed ws id worker until t ts ts' p none or k h = absurd (ground arith)
claim_row-Claimed ws id worker until t ts ts' p (some e) none k h = absurd (ground arith)
claim_row-Claimed ws id worker until t ts ts' p (some e) (some r) k h =
    let q = ap (λ (x : Result Error FencedExecution × Tables). x.1) h in
    record {
      before = e;
      found = (find_execution-eq-some ws id p ts k).0;
      left = (
        leased worker until e,
        subst (λ (x : Tables). x.executions id ≡ some (leased worker until e)) q (ground arith),
        ground arith,
      );
      same_id = ground arith;
      next = ground arith;
    }

claim-Claimed :
    (ws id : Uuid) (worker : Text) (ttl : ℕ) (s : Supply) (ts ts' : Tables) (f : FencedExecution)
    → claim ws id worker ttl s ts ≡ (ok f, ts')
    → Claimed id ts ts' f
unfolding claim
claim-Claimed ws id worker ttl s ts ts' f h = claim_row-Claimed ws id worker _ _ ts ts' _ _ _ refl h

module _ (env : Surroundings) (d : Dispatcher) (ws : Uuid) where
  claimed-Ledger :
      (id : Uuid) (s : Supply) (ts ts' : Tables) (f : FencedExecution) (msgs : List PublishMessage)
      → claim ws id d.worker_id d.lease_ttl s ts ≡ (ok f, ts')
      → Ledger ts msgs
      → Ledger ts' (message_of env d ws f ∷ msgs)
  claimed-Ledger id s ts ts' f msgs h (g, dist) =
      let c = claim-Claimed ws id d.worker_id d.lease_ttl s ts ts' f h in
      let (e, there, gen) = c.left in
      let ev : Evolves ts ts' =
        subst (λ (x : Result Error FencedExecution × Tables). Evolves ts x.1) h
          (Step-Evolves (claims ws id d.worker_id d.lease_ttl s)) in
      (
        (
          (e, subst (λ j. ts'.executions j ≡ some e) (sym c.same_id) there, omega (arith, gen)),
          Granted-Evolves ev msgs g,
        ),
        (
          newer-any ts (message_of env d ws f) c.before msgs
              (subst (λ j. ts.executions j ≡ some c.before) (sym c.same_id) c.found)
              (omega (arith, c.next)) g,
          dist,
        ),
      )

Always-Post {ℓ} :
    {A : Type 0} (P : Tables → List PublishMessage → Type ℓ) (x : Result Error A × World)
    → Post P (λ a. P) x
    → P x.1.tables x.1.published
Always-Post P (ok a, w) h = h
Always-Post P (err e, w) h = h

module _ (env : Surroundings) (d : Dispatcher) (ws : Uuid)
    (others : (n : ℕ) (ts : Tables) → Steps ts (env.others n ts)) where
  -- A message once published is about a lease of its own: no sweep, whatever other processes do in between, publishes
  -- two messages about the same lease of an execution, and each is about a lease that was granted.
  pub one_message_per_lease :
      (rounds : ℕ) (w : World)
      → Ledger w.tables w.published
      → Ledger (sweep env d ws rounds w).1.tables (sweep env d ws rounds w).1.published
  one_message_per_lease rounds w h = Always-Post Ledger _ (
      sweep-Hoare env d ws Ledger
        (λ n ts msgs p. Ledger-Evolves (Steps-Evolves (others n ts)) msgs p)
        (λ ts ts' msgs st p. Ledger-Evolves (Step-Evolves st) msgs p) (claimed-Ledger env d ws)
        rounds w h)
