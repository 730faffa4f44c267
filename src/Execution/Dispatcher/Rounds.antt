-- ===== src/Execution/Dispatcher/Rounds.antt =====
-- Recovery comes to its end: every round that reclaims a row takes one out of the running ones.
use austro_os.Common.{
  ℕ, ◌+◌, ◌≤◌, ◌<◌, ◌≡◌, refl, ap, Bool, true, false, ◌==◌, if◌then◌else◌, Option, none, some,
  Result, ok, err, ◌>>=◌, List, [], ◌∷◌, count, arith, ==_iff,
}
use mathlib.Core.Path.{subst}
use austro_os.Common.Text.{Text}
use austro_os.Execution.Types.{
  Uuid, Time, Error, ErrorCode, Execution, RetryOutcome, FencedExecution, PublishMessage,
  is_running,
}
use austro_os.Execution.Store.Tables.{
  commit_or_rollback, Tables, Supply, find_execution, put_execution, holds_lease, insert_retry,
}
use austro_os.Execution.Store.Lease.{reclaim_stale, reclaim_row, is_stale}
use austro_os.Execution.Store.Writes.{
  fail_and_dlq, reschedule, fenced_update, fenced_row, next_retry, settle, back_to_pending, done,
}
use austro_os.Execution.Store.Lockstep.{find_execution-eq-some}
use austro_os.Execution.Store.Requeue.{insert_retry-eq-ok}
use austro_os.Execution.Io.Hoare.{PostTx}

abbrev pub runs : Option Execution → Bool
runs none = false
runs (some e) = is_running e.status

abbrev pub Rows : Type 0
Rows = Uuid → Option Execution

-- how many of the ids belong to a running execution
unfoldable pub running : List Uuid → Rows → ℕ
running ids rows = count (λ j. runs (rows j)) ids

unfoldable pub occurrences : Uuid → List Uuid → ℕ
occurrences id ids = count (λ j. j == id) ids

-- a running row is replaced
running-put :
    (ids : List Uuid) (id : Uuid) (e' : Execution) (rows rows' : Rows)
    → runs (rows id) ≡ true
    → ((j : Uuid) → rows' j ≡ (if j == id then some e' else rows j))
    → running ids rows' + (if is_running e'.status then 0 else occurrences id ids)
      ≡ running ids rows
unfolding running occurrences
running-put [] id e' rows rows' run there = ground arith
running-put (j ∷ js) id e' rows rows' run there =
    ground (arith, running-put js id e' rows rows' run there, there j, ==_iff j id)

-- Every row is one of the ids, and at least `k` of `n` rounds are left over for the running ones.
module _ (ids : List Uuid) where
  abbrev pub Listed : Rows → Type 0
  Listed rows = (id : Uuid) (e : Execution) → rows id ≡ some e → 0 < occurrences id ids

  abbrev pub Left : ℕ → ℕ → Rows → Type 0
  Left n k rows = Listed rows × (running ids rows + k ≤ n)

  -- A running row is replaced by one that runs (`k`), or by one that does not (`k + 1`).
  put-Left :
      (n k : ℕ) (id : Uuid) (e e' : Execution) (rows rows' : Rows)
      → rows id ≡ some e
      → is_running e.status ≡ true
      → ((j : Uuid) → rows' j ≡ (if j == id then some e' else rows j))
      → Left n k rows
      → Left n (if is_running e'.status then k else k + 1) rows'
  put-Left n k id e e' rows rows' here run there (listed, room) =
      let moved = running-put ids id e' rows rows' (ground arith) there in
      (
        λ j x h. ground (arith, there j, listed j x, listed id e here, ==_iff j id),
        ground (arith, moved, listed id e here),
      )

  abbrev pub Keeping : ℕ → ℕ → Tables → List PublishMessage → Type 0
  Keeping n k ts msgs = Left n k ts.executions

  -- a reclaim keeps the row running
  reclaimed-Left :
      (n k : ℕ) (ws id : Uuid) (worker : Text) (until now : Time) (ts : Tables)
      (msgs : List PublishMessage) (oe : Option Execution)
      → find_execution ws id (is_stale now) ts ≡ oe
      → Left n k ts.executions
      → PostTx
          (Keeping n k)
          (λ f. Keeping n k)
          msgs
          (commit_or_rollback ts (reclaim_row ws id worker until ts oe))
  unfolding reclaim_row put_execution
  reclaimed-Left n k ws id worker until now ts msgs none h p = p
  reclaimed-Left n k ws id worker until now ts msgs (some e) h p =
      let (here, same_ws, stale) = find_execution-eq-some ws id (is_stale now) ts h in
      let run : is_running e.status ≡ true = unfold is_stale in ground arith in
      let e' : Execution = record e {
        lease_owner = some worker;
        lease_generation = e.lease_generation + 1;
        lease_expires_at = some until;
      } in
      let q =
        put-Left n k id e e' ts.executions (put_execution id e' ts).executions here run
          (unfold put_execution in λ j. refl) p in
      subst (λ b. Left n (if b then k else k + 1) (put_execution id e' ts).executions) run q

  -- a write under a fence that takes the row out of the running ones
  settled-Left :
      (n k : ℕ) (f : FencedExecution) (e e' : Execution) (ts : Tables) (rows' : Rows)
      → find_execution f.workspace_id f.execution_id (holds_lease f) ts ≡ some e
      → is_running e'.status ≡ false
      → ((j : Uuid) → rows' j ≡ (if j == f.execution_id then some e' else ts.executions j))
      → Left n k ts.executions
      → Left n (k + 1) rows'
  settled-Left n k f e e' ts rows' held stop there p =
      let (here, same_ws, holds) =
        find_execution-eq-some f.workspace_id f.execution_id (holds_lease f) ts held in
      subst (λ b. Left n (if b then k else k + 1) rows') stop
        (put-Left n k f.execution_id e e' ts.executions rows' here
          (unfold holds_lease in ground arith) there p)

  -- A write under a fence: nothing without the row, and otherwise what the rest of the transaction makes of it.
  fence-PostTx :
      {A : Type 0} (n k k' : ℕ) (f : FencedExecution) (g : Execution → Execution) (ts : Tables)
      (rest : Tables → Result Error (A × Tables)) (msgs : List PublishMessage)
      (oe : Option Execution)
      → find_execution f.workspace_id f.execution_id (holds_lease f) ts ≡ oe
      → Left n k ts.executions
      → ((e : Execution)
          → find_execution f.workspace_id f.execution_id (holds_lease f) ts ≡ some e
          → PostTx
              (Keeping n k)
              (λ a. Keeping n k')
              msgs
              (commit_or_rollback ts (rest (put_execution f.execution_id (g e) ts))))
      → PostTx
          (Keeping n k)
          (λ a. Keeping n k')
          msgs
          (commit_or_rollback ts (fenced_row f g ts oe >>= rest))
  fence-PostTx n k k' f g ts rest msgs none h p next = p
  fence-PostTx n k k' f g ts rest msgs (some e) h p next = next e h

  pub fail-Left :
      (n k : ℕ) (f : FencedExecution) (code : ErrorCode) (detail snapshot : Text) (s : Supply)
      (ts : Tables) (msgs : List PublishMessage)
      → Left n k ts.executions
      → PostTx
          (Keeping n k)
          (λ u. Keeping n (k + 1))
          msgs
          (fail_and_dlq f code detail snapshot s ts)
  unfolding fail_and_dlq fenced_update put_execution
  fail-Left n k f code detail snapshot s ts msgs p =
      fence-PostTx n k (k + 1) f _ ts _ msgs _ refl p
        λ e held. settled-Left n k f e _ ts _ held refl (λ j. refl) p

  pub reschedule-Left :
      (n k : ℕ) (f : FencedExecution) (next : Time) (seq : ℕ) (s : Supply) (ts : Tables)
      (msgs : List PublishMessage)
      → Left n k ts.executions
      → PostTx (Keeping n k) (λ u. Keeping n (k + 1)) msgs (reschedule f next seq s ts)
  unfolding reschedule fenced_update put_execution
  reschedule-Left n k f next seq s ts msgs p =
      fence-PostTx n k (k + 1) f _ ts _ msgs _ refl p λ e held. inserted e held _ refl
    where
      inserted :
          (e : Execution)
          → find_execution f.workspace_id f.execution_id (holds_lease f) ts ≡ some e
          → (r : Result Error Tables)
          → insert_retry (next_retry f next seq s.new_retry_id) (
              settle f s.now RetryOutcome.failed
                (put_execution f.execution_id (back_to_pending next e) ts))
            ≡ r
          → PostTx (Keeping n k) (λ u. Keeping n (k + 1)) msgs (commit_or_rollback ts (r >>= done))
      inserted e held (err x) h = p
      inserted e held (ok ts') h =
          settled-Left n k f e (back_to_pending next e) ts ts'.executions held refl
            (λ j. ap (λ (x : Tables). x.executions j) (insert_retry-eq-ok _ _ h)) p

  pub reclaim-Left :
      (n k : ℕ) (ws id : Uuid) (worker : Text) (ttl : ℕ) (s : Supply) (ts : Tables)
      (msgs : List PublishMessage)
      → Left n k ts.executions
      → PostTx (Keeping n k) (λ f. Keeping n k) msgs (reclaim_stale ws id worker ttl s ts)
  unfolding reclaim_stale
  reclaim-Left n k ws id worker ttl s ts msgs p =
      reclaimed-Left n k ws id worker _ s.now ts msgs _ refl p
