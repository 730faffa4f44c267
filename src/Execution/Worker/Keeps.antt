-- ===== src/Execution/Worker/Keeps.antt =====
-- From what each write of a worker does to what a whole run does.
use austro_os.Common.{
  ℕ, zero, suc, ◌+◌, ◌≡◌, refl, Bool, true, false, not, ◌&&◌, ◌||◌, ltb, if◌then◌else◌, Option,
  none, some, Result, ok, err, List,
}
use Prim.Native.Nat.{min}
use austro_os.Common.Text.{Text}
use austro_os.Execution.Types.{
  Time, Error, invalid_input, ErrorCode, FencedExecution, MaterializedRequest, PublishMessage,
}
use austro_os.Execution.Classify.{Cause, classify}
use austro_os.Execution.Backoff.{retry_delay}
use austro_os.Execution.Store.Tables.{Tables, Supply, Tx}
use austro_os.Execution.Store.Writes.{heartbeat, persist_error, complete, fail_and_dlq, reschedule}
use austro_os.Execution.Store.Admission.{materialize}
use austro_os.Execution.Io.{Surroundings, World, Io, return, ◌>>=◌, attempt, call}
use austro_os.Execution.Io.Hoare.{
  Post, PostTx, Hoare, call-Hoare, bind-Hoare, attempt-Hoare, Attempted, if-Hoare,
}
use austro_os.Execution.Worker.{
  completed, scheduled, dead_lettered, abandoned, Outcome, Worker, Provider, fenced_from,
  or_else_abandon, reading, is_invalid, beating, give_back, dead_letter, finalize_failure, finish,
  finalize, payload_of, run_attempt, run, instruction,
}

-- `P` holds as long as the run goes on, `R` of what it returns.
module _ {ℓ} (env : Surroundings) (wk : Worker) (prov : Provider) (msg : PublishMessage)
    (P : Tables → List PublishMessage → Type ℓ)
    (R : Outcome → Tables → List PublishMessage → Type ℓ)
    (others : (n : ℕ) (ts : Tables) (msgs : List PublishMessage)
      → P ts msgs
      → P (env.others n ts) msgs)
    (quits : (e : Option Error) (ts : Tables) (msgs : List PublishMessage)
      → P ts msgs
      → R (abandoned, e) ts msgs) where
  abbrev fence : FencedExecution
  fence = fenced_from msg wk.worker_id

  -- a write whose error abandons the run
  write-Hoare :
      {A : Type 0} (Q : A → Tables → List PublishMessage → Type ℓ) (op : Tx A) (k : A → Io Outcome)
      → ((s : Supply) (ts : Tables) (msgs : List PublishMessage)
          → P ts msgs
          → PostTx P Q msgs (op s ts))
      → ((a : A) (w : World) → Q a w.tables w.published → Post P R (k a w))
      → Hoare P R (attempt (call env op) >>= λ r. or_else_abandon r k)
  write-Hoare {A} Q op k runs next =
      bind-Hoare P (Attempted P Q) R _ _ (attempt-Hoare P Q _ (call-Hoare P Q env op others runs))
        by_result
    where
      by_result :
          (r : Result Error A) (w : World)
          → Attempted P Q r w.tables w.published
          → Post P R (or_else_abandon r k w)
      by_result (ok a) w q = next a w q
      by_result (err e) w q = quits (some e) w.tables w.published q

  module _
      (beats : (s : Supply) (ts : Tables) (msgs : List PublishMessage)
        → P ts msgs
        → PostTx P (λ u. P) msgs (heartbeat fence wk.lease_ttl s ts))
      (notes : (code : ErrorCode) (retry : Bool) (detail : Text) (s : Supply) (ts : Tables)
          (msgs : List PublishMessage)
        → P ts msgs
        → PostTx P (λ u. P) msgs (persist_error fence code retry detail s ts))
      (completes : (payload : Text) (s : Supply) (ts : Tables) (msgs : List PublishMessage)
        → P ts msgs
        → PostTx P (λ u. R (completed, none)) msgs (complete fence payload s ts))
      (reschedules : (next : Time) (seq : ℕ) (s : Supply) (ts : Tables) (msgs : List PublishMessage)
        → P ts msgs
        → PostTx P (λ u. R (scheduled, none)) msgs (reschedule fence next seq s ts))
      (fails : (code : ErrorCode) (detail snapshot : Text) (s : Supply) (ts : Tables)
          (msgs : List PublishMessage)
        → P ts msgs
        → PostTx P
            (λ u. R (dead_lettered, none))
            msgs
            (fail_and_dlq fence code detail snapshot s ts)) where
    after_beat :
        (n : ℕ)
        → Hoare P (λ (b : Bool). P) (beating env wk prov fence n)
        → (x : Result Error (Unit {0}) × World) → Post P (λ u. P) x
        → Post P
            (λ (b : Bool). P)
            ((elim x.0 as (λ r. Io Bool) [
              | ok u ↦ beating env wk prov fence n
              | err e ↦ return true
            ])
              x.1)
    after_beat n rest (ok u, w) p = rest w p
    after_beat n rest (err e, w) p = p

    beating-Hoare : (n : ℕ) → Hoare P (λ (b : Bool). P) (beating env wk prov fence n)
    unfolding beating ◌>>=◌ attempt
    beating-Hoare zero = λ w p. p
    beating-Hoare (suc n) = λ w p.
        let c = call env (heartbeat fence wk.lease_ttl) in
        after_beat n (beating-Hoare n) (c w) (call-Hoare P (λ u. P) env _ others beats w p)

    give_back-Hoare : Hoare P R (give_back env wk prov fence)
    unfolding give_back
    give_back-Hoare w p =
        write-Hoare (λ v. R (scheduled, none)) _ (λ u. return (scheduled, none))
          (reschedules (env.clock w.tick + retry_delay fence.attempt wk.base_delay wk.max_delay)
            (fence.attempt + 1))
          (λ v x r. r) w p

    dead_letter-Hoare :
        (m : MaterializedRequest) (cause : Cause)
        → Hoare P R (dead_letter env wk prov fence m cause)
    unfolding dead_letter
    dead_letter-Hoare m cause =
        write-Hoare (λ v. R (dead_lettered, none)) _ (λ u. return (dead_lettered, none))
          (fails (classify (some cause)).code (prov.text_of cause) (prov.encode m)) (λ v x r. r)

    finalize_failure-Hoare :
        (m : MaterializedRequest) (cause : Cause)
        → Hoare P R (finalize_failure env wk prov fence m cause)
    unfolding finalize_failure
    finalize_failure-Hoare m cause =
        let cl = classify (some cause) in
        write-Hoare (λ u. P) _
          (λ u.
            if cl.retry && ltb fence.attempt fence.max_attempts
            then give_back env wk prov fence
            else dead_letter env wk prov fence m cause)
          (notes cl.code cl.retry (prov.text_of cause))
          λ u.
            if-Hoare P R (cl.retry && ltb fence.attempt fence.max_attempts)
              (give_back env wk prov fence) (dead_letter env wk prov fence m cause) give_back-Hoare
              (dead_letter-Hoare m cause)

    finalize-Hoare :
        (m : MaterializedRequest) (r : Result Cause Text)
        → Hoare P R (finalize env wk prov fence m r)
    unfolding finalize finish
    finalize-Hoare m (err cause) = finalize_failure-Hoare m cause
    finalize-Hoare m (ok payload) =
        write-Hoare (λ v. R (completed, none)) _ (λ u. return (completed, none)) (completes payload)
          (λ v x r. r)

    run_attempt-Hoare :
        (t : Time) (m : MaterializedRequest) → Hoare P R (run_attempt env wk prov msg t m)
    unfolding run_attempt
    run_attempt-Hoare t m =
        bind-Hoare P (λ (b : Bool). P) R _ _ (beating-Hoare prov.beats)
          λ lost.
            let r =
              payload_of env wk prov (
                prov.answer (instruction m) (min msg.lease_expires_at (t + wk.execution_window))) in
            if-Hoare P R (not prov.expires_first && (lost || prov.caller_cancels))
              (return (abandoned, none)) (finalize env wk prov fence m r)
              (λ w p. quits none w.tables w.published p) (finalize-Hoare m r)

    by_test :
        (b : Bool) (w : World)
        → P w.tables w.published
        → (b ≡ true → R (dead_lettered, some invalid_input) w.tables w.published)
        → Post P R (
            if b
            then (ok (dead_lettered, some invalid_input), w)
            else (attempt (call env (reading (materialize msg.workspace_id msg.execution_id)))
                  >>= λ r. or_else_abandon r (run_attempt env wk prov msg (env.clock w.tick)))
                w)
    by_test true w p invalid = invalid refl
    by_test false w p invalid =
        write-Hoare (λ m. P) _ (run_attempt env wk prov msg (env.clock w.tick))
          (λ s ts msgs q. read_keeps (materialize msg.workspace_id msg.execution_id ts) ts msgs q)
          (λ m v q. run_attempt-Hoare (env.clock w.tick) m v q) w p
      where
        read_keeps :
            (r : Result Error MaterializedRequest) (ts : Tables) (msgs : List PublishMessage)
            → P ts msgs
            → PostTx P (λ m. P) msgs (r, ts)
        read_keeps (ok m) ts msgs q = q
        read_keeps (err e) ts msgs q = q

    -- The whole run, with what it returns for an invalid message.
    pub run-Hoare :
        ((ts : Tables) (msgs : List PublishMessage)
          → is_invalid msg ≡ true
          → P ts msgs
          → R (dead_lettered, some invalid_input) ts msgs)
        → Hoare P R (run env wk prov msg)
    unfolding run
    run-Hoare invalid w p = by_test (is_invalid msg) w p (λ h. invalid w.tables w.published h p)
