-- ===== src/Execution/Worker/Decisions.antt =====
-- Why a run of internal/execution/worker.go ends as it does.
use austro_os.Common.{◌≤◌, ◌<◌, ◌≡◌, true, false, none, some, Result, ok, err, ◌⊎◌}
use austro_os.Common.Text.{Text}
use austro_os.Execution.Types.{Time, Error, FencedExecution, PublishMessage}
use austro_os.Execution.Classify.{Cause, classify}
use austro_os.Execution.Io.{Surroundings, World, Io, attempt}
use austro_os.Execution.Worker.{
  completed, scheduled, abandoned, dead_lettered, Outcome, Worker, Provider, fenced_from,
  is_invalid, payload_of,
}

-- what is returned passes
abbrev Only : {A : Type 0} → (A → Type 0) → Io A → Type 0
Only {A} P m = (w : World) (a : A) → (m w).0 ≡ ok a → P a

abbrev or_value : {A : Type 0} → A → Result Error A → A
or_value a (ok b) = b
or_value a (err e) = a

module _ (env : Surroundings) (wk : Worker) (prov : Provider) (msg : PublishMessage) where
  -- what the provider made of some instruction by some deadline
  abbrev pub Answered : Result Cause Text → Type 0
  Answered r = (i : Text) × (t : Time) × (payload_of env wk prov (prov.answer i t) ≡ r)

  -- what each outcome says of the provider's answer and of the attempts that are left
  abbrev pub Decision : Outcome → Type 0
  Decision (completed, e) = (payload : Text) × Answered (ok payload)
  Decision (scheduled, e) =
      (c : Cause) × Answered (err c)
      × ((classify (some c)).retry ≡ true)
      × (msg.attempt < msg.max_attempts)
  Decision (dead_lettered, none) =
      (c : Cause) × Answered (err c)
      × (((classify (some c)).retry ≡ false) ⊎ (msg.max_attempts ≤ msg.attempt))
  Decision (dead_lettered, some e) = is_invalid msg ≡ true
  Decision (abandoned, e) = Unit

  abbrev fence : FencedExecution
  fence = fenced_from msg wk.worker_id
