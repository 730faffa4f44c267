-- ===== src/Orchestration/Approval/Deliveries.antt =====
-- No history of commands delivers a pipeline without its approval.
use austro_os.Common.{
  ℕ, Bool, true, false, not, ◌&&◌, if◌then◌else◌, Option, none, Result, ok, err, List, [], ◌∷◌,
}
use austro_os.Common.Text.{Text, is_empty}
use austro_os.Execution.Types.{Uuid}
use austro_os.Security.Throttle.{new_throttler, minute}
use austro_os.Orchestration.Pipeline.{Error, Stage, Pipeline, is_failed, is_after, next_stage}
use austro_os.Orchestration.Store.{Rows, Surroundings, World}
use austro_os.Orchestration.Service.{Reply, refuse, create_with_idempotency}
use austro_os.Orchestration.Commands.{
  advance, approve, retry, needs_look, look_again, advance_to, advance_from_event,
}
use austro_os.Orchestration.Approval.{SafeRows, IsSafe}
use austro_os.Orchestration.Approval.Retries.{retry-IsSafe}
use austro_os.Orchestration.Approval.Histories.{
  if-IsSafe, send-IsSafe, advance-IsSafe, approve-IsSafe, owned-IsSafe,
}
use austro_os.Orchestration.Approval.Creations.{create_with_idempotency-IsSafe}

module _ (env : Surroundings)
    (others : (n : ℕ) (rows : Rows) → SafeRows rows → SafeRows (env.others n rows)) where
  look_again-IsSafe :
      (current : Stage) (reply : Reply) (r : Result Error Pipeline) (w : World)
      → IsSafe w
      → IsSafe (look_again env current reply r w).1
  unfolding look_again
  look_again-IsSafe current reply (err e) w s = s
  look_again-IsSafe current reply (ok p) w s =
      if-IsSafe (not (is_failed p.status) && is_after p.stage current) _ _
        (λ h. send-IsSafe env others p w s) (λ h. s)

  advance_to-IsSafe :
      (ws id : Uuid) (current next : Stage) (w : World)
      → IsSafe w
      → IsSafe (advance_to env ws id current next w).1
  unfolding advance_to
  advance_to-IsSafe ws id current next w s =
      let safe = advance-IsSafe env others ws id current next w s in
      if-IsSafe (needs_look (advance env ws id current next w).0.1) _ _
        (λ h. look_again-IsSafe current _ _ _ (owned-IsSafe env others ws id _ safe)) (λ h. safe)

-- the commands of the service: the HTTP API's, and the consumption of an event by the worker
pub data Command : Type 0 where
  creates : (ws : Uuid) (goal : Option Uuid) (trace key : Text) → Command
  advances : (ws id : Uuid) (start to : Stage) → Command
  approves : (ws id : Uuid) (actor : Text) → Command
  retries : (ws id : Uuid) (actor : Text) → Command
  consumes : (ws id : Uuid) (current : Stage) (trace : Text) → Command

unfoldable pub perform : Surroundings → Command → World → World
perform env (creates ws goal trace key) w = (create_with_idempotency env ws goal trace key w).1
perform env (advances ws id start to) w = (advance env ws id start to w).1
perform env (approves ws id actor) w = (approve env ws id actor w).1
perform env (retries ws id actor) w = (retry env ws id actor w).1
perform env (consumes ws id current trace) w = (advance_from_event env ws id current trace w).1

unfoldable pub history : Surroundings → List Command → World → World
history env [] w = w
history env (c ∷ cs) w = history env cs (perform env c w)

-- no pipeline yet, and `NewThrottler(time.Minute, 10)`
abbrev pub new_world : World
new_world = record {
  rows = λ id. none;
  order = [];
  throttle = new_throttler minute 10;
  events = [];
  audit = [];
  delivered = [];
  tick = 0;
}

module _ (env : Surroundings)
    (others : (n : ℕ) (rows : Rows) → SafeRows rows → SafeRows (env.others n rows)) where
  consume-IsSafe :
      (ws id : Uuid) (current : Stage) (trace : Text) (w : World)
      → IsSafe w
      → IsSafe (advance_from_event env ws id current trace w).1
  unfolding advance_from_event
  consume-IsSafe ws id current trace w s = by_stage (next_stage current) (is_empty trace)
    where
      by_stage :
          (r : Result Error Stage) (b : Bool)
          → IsSafe
              (elim r as (λ x. Reply × World) [
                | err e ↦ refuse e w
                | ok next ↦
                    advance_to
                      (if b then env else record env { trace = trace })
                      ws
                      id
                      current
                      next
                      w
              ]).1
      by_stage (err e) b = s
      by_stage (ok next) true = advance_to-IsSafe env others ws id current next w s
      by_stage (ok next) false =
          advance_to-IsSafe (record env { trace = trace }) others ws id current next w s

  perform-IsSafe : (c : Command) (w : World) → IsSafe w → IsSafe (perform env c w)
  unfolding perform
  perform-IsSafe (creates ws goal trace key) w s =
      create_with_idempotency-IsSafe env others ws goal trace key w s
  perform-IsSafe (advances ws id start to) w s = advance-IsSafe env others ws id start to w s
  perform-IsSafe (approves ws id actor) w s = approve-IsSafe env others ws id actor w s
  perform-IsSafe (retries ws id actor) w s = retry-IsSafe env others ws id actor w s
  perform-IsSafe (consumes ws id current trace) w s = consume-IsSafe ws id current trace w s

  history_lem : (cs : List Command) (w : World) → IsSafe w → IsSafe (history env cs w)
  unfolding history
  history_lem [] w s = s
  history_lem (c ∷ cs) w s = history_lem cs (perform env c w) (perform-IsSafe c w s)

  -- After any commands, whatever the ports, the store and the sinks answer, every pipeline that was given to a publisher
  -- had its human approval recorded, and so has every stored one that is approved or failed at the review, or that stands
  -- at publish or complete. Other processes that write in between are assumed to keep the stored ones so.
  pub history-IsSafe : (cs : List Command) → IsSafe (history env cs new_world)
  history-IsSafe cs = history_lem cs new_world (λ id p h. cc, tt)
