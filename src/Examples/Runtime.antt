-- ===== src/Examples/Runtime.antt =====
-- The dispatcher, the worker and admission on the board.
use austro_os.Common.{ℕ, ◌<◌, true, ◌∷◌, none, ◌+◌, ◌*◌, ◌≡◌, refl, false, some, [], ok, err, arith}
use austro_os.Common.Text.{bytes}
use austro_os.Execution.Types.{second, Execution, Status, retryable}
use austro_os.Execution.Store.Tables.{lease_until}
use austro_os.Execution.Store.Admission.{
  get_due, get_stale, sort_by_expiry, insert_by_expiry, materialize,
}
use austro_os.Execution.Store.Unfenced.{record_dispatch, mark_dispatched, matches_dispatch}
use austro_os.Execution.Store.Fencing.{none_left}
use austro_os.Execution.Types.{PublishMessage}
use austro_os.Execution.Io.{Surroundings, World, call, publish, attempt, ◌>>=◌}
use austro_os.Execution.Dispatcher.{
  Dispatcher, new_dispatcher, sweep, recover_stale, message_of, recover_round, recover_ids,
  dispatch_due, dispatch_ids, dispatch_claimed,
}
use austro_os.Execution.Dispatcher.Leases.{Ledger, one_message_per_lease}
use austro_os.Execution.Dispatcher.Rounds.{Listed, running, occurrences}
use austro_os.Execution.Dispatcher.Termination.{cut_short, recovery_ends}
use austro_os.Execution.Worker.{
  Worker, Provider, abandoned, run, is_invalid, run_attempt, beating, finalize, finish, fenced_from,
  instruction, finalize_failure, give_back, dead_letter,
}
use austro_os.Execution.Worker.Outcomes.{Returned, run-Truthful}
use austro_os.Execution.Classify.{sentinel, usage_limit, classify, errors_is, as_net_error}
use austro_os.Execution.Backoff.{retry_delay}
use austro_os.Execution.Worker.Lost.{ByOthers, run_without_lease}
use austro_os.Execution.Service.{Fingerprint}
use austro_os.Examples.Board.{
  at, request, one_claimed, two_admitted, store_runs, until, the_claim, running_row, one_taken,
}

-- what opens for a run of the dispatcher and of the worker
runtime_runs : Unit {0}
unfolding store_runs sweep recover_stale recover_round recover_ids dispatch_due dispatch_ids
    dispatch_claimed record_dispatch mark_dispatched matches_dispatch get_due get_stale
    sort_by_expiry insert_by_expiry call publish attempt ◌>>=◌ run run_attempt beating finalize
    finish fenced_from is_invalid materialize instruction finalize_failure give_back dead_letter
    classify errors_is as_net_error retryable retry_delay
runtime_runs = tt

-- a database in reach, no other process, and a broker that takes every message
abbrev quiet : Surroundings
quiet = record {
  supply = λ n. at (until + 1 + n);
  down = λ n. false;
  others = λ n ts. ts;
  clock = λ n. until + 1 + n;
  takes = λ n m. true;
}

abbrev disp : Dispatcher
disp = new_dispatcher (bytes "v") (30 * second) second (60 * second)

-- the claimed execution, whose lease has expired at the first call
abbrev world : World
world = record { tables = one_claimed; tick = 0; published = [] }

-- two executions that are due
abbrev due_world : World
due_world = record { tables = two_admitted; tick = 0; published = [] }

abbrev swept : World
swept = (sweep quiet disp 1 2 due_world).1

-- the message of a first claim
abbrev first_message : ℕ → ℕ → ℕ → PublishMessage
first_message id retry time = record {
  workspace_id = 1;
  execution_id = id;
  ai_employee_id = 7;
  task_id = none;
  attempt = 1;
  max_attempts = 3;
  retry_id = retry;
  generation = 1;
  lease_expires_at = lease_until time (30 * second);
  lease_owner = bytes "v";
}

one_message_per_lease_example :
    Ledger swept.tables (first_message 102 202 (until + 5) ∷ first_message 101 201 (until + 3) ∷ [])
unfolding runtime_runs
one_message_per_lease_example =
    one_message_per_lease quiet disp 1 (λ n ts. none_left) 2 due_world (tt, tt)

listed : Listed (101 ∷ []) one_claimed.executions
unfolding store_runs occurrences
listed id e h = ground arith

few : running (101 ∷ []) one_claimed.executions < 2
unfolding store_runs running
few = omega arith

recovery_ends_example : cut_short (recover_stale quiet disp 1 2 world).0 ≡ false
recovery_ends_example = recovery_ends quiet disp 1 (101 ∷ []) (λ n ts. refl) 2 world listed few

abbrev wk : Worker
wk = record {
  worker_id = bytes "x";
  lease_ttl = 30 * second;
  execution_window = 60 * second;
  base_delay = second;
  max_delay = 60 * second;
}

abbrev prov : Provider
prov = record {
  answer = λ t d. ok (bytes "{}");
  marshal = λ t. ok t;
  beats = 1;
  expires_first = false;
  caller_cancels = false;
  text_of = λ c. bytes "e";
  encode = λ m. [];
}

abbrev message : PublishMessage
message = message_of quiet disp 1 (record the_claim { retry_id = 201 })

-- the snapshot of the request is there, and the message is about the lease of `w`
abbrev ready_world : World
ready_world = record world {
  tables = record one_claimed {
    contexts =
        record {
          workspace_id = some 1;
          execution_id = 101;
          request = record {
            task_title = bytes "t";
            task_description = [];
            ai_employee_name = bytes "n";
            ai_employee_role = bytes "r";
            team_name = [];
            department_name = [];
            capabilities = [];
          };
        }
        ∷ [];
  };
}

abbrev owned_message : PublishMessage
owned_message = record message { lease_owner = bytes "w" }

abbrev finished : World
finished = (run quiet wk prov owned_message ready_world).1

run-Truthful_example :
    (e : Execution) × (finished.tables.executions 101 ≡ some e) × (e.status ≡ Status.completed)
unfolding runtime_runs
run-Truthful_example = run-Truthful quiet wk prov owned_message ready_world

-- a provider that is over its limit
abbrev busy : Provider
busy = record prov { answer = λ t d. err (sentinel usage_limit) }

-- the execution was taken over at generation 2, and the message is about generation 1
abbrev taken_world : World
taken_world = record { tables = one_taken; tick = 0; published = [] }

taken_row :
    one_taken.executions 101
    ≡ some (record running_row {
      lease_owner = some (bytes "v");
      lease_generation = 2;
      lease_expires_at = some (lease_until (until + 1) (30 * second));
    })
unfolding store_runs
taken_row = refl

run_without_lease_example :
    Returned
      (λ o ts. (o.0 ≡ abandoned) × ByOthers quiet one_taken ts)
      (run quiet wk prov message taken_world)
unfolding is_invalid
run_without_lease_example =
    run_without_lease quiet wk prov message taken_world (λ n ts. none_left) _ refl taken_row
      (omega arith)

-- the fingerprint is the letter of the board's execution
abbrev sha : Fingerprint
sha = λ emp task attempts. bytes "h"
