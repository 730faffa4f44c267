-- ===== src/Examples/Pipelines.antt =====
-- The creator pipeline from its request to its completion, with the stub ports.
use austro_os.Common.{refl, ◌==◌, true, if◌then◌else◌, none, some, ok, List, [], ◌∷◌}
use austro_os.Common.Text.{bytes}
use austro_os.Orchestration.Pipeline.{research, script, review, publish, active, Pipeline, is_after}
use austro_os.Orchestration.Store.{Surroundings, World}
use austro_os.Orchestration.Commands.{advance_from_event}
use austro_os.Orchestration.Approval.{IsSafe}
use austro_os.Orchestration.Approval.Deliveries.{
  Command, creates, approves, consumes, history, new_world, history-IsSafe,
}
use austro_os.Orchestration.Approval.Duplicates.{Untouched, duplicate_event-Untouched}

abbrev stubs : Surroundings
stubs = record {
  down = λ n. none;
  others = λ n rows. rows;
  new_id = λ n. 50;
  clock = λ n. n;
  research_port = λ n p. ok (bytes "research");
  script_port = λ n p t. ok (bytes "script");
  review_port = λ n p. ok true;
  publish_port = λ n p t. ok (bytes "ref");
  publication = none;
  sends = λ n ev. none;
  trace = [];
  actor = [];
}

-- the pipeline of the workspace 1 with the id 50, from research to complete
abbrev script_of_commands : List Command
script_of_commands =
    creates 1 none [] (bytes "k")
    ∷ consumes 1 50 research []
    ∷ consumes 1 50 script []
    ∷ approves 1 50 (bytes "ann")
    ∷ consumes 1 50 review []
    ∷ []

history-IsSafe_example : IsSafe (history stubs script_of_commands new_world)
history-IsSafe_example = history-IsSafe stubs (λ n rows s. s) script_of_commands

abbrev published_pipeline : Pipeline
published_pipeline = record {
  id = 50;
  workspace_id = 1;
  goal_id = none;
  stage = publish;
  status = active;
  task_id = none;
  publication_id = none;
  research_reference = bytes "research";
  script_reference = bytes "script";
  review_reference = bytes "review-ok";
  published_reference = [];
  failure_reason = [];
  retry_count = 0;
  idempotency_key = bytes "k";
  approved_by = bytes "ann";
  approved_at = some 13;
  trace_id = [];
  created_at = 1;
  updated_at = 17;
  version = 5;
}

-- the pipeline after it was published
abbrev at_publish : World
at_publish = record new_world {
  rows = λ id. if id == 50 then some published_pipeline else none;
  order = 50 ∷ [];
}

-- the event of the review once more
duplicate_event-Untouched_example :
    Untouched at_publish (advance_from_event stubs 1 50 review [] at_publish).1
unfolding is_after
duplicate_event-Untouched_example =
    duplicate_event-Untouched stubs 1 50 review [] at_publish published_pipeline (λ n rows. refl)
      refl refl
