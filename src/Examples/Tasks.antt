-- ===== src/Examples/Tasks.antt =====
-- A task in review: alone, and with another process that completes it while an update is under way.
use austro_os.Common.{[], ◌≡◌, refl, false, ◌==◌, if◌then◌else◌, none, some, arith}
use austro_os.Common.Text.{bytes}
use austro_os.Task.Lifecycle.{in_review, completed, normal, ai_employee, Task}
use austro_os.Task.Service.{Surroundings, World, put, Fields, create, transition, update, delete}
use austro_os.Task.Statuses.{commands-Follow}
use austro_os.Task.Follows.{Follow}
use austro_os.Task.Overwrites.{Returns, update_keeps_read_status}

abbrev task : Task
task = record {
  id = 9;
  workspace_id = 1;
  title = bytes "t";
  description = [];
  status = in_review;
  priority = normal;
  assignee_type = ai_employee;
  assignee_id = none;
  deadline = none;
  created_at = 1;
  updated_at = 1;
}

abbrev one_task : World
one_task = record { rows = λ id. if id == 9 then some task else none; tick = 0 }

abbrev alone : Surroundings
alone = record { down = λ n. false; others = λ n rows. rows; new_id = λ n. 20; clock = λ n. n }

-- the other process completes the task after the first call
abbrev racing : Surroundings
racing = record alone {
  others =
      λ n rows. if n == 1 then put 9 (some (record task { status = completed })) rows else rows;
}

abbrev new_title : Fields
new_title = record {
  title = bytes "u";
  priority = none;
  description = none;
  assignee_type = none;
  assignee_id = none;
  deadline = none;
}

own_id : (t : Task) → one_task.rows 9 ≡ some t → t.id ≡ 9
own_id t h = ground arith

commands-Follow_example :
    Follow one_task.rows (create alone 1 (bytes "t") normal [] one_task).1.rows
    × Follow one_task.rows (transition alone 1 9 completed one_task).1.rows
    × Follow one_task.rows (update alone 1 9 new_title one_task).1.rows
    × Follow one_task.rows (delete alone 1 9 one_task).1.rows
commands-Follow_example =
    commands-Follow alone (λ n rows. refl) 1 9 completed new_title (bytes "t") normal [] one_task
      own_id

update_keeps_read_status_example : Returns in_review (update racing 1 9 new_title one_task)
update_keeps_read_status_example = update_keeps_read_status racing 1 9 new_title one_task task refl
