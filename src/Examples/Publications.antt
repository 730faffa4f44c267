-- ===== src/Examples/Publications.antt =====
-- A publication that is drafted, approved and published, and a rejection that comes too late.
use austro_os.Common.{◌+◌, ◌==◌, if◌then◌else◌, [], ◌∷◌, ◌≡◌, refl, false, none, some, ok, find}
use austro_os.Common.Text.{bytes, is_empty, trim_space}
use austro_os.Publishing.Lifecycle.{review, published, Publication, Draft}
use austro_os.Publishing.Store.{is_row, Surroundings, World}
use austro_os.Publishing.Service.{reject}
use austro_os.Publishing.Approval.{IsApproved}
use austro_os.Publishing.Approval.Histories.{
  creates, submits, approves, publishes, history, new_world, history-IsApproved,
}
use austro_os.Publishing.Overwrites.{rejection, reject_decides_at_read}

abbrev alone : Surroundings
alone = record {
  down = λ n. none;
  others = λ n rows. rows;
  new_id = λ n. n + 10;
  clock = λ n. n;
  deliver = λ n p. ok (bytes "ref");
  digest = λ a b. a;
}

abbrev draft : Draft
draft = record {
  goal_id = none;
  task_id = none;
  title = bytes "t";
  body = bytes "b";
  platform = [];
}

history-IsApproved_example : IsApproved (
    history alone
      (creates 1 draft []
        ∷ submits 1 11
        ∷ approves 1 11 (bytes "ann")
        ∷ publishes 1 11 (bytes "ann")
        ∷ [])
      new_world)
history-IsApproved_example =
    history-IsApproved alone (λ n rows a. a)
      (creates 1 draft []
        ∷ submits 1 11
        ∷ approves 1 11 (bytes "ann")
        ∷ publishes 1 11 (bytes "ann")
        ∷ [])

abbrev in_review : Publication
in_review = record {
  id = 11;
  workspace_id = 1;
  goal_id = none;
  task_id = none;
  title = bytes "t";
  body = bytes "b";
  platform = bytes "stub";
  status = review;
  content_hash = bytes "t";
  idempotency_key = [];
  approved_by = none;
  approved_at = none;
  rejected_by = none;
  rejected_at = none;
  published_at = none;
  published_by = none;
  external_reference = [];
  failure_reason = [];
  created_at = 0;
  updated_at = 0;
}

abbrev done : Publication
done = record in_review {
  status = published;
  approved_by = some (bytes "ann");
  approved_at = some 1;
  published_at = some 2;
  published_by = some (bytes "ann");
}

-- another process approves and publishes after the read
abbrev racing : Surroundings
racing = record alone { others = λ n rows. if n == 1 then done ∷ [] else rows }

abbrev one_row : World
one_row = record new_world { rows = in_review ∷ [] }

named : is_empty (trim_space (bytes "bob")) ≡ false
unfolding trim_space
named = refl

reject_decides_at_read_example :
    find (is_row 1 11) (reject racing 1 11 (bytes "bob") one_row).1.rows
    ≡ some (rejection (bytes "bob") 1 in_review done)
reject_decides_at_read_example =
    reject_decides_at_read racing 1 11 (bytes "bob") in_review done one_row named refl refl refl
      refl refl
