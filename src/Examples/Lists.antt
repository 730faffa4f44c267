-- ===== src/Examples/Lists.antt =====
-- Three tasks on pages of one.
use austro_os.Common.{
  [], ◌∷◌, ◌≡◌, refl, none, some, ok, err, leb, if◌then◌else◌, arith, length, Option,
}
use austro_os.Common.Int.{pos}
use austro_os.Common.Text.{Text, bytes}
use austro_os.Execution.Types.{Uuid}
use austro_os.Task.Lifecycle.{backlog, normal, ai_employee, Task}
use austro_os.Task.Listing.{
  UuidText, invalid_cursor, max_nano, encode_cursor, decode_cursor, insert, order_by,
}
use austro_os.Task.Listing.Cursors.{decode_cursor-encode_cursor}
use austro_os.Task.Listing.Pages.{whole}
use austro_os.Task.Listing.Walk.{walk, walk_is_whole}

-- a UUID that is written as one byte
abbrev one_byte : Text → Option Uuid
one_byte [] = none
one_byte (b ∷ []) = some b
one_byte (b ∷ c ∷ s) = none

abbrev short : UuidText
short = record { to_text = λ id. id ∷ []; parse = one_byte }

abbrev older : Task
older = record {
  id = 5;
  workspace_id = 1;
  title = bytes "t";
  description = [];
  status = backlog;
  priority = normal;
  assignee_type = ai_employee;
  assignee_id = none;
  deadline = none;
  created_at = 1_000;
  updated_at = 1_000;
}

abbrev newer : Task
newer = record older { id = 6; created_at = 2_000 }

abbrev tied : Task
tied = record older { id = 7 }

decode_cursor-encode_cursor_example : decode_cursor short (encode_cursor short newer) ≡ (
    if leb newer.created_at max_nano
    then ok (some (record { created_at = pos newer.created_at; id = newer.id }))
    else err invalid_cursor)
decode_cursor-encode_cursor_example =
    decode_cursor-encode_cursor short (λ id. refl) newer (omega arith)

three : length (whole 1 none (older ∷ newer ∷ tied ∷ [])) ≡ 3
unfolding order_by insert
three = refl

walk_is_whole_example :
    walk short 9 1 none (pos 1) (older ∷ newer ∷ tied ∷ []) []
    ≡ whole 1 none (older ∷ newer ∷ tied ∷ [])
walk_is_whole_example =
    walk_is_whole short (λ id. refl) 1 none (pos 1) (older ∷ newer ∷ tied ∷ [])
      ((refl, (refl, tt)), ((refl, tt), (tt, tt))) (omega arith) 9 (omega (arith, three))
