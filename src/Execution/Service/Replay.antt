-- ===== src/Execution/Service/Replay.antt =====
-- Admission under an idempotency key.
use austro_os.Common.{◌≡◌, Bool, ◌&&◌}
use austro_os.Common.Text.{Text, text_eq}
use austro_os.Execution.Types.{Execution}
use austro_os.Execution.Store.Tables.{Tables}
use austro_os.Execution.Store.Admission.{AdmitRequest}
use austro_os.Execution.Service.{Fingerprint, same_request, request_hash, with_default}

-- the execution was admitted for the same employee, task and fingerprint as the request asks for
abbrev pub IsSameRequest : Fingerprint → AdmitRequest → Execution → Type 0
IsSameRequest sha req e =
    (e.ai_employee_id ≡ req.ai_employee_id)
    × (e.task_id ≡ req.task_id)
    × (e.request_hash ≡ sha req.ai_employee_id req.task_id (with_default req).max_attempts)

-- the test of the code
abbrev is_same : Fingerprint → AdmitRequest → Execution → Bool
is_same sha req e =
    same_request (with_default req) e
    && text_eq e.request_hash (request_hash sha (with_default req))
