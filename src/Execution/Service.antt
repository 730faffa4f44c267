-- ===== src/Execution/Service.antt =====
-- internal/execution/service.go. The fingerprint that `RequestHash` computes with encoding/json and crypto/sha256 is a
-- parameter: a function of the three fields that it encodes.

pub mod Replay
use austro_os.Common.{
  suc, Bool, true, false, ◌&&◌, ◌||◌, ◌==◌, if◌then◌else◌, Option, none, some, Result, ok, err,
  ◌>>=◌,
}
use austro_os.Common.Int.{ℤ, pos}
use austro_os.Common.Text.{Text, text_eq}
use austro_os.Execution.Types.{
  Uuid, nil_uuid, Error, Execution, workspace_mismatch, invalid_input, idempotency_key_conflict,
}
use austro_os.Execution.Store.Tables.{Tables, Tx}
use austro_os.Execution.Store.Admission.{AdmitRequest, AdmitResult, admission_admit, get}
use austro_os.Execution.Store.Unfenced.{cancel}

-- `DefaultMaxAttempts`
abbrev pub default_max_attempts : ℤ
default_max_attempts = pos 3

abbrev pub is_positive : ℤ → Bool
is_positive (pos (suc n)) = true
is_positive _ = false

abbrev pub with_default : AdmitRequest → AdmitRequest
with_default req =
    if is_positive req.max_attempts then req else record req { max_attempts = default_max_attempts }

abbrev pub same_task : Option Uuid → Option Uuid → Bool
same_task none none = true
same_task (some a) (some b) = a == b
same_task _ _ = false

-- `sameRequest`, for an execution that is there
unfoldable pub same_request : AdmitRequest → Execution → Bool
same_request req e = (e.ai_employee_id == req.ai_employee_id) && same_task e.task_id req.task_id

-- the fields that enter the fingerprint
abbrev pub Fingerprint : Type 0
Fingerprint = Uuid → Option Uuid → ℤ → Text

-- `RequestHash`
abbrev pub request_hash : Fingerprint → AdmitRequest → Text
request_hash sha req = sha req.ai_employee_id req.task_id req.max_attempts

-- A row that was there before is a replay only of the same request.
unfoldable pub check_replay : AdmitRequest → Text → AdmitResult → Result Error AdmitResult
check_replay req hash res =
    if res.created || (same_request req res.execution && text_eq res.execution.request_hash hash)
    then ok res
    else err idempotency_key_conflict

-- `Service.Admit`
unfoldable pub admit : Fingerprint → AdmitRequest → Tx AdmitResult
admit sha req s ts = elim (req.workspace_id == nil_uuid) [
  | true ↦ (err workspace_mismatch, ts)
  | false ↦ elim (req.ai_employee_id == nil_uuid) [
    | true ↦ (err invalid_input, ts)
    | false ↦
        let req' = with_default req in
        let hash = request_hash sha req' in
        let r = admission_admit req' hash s ts in (r.0 >>= check_replay req' hash, r.1)
  ]
]

-- `Service.Cancel` and `Service.Get` pass on to the store.
abbrev pub service_cancel : Uuid → Uuid → Tx (Unit {0})
service_cancel = cancel

abbrev pub service_get : Uuid → Uuid → Tables → Result Error Execution
service_get = get
