-- ===== src/Config/Backends.antt =====
-- `validateBackends` of internal/config/config.go: the names of the settings that are missing, insecure or contradict each other. The
-- code ranges over small maps in any order and the caller sorts the names; here they come in the order of the source.
use austro_os.Common.{Bool, true, false, ◌&&◌, ◌||◌, not, if◌then◌else◌, List, [], ◌∷◌, ◌++◌}
use austro_os.Common.Int.{pos}
use austro_os.Common.Text.{Text, is_empty, text_eq, bytes, trim_space}
use austro_os.Config.Settings.{Config, is_insecure, split_commas, is_bool, int_leb}
use austro_os.Config.Roles.{
  api, dispatcher, worker, DispatchModeState, mode_ok, mode_blank, mode_unset, mode_invalid,
  dispatch_mode_state, dispatches_here, effective_process_role, companion_roles, expects_companion,
  role_and_mode_agree, is_production,
}

-- `if bad { missing = append(missing, name) }`
abbrev pub flag : Bool → Text → List Text
flag true name = name ∷ []
flag false name = []

abbrev flag_each : (Text → Bool) → Text → List Text → List Text
flag_each bad name [] = []
flag_each bad name (t ∷ ts) = flag (bad t) name ++ flag_each bad name ts

abbrev stub : Text
stub = bytes "stub"

abbrev pub local : Text
local = bytes "local"

abbrev pub openai_compatible : Text
openai_compatible = bytes "openai-compatible"

abbrev pub generic_http : Text
generic_http = bytes "generic-http"

abbrev pub rabbitmq : Text
rabbitmq = bytes "rabbitmq"

-- `case "", stub`
abbrev pub is_stub : Text → Bool
is_stub backend = is_empty backend || text_eq backend stub

abbrev pub ai_missing : Config → List Text
ai_missing c =
    if is_stub c.ai_backend
    then flag (not (is_empty c.ai_model)) (bytes "AUSTRO_AI_MODEL")
      ++ flag (not (is_empty c.ai_base_url)) (bytes "AUSTRO_AI_BASE_URL")
      ++ flag (not (is_empty c.ai_api_key)) (bytes "AUSTRO_AI_API_KEY")
    else if text_eq c.ai_backend local
    then flag (is_insecure c.ai_model) (bytes "AUSTRO_AI_MODEL")
      ++ flag (is_insecure c.ai_base_url) (bytes "AUSTRO_AI_BASE_URL")
      ++ flag (not (is_empty c.ai_api_key) && is_insecure c.ai_api_key) (bytes "AUSTRO_AI_API_KEY")
    else if text_eq c.ai_backend openai_compatible
    then flag (is_insecure c.ai_model) (bytes "AUSTRO_AI_MODEL")
      ++ flag (is_insecure c.ai_base_url) (bytes "AUSTRO_AI_BASE_URL")
      ++ flag (is_insecure c.ai_api_key) (bytes "AUSTRO_AI_API_KEY")
    else flag true (bytes "AUSTRO_AI_BACKEND")

abbrev pub publish_missing : Config → List Text
publish_missing c =
    if is_stub c.publish_backend
    then flag (not (is_empty c.publish_webhook_url)) (bytes "AUSTRO_PUBLISH_WEBHOOK_URL")
      ++ flag (not (is_empty c.publish_token)) (bytes "AUSTRO_PUBLISH_TOKEN")
    else if text_eq c.publish_backend generic_http
    then flag (is_insecure c.publish_webhook_url) (bytes "AUSTRO_PUBLISH_WEBHOOK_URL")
      ++ flag (is_insecure c.publish_token) (bytes "AUSTRO_PUBLISH_TOKEN")
    else flag true (bytes "AUSTRO_PUBLISH_BACKEND")

abbrev pub transport_missing : Config → List Text
transport_missing c =
    flag
      (not
        (is_stub c.execution_transport_backend || text_eq c.execution_transport_backend rabbitmq))
      (bytes "AUSTRO_EXECUTION_TRANSPORT_BACKEND")

-- a dispatch mode that is blank or unknown
abbrev is_bad_mode : DispatchModeState → Bool
is_bad_mode mode_ok = false
is_bad_mode mode_unset = false
is_bad_mode mode_blank = true
is_bad_mode mode_invalid = true

abbrev unless_empty : Text → List Text → List Text
unless_empty raw names = if is_empty raw then [] else names

abbrev texts_missing : Config → List Text
texts_missing c =
    flag (is_empty (trim_space c.execution_queue)) (bytes "AUSTRO_EXECUTION_QUEUE")
    ++ unless_empty c.allow_stub_backends_raw
        (flag (not (is_bool c.allow_stub_backends_raw)) (bytes "AUSTRO_ALLOW_STUB_BACKENDS"))
    ++ unless_empty c.expect_companion_processes_raw (
        flag_each (λ token. is_bool (trim_space token)) (bytes "AUSTRO_EXPECT_COMPANION_PROCESSES")
          (split_commas c.expect_companion_processes_raw))
    ++ flag (is_bad_mode (dispatch_mode_state c)) (bytes "AUSTRO_EXECUTION_DISPATCH_MODE")

abbrev pub stubs_missing : Config → List Text
stubs_missing c =
    if is_production c && not c.allow_stub_backends
    then flag (is_stub c.ai_backend) (bytes "AUSTRO_AI_BACKEND")
      ++ flag (is_stub c.publish_backend) (bytes "AUSTRO_PUBLISH_BACKEND")
      ++ flag (is_stub c.execution_transport_backend) (bytes "AUSTRO_EXECUTION_TRANSPORT_BACKEND")
    else []

-- `len(xs) == 0`
abbrev pub is_none : List Text → Bool
is_none [] = true
is_none (x ∷ xs) = false

abbrev pub through_broker : Config → Bool
through_broker c = is_production c && text_eq c.execution_transport_backend rabbitmq

abbrev pub sweeps_nothing : Config → Bool
sweeps_nothing c = through_broker c && dispatches_here c && is_none c.execution_workspace_ids

abbrev is_role : Text → Bool
is_role role = text_eq role api || text_eq role dispatcher || text_eq role worker

abbrev roles_missing : Config → List Text
roles_missing c =
    let role = effective_process_role c in
    flag (not (is_role role)) (bytes "AUSTRO_PROCESS_ROLE")
    ++ flag_each (λ companion. text_eq companion role || not (is_role companion))
        (bytes "AUSTRO_EXPECT_COMPANION_PROCESSES") (companion_roles c)

abbrev pub nobody_sweeps : Config → Bool
nobody_sweeps c =
    through_broker c
    && text_eq (effective_process_role c) api
    && not (dispatches_here c)
    && not (expects_companion c dispatcher)

abbrev pub sweeps_for_others : Config → Bool
sweeps_for_others c =
    is_production c && not (dispatches_here c) && not (is_none c.execution_workspace_ids)

-- `is_duration` tells for which texts `time.ParseDuration` succeeds.
module _ (is_duration : Text → Bool) where
  abbrev heartbeat_missing : Config → List Text
  heartbeat_missing c =
      unless_empty c.heartbeat_interval_raw
        (flag (not (is_duration c.heartbeat_interval_raw)) (bytes "AUSTRO_HEARTBEAT_INTERVAL"))
      ++ unless_empty c.heartbeat_stale_after_raw (
          flag (not (is_duration c.heartbeat_stale_after_raw))
            (bytes "AUSTRO_HEARTBEAT_STALE_AFTER"))
      ++ flag (int_leb c.heartbeat_interval (pos 0)) (bytes "AUSTRO_HEARTBEAT_INTERVAL")
      ++ flag (int_leb c.heartbeat_stale_after (pos 0)) (bytes "AUSTRO_HEARTBEAT_STALE_AFTER")
      ++ flag
          (not (int_leb c.heartbeat_interval (pos 0))
            && not (int_leb c.heartbeat_stale_after (pos 0))
            && int_leb c.heartbeat_stale_after c.heartbeat_interval)
          (bytes "AUSTRO_HEARTBEAT_STALE_AFTER")

  -- `validateBackends`
  unfoldable pub validate_backends : Config → List Text
  validate_backends c =
      ai_missing c
      ++ publish_missing c
      ++ transport_missing c
      ++ texts_missing c
      ++ stubs_missing c
      ++ flag (sweeps_nothing c) (bytes "AUSTRO_EXECUTION_WORKSPACE_IDS")
      ++ roles_missing c
      ++ flag (not (role_and_mode_agree c)) (bytes "AUSTRO_EXECUTION_DISPATCH_MODE")
      ++ flag (nobody_sweeps c) (bytes "AUSTRO_EXPECT_COMPANION_PROCESSES")
      ++ heartbeat_missing c
      ++ flag (sweeps_for_others c) (bytes "AUSTRO_EXECUTION_WORKSPACE_IDS")
