-- ===== src/Examples/Deployments.antt =====
-- An HTTP server in production that leaves the sweep to a dispatcher.
use austro_os.Common.{[], ◌≡◌, ◌≢◌, refl, Bool, true, false, ◌⊎◌}
use austro_os.Common.Int.{pos}
use austro_os.Common.Text.{Text, bytes, text_eq, trim_space}
use austro_os.Config.Settings.{
  Config, to_lower, fold_ascii, is_insecure, split_commas, is_bool, int_leb,
}
use austro_os.Config.Roles.{
  dispatcher, dispatch_mode_state, effective_dispatch_mode, dispatches_here, effective_process_role,
  serves_http, companion_roles, expects_companion, role_and_mode_agree, is_production,
}
use austro_os.Config.Backends.{local, openai_compatible, generic_http, rabbitmq, validate_backends}
use austro_os.Config.Checks.{jobs, OneOfFour}
use austro_os.Config.Deployment.{production_swept, validated_job, production_without_stubs}

abbrev server : Config
server = record {
  environment = bytes "Production ";
  ai_backend = bytes "local";
  ai_model = bytes "llama";
  ai_base_url = bytes "http://ai:8000";
  ai_api_key = [];
  publish_backend = bytes "generic-http";
  publish_webhook_url = bytes "https://hook.org";
  publish_token = bytes "s3cret";
  execution_transport_backend = bytes "rabbitmq";
  execution_queue = bytes "executions";
  execution_workspace_ids = [];
  execution_dispatch_mode = bytes "off";
  execution_dispatch_mode_raw = bytes "off";
  process_role = bytes " API";
  process_role_raw = bytes " API";
  expect_companion_processes_raw = bytes "worker, Dispatcher";
  heartbeat_interval = pos 10;
  heartbeat_stale_after = pos 30;
  heartbeat_interval_raw = bytes "10s";
  heartbeat_stale_after_raw = [];
  allow_stub_backends = false;
  allow_stub_backends_raw = [];
}

abbrev only_ten_seconds : Text → Bool
only_ten_seconds t = text_eq t (bytes "10s")

server_accepted : validate_backends only_ten_seconds server ≡ []
unfolding validate_backends text_eq trim_space to_lower fold_ascii is_insecure split_commas is_bool
    int_leb dispatch_mode_state effective_dispatch_mode dispatches_here effective_process_role
    companion_roles expects_companion role_and_mode_agree is_production
server_accepted = refl

server_in_production : is_production server ≡ true
unfolding is_production fold_ascii trim_space text_eq
server_in_production = refl

server_serves : serves_http server ≡ true
unfolding serves_http effective_process_role to_lower trim_space text_eq
server_serves = refl

production_swept_example :
    ((dispatches_here server ≡ true) × (server.execution_workspace_ids ≢ []))
    ⊎ ((dispatches_here server ≡ false)
        × (expects_companion server dispatcher ≡ true)
        × (server.execution_workspace_ids ≡ []))
production_swept_example =
    production_swept only_ten_seconds server server_accepted server_in_production refl server_serves

validated_job_example : OneOfFour (jobs server)
validated_job_example = validated_job only_ten_seconds server server_accepted

production_without_stubs_example :
    (((server.ai_backend ≡ local) ⊎ (server.ai_backend ≡ openai_compatible))
      × (is_insecure server.ai_model ≡ false)
      × (is_insecure server.ai_base_url ≡ false))
    × ((server.publish_backend ≡ generic_http)
        × (is_insecure server.publish_webhook_url ≡ false)
        × (is_insecure server.publish_token ≡ false))
    × (server.execution_transport_backend ≡ rabbitmq)
production_without_stubs_example =
    production_without_stubs only_ten_seconds server server_accepted server_in_production refl
