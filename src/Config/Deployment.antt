-- ===== src/Config/Deployment.antt =====
-- What settings that `validateBackends` accepts say of the process and of its deployment (internal/config/config.go).
use austro_os.Common.{Bool, true, false, ◌&&◌, not, [], ◌≡◌, ◌≢◌, ap, ◌⊎◌, inl, inr}
use austro_os.Common.Text.{Text}
use austro_os.Config.Settings.{Config, is_insecure}
use austro_os.Config.Roles.{
  dispatcher, dispatches_here, serves_http, expects_companion, is_production,
}
use austro_os.Config.Backends.{
  local, openai_compatible, generic_http, rabbitmq, is_none, through_broker, validate_backends,
}
use austro_os.Config.Checks.{
  jobs, OneOfFour, agree-jobs, and_true, ai_secure, publish_secure, stubs_refused, is_rabbitmq,
  over_broker,
}
use austro_os.Config.Accepted.{
  Clear, flag-clear, ++-clear, by_not, is_none_empty, is_none_full, broker_swept,
}

module _ (is_duration : Text → Bool) where
  validate_backends-Clear : (c : Config) → validate_backends is_duration c ≡ [] → Clear c
  unfolding validate_backends
  validate_backends-Clear c h =
      let (h1, idle) = ++-clear _ _ h in
      let (h2, heartbeat) = ++-clear _ _ h1 in
      let (h3, swept) = ++-clear _ _ h2 in
      let (h4, agree) = ++-clear _ _ h3 in
      let (h5, roles) = ++-clear _ _ h4 in
      let (h6, work) = ++-clear _ _ h5 in
      let (h7, stubs) = ++-clear _ _ h6 in
      let (h8, texts) = ++-clear _ _ h7 in
      let (h9, transport) = ++-clear _ _ h8 in
      let (ai, publish) = ++-clear _ _ h9 in
      record {
        ai = ai;
        publish = publish;
        transport = transport;
        stubs = stubs;
        work = flag-clear _ _ work;
        agree = by_not _ (flag-clear _ _ agree);
        swept = flag-clear _ _ swept;
        idle = flag-clear _ _ idle;
      }

  -- In production over the broker, accepted settings of the process that serves HTTP name the workspaces that it sweeps itself, or
  -- name a dispatcher as its companion, and then no workspace of its own.
  pub production_swept :
      (c : Config)
      → validate_backends is_duration c ≡ []
      → is_production c ≡ true
      → c.execution_transport_backend ≡ rabbitmq
      → serves_http c ≡ true
      → ((dispatches_here c ≡ true) × (c.execution_workspace_ids ≢ []))
        ⊎ ((dispatches_here c ≡ false)
            × (expects_companion c dispatcher ≡ true)
            × (c.execution_workspace_ids ≡ []))
  unfolding serves_http
  production_swept c h p t a =
      let clear = validate_backends-Clear c h in
      elim (broker_swept (through_broker c) (dispatches_here c) (expects_companion c dispatcher)
        (is_none c.execution_workspace_ids) (serves_http c) (is_production c) (over_broker c p t) p
        a clear.work clear.swept clear.idle) [
          | inl (here, full) ↦ inl (here, is_none_full _ full)
          | inr (other, named, none_own) ↦ inr (other, named, is_none_empty _ none_own)
        ]

  -- A process whose settings are accepted does one of four jobs: it serves HTTP and sweeps, it serves HTTP only, it sweeps only, or
  -- it consumes the execution queue only.
  pub validated_job : (c : Config) → validate_backends is_duration c ≡ [] → OneOfFour (jobs c)
  validated_job c h = agree-jobs c (validate_backends-Clear c h).agree

  -- In production, without the permission to run stubs, accepted settings select a real provider, a real publisher and the broker,
  -- and neither the addresses, the model nor the publisher's token is empty or a placeholder.
  pub production_without_stubs :
      (c : Config)
      → validate_backends is_duration c ≡ []
      → is_production c ≡ true
      → c.allow_stub_backends ≡ false
      → (((c.ai_backend ≡ local) ⊎ (c.ai_backend ≡ openai_compatible))
          × (is_insecure c.ai_model ≡ false)
          × (is_insecure c.ai_base_url ≡ false))
        × ((c.publish_backend ≡ generic_http)
            × (is_insecure c.publish_webhook_url ≡ false)
            × (is_insecure c.publish_token ≡ false))
        × (c.execution_transport_backend ≡ rabbitmq)
  production_without_stubs c h p n =
      let clear = validate_backends-Clear c h in
      let (ai, publish, transport) =
        stubs_refused (is_production c && not c.allow_stub_backends) _ _ _ _ _ _ clear.stubs
          (and_true _ _ p (ap not n)) in
      (
        ai_secure c clear.ai ai,
        publish_secure c clear.publish publish,
        is_rabbitmq c.execution_transport_backend clear.transport transport,
      )
