-- ===== src/Config/Checks.antt =====
-- The single checks of `validateBackends` of internal/config/config.go, and what each leaves when it adds no name.
use austro_os.Common.{
  Bool, true, false, ◌&&◌, ◌||◌, not, if◌then◌else◌, List, [], ◌∷◌, ◌++◌, ◌≡◌, ◌≢◌, refl, ap, ◌∙◌,
  ◌⊎◌, inl, inr, arith,
}
use austro_os.Common.Text.{Text, text_eq, eq_of_text_eq, text_eq_refl, bytes}
use austro_os.Config.Settings.{Config, is_insecure}
use austro_os.Config.Roles.{
  api, service, off, dispatcher, worker, effective_dispatch_mode, dispatches_here,
  effective_process_role, serves_http, consumes_execution_queue, role_and_mode_agree, is_production,
}
use austro_os.Config.Backends.{
  flag, local, openai_compatible, generic_http, rabbitmq, is_stub, ai_missing, publish_missing,
  through_broker,
}
use austro_os.Config.Accepted.{flag-clear, other_name, or_false}

-- what a process does: it serves HTTP, it consumes the execution queue, it sweeps
abbrev pub jobs : Config → Bool × Bool × Bool
jobs c = (serves_http c, consumes_execution_queue c, dispatches_here c)

-- the four processes that there are: an HTTP server that sweeps or does not, a dispatcher, a worker
abbrev pub OneOfFour : Bool × Bool × Bool → Type 0
OneOfFour done =
    ((done ≡ (true, false, true)) ⊎ (done ≡ (true, false, false)))
    ⊎ ((done ≡ (false, false, true)) ⊎ (done ≡ (false, true, false)))

test_cases :
    (is_api is_dispatcher is_worker in_api in_service in_off : Bool)
    → (if is_api
        then in_api || in_off
        else if is_dispatcher
        then in_service
        else if is_worker
        then in_off
        else false)
      ≡ true
    → (is_api ≡ true → is_worker ≡ false)
    → (is_dispatcher ≡ true → is_worker ≡ false)
    → (in_off ≡ true → (in_api || in_service) ≡ false)
    → OneOfFour (is_api, is_worker, in_api || in_service)
test_cases true d true a s o h f g k = cc (f refl)
test_cases true d false true s o h f g k = inl (inl refl)
test_cases true d false false true o h f g k = inl (inl refl)
test_cases true d false false false o h f g k = inl (inr refl)
test_cases false true true a s o h f g k = cc (g refl)
test_cases false true false true s o h f g k = inr (inl refl)
test_cases false true false false true o h f g k = inr (inl refl)
test_cases false true false false false o h f g k = cc h
test_cases false false true a s o h f g k = inr (inr (ap (λ b. (false, true, b)) (k h)))
test_cases false false false a s o h f g k = cc h

api_not_worker : text_eq api worker ≡ false
unfolding text_eq
api_not_worker = refl

dispatcher_not_worker : text_eq dispatcher worker ≡ false
unfolding text_eq
dispatcher_not_worker = refl

off_not_api : text_eq off api ≡ false
unfolding text_eq
off_not_api = refl

off_not_service : text_eq off service ≡ false
unfolding text_eq
off_not_service = refl

pub agree-jobs : (c : Config) → role_and_mode_agree c ≡ true → OneOfFour (jobs c)
unfolding role_and_mode_agree serves_http consumes_execution_queue dispatches_here
agree-jobs c h =
    let role = effective_process_role c in
    let mode = effective_dispatch_mode c in
    test_cases (text_eq role api) (text_eq role dispatcher) (text_eq role worker) (text_eq mode api)
      (text_eq mode service) (text_eq mode off) h (other_name role api worker api_not_worker)
      (other_name role dispatcher worker dispatcher_not_worker)
      (λ o.
        or_false _ _ (other_name mode off api off_not_api o)
          (other_name mode off service off_not_service o))

pub and_true : (a b : Bool) → a ≡ true → b ≡ true → (a && b) ≡ true
and_true a b h k = ground arith

second_holds : (a b : Bool) → not (a || b) ≡ false → a ≡ false → b ≡ true
second_holds a b h n = ground arith

secure_pair :
    (url token : Bool) (u t : Text)
    → flag url u ++ flag token t ≡ []
    → (url ≡ false) × (token ≡ false)
secure_pair true token u t h = cc h
secure_pair false true u t h = cc h
secure_pair false false u t h = (refl, refl)

secure_rest :
    (model url : Bool) (m u : Text) (rest : List Text)
    → flag model m ++ flag url u ++ rest ≡ []
    → (model ≡ false) × (url ≡ false)
secure_rest true url m u rest h = cc
secure_rest false true m u rest h = cc
secure_rest false false m u rest h = (refl, refl)

-- a switch over a backend, where the stub is refused
switch_cases :
    (is_default is_first is_second : Bool) (default first second other : List Text)
    → (if is_default
        then default
        else if is_first
        then first
        else if is_second
        then second
        else other)
      ≡ []
    → is_default ≡ false
    → other ≢ []
    → ((is_first ≡ true) × (first ≡ [])) ⊎ ((is_second ≡ true) × (second ≡ []))
switch_cases true f g a b c d h n o = cc n
switch_cases false true g a b c d h n o = inl (refl, h)
switch_cases false false true a b c d h n o = inr (refl, h)
switch_cases false false false a b c d h n o = absurd (o h)

pub ai_secure :
    (c : Config)
    → ai_missing c ≡ []
    → is_stub c.ai_backend ≡ false
    → ((c.ai_backend ≡ local) ⊎ (c.ai_backend ≡ openai_compatible))
      × (is_insecure c.ai_model ≡ false)
      × (is_insecure c.ai_base_url ≡ false)
ai_secure c h n =
    elim (switch_cases (is_stub c.ai_backend) (text_eq c.ai_backend local)
      (text_eq c.ai_backend openai_compatible) _ _ _ (bytes "AUSTRO_AI_BACKEND" ∷ []) h n
      (λ e. cc e)) [
        | inl (here, clear) ↦
            let (model, url) = secure_rest _ _ _ _ _ clear in
            (inl (eq_of_text_eq c.ai_backend local here), model, url)
        | inr (here, clear) ↦
            let (model, url) = secure_rest _ _ _ _ _ clear in
            (inr (eq_of_text_eq c.ai_backend openai_compatible here), model, url)
      ]

pub publish_secure :
    (c : Config)
    → publish_missing c ≡ []
    → is_stub c.publish_backend ≡ false
    → (c.publish_backend ≡ generic_http)
      × (is_insecure c.publish_webhook_url ≡ false)
      × (is_insecure c.publish_token ≡ false)
publish_secure c h n =
    elim (switch_cases (is_stub c.publish_backend) (text_eq c.publish_backend generic_http) false _
      _ [] (bytes "AUSTRO_PUBLISH_BACKEND" ∷ []) h n (λ e. cc e)) [
        | inl (here, clear) ↦
            let (url, token) = secure_pair _ _ _ _ clear in
            (eq_of_text_eq c.publish_backend generic_http here, url, token)
        | inr (here, clear) ↦ cc here
      ]

pub stubs_refused :
    (on ai publish transport : Bool) (a p t : Text)
    → (if on then flag ai a ++ flag publish p ++ flag transport t else []) ≡ []
    → on ≡ true
    → (ai ≡ false) × (publish ≡ false) × (transport ≡ false)
stubs_refused false x y z a p t h o = cc o
stubs_refused true true y z a p t h o = cc h
stubs_refused true false true z a p t h o = cc h
stubs_refused true false false true a p t h o = cc h
stubs_refused true false false false a p t h o = (refl, refl, refl)

pub is_rabbitmq :
    (t : Text)
    → flag (not (is_stub t || text_eq t rabbitmq)) (bytes "AUSTRO_EXECUTION_TRANSPORT_BACKEND") ≡ []
    → is_stub t ≡ false
    → t ≡ rabbitmq
is_rabbitmq t h n =
    let known = flag-clear (not (is_stub t || text_eq t rabbitmq)) _ h in
    eq_of_text_eq t rabbitmq (second_holds _ _ known n)

pub over_broker :
    (c : Config)
    → is_production c ≡ true
    → c.execution_transport_backend ≡ rabbitmq
    → through_broker c ≡ true
over_broker c p t = and_true _ _ p (ap (λ u. text_eq u rabbitmq) t ∙ text_eq_refl rabbitmq)
