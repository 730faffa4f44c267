-- ===== src/Config/Roles.antt =====
-- What a process is and whether it sweeps: the methods of `Config` on its role, its dispatch mode and its companions, of
-- internal/config/config.go.
use austro_os.Common.{Bool, false, ◌&&◌, ◌||◌, if◌then◌else◌, List, [], ◌∷◌, any}
use austro_os.Common.Text.{Text, is_empty, text_eq, bytes, trim_space}
use austro_os.Config.Settings.{Config, to_lower, fold_ascii, split_commas}

abbrev pub api : Text
api = bytes "api"

abbrev pub service : Text
service = bytes "service"

abbrev pub off : Text
off = bytes "off"

abbrev pub dispatcher : Text
dispatcher = bytes "dispatcher"

abbrev pub worker : Text
worker = bytes "worker"

pub data DispatchModeState : Type 0 where
  mode_ok mode_blank mode_unset mode_invalid : DispatchModeState

-- `strings.ToLower(strings.TrimSpace(s))`
abbrev pub normal : Text → Text
normal s = to_lower (trim_space s)

-- `dispatchModeState`
unfoldable pub dispatch_mode_state : Config → DispatchModeState
dispatch_mode_state c =
    let mode = normal c.execution_dispatch_mode in
    if text_eq mode api || text_eq mode service || text_eq mode off
    then mode_ok
    else if is_empty mode
    then if is_empty c.execution_dispatch_mode_raw then mode_unset else mode_blank
    else mode_invalid

abbrev pub mode_in : DispatchModeState → Text → Text
mode_in mode_unset mode = api
mode_in state mode = mode

-- `effectiveDispatchMode`
unfoldable pub effective_dispatch_mode : Config → Text
effective_dispatch_mode c = mode_in (dispatch_mode_state c) (normal c.execution_dispatch_mode)

-- `DispatchesHere`
unfoldable pub dispatches_here : Config → Bool
dispatches_here c = let mode = effective_dispatch_mode c in text_eq mode api || text_eq mode service

-- `effectiveProcessRole` and `ProcessRoleName`
unfoldable pub effective_process_role : Config → Text
effective_process_role c =
    let role = normal c.process_role in
    if is_empty role && is_empty c.process_role_raw then api else role

-- `ServesHTTP`
unfoldable pub serves_http : Config → Bool
serves_http c = text_eq (effective_process_role c) api

-- `ConsumesExecutionQueue`
unfoldable pub consumes_execution_queue : Config → Bool
consumes_execution_queue c = text_eq (effective_process_role c) worker

abbrev new_roles : List Text → List Text → List Text
new_roles seen [] = []
new_roles seen (token ∷ tokens) =
    let role = normal token in
    let skipped = new_roles seen tokens in
    let taken = new_roles (role ∷ seen) tokens in
    if is_empty role || any (text_eq role) seen then skipped else role ∷ taken

-- `companionRoles` and `DeclaredCompanions`
unfoldable pub companion_roles : Config → List Text
companion_roles c = new_roles [] (split_commas (trim_space c.expect_companion_processes_raw))

-- `ExpectsCompanion`
unfoldable pub expects_companion : Config → Text → Bool
expects_companion c role =
    let wanted = normal role in any (λ companion. text_eq companion wanted) (companion_roles c)

-- `roleAndModeAgree`
unfoldable pub role_and_mode_agree : Config → Bool
role_and_mode_agree c =
    let mode = effective_dispatch_mode c in
    let role = effective_process_role c in
    if text_eq role api
    then text_eq mode api || text_eq mode off
    else if text_eq role dispatcher
    then text_eq mode service
    else if text_eq role worker
    then text_eq mode off
    else false

-- `isProduction`: `strings.EqualFold` with a name in which only ASCII letters fold
unfoldable pub is_production : Config → Bool
is_production c = text_eq (fold_ascii (trim_space c.environment)) (bytes "production")
