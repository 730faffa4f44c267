-- ===== src/Examples/Permits.antt =====
-- A workspace admin and a member, and the paths that they ask for.
use Prim.Native.String.{String}
use austro_os.Common.{[], ◌∷◌, ◌≡◌, ◌≢◌, refl, true, Option, none, some, ◌⊎◌, any, if◌then◌else◌}
use austro_os.Common.Text.{Text, bytes, text_eq, trim_space}
use austro_os.Access.Roles.{
  founder, workspace_admin, workspace_member, Claims, valid_role, same_role, consistent,
  validate_claims_shape,
}
use austro_os.Access.Permissions.{permissions_for_role}
use austro_os.Access.Implemented.{implemented_rules}
use austro_os.Access.Authorizer.{
  split_path, is_placeholder, match_segments, match_split, match_resource, has_role, has_permission,
  in_scope, allows, authorize_claims,
}
use austro_os.Access.Tables.{names_request, permissions_for_role_exact}
use austro_os.Access.Requests.{
  Request, reached, after_prefix, is_public_endpoint, verify_access_token, bearer_claims,
  authz_middleware, serve,
}
use austro_os.Access.Surface.{is_rule, is_guarded, routes_exact}
use austro_os.Access.RuleChecks.{decisions}
use austro_os.Access.Served.{served_tenant, served_decision}

abbrev admin : Claims
admin = record {
  id = bytes "u1";
  role = workspace_admin;
  workspace_id = bytes "w1";
  permissions = permissions_for_role workspace_admin;
}

permissions_for_role_exact_example :
    has_permission (permissions_for_role workspace_member) (bytes "GET") (bytes "/tasks/7")
    ≡ any (names_request workspace_member (bytes "GET") (bytes "/tasks/7")) implemented_rules
permissions_for_role_exact_example =
    permissions_for_role_exact workspace_member (bytes "GET") (bytes "/tasks/7")

routes_exact_example :
    is_guarded (bytes "GET") (bytes "/tasks/{id}")
    ≡ any (is_rule (bytes "GET") (bytes "/tasks/{id}")) implemented_rules
routes_exact_example = routes_exact (bytes "GET") (bytes "/tasks/{id}")

-- one token is good, and it is the admin's
abbrev good_token : Text → Option Claims
good_token t = if text_eq t (bytes "good") then some admin else none

abbrev asks : String → String → Request
asks method path = record {
  method = bytes method;
  path = bytes path;
  authorization = bytes "Bearer good ";
}

abbrev read_audit : Request
read_audit = asks "GET" "/workspaces/w1/audit/events"

read_audit_served : serve good_token read_audit ≡ reached (some admin)
unfolding serve bearer_claims after_prefix trim_space verify_access_token validate_claims_shape
    consistent authz_middleware is_public_endpoint authorize_claims allows match_resource
    match_split match_segments split_path is_placeholder has_role has_permission in_scope valid_role
    same_role text_eq
read_audit_served = refl

read_audit_path :
    split_path read_audit.path
    ≡ bytes "workspaces" ∷ bytes "w1" ∷ bytes "audit" ∷ bytes "events" ∷ []
unfolding split_path
read_audit_path = refl

served_tenant_example :
    (c : Claims) × (some admin ≡ some c)
    × (bearer_claims good_token (bytes "Bearer good ") ≡ some c)
    × (((c.role ≡ founder) × (c.workspace_id ≡ []))
        ⊎ ((bytes "w1" ≡ c.workspace_id) × (bytes "w1" ≢ [])))
served_tenant_example =
    served_tenant good_token read_audit (some admin) (bytes "w1")
      (bytes "audit" ∷ bytes "events" ∷ []) read_audit_served read_audit_path

abbrev approval : Request
approval = asks "POST" "/publications/5/approve"

approval_served : serve good_token approval ≡ reached (some admin)
unfolding serve bearer_claims after_prefix trim_space verify_access_token validate_claims_shape
    consistent authz_middleware is_public_endpoint authorize_claims allows match_resource
    match_split match_segments split_path is_placeholder has_role has_permission in_scope valid_role
    same_role text_eq
approval_served = refl

approval_path : split_path approval.path ≡ bytes "publications" ∷ bytes "5" ∷ bytes "approve" ∷ []
unfolding split_path
approval_path = refl

approve_decides : any (text_eq (bytes "approve")) decisions ≡ true
unfolding text_eq
approve_decides = refl

served_decision_example :
    (c : Claims) × (some admin ≡ some c)
    × (bearer_claims good_token (bytes "Bearer good ") ≡ some c)
    × (c.role ≡ workspace_admin)
    × (c.workspace_id ≢ [])
served_decision_example =
    served_decision good_token approval (some admin) (bytes "5") (bytes "approve") approval_served
      approval_path approve_decides
