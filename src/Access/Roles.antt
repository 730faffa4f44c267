-- ===== src/Access/Roles.antt =====
-- internal/rbac/rbac.go: the roles, the scopes and the form of a rule; internal/auth/auth.go: the claims of a token.
use Prim.Native.String.{String}
use austro_os.Common.{Bool, true, false, not, if◌then◌else◌, List, Option, none, some}
use austro_os.Common.Text.{Text, text_eq, is_empty, bytes}

-- A role is a string: one of the three, or another one.
pub data Role : Type 0 where
  founder workspace_admin workspace_member : Role
  unknown_role : Text → Role

-- `ValidRole`
unfoldable pub valid_role : Role → Bool
valid_role (unknown_role r) = false
valid_role r = true

-- two roles are the same string
unfoldable pub same_role : Role → Role → Bool
same_role founder founder = true
same_role workspace_admin workspace_admin = true
same_role workspace_member workspace_member = true
same_role (unknown_role r) (unknown_role s) = text_eq r s
same_role r s = false

-- `WorkspaceScope`
pub data Scope : Type 0 where
  scope_none scope_self scope_path : Scope

pub record Rule : Type 0 where
  pub action : Text
  pub resource_pattern : Text
  pub roles : List Role
  pub scope : Scope
  pub principle : Text

abbrev pub rule : String → String → List Role → Scope → String → Rule
rule action pattern roles scope principle = record {
  action = bytes action;
  resource_pattern = bytes pattern;
  roles = roles;
  scope = scope;
  principle = bytes principle;
}

-- a map from the HTTP method to templates
abbrev pub Permissions : Type 0
Permissions = List (Text × List Text)

-- the identity's claims, without the registered ones
pub record Claims : Type 0 where
  pub id : Text
  pub role : Role
  pub workspace_id : Text
  pub permissions : Permissions

pub data ClaimsError : Type 0 where
  invalid_token : ClaimsError

-- the pairing of a role with a workspace
unfoldable pub consistent : Role → Text → Bool
consistent founder ws = is_empty ws
consistent workspace_admin ws = not (is_empty ws)
consistent workspace_member ws = not (is_empty ws)
consistent (unknown_role r) ws = true

-- `validateClaimsShape`; a nil pointer is `none`
unfoldable pub validate_claims_shape : Option Claims → Option ClaimsError
validate_claims_shape none = some invalid_token
validate_claims_shape (some c) =
    if is_empty c.id
    then some invalid_token
    else if not (valid_role c.role)
    then some invalid_token
    else if consistent c.role c.workspace_id
    then none
    else some invalid_token
