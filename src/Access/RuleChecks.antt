-- ===== src/Access/RuleChecks.antt =====
-- The checks that every rule of `ImplementedRules` of internal/rbac/rbac.go passes.
use austro_os.Common.{Bool, true, false, ◌&&◌, ◌||◌, not, List, [], ◌∷◌, any, ◌≡◌, refl}
use austro_os.Common.Text.{Text, text_eq, bytes}
use austro_os.Access.Roles.{
  Role, founder, workspace_admin, workspace_member, Rule, Scope, scope_none, scope_path, same_role,
}
use austro_os.Access.Implemented.{implemented_rules}
use austro_os.Access.Authorizer.{has_role, is_placeholder, split_path}
use austro_os.Access.Tables.{all}

-- the first of a list of literal segments can be that of a request
abbrev pub can_be : Text → Text → Bool
can_be p lit = is_placeholder p || text_eq p lit

abbrev pub is_path : Scope → Bool
is_path scope_path = true
is_path s = false

abbrev pub is_bound : Scope → Bool
is_bound scope_none = false
is_bound s = true

-- A rule for paths under `workspaces` is the founder's, or binds the segment after it to the caller's workspace.
unfoldable pub isolates : Scope → List Role → List Text → Bool
isolates s roles [] = true
isolates s roles (p ∷ []) = true
isolates s roles (p ∷ q ∷ ps) =
    not (can_be p (bytes "workspaces"))
    || (not (has_role roles workspace_admin) && not (has_role roles workspace_member))
    || (is_path s && not (is_placeholder p) && is_placeholder q)

unfoldable pub isolates_rule : Rule → Bool
isolates_rule e = isolates e.scope e.roles (split_path e.resource_pattern)

abbrev pub decisions : List Text
decisions = bytes "approve" ∷ bytes "reject" ∷ bytes "publish" ∷ bytes "retry" ∷ []

-- A rule for a decision about a publication is the admin's alone.
unfoldable pub admins_only : Scope → List Role → List Text → Bool
admins_only s roles (p ∷ q ∷ v ∷ []) =
    not (can_be p (bytes "publications"))
    || not (any (can_be v) decisions)
    || (not (has_role roles founder) && not (has_role roles workspace_member) && is_bound s)
admins_only s roles ps = true

unfoldable pub admins_only_rule : Rule → Bool
admins_only_rule e = admins_only e.scope e.roles (split_path e.resource_pattern)

pub implemented_rules-isolate : all isolates_rule implemented_rules ≡ true
unfolding all isolates_rule isolates is_placeholder split_path has_role same_role text_eq
implemented_rules-isolate = refl

pub implemented_rules-admins_only : all admins_only_rule implemented_rules ≡ true
unfolding all admins_only_rule admins_only is_placeholder split_path has_role same_role text_eq
implemented_rules-admins_only = refl
