-- ===== src/Access/Permissions.antt =====
-- internal/rbac/rbac.go: `PermissionsForRole`.
use austro_os.Common.{[], ◌∷◌}
use austro_os.Common.Text.{bytes}
use austro_os.Access.Roles.{
  Role, founder, workspace_admin, workspace_member, unknown_role, Permissions,
}

-- `PermissionsForRole`; a nil map is an empty one
abbrev pub permissions_for_role : Role → Permissions
permissions_for_role founder =
    (
      bytes "GET",
      bytes "/api/me"
          ∷ bytes "/workspaces"
          ∷ bytes "/workspaces/{id}"
          ∷ bytes "/audit/events"
          ∷ bytes "/audit/verification"
          ∷ bytes "/workspaces/{id}/audit/events"
          ∷ [],
    )
    ∷ (bytes "POST", bytes "/workspaces" ∷ [])
    ∷ []
permissions_for_role workspace_admin =
    (
      bytes "GET",
      bytes "/api/me"
          ∷ bytes "/workspaces/{id}"
          ∷ bytes "/workspaces/{id}/audit/events"
          ∷ bytes "/tasks"
          ∷ bytes "/tasks/{id}"
          ∷ bytes "/executions/{id}"
          ∷ bytes "/knowledge"
          ∷ bytes "/knowledge/{id}"
          ∷ bytes "/memory/{layer}/{key}"
          ∷ bytes "/publications"
          ∷ bytes "/publications/{id}"
          ∷ bytes "/pipelines"
          ∷ bytes "/pipelines/{id}"
          ∷ bytes "/departments"
          ∷ bytes "/departments/{id}"
          ∷ bytes "/teams"
          ∷ bytes "/teams/{id}"
          ∷ bytes "/ai-employees"
          ∷ bytes "/ai-employees/{id}"
          ∷ [],
    )
    ∷ (
      bytes "POST",
      bytes "/tasks"
          ∷ bytes "/tasks/{id}/transition"
          ∷ bytes "/tasks/{id}/execute"
          ∷ bytes "/executions/{id}/cancel"
          ∷ bytes "/knowledge"
          ∷ bytes "/knowledge/search"
          ∷ bytes "/publications"
          ∷ bytes "/publications/{id}/submit"
          ∷ bytes "/publications/{id}/approve"
          ∷ bytes "/publications/{id}/reject"
          ∷ bytes "/publications/{id}/publish"
          ∷ bytes "/publications/{id}/retry"
          ∷ bytes "/pipelines"
          ∷ bytes "/pipelines/{id}/approve"
          ∷ bytes "/pipelines/{id}/retry"
          ∷ bytes "/departments"
          ∷ bytes "/teams"
          ∷ bytes "/ai-employees"
          ∷ [],
    )
    ∷ (
      bytes "PATCH",
      bytes "/tasks/{id}"
          ∷ bytes "/knowledge/{id}"
          ∷ bytes "/departments/{id}"
          ∷ bytes "/teams/{id}"
          ∷ bytes "/ai-employees/{id}"
          ∷ [],
    )
    ∷ (bytes "PUT", bytes "/memory/{layer}/{key}" ∷ [])
    ∷ (
      bytes "DELETE",
      bytes "/knowledge/{id}"
          ∷ bytes "/departments/{id}"
          ∷ bytes "/teams/{id}"
          ∷ bytes "/ai-employees/{id}"
          ∷ [],
    )
    ∷ []
permissions_for_role workspace_member =
    (
      bytes "GET",
      bytes "/api/me"
          ∷ bytes "/workspaces/{id}/audit/events"
          ∷ bytes "/tasks"
          ∷ bytes "/tasks/{id}"
          ∷ bytes "/executions/{id}"
          ∷ bytes "/knowledge"
          ∷ bytes "/knowledge/{id}"
          ∷ bytes "/memory/{layer}/{key}"
          ∷ bytes "/publications"
          ∷ bytes "/publications/{id}"
          ∷ bytes "/pipelines"
          ∷ bytes "/pipelines/{id}"
          ∷ bytes "/departments"
          ∷ bytes "/departments/{id}"
          ∷ bytes "/teams"
          ∷ bytes "/teams/{id}"
          ∷ bytes "/ai-employees"
          ∷ bytes "/ai-employees/{id}"
          ∷ [],
    )
    ∷ (
      bytes "POST",
      bytes "/tasks"
          ∷ bytes "/tasks/{id}/transition"
          ∷ bytes "/tasks/{id}/execute"
          ∷ bytes "/executions/{id}/cancel"
          ∷ bytes "/knowledge"
          ∷ bytes "/knowledge/search"
          ∷ bytes "/publications"
          ∷ bytes "/publications/{id}/submit"
          ∷ bytes "/pipelines"
          ∷ bytes "/pipelines/{id}/retry"
          ∷ [],
    )
    ∷ (bytes "PATCH", bytes "/tasks/{id}" ∷ bytes "/knowledge/{id}" ∷ [])
    ∷ (bytes "PUT", bytes "/memory/{layer}/{key}" ∷ [])
    ∷ (bytes "DELETE", bytes "/knowledge/{id}" ∷ [])
    ∷ []
permissions_for_role (unknown_role r) = []
