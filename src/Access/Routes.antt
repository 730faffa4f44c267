-- ===== src/Access/Routes.antt =====
-- internal/api/routes.go.
use Prim.Native.String.{String}
use austro_os.Common.{List, [], ◌∷◌}
use austro_os.Common.Text.{Text, bytes}

pub record Route : Type 0 where
  pub method : Text
  pub pattern : Text

abbrev route : String → String → Route
route method pattern = record { method = bytes method; pattern = bytes pattern }

-- `Routes`
abbrev pub routes : List Route
routes =
    route "GET" "/health/live"
    ∷ route "GET" "/health/ready"
    ∷ route "POST" "/api/auth/bootstrap"
    ∷ route "POST" "/api/auth/login"
    ∷ route "POST" "/api/auth/refresh"
    ∷ route "POST" "/api/auth/logout"
    ∷ route "GET" "/api/me"
    ∷ route "GET" "/workspaces"
    ∷ route "POST" "/workspaces"
    ∷ route "GET" "/workspaces/{id}"
    ∷ route "GET" "/audit/events"
    ∷ route "GET" "/audit/verification"
    ∷ route "GET" "/workspaces/{id}/audit/events"
    ∷ route "POST" "/tasks"
    ∷ route "GET" "/tasks"
    ∷ route "GET" "/tasks/{id}"
    ∷ route "PATCH" "/tasks/{id}"
    ∷ route "POST" "/tasks/{id}/transition"
    ∷ route "POST" "/tasks/{id}/execute"
    ∷ route "GET" "/executions/{id}"
    ∷ route "POST" "/executions/{id}/cancel"
    ∷ route "POST" "/knowledge"
    ∷ route "GET" "/knowledge"
    ∷ route "GET" "/knowledge/{id}"
    ∷ route "PATCH" "/knowledge/{id}"
    ∷ route "DELETE" "/knowledge/{id}"
    ∷ route "POST" "/knowledge/search"
    ∷ route "POST" "/publications"
    ∷ route "GET" "/publications"
    ∷ route "GET" "/publications/{id}"
    ∷ route "POST" "/publications/{id}/submit"
    ∷ route "POST" "/publications/{id}/approve"
    ∷ route "POST" "/publications/{id}/reject"
    ∷ route "POST" "/publications/{id}/publish"
    ∷ route "POST" "/publications/{id}/retry"
    ∷ route "POST" "/pipelines"
    ∷ route "GET" "/pipelines"
    ∷ route "GET" "/pipelines/{id}"
    ∷ route "POST" "/pipelines/{id}/approve"
    ∷ route "POST" "/pipelines/{id}/retry"
    ∷ route "POST" "/departments"
    ∷ route "GET" "/departments"
    ∷ route "GET" "/departments/{id}"
    ∷ route "PATCH" "/departments/{id}"
    ∷ route "DELETE" "/departments/{id}"
    ∷ route "POST" "/teams"
    ∷ route "GET" "/teams"
    ∷ route "GET" "/teams/{id}"
    ∷ route "PATCH" "/teams/{id}"
    ∷ route "DELETE" "/teams/{id}"
    ∷ route "POST" "/ai-employees"
    ∷ route "GET" "/ai-employees"
    ∷ route "GET" "/ai-employees/{id}"
    ∷ route "PATCH" "/ai-employees/{id}"
    ∷ route "DELETE" "/ai-employees/{id}"
    ∷ route "GET" "/memory/{layer}/{key}"
    ∷ route "PUT" "/memory/{layer}/{key}"
    ∷ []
