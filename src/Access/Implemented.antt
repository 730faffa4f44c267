-- ===== src/Access/Implemented.antt =====
-- internal/rbac/rbac.go: `ImplementedRules`, the literal in parts.
use austro_os.Common.{List, [], ◌∷◌, ◌++◌}
use austro_os.Access.Roles.{
  founder, workspace_admin, workspace_member, scope_none, scope_self, scope_path, Rule, rule,
}
use austro_os.Access.Declared.{publication_rules, pipeline_rules}

abbrev pub workspace_rules : List Rule
workspace_rules =
    rule "GET" "/api/me" (founder ∷ workspace_admin ∷ workspace_member ∷ []) scope_none
      "Principle 9 - Security by Design"
    ∷ rule "GET" "/workspaces" (founder ∷ []) scope_none "Principle 9 - Security by Design"
    ∷ rule "POST" "/workspaces" (founder ∷ []) scope_none "Principle 5 - Modular Design"
    ∷ rule "GET" "/workspaces/{id}" (founder ∷ []) scope_none "Principle 10 - Privacy by Design"
    ∷ rule "GET" "/workspaces/{id}" (workspace_admin ∷ []) scope_path
        "Principle 10 - Privacy by Design"
    ∷ rule "GET" "/audit/events" (founder ∷ []) scope_none "Principle 11 - Human Oversight"
    ∷ rule "GET" "/audit/verification" (founder ∷ []) scope_none "Principle 11 - Human Oversight"
    ∷ rule "GET" "/workspaces/{id}/audit/events" (founder ∷ []) scope_none
        "Principle 11 - Human Oversight"
    ∷ rule "GET" "/workspaces/{id}/audit/events" (workspace_admin ∷ workspace_member ∷ [])
        scope_path "Principle 10 - Privacy by Design"
    ∷ []

abbrev pub task_rules : List Rule
task_rules =
    rule "POST" "/tasks" (workspace_admin ∷ workspace_member ∷ []) scope_self
      "Principle 1 - Vision First"
    ∷ rule "GET" "/tasks" (workspace_admin ∷ workspace_member ∷ []) scope_self
        "Principle 13 - Observability"
    ∷ rule "GET" "/tasks/{id}" (workspace_admin ∷ workspace_member ∷ []) scope_self
        "Principle 10 - Privacy by Design"
    ∷ rule "PATCH" "/tasks/{id}" (workspace_admin ∷ workspace_member ∷ []) scope_self
        "Principle 4 - Quality Over Speed"
    ∷ rule "POST" "/tasks/{id}/transition" (workspace_admin ∷ workspace_member ∷ []) scope_self
        "Principle 11 - Human Oversight"
    ∷ rule "POST" "/tasks/{id}/execute" (workspace_admin ∷ workspace_member ∷ []) scope_self
        "Principle 1 - Vision First"
    ∷ rule "GET" "/executions/{id}" (workspace_admin ∷ workspace_member ∷ []) scope_self
        "Principle 13 - Observability"
    ∷ rule "POST" "/executions/{id}/cancel" (workspace_admin ∷ workspace_member ∷ []) scope_self
        "Principle 11 - Human Oversight"
    ∷ []

abbrev pub knowledge_rules : List Rule
knowledge_rules =
    rule "POST" "/knowledge" (workspace_admin ∷ workspace_member ∷ []) scope_self
      "Principle 1 - Vision First"
    ∷ rule "GET" "/knowledge" (workspace_admin ∷ workspace_member ∷ []) scope_self
        "Principle 13 - Observability"
    ∷ rule "GET" "/knowledge/{id}" (workspace_admin ∷ workspace_member ∷ []) scope_self
        "Principle 10 - Privacy by Design"
    ∷ rule "PATCH" "/knowledge/{id}" (workspace_admin ∷ workspace_member ∷ []) scope_self
        "Principle 4 - Quality Over Speed"
    ∷ rule "DELETE" "/knowledge/{id}" (workspace_admin ∷ workspace_member ∷ []) scope_self
        "Principle 9 - Security by Design"
    ∷ rule "POST" "/knowledge/search" (workspace_admin ∷ workspace_member ∷ []) scope_self
        "Principle 10 - Privacy by Design"
    ∷ rule "GET" "/memory/{layer}/{key}" (workspace_admin ∷ workspace_member ∷ []) scope_self
        "Principle 10 - Privacy by Design"
    ∷ rule "PUT" "/memory/{layer}/{key}" (workspace_admin ∷ workspace_member ∷ []) scope_self
        "Principle 9 - Security by Design"
    ∷ []

abbrev pub department_rules : List Rule
department_rules =
    rule "POST" "/departments" (workspace_admin ∷ []) scope_self "Principle 5 - Modular Design"
    ∷ rule "GET" "/departments" (workspace_admin ∷ workspace_member ∷ []) scope_self
        "Principle 13 - Observability"
    ∷ rule "GET" "/departments/{id}" (workspace_admin ∷ workspace_member ∷ []) scope_self
        "Principle 10 - Privacy by Design"
    ∷ rule "PATCH" "/departments/{id}" (workspace_admin ∷ []) scope_self
        "Principle 4 - Quality Over Speed"
    ∷ rule "DELETE" "/departments/{id}" (workspace_admin ∷ []) scope_self
        "Principle 9 - Security by Design"
    ∷ []

abbrev pub team_rules : List Rule
team_rules =
    rule "POST" "/teams" (workspace_admin ∷ []) scope_self "Principle 5 - Modular Design"
    ∷ rule "GET" "/teams" (workspace_admin ∷ workspace_member ∷ []) scope_self
        "Principle 13 - Observability"
    ∷ rule "GET" "/teams/{id}" (workspace_admin ∷ workspace_member ∷ []) scope_self
        "Principle 10 - Privacy by Design"
    ∷ rule "PATCH" "/teams/{id}" (workspace_admin ∷ []) scope_self
        "Principle 4 - Quality Over Speed"
    ∷ rule "DELETE" "/teams/{id}" (workspace_admin ∷ []) scope_self
        "Principle 9 - Security by Design"
    ∷ []

abbrev pub employee_rules : List Rule
employee_rules =
    rule "POST" "/ai-employees" (workspace_admin ∷ []) scope_self "Principle 5 - Modular Design"
    ∷ rule "GET" "/ai-employees" (workspace_admin ∷ workspace_member ∷ []) scope_self
        "Principle 13 - Observability"
    ∷ rule "GET" "/ai-employees/{id}" (workspace_admin ∷ workspace_member ∷ []) scope_self
        "Principle 10 - Privacy by Design"
    ∷ rule "PATCH" "/ai-employees/{id}" (workspace_admin ∷ []) scope_self
        "Principle 4 - Quality Over Speed"
    ∷ rule "DELETE" "/ai-employees/{id}" (workspace_admin ∷ []) scope_self
        "Principle 9 - Security by Design"
    ∷ []

-- `ImplementedRules`
abbrev pub implemented_rules : List Rule
implemented_rules =
    workspace_rules ++ task_rules ++ knowledge_rules ++ department_rules ++ team_rules
    ++ employee_rules ++ publication_rules ++ pipeline_rules
