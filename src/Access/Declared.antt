-- ===== src/Access/Declared.antt =====
-- internal/rbac/rbac.go: `Rules`, the literal in parts.
use austro_os.Common.{List, [], ◌∷◌, ◌++◌}
use austro_os.Access.Roles.{
  founder, workspace_admin, workspace_member, scope_none, scope_self, scope_path, Rule, rule,
}

abbrev pub declared_workspace_rules : List Rule
declared_workspace_rules =
    rule "GET" "/api/me" (founder ∷ workspace_admin ∷ workspace_member ∷ []) scope_none
      "Principle 9 - Security by Design"
    ∷ rule "GET" "/workspaces" (founder ∷ []) scope_none "Principle 9 - Security by Design"
    ∷ rule "POST" "/workspaces" (founder ∷ []) scope_none "Principle 5 - Modular Design"
    ∷ rule "GET" "/workspaces/{id}" (founder ∷ []) scope_none "Principle 10 - Privacy by Design"
    ∷ rule "GET" "/workspaces/{id}" (workspace_admin ∷ []) scope_path
        "Principle 10 - Privacy by Design"
    ∷ []

abbrev pub declared_task_rules : List Rule
declared_task_rules =
    rule "POST" "/tasks" (workspace_admin ∷ workspace_member ∷ []) scope_self
      "Principle 1 - Vision First"
    ∷ rule "GET" "/tasks" (workspace_admin ∷ workspace_member ∷ []) scope_self
        "Principle 13 - Observability"
    ∷ rule "GET" "/tasks/{id}" (workspace_admin ∷ workspace_member ∷ []) scope_self
        "Principle 10 - Privacy by Design"
    ∷ rule "PATCH" "/tasks/{id}" (workspace_admin ∷ workspace_member ∷ []) scope_self
        "Principle 4 - Quality Over Speed"
    ∷ rule "POST" "/tasks/{id}/transition" (workspace_admin ∷ workspace_member ∷ []) scope_self
        "Principle 11 - Human Oversight"
    ∷ rule "POST" "/tasks/{id}/execute" (workspace_admin ∷ workspace_member ∷ []) scope_self
        "Principle 1 - Vision First"
    ∷ rule "GET" "/executions/{id}" (workspace_admin ∷ workspace_member ∷ []) scope_self
        "Principle 13 - Observability"
    ∷ rule "POST" "/executions/{id}/cancel" (workspace_admin ∷ workspace_member ∷ []) scope_self
        "Principle 11 - Human Oversight"
    ∷ []

abbrev pub declared_knowledge_rules : List Rule
declared_knowledge_rules =
    rule "POST" "/knowledge" (workspace_admin ∷ workspace_member ∷ []) scope_self
      "Principle 1 - Vision First"
    ∷ rule "GET" "/knowledge" (workspace_admin ∷ workspace_member ∷ []) scope_self
        "Principle 13 - Observability"
    ∷ rule "GET" "/knowledge/{id}" (workspace_admin ∷ workspace_member ∷ []) scope_self
        "Principle 10 - Privacy by Design"
    ∷ rule "PATCH" "/knowledge/{id}" (workspace_admin ∷ workspace_member ∷ []) scope_self
        "Principle 4 - Quality Over Speed"
    ∷ rule "DELETE" "/knowledge/{id}" (workspace_admin ∷ workspace_member ∷ []) scope_self
        "Principle 9 - Security by Design"
    ∷ rule "POST" "/knowledge/search" (workspace_admin ∷ workspace_member ∷ []) scope_self
        "Principle 10 - Privacy by Design"
    ∷ rule "GET" "/memory/{layer}/{key}" (workspace_admin ∷ workspace_member ∷ []) scope_self
        "Principle 10 - Privacy by Design"
    ∷ rule "PUT" "/memory/{layer}/{key}" (workspace_admin ∷ workspace_member ∷ []) scope_self
        "Principle 9 - Security by Design"
    ∷ []

abbrev pub declared_department_rules : List Rule
declared_department_rules =
    rule "POST" "/departments" (workspace_admin ∷ []) scope_self "Principle 5 - Modular Design"
    ∷ rule "GET" "/departments" (workspace_admin ∷ workspace_member ∷ []) scope_self
        "Principle 13 - Observability"
    ∷ rule "GET" "/departments/{id}" (workspace_admin ∷ workspace_member ∷ []) scope_self
        "Principle 10 - Privacy by Design"
    ∷ rule "PATCH" "/departments/{id}" (workspace_admin ∷ []) scope_self
        "Principle 4 - Quality Over Speed"
    ∷ rule "DELETE" "/departments/{id}" (workspace_admin ∷ []) scope_self
        "Principle 9 - Security by Design"
    ∷ []

abbrev pub declared_team_rules : List Rule
declared_team_rules =
    rule "POST" "/teams" (workspace_admin ∷ []) scope_self "Principle 5 - Modular Design"
    ∷ rule "GET" "/teams" (workspace_admin ∷ workspace_member ∷ []) scope_self
        "Principle 13 - Observability"
    ∷ rule "GET" "/teams/{id}" (workspace_admin ∷ workspace_member ∷ []) scope_self
        "Principle 10 - Privacy by Design"
    ∷ rule "PATCH" "/teams/{id}" (workspace_admin ∷ []) scope_self
        "Principle 4 - Quality Over Speed"
    ∷ rule "DELETE" "/teams/{id}" (workspace_admin ∷ []) scope_self
        "Principle 9 - Security by Design"
    ∷ []

abbrev pub declared_employee_rules : List Rule
declared_employee_rules =
    rule "POST" "/ai-employees" (workspace_admin ∷ []) scope_self "Principle 5 - Modular Design"
    ∷ rule "GET" "/ai-employees" (workspace_admin ∷ workspace_member ∷ []) scope_self
        "Principle 13 - Observability"
    ∷ rule "GET" "/ai-employees/{id}" (workspace_admin ∷ workspace_member ∷ []) scope_self
        "Principle 10 - Privacy by Design"
    ∷ rule "PATCH" "/ai-employees/{id}" (workspace_admin ∷ []) scope_self
        "Principle 4 - Quality Over Speed"
    ∷ rule "DELETE" "/ai-employees/{id}" (workspace_admin ∷ []) scope_self
        "Principle 9 - Security by Design"
    ∷ []

-- `publicationRules`
abbrev pub publication_rules : List Rule
publication_rules =
    rule "POST" "/publications" (workspace_admin ∷ workspace_member ∷ []) scope_self
      "Principle 1 - Vision First"
    ∷ rule "GET" "/publications" (workspace_admin ∷ workspace_member ∷ []) scope_self
        "Principle 10 - Privacy by Design"
    ∷ rule "GET" "/publications/{id}" (workspace_admin ∷ workspace_member ∷ []) scope_self
        "Principle 10 - Privacy by Design"
    ∷ rule "POST" "/publications/{id}/submit" (workspace_admin ∷ workspace_member ∷ []) scope_self
        "Principle 11 - Human Oversight"
    ∷ rule "POST" "/publications/{id}/approve" (workspace_admin ∷ []) scope_self
        "Principle 11 - Human Oversight"
    ∷ rule "POST" "/publications/{id}/reject" (workspace_admin ∷ []) scope_self
        "Principle 11 - Human Oversight"
    ∷ rule "POST" "/publications/{id}/publish" (workspace_admin ∷ []) scope_self
        "Principle 11 - Human Oversight"
    ∷ rule "POST" "/publications/{id}/retry" (workspace_admin ∷ []) scope_self
        "Principle 11 - Human Oversight"
    ∷ []

-- `pipelineRules`
abbrev pub pipeline_rules : List Rule
pipeline_rules =
    rule "POST" "/pipelines" (workspace_admin ∷ workspace_member ∷ []) scope_self
      "Principle 1 - Vision First"
    ∷ rule "GET" "/pipelines" (workspace_admin ∷ workspace_member ∷ []) scope_self
        "Principle 13 - Observability"
    ∷ rule "GET" "/pipelines/{id}" (workspace_admin ∷ workspace_member ∷ []) scope_self
        "Principle 10 - Privacy by Design"
    ∷ rule "POST" "/pipelines/{id}/approve" (workspace_admin ∷ []) scope_self
        "Principle 11 - Human Oversight"
    ∷ rule "POST" "/pipelines/{id}/retry" (workspace_admin ∷ workspace_member ∷ []) scope_self
        "Principle 13 - Observability"
    ∷ []

-- `Rules`
abbrev pub rules : List Rule
rules =
    declared_workspace_rules ++ declared_task_rules ++ declared_knowledge_rules
    ++ declared_department_rules ++ declared_team_rules ++ declared_employee_rules
    ++ publication_rules ++ pipeline_rules
