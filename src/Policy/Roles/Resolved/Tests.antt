-- ===== src/Policy/Roles/Resolved/Tests.antt =====
-- Resolutions of two names.
use code_fleet.Prelude.{◌≡◌, ◌↔◌, refl, some, [], text, ◌==◌, elem}
use code_fleet.Prelude.Json.{}
use code_fleet.Policy.Roles.{own, inherited, lookup, AgentRole, core_agent_roles}
use code_fleet.Policy.Roles.Resolved.{
  resolve_agent_role, Resolves, resolve_agent_role_iff, role_named,
}

inherited_role :
    (resolve_agent_role (some (text "constructor")) [] []).resolved_role ≡ some inherited
unfolding resolve_agent_role role_named lookup core_agent_roles ◌==◌ elem
inherited_role = refl

abbrev reviewer : AgentRole
reviewer = record {
  default_max_mode = text "SUGGEST_ONLY";
  denied_command_categories = [];
  role_guidance = [];
}

resolve_agent_role_iff_example :
    ((resolve_agent_role (some (text "BACKEND_REVIEWER")) [] []).resolved_role
      ≡ some (own reviewer))
    ↔ Resolves (some (text "BACKEND_REVIEWER")) [] [] (own reviewer)
resolve_agent_role_iff_example =
    resolve_agent_role_iff (some (text "BACKEND_REVIEWER")) [] [] (own reviewer)
