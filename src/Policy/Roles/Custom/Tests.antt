-- ===== src/Policy/Roles/Custom/Tests.antt =====
-- Two custom roles, and the theorem of the validation on one.
use code_fleet.Prelude.{◌≡◌, refl, [], Text, text, ◌==◌, elem, ok, err}
use code_fleet.Prelude.Json.{
  Json, string, array, object, no_items, item, no_fields, field, get, keys_of,
}
use code_fleet.Policy.Roles.{lookup, AgentRole, core_agent_roles, mode_rank, exceeds}
use code_fleet.Policy.Roles.Custom.{
  type_error, validate_custom_role, base_of, categories_of, unexpected_findings, mode_findings,
  denied_findings, guidance_findings, strings_of, listed, base_mode, base_denied,
}
use code_fleet.Policy.Roles.Custom.Narrowing.{Narrows, validate_custom_role-Narrows}

abbrev custom : Text → Json
custom mode = object (
    field (text "baseRole") (string (text "BACKEND_IMPLEMENTER")) (
      field (text "defaultMaxMode") (string mode) (
        field (text "deniedCommandCategories")
          (array (
            item (string (text "INFRA_APPLY")) (
              item (string (text "CLOUD_RESOURCE_MUTATION"))
                (item (string (text "DATA_DESTRUCTION")) no_items))))
          no_fields)))

accepted : validate_custom_role (custom (text "SUGGEST_ONLY")) (text "/r") ≡ ok []
unfolding validate_custom_role base_of lookup core_agent_roles get ◌==◌ elem keys_of
    unexpected_findings mode_findings mode_rank exceeds denied_findings categories_of strings_of
    listed guidance_findings base_mode base_denied
accepted = refl

-- A base named after what every object inherits is found, and reading its categories throws.
inherited_base :
    validate_custom_role
      (object (
        field
          (text "baseRole")
          (string (text "constructor"))
          (field (text "deniedCommandCategories") (array no_items) no_fields)))
      (text "/r")
    ≡ err type_error
unfolding validate_custom_role base_of lookup core_agent_roles get ◌==◌ elem denied_findings
    categories_of strings_of base_denied
inherited_base = refl

validate_custom_role-Narrows_example :
    (base : AgentRole) × Narrows (custom (text "SUGGEST_ONLY")) base
validate_custom_role-Narrows_example =
    validate_custom_role-Narrows (custom (text "SUGGEST_ONLY")) (text "/r") accepted
