-- ===== src/Policy/Roles/Guardrails/Tests.antt =====
-- Guardrails that narrow the mode of a role.
use code_fleet.Prelude.{◌≡◌, refl, true, none, some, Option, Text, text, ◌==◌, elem}
use code_fleet.Prelude.Json.{string, Fields, no_fields, field, get}
use code_fleet.Policy.Roles.{lookup, harness_modes, mode_rank, at_most, exceeds, meet_mode}
use code_fleet.Policy.Roles.Modes.{Within}
use code_fleet.Policy.Roles.Guardrails.{
  resolve_guardrails, resolve_declared, declared_mode, Grants, resolve_guardrails-Within,
}

abbrev guardrails : Option Fields
guardrails = some (field (text "mode") (string (text "SUGGEST_ONLY")) no_fields)

abbrev granted : Text
granted = (resolve_guardrails guardrails (text "WORKSPACE_EDIT") (text "COMMAND_EXEC")).mode

edit_known : elem harness_modes (text "WORKSPACE_EDIT") ≡ true
unfolding elem ◌==◌
edit_known = refl

exec_known : elem harness_modes (text "COMMAND_EXEC") ≡ true
unfolding elem ◌==◌
exec_known = refl

not_refused :
    (resolve_guardrails guardrails (text "WORKSPACE_EDIT") (text "COMMAND_EXEC")).guardrail_block
    ≡ none
unfolding resolve_guardrails resolve_declared declared_mode get ◌==◌ elem exceeds mode_rank lookup
    meet_mode at_most
not_refused = refl

resolve_guardrails-Within_example :
    (elem harness_modes granted ≡ true)
    × Within granted (text "WORKSPACE_EDIT")
    × Within granted (text "COMMAND_EXEC")
    × Grants
        (declared_mode guardrails)
        (meet_mode (text "WORKSPACE_EDIT") (text "COMMAND_EXEC"))
        granted
resolve_guardrails-Within_example =
    resolve_guardrails-Within guardrails (text "WORKSPACE_EDIT") (text "COMMAND_EXEC") edit_known
      exec_known not_refused
