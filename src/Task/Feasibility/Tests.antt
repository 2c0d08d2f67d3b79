-- ===== src/Task/Feasibility/Tests.antt =====
-- A contract with a command, under a role that may not run it.
use code_fleet.Prelude.{◌≡◌, ◌↔◌, refl, true, elem, ◌==◌, none, some, [], ◌∷◌, text}
use code_fleet.Policy.Roles.{AgentRole, Property, harness_modes}
use code_fleet.Policy.Roles.Resolved.{Resolves}
use code_fleet.Task.Feasibility.{
  contract_feasibility, Runs, role_or_default, contract_feasibility_iff,
}

exec_known : elem harness_modes (text "COMMAND_EXEC") ≡ true
unfolding elem ◌==◌
exec_known = refl

contract_feasibility_iff_example :
    (contract_feasibility none
        (some (text "BACKEND_IMPLEMENTER"))
        []
        []
        (text "npm test" ∷ [])
        (text "COMMAND_EXEC")
      ≡ none)
    ↔ ((role : Property AgentRole) × (Resolves
            (role_or_default none (some (text "BACKEND_IMPLEMENTER")))
            []
            []
            role
          × Runs (text "npm test" ∷ []) (text "COMMAND_EXEC") role))
contract_feasibility_iff_example =
    contract_feasibility_iff none (some (text "BACKEND_IMPLEMENTER")) [] [] (text "npm test" ∷ [])
      (text "COMMAND_EXEC") exec_known
