-- ===== src/Task/Feasibility.antt =====
-- contractFeasibility of src/task-ledger.ts: whether a task could run at all, by the role that it resolves
-- to and the modes of the profile. The fields of the profile and of the task are arguments.
mod Tests
use code_fleet.Prelude.{
  ◌≡◌, ◌≢◌, ◌⊎◌, ◌↔◌, refl, inl, inr, Bool, true, false, Option, none, some, List, [], ◌∷◌, Text,
  text, Option-cases, elem, arith, if◌then◌else◌,
}
use code_fleet.Policy.Roles.{Property, AgentRole, mode_rank, at_most, meet_mode, harness_modes}
use code_fleet.Policy.Roles.Exec.{exec_meet_iff}
use code_fleet.Policy.Roles.Custom.{base_mode}
use code_fleet.Policy.Roles.Resolved.{
  CustomRole, RoleBlock, RoleResolution, resolve_agent_role, Resolves, resolve_agent_role_iff,
  resolved-unblocked,
}

pub data Infeasible : Type 0 where
  role_blocked : RoleBlock → Infeasible
  role_missing : Infeasible
  below_command_exec : Text → Infeasible

-- `task.agentRole ?? config.defaultAgentRole`
abbrev pub role_or_default : Option Text → Option Text → Option Text
role_or_default none default = default
role_or_default (some role) default = some role

-- The end of `contractFeasibility`, with a role
pub ceiling_of : Text → Property AgentRole → Text
ceiling_of harness_mode role = meet_mode harness_mode (base_mode role)

pub feasible_with : List Text → Text → Property AgentRole → Option Infeasible
feasible_with [] harness_mode role = none
feasible_with (command ∷ commands) harness_mode role =
    if at_most (mode_rank (text "COMMAND_EXEC")) (mode_rank (ceiling_of harness_mode role))
    then none
    else some (below_command_exec (ceiling_of harness_mode role))

pub feasible_of : RoleResolution → List Text → Text → Option Infeasible
feasible_of resolution commands harness_mode = elim resolution.blocked_reason [
  | some block ↦ some (role_blocked block)
  | none ↦ elim resolution.resolved_role [
    | none ↦ some role_missing
    | some role ↦ feasible_with commands harness_mode role
  ]
]

-- `contractFeasibility`: what stands in the way, or none if the contract is feasible.
pub contract_feasibility :
    (task_role default_role : Option Text)
    → List Text
    → List (Text × CustomRole)
    → (commands : List Text) → (harness_mode : Text) → Option Infeasible
contract_feasibility task_role default_role allowed custom_roles commands harness_mode =
    feasible_of (resolve_agent_role (role_or_default task_role default_role) allowed custom_roles)
      commands harness_mode

-- A contract without commands needs nothing; for one with commands, the mode of the profile and that of
-- the role are both COMMAND_EXEC.
abbrev pub Runs : List Text → Text → Property AgentRole → Type 0
Runs commands harness_mode role =
    (commands ≡ [])
    ⊎ ((harness_mode ≡ text "COMMAND_EXEC") × (base_mode role ≡ text "COMMAND_EXEC"))

feasible_with_iff :
    (commands : List Text) (harness_mode : Text) (role : Property AgentRole)
    → elem harness_modes harness_mode ≡ true
    → (feasible_with commands harness_mode role ≡ none) ↔ Runs commands harness_mode role
unfolding feasible_with ceiling_of
feasible_with_iff [] harness_mode role k = (λ h. inl refl, λ h. refl)
feasible_with_iff (c ∷ cs) harness_mode role k =
    let (to, from) = exec_meet_iff harness_mode (base_mode role) k in
    (
      λ h. inr (to (ground arith)),
      λ h. elim h [ inl empty ↦ cc | inr reached ↦ let r = from reached in ground arith ],
    )

feasible_of-role :
    (resolution : RoleResolution) (commands : List Text) (harness_mode : Text)
    → feasible_of resolution commands harness_mode ≡ none
    → (role : Property AgentRole) × (resolution.resolved_role ≡ some role)
      × (feasible_with commands harness_mode role ≡ none)
unfolding feasible_of
feasible_of-role resolution commands harness_mode h =
    elim (Option-cases resolution.blocked_reason) [
      | inr (b, e) ↦ absurd (ground arith)
      | inl free ↦ elim (Option-cases resolution.resolved_role) [
        | inl absent ↦ absurd (ground arith)
        | inr (role, e) ↦ (role, e, ground arith)
      ]
    ]

role-feasible_of :
    (resolution : RoleResolution) (commands : List Text) (harness_mode : Text)
    (role : Property AgentRole)
    → resolution.blocked_reason ≡ none
    → resolution.resolved_role ≡ some role
    → feasible_with commands harness_mode role ≡ none
    → feasible_of resolution commands harness_mode ≡ none
unfolding feasible_of
role-feasible_of resolution commands harness_mode role a b c = ground arith

resolution_iff :
    (given : Option Text) (allowed : List Text) (custom_roles : List (Text × CustomRole))
    (commands : List Text) (harness_mode : Text)
    → elem harness_modes harness_mode ≡ true
    → (feasible_of (resolve_agent_role given allowed custom_roles) commands harness_mode ≡ none) ↔ (
        (role : Property AgentRole) × (Resolves given allowed custom_roles role
          × Runs commands harness_mode role))
resolution_iff given allowed custom_roles commands harness_mode k =
    let resolution = resolve_agent_role given allowed custom_roles in
    (
      λ h.
          let (role, e, f) = feasible_of-role resolution commands harness_mode h in
          (
            role,
            (
              (resolve_agent_role_iff given allowed custom_roles role).0 e,
              (feasible_with_iff commands harness_mode role k).0 f,
            ),
          ),
      λ f.
          let (role, (r, c)) = f in
          let e = (resolve_agent_role_iff given allowed custom_roles role).1 r in
          role-feasible_of resolution commands harness_mode role
            (resolved-unblocked given allowed custom_roles role e) e
            ((feasible_with_iff commands harness_mode role k).1 c),
    )

-- When the mode of the profile is a mode of the harness, a contract is feasible exactly when the role of
-- the task, or else the default one, resolves to a role, and it has no verification commands or the
-- mode of the profile and that of the role are both COMMAND_EXEC.
pub contract_feasibility_iff :
    (task_role default_role : Option Text) (allowed : List Text)
    (custom_roles : List (Text × CustomRole)) (commands : List Text) (harness_mode : Text)
    → elem harness_modes harness_mode ≡ true
    → (contract_feasibility task_role default_role allowed custom_roles commands harness_mode
        ≡ none)
      ↔ ((role : Property AgentRole) × (Resolves
              (role_or_default task_role default_role)
              allowed
              custom_roles
              role
            × Runs commands harness_mode role))
unfolding contract_feasibility
contract_feasibility_iff none default_role allowed custom_roles commands harness_mode known =
    resolution_iff default_role allowed custom_roles commands harness_mode known
contract_feasibility_iff (some name) default_role allowed custom_roles commands harness_mode known =
    resolution_iff (some name) allowed custom_roles commands harness_mode known
