-- ===== src/Policy/Roles.antt =====
-- The roles of src/agent-role.ts: upper bounds on the mode of a run, and the command categories that a
-- role gives up. A table of the source is read by `object[key]`, which also finds what every object
-- inherits.
pub mod Modes
pub mod Exec
pub mod Lookup
pub mod Custom
pub mod Resolved
pub mod Guardrails
use code_fleet.Prelude.{
  ℕ, Bool, true, false, not, ◌&&◌, Option, none, some, List, [], ◌∷◌, ◌++◌, Text, text, ◌==◌, elem,
  all, keep, text_lt, sort_by, ℤ, pos, negsuc, ltb_ℤ, Result, ok, err, ◌>>=◌, if◌then◌else◌,
}
use code_fleet.Prelude.Json.{
  Json, null, boolean, number, string, array, object, Items, no_items, item, Fields, keys_of, get,
}

-- A property that was found: the object's own, or one of `Object.prototype`.
pub data Property (A : Type 0) : Type 0 where
  own : (value : A) → Property A
  inherited : Property A

pub object_members : List Text
object_members =
    text "constructor"
    ∷ text "hasOwnProperty"
    ∷ text "isPrototypeOf"
    ∷ text "propertyIsEnumerable"
    ∷ text "toLocaleString"
    ∷ text "toString"
    ∷ text "valueOf"
    ∷ text "__defineGetter__"
    ∷ text "__defineSetter__"
    ∷ text "__lookupGetter__"
    ∷ text "__lookupSetter__"
    ∷ text "__proto__"
    ∷ []

-- `object[key]`, where `undefined` is none
pub lookup : {A : Type 0} → Text → List (Text × A) → Option (Property A)
unfolding object_members
lookup key [] = if elem object_members key then some inherited else none
lookup key ((k, a) ∷ rest) = if k == key then some (own a) else lookup key rest

abbrev pub core_destructive_categories : List Text
core_destructive_categories =
    text "INFRA_APPLY"
    ∷ text "INFRA_DESTROY"
    ∷ text "CLOUD_RESOURCE_MUTATION"
    ∷ text "SERVICE_LIFECYCLE"
    ∷ text "DEPLOYMENT_MUTATION"
    ∷ text "DATA_DESTRUCTION"
    ∷ text "VCS_HISTORY_REWRITE"
    ∷ []

pub record AgentRole : Type 0 where
  pub default_max_mode : Text
  pub denied_command_categories : List Text
  pub role_guidance : Text

abbrev pub agent_role_fields : List Text
agent_role_fields =
    text "defaultMaxMode" ∷ text "deniedCommandCategories" ∷ text "roleGuidance" ∷ []

abbrev role_of : Text → List Text → Text → AgentRole
role_of mode denied guidance = record {
  default_max_mode = mode;
  denied_command_categories = denied;
  role_guidance = guidance;
}

pub core_agent_roles : List (Text × AgentRole)
core_agent_roles =
    (
      text "BACKEND_IMPLEMENTER",
      role_of (text "WORKSPACE_EDIT") (text "INFRA_APPLY" ∷ text "CLOUD_RESOURCE_MUTATION" ∷ []) [],
    )
    ∷ (text "BACKEND_REVIEWER", role_of (text "SUGGEST_ONLY") [] [])
    ∷ (
      text "BACKEND_REFACTORER",
      role_of (text "WORKSPACE_EDIT") (text "INFRA_APPLY" ∷ text "CLOUD_RESOURCE_MUTATION" ∷ []) (
          text
            "Do not change behaviour outside the Task scope, and do not change a public API contract that was not explicitly scoped."),
    )
    ∷ (
      text "INFRA_OPERATOR",
      role_of (text "COMMAND_EXEC") (text "SERVICE_LIFECYCLE" ∷ text "DEPLOYMENT_MUTATION" ∷ []) [],
    )
    ∷ (text "INFRA_DEBUGGER", role_of (text "SUGGEST_ONLY") [] [])
    ∷ (
      text "IAC_ENGINEER",
      role_of (text "COMMAND_EXEC")
          (text "INFRA_APPLY" ∷ text "INFRA_DESTROY" ∷ text "CLOUD_RESOURCE_MUTATION" ∷ []) [],
    )
    ∷ (
      text "DOCS_WRITER",
      role_of (text "WORKSPACE_EDIT")
          (text "INFRA_APPLY" ∷ text "CLOUD_RESOURCE_MUTATION" ∷ text "SERVICE_LIFECYCLE" ∷ [])
          (text "Do not modify source files that are not documentation."),
    )
    ∷ []

abbrev pub harness_modes : List Text
harness_modes =
    text "DRY_RUN" ∷ text "SUGGEST_ONLY" ∷ text "WORKSPACE_EDIT" ∷ text "COMMAND_EXEC" ∷ []

abbrev pub mode_ranks : List (Text × ℕ)
mode_ranks =
    (text "DRY_RUN", 0)
    ∷ (text "SUGGEST_ONLY", 1)
    ∷ (text "WORKSPACE_EDIT", 2)
    ∷ (text "COMMAND_EXEC", 3)
    ∷ []

-- A rank as a comparison reads it: an inherited method is not a number.
pub data Rank : Type 0 where
  rank : (value : ℤ) → Rank
  not_a_number : Rank

-- `modeRank(mode)`
pub mode_rank : Text → Rank
mode_rank mode = elim (lookup mode mode_ranks) [
  | none ↦ rank (negsuc 0)
  | some property ↦ elim property [ own n ↦ rank (pos n) | inherited ↦ not_a_number ]
]

-- `<=` and `>`
pub at_most : Rank → Rank → Bool
at_most (rank a) (rank b) = not (ltb_ℤ b a)
at_most _ _ = false

pub exceeds : Rank → Rank → Bool
exceeds (rank a) (rank b) = ltb_ℤ b a
exceeds _ _ = false

-- `meetMode(a, b)`
pub meet_mode : Text → Text → Text
meet_mode a b = if at_most (mode_rank a) (mode_rank b) then a else b
