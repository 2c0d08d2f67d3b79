-- ===== src/Policy/Roles/Custom.antt =====
-- `validateCustomRole` of src/agent-role.ts, on a parsed value. A finding keeps what its text says as data.
pub mod Stages
pub mod Narrowing
mod Tests
use code_fleet.Prelude.{
  ℕ, Bool, true, false, not, ◌&&◌, Option, none, some, List, [], ◌∷◌, ◌++◌, Text, text, ◌==◌, elem,
  all, keep, text_lt, sort_by, ℤ, pos, negsuc, ltb_ℤ, Result, ok, err, ◌>>=◌, if◌then◌else◌,
}
use code_fleet.Prelude.Json.{
  Json, null, boolean, number, string, array, object, Items, no_items, item, Fields, keys_of, get,
}
use code_fleet.Policy.Roles.{
  Property, own, inherited, lookup, core_destructive_categories, AgentRole, agent_role_fields,
  core_agent_roles, harness_modes, mode_rank, exceeds, meet_mode,
}

pub data RoleProblem : Type 0 where
  not_an_object unknown_base unknown_mode exceeds_base not_categories guidance_not_text :
      RoleProblem
  unexpected_keys unknown_categories missing_categories : List Text → RoleProblem

pub record RoleFinding : Type 0 where
  pub json_pointer : Text
  pub problem : RoleProblem

pub finding : Text → RoleProblem → List RoleFinding
finding pointer problem = record { json_pointer = pointer; problem = problem } ∷ []

-- A finding that lists names, if there are any
pub listed : Text → (List Text → RoleProblem) → List Text → List RoleFinding
unfolding finding
listed pointer problem [] = []
listed pointer problem (n ∷ ns) = finding pointer (problem (n ∷ ns))

pub unexpected_findings : Text → Fields → List RoleFinding
unfolding listed
unexpected_findings pointer role =
    listed pointer unexpected_keys
      (keep (λ k. not (elem (agent_role_fields ++ text "baseRole" ∷ []) k)) (keys_of role))

pub mode_findings : Text → Text → Option Json → List RoleFinding
unfolding finding
mode_findings pointer base_mode (some (string max_mode)) =
    if not (elem harness_modes max_mode)
    then finding (pointer ++ text "/defaultMaxMode") unknown_mode
    else if exceeds (mode_rank max_mode) (mode_rank base_mode)
    then finding (pointer ++ text "/defaultMaxMode") exceeds_base
    else []
mode_findings pointer base_mode _ = finding (pointer ++ text "/defaultMaxMode") unknown_mode

-- The elements, if all are strings
pub strings_of : Items → Option (List Text)
strings_of no_items = some []
strings_of (item (string s) js) = elim (strings_of js) [ none ↦ none | some rest ↦ some (s ∷ rest) ]
strings_of (item _ js) = none

pub data TypeError : Type 0 where
  type_error : TypeError

pub categories_of : Option Json → Option (List Text)
unfolding strings_of
categories_of (some (array js)) = strings_of js
categories_of _ = none

-- `base.deniedCommandCategories` is none for an inherited base: `filter` of it throws.
pub denied_findings : Text → Option (List Text) → Option Json → Result TypeError (List RoleFinding)
unfolding finding listed categories_of
denied_findings pointer base given =
    let at = pointer ++ text "/deniedCommandCategories" in
    elim (categories_of given) [
      | none ↦ ok (finding at not_categories)
      | some denied ↦ elim base [
        | none ↦ err type_error
        | some required ↦ ok (
            listed at unknown_categories
              (keep (λ c. not (elem core_destructive_categories c)) denied)
            ++ listed at missing_categories (keep (λ c. not (elem denied c)) required))
      ]
    ]

pub guidance_findings : Text → Option Json → List RoleFinding
unfolding finding
guidance_findings pointer none = []
guidance_findings pointer (some (string s)) = []
guidance_findings pointer (some _) = finding (pointer ++ text "/roleGuidance") guidance_not_text

-- The fields of `base`, of which an inherited one has neither: `modeRank(undefined)` reads the key
-- "undefined".
pub base_mode : Property AgentRole → Text
base_mode (own role) = role.default_max_mode
base_mode inherited = text "undefined"

pub base_denied : Property AgentRole → Option (List Text)
base_denied (own role) = some role.denied_command_categories
base_denied inherited = none

pub base_of : Option Json → Option (Property AgentRole)
base_of (some (string bases)) = lookup bases core_agent_roles
base_of _ = none

-- `validateCustomRole(roleId, value, pointer)`, which does not read roleId.
pub validate_custom_role : Json → Text → Result TypeError (List RoleFinding)
unfolding finding base_of
validate_custom_role (object role) pointer = elim (base_of (get (text "baseRole") role)) [
  | none ↦
      ok (unexpected_findings pointer role ++ finding (pointer ++ text "/baseRole") unknown_base)
  | some base ↦
      denied_findings pointer (base_denied base) (get (text "deniedCommandCategories") role)
      >>= λ denied. ok (
          unexpected_findings pointer role
          ++ (mode_findings pointer (base_mode base) (get (text "defaultMaxMode") role)
              ++ (denied ++ guidance_findings pointer (get (text "roleGuidance") role))))
]
validate_custom_role _ pointer = ok (finding pointer not_an_object)
