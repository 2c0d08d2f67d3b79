-- ===== src/Workflow/Capability.antt =====
-- The capability policy of src/workflow/capability-policy.mjs: what each kind of work needs, and
-- whether a policy envelope admits an item. The coordinator evaluates it; an agent's claim has no part
-- in it.
pub mod Admission
mod Tests
use code_fleet.Prelude.{
  ℕ, Bool, true, false, not, ◌&&◌, ◌||◌, Option, none, some, List, [], ◌∷◌, ◌++◌, Text, text, ◌==◌,
  keep, length, nat_eq, if◌then◌else◌,
}

-- `WORK_KINDS`
unfoldable pub work_kind : Text → Option (List Text)
work_kind kind =
    if kind == text "planning"
    then some []
    else if kind == text "analysis"
    then some (text "host-read" ∷ [])
    else if kind == text "local-edit"
    then some (text "scoped-write" ∷ [])
    else if kind == text "local-verification"
    then some (text "trusted-local-command" ∷ [])
    else if kind == text "isolated-execution"
    then some
        (text "filesystem-restriction" ∷ text "network-restriction" ∷ text "resource-limits" ∷ [])
    else if kind == text "protected-verification"
    then some (text "protected-verifier" ∷ text "protected-evidence" ∷ text "protected-inputs" ∷ [])
    else if kind == text "external-effect" || kind == text "risky-action"
    then some (text "effect-enforcement" ∷ text "authenticated-approval" ∷ [])
    else none

abbrev pub is_risky : Text → Bool
is_risky kind = kind == text "external-effect" || kind == text "risky-action"

-- What is missing; `status` is AVAILABLE when nothing is.
unfoldable pub evaluate_work_item : Text → (Text → Bool) → Bool → List Text
evaluate_work_item kind capabilities authorized = elim (work_kind kind) [
  | none ↦ text "unknown-work-kind" ∷ []
  | some needed ↦
      keep (λ c. not (capabilities c)) needed
      ++ (if is_risky kind && not authorized then text "current-action-approval" ∷ [] else [])
]

abbrev pub is_available : List Text → Bool
is_available missing = nat_eq (length missing) 0

pub record Policy : Type 0 where
  pub workflow_hash : Text
  pub revision : ℕ
  pub items : Text → Option Text  -- the kind in the rule of each item
  pub capabilities : Text → Bool

-- `policyAdmission(run, itemId, policy)`, of the run's contract hash and revision
unfoldable pub policy_admission : Text → ℕ → Text → Option Policy → List Text
policy_admission contract_hash revision item_id none = []
policy_admission contract_hash revision item_id (some p) =
    if not (p.workflow_hash == contract_hash) || not (nat_eq p.revision revision)
    then text "stale-policy-binding" ∷ []
    else elim (p.items item_id) [
      | none ↦ text "missing-work-item-policy" ∷ []
      | some kind ↦ evaluate_work_item kind p.capabilities false
    ]
