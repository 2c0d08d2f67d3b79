-- ===== src/Workflow/Capability/Tests.antt =====
-- The capability policy on small envelopes.
use code_fleet.Prelude.{◌≡◌, refl, Bool, true, some, [], ◌∷◌, Text, text, ◌==◌, if◌then◌else◌}
use code_fleet.Workflow.Capability.{
  work_kind, evaluate_work_item, is_available, Policy, policy_admission,
}
use code_fleet.Workflow.Capability.Admission.{IsAdmitted, policy_admission-IsAdmitted}

abbrev everything : Text → Bool
everything c = true

abbrev policy : Policy
policy = record {
  workflow_hash = text "h";
  revision = 2;
  items = λ k. if k == text "a" then some (text "local-edit") else some (text "risky-action");
  capabilities = everything;
}

admission-risky :
    policy_admission (text "h") 2 (text "b") (some policy) ≡ text "current-action-approval" ∷ []
unfolding policy_admission evaluate_work_item work_kind ◌==◌
admission-risky = refl

admission-stale :
    policy_admission (text "h") 3 (text "a") (some policy) ≡ text "stale-policy-binding" ∷ []
unfolding policy_admission ◌==◌
admission-stale = refl

admission-edit : is_available (policy_admission (text "h") 2 (text "a") (some policy)) ≡ true
unfolding policy_admission evaluate_work_item work_kind ◌==◌
admission-edit = refl

policy_admission-IsAdmitted_example : IsAdmitted (text "h") 2 (text "a") policy
policy_admission-IsAdmitted_example =
    policy_admission-IsAdmitted (text "h") 2 (text "a") policy admission-edit
