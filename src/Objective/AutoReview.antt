-- ===== src/Objective/AutoReview.antt =====
-- The automatic review of src/auto-review.ts: `evaluateAutoReview`, which lets the system's own policy
-- accept a result, and what the ledger's actor gate makes of it.
use code_fleet.Prelude.{
  ℕ, ◌≡◌, Bool, true, false, not, ◌||◌, List, [], ◌∷◌, Text, text, ◌==◌, ==_iff, elem, length,
  nat_eq, if◌then◌else◌, arith,
}
use code_fleet.Objective.{system_policy, actor_satisfies}

pub record Input : Type 0 where
  pub auto_advance_on_done : Bool
  pub allowed_actors : List Text
  pub explicit : Bool
  pub normalized_result : Text
  pub verification_gate_result : Text
  pub computed_risk : Text
  pub normalization_status : Text
  pub evidence_completeness : Text
  pub capability_gaps : ℕ
  pub evidence_defects : ℕ
  pub blocking_findings : ℕ
  pub unresolved_required_fields : ℕ
  pub blocking_needs_review : ℕ
  pub bundle_ref : Text
  pub bundle_hash : Text

pub data Blocked : Type 0 where
  auto_advance_not_enabled policy_not_allowed requires_explicit_decision result_not_done : Blocked
  gate_not_satisfied risk_not_low risk_unknown findings_block fields_unresolved : Blocked
  review_needed normalization_incomplete capability_gap evidence_defect : Blocked
  evidence_incomplete bundle_ref_missing bundle_hash_missing : Blocked

-- `AUTO_ACCEPT_BASIS`
abbrev auto_accept_basis : Text
auto_accept_basis = text "SYSTEM_POLICY_AUTO_ACCEPT"

-- The conditions in the order of the source, each with its reason.
conditions : Input → List (Bool × Blocked)
conditions i =
    (i.auto_advance_on_done, auto_advance_not_enabled)
    ∷ (elem i.allowed_actors system_policy, policy_not_allowed)
    ∷ (not i.explicit, requires_explicit_decision)
    ∷ (i.normalized_result == text "DONE", result_not_done)
    ∷ (
      i.verification_gate_result == text "SATISFIED"
          || i.verification_gate_result == text "WAIVED_ALLOWED",
      gate_not_satisfied,
    )
    ∷ (i.computed_risk == text "LOW", risk_not_low)
    ∷ (not (i.computed_risk == text "UNKNOWN"), risk_unknown)
    ∷ (nat_eq i.blocking_findings 0, findings_block)
    ∷ (nat_eq i.unresolved_required_fields 0, fields_unresolved)
    ∷ (nat_eq i.blocking_needs_review 0, review_needed)
    ∷ (i.normalization_status == text "COMPLETE", normalization_incomplete)
    ∷ (nat_eq i.capability_gaps 0, capability_gap)
    ∷ (nat_eq i.evidence_defects 0, evidence_defect)
    ∷ (i.evidence_completeness == text "COMPLETE", evidence_incomplete)
    ∷ (not (i.bundle_ref == []), bundle_ref_missing)
    ∷ (not (i.bundle_hash == []), bundle_hash_missing)
    ∷ []

-- `check` pushes the reason of a condition that fails.
failing : List (Bool × Blocked) → List Blocked
failing [] = []
failing ((ok, reason) ∷ cs) = let rest = failing cs in if ok then rest else reason ∷ rest

-- `blockedReasons` of `evaluateAutoReview`
unfoldable pub blocked_reasons : Input → List Blocked
unfolding conditions failing
blocked_reasons i = failing (conditions i)

abbrev pub is_allowed : Input → Bool
is_allowed i = nat_eq (length (blocked_reasons i)) 0

-- An automatic acceptance is a decision that the ledger's actor gate lets take effect, on a result
-- that is DONE, a gate that is satisfied or waived, a low risk, complete evidence and a frozen bundle.
pub record Accepts (i : Input) : Type 0 where
  pub effective : actor_satisfies system_policy auto_accept_basis i.allowed_actors ≡ true
  pub not_explicit : i.explicit ≡ false
  pub is_done : i.normalized_result ≡ text "DONE"
  pub gate :
      (i.verification_gate_result == text "SATISFIED"
        || i.verification_gate_result == text "WAIVED_ALLOWED")
      ≡ true
  pub low_risk : i.computed_risk ≡ text "LOW"
  pub no_findings : i.blocking_findings ≡ 0
  pub no_gaps : i.capability_gaps ≡ 0
  pub no_defects : i.evidence_defects ≡ 0
  pub complete : i.evidence_completeness ≡ text "COMPLETE"
  pub frozen : i.bundle_hash == [] ≡ false

policy_actor :
    (allowed : List Text)
    → elem allowed system_policy ≡ true
    → actor_satisfies system_policy auto_accept_basis allowed ≡ true
unfolding actor_satisfies ◌==◌
policy_actor allowed h = ground arith

-- An automatic review that is not blocked accepts only a result that is DONE, with a gate satisfied or
-- waived, low risk, no blocking finding, no gap or defect, complete evidence and a frozen bundle, where
-- no explicit decision is required; and the ledger's actor gate lets its decision take effect.
pub is_allowed-Accepts : (i : Input) → is_allowed i ≡ true → Accepts i
unfolding blocked_reasons
is_allowed-Accepts i h = record {
  effective = policy_actor i.allowed_actors (ground arith);
  not_explicit = ground arith;
  is_done = (==_iff i.normalized_result (text "DONE")).0 (ground arith);
  gate = ground arith;
  low_risk = (==_iff i.computed_risk (text "LOW")).0 (ground arith);
  no_findings = ground arith;
  no_gaps = ground arith;
  no_defects = ground arith;
  complete = (==_iff i.evidence_completeness (text "COMPLETE")).0 (ground arith);
  frozen = ground arith;
}
