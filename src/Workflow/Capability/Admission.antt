-- ===== src/Workflow/Capability/Admission.antt =====
-- What an admission by a policy envelope guarantees.
use code_fleet.Prelude.{
  ℕ, ◌≡◌, refl, inl, inr, Bool, true, false, not, ◌&&◌, some, List, [], ◌∷◌, Text, text, ==_iff,
  all, keep, length, length-append, Option-cases, if◌then◌else◌, arith,
}
use code_fleet.Workflow.Capability.{
  work_kind, is_risky, evaluate_work_item, is_available, Policy, policy_admission,
}

all-none_kept :
    (p : Text → Bool) (xs : List Text) → length (keep (λ c. not (p c)) xs) ≡ 0 → all p xs ≡ true
all-none_kept p [] h = refl
all-none_kept p (x ∷ xs) h = ground (arith, all-none_kept p xs)

-- The kind of work, what it needs, and that all of it is there.
pub record Supplied (kind : Text) (capabilities : Text → Bool) (authorized : Bool) : Type 0 where
  pub needed : List Text
  pub known : work_kind kind ≡ some needed
  pub has_all : all capabilities needed ≡ true
  pub approved : is_risky kind ≡ true → authorized ≡ true

evaluate_work_item-Supplied :
    (kind : Text) (capabilities : Text → Bool) (authorized : Bool)
    → is_available (evaluate_work_item kind capabilities authorized) ≡ true
    → Supplied kind capabilities authorized
unfolding evaluate_work_item
evaluate_work_item-Supplied kind capabilities authorized h = elim (Option-cases (work_kind kind)) [
  | inl unknown ↦ absurd (ground arith)
  | inr (needed, known) ↦
      let approval =
        if is_risky kind && not authorized then text "current-action-approval" ∷ [] else [] in
      let sum = length-append (keep (λ c. not (capabilities c)) needed) approval in
      record {
        needed = needed;
        known = known;
        has_all = all-none_kept capabilities needed (ground (arith, sum));
        approved = λ risky. ground (arith, sum);
      }
]

-- The envelope is bound to this workflow and revision and has a rule for the item, of a kind whose
-- needs it supplies and that is neither an external effect nor a risky action.
pub record IsAdmitted (contract_hash : Text) (revision : ℕ) (item_id : Text) (p : Policy)
    : Type 0 where
  pub same_workflow : p.workflow_hash ≡ contract_hash
  pub same_revision : p.revision ≡ revision
  pub kind : Text
  pub rule : p.items item_id ≡ some kind
  pub supplied : Supplied kind p.capabilities false
  pub not_risky : is_risky kind ≡ false

-- A policy envelope admits an item only if it is bound to the workflow and its revision and has a rule
-- for the item, of a known kind that is not risky and whose needs are all supplied.
pub policy_admission-IsAdmitted :
    (contract_hash : Text) (revision : ℕ) (item_id : Text) (p : Policy)
    → is_available (policy_admission contract_hash revision item_id (some p)) ≡ true
    → IsAdmitted contract_hash revision item_id p
unfolding policy_admission
policy_admission-IsAdmitted contract_hash revision item_id p h =
    elim (Option-cases (p.items item_id)) [
      | inl missing ↦ absurd (ground arith)
      | inr (kind, rule) ↦
          let supplied = evaluate_work_item-Supplied kind p.capabilities false (ground arith) in
          record {
            same_workflow = (==_iff p.workflow_hash contract_hash).0 (ground arith);
            same_revision = ground arith;
            kind = kind;
            rule = rule;
            supplied = supplied;
            not_risky = ground (arith, supplied.approved);
          }
    ]
