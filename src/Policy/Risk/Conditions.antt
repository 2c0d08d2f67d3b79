-- ===== src/Policy/Risk/Conditions.antt =====
-- What the loop over the conditions of a rule finds.
use code_fleet.Prelude.{
  ◌≡◌, ◌⊎◌, ◌↔◌, refl, inl, inr, Bool, true, false, none, List, [], ◌∷◌, Text, All, arith,
}
use code_fleet.Policy.Risk.{
  RiskCondition, RiskSubject, Outcome, decided, unavailable, evaluate_condition, scan_conditions,
}

pub Outcome-cases : (o : Outcome) → ((o ≡ decided true) ⊎ (o ≡ decided false)) ⊎ (o ≡ unavailable)
Outcome-cases (decided true) = inl (inl refl)
Outcome-cases (decided false) = inl (inr refl)
Outcome-cases unavailable = inr refl

module _ (to_lower : Text → Text) (same_number : Text → Text → Bool) where
  -- Every condition is met.
  abbrev pub Met : RiskSubject → List RiskCondition → Type 0
  Met subject conditions =
      All (λ c. evaluate_condition to_lower same_number c subject ≡ decided true) conditions

  -- The conditions can be evaluated up to the first that is not met.
  abbrev pub Settled : RiskSubject → List RiskCondition → Type 0
  Settled subject [] = Unit
  Settled subject (c ∷ cs) =
      (evaluate_condition to_lower same_number c subject ≡ decided false)
      ⊎ ((evaluate_condition to_lower same_number c subject ≡ decided true) × Settled subject cs)

  pub scan_conditions-Met :
      (conditions : List RiskCondition) (subject : RiskSubject)
      → ((scan_conditions to_lower same_number conditions subject).all_matched ≡ true)
        ↔ Met subject conditions
  unfolding scan_conditions
  scan_conditions-Met [] subject = (λ h. tt, λ h. refl)
  scan_conditions-Met (c ∷ cs) subject =
      let (to, from) = scan_conditions-Met cs subject in
      elim (Outcome-cases (evaluate_condition to_lower same_number c subject)) [
        | inl (inl met) ↦ (λ h. (met, to (ground arith)), λ h. let k = from h.1 in ground arith)
        | inl (inr failed) ↦ (λ h. absurd (ground arith), λ h. let k = h.0 in absurd (ground arith))
        | inr absent ↦ (λ h. absurd (ground arith), λ h. let k = h.0 in absurd (ground arith))
      ]

  pub scan_conditions-Settled :
      (conditions : List RiskCondition) (subject : RiskSubject)
      → ((scan_conditions to_lower same_number conditions subject).not_evaluable ≡ none)
        ↔ Settled subject conditions
  unfolding scan_conditions
  scan_conditions-Settled [] subject = (λ h. tt, λ h. refl)
  scan_conditions-Settled (c ∷ cs) subject =
      let (to, from) = scan_conditions-Settled cs subject in
      elim (Outcome-cases (evaluate_condition to_lower same_number c subject)) [
        | inl (inl met) ↦ (
          λ h. inr (met, to (ground arith)),
          λ h. elim h [
            | inl failed ↦ absurd (ground arith)
            | inr (m, rest) ↦ let k = from rest in ground arith
          ],
        )
        | inl (inr failed) ↦ (λ h. inl failed, λ h. ground arith)
        | inr absent ↦ (
          λ h. absurd (ground arith),
          λ h. elim h [
            | inl failed ↦ absurd (ground arith)
            | inr (m, rest) ↦ absurd (ground arith)
          ],
        )
      ]
