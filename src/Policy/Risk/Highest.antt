-- ===== src/Policy/Risk/Highest.antt =====
-- The highest level that the loop over the rules finds, and when it finds nothing unavailable.
use code_fleet.Prelude.{
  ◌+◌, ◌≤◌, ◌≡◌, ◌⊎◌, ◌↔◌, refl, sym, subst, ◌∙◌, inl, inr, Bool, true, false, Option, none, some,
  List, [], ◌∷◌, ◌++◌, Text, Bool-cases, All, Exists, append-nil_iff, ℤ, pos, pos_part, neg_part,
  ltb_ℤ, arith,
}
use code_fleet.Policy.Risk.{
  MatchTarget, RiskRule, RiskSubject, level_index, max_ℤ, Totals, scan_conditions, evaluate_rule,
  evaluate_rules, unavailable_of,
}
use code_fleet.Policy.Risk.Conditions.{Met, Settled, scan_conditions-Met, scan_conditions-Settled}

abbrev pub AtMost : ℤ → ℤ → Type 0
AtMost a b = pos_part a + neg_part b ≤ pos_part b + neg_part a

AtMost-trans : (a b c : ℤ) → AtMost a b → AtMost b c → AtMost a c
AtMost-trans a b c h k = omega arith

max-left : (a b : ℤ) → AtMost a (max_ℤ a b)
unfolding max_ℤ
max-left a b = elim (Bool-cases (ltb_ℤ a b)) [ inl less ↦ ground arith | inr other ↦ ground arith ]

max-right : (a b : ℤ) → AtMost b (max_ℤ a b)
unfolding max_ℤ
max-right a b = elim (Bool-cases (ltb_ℤ a b)) [ inl less ↦ ground arith | inr other ↦ ground arith ]

max-cases : (a b : ℤ) → (max_ℤ a b ≡ a) ⊎ (max_ℤ a b ≡ b)
unfolding max_ℤ
max-cases a b = elim (Bool-cases (ltb_ℤ a b)) [
  | inl less ↦ inr (ground arith)
  | inr other ↦ inl (ground arith)
]

module _ (to_lower : Text → Text) (same_number : Text → Text → Bool) where
  -- The rule contributes: every condition of it is met.
  abbrev pub Matches : RiskSubject → RiskRule → Type 0
  Matches subject rule = Met to_lower same_number subject rule.all_of

  -- A level that is none of the matched rules' or is one of them, and below none of them.
  pub record Peak (subject : RiskSubject) (start : ℤ) (rules : List RiskRule) (final : ℤ)
      : Type 0 where
    pub above : AtMost start final
    pub bounds : All (λ r. Matches subject r → AtMost (pos (level_index r.risk_level)) final) rules
    pub attained :
        (final ≡ start)
        ⊎ Exists (λ r. Matches subject r × (final ≡ pos (level_index r.risk_level))) rules

  matched_highest :
      (totals : Totals) (rule : RiskRule) (subject : RiskSubject)
      → (scan_conditions to_lower same_number rule.all_of subject).all_matched ≡ true
      → (evaluate_rule to_lower same_number totals rule subject).highest
        ≡ max_ℤ totals.highest (pos (level_index rule.risk_level))
  unfolding evaluate_rule
  matched_highest totals rule subject h = ground arith

  unmatched_highest :
      (totals : Totals) (rule : RiskRule) (subject : RiskSubject)
      → (scan_conditions to_lower same_number rule.all_of subject).all_matched ≡ false
      → (evaluate_rule to_lower same_number totals rule subject).highest ≡ totals.highest
  unfolding evaluate_rule
  unmatched_highest totals rule subject h = ground arith

  Peak-matched :
      (subject : RiskSubject) (start next : ℤ) (rule : RiskRule) (rules : List RiskRule) (final : ℤ)
      → Matches subject rule
      → next ≡ max_ℤ start (pos (level_index rule.risk_level))
      → Peak subject next rules final
      → Peak subject start (rule ∷ rules) final
  Peak-matched subject start next rule rules final m e peak =
      let i = pos (level_index rule.risk_level) in
      let left : AtMost start next = subst (AtMost start) (sym e) (max-left start i) in
      let right : AtMost i next = subst (AtMost i) (sym e) (max-right start i) in
      record {
        above = AtMost-trans start next final left peak.above;
        bounds = (λ k. AtMost-trans i next final right peak.above, peak.bounds);
        attained = elim peak.attained [
          | inr later ↦ inr (inr later)
          | inl same ↦ elim (max-cases start i) [
            | inl old ↦ inl (same ∙ e ∙ old)
            | inr new ↦ inr (inl (m, same ∙ e ∙ new))
          ]
        ];
      }

  Peak-unmatched :
      (subject : RiskSubject) (start next : ℤ) (rule : RiskRule) (rules : List RiskRule) (final : ℤ)
      → ¬ Matches subject rule
      → next ≡ start
      → Peak subject next rules final
      → Peak subject start (rule ∷ rules) final
  Peak-unmatched subject start next rule rules final off e peak = record {
    above = subst (λ z. AtMost z final) e peak.above;
    bounds = (λ m. absurd (off m), peak.bounds);
    attained = elim peak.attained [ inl same ↦ inl (same ∙ e) | inr later ↦ inr (inr later) ];
  }

  pub evaluate_rules-Peak :
      (totals : Totals) (rules : List RiskRule) (subject : RiskSubject)
      → Peak subject totals.highest rules
          ((evaluate_rules to_lower same_number totals rules subject).highest)
  unfolding evaluate_rules
  evaluate_rules-Peak totals [] subject = record {
    above = omega arith;
    bounds = tt;
    attained = inl refl;
  }
  evaluate_rules-Peak totals (r ∷ rs) subject =
      let next = evaluate_rule to_lower same_number totals r subject in
      let peak = evaluate_rules-Peak next rs subject in
      let final = (evaluate_rules to_lower same_number next rs subject).highest in
      let (to, from) = scan_conditions-Met to_lower same_number r.all_of subject in
      elim (Bool-cases ((scan_conditions to_lower same_number r.all_of subject).all_matched)) [
        | inl met ↦
            Peak-matched subject totals.highest next.highest r rs final (to met)
              (matched_highest totals r subject met) peak
        | inr unmet ↦
            Peak-unmatched subject totals.highest next.highest r rs final
              (λ m. let k = from m in cc) (unmatched_highest totals r subject unmet) peak
      ]

  rule_unavailable :
      (totals : Totals) (rule : RiskRule) (subject : RiskSubject)
      → (evaluate_rule to_lower same_number totals rule subject).unavailable_so_far
        ≡ totals.unavailable_so_far
          ++ unavailable_of rule.rule_id
              ((scan_conditions to_lower same_number rule.all_of subject).not_evaluable)
  unfolding evaluate_rule
  rule_unavailable totals rule subject =
      elim (Bool-cases ((scan_conditions to_lower same_number rule.all_of subject).all_matched)) [
        | inl met ↦ ground arith
        | inr unmet ↦ ground arith
      ]

  unavailable_of-nil :
      (id : Text) (o : Option MatchTarget) → (unavailable_of id o ≡ []) ↔ (o ≡ none)
  unfolding unavailable_of
  unavailable_of-nil id none = (λ h. refl, λ h. refl)
  unavailable_of-nil id (some target) = (λ h. cc, λ h. cc)

  rule-Settled :
      (totals : Totals) (rule : RiskRule) (subject : RiskSubject)
      → ((evaluate_rule to_lower same_number totals rule subject).unavailable_so_far ≡ [])
        ↔ ((totals.unavailable_so_far ≡ []) × Settled to_lower same_number subject rule.all_of)
  rule-Settled totals rule subject =
      let scan = scan_conditions to_lower same_number rule.all_of subject in
      let (nil_to, nil_from) = unavailable_of-nil rule.rule_id scan.not_evaluable in
      let (to, from) =
        append-nil_iff totals.unavailable_so_far (unavailable_of rule.rule_id scan.not_evaluable) in
      let (s_to, s_from) = scan_conditions-Settled to_lower same_number rule.all_of subject in
      let e = rule_unavailable totals rule subject in
      (
        λ h. let (a, b) = to (sym e ∙ h) in (a, s_to (nil_to b)),
        λ h. e ∙ from (h.0, nil_from (s_from h.1)),
      )

  -- Nothing is found unavailable exactly when nothing was before and every rule can be evaluated.
  pub evaluate_rules-Settled :
      (totals : Totals) (rules : List RiskRule) (subject : RiskSubject)
      → ((evaluate_rules to_lower same_number totals rules subject).unavailable_so_far ≡ []) ↔ (
          (totals.unavailable_so_far ≡ [])
          × All (λ r. Settled to_lower same_number subject r.all_of) rules)
  unfolding evaluate_rules
  evaluate_rules-Settled totals [] subject = (λ h. (h, tt), λ h. h.0)
  evaluate_rules-Settled totals (r ∷ rs) subject =
      let next = evaluate_rule to_lower same_number totals r subject in
      let (to, from) = evaluate_rules-Settled next rs subject in
      let (r_to, r_from) = rule-Settled totals r subject in
      (
        λ h. let (a, b) = to h in let (c, d) = r_to a in (c, (d, b)),
        λ h. let (a, (d, b)) = h in from (r_from (a, d), b),
      )
