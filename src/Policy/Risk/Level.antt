-- ===== src/Policy/Risk/Level.antt =====
-- The level that `evaluateRisk` computes.
use code_fleet.Prelude.{
  ℕ, ◌≤◌, ◌≡◌, ◌≢◌, ◌⊎◌, ◌↔◌, refl, sym, subst, ap, ◌∙◌, inl, inr, Bool, true, false, List, [], ◌∷◌,
  Text, All, All-map, Exists, List-cases, length, ℤ, pos, negsuc, arith,
}
use code_fleet.Policy.Risk.{
  RiskLevel, low, medium, high, ComputedRisk, computed, unknown, RiskRule, RiskSubject,
  UnavailableReason, level_index, level_at, Totals, missing_inputs, evaluate_rules, evaluation_of,
  evaluate_risk,
}
use code_fleet.Policy.Risk.Conditions.{Settled}
use code_fleet.Policy.Risk.Highest.{
  AtMost, Matches, Peak, evaluate_rules-Peak, evaluate_rules-Settled,
}

ℤ-cases : (z : ℤ) → ((n : ℕ) × (z ≡ pos n)) ⊎ ((n : ℕ) × (z ≡ negsuc n))
ℤ-cases (pos n) = inl (n, refl)
ℤ-cases (negsuc n) = inr (n, refl)

level_at-level_index : (l : RiskLevel) → level_at (level_index l) ≡ l
unfolding level_at
level_at-level_index low = refl
level_at-level_index medium = refl
level_at-level_index high = refl

missing_inputs-nil :
    (rules : List RiskRule) (evidence : Bool)
    → (missing_inputs rules evidence ≡ []) ↔ ((evidence ≡ true) × (rules ≢ []))
unfolding missing_inputs
missing_inputs-nil [] true = (λ h. cc, λ h. absurd (h.1 refl))
missing_inputs-nil [] false = (λ h. cc, λ h. cc)
missing_inputs-nil (r ∷ rs) true = (λ h. (refl, λ e. cc), λ h. refl)
missing_inputs-nil (r ∷ rs) false = (λ h. cc, λ h. cc)

evaluation_of-unknown :
    (count : ℕ) (totals : Totals) (r : UnavailableReason) (rs : List UnavailableReason)
    → totals.unavailable_so_far ≡ r ∷ rs
    → (evaluation_of count totals).level ≡ unknown
unfolding evaluation_of
evaluation_of-unknown count totals r rs h = ground arith

evaluation_of-pos :
    (count : ℕ) (totals : Totals) (l : RiskLevel)
    → totals.unavailable_so_far ≡ []
    → totals.highest ≡ pos (level_index l)
    → (evaluation_of count totals).level ≡ computed (level_at (level_index l))
unfolding evaluation_of
evaluation_of-pos count totals l h e = ground arith

evaluation_of-negsuc :
    (count : ℕ) (totals : Totals) (n : ℕ)
    → totals.unavailable_so_far ≡ []
    → totals.highest ≡ negsuc n
    → (evaluation_of count totals).level ≡ computed low
unfolding evaluation_of
evaluation_of-negsuc count totals n h e = ground arith

below : (i n : ℕ) (final : ℤ) → final ≡ pos n → AtMost (pos i) final → i ≤ n
below i n final e h = let k : AtMost (pos i) (pos n) = subst (AtMost (pos i)) e h in omega arith

never_below : (i : ℕ) (final : ℤ) → final ≡ negsuc 0 → ¬ AtMost (pos i) final
never_below i final e h =
    let k : AtMost (pos i) (negsuc 0) = subst (AtMost (pos i)) e h in omega arith

module _ (to_lower : Text → Text) (same_number : Text → Text → Bool) where
  -- There is evidence, there are rules, and each can be evaluated up to its first condition not met.
  abbrev pub IsComplete : List RiskRule → RiskSubject → Bool → Type 0
  IsComplete rules subject evidence =
      ((evidence ≡ true) × (rules ≢ []))
      × All (λ r. Settled to_lower same_number subject r.all_of) rules

  -- No matched rule is above the level, which is LOW or that of a matched rule.
  pub record IsHighest (rules : List RiskRule) (subject : RiskSubject) (l : RiskLevel)
      : Type 0 where
    pub above_matched :
        All
          (λ r. Matches to_lower same_number subject r → level_index r.risk_level ≤ level_index l)
          rules
    pub of_rule :
        (l ≡ low) ⊎ Exists (λ r. Matches to_lower same_number subject r × (r.risk_level ≡ l)) rules

  -- What the level says: something was missing, or it is the highest.
  abbrev pub Judges : List RiskRule → RiskSubject → Bool → ComputedRisk → Type 0
  Judges rules subject evidence unknown = ¬ IsComplete rules subject evidence
  Judges rules subject evidence (computed l) =
      IsComplete rules subject evidence × IsHighest rules subject l

  level_of_peak :
      (rules : List RiskRule) (subject : RiskSubject) (final : ℤ)
      → Exists
          (λ r. Matches to_lower same_number subject r × (final ≡ pos (level_index r.risk_level)))
          rules
      → (l : RiskLevel) × (final ≡ pos (level_index l))
        × Exists (λ r. Matches to_lower same_number subject r × (r.risk_level ≡ l)) rules
  level_of_peak [] subject final h = absurd h
  level_of_peak (r ∷ rs) subject final (inl (m, e)) = (r.risk_level, e, inl (m, refl))
  level_of_peak (r ∷ rs) subject final (inr later) =
      let (l, e, found) = level_of_peak rs subject final later in (l, e, inr found)

  Peak-IsHighest :
      (rules : List RiskRule) (subject : RiskSubject) (final : ℤ)
      → Peak to_lower same_number subject (negsuc 0) rules final
      → ((l : RiskLevel) × (final ≡ pos (level_index l)) × IsHighest rules subject l)
        ⊎ ((n : ℕ) × (final ≡ negsuc n) × IsHighest rules subject low)
  Peak-IsHighest rules subject final peak = elim peak.attained [
    | inr found ↦
        let (l, e, of_l) = level_of_peak rules subject final found in
        inl (
          l,
          e,
          record {
            above_matched =
                All-map
                  {P = λ r.
                    Matches to_lower same_number subject r
                    → AtMost (pos (level_index r.risk_level)) final}
                  {Q = λ r.
                    Matches to_lower same_number subject r
                    → level_index r.risk_level ≤ level_index l}
                  (λ r h m. below (level_index r.risk_level) (level_index l) final e (h m)) rules
                  peak.bounds;
            of_rule = inr of_l;
          },
        )
    | inl same ↦ inr (
      0,
      same,
      record {
        above_matched =
            All-map
              {P = λ r.
                Matches to_lower same_number subject r
                → AtMost (pos (level_index r.risk_level)) final}
              {Q = λ r.
                Matches to_lower same_number subject r → level_index r.risk_level ≤ level_index low}
              (λ r h m. absurd (never_below (level_index r.risk_level) final same (h m))) rules
              peak.bounds;
        of_rule = inl refl;
      },
    )
  ]

  -- The level is UNKNOWN exactly if evidence, rules or the value of a condition that was reached is
  -- missing; otherwise it is no lower than that of any rule whose conditions are all met, and it is
  -- LOW or the level of such a rule.
  pub evaluate_risk-Judges :
      (rules : List RiskRule) (subject : RiskSubject) (evidence : Bool)
      → Judges rules subject evidence
          ((evaluate_risk to_lower same_number rules subject evidence).level)
  unfolding evaluate_risk
  evaluate_risk-Judges rules subject evidence =
      let start : Totals = record {
        unavailable_so_far = missing_inputs rules evidence;
        matched_so_far = [];
        reasons_so_far = [];
        conditions_so_far = 0;
        highest = negsuc 0;
      } in
      let totals = evaluate_rules to_lower same_number start rules subject in
      let (to, from) = evaluate_rules-Settled to_lower same_number start rules subject in
      let (inputs_to, inputs_from) = missing_inputs-nil rules evidence in
      elim (List-cases totals.unavailable_so_far) [
        | inr (r, rs, e) ↦
            subst (Judges rules subject evidence)
              (sym (evaluation_of-unknown (length rules) totals r rs e))
              (λ complete. let k = from (inputs_from complete.0, complete.1) in cc)
        | inl empty ↦
            let (inputs, settled) = to empty in
            let complete : IsComplete rules subject evidence = (inputs_to inputs, settled) in
            elim (Peak-IsHighest rules subject totals.highest
              (evaluate_rules-Peak to_lower same_number start rules subject)) [
                | inl (l, e, highest) ↦
                    subst (Judges rules subject evidence)
                      (sym (
                        evaluation_of-pos (length rules) totals l empty e
                        ∙ ap computed (level_at-level_index l)))
                      (complete, highest)
                | inr (n, e, highest) ↦
                    subst (Judges rules subject evidence)
                      (sym (evaluation_of-negsuc (length rules) totals n empty e))
                      (complete, highest)
              ]
      ]
