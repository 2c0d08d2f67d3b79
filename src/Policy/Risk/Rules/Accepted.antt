-- ===== src/Policy/Risk/Rules/Accepted.antt =====
-- What validateRiskRules accepts.
use code_fleet.Prelude.{
  ℕ, suc, ◌≡◌, refl, subst, true, false, not, Option, none, some, List, [], ◌∷◌, ◌++◌, Text, text,
  elem, upper_snake, All, append-nil_iff, arith,
}
use code_fleet.Prelude.Json.{
  Json, null, boolean, number, string, array, object, Items, no_items, item, elements, get,
}
use code_fleet.Policy.Paths.{}
use code_fleet.Policy.Risk.{}
use code_fleet.Policy.Risk.Rules.{
  Step, risk_level_unknown, index_step, found_at, at_key, found_if, id_findings, seen_after,
  is_level, all_of_findings, rule_findings, rules_findings, validate_risk_rules,
}
use code_fleet.Policy.Risk.Rules.Conditions.{IsCondition, found_if-nil, conditions-IsCondition}

abbrev pub HasConditions : Option Json → Type 0
HasConditions (some (array (item j js))) = All IsCondition (elements (item j js))
HasConditions _ = ⊥

-- Rules with levels and conditions, each with an identifier in upper snake case that is not in `seen`
-- and is none of those before it
abbrev pub AreRules : List Text → Items → Type 0
AreRules seen no_items = Unit
AreRules seen (item (object rule) rules) =
    (id : Text) × (get (text "ruleId") rule ≡ some (string id))
    × (upper_snake id ≡ true)
    × (elem seen id ≡ false)
    × (is_level (get (text "riskLevel") rule) ≡ true)
    × HasConditions (get (text "allOf") rule)
    × AreRules (id ∷ seen) rules
AreRules seen (item _ rules) = ⊥

-- An accepted identifier is recorded.
id_findings-nil :
    (pointer : List Step) (seen : List Text) (o : Option Json)
    → id_findings pointer seen o ≡ []
    → (id : Text) × (o ≡ some (string id))
      × (upper_snake id ≡ true)
      × (elem seen id ≡ false)
      × (seen_after seen o ≡ id ∷ seen)
unfolding id_findings found_if found_at seen_after
id_findings-nil pointer seen none h = cc
id_findings-nil pointer seen (some null) h = cc
id_findings-nil pointer seen (some (boolean b)) h = cc
id_findings-nil pointer seen (some (number n)) h = cc
id_findings-nil pointer seen (some (array js)) h = cc
id_findings-nil pointer seen (some (object fs)) h = cc
id_findings-nil pointer seen (some (string id)) h =
    (id, refl, ground arith, ground arith, ground arith)

all_of-HasConditions :
    (pointer : List Step) (o : Option Json) → all_of_findings pointer o ≡ [] → HasConditions o
unfolding all_of_findings found_at
all_of-HasConditions pointer none h = cc
all_of-HasConditions pointer (some null) h = cc
all_of-HasConditions pointer (some (boolean b)) h = cc
all_of-HasConditions pointer (some (number n)) h = cc
all_of-HasConditions pointer (some (string s)) h = cc
all_of-HasConditions pointer (some (object fs)) h = cc
all_of-HasConditions pointer (some (array no_items)) h = cc
all_of-HasConditions pointer (some (array (item j js))) h =
    conditions-IsCondition (at_key pointer (text "allOf")) 0 (item j js) h

rules-AreRules :
    (pointer : List Step) (index : ℕ) (seen : List Text) (js : Items)
    → rules_findings pointer index seen js ≡ []
    → AreRules seen js
unfolding rules_findings rule_findings found_at
rules-AreRules pointer index seen no_items h = tt
rules-AreRules pointer index seen (item null rules) h = cc
rules-AreRules pointer index seen (item (boolean b) rules) h = cc
rules-AreRules pointer index seen (item (number n) rules) h = cc
rules-AreRules pointer index seen (item (string s) rules) h = cc
rules-AreRules pointer index seen (item (array js) rules) h = cc
rules-AreRules pointer index seen (item (object rule) rules) h =
    let at = pointer ++ index_step index ∷ [] in
    let next =
      rules_findings pointer (suc index) (seen_after seen (get (text "ruleId") rule)) rules in
    let level =
      found_if (not (is_level (get (text "riskLevel") rule))) (at_key at (text "riskLevel"))
        risk_level_unknown in
    let (here, later) = (append-nil_iff (rule_findings at seen rule) next).0 h in
    let (id, rest) =
      (append-nil_iff (id_findings at seen (get (text "ruleId") rule))
          (level ++ all_of_findings at (get (text "allOf") rule))).0
        here in
    let (known, conditions) =
      (append-nil_iff level (all_of_findings at (get (text "allOf") rule))).0 rest in
    let (name, named, upper, fresh, recorded) =
      id_findings-nil at seen (get (text "ruleId") rule) id in
    (
      name,
      named,
      upper,
      fresh,
      found_if-nil (is_level (get (text "riskLevel") rule)) (at_key at (text "riskLevel"))
          risk_level_unknown known,
      all_of-HasConditions at (get (text "allOf") rule) conditions,
      subst (λ ids. AreRules ids rules) recorded
          (rules-AreRules pointer (suc index) (seen_after seen (get (text "ruleId") rule)) rules
            later),
    )

-- If a list of risk rules is validated without findings, each is an object with an identifier in upper
-- snake case that no rule before it has, a level, and at least one condition; and each condition is an
-- object with a known target, with no key but those of the target, none of negation or of nesting, and
-- with what the matcher of the target needs.
pub validate_risk_rules-AreRules :
    (rules : Items) (pointer : List Step)
    → validate_risk_rules (some (array rules)) pointer ≡ []
    → AreRules [] rules
unfolding validate_risk_rules
validate_risk_rules-AreRules rules pointer h = rules-AreRules pointer 0 [] rules h
