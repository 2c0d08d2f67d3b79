-- ===== src/Policy/Risk/Rules/Tests.antt =====
-- A rule of one condition, and the theorem of the validator on it.
use code_fleet.Prelude.{◌≡◌, refl, some, [], Text, text, ◌==◌, elem, upper_snake}
use code_fleet.Prelude.Json.{
  string, array, object, Items, no_items, item, no_fields, field, get, keys_of,
}
use code_fleet.Policy.Risk.Rules.{
  validate_risk_rules, rules_findings, rule_findings, id_findings, found_if, is_level,
  all_of_findings, validate_conditions, validate_condition, target_of, target_named, forbidden_keys,
  extra_keys, is_extra, target_keys, target_findings, field_findings, has_text, has_items,
  seen_after,
}
use code_fleet.Policy.Risk.Rules.Accepted.{AreRules, validate_risk_rules-AreRules}

abbrev one_rule : Text → Text → Items
one_rule level extra =
    item
      (object (
        field (text "ruleId") (string (text "WRITER")) (
          field (text "riskLevel") (string level) (
            field (text "allOf")
              (array (
                item
                  (object (
                    field (text "matchTarget") (string (text "AGENT_ROLE")) (
                      field (text "field") (string (text "role")) (
                        field extra (array (item (string (text "DOCS_WRITER")) no_items))
                          no_fields))))
                  no_items))
              no_fields))))
      no_items

accepted : validate_risk_rules (some (array (one_rule (text "LOW") (text "anyOf")))) [] ≡ []
unfolding validate_risk_rules rules_findings rule_findings id_findings found_if is_level
    all_of_findings validate_conditions validate_condition target_of target_named forbidden_keys
    extra_keys is_extra target_keys target_findings field_findings has_text has_items get keys_of
    ◌==◌ elem upper_snake seen_after
accepted = refl

validate_risk_rules-AreRules_example : AreRules [] (one_rule (text "LOW") (text "anyOf"))
validate_risk_rules-AreRules_example =
    validate_risk_rules-AreRules (one_rule (text "LOW") (text "anyOf")) [] accepted
