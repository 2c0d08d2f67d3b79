-- ===== src/Policy/Risk/Tests.antt =====
-- Two rules on the scope of a task, and the theorem of the level on them.
use code_fleet.Prelude.{◌≡◌, refl, true, none, some, [], ◌∷◌, List, Text, text, ◌==◌, elem, lower}
use code_fleet.Prelude.Json.{string, no_fields, field, get}
use code_fleet.Policy.Risk.{
  medium, high, computed, unknown, on_task_scope, on_agent_role, on_file_content, MatchTarget,
  RiskCondition, RiskRule, RiskSubject, evaluate_condition, scan_conditions, evaluate_rule,
  evaluate_rules, evaluate_field, max_ℤ, level_at, evaluation_of, evaluate_risk, ComputedRisk,
}
use code_fleet.Policy.Risk.Level.{Judges, evaluate_risk-Judges}

abbrev condition_on : MatchTarget → RiskCondition
condition_on target = record {
  match_target = target;
  glob = some (text "src/**");
  argv = none;
  match_mode = none;
  pattern = none;
  field_name = some (text "role");
  any_of = some (string (text "DOCS_WRITER") ∷ []);
}

abbrev source_rule : RiskRule
source_rule = record {
  rule_id = text "SOURCE";
  all_of = condition_on on_task_scope ∷ [];
  risk_level = medium;
}

abbrev writer_rule : RiskRule
writer_rule = record {
  rule_id = text "WRITER";
  all_of = condition_on on_task_scope ∷ condition_on on_agent_role ∷ [];
  risk_level = high;
}

abbrev content_rule : RiskRule
content_rule = record {
  rule_id = text "CONTENT";
  all_of = condition_on on_file_content ∷ [];
  risk_level = high;
}

abbrev subject : Text → RiskSubject
subject role = record {
  changed_paths = text "src/a.js" ∷ [];
  scope_patterns = text "src/**" ∷ [];
  commands = [];
  fields = field (text "role") (string role) no_fields;
  case_sensitive_paths = true;
}

abbrev level_of : List RiskRule → Text → ComputedRisk
level_of rules role = (evaluate_risk lower (λ a b. a == b) rules (subject role) true).level

partly_matched : level_of (source_rule ∷ writer_rule ∷ []) (text "INFRA_OPERATOR") ≡ computed medium
unfolding evaluate_risk evaluation_of evaluate_rules evaluate_rule scan_conditions
    evaluate_condition evaluate_field get ◌==◌ elem max_ℤ level_at
partly_matched = refl

both_matched : level_of (source_rule ∷ writer_rule ∷ []) (text "DOCS_WRITER") ≡ computed high
unfolding evaluate_risk evaluation_of evaluate_rules evaluate_rule scan_conditions
    evaluate_condition evaluate_field get ◌==◌ elem max_ℤ level_at
both_matched = refl

no_scanner : level_of (source_rule ∷ content_rule ∷ []) (text "DOCS_WRITER") ≡ unknown
unfolding evaluate_risk evaluation_of evaluate_rules evaluate_rule scan_conditions
    evaluate_condition evaluate_field get ◌==◌ elem max_ℤ level_at
no_scanner = refl

evaluate_risk-Judges_example :
    Judges lower
      (λ a b. a == b)
      (source_rule ∷ writer_rule ∷ [])
      (subject (text "DOCS_WRITER"))
      true
      (level_of (source_rule ∷ writer_rule ∷ []) (text "DOCS_WRITER"))
evaluate_risk-Judges_example =
    evaluate_risk-Judges lower (λ a b. a == b) (source_rule ∷ writer_rule ∷ [])
      (subject (text "DOCS_WRITER")) true
