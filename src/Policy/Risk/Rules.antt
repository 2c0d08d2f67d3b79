-- ===== src/Policy/Risk/Rules.antt =====
-- validateRiskRules and validateCondition of src/risk.ts, on a parsed value. A pointer is the list of its
-- steps, and a finding keeps what its text says as data.
pub mod Conditions
pub mod Accepted
mod Tests
use code_fleet.Prelude.{
  ℕ, suc, ◌+◌, Bool, true, false, not, ◌&&◌, ◌||◌, Option, none, some, List, [], ◌∷◌, ◌++◌, Text,
  text, ◌==◌, elem, keep, upper_snake, if◌then◌else◌,
}
use code_fleet.Prelude.Json.{
  Json, null, boolean, number, string, array, object, Items, no_items, item, Fields, keys_of, get,
}
use code_fleet.Policy.Paths.{PatternProblem, validate_pattern}
use code_fleet.Policy.Risk.{
  MatchTarget, on_path, on_command, on_agent_role, on_task_scope, on_diff, on_file_content,
  on_run_evidence, on_human_override, on_llm_signal,
}

pub data Step : Type 0 where
  key_step : Text → Step
  index_step : ℕ → Step

pub data RuleProblem : Type 0 where
  rules_not_array rule_not_object rule_id_malformed rule_id_repeated risk_level_unknown :
      RuleProblem
  all_of_empty condition_not_object match_target_unknown nesting_key negation_key : RuleProblem
  glob_missing argv_malformed match_mode_unknown pattern_missing field_missing : RuleProblem
  any_of_missing : RuleProblem
  unexpected_keys : List Text → RuleProblem
  glob_problem : PatternProblem → RuleProblem

pub record RiskFinding : Type 0 where
  pub json_pointer : List Step
  pub problem : RuleProblem

abbrev pub risk_levels : List Text
risk_levels = text "LOW" ∷ text "MEDIUM" ∷ text "HIGH" ∷ []

-- `MATCH_TARGETS`, by the name of a target
pub target_named : Text → Option MatchTarget
target_named name =
    if name == text "PATH"
    then some on_path
    else if name == text "COMMAND"
    then some on_command
    else if name == text "AGENT_ROLE"
    then some on_agent_role
    else if name == text "TASK_SCOPE"
    then some on_task_scope
    else if name == text "DIFF"
    then some on_diff
    else if name == text "FILE_CONTENT"
    then some on_file_content
    else if name == text "RUN_EVIDENCE"
    then some on_run_evidence
    else if name == text "HUMAN_OVERRIDE"
    then some on_human_override
    else if name == text "LLM_SIGNAL"
    then some on_llm_signal
    else none

abbrev field_keys : List Text
field_keys = text "field" ∷ text "anyOf" ∷ []

-- `TARGET_KEYS`
pub target_keys : MatchTarget → List Text
target_keys on_path = text "glob" ∷ []
target_keys on_task_scope = text "glob" ∷ []
target_keys on_diff = text "glob" ∷ []
target_keys on_command = text "argv" ∷ text "matchMode" ∷ []
target_keys on_file_content = text "pattern" ∷ []
target_keys on_agent_role = field_keys
target_keys on_run_evidence = field_keys
target_keys on_human_override = field_keys
target_keys on_llm_signal = field_keys

abbrev pub negation_keys : List Text
negation_keys =
    text "not" ∷ text "negate" ∷ text "none" ∷ text "exclude" ∷ text "unless" ∷ text "noneOf" ∷ []

abbrev pub nesting_keys : List Text
nesting_keys = text "allOf" ∷ text "anyOfConditions" ∷ text "oneOf" ∷ text "conditions" ∷ []

pub found_at : List Step → RuleProblem → List RiskFinding
found_at pointer problem = record { json_pointer = pointer; problem = problem } ∷ []

pub at_key : List Step → Text → List Step
at_key pointer key = pointer ++ key_step key ∷ []

pub found_if : Bool → List Step → RuleProblem → List RiskFinding
unfolding found_at
found_if test pointer problem = if test then found_at pointer problem else []

-- The loop over the keys
pub forbidden_keys : List Step → List Text → List RiskFinding
forbidden_keys pointer [] = []
forbidden_keys pointer (key ∷ keys) =
    found_if (elem nesting_keys key) (at_key pointer key) nesting_key
    ++ (found_if (elem negation_keys key) (at_key pointer key) negation_key
        ++ forbidden_keys pointer keys)

-- A key that is neither allowed for the target nor reported as forbidden
pub is_extra : MatchTarget → Text → Bool
is_extra target key =
    not (elem (text "matchTarget" ∷ target_keys target) key)
    && not (elem negation_keys key)
    && not (elem nesting_keys key)

pub extra_keys : List Step → List Text → List RiskFinding
unfolding found_at
extra_keys pointer [] = []
extra_keys pointer (key ∷ keys) = found_at pointer (unexpected_keys (key ∷ keys))

-- A string that is not empty
pub has_text : Option Json → Bool
has_text (some (string (c ∷ s))) = true
has_text _ = false

pub all_strings : Items → Bool
all_strings no_items = true
all_strings (item (string s) js) = all_strings js
all_strings (item _ js) = false

pub has_strings : Option Json → Bool
has_strings (some (array (item j js))) = all_strings (item j js)
has_strings _ = false

pub has_items : Option Json → Bool
has_items (some (array (item j js))) = true
has_items _ = false

pub is_mode : Option Json → Bool
is_mode none = true
is_mode (some (string mode)) = mode == text "PREFIX" || mode == text "EXACT"
is_mode (some _) = false

pub glob_findings : List Step → Option Json → List RiskFinding
unfolding found_at
glob_findings pointer (some (string (c ∷ s))) = elim (validate_pattern (c ∷ s)) [
  | none ↦ []
  | some p ↦ found_at (at_key pointer (text "glob")) (glob_problem p)
]
glob_findings pointer _ = found_at (at_key pointer (text "glob")) glob_missing

pub field_findings : List Step → Fields → List RiskFinding
field_findings pointer fields =
    found_if (not (has_text (get (text "field") fields))) (at_key pointer (text "field"))
      field_missing
    ++ found_if (not (has_items (get (text "anyOf") fields))) (at_key pointer (text "anyOf"))
        any_of_missing

-- The `switch` of `validateCondition`
pub target_findings : List Step → MatchTarget → Fields → List RiskFinding
unfolding field_findings
target_findings pointer target fields = elim target [
  | on_path ↦ glob_findings pointer (get (text "glob") fields)
  | on_task_scope ↦ glob_findings pointer (get (text "glob") fields)
  | on_diff ↦ glob_findings pointer (get (text "glob") fields)
  | on_command ↦
      found_if (not (has_strings (get (text "argv") fields))) (at_key pointer (text "argv"))
        argv_malformed
      ++ found_if (not (is_mode (get (text "matchMode") fields)))
          (at_key pointer (text "matchMode")) match_mode_unknown
  | on_file_content ↦
      found_if (not (has_text (get (text "pattern") fields))) (at_key pointer (text "pattern"))
        pattern_missing
  | on_agent_role ↦ field_findings pointer fields
  | on_run_evidence ↦ field_findings pointer fields
  | on_human_override ↦ field_findings pointer fields
  | on_llm_signal ↦ field_findings pointer fields
]

pub target_of : Option Json → Option MatchTarget
target_of (some (string name)) = target_named name
target_of _ = none

-- `validateCondition(value, pointer)`
pub validate_condition : Json → List Step → List RiskFinding
unfolding found_at
validate_condition (object fields) pointer = elim (target_of (get (text "matchTarget") fields)) [
  | none ↦ found_at (at_key pointer (text "matchTarget")) match_target_unknown
  | some target ↦
      forbidden_keys pointer (keys_of fields)
      ++ (extra_keys pointer (keep (is_extra target) (keys_of fields))
          ++ target_findings pointer target fields)
]
validate_condition _ pointer = found_at pointer condition_not_object

pub validate_conditions : List Step → ℕ → Items → List RiskFinding
validate_conditions pointer index no_items = []
validate_conditions pointer index (item condition conditions) =
    validate_condition condition (pointer ++ index_step index ∷ [])
    ++ validate_conditions pointer (suc index) conditions

-- `rule.ruleId`: its findings, and the ids seen after it
pub id_findings : List Step → List Text → Option Json → List RiskFinding
id_findings pointer seen (some (string id)) =
    if not (upper_snake id)
    then found_at (at_key pointer (text "ruleId")) rule_id_malformed
    else found_if (elem seen id) (at_key pointer (text "ruleId")) rule_id_repeated
id_findings pointer seen _ = found_at (at_key pointer (text "ruleId")) rule_id_malformed

pub seen_after : List Text → Option Json → List Text
seen_after seen (some (string id)) =
    if upper_snake id && not (elem seen id) then id ∷ seen else seen
seen_after seen _ = seen

pub is_level : Option Json → Bool
is_level (some (string level)) = elem risk_levels level
is_level _ = false

pub all_of_findings : List Step → Option Json → List RiskFinding
all_of_findings pointer (some (array (item j js))) =
    validate_conditions (at_key pointer (text "allOf")) 0 (item j js)
all_of_findings pointer _ = found_at (at_key pointer (text "allOf")) all_of_empty

pub rule_findings : List Step → List Text → Fields → List RiskFinding
rule_findings pointer seen rule =
    id_findings pointer seen (get (text "ruleId") rule)
    ++ (found_if (not (is_level (get (text "riskLevel") rule))) (at_key pointer (text "riskLevel"))
          risk_level_unknown
        ++ all_of_findings pointer (get (text "allOf") rule))

pub rules_findings : List Step → ℕ → List Text → Items → List RiskFinding
rules_findings pointer index seen no_items = []
rules_findings pointer index seen (item (object rule) rules) =
    rule_findings (pointer ++ index_step index ∷ []) seen rule
    ++ rules_findings pointer (suc index) (seen_after seen (get (text "ruleId") rule)) rules
rules_findings pointer index seen (item _ rules) =
    found_at (pointer ++ index_step index ∷ []) rule_not_object
    ++ rules_findings pointer (suc index) seen rules

-- `validateRiskRules(value, pointer)`, where `undefined` is none
pub validate_risk_rules : Option Json → List Step → List RiskFinding
validate_risk_rules none pointer = []
validate_risk_rules (some (array rules)) pointer = rules_findings pointer 0 [] rules
validate_risk_rules (some _) pointer = found_at pointer rules_not_array
