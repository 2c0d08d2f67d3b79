-- ===== src/Policy/Risk.antt =====
-- The evaluation of risk rules, of src/risk.ts: a rule is a conjunction of conditions, each decided by a
-- matcher of the other policies. Texts of reasons are kept as data. `===` of two number literals is a
-- parameter, as `toLowerCase` is; a rule's definedByRef is not read.
pub mod Conditions
pub mod Highest
pub mod Level
pub mod Rules
mod Tests
use code_fleet.Prelude.{
  ℕ, zero, suc, ◌+◌, Bool, true, false, Option, none, some, List, [], ◌∷◌, ◌++◌, map, Text, ◌==◌,
  elem, any, length, ℤ, pos, negsuc, ltb_ℤ, if◌then◌else◌,
}
use code_fleet.Prelude.Json.{Json, null, boolean, number, string, array, object, Items, Fields, get}
use code_fleet.Policy.Paths.{matches_pattern}
use code_fleet.Policy.Commands.{MatchMode, prefix, CommandMatcher, matches_command}
use code_fleet.Policy.Roles.{object_members}

pub data RiskLevel : Type 0 where
  low medium high : RiskLevel

pub data ComputedRisk : Type 0 where
  computed : RiskLevel → ComputedRisk
  unknown : ComputedRisk

pub data MatchTarget : Type 0 where
  on_path on_command on_agent_role on_task_scope on_diff on_file_content : MatchTarget
  on_run_evidence on_human_override on_llm_signal : MatchTarget

pub record RiskCondition : Type 0 where
  pub match_target : MatchTarget
  pub glob : Option Text
  pub argv : Option (List Text)
  pub match_mode : Option MatchMode
  pub pattern : Option Text
  pub field_name : Option Text
  pub any_of : Option (List Json)

pub record RiskRule : Type 0 where
  pub rule_id : Text
  pub all_of : List RiskCondition
  pub risk_level : RiskLevel

pub record RiskSubject : Type 0 where
  pub changed_paths : List Text
  pub scope_patterns : List Text
  pub commands : List (List Text)
  pub fields : Fields
  pub case_sensitive_paths : Bool

pub data UnavailableReason : Type 0 where
  risk_input_evidence_degraded no_risk_rules_configured : UnavailableReason
  risk_condition_not_evaluable : Text → MatchTarget → UnavailableReason

pub data RiskReason : Type 0 where
  rule_matched : Text → RiskLevel → RiskReason
  no_risk_rule_matched : RiskReason
  not_available : UnavailableReason → RiskReason

pub record ScanScope : Type 0 where
  pub rules_evaluated : ℕ
  pub conditions_evaluated : ℕ
  pub rules_matched : ℕ

pub record RiskEvaluation : Type 0 where
  pub level : ComputedRisk
  pub reasons : List RiskReason
  pub matched_rule_ids : List Text
  pub unavailable_reasons : List UnavailableReason
  pub scan_scope : ScanScope

-- `RISK_LEVELS.indexOf` and `RISK_LEVELS[index]`
abbrev pub level_index : RiskLevel → ℕ
level_index low = 0
level_index medium = 1
level_index high = 2

pub level_at : ℕ → RiskLevel
level_at zero = low
level_at (suc zero) = medium
level_at (suc (suc n)) = high

-- What `evaluateCondition` returns
pub data Outcome : Type 0 where
  decided : Bool → Outcome
  unavailable : Outcome

or_empty : Option Text → Text
or_empty none = []
or_empty (some t) = t

or_none {ℓ} : {A : Type ℓ} → Option (List A) → List A
or_none none = []
or_none (some xs) = xs

in_scope : List Text → Option Text → Bool
in_scope patterns none = false
in_scope patterns (some glob) = elem patterns glob

pub record Totals : Type 0 where
  pub unavailable_so_far : List UnavailableReason
  pub matched_so_far : List Text
  pub reasons_so_far : List RiskReason
  pub conditions_so_far : ℕ
  pub highest : ℤ

-- What the loop over the conditions of a rule found
pub record RuleScan : Type 0 where
  pub scanned : ℕ
  pub all_matched : Bool
  pub not_evaluable : Option MatchTarget

-- `Math.max`
pub max_ℤ : ℤ → ℤ → ℤ
max_ℤ a b = if ltb_ℤ a b then b else a

pub unavailable_of : Text → Option MatchTarget → List UnavailableReason
unavailable_of id none = []
unavailable_of id (some target) = risk_condition_not_evaluable id target ∷ []

-- What is unavailable before any rule is read
pub missing_inputs : List RiskRule → Bool → List UnavailableReason
missing_inputs [] true = no_risk_rules_configured ∷ []
missing_inputs [] false = risk_input_evidence_degraded ∷ no_risk_rules_configured ∷ []
missing_inputs (r ∷ rs) true = []
missing_inputs (r ∷ rs) false = risk_input_evidence_degraded ∷ []

-- The two returns of `evaluateRisk`
pub evaluation_of : ℕ → Totals → RiskEvaluation
evaluation_of rules totals =
    let scope : ScanScope = record {
      rules_evaluated = rules;
      conditions_evaluated = totals.conditions_so_far;
      rules_matched = length totals.matched_so_far;
    } in
    elim totals.unavailable_so_far [
      | r ∷ rs ↦ record {
        level = unknown;
        reasons = map not_available (r ∷ rs);
        matched_rule_ids = totals.matched_so_far;
        unavailable_reasons = r ∷ rs;
        scan_scope = scope;
      }
      | [] ↦ elim totals.highest [
        | pos index ↦ record {
          level = computed (level_at index);
          reasons = totals.reasons_so_far;
          matched_rule_ids = totals.matched_so_far;
          unavailable_reasons = [];
          scan_scope = scope;
        }
        | negsuc n ↦ record {
          level = computed low;
          reasons = no_risk_rule_matched ∷ [];
          matched_rule_ids = totals.matched_so_far;
          unavailable_reasons = [];
          scan_scope = scope;
        }
      ]
    ]

module _ (to_lower : Text → Text) (same_number : Text → Text → Bool) where
  -- `===` on values that were parsed apart: two objects, or two arrays, are never the same.
  strict_eq : Json → Json → Bool
  strict_eq null null = true
  strict_eq (boolean true) (boolean true) = true
  strict_eq (boolean false) (boolean false) = true
  strict_eq (number a) (number b) = same_number a b
  strict_eq (string a) (string b) = a == b
  strict_eq _ _ = false

  -- The default case: a field that is set is compared with each candidate. An inherited one is set, to a
  -- value that no candidate is.
  pub evaluate_field : RiskCondition → RiskSubject → Outcome
  unfolding strict_eq or_empty or_none
  evaluate_field condition subject =
      let name = or_empty condition.field_name in
      elim (get name subject.fields) [
        | some value ↦
            decided (any (λ candidate. strict_eq candidate value) (or_none condition.any_of))
        | none ↦ if elem object_members name then decided false else unavailable
      ]

  changed_path_matches : RiskCondition → RiskSubject → Outcome
  unfolding or_empty
  changed_path_matches condition subject = decided (
      any (λ p. matches_pattern to_lower p (or_empty condition.glob) subject.case_sensitive_paths)
        subject.changed_paths)

  mode_or_prefix : Option MatchMode → MatchMode
  mode_or_prefix none = prefix
  mode_or_prefix (some mode) = mode

  -- `evaluateCondition(condition, subject)`
  pub evaluate_condition : RiskCondition → RiskSubject → Outcome
  unfolding changed_path_matches in_scope or_none mode_or_prefix
  evaluate_condition condition subject = elim condition.match_target [
    | on_path ↦ changed_path_matches condition subject
    | on_diff ↦ changed_path_matches condition subject
    | on_task_scope ↦ decided (in_scope subject.scope_patterns condition.glob)
    | on_command ↦ decided (
        any
          (λ argv.
            matches_command to_lower argv
              (record {
                argv = or_none condition.argv;
                match_mode = some (mode_or_prefix condition.match_mode);
              })
              true)
          subject.commands)
    | on_file_content ↦ unavailable
    | on_agent_role ↦ evaluate_field condition subject
    | on_run_evidence ↦ evaluate_field condition subject
    | on_human_override ↦ evaluate_field condition subject
    | on_llm_signal ↦ evaluate_field condition subject
  ]

  -- The inner loop, which stops at the first condition that is not met.
  pub scan_conditions : List RiskCondition → RiskSubject → RuleScan
  scan_conditions [] subject = record { scanned = 0; all_matched = true; not_evaluable = none }
  scan_conditions (condition ∷ conditions) subject = elim (evaluate_condition condition subject) [
    | unavailable ↦ record {
      scanned = 1;
      all_matched = false;
      not_evaluable = some condition.match_target;
    }
    | decided met ↦
        let rest = scan_conditions conditions subject in
        if met
        then record {
          scanned = suc rest.scanned;
          all_matched = rest.all_matched;
          not_evaluable = rest.not_evaluable;
        }
        else record { scanned = 1; all_matched = false; not_evaluable = none }
  ]

  -- One round of the loop over the rules
  pub evaluate_rule : Totals → RiskRule → RiskSubject → Totals
  unfolding unavailable_of
  evaluate_rule totals rule subject =
      let scan = scan_conditions rule.all_of subject in
      let missing = totals.unavailable_so_far ++ unavailable_of rule.rule_id scan.not_evaluable in
      let count = totals.conditions_so_far + scan.scanned in
      if scan.all_matched
      then record {
        unavailable_so_far = missing;
        matched_so_far = totals.matched_so_far ++ rule.rule_id ∷ [];
        reasons_so_far = totals.reasons_so_far ++ rule_matched rule.rule_id rule.risk_level ∷ [];
        conditions_so_far = count;
        highest = max_ℤ totals.highest (pos (level_index rule.risk_level));
      }
      else record {
        unavailable_so_far = missing;
        matched_so_far = totals.matched_so_far;
        reasons_so_far = totals.reasons_so_far;
        conditions_so_far = count;
        highest = totals.highest;
      }

  pub evaluate_rules : Totals → List RiskRule → RiskSubject → Totals
  evaluate_rules totals [] subject = totals
  evaluate_rules totals (rule ∷ rules) subject =
      evaluate_rules (evaluate_rule totals rule subject) rules subject

  -- `evaluateRisk`
  pub evaluate_risk : List RiskRule → RiskSubject → (evidence_available : Bool) → RiskEvaluation
  unfolding missing_inputs
  evaluate_risk rules subject evidence_available = evaluation_of (length rules) (
      evaluate_rules
        (record {
          unavailable_so_far = missing_inputs rules evidence_available;
          matched_so_far = [];
          reasons_so_far = [];
          conditions_so_far = 0;
          highest = negsuc 0;
        })
        rules subject)

-- `blocksAutomaticProgression(level)`
pub blocks_automatic_progression : ComputedRisk → Bool
blocks_automatic_progression unknown = true
blocks_automatic_progression (computed l) = false
