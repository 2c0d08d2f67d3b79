-- ===== src/Policy/Commands/Problems/Tests.antt =====
-- An entry with three problems, and the theorem of the validator on it.
use code_fleet.Prelude.{◌≡◌, ◌↔◌, refl, true, [], ◌∷◌, map, text, ◌==◌, upper_snake}
use code_fleet.Prelude.Json.{Json, string, array, object, no_items, item, no_fields, field, get}
use code_fleet.Policy.Commands.Problems.{
  pattern_language_not_allowed, unknown_match_mode, category_id_malformed,
  validate_command_matchers, entries_problems, entry_problems, argv_problems, token_problems,
  token_problem, pattern_char, mode_problems, category_problems,
}
use code_fleet.Policy.Commands.Problems.Matchers.{AreMatchers, validate_command_matchers_iff}

abbrev entries : Json
entries = array (
    item
      (object (
        field (text "argv") (array (item (string (text "rm")) (item (string (text "*")) no_items)))
          (field (text "matchMode") (string (text "GLOB"))
            (field (text "categoryId") (string (text "data")) no_fields))))
      no_items)

problems_found :
    map (λ p. p.problem) (validate_command_matchers entries true)
    ≡ pattern_language_not_allowed ∷ unknown_match_mode ∷ category_id_malformed ∷ []
unfolding validate_command_matchers get ◌==◌ upper_snake entries_problems entry_problems
    argv_problems token_problems token_problem pattern_char mode_problems category_problems
problems_found = refl

validate_command_matchers_iff_example :
    (validate_command_matchers entries true ≡ []) ↔ AreMatchers true entries
validate_command_matchers_iff_example = validate_command_matchers_iff entries true
