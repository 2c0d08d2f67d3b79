-- ===== src/Policy/Commands/Tests.antt =====
-- Command policies and matchers, and the theorems of the command policy on them.
use code_fleet.Prelude.{◌≡◌, ◌↔◌, refl, true, none, some, [], ◌∷◌, text, ◌==◌, elem, lower}
use code_fleet.Prelude.Json.{}
use code_fleet.Policy.Commands.{
  CommandMatcher, DestructiveMatcher, NormalizedCommand, allowed, shell_interpreter_denied,
  matches_denied_commands, outside_allowed_commands, destructive_without_approval,
  normalize_command, matches_command, preflight_command,
}
use code_fleet.Policy.Commands.Preflight.{IsAllowed, preflight_command_iff}

abbrev npm_test : CommandMatcher
npm_test = record { argv = text "npm" ∷ text "test" ∷ []; match_mode = none }

abbrev remove : DestructiveMatcher
remove = record {
  matcher = record { argv = text "rm" ∷ text "-rf" ∷ []; match_mode = none };
  category_id = text "DATA_DESTRUCTION";
}

abbrev testing : NormalizedCommand
testing = record {
  argv = text "npm" ∷ text "test" ∷ text "a" ∷ [];
  argv0_original = text "npm";
  cwd = text ".";
}

program_name :
    (normalize_command (text "/usr/bin/npm" ∷ text "test" ∷ text "a" ∷ []) (text ".")).argv
    ≡ testing.argv
unfolding normalize_command
program_name = refl

shell :
    (preflight_command lower
      (normalize_command (text "/bin/BASH" ∷ text "-c" ∷ []) [])
      true
      []
      []
      []
      []).blocked_reason
    ≡ some shell_interpreter_denied
unfolding preflight_command normalize_command elem ◌==◌ lower
shell = refl

denied_in_capitals :
    (preflight_command lower
      (normalize_command (text "NPM" ∷ text "Test" ∷ []) [])
      true
      []
      (npm_test ∷ [])
      []
      []).blocked_reason
    ≡ some matches_denied_commands
unfolding preflight_command normalize_command elem ◌==◌ lower matches_command
denied_in_capitals = refl

allowed_as_written :
    (preflight_command lower
      (normalize_command (text "NPM" ∷ text "test" ∷ []) [])
      true
      (npm_test ∷ [])
      []
      []
      []).blocked_reason
    ≡ some outside_allowed_commands
unfolding preflight_command normalize_command elem ◌==◌ lower matches_command
allowed_as_written = refl

unapproved_removal :
    (preflight_command lower
      (normalize_command (text "rm" ∷ text "-rf" ∷ text "x" ∷ []) [])
      true
      []
      []
      (remove ∷ [])
      []).blocked_reason
    ≡ some destructive_without_approval
unfolding preflight_command normalize_command elem ◌==◌ lower matches_command
unapproved_removal = refl

approved_removal :
    (preflight_command lower
      (normalize_command (text "rm" ∷ text "-rf" ∷ text "x" ∷ []) [])
      true
      []
      []
      (remove ∷ [])
      (text "DATA_DESTRUCTION" ∷ [])).decision
    ≡ allowed
unfolding preflight_command normalize_command elem ◌==◌ lower matches_command
approved_removal = refl

preflight_command_iff_example :
    ((preflight_command lower testing true (npm_test ∷ []) [] (remove ∷ []) []).decision ≡ allowed)
    ↔ IsAllowed lower testing.argv true (npm_test ∷ []) [] (remove ∷ []) []
preflight_command_iff_example =
    preflight_command_iff lower testing true (npm_test ∷ []) [] (remove ∷ []) []
